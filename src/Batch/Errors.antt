-- ===== src/Batch/Errors.antt =====
-- What a batch raises names the operation at fault.
use weave_jacquard.Prelude.{
  ℕ, suc, ◌+◌, ◌++◌, map, ap, subst, false, ◌≤◌, ◌<◌, ◌≡◌, leb, List, [], ◌∷◌, arith, length, refl,
  ◌≢◌, ◌⊎◌, inl, inr, Bool-cases, true,
}
use weave_jacquard.Prelude.Text.{Text, codes, mem_text}
use weave_jacquard.Error.{
  Result, ok, err, validation, not_found, value_error, overflow_error, integrity_error,
  operational_error, out_of_fuel, conflict, batch, Code, Error, missing_structural_target,
  invalid_batch_operation, unknown_batch_operation, >>=-eq-ok, ◌>>◌, ◌>>=◌, require,
  empty_edit_batch, edit_batch_too_large,
}
use weave_jacquard.Sexpr.Runtime.{Runtime}
use weave_jacquard.Sexpr.Node.{Node, str}
use weave_jacquard.Sexpr.Validate.{validate_tree}
use weave_jacquard.Batch.{
  max_batch_operations, Draft, draft_of, blame, dispatch, apply_one, apply_all, transform,
}
use weave_jacquard.Batch.Input.{Raw, object, not_object, scalar, Fields, get_field}

-- How the loop reports a fault of the operation at `index`: a ValidationError and a missing node
-- get the index, and anything else passes.
pub data Located (index : ℕ) : Error → Error → Type 0 where
  coded : (c : Code) → Located index (validation c) (batch c index)
  missing : Located index not_found (batch missing_structural_target index)
  passed_on :
      {fault : Error}
      → ((c : Code) → fault ≢ validation c)
      → fault ≢ not_found
      → Located index fault fault

blame-Located {ℓ κ} :
    {A : Type ℓ} {B : Type κ} (index : ℕ) (f : A → Result B) (fault e : Error)
    → (blame index (err fault) >>= f) ≡ err e
    → Located index fault e
unfolding blame
blame-Located index f (validation d) e h = subst (Located index (validation d)) (cc) (coded d)
blame-Located index f not_found e h = subst (Located index not_found) (cc) missing
blame-Located index f value_error e h =
    subst (Located index value_error) (cc) (passed_on (λ c. cc) (cc))
blame-Located index f overflow_error e h =
    subst (Located index overflow_error) (cc) (passed_on (λ c. cc) (cc))
blame-Located index f integrity_error e h =
    subst (Located index integrity_error) (cc) (passed_on (λ c. cc) (cc))
blame-Located index f operational_error e h =
    subst (Located index operational_error) (cc) (passed_on (λ c. cc) (cc))
blame-Located index f out_of_fuel e h =
    subst (Located index out_of_fuel) (cc) (passed_on (λ c. cc) (cc))
blame-Located index f (conflict cs) e h =
    subst (Located index (conflict cs)) (cc) (passed_on (λ c. cc) (cc))
blame-Located index f (batch d j) e h =
    subst (Located index (batch d j)) (cc) (passed_on (λ c. cc) (cc))

-- The operations that a batch may have.
abbrev pub known_operations : List Text
known_operations =
    map codes
      ("create_form" ∷ "add_atom" ∷ "set_atom" ∷ "move_node" ∷ "wrap_node" ∷ "delete_node" ∷ [])

module _ {F : Type 0} ⦃r : Runtime F⦄ (fresh : ℕ → Text) where
  -- The first operation that fails, of a list that starts at `index` with the draft `d`, and what
  -- is raised for it.
  pub record Fault (index : ℕ) (d : Draft F) (raws : List (Raw F)) (e : Error) : Type 0 where
    pub before : List (Raw F)
    pub raw : Raw F
    pub after : List (Raw F)
    pub at : ℕ
    pub draft : Draft F
    pub fault : Error
    pub split : raws ≡ before ++ raw ∷ after
    pub place : at ≡ index + length before
    pub ran : apply_all fresh before index d ≡ ok draft
    pub failed : apply_one fresh raw at draft ≡ err fault
    pub located : Located at fault e
    pub no_object : raw ≡ not_object → e ≡ batch invalid_batch_operation at
    pub unknown :
        (fields : Fields F) (op : Text)
        → raw ≡ object fields
        → get_field (codes "op") fields ≡ scalar (str op)
        → mem_text op known_operations ≡ false
        → e ≡ batch unknown_batch_operation at

  -- What an operation raises with an index itself is raised by the loop.
  blamed_as {κ} :
      {B : Type κ} (m : Result (Draft F)) (index : ℕ) (f : Draft F → Result B) (c : Code) (j : ℕ)
      (e : Error)
      → m ≡ err (batch c j)
      → (blame index m >>= f) ≡ err e
      → e ≡ batch c j
  unfolding blame
  blamed_as m index f c j e q h =
      let raised : ◌≡◌ {A = Result _} (err (batch c j)) (err e) = rw q at h in cc

  dispatch_unknown :
      (op : Text) (fields : Fields F) (index : ℕ) (d : Draft F)
      → mem_text op known_operations ≡ false
      → dispatch fresh op fields index d ≡ err (batch unknown_batch_operation index)
  unfolding dispatch mem_text
  dispatch_unknown op fields index d h = ground arith

  apply_one_unknown :
      (raw : Raw F) (index : ℕ) (d : Draft F) (fields : Fields F) (op : Text)
      → raw ≡ object fields
      → get_field (codes "op") fields ≡ scalar (str op)
      → mem_text op known_operations ≡ false
      → apply_one fresh raw index d ≡ err (batch unknown_batch_operation index)
  unfolding apply_one
  apply_one_unknown raw index d fields op q k h =
      rw (q, apply_one, k) (dispatch_unknown op fields index d h)

  apply_one_no_object :
      (raw : Raw F) (index : ℕ) (d : Draft F)
      → raw ≡ not_object
      → apply_one fresh raw index d ≡ err (batch invalid_batch_operation index)
  unfolding apply_one
  apply_one_no_object raw index d q = rw q refl

  first-Fault :
      (raw : Raw F) (raws : List (Raw F)) (index : ℕ) (d : Draft F) (e : Error)
      → ((d' : Draft F) → apply_all fresh raws (suc index) d' ≡ err e → Fault (suc index) d' raws e)
      → (m : Result (Draft F)) → apply_one fresh raw index d ≡ m
      → (blame index (apply_one fresh raw index d) >>= apply_all fresh raws (suc index)) ≡ err e
      → Fault index d (raw ∷ raws) e
  unfolding apply_all blame
  first-Fault raw raws index d e others (ok d') q h =
      let f = others d' (rw q at h) in
      record {
        before = raw ∷ f.before;
        raw = f.raw;
        after = f.after;
        at = f.at;
        draft = f.draft;
        fault = f.fault;
        split = ap (λ xs. raw ∷ xs) f.split;
        place = ground (arith, f.place);
        ran = rw q f.ran;
        failed = f.failed;
        located = f.located;
        no_object = f.no_object;
        unknown = f.unknown;
      }
  first-Fault raw raws index d e others (err fault) q h = record {
    before = [];
    raw = raw;
    after = raws;
    at = index;
    draft = d;
    fault = fault;
    split = refl;
    place = omega arith;
    ran = refl;
    failed = q;
    located = blame-Located index (apply_all fresh raws (suc index)) fault e (rw q at h);
    no_object = λ n.
        blamed_as (apply_one fresh raw index d) index _ invalid_batch_operation index e
          (apply_one_no_object raw index d n) h;
    unknown = λ fields op n k no.
        blamed_as (apply_one fresh raw index d) index _ unknown_batch_operation index e
          (apply_one_unknown raw index d fields op n k no) h;
  }

  apply_all-Fault :
      (raws : List (Raw F)) (index : ℕ) (d : Draft F) (e : Error)
      → apply_all fresh raws index d ≡ err e
      → Fault index d raws e
  unfolding apply_all
  apply_all-Fault [] index d e h = cc
  apply_all-Fault (raw ∷ raws) index d e h =
      first-Fault raw raws index d e (λ d' k. apply_all-Fault raws (suc index) d' e k)
        (apply_one fresh raw index d) refl h

  checked_draft : Draft F → Result (Draft F)
  checked_draft d = validate_tree d.root >> ok d

  checked-err :
      (m : Result (Draft F)) (e : Error)
      → (m >>= checked_draft) ≡ err e
      → (m ≡ err e) ⊎ ((d : Draft F) × (m ≡ ok d) × (validate_tree d.root ≡ err e))
  unfolding checked_draft
  checked-err (ok d) e h = inr (d, refl, unchecked (validate_tree d.root) h)
    where
      unchecked : (v : Result (Unit {0})) → (v >> ok d) ≡ err e → v ≡ err e
      unchecked (ok u) k = cc
      unchecked (err e') k = cc
  checked-err (err e') e h = inl (cc)

  -- A batch that raises is empty, or has more than 256 operations, or an operation of it fails,
  -- or the tree that they make is not valid. If one fails, those before it have run, and what is
  -- raised for it has its place in the batch: with its own code for a ValidationError, with
  -- MISSING_STRUCTURAL_TARGET for a node that is not found, with INVALID_BATCH_OPERATION if it is
  -- not an object, and with UNKNOWN_BATCH_OPERATION if it names none of the six operations.
  pub transform_blames :
      (root : Node F) (raws : List (Raw F)) (e : Error)
      → transform fresh root raws ≡ err e
      → ((e ≡ validation empty_edit_batch) × (raws ≡ []))
        ⊎ ((e ≡ validation edit_batch_too_large) × (max_batch_operations < length raws))
        ⊎ Fault 0 (draft_of root) raws e
        ⊎ ((d : Draft F) × (apply_all fresh raws 0 (draft_of root) ≡ ok d)
            × (validate_tree d.root ≡ err e))
  unfolding transform checked_draft
  transform_blames root [] e h = inl (cc, refl)
  transform_blames root (raw ∷ raws) e h =
      let given : leb 1 (length (raw ∷ raws)) ≡ true = ground arith in
      elim (Bool-cases (leb (length (raw ∷ raws)) max_batch_operations)) [
        | inl small ↦
            elim (checked-err (apply_all fresh (raw ∷ raws) 0 (draft_of root)) e
              (rw (given, small) at h)) [
                | inl failed ↦
                    inr (inr (inl (apply_all-Fault (raw ∷ raws) 0 (draft_of root) e failed)))
                | inr invalid ↦ inr (inr (inr invalid))
              ]
        | inr large ↦ inr (
            inl (
              let refused : ◌≡◌ {A = Result (Draft F)} (err (validation edit_batch_too_large))
                  (err e) =
                rw (given, large) at h in
              (cc, ground arith)))
      ]

  -- A batch that succeeds has between 1 and 256 operations, and leaves a valid tree.
  pub transform_bounds :
      (root : Node F) (raws : List (Raw F)) (d : Draft F)
      → transform fresh root raws ≡ ok d
      → (1 ≤ length raws) × (length raws ≤ 256) × (validate_tree d.root ≡ ok tt)
  unfolding transform
  transform_bounds root raws d h =
      let (u₁, e₁, h₁) = >>=-eq-ok (require (leb 1 (length raws)) empty_edit_batch) _ h in
      let (u₂, e₂, h₂) =
        >>=-eq-ok (require (leb (length raws) max_batch_operations) edit_batch_too_large) _ h₁ in
      let (d', e₃, h₃) = >>=-eq-ok (apply_all fresh raws 0 (draft_of root)) _ h₂ in
      let (u₃, e₄, h₄) = >>=-eq-ok (validate_tree d'.root) _ h₃ in
      let same : d' ≡ d = cc in (ground arith, ground arith, rw same at e₄)
