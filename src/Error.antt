-- ===== src/Error.antt =====
-- errors.py: what an operation raises, and the chaining of operations that may raise.
-- An error is its class and, for a `ValidationError`, its `code`; messages and the details that
-- accompany a code are not modelled. `value_error` and `overflow_error` are Python's own
-- exceptions, `integrity_error` and `operational_error` are those of SQLite. `out_of_fuel` has no counterpart in the program.
pub mod Halts
use weave_jacquard.Prelude.{◌≡◌, refl, subst, Bool, true, false, List, ℕ}
use weave_jacquard.Prelude.Text.{Text}

-- The codes of `ValidationError` that the modelled operations raise.
pub data Code : Type 0 where
  invalid_node_id invalid_value atom_value_too_large : Code
  tree_too_deep tree_too_large duplicate_node_id tree_value_bytes_exceeded : Code
  missing_structural_target rendered_source_too_large : Code
  source_too_large unexpected_eof unexpected_rparen trailing_input : Code
  invalid_string invalid_token : Code
  duplicate_document not_atom not_list delete_root move_root move_cycle wrap_root : Code
  invalid_position invalid_scope : Code
  duplicate_branch revision_history_cycle invalid_branch_history_limit : Code
  invalid_expected_revision_id stale_branch_head stale_merge_preview stale_revert_preview : Code
  initial_revision_not_revertible revert_history_scan_limit revision_not_on_branch : Code
  revert_no_changes invalid_revision_id : Code
  revision_dag_node_limit_exceeded revision_dag_edge_limit_exceeded revision_dag_cycle : Code
  invalid_merge_preview_id : Code
  empty_edit_batch edit_batch_too_large invalid_batch_operation unknown_batch_operation : Code
  unknown_batch_field unknown_batch_alias invalid_batch_alias duplicate_batch_alias : Code
  invalid_node_reference invalid_atom_kind missing_value stale_revision : Code
  invalid_candidate_name duplicate_candidate_name candidate_conflict invalid_edit : Code
  invalid_qualification_level qualification_failure stale_qualification : Code
  publication_race : Code
  artifact_retention_policy_invalid artifact_retention_unsafe_classification : Code
  artifact_retention_plan_limit_exceeded : Code

pub data Error : Type 0 where
  validation : Code → Error
  not_found value_error overflow_error integrity_error operational_error out_of_fuel : Error
  conflict : List Text → Error
  -- a validation error of a batch, with the index of its operation
  batch : Code → (operation_index : ℕ) → Error

-- What a call returns, or what it raises.
pub data Result {ℓ} (X : Type ℓ) : Type ℓ where
  ok : (returned : X) → Result X
  err : (exception : Error) → Result X

infixl 5 ◌>>=◌
abbrev pub ◌>>=◌ {μ ν} : {X : Type μ} {Y : Type ν} → Result X → (X → Result Y) → Result Y
ok x >>= rest = rest x
err raised_before >>= rest = err raised_before

infixl 5 ◌>>◌
abbrev pub ◌>>◌ {μ ν} : {X : Type μ} {Y : Type ν} → Result X → Result Y → Result Y
first >> second = first >>= λ _. second

-- `if not test: raise ValidationError(code, ...)`
abbrev pub require : Bool → Code → Result (Unit {0})
require true c = ok tt
require false c = err (validation c)

-- A sequence that returns got a value from its first call.
pub >>=-eq-ok {μ ν} :
    {X : Type μ} {Y : Type ν} (m : Result X) (rest : X → Result Y) {y : Y}
    → (m >>= rest) ≡ ok y
    → (x : X) × (m ≡ ok x) × (rest x ≡ ok y)
>>=-eq-ok (err e) rest h = cc
>>=-eq-ok (ok x) rest h = (x, refl, h)

pub ok-injective {ℓ} : {A : Type ℓ} (a b : A) → ok a ≡ ok b → a ≡ b
ok-injective a b h = cc

pub require-eq-ok : (b : Bool) (c : Code) → require b c ≡ ok tt → b ≡ true
require-eq-ok true c h = refl
require-eq-ok false c h = cc

pub >>=-congr {ℓ κ} :
    {A : Type ℓ} {B : Type κ} (m : Result A) (f g : A → Result B)
    → ((a : A) → f a ≡ g a)
    → (m >>= f) ≡ (m >>= g)
>>=-congr (ok a) f g h = h a
>>=-congr (err e) f g h = refl

-- `P` holds of what is returned, if anything is.
pub data Ensures {ℓ κ} {A : Type ℓ} (P : A → Type κ) : Result A → Type (ℓ ⊔ κ) where
  holds : {a : A} → P a → Ensures P (ok a)
  raised : {e : Error} → Ensures P (err e)

pub Ensures-ok {ℓ κ} :
    {A : Type ℓ} {P : A → Type κ} {m : Result A} {a : A} → Ensures P m → m ≡ ok a → P a
Ensures-ok {P} (holds h) e = subst P (cc) h
Ensures-ok raised e = cc

pub >>=-Ensures {ℓ κ μ} :
    {A : Type ℓ} {B : Type κ} {P : B → Type μ} (m : Result A) (f : A → Result B)
    → ((a : A) → Ensures P (f a))
    → Ensures P (m >>= f)
>>=-Ensures (ok a) f h = h a
>>=-Ensures (err e) f h = raised
