-- ===== src/Merge/States/ByName.antt =====
-- What the merge of two states holds under each name.
use weave_jacquard.Prelude.{
  ◌≡◌, refl, Bool, true, false, ◌||◌, Option, some, none, List, [], ◌∷◌, ◌++◌, arith, if◌then◌else◌,
  Bool-cases, inl, inr, ◌∙◌,
}
use weave_jacquard.Prelude.Text.{
  Text, codes, text_eq, text_eq_iff, text_eq_refl, text_eq_comm, mem_text,
}
use weave_jacquard.Error.{ok}
use weave_jacquard.Sexpr.Runtime.{Runtime}
use weave_jacquard.Sexpr.Node.{Node}
use weave_jacquard.Merge.{Merged, merge_node, merge_sides, option_eq}
use weave_jacquard.Merge.States.{
  Documents, document_of, insert_name, add_names, Gathered, all_names, merge_documents,
  raise_conflicts, merge_states,
}

insert_name_mem :
    (x name : Text) (names : List Text)
    → mem_text x (insert_name name names) ≡ (text_eq x name || mem_text x names)
unfolding insert_name mem_text
insert_name_mem x name [] = refl
insert_name_mem x name (m ∷ ms) =
    ground
      (arith, insert_name_mem x name ms, text_eq_iff name m, text_eq_iff x m, text_eq_iff x name)

add_names_mem :
    {F : Type 0} (x : Text) (state : Documents F) (names : List Text)
    → mem_text x (add_names state names) ≡ false
    → (document_of x state ≡ none) × (mem_text x names ≡ false)
unfolding add_names document_of
add_names_mem x [] names h = (refl, h)
add_names_mem x ((m, root) ∷ state) names h = ground (
  arith,
  insert_name_mem x m (add_names state names),
  add_names_mem x state names,
  text_eq_iff x m,
  text_eq_iff m x,
)

pair_eq : {A B : Type 0} (p : A × B) (a : A) (b : B) → p.0 ≡ a → p.1 ≡ b → p ≡ (a, b)
pair_eq p a b h k = rw (← h, ← k) refl

append-eq-nil : (xs ys : List Text) → xs ++ ys ≡ [] → (xs ≡ []) × (ys ≡ [])
append-eq-nil [] ys h = (refl, h)
append-eq-nil (x ∷ xs) ys h = cc

-- A document is put before the others, if there is one.
abbrev put_if : {F : Type 0} → Text → Option (Node F) → Documents F → Documents F
put_if name value state = elim value [ some root ↦ (name, root) ∷ state | none ↦ state ]

put_if_same :
    {F : Type 0} (x : Text) (value : Option (Node F)) (state : Documents F) (b : Bool)
    → document_of x state ≡ (if b then value else none)
    → document_of x (put_if x value state) ≡ value
unfolding document_of
put_if_same x (some root) state b h = rw (text_eq_refl x) refl
put_if_same x none state true h = h
put_if_same x none state false h = h

put_if_other :
    {F : Type 0} (x m : Text) (value : Option (Node F)) (state : Documents F)
    → text_eq m x ≡ false
    → document_of x (put_if m value state) ≡ document_of x state
unfolding document_of
put_if_other x m (some root) state h = rw h refl
put_if_other x m none state h = refl

module _ {F : Type 0} ⦃r : Runtime F⦄ (base ours theirs : Documents F) where
  -- The merge of the documents of one name.
  abbrev pub merged_at : Text → Merged (Option (Node F))
  merged_at name =
      merge_node (codes "document:" ++ name) (document_of name base) (document_of name ours)
        (document_of name theirs)

  merge_documents-at :
      (x : Text) (names : List Text)
      → document_of x (merge_documents base ours theirs names).merged
        ≡ (if mem_text x names then (merged_at x).0 else none)
  unfolding merge_documents document_of mem_text
  merge_documents-at x [] = refl
  merge_documents-at x (m ∷ names) =
      let rest = merge_documents base ours theirs names in
      let at_rest = merge_documents-at x names in
      elim (Bool-cases (text_eq x m)) [
        | inl same ↦
            let at : x ≡ m = (text_eq_iff x m).0 same in
            rw same
              (rw (← at) (put_if_same x (merged_at x).0 rest.merged (mem_text x names) at_rest))
        | inr differs ↦
            rw differs
              (put_if_other x m (merged_at m).0 rest.merged (text_eq_comm m x ∙ differs) ∙ at_rest)
      ]

  quiet :
      (x : Text) (names : List Text)
      → (merge_documents base ours theirs names).conflicts ≡ []
      → mem_text x names ≡ true
      → (merged_at x).1 ≡ []
  unfolding merge_documents mem_text
  quiet x [] h i = cc
  quiet x (m ∷ names) h i =
      let (here, later) = append-eq-nil (merged_at m).1 _ h in
      elim (Bool-cases (text_eq x m)) [
        | inl same ↦ rw ((text_eq_iff x m).0 same) here
        | inr differs ↦ quiet x names later (rw differs at i)
      ]

  absent : (x : Text) → mem_text x (all_names base ours theirs) ≡ false → merged_at x ≡ (none, [])
  unfolding all_names
  absent x h =
      let (none_base, h₁) = add_names_mem x base _ h in
      let (none_ours, h₂) = add_names_mem x ours _ h₁ in
      let (none_theirs, h₃) = add_names_mem x theirs [] h₂ in
      rw (none_base, none_ours, none_theirs) (unfold merge_node merge_sides option_eq in refl)

  raise_conflicts-eq-ok :
      (g : Gathered F) (cs : List Text) (merged : Documents F) (changed : List Text)
      → raise_conflicts base ours theirs g cs ≡ ok (merged, changed)
      → (cs ≡ []) × (merged ≡ g.merged)
  unfolding raise_conflicts
  raise_conflicts-eq-ok g [] merged changed h = (refl, cc)
  raise_conflicts-eq-ok g (c ∷ cs) merged changed h = cc

  -- A merge of states that returns holds under each name the merge of the three documents of that
  -- name, each of which is free of conflicts, and no document under a name that none of them has.
  pub merge_states-document :
      (x : Text) (merged : Documents F) (changed : List Text)
      → merge_states base ours theirs ≡ ok (merged, changed)
      → merged_at x ≡ (document_of x merged, [])
  unfolding merge_states
  merge_states-document x merged changed h =
      let names = all_names base ours theirs in
      let g = merge_documents base ours theirs names in
      let (none_raised, same) = raise_conflicts-eq-ok g g.conflicts merged changed h in
      let at = merge_documents-at x names in
      elim (Bool-cases (mem_text x names)) [
        | inl present ↦
            let found = rw present at at in
            rw (same, found)
              (pair_eq (merged_at x) (merged_at x).0 [] refl (quiet x names none_raised present))
        | inr missing ↦ let nothing = rw missing at at in rw (same, nothing) (absent x missing)
      ]
