-- ===== src/Merge/States.antt =====
-- `_merge_states` of sexpr_service.py: the merge of three states, document by document.
pub mod ByName
use weave_jacquard.Prelude.{
  Bool, true, false, ◌&&◌, ◌||◌, ◌==◌, ltb, if◌then◌else◌, Option, none, some, List, [], ◌∷◌, ◌++◌,
}
use weave_jacquard.Prelude.Text.{Text, codes, text_eq}
use weave_jacquard.Error.{Result, ok, err, conflict}
use weave_jacquard.Sexpr.Runtime.{Runtime}
use weave_jacquard.Sexpr.Node.{Node}
use weave_jacquard.Merge.{option_eq, merge_node}

-- The documents of a revision, by name.
abbrev pub Documents : Type 0 → Type 0
Documents F = List (Text × Node F)

-- state.get(name)
unfoldable pub document_of : {F : Type 0} → Text → Documents F → Option (Node F)
document_of name [] = none
document_of name ((m, root) ∷ state) = if text_eq m name then some root else document_of name state

-- Python's order of texts: by code point, a prefix first.
unfoldable pub text_lt : Text → Text → Bool
text_lt [] [] = false
text_lt [] (d ∷ t) = true
text_lt (c ∷ s) [] = false
text_lt (c ∷ s) (d ∷ t) = ltb c d || (c == d && text_lt s t)

unfoldable pub insert_name : Text → List Text → List Text
unfolding text_lt
insert_name name [] = name ∷ []
insert_name name (m ∷ ms) =
    let later = m ∷ insert_name name ms in
    if text_eq name m then m ∷ ms else if text_lt name m then name ∷ m ∷ ms else later

-- The names of a state, put into a sorted set.
unfoldable pub add_names : {F : Type 0} → Documents F → List Text → List Text
unfolding insert_name
add_names [] names = names
add_names ((name, root) ∷ state) names = insert_name name (add_names state names)

-- What the loop over the names has gathered.
pub record Gathered (F : Type 0) : Type 0 where
  pub merged : Documents F
  pub conflicts : List Text
  pub changed : List Text

module _ {F : Type 0} ⦃r : Runtime F⦄ (base ours theirs : Documents F) where
  -- sorted(set(base) | set(ours) | set(theirs))
  unfoldable pub all_names : List Text
  unfolding add_names
  all_names = add_names base (add_names ours (add_names theirs []))

  unfoldable pub merge_documents : List Text → Gathered F
  unfolding document_of
  merge_documents [] = record { merged = []; conflicts = []; changed = [] }
  merge_documents (name ∷ names) =
      let rest = merge_documents names in
      let (value, conflicts) =
        merge_node (codes "document:" ++ name) (document_of name base) (document_of name ours)
          (document_of name theirs) in
      record {
        merged = elim value [ some root ↦ (name, root) ∷ rest.merged | none ↦ rest.merged ];
        conflicts = conflicts ++ rest.conflicts;
        changed =
            if option_eq value (document_of name ours) then rest.changed else name ∷ rest.changed;
      }

  unfoldable pub raise_conflicts : Gathered F → List Text → Result (Documents F × List Text)
  raise_conflicts g [] = ok (g.merged, g.changed)
  raise_conflicts g (c ∷ cs) = err (conflict (c ∷ cs))

  unfoldable pub merge_states : Result (Documents F × List Text)
  unfolding all_names merge_documents raise_conflicts
  merge_states = let g = merge_documents all_names in raise_conflicts g g.conflicts
