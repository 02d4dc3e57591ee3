-- ===== src/Sexpr/Walk.antt =====
-- The walk of sexpr.py and the searches on it: `walk_nodes`, `find_node`, `require_node`,
-- `find_parent`.
pub mod Finds
use weave_jacquard.Prelude.{
  ℕ, zero, suc, ◌+◌, ltb, if◌then◌else◌, Option, none, some, List, [], ◌∷◌,
}
use weave_jacquard.Prelude.Text.{Text, text_eq}
use weave_jacquard.Error.{
  Error, Result, ok, err, validation, not_found, out_of_fuel, tree_too_deep, tree_too_large,
  missing_structural_target,
}
use weave_jacquard.Limits.{max_tree_depth, max_tree_nodes}
use weave_jacquard.Sexpr.Node.{Node, Nodes, atom, list, nil, cons, node_id, size}
use weave_jacquard.Sexpr.Validate.{Entry, push_node}

-- What a generator does for its consumer: it yields, ends, or raises.
pub data Yields (A : Type 0) : Type 0 where
  stop : Yields A
  raises : Error → Yields A
  yield : A → Yields A → Yields A

unfoldable pub walk_loop : {F : Type 0} → ℕ → List (Entry F) → ℕ → Yields (Node F)
walk_loop fuel [] visited = stop
walk_loop zero (e ∷ stack) visited = raises out_of_fuel
walk_loop (suc fuel) ((n, depth) ∷ stack) visited =
    let rest = walk_loop fuel (push_node (n, depth) stack) (visited + 1) in
    if ltb max_tree_depth depth
    then raises (validation tree_too_deep)
    else if ltb max_tree_nodes (visited + 1)
    then raises (validation tree_too_large)
    else yield n rest

unfoldable pub walk_nodes : {F : Type 0} → Node F → Yields (Node F)
unfolding walk_loop push_node
walk_nodes root = walk_loop (size root) ((root, 0) ∷ []) 0

-- `for x in xs: if test(x) is found: return it`, and NotFoundError after the loop.
unfoldable pub first {ℓ} : {A : Type 0} {B : Type ℓ} → (A → Option B) → Yields A → Result B
first f stop = err not_found
first f (raises e) = err e
first f (yield a rest) = let later = first f rest in elim (f a) [ some b ↦ ok b | none ↦ later ]

unfoldable pub has_id : {F : Type 0} → Text → Node F → Option (Node F)
has_id i n = if text_eq (node_id n) i then some n else none

unfoldable pub find_node : {F : Type 0} → Node F → Text → Result (Node F)
unfolding first has_id walk_nodes
find_node root i = first (has_id i) (walk_nodes root)

-- `except NotFoundError: raise ValidationError(...)`
unfoldable pub or_missing_target {ℓ} : {A : Type ℓ} → Result A → Result A
or_missing_target (err not_found) = err (validation missing_structural_target)
or_missing_target m = m

unfoldable pub require_node : {F : Type 0} → Node F → Text → Result (Node F)
unfolding or_missing_target
require_node root i = or_missing_target (find_node root i)

-- The first index whose child has the id.
unfoldable pub child_index : {F : Type 0} → Text → ℕ → Nodes F → Option ℕ
child_index i k nil = none
child_index i k (cons n ns) = if text_eq (node_id n) i then some k else child_index i (k + 1) ns

unfoldable pub has_child : {F : Type 0} → Text → Node F → Option (Node F × ℕ)
unfolding child_index
has_child i (atom j a) = none
has_child i (list j cs) = elim (child_index i 0 cs) [ some k ↦ some (list j cs, k) | none ↦ none ]

unfoldable pub find_parent : {F : Type 0} → Node F → Text → Result (Node F × ℕ)
unfolding first has_child walk_nodes
find_parent root i = first (has_child i) (walk_nodes root)
