-- ===== src/Sexpr/Validate.antt =====
-- `validate_tree` of sexpr.py: one loop over a stack of nodes with their depths.
pub mod Spec
pub mod Accepts
use weave_jacquard.Prelude.{
  ℕ, zero, suc, ◌+◌, ◌≡◌, Bool, true, false, leb, if◌then◌else◌, List, [], ◌∷◌, ◌++◌, not,
}
use weave_jacquard.Prelude.Text.{Text, mem_text}
use weave_jacquard.Error.{
  Result, ok, err, out_of_fuel, tree_too_deep, tree_too_large, duplicate_node_id,
  tree_value_bytes_exceeded, ◌>>=◌, ◌>>◌, require,
}
use weave_jacquard.Limits.{max_tree_depth, max_tree_nodes, max_tree_value_bytes}
use weave_jacquard.Sexpr.Runtime.{Runtime}
use weave_jacquard.Sexpr.Node.{Atom, Node, Nodes, atom, list, nil, cons, node_id, size}
use weave_jacquard.Sexpr.Atom.{validate_node, atom_value_bytes}

-- An entry of the stack.
abbrev pub Entry : Type 0 → Type 0
Entry F = Node F × ℕ

-- The children in order, on top of the stack: the source pushes them from the last to the first.
unfoldable pub push_children : {F : Type 0} → ℕ → Nodes F → List (Entry F) → List (Entry F)
push_children d nil rest = rest
push_children d (cons n ns) rest = (n, d) ∷ push_children d ns rest

-- What one entry puts on the stack.
unfoldable pub push_node : {F : Type 0} → Entry F → List (Entry F) → List (Entry F)
unfolding push_children
push_node (atom i a, d) rest = rest
push_node (list i cs, d) rest = push_children (suc d) cs rest

-- The local variables of the loop.
pub record Progress : Type 0 where
  pub seen : List Text
  pub node_count : ℕ
  pub value_bytes : ℕ

abbrev pub start : Progress
start = record { seen = []; node_count = 0; value_bytes = 0 }

module _ {F : Type 0} ⦃r : Runtime F⦄ where
  -- The end of a round, for an atom: its bytes are counted.
  unfoldable pub count_bytes : Node F → Progress → Result Progress
  count_bytes (list i cs) p = ok p
  count_bytes (atom i a) p = do
    n ← atom_value_bytes a
    require (leb (p.value_bytes + n) max_tree_value_bytes) tree_value_bytes_exceeded
    ok (record p { value_bytes = p.value_bytes + n })

  -- One round of the loop, but for the push of the children.
  unfoldable pub visit : Entry F → Progress → Result Progress
  unfolding count_bytes
  visit (node, depth) p = do
    require (leb depth max_tree_depth) tree_too_deep
    validate_node node
    require (leb (p.node_count + 1) max_tree_nodes) tree_too_large
    require (not (mem_text (node_id node) p.seen)) duplicate_node_id
    count_bytes node (record p { node_count = p.node_count + 1; seen = node_id node ∷ p.seen })

  unfoldable pub validate_loop : ℕ → List (Entry F) → Progress → Result Progress
  validate_loop fuel [] p = ok p
  validate_loop zero (e ∷ stack) p = err out_of_fuel
  validate_loop (suc fuel) (e ∷ stack) p =
      visit e p >>= λ q. validate_loop fuel (push_node e stack) q

  -- Every round takes one node off, so that as many rounds as nodes are enough.
  unfoldable pub validate_tree : Node F → Result (Unit {0})
  unfolding validate_loop push_node visit
  validate_tree root = validate_loop (size root) ((root, 0) ∷ []) start >>= λ _. ok tt
