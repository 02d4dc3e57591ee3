-- ===== src/Sexpr/Walk/Finds.antt =====
-- On a valid tree the traversal visits every node, and an id addresses one node.
use weave_jacquard.Prelude.{
  ℕ, zero, suc, ◌+◌, ◌≤◌, ◌≡◌, refl, ap, false, List, [], ◌∷◌, arith, All, length, append-nil, ◌∙◌,
  ltb,
}
use weave_jacquard.Prelude.Text.{Text, text_eq_refl, text_eq_comm, mem_text}
use weave_jacquard.Error.{ok, err, not_found}
use weave_jacquard.Limits.{max_tree_depth, max_tree_nodes}
use weave_jacquard.Sexpr.Runtime.{Runtime}
use weave_jacquard.Sexpr.Node.{Node, node_id, size}
use weave_jacquard.Sexpr.Validate.{Entry, push_node, validate_tree}
use weave_jacquard.Sexpr.Validate.Spec.{
  preorder, pending, pending-push_node, length-preorder-eq-size,
}
use weave_jacquard.Sexpr.Validate.Accepts.{Distinct, ids, validate_tree-eq-ok_iff}
use weave_jacquard.Sexpr.Walk.{Yields, stop, yield, walk_loop, walk_nodes, first, has_id, find_node}

ltb-false : (a b : ℕ) → a ≤ b → ltb b a ≡ false
ltb-false a b h = ground arith

module _ {F : Type 0} where
  -- A traversal that meets no ceiling.
  abbrev pub yields : List (Entry F) → Yields (Node F)
  yields [] = stop
  yields (e ∷ es) = yield e.0 (yields es)

  single : (root : Node F) → pending ((root, 0) ∷ []) ≡ preorder 0 root
  unfolding pending
  single root = append-nil (preorder 0 root)

  walk_loop-yields :
      (fuel visited : ℕ) (stack : List (Entry F))
      → length (pending stack) ≤ fuel
      → visited + length (pending stack) ≤ max_tree_nodes
      → All (λ e. e.1 ≤ max_tree_depth) (pending stack)
      → walk_loop fuel stack visited ≡ yields (pending stack)
  unfolding walk_loop
  walk_loop-yields fuel visited [] h c d = unfold pending in refl
  walk_loop-yields zero visited (e ∷ stack) h c d =
      absurd (omega (arith, ap length (pending-push_node e stack)))
  walk_loop-yields (suc fuel) visited ((n, depth) ∷ stack) h c d =
      let split = pending-push_node (n, depth) stack in
      let deep = rw split at d in
      let count = ap length split in
      let rest =
        walk_loop-yields fuel (visited + 1) (push_node (n, depth) stack) (omega (arith, h, count))
          (omega (arith, c, count)) deep.1 in
      rw (
        split,
        rest,
        ltb-false depth max_tree_depth deep.0,
        ltb-false (visited + 1) max_tree_nodes (omega (arith, c, count)),
      )

  found-cons :
      (e : Entry F) (all es : List (Entry F))
      → mem_text (node_id e.0) (ids es) ≡ false
      → All (λ f. first (has_id (node_id f.0)) (yields all) ≡ ok f.0) es
      → All (λ f. first (has_id (node_id f.0)) (yields (e ∷ all)) ≡ ok f.0) es
  unfolding first has_id mem_text
  found-cons e all [] new h = tt
  found-cons e all (f ∷ es) new h =
      ground (arith, text_eq_comm (node_id f.0) (node_id e.0), found-cons e all es)

  each_found :
      (es : List (Entry F))
      → Distinct (ids es)
      → All (λ e. first (has_id (node_id e.0)) (yields es) ≡ ok e.0) es
  unfolding first has_id
  each_found [] d = tt
  each_found (e ∷ es) d =
      (ground (arith, text_eq_refl (node_id e.0)), found-cons e es es d.0 (each_found es d.1))

  none_found :
      (i : Text) (es : List (Entry F))
      → mem_text i (ids es) ≡ false
      → first (has_id i) (yields es) ≡ err not_found
  unfolding first has_id mem_text
  none_found i [] h = refl
  none_found i (e ∷ es) h = ground (arith, text_eq_comm (node_id e.0) i, none_found i es)

module _ {F : Type 0} ⦃r : Runtime F⦄ where
  -- The traversal of a valid tree meets no ceiling, and visits its nodes in preorder.
  pub walk_nodes-yields :
      (root : Node F) → validate_tree root ≡ ok tt → walk_nodes root ≡ yields (preorder 0 root)
  unfolding walk_nodes
  walk_nodes-yields root h =
      let valid = (validate_tree-eq-ok_iff root).0 h in
      let alone = single root in
      let count = ap length alone in
      let same = length-preorder-eq-size 0 root in
      walk_loop-yields (size root) 0 ((root, 0) ∷ []) (omega (arith, count, same))
        (omega (arith, count, same, valid.count)) (rw alone valid.depths)
      ∙ ap yields alone

  -- In a valid tree each node is found by its id.
  pub find_node_by_id :
      (root : Node F)
      → validate_tree root ≡ ok tt
      → All (λ e. find_node root (node_id e.0) ≡ ok e.0) (preorder 0 root)
  unfolding find_node
  find_node_by_id root h =
      let valid = (validate_tree-eq-ok_iff root).0 h in
      rw (walk_nodes-yields root h) (each_found (preorder 0 root) valid.distinct)

  -- In a valid tree an id that no node has is not found.
  pub find_node_missing :
      (root : Node F) (i : Text)
      → validate_tree root ≡ ok tt
      → mem_text i (ids (preorder 0 root)) ≡ false
      → find_node root i ≡ err not_found
  unfolding find_node
  find_node_missing root i h new =
      rw (walk_nodes-yields root h) (none_found i (preorder 0 root) new)
