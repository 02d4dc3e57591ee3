-- ===== src/Sexpr/Validate/Spec.antt =====
-- The loop of `validate_tree` is one pass over the preorder.
use weave_jacquard.Prelude.{
  ℕ, zero, suc, ◌≤◌, ◌≡◌, refl, ap, List, [], ◌∷◌, ◌++◌, append_assoc, append-nil, arith, length,
  length-append,
}
use weave_jacquard.Error.{Result, ok, ◌>>=◌, >>=-congr}
use weave_jacquard.Sexpr.Runtime.{Runtime}
use weave_jacquard.Sexpr.Node.{Node, Nodes, atom, list, nil, cons, size, size_all}
use weave_jacquard.Sexpr.Validate.{
  Entry, push_children, push_node, Progress, start, visit, validate_loop, validate_tree,
}

-- Each node with its depth, a node before its children.
unfoldable mutual
  pub preorder : {F : Type 0} → ℕ → Node F → List (Entry F)
  preorder d (atom i a) = (atom i a, d) ∷ []
  preorder d (list i cs) = (list i cs, d) ∷ preorder_all (suc d) cs

  pub preorder_all : {F : Type 0} → ℕ → Nodes F → List (Entry F)
  preorder_all d nil = []
  preorder_all d (cons n ns) = preorder d n ++ preorder_all d ns

-- What the loop still has to visit.
unfoldable pub pending : {F : Type 0} → List (Entry F) → List (Entry F)
unfolding preorder
pending [] = []
pending ((n, d) ∷ stack) = preorder d n ++ pending stack

pending-push_children :
    {F : Type 0} (d : ℕ) (ns : Nodes F) (stack : List (Entry F))
    → pending (push_children d ns stack) ≡ preorder_all d ns ++ pending stack
unfolding pending push_children preorder
pending-push_children d nil stack = refl
pending-push_children d (cons n ns) stack = simp (pending-push_children d ns stack, append_assoc)

pub pending-push_node :
    {F : Type 0} (e : Entry F) (stack : List (Entry F))
    → pending (e ∷ stack) ≡ e ∷ pending (push_node e stack)
unfolding pending push_node
pending-push_node (atom i a, d) stack = refl
pending-push_node (list i cs, d) stack = rw pending-push_children

mutual
  unfolding preorder size

  length-preorder : {F : Type 0} (d : ℕ) (n : Node F) → length (preorder d n) ≡ size n
  length-preorder d (atom i a) = refl
  length-preorder d (list i cs) = omega (arith, length-preorder_all (suc d) cs)

  length-preorder_all :
      {F : Type 0} (d : ℕ) (ns : Nodes F) → length (preorder_all d ns) ≡ size_all ns
  length-preorder_all d nil = refl
  length-preorder_all d (cons n ns) = omega (
    arith,
    length-append (preorder d n) (preorder_all d ns),
    length-preorder d n,
    length-preorder_all d ns,
  )

pub length-preorder-eq-size : {F : Type 0} (d : ℕ) (n : Node F) → length (preorder d n) ≡ size n
length-preorder-eq-size = length-preorder

module _ {F : Type 0} ⦃r : Runtime F⦄ where
  -- The rounds of the loop, on the nodes in the order of their visits.
  unfoldable pub visit_all : List (Entry F) → Progress → Result Progress
  visit_all [] p = ok p
  visit_all (e ∷ es) p = visit e p >>= visit_all es

  validate_loop-eq-visit_all :
      (fuel : ℕ) (stack : List (Entry F)) (p : Progress)
      → length (pending stack) ≤ fuel
      → validate_loop fuel stack p ≡ visit_all (pending stack) p
  unfolding validate_loop visit_all
  validate_loop-eq-visit_all fuel [] p h = unfold pending in refl
  validate_loop-eq-visit_all zero (e ∷ stack) p h =
      absurd (omega (arith, ap length (pending-push_node e stack)))
  validate_loop-eq-visit_all (suc fuel) (e ∷ stack) p h = rw pending-push_node (
      >>=-congr (visit e p) _ _ λ q.
        validate_loop-eq-visit_all fuel (push_node e stack) q
          (omega (arith, ap length (pending-push_node e stack))))

  -- The loop does its rounds on the preorder, and never runs out of fuel.
  pub validate_tree-eq-visit_all :
      (root : Node F) → validate_tree root ≡ (visit_all (preorder 0 root) start >>= λ _. ok tt)
  unfolding validate_tree
  validate_tree-eq-visit_all root =
      rw (validate_loop-eq-visit_all (size root) ((root, 0) ∷ []) start (enough root))
        (unfold pending in rw append-nil)
    where
      enough : (n : Node F) → length (pending ((n, 0) ∷ [])) ≤ size n
      enough n = unfold pending in rw append-nil (omega (arith, length-preorder 0 n))
