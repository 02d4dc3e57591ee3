-- ===== src/Sexpr/Validate/Accepts.antt =====
-- Which trees `validate_tree` accepts, said without the loop.
use weave_jacquard.Prelude.{ℕ, ◌+◌, ◌≤◌, ◌≡◌, refl, ◌↔◌, false, List, [], ◌∷◌, arith, length, All}
use weave_jacquard.Prelude.Text.{Text, mem_text, text_eq_comm}
use weave_jacquard.Error.{ok, err, >>=-eq-ok}
use weave_jacquard.Limits.{max_tree_depth, max_tree_nodes, max_tree_value_bytes}
use weave_jacquard.Sexpr.Runtime.{Runtime}
use weave_jacquard.Sexpr.Node.{Node, atom, list, node_id, size}
use weave_jacquard.Sexpr.Atom.{validate_node, atom_value_bytes}
use weave_jacquard.Sexpr.Atom.Bytes.{validate_node-bytes}
use weave_jacquard.Sexpr.Validate.{Entry, Progress, start, count_bytes, visit, validate_tree}
use weave_jacquard.Sexpr.Validate.Spec.{
  preorder, visit_all, validate_tree-eq-visit_all, length-preorder-eq-size,
}

-- No text stands twice in the list.
abbrev pub Distinct : List Text → Type 0
Distinct [] = Unit
Distinct (i ∷ is) = (mem_text i is ≡ false) × Distinct is

abbrev pub ids : {F : Type 0} → List (Entry F) → List Text
ids [] = []
ids ((n, d) ∷ es) = node_id n ∷ ids es

module _ {F : Type 0} ⦃r : Runtime F⦄ where
  -- The bytes that an atom counts for, where they can be computed.
  unfoldable pub node_bytes : Node F → ℕ
  node_bytes (list i cs) = 0
  node_bytes (atom i a) = elim (atom_value_bytes a) [ ok n ↦ n | err e ↦ 0 ]

  abbrev pub total_bytes : List (Entry F) → ℕ
  total_bytes [] = 0
  total_bytes ((n, d) ∷ es) = node_bytes n + total_bytes es

  -- What the rest of the loop asks of the nodes that it still has to visit.
  record Acceptable (p : Progress) (es : List (Entry F)) : Type 0 where
    depths : All (λ e. e.1 ≤ max_tree_depth) es
    nodes : All (λ e. validate_node e.0 ≡ ok tt) es
    count : p.node_count + length es ≤ max_tree_nodes
    fresh : All (λ e. mem_text (node_id e.0) p.seen ≡ false) es
    distinct : Distinct (ids es)
    bytes : p.value_bytes + total_bytes es ≤ max_tree_value_bytes

  -- The same of the node at hand alone.
  record Passes (p : Progress) (e : Entry F) : Type 0 where
    depth : e.1 ≤ max_tree_depth
    node : validate_node e.0 ≡ ok tt
    count : p.node_count + 1 ≤ max_tree_nodes
    fresh : mem_text (node_id e.0) p.seen ≡ false
    bytes : p.value_bytes + node_bytes e.0 ≤ max_tree_value_bytes

  abbrev advance : Progress → Entry F → Progress
  advance p e = record {
    seen = node_id e.0 ∷ p.seen;
    node_count = p.node_count + 1;
    value_bytes = p.value_bytes + node_bytes e.0;
  }

  visit-Passes :
      (e : Entry F) (p q : Progress)
      → p.value_bytes ≤ max_tree_value_bytes
      → visit e p ≡ ok q
      → Passes p e × (q ≡ advance p e)
  unfolding visit node_bytes count_bytes
  visit-Passes (atom i a, d) p q b h = ground arith
  visit-Passes (list i cs, d) p q b h = ground arith

  Passes-visit : (e : Entry F) (p : Progress) → Passes p e → visit e p ≡ ok (advance p e)
  unfolding visit node_bytes count_bytes
  Passes-visit (atom i a, d) p h =
      let (n, e, b) = validate_node-bytes i a h.node in ground (arith, e)
  Passes-visit (list i cs, d) p h = ground arith

  -- Nothing that follows is the node just seen, and the rest is new among what was seen before.
  fresh-cons :
      (i : Text) (seen : List Text) (es : List (Entry F))
      → All (λ e. mem_text (node_id e.0) (i ∷ seen) ≡ false) es
      → All (λ e. mem_text (node_id e.0) seen ≡ false) es × (mem_text i (ids es) ≡ false)
  unfolding mem_text
  fresh-cons i seen [] h = (tt, refl)
  fresh-cons i seen ((n, d) ∷ es) h =
      let (rest, apart) = fresh-cons i seen es h.1 in
      ((ground arith, rest), ground (arith, text_eq_comm i (node_id n)))

  cons-fresh :
      (i : Text) (seen : List Text) (es : List (Entry F))
      → All (λ e. mem_text (node_id e.0) seen ≡ false) es
      → mem_text i (ids es) ≡ false
      → All (λ e. mem_text (node_id e.0) (i ∷ seen) ≡ false) es
  unfolding mem_text
  cons-fresh i seen [] h k = tt
  cons-fresh i seen ((n, d) ∷ es) h k =
      (ground (arith, text_eq_comm i (node_id n)), cons-fresh i seen es h.1 (ground arith))

  visit_all-Acceptable :
      (es : List (Entry F)) (p q : Progress)
      → p.node_count ≤ max_tree_nodes
      → p.value_bytes ≤ max_tree_value_bytes
      → visit_all es p ≡ ok q
      → Acceptable p es
  unfolding visit_all
  visit_all-Acceptable [] p q c b h = record {
    depths = tt;
    nodes = tt;
    count = omega arith;
    fresh = tt;
    distinct = tt;
    bytes = omega arith;
  }
  visit_all-Acceptable (e ∷ es) p q c b h =
      let (p', first, rest) = >>=-eq-ok (visit e p) _ h in
      let (passes, at) = visit-Passes e p p' b first in
      let ih = visit_all-Acceptable es (advance p e) q passes.count passes.bytes (rw at at rest) in
      let (fresh, apart) = fresh-cons (node_id e.0) p.seen es ih.fresh in
      record {
        depths = (passes.depth, ih.depths);
        nodes = (passes.node, ih.nodes);
        count = omega (arith, ih.count);
        fresh = (passes.fresh, fresh);
        distinct = (apart, ih.distinct);
        bytes = omega (arith, ih.bytes);
      }

  Acceptable-visit_all :
      (es : List (Entry F)) (p : Progress)
      → Acceptable p es
      → (q : Progress) × (visit_all es p ≡ ok q)
  unfolding visit_all
  Acceptable-visit_all [] p a = (p, refl)
  Acceptable-visit_all (e ∷ es) p a =
      let (q, rest) = Acceptable-visit_all es (advance p e) record {
        depths = a.depths.1;
        nodes = a.nodes.1;
        count = omega (arith, a.count);
        fresh = cons-fresh (node_id e.0) p.seen es a.fresh.1 a.distinct.0;
        distinct = a.distinct.1;
        bytes = omega (arith, a.bytes);
      } in
      (
        q,
        rw
            (Passes-visit e p record {
              depth = a.depths.0;
              node = a.nodes.0;
              count = omega (arith, a.count);
              fresh = a.fresh.0;
              bytes = omega (arith, a.bytes);
            })
            rest,
      )

  -- A valid tree: every node is valid by itself and not too deep, no id stands twice, and the
  -- numbers of nodes and of bytes are within their ceilings.
  pub record IsValidTree (root : Node F) : Type 0 where
    pub depths : All (λ e. e.1 ≤ max_tree_depth) (preorder 0 root)
    pub nodes : All (λ e. validate_node e.0 ≡ ok tt) (preorder 0 root)
    pub count : size root ≤ max_tree_nodes
    pub distinct : Distinct (ids (preorder 0 root))
    pub bytes : total_bytes (preorder 0 root) ≤ max_tree_value_bytes

  -- `validate_tree` returns, without running out of fuel, exactly on the valid trees: those whose
  -- nodes are each valid and at most 512 deep, with no id twice, and whose numbers of nodes and
  -- of value bytes are within their ceilings.
  pub validate_tree-eq-ok_iff : (root : Node F) → (validate_tree root ≡ ok tt) ↔ IsValidTree root
  validate_tree-eq-ok_iff root = (accepted, accepts)
    where
      all_fresh : (es : List (Entry F)) → All (λ e. mem_text (node_id e.0) [] ≡ false) es
      all_fresh [] = tt
      all_fresh (e ∷ es) = (unfold mem_text in refl, all_fresh es)

      accepted : validate_tree root ≡ ok tt → IsValidTree root
      accepted h =
          let (q, e, u) =
            >>=-eq-ok (visit_all (preorder 0 root) start) _ (rw validate_tree-eq-visit_all at h) in
          let a = visit_all-Acceptable (preorder 0 root) start q (omega arith) (omega arith) e in
          record {
            depths = a.depths;
            nodes = a.nodes;
            count = omega (arith, a.count, length-preorder-eq-size 0 root);
            distinct = a.distinct;
            bytes = omega (arith, a.bytes);
          }

      accepts : IsValidTree root → validate_tree root ≡ ok tt
      accepts v =
          let (q, e) = Acceptable-visit_all (preorder 0 root) start record {
            depths = v.depths;
            nodes = v.nodes;
            count = omega (arith, v.count, length-preorder-eq-size 0 root);
            fresh = all_fresh (preorder 0 root);
            distinct = v.distinct;
            bytes = omega (arith, v.bytes);
          } in
          rw (validate_tree-eq-visit_all, e)
