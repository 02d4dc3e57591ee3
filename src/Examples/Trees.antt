-- ===== src/Examples/Trees.antt =====
-- The sample tree, small sources and a small merge of children.
use weave_jacquard.Prelude.{List, [], ◌∷◌, inl, true, false, All, ◌≢◌, ◌≡◌, refl, ℕ, ◌↔◌, ◌++◌}
use weave_jacquard.Prelude.Text.{Text, codes, mem_text}
use weave_jacquard.Error.{ok, err, not_found, out_of_fuel, Ensures, ◌>>=◌}
use weave_jacquard.Sexpr.Atom.{show_nat, render_atom}
use weave_jacquard.Merge.{merge_children, merge_items}
use weave_jacquard.Merge.Additions.{child_ids}
use weave_jacquard.Merge.Keeps.{Holds, merge_children_keeps_additions}
use weave_jacquard.Sexpr.Validate.{validate_tree, start}
use weave_jacquard.Sexpr.Validate.Spec.{visit_all, preorder, validate_tree-eq-visit_all}
use weave_jacquard.Sexpr.Validate.Accepts.{IsValidTree, validate_tree-eq-ok_iff}
use weave_jacquard.Sexpr.Parser.{parse_source}
use weave_jacquard.Sexpr.Lexer.{quoted, tokenize_loop}
use weave_jacquard.Sexpr.Lexer.Strings.{tokenize_loop-render_atom}
use weave_jacquard.Sexpr.Parser.Halts.{parse_source_halts}
use weave_jacquard.Sexpr.Node.{Node, Nodes, atom, nil, cons, boolean, to_list, node_id, string}
use weave_jacquard.Sexpr.Walk.{find_node, yield}
use weave_jacquard.Sexpr.Walk.Finds.{find_node_by_id, find_node_missing}
use weave_jacquard.Revision.Workspace.Trees.{Valid, parse_source-Valid}
use weave_jacquard.Examples.Data.{sample, text_runtime, ascii_digits, running}

sample_valid : validate_tree sample ≡ ok tt
unfolding running
sample_valid = refl

validate_tree-eq-ok_iff_example : (validate_tree sample ≡ ok tt) ↔ IsValidTree sample
validate_tree-eq-ok_iff_example = validate_tree-eq-ok_iff sample

abbrev fresh_id : ℕ → Text
fresh_id k = codes "n_" ++ show_nat k

parse_source-Valid_example :
    Ensures (Valid {F = Text}) (parse_source fresh_id (codes "(a \"b\" 2.5)"))
parse_source-Valid_example = parse_source-Valid fresh_id (codes "(a \"b\" 2.5)")

validate_tree-eq-visit_all_example :
    validate_tree sample ≡ (visit_all (preorder 0 sample) start >>= λ _. ok tt)
validate_tree-eq-visit_all_example = validate_tree-eq-visit_all sample

find_node_by_id_example : All (λ e. find_node sample (node_id e.0) ≡ ok e.0) (preorder 0 sample)
find_node_by_id_example = find_node_by_id sample sample_valid

find_node_missing_example : find_node sample (codes "n_9") ≡ err not_found
unfolding running preorder
find_node_missing_example = find_node_missing sample (codes "n_9") sample_valid refl

parse_source_halts_example : parse_source {F = Text} fresh_id (codes "(a (b") ≢ err out_of_fuel
parse_source_halts_example = parse_source_halts Text fresh_id (codes "(a (b")

tokenize_loop-render_atom_example :
    tokenize_loop 3 (render_atom {F = Text} (string (codes "a\"b\\")) ++ codes ")")
    ≡ yield (quoted (codes "a\"b\\")) (tokenize_loop 2 (codes ")"))
tokenize_loop-render_atom_example = tokenize_loop-render_atom Text 2 (codes "a\"b\\") (codes ")")

abbrev leaf : Text → Node Text
leaf i = atom i (boolean true)

abbrev base_children : Nodes Text
base_children = cons (leaf (codes "n_1")) (cons (leaf (codes "n_2")) nil)

abbrev our_children : List (Node Text)
our_children = leaf (codes "n_1") ∷ leaf (codes "n_3") ∷ leaf (codes "n_2") ∷ []

abbrev their_children : List (Node Text)
their_children = leaf (codes "n_2") ∷ leaf (codes "n_4") ∷ []

added_by_us : Holds (codes "n_3") our_children
unfolding running child_ids
added_by_us = refl

not_in_base : mem_text (codes "n_3") (child_ids (to_list base_children)) ≡ false
unfolding running child_ids
not_in_base = refl

merge_children_keeps_additions_example :
    Holds
      (codes "n_3")
      (merge_children
        (codes "doc")
        (codes "n_0")
        (child_ids (to_list base_children))
        our_children
        their_children
        (merge_items
          (codes "doc")
          (child_ids (to_list base_children))
          base_children
          our_children
          their_children)).0
merge_children_keeps_additions_example =
    merge_children_keeps_additions (codes "n_3") (codes "doc") (codes "n_0") base_children
      our_children their_children not_in_base (inl added_by_us)
