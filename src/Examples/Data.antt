-- ===== src/Examples/Data.antt =====
-- A runtime whose floats are their own texts, ASCII digits, a small program and a small database.
use weave_jacquard.Prelude.{◌-◌, true, leb, ◌&&◌, if◌then◌else◌, none, some, ◌++◌}
use weave_jacquard.Prelude.Text.{Text, codes, text_eq, mem_text, utf8_width, utf8_length}
use weave_jacquard.Prelude.Int.{negsuc}
use weave_jacquard.Sexpr.Runtime.{Runtime, Digits, is_space}
use weave_jacquard.Sexpr.Node.{
  Node, atom, list, nil, cons, symbol, string, integer, boolean, size, node_eq, head_symbol,
}
use weave_jacquard.Sexpr.Atom.{
  utf8_bytes, show_int, str_of_int, validate_node, atom_value_bytes, make_atom, render_atom, escape,
  show_nat, digits, node_id_matches,
}
use weave_jacquard.Sexpr.Validate.{validate_tree}
use weave_jacquard.Sexpr.Number.{is_float_text, is_integer_text, int_of_text}
use weave_jacquard.Sexpr.Walk.{find_node, find_parent, walk_nodes}
use weave_jacquard.Edit
use weave_jacquard.Revision.Workspace.{
  edit_document, apply_edit, publish, put_document, operation_of,
}
use weave_jacquard.Revision.Commit.{
  commit, transact, project_id, branch_head, first_parent, check_expected, check_heads, union,
  advance_head, state_for_write, state_at_revision, require_expected_head,
}
use weave_jacquard.Revision.Database.{insert_revision, insert_snapshots, set_head}
use weave_jacquard.Merge.States.{document_of}

instance abbrev pub ascii_digits : Digits
ascii_digits = record {
  digit_value = λ c. if leb b'0' c && leb c b'9' then some (c - b'0') else none;
}

-- A float is a text of the float pattern.
instance abbrev pub text_runtime : Runtime Text
text_runtime = record {
  is_finite = λ x. is_float_text x;
  float_of_text = λ t. t;
  float_of_int = λ n. some (show_int n ++ codes ".0");
  repr = λ x. x;
  float_eq = text_eq;
  float_eq_int = λ x n. text_eq x (show_int n ++ codes ".0");
}

-- (program (limit -12) "a\"b" 2.5 true)
abbrev pub sample : Node Text
sample = list (codes "n_1") (
    cons (atom (codes "n_2") (symbol (codes "program"))) (
      cons
        (list (codes "n_3") (
          cons (atom (codes "n_4") (symbol (codes "limit")))
            (cons (atom (codes "n_5") (integer (negsuc 11))) nil)))
        (cons (atom (codes "n_6") (string (codes "a\"b")))
          (cons (atom (codes "n_7") (boolean true)) nil))))

-- The names that a run of the code passes through.
unfoldable pub running : Unit {0}
unfolding text_eq mem_text utf8_width utf8_length utf8_bytes is_space size node_eq head_symbol
    show_int str_of_int validate_node atom_value_bytes make_atom render_atom escape show_nat digits
    node_id_matches validate_tree is_float_text is_integer_text int_of_text find_node find_parent
    walk_nodes Edit.create_form Edit.add_atom Edit.set_atom Edit.delete_node Edit.move_node
    Edit.wrap_node edit_document apply_edit publish put_document operation_of commit transact
    project_id branch_head first_parent check_expected check_heads union advance_head
    state_for_write state_at_revision require_expected_head insert_revision insert_snapshots
    set_head document_of
running = tt
