-- ===== src/Revision/Workspace.antt =====
-- The publishing operations of the workspace: the node edits of concurrent_sexpr.py, the program
-- operations of concurrent_workspace.py and `merge` of service.py. Each reads one branch head,
-- computes a new state from it, and publishes that against the head that it read.
pub mod Trees
pub mod Publications
pub mod Edits
use weave_jacquard.Prelude.{
  ℕ, zero, suc, Bool, true, false, ◌==◌, ◌||◌, not, if◌then◌else◌, Option, none, some, List, [],
  ◌∷◌, ◌++◌,
}
use weave_jacquard.Prelude.Int.{ℤ}
use weave_jacquard.Prelude.Text.{Text, codes, text_eq}
use weave_jacquard.Error.{
  Code, Error, Result, ok, err, validation, not_found, ◌>>=◌, ◌>>◌, require, stale_branch_head,
  stale_merge_preview, duplicate_document,
}
use weave_jacquard.Sexpr.Runtime.{Runtime, Digits}
use weave_jacquard.Sexpr.Node.{Kind, Value, str, Node, atom, list, node_id, to_list, from_list}
use weave_jacquard.Sexpr.Atom.{make_atom}
use weave_jacquard.Sexpr.Validate.{validate_tree}
use weave_jacquard.Sexpr.Parser.{parse_source}
use weave_jacquard.Edit
use weave_jacquard.Edit.{make_form}
use weave_jacquard.Merge.States.{Documents, document_of, merge_states}
use weave_jacquard.Revision.Database.{Database, Operation}
use weave_jacquard.Revision.Commit.{
  or_not_found, branch_head, state_at_revision, require_expected_head, state_for_write, commit,
  Request,
}
use weave_jacquard.Revision.Dag.{parents_of, analyze_common_ancestors, require_single_best}

-- The node edits, with the arguments of their handlers and the ids of the nodes that they make.
pub data NodeEdit (F : Type 0) : Type 0 where
  create_form :
      (parent : Text) (head : Text) (position : Option ℤ) (form head_id : Text) → NodeEdit F
  add_atom :
      (parent : Text) (kind : Kind) (value : Value F) (position : Option ℤ) (new : Text)
      → NodeEdit F
  set_atom : (node : Text) (value : Value F) → NodeEdit F
  delete_node : (node : Text) → NodeEdit F
  move_node : (node : Text) (new_parent : Text) (position : Option ℤ) → NodeEdit F
  wrap_node : (node : Text) (head : Text) (wrapper head_id : Text) → NodeEdit F

-- state[document] = root
unfoldable pub put_document : {F : Type 0} → Text → Node F → Documents F → Documents F
put_document name root [] = (name, root) ∷ []
put_document name root ((m, old) ∷ state) =
    let later = (m, old) ∷ put_document name root state in
    if text_eq m name then (m, root) ∷ state else later

abbrev pub has_document : {F : Type 0} → Text → Documents F → Bool
has_document name state = elim (document_of name state) [ some root ↦ true | none ↦ false ]

unfoldable pub operation_of : {F : Type 0} → NodeEdit F → Operation
operation_of (create_form p h pos i j) = record { kind = codes "create_form"; target = some p }
operation_of (add_atom p k v pos i) = record { kind = codes "add_atom"; target = some p }
operation_of (set_atom i v) = record { kind = codes "set_atom"; target = some i }
operation_of (delete_node i) = record { kind = codes "delete_node"; target = some i }
operation_of (move_node i p pos) = record { kind = codes "move_node"; target = some i }
operation_of (wrap_node k h i j) = record { kind = codes "wrap_node"; target = some k }

-- The ids of the eight nodes of a new program.
pub record ProgramIds : Type 0 where
  pub root : Text
  pub root_head : Text
  pub name_form : Text
  pub name_head : Text
  pub name_atom : Text
  pub version_form : Text
  pub version_head : Text
  pub version_atom : Text

-- parent["children"].extend(new)
unfoldable pub extend_children : {F : Type 0} → Node F → List (Node F) → Node F
extend_children (atom i a) new = atom i a
extend_children (list i cs) new = list i (from_list (to_list cs ++ new))

module _ {F : Type 0} ⦃r : Runtime F⦄ where
  unfoldable pub apply_edit : NodeEdit F → Node F → Result (Node F)
  apply_edit (create_form p h pos i j) root = Edit.create_form root p h pos i j
  apply_edit (add_atom p k v pos i) root = Edit.add_atom root p k v pos i
  apply_edit (set_atom i v) root = Edit.set_atom root i v
  apply_edit (delete_node i) root = Edit.delete_node root i
  apply_edit (move_node i p pos) root = Edit.move_node root i p pos
  apply_edit (wrap_node k h i j) root = Edit.wrap_node root k h i j

  -- A request of one operation, on the condition that the branch is still at the head read.
  abbrev pub single_request : Text → ℕ → Documents F → Operation → Request F
  single_request branch base state operation = record {
    modules = state;
    operations = operation ∷ [];
    parent2 = none;
    extra_documents = [];
    expected = some ((branch, base) ∷ []);
    stale = stale_branch_head;
  }

  unfoldable pub publish :
      Database F → Text → Text → ℕ → Documents F → Operation → Result (ℕ × Database F)
  publish db project branch base state operation =
      commit db project branch (single_request branch base state operation)

  -- A node edit: the shape that its six handlers share, up to `_commit_node_mutation`.
  unfoldable pub edit_document :
      Database F → Text → Text → Text → Option ℕ → NodeEdit F → Result (ℕ × Database F)
  edit_document db project branch document expected edit = do
    (base, state) ← state_for_write db project branch expected
    root ← or_not_found (document_of document state)
    root' ← apply_edit edit root
    validate_tree root'
    publish db project branch base (put_document document root' state) (operation_of edit)

  -- `validate_tree` before a tree is used.
  unfoldable pub checked : Node F → Result (Node F)
  checked tree = validate_tree tree >> ok tree

  -- The tree of `create_program`: (program (name "…") (version "…")).
  unfoldable pub program_tree : ProgramIds → Text → Text → Result (Node F)
  program_tree ids name version = do
    root ← make_form ids.root ids.root_head (codes "program")
    name_form ← make_form ids.name_form ids.name_head (codes "name")
    name_atom ← make_atom ids.name_atom Kind.string (str name)
    version_form ← make_form ids.version_form ids.version_head (codes "version")
    version_atom ← make_atom ids.version_atom Kind.string (str version)
    checked (
        extend_children root (
          extend_children name_form (name_atom ∷ [])
          ∷ extend_children version_form (version_atom ∷ [])
          ∷ []))

  unfoldable pub create_program :
      Database F
      → Text
      → Text
      → Text
      → ProgramIds
      → Text
      → Text
      → Option ℕ
      → Result (ℕ × Database F)
  create_program db project branch document ids name version expected = do
    (base, state) ← state_for_write db project branch expected
    require (not (has_document document state)) duplicate_document
    root ← program_tree ids name version
    publish db project branch base (put_document document root state)
        (record { kind = codes "create_program"; target = some (node_id root) })

  -- `_validate_state`
  unfoldable pub validate_state : Documents F → Result (Unit {0})
  validate_state [] = ok tt
  validate_state ((name, root) ∷ state) = validate_tree root >> validate_state state

  unfoldable pub merge :
      Database F → Text → Text → Text → Option ℕ → Option ℕ → Result (ℕ × Database F)
  merge db project target source expected_target expected_source = do
    target_head ← branch_head db project target
    source_head ← branch_head db project source
    require_expected_head target_head expected_target stale_merge_preview
    require_expected_head source_head expected_source stale_merge_preview
    ancestry ← analyze_common_ancestors (parents_of db) target_head source_head
    base ← require_single_best ancestry
    (merged, changed) ←
        merge_states (state_at_revision db base) (state_at_revision db target_head)
          (state_at_revision db source_head)
    validate_state merged
    commit db project target (record {
      modules = merged;
      operations = record { kind = codes "merge"; target = some target } ∷ [];
      parent2 = some source_head;
      extra_documents = [];
      expected = some ((target, target_head) ∷ (source, source_head) ∷ []);
      stale = stale_merge_preview;
    })

module _ {F : Type 0} ⦃r : Runtime F⦄ ⦃u : Digits⦄ (fresh : ℕ → Text) where
  unfoldable pub import_program :
      Database F → Text → Text → Text → Text → Bool → Option ℕ → Result (ℕ × Database F)
  import_program db project branch document source replace expected = do
    root ← parse_source fresh source
    (base, state) ← state_for_write db project branch expected
    require (not (has_document document state) || replace) duplicate_document
    publish db project branch base (put_document document root state)
        (record { kind = codes "import_program"; target = some (node_id root) })
