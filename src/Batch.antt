-- ===== src/Batch.antt =====
-- `EditBatchExecutor.transform` of batch_edit.py: a list of raw operations on one tree, with
-- aliases for the nodes that the batch makes. The entries of the result that only describe the
-- operations are not modelled.
pub mod Input
pub mod Publish
pub mod Errors
pub mod Store
use weave_jacquard.Prelude.{
  ℕ, suc, ◌+◌, ◌*◌, leb, ◌==◌, ◌&&◌, ◌||◌, not, Bool, true, false, if◌then◌else◌, Option, none,
  some, List, [], ◌∷◌, ◌++◌, all, length, map,
}
use weave_jacquard.Prelude.Int.{ℤ}
use weave_jacquard.Prelude.Text.{Text, codes, text_eq, mem_text}
use weave_jacquard.Error.{
  Code, Error, Result, ok, err, validation, not_found, batch, wrap_root, ◌>>=◌, ◌>>◌, require,
  delete_root, invalid_position, invalid_node_id, duplicate_node_id, missing_structural_target,
  empty_edit_batch, edit_batch_too_large, invalid_batch_operation, unknown_batch_operation,
  unknown_batch_field, unknown_batch_alias, invalid_batch_alias, duplicate_batch_alias,
  invalid_node_reference, invalid_atom_kind, missing_value,
}
use weave_jacquard.Sexpr.Runtime.{Runtime}
use weave_jacquard.Sexpr.Node.{Kind, Value, str, int, Node, Nodes, node_id}
use weave_jacquard.Sexpr.Atom.{is_id_char, node_id_matches}
use weave_jacquard.Sexpr.Validate.{validate_tree}
use weave_jacquard.Sexpr.Walk.{Yields, stop, raises, yield, walk_nodes, find_node, find_parent}
use weave_jacquard.Edit
use weave_jacquard.Edit.{require_list, child_at, remove_at, modify_children}
use weave_jacquard.Revision.Database.{Operation}
use weave_jacquard.Batch.Input.{
  Json, null, scalar, Fields, Raw, object, not_object, Aliases, field_of, get_field, some_or,
  required_string, reject_unknown, resolve_reference, register_alias, position_of, at_position,
  kind_named, required_value,
}

abbrev pub max_batch_operations : ℕ
max_batch_operations = 256

-- {node["id"] for node in walk}
unfoldable pub collect_ids : {F : Type 0} → Yields (Node F) → Result (List Text)
collect_ids stop = ok []
collect_ids (raises e) = err e
collect_ids (yield n rest) = do
  ids ← collect_ids rest
  ok (if mem_text (node_id n) ids then ids else node_id n ∷ ids)

unfoldable pub drop_aliases : List Text → Aliases → Aliases
drop_aliases removed [] = []
drop_aliases removed ((a, i) ∷ aliases) =
    if mem_text i removed
    then drop_aliases removed aliases
    else (a, i) ∷ drop_aliases removed aliases

-- What the loop carries from operation to operation.
pub record Draft (F : Type 0) : Type 0 where
  pub root : Node F
  pub aliases : Aliases
  pub log : List Operation
  pub created : ℕ
  pub deleted : ℕ

abbrev pub draft_of : {F : Type 0} → Node F → Draft F
draft_of root = record { root = root; aliases = []; log = []; created = 0; deleted = 0 }

abbrev logged : Text → Text → Operation
logged kind target = record { kind = kind; target = some target }

-- The handlers of the loop's `try`: an error of an operation gets its index.
unfoldable pub blame {ℓ} : {A : Type ℓ} → ℕ → Result A → Result A
blame index (ok a) = ok a
blame index (err (validation code)) = err (batch code index)
blame index (err not_found) = err (batch missing_structural_target index)
blame index (err e) = err e

module _ {F : Type 0} ⦃r : Runtime F⦄ (fresh : ℕ → Text) where
  -- A given id must be a node id that the tree does not have; otherwise a new one is drawn.
  unfoldable pub replay_node_id : Node F → Fields F → Text → Result Text
  unfolding get_field
  replay_node_id root fields new = elim (get_field (codes "node_id") fields) [
    | null ↦ ok new
    | scalar (str i) ↦ (do
      require (node_id_matches i) invalid_node_id
      (elim (find_node root i) [
        | ok n ↦ err (validation duplicate_node_id)
        | err not_found ↦ ok i
        | err e ↦ err e
      ]))
    | scalar v ↦ err (validation invalid_node_id)
  ]

  unfoldable pub create_form : Fields F → ℕ → Draft F → Result (Draft F)
  unfolding reject_unknown resolve_reference required_string replay_node_id register_alias
      position_of
  create_form fields index d = do
    reject_unknown fields
        (map codes ("op" ∷ "parent" ∷ "head" ∷ "position" ∷ "as" ∷ "node_id" ∷ []))
    parent_id ← resolve_reference (get_field (codes "parent") fields) d.aliases
    head ← required_string fields (codes "head")
    parent ← find_node d.root parent_id
    require_list parent
    i ← replay_node_id d.root fields (fresh (2 * index))
    root ←
        at_position (get_field (codes "position") fields)
          λ p. Edit.create_form d.root parent_id head p i (fresh (2 * index + 1))
    aliases ← register_alias (get_field (codes "as") fields) i d.aliases
    ok (record {
      root = root;
      aliases = aliases;
      log = d.log ++ logged (codes "create_form") parent_id ∷ [];
      created = d.created + 1;
      deleted = d.deleted;
    })

  unfoldable pub add_atom : Fields F → ℕ → Draft F → Result (Draft F)
  unfolding reject_unknown resolve_reference required_string kind_named required_value
      replay_node_id register_alias position_of
  add_atom fields index d = do
    reject_unknown fields
        (map codes ("op" ∷ "parent" ∷ "kind" ∷ "value" ∷ "position" ∷ "as" ∷ "node_id" ∷ []))
    parent_id ← resolve_reference (get_field (codes "parent") fields) d.aliases
    name ← required_string fields (codes "kind")
    kind ← kind_named name
    value ← required_value fields
    parent ← find_node d.root parent_id
    require_list parent
    i ← replay_node_id d.root fields (fresh (2 * index))
    root ←
        at_position (get_field (codes "position") fields)
          λ p. Edit.add_atom d.root parent_id kind value p i
    aliases ← register_alias (get_field (codes "as") fields) i d.aliases
    ok (record {
      root = root;
      aliases = aliases;
      log = d.log ++ logged (codes "add_atom") parent_id ∷ [];
      created = d.created + 1;
      deleted = d.deleted;
    })

  unfoldable pub set_atom : Fields F → Draft F → Result (Draft F)
  unfolding reject_unknown resolve_reference required_value
  set_atom fields d = do
    reject_unknown fields (map codes ("op" ∷ "node" ∷ "value" ∷ []))
    i ← resolve_reference (get_field (codes "node") fields) d.aliases
    value ← required_value fields
    root ← Edit.set_atom d.root i value
    ok (record d { root = root; log = d.log ++ logged (codes "set_atom") i ∷ [] })

  unfoldable pub move_node : Fields F → Draft F → Result (Draft F)
  unfolding reject_unknown resolve_reference position_of
  move_node fields d = do
    reject_unknown fields (map codes ("op" ∷ "node" ∷ "new_parent" ∷ "position" ∷ []))
    i ← resolve_reference (get_field (codes "node") fields) d.aliases
    new_parent_id ← resolve_reference (get_field (codes "new_parent") fields) d.aliases
    root ←
        at_position (get_field (codes "position") fields)
          λ p. Edit.move_node d.root i new_parent_id p
    ok (record d { root = root; log = d.log ++ logged (codes "move_node") i ∷ [] })

  unfoldable pub wrap_node : Fields F → ℕ → Draft F → Result (Draft F)
  unfolding reject_unknown resolve_reference required_string replay_node_id register_alias
  wrap_node fields index d = do
    reject_unknown fields (map codes ("op" ∷ "node" ∷ "head" ∷ "as" ∷ "node_id" ∷ []))
    k ← resolve_reference (get_field (codes "node") fields) d.aliases
    head ← required_string fields (codes "head")
    require (not (text_eq (node_id d.root) k)) wrap_root
    find_parent d.root k
    i ← replay_node_id d.root fields (fresh (2 * index))
    root ← Edit.wrap_node d.root k head i (fresh (2 * index + 1))
    aliases ← register_alias (get_field (codes "as") fields) i d.aliases
    ok (record {
      root = root;
      aliases = aliases;
      log = d.log ++ logged (codes "wrap_node") k ∷ [];
      created = d.created + 1;
      deleted = d.deleted;
    })

  -- The ids below a removed node, and the aliases of them that are forgotten.
  unfoldable pub delete_node : Fields F → Draft F → Result (Draft F)
  unfolding reject_unknown resolve_reference remove_at modify_children child_at collect_ids
      drop_aliases
  delete_node fields d = do
    reject_unknown fields (map codes ("op" ∷ "node" ∷ []))
    i ← resolve_reference (get_field (codes "node") fields) d.aliases
    require (not (text_eq (node_id d.root) i)) delete_root
    (parent, index) ← find_parent d.root i
    children ← require_list parent
    removed ← (elim (child_at index children) [
      | some n ↦ collect_ids (walk_nodes n)
      | none ↦ ok []
    ])
    ok (record {
      root = modify_children (node_id parent) (remove_at index) d.root;
      aliases = drop_aliases removed d.aliases;
      log = d.log ++ logged (codes "delete_node") i ∷ [];
      created = d.created;
      deleted = d.deleted + length removed;
    })

  -- The table of handlers.
  unfoldable pub dispatch : Text → Fields F → ℕ → Draft F → Result (Draft F)
  dispatch op fields index d =
      if text_eq op (codes "create_form")
      then create_form fields index d
      else if text_eq op (codes "add_atom")
      then add_atom fields index d
      else if text_eq op (codes "set_atom")
      then set_atom fields d
      else if text_eq op (codes "move_node")
      then move_node fields d
      else if text_eq op (codes "wrap_node")
      then wrap_node fields index d
      else if text_eq op (codes "delete_node")
      then delete_node fields d
      else err (batch unknown_batch_operation index)

  unfoldable pub apply_one : Raw F → ℕ → Draft F → Result (Draft F)
  unfolding get_field
  apply_one not_object index d = err (batch invalid_batch_operation index)
  apply_one (object fields) index d = elim (get_field (codes "op") fields) [
    | scalar (str op) ↦ dispatch op fields index d
    | _ ↦ err (batch invalid_batch_operation index)
  ]

  unfoldable pub apply_all : List (Raw F) → ℕ → Draft F → Result (Draft F)
  apply_all [] index d = ok d
  apply_all (raw ∷ raws) index d =
      blame index (apply_one raw index d) >>= apply_all raws (suc index)

  unfoldable pub transform : Node F → List (Raw F) → Result (Draft F)
  unfolding apply_all
  transform root raws = do
    require (leb 1 (length raws)) empty_edit_batch
    require (leb (length raws) max_batch_operations) edit_batch_too_large
    d ← apply_all raws 0 (draft_of root)
    validate_tree d.root
    ok d
