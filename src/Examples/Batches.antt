-- ===== src/Examples/Batches.antt =====
-- Batches of edits on the sample program.
use weave_jacquard.Prelude.{ℕ, ◌≡◌, ◌≤◌, ◌<◌, ◌⊎◌, refl, Option, some, List, [], ◌∷◌, ◌++◌, length}
use weave_jacquard.Prelude.Int.{pos}
use weave_jacquard.Prelude.Text.{Text, codes}
use weave_jacquard.Error.{
  Result, ok, err, validation, batch, empty_edit_batch, edit_batch_too_large, unknown_batch_alias,
}
use weave_jacquard.Sexpr.Atom.{show_nat}
use weave_jacquard.Sexpr.Node.{str, int, Node}
use weave_jacquard.Sexpr.Validate.{validate_tree}
use weave_jacquard.Revision.Database.{Database, find_branch}
use weave_jacquard.Revision.Commit.{project_id, commit, branch_head}
use weave_jacquard.Revision.Workspace.{validate_state}
use weave_jacquard.Batch.{
  Draft, draft_of, apply_all, transform, max_batch_operations, dispatch, apply_one, blame,
  replay_node_id, collect_ids, drop_aliases,
}
use weave_jacquard.Batch
use weave_jacquard.Batch.Input.{
  Json, scalar, Raw, object, field_of, get_field, string_of, required_string, reject_unknown,
  target_of, dereference, resolve_reference, alias_matches, register_alias, position_of, kind_named,
  required_value,
}
use weave_jacquard.Batch.Publish.{
  batch_request, commit_if_head, commit_if_head-eq-commit, apply_batch,
}
use weave_jacquard.Batch.Store.{IsBatched, apply_batch_publishes}
use weave_jacquard.Batch.Errors.{Fault, transform_blames, transform_bounds}
use weave_jacquard.Examples.Data.{sample, text_runtime, running}
use weave_jacquard.Examples.Store.{p, main, doc, sample_db, database_of}

abbrev field : Text → Text → Text × Json Text
field name value = (name, scalar (str value))

abbrev pub new_id : ℕ → Text
unfolding running
new_id k = codes "n_x" ++ show_nat k

-- A new form, an atom in it by its alias, and a removal.
abbrev pub edits : List (Raw Text)
edits =
    object (
      field (codes "op") (codes "create_form")
      ∷ field (codes "parent") (codes "n_1")
      ∷ field (codes "head") (codes "limits")
      ∷ field (codes "as") (codes "a")
      ∷ [])
    ∷ object (
        field (codes "op") (codes "add_atom")
        ∷ field (codes "parent") (codes "@a")
        ∷ field (codes "kind") (codes "integer")
        ∷ (codes "value", scalar (int (pos 3)))
        ∷ [])
    ∷ object (field (codes "op") (codes "delete_node") ∷ field (codes "node") (codes "n_7") ∷ [])
    ∷ []

-- The names that a run of a batch passes through.
unfoldable pub batches : Unit {0}
unfolding running dispatch apply_one blame apply_all transform replay_node_id collect_ids
    drop_aliases Batch.create_form Batch.add_atom Batch.set_atom Batch.move_node Batch.wrap_node
    Batch.delete_node field_of get_field string_of required_string reject_unknown target_of
    dereference resolve_reference alias_matches register_alias position_of kind_named required_value
    commit_if_head apply_batch validate_state
batches = tt

abbrev draft_or_first : Result (Draft Text) → Draft Text
draft_or_first (ok d) = d
draft_or_first (err e) = draft_of sample

abbrev edited_draft : Draft Text
edited_draft = draft_or_first (transform new_id sample edits)

transform_runs : transform new_id sample edits ≡ ok edited_draft
unfolding batches
transform_runs = refl

transform_counts : (edited_draft.created ≡ 2) × (edited_draft.deleted ≡ 1)
unfolding batches
transform_counts = (refl, refl)

transform_bounds_example :
    (1 ≤ length edits) × (length edits ≤ 256) × (validate_tree edited_draft.root ≡ ok tt)
transform_bounds_example = transform_bounds new_id sample edits edited_draft transform_runs

-- An alias that is not defined is blamed on the second operation.
abbrev unknown_alias : List (Raw Text)
unknown_alias =
    object (field (codes "op") (codes "delete_node") ∷ field (codes "node") (codes "n_7") ∷ [])
    ∷ object (field (codes "op") (codes "delete_node") ∷ field (codes "node") (codes "@a") ∷ [])
    ∷ []

unknown_alias_is_blamed : transform new_id sample unknown_alias ≡ err (batch unknown_batch_alias 1)
unfolding batches
unknown_alias_is_blamed = refl

transform_blames_example :
    ((batch unknown_batch_alias 1 ≡ validation empty_edit_batch) × (unknown_alias ≡ []))
    ⊎ ((batch unknown_batch_alias 1 ≡ validation edit_batch_too_large)
        × (max_batch_operations < length unknown_alias))
    ⊎ Fault new_id 0 (draft_of sample) unknown_alias (batch unknown_batch_alias 1)
    ⊎ ((d : Draft Text) × (apply_all new_id unknown_alias 0 (draft_of sample) ≡ ok d)
        × (validate_tree d.root ≡ err (batch unknown_batch_alias 1)))
transform_blames_example =
    transform_blames new_id sample unknown_alias (batch unknown_batch_alias 1)
      unknown_alias_is_blamed

abbrev batched_db : Database Text
batched_db = database_of (apply_batch new_id sample_db p main doc edits (some 1))

batch_runs : apply_batch new_id sample_db p main doc edits (some 1) ≡ ok (2, batched_db)
unfolding batches
batch_runs = refl

apply_batch_publishes_example :
    (q : ℕ) × (base : ℕ) × (root : Node Text) × (draft : Draft Text) × (project_id sample_db p
      ≡ ok q)
    × ((e : ℕ) → ◌≡◌ {A = Option ℕ} (some 1) (some e) → e ≡ base)
    × (find_branch q main sample_db.branches ≡ some base)
    × IsBatched new_id sample_db batched_db q main doc edits base 2 root draft
apply_batch_publishes_example =
    apply_batch_publishes new_id sample_db batched_db p main doc edits (some 1) 2 batch_runs

head_runs : branch_head sample_db p main ≡ ok 1
unfolding running
head_runs = refl

commit_if_head-eq-commit_example :
    commit_if_head sample_db p main [] 1 []
    ≡ commit sample_db p main (batch_request {F = Text} main 1 [] [])
commit_if_head-eq-commit_example = commit_if_head-eq-commit sample_db p main [] 1 1 [] head_runs
