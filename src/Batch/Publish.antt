-- ===== src/Batch/Publish.antt =====
-- `EditBatchExecutor.apply` of batch_edit.py, and `_commit_if_head`, which publishes by a
-- transaction of its own.
use weave_jacquard.Prelude.{
  ℕ, ◌≡◌, refl, ◌==◌, Option, none, some, List, [], ◌∷◌, ◌∙◌, sym, Bool-cases, inl, inr,
}
use weave_jacquard.Prelude.Text.{Text}
use weave_jacquard.Error.{Result, ok, ◌>>=◌, ◌>>◌, >>=-eq-ok, require, stale_revision}
use weave_jacquard.Sexpr.Runtime.{Runtime}
use weave_jacquard.Merge.States.{Documents, document_of}
use weave_jacquard.Revision.Database.{Operation, Database, find_branch, insert_revision, draw}
use weave_jacquard.Revision.Commit.{
  Request, project_id, branch_head, or_not_found, require_expected_head, state_at_revision,
  published, advance_head, commit, transact, check_expected, check_heads,
}
use weave_jacquard.Revision.Commit.Publication.{commit-Names}
use weave_jacquard.Revision.Commit.Success.{or_not_found-eq-ok}
use weave_jacquard.Revision.Workspace.{put_document, validate_state}
use weave_jacquard.Batch.{transform}
use weave_jacquard.Batch.Input.{Raw}

-- What the transaction stores, in the terms of `_commit`.
abbrev pub batch_request : {F : Type 0} → Text → ℕ → Documents F → List Operation → Request F
batch_request branch base modules operations = record {
  modules = modules;
  operations = operations;
  parent2 = none;
  extra_documents = [];
  expected = some ((branch, base) ∷ []);
  stale = stale_revision;
}

module _ {F : Type 0} where
  -- A branch that is gone is not found, and one that moved is stale.
  unfoldable pub commit_if_head :
      Database F → Text → Text → Documents F → ℕ → List Operation → Result (ℕ × Database F)
  commit_if_head db project branch modules base operations = do
    p ← project_id db project
    let (revision, db₁) = draw db
    head ← or_not_found (find_branch p branch db₁.branches)
    require (head == base) stale_revision
    let req = batch_request branch base modules operations
    db₂ ← insert_revision (published db p base req) db₁
    db₃ ← advance_head db₂ p branch base revision req.expected stale_revision
    ok (revision, db₃)

  branch_head-found :
      (db : Database F) (project branch : Text) (head : ℕ)
      → branch_head db project branch ≡ ok head
      → (p : ℕ) × (project_id db project ≡ ok p) × (find_branch p branch db.branches ≡ some head)
  unfolding branch_head
  branch_head-found db project branch head h =
      let (p, e, k) = >>=-eq-ok (project_id db project) _ h in
      (p, e, or_not_found-eq-ok (find_branch p branch db.branches) head k)

  commit_if_head_at :
      (db : Database F) (project branch : Text) (modules : Documents F) (base p head : ℕ)
      (operations : List Operation)
      → project_id db project ≡ ok p
      → find_branch p branch db.branches ≡ some head
      → commit_if_head db project branch modules base operations
        ≡ transact db p branch base (batch_request branch base modules operations)
  unfolding commit_if_head transact check_expected check_heads
  commit_if_head_at db project branch modules base p head operations e f =
      elim (Bool-cases (head == base)) [
        | inl at ↦ rw (e, f, at) refl
        | inr moved ↦ rw (e, f, moved) refl
      ]

  -- Where the branch is there, a batch is published as `_commit` publishes: the transaction of
  -- its own does the same.
  pub commit_if_head-eq-commit :
      (db : Database F) (project branch : Text) (modules : Documents F) (base head : ℕ)
      (operations : List Operation)
      → branch_head db project branch ≡ ok head
      → commit_if_head db project branch modules base operations
        ≡ commit db project branch (batch_request branch base modules operations)
  commit_if_head-eq-commit db project branch modules base head operations h =
      let (p, e, f) = branch_head-found db project branch head h in
      commit_if_head_at db project branch modules base p head operations e f
      ∙ sym (
          commit-Names db project branch base [] (batch_request branch base modules operations) refl
          ∙ rw e refl)

module _ {F : Type 0} ⦃r : Runtime F⦄ (fresh : ℕ → Text) where
  unfoldable pub apply_batch :
      Database F → Text → Text → Text → List (Raw F) → Option ℕ → Result (ℕ × Database F)
  unfolding transform commit_if_head
  apply_batch db project branch document raws expected = do
    base ← branch_head db project branch
    require_expected_head base expected stale_revision
    let state = state_at_revision db base
    root ← or_not_found (document_of document state)
    d ← transform fresh root raws
    let state' = put_document document d.root state
    validate_state state'
    commit_if_head db project branch state' base d.log
