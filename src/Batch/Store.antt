-- ===== src/Batch/Store.antt =====
-- A batch as an operation on the store: it publishes by one commit against the head that it
-- read, and what it stores is valid.
use weave_jacquard.Prelude.{ℕ, ◌≡◌, refl, sym, ap, ◌∙◌, Option, some, List, [], if◌then◌else◌}
use weave_jacquard.Prelude.Text.{Text, text_eq}
use weave_jacquard.Error.{ok, >>=-eq-ok, stale_revision}
use weave_jacquard.Sexpr.Runtime.{Runtime}
use weave_jacquard.Sexpr.Node.{Node}
use weave_jacquard.Merge.States.{document_of}
use weave_jacquard.Revision.Database.{Database, find_branch}
use weave_jacquard.Revision.Commit.{
  branch_head, project_id, commit, or_not_found, require_expected_head, state_at_revision,
}
use weave_jacquard.Revision.Commit.Success.{or_not_found-eq-ok}
use weave_jacquard.Revision.Commit.CompareAndSet.{IsPublished, commit_publishes}
use weave_jacquard.Revision.Workspace.Edits.{
  require_expected_head-eq-ok, state_at_revision-stored, document_of-put_document,
}
use weave_jacquard.Revision.Workspace.{put_document, validate_state}
use weave_jacquard.Revision.Workspace.Publications.{IsPublication}
use weave_jacquard.Revision.Workspace.Trees.{
  IsValidStore, commit-IsValidStore, validate_state-AllValid,
}
use weave_jacquard.Batch.{Draft, transform}
use weave_jacquard.Batch.Input.{Raw}
use weave_jacquard.Batch.Publish.{batch_request, commit_if_head-eq-commit, apply_batch}

module _ {F : Type 0} ⦃r : Runtime F⦄ (fresh : ℕ → Text) where
  -- What a batch that returned read, computed and committed.
  record IsApplied (db db' : Database F) (project branch document : Text) (raws : List (Raw F))
      (expected : Option ℕ) (i : ℕ) : Type 0 where
    pub base : ℕ
    pub root : Node F
    pub draft : Draft F
    pub head : branch_head db project branch ≡ ok base
    pub expects : (e : ℕ) → expected ≡ some e → e ≡ base
    pub read : document_of document (state_at_revision db base) ≡ some root
    pub transformed : transform fresh root raws ≡ ok draft
    pub validated :
        validate_state (put_document document draft.root (state_at_revision db base)) ≡ ok tt
    pub committed :
        commit db project branch (
          batch_request branch base
            (put_document document draft.root (state_at_revision db base))
            draft.log)
        ≡ ok (i, db')

  -- A batch that returns read, computed and committed.
  apply_batch-IsApplied :
      (db db' : Database F) (project branch document : Text) (raws : List (Raw F))
      (expected : Option ℕ) (i : ℕ)
      → apply_batch fresh db project branch document raws expected ≡ ok (i, db')
      → IsApplied db db' project branch document raws expected i
  unfolding apply_batch
  apply_batch-IsApplied db db' project branch document raws expected i h =
      let (base, e₁, h₁) = >>=-eq-ok (branch_head db project branch) _ h in
      let (u₁, e₂, h₂) = >>=-eq-ok (require_expected_head base expected stale_revision) _ h₁ in
      let state = state_at_revision db base in
      let (root, e₃, h₃) = >>=-eq-ok (or_not_found (document_of document state)) _ h₂ in
      let (d, e₄, h₄) = >>=-eq-ok (transform fresh root raws) _ h₃ in
      let state' = put_document document d.root state in
      let (u₂, e₅, h₅) = >>=-eq-ok (validate_state state') _ h₄ in
      record {
        base = base;
        root = root;
        draft = d;
        head = e₁;
        expects = require_expected_head-eq-ok base expected stale_revision e₂;
        read = or_not_found-eq-ok (document_of document state) root e₃;
        transformed = e₄;
        validated = e₅;
        committed = sym (commit_if_head-eq-commit db project branch state' base base d.log e₁) ∙ h₅;
      }

  -- What a published batch shows: its operations, all of them, on the document of the branch's
  -- head, in a valid state that a new revision holds.
  pub record IsBatched (db db' : Database F) (p : ℕ) (branch document : Text) (raws : List (Raw F))
      (base i : ℕ) (root : Node F) (draft : Draft F) : Type 0 where
    pub before : document_of document (state_at_revision db base) ≡ some root
    pub transformed : transform fresh root raws ≡ ok draft
    pub after :
        (other : Text)
        → document_of other (state_at_revision db' i) ≡ (
            if text_eq document other
            then some draft.root
            else document_of other (state_at_revision db base))
    pub valid : validate_state (state_at_revision db' i) ≡ ok tt
    pub publication : IsPublished db db' p branch base i (
        batch_request branch base
          (put_document document draft.root (state_at_revision db base))
          draft.log)

  -- A batch that returns is one revision: the branch stood at the expected head, if one was
  -- given; the new revision is the child of that head alone and holds the document with all of
  -- the operations done, and every other document as it was, in a valid state; it logs the
  -- operations of the batch; and no other branch or revision changed.
  pub apply_batch_publishes :
      (db db' : Database F) (project branch document : Text) (raws : List (Raw F))
      (expected : Option ℕ) (i : ℕ)
      → apply_batch fresh db project branch document raws expected ≡ ok (i, db')
      → (p : ℕ) × (base : ℕ) × (root : Node F) × (draft : Draft F) × (project_id db project ≡ ok p)
        × ((e : ℕ) → expected ≡ some e → e ≡ base)
        × (find_branch p branch db.branches ≡ some base)
        × IsBatched db db' p branch document raws base i root draft
  apply_batch_publishes db db' project branch document raws expected i h =
      let a = apply_batch-IsApplied db db' project branch document raws expected i h in
      let state' = put_document document a.draft.root (state_at_revision db a.base) in
      let (p, e, heads, done) =
        commit_publishes db db' project branch a.base i []
          (batch_request branch a.base state' a.draft.log) refl a.committed in
      let stored : state_at_revision db' i ≡ state' =
        state_at_revision-stored db' i _ done.stored in
      (
        p,
        a.base,
        a.root,
        a.draft,
        e,
        a.expects,
        heads.0,
        record {
          before = a.read;
          transformed = a.transformed;
          after = λ other.
              ap (document_of other) stored
              ∙ document_of-put_document document other a.draft.root (state_at_revision db a.base);
          valid = ap validate_state stored ∙ a.validated;
          publication = done;
        },
      )

  pub apply_batch-IsPublication :
      (db db' : Database F) (project branch document : Text) (raws : List (Raw F))
      (expected : Option ℕ) (i : ℕ)
      → apply_batch fresh db project branch document raws expected ≡ ok (i, db')
      → IsPublication db db'
  apply_batch-IsPublication db db' project branch document raws expected i h =
      let a = apply_batch-IsApplied db db' project branch document raws expected i h in
      record {
        project = project;
        branch = branch;
        base = a.base;
        more = [];
        request = _;
        revision = i;
        names = refl;
        committed = a.committed;
      }

  pub apply_batch-IsValidStore :
      (db db' : Database F) (project branch document : Text) (raws : List (Raw F))
      (expected : Option ℕ) (i : ℕ)
      → IsValidStore db
      → apply_batch fresh db project branch document raws expected ≡ ok (i, db')
      → IsValidStore db'
  apply_batch-IsValidStore db db' project branch document raws expected i v h =
      let a = apply_batch-IsApplied db db' project branch document raws expected i h in
      commit-IsValidStore db db' project branch a.base i [] _ refl
        (validate_state-AllValid _ a.validated) v a.committed
