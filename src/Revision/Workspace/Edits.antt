-- ===== src/Revision/Workspace/Edits.antt =====
-- What a published node edit changes, and why no concurrent edit is lost.
use weave_jacquard.Prelude.{
  ℕ, ◌<◌, ◌≡◌, ◌≢◌, refl, ap, ◌∙◌, Option, none, some, [], ◌∷◌, arith, if◌then◌else◌, ==-eq-false,
}
use weave_jacquard.Prelude.Text.{Text, text_eq, text_eq_iff}
use weave_jacquard.Error.{Code, ok, err, validation, >>=-eq-ok, stale_branch_head}
use weave_jacquard.Sexpr.Runtime.{Runtime}
use weave_jacquard.Sexpr.Node.{Node}
use weave_jacquard.Sexpr.Validate.{validate_tree}
use weave_jacquard.Merge.States.{Documents, document_of}
use weave_jacquard.Revision.Database.{Revision, Database, find_branch, find_revision}
use weave_jacquard.Revision.Database.Sound.{IsSound, belongs-lt}
use weave_jacquard.Revision.Commit.{
  branch_head, state_at_revision, state_for_write, require_expected_head, or_not_found, project_id,
}
use weave_jacquard.Revision.Commit.CompareAndSet.{IsPublished, commit_publishes}
use weave_jacquard.Revision.Commit.Success.{find_branch-belongs, or_not_found-eq-ok}
use weave_jacquard.Revision.Workspace.{
  NodeEdit, apply_edit, edit_document, single_request, publish, put_document, operation_of,
}

module _ {F : Type 0} where
  -- One document is put, and the others stay.
  pub document_of-put_document :
      (name other : Text) (root : Node F) (state : Documents F)
      → document_of other (put_document name root state)
        ≡ (if text_eq name other then some root else document_of other state)
  unfolding document_of put_document
  document_of-put_document name other root [] = refl
  document_of-put_document name other root ((m, old) ∷ state) = ground (
    arith,
    document_of-put_document name other root state,
    text_eq_iff m name,
    text_eq_iff m other,
    text_eq_iff name other,
  )

  pub branch_head-eq-ok :
      (db : Database F) (project branch : Text) (p head : ℕ)
      → project_id db project ≡ ok p
      → branch_head db project branch ≡ ok head
      → find_branch p branch db.branches ≡ some head
  unfolding branch_head
  branch_head-eq-ok db project branch p head e h =
      or_not_found-eq-ok (find_branch p branch db.branches) head (rw e at h)

  pub find_branch-branch_head :
      (db : Database F) (project branch : Text) (p head : ℕ)
      → project_id db project ≡ ok p
      → find_branch p branch db.branches ≡ some head
      → branch_head db project branch ≡ ok head
  unfolding branch_head
  find_branch-branch_head db project branch p head e h = rw e (rw h)

  pub project_id-projects :
      (db db' : Database F) (project : Text)
      → db'.projects ≡ db.projects
      → project_id db' project ≡ project_id db project
  unfolding project_id
  project_id-projects db db' project e = rw e

pub require_expected_head-eq-ok :
    (head : ℕ) (expected : Option ℕ) (code : Code)
    → require_expected_head head expected code ≡ ok tt
    → (e : ℕ) → expected ≡ some e
    → e ≡ head
unfolding require_expected_head
require_expected_head-eq-ok head none code h e k = cc
require_expected_head-eq-ok head (some x) code h e k = ground arith

module _ {F : Type 0} ⦃r : Runtime F⦄ where
  -- What a published edit of a document shows.
  pub record IsEdited (db db' : Database F) (p : ℕ) (branch document : Text) (edit : NodeEdit F)
      (base i : ℕ) (root root' : Node F) : Type 0 where
    pub before : document_of document (state_at_revision db base) ≡ some root
    pub edited : apply_edit edit root ≡ ok root'
    pub valid : validate_tree root' ≡ ok tt
    pub after :
        (other : Text)
        → document_of other (state_at_revision db' i) ≡ (
            if text_eq document other
            then some root'
            else document_of other (state_at_revision db base))
    pub publication : IsPublished db db' p branch base i (
        single_request branch base
          (put_document document root' (state_at_revision db base))
          (operation_of edit))

  pub state_at_revision-stored :
      (db : Database F) (i : ℕ) (v : Revision F)
      → find_revision i db.revisions ≡ some v
      → state_at_revision db i ≡ v.modules
  unfolding state_at_revision
  state_at_revision-stored db i v e = rw (e, state_at_revision)

  state_for_write-eq-ok :
      (db : Database F) (project branch : Text) (expected : Option ℕ) (base : ℕ)
      (state : Documents F)
      → state_for_write db project branch expected ≡ ok (base, state)
      → (branch_head db project branch ≡ ok base)
        × ((e : ℕ) → expected ≡ some e → e ≡ base)
        × (state_at_revision db base ≡ state)
  unfolding state_for_write
  state_for_write-eq-ok db project branch expected base state h =
      let (head, e, h₁) = >>=-eq-ok (branch_head db project branch) _ h in
      let (u, e₂, h₂) = >>=-eq-ok (require_expected_head head expected stale_branch_head) _ h₁ in
      let same : head ≡ base = cc in
      (
        rw (← same) e,
        rw (← same) (require_expected_head-eq-ok head expected stale_branch_head e₂),
        rw (← same) (cc),
      )

  -- A published node edit: the branch stood at the expected head, if one was given; the new
  -- revision is the child of that head alone and holds the edited document, a valid tree, with
  -- every other document as it was; and no other branch or revision changed.
  pub edit_document_publishes :
      (db db' : Database F) (project branch document : Text) (expected : Option ℕ)
      (edit : NodeEdit F) (i : ℕ)
      → edit_document db project branch document expected edit ≡ ok (i, db')
      → (p : ℕ) × (base : ℕ) × (root : Node F) × (root' : Node F) × (project_id db project ≡ ok p)
        × ((e : ℕ) → expected ≡ some e → e ≡ base)
        × (find_branch p branch db.branches ≡ some base)
        × IsEdited db db' p branch document edit base i root root'
  unfolding edit_document publish
  edit_document_publishes db db' project branch document expected edit i h =
      let ((base, state), e₁, h₁) = >>=-eq-ok (state_for_write db project branch expected) _ h in
      let (root, e₂, h₂) = >>=-eq-ok (or_not_found (document_of document state)) _ h₁ in
      let (root', e₃, h₃) = >>=-eq-ok (apply_edit edit root) _ h₂ in
      let (u, e₄, h₄) = >>=-eq-ok (validate_tree root') _ h₃ in
      let (head, expects, reads) = state_for_write-eq-ok db project branch expected base state e₁ in
      let (p, e, heads, done) =
        commit_publishes db db' project branch base i []
          (single_request branch base (put_document document root' state) (operation_of edit)) refl
          h₄ in
      (
        p,
        base,
        root,
        root',
        e,
        expects,
        heads.0,
        record {
          before = rw reads (or_not_found-eq-ok (document_of document state) root e₂);
          edited = e₃;
          valid = e₄;
          after = λ other.
              ap (document_of other) (state_at_revision-stored db' i _ done.stored)
              ∙ rw reads (document_of-put_document document other root' state);
          publication = rw reads done;
        },
      )

  -- An edit that expects another head than the branch has fails, and changes nothing.
  pub edit_document_stale :
      (db : Database F) (project branch document : Text) (head e : ℕ) (edit : NodeEdit F)
      → branch_head db project branch ≡ ok head
      → head ≢ e
      → edit_document db project branch document (some e) edit ≡ err (validation stale_branch_head)
  unfolding edit_document state_for_write require_expected_head
  edit_document_stale db project branch document head e edit h ne =
      rw h (rw (==-eq-false head e ne))

  -- Of two edits that expect the same head of one branch, only the first is published: once it is,
  -- the second is refused as stale, whatever the documents that they edit.
  pub edit_document_race :
      (db db' : Database F) (project branch document₁ document₂ : Text) (e i : ℕ)
      (edit₁ edit₂ : NodeEdit F)
      → IsSound db
      → edit_document db project branch document₁ (some e) edit₁ ≡ ok (i, db')
      → edit_document db' project branch document₂ (some e) edit₂
        ≡ err (validation stale_branch_head)
  edit_document_race db db' project branch document₁ document₂ e i edit₁ edit₂ s h =
      let (p, base, root, root', pid, expects, stood, edited) =
        edit_document_publishes db db' project branch document₁ (some e) edit₁ i h in
      let done = edited.publication in
      let old : base < db.next =
        belongs-lt db.next p base db.revisions s.drawn
          (find_branch-belongs db.revisions p branch base db.branches s.heads stood) in
      edit_document_stale db' project branch document₂ i e edit₂
        (find_branch-branch_head db' project branch p i
          (project_id-projects db db' project done.projects ∙ pid) done.head)
        (λ same. absurd (omega (arith, done.fresh, expects e refl)))
