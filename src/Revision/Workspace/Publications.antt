-- ===== src/Revision/Workspace/Publications.antt =====
-- Every handler that publishes does it by one commit that names the head it read.
use weave_jacquard.Prelude.{ℕ, ◌≡◌, refl, Bool, not, ◌||◌, Option, List, [], ◌∷◌}
use weave_jacquard.Prelude.Text.{Text}
use weave_jacquard.Error.{ok, >>=-eq-ok, require, stale_merge_preview, duplicate_document}
use weave_jacquard.Sexpr.Runtime.{Runtime, Digits}
use weave_jacquard.Sexpr.Validate.{validate_tree}
use weave_jacquard.Sexpr.Parser.{parse_source}
use weave_jacquard.Merge.States.{Documents, document_of, merge_states}
use weave_jacquard.Revision.Database.{Operation, Database}
use weave_jacquard.Revision.Dag.{parents_of, analyze_common_ancestors, require_single_best}
use weave_jacquard.Revision.Commit.{
  Request, branch_head, state_at_revision, state_for_write, require_expected_head, or_not_found,
  commit,
}
use weave_jacquard.Revision.Commit.Publication.{Names}
use weave_jacquard.Revision.Workspace.{
  NodeEdit, apply_edit, edit_document, single_request, publish, ProgramIds, create_program,
  program_tree, has_document, import_program, merge, validate_state,
}

-- The database after a commit against the head of its branch, and perhaps others.
pub record IsPublication {F : Type 0} (db db' : Database F) : Type 0 where
  pub project : Text
  pub branch : Text
  pub base : ℕ
  pub more : List (Text × ℕ)
  pub request : Request F
  pub revision : ℕ
  pub names : Names branch base more request
  pub committed : commit db project branch request ≡ ok (revision, db')

module _ {F : Type 0} ⦃r : Runtime F⦄ where
  publish-IsPublication :
      (db db' : Database F) (project branch : Text) (base i : ℕ) (state : Documents F)
      (operation : Operation)
      → publish db project branch base state operation ≡ ok (i, db')
      → IsPublication db db'
  unfolding publish
  publish-IsPublication db db' project branch base i state operation h = record {
    project = project;
    branch = branch;
    base = base;
    more = [];
    request = single_request branch base state operation;
    revision = i;
    names = refl;
    committed = h;
  }

  pub edit_document-IsPublication :
      (db db' : Database F) (project branch document : Text) (expected : Option ℕ)
      (edit : NodeEdit F) (i : ℕ)
      → edit_document db project branch document expected edit ≡ ok (i, db')
      → IsPublication db db'
  unfolding edit_document
  edit_document-IsPublication db db' project branch document expected edit i h =
      let ((base, state), e₁, h₁) = >>=-eq-ok (state_for_write db project branch expected) _ h in
      let (root, e₂, h₂) = >>=-eq-ok (or_not_found (document_of document state)) _ h₁ in
      let (root', e₃, h₃) = >>=-eq-ok (apply_edit edit root) _ h₂ in
      let (u, e₄, h₄) = >>=-eq-ok (validate_tree root') _ h₃ in
      publish-IsPublication db db' project branch base i _ _ h₄

  pub create_program-IsPublication :
      (db db' : Database F) (project branch document : Text) (ids : ProgramIds)
      (name version : Text) (expected : Option ℕ) (i : ℕ)
      → create_program db project branch document ids name version expected ≡ ok (i, db')
      → IsPublication db db'
  unfolding create_program
  create_program-IsPublication db db' project branch document ids name version expected i h =
      let ((base, state), e₁, h₁) = >>=-eq-ok (state_for_write db project branch expected) _ h in
      let (u, e₂, h₂) =
        >>=-eq-ok (require (not (has_document document state)) duplicate_document) _ h₁ in
      let (root, e₃, h₃) = >>=-eq-ok (program_tree ids name version) _ h₂ in
      publish-IsPublication db db' project branch base i _ _ h₃

  pub merge-IsPublication :
      (db db' : Database F) (project target source : Text)
      (expected_target expected_source : Option ℕ) (i : ℕ)
      → merge db project target source expected_target expected_source ≡ ok (i, db')
      → IsPublication db db'
  unfolding merge
  merge-IsPublication db db' project target source expected_target expected_source i h =
      let (ours, e₁, h₁) = >>=-eq-ok (branch_head db project target) _ h in
      let (theirs, e₂, h₂) = >>=-eq-ok (branch_head db project source) _ h₁ in
      let (u₁, e₃, h₃) =
        >>=-eq-ok (require_expected_head ours expected_target stale_merge_preview) _ h₂ in
      let (u₂, e₄, h₄) =
        >>=-eq-ok (require_expected_head theirs expected_source stale_merge_preview) _ h₃ in
      let (ancestry, e₅, h₅) =
        >>=-eq-ok (analyze_common_ancestors (parents_of db) ours theirs) _ h₄ in
      let (base, e₆, h₆) = >>=-eq-ok (require_single_best ancestry) _ h₅ in
      let ((merged, changed), e₇, h₇) =
        >>=-eq-ok
          (merge_states (state_at_revision db base) (state_at_revision db ours)
            (state_at_revision db theirs))
          _ h₆ in
      let (u₃, e₈, h₈) = >>=-eq-ok (validate_state merged) _ h₇ in
      record {
        project = project;
        branch = target;
        base = ours;
        more = (source, theirs) ∷ [];
        request = _;
        revision = i;
        names = refl;
        committed = h₈;
      }

module _ {F : Type 0} ⦃r : Runtime F⦄ ⦃u : Digits⦄ (fresh : ℕ → Text) where
  pub import_program-IsPublication :
      (db db' : Database F) (project branch document source : Text) (replace : Bool)
      (expected : Option ℕ) (i : ℕ)
      → import_program fresh db project branch document source replace expected ≡ ok (i, db')
      → IsPublication db db'
  unfolding import_program
  import_program-IsPublication db db' project branch document source replace expected i h =
      let (root, e₁, h₁) = >>=-eq-ok (parse_source fresh source) _ h in
      let ((base, state), e₂, h₂) = >>=-eq-ok (state_for_write db project branch expected) _ h₁ in
      let (v, e₃, h₃) =
        >>=-eq-ok (require (not (has_document document state) || replace) duplicate_document) _
          h₂ in
      publish-IsPublication db db' project branch base i _ _ h₃
