-- ===== src/Revision/Workspace/Trees.antt =====
-- Every publishing operation stores valid trees only.
use weave_jacquard.Prelude.{
  ℕ, ◌+◌, ◌*◌, leb, length, ◌≡◌, refl, Bool, ◌==◌, ◌||◌, not, Option, none, some, List, [], ◌∷◌,
  arith, All, Bool-cases, inl, inr,
}
use weave_jacquard.Prelude.Text.{Text, codes}
use weave_jacquard.Error.{
  Result, ok, err, ◌>>◌, >>=-eq-ok, >>=-Ensures, Ensures, Ensures-ok, holds, raised, require,
  stale_branch_head, stale_merge_preview, duplicate_document, source_too_large,
}
use weave_jacquard.Sexpr.Runtime.{Runtime, Digits}
use weave_jacquard.Limits.{max_source_bytes}
use weave_jacquard.Edit.{make_form}
use weave_jacquard.Sexpr.Node.{Kind, str, Node}
use weave_jacquard.Sexpr.Atom.{utf8_bytes, make_atom}
use weave_jacquard.Sexpr.Validate.{validate_tree}
use weave_jacquard.Sexpr.Walk.{Yields, stop, raises, yield}
use weave_jacquard.Sexpr.Lexer.{Token, tokenize}
use weave_jacquard.Sexpr.Parser.{parse_source, parse_one, finish, first_counters}
use weave_jacquard.Merge.States.{Documents, document_of, merge_states}
use weave_jacquard.Revision.Database.{Revision, Database, Operation, find_revision}
use weave_jacquard.Revision.Commit.{
  Request, branch_head, state_at_revision, state_for_write, require_expected_head, or_not_found,
  project_id, commit,
}
use weave_jacquard.Revision.Commit.Publication.{Names, commit-Names, transact-eq-ok}
use weave_jacquard.Revision.Dag.{parents_of, analyze_common_ancestors, require_single_best}
use weave_jacquard.Revision.Workspace.{
  NodeEdit, ProgramIds, apply_edit, checked, edit_document, create_program, import_program, merge,
  program_tree, publish, put_document, validate_state, operation_of, has_document,
}

module _ {F : Type 0} ⦃r : Runtime F⦄ where
  -- The documents of a state, each a tree that `validate_tree` accepts.
  abbrev pub AllValid : Documents F → Type 0
  AllValid state = All (λ d. validate_tree d.1 ≡ ok tt) state

  abbrev pub IsValidStore : Database F → Type 0
  IsValidStore db = All (λ v. AllValid v.modules) db.revisions

  state_at_revision-AllValid :
      (db : Database F) (i : ℕ) → IsValidStore db → AllValid (state_at_revision db i)
  unfolding state_at_revision
  state_at_revision-AllValid db i a = go db.revisions a
    where
      go :
          (vs : List (Revision F))
          → All (λ v. AllValid v.modules) vs
          → AllValid (elim (find_revision i vs) [ some v ↦ v.modules | none ↦ [] ])
      go [] a = unfold find_revision in tt
      go (v ∷ vs) a = elim (Bool-cases (v.id == i)) [
        | inl e ↦ unfold find_revision in rw e a.0
        | inr e ↦ unfold find_revision in rw e (go vs a.1)
      ]

  put_document-AllValid :
      (name : Text) (root : Node F) (state : Documents F)
      → validate_tree root ≡ ok tt
      → AllValid state
      → AllValid (put_document name root state)
  unfolding put_document
  put_document-AllValid name root [] e a = (e, tt)
  put_document-AllValid name root ((m, old) ∷ state) e a =
      ground (arith, put_document-AllValid name root state)

  pub validate_state-AllValid :
      (state : Documents F) → validate_state state ≡ ok tt → AllValid state
  unfolding validate_state
  validate_state-AllValid [] e = tt
  validate_state-AllValid ((name, root) ∷ state) e =
      let (u, e₁, e₂) = >>=-eq-ok (validate_tree root) _ e in (e₁, validate_state-AllValid state e₂)

  pub commit-IsValidStore :
      (db db' : Database F) (project branch : Text) (base i : ℕ) (more : List (Text × ℕ))
      (req : Request F)
      → Names branch base more req
      → AllValid req.modules
      → IsValidStore db
      → commit db project branch req ≡ ok (i, db')
      → IsValidStore db'
  commit-IsValidStore db db' project branch base i more req n new a h =
      let (p, e₁, h₁) =
        >>=-eq-ok (project_id db project) _
          (rw (commit-Names db project branch base more req n) at h) in
      let after = (transact-eq-ok db db' p branch base i ((branch, base) ∷ more) req n h₁).2 in
      rw after (new, a)

  -- `publish`, which commits one operation against the head that was read.
  publish-IsValidStore :
      (db db' : Database F) (project branch : Text) (base i : ℕ) (state : Documents F)
      (operation : Operation)
      → AllValid state
      → IsValidStore db
      → publish db project branch base state operation ≡ ok (i, db')
      → IsValidStore db'
  unfolding publish
  publish-IsValidStore db db' project branch base i state operation =
      commit-IsValidStore db db' project branch base i [] _ refl

  state_for_write-AllValid :
      (db : Database F) (project branch : Text) (expected : Option ℕ) (base : ℕ)
      (state : Documents F)
      → IsValidStore db
      → state_for_write db project branch expected ≡ ok (base, state)
      → AllValid state
  unfolding state_for_write
  state_for_write-AllValid db project branch expected base state a h =
      let (head, e, h₁) = >>=-eq-ok (branch_head db project branch) _ h in
      let (u, e₂, h₂) = >>=-eq-ok (require_expected_head head expected stale_branch_head) _ h₁ in
      let same : state_at_revision db head ≡ state = cc in
      rw (← same) (state_at_revision-AllValid db head a)

  -- A node edit that is published in a store of valid trees leaves a store of valid trees.
  pub edit_document-IsValidStore :
      (db db' : Database F) (project branch document : Text) (expected : Option ℕ)
      (edit : NodeEdit F) (i : ℕ)
      → IsValidStore db
      → edit_document db project branch document expected edit ≡ ok (i, db')
      → IsValidStore db'
  unfolding edit_document
  edit_document-IsValidStore db db' project branch document expected edit i a h =
      let ((base, state), e₁, h₁) = >>=-eq-ok (state_for_write db project branch expected) _ h in
      let (root, e₂, h₂) = >>=-eq-ok (or_not_found (document_of document state)) _ h₁ in
      let (root', e₃, h₃) = >>=-eq-ok (apply_edit edit root) _ h₂ in
      let (u, e₄, h₄) = >>=-eq-ok (validate_tree root') _ h₃ in
      let read = state_for_write-AllValid db project branch expected base state a e₁ in
      publish-IsValidStore db db' project branch base i (put_document document root' state)
        (operation_of edit) (put_document-AllValid document root' state e₄ read) a h₄

  abbrev pub Valid : Node F → Type 0
  Valid root = validate_tree root ≡ ok tt

  checked-Valid :
      (tree : Node F) (m : Result (Unit {0}))
      → validate_tree tree ≡ m
      → Ensures Valid (m >> ok tree)
  checked-Valid tree (ok u) e = holds e
  checked-Valid tree (err x) e = raised

  program_tree-Valid :
      (ids : ProgramIds) (name version : Text) → Ensures Valid (program_tree ids name version)
  unfolding program_tree checked
  program_tree-Valid ids name version =
      >>=-Ensures (make_form ids.root ids.root_head (codes "program")) _ λ root.
        >>=-Ensures (make_form ids.name_form ids.name_head (codes "name")) _ λ name_form.
          >>=-Ensures (make_atom ids.name_atom Kind.string (str name)) _ λ name_atom.
            >>=-Ensures (make_form ids.version_form ids.version_head (codes "version")) _
              λ version_form.
                >>=-Ensures (make_atom ids.version_atom Kind.string (str version)) _
                  λ version_atom. checked-Valid _ _ refl

  -- A new program that is published in a store of valid trees leaves a store of valid trees.
  pub create_program-IsValidStore :
      (db db' : Database F) (project branch document : Text) (ids : ProgramIds)
      (name version : Text) (expected : Option ℕ) (i : ℕ)
      → IsValidStore db
      → create_program db project branch document ids name version expected ≡ ok (i, db')
      → IsValidStore db'
  unfolding create_program
  create_program-IsValidStore db db' project branch document ids name version expected i a h =
      let ((base, state), e₁, h₁) = >>=-eq-ok (state_for_write db project branch expected) _ h in
      let (u, e₂, h₂) =
        >>=-eq-ok (require (not (has_document document state)) duplicate_document) _ h₁ in
      let (root, e₃, h₃) = >>=-eq-ok (program_tree ids name version) _ h₂ in
      let read = state_for_write-AllValid db project branch expected base state a e₁ in
      let valid = Ensures-ok (program_tree-Valid ids name version) e₃ in
      publish-IsValidStore db db' project branch base i (put_document document root state) _
        (put_document-AllValid document root state valid read) a h₃

  -- A merge that is published in a store of valid trees leaves a store of valid trees.
  pub merge-IsValidStore :
      (db db' : Database F) (project target source : Text)
      (expected_target expected_source : Option ℕ) (i : ℕ)
      → IsValidStore db
      → merge db project target source expected_target expected_source ≡ ok (i, db')
      → IsValidStore db'
  unfolding merge
  merge-IsValidStore db db' project target source expected_target expected_source i a h =
      let (ours, e₁, h₁) = >>=-eq-ok (branch_head db project target) _ h in
      let (theirs, e₂, h₂) = >>=-eq-ok (branch_head db project source) _ h₁ in
      let (u₁, e₃, h₃) =
        >>=-eq-ok (require_expected_head ours expected_target stale_merge_preview) _ h₂ in
      let (u₂, e₄, h₄) =
        >>=-eq-ok (require_expected_head theirs expected_source stale_merge_preview) _ h₃ in
      let (ancestry, e₅, h₅) =
        >>=-eq-ok (analyze_common_ancestors (parents_of db) ours theirs) _ h₄ in
      let (base, e₆, h₆) = >>=-eq-ok (require_single_best ancestry) _ h₅ in
      let ((merged, changed), e₇, h₇) =
        >>=-eq-ok
          (merge_states (state_at_revision db base) (state_at_revision db ours)
            (state_at_revision db theirs))
          _ h₆ in
      let (u₃, e₈, h₈) = >>=-eq-ok (validate_state merged) _ h₇ in
      commit-IsValidStore db db' project target ours i ((source, theirs) ∷ []) _ refl
        (validate_state-AllValid merged e₈) a h₈

module _ {F : Type 0} ⦃r : Runtime F⦄ ⦃u : Digits⦄ (fresh : ℕ → Text) where
  finish-Valid : (root : Node F) (ts : Yields Token) → Ensures Valid (finish fresh root ts)
  unfolding finish
  finish-Valid root stop = checked-Valid root _ refl
  finish-Valid root (raises e) = raised
  finish-Valid root (yield t ts) = raised

  -- What `parse_source` returns is a valid tree.
  pub parse_source-Valid : (source : Text) → Ensures (Valid {F = F}) (parse_source fresh source)
  unfolding parse_source
  parse_source-Valid source = >>=-Ensures (utf8_bytes source) _ λ n.
      >>=-Ensures (require (leb n max_source_bytes) source_too_large) _ λ _.
        >>=-Ensures (parse_one fresh (2 * length source + 2) 0 (tokenize source) first_counters) _
          λ (n, ts, c). finish-Valid n ts

  -- An import that is published in a store of valid trees leaves a store of valid trees.
  pub import_program-IsValidStore :
      (db db' : Database F) (project branch document source : Text) (replace : Bool)
      (expected : Option ℕ) (i : ℕ)
      → IsValidStore db
      → import_program fresh db project branch document source replace expected ≡ ok (i, db')
      → IsValidStore db'
  unfolding import_program
  import_program-IsValidStore db db' project branch document source replace expected i a h =
      let (root, e₁, h₁) = >>=-eq-ok (parse_source fresh source) _ h in
      let ((base, state), e₂, h₂) = >>=-eq-ok (state_for_write db project branch expected) _ h₁ in
      let (v, e₃, h₃) =
        >>=-eq-ok (require (not (has_document document state) || replace) duplicate_document) _
          h₂ in
      let read = state_for_write-AllValid db project branch expected base state a e₂ in
      let valid = Ensures-ok (parse_source-Valid source) e₁ in
      publish-IsValidStore db db' project branch base i (put_document document root state) _
        (put_document-AllValid document root state valid read) a h₃
