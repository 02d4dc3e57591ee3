-- ===== src/Revision/Commit.antt =====
-- Heads, states and the publication of a revision: `project_id`, `branch_head`,
-- `_state_at_revision`, `_state_for_write` and `_commit` of service.py, and `create_branch` and
-- `create_branch_at_revision` of concurrent_workspace.py.
-- A transaction that raises is rolled back: an error carries no database.
pub mod Publication
pub mod Success
pub mod CompareAndSet
use weave_jacquard.Prelude.{
  ℕ, suc, Bool, true, false, ◌==◌, ◌&&◌, not, if◌then◌else◌, Option, none, some, List, [], ◌∷◌,
  ◌++◌, any,
}
use weave_jacquard.Prelude.Text.{Text, text_eq}
use weave_jacquard.Error.{
  Code, Error, Result, ok, err, validation, not_found, integrity_error, ◌>>=◌, ◌>>◌, require,
  stale_branch_head, duplicate_branch,
}
use weave_jacquard.Merge.States.{Documents}
use weave_jacquard.Revision.Database.{
  Branch, Operation, Revision, Database, find_project, find_branch, find_revision, belongs,
  insert_revision, insert_branch, set_head, draw,
}

abbrev pub or_not_found {ℓ} : {A : Type ℓ} → Option A → Result A
or_not_found none = err not_found
or_not_found (some a) = ok a

-- `if row is None: raise NotFoundError(...)`
abbrev pub found : Bool → Result (Unit {0})
found true = ok tt
found false = err not_found

-- `except sqlite3.IntegrityError`
abbrev pub or_duplicate {ℓ} : {A : Type ℓ} → Result A → Result A
or_duplicate (ok a) = ok a
or_duplicate (err integrity_error) = err (validation duplicate_branch)
or_duplicate (err e) = err e

-- `if actual_head != base_revision_id: raise ValidationError("STALE_BRANCH_HEAD", ...)`
abbrev pub still_at : ℕ → Option ℕ → Result (Unit {0})
still_at head none = err (validation stale_branch_head)
still_at head (some actual) = require (actual == head) stale_branch_head

-- `_require_expected_head`
unfoldable pub require_expected_head : ℕ → Option ℕ → Code → Result (Unit {0})
require_expected_head actual none code = ok tt
require_expected_head actual (some expected) code = require (actual == expected) code

-- expected_branch_heads[branch], if it is there
unfoldable pub expected_head : Text → List (Text × ℕ) → Option ℕ
expected_head branch [] = none
expected_head branch ((b, h) ∷ more) =
    if text_eq b branch then some h else expected_head branch more

-- The union of two sets of ids.
unfoldable pub union : List ℕ → List ℕ → List ℕ
union [] ys = ys
union (x ∷ xs) ys = if any (λ y. y == x) ys then union xs ys else x ∷ union xs ys

-- What a caller hands to `_commit`; no caller in this model prepares a transaction.
pub record Request (F : Type 0) : Type 0 where
  pub modules : Documents F
  pub operations : List Operation
  pub parent2 : Option ℕ
  pub extra_documents : List ℕ
  pub expected : Option (List (Text × ℕ))
  pub stale : Code

module _ {F : Type 0} where
  unfoldable pub project_id : Database F → Text → Result ℕ
  unfolding find_project
  project_id db name = or_not_found (find_project name db.projects)

  unfoldable pub branch_head : Database F → Text → Text → Result ℕ
  unfolding project_id find_branch
  branch_head db project branch = do
    p ← project_id db project
    or_not_found (find_branch p branch db.branches)

  -- The transaction of `create_branch`, which looks the head up again.
  unfoldable pub branch_transaction : Database F → ℕ → Text → Text → ℕ → Result (Database F)
  unfolding find_branch insert_branch
  branch_transaction db p name from_branch head = do
    still_at head (find_branch p from_branch db.branches)
    insert_branch (record { project = p; name = name; head = head }) db

  unfoldable pub create_branch :
      Database F → Text → Text → Text → Option ℕ → Result (ℕ × Database F)
  unfolding branch_head require_expected_head branch_transaction
  create_branch db project name from_branch expected = do
    p ← project_id db project
    head ← branch_head db project from_branch
    require_expected_head head expected stale_branch_head
    db' ← or_duplicate (branch_transaction db p name from_branch head)
    ok (head, db')

  unfoldable pub create_branch_at_revision : Database F → Text → Text → ℕ → Result (ℕ × Database F)
  unfolding project_id insert_branch belongs
  create_branch_at_revision db project name revision = do
    p ← project_id db project
    found (belongs db.revisions p revision)
    db' ← or_duplicate (insert_branch (record { project = p; name = name; head = revision }) db)
    ok (revision, db')

  -- A name that no branch has updates no row.
  unfoldable pub checkout : Database F → Text → Text → ℕ → Result (Database F)
  unfolding project_id belongs set_head
  checkout db project branch revision = do
    p ← project_id db project
    found (belongs db.revisions p revision)
    set_head p branch none revision db

  -- The snapshots of a revision; no row is no document.
  unfoldable pub state_at_revision : Database F → ℕ → Documents F
  unfolding find_revision
  state_at_revision db i = elim (find_revision i db.revisions) [ some v ↦ v.modules | none ↦ [] ]

  unfoldable pub state_for_write : Database F → Text → Text → Option ℕ → Result (ℕ × Documents F)
  unfolding branch_head require_expected_head state_at_revision
  state_for_write db project branch expected = do
    base ← branch_head db project branch
    require_expected_head base expected stale_branch_head
    ok (base, state_at_revision db base)

  -- The heads that a publication names, checked inside its transaction.
  unfoldable pub check_heads : Database F → ℕ → List (Text × ℕ) → Code → Result (Unit {0})
  unfolding find_branch
  check_heads db project [] stale = ok tt
  check_heads db project ((branch, expected) ∷ more) stale = do
    (elim (find_branch project branch db.branches) [
      | some actual ↦ require (actual == expected) stale
      | none ↦ err (validation stale)
    ])
    check_heads db project more stale

  abbrev pub documents_of : Database F → ℕ → List ℕ
  documents_of db i = elim (find_revision i db.revisions) [ some v ↦ v.documents | none ↦ [] ]

  -- The first parent of a publication.
  unfoldable pub first_parent : Database F → Text → Text → Option (List (Text × ℕ)) → Result ℕ
  unfolding expected_head branch_head
  first_parent db project branch none = branch_head db project branch
  first_parent db project branch (some heads) = elim (expected_head branch heads) [
    | some h ↦ ok h
    | none ↦ branch_head db project branch
  ]

  unfoldable pub check_expected :
      Database F → ℕ → Option (List (Text × ℕ)) → Code → Result (Unit {0})
  check_expected db p none stale = ok tt
  check_expected db p (some heads) stale = check_heads db p heads stale

  -- The last statement of the transaction, and the test on the rows that it updated.
  unfoldable pub advance_head :
      Database F → ℕ → Text → ℕ → ℕ → Option (List (Text × ℕ)) → Code → Result (Database F)
  unfolding set_head find_branch
  advance_head db p branch parent1 revision none stale = set_head p branch none revision db
  advance_head db p branch parent1 revision (some heads) stale = do
    db' ← set_head p branch (some parent1) revision db
    (elim (find_branch p branch db.branches) [
      | some h ↦ require (h == parent1) stale
      | none ↦ err (validation stale)
    ])
    ok db'

  -- The revision that a request publishes, over a first parent.
  abbrev pub published : Database F → ℕ → ℕ → Request F → Revision F
  published db p parent1 req = record {
    id = db.next;
    project = p;
    parent1 = some parent1;
    parent2 = req.parent2;
    modules = req.modules;
    operations = req.operations;
    documents = union req.extra_documents (documents_of db parent1);
  }

  -- The transaction of `_commit`, its id drawn before it.
  unfoldable pub transact : Database F → ℕ → Text → ℕ → Request F → Result (ℕ × Database F)
  transact db p branch parent1 req = do
    let (revision, db₁) = draw db
    check_expected db₁ p req.expected req.stale
    db₂ ← insert_revision (published db p parent1 req) db₁
    db₃ ← advance_head db₂ p branch parent1 revision req.expected req.stale
    ok (revision, db₃)

  unfoldable pub commit : Database F → Text → Text → Request F → Result (ℕ × Database F)
  commit db project branch req = do
    p ← project_id db project
    parent1 ← first_parent db project branch req.expected
    transact db p branch parent1 req
