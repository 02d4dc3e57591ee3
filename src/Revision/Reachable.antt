-- ===== src/Revision/Reachable.antt =====
-- A store in use: the steps that the workspace's operations take on its database, and the
-- databases that they lead to.
pub mod Invariants
use weave_jacquard.Prelude.{ℕ, ◌≡◌, Bool, Option, some, List, []}
use weave_jacquard.Prelude.Text.{Text}
use weave_jacquard.Error.{ok}
use weave_jacquard.Sexpr.Runtime.{Runtime, Digits}
use weave_jacquard.Sexpr.Node.{Node}
use weave_jacquard.Revision.Database.{Revision, Database, find_revision, initialize_project}
use weave_jacquard.Revision.Commit.{create_branch, create_branch_at_revision, checkout}
use weave_jacquard.Revision.Workspace.{
  NodeEdit, edit_document, ProgramIds, create_program, import_program, merge,
}
use weave_jacquard.Batch.Input.{Raw}
use weave_jacquard.Batch.Publish.{apply_batch}

-- A new database, over a codec of which the model knows only what it refuses, and over the rows
-- of the documents' table, which no operation here writes.
abbrev pub empty_database : {F : Type 0} → (Node F → Bool) → List ℕ → Database F
empty_database compresses documents = record {
  projects = [];
  branches = [];
  revisions = [];
  documents = documents;
  next = 0;
  compresses = compresses;
}

-- An operation that returned took its database to the next.
pub data Step {F : Type 0} ⦃r : Runtime F⦄ ⦃u : Digits⦄ (fresh : ℕ → Text)
    : Database F → Database F → Type 0 where
  initialized :
      {db db' : Database F} (name : Text) (ids : ℕ × ℕ)
      → initialize_project name db ≡ ok (ids, db')
      → Step fresh db db'
  branched :
      {db db' : Database F} (project name from_branch : Text) (expected : Option ℕ) (i : ℕ)
      → create_branch db project name from_branch expected ≡ ok (i, db')
      → Step fresh db db'
  branched_at :
      {db db' : Database F} (project name : Text) (revision i : ℕ)
      → create_branch_at_revision db project name revision ≡ ok (i, db')
      → Step fresh db db'
  checked_out :
      {db db' : Database F} (project branch : Text) (revision : ℕ)
      → checkout db project branch revision ≡ ok db'
      → Step fresh db db'
  edited :
      {db db' : Database F} (project branch document : Text) (expected : Option ℕ)
      (edit : NodeEdit F) (i : ℕ)
      → edit_document db project branch document expected edit ≡ ok (i, db')
      → Step fresh db db'
  created :
      {db db' : Database F} (project branch document : Text) (ids : ProgramIds)
      (name version : Text) (expected : Option ℕ) (i : ℕ)
      → create_program db project branch document ids name version expected ≡ ok (i, db')
      → Step fresh db db'
  imported :
      {db db' : Database F} (project branch document source : Text) (replace : Bool)
      (expected : Option ℕ) (i : ℕ)
      → import_program fresh db project branch document source replace expected ≡ ok (i, db')
      → Step fresh db db'
  merged :
      {db db' : Database F} (project target source : Text)
      (expected_target expected_source : Option ℕ) (i : ℕ)
      → merge db project target source expected_target expected_source ≡ ok (i, db')
      → Step fresh db db'
  batched :
      {db db' : Database F} (new_ids : ℕ → Text) (project branch document : Text)
      (raws : List (Raw F)) (expected : Option ℕ) (i : ℕ)
      → apply_batch new_ids db project branch document raws expected ≡ ok (i, db')
      → Step fresh db db'

-- The databases that the operations lead to from an empty one.
pub data Reachable {F : Type 0} ⦃r : Runtime F⦄ ⦃u : Digits⦄ (fresh : ℕ → Text)
    : Database F → Type 0 where
  at_first :
      (compresses : Node F → Bool) (documents : List ℕ)
      → Reachable fresh (empty_database compresses documents)
  after : {db db' : Database F} → Reachable fresh db → Step fresh db db' → Reachable fresh db'

-- Every revision that was stored is stored still, and as it was.
abbrev pub Keeps : {F : Type 0} → Database F → Database F → Type 0
Keeps {F} db db' =
    (i : ℕ) (v : Revision F)
    → find_revision i db.revisions ≡ some v
    → find_revision i db'.revisions ≡ some v
