-- ===== src/Candidate/Transactions.antt =====
-- The transactions that candidates take part in, whoever runs them and in whatever order: what a
-- caller read earlier is only assumed where it cannot change.
use weave_jacquard.Prelude.{ℕ, ◌≡◌, Bool, ◌≢◌, Option, some, List, []}
use weave_jacquard.Prelude.Text.{Text}
use weave_jacquard.Error.{ok}
use weave_jacquard.Sexpr.Node.{Node}
use weave_jacquard.Sexpr.Runtime.{Runtime, Digits}
use weave_jacquard.Merge.States.{Documents}
use weave_jacquard.Revision.Database.{Operation, Database}
use weave_jacquard.Revision.Dag.{parents_of}
use weave_jacquard.Revision.Workspace.{validate_state}
use weave_jacquard.Revision.Reachable.{empty_database, Step}
use weave_jacquard.Candidate.{
  open_transaction, commit_transaction, publish_transaction, abandon_transaction,
  revert_transaction,
}
use weave_jacquard.Candidate.Table.{Candidate, Level, Outcome, Store, find_candidate}
use weave_jacquard.Candidate.Qualify.{qualify_transaction}

pub data Transaction {F : Type 0} ⦃r : Runtime F⦄ ⦃u : Digits⦄ (fresh : ℕ → Text)
    : Store F → Store F → Type 0 where
  -- an operation of the workspace
  worked :
      {s : Store F} {db : Database F}
      → Step fresh s.db db
      → Transaction fresh s (record s { db = db })
  opens :
      {s s' : Store F} (p : ℕ) (name : Text) (base i : ℕ)
      → open_transaction s p name base ≡ ok (i, s')
      → Transaction fresh s s'
  -- a batch on a candidate, whose state was validated
  commits :
      {s s' : Store F} (p i : ℕ) (modules : Documents F) (base : ℕ) (operations : List Operation)
      (revision : ℕ)
      → validate_state modules ≡ ok tt
      → commit_transaction s p i modules base operations ≡ ok (revision, s')
      → Transaction fresh s s'
  qualifies :
      {s s' : Store F} (i head : ℕ) (level : Level) (outcome : Outcome) (now q : ℕ)
      → qualify_transaction s i head level outcome now ≡ ok (q, s')
      → Transaction fresh s s'
  publishes :
      {s s' : Store F} (p i head : ℕ) (branch : Text) (required_base : ℕ)
      → publish_transaction s p i head branch required_base ≡ ok s'
      → Transaction fresh s s'
  abandons : {s s' : Store F} (i : ℕ) → abandon_transaction s i ≡ ok s' → Transaction fresh s s'
  -- a revert of a candidate that had edits, to the first parent of the head that it had
  reverts :
      {s s' : Store F} (i head parent : ℕ) (second : Option ℕ)
      → ((c : Candidate) → find_candidate i s.candidates ≡ some c → c.base ≢ head)
      → parents_of s.db head ≡ ok (some parent, second)
      → revert_transaction s i head parent ≡ ok s'
      → Transaction fresh s s'

abbrev pub empty_store : {F : Type 0} → (Node F → Bool) → List ℕ → Store F
empty_store compresses documents = record {
  db = empty_database compresses documents;
  candidates = [];
  qualifications = [];
}

-- The stores that transactions lead to from an empty one.
pub data Used {F : Type 0} ⦃r : Runtime F⦄ ⦃u : Digits⦄ (fresh : ℕ → Text) : Store F → Type 0 where
  at_first :
      (compresses : Node F → Bool) (documents : List ℕ)
      → Used fresh (empty_store compresses documents)
  after : {s s' : Store F} → Used fresh s → Transaction fresh s s' → Used fresh s'
