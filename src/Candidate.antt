-- ===== src/Candidate.antt =====
-- `EditCandidateService` of edit_candidates.py: edits that accumulate off a branch, as a chain of
-- revisions that a candidate's row holds, until they are published. Each method reads the store
-- and then runs a transaction, which is an operation of its own here: another caller may act in
-- between. An empty text for an optional revision is not modelled.
pub mod Table
pub mod Qualify
pub mod Rows
pub mod Ancestry
pub mod Transactions
pub mod Effects
pub mod Invariants
pub mod Lifecycle
pub mod Publishing
pub mod Calls
pub mod Edits
pub mod Evidence
use weave_jacquard.Prelude.{
  ℕ, zero, suc, leb, ◌==◌, ◌&&◌, ◌||◌, not, Bool, true, false, if◌then◌else◌, Option, none, some,
  List, [], ◌∷◌, ◌++◌, any, all, length, reverse,
}
use weave_jacquard.Prelude.Text.{Text, codes, text_eq}
use weave_jacquard.Error.{
  Result, ok, err, validation, not_found, out_of_fuel, ◌>>=◌, ◌>>◌, require, invalid_candidate_name,
  duplicate_candidate_name, candidate_conflict, invalid_edit, stale_revision, publication_race,
  qualification_failure, stale_qualification,
}
use weave_jacquard.Sexpr.Runtime.{Runtime}
use weave_jacquard.Sexpr.Atom.{is_id_char}
use weave_jacquard.Merge.States.{Documents, document_of}
use weave_jacquard.Revision.Database.{
  Operation, Revision, Database, find_branch, find_revision, belongs, insert_revision, set_head,
  draw,
}
use weave_jacquard.Revision.Commit.{
  project_id, branch_head, or_not_found, found, require_expected_head, state_at_revision,
  documents_of,
}
use weave_jacquard.Revision.Dag.{parents_of}
use weave_jacquard.Revision.History.{seen_before}
use weave_jacquard.Revision.Workspace.{put_document, validate_state}
use weave_jacquard.Batch.{Draft, transform}
use weave_jacquard.Batch.Input.{Raw}
use weave_jacquard.Candidate.Table.{
  Status, opened, abandoned, published, Candidate, Level, syntactic, compiler, Outcome, passed,
  failed, unavailable, Qualification, Store, is_open, find_candidate, has_open, insert_candidate,
  update_candidate, latest_qualification,
}

-- CANDIDATE_NAME_PATTERN.match: `$` matches before a last newline, too.
unfoldable pub name_rest : ℕ → Text → Bool
name_rest room [] = true
name_rest zero (c ∷ []) = c == b'\n'
name_rest zero (c ∷ d ∷ s) = false
name_rest (suc room) (c ∷ []) = is_id_char c || c == b'\n'
name_rest (suc room) (c ∷ d ∷ s) = is_id_char c && name_rest room (d ∷ s)

unfoldable pub candidate_name_matches : Text → Bool
unfolding is_id_char name_rest
candidate_name_matches [] = false
candidate_name_matches (c ∷ s) =
    ((leb b'A' c && leb c b'Z') || (leb b'a' c && leb c b'z')) && name_rest 63 s

-- An entry of `_edit_history`.
pub record Edit : Type 0 where
  pub revision : ℕ
  pub parent : Option ℕ
  pub operations : List Operation

-- What `_qualification_view` shows of the latest qualification.
pub record View : Type 0 where
  pub qualification : Option Qualification
  pub stale : Bool

-- What `inspect` shows.
pub record Inspection : Type 0 where
  pub candidate : Candidate
  pub edits : List Edit
  pub view : View

abbrev pub with_head : ℕ → Candidate → Candidate
with_head i c = record c { head = i }

-- status = 'open' AND head_revision_id = h
abbrev pub open_at : ℕ → Candidate → Bool
open_at h c = is_open c.status && c.head == h

unfoldable pub qualification_view : ℕ → Option Qualification → View
qualification_view head none = record { qualification = none; stale = false }
qualification_view head (some q) = record {
  qualification = some q;
  stale = not (q.revision == head);
}

module _ {F : Type 0} where
  -- A row of the project of that name.
  unfoldable pub load : Store F → Text → ℕ → Result Candidate
  unfolding find_candidate
  load s project i = do
    c ← or_not_found (find_candidate i s.candidates)
    found (any (λ p. p.id == c.project && text_eq p.name project) s.db.projects)
    ok c

  unfoldable pub require_open : Store F → Text → ℕ → Result Candidate
  unfolding load
  require_open s project i = do
    c ← load s project i
    require (is_open c.status) candidate_conflict
    ok c

  unfoldable pub require_project_revision : Database F → Text → ℕ → Result (Unit {0})
  unfolding find_revision
  require_project_revision db project i = do
    v ← or_not_found (find_revision i db.revisions)
    found (any (λ p. p.id == v.project && text_eq p.name project) db.projects)

  -- The operations of a revision; no row is no operation.
  abbrev pub operations_of : Database F → ℕ → List Operation
  operations_of db i = elim (find_revision i db.revisions) [ some v ↦ v.operations | none ↦ [] ]

  abbrev pub edit_at : Database F → ℕ → Option ℕ → Edit
  edit_at db i parent = record { revision = i; parent = parent; operations = operations_of db i }

  -- The loop of `_edit_history`, on fuel: the latest edit first.
  unfoldable pub edit_loop : Database F → ℕ → ℕ → ℕ → List ℕ → Result (List Edit)
  unfolding parents_of
  edit_loop db zero current base seen = err out_of_fuel
  edit_loop db (suc fuel) current base seen =
      if current == base
      then ok []
      else if seen_before current seen
      then err (validation invalid_edit)
      else (parents_of db current >>= λ (parent, second). elim parent [
        | none ↦ ok (edit_at db current none ∷ [])
        | some p ↦ edit_loop db fuel p base (current ∷ seen) >>= λ rest.
            ok (edit_at db current (some p) ∷ rest)
      ])

  unfoldable pub edit_history : Database F → ℕ → ℕ → Result (List Edit)
  unfolding edit_loop
  edit_history db head base = do edits ← edit_loop db (suc db.next) head base []; ok (reverse edits)

  unfoldable pub inspect : (ℕ → ℕ → Bool) → Store F → Text → ℕ → Result Inspection
  unfolding load edit_history qualification_view latest_qualification
  inspect id_lt s project i = do
    c ← load s project i
    edits ← edit_history s.db c.head c.base
    ok (record {
      candidate = c;
      edits = edits;
      view = qualification_view c.head (latest_qualification id_lt c.id s.qualifications);
    })

  -- The transaction of `open`.
  unfoldable pub open_transaction : Store F → ℕ → Text → ℕ → Result (ℕ × Store F)
  unfolding has_open insert_candidate
  open_transaction s p name base = do
    let (i, db) = draw s.db
    require (not (has_open p name s.candidates)) duplicate_candidate_name
    s' ←
        insert_candidate
          (record {
            id = i;
            project = p;
            name = name;
            base = base;
            head = base;
            status = opened;
            publication = none;
          })
          (record s { db = db })
    ok (i, s')

  -- `open`, up to the inspection that it returns.
  unfoldable pub open_candidate : Store F → Text → Text → Text → Option ℕ → Result (ℕ × Store F)
  unfolding candidate_name_matches require_project_revision open_transaction branch_head
  open_candidate s project name branch revision = do
    require (candidate_name_matches name) invalid_candidate_name
    p ← project_id s.db project
    head ← branch_head s.db project branch
    base ← (elim revision [
      | none ↦ ok head
      | some i ↦ require_project_revision s.db project i >> ok i
    ])
    open_transaction s p name base

  -- The transaction of `_commit_candidate_revision`, for a project's candidate that was at `base`.
  unfoldable pub commit_transaction :
      Store F → ℕ → ℕ → Documents F → ℕ → List Operation → Result (ℕ × Store F)
  unfolding find_candidate insert_revision update_candidate
  commit_transaction s p i modules base operations = do
    let (revision, db) = draw s.db
    (elim (find_candidate i s.candidates) [
      | none ↦ err (validation stale_revision)
      | some c ↦ require (open_at base c) stale_revision
    ])
    db' ←
        insert_revision
          (record {
            id = revision;
            project = p;
            parent1 = some base;
            parent2 = none;
            modules = modules;
            operations = operations;
            documents = documents_of db base;
          })
          db
    (candidates, updated) ←
        update_candidate db'.revisions i (λ c. c.head == base) (with_head revision) s.candidates
    ok (revision, record s { db = db'; candidates = candidates })

  -- The transaction of `publish`, for a candidate that was at `head`.
  unfoldable pub publish_transaction : Store F → ℕ → ℕ → ℕ → Text → ℕ → Result (Store F)
  unfolding find_branch find_candidate set_head update_candidate
  publish_transaction s p i head branch required_base = do
    actual ← or_not_found (find_branch p branch s.db.branches)
    require (actual == required_base) publication_race
    (elim (find_candidate i s.candidates) [
      | none ↦ err (validation candidate_conflict)
      | some c ↦ require (open_at head c) candidate_conflict
    ])
    db' ← set_head p branch (some required_base) head s.db
    require (actual == required_base) publication_race
    (candidates, updated) ←
        update_candidate db'.revisions i (λ c. true)
          (λ c. record c { status = published; publication = some (branch, head) }) s.candidates
    ok (record s { db = db'; candidates = candidates })

  -- The transaction of `abandon`.
  unfoldable pub abandon_transaction : Store F → ℕ → Result (Store F)
  unfolding update_candidate
  abandon_transaction s i = do
    (candidates, updated) ←
        update_candidate s.db.revisions i (λ c. is_open c.status)
          (λ c. record c { status = abandoned }) s.candidates
    require updated candidate_conflict
    ok (record s { candidates = candidates })

  unfoldable pub abandon : Store F → Text → ℕ → Result (Store F)
  unfolding require_open abandon_transaction
  abandon s project i = do c ← require_open s project i; abandon_transaction s c.id

  -- The transaction of `revert_last`, from `head` to `parent`.
  unfoldable pub revert_transaction : Store F → ℕ → ℕ → ℕ → Result (Store F)
  unfolding update_candidate
  revert_transaction s i head parent = do
    (candidates, updated) ←
        update_candidate s.db.revisions i (open_at head) (with_head parent) s.candidates
    require updated stale_revision
    ok (record s { candidates = candidates })

  unfoldable pub revert_last : Store F → Text → ℕ → Result (ℕ × Store F)
  unfolding require_open parents_of revert_transaction
  revert_last s project i = do
    c ← require_open s project i
    require (not (c.head == c.base)) invalid_edit
    (parent, second) ← parents_of s.db c.head
    p ← (elim parent [ none ↦ err (validation invalid_edit) | some q ↦ ok q ])
    s' ← revert_transaction s c.id c.head p
    ok (p, s')

module _ {F : Type 0} ⦃r : Runtime F⦄ (fresh : ℕ → Text) where
  unfoldable pub apply_candidate_batch :
      Store F → Text → ℕ → Text → List (Raw F) → Option ℕ → Result (ℕ × Store F)
  unfolding require_open require_expected_head state_at_revision transform put_document
      commit_transaction
  apply_candidate_batch s project i document raws expected = do
    c ← require_open s project i
    require_expected_head c.head expected stale_revision
    let state = state_at_revision s.db c.head
    root ← or_not_found (document_of document state)
    d ← transform fresh root raws
    let state' = put_document document d.root state
    validate_state state'
    p ← project_id s.db project
    commit_transaction s p c.id state' c.head d.log

  -- A batch that raises leaves the candidate that `replay` opened.
  unfoldable pub replay :
      Store F → Text → Text → List (Raw F) → Text → Option ℕ → Text → Store F × Result (ℕ × ℕ)
  unfolding open_candidate
  replay s project name raws branch base document =
      elim (open_candidate s project name branch base) [
        | err e ↦ (s, err e)
        | ok (i, s') ↦ elim (load s' project i) [
          | err e ↦ (s', err e)
          | ok c ↦ elim (apply_candidate_batch s' project i document raws (some c.head)) [
            | err e ↦ (s', err e)
            | ok (revision, s'') ↦ (s'', ok (i, revision))
          ]
        ]
      ]
