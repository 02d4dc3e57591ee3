-- ===== src/Candidate/Effects.antt =====
-- What a transaction on candidates does to the store, field by field.
use weave_jacquard.Prelude.{
  ℕ, suc, ◌≡◌, refl, ap, subst, ◌∙◌, not, Bool, true, false, ◌==◌, Option, none, some, List, ◌∷◌,
  arith,
}
use weave_jacquard.Prelude.Text.{Text}
use weave_jacquard.Error.{
  Code, Result, ok, err, validation, ◌>>◌, >>=-eq-ok, require, stale_revision,
  duplicate_candidate_name, candidate_conflict, publication_race,
}
use weave_jacquard.Merge.States.{Documents}
use weave_jacquard.Revision.Database.{
  Operation, Revision, Database, find_branch, insert_revision, set_head, update_head, draw,
}
use weave_jacquard.Revision.Database.Sound.{set_head-eq-ok}
use weave_jacquard.Revision.Commit.{documents_of, or_not_found}
use weave_jacquard.Revision.Commit.Success.{or_not_found-eq-ok}
use weave_jacquard.Candidate.{
  open_transaction, commit_transaction, publish_transaction, abandon_transaction,
  revert_transaction, open_at, with_head,
}
use weave_jacquard.Candidate.Table.{
  opened, abandoned, published, Candidate, Level, Outcome, Qualification, Store, is_open,
  find_candidate, has_open, owns_revisions, insert_candidate, update_candidate,
  insert_qualification,
}
use weave_jacquard.Candidate.Qualify.{qualify_transaction}
use weave_jacquard.Candidate.Rows.{Update, update_candidate-Update, insert_candidate-eq-ok}

-- The row of a candidate that is opened, and the revision that a batch commits.
abbrev pub opened_row : ℕ → ℕ → Text → ℕ → Candidate
opened_row i p name base = record {
  id = i;
  project = p;
  name = name;
  base = base;
  head = base;
  status = opened;
  publication = none;
}

abbrev pub committed_revision :
    {F : Type 0} → Database F → ℕ → Documents F → ℕ → List Operation → Revision F
committed_revision db p modules base operations = record {
  id = db.next;
  project = p;
  parent1 = some base;
  parent2 = none;
  modules = modules;
  operations = operations;
  documents = documents_of (record db { next = suc db.next }) base;
}

abbrev pub qualified_row : ℕ → ℕ → ℕ → Level → Outcome → ℕ → Qualification
qualified_row q i head level outcome now = record {
  id = q;
  candidate = i;
  revision = head;
  level = level;
  outcome = outcome;
  created_at = now;
}

abbrev pub published_at : Text → ℕ → Candidate → Candidate
published_at branch head c = record c { status = published; publication = some (branch, head) }

-- The candidate that a transaction is on stands open at the head that its caller saw.
abbrev pub StandsAt : {F : Type 0} → Store F → ℕ → ℕ → Type 0
StandsAt s i head =
    (c : Candidate) × (find_candidate i s.candidates ≡ some c) × (open_at head c ≡ true)

module _ {F : Type 0} where
  pub open_transaction-eq-ok :
      (s s' : Store F) (p : ℕ) (name : Text) (base i : ℕ)
      → open_transaction s p name base ≡ ok (i, s')
      → (i ≡ s.db.next)
        × (owns_revisions s.db.revisions (opened_row s.db.next p name base) ≡ true)
        × (find_candidate s.db.next s.candidates ≡ none)
        × (has_open p name s.candidates ≡ false)
        × (s' ≡ record s {
          db = (draw s.db).1;
          candidates = opened_row s.db.next p name base ∷ s.candidates;
        })
  unfolding open_transaction
  open_transaction-eq-ok s s' p name base i h =
      let c = opened_row s.db.next p name base in
      let start = record s { db = (draw s.db).1 } in
      let (u, e₁, h₁) =
        >>=-eq-ok (require (not (has_open p name s.candidates)) duplicate_candidate_name) _ h in
      let (s₂, e₂, h₂) = >>=-eq-ok (insert_candidate c start) _ h₁ in
      let (owned, new, only, at) = insert_candidate-eq-ok c start s₂ e₂ in
      let same : s₂ ≡ s' = cc in (cc, owned, new, only, rw (← same) at)

  -- The test on a candidate's row in a transaction, with the code that it raises.
  abbrev row_test : Code → Store F → ℕ → ℕ → Result (Unit {0})
  row_test code s i head = elim (find_candidate i s.candidates) [
    | none ↦ err (validation code)
    | some c ↦ require (open_at head c) code
  ]

  row_test-StandsAt :
      (code : Code) (s : Store F) (i head : ℕ) → row_test code s i head ≡ ok tt → StandsAt s i head
  row_test-StandsAt code s i head h = go (find_candidate i s.candidates) refl h
    where
      go :
          (o : Option Candidate)
          → find_candidate i s.candidates ≡ o
          → (elim o [ none ↦ err (validation code) | some c ↦ require (open_at head c) code ])
            ≡ ok tt
          → StandsAt s i head
      go none e k = cc
      go (some c) e k = (c, e, passed c k)
        where
          passed : (c : Candidate) → require (open_at head c) code ≡ ok tt → open_at head c ≡ true
          passed c k = ground arith

  pub commit_transaction-eq-ok :
      (s s' : Store F) (p i : ℕ) (modules : Documents F) (base : ℕ) (operations : List Operation)
      (revision : ℕ)
      → commit_transaction s p i modules base operations ≡ ok (revision, s')
      → (revision ≡ s.db.next)
        × StandsAt s i base
        × (db : Database F) × (candidates : List Candidate) × (updated : Bool) × (insert_revision
              (committed_revision s.db p modules base operations)
              (draw s.db).1
            ≡ ok db)
        × Update db.revisions i
            (λ c. c.head == base)
            (with_head s.db.next)
            (λ c. refl)
            s.candidates
            candidates
            updated
        × (s' ≡ record s { db = db; candidates = candidates })
  unfolding commit_transaction
  commit_transaction-eq-ok s s' p i modules base operations revision h =
      let (u, e₁, h₁) = >>=-eq-ok (row_test stale_revision s i base) _ h in
      let v = committed_revision s.db p modules base operations in
      let (db, e₂, h₂) = >>=-eq-ok (insert_revision v (draw s.db).1) _ h₁ in
      let ((candidates, updated), e₃, h₃) =
        >>=-eq-ok
          (update_candidate db.revisions i (λ c. c.head == base) (with_head s.db.next) s.candidates)
          _ h₂ in
      (
        cc,
        row_test-StandsAt stale_revision s i base e₁,
        db,
        candidates,
        updated,
        e₂,
        update_candidate-Update db.revisions i (λ c. c.head == base) (with_head s.db.next)
            (λ c. refl) s.candidates candidates updated e₃,
        cc,
      )

  insert_qualification-eq-ok :
      (q : Qualification) (s s' : Store F)
      → insert_qualification q s ≡ ok s'
      → s' ≡ record s { qualifications = q ∷ s.qualifications }
  unfolding insert_qualification
  insert_qualification-eq-ok q s s' h = ground arith

  abbrev qualify_test : Store F → ℕ → ℕ → Result (Unit {0})
  qualify_test s i head = elim (find_candidate i s.candidates) [
    | none ↦ err (validation candidate_conflict)
    | some c ↦
        require (is_open c.status) candidate_conflict >> require (c.head == head) stale_revision
  ]

  pub publish_transaction-eq-ok :
      (s s' : Store F) (p i head : ℕ) (branch : Text) (required_base : ℕ)
      → publish_transaction s p i head branch required_base ≡ ok s'
      → (find_branch p branch s.db.branches ≡ some required_base)
        × StandsAt s i head
        × (set_head p branch (some required_base) head s.db
            ≡ ok (record s.db {
              branches = update_head p branch (some required_base) head s.db.branches;
            }))
        × (candidates : List Candidate) × (updated : Bool) × Update s.db.revisions i
            (λ c. true)
            (published_at branch head)
            (λ c. refl)
            s.candidates
            candidates
            updated
        × (s' ≡ record s {
          db = record s.db {
            branches = update_head p branch (some required_base) head s.db.branches;
          };
          candidates = candidates;
        })
  unfolding publish_transaction
  publish_transaction-eq-ok s s' p i head branch required_base h =
      let (actual, e₁, h₁) = >>=-eq-ok (or_not_found (find_branch p branch s.db.branches)) _ h in
      let (u₁, e₂, h₂) = >>=-eq-ok (require (actual == required_base) publication_race) _ h₁ in
      let (u₂, e₃, h₃) = >>=-eq-ok (row_test candidate_conflict s i head) _ h₂ in
      let (db, e₄, h₄) = >>=-eq-ok (set_head p branch (some required_base) head s.db) _ h₃ in
      let (u₃, e₅, h₅) = >>=-eq-ok (require (actual == required_base) publication_race) _ h₄ in
      let ((candidates, updated), e₆, h₆) =
        >>=-eq-ok
          (update_candidate db.revisions i (λ c. true) (published_at branch head) s.candidates) _
          h₅ in
      let found = or_not_found-eq-ok (find_branch p branch s.db.branches) actual e₁ in
      let (belongs_head, at) = set_head-eq-ok p branch (some required_base) head s.db db e₄ in
      let same : actual ≡ required_base = ground arith in
      let update =
        update_candidate-Update db.revisions i (λ c. true) (published_at branch head) (λ c. refl)
          s.candidates candidates updated e₆ in
      let left : s' ≡ record s { db = db; candidates = candidates } = cc in
      (
        found ∙ ap some same,
        row_test-StandsAt candidate_conflict s i head e₃,
        subst (λ d. set_head p branch (some required_base) head s.db ≡ ok d) at e₄,
        candidates,
        updated,
        subst
            (λ d.
              Update d.revisions i (λ c. true) (published_at branch head) (λ c. refl) s.candidates
                candidates updated)
            at update,
        left ∙ ap (λ d. record s { db = d; candidates = candidates }) at,
      )

  pub abandon_transaction-eq-ok :
      (s s' : Store F) (i : ℕ)
      → abandon_transaction s i ≡ ok s'
      → (candidates : List Candidate) × Update s.db.revisions i
          (λ c. is_open c.status)
          (λ c. record c { status = abandoned })
          (λ c. refl)
          s.candidates
          candidates
          true
        × (s' ≡ record s { candidates = candidates })
  unfolding abandon_transaction
  abandon_transaction-eq-ok s s' i h =
      let test = λ (c : Candidate). is_open c.status in
      let change = λ (c : Candidate). record c { status = abandoned } in
      let ((candidates, updated), e₁, h₁) =
        >>=-eq-ok (update_candidate s.db.revisions i test change s.candidates) _ h in
      let (u₂, e₂, h₂) = >>=-eq-ok (require updated candidate_conflict) _ h₁ in
      let done : updated ≡ true = ground arith in
      (
        candidates,
        rw (← done) (
            update_candidate-Update s.db.revisions i test change (λ c. refl) s.candidates candidates
              updated e₁),
        cc,
      )

  pub revert_transaction-eq-ok :
      (s s' : Store F) (i head parent : ℕ)
      → revert_transaction s i head parent ≡ ok s'
      → (candidates : List Candidate) × Update s.db.revisions i
          (open_at head)
          (with_head parent)
          (λ c. refl)
          s.candidates
          candidates
          true
        × (s' ≡ record s { candidates = candidates })
  unfolding revert_transaction
  revert_transaction-eq-ok s s' i head parent h =
      let ((candidates, updated), e₁, h₁) =
        >>=-eq-ok (update_candidate s.db.revisions i (open_at head) (with_head parent) s.candidates)
          _ h in
      let (u₂, e₂, h₂) = >>=-eq-ok (require updated stale_revision) _ h₁ in
      let done : updated ≡ true = ground arith in
      (
        candidates,
        rw (← done) (
            update_candidate-Update s.db.revisions i (open_at head) (with_head parent) (λ c. refl)
              s.candidates candidates updated e₁),
        cc,
      )

  pub qualify_transaction-eq-ok :
      (s s' : Store F) (i head : ℕ) (level : Level) (outcome : Outcome) (now q : ℕ)
      → qualify_transaction s i head level outcome now ≡ ok (q, s')
      → (q ≡ s.db.next)
        × (s' ≡ record s {
          db = (draw s.db).1;
          qualifications = qualified_row s.db.next i head level outcome now ∷ s.qualifications;
        })
  unfolding qualify_transaction
  qualify_transaction-eq-ok s s' i head level outcome now q h =
      let row = qualified_row s.db.next i head level outcome now in
      let start = record s { db = (draw s.db).1 } in
      let (u, e₁, h₁) = >>=-eq-ok (qualify_test s i head) _ h in
      let (s₂, e₂, h₂) = >>=-eq-ok (insert_qualification row start) _ h₁ in
      let at = insert_qualification-eq-ok row start s₂ e₂ in
      let same : s₂ ≡ s' = cc in (cc, rw (← same) at)
