-- ===== src/Candidate/Table.antt =====
-- The tables `edit_candidates` and `candidate_qualifications` of database.py, with their triggers
-- and keys. Compiler identities and evidence are not modelled; a qualification keeps the second at
-- which it was made.
use weave_jacquard.Prelude.{
  ℕ, ltb, ◌||◌, Bool, true, false, ◌==◌, ◌&&◌, not, if◌then◌else◌, Option, none, some, List, [],
  ◌∷◌, any,
}
use weave_jacquard.Prelude.Text.{Text, text_eq}
use weave_jacquard.Error.{Result, ok, ◌>>=◌, ◌>>◌}
use weave_jacquard.Revision.Database.{
  Revision, Database, find_revision, belongs, constraint, is_none, has_project,
}

-- CANDIDATE_STATUSES
-- "open" is `opened`.
pub data Status : Type 0 where
  opened abandoned published : Status

pub record Candidate : Type 0 where
  pub id : ℕ
  pub project : ℕ
  pub name : Text
  pub base : ℕ
  pub head : ℕ
  pub status : Status
  pub publication : Option (Text × ℕ)

-- QUALIFICATION_LEVELS
pub data Level : Type 0 where
  syntactic compiler : Level

pub data Outcome : Type 0 where
  passed failed unavailable : Outcome

pub record Qualification : Type 0 where
  pub id : ℕ
  pub candidate : ℕ
  pub revision : ℕ
  pub level : Level
  pub outcome : Outcome
  pub created_at : ℕ

pub record Store (F : Type 0) : Type 0 where
  pub db : Database F
  pub candidates : List Candidate
  pub qualifications : List Qualification

abbrev pub is_open : Status → Bool
is_open opened = true
is_open abandoned = false
is_open published = false

unfoldable pub find_candidate : ℕ → List Candidate → Option Candidate
find_candidate i [] = none
find_candidate i (c ∷ cs) = if c.id == i then some c else find_candidate i cs

-- An open candidate of the project with the name.
unfoldable pub has_open : ℕ → Text → List Candidate → Bool
has_open project name [] = false
has_open project name (c ∷ cs) =
    if c.project == project && (text_eq c.name name && is_open c.status)
    then true
    else has_open project name cs

-- What the triggers ask of a row.
abbrev pub owns_revisions : {F : Type 0} → List (Revision F) → Candidate → Bool
owns_revisions vs c = belongs vs c.project c.base && belongs vs c.project c.head

module _ {F : Type 0} where
  -- INSERT INTO edit_candidates of an open candidate, under uq_open_edit_candidates
  unfoldable pub insert_candidate : Candidate → Store F → Result (Store F)
  unfolding belongs find_candidate has_open
  insert_candidate c s = do
    constraint (owns_revisions s.db.revisions c)
    constraint (has_project c.project s.db.projects)
    constraint (is_none (find_candidate c.id s.candidates))
    constraint (not (has_open c.project c.name s.candidates))
    ok (record s { candidates = c ∷ s.candidates })

  -- UPDATE edit_candidates SET the change WHERE id = i and the test holds, with its row count.
  unfoldable pub update_candidate :
      List (Revision F)
      → ℕ
      → (Candidate → Bool)
      → (Candidate → Candidate)
      → List Candidate
      → Result (List Candidate × Bool)
  unfolding belongs
  update_candidate vs i test change [] = ok ([], false)
  update_candidate vs i test change (c ∷ cs) =
      let later : Result (List Candidate × Bool) =
        update_candidate vs i test change cs >>= λ (cs', updated). ok (c ∷ cs', updated) in
      let here : Result (List Candidate × Bool) =
        constraint (owns_revisions vs (change c)) >> ok (change c ∷ cs, true) in
      if c.id == i then (if test c then here else ok (c ∷ cs, false)) else later

  -- INSERT INTO candidate_qualifications, under its foreign keys and its primary key
  unfoldable pub insert_qualification : Qualification → Store F → Result (Store F)
  unfolding find_candidate find_revision
  insert_qualification q s = do
    constraint (not (is_none (find_candidate q.candidate s.candidates)))
    constraint (not (is_none (find_revision q.revision s.db.revisions)))
    constraint (not (any (λ r. r.id == q.id) s.qualifications))
    ok (record s { qualifications = q ∷ s.qualifications })

-- Whether a row comes before another by `created_at DESC, id DESC`; the order of the uuids of
-- qualifications is none that their numbers show.
abbrev pub comes_first : (ℕ → ℕ → Bool) → Qualification → Qualification → Bool
comes_first id_lt q r =
    ltb r.created_at q.created_at || (r.created_at == q.created_at && id_lt r.id q.id)

-- The first of the candidate's rows in that order.
unfoldable pub latest_qualification : (ℕ → ℕ → Bool) → ℕ → List Qualification → Option Qualification
latest_qualification id_lt i [] = none
latest_qualification id_lt i (q ∷ qs) =
    let rest = latest_qualification id_lt i qs in
    if q.candidate == i
    then elim rest [ none ↦ some q | some r ↦ if comes_first id_lt r q then some r else some q ]
    else rest
