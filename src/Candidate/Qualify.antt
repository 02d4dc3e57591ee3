-- ===== src/Candidate/Qualify.antt =====
-- `qualify` and `publish` of edit_candidates.py. What the compiler answers to `validate_sources`
-- is a parameter.
use weave_jacquard.Prelude.{
  ℕ, ◌==◌, ◌&&◌, not, Bool, true, false, if◌then◌else◌, Option, none, some, List, [], ◌∷◌,
}
use weave_jacquard.Prelude.Text.{Text, codes, text_eq}
use weave_jacquard.Error.{
  Result, ok, err, validation, ◌>>=◌, ◌>>◌, require, candidate_conflict, stale_revision,
  invalid_qualification_level, qualification_failure, stale_qualification,
}
use weave_jacquard.Sexpr.Runtime.{Runtime}
use weave_jacquard.Sexpr.Node.{Node}
use weave_jacquard.Sexpr.Validate.{validate_tree}
use weave_jacquard.Sexpr.Render.{render_node}
use weave_jacquard.Merge.States.{Documents, text_lt}
use weave_jacquard.Revision.Database.{draw}
use weave_jacquard.Revision.Commit.{project_id, require_expected_head, state_at_revision}
use weave_jacquard.Candidate.{View, qualification_view, require_open, publish_transaction}
use weave_jacquard.Candidate.Table.{
  Candidate, Level, syntactic, compiler, Outcome, passed, failed, unavailable, Store, is_open,
  find_candidate, insert_qualification, latest_qualification,
}

-- What `qualify` reads of the compiler's answer: `available is False` and `valid is True`.
pub record Answer : Type 0 where
  pub is_unavailable : Bool
  pub is_valid : Bool

unfoldable pub level_named : Text → Result Level
level_named name =
    if text_eq name (codes "syntactic")
    then ok syntactic
    else if text_eq name (codes "compiler")
    then ok compiler
    else err (validation invalid_qualification_level)

abbrev pub level_name : Level → Text
level_name syntactic = codes "syntactic"
level_name compiler = codes "compiler"

unfoldable pub insert_document : {F : Type 0} → Text × Node F → Documents F → Documents F
unfolding text_lt
insert_document d [] = d ∷ []
insert_document d (e ∷ state) =
    let later = e ∷ insert_document d state in if text_lt e.0 d.0 then later else d ∷ e ∷ state

-- sorted(state.items()); a state has a name once.
unfoldable pub sorted_documents : {F : Type 0} → Documents F → Documents F
unfolding insert_document
sorted_documents [] = []
sorted_documents (d ∷ state) = insert_document d (sorted_documents state)

abbrev pub outcome_of : Bool → Outcome
outcome_of true = passed
outcome_of false = failed

-- The view has the outcome passed, at the level that is asked for.
abbrev pub passes_at : Text → View → Bool
passes_at level view = elim view.qualification [
  | none ↦ false
  | some q ↦ (elim q.outcome [ passed ↦ true | _ ↦ false ]) && text_eq (level_name q.level) level
]

-- The gate of `publish`.
unfoldable pub require_qualification : Option Text → View → Result (Unit {0})
require_qualification none view = ok tt
require_qualification (some level) view = do
  require (passes_at level view) qualification_failure
  require (not view.stale) stale_qualification

-- expected_base_revision_id or base
abbrev pub required_base : Option ℕ → Candidate → ℕ
required_base none c = c.base
required_base (some base) c = base

module _ {F : Type 0} where
  -- The transaction of `qualify`, for a candidate that was at `head`.
  unfoldable pub qualify_transaction : Store F → ℕ → ℕ → Level → Outcome → ℕ → Result (ℕ × Store F)
  unfolding find_candidate insert_qualification
  qualify_transaction s i head level outcome now = do
    let (qualification, db) = draw s.db
    (elim (find_candidate i s.candidates) [
      | none ↦ err (validation candidate_conflict)
      | some c ↦
          require (is_open c.status) candidate_conflict >> require (c.head == head) stale_revision
    ])
    s' ←
        insert_qualification
          (record {
            id = qualification;
            candidate = i;
            revision = head;
            level = level;
            outcome = outcome;
            created_at = now;
          })
          (record s { db = db })
    ok (qualification, s')

module _ {F : Type 0} ⦃r : Runtime F⦄ where
  -- The `valid` of `_syntactic_evidence`: only a ValidationError is caught.
  unfoldable pub syntactic_evidence : Documents F → Result Bool
  syntactic_evidence [] = ok true
  syntactic_evidence ((name, root) ∷ state) =
      let rest = syntactic_evidence state in
      elim (validate_tree root) [
        | ok u ↦ rest
        | err (validation code) ↦ rest >> ok false
        | err e ↦ err e
      ]

  unfoldable pub render_all : Documents F → Result (List (Text × Text))
  unfolding render_node
  render_all [] = ok []
  render_all ((name, root) ∷ state) = do
    source ← render_node root false false 0
    rest ← render_all state
    ok ((name, source) ∷ rest)

  unfoldable pub compiler_evidence :
      (List (Text × Text) → Result Answer) → Documents F → Result Answer
  unfolding render_all
  compiler_evidence validate_sources state = do
    sources ← render_all state
    (elim sources [
      | [] ↦ ok (record { is_unavailable = false; is_valid = true })
      | source ∷ more ↦ validate_sources (source ∷ more)
    ])

  -- The outcome of a level, from the evidence.
  unfoldable pub outcome_at :
      (List (Text × Text) → Result Answer) → Level → Bool → Documents F → Result Outcome
  unfolding compiler_evidence
  outcome_at validate_sources syntactic valid state = ok (outcome_of valid)
  outcome_at validate_sources compiler valid state = do
    answer ← compiler_evidence validate_sources state
    ok (if answer.is_unavailable then unavailable else outcome_of (answer.is_valid && valid))

  unfoldable pub qualify :
      (List (Text × Text) → Result Answer)
      → Store F
      → Text
      → ℕ
      → Text
      → Option ℕ
      → ℕ
      → Result (ℕ × Store F)
  unfolding level_named require_open require_expected_head state_at_revision sorted_documents
      syntactic_evidence outcome_at qualify_transaction
  qualify validate_sources s project i name expected now = do
    level ← level_named name
    c ← require_open s project i
    require_expected_head c.head expected stale_revision
    let state = sorted_documents (state_at_revision s.db c.head)
    valid ← syntactic_evidence state
    outcome ← outcome_at validate_sources level valid state
    qualify_transaction s c.id c.head level outcome now

module _ {F : Type 0} where
  unfoldable pub publish :
      (ℕ → ℕ → Bool)
      → Store F
      → Text
      → ℕ
      → Text
      → Option Text
      → Option ℕ
      → Option ℕ
      → Result (Store F)
  unfolding require_open require_expected_head require_qualification qualification_view
      latest_qualification project_id publish_transaction
  publish id_lt s project i branch level expected_base expected = do
    c ← require_open s project i
    require_expected_head c.head expected stale_revision
    require_qualification level
        (qualification_view c.head (latest_qualification id_lt c.id s.qualifications))
    p ← project_id s.db project
    publish_transaction s p c.id c.head branch (required_base expected_base c)
