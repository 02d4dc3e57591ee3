-- ===== src/Candidate/Evidence.antt =====
-- What a qualification of a candidate shows.
use weave_jacquard.Prelude.{
  ℕ, ◌≡◌, refl, sym, ap, ◌∙◌, Bool, true, false, ◌&&◌, Option, some, List, [], ◌∷◌, if◌then◌else◌,
  Bool-cases, inl, inr, ◌⊎◌,
}
use weave_jacquard.Prelude.Text.{Text}
use weave_jacquard.Error.{
  Result, ok, err, validation, not_found, value_error, overflow_error, integrity_error,
  operational_error, out_of_fuel, conflict, batch, ◌>>◌, >>=-eq-ok, stale_revision,
}
use weave_jacquard.Sexpr.Runtime.{Runtime}
use weave_jacquard.Sexpr.Node.{Node}
use weave_jacquard.Sexpr.Render.{render_node}
use weave_jacquard.Sexpr.Validate.{validate_tree}
use weave_jacquard.Merge.States.{Documents, text_lt}
use weave_jacquard.Revision.Commit.{require_expected_head, state_at_revision}
use weave_jacquard.Revision.Workspace.Trees.{AllValid}
use weave_jacquard.Candidate.{require_open}
use weave_jacquard.Candidate.Table.{
  Candidate, Level, syntactic, compiler, Outcome, passed, unavailable, Store, find_candidate,
}
use weave_jacquard.Candidate.Qualify.{
  Answer, level_named, insert_document, sorted_documents, syntactic_evidence, compiler_evidence,
  render_all, outcome_of, outcome_at, qualify,
}
use weave_jacquard.Candidate.Effects.{qualified_row, qualify_transaction-eq-ok}
use weave_jacquard.Candidate.Publishing.{require_open-eq-ok}

not_false : (m : Result Bool) → (m >> ok false) ≡ ok true → ⊥
not_false (ok b) h = cc
not_false (err e) h = cc

module _ {F : Type 0} ⦃r : Runtime F⦄ where
  insert_document-AllValid :
      (d : Text × Node F) (state : Documents F)
      → AllValid (insert_document d state)
      → (validate_tree d.1 ≡ ok tt) × AllValid state
  unfolding insert_document
  insert_document-AllValid d [] a = a
  insert_document-AllValid d (e ∷ state) a = elim (Bool-cases (text_lt e.0 d.0)) [
    | inl before ↦
        let b : AllValid (e ∷ insert_document d state) = rw before at a in
        let (x, y) = insert_document-AllValid d state b.1 in (x, (b.0, y))
    | inr later ↦ let b : AllValid (d ∷ e ∷ state) = rw later at a in b
  ]

  sorted_documents-AllValid :
      (state : Documents F) → AllValid (sorted_documents state) → AllValid state
  unfolding sorted_documents
  sorted_documents-AllValid [] a = tt
  sorted_documents-AllValid (d ∷ state) a =
      let (x, y) = insert_document-AllValid d (sorted_documents state) a in
      (x, sorted_documents-AllValid state y)

  -- The evidence of a document and of the others.
  document-AllValid :
      (d : Text × Node F) (state : Documents F) (m : Result (Unit {0}))
      → validate_tree d.1 ≡ m
      → (syntactic_evidence state ≡ ok true → AllValid state)
      → (elim m [
        | ok u ↦ syntactic_evidence state
        | err (validation code) ↦ syntactic_evidence state >> ok false
        | err e ↦ err e
      ])
        ≡ ok true
      → AllValid (d ∷ state)
  document-AllValid d state (ok u) e others h = (e, others h)
  document-AllValid d state (err (validation code)) e others h =
      absurd (not_false (syntactic_evidence state) h)
  document-AllValid d state (err not_found) e others h = cc
  document-AllValid d state (err value_error) e others h = cc
  document-AllValid d state (err overflow_error) e others h = cc
  document-AllValid d state (err integrity_error) e others h = cc
  document-AllValid d state (err operational_error) e others h = cc
  document-AllValid d state (err out_of_fuel) e others h = cc
  document-AllValid d state (err (conflict cs)) e others h = cc
  document-AllValid d state (err (batch code i)) e others h = cc

  syntactic_evidence-AllValid :
      (state : Documents F) → syntactic_evidence state ≡ ok true → AllValid state
  unfolding syntactic_evidence
  syntactic_evidence-AllValid [] h = tt
  syntactic_evidence-AllValid ((name, root) ∷ state) h =
      document-AllValid (name, root) state (validate_tree root) refl
        (syntactic_evidence-AllValid state) h

  -- The compiler was called on the rendered documents, was there and accepted them.
  pub record IsAccepted (validate_sources : List (Text × Text) → Result Answer)
      (state : Documents F) : Type 0 where
    pub sources : List (Text × Text)
    pub answer : Answer
    pub rendered : render_all state ≡ ok sources
    pub called : validate_sources sources ≡ ok answer
    pub available : answer.is_unavailable ≡ false
    pub valid : answer.is_valid ≡ true

  -- Without documents the compiler is not called.
  abbrev pub NothingOrAccepted : (List (Text × Text) → Result Answer) → Documents F → Type 0
  NothingOrAccepted validate_sources state = (state ≡ []) ⊎ IsAccepted validate_sources state

  render_all-nil : (state : Documents F) → render_all state ≡ ok [] → state ≡ []
  unfolding render_all
  render_all-nil [] h = refl
  render_all-nil ((name, root) ∷ state) h =
      let (source, e₁, h₁) = >>=-eq-ok (render_node root false false 0) _ h in
      let (rest, e₂, h₂) = >>=-eq-ok (render_all state) _ h₁ in
      absurd (distinct (name, source) rest h₂)
    where
      distinct :
          (x : Text × Text) (xs : List (Text × Text))
          → ◌≡◌ {A = Result (List (Text × Text))} (ok (x ∷ xs)) (ok [])
          → ⊥
      distinct x xs k = cc

  compiler_evidence-Accepted :
      (validate_sources : List (Text × Text) → Result Answer) (state : Documents F)
      (answer : Answer)
      → compiler_evidence validate_sources state ≡ ok answer
      → answer.is_unavailable ≡ false
      → answer.is_valid ≡ true
      → NothingOrAccepted validate_sources state
  unfolding compiler_evidence
  compiler_evidence-Accepted validate_sources state answer h present valid =
      let (sources, e, k) = >>=-eq-ok (render_all state) _ h in asked sources e k
    where
      asked :
          (sources : List (Text × Text))
          → render_all state ≡ ok sources
          → (elim sources [
            | [] ↦ ok (record { is_unavailable = false; is_valid = true })
            | source ∷ more ↦ validate_sources (source ∷ more)
          ])
            ≡ ok answer
          → NothingOrAccepted validate_sources state
      asked [] e k = inl (render_all-nil state e)
      asked (source ∷ more) e k = inr (record {
        sources = source ∷ more;
        answer = answer;
        rendered = e;
        called = k;
        available = present;
        valid = valid;
      })

  outcome_at-passed :
      (validate_sources : List (Text × Text) → Result Answer) (level : Level) (valid : Bool)
      (state : Documents F)
      → outcome_at validate_sources level valid state ≡ ok passed
      → (valid ≡ true) × (level ≡ compiler → NothingOrAccepted validate_sources state)
  unfolding outcome_at
  outcome_at-passed validate_sources syntactic true state h = (refl, λ e. cc)
  outcome_at-passed validate_sources syntactic false state h = cc
  outcome_at-passed validate_sources compiler valid state h =
      let (answer, e, k) = >>=-eq-ok (compiler_evidence validate_sources state) _ h in
      let (x, y, z) = judged answer.is_unavailable answer.is_valid valid k in
      (z, λ c. compiler_evidence-Accepted validate_sources state answer e x y)
    where
      judged :
          (absent accepted valid : Bool)
          → ◌≡◌ {A = Result Outcome}
              (ok (if absent then unavailable else outcome_of (accepted && valid)))
              (ok passed)
          → (absent ≡ false) × (accepted ≡ true) × (valid ≡ true)
      judged true a v h = cc
      judged false true true h = (refl, refl, refl)
      judged false true false h = cc
      judged false false v h = cc

  -- A qualification is a new row on the candidate's head at the level that was asked for. If its
  -- outcome is passed, every document of that head is a tree that `validate_tree` accepts, and at
  -- the level compiler the head has no documents, or the compiler was called on the rendered
  -- documents, was available and accepted them.
  pub qualify_shows :
      (validate_sources : List (Text × Text) → Result Answer) (s s' : Store F) (project : Text)
      (i : ℕ) (name : Text) (expected : Option ℕ) (now q : ℕ)
      → qualify validate_sources s project i name expected now ≡ ok (q, s')
      → (c : Candidate) × (level : Level) × (outcome : Outcome) × (find_candidate i s.candidates
          ≡ some c)
        × (level_named name ≡ ok level)
        × (s'.qualifications ≡ qualified_row q c.id c.head level outcome now ∷ s.qualifications)
        × (outcome ≡ passed
            → AllValid (state_at_revision s.db c.head)
              × (level ≡ compiler
                  → NothingOrAccepted validate_sources
                      (sorted_documents (state_at_revision s.db c.head))))
  unfolding qualify
  qualify_shows validate_sources s s' project i name expected now q h =
      let (level, e₁, h₁) = >>=-eq-ok (level_named name) _ h in
      let (c, e₂, h₂) = >>=-eq-ok (require_open s project i) _ h₁ in
      let (u₃, e₃, h₃) = >>=-eq-ok (require_expected_head c.head expected stale_revision) _ h₂ in
      let state = state_at_revision s.db c.head in
      let (valid, e₄, h₄) = >>=-eq-ok (syntactic_evidence (sorted_documents state)) _ h₃ in
      let (outcome, e₅, h₅) =
        >>=-eq-ok (outcome_at validate_sources level valid (sorted_documents state)) _ h₄ in
      let (number, at) = qualify_transaction-eq-ok s s' c.id c.head level outcome now q h₅ in
      let (found, o) = require_open-eq-ok s project i c e₂ in
      (
        c,
        level,
        outcome,
        found,
        e₁,
        ap (λ t. t.qualifications) at
            ∙ ap (λ k. qualified_row k c.id c.head level outcome now ∷ s.qualifications)
                (sym number),
        λ pass.
            let (v, compiled) =
              outcome_at-passed validate_sources level valid (sorted_documents state)
                (e₅ ∙ ap (λ x. ok x) pass) in
            (
              sorted_documents-AllValid state
                  (syntactic_evidence-AllValid (sorted_documents state) (e₄ ∙ ap (λ x. ok x) v)),
              compiled,
            ),
      )
