-- ===== src/Candidate/Calls.antt =====
-- The methods of `EditCandidateService`, each as one of the transactions.
use weave_jacquard.Prelude.{
  ℕ, ◌≡◌, ◌≢◌, refl, sym, ap, subst, ◌∙◌, Bool, true, not, ◌==◌, Option, none, some, List, arith,
}
use weave_jacquard.Prelude.Text.{Text}
use weave_jacquard.Error.{
  Result, ok, err, validation, ◌>>◌, ◌>>=◌, >>=-eq-ok, require, require-eq-ok, stale_revision,
  invalid_edit, invalid_candidate_name,
}
use weave_jacquard.Sexpr.Runtime.{Runtime, Digits}
use weave_jacquard.Merge.States.{document_of}
use weave_jacquard.Revision.Commit.{
  project_id, branch_head, require_expected_head, or_not_found, state_at_revision,
}
use weave_jacquard.Revision.Dag.{parents_of}
use weave_jacquard.Revision.Workspace.{put_document, validate_state}
use weave_jacquard.Batch.{transform}
use weave_jacquard.Batch.Input.{Raw}
use weave_jacquard.Candidate.{
  candidate_name_matches, require_open, require_project_revision, open_candidate,
  apply_candidate_batch, abandon, revert_last, revert_transaction,
}
use weave_jacquard.Candidate.Table.{Candidate, Store, find_candidate}
use weave_jacquard.Candidate.Qualify.{
  Answer, level_named, sorted_documents, syntactic_evidence, outcome_at, qualify, publish,
}
use weave_jacquard.Candidate.Publishing.{require_open-eq-ok, publish-eq-ok, find_candidate-id}
use weave_jacquard.Candidate.Transactions.{
  Transaction, opens, commits, qualifies, publishes, abandons, reverts,
}

module _ {F : Type 0} ⦃r : Runtime F⦄ ⦃u : Digits⦄ (fresh : ℕ → Text) where
  -- A call of the service that returned.
  pub data Call : Store F → Store F → Type 0 where
    opened_by :
        {s s' : Store F} (project name branch : Text) (revision : Option ℕ) (i : ℕ)
        → open_candidate s project name branch revision ≡ ok (i, s')
        → Call s s'
    edited_by :
        {s s' : Store F} (new_ids : ℕ → Text) (project : Text) (i : ℕ) (document : Text)
        (raws : List (Raw F)) (expected : Option ℕ) (revision : ℕ)
        → apply_candidate_batch new_ids s project i document raws expected ≡ ok (revision, s')
        → Call s s'
    qualified_by :
        {s s' : Store F} (validate_sources : List (Text × Text) → Result Answer) (project : Text)
        (i : ℕ) (name : Text) (expected : Option ℕ) (now q : ℕ)
        → qualify validate_sources s project i name expected now ≡ ok (q, s')
        → Call s s'
    published_by :
        {s s' : Store F} (id_lt : ℕ → ℕ → Bool) (project : Text) (i : ℕ) (branch : Text)
        (level : Option Text) (expected_base expected : Option ℕ)
        → publish id_lt s project i branch level expected_base expected ≡ ok s'
        → Call s s'
    abandoned_by :
        {s s' : Store F} (project : Text) (i : ℕ) → abandon s project i ≡ ok s' → Call s s'
    reverted_by :
        {s s' : Store F} (project : Text) (i head : ℕ)
        → revert_last s project i ≡ ok (head, s')
        → Call s s'

  open_candidate-Transaction :
      (s s' : Store F) (project name branch : Text) (revision : Option ℕ) (i : ℕ)
      → open_candidate s project name branch revision ≡ ok (i, s')
      → Transaction fresh s s'
  unfolding open_candidate
  open_candidate-Transaction s s' project name branch revision i h =
      let (u₁, e₁, h₁) =
        >>=-eq-ok (require (candidate_name_matches name) invalid_candidate_name) _ h in
      let (p, e₂, h₂) = >>=-eq-ok (project_id s.db project) _ h₁ in
      let (head, e₃, h₃) = >>=-eq-ok (branch_head s.db project branch) _ h₂ in
      let (base, e₄, h₄) =
        >>=-eq-ok
          (elim revision [
            | none ↦ ok head
            | some j ↦ require_project_revision s.db project j >> ok j
          ])
          _ h₃ in
      opens p name base i h₄

  apply_candidate_batch-Transaction :
      (new_ids : ℕ → Text) (s s' : Store F) (project : Text) (i : ℕ) (document : Text)
      (raws : List (Raw F)) (expected : Option ℕ) (revision : ℕ)
      → apply_candidate_batch new_ids s project i document raws expected ≡ ok (revision, s')
      → Transaction fresh s s'
  unfolding apply_candidate_batch
  apply_candidate_batch-Transaction new_ids s s' project i document raws expected revision h =
      let (c, e₁, h₁) = >>=-eq-ok (require_open s project i) _ h in
      let (u₂, e₂, h₂) = >>=-eq-ok (require_expected_head c.head expected stale_revision) _ h₁ in
      let state = state_at_revision s.db c.head in
      let (root, e₃, h₃) = >>=-eq-ok (or_not_found (document_of document state)) _ h₂ in
      let (d, e₄, h₄) = >>=-eq-ok (transform new_ids root raws) _ h₃ in
      let state' = put_document document d.root state in
      let (u₅, e₅, h₅) = >>=-eq-ok (validate_state state') _ h₄ in
      let (p, e₆, h₆) = >>=-eq-ok (project_id s.db project) _ h₅ in
      commits p c.id state' c.head d.log revision e₅ h₆

  qualify-Transaction :
      (validate_sources : List (Text × Text) → Result Answer) (s s' : Store F) (project : Text)
      (i : ℕ) (name : Text) (expected : Option ℕ) (now q : ℕ)
      → qualify validate_sources s project i name expected now ≡ ok (q, s')
      → Transaction fresh s s'
  unfolding qualify
  qualify-Transaction validate_sources s s' project i name expected now q h =
      let (level, e₁, h₁) = >>=-eq-ok (level_named name) _ h in
      let (c, e₂, h₂) = >>=-eq-ok (require_open s project i) _ h₁ in
      let (u₃, e₃, h₃) = >>=-eq-ok (require_expected_head c.head expected stale_revision) _ h₂ in
      let state = sorted_documents (state_at_revision s.db c.head) in
      let (valid, e₄, h₄) = >>=-eq-ok (syntactic_evidence state) _ h₃ in
      let (outcome, e₅, h₅) = >>=-eq-ok (outcome_at validate_sources level valid state) _ h₄ in
      qualifies c.id c.head level outcome now q h₅

  reverted_to :
      (s s' : Store F) (c : Candidate) (parent : Option ℕ) (head : ℕ)
      → ◌>>=◌ {Y = ℕ × Store F}
          (elim parent [ none ↦ err (validation invalid_edit) | some q ↦ ok q ])
          (λ p. ◌>>=◌ {Y = ℕ × Store F} (revert_transaction s c.id c.head p) (λ t. ok (p, t)))
        ≡ ok (head, s')
      → (q : ℕ) × (parent ≡ some q) × (revert_transaction s c.id c.head q ≡ ok s')
  reverted_to s s' c none head h = cc
  reverted_to s s' c (some q) head h =
      let (t, e, k) = >>=-eq-ok (revert_transaction s c.id c.head q) _ h in
      let same : t ≡ s' = cc in (q, refl, e ∙ ap (λ x. ok x) same)

  same_row :
      (s : Store F) (i : ℕ) (d c : Candidate)
      → find_candidate i s.candidates ≡ some d
      → find_candidate i s.candidates ≡ some c
      → d ≡ c
  same_row s i d c h k = cc

  revert_last-Transaction :
      (s s' : Store F) (project : Text) (i head : ℕ)
      → revert_last s project i ≡ ok (head, s')
      → Transaction fresh s s'
  unfolding revert_last
  revert_last-Transaction s s' project i head h =
      let (c, e₁, h₁) = >>=-eq-ok (require_open s project i) _ h in
      let (u₂, e₂, h₂) = >>=-eq-ok (require (not (c.head == c.base)) invalid_edit) _ h₁ in
      let ((parent, second), e₃, h₃) = >>=-eq-ok (parents_of s.db c.head) _ h₂ in
      let (q, at_parent, t) = reverted_to s s' c parent head h₃ in
      let (at, o) = require_open-eq-ok s project i c e₁ in
      let gate : not (c.head == c.base) ≡ true = require-eq-ok _ _ e₂ in
      let moved : c.base ≢ c.head = ground arith in
      let here : c.id ≡ i = find_candidate-id i c s.candidates at in
      reverts c.id c.head q second
        (λ d at_d e.
          let at_i : find_candidate i s.candidates ≡ some d =
            subst (λ k. find_candidate k s.candidates ≡ some d) here at_d in
          let same : d ≡ c = same_row s i d c at_i at in moved (ap (λ x. x.base) (sym same) ∙ e))
        (e₃ ∙ ap (λ x. ok (x, second)) at_parent) t

  abandon-Transaction :
      (s s' : Store F) (project : Text) (i : ℕ)
      → abandon s project i ≡ ok s'
      → Transaction fresh s s'
  unfolding abandon
  abandon-Transaction s s' project i h =
      let (c, e₁, h₁) = >>=-eq-ok (require_open s project i) _ h in abandons c.id h₁

  -- Each method of the service that returns has run one of the transactions.
  pub Call-Transaction : (s s' : Store F) → Call s s' → Transaction fresh s s'
  Call-Transaction s s' (opened_by project name branch revision i h) =
      open_candidate-Transaction s s' project name branch revision i h
  Call-Transaction s s' (edited_by new_ids project i document raws expected revision h) =
      apply_candidate_batch-Transaction new_ids s s' project i document raws expected revision h
  Call-Transaction s s' (qualified_by validate_sources project i name expected now q h) =
      qualify-Transaction validate_sources s s' project i name expected now q h
  Call-Transaction s s' (published_by id_lt project i branch level expected_base expected h) =
      let (c, p, at, o, q, e, t) =
        publish-eq-ok id_lt s s' project i branch level expected_base expected h in
      publishes p c.id c.head branch _ t
  Call-Transaction s s' (abandoned_by project i h) = abandon-Transaction s s' project i h
  Call-Transaction s s' (reverted_by project i head h) =
      revert_last-Transaction s s' project i head h
