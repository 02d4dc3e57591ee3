-- ===== src/Candidate/Publishing.antt =====
-- What `publish` of edit_candidates.py does to a branch, and what it asks of the candidate.
use weave_jacquard.Prelude.{
  ℕ, ◌≡◌, ◌≢◌, refl, sym, ap, subst, ◌∙◌, Bool, true, false, not, ◌==◌, ◌&&◌, any, Mem,
  mem-cons_self, mem-cons_of_mem, if◌then◌else◌, Option, none, some, List, [], ◌∷◌, arith,
  Bool-cases, inl, inr,
}
use weave_jacquard.Prelude.Text.{Text, text_eq, text_eq_iff}
use weave_jacquard.Error.{
  ok, err, validation, >>=-eq-ok, require, require-eq-ok, stale_revision, publication_race,
  candidate_conflict, qualification_failure,
}
use weave_jacquard.Revision.Database.{find_branch}
use weave_jacquard.Revision.Reachable.Invariants.{Keeps-same}
use weave_jacquard.Revision.Commit.{project_id, require_expected_head, or_not_found, found}
use weave_jacquard.Revision.Commit.Publication.{
  find_branch-update_head, find_branch-update_head_other,
}
use weave_jacquard.Revision.Commit.Success.{or_not_found-eq-ok}
use weave_jacquard.Revision.Workspace.Edits.{project_id-projects}
use weave_jacquard.Candidate.{View, qualification_view, load, require_open, publish_transaction}
use weave_jacquard.Candidate.Table.{
  Candidate, Outcome, passed, failed, unavailable, Qualification, Store, is_open, find_candidate,
  latest_qualification, comes_first,
}
use weave_jacquard.Candidate.Qualify.{
  publish, require_qualification, passes_at, level_name, required_base,
}
use weave_jacquard.Candidate.Rows.{Update-at}
use weave_jacquard.Candidate.Ancestry.{Ancestor, Ancestor-Keeps}
use weave_jacquard.Candidate.Effects.{published_at, publish_transaction-eq-ok}
use weave_jacquard.Candidate.Invariants.{IsConsistent}

-- What a publication that returned found and left.
pub record IsPublished {F : Type 0} (s s' : Store F) (project : Text) (i : ℕ) (branch : Text)
    (base : ℕ) (c : Candidate) : Type 0 where
  pub p : ℕ
  pub named : project_id s.db project ≡ ok p
  pub loaded : find_candidate i s.candidates ≡ some c
  pub was_open : is_open c.status ≡ true
  -- the branch moved from the base that was required to the candidate's head
  pub before : find_branch p branch s.db.branches ≡ some base
  pub after : find_branch p branch s'.db.branches ≡ some c.head
  pub other_heads :
      (q : ℕ) (other : Text)
      → ((q ≡ p) × (other ≡ branch) → ⊥)
      → find_branch q other s'.db.branches ≡ find_branch q other s.db.branches
  -- no revision was made, and the candidate is closed
  pub revisions : s'.db.revisions ≡ s.db.revisions
  pub projects : s'.db.projects ≡ s.db.projects
  pub closed : find_candidate i s'.candidates ≡ some (published_at branch c.head c)

pub find_candidate-id :
    (i : ℕ) (c : Candidate) (cs : List Candidate) → find_candidate i cs ≡ some c → c.id ≡ i
unfolding find_candidate
find_candidate-id i c [] h = cc
find_candidate-id i c (d ∷ cs) h = ground (arith, find_candidate-id i c cs)

module _ {F : Type 0} where
  pub load-eq-ok :
      (s : Store F) (project : Text) (i : ℕ) (c : Candidate)
      → load s project i ≡ ok c
      → find_candidate i s.candidates ≡ some c
  unfolding load
  load-eq-ok s project i c h =
      let (d, e₁, h₁) = >>=-eq-ok (or_not_found (find_candidate i s.candidates)) _ h in
      let (u, e₂, h₂) =
        >>=-eq-ok (found (any (λ p. p.id == d.project && text_eq p.name project) s.db.projects)) _
          h₁ in
      let same : d ≡ c = cc in
      or_not_found-eq-ok (find_candidate i s.candidates) d e₁ ∙ ap some same

  pub require_open-eq-ok :
      (s : Store F) (project : Text) (i : ℕ) (c : Candidate)
      → require_open s project i ≡ ok c
      → (find_candidate i s.candidates ≡ some c) × (is_open c.status ≡ true)
  unfolding require_open
  require_open-eq-ok s project i c h =
      let (d, e₁, h₁) = >>=-eq-ok (load s project i) _ h in
      let (u, e₂, h₂) = >>=-eq-ok (require (is_open d.status) candidate_conflict) _ h₁ in
      let same : d ≡ c = cc in
      (
        load-eq-ok s project i d e₁ ∙ ap some same,
        subst (λ x. is_open x.status ≡ true) same (require-eq-ok (is_open d.status) _ e₂),
      )

  -- The parts of a publication that returned.
  pub publish-eq-ok :
      (id_lt : ℕ → ℕ → Bool) (s s' : Store F) (project : Text) (i : ℕ) (branch : Text)
      (level : Option Text) (expected_base expected : Option ℕ)
      → publish id_lt s project i branch level expected_base expected ≡ ok s'
      → (c : Candidate) × (p : ℕ) × (find_candidate i s.candidates ≡ some c)
        × (is_open c.status ≡ true)
        × (require_qualification level
              (qualification_view c.head (latest_qualification id_lt c.id s.qualifications))
            ≡ ok tt)
        × (project_id s.db project ≡ ok p)
        × (publish_transaction s p c.id c.head branch (required_base expected_base c) ≡ ok s')
  unfolding publish
  publish-eq-ok id_lt s s' project i branch level expected_base expected h =
      let (c, e₁, h₁) = >>=-eq-ok (require_open s project i) _ h in
      let (u₁, e₂, h₂) = >>=-eq-ok (require_expected_head c.head expected stale_revision) _ h₁ in
      let view = qualification_view c.head (latest_qualification id_lt c.id s.qualifications) in
      let (u₂, e₃, h₃) = >>=-eq-ok (require_qualification level view) _ h₂ in
      let (p, e₄, h₄) = >>=-eq-ok (project_id s.db project) _ h₃ in
      let (at, o) = require_open-eq-ok s project i c e₁ in (c, p, at, o, e₃, e₄, h₄)

  -- A publication that returns found its candidate open and the branch at the base that was
  -- required, the candidate's own unless another is given. It moves that branch to the
  -- candidate's head and closes the candidate; other branches and all revisions are left as they
  -- were.
  pub publish_advances :
      (id_lt : ℕ → ℕ → Bool) (s s' : Store F) (project : Text) (i : ℕ) (branch : Text)
      (level : Option Text) (expected_base expected : Option ℕ)
      → publish id_lt s project i branch level expected_base expected ≡ ok s'
      → (c : Candidate) × IsPublished s s' project i branch (required_base expected_base c) c
  publish_advances id_lt s s' project i branch level expected_base expected h =
      let (c, p, at, o, q, e, t) =
        publish-eq-ok id_lt s s' project i branch level expected_base expected h in
      let base = required_base expected_base c in
      let (head, stands, set, candidates, updated, update, left) =
        publish_transaction-eq-ok s s' p c.id c.head branch base t in
      let same : c.id ≡ i = find_candidate-id i c s.candidates at in
      (
        c,
        record {
          p = p;
          named = e;
          loaded = at;
          was_open = o;
          before = head;
          after =
              ap (λ t. find_branch p branch t.db.branches) left
              ∙ find_branch-update_head p branch base c.head s.db.branches head;
          other_heads = λ q other ne.
              ap (λ t. find_branch q other t.db.branches) left
              ∙ find_branch-update_head_other p branch base c.head s.db.branches q other ne;
          revisions = ap (λ t. t.db.revisions) left;
          projects = ap (λ t. t.db.projects) left;
          closed =
              ap (λ t. find_candidate i t.candidates) left
              ∙ subst (λ k. find_candidate k candidates ≡ some (published_at branch c.head c)) same
                  (Update-at s.db.revisions c.id (λ d. true) (published_at branch c.head)
                    (λ d. refl) c update
                    (subst (λ k. find_candidate k s.candidates ≡ some c) (sym same) at) refl);
        },
      )

-- A row of the candidate shows that the revision passed at the level.
pub record IsQualified (qs : List Qualification) (i head : ℕ) (level : Text) : Type 0 where
  pub row : Qualification
  pub stored : Mem row qs
  pub candidate : row.candidate ≡ i
  pub revision : row.revision ≡ head
  pub outcome : row.outcome ≡ passed
  pub at_level : level_name row.level ≡ level

-- The first of a row and of the first of the others.
first-Mem :
    (id_lt : ℕ → ℕ → Bool) (i : ℕ) (r : Qualification) (qs : List Qualification)
    (o : Option Qualification) (q : Qualification)
    → r.candidate ≡ i
    → ((t : Qualification) → o ≡ some t → Mem t qs × (t.candidate ≡ i))
    → ◌≡◌ {A = Option Qualification}
        (elim o [ none ↦ some r | some t ↦ if comes_first id_lt t r then some t else some r ])
        (some q)
    → Mem q (r ∷ qs) × (q.candidate ≡ i)
first-Mem id_lt i r qs none q own others h =
    let same : r ≡ q = cc in
    subst (λ x. Mem x (r ∷ qs) × (x.candidate ≡ i)) same (mem-cons_self, own)
first-Mem id_lt i r qs (some t) q own others h = elim (Bool-cases (comes_first id_lt t r)) [
  | inl later ↦
      let kept : ◌≡◌ {A = Option Qualification} (some t) (some q) = rw later at h in
      let (m, e) = others q kept in (mem-cons_of_mem r m, e)
  | inr earlier ↦
      let kept : ◌≡◌ {A = Option Qualification} (some r) (some q) = rw earlier at h in
      let same : r ≡ q = cc in
      subst (λ x. Mem x (r ∷ qs) × (x.candidate ≡ i)) same (mem-cons_self, own)
]

latest_qualification-Mem :
    (id_lt : ℕ → ℕ → Bool) (i : ℕ) (qs : List Qualification) (q : Qualification)
    → latest_qualification id_lt i qs ≡ some q
    → Mem q qs × (q.candidate ≡ i)
unfolding latest_qualification
latest_qualification-Mem id_lt i [] q h = cc
latest_qualification-Mem id_lt i (r ∷ qs) q h = elim (Bool-cases (r.candidate == i)) [
  | inl own ↦
      first-Mem id_lt i r qs (latest_qualification id_lt i qs) q (ground arith)
        (λ t e. latest_qualification-Mem id_lt i qs t e) (rw own at h)
  | inr other ↦
      let (m, e) = latest_qualification-Mem id_lt i qs q (rw other at h) in (mem-cons_of_mem r m, e)
]

-- What the gate of a publication that was passed saw of the row.
passes_at-eq-true :
    (level : Text) (q : Qualification) (stale : Bool)
    → passes_at level (record { qualification = some q; stale = stale }) ≡ true
    → (q.outcome ≡ passed) × (level_name q.level ≡ level)
passes_at-eq-true level q stale h = go q.outcome refl h
  where
    go :
        (o : Outcome)
        → q.outcome ≡ o
        → ((elim o [ passed ↦ true | _ ↦ false ]) && text_eq (level_name q.level) level) ≡ true
        → (q.outcome ≡ passed) × (level_name q.level ≡ level)
    go passed e k = (e, (text_eq_iff (level_name q.level) level).0 k)
    go failed e k = cc
    go unavailable e k = cc

require_qualification-IsQualified :
    (id_lt : ℕ → ℕ → Bool) (qs : List Qualification) (i head : ℕ) (level : Text)
    → require_qualification (some level) (qualification_view head (latest_qualification id_lt i qs))
      ≡ ok tt
    → IsQualified qs i head level
unfolding require_qualification qualification_view
require_qualification-IsQualified id_lt qs i head level h =
    go (latest_qualification id_lt i qs) refl h
  where
    go :
        (o : Option Qualification)
        → latest_qualification id_lt i qs ≡ o
        → require_qualification (some level) (qualification_view head o) ≡ ok tt
        → IsQualified qs i head level
    go none e k = cc
    go (some q) e k =
        let view : View = record { qualification = some q; stale = not (q.revision == head) } in
        let (u, e₁, h₁) = >>=-eq-ok (require (passes_at level view) qualification_failure) _ k in
        let gate : passes_at level view ≡ true = require-eq-ok (passes_at level view) _ e₁ in
        let fresh : not (not (q.revision == head)) ≡ true = require-eq-ok _ _ h₁ in
        let (m, own) = latest_qualification-Mem id_lt i qs q e in
        let (outcome, named) = passes_at-eq-true level q view.stale gate in
        record {
          row = q;
          stored = m;
          candidate = own;
          revision = ground arith;
          outcome = outcome;
          at_level = named;
        }

module _ {F : Type 0} where
  -- A publication that requires a level returns only if a qualification of this candidate at that
  -- level passed, on the very revision that is published.
  pub publish-IsQualified :
      (id_lt : ℕ → ℕ → Bool) (s s' : Store F) (project : Text) (i : ℕ) (branch level : Text)
      (expected_base expected : Option ℕ)
      → publish id_lt s project i branch (some level) expected_base expected ≡ ok s'
      → (c : Candidate) × (find_candidate i s.candidates ≡ some c)
        × IsQualified s.qualifications i c.head level
  publish-IsQualified id_lt s s' project i branch level expected_base expected h =
      let (c, p, at, o, q, e, t) =
        publish-eq-ok id_lt s s' project i branch (some level) expected_base expected h in
      let same : c.id ≡ i = find_candidate-id i c s.candidates at in
      (
        c,
        at,
        subst (λ k. IsQualified s.qualifications k c.head level) same
            (require_qualification-IsQualified id_lt s.qualifications c.id c.head level q),
      )

  -- A publication from the candidate's own base loses nothing: the branch's new head descends
  -- from its old head by first parents.
  pub publish_keeps_history :
      (id_lt : ℕ → ℕ → Bool) (s s' : Store F) (project : Text) (i : ℕ) (branch : Text)
      (level : Option Text) (expected : Option ℕ)
      → IsConsistent s
      → publish id_lt s project i branch level none expected ≡ ok s'
      → (p old new : ℕ) × (project_id s.db project ≡ ok p)
        × (find_branch p branch s.db.branches ≡ some old)
        × (find_branch p branch s'.db.branches ≡ some new)
        × Ancestor s'.db old new
  publish_keeps_history id_lt s s' project i branch level expected k h =
      let (c, x) = publish_advances id_lt s s' project i branch level none expected h in
      (
        x.p,
        c.base,
        c.head,
        x.named,
        x.before,
        x.after,
        Ancestor-Keeps (Keeps-same s.db s'.db x.revisions) (k.based i c x.loaded).descends,
      )

  publish_transaction_race :
      (s : Store F) (p i head : ℕ) (branch : Text) (base other : ℕ)
      → find_branch p branch s.db.branches ≡ some other
      → other ≢ base
      → publish_transaction s p i head branch base ≡ err (validation publication_race)
  unfolding publish_transaction
  publish_transaction_race s p i head branch base other h ne =
      let differ : (other == base) ≡ false = ground arith in rw (h, differ) refl

  -- Of two candidates that require the same base only the first is published: once a candidate
  -- whose head is not that base is on the branch, a publication of any candidate there that
  -- requires it fails as a race, if it passes its own checks: the candidate is open, and its
  -- expected head and its qualification are as required.
  pub publish_race :
      (id_lt : ℕ → ℕ → Bool) (s s' : Store F) (project : Text) (i : ℕ) (branch : Text)
      (level : Option Text) (expected_base expected : Option ℕ) (c : Candidate) (j : ℕ)
      (level₂ : Option Text) (expected_base₂ expected₂ : Option ℕ) (d : Candidate)
      → publish id_lt s project i branch level expected_base expected ≡ ok s'
      → find_candidate i s.candidates ≡ some c
      → c.head ≢ required_base expected_base c
      → require_open s' project j ≡ ok d
      → require_expected_head d.head expected₂ stale_revision ≡ ok tt
      → require_qualification level₂
          (qualification_view d.head (latest_qualification id_lt d.id s'.qualifications))
        ≡ ok tt
      → required_base expected_base₂ d ≡ required_base expected_base c
      → publish id_lt s' project j branch level₂ expected_base₂ expected₂
        ≡ err (validation publication_race)
  unfolding publish
  publish_race id_lt s s' project i branch level expected_base expected c j level₂ expected_base₂
        expected₂ d h at ne o e q same =
      let (c', x) = publish_advances id_lt s s' project i branch level expected_base expected h in
      let found : c' ≡ c = cc in
      let moved : find_branch x.p branch s'.db.branches ≡ some c.head =
        x.after ∙ ap (λ k. some k.head) found in
      let named : project_id s'.db project ≡ ok x.p =
        project_id-projects s.db s'.db project x.projects ∙ x.named in
      let raced =
        publish_transaction_race s' x.p d.id d.head branch (required_base expected_base₂ d) c.head
          moved (subst (λ b. c.head ≢ b) (sym same) ne) in
      rw o (rw e (rw q (rw named raced)))
