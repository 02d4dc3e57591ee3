-- ===== src/Candidate/Invariants.antt =====
-- What every transaction keeps: the tables are sound, a candidate's head descends from its base,
-- and a candidate that is closed stays as it is.
use weave_jacquard.Prelude.{
  ℕ, ◌≡◌, refl, sym, subst, Bool, true, false, inl, inr, some, List, arith,
}
use weave_jacquard.Prelude.Text.{Text}
use weave_jacquard.Revision.Database.{Revision, Database}
use weave_jacquard.Revision.Database.Sound.{IsSound}
use weave_jacquard.Revision.Reachable.{Keeps}
use weave_jacquard.Candidate.Table.{
  published, Candidate, Store, is_open, find_candidate, owns_revisions,
}
use weave_jacquard.Candidate.Rows.{Update, Update-find, Update-found}
use weave_jacquard.Candidate.Ancestry.{Ancestor, Ancestor-Keeps, belongs-Keeps}

-- The base and the head are revisions of the candidate's project, the head descends from the base,
-- and a published candidate was published at its head.
pub record IsBased {F : Type 0} (db : Database F) (c : Candidate) : Type 0 where
  pub owned : owns_revisions db.revisions c ≡ true
  pub descends : Ancestor db c.base c.head
  pub recorded : c.status ≡ published → (branch : Text) × (c.publication ≡ some (branch, c.head))

pub record IsConsistent {F : Type 0} (s : Store F) : Type 0 where
  pub sound : IsSound s.db
  pub based : (i : ℕ) (c : Candidate) → find_candidate i s.candidates ≡ some c → IsBased s.db c

-- What a candidate's row can become: another head while it is open, or closed; nothing once it is
-- closed.
pub record Continues (c c' : Candidate) : Type 0 where
  pub project : c'.project ≡ c.project
  pub name : c'.name ≡ c.name
  pub base : c'.base ≡ c.base
  pub closed : is_open c.status ≡ false → c' ≡ c

abbrev pub same-Continues : (c : Candidate) → Continues c c
same-Continues c = record { project = refl; name = refl; base = refl; closed = λ h. refl }

-- Every candidate of the first table is in the second, continued.
abbrev pub AllContinue : List Candidate → List Candidate → Type 0
AllContinue cs cs' =
    (i : ℕ) (c : Candidate)
    → find_candidate i cs ≡ some c
    → (c' : Candidate) × (find_candidate i cs' ≡ some c') × Continues c c'

module _ {F : Type 0} where
  owns-Keeps :
      (db db' : Database F) (c : Candidate)
      → Keeps db db'
      → owns_revisions db.revisions c ≡ true
      → owns_revisions db'.revisions c ≡ true
  owns-Keeps db db' c k h =
      let base = belongs-Keeps db db' c.project c.base k (ground arith) in
      let head = belongs-Keeps db db' c.project c.head k (ground arith) in rw (base, head) refl

  pub IsBased-Keeps :
      (db db' : Database F) (c : Candidate) → Keeps db db' → IsBased db c → IsBased db' c
  IsBased-Keeps db db' c k b = record {
    owned = owns-Keeps db db' c k b.owned;
    descends = Ancestor-Keeps k b.descends;
    recorded = b.recorded;
  }

  pub Update-IsBased :
      (db db' : Database F) (i : ℕ) (test : Candidate → Bool) (change : Candidate → Candidate)
      (keeps_id : (c : Candidate) → (change c).id ≡ c.id) (cs cs' : List Candidate) (updated : Bool)
      → Keeps db db'
      → ((j : ℕ) (c : Candidate) → find_candidate j cs ≡ some c → IsBased db c)
      → ((c : Candidate)
          → find_candidate i cs ≡ some c
          → test c ≡ true
          → owns_revisions db'.revisions (change c) ≡ true
          → IsBased db c
          → IsBased db' (change c))
      → Update db'.revisions i test change keeps_id cs cs' updated
      → (j : ℕ) (c' : Candidate) → find_candidate j cs' ≡ some c'
      → IsBased db' c'
  Update-IsBased db db' i test change keeps_id cs cs' updated k all step u j c' h =
      elim (Update-found db'.revisions i test change keeps_id j c' u h) [
        | inl same ↦ IsBased-Keeps db db' c' k (all j c' same)
        | inr (at, done, c, e, up) ↦
            let found : find_candidate i cs ≡ some c =
              subst (λ k. find_candidate k cs ≡ some c) at e in
            subst (IsBased db') (sym up.changed) (step c found up.passes up.owned (all j c e))
      ]

  pub Update-AllContinue :
      (vs : List (Revision F)) (i : ℕ) (test : Candidate → Bool) (change : Candidate → Candidate)
      (keeps_id : (c : Candidate) → (change c).id ≡ c.id) (cs cs' : List Candidate) (updated : Bool)
      → ((c : Candidate) → find_candidate i cs ≡ some c → test c ≡ true → Continues c (change c))
      → Update vs i test change keeps_id cs cs' updated
      → AllContinue cs cs'
  Update-AllContinue vs i test change keeps_id cs cs' updated step u j c h =
      elim (Update-find vs i test change keeps_id j c u h) [
        | inl same ↦ (c, same, same-Continues c)
        | inr (at, done, passes, e) ↦
            (change c, e, step c (subst (λ k. find_candidate k cs ≡ some c) at h) passes)
      ]
