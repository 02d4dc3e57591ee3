-- ===== src/Candidate/Rows.antt =====
-- What the statements on candidates leave in the table.
use weave_jacquard.Prelude.{
  ℕ, ◌≡◌, refl, Bool, true, false, ◌==◌, ◌⊎◌, inl, inr, none, some, List, [], ◌∷◌, arith,
  Bool-cases,
}
use weave_jacquard.Error.{Result, ok, err, ◌>>=◌, ◌>>◌}
use weave_jacquard.Revision.Database.{Revision, constraint}
use weave_jacquard.Candidate.Table.{
  Candidate, Store, find_candidate, has_open, owns_revisions, insert_candidate, update_candidate,
}

-- The row after an update, of the row before it.
pub record IsUpdate {F : Type 0} (vs : List (Revision F)) (test : Candidate → Bool)
    (change : Candidate → Candidate) (c c' : Candidate) : Type 0 where
  pub passes : test c ≡ true
  pub owned : owns_revisions vs (change c) ≡ true
  pub changed : c' ≡ change c

module _ {F : Type 0} (vs : List (Revision F)) (i : ℕ) (test : Candidate → Bool)
    (change : Candidate → Candidate) (keeps_id : (c : Candidate) → (change c).id ≡ c.id) where
  -- An update of the table of candidates, one row at a time.
  pub data Update : List Candidate → List Candidate → Bool → Type 0 where
    at_end : Update [] [] false
    changed :
        {c : Candidate} {cs : List Candidate}
        → (c.id == i) ≡ true
        → test c ≡ true
        → owns_revisions vs (change c) ≡ true
        → Update (c ∷ cs) (change c ∷ cs) true
    refused :
        {c : Candidate} {cs : List Candidate}
        → (c.id == i) ≡ true
        → test c ≡ false
        → Update (c ∷ cs) (c ∷ cs) false
    further :
        {c : Candidate} {cs cs' : List Candidate} {updated : Bool}
        → (c.id == i) ≡ false
        → Update cs cs' updated
        → Update (c ∷ cs) (c ∷ cs') updated

  changed-eq-ok :
      (b : Bool) (c : Candidate) (cs cs' : List Candidate) (updated : Bool)
      → ◌>>◌ {Y = List Candidate × Bool} (constraint b) (ok (c ∷ cs, true)) ≡ ok (cs', updated)
      → (b ≡ true) × (cs' ≡ c ∷ cs) × (updated ≡ true)
  changed-eq-ok true c cs cs' updated h = (refl, cc, cc)
  changed-eq-ok false c cs cs' updated h = cc

  further-eq-ok :
      (m : Result (List Candidate × Bool)) (c : Candidate) (cs' : List Candidate) (updated : Bool)
      → ◌>>=◌ {Y = List Candidate × Bool} m (λ (rest, n). ok (c ∷ rest, n)) ≡ ok (cs', updated)
      → (rest : List Candidate) × (m ≡ ok (rest, updated)) × (cs' ≡ c ∷ rest)
  further-eq-ok (ok (rest, n)) c cs' updated h =
      let same : n ≡ updated = cc in (rest, rw same refl, cc)
  further-eq-ok (err e) c cs' updated h = cc

  pub update_candidate-Update :
      (cs cs' : List Candidate) (updated : Bool)
      → update_candidate vs i test change cs ≡ ok (cs', updated)
      → Update cs cs' updated
  unfolding update_candidate
  update_candidate-Update [] cs' updated h =
      let empty : cs' ≡ [] = cc in
      let none_updated : updated ≡ false = cc in rw (empty, none_updated) at_end
  update_candidate-Update (c ∷ cs) cs' updated h = elim (Bool-cases (c.id == i)) [
    | inl here ↦ elim (Bool-cases (test c)) [
      | inl passes ↦
          let (owned, left, done) =
            changed-eq-ok (owns_revisions vs (change c)) (change c) cs cs' updated
              (rw (here, passes) at h) in
          rw (left, done) (changed here passes owned)
      | inr fails ↦
          let kept : ◌≡◌ {A = Result (List Candidate × Bool)} (ok (c ∷ cs, false))
              (ok (cs', updated)) =
            rw (here, fails) at h in
          let left : cs' ≡ c ∷ cs = cc in
          let done : updated ≡ false = cc in rw (left, done) (refused here fails)
    ]
    | inr other ↦
        let (rest, e, left) =
          further-eq-ok (update_candidate vs i test change cs) c cs' updated (rw other at h) in
        rw left (further other (update_candidate-Update cs rest updated e))
  ]

  -- A row that is found is found after the update, as it was or changed.
  pub Update-find :
      {cs cs' : List Candidate} {updated : Bool} (j : ℕ) (c : Candidate)
      → Update cs cs' updated
      → find_candidate j cs ≡ some c
      → (find_candidate j cs' ≡ some c)
        ⊎ ((j ≡ i) × (updated ≡ true) × (test c ≡ true) × (find_candidate j cs' ≡ some (change c)))
  unfolding find_candidate
  Update-find j c at_end h = cc
  Update-find j c (changed {c = d} here passes owned) h = ground (arith, keeps_id d)
  Update-find j c (refused here fails) h = inl h
  Update-find j c (further {c = d} {cs} {cs'} other u) h = ground (arith, Update-find j c u)

  -- The row of the update is changed if it passes the test.
  pub Update-at :
      {cs cs' : List Candidate} {updated : Bool} (c : Candidate)
      → Update cs cs' updated
      → find_candidate i cs ≡ some c
      → test c ≡ true
      → find_candidate i cs' ≡ some (change c)
  unfolding find_candidate
  Update-at c at_end h t = cc
  Update-at c (changed {c = d} here passes owned) h t = ground (arith, keeps_id d)
  Update-at c (refused {c = d} here fails) h t = ground arith
  Update-at c (further {c = d} other u) h t = ground (arith, Update-at c u)

  -- A row that is found after the update was there before it, as it is or to be changed.
  pub Update-found :
      {cs cs' : List Candidate} {updated : Bool} (j : ℕ) (c' : Candidate)
      → Update cs cs' updated
      → find_candidate j cs' ≡ some c'
      → (find_candidate j cs ≡ some c')
        ⊎ ((j ≡ i)
            × (updated ≡ true)
            × (c : Candidate) × (find_candidate j cs ≡ some c)
            × IsUpdate vs test change c c')
  unfolding find_candidate
  Update-found j c' at_end h = cc
  Update-found j c' (changed {c = d} here passes owned) h = elim (Bool-cases (d.id == j)) [
    | inl at ↦ inr (
      ground arith,
      refl,
      d,
      rw at refl,
      record { passes = passes; owned = owned; changed = ground (arith, keeps_id d) },
    )
    | inr other ↦ inl (ground (arith, keeps_id d))
  ]
  Update-found j c' (refused here fails) h = inl h
  Update-found j c' (further {c = d} {cs} {cs'} other u) h = elim (Bool-cases (d.id == j)) [
    | inl at ↦ inl (ground arith)
    | inr away ↦ elim (Update-found j c' u (ground arith)) [
      | inl same ↦ inl (rw away same)
      | inr (at, done, c, e, up) ↦ inr (at, done, c, rw away e, up)
    ]
  ]

module _ {F : Type 0} where
  pub insert_candidate-eq-ok :
      (c : Candidate) (s s' : Store F)
      → insert_candidate c s ≡ ok s'
      → (owns_revisions s.db.revisions c ≡ true)
        × (find_candidate c.id s.candidates ≡ none)
        × (has_open c.project c.name s.candidates ≡ false)
        × (s' ≡ record s { candidates = c ∷ s.candidates })
  unfolding insert_candidate
  insert_candidate-eq-ok c s s' h = ground arith

pub find_candidate-cons :
    (i : ℕ) (c d : Candidate) (cs : List Candidate)
    → find_candidate c.id cs ≡ none
    → find_candidate i cs ≡ some d
    → find_candidate i (c ∷ cs) ≡ some d
unfolding find_candidate
find_candidate-cons i c d cs new h = elim (Bool-cases (c.id == i)) [
  | inl at ↦ let same : c.id ≡ i = ground arith in cc
  | inr away ↦ rw away h
]

pub find_candidate-first :
    (i : ℕ) (c d : Candidate) (cs : List Candidate)
    → find_candidate i (c ∷ cs) ≡ some d
    → (d ≡ c) ⊎ (find_candidate i cs ≡ some d)
unfolding find_candidate
find_candidate-first i c d cs h = ground arith
