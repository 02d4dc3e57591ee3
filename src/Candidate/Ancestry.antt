-- ===== src/Candidate/Ancestry.antt =====
-- The edits of a candidate lie on a chain of first parents from its head to its base, which
-- `_edit_history` walks.
use weave_jacquard.Prelude.{
  ℕ, zero, suc, ◌<◌, ◌≡◌, ◌≢◌, refl, subst, true, false, ◌==◌, Option, none, some, List, [], ◌∷◌,
  arith, All, Bool-cases, inl, inr, reverse, ==-refl,
}
use weave_jacquard.Error.{Result, ok, err, not_found}
use weave_jacquard.Revision.Database.{Revision, Database, find_revision, belongs}
use weave_jacquard.Revision.Database.Sound.{IsSound, IsOlder}
use weave_jacquard.Revision.Dag.{parents_of}
use weave_jacquard.Revision.History.{seen_before}
use weave_jacquard.Revision.History.Chain.{
  find_revision-link, find_revision-id, belongs-found, not_seen, older,
}
use weave_jacquard.Revision.Reachable.{Keeps}
use weave_jacquard.Candidate.{Edit, edit_at, operations_of, edit_loop, edit_history}

-- `base` is reached from the revision by first parents.
pub data Ancestor {F : Type 0} (db : Database F) (base : ℕ) : ℕ → Type 0 where
  here : Ancestor db base base
  over :
      {i p : ℕ} {v : Revision F}
      → find_revision i db.revisions ≡ some v
      → v.parent1 ≡ some p
      → Ancestor db base p
      → Ancestor db base i

module _ {F : Type 0} where
  -- What was stored keeps its ancestors.
  pub Ancestor-Keeps :
      {db db' : Database F} {base i : ℕ} → Keeps db db' → Ancestor db base i → Ancestor db' base i
  Ancestor-Keeps k here = here
  Ancestor-Keeps k (over {i} {v} e q a) = over (k i v e) q (Ancestor-Keeps k a)

  -- The first parent of a revision that is not the base.
  pub Ancestor-parent :
      {db : Database F} {base i p : ℕ} {v : Revision F}
      → base ≢ i
      → find_revision i db.revisions ≡ some v
      → v.parent1 ≡ some p
      → Ancestor db base i
      → Ancestor db base p
  Ancestor-parent ne e q here = absurd (ne refl)
  Ancestor-parent {db} {base} {p} {v} ne e q (over {p = p'} {v = v'} e' q' a) =
      let same : v ≡ v' = cc in let parent : p' ≡ p = cc in rw (← parent) a

  pub parents_of-eq-ok :
      (db : Database F) (i : ℕ) (parent second : Option ℕ)
      → parents_of db i ≡ ok (parent, second)
      → (v : Revision F) × (find_revision i db.revisions ≡ some v) × (v.parent1 ≡ parent)
  unfolding parents_of
  parents_of-eq-ok db i parent second h = go (find_revision i db.revisions) refl h
    where
      go :
          (o : Option (Revision F))
          → find_revision i db.revisions ≡ o
          → ◌≡◌ {A = Result (Option ℕ × Option ℕ)}
              (elim o [ some v ↦ ok (v.parent1, v.parent2) | none ↦ err not_found ])
              (ok (parent, second))
          → (v : Revision F) × (find_revision i db.revisions ≡ some v) × (v.parent1 ≡ parent)
      go none e k = cc
      go (some v) e k = (v, e, cc)

  pub belongs-Keeps :
      (db db' : Database F) (project i : ℕ)
      → Keeps db db'
      → belongs db.revisions project i ≡ true
      → belongs db'.revisions project i ≡ true
  unfolding belongs
  belongs-Keeps db db' project i k h =
      let (v, e, p) = belongs-found project i db.revisions h in
      let kept : find_revision i db'.revisions ≡ some v = k i v e in ground arith

  -- The chain of stored revisions from a head down to the first that is the base, the head first:
  -- each entry has the operations of its revision and its first parent, where the next goes on.
  abbrev pub EditChain : Database F → ℕ → ℕ → List Edit → Type 0
  EditChain db base head [] = head ≡ base
  EditChain db base head (e ∷ edits) =
      (e.revision ≡ head)
      × (head ≢ base)
      × (v : Revision F) × (p : ℕ) × (find_revision head db.revisions ≡ some v)
      × (v.parent1 ≡ some p)
      × (e.parent ≡ some p)
      × (e.operations ≡ v.operations)
      × EditChain db base p edits

  operations_of-stored :
      (db : Database F) (i : ℕ) (v : Revision F)
      → find_revision i db.revisions ≡ some v
      → operations_of db i ≡ v.operations
  operations_of-stored db i v e = rw (operations_of, e) refl

  -- One round of the loop.
  edit_step :
      (db : Database F) (base current p fuel : ℕ) (seen : List ℕ) (v : Revision F)
      (edits : List Edit)
      → (current == base) ≡ false
      → find_revision current db.revisions ≡ some v
      → v.parent1 ≡ some p
      → seen_before current seen ≡ false
      → edit_loop db fuel p base (current ∷ seen) ≡ ok edits
      → edit_loop db (suc fuel) current base seen ≡ ok (edit_at db current (some p) ∷ edits)
  unfolding edit_loop parents_of
  edit_step db base current p fuel seen v edits away at parent new run =
      let parents : parents_of db current ≡ ok (v.parent1, v.parent2) = rw (parents_of, at) refl in
      rw (away, new, parents, parent, run) refl

  parent-lt :
      (db : Database F) (i p : ℕ) (v : Revision F)
      → IsSound db
      → find_revision i db.revisions ≡ some v
      → v.parent1 ≡ some p
      → p < i
  parent-lt db i p v s e q =
      let linked = (find_revision-link i db.revisions db.revisions v s.links e).first in
      let bound : IsOlder db.revisions v.project v.id (some p) =
        subst (IsOlder db.revisions v.project v.id) q linked in
      omega (arith, bound.0, find_revision-id i db.revisions v e)

  -- Between a base and a revision that it is an ancestor of, the loop finds the chain.
  edit_loop-EditChain :
      (db : Database F) (base current fuel : ℕ) (seen : List ℕ)
      → IsSound db
      → Ancestor db base current
      → current < fuel
      → All (λ j. current < j) seen
      → (edits : List Edit) × (edit_loop db fuel current base seen ≡ ok edits)
        × EditChain db base current edits
  unfolding edit_loop
  edit_loop-EditChain db base current zero seen s a lt old = absurd (omega arith)
  edit_loop-EditChain db base current (suc fuel) seen s here lt old = ([], rw ==-refl refl, refl)
  edit_loop-EditChain db base current (suc fuel) seen s (over {p} {v} e q a) lt old =
      elim (Bool-cases (current == base)) [
        | inl at ↦ ([], rw at refl, ground arith)
        | inr away ↦
            let lt' = parent-lt db current p v s e q in
            let (edits, run, chain) =
              edit_loop-EditChain db base p fuel (current ∷ seen) s a (omega arith)
                (lt', older current p seen lt' old) in
            let round =
              edit_step db base current p fuel seen v edits away e q (not_seen current seen old)
                run in
            (
              edit_at db current (some p) ∷ edits,
              round,
              (
                refl,
                λ same. absurd (ground (arith, away)),
                v,
                p,
                e,
                q,
                refl,
                operations_of-stored db current v e,
                chain,
              ),
            )
      ]

  -- `_edit_history` of a head lists the chain of edits down to a base that is its ancestor, the
  -- first edit first; it never reports a cycle.
  pub edit_history-EditChain :
      (db : Database F) (base head : ℕ)
      → IsSound db
      → head < db.next
      → Ancestor db base head
      → (edits : List Edit) × (edit_history db head base ≡ ok (reverse edits))
        × EditChain db base head edits
  unfolding edit_history
  edit_history-EditChain db base head s lt a =
      let (edits, run, chain) =
        edit_loop-EditChain db base head (suc db.next) [] s a (omega arith) tt in
      (edits, rw run refl, chain)
