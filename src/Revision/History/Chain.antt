-- ===== src/Revision/History/Chain.antt =====
-- On sound tables a page of history is a chain of first parents, and no cycle is ever reported.
use weave_jacquard.Prelude.{
  ℕ, zero, suc, ◌<◌, ◌≤◌, ◌≡◌, refl, sym, ap, true, false, ◌==◌, ◌&&◌, leb, Option, none, some,
  List, [], ◌∷◌, arith, All, length, Bool-cases, ◌⊎◌, inl, inr,
}
use weave_jacquard.Prelude.Text.{Text}
use weave_jacquard.Prelude.Int.{pos}
use weave_jacquard.Error.{ok}
use weave_jacquard.Limits.{integer, require_bounded_int, max_branch_history_page_size}
use weave_jacquard.Revision.Database.{Revision, Database, find_branch, find_revision, belongs}
use weave_jacquard.Revision.Database.Sound.{IsSound, IsLinked, IsOlder}
use weave_jacquard.Revision.Commit.{project_id}
use weave_jacquard.Revision.Commit.Success.{find_branch-belongs}
use weave_jacquard.Revision.Workspace.Edits.{find_branch-branch_head}
use weave_jacquard.Revision.History.{Page, history_loop, history_page, seen_before}

module _ {F : Type 0} where
  -- The stored revisions in turn, each the first parent of the one before; `next` comes after.
  abbrev pub Chain : Database F → Option ℕ → List (Revision F) → Option ℕ → Type 0
  Chain db current [] next = current ≡ next
  Chain db current (v ∷ vs) next =
      (current ≡ some v.id)
      × (find_revision v.id db.revisions ≡ some v)
      × Chain db v.parent1 vs next

  -- A page with room left shows the whole history.
  abbrev pub Fills : ℕ → List (Revision F) → Option ℕ → Type 0
  Fills room vs next = (length vs ≤ room) × ((next ≡ none) ⊎ (length vs ≡ room))

  pub find_revision-id :
      (i : ℕ) (vs : List (Revision F)) (v : Revision F) → find_revision i vs ≡ some v → v.id ≡ i
  unfolding find_revision
  find_revision-id i [] v h = cc
  find_revision-id i (u ∷ us) v h = ground (arith, find_revision-id i us v)

  pub find_revision-link :
      (i : ℕ) (all vs : List (Revision F)) (v : Revision F)
      → All (λ u. IsLinked all u) vs
      → find_revision i vs ≡ some v
      → IsLinked all v
  unfolding find_revision
  find_revision-link i all [] v l h = cc
  find_revision-link i all (u ∷ us) v l h = elim (Bool-cases (u.id == i)) [
    | inl e ↦ let same : u ≡ v = ground arith in rw (← same) l.0
    | inr e ↦ find_revision-link i all us v l.1 (ground arith)
  ]

  pub belongs-found :
      (p i : ℕ) (vs : List (Revision F))
      → belongs vs p i ≡ true
      → (v : Revision F) × (find_revision i vs ≡ some v) × (v.project ≡ p)
  unfolding belongs
  belongs-found p i vs h = go (find_revision i vs) refl
    where
      go :
          (o : Option (Revision F))
          → find_revision i vs ≡ o
          → (v : Revision F) × (find_revision i vs ≡ some v) × (v.project ≡ p)
      go none e = cc
      go (some v) e = (v, e, ground arith)

pub not_seen : (i : ℕ) (seen : List ℕ) → All (λ j. i < j) seen → seen_before i seen ≡ false
not_seen i [] h = refl
not_seen i (j ∷ seen) h = ground (arith, not_seen i seen)

pub older : (i j : ℕ) (seen : List ℕ) → j < i → All (λ k. i < k) seen → All (λ k. j < k) seen
older i j [] h a = tt
older i j (k ∷ seen) h a = (omega arith, older i j seen h a.1)

module _ {F : Type 0} (db : Database F) (s : IsSound db) (p : ℕ) where
  -- The revision to come exists, and is older than all that the loop has seen.
  abbrev Ready : Option ℕ → List ℕ → Type 0
  Ready none seen = Unit
  Ready (some i) seen = (belongs db.revisions p i ≡ true) × All (λ j. i < j) seen

  parent-Ready :
      (parent : Option ℕ) (v : Revision F) (seen : List ℕ)
      → v.project ≡ p
      → IsOlder db.revisions v.project v.id parent
      → All (λ j. v.id < j) seen
      → Ready parent (v.id ∷ seen)
  parent-Ready none v seen vp o a = tt
  parent-Ready (some q) v seen vp o a = (rw (← vp) o.1, (o.0, older v.id q seen o.0 a))

  history_step :
      (room i : ℕ) (seen : List ℕ) (v : Revision F) (vs : List (Revision F)) (next : Option ℕ)
      → find_revision i db.revisions ≡ some v
      → seen_before i seen ≡ false
      → history_loop db room v.parent1 (i ∷ seen) ≡ ok (vs, next)
      → history_loop db (suc room) (some i) seen ≡ ok (v ∷ vs, next)
  unfolding history_loop
  history_step room i seen v vs next at new run = ground arith

  history_loop-Chain :
      (room : ℕ) (current : Option ℕ) (seen : List ℕ)
      → Ready current seen
      → (vs : List (Revision F)) × (next : Option ℕ) × (history_loop db room current seen
          ≡ ok (vs, next))
        × Chain db current vs next
        × Fills room vs next
  unfolding history_loop
  history_loop-Chain zero current seen h = ([], current, refl, refl, (omega arith, inr refl))
  history_loop-Chain (suc room) none seen h = ([], none, refl, refl, (omega arith, inl refl))
  history_loop-Chain (suc room) (some i) seen h =
      let (v, at, vp) = belongs-found p i db.revisions h.0 in
      let link = find_revision-link i db.revisions db.revisions v s.links at in
      let same = find_revision-id i db.revisions v at in
      let ready = parent-Ready v.parent1 v seen vp link.first (rw same h.1) in
      let (vs, next, run, chain, fills) = history_loop-Chain room v.parent1 (v.id ∷ seen) ready in
      (
        v ∷ vs,
        next,
        history_step room i seen v vs next at (not_seen i seen h.1) (rw same at run),
        (ap some (sym same), rw same at, chain),
        (omega arith, Fills-suc fills.1),
      )
    where
      Fills-suc : {n m : ℕ} {o : Option ℕ} → (o ≡ none) ⊎ (n ≡ m) → (o ≡ none) ⊎ (suc n ≡ suc m)
      Fills-suc (inl e) = inl e
      Fills-suc (inr e) = inr (omega arith)

  -- On sound tables, a page of a branch's history within the bounds of its size is returned, and
  -- no cycle is reported: its entries are the stored revisions from the head on, each the first
  -- parent of the one before, and unless the page is full it goes back to a first revision.
  pub history_page-Chain :
      (project branch : Text) (head limit : ℕ)
      → project_id db project ≡ ok p
      → find_branch p branch db.branches ≡ some head
      → 1 ≤ limit
      → limit ≤ max_branch_history_page_size
      → (page : Page F) × (history_page db project branch (integer (pos limit)) ≡ ok page)
        × (page.head ≡ head)
        × Chain db (some head) page.revisions page.next_revision
        × Fills limit page.revisions page.next_revision
  unfolding history_page require_bounded_int
  history_page-Chain project branch head limit e h low high =
      let ready = find_branch-belongs db.revisions p branch head db.branches s.heads h in
      let (vs, next, run, chain, fills) = history_loop-Chain limit (some head) [] (ready, tt) in
      let bounds : (leb 1 limit && leb limit max_branch_history_page_size) ≡ true = ground arith in
      (
        record { head = head; revisions = vs; next_revision = next },
        rw bounds (rw (find_branch-branch_head db project branch p head e h) (rw run)),
        refl,
        chain,
        fills,
      )
