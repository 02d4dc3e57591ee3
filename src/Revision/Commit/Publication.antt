-- ===== src/Revision/Commit/Publication.antt =====
-- `_commit` under expected heads is a compare-and-set: what it publishes, and when it refuses.
use weave_jacquard.Prelude.{ℕ, suc, ◌≡◌, ◌⊎◌, inl, refl, some, List, [], ◌∷◌, arith, ==-refl}
use weave_jacquard.Prelude.Text.{Text, text_eq_iff, text_eq_refl}
use weave_jacquard.Error.{Code, Result, ok, err, validation, ◌>>=◌, >>=-eq-ok, >>=-congr}
use weave_jacquard.Revision.Database.{
  Branch, Database, find_branch, insert_revision, update_head, draw,
}
use weave_jacquard.Revision.Database.Sound.{insert_revision-eq-ok}
use weave_jacquard.Revision.Commit.{
  Request, project_id, first_parent, check_heads, check_expected, advance_head, published, transact,
  commit,
}

-- Every branch that the list names stands at the head that it names.
abbrev pub AllHeads : {F : Type 0} → Database F → ℕ → List (Text × ℕ) → Type 0
AllHeads db p [] = Unit
AllHeads db p ((branch, head) ∷ more) =
    (find_branch p branch db.branches ≡ some head) × AllHeads db p more

-- The row that matches is moved, and no other.
pub find_branch-update_head :
    (p : ℕ) (name : Text) (e new : ℕ) (bs : List Branch)
    → find_branch p name bs ≡ some e
    → find_branch p name (update_head p name (some e) new bs) ≡ some new
unfolding find_branch update_head
find_branch-update_head p name e new [] h = cc
find_branch-update_head p name e new (b ∷ bs) h =
    ground (arith, find_branch-update_head p name e new bs)

pub find_branch-update_head_other :
    (p : ℕ) (name : Text) (e new : ℕ) (bs : List Branch) (q : ℕ) (other : Text)
    → ((q ≡ p) × (other ≡ name) → ⊥)
    → find_branch q other (update_head p name (some e) new bs) ≡ find_branch q other bs
unfolding find_branch update_head
find_branch-update_head_other p name e new [] q other h = refl
find_branch-update_head_other p name e new (b ∷ bs) q other h = ground (
  arith,
  find_branch-update_head_other p name e new bs q other,
  text_eq_iff b.name name,
  text_eq_iff b.name other,
)

module _ {F : Type 0} where
  pub check_heads-AllHeads :
      (db : Database F) (p : ℕ) (heads : List (Text × ℕ)) (stale : Code)
      → check_heads db p heads stale ≡ ok tt
      → AllHeads db p heads
  unfolding check_heads
  check_heads-AllHeads db p [] stale h = tt
  check_heads-AllHeads db p ((b, e) ∷ more) stale h =
      ground (arith, check_heads-AllHeads db p more stale)

  pub AllHeads-check_heads :
      (db : Database F) (p : ℕ) (heads : List (Text × ℕ)) (stale : Code)
      → AllHeads db p heads
      → check_heads db p heads stale ≡ ok tt
  unfolding check_heads
  AllHeads-check_heads db p [] stale h = refl
  AllHeads-check_heads db p ((b, e) ∷ more) stale h =
      rw h.0 (rw ==-refl (AllHeads-check_heads db p more stale h.1))

  pub check_heads-cases :
      (db : Database F) (p : ℕ) (heads : List (Text × ℕ)) (stale : Code)
      → (check_heads db p heads stale ≡ ok tt)
        ⊎ (check_heads db p heads stale ≡ err (validation stale))
  unfolding check_heads
  check_heads-cases db p [] stale = inl refl
  check_heads-cases db p ((b, e) ∷ more) stale = ground (arith, check_heads-cases db p more stale)

  -- The database after a publication that replaced `base` as the head of the branch.
  abbrev pub after_publication : Database F → ℕ → Text → ℕ → Request F → Database F
  after_publication db p branch base req = record db {
    branches = update_head p branch (some base) db.next db.branches;
    revisions = published db p base req ∷ db.revisions;
    next = suc db.next;
  }

  -- A request that names the head of the branch that it publishes to, first.
  abbrev pub Names : Text → ℕ → List (Text × ℕ) → Request F → Type 0
  Names branch base more req = req.expected ≡ some ((branch, base) ∷ more)

  advance_head-eq-ok :
      (db db' : Database F) (p : ℕ) (branch : Text) (base i : ℕ) (heads : List (Text × ℕ))
      (stale : Code)
      → advance_head db p branch base i (some heads) stale ≡ ok db'
      → db' ≡ record db { branches = update_head p branch (some base) i db.branches }
  unfolding advance_head
  advance_head-eq-ok db db' p branch base i heads stale h = ground arith

  first_parent-Names :
      (db : Database F) (project branch : Text) (base : ℕ) (more : List (Text × ℕ))
      → first_parent db project branch (some ((branch, base) ∷ more)) ≡ ok base
  unfolding first_parent
  first_parent-Names db project branch base more = ground (arith, text_eq_refl branch)

  inserted :
      (db d db' : Database F) (p : ℕ) (branch : Text) (base i : ℕ) (heads : List (Text × ℕ))
      (req : Request F)
      → insert_revision (published db p base req) (draw db).1 ≡ ok d
      → ◌>>=◌ {Y = ℕ × Database F}
          (advance_head d p branch base db.next (some heads) req.stale)
          (λ d'. ok (db.next, d'))
        ≡ ok (i, db')
      → (i ≡ db.next) × (db' ≡ after_publication db p branch base req)
  inserted db d db' p branch base i heads req e h =
      let (d', e', k) =
        >>=-eq-ok (advance_head d p branch base db.next (some heads) req.stale) _ h in
      finished d' (insert_revision-eq-ok (published db p base req) (draw db).1 d e).4
        (advance_head-eq-ok d d' p branch base db.next heads req.stale e') k
    where
      finished :
          (d' : Database F)
          → d ≡ record db { revisions = published db p base req ∷ db.revisions; next = suc db.next }
          → d' ≡ record d { branches = update_head p branch (some base) db.next d.branches }
          → ◌≡◌ {A = Result (ℕ × Database F)} (ok (db.next, d')) (ok (i, db'))
          → (i ≡ db.next) × (db' ≡ after_publication db p branch base req)
      finished d' at_d at_d' k = (cc, cc)

  -- What a successful transaction under expected heads found, and what it left.
  pub transact-eq-ok :
      (db db' : Database F) (p : ℕ) (branch : Text) (base i : ℕ) (heads : List (Text × ℕ))
      (req : Request F)
      → req.expected ≡ some heads
      → transact db p branch base req ≡ ok (i, db')
      → AllHeads db p heads × (i ≡ db.next) × (db' ≡ after_publication db p branch base req)
  unfolding transact check_expected
  transact-eq-ok db db' p branch base i heads req n h =
      let (u, checked, h₁) = >>=-eq-ok (check_heads (draw db).1 p heads req.stale) _ (rw n at h) in
      let (d, e, h₂) = >>=-eq-ok (insert_revision (published db p base req) (draw db).1) _ h₁ in
      let (number, result) = inserted db d db' p branch base i heads req e h₂ in
      (check_heads-AllHeads (draw db).1 p heads req.stale checked, number, result)

  pub transact_stale :
      (db : Database F) (p : ℕ) (branch : Text) (base : ℕ) (heads : List (Text × ℕ))
      (req : Request F)
      → req.expected ≡ some heads
      → check_heads (draw db).1 p heads req.stale ≡ err (validation req.stale)
      → transact db p branch base req ≡ err (validation req.stale)
  unfolding transact check_expected
  transact_stale db p branch base heads req n h = rw n (rw h)

  -- Under expected heads, `_commit` is its transaction over the head that is named first.
  pub commit-Names :
      (db : Database F) (project branch : Text) (base : ℕ) (more : List (Text × ℕ))
      (req : Request F)
      → Names branch base more req
      → commit db project branch req
        ≡ (project_id db project >>= λ p. transact db p branch base req)
  unfolding commit
  commit-Names db project branch base more req n =
      >>=-congr (project_id db project) _ _
        λ p. rw (n, first_parent-Names db project branch base more)
