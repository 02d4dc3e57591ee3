-- ===== src/Revision/Commit/CompareAndSet.antt =====
-- What a caller may rely on when `_commit` names the heads that it saw.
use weave_jacquard.Prelude.{ℕ, ◌≡◌, ◌≢◌, inl, inr, refl, ◌∙◌, some, List, ◌∷◌, ==-refl}
use weave_jacquard.Prelude.Text.{Text}
use weave_jacquard.Error.{ok, err, validation, >>=-eq-ok}
use weave_jacquard.Revision.Database.{Revision, Database, find_revision, find_branch, draw}
use weave_jacquard.Revision.Database.Sound.{find_revision-cons}
use weave_jacquard.Revision.Commit.{Request, project_id, published, commit}
use weave_jacquard.Revision.Commit.Publication.{
  AllHeads, Names, after_publication, commit-Names, transact-eq-ok, transact_stale,
  check_heads-cases, check_heads-AllHeads, find_branch-update_head, find_branch-update_head_other,
}

-- What a publication of `req` on a branch at `base` leaves, with `i` the new revision.
pub record IsPublished {F : Type 0} (db db' : Database F) (p : ℕ) (branch : Text) (base i : ℕ)
    (req : Request F) : Type 0 where
  -- the branch stands at the new revision, which records what was asked for
  pub head : find_branch p branch db'.branches ≡ some i
  pub stored : find_revision i db'.revisions ≡ some (published db p base req)
  pub fresh : i ≡ db.next
  -- nothing else has changed
  pub other_heads :
      (q : ℕ) (other : Text)
      → ((q ≡ p) × (other ≡ branch) → ⊥)
      → find_branch q other db'.branches ≡ find_branch q other db.branches
  pub other_revisions :
      (j : ℕ) → j ≢ i → find_revision j db'.revisions ≡ find_revision j db.revisions
  pub projects : db'.projects ≡ db.projects

module _ {F : Type 0} where
  pub find_revision_self :
      (v : Revision F) (vs : List (Revision F)) → find_revision v.id (v ∷ vs) ≡ some v
  unfolding find_revision
  find_revision_self v vs = rw ==-refl

  after-IsPublished :
      (db : Database F) (p : ℕ) (branch : Text) (base : ℕ) (req : Request F)
      → find_branch p branch db.branches ≡ some base
      → IsPublished db (after_publication db p branch base req) p branch base db.next req
  after-IsPublished db p branch base req h = record {
    head = find_branch-update_head p branch base db.next db.branches h;
    stored = find_revision_self (published db p base req) db.revisions;
    fresh = refl;
    other_heads = find_branch-update_head_other p branch base db.next db.branches;
    other_revisions = λ j ne. find_revision-cons j (published db p base req) db.revisions ne;
    projects = refl;
  }

  -- A publication that names the head of its branch and perhaps others: if it succeeds, each of
  -- those branches stood at the head named, the branch now stands at a new revision that holds
  -- exactly what was asked for over the named head, and every other branch and every earlier
  -- revision is as it was.
  pub commit_publishes :
      (db db' : Database F) (project branch : Text) (base i : ℕ) (more : List (Text × ℕ))
      (req : Request F)
      → Names branch base more req
      → commit db project branch req ≡ ok (i, db')
      → (p : ℕ) × (project_id db project ≡ ok p)
        × AllHeads db p ((branch, base) ∷ more)
        × IsPublished db db' p branch base i req
  commit_publishes db db' project branch base i more req n h =
      let (p, e₁, h₂) =
        >>=-eq-ok (project_id db project) _
          (rw (commit-Names db project branch base more req n) at h) in
      let (heads, number, after) =
        transact-eq-ok db db' p branch base i ((branch, base) ∷ more) req n h₂ in
      (p, e₁, heads, rw (number, after) (after-IsPublished db p branch base req heads.0))

  -- If one of the branches named does not stand at the head named for it, the publication fails
  -- with the code that the request gives for a stale head.
  pub commit_stale :
      (db : Database F) (project branch : Text) (base p : ℕ) (more : List (Text × ℕ))
      (req : Request F)
      → Names branch base more req
      → project_id db project ≡ ok p
      → ¬ AllHeads db p ((branch, base) ∷ more)
      → commit db project branch req ≡ err (validation req.stale)
  commit_stale db project branch base p more req n e stale =
      let heads = (branch, base) ∷ more in
      elim (check_heads-cases (draw db).1 p heads req.stale) [
        | inl checked ↦ absurd (stale (check_heads-AllHeads (draw db).1 p heads req.stale checked))
        | inr refused ↦
            commit-Names db project branch base more req n
            ∙ rw e (transact_stale db p branch base heads req n refused)
      ]
