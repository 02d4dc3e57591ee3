-- ===== src/Revision/Commit/Success.antt =====
-- On sound tables a publication against the current heads succeeds, and keeps them sound.
use weave_jacquard.Prelude.{
  ℕ, ◌<◌, ◌≡◌, refl, ◌∙◌, true, Option, none, some, List, [], ◌∷◌, arith, All, ==-refl, Bool,
  Bool-cases, inl, inr, ◌==◌, all,
}
use weave_jacquard.Prelude.Text.{Text}
use weave_jacquard.Error.{Code, ok, >>=-eq-ok}
use weave_jacquard.Sexpr.Node.{Node}
use weave_jacquard.Merge.States.{Documents, document_of}
use weave_jacquard.Revision.Database.{
  Project, Branch, Revision, Database, find_project, find_revision, find_branch, belongs,
  belongs_if_some, has_project, has_document, insert_revision, insert_snapshots, update_head,
  set_head, draw,
}
use weave_jacquard.Revision.Database.Sound.{
  IsSound, draw-IsSound, insert_revision-IsSound, set_head-IsSound,
}
use weave_jacquard.Revision.Commit.{
  Request, project_id, first_parent, advance_head, check_expected, published, transact, commit,
  or_not_found, union, documents_of,
}
use weave_jacquard.Revision.Commit.Publication.{
  AllHeads, Names, after_publication, commit-Names, AllHeads-check_heads,
}

module _ {F : Type 0} where
  pub find_branch-belongs :
      (vs : List (Revision F)) (p : ℕ) (name : Text) (h : ℕ) (bs : List Branch)
      → All (λ b. belongs vs b.project b.head ≡ true) bs
      → find_branch p name bs ≡ some h
      → belongs vs p h ≡ true
  unfolding find_branch
  find_branch-belongs vs p name h [] a e = cc
  find_branch-belongs vs p name h (b ∷ bs) a e = ground (arith, find_branch-belongs vs p name h bs)

  fresh_id : (n : ℕ) (vs : List (Revision F)) → All (λ v. v.id < n) vs → find_revision n vs ≡ none
  unfolding find_revision
  fresh_id n [] a = refl
  fresh_id n (v ∷ vs) a = ground (arith, fresh_id n vs)

find_project-has_project :
    (name : Text) (p : ℕ) (ps : List Project)
    → find_project name ps ≡ some p
    → has_project p ps ≡ true
unfolding find_project
find_project-has_project name p [] e = cc
find_project-has_project name p (q ∷ ps) e = ground (arith, find_project-has_project name p ps)

pub or_not_found-eq-ok {ℓ} :
    {A : Type ℓ} (o : Option A) (a : A) → or_not_found o ≡ ok a → o ≡ some a
or_not_found-eq-ok none a e = cc
or_not_found-eq-ok (some b) a e = cc

-- The trees of a state have distinct names, and the codec takes each.
abbrev pub Storable : {F : Type 0} → (Node F → Bool) → Documents F → Type 0
Storable compresses [] = Unit
Storable compresses ((name, tree) ∷ more) =
    (compresses tree ≡ true) × (document_of name more ≡ none) × Storable compresses more

all-union :
    (p : ℕ → Bool) (is js : List ℕ) → all p is ≡ true → all p js ≡ true → all p (union is js) ≡ true
unfolding union
all-union p [] js h k = k
all-union p (i ∷ is) js h k = ground (arith, all-union p is js)

module _ {F : Type 0} where
  Storable-insert_snapshots :
      (compresses : Node F → Bool) (state : Documents F)
      → Storable compresses state
      → insert_snapshots compresses state ≡ ok tt
  unfolding insert_snapshots
  Storable-insert_snapshots compresses [] s = refl
  Storable-insert_snapshots compresses ((name, tree) ∷ more) (taken, new, s) =
      rw taken (rw new (Storable-insert_snapshots compresses more s))

  -- The links of a stored revision, or of none, are to documents that are there.
  linked_documents :
      (documents : List ℕ) (i : ℕ) (vs : List (Revision F))
      → All (λ v. all (has_document documents) v.documents ≡ true) vs
      → all
          (has_document documents)
          (elim (find_revision i vs) [ some v ↦ v.documents | none ↦ [] ])
        ≡ true
  unfolding find_revision
  linked_documents documents i [] a = refl
  linked_documents documents i (v ∷ vs) a = elim (Bool-cases (v.id == i)) [
    | inl same ↦ rw same a.0
    | inr other ↦ rw other (linked_documents documents i vs a.1)
  ]

  project_id-has_project :
      (db : Database F) (project : Text) (p : ℕ)
      → project_id db project ≡ ok p
      → has_project p db.projects ≡ true
  unfolding project_id
  project_id-has_project db project p e =
      find_project-has_project project p db.projects
        (or_not_found-eq-ok (find_project project db.projects) p e)

  insert_succeeds :
      (v : Revision F) (db : Database F)
      → has_project v.project db.projects ≡ true
      → find_revision v.id db.revisions ≡ none
      → belongs_if_some db.revisions v.project v.parent1 ≡ true
      → belongs_if_some db.revisions v.project v.parent2 ≡ true
      → insert_snapshots db.compresses v.modules ≡ ok tt
      → all (has_document db.documents) v.documents ≡ true
      → insert_revision v db ≡ ok (record db { revisions = v ∷ db.revisions })
  unfolding insert_revision
  insert_succeeds v db h₁ h₂ h₃ h₄ h₅ h₆ = rw h₁ (rw h₂ (rw h₃ (rw h₄ (rw h₅ (rw h₆)))))

  belongs_self : (v : Revision F) (vs : List (Revision F)) → belongs (v ∷ vs) v.project v.id ≡ true
  unfolding belongs
  belongs_self v vs = ground arith

  advance_succeeds :
      (db : Database F) (p : ℕ) (branch : Text) (base i : ℕ) (heads : List (Text × ℕ))
      (stale : Code)
      → belongs db.revisions p i ≡ true
      → find_branch p branch db.branches ≡ some base
      → advance_head db p branch base i (some heads) stale
        ≡ ok (record db { branches = update_head p branch (some base) i db.branches })
  unfolding advance_head set_head
  advance_succeeds db p branch base i heads stale b h = rw b (rw h (rw ==-refl))

  -- On sound tables, a publication in an existing project succeeds if each of the branches named
  -- stands at the head named, its own branch first, the second parent, if there is one, is a
  -- revision of the project, the trees have distinct names and are not too large for the codec,
  -- and the documents that are linked exist.
  pub commit_succeeds :
      (db : Database F) (project branch : Text) (base p : ℕ) (more : List (Text × ℕ))
      (req : Request F)
      → IsSound db
      → Names branch base more req
      → project_id db project ≡ ok p
      → AllHeads db p ((branch, base) ∷ more)
      → belongs_if_some db.revisions p req.parent2 ≡ true
      → Storable db.compresses req.modules
      → all (has_document db.documents) req.extra_documents ≡ true
      → commit db project branch req ≡ ok (db.next, after_publication db p branch base req)
  unfolding transact check_expected
  commit_succeeds db project branch base p more req s n e heads second storable extra =
      let v = published db p base req in
      let named = (branch, base) ∷ more in
      commit-Names db project branch base more req n
      ∙ rw e (
          rw n (
            rw (AllHeads-check_heads (draw db).1 p named req.stale heads) (
              rw
                (insert_succeeds v (draw db).1 (project_id-has_project db project p e)
                  (fresh_id db.next db.revisions s.drawn)
                  (find_branch-belongs db.revisions p branch base db.branches s.heads heads.0)
                  second (Storable-insert_snapshots db.compresses req.modules storable)
                  (all-union (has_document db.documents) req.extra_documents
                    (documents_of (draw db).1 base) extra
                    (linked_documents db.documents base db.revisions s.documents)))
                (rw (
                  advance_succeeds (record (draw db).1 { revisions = v ∷ db.revisions }) p branch
                    base db.next named req.stale (belongs_self v db.revisions) heads.0)))))

  advance_head-IsSound :
      (db db' : Database F) (p : ℕ) (branch : Text) (base i : ℕ)
      (expected : Option (List (Text × ℕ))) (stale : Code)
      → IsSound db
      → advance_head db p branch base i expected stale ≡ ok db'
      → IsSound db'
  unfolding advance_head
  advance_head-IsSound db db' p branch base i none stale s h =
      set_head-IsSound p branch none i db db' s h
  advance_head-IsSound db db' p branch base i (some heads) stale s h =
      let (d, e, k) = >>=-eq-ok (set_head p branch (some base) i db) _ h in
      let same : d ≡ db' = ground arith in
      rw (← same) (set_head-IsSound p branch (some base) i db d s e)

  transact-IsSound :
      (db db' : Database F) (p : ℕ) (branch : Text) (base i : ℕ) (req : Request F)
      → IsSound db
      → transact db p branch base req ≡ ok (i, db')
      → IsSound db'
  unfolding transact
  transact-IsSound db db' p branch base i req s h =
      let v = published db p base req in
      let (u, e₁, h₁) = >>=-eq-ok (check_expected (draw db).1 p req.expected req.stale) _ h in
      let (d, e₂, h₂) = >>=-eq-ok (insert_revision v (draw db).1) _ h₁ in
      let (d', e₃, h₃) =
        >>=-eq-ok (advance_head d p branch base db.next req.expected req.stale) _ h₂ in
      let inserted =
        insert_revision-IsSound v (draw db).1 d (draw-IsSound db s) s.drawn (omega arith) e₂ in
      let same : d' ≡ db' = cc in
      rw (← same)
        (advance_head-IsSound d d' p branch base db.next req.expected req.stale inserted e₃)

  -- A publication keeps sound tables sound, whatever heads it names and whatever it publishes.
  pub commit-IsSound :
      (db db' : Database F) (project branch : Text) (i : ℕ) (req : Request F)
      → IsSound db
      → commit db project branch req ≡ ok (i, db')
      → IsSound db'
  unfolding commit
  commit-IsSound db db' project branch i req s h =
      let (p, e₁, h₁) = >>=-eq-ok (project_id db project) _ h in
      let (base, e₂, h₂) = >>=-eq-ok (first_parent db project branch req.expected) _ h₁ in
      transact-IsSound db db' p branch base i req s h₂
