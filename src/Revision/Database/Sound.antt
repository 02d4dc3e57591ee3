-- ===== src/Revision/Database/Sound.antt =====
-- The invariant of the tables: heads and parents exist in their project, a parent is older than
-- its children, and ids below `next` only are in use. Every statement keeps it.
use weave_jacquard.Prelude.{
  ℕ, suc, ◌<◌, ◌≡◌, ◌≢◌, refl, sym, Bool, true, false, all, Option, none, some, List, [], ◌∷◌,
  arith, All,
}
use weave_jacquard.Prelude.Text.{Text}
use weave_jacquard.Error.{ok, ok-injective, >>=-eq-ok}
use weave_jacquard.Revision.Database.{
  Branch, Revision, Database, find_revision, find_branch, belongs, belongs_if_some, insert_revision,
  insert_snapshots, has_document, has_project, constraint, is_none, insert_branch, update_head,
  set_head,
}

-- The parent, if there is one, is an older revision of the project.
abbrev pub IsOlder : {F : Type 0} → List (Revision F) → ℕ → ℕ → Option ℕ → Type 0
IsOlder vs project i none = Unit
IsOlder vs project i (some p) = (p < i) × (belongs vs project p ≡ true)

pub record IsLinked {F : Type 0} (vs : List (Revision F)) (v : Revision F) : Type 0 where
  pub first : IsOlder vs v.project v.id v.parent1
  pub second : IsOlder vs v.project v.id v.parent2

pub record IsSound {F : Type 0} (db : Database F) : Type 0 where
  pub heads : All (λ b. belongs db.revisions b.project b.head ≡ true) db.branches
  pub links : All (λ v. IsLinked db.revisions v) db.revisions
  pub drawn : All (λ v. v.id < db.next) db.revisions
  pub documents : All (λ v. all (has_document db.documents) v.documents ≡ true) db.revisions

pub constraint-eq-ok : (b : Bool) → constraint b ≡ ok tt → b ≡ true
constraint-eq-ok true h = refl
constraint-eq-ok false h = cc

is_none-eq-true {ℓ} : {A : Type ℓ} (o : Option A) → is_none o ≡ true → o ≡ none
is_none-eq-true none h = refl
is_none-eq-true (some a) h = cc

module _ {F : Type 0} where
  -- What belongs to a project was drawn.
  pub belongs-lt :
      (n project i : ℕ) (vs : List (Revision F))
      → All (λ v. v.id < n) vs
      → belongs vs project i ≡ true
      → i < n
  unfolding belongs
  belongs-lt n project i [] h b = cc
  belongs-lt n project i (v ∷ vs) h b = ground (arith, belongs-lt n project i vs)

  -- A revision with a new id hides none of the others.
  pub belongs-cons :
      (project i : ℕ) (v : Revision F) (vs : List (Revision F))
      → i < v.id
      → belongs vs project i ≡ true
      → belongs (v ∷ vs) project i ≡ true
  unfolding belongs
  belongs-cons project i v vs h b = ground arith

  pub find_revision-cons :
      (i : ℕ) (v : Revision F) (vs : List (Revision F))
      → i ≢ v.id
      → find_revision i (v ∷ vs) ≡ find_revision i vs
  unfolding find_revision
  find_revision-cons i v vs h = ground arith

  IsOlder-cons :
      (project i : ℕ) (p : Option ℕ) (v : Revision F) (vs : List (Revision F))
      → i < v.id
      → IsOlder vs project i p
      → IsOlder (v ∷ vs) project i p
  IsOlder-cons project i none v vs h o = tt
  IsOlder-cons project i (some p) v vs h o = (o.0, belongs-cons project p v vs (omega arith) o.1)

  links-cons :
      (v : Revision F) (vs us : List (Revision F))
      → All (λ u. u.id < v.id) us
      → All (λ u. IsLinked vs u) us
      → All (λ u. IsLinked (v ∷ vs) u) us
  links-cons v vs [] h l = tt
  links-cons v vs (u ∷ us) h l = (
    record {
      first = IsOlder-cons u.project u.id u.parent1 v vs h.0 l.0.first;
      second = IsOlder-cons u.project u.id u.parent2 v vs h.0 l.0.second;
    },
    links-cons v vs us h.1 l.1,
  )

  heads-cons :
      (v : Revision F) (vs : List (Revision F)) (bs : List Branch)
      → All (λ u. u.id < v.id) vs
      → All (λ b. belongs vs b.project b.head ≡ true) bs
      → All (λ b. belongs (v ∷ vs) b.project b.head ≡ true) bs
  heads-cons v vs [] h l = tt
  heads-cons v vs (b ∷ bs) h l = (
    belongs-cons b.project b.head v vs (belongs-lt v.id b.project b.head vs h l.0) l.0,
    heads-cons v vs bs h l.1,
  )

  pub drawn-suc :
      (n : ℕ) (vs : List (Revision F)) → All (λ v. v.id < n) vs → All (λ v. v.id < suc n) vs
  drawn-suc n [] h = tt
  drawn-suc n (v ∷ vs) h = (omega arith, drawn-suc n vs h.1)

  -- A new id is fresh, and stays so.
  pub draw-IsSound : (db : Database F) → IsSound db → IsSound (record db { next = suc db.next })
  draw-IsSound db s = record {
    heads = s.heads;
    links = s.links;
    drawn = drawn-suc db.next db.revisions s.drawn;
    documents = s.documents;
  }

  older_of_belongs :
      (n project : ℕ) (p : Option ℕ) (v : Revision F) (vs : List (Revision F))
      → v.id ≡ n
      → All (λ u. u.id < n) vs
      → belongs_if_some vs project p ≡ true
      → IsOlder (v ∷ vs) project n p
  older_of_belongs n project none v vs e h b = tt
  older_of_belongs n project (some p) v vs e h b =
      let lt = belongs-lt n project p vs h b in (lt, belongs-cons project p v vs (omega arith) b)

  -- What a successful insertion of a revision shows.
  pub insert_revision-eq-ok :
      (v : Revision F) (db db' : Database F)
      → insert_revision v db ≡ ok db'
      → (find_revision v.id db.revisions ≡ none)
        × (belongs_if_some db.revisions v.project v.parent1 ≡ true)
        × (belongs_if_some db.revisions v.project v.parent2 ≡ true)
        × (all (has_document db.documents) v.documents ≡ true)
        × (db' ≡ record db { revisions = v ∷ db.revisions })
  unfolding insert_revision
  insert_revision-eq-ok v db db' h =
      let (u₁, e₁, h₁) = >>=-eq-ok (constraint (has_project v.project db.projects)) _ h in
      let (u₂, e₂, h₂) = >>=-eq-ok (constraint (is_none (find_revision v.id db.revisions))) _ h₁ in
      let (u₃, e₃, h₃) =
        >>=-eq-ok (constraint (belongs_if_some db.revisions v.project v.parent1)) _ h₂ in
      let (u₄, e₄, h₄) =
        >>=-eq-ok (constraint (belongs_if_some db.revisions v.project v.parent2)) _ h₃ in
      let (u₅, e₅, h₅) = >>=-eq-ok (insert_snapshots db.compresses v.modules) _ h₄ in
      let (u₆, e₆, h₆) =
        >>=-eq-ok (constraint (all (has_document db.documents) v.documents)) _ h₅ in
      (
        is_none-eq-true (find_revision v.id db.revisions) (constraint-eq-ok _ e₂),
        constraint-eq-ok _ e₃,
        constraint-eq-ok _ e₄,
        constraint-eq-ok _ e₆,
        sym (ok-injective _ db' h₆),
      )

  -- A row whose id is new and above all others keeps the invariant.
  pub insert_revision-IsSound :
      (v : Revision F) (db db' : Database F)
      → IsSound db
      → All (λ u. u.id < v.id) db.revisions
      → v.id < db.next
      → insert_revision v db ≡ ok db'
      → IsSound db'
  insert_revision-IsSound v db db' s fresh lt h =
      let (new, p1, p2, linked, at) = insert_revision-eq-ok v db db' h in
      rw at record {
        heads = heads-cons v db.revisions db.branches fresh s.heads;
        links = (
          record {
            first = older_of_belongs v.id v.project v.parent1 v db.revisions refl fresh p1;
            second = older_of_belongs v.id v.project v.parent2 v db.revisions refl fresh p2;
          },
          links-cons v db.revisions db.revisions fresh s.links,
        );
        drawn = (lt, s.drawn);
        documents = (linked, s.documents);
      }

update_head-heads :
    {F : Type 0} (vs : List (Revision F)) (p : ℕ) (name : Text) (e : Option ℕ) (new : ℕ)
    (bs : List Branch)
    → belongs vs p new ≡ true
    → All (λ b. belongs vs b.project b.head ≡ true) bs
    → All (λ b. belongs vs b.project b.head ≡ true) (update_head p name e new bs)
unfolding update_head
update_head-heads vs p name e new [] ok_new h = tt
update_head-heads vs p name none new (b ∷ bs) ok_new h =
    ground (arith, update_head-heads vs p name none new bs)
update_head-heads vs p name (some e) new (b ∷ bs) ok_new h =
    ground (arith, update_head-heads vs p name (some e) new bs)

module _ {F : Type 0} where
  pub set_head-eq-ok :
      (p : ℕ) (name : Text) (e : Option ℕ) (new : ℕ) (db db' : Database F)
      → set_head p name e new db ≡ ok db'
      → (belongs db.revisions p new ≡ true)
        × (db' ≡ record db { branches = update_head p name e new db.branches })
  unfolding set_head
  set_head-eq-ok p name e new db db' h = ground arith

  pub set_head-IsSound :
      (p : ℕ) (name : Text) (e : Option ℕ) (new : ℕ) (db db' : Database F)
      → IsSound db
      → set_head p name e new db ≡ ok db'
      → IsSound db'
  set_head-IsSound p name e new db db' s h =
      let (b, at) = set_head-eq-ok p name e new db db' h in
      rw at record {
        heads = update_head-heads db.revisions p name e new db.branches b s.heads;
        links = s.links;
        documents = s.documents;
        drawn = s.drawn;
      }

  pub insert_branch-eq-ok :
      (b : Branch) (db db' : Database F)
      → insert_branch b db ≡ ok db'
      → (belongs db.revisions b.project b.head ≡ true)
        × (find_branch b.project b.name db.branches ≡ none)
        × (db' ≡ record db { branches = b ∷ db.branches })
  unfolding insert_branch
  insert_branch-eq-ok b db db' h = ground arith

  pub insert_branch-IsSound :
      (b : Branch) (db db' : Database F) → IsSound db → insert_branch b db ≡ ok db' → IsSound db'
  insert_branch-IsSound b db db' s h =
      let (belongs_b, new, at) = insert_branch-eq-ok b db db' h in
      rw at record {
        heads = (belongs_b, s.heads);
        links = s.links;
        drawn = s.drawn;
        documents = s.documents;
      }
