-- ===== src/Revision/Branches.antt =====
-- The operations that publish nothing: a new project, a new branch, and a branch that is moved.
use weave_jacquard.Prelude.{ℕ, suc, ◌≡◌, refl, Option, none, [], ◌∷◌}
use weave_jacquard.Prelude.Text.{Text, codes}
use weave_jacquard.Error.{
  Result, ok, err, >>=-eq-ok, validation, not_found, value_error, overflow_error, integrity_error,
  operational_error, out_of_fuel, conflict, batch, stale_branch_head,
}
use weave_jacquard.Revision.Database.{
  Branch, Revision, Database, belongs, find_project, find_branch, insert_revision, insert_branch,
  set_head, initialize_project, constraint, is_none,
}
use weave_jacquard.Revision.Commit.{
  project_id, branch_head, found, create_branch, branch_transaction, still_at,
  require_expected_head, create_branch_at_revision, checkout, or_duplicate,
}

module _ {F : Type 0} where
  or_duplicate-eq-ok :
      (m : Result (Database F)) (db : Database F) → or_duplicate m ≡ ok db → m ≡ ok db
  or_duplicate-eq-ok (ok d) db h = h
  or_duplicate-eq-ok (err integrity_error) db h = cc
  or_duplicate-eq-ok (err operational_error) db h = cc
  or_duplicate-eq-ok (err (validation c)) db h = cc
  or_duplicate-eq-ok (err not_found) db h = cc
  or_duplicate-eq-ok (err value_error) db h = cc
  or_duplicate-eq-ok (err overflow_error) db h = cc
  or_duplicate-eq-ok (err out_of_fuel) db h = cc
  or_duplicate-eq-ok (err (conflict cs)) db h = cc
  or_duplicate-eq-ok (err (batch c i)) db h = cc

  pub create_branch-inserts :
      (db db' : Database F) (project name from_branch : Text) (expected : Option ℕ) (i : ℕ)
      → create_branch db project name from_branch expected ≡ ok (i, db')
      → (b : Branch) × (insert_branch b db ≡ ok db')
  unfolding create_branch branch_transaction
  create_branch-inserts db db' project name from_branch expected i h =
      let (p, e₁, h₁) = >>=-eq-ok (project_id db project) _ h in
      let (head, e₂, h₂) = >>=-eq-ok (branch_head db project from_branch) _ h₁ in
      let (u, e₃, h₃) = >>=-eq-ok (require_expected_head head expected stale_branch_head) _ h₂ in
      let (d, e₄, h₄) =
        >>=-eq-ok (or_duplicate (branch_transaction db p name from_branch head)) _ h₃ in
      let same : d ≡ db' = cc in
      let transacted = or_duplicate-eq-ok (branch_transaction db p name from_branch head) d e₄ in
      let (v, e₅, h₅) =
        >>=-eq-ok (still_at head (find_branch p from_branch db.branches)) _ transacted in
      (record { project = p; name = name; head = head }, rw same at h₅)

  pub create_branch_at_revision-inserts :
      (db db' : Database F) (project name : Text) (revision i : ℕ)
      → create_branch_at_revision db project name revision ≡ ok (i, db')
      → (b : Branch) × (insert_branch b db ≡ ok db')
  unfolding create_branch_at_revision
  create_branch_at_revision-inserts db db' project name revision i h =
      let (p, e₁, h₁) = >>=-eq-ok (project_id db project) _ h in
      let (u, e₂, h₂) = >>=-eq-ok (found (belongs db.revisions p revision)) _ h₁ in
      let b : Branch = record { project = p; name = name; head = revision } in
      let (d, e₃, h₃) = >>=-eq-ok (or_duplicate (insert_branch b db)) _ h₂ in
      let same : d ≡ db' = cc in (b, rw (← same) (or_duplicate-eq-ok (insert_branch b db) d e₃))

  pub checkout-sets :
      (db db' : Database F) (project branch : Text) (revision : ℕ)
      → checkout db project branch revision ≡ ok db'
      → (p : ℕ) × (set_head p branch none revision db ≡ ok db')
  unfolding checkout
  checkout-sets db db' project branch revision h =
      let (p, e₁, h₁) = >>=-eq-ok (project_id db project) _ h in
      let (u, e₂, h₂) = >>=-eq-ok (found (belongs db.revisions p revision)) _ h₁ in (p, h₂)

  -- The two ids are drawn, the project and its empty first revision are stored, then its branch.
  pub initialize_project-inserts :
      (db db' : Database F) (name : Text) (ids : ℕ × ℕ)
      → initialize_project name db ≡ ok (ids, db')
      → (v : Revision F) × (b : Branch) × (d : Database F) × (e : Database F) × (d.branches
          ≡ db.branches)
        × (d.revisions ≡ db.revisions)
        × (d.next ≡ suc (suc db.next))
        × (v.id ≡ suc db.next)
        × (v.modules ≡ [])
        × (d.documents ≡ db.documents)
        × (insert_revision v d ≡ ok e)
        × (insert_branch b e ≡ ok db')
  unfolding initialize_project
  initialize_project-inserts db db' name ids h =
      let v : Revision F = record {
        id = suc db.next;
        project = db.next;
        parent1 = none;
        parent2 = none;
        modules = [];
        operations = [];
        documents = [];
      } in
      let b : Branch = record { project = db.next; name = codes "main"; head = suc db.next } in
      let d : Database F = record db {
        projects = record { id = db.next; name = name } ∷ db.projects;
        next = suc (suc db.next);
      } in
      let (u, e₁, h₁) = >>=-eq-ok (constraint (is_none (find_project name db.projects))) _ h in
      let (e, e₂, h₂) = >>=-eq-ok (insert_revision v d) _ h₁ in
      let (e', e₃, h₃) = >>=-eq-ok (insert_branch b e) _ h₂ in
      let same : e' ≡ db' = cc in
      (v, b, d, e, refl, refl, refl, refl, refl, refl, e₂, rw (← same) e₃)
