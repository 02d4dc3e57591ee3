-- ===== src/Revision/Reachable/Invariants.antt =====
-- What every step keeps: the tables are sound, the trees are valid, and what is stored stays.
use weave_jacquard.Prelude.{ℕ, suc, ◌<◌, ◌≤◌, ◌≡◌, refl, none, some, List, [], ◌∷◌, arith, All, ◌∙◌}
use weave_jacquard.Prelude.Text.{Text}
use weave_jacquard.Error.{ok}
use weave_jacquard.Sexpr.Runtime.{Runtime, Digits}
use weave_jacquard.Revision.Database.{
  Branch, Revision, Database, find_revision, insert_branch, set_head, initialize_project,
}
use weave_jacquard.Revision.Database.Sound.{
  IsSound, drawn-suc, insert_revision-eq-ok, insert_revision-IsSound, insert_branch-eq-ok,
  insert_branch-IsSound, set_head-eq-ok, set_head-IsSound, find_revision-cons,
}
use weave_jacquard.Revision.Branches.{
  create_branch-inserts, create_branch_at_revision-inserts, checkout-sets,
  initialize_project-inserts,
}
use weave_jacquard.Revision.Commit.CompareAndSet.{commit_publishes}
use weave_jacquard.Revision.Commit.Success.{commit-IsSound}
use weave_jacquard.Revision.Workspace.Publications.{
  IsPublication, edit_document-IsPublication, create_program-IsPublication, merge-IsPublication,
  import_program-IsPublication,
}
use weave_jacquard.Revision.Workspace.Trees.{
  IsValidStore, edit_document-IsValidStore, create_program-IsValidStore, merge-IsValidStore,
  import_program-IsValidStore,
}
use weave_jacquard.Batch.Store.{apply_batch-IsPublication, apply_batch-IsValidStore}
use weave_jacquard.Revision.Reachable.{
  Step, initialized, branched, branched_at, checked_out, edited, created, imported, merged, batched,
  Reachable, at_first, after, Keeps,
}

module _ {F : Type 0} where
  pub find_revision-lt :
      (n i : ℕ) (v : Revision F) (vs : List (Revision F))
      → All (λ u. u.id < n) vs
      → find_revision i vs ≡ some v
      → i < n
  unfolding find_revision
  find_revision-lt n i v [] h e = cc
  find_revision-lt n i v (u ∷ vs) h e = ground (arith, find_revision-lt n i v vs)

  pub Keeps-same : (db db' : Database F) → db'.revisions ≡ db.revisions → Keeps db db'
  Keeps-same db db' e i v h = rw e h

  pub Keeps-cons :
      (db db' : Database F) (u : Revision F)
      → IsSound db
      → db.next ≤ u.id
      → db'.revisions ≡ u ∷ db.revisions
      → Keeps db db'
  Keeps-cons db db' u s le e i v h =
      let lt = find_revision-lt db.next i v db.revisions s.drawn h in
      rw e (find_revision-cons i u db.revisions (λ same. omega (arith, same)) ∙ h)

  -- A publication.
  IsPublication-Keeps : (db db' : Database F) → IsSound db → IsPublication db db' → Keeps db db'
  IsPublication-Keeps db db' s c i v h =
      let (p, e, heads, published) =
        commit_publishes db db' c.project c.branch c.base c.revision c.more c.request c.names
          c.committed in
      let lt = find_revision-lt db.next i v db.revisions s.drawn h in
      published.other_revisions i (λ same. omega (arith, same, published.fresh)) ∙ h

  -- A new branch.
  insert_branch-Keeps :
      (b : Branch) (db db' : Database F) → insert_branch b db ≡ ok db' → Keeps db db'
  insert_branch-Keeps b db db' h =
      let (x, y, at) = insert_branch-eq-ok b db db' h in Keeps-same db db' (rw at refl)

  set_head-Keeps :
      (p : ℕ) (branch : Text) (new : ℕ) (db db' : Database F)
      → set_head p branch none new db ≡ ok db'
      → Keeps db db'
  set_head-Keeps p branch new db db' h =
      let (x, at) = set_head-eq-ok p branch none new db db' h in Keeps-same db db' (rw at refl)

  initialize_project-Keeps :
      (db db' : Database F) (name : Text) (ids : ℕ × ℕ)
      → IsSound db
      → initialize_project name db ≡ ok (ids, db')
      → Keeps db db'
  initialize_project-Keeps db db' name ids s h =
      let (v, b, d, e, bs, vs, nx, vi, vm, ds, h₁, h₂) =
        initialize_project-inserts db db' name ids h in
      let (x₁, x₂, x₃, x₄, at) = insert_revision-eq-ok v d e h₁ in
      let (y₁, y₂, at') = insert_branch-eq-ok b e db' h₂ in
      Keeps-cons db db' v s (omega (arith, vi)) (rw at' (rw at (rw vs refl)))

  initialize_project-IsSound :
      (db db' : Database F) (name : Text) (ids : ℕ × ℕ)
      → IsSound db
      → initialize_project name db ≡ ok (ids, db')
      → IsSound db'
  initialize_project-IsSound db db' name ids s h =
      let (v, b, d, e, bs, vs, nx, vi, vm, ds, h₁, h₂) =
        initialize_project-inserts db db' name ids h in
      let start : IsSound d = record {
        heads = rw (vs, bs) s.heads;
        links = rw vs s.links;
        documents = rw (vs, ds) s.documents;
        drawn =
            rw (vs, nx)
              (drawn-suc (suc db.next) db.revisions (drawn-suc db.next db.revisions s.drawn));
      } in
      let fresh : All (λ w. w.id < v.id) d.revisions =
        rw (vi, vs) (drawn-suc db.next db.revisions s.drawn) in
      insert_branch-IsSound b e db'
        (insert_revision-IsSound v d e start fresh (omega (arith, vi, nx)) h₁) h₂

-- What the operations have in common: a step stores a project, stores a branch, moves a branch,
-- or publishes a revision.
data Effect {F : Type 0} (db db' : Database F) : Type 0 where
  project : (name : Text) (ids : ℕ × ℕ) → initialize_project name db ≡ ok (ids, db') → Effect db db'
  branch : (b : Branch) → insert_branch b db ≡ ok db' → Effect db db'
  head : (p : ℕ) (name : Text) (new : ℕ) → set_head p name none new db ≡ ok db' → Effect db db'
  publication : IsPublication db db' → Effect db db'

module _ {F : Type 0} where
  Effect-Keeps : {db db' : Database F} → IsSound db → Effect db db' → Keeps db db'
  Effect-Keeps {db} {db'} s (project name ids h) = initialize_project-Keeps db db' name ids s h
  Effect-Keeps {db} {db'} s (branch b h) = insert_branch-Keeps b db db' h
  Effect-Keeps {db} {db'} s (head p name new h) = set_head-Keeps p name new db db' h
  Effect-Keeps {db} {db'} s (publication c) = IsPublication-Keeps db db' s c

  Effect-IsSound : {db db' : Database F} → IsSound db → Effect db db' → IsSound db'
  Effect-IsSound {db} {db'} s (project name ids h) = initialize_project-IsSound db db' name ids s h
  Effect-IsSound {db} {db'} s (branch b h) = insert_branch-IsSound b db db' s h
  Effect-IsSound {db} {db'} s (head p name new h) = set_head-IsSound p name none new db db' s h
  Effect-IsSound {db} {db'} s (publication c) =
      commit-IsSound db db' c.project c.branch c.revision c.request s c.committed

module _ {F : Type 0} ⦃r : Runtime F⦄ where
  insert_branch-IsValidStore :
      (b : Branch) (db db' : Database F)
      → insert_branch b db ≡ ok db'
      → IsValidStore db
      → IsValidStore db'
  insert_branch-IsValidStore b db db' h a =
      let (x, y, at) = insert_branch-eq-ok b db db' h in rw at a

  set_head-IsValidStore :
      (p : ℕ) (name : Text) (new : ℕ) (db db' : Database F)
      → set_head p name none new db ≡ ok db'
      → IsValidStore db
      → IsValidStore db'
  set_head-IsValidStore p name new db db' h a =
      let (x, at) = set_head-eq-ok p name none new db db' h in rw at a

  initialize_project-IsValidStore :
      (db db' : Database F) (name : Text) (ids : ℕ × ℕ)
      → initialize_project name db ≡ ok (ids, db')
      → IsValidStore db
      → IsValidStore db'
  initialize_project-IsValidStore db db' name ids h a =
      let (v, b, d, e, bs, vs, nx, vi, vm, ds, h₁, h₂) =
        initialize_project-inserts db db' name ids h in
      let (x₁, x₂, x₃, x₄, at) = insert_revision-eq-ok v d e h₁ in
      let (y₁, y₂, at') = insert_branch-eq-ok b e db' h₂ in rw at' (rw at (rw vs (rw vm tt, a)))

module _ {F : Type 0} ⦃r : Runtime F⦄ ⦃u : Digits⦄ (fresh : ℕ → Text) where
  Step-Effect : {db db' : Database F} → Step fresh db db' → Effect db db'
  Step-Effect {db} {db'} (initialized name ids h) = project name ids h
  Step-Effect {db} {db'} (branched p name from_branch expected i h) =
      let (b, e) = create_branch-inserts db db' p name from_branch expected i h in branch b e
  Step-Effect {db} {db'} (branched_at p name revision i h) =
      let (b, e) = create_branch_at_revision-inserts db db' p name revision i h in branch b e
  Step-Effect {db} {db'} (checked_out p name revision h) =
      let (q, e) = checkout-sets db db' p name revision h in head q name revision e
  Step-Effect {db} {db'} (edited p name document expected edit i h) =
      publication (edit_document-IsPublication db db' p name document expected edit i h)
  Step-Effect {db} {db'} (created p name document ids title version expected i h) =
      publication
        (create_program-IsPublication db db' p name document ids title version expected i h)
  Step-Effect {db} {db'} (imported p name document source replace expected i h) =
      publication
        (import_program-IsPublication fresh db db' p name document source replace expected i h)
  Step-Effect {db} {db'} (merged p target source expected_target expected_source i h) =
      publication (merge-IsPublication db db' p target source expected_target expected_source i h)
  Step-Effect {db} {db'} (batched new_ids p name document raws expected i h) =
      publication (apply_batch-IsPublication new_ids db db' p name document raws expected i h)

  -- A revision that a sound database has stored is there after every step, as it was.
  pub Step-Keeps : (db db' : Database F) → IsSound db → Step fresh db db' → Keeps db db'
  Step-Keeps db db' s h = Effect-Keeps s (Step-Effect h)

  pub Step-IsSound : (db db' : Database F) → IsSound db → Step fresh db db' → IsSound db'
  Step-IsSound db db' s h = Effect-IsSound s (Step-Effect h)

  Step-IsValidStore : {db db' : Database F} → IsValidStore db → Step fresh db db' → IsValidStore db'
  Step-IsValidStore {db} {db'} a (initialized name ids h) =
      initialize_project-IsValidStore db db' name ids h a
  Step-IsValidStore {db} {db'} a (branched p name from_branch expected i h) =
      let (b, e) = create_branch-inserts db db' p name from_branch expected i h in
      insert_branch-IsValidStore b db db' e a
  Step-IsValidStore {db} {db'} a (branched_at p name revision i h) =
      let (b, e) = create_branch_at_revision-inserts db db' p name revision i h in
      insert_branch-IsValidStore b db db' e a
  Step-IsValidStore {db} {db'} a (checked_out p name revision h) =
      let (q, e) = checkout-sets db db' p name revision h in
      set_head-IsValidStore q name revision db db' e a
  Step-IsValidStore {db} {db'} a (edited p name document expected edit i h) =
      edit_document-IsValidStore db db' p name document expected edit i a h
  Step-IsValidStore {db} {db'} a (created p name document ids title version expected i h) =
      create_program-IsValidStore db db' p name document ids title version expected i a h
  Step-IsValidStore {db} {db'} a (imported p name document source replace expected i h) =
      import_program-IsValidStore fresh db db' p name document source replace expected i a h
  Step-IsValidStore {db} {db'} a (merged p target source expected_target expected_source i h) =
      merge-IsValidStore db db' p target source expected_target expected_source i a h
  Step-IsValidStore {db} {db'} a (batched new_ids p name document raws expected i h) =
      apply_batch-IsValidStore new_ids db db' p name document raws expected i a h

  -- Whatever operations a new database has been through, each branch stands at a revision of
  -- its project, each parent is an older revision of the same project, and every document of
  -- every revision is a tree that `validate_tree` accepts.
  pub Reachable-IsSound : (db : Database F) → Reachable fresh db → IsSound db × IsValidStore db
  Reachable-IsSound db (at_first compresses documents) =
      (record { heads = tt; links = tt; documents = tt; drawn = tt }, tt)
  Reachable-IsSound db (after {db = before} h step) =
      let (s, a) = Reachable-IsSound before h in
      (Effect-IsSound s (Step-Effect step), Step-IsValidStore a step)
