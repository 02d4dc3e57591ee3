-- ===== src/Revision/Database.antt =====
-- The tables of database.py that service.py works on, with the constraints and triggers that
-- guard them. Ids are uuid4 texts in the source, of which only equality and freshness matter
-- here: the model numbers them as they are drawn. Message, author, time, hashes and the payload of
-- an operation are not modelled.
pub mod Sound
use weave_jacquard.Prelude.{
  ℕ, suc, Bool, true, false, ◌==◌, ◌&&◌, not, if◌then◌else◌, Option, none, some, List, [], ◌∷◌,
  ◌++◌, any, all,
}
use weave_jacquard.Prelude.Text.{Text, codes, text_eq}
use weave_jacquard.Error.{Result, ok, err, integrity_error, operational_error, ◌>>=◌, ◌>>◌}
use weave_jacquard.Sexpr.Node.{Node}
use weave_jacquard.Merge.States.{Documents, document_of}

pub record Project : Type 0 where
  pub id : ℕ
  pub name : Text

pub record Branch : Type 0 where
  pub project : ℕ
  pub name : Text
  pub head : ℕ

-- The kind and the target of an entry of the audit log.
pub record Operation : Type 0 where
  pub kind : Text
  pub target : Option Text

-- A revision, with its module snapshots, operations and document links.
pub record Revision (F : Type 0) : Type 0 where
  pub id : ℕ
  pub project : ℕ
  pub parent1 : Option ℕ
  pub parent2 : Option ℕ
  pub modules : Documents F
  pub operations : List Operation
  pub documents : List ℕ

-- `next` is the first id that was not drawn, `documents` the ids in the table of documents.
-- `compresses` tells the trees that the connection's function weave_compress_json takes: it raises
-- on the JSON text of a tree that is too large, and the encoding is not modelled.
pub record Database (F : Type 0) : Type 0 where
  pub projects : List Project
  pub branches : List Branch
  pub revisions : List (Revision F)
  pub documents : List ℕ
  pub next : ℕ
  pub compresses : Node F → Bool

unfoldable pub find_project : Text → List Project → Option ℕ
find_project name [] = none
find_project name (p ∷ ps) = if text_eq p.name name then some p.id else find_project name ps

unfoldable pub find_branch : ℕ → Text → List Branch → Option ℕ
find_branch project name [] = none
find_branch project name (b ∷ bs) =
    if b.project == project && text_eq b.name name then some b.head else find_branch project name bs

unfoldable pub find_revision : {F : Type 0} → ℕ → List (Revision F) → Option (Revision F)
find_revision i [] = none
find_revision i (v ∷ vs) = if v.id == i then some v else find_revision i vs

-- What the triggers ask of a revision that a row of the project names.
unfoldable pub belongs : {F : Type 0} → List (Revision F) → ℕ → ℕ → Bool
unfolding find_revision
belongs vs project i = elim (find_revision i vs) [ some v ↦ v.project == project | none ↦ false ]

abbrev pub belongs_if_some : {F : Type 0} → List (Revision F) → ℕ → Option ℕ → Bool
belongs_if_some vs project none = true
belongs_if_some vs project (some i) = belongs vs project i

abbrev pub constraint : Bool → Result (Unit {0})
constraint true = ok tt
constraint false = err integrity_error

abbrev pub is_none {ℓ} : {A : Type ℓ} → Option A → Bool
is_none none = true
is_none (some a) = false

abbrev pub has_project : ℕ → List Project → Bool
has_project i ps = any (λ p. p.id == i) ps

abbrev pub has_document : List ℕ → ℕ → Bool
has_document documents i = any (λ d. d == i) documents

-- weave_compress_json, called in a trigger: what it raises is an OperationalError there.
abbrev pub compressed : Bool → Result (Unit {0})
compressed true = ok tt
compressed false = err operational_error

module _ {F : Type 0} where
  -- INSERT INTO module_snapshots, by its trigger: each snapshot is compressed, and no two rows of
  -- the revision have one name.
  unfoldable pub insert_snapshots : (Node F → Bool) → Documents F → Result (Unit {0})
  unfolding document_of
  insert_snapshots compresses [] = ok tt
  insert_snapshots compresses ((name, tree) ∷ more) = do
    compressed (compresses tree)
    constraint (is_none (document_of name more))
    insert_snapshots compresses more

  -- `_insert_revision`: INSERT INTO revisions, under its primary key and
  -- revisions_validate_parent_projects_insert, then the snapshots, the operations, which have new
  -- ids, and the links to documents, under their foreign key. The ids linked are a set.
  unfoldable pub insert_revision : Revision F → Database F → Result (Database F)
  unfolding belongs insert_snapshots
  insert_revision v db = do
    constraint (has_project v.project db.projects)
    constraint (is_none (find_revision v.id db.revisions))
    constraint (belongs_if_some db.revisions v.project v.parent1)
    constraint (belongs_if_some db.revisions v.project v.parent2)
    insert_snapshots db.compresses v.modules
    constraint (all (has_document db.documents) v.documents)
    ok (record db { revisions = v ∷ db.revisions })

  -- INSERT INTO branches, under its primary key and branches_validate_project_insert
  unfoldable pub insert_branch : Branch → Database F → Result (Database F)
  unfolding belongs find_branch
  insert_branch b db = do
    constraint (has_project b.project db.projects)
    constraint (belongs db.revisions b.project b.head)
    constraint (is_none (find_branch b.project b.name db.branches))
    ok (record db { branches = b ∷ db.branches })

-- UPDATE branches SET head_revision_id = new WHERE the project and name match, and the head if one
-- is given. A branch is its project and name, so that at most one row matches.
unfoldable pub update_head : ℕ → Text → Option ℕ → ℕ → List Branch → List Branch
update_head project name expected new [] = []
update_head project name expected new (b ∷ bs) =
    let rest = b ∷ update_head project name expected new bs in
    let matches : Bool = elim expected [ none ↦ true | some h ↦ b.head == h ] in
    if b.project == project && text_eq b.name name
    then (if matches then record b { head = new } ∷ bs else b ∷ bs)
    else rest

module _ {F : Type 0} where
  -- The same under branches_validate_project_update.
  unfoldable pub set_head : ℕ → Text → Option ℕ → ℕ → Database F → Result (Database F)
  unfolding belongs update_head
  set_head project name expected new db = do
    constraint (belongs db.revisions project new)
    ok (record db { branches = update_head project name expected new db.branches })

  -- A new uuid.
  abbrev pub draw : Database F → ℕ × Database F
  draw db = (db.next, record db { next = suc db.next })

  unfoldable pub initialize_project : Text → Database F → Result ((ℕ × ℕ) × Database F)
  unfolding insert_revision insert_branch find_project
  initialize_project name db = do
    let (project, db₁) = draw db
    let (revision, db₂) = draw db₁
    constraint (is_none (find_project name db₂.projects))
    let db₃ = record db₂ { projects = record { id = project; name = name } ∷ db₂.projects }
    db₄ ←
        insert_revision
          (record {
            id = revision;
            project = project;
            parent1 = none;
            parent2 = none;
            modules = [];
            operations = [];
            documents = [];
          })
          db₃
    db₅ ← insert_branch (record { project = project; name = codes "main"; head = revision }) db₄
    ok ((project, revision), db₅)
