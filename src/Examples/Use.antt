-- ===== src/Examples/Use.antt =====
-- A store from its first project to an imported program and a branch.
use weave_jacquard.Prelude.{ℕ, ◌≡◌, refl, none, some, [], ◌++◌, false, true}
use weave_jacquard.Prelude.Text.{Text, codes}
use weave_jacquard.Error.{Result, ok, err}
use weave_jacquard.Sexpr.Atom.{show_nat}
use weave_jacquard.Sexpr.Parser.{parse_source, parse_one, finish}
use weave_jacquard.Sexpr.Lexer.{tokenize}
use weave_jacquard.Revision.Database.{Database, initialize_project}
use weave_jacquard.Revision.Database.Sound.{IsSound}
use weave_jacquard.Revision.Commit.{create_branch, branch_transaction}
use weave_jacquard.Revision.Workspace.{import_program}
use weave_jacquard.Revision.Workspace.Trees.{IsValidStore}
use weave_jacquard.Revision.Reachable.{
  empty_database, Step, initialized, imported, branched, Reachable, at_first, after, Keeps,
}
use weave_jacquard.Revision.Reachable.Invariants.{Reachable-IsSound, Step-Keeps}
use weave_jacquard.Examples.Data.{text_runtime, ascii_digits, running}

abbrev pub new_database : Database Text
new_database = empty_database (λ t. true) []

abbrev fresh_id : ℕ → Text
unfolding running
fresh_id k = codes "n_" ++ show_nat k

abbrev database_of : {A : Type 0} → Result (A × Database Text) → Database Text
database_of (ok (i, db)) = db
database_of (err e) = new_database

abbrev pub first_db : Database Text
first_db = database_of (initialize_project (codes "p") new_database)

pub first_runs : initialize_project (codes "p") new_database ≡ ok ((0, 1), first_db)
unfolding running initialize_project
first_runs = refl

abbrev imported_db : Database Text
imported_db = database_of (
    import_program fresh_id first_db (codes "p") (codes "main") (codes "doc")
      (codes "(a \"b\" 2.5)") false (some 1))

import_runs :
    import_program fresh_id first_db
      (codes "p")
      (codes "main")
      (codes "doc")
      (codes "(a \"b\" 2.5)")
      false
      (some 1)
    ≡ ok (2, imported_db)
unfolding running import_program parse_source parse_one tokenize finish initialize_project
import_runs = refl

abbrev branched_db : Database Text
branched_db = database_of (create_branch imported_db (codes "p") (codes "side") (codes "main") none)

branch_runs :
    create_branch imported_db (codes "p") (codes "side") (codes "main") none ≡ ok (2, branched_db)
unfolding running create_branch branch_transaction import_program parse_source parse_one tokenize
    finish initialize_project
branch_runs = refl

imported-Step : Step fresh_id first_db imported_db
imported-Step =
    imported (codes "p") (codes "main") (codes "doc") (codes "(a \"b\" 2.5)") false (some 1) 2
      import_runs

first-Reachable : Reachable fresh_id first_db
first-Reachable = after (at_first (λ t. true) []) (initialized (codes "p") (0, 1) first_runs)

branched-Reachable : Reachable fresh_id branched_db
branched-Reachable =
    after (after first-Reachable imported-Step)
      (branched (codes "p") (codes "side") (codes "main") none 2 branch_runs)

Reachable-IsSound_example : IsSound branched_db × IsValidStore branched_db
Reachable-IsSound_example = Reachable-IsSound fresh_id branched_db branched-Reachable

first_db-IsSound : IsSound first_db
first_db-IsSound = (Reachable-IsSound fresh_id first_db first-Reachable).0

Step-Keeps_example : Keeps first_db imported_db
Step-Keeps_example = Step-Keeps fresh_id first_db imported_db first_db-IsSound imported-Step
