-- ===== src/Examples/Programs.antt =====
-- Two branches that diverge and are merged, a new program and an imported one.
use weave_jacquard.Prelude.{ℕ, ◌≡◌, refl, List, Option, none, some, [], ◌∷◌, ◌++◌, false, true}
use weave_jacquard.Prelude.Text.{Text, codes}
use weave_jacquard.Error.{Result, ok, err}
use weave_jacquard.Sexpr.Atom.{show_nat}
use weave_jacquard.Revision.Database.{Revision, Database}
use weave_jacquard.Revision.Workspace.{
  ProgramIds, create_program, import_program, merge, validate_state, program_tree, checked,
  extend_children,
}
use weave_jacquard.Sexpr.Parser.{parse_source, parse_one, finish}
use weave_jacquard.Sexpr.Lexer.{tokenize}
use weave_jacquard.Revision.Dag
use weave_jacquard.Merge.{merge_node}
use weave_jacquard.Merge.States.{Documents, document_of, merge_states}
use weave_jacquard.Merge.States.ByName.{merge_states-document}
use weave_jacquard.Revision.Workspace.Trees.{
  IsValidStore, merge-IsValidStore, import_program-IsValidStore,
}
use weave_jacquard.Edit
use weave_jacquard.Examples.Data.{sample, text_runtime, ascii_digits, running}
use weave_jacquard.Sexpr.Node.{Node, atom_eq}

abbrev without : Text → Node Text
unfolding running
without i = tree_of (Edit.delete_node sample i)
  where
    tree_of : Result (Node Text) → Node Text
    tree_of (ok n) = n
    tree_of (err e) = sample

abbrev revision : ℕ → List ℕ → Node Text → Revision Text
revision i parents tree = record {
  id = i;
  project = 0;
  parent1 = first parents;
  parent2 = none;
  modules = (codes "doc", tree) ∷ [];
  operations = [];
  documents = [];
}
  where
    first : List ℕ → Option ℕ
    first [] = none
    first (j ∷ js) = some j

abbrev diverged : Database Text
diverged = record {
  projects = record { id = 0; name = codes "p" } ∷ [];
  branches =
      record { project = 0; name = codes "main"; head = 2 }
      ∷ record { project = 0; name = codes "side"; head = 3 }
      ∷ [];
  revisions =
      revision 3 (1 ∷ []) (without (codes "n_7"))
      ∷ revision 2 (1 ∷ []) (without (codes "n_6"))
      ∷ revision 1 [] sample
      ∷ [];
  documents = [];
  next = 4;
  compresses = λ t. true;
}

diverged-IsValidStore : IsValidStore diverged
unfolding running
diverged-IsValidStore = ((refl, tt), ((refl, tt), ((refl, tt), tt)))

abbrev database_of : Result (ℕ × Database Text) → Database Text
database_of (ok (i, db)) = db
database_of (err e) = diverged

abbrev merged_db : Database Text
merged_db = database_of (merge diverged (codes "p") (codes "main") (codes "side") none none)

merge_runs : merge diverged (codes "p") (codes "main") (codes "side") none none ≡ ok (4, merged_db)
unfolding running merge Dag.analyze_common_ancestors Dag.parents_of Dag.require_single_best
    merge_states merge_node atom_eq validate_state
merge_runs = refl

merge-IsValidStore_example : IsValidStore merged_db
merge-IsValidStore_example =
    merge-IsValidStore diverged merged_db (codes "p") (codes "main") (codes "side") none none 4
      diverged-IsValidStore merge_runs

abbrev fresh_id : ℕ → Text
unfolding running
fresh_id k = codes "n_" ++ show_nat k

abbrev imported_db : Database Text
imported_db = database_of (
    import_program fresh_id diverged (codes "p") (codes "side") (codes "new")
      (codes "(a \"b\" 2.5)") false (some 3))

import_runs :
    import_program fresh_id diverged
      (codes "p")
      (codes "side")
      (codes "new")
      (codes "(a \"b\" 2.5)")
      false
      (some 3)
    ≡ ok (4, imported_db)
unfolding running import_program parse_source parse_one tokenize finish
import_runs = refl

import_program-IsValidStore_example : IsValidStore imported_db
import_program-IsValidStore_example =
    import_program-IsValidStore fresh_id diverged imported_db (codes "p") (codes "side")
      (codes "new") (codes "(a \"b\" 2.5)") false (some 3) 4 diverged-IsValidStore import_runs

abbrev program_ids : ProgramIds
program_ids = record {
  root = fresh_id 1;
  root_head = fresh_id 2;
  name_form = fresh_id 3;
  name_head = fresh_id 4;
  name_atom = fresh_id 5;
  version_form = fresh_id 6;
  version_head = fresh_id 7;
  version_atom = fresh_id 8;
}

abbrev created_db : Database Text
created_db = database_of (
    create_program diverged (codes "p") (codes "main") (codes "new") program_ids (codes "new")
      (codes "1") none)

create_runs :
    create_program diverged
      (codes "p")
      (codes "main")
      (codes "new")
      program_ids
      (codes "new")
      (codes "1")
      none
    ≡ ok (4, created_db)
unfolding running create_program program_tree checked extend_children
create_runs = refl

abbrev base_state : Documents Text
base_state = (codes "doc", sample) ∷ []

abbrev our_state : Documents Text
our_state = (codes "doc", without (codes "n_6")) ∷ []

abbrev their_state : Documents Text
their_state = (codes "doc", without (codes "n_7")) ∷ (codes "new", sample) ∷ []

abbrev state_of : Result (Documents Text × List Text) → Documents Text × List Text
state_of (ok s) = s
state_of (err e) = ([], [])

abbrev merged_state : Documents Text × List Text
merged_state = state_of (merge_states base_state our_state their_state)

states_merge : merge_states base_state our_state their_state ≡ ok (merged_state.0, merged_state.1)
unfolding running merge_states merge_node atom_eq
states_merge = refl

merge_states-document_example :
    merge_node
      (codes "document:" ++ codes "doc")
      (document_of (codes "doc") base_state)
      (document_of (codes "doc") our_state)
      (document_of (codes "doc") their_state)
    ≡ (document_of (codes "doc") merged_state.0, [])
merge_states-document_example =
    merge_states-document base_state our_state their_state (codes "doc") merged_state.0
      merged_state.1 states_merge
