-- ===== src/Examples/Store.antt =====
-- A project with one revision, an edit of it, and the theorems on publication there.
use weave_jacquard.Prelude.{ℕ, ◌≡◌, refl, true, none, some, [], ◌∷◌, arith}
use weave_jacquard.Prelude.Int.{pos}
use weave_jacquard.Prelude.Text.{Text, codes}
use weave_jacquard.Error.{Result, ok, err, validation, stale_branch_head}
use weave_jacquard.Limits.{integer}
use weave_jacquard.Sexpr.Node.{Node}
use weave_jacquard.Revision.Database.{Database, find_branch}
use weave_jacquard.Revision.Database.Sound.{IsSound}
use weave_jacquard.Revision.Commit.{Request, commit, project_id}
use weave_jacquard.Revision.Commit.Publication.{AllHeads, after_publication}
use weave_jacquard.Revision.Commit.CompareAndSet.{IsPublished, commit_publishes, commit_stale}
use weave_jacquard.Revision.Commit.Success.{commit_succeeds, commit-IsSound}
use weave_jacquard.Revision.Workspace.{
  NodeEdit, delete_node, edit_document, single_request, operation_of,
}
use weave_jacquard.Revision.Workspace.Trees.{IsValidStore, edit_document-IsValidStore}
use weave_jacquard.Revision.Workspace.Edits.{IsEdited, edit_document_publishes, edit_document_race}
use weave_jacquard.Revision.History.{Page, history_page}
use weave_jacquard.Revision.History.Chain.{Chain, Fills, history_page-Chain}
use weave_jacquard.Examples.Data.{sample, text_runtime, running}

abbrev pub p : Text
p = codes "p"

abbrev pub main : Text
main = codes "main"

abbrev pub doc : Text
doc = codes "doc"

abbrev pub sample_db : Database Text
sample_db = record {
  projects = record { id = 0; name = p } ∷ [];
  branches = record { project = 0; name = main; head = 1 } ∷ [];
  revisions =
      record {
        id = 1;
        project = 0;
        parent1 = none;
        parent2 = none;
        modules = (doc, sample) ∷ [];
        operations = [];
        documents = [];
      }
      ∷ [];
  documents = [];
  next = 2;
  compresses = λ t. true;
}

abbrev removal : NodeEdit Text
removal = delete_node (codes "n_7")

abbrev pub database_of : Result (ℕ × Database Text) → Database Text
database_of (ok (i, db)) = db
database_of (err e) = sample_db

abbrev edited_db : Database Text
edited_db = database_of (edit_document sample_db p main doc (some 1) removal)

removal_runs : edit_document sample_db p main doc (some 1) removal ≡ ok (2, edited_db)
unfolding running
removal_runs = refl

pub sample_db-IsSound : IsSound sample_db
unfolding running
sample_db-IsSound = record {
  heads = (refl, tt);
  links = (record { first = tt; second = tt }, tt);
  drawn = (omega arith, tt);
  documents = (refl, tt);
}

sample_db-IsValidStore : IsValidStore sample_db
unfolding running
sample_db-IsValidStore = ((refl, tt), tt)

abbrev empty_request : Request Text
empty_request = single_request main 1 [] (operation_of removal)

abbrev committed_db : Database Text
committed_db = database_of (commit sample_db p main empty_request)

commit_runs : commit sample_db p main empty_request ≡ ok (2, committed_db)
unfolding running
commit_runs = refl

project_runs : project_id sample_db p ≡ ok 0
unfolding running
project_runs = refl

commit_publishes_example :
    (q : ℕ) × (project_id sample_db p ≡ ok q)
    × AllHeads sample_db q ((main, 1) ∷ [])
    × IsPublished sample_db committed_db q main 1 2 empty_request
commit_publishes_example =
    commit_publishes sample_db committed_db p main 1 2 [] empty_request refl commit_runs

abbrev late_request : Request Text
late_request = single_request main 0 [] (operation_of removal)

not_at_0 : ¬ AllHeads sample_db 0 ((main, 0) ∷ [])
unfolding find_branch running
not_at_0 h = cc

commit_stale_example : commit sample_db p main late_request ≡ err (validation stale_branch_head)
commit_stale_example = commit_stale sample_db p main 0 0 [] late_request refl project_runs not_at_0

at_1 : AllHeads sample_db 0 ((main, 1) ∷ [])
unfolding find_branch running
at_1 = (refl, tt)

commit_succeeds_example :
    commit sample_db p main empty_request
    ≡ ok (2, after_publication sample_db 0 main 1 empty_request)
commit_succeeds_example =
    commit_succeeds sample_db p main 1 0 [] empty_request sample_db-IsSound refl project_runs at_1
      refl tt refl

commit-IsSound_example : IsSound committed_db
commit-IsSound_example =
    commit-IsSound sample_db committed_db p main 2 empty_request sample_db-IsSound commit_runs

edit_document-IsValidStore_example : IsValidStore edited_db
edit_document-IsValidStore_example =
    edit_document-IsValidStore sample_db edited_db p main doc (some 1) removal 2
      sample_db-IsValidStore removal_runs

edit_document_publishes_example :
    (q : ℕ) × (base : ℕ) × (root : Node Text) × (root' : Node Text) × (project_id sample_db p
      ≡ ok q)
    × ((e : ℕ) → some 1 ≡ some e → e ≡ base)
    × (find_branch q main sample_db.branches ≡ some base)
    × IsEdited sample_db edited_db q main doc removal base 2 root root'
edit_document_publishes_example =
    edit_document_publishes sample_db edited_db p main doc (some 1) removal 2 removal_runs

edit_document_race_example :
    edit_document edited_db p main doc (some 1) (delete_node (codes "n_6"))
    ≡ err (validation stale_branch_head)
edit_document_race_example =
    edit_document_race sample_db edited_db p main doc doc 1 2 removal (delete_node (codes "n_6"))
      sample_db-IsSound removal_runs

main_at_1 : find_branch 0 main sample_db.branches ≡ some 1
unfolding find_branch running
main_at_1 = refl

history_page-Chain_example :
    (page : Page Text) × (history_page sample_db p main (integer (pos 5)) ≡ ok page)
    × (page.head ≡ 1)
    × Chain sample_db (some 1) page.revisions page.next_revision
    × Fills 5 page.revisions page.next_revision
history_page-Chain_example =
    history_page-Chain sample_db sample_db-IsSound 0 p main 1 5 project_runs main_at_1 (omega arith)
      (omega arith)
