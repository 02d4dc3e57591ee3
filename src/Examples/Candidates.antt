-- ===== src/Examples/Candidates.antt =====
-- Candidates on the sample store: two from the same base, one edited, qualified and published.
use weave_jacquard.Prelude.{
  ℕ, ◌≡◌, refl, true, false, Option, none, some, List, [], ◌∷◌, reverse, ltb, arith,
}
use weave_jacquard.Prelude.Text.{Text, codes}
use weave_jacquard.Error.{Result, ok, err, validation, publication_race, stale_revision}
use weave_jacquard.Merge.States.{text_lt}
use weave_jacquard.Revision.Commit.{project_id, require_expected_head, state_at_revision}
use weave_jacquard.Revision.Database.{Revision, belongs, find_branch, initialize_project}
use weave_jacquard.Revision.Reachable.{initialized}
use weave_jacquard.Sexpr.Render.{render_node, render_canonical, flat_text_if_fits}
use weave_jacquard.Candidate.{
  Edit, open_candidate, apply_candidate_batch, inspect, load, require_open,
  require_project_revision, candidate_name_matches, name_rest, open_transaction, commit_transaction,
  publish_transaction, qualification_view, edit_loop, edit_history,
}
use weave_jacquard.Candidate.Table.{
  opened, Level, compiler, Outcome, passed, Candidate, Store, find_candidate, has_open,
  insert_candidate, update_candidate, insert_qualification, latest_qualification,
}
use weave_jacquard.Candidate.Qualify.{
  Answer, level_named, insert_document, sorted_documents, require_qualification, syntactic_evidence,
  render_all, compiler_evidence, outcome_at, qualify_transaction, qualify, publish, required_base,
}
use weave_jacquard.Candidate.Ancestry.{Ancestor, EditChain}
use weave_jacquard.Candidate.Invariants.{IsConsistent, AllContinue}
use weave_jacquard.Candidate.Lifecycle.{
  Transaction-AllContinue, Transaction-IsConsistent, Used-IsConsistent,
}
use weave_jacquard.Candidate.Transactions.{Transaction, worked, Used, at_first, after}
use weave_jacquard.Candidate.Calls.{opened_by, edited_by, qualified_by, Call-Transaction}
use weave_jacquard.Candidate.Publishing.{
  IsPublished, IsQualified, publish_advances, publish-IsQualified, publish_keeps_history,
  publish_race,
}
use weave_jacquard.Candidate.Effects.{qualified_row}
use weave_jacquard.Candidate.Evidence.{NothingOrAccepted, qualify_shows}
use weave_jacquard.Revision.Workspace.Trees.{AllValid}
use weave_jacquard.Candidate.Edits.{IsEdited, apply_candidate_batch-IsEdited, inspect_succeeds}
use weave_jacquard.Examples.Data.{text_runtime, ascii_digits, running}
use weave_jacquard.Examples.Store.{p, main, doc, sample_db, sample_db-IsSound}
use weave_jacquard.Examples.Batches.{batches, edits, new_id}
use weave_jacquard.Examples.Use.{first_db, first_runs}

abbrev first_store : Store Text
first_store = record { db = sample_db; candidates = []; qualifications = [] }

abbrev store_of : {A : Type 0} → Result (A × Store Text) → Store Text
store_of (ok (a, s)) = s
store_of (err e) = first_store

abbrev or_first : Result (Store Text) → Store Text
or_first (ok s) = s
or_first (err e) = first_store

unfoldable pub candidates : Unit {0}
unfolding batches open_candidate apply_candidate_batch inspect load require_open
    require_project_revision candidate_name_matches name_rest open_transaction commit_transaction
    publish_transaction qualification_view edit_loop edit_history find_candidate has_open
    insert_candidate update_candidate insert_qualification latest_qualification level_named
    insert_document sorted_documents require_qualification syntactic_evidence render_all
    compiler_evidence outcome_at qualify_transaction qualify publish text_lt belongs render_node
    render_canonical flat_text_if_fits
candidates = tt

abbrev opened_store : Store Text
opened_store = store_of (open_candidate first_store p (codes "one") main none)

opens_one : open_candidate first_store p (codes "one") main none ≡ ok (2, opened_store)
unfolding candidates
opens_one = refl

abbrev pub edited_store : Store Text
edited_store = store_of (apply_candidate_batch new_id opened_store p 2 doc edits (some 1))

edits_one : apply_candidate_batch new_id opened_store p 2 doc edits (some 1) ≡ ok (3, edited_store)
unfolding candidates
edits_one = refl

-- A compiler that accepts every program.
abbrev accepts : List (Text × Text) → Result Answer
accepts sources = ok (record { is_unavailable = false; is_valid = true })

abbrev qualified_store : Store Text
qualified_store = store_of (qualify accepts edited_store p 2 (codes "compiler") none 7)

qualifies_one : qualify accepts edited_store p 2 (codes "compiler") none 7 ≡ ok (4, qualified_store)
unfolding candidates
qualifies_one = refl

abbrev published_store : Store Text
published_store =
    or_first (publish ltb qualified_store p 2 main (some (codes "compiler")) none none)

publishes_one :
    publish ltb qualified_store p 2 main (some (codes "compiler")) none none ≡ ok published_store
unfolding candidates
publishes_one = refl

first_store-IsConsistent : IsConsistent first_store
first_store-IsConsistent = record {
  sound = sample_db-IsSound;
  based = λ i c found. unfold find_candidate in cc;
}

after_open : Transaction new_id first_store opened_store
after_open =
    Call-Transaction new_id first_store opened_store
      (opened_by p (codes "one") main none 2 opens_one)

after_edit : Transaction new_id opened_store edited_store
after_edit =
    Call-Transaction new_id opened_store edited_store
      (edited_by new_id p 2 doc edits (some 1) 3 edits_one)

after_qualification : Transaction new_id edited_store qualified_store
after_qualification =
    Call-Transaction new_id edited_store qualified_store
      (qualified_by accepts p 2 (codes "compiler") none 7 4 qualifies_one)

Transaction-AllContinue_example : AllContinue opened_store.candidates edited_store.candidates
Transaction-AllContinue_example =
    Transaction-AllContinue new_id opened_store edited_store after_edit

opened_store-IsConsistent : IsConsistent opened_store
opened_store-IsConsistent =
    Transaction-IsConsistent new_id first_store opened_store first_store-IsConsistent after_open

edited_store-IsConsistent : IsConsistent edited_store
edited_store-IsConsistent =
    Transaction-IsConsistent new_id opened_store edited_store opened_store-IsConsistent after_edit

qualified_store-IsConsistent : IsConsistent qualified_store
qualified_store-IsConsistent =
    Transaction-IsConsistent new_id edited_store qualified_store edited_store-IsConsistent
      after_qualification

-- A project made and a candidate opened in an empty store.
abbrev made_store : Store Text
made_store = record { db = first_db; candidates = []; qualifications = [] }

abbrev begun_store : Store Text
begun_store = store_of (open_candidate made_store p (codes "one") main none)

begins : open_candidate made_store p (codes "one") main none ≡ ok (2, begun_store)
unfolding candidates initialize_project
begins = refl

begun_store-Used : Used new_id begun_store
begun_store-Used =
    after (after (at_first (λ t. true) []) (worked (initialized p (0, 1) first_runs))) (
      Call-Transaction new_id made_store begun_store (opened_by p (codes "one") main none 2 begins))

Used-IsConsistent_example : IsConsistent begun_store
Used-IsConsistent_example = Used-IsConsistent new_id begun_store begun_store-Used

publish_advances_example :
    (c : Candidate) × IsPublished qualified_store published_store p 2 main (required_base none c) c
publish_advances_example =
    publish_advances ltb qualified_store published_store p 2 main (some (codes "compiler")) none
      none publishes_one

publish-IsQualified_example :
    (c : Candidate) × (find_candidate 2 qualified_store.candidates ≡ some c)
    × IsQualified qualified_store.qualifications 2 c.head (codes "compiler")
publish-IsQualified_example =
    publish-IsQualified ltb qualified_store published_store p 2 main (codes "compiler") none none
      publishes_one

publish_keeps_history_example :
    (q old new : ℕ) × (project_id qualified_store.db p ≡ ok q)
    × (find_branch q main qualified_store.db.branches ≡ some old)
    × (find_branch q main published_store.db.branches ≡ some new)
    × Ancestor published_store.db old new
publish_keeps_history_example =
    publish_keeps_history ltb qualified_store published_store p 2 main (some (codes "compiler"))
      none qualified_store-IsConsistent publishes_one

abbrev edited_row : Candidate
edited_row = record {
  id = 2;
  project = 0;
  name = codes "one";
  base = 1;
  head = 3;
  status = opened;
  publication = none;
}

-- Two open candidates from revision 1: the first has an edit, revision 3.
abbrev second_row : Candidate
second_row = record {
  id = 5;
  project = 0;
  name = codes "two";
  base = 1;
  head = 1;
  status = opened;
  publication = none;
}

abbrev bare_revision : ℕ → Option ℕ → Revision Text
bare_revision i parent = record {
  id = i;
  project = 0;
  parent1 = parent;
  parent2 = none;
  modules = [];
  operations = [];
  documents = [];
}

abbrev two_store : Store Text
two_store = record {
  db = record {
    projects = record { id = 0; name = p } ∷ [];
    branches = record { project = 0; name = main; head = 1 } ∷ [];
    revisions = bare_revision 3 (some 1) ∷ bare_revision 1 none ∷ [];
    documents = [];
    next = 6;
    compresses = λ t. true;
  };
  candidates = edited_row ∷ second_row ∷ [];
  qualifications = [];
}

abbrev raced_store : Store Text
raced_store = or_first (publish ltb two_store p 2 main none none none)

publishes_first : publish ltb two_store p 2 main none none none ≡ ok raced_store
unfolding candidates
publishes_first = refl

first_is_found : find_candidate 2 two_store.candidates ≡ some edited_row
unfolding candidates
first_is_found = refl

second_is_open : require_open raced_store p 5 ≡ ok second_row
unfolding candidates
second_is_open = refl

expects_head : require_expected_head 1 (some 1) stale_revision ≡ ok tt
unfolding running
expects_head = refl

asks_nothing :
    require_qualification none
      (qualification_view 1 (latest_qualification ltb 5 raced_store.qualifications))
    ≡ ok tt
unfolding require_qualification
asks_nothing = refl

publish_race_example :
    publish ltb raced_store p 5 main none none (some 1) ≡ err (validation publication_race)
publish_race_example =
    publish_race ltb two_store raced_store p 2 main none none none edited_row 5 none none (some 1)
      second_row publishes_first first_is_found (omega arith) second_is_open expects_head
      asks_nothing refl

apply_candidate_batch-IsEdited_example : IsEdited new_id opened_store edited_store 2 doc edits 3
apply_candidate_batch-IsEdited_example =
    apply_candidate_batch-IsEdited new_id opened_store edited_store p 2 doc edits (some 1) 3
      edits_one

loads_one : load edited_store p 2 ≡ ok edited_row
unfolding candidates
loads_one = refl

inspect_succeeds_example :
    (es : List Edit) × EditChain edited_store.db 1 3 es
    × (inspect ltb edited_store p 2
        ≡ ok (record {
          candidate = edited_row;
          edits = reverse es;
          view = qualification_view 3 (latest_qualification ltb 2 edited_store.qualifications);
        }))
inspect_succeeds_example =
    inspect_succeeds ltb edited_store p 2 edited_row edited_store-IsConsistent loads_one

qualify_shows_example :
    (c : Candidate) × (level : Level) × (outcome : Outcome) × (find_candidate 2
        edited_store.candidates
      ≡ some c)
    × (level_named (codes "compiler") ≡ ok level)
    × (qualified_store.qualifications
        ≡ qualified_row 4 c.id c.head level outcome 7 ∷ edited_store.qualifications)
    × (outcome ≡ passed
        → AllValid (state_at_revision edited_store.db c.head)
          × (level ≡ compiler
              → NothingOrAccepted accepts
                  (sorted_documents (state_at_revision edited_store.db c.head))))
qualify_shows_example =
    qualify_shows accepts edited_store qualified_store p 2 (codes "compiler") none 7 4 qualifies_one
