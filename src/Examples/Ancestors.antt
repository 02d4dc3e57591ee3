-- ===== src/Examples/Ancestors.antt =====
-- Two revisions of a candidate's database: the later one is over the earlier one.
use weave_jacquard.Prelude.{◌≡◌, ◌↔◌, refl, true, [], ◌∷◌, All}
use weave_jacquard.Prelude.Text.{Text}
use weave_jacquard.Error.{Result, ok, err}
use weave_jacquard.Error.Halts.{Halts}
use weave_jacquard.Revision.Database.{Database}
use weave_jacquard.Revision.Dag.{
  left, right, Traversal, untravelled, traverse, traversal_fuel, load, mark, get, put,
  common_ancestors, member, analyze_common_ancestors, parents_of, best_common_ancestors,
  count_children, count_parents, no_children, sorted, push_sorted, pass_loop, release,
}
use weave_jacquard.Revision.Dag.Common.{IsCommon, common_ancestors_iff}
use weave_jacquard.Revision.Dag.Answers.{analyze_common_ancestors_halts}
use weave_jacquard.Examples.Candidates.{candidates, edited_store}

abbrev db : Database Text
db = edited_store.db

abbrev or_untravelled : Result Traversal → Traversal
or_untravelled (ok t) = t
or_untravelled (err e) = untravelled

abbrev travelled : Traversal
travelled =
    or_untravelled
      (traverse (parents_of db) traversal_fuel ((3, left) ∷ (1, right) ∷ []) untravelled)

traverse_runs :
    traverse (parents_of db) traversal_fuel ((3, left) ∷ (1, right) ∷ []) untravelled ≡ ok travelled
unfolding candidates traverse load mark get put parents_of
traverse_runs = refl

common_ancestors_iff_example :
    (member 1 (common_ancestors travelled.reachability) ≡ true) ↔ IsCommon (parents_of db) 3 1 1
common_ancestors_iff_example = common_ancestors_iff (parents_of db) 3 1 travelled 1 traverse_runs

analyze_common_ancestors_halts_example :
    Halts
      (λ a. All (IsCommon (parents_of db) 3 1) a.best)
      (analyze_common_ancestors (parents_of db) 3 1)
analyze_common_ancestors_halts_example = analyze_common_ancestors_halts db 3 1

best_of_two :
    analyze_common_ancestors (parents_of db) 3 1
    ≡ ok (record { best = 1 ∷ []; common_count = 1; nodes_visited = 2; edges_visited = 1 })
unfolding candidates traverse load mark get put parents_of common_ancestors best_common_ancestors
    count_children count_parents no_children sorted push_sorted pass_loop release
    analyze_common_ancestors
best_of_two = refl
