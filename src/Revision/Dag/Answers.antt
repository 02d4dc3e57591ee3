-- ===== src/Revision/Dag/Answers.antt =====
-- What the analysis of revision_dag.py answers for the revisions of a database.
use weave_jacquard.Prelude.{
  ℕ, ◌+◌, ◌≡◌, ◌≢◌, refl, ◌==◌, Option, none, some, List, [], ◌∷◌, length, All,
}
use weave_jacquard.Error.{Result, ok, err, out_of_fuel, not_found, require, revision_dag_cycle}
use weave_jacquard.Error.Halts.{Halts, ≢-Halts}
use weave_jacquard.Revision.Database.{Revision, Database, find_revision}
use weave_jacquard.Revision.Dag.{
  left, right, get, put, keys, pass_loop, sorted, no_children, without, zero_counts, untravelled,
  traverse, traversal_fuel, common_ancestors, count_parents, count_children, best_common_ancestors,
  some_common, analyze_common_ancestors, parents_of,
}
use weave_jacquard.Revision.Dag.Halts.{bind_answers, require_answers, analysis_traversal_halts}
use weave_jacquard.Revision.Dag.Common.{IsCommon, analyze_common_ancestors-IsCommon}

parents_of-answers : {F : Type 0} (db : Database F) (i : ℕ) → parents_of db i ≢ err out_of_fuel
unfolding parents_of
parents_of-answers {F} db i h = go (find_revision i db.revisions) h
  where
    go :
        (o : Option (Revision F))
        → ◌≡◌ {A = Result (Option ℕ × Option ℕ)}
            (elim o [ some v ↦ ok (v.parent1, v.parent2) | none ↦ err not_found ])
            (err out_of_fuel)
        → ⊥
    go none k = cc
    go (some v) k = cc

count_parents-answers :
    (ps : List ℕ) (counts : List (ℕ × ℕ)) → count_parents ps counts ≢ err out_of_fuel
unfolding count_parents
count_parents-answers [] counts h = cc
count_parents-answers (p ∷ ps) counts h =
    go (get p counts) (λ n. count_parents-answers ps (put p (n + 1) counts)) h
  where
    go :
        (o : Option ℕ)
        → ((n : ℕ) → count_parents ps (put p (n + 1) counts) ≢ err out_of_fuel)
        → (elim o [ some n ↦ count_parents ps (put p (n + 1) counts) | none ↦ err not_found ])
          ≡ err out_of_fuel
        → ⊥
    go none others k = cc
    go (some n) others k = others n k

count_children-answers :
    (rows : List (ℕ × List ℕ)) (counts : List (ℕ × ℕ))
    → count_children rows counts ≢ err out_of_fuel
unfolding count_children
count_children-answers [] counts h = cc
count_children-answers ((i, ps) ∷ rows) counts h =
    bind_answers (count_parents ps counts) (count_children rows) (count_parents-answers ps counts)
      (λ c e. count_children-answers rows c) h

ok_answers : {A : Type 0} (a : A) → ok a ≢ err out_of_fuel
ok_answers a h = cc

best_common_ancestors-answers :
    (parents : List (ℕ × List ℕ)) (common : List ℕ)
    → best_common_ancestors parents common ≢ err out_of_fuel
unfolding best_common_ancestors
best_common_ancestors-answers parents common =
    bind_answers (count_children parents (zero_counts (keys parents))) _
      (count_children-answers parents (zero_counts (keys parents)))
      λ counts e.
        let s = pass_loop parents common (length parents) (record {
          child_counts = counts;
          ready = sorted (no_children counts);
          common_descendant = [];
          non_best = [];
          processed = 0;
        }) in
        bind_answers (require (s.processed == length parents) revision_dag_cycle) _
          (require_answers (s.processed == length parents) revision_dag_cycle)
          λ u e'. ok_answers (sorted (without common s.non_best))

some_common-answers : (is : List ℕ) → some_common is ≢ err out_of_fuel
unfolding some_common
some_common-answers [] h = cc
some_common-answers (i ∷ is) h = cc

answered :
    {A : Type 0} (P : A → Type 0) (m : Result A)
    → m ≢ err out_of_fuel
    → ((a : A) → m ≡ ok a → P a)
    → Halts P m
answered P (ok a) h f = f a refl
answered P (err e) h f = ≢-Halts (err e) h

-- For two revisions of a database, the analysis returns merge bases that both revisions reach by
-- parents, or raises an error of the code: the fuel of its traversal is enough.
pub analyze_common_ancestors_halts :
    {F : Type 0} (db : Database F) (l r : ℕ)
    → Halts
        (λ a. All (IsCommon (parents_of db) l r) a.best)
        (analyze_common_ancestors (parents_of db) l r)
unfolding analyze_common_ancestors
analyze_common_ancestors_halts db l r =
    answered (λ a. All (IsCommon (parents_of db) l r) a.best)
      (analyze_common_ancestors (parents_of db) l r)
      (bind_answers
        (traverse (parents_of db) traversal_fuel ((l, left) ∷ (r, right) ∷ []) untravelled) _
        (analysis_traversal_halts (parents_of db) (parents_of-answers db) l r)
        λ t e.
          bind_answers (best_common_ancestors t.parents (common_ancestors t.reachability)) _
            (best_common_ancestors-answers t.parents (common_ancestors t.reachability))
            λ best e'.
              bind_answers (some_common (common_ancestors t.reachability)) _
                (some_common-answers (common_ancestors t.reachability)) λ u e'' h. cc)
      (analyze_common_ancestors-IsCommon (parents_of db) l r)
