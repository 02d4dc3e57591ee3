-- ===== src/Revision/History.antt =====
-- `history_page` of service.py, and the walk of `_require_first_parent_reachable` in revert.py:
-- both go from first parent to first parent.
pub mod Chain
use weave_jacquard.Prelude.{
  ℕ, zero, suc, Bool, true, false, ◌==◌, if◌then◌else◌, Option, none, some, List, [], ◌∷◌, any,
}
use weave_jacquard.Prelude.Text.{Text}
use weave_jacquard.Error.{
  Result, ok, err, validation, ◌>>=◌, ◌>>◌, require, invalid_branch_history_limit,
  revision_history_cycle, revert_history_scan_limit, revision_not_on_branch,
}
use weave_jacquard.Limits.{Argument, require_bounded_int, max_branch_history_page_size}
use weave_jacquard.Revision.Database.{Revision, Database, find_revision}
use weave_jacquard.Revision.Commit.{branch_head, or_not_found}

pub record Page (F : Type 0) : Type 0 where
  pub head : ℕ
  pub revisions : List (Revision F)
  pub next_revision : Option ℕ

abbrev pub seen_before : ℕ → List ℕ → Bool
seen_before i seen = any (λ j. j == i) seen

module _ {F : Type 0} where
  -- The loop, with the number of entries that the page still has room for.
  unfoldable pub history_loop :
      Database F → ℕ → Option ℕ → List ℕ → Result (List (Revision F) × Option ℕ)
  history_loop db zero current seen = ok ([], current)
  history_loop db (suc room) none seen = ok ([], none)
  history_loop db (suc room) (some i) seen =
      if seen_before i seen
      then err (validation revision_history_cycle)
      else (or_not_found (find_revision i db.revisions) >>= λ v.
          history_loop db room v.parent1 (i ∷ seen) >>= λ (rest, next). ok (v ∷ rest, next))

  unfoldable pub history_page : Database F → Text → Text → Argument → Result (Page F)
  history_page db project branch limit = do
    size ← require_bounded_int limit invalid_branch_history_limit 1 max_branch_history_page_size
    head ← branch_head db project branch
    (revisions, next) ← history_loop db size (some head) []
    ok (record { head = head; revisions = revisions; next_revision = next })

  -- `first_parent_of` is None for a missing row, too.
  unfoldable pub first_parent_of : Database F → ℕ → Option ℕ
  first_parent_of db i = elim (find_revision i db.revisions) [ some v ↦ v.parent1 | none ↦ none ]

  -- `_require_first_parent_reachable`, with the number of revisions that it may still scan.
  unfoldable pub require_reachable : Database F → ℕ → Option ℕ → ℕ → Result (Unit {0})
  require_reachable db room none selected = err (validation revision_not_on_branch)
  require_reachable db zero (some i) selected = err (validation revert_history_scan_limit)
  require_reachable db (suc room) (some i) selected =
      let on = require_reachable db room (first_parent_of db i) selected in
      if i == selected then ok tt else on
