-- ===== src/Examples/Plans.antt =====
-- A retention policy and a catalog of three entries.
use weave_jacquard.Prelude.{ℕ, ◌≡◌, ◌≤◌, ◌-◌, refl, leb, some, List, [], ◌∷◌, length, All}
use weave_jacquard.Prelude.Int.{pos}
use weave_jacquard.Prelude.Text.{Text, codes, text_eq, mem_text}
use weave_jacquard.Error.{Result, ok}
use weave_jacquard.Limits.{integer}
use weave_jacquard.Merge.States.{text_lt}
use weave_jacquard.Retention.{
  Entry, matches, matching, may_choose, chosen, choose_all, select, plan_selection, newest_first,
  entry_order, is_old,
}
use weave_jacquard.Retention.Policy.{
  Families, RawPolicy, Rule, Value, value, raw_rules, text, number, list, object, mapping,
  normalize_retention_policy, normalize_rules, normalize_rule, nonnegative, has_keys, lookup,
  is_sha256, texts_of, is_unique, protected_of, seen_pair, rule_order,
}
use weave_jacquard.Retention.Sorting.{sort, insert_sorted, filter}
use weave_jacquard.Retention.Safety.{IsSelected, length-chosen}
use weave_jacquard.Retention.Rules.{
  IsRule, normalize_retention_policy-IsRule, plan_selection-IsSelected,
}

unfoldable plans : Unit {0}
unfolding text_eq mem_text text_lt matching may_choose chosen choose_all select plan_selection
    newest_first entry_order is_old normalize_retention_policy normalize_rules normalize_rule
    nonnegative has_keys lookup is_sha256 texts_of is_unique protected_of seen_pair rule_order sort
    insert_sorted filter
plans = tt

abbrev families : Families
families = (codes "test_runs", λ i. leb (length i) 3) ∷ []

abbrev reconciliation : Text
reconciliation = codes "0123456789abcdef0123456789abcdef0123456789abcdef0123456789abcdef"

abbrev field : Text → Text → Text × Value
field name t = (name, text t)

-- Orphaned test runs of ten seconds and more, the newest one and "b" excepted.
abbrev policy : RawPolicy
policy = mapping (
    (codes "format", value (codes "weave-artifact-retention-policy-v1"))
    ∷ (codes "reconciliation_id", value reconciliation)
    ∷ (
      codes "rules",
      raw_rules (
          object (
            field (codes "family") (codes "test_runs")
            ∷ field (codes "classification") (codes "orphaned")
            ∷ (codes "minimum_age_seconds", number (integer (pos 10)))
            ∷ (codes "minimum_retained_count", number (integer (pos 1)))
            ∷ (codes "protected_artifact_ids", list (some (codes "b") ∷ []))
            ∷ [])
          ∷ []),
    )
    ∷ [])

abbrev entry_of : Text → ℕ → Entry
entry_of name mtime = record {
  family = codes "test_runs";
  classification = codes "orphaned";
  entry_id = name;
  artifact_id = some name;
  mtime_ns = pos mtime;
}

abbrev entries : List Entry
entries = entry_of (codes "a") 1 ∷ entry_of (codes "b") 2 ∷ entry_of (codes "c") 3 ∷ []

abbrev snapshot : Text → Result (List Entry)
snapshot i = ok entries

abbrev now : ℕ
now = 20_000_000_000

abbrev rule : Rule
rule = record {
  family = codes "test_runs";
  classification = codes "orphaned";
  minimum_age_seconds = 10;
  minimum_retained_count = 1;
  protected_artifact_ids = codes "b" ∷ [];
}

policy_runs : normalize_retention_policy families policy ≡ ok (reconciliation, rule ∷ [])
unfolding plans
policy_runs = refl

normalize_retention_policy-IsRule_example :
    All IsRule (rule ∷ []) × (1 ≤ length (rule ∷ [])) × (length (rule ∷ []) ≤ 64)
normalize_retention_policy-IsRule_example =
    normalize_retention_policy-IsRule families policy reconciliation (rule ∷ []) policy_runs

length-chosen_example :
    length (chosen entries rule now)
    ≤ length (filter (matches rule) entries) - rule.minimum_retained_count
length-chosen_example = length-chosen entries rule now

-- Of the three, "c" is the newest and "b" is protected.
plan_runs :
    plan_selection families snapshot policy (integer (pos now)) 5
    ≡ ok ((entry_of (codes "a") 1, rule) ∷ [])
unfolding plans
plan_runs = refl

abbrev only_a : List (Entry × Rule)
only_a = (entry_of (codes "a") 1, rule) ∷ []

plan_selection-IsSelected_example :
    (i : Text) × (rules : List Rule) × (es : List Entry) × (at : ℕ) × (normalize_retention_policy
        families policy
      ≡ ok (i, rules))
    × (snapshot i ≡ ok es)
    × (nonnegative (integer (pos now)) ≡ ok at)
    × (length only_a ≤ 5)
    × All IsRule rules
    × All (IsSelected es rules at) only_a
plan_selection-IsSelected_example =
    plan_selection-IsSelected families snapshot policy (integer (pos now)) 5 only_a plan_runs
