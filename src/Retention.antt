-- ===== src/Retention.antt =====
-- artifacts/retention: the policy that an operator gives (policy.py), and the choice of the entries
-- that a plan may recover (planner.py). What the catalog reads from the file system, and the
-- patterns of the artifact ids of each family, are parameters. The measuring of the chosen entries
-- and the hashes that identify a plan are not modelled.
pub mod Policy
pub mod Sorting
pub mod Safety
pub mod Rules
use weave_jacquard.Prelude.{
  ℕ, suc, ◌+◌, ◌*◌, ◌-◌, leb, ltb, ◌==◌, ◌&&◌, ◌||◌, not, Bool, true, false, if◌then◌else◌, Option,
  none, some, List, [], ◌∷◌, ◌++◌, length, map, take,
}
use weave_jacquard.Prelude.Int.{ℤ, pos, negsuc, int_eq}
use weave_jacquard.Prelude.Text.{Text, text_eq, mem_text}
use weave_jacquard.Error.{
  Result, ok, ◌>>=◌, ◌>>◌, require, artifact_retention_policy_invalid,
  artifact_retention_plan_limit_exceeded,
}
use weave_jacquard.Limits.{Argument}
use weave_jacquard.Merge.States.{text_lt}
use weave_jacquard.Retention.Policy.{
  Rule, RawPolicy, Families, normalize_retention_policy, nonnegative,
}
use weave_jacquard.Retention.Sorting.{sort, filter}

-- An entry of the catalog, less its path and its type.
pub record Entry : Type 0 where
  pub family : Text
  pub classification : Text
  pub entry_id : Text
  pub artifact_id : Option Text
  pub mtime_ns : ℤ

abbrev pub max_retention_plan_entries : ℕ
max_retention_plan_entries = 10_000

abbrev pub int_lt : ℤ → ℤ → Bool
int_lt (pos a) (pos b) = ltb a b
int_lt (pos a) (negsuc b) = false
int_lt (negsuc a) (pos b) = true
int_lt (negsuc a) (negsuc b) = ltb b a

-- item["artifact_id"] or ""
abbrev pub id_or_empty : Option Text → Text
id_or_empty none = []
id_or_empty (some i) = i

-- The order of two tuples, from the orders of their first and of their other components.
abbrev pub then_by : Bool → Bool → Bool → Bool
then_by less same rest = less || (same && rest)

-- (-mtime_ns, artifact_id or "", entry_id)
unfoldable pub newest_first : Entry → Entry → Bool
unfolding text_lt text_eq
newest_first x y =
    let a = id_or_empty x.artifact_id in
    let b = id_or_empty y.artifact_id in
    then_by (int_lt y.mtime_ns x.mtime_ns) (int_eq x.mtime_ns y.mtime_ns)
      (then_by (text_lt a b) (text_eq a b) (text_lt x.entry_id y.entry_id))

-- `entry_order`
unfoldable pub entry_order : Entry → Entry → Bool
unfolding text_lt text_eq
entry_order x y =
    let a = id_or_empty x.artifact_id in
    let b = id_or_empty y.artifact_id in
    then_by (text_lt x.family y.family) (text_eq x.family y.family) (
      then_by (text_lt x.classification y.classification)
        (text_eq x.classification y.classification)
        (then_by (int_lt x.mtime_ns y.mtime_ns) (int_eq x.mtime_ns y.mtime_ns)
          (then_by (text_lt a b) (text_eq a b) (text_lt x.entry_id y.entry_id))))

abbrev pub nanoseconds : ℕ → ℕ
nanoseconds seconds = seconds * 1_000_000_000

-- as_of - mtime >= age, the two sides moved so that neither is negative
unfoldable pub is_old : ℕ → ℕ → ℤ → Bool
is_old as_of age (pos m) = leb (age + m) as_of
is_old as_of age (negsuc m) = leb age (as_of + suc m)

abbrev pub matches : Rule → Entry → Bool
matches rule item =
    text_eq item.family rule.family && text_eq item.classification rule.classification

abbrev pub is_protected : Rule → Entry → Bool
is_protected rule item = elim item.artifact_id [
  | none ↦ false
  | some i ↦ mem_text i rule.protected_artifact_ids
]

-- The entries that a rule is about, the newest first.
unfoldable pub matching : List Entry → Rule → List Entry
unfolding sort newest_first text_eq filter
matching entries rule = sort newest_first (filter (matches rule) entries)

unfoldable pub may_choose : Rule → ℕ → List Text → Entry → Bool
unfolding is_old mem_text
may_choose rule as_of retained item =
    not (mem_text item.entry_id retained)
    && (not (is_protected rule item)
        && is_old as_of (nanoseconds rule.minimum_age_seconds) item.mtime_ns)

-- What a rule chooses of the entries that it is about.
unfoldable pub chosen : List Entry → Rule → ℕ → List Entry
unfolding matching may_choose filter
chosen entries rule as_of =
    let items = matching entries rule in
    let retained = map (λ x. x.entry_id) (take rule.minimum_retained_count items) in
    filter (may_choose rule as_of retained) items

unfoldable pub choose_all : List Entry → List Rule → ℕ → List (Entry × Rule)
unfolding chosen
choose_all entries [] as_of = []
choose_all entries (rule ∷ rules) as_of =
    map (λ item. (item, rule)) (chosen entries rule as_of) ++ choose_all entries rules as_of

-- `_select`, less its reports
unfoldable pub select : List Entry → List Rule → ℕ → List (Entry × Rule)
unfolding choose_all sort entry_order
select entries rules as_of = sort (λ x y. entry_order x.0 y.0) (choose_all entries rules as_of)

-- `plan` up to the bound on what it selects. `snapshot` is what the catalog gives for a
-- reconciliation.
unfoldable pub plan_selection :
    Families
    → (Text → Result (List Entry))
    → RawPolicy
    → Argument
    → ℕ
    → Result (List (Entry × Rule))
unfolding normalize_retention_policy select
plan_selection families snapshot policy as_of max_entries = do
  now ← nonnegative as_of
  (reconciliation_id, rules) ← normalize_retention_policy families policy
  entries ← snapshot reconciliation_id
  let selected = select entries rules now
  require (leb (length selected) max_entries) artifact_retention_plan_limit_exceeded
  ok selected
