-- ===== src/Retention/Policy.antt =====
-- `normalize_retention_policy` of artifacts/retention/policy.py.
use weave_jacquard.Prelude.{
  ℕ, ◌^◌, leb, ltb, ◌==◌, ◌&&◌, ◌||◌, not, Bool, true, false, if◌then◌else◌, Option, none, some,
  List, [], ◌∷◌, all, any, length, map,
}
use weave_jacquard.Prelude.Int.{pos}
use weave_jacquard.Prelude.Text.{Text, codes, text_eq, mem_text}
use weave_jacquard.Error.{
  Result, ok, err, validation, ◌>>=◌, ◌>>◌, require, artifact_retention_policy_invalid,
  artifact_retention_unsafe_classification,
}
use weave_jacquard.Limits.{Argument, integer}
use weave_jacquard.Merge.States.{text_lt}
use weave_jacquard.Retention.Sorting.{sort}

abbrev pub max_retention_rules : ℕ
max_retention_rules = 64

abbrev pub max_retention_protected_ids : ℕ
max_retention_protected_ids = 10_000

-- RETENTION_SELECTABLE_CLASSIFICATIONS
abbrev pub selectable_classifications : List Text
selectable_classifications = map codes ("corrupt" ∷ "orphaned" ∷ "staging" ∷ "unknown" ∷ [])

-- RETAINED_ARTIFACT_FAMILIES
abbrev pub retained_artifact_families : List Text
retained_artifact_families = map codes (
    "candidate_builds" ∷ "candidate_test_qualifications" ∷ "committed_builds" ∷ "database_backups"
    ∷ "test_batches" ∷ "test_runs" ∷ "tested_merge_attestations" ∷ [])

-- The families that are configured, with the pattern that an artifact id matches in full.
abbrev pub Families : Type 0
Families = List (Text × (Text → Bool))

-- A value inside a policy, as far as the checks tell them apart.
pub data Value : Type 0 where
  text : Text → Value
  number : Argument → Value
  list : List (Option Text) → Value

-- A rule as the operator gives it: an item of a list that is no text is `none`.
pub data RawRule : Type 0 where
  object : List (Text × Value) → RawRule
  not_object : RawRule

pub data Field : Type 0 where
  value : Text → Field
  raw_rules : List RawRule → Field
  other : Field

pub data RawPolicy : Type 0 where
  mapping : List (Text × Field) → RawPolicy
  not_mapping : RawPolicy

pub record Rule : Type 0 where
  pub family : Text
  pub classification : Text
  pub minimum_age_seconds : ℕ
  pub minimum_retained_count : ℕ
  pub protected_artifact_ids : List Text

abbrev pub or_policy_error {ℓ} : {A : Type ℓ} → Option A → Result A
or_policy_error none = err (validation artifact_retention_policy_invalid)
or_policy_error (some a) = ok a

unfoldable pub lookup {ℓ} : {A : Type ℓ} → Text → List (Text × A) → Option A
lookup name [] = none
lookup name ((m, a) ∷ fields) = if text_eq m name then some a else lookup name fields

abbrev pub is_some {ℓ} : {A : Type ℓ} → Option A → Bool
is_some none = false
is_some (some a) = true

-- The names are keys, and the keys are allowed.
unfoldable pub has_keys {ℓ} : {A : Type ℓ} → List Text → List Text → List (Text × A) → Bool
unfolding lookup mem_text
has_keys required allowed fields =
    all (λ name. is_some (lookup name fields)) required && all (λ f. mem_text f.0 allowed) fields

-- `is_sha256`
unfoldable pub is_sha256 : Text → Bool
is_sha256 t =
    length t == 64 && all (λ c. (leb b'0' c && leb c b'9') || (leb b'a' c && leb c b'f')) t

-- 0 <= value <= 2**63 - 1, and no boolean
unfoldable pub nonnegative : Argument → Result ℕ
nonnegative (integer (pos n)) =
    if ltb n (2 ^ 63) then ok n else err (validation artifact_retention_policy_invalid)
nonnegative _ = err (validation artifact_retention_policy_invalid)

unfoldable pub texts_of : List (Option Text) → Option (List Text)
texts_of [] = some []
texts_of (none ∷ items) = none
texts_of (some t ∷ items) = elim (texts_of items) [ some ts ↦ some (t ∷ ts) | none ↦ none ]

unfoldable pub is_unique : List Text → Bool
unfolding mem_text
is_unique [] = true
is_unique (t ∷ ts) = not (mem_text t ts) && is_unique ts

abbrev pub text_of : Option Value → Option Text
text_of (some (text t)) = some t
text_of _ = none

abbrev pub classification_of : Option Text → Result Text
classification_of none = err (validation artifact_retention_unsafe_classification)
classification_of (some c) =
    require (mem_text c selectable_classifications) artifact_retention_unsafe_classification >> ok c

abbrev pub number_of : Option Value → Result ℕ
number_of (some (number n)) = nonnegative n
number_of _ = err (validation artifact_retention_policy_invalid)

-- raw.get("protected_artifact_ids", [])
unfoldable pub protected_of : Option Value → Result (List Text)
unfolding texts_of is_unique
protected_of none = ok []
protected_of (some (list items)) = do
  require (leb (length items) max_retention_protected_ids) artifact_retention_policy_invalid
  ids ← or_policy_error (texts_of items)
  require (is_unique ids) artifact_retention_policy_invalid
  ok ids
protected_of (some v) = err (validation artifact_retention_policy_invalid)

abbrev pub Pair : Type 0
Pair = Text × Text

unfoldable pub seen_pair : Text → Text → List Pair → Bool
unfolding text_eq
seen_pair family classification seen =
    any (λ p. text_eq p.0 family && text_eq p.1 classification) seen

abbrev pub required_fields : List Text
required_fields =
    map codes ("family" ∷ "classification" ∷ "minimum_age_seconds" ∷ "minimum_retained_count" ∷ [])

-- The body of the loop over the rules.
unfoldable pub normalize_rule : Families → List Pair → RawRule → Result Rule
unfolding has_keys lookup mem_text nonnegative protected_of seen_pair sort text_lt
normalize_rule families seen not_object = err (validation artifact_retention_policy_invalid)
normalize_rule families seen (object raw) = do
  require (has_keys required_fields (codes "protected_artifact_ids" ∷ required_fields) raw)
      artifact_retention_policy_invalid
  family ← or_policy_error (text_of (lookup (codes "family") raw))
  require (mem_text family retained_artifact_families) artifact_retention_policy_invalid
  pattern_of ← or_policy_error (lookup family families)
  classification ← classification_of (text_of (lookup (codes "classification") raw))
  require (not (seen_pair family classification seen)) artifact_retention_policy_invalid
  age ← number_of (lookup (codes "minimum_age_seconds") raw)
  count ← number_of (lookup (codes "minimum_retained_count") raw)
  ids ← protected_of (lookup (codes "protected_artifact_ids") raw)
  require (all pattern_of ids) artifact_retention_policy_invalid
  ok (record {
    family = family;
    classification = classification;
    minimum_age_seconds = age;
    minimum_retained_count = count;
    protected_artifact_ids = sort text_lt ids;
  })

unfoldable pub normalize_rules : Families → List Pair → List RawRule → Result (List Rule)
unfolding normalize_rule
normalize_rules families seen [] = ok []
normalize_rules families seen (raw ∷ raws) = do
  rule ← normalize_rule families seen raw
  more ← normalize_rules families ((rule.family, rule.classification) ∷ seen) raws
  ok (rule ∷ more)

-- (family, classification)
unfoldable pub rule_order : Rule → Rule → Bool
unfolding text_lt text_eq
rule_order x y =
    text_lt x.family y.family
    || (text_eq x.family y.family && text_lt x.classification y.classification)

abbrev pub policy_fields : List Text
policy_fields = map codes ("format" ∷ "reconciliation_id" ∷ "rules" ∷ [])

abbrev pub value_of : Option Field → Option Text
value_of (some (value t)) = some t
value_of _ = none

abbrev pub rules_of : Option Field → Option (List RawRule)
rules_of (some (raw_rules raws)) = some raws
rules_of _ = none

-- The reconciliation that a policy is for, and its rules in order.
unfoldable pub normalize_retention_policy : Families → RawPolicy → Result (Text × List Rule)
unfolding has_keys lookup is_sha256 normalize_rules rule_order sort
normalize_retention_policy families not_mapping = err (validation artifact_retention_policy_invalid)
normalize_retention_policy families (mapping fields) = do
  require (has_keys policy_fields policy_fields fields) artifact_retention_policy_invalid
  format ← or_policy_error (value_of (lookup (codes "format") fields))
  require (text_eq format (codes "weave-artifact-retention-policy-v1"))
      artifact_retention_policy_invalid
  reconciliation_id ← or_policy_error (value_of (lookup (codes "reconciliation_id") fields))
  require (is_sha256 reconciliation_id) artifact_retention_policy_invalid
  raws ← or_policy_error (rules_of (lookup (codes "rules") fields))
  require (leb 1 (length raws) && leb (length raws) max_retention_rules)
      artifact_retention_policy_invalid
  rules ← normalize_rules families [] raws
  ok (reconciliation_id, sort rule_order rules)
