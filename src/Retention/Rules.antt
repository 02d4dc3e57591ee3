-- ===== src/Retention/Rules.antt =====
-- The rules that `normalize_retention_policy` lets through, and the plans made of them.
use weave_jacquard.Prelude.{
  ℕ, suc, ◌^◌, ◌≤◌, ◌<◌, ◌≡◌, refl, sym, ap, subst, ◌∙◌, leb, ◌&&◌, not, all, true, Option, none,
  some, List, [], ◌∷◌, length, All, arith,
}
use weave_jacquard.Prelude.Text.{Text, codes, mem_text, text_eq}
use weave_jacquard.Error.{
  Result, ok, >>=-eq-ok, require, require-eq-ok, ok-injective, artifact_retention_policy_invalid,
  artifact_retention_unsafe_classification, artifact_retention_plan_limit_exceeded,
}
use weave_jacquard.Prelude.Int.{pos, negsuc}
use weave_jacquard.Limits.{Argument, integer, boolean, other}
use weave_jacquard.Retention.{Entry, select, plan_selection}
use weave_jacquard.Retention.Policy.{
  Families, RawPolicy, Rule, normalize_retention_policy, nonnegative, selectable_classifications,
  retained_artifact_families, max_retention_protected_ids, Value, text, number, list, Pair, RawRule,
  object, not_object, texts_of, protected_of, number_of, text_of, or_policy_error, lookup, has_keys,
  required_fields, seen_pair, classification_of, normalize_rule, normalize_rules, rule_order,
  mapping, not_mapping, is_unique, policy_fields, value_of, rules_of, is_sha256,
  max_retention_rules,
}
use weave_jacquard.Retention.Sorting.{sort, All-sort, length-sort}
use weave_jacquard.Retention.Safety.{IsSelected, select-IsSelected}
use weave_jacquard.Merge.States.{text_lt}

-- A rule that the policy's checks let through.
pub record IsRule (rule : Rule) : Type 0 where
  pub selectable : mem_text rule.classification selectable_classifications ≡ true
  pub family : mem_text rule.family retained_artifact_families ≡ true
  pub age : rule.minimum_age_seconds < 2 ^ 63
  pub count : rule.minimum_retained_count < 2 ^ 63
  pub protected : length rule.protected_artifact_ids ≤ max_retention_protected_ids

nonnegative-lt : (a : Argument) (n : ℕ) → nonnegative a ≡ ok n → n < 2 ^ 63
unfolding nonnegative
nonnegative-lt (integer (pos m)) n h = ground arith
nonnegative-lt (integer (negsuc m)) n h = cc
nonnegative-lt (boolean b) n h = cc
nonnegative-lt other n h = cc

or_policy_error-eq-ok {ℓ} :
    {A : Type ℓ} (o : Option A) (a : A) → or_policy_error o ≡ ok a → o ≡ some a
or_policy_error-eq-ok none a h = cc
or_policy_error-eq-ok (some b) a h = cc

classification_of-selectable :
    (c : Option Text) (classification : Text)
    → classification_of c ≡ ok classification
    → mem_text classification selectable_classifications ≡ true
classification_of-selectable none classification h = cc
classification_of-selectable (some c) classification h =
    let (u, e, k) =
      >>=-eq-ok
        (require (mem_text c selectable_classifications) artifact_retention_unsafe_classification) _
        h in
    let same : c ≡ classification = cc in
    subst (λ x. mem_text x selectable_classifications ≡ true) same (require-eq-ok _ _ e)

texts_of-length :
    (items : List (Option Text)) (ts : List Text)
    → texts_of items ≡ some ts
    → length ts ≡ length items
unfolding texts_of
texts_of-length [] ts h = let same : ts ≡ [] = cc in rw same refl
texts_of-length (none ∷ items) ts h = cc
texts_of-length (some t ∷ items) ts h = one_more (texts_of items) h (texts_of-length items)
  where
    one_more :
        (o : Option (List Text))
        → (elim o [ some us ↦ some (t ∷ us) | none ↦ none ]) ≡ some ts
        → ((us : List Text) → o ≡ some us → length us ≡ length items)
        → length ts ≡ suc (length items)
    one_more none k others = cc
    one_more (some us) k others =
        let same : t ∷ us ≡ ts = cc in ap length (sym same) ∙ ap suc (others us refl)

protected_of-le :
    (v : Option Value) (ids : List Text)
    → protected_of v ≡ ok ids
    → length ids ≤ max_retention_protected_ids
unfolding protected_of
protected_of-le none ids h = let same : ids ≡ [] = cc in rw same (omega arith)
protected_of-le (some (list items)) ids h =
    let (u₁, e₁, h₁) =
      >>=-eq-ok
        (require (leb (length items) max_retention_protected_ids) artifact_retention_policy_invalid)
        _ h in
    let (ts, e₂, h₂) = >>=-eq-ok (or_policy_error (texts_of items)) _ h₁ in
    let (u₃, e₃, h₃) = >>=-eq-ok (require (is_unique ts) artifact_retention_policy_invalid) _ h₂ in
    let few : leb (length items) max_retention_protected_ids ≡ true = require-eq-ok _ _ e₁ in
    let same : ts ≡ ids = cc in
    let same_length : length ids ≡ length items =
      ap length (sym same)
      ∙ texts_of-length items ts (or_policy_error-eq-ok (texts_of items) ts e₂) in
    ground (arith, same_length)
protected_of-le (some (text t)) ids h = cc
protected_of-le (some (number n)) ids h = cc

number_of-lt : (v : Option Value) (n : ℕ) → number_of v ≡ ok n → n < 2 ^ 63
number_of-lt none n h = cc
number_of-lt (some (number a)) n h = nonnegative-lt a n h
number_of-lt (some (text t)) n h = cc
number_of-lt (some (list items)) n h = cc

normalize_rule-IsRule :
    (families : Families) (seen : List Pair) (raw : RawRule) (rule : Rule)
    → normalize_rule families seen raw ≡ ok rule
    → IsRule rule
unfolding normalize_rule
normalize_rule-IsRule families seen not_object rule h = cc
normalize_rule-IsRule families seen (object raw) rule h =
    let (u₁, e₁, h₁) =
      >>=-eq-ok
        (require (has_keys required_fields (codes "protected_artifact_ids" ∷ required_fields) raw)
          artifact_retention_policy_invalid)
        _ h in
    let (family, e₂, h₂) =
      >>=-eq-ok (or_policy_error (text_of (lookup (codes "family") raw))) _ h₁ in
    let (u₃, e₃, h₃) =
      >>=-eq-ok
        (require (mem_text family retained_artifact_families) artifact_retention_policy_invalid) _
        h₂ in
    let (pattern_of, e₄, h₄) = >>=-eq-ok (or_policy_error (lookup family families)) _ h₃ in
    let (classification, e₅, h₅) =
      >>=-eq-ok (classification_of (text_of (lookup (codes "classification") raw))) _ h₄ in
    let (u₆, e₆, h₆) =
      >>=-eq-ok
        (require (not (seen_pair family classification seen)) artifact_retention_policy_invalid) _
        h₅ in
    let (age, e₇, h₇) = >>=-eq-ok (number_of (lookup (codes "minimum_age_seconds") raw)) _ h₆ in
    let (count, e₈, h₈) =
      >>=-eq-ok (number_of (lookup (codes "minimum_retained_count") raw)) _ h₇ in
    let (ids, e₉, h₉) =
      >>=-eq-ok (protected_of (lookup (codes "protected_artifact_ids") raw)) _ h₈ in
    let (u, e, k) =
      >>=-eq-ok (require (all pattern_of ids) artifact_retention_policy_invalid) _ h₉ in
    let same : record {
      family = family;
      classification = classification;
      minimum_age_seconds = age;
      minimum_retained_count = count;
      protected_artifact_ids = sort text_lt ids;
    }
        ≡ rule =
      ok-injective _ rule k in
    subst IsRule same (record {
      selectable =
          classification_of-selectable (text_of (lookup (codes "classification") raw))
            classification e₅;
      family = require-eq-ok _ _ e₃;
      age = number_of-lt (lookup (codes "minimum_age_seconds") raw) age e₇;
      count = number_of-lt (lookup (codes "minimum_retained_count") raw) count e₈;
      protected =
          subst (λ n. n ≤ max_retention_protected_ids) (sym (length-sort text_lt ids))
            (protected_of-le (lookup (codes "protected_artifact_ids") raw) ids e₉);
    })

normalize_rules-IsRule :
    (families : Families) (seen : List Pair) (raws : List RawRule) (rules : List Rule)
    → normalize_rules families seen raws ≡ ok rules
    → All IsRule rules × (length rules ≡ length raws)
unfolding normalize_rules
normalize_rules-IsRule families seen [] rules h = let same : rules ≡ [] = cc in rw same (tt, refl)
normalize_rules-IsRule families seen (raw ∷ raws) rules h =
    let (rule, e₁, h₁) = >>=-eq-ok (normalize_rule families seen raw) _ h in
    let (more, e₂, h₂) =
      >>=-eq-ok (normalize_rules families ((rule.family, rule.classification) ∷ seen) raws) _ h₁ in
    let same : rule ∷ more ≡ rules = cc in
    let (a, n) =
      normalize_rules-IsRule families ((rule.family, rule.classification) ∷ seen) raws more e₂ in
    subst (λ x. All IsRule x × (length x ≡ suc (length raws))) same
      ((normalize_rule-IsRule families seen raw rule e₁, a), ap suc n)

-- What `normalize_retention_policy` returns has between 1 and 64 rules, each on a retained family
-- and one of the four classifications that may be selected, with an age and a count below 2^63 and
-- at most 10,000 protected ids.
pub normalize_retention_policy-IsRule :
    (families : Families) (policy : RawPolicy) (i : Text) (rules : List Rule)
    → normalize_retention_policy families policy ≡ ok (i, rules)
    → All IsRule rules × (1 ≤ length rules) × (length rules ≤ 64)
unfolding normalize_retention_policy
normalize_retention_policy-IsRule families not_mapping i rules h = cc
normalize_retention_policy-IsRule families (mapping fields) i rules h =
    let (u₁, e₁, h₁) =
      >>=-eq-ok
        (require (has_keys policy_fields policy_fields fields) artifact_retention_policy_invalid) _
        h in
    let (format, e₂, h₂) =
      >>=-eq-ok (or_policy_error (value_of (lookup (codes "format") fields))) _ h₁ in
    let (u₃, e₃, h₃) =
      >>=-eq-ok
        (require (text_eq format (codes "weave-artifact-retention-policy-v1"))
          artifact_retention_policy_invalid)
        _ h₂ in
    let (j, e₄, h₄) =
      >>=-eq-ok (or_policy_error (value_of (lookup (codes "reconciliation_id") fields))) _ h₃ in
    let (u₅, e₅, h₅) = >>=-eq-ok (require (is_sha256 j) artifact_retention_policy_invalid) _ h₄ in
    let (raws, e₆, h₆) =
      >>=-eq-ok (or_policy_error (rules_of (lookup (codes "rules") fields))) _ h₅ in
    let (u₇, e₇, h₇) =
      >>=-eq-ok
        (require (leb 1 (length raws) && leb (length raws) max_retention_rules)
          artifact_retention_policy_invalid)
        _ h₆ in
    let (normalized, e₈, h₈) = >>=-eq-ok (normalize_rules families [] raws) _ h₇ in
    let bounds : (leb 1 (length raws) && leb (length raws) max_retention_rules) ≡ true =
      require-eq-ok _ _ e₇ in
    let (a, n) = normalize_rules-IsRule families [] raws normalized e₈ in
    let same : sort rule_order normalized ≡ rules =
      ap (λ p. p.1) (ok-injective (j, sort rule_order normalized) (i, rules) h₈) in
    let same_length : length rules ≡ length raws =
      ap length (sym same) ∙ length-sort rule_order normalized ∙ n in
    (
      subst (All IsRule) same (All-sort IsRule rule_order normalized a),
      ground (arith, same_length),
      ground (arith, same_length),
    )

-- A plan that is made keeps to its bound, and every entry in it is one of the catalog that a rule
-- of the policy selects: corrupt, orphaned, staging or unknown, of the rule's family, not protected
-- by the rule, and at least as old as the rule asks.
pub plan_selection-IsSelected :
    (families : Families) (snapshot : Text → Result (List Entry)) (policy : RawPolicy)
    (as_of : Argument) (max_entries : ℕ) (selected : List (Entry × Rule))
    → plan_selection families snapshot policy as_of max_entries ≡ ok selected
    → (i : Text) × (rules : List Rule) × (entries : List Entry) × (now : ℕ)
      × (normalize_retention_policy families policy ≡ ok (i, rules))
      × (snapshot i ≡ ok entries)
      × (nonnegative as_of ≡ ok now)
      × (length selected ≤ max_entries)
      × All IsRule rules
      × All (IsSelected entries rules now) selected
unfolding plan_selection
plan_selection-IsSelected families snapshot policy as_of max_entries selected h =
    let (now, e₁, h₁) = >>=-eq-ok (nonnegative as_of) _ h in
    let ((i, rules), e₂, h₂) = >>=-eq-ok (normalize_retention_policy families policy) _ h₁ in
    let (entries, e₃, h₃) = >>=-eq-ok (snapshot i) _ h₂ in
    let (u, e₄, h₄) =
      >>=-eq-ok
        (require (leb (length (select entries rules now)) max_entries)
          artifact_retention_plan_limit_exceeded)
        _ h₃ in
    let same : select entries rules now ≡ selected = cc in
    let few : leb (length (select entries rules now)) max_entries ≡ true = require-eq-ok _ _ e₄ in
    (
      i,
      rules,
      entries,
      now,
      e₂,
      e₃,
      e₁,
      subst (λ x. length x ≤ max_entries) same (ground arith),
      (normalize_retention_policy-IsRule families policy i rules e₂).0,
      subst (All (IsSelected entries rules now)) same (select-IsSelected entries rules now),
    )
