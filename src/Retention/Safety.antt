-- ===== src/Retention/Safety.antt =====
-- What a plan of artifacts/retention may choose, and what it leaves.
use weave_jacquard.Prelude.{
  ℕ, zero, suc, ◌-◌, ◌≤◌, ◌≡◌, refl, subst, Bool, true, false, List, [], ◌∷◌, map, take, length,
  All, All-append, All-imp, All-map, Mem, mem-cons_self, mem-cons_of_mem, arith,
}
use weave_jacquard.Prelude.Text.{Text, mem_text, text_eq_refl}
use weave_jacquard.Retention.{
  Entry, matching, may_choose, chosen, choose_all, select, matches, is_protected, is_old,
  nanoseconds, newest_first, entry_order,
}
use weave_jacquard.Retention.Policy.{Rule}
use weave_jacquard.Retention.Sorting.{filter, All-sort, All-filter, All-Mem, length-sort}

-- What a rule may choose an entry for.
pub record IsChoice (entries : List Entry) (as_of : ℕ) (item : Entry) (rule : Rule) : Type 0 where
  pub entry : Mem item entries
  pub of_rule : matches rule item ≡ true
  pub free : is_protected rule item ≡ false
  pub old : is_old as_of (nanoseconds rule.minimum_age_seconds) item.mtime_ns ≡ true

may_choose-eq-true :
    (rule : Rule) (as_of : ℕ) (retained : List Text) (item : Entry)
    → may_choose rule as_of retained item ≡ true
    → (mem_text item.entry_id retained ≡ false)
      × (is_protected rule item ≡ false)
      × (is_old as_of (nanoseconds rule.minimum_age_seconds) item.mtime_ns ≡ true)
unfolding may_choose
may_choose-eq-true rule as_of retained item h = ground arith

matching-IsMatch :
    (entries : List Entry) (rule : Rule)
    → All (λ x. Mem x entries × (matches rule x ≡ true)) (matching entries rule)
unfolding matching
matching-IsMatch entries rule =
    All-sort (λ x. Mem x entries × (matches rule x ≡ true)) newest_first
      (filter (matches rule) entries)
      (All-filter (λ x. Mem x entries) (matches rule) entries (All-Mem entries))

chosen-IsChoice :
    (entries : List Entry) (rule : Rule) (as_of : ℕ)
    → All (λ x. IsChoice entries as_of x rule) (chosen entries rule as_of)
unfolding chosen
chosen-IsChoice entries rule as_of =
    let items = matching entries rule in
    let retained = map (λ (x : Entry). x.entry_id) (take rule.minimum_retained_count items) in
    All-imp (filter (may_choose rule as_of retained) items)
      (λ x h.
        let (x₁, free, old) = may_choose-eq-true rule as_of retained x h.1 in
        record { entry = h.0.0; of_rule = h.0.1; free = free; old = old })
      (All-filter (λ x. Mem x entries × (matches rule x ≡ true)) (may_choose rule as_of retained)
        items (matching-IsMatch entries rule))

abbrev pub IsSelected : List Entry → List Rule → ℕ → Entry × Rule → Type 0
IsSelected entries rules as_of pair = Mem pair.1 rules × IsChoice entries as_of pair.0 pair.1

choose_all-IsSelected :
    (entries : List Entry) (rules : List Rule) (as_of : ℕ)
    → All (IsSelected entries rules as_of) (choose_all entries rules as_of)
unfolding choose_all
choose_all-IsSelected entries [] as_of = tt
choose_all-IsSelected entries (rule ∷ rules) as_of =
    All-append (IsSelected entries (rule ∷ rules) as_of)
      (map (λ item. (item, rule)) (chosen entries rule as_of)) (choose_all entries rules as_of)
      (All-map (IsSelected entries (rule ∷ rules) as_of) (λ item. (item, rule))
        (chosen entries rule as_of)
        (All-imp (chosen entries rule as_of) (λ x h. (mem-cons_self, h))
          (chosen-IsChoice entries rule as_of)))
      (All-imp (choose_all entries rules as_of) (λ x h. (mem-cons_of_mem rule h.0, h.1))
        (choose_all-IsSelected entries rules as_of))

-- Each entry that is selected is an entry of the catalog, of the family and the classification of
-- the rule that it is selected for, not protected by that rule, and at least as old as it asks.
pub select-IsSelected :
    (entries : List Entry) (rules : List Rule) (as_of : ℕ)
    → All (IsSelected entries rules as_of) (select entries rules as_of)
unfolding select
select-IsSelected entries rules as_of =
    All-sort (IsSelected entries rules as_of) (λ x y. entry_order x.0 y.0)
      (choose_all entries rules as_of) (choose_all-IsSelected entries rules as_of)

-- A filter that refuses the first items leaves no more than the others.
length-filter_rest :
    {A : Type 0} (p : A → Bool) (n : ℕ) (xs : List A)
    → All (λ x. p x ≡ false) (take n xs)
    → length (filter p xs) ≤ length xs - n
unfolding filter
length-filter_rest p n [] h = omega arith
length-filter_rest p zero (x ∷ xs) h =
    let rest = length-filter_rest p 0 xs tt in ground (arith, rest)
length-filter_rest p (suc n) (x ∷ xs) h = rw h.0 (omega (arith, length-filter_rest p n xs h.1))

ids_of : List Entry → List Text
ids_of items = map (λ x. x.entry_id) items

id_of_member : (items : List Entry) → All (λ x. mem_text x.entry_id (ids_of items) ≡ true) items
unfolding mem_text ids_of
id_of_member [] = tt
id_of_member (x ∷ items) =
    (rw (text_eq_refl x.entry_id), All-imp items (λ y h. ground arith) (id_of_member items))

retained_is_kept :
    (rule : Rule) (as_of : ℕ) (retained : List Text) (item : Entry)
    → mem_text item.entry_id retained ≡ true
    → may_choose rule as_of retained item ≡ false
unfolding may_choose
retained_is_kept rule as_of retained item h = rw h refl

-- A rule chooses at most as many entries as it is about, less its minimum to retain.
pub length-chosen :
    (entries : List Entry) (rule : Rule) (as_of : ℕ)
    → length (chosen entries rule as_of)
      ≤ length (filter (matches rule) entries) - rule.minimum_retained_count
unfolding chosen matching ids_of
length-chosen entries rule as_of =
    let items = matching entries rule in
    let retained = map (λ (x : Entry). x.entry_id) (take rule.minimum_retained_count items) in
    subst
      (λ n.
        length (filter (may_choose rule as_of retained) items) ≤ n - rule.minimum_retained_count)
      (length-sort newest_first (filter (matches rule) entries))
      (length-filter_rest (may_choose rule as_of retained) rule.minimum_retained_count items (
        All-imp (take rule.minimum_retained_count items)
          (λ x h. retained_is_kept rule as_of retained x h)
          (id_of_member (take rule.minimum_retained_count items))))
