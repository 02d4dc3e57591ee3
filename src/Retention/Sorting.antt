-- ===== src/Retention/Sorting.antt =====
-- Python's `sorted`, which is stable, and the filter of a comprehension.
use weave_jacquard.Prelude.{
  suc, ◌≡◌, refl, Bool, true, if◌then◌else◌, List, [], ◌∷◌, All, All-imp, length, Bool-cases, inl,
  inr, ap, Mem, mem-cons_self, mem-cons_of_mem,
}

module _ {ℓ} {A : Type ℓ} (before : A → A → Bool) where
  -- Before the first item that does not come before it.
  unfoldable pub insert_sorted : A → List A → List A
  insert_sorted x [] = x ∷ []
  insert_sorted x (y ∷ ys) = if before y x then y ∷ insert_sorted x ys else x ∷ y ∷ ys

  unfoldable pub sort : List A → List A
  unfolding insert_sorted
  sort [] = []
  sort (x ∷ xs) = insert_sorted x (sort xs)

unfoldable pub filter {ℓ} : {A : Type ℓ} → (A → Bool) → List A → List A
filter p [] = []
filter p (x ∷ xs) = if p x then x ∷ filter p xs else filter p xs

module _ {ℓ κ} {A : Type ℓ} (P : A → Type κ) where
  All-insert_sorted :
      (before : A → A → Bool) (x : A) (xs : List A)
      → P x
      → All P xs
      → All P (insert_sorted before x xs)
  unfolding insert_sorted
  All-insert_sorted before x [] h a = (h, tt)
  All-insert_sorted before x (y ∷ ys) h a = elim (Bool-cases (before y x)) [
    | inl e ↦ rw e (a.0, All-insert_sorted before x ys h a.1)
    | inr e ↦ rw e (h, a)
  ]

  pub All-sort : (before : A → A → Bool) (xs : List A) → All P xs → All P (sort before xs)
  unfolding sort
  All-sort before [] a = tt
  All-sort before (x ∷ xs) a =
      All-insert_sorted before x (sort before xs) a.0 (All-sort before xs a.1)

  pub All-filter :
      (p : A → Bool) (xs : List A) → All P xs → All (λ x. P x × (p x ≡ true)) (filter p xs)
  unfolding filter
  All-filter p [] a = tt
  All-filter p (x ∷ xs) a = elim (Bool-cases (p x)) [
    | inl e ↦ rw e ((a.0, e), All-filter p xs a.1)
    | inr e ↦ rw e (All-filter p xs a.1)
  ]

pub All-Mem {ℓ} : {A : Type ℓ} (xs : List A) → All (λ x. Mem x xs) xs
All-Mem [] = tt
All-Mem (x ∷ xs) = (mem-cons_self, All-imp xs (λ y m. mem-cons_of_mem x m) (All-Mem xs))

module _ {ℓ} {A : Type ℓ} (before : A → A → Bool) where
  length-insert_sorted :
      (x : A) (xs : List A) → length (insert_sorted before x xs) ≡ suc (length xs)
  unfolding insert_sorted
  length-insert_sorted x [] = refl
  length-insert_sorted x (y ∷ ys) = elim (Bool-cases (before y x)) [
    | inl e ↦ rw e (ap suc (length-insert_sorted x ys))
    | inr e ↦ rw e refl
  ]

  pub length-sort : (xs : List A) → length (sort before xs) ≡ length xs
  unfolding sort
  length-sort [] = refl
  length-sort (x ∷ xs) = rw (length-insert_sorted x (sort before xs)) (ap suc (length-sort xs))
