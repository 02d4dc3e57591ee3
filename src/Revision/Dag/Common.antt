-- ===== src/Revision/Dag/Common.antt =====
-- The common ancestors of revision_dag.py are the revisions that both heads reach.
use weave_jacquard.Prelude.{
  ℕ, ◌≡◌, ◌↔◌, refl, sym, ap, subst, ◌∙◌, Bool, true, false, ◌==◌, ◌&&◌, ◌||◌, none, List, [], ◌∷◌,
  leb, length, All, All-imp, arith, Bool-cases, inl, inr,
}
use weave_jacquard.Error.{ok, >>=-eq-ok, ok-injective, require, revision_dag_cycle}
use weave_jacquard.Revision.Dag.{
  Side, left, right, Sides, neither, get, get_or, Traversal, untravelled, Loader, traverse,
  traversal_fuel, common_ancestors, member, without, sorted, push_sorted, best_common_ancestors,
  Analysis, analyze_common_ancestors, some_common, count_children, keys, zero_counts, pass_loop,
  no_children,
}
use weave_jacquard.Revision.Dag.Reaches.{
  Reaches, self, up, marked, queued, IsParent, IsTraversal, traverse-IsTraversal, head_of, or-cases,
  IsDistinct,
}

module _ (loader : Loader) (l r : ℕ) where
  untravelled-IsTraversal : IsTraversal loader l r ((l, left) ∷ (r, right) ∷ []) untravelled
  unfolding marked queued get
  untravelled-IsTraversal = record {
    sound = λ i side h. unmarked i side h;
    pending = (self, (self, tt));
    cached = λ i ps h. cc;
    closed = λ i side h. absurd (never i side h);
    distinct = tt;
    begun = λ side. started side;
  }
    where
      never : (i : ℕ) (side : Side) → marked untravelled i side ≡ true → ⊥
      never i left h = cc
      never i right h = cc

      unmarked :
          (i : ℕ) (side : Side)
          → marked untravelled i side ≡ true
          → Reaches loader (head_of loader l r side) i
      unmarked i side h = absurd (never i side h)

      started :
          (side : Side)
          → (marked untravelled (head_of loader l r side) side
              || queued (head_of loader l r side) side ((l, left) ∷ (r, right) ∷ []))
            ≡ true
      started left = ground arith
      started right = ground arith

  ended :
      (t : Traversal) (i : ℕ) (side : Side)
      → (marked t i side || queued i side []) ≡ true
      → marked t i side ≡ true
  unfolding queued
  ended t i side h = elim (or-cases (marked t i side) false h) [ inl e ↦ e | inr e ↦ cc ]

  -- When the traversal ends, what it has marked for a side is closed under parents.
  reaches-marked :
      (t : Traversal) (side : Side) (i : ℕ)
      → IsTraversal loader l r [] t
      → Reaches loader (head_of loader l r side) i
      → marked t i side ≡ true
  reaches-marked t side i v self = ended t (head_of loader l r side) side (v.begun side)
  reaches-marked t side i v (up {i = j} {pair} reached at q) =
      let m = reaches-marked t side j v reached in
      let (pair', e, parents) = v.closed j side m in
      let same : pair ≡ pair' = ok-injective pair pair' (sym at ∙ e) in
      ended t i side (parents i (subst (IsParent i) same q))

  -- What the traversal that returns has marked for a side is what the side's head reaches.
  pub traverse-marks :
      (t : Traversal)
      → traverse loader traversal_fuel ((l, left) ∷ (r, right) ∷ []) untravelled ≡ ok t
      → IsTraversal loader l r [] t
  traverse-marks t h =
      traverse-IsTraversal loader l r traversal_fuel ((l, left) ∷ (r, right) ∷ []) untravelled t h
        untravelled-IsTraversal

and-left : (a b : Bool) → (a && b) ≡ true → a ≡ true
and-left true b h = refl
and-left false b h = cc

and-right : (a b : Bool) → (a && b) ≡ true → b ≡ true
and-right true b h = h
and-right false b h = cc

and-intro : (a b : Bool) → a ≡ true → b ≡ true → (a && b) ≡ true
and-intro a b h k = rw (h, k) refl

-- A revision is listed exactly if both sides have marked it.
common_member :
    (i : ℕ) (d : List (ℕ × Sides))
    → IsDistinct d
    → member i (common_ancestors d)
      ≡ ((get_or neither (get i d)).by_left && (get_or neither (get i d)).by_right)
unfolding common_ancestors get
common_member i [] h = refl
common_member i ((j, s) ∷ d) h = elim (Bool-cases (j == i)) [
  | inl at ↦
      let same : j ≡ i = ground arith in
      let none_left : get i d ≡ none = subst (λ k. get k d ≡ none) same h.0 in
      let rest : member i (common_ancestors d) ≡ false =
        common_member i d h.1 ∙ rw none_left refl in
      elim (Bool-cases (s.by_left && s.by_right)) [
        | inl b ↦ rw (at, b) (rw at refl)
        | inr b ↦ rw (at, b) rest
      ]
  | inr away ↦ elim (Bool-cases (s.by_left && s.by_right)) [
    | inl b ↦ rw (away, b) (rw away (common_member i d h.1))
    | inr b ↦ rw (away, b) (common_member i d h.1)
  ]
]

members : (is : List ℕ) → All (λ i. member i is ≡ true) is
members [] = tt
members (i ∷ is) = (ground arith, All-imp is (λ j m. ground arith) (members is))

module _ (P : ℕ → Type 0) where
  All-push_sorted : (i : ℕ) (js : List ℕ) → P i → All P js → All P (push_sorted i js)
  unfolding push_sorted
  All-push_sorted i [] h a = (h, tt)
  All-push_sorted i (j ∷ js) h a = elim (Bool-cases (leb i j)) [
    | inl e ↦ rw e (h, a)
    | inr e ↦ rw e (a.0, All-push_sorted i js h a.1)
  ]

  All-sorted : (is : List ℕ) → All P is → All P (sorted is)
  unfolding sorted
  All-sorted [] a = tt
  All-sorted (i ∷ is) a = All-push_sorted i (sorted is) a.0 (All-sorted is a.1)

  All-without : (is js : List ℕ) → All P is → All P (without is js)
  All-without [] js a = tt
  All-without (i ∷ is) js a = elim (Bool-cases (member i js)) [
    | inl e ↦ rw e (All-without is js a.1)
    | inr e ↦ rw e (a.0, All-without is js a.1)
  ]

  -- What is best is among what is common.
  best-All :
      (parents : List (ℕ × List ℕ)) (common best : List ℕ)
      → best_common_ancestors parents common ≡ ok best
      → All P common
      → All P best
  unfolding best_common_ancestors
  best-All parents common best h a =
      let (counts, e₁, h₁) = >>=-eq-ok (count_children parents (zero_counts (keys parents))) _ h in
      let s = pass_loop parents common (length parents) (record {
        child_counts = counts;
        ready = sorted (no_children counts);
        common_descendant = [];
        non_best = [];
        processed = 0;
      }) in
      let (u, e₂, h₂) =
        >>=-eq-ok (require (s.processed == length parents) revision_dag_cycle) _ h₁ in
      subst (All P) (ok-injective _ best h₂)
        (All-sorted (without common s.non_best) (All-without common s.non_best a))

module _ (loader : Loader) (l r : ℕ) where
  -- Both heads reach the revision.
  abbrev pub IsCommon : ℕ → Type 0
  IsCommon i = Reaches loader l i × Reaches loader r i

  -- When the traversal from two heads returns, the common ancestors that are listed are exactly
  -- the revisions that both heads reach by parents.
  pub common_ancestors_iff :
      (t : Traversal) (i : ℕ)
      → traverse loader traversal_fuel ((l, left) ∷ (r, right) ∷ []) untravelled ≡ ok t
      → (member i (common_ancestors t.reachability) ≡ true) ↔ IsCommon i
  unfolding marked
  common_ancestors_iff t i h =
      let v = traverse-marks loader l r t h in
      let listed = common_member i t.reachability v.distinct in
      (
        λ m.
            let both : (marked t i left && marked t i right) ≡ true = sym listed ∙ m in
            (v.sound i left (and-left _ _ both), v.sound i right (and-right _ _ both)),
        λ c.
            listed
            ∙ and-intro (marked t i left) (marked t i right)
                (reaches-marked loader l r t left i v c.0)
                (reaches-marked loader l r t right i v c.1),
      )

  -- The merge bases that the analysis returns are revisions that both heads reach.
  pub analyze_common_ancestors-IsCommon :
      (a : Analysis) → analyze_common_ancestors loader l r ≡ ok a → All IsCommon a.best
  unfolding analyze_common_ancestors
  analyze_common_ancestors-IsCommon a h =
      let (t, e₁, h₁) =
        >>=-eq-ok (traverse loader traversal_fuel ((l, left) ∷ (r, right) ∷ []) untravelled) _ h in
      let common = common_ancestors t.reachability in
      let (best, e₂, h₂) = >>=-eq-ok (best_common_ancestors t.parents common) _ h₁ in
      let (u, e₃, h₃) = >>=-eq-ok (some_common common) _ h₂ in
      let same : best ≡ a.best = ap (λ x. x.best) (ok-injective _ a h₃) in
      let listed = All-imp common (λ i m. (common_ancestors_iff t i e₁).0 m) (members common) in
      subst (All IsCommon) same (best-All IsCommon t.parents common best e₂ listed)
