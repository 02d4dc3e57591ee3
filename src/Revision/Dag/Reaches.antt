-- ===== src/Revision/Dag/Reaches.antt =====
-- What the traversal of revision_dag.py marks: for each side, the revisions that its head reaches.
use weave_jacquard.Prelude.{
  ℕ, zero, suc, ◌+◌, ltb, leb, length, ◌≡◌, refl, sym, ap, subst, ◌∙◌, Bool, true, false, ◌==◌,
  ◌&&◌, ◌||◌, ◌⊎◌, inl, inr, Option, none, some, List, [], ◌∷◌, ◌++◌, any, map, All, All-append,
  All-imp, All-map, arith, Bool-cases, if◌then◌else◌,
}
use weave_jacquard.Error.{
  Result, ok, >>=-eq-ok, ok-injective, require, revision_dag_node_limit_exceeded,
  revision_dag_edge_limit_exceeded,
}
use weave_jacquard.Limits.{max_revision_dag_nodes, max_revision_dag_edges}
use weave_jacquard.Revision.Dag.{
  Side, left, right, Sides, neither, has_side, add_side, get, put, get_or, present,
  distinct_parents, Traversal, Loader, load, first_load, mark, Queue, traverse,
}

pub IsParent : ℕ → Option ℕ × Option ℕ → Type 0
IsParent p pair = (pair.0 ≡ some p) ⊎ (pair.1 ≡ some p)

-- A revision is reached from another by parents.
pub data Reaches (loader : Loader) (from : ℕ) : ℕ → Type 0 where
  self : Reaches loader from from
  up :
      {i p : ℕ} {pair : Option ℕ × Option ℕ}
      → Reaches loader from i
      → loader i ≡ ok pair
      → IsParent p pair
      → Reaches loader from p

abbrev pub same_side : Side → Side → Bool
same_side left left = true
same_side right right = true
same_side _ _ = false

unfoldable pub marked : Traversal → ℕ → Side → Bool
marked t i side = has_side side (get_or neither (get i t.reachability))

unfoldable pub queued : ℕ → Side → Queue → Bool
queued i side queue = any (λ e. e.0 == i && same_side e.1 side) queue

pub get-put {ℓ} :
    {A : Type ℓ} (i j : ℕ) (a : A) (d : List (ℕ × A))
    → get j (put i a d) ≡ (if i == j then some a else get j d)
unfolding get put
get-put i j a [] = refl
get-put i j a ((k, b) ∷ d) = ground (arith, get-put i j a d)

-- A dictionary has a key once.
abbrev pub IsDistinct {ℓ} : {A : Type ℓ} → List (ℕ × A) → Type ℓ
IsDistinct [] = Unit
IsDistinct ((i, a) ∷ d) = (get i d ≡ none) × IsDistinct d

put-IsDistinct {ℓ} :
    {A : Type ℓ} (i : ℕ) (a : A) (d : List (ℕ × A)) → IsDistinct d → IsDistinct (put i a d)
unfolding put
put-IsDistinct i a [] h = (unfold get in refl, tt)
put-IsDistinct i a ((j, b) ∷ d) h = elim (Bool-cases (j == i)) [
  | inl e ↦ rw e h
  | inr e ↦
      let away : (i == j) ≡ false = ground arith in
      rw e (get-put i j a d ∙ rw away h.0, put-IsDistinct i a d h.1)
]

has_side-add_side :
    (side other : Side) (s : Sides)
    → has_side other (add_side side s) ≡ (same_side side other || has_side other s)
has_side-add_side left left s = refl
has_side-add_side left right s = refl
has_side-add_side right left s = refl
has_side-add_side right right s = refl

pub marked-mark :
    (i j : ℕ) (side other : Side) (t : Traversal)
    → marked (mark i side t) j other ≡ ((i == j && same_side side other) || marked t j other)
unfolding marked mark
marked-mark i j side other t = elim (Bool-cases (i == j)) [
  | inl at ↦
      let same : i ≡ j = ground arith in
      rw (get-put i j (add_side side (get_or neither (get i t.reachability))) t.reachability)
        (rw (at, has_side-add_side side other (get_or neither (get i t.reachability)), same) refl)
  | inr away ↦
      rw (get-put i j (add_side side (get_or neither (get i t.reachability))) t.reachability)
        (rw away refl)
]

queued-append :
    (i : ℕ) (side : Side) (q r : Queue)
    → queued i side (q ++ r) ≡ (queued i side q || queued i side r)
unfolding queued
queued-append i side [] r = refl
queued-append i side (e ∷ q) r = ground (arith, queued-append i side q r)

queued-map :
    (i : ℕ) (side : Side) (ps : List ℕ)
    → any (λ p. p == i) ps ≡ true
    → queued i side (map (λ p. (p, side)) ps) ≡ true
unfolding queued
queued-map i side [] h = cc
queued-map i left (p ∷ ps) h = ground (arith, queued-map i left ps)
queued-map i right (p ∷ ps) h = ground (arith, queued-map i right ps)

-- The parents that are queued are the revision's, all of them.
distinct_parents-IsParent :
    (pair : Option ℕ × Option ℕ) → All (λ p. IsParent p pair) (distinct_parents (present pair))
unfolding IsParent
distinct_parents-IsParent (none, none) = tt
distinct_parents-IsParent (some a, none) = (inl refl, tt)
distinct_parents-IsParent (none, some b) = (inr refl, tt)
distinct_parents-IsParent (some a, some b) = elim (Bool-cases (a == b)) [
  | inl e ↦ rw e (inl refl, tt)
  | inr e ↦ rw e (inl refl, (inr refl, tt))
]

IsParent-distinct_parents :
    (p : ℕ) (pair : Option ℕ × Option ℕ)
    → IsParent p pair
    → any (λ q. q == p) (distinct_parents (present pair)) ≡ true
unfolding IsParent
IsParent-distinct_parents p (none, none) (inl e) = cc
IsParent-distinct_parents p (none, none) (inr e) = cc
IsParent-distinct_parents p (some a, none) (inl e) = let same : a ≡ p = cc in ground arith
IsParent-distinct_parents p (some a, none) (inr e) = cc
IsParent-distinct_parents p (none, some b) (inl e) = cc
IsParent-distinct_parents p (none, some b) (inr e) = let same : b ≡ p = cc in ground arith
IsParent-distinct_parents p (some a, some b) (inl e) = let same : a ≡ p = cc in ground arith
IsParent-distinct_parents p (some a, some b) (inr e) = let same : b ≡ p = cc in ground arith

reorder : (m a q n : Bool) → (m || (a || q)) ≡ true → ((a || m) || (q || n)) ≡ true
reorder true true q n h = refl
reorder true false q n h = refl
reorder false true q n h = refl
reorder false false true n h = refl
reorder false false false n h = cc

same_side-eq : (side other : Side) → same_side side other ≡ true → side ≡ other
same_side-eq left left h = refl
same_side-eq left right h = cc
same_side-eq right left h = cc
same_side-eq right right h = refl

pub or-cases : (a b : Bool) → (a || b) ≡ true → (a ≡ true) ⊎ (b ≡ true)
or-cases true b h = inl refl
or-cases false b h = inr h

pub or-right : (a b : Bool) → b ≡ true → (a || b) ≡ true
or-right true b h = refl
or-right false b h = h

-- The item is the one that is marked.
is_marked :
    (i j : ℕ) (side other : Side)
    → (i == j && same_side side other) ≡ true
    → (i ≡ j) × (side ≡ other)
is_marked i j side other h =
    let at : i ≡ j = ground arith in
    let same : same_side side other ≡ true = ground arith in (at, same_side-eq side other same)

module _ (loader : Loader) (l r : ℕ) where
  abbrev pub head_of : Side → ℕ
  head_of left = l
  head_of right = r

  -- The parents that were loaded are the loader's.
  abbrev IsCache : List (ℕ × List ℕ) → Type 0
  IsCache d =
      (i : ℕ) (ps : List ℕ)
      → get i d ≡ some ps
      → (pair : Option ℕ × Option ℕ) × (loader i ≡ ok pair) × (ps ≡ distinct_parents (present pair))

  -- What holds between the rounds of the traversal.
  pub record IsTraversal (queue : Queue) (t : Traversal) : Type 0 where
    pub sound : (i : ℕ) (side : Side) → marked t i side ≡ true → Reaches loader (head_of side) i
    pub pending : All (λ e. Reaches loader (head_of e.1) e.0) queue
    pub cached : IsCache t.parents
    pub closed :
        (i : ℕ) (side : Side)
        → marked t i side ≡ true
        → (pair : Option ℕ × Option ℕ) × (loader i ≡ ok pair)
          × ((p : ℕ) → IsParent p pair → (marked t p side || queued p side queue) ≡ true)
    pub distinct : IsDistinct t.reachability
    pub begun :
        (side : Side) → (marked t (head_of side) side || queued (head_of side) side queue) ≡ true

  still_known :
      (i p : ℕ) (side other : Side) (queue : Queue) (t : Traversal)
      → marked t i side ≡ true
      → (marked t p other || queued p other ((i, side) ∷ queue)) ≡ true
      → (marked t p other || queued p other queue) ≡ true
  unfolding queued
  still_known i p side other queue t m h = elim (Bool-cases (i == p && same_side side other)) [
    | inl it ↦
        let (at, same) = is_marked i p side other it in
        let known : marked t p other ≡ true =
          subst (λ x. marked t p x ≡ true) same (subst (λ x. marked t x side ≡ true) at m) in
        rw known refl
    | inr away ↦ rw away at h
  ]

  -- A round on a revision that is marked for its side.
  skipped-IsTraversal :
      (i : ℕ) (side : Side) (queue : Queue) (t : Traversal)
      → marked t i side ≡ true
      → IsTraversal ((i, side) ∷ queue) t
      → IsTraversal queue t
  skipped-IsTraversal i side queue t m v = record {
    sound = v.sound;
    pending = v.pending.1;
    cached = v.cached;
    closed = λ j other h.
        let (pair, e, parents) = v.closed j other h in
        (pair, e, λ p is_parent. still_known i p side other queue t m (parents p is_parent));
    distinct = v.distinct;
    begun = λ other. still_known i (head_of other) side other queue t m (v.begun other);
  }

  -- A load gives the parents, and marks nothing.
  load-eq-ok :
      (i : ℕ) (t t' : Traversal) (ps : List ℕ)
      → IsCache t.parents
      → load loader i t ≡ ok (ps, t')
      → (pair : Option ℕ × Option ℕ) × (loader i ≡ ok pair)
        × (ps ≡ distinct_parents (present pair))
        × (t'.reachability ≡ t.reachability)
        × ((t'.parents ≡ t.parents) ⊎ (t'.parents ≡ put i ps t.parents))
  unfolding load
  load-eq-ok i t t' ps cached h = go (get i t.parents) refl h
    where
      Found : Type 0
      Found =
          (pair : Option ℕ × Option ℕ) × (loader i ≡ ok pair)
          × (ps ≡ distinct_parents (present pair))
          × (t'.reachability ≡ t.reachability)
          × ((t'.parents ≡ t.parents) ⊎ (t'.parents ≡ put i ps t.parents))

      fresh_load :
          ◌≡◌ {A = Result (List ℕ × Traversal)} (first_load loader i t) (ok (ps, t')) → Found
      fresh_load h =
          let (u₁, e₁, h₁) =
            >>=-eq-ok
              (require (ltb (length t.parents) max_revision_dag_nodes)
                revision_dag_node_limit_exceeded)
              _ h in
          let (pair, e₂, h₂) = >>=-eq-ok (loader i) _ h₁ in
          let (u₃, e₃, h₃) =
            >>=-eq-ok
              (require (leb (t.edges_visited + length (present pair)) max_revision_dag_edges)
                revision_dag_edge_limit_exceeded)
              _ h₂ in
          let same = ok-injective _ (ps, t') h₃ in
          (
            pair,
            e₂,
            sym (ap (λ x. x.0) same),
            sym (ap (λ x. x.1.reachability) same),
            inr (
                sym (ap (λ x. x.1.parents) same)
                ∙ ap (λ x. put i x t.parents) (ap (λ x. x.0) same)),
          )

      go :
          (o : Option (List ℕ))
          → get i t.parents ≡ o
          → (elim o [ some qs ↦ ok (qs, t) | none ↦ first_load loader i t ]) ≡ ok (ps, t')
          → Found
      go none e k = fresh_load k
      go (some qs) e k =
          let (pair, at, same) = cached i qs e in
          let both = ok-injective (qs, t) (ps, t') k in
          (
            pair,
            at,
            sym (ap (λ x. x.0) both) ∙ same,
            sym (ap (λ x. x.1.reachability) both),
            inl (sym (ap (λ x. x.1.parents) both)),
          )

  put-cached :
      (i : ℕ) (ps : List ℕ) (pair : Option ℕ × Option ℕ) (d : List (ℕ × List ℕ))
      → loader i ≡ ok pair
      → ps ≡ distinct_parents (present pair)
      → IsCache d
      → IsCache (put i ps d)
  put-cached i ps pair d e same cached j qs h = elim (Bool-cases (i == j)) [
    | inl at ↦
        let here : i ≡ j = ground arith in
        let found : ◌≡◌ {A = Option (List ℕ)} (some ps) (some qs) =
          rw (get-put i j ps d, at) at h in
        let given : ps ≡ qs = cc in (pair, subst (λ k. loader k ≡ ok pair) here e, sym given ∙ same)
    | inr away ↦
        let found : get j d ≡ some qs = rw (get-put i j ps d, away) at h in cached j qs found
  ]

  marked-visit :
      (i p : ℕ) (side other : Side) (t t' : Traversal)
      → t'.reachability ≡ t.reachability
      → marked (mark i side t') p other ≡ ((i == p && same_side side other) || marked t p other)
  unfolding marked
  marked-visit i p side other t t' kept =
      marked-mark i p side other t'
      ∙ ap (λ d. (i == p && same_side side other) || has_side other (get_or neither (get p d))) kept

  now_known :
      (i p : ℕ) (side other : Side) (queue more : Queue) (t t' : Traversal)
      → t'.reachability ≡ t.reachability
      → (marked t p other || queued p other ((i, side) ∷ queue)) ≡ true
      → (marked (mark i side t') p other || queued p other (queue ++ more)) ≡ true
  unfolding queued
  now_known i p side other queue more t t' kept h =
      rw (marked-visit i p side other t t' kept, queued-append p other queue more)
        (reorder (marked t p other) (i == p && same_side side other) (queued p other queue)
          (queued p other more) h)

  marked_before :
      (i j : ℕ) (side other : Side) (t t' : Traversal)
      → t'.reachability ≡ t.reachability
      → marked (mark i side t') j other ≡ true
      → ((i == j && same_side side other) || marked t j other) ≡ true
  marked_before i j side other t t' kept h = sym (marked-visit i j side other t t' kept) ∙ h

  parents_queued :
      (p : ℕ) (side : Side) (queue : Queue) (pair : Option ℕ × Option ℕ) (ps : List ℕ)
      → ps ≡ distinct_parents (present pair)
      → IsParent p pair
      → queued p side (queue ++ map (λ p. (p, side)) ps) ≡ true
  parents_queued p side queue pair ps same q =
      queued-append p side queue (map (λ p. (p, side)) ps)
      ∙ or-right (queued p side queue) _
          (queued-map p side ps (ap (any (λ x. x == p)) same ∙ IsParent-distinct_parents p pair q))

  -- A round that expands a revision.
  visited-IsTraversal :
      (i : ℕ) (side : Side) (queue : Queue) (t t' : Traversal) (ps : List ℕ)
      → load loader i t ≡ ok (ps, t')
      → IsTraversal ((i, side) ∷ queue) t
      → IsTraversal (queue ++ map (λ p. (p, side)) ps) (mark i side t')
  unfolding mark
  visited-IsTraversal i side queue t t' ps e v =
      let (pair, at, same, kept, cache) = load-eq-ok i t t' ps v.cached e in
      let more = map (λ p. (p, side)) ps in
      let known : (p : ℕ) (other : Side)
          → (marked t p other || queued p other ((i, side) ∷ queue)) ≡ true
          → (marked (mark i side t') p other || queued p other (queue ++ more)) ≡ true =
        λ p other h. now_known i p side other queue more t t' kept h in
      record {
        sound = λ j other h. elim (or-cases _ _ (marked_before i j side other t t' kept h)) [
          | inl it ↦
              let (here, s) = is_marked i j side other it in
              subst (λ x. Reaches loader (head_of x) j) s
                (subst (λ x. Reaches loader (head_of side) x) here v.pending.0)
          | inr old ↦ v.sound j other old
        ];
        pending =
            All-append (λ e. Reaches loader (head_of e.1) e.0) queue more v.pending.1
              (All-map (λ e. Reaches loader (head_of e.1) e.0) (λ p. (p, side)) ps
                (All-imp ps (λ p q. up v.pending.0 at q)
                  (subst (All (λ p. IsParent p pair)) (sym same)
                    (distinct_parents-IsParent pair))));
        cached = elim cache [
          | inl c ↦ subst IsCache (sym c) v.cached
          | inr c ↦ subst IsCache (sym c) (put-cached i ps pair t.parents at same v.cached)
        ];
        closed = λ j other h. elim (or-cases _ _ (marked_before i j side other t t' kept h)) [
          | inl it ↦
              let (here, s) = is_marked i j side other it in
              (
                pair,
                subst (λ x. loader x ≡ ok pair) here at,
                λ p q. or-right _ _ (
                    subst (λ x. queued p x (queue ++ more) ≡ true) s
                      (parents_queued p side queue pair ps same q)),
              )
          | inr old ↦
              let (pr, e', f) = v.closed j other old in (pr, e', λ p q. known p other (f p q))
        ];
        distinct =
            put-IsDistinct i (add_side side (get_or neither (get i t'.reachability)))
              t'.reachability (subst IsDistinct (sym kept) v.distinct);
        begun = λ other. known (head_of other) other (v.begun other);
      }

  pub traverse-IsTraversal :
      (fuel : ℕ) (queue : Queue) (t t' : Traversal)
      → traverse loader fuel queue t ≡ ok t'
      → IsTraversal queue t
      → IsTraversal [] t'
  unfolding traverse marked
  traverse-IsTraversal zero [] t t' h v = subst (IsTraversal []) (ok-injective t t' h) v
  traverse-IsTraversal (suc fuel) [] t t' h v = subst (IsTraversal []) (ok-injective t t' h) v
  traverse-IsTraversal zero (e ∷ queue) t t' h v = cc
  traverse-IsTraversal (suc fuel) ((i, side) ∷ queue) t t' h v =
      elim (Bool-cases (marked t i side)) [
        | inl m ↦
            traverse-IsTraversal fuel queue t t' (rw m at h)
              (skipped-IsTraversal i side queue t m v)
        | inr new ↦
            let ((ps, u), e, k) = >>=-eq-ok (load loader i t) _ (rw new at h) in
            traverse-IsTraversal fuel (queue ++ map (λ p. (p, side)) ps) (mark i side u) t' k
              (visited-IsTraversal i side queue t u ps e v)
      ]
