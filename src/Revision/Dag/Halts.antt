-- ===== src/Revision/Dag/Halts.antt =====
-- The traversal of revision_dag.py ends within its fuel: a side's head expands a revision once, and
-- what it queues for that are the revision's parents, each an edge that was counted.
use weave_jacquard.Prelude.{
  ℕ, zero, suc, ◌+◌, ◌-◌, ◌≤◌, ◌≡◌, ◌≢◌, refl, sym, ap, subst, ◌∙◌, Bool, true, false, ◌==◌, leb,
  ltb, Option, none, some, List, [], ◌∷◌, ◌++◌, map, length, length-append, arith, Bool-cases,
  ==-refl, ◌&&◌, inl, inr, if◌then◌else◌,
}
use weave_jacquard.Error.{
  Code, Result, ok, err, out_of_fuel, ◌>>=◌, >>=-eq-ok, ok-injective, require, require-eq-ok,
  revision_dag_node_limit_exceeded, revision_dag_edge_limit_exceeded,
}
use weave_jacquard.Limits.{max_revision_dag_nodes, max_revision_dag_edges}
use weave_jacquard.Revision.Dag.{
  Side, left, right, Sides, neither, has_side, get, put, get_or, present, distinct_parents,
  Traversal, untravelled, Loader, load, first_load, mark, Queue, traverse, traversal_fuel,
}
use weave_jacquard.Revision.Dag.Reaches.{get-put, marked, marked-mark, same_side, or-right}

abbrev seen : Side → ℕ → List (ℕ × Sides) → Bool
seen side i d = has_side side (get_or neither (get i d))

-- The edges of the revisions that a side has expanded.
weight : Side → List (ℕ × List ℕ) → List (ℕ × Sides) → ℕ
weight side [] d = 0
weight side ((i, ps) ∷ loaded) d = (if seen side i d then length ps else 0) + weight side loaded d

total : List (ℕ × List ℕ) → ℕ
total [] = 0
total ((i, ps) ∷ loaded) = length ps + total loaded

abbrev Grows : Side → List (ℕ × Sides) → List (ℕ × Sides) → Type 0
Grows side d d' = (i : ℕ) → seen side i d ≡ true → seen side i d' ≡ true

weight_le_total :
    (side : Side) (loaded : List (ℕ × List ℕ)) (d : List (ℕ × Sides))
    → weight side loaded d ≤ total loaded
unfolding weight total
weight_le_total side [] d = omega arith
weight_le_total side ((i, ps) ∷ loaded) d = ground (arith, weight_le_total side loaded d)

weight-Grows :
    (side : Side) (loaded : List (ℕ × List ℕ)) (d d' : List (ℕ × Sides))
    → Grows side d d'
    → weight side loaded d ≤ weight side loaded d'
unfolding weight
weight-Grows side [] d d' g = omega arith
weight-Grows side ((i, ps) ∷ loaded) d d' g = elim (Bool-cases (seen side i d)) [
  | inl s ↦ rw (s, g i s) (omega (arith, weight-Grows side loaded d d' g))
  | inr n ↦ rw n (omega (arith, weight-Grows side loaded d d' g))
]

weight_expanded :
    (side : Side) (i : ℕ) (ps : List ℕ) (loaded : List (ℕ × List ℕ)) (d d' : List (ℕ × Sides))
    → Grows side d d'
    → get i loaded ≡ some ps
    → seen side i d ≡ false
    → seen side i d' ≡ true
    → weight side loaded d + length ps ≤ weight side loaded d'
unfolding weight get
weight_expanded side i ps [] d d' g at n s = cc
weight_expanded side i ps ((j, qs) ∷ loaded) d d' g at n s = elim (Bool-cases (j == i)) [
  | inl e ↦
      let same : j ≡ i = ground arith in
      let found : ◌≡◌ {A = Option (List ℕ)} (some qs) (some ps) = rw e at at in
      let both : qs ≡ ps = cc in
      let size : length qs ≡ length ps = ap length both in
      let before : seen side j d ≡ false = subst (λ k. seen side k d ≡ false) (sym same) n in
      let after : seen side j d' ≡ true = subst (λ k. seen side k d' ≡ true) (sym same) s in
      rw (before, after) (omega (arith, weight-Grows side loaded d d' g, size))
  | inr e ↦
      let rest = weight_expanded side i ps loaded d d' g (rw e at at) n s in
      elim (Bool-cases (seen side j d)) [
        | inl x ↦ rw (x, g j x) (omega (arith, rest))
        | inr x ↦ rw x (omega (arith, rest))
      ]
]

weight_loaded :
    (side : Side) (i : ℕ) (ps : List ℕ) (loaded : List (ℕ × List ℕ)) (d : List (ℕ × Sides))
    → get i loaded ≡ none
    → weight side loaded d ≤ weight side (put i ps loaded) d
unfolding weight get put
weight_loaded side i ps [] d h = omega arith
weight_loaded side i ps ((j, qs) ∷ loaded) d h = elim (Bool-cases (j == i)) [
  | inl e ↦ let found : ◌≡◌ {A = Option (List ℕ)} (some qs) none = rw e at h in cc
  | inr e ↦ rw e (omega (arith, weight_loaded side i ps loaded d (rw e at h)))
]

total_loaded :
    (i : ℕ) (ps : List ℕ) (loaded : List (ℕ × List ℕ))
    → get i loaded ≡ none
    → total (put i ps loaded) ≡ total loaded + length ps
unfolding total get put
total_loaded i ps [] h = omega arith
total_loaded i ps ((j, qs) ∷ loaded) h = elim (Bool-cases (j == i)) [
  | inl e ↦ let found : ◌≡◌ {A = Option (List ℕ)} (some qs) none = rw e at h in cc
  | inr e ↦ rw e (omega (arith, total_loaded i ps loaded (rw e at h)))
]

length-distinct_parents :
    (pair : Option ℕ × Option ℕ) → length (distinct_parents (present pair)) ≤ length (present pair)
length-distinct_parents (none, none) = omega arith
length-distinct_parents (some a, none) = omega arith
length-distinct_parents (none, some b) = omega arith
length-distinct_parents (some a, some b) = ground arith

abbrev edges : ℕ
edges = max_revision_dag_edges

abbrev IsBounded : Traversal → Type 0
IsBounded t = (total t.parents ≤ t.edges_visited) × (t.edges_visited ≤ edges)

-- What is left to do: the queue, and the edges that each side may still queue.
measure : ℕ → Traversal → ℕ
measure queue t =
    queue
    + ((edges - weight left t.parents t.reachability)
        + (edges - weight right t.parents t.reachability))

-- A load that returned.
record IsLoaded (i : ℕ) (ps : List ℕ) (t t' : Traversal) : Type 0 where
  bounded : IsBounded t'
  found : get i t'.parents ≡ some ps
  heavier :
      (side : Side) → weight side t.parents t.reachability ≤ weight side t'.parents t.reachability
  kept : t'.reachability ≡ t.reachability

first_load-IsLoaded :
    (loader : Loader) (i : ℕ) (t t' : Traversal) (ps : List ℕ)
    → IsBounded t
    → get i t.parents ≡ none
    → first_load loader i t ≡ ok (ps, t')
    → IsLoaded i ps t t'
first_load-IsLoaded loader i t t' ps b new h =
    let (u₁, e₁, h₁) =
      >>=-eq-ok
        (require (ltb (length t.parents) max_revision_dag_nodes) revision_dag_node_limit_exceeded) _
        h in
    let (pair, e₂, h₂) = >>=-eq-ok (loader i) _ h₁ in
    let (u₃, e₃, h₃) =
      >>=-eq-ok
        (require (leb (t.edges_visited + length (present pair)) max_revision_dag_edges)
          revision_dag_edge_limit_exceeded)
        _ h₂ in
    let few : leb (t.edges_visited + length (present pair)) max_revision_dag_edges ≡ true =
      require-eq-ok _ _ e₃ in
    let qs = distinct_parents (present pair) in
    let after : Traversal = record t {
      parents = put i qs t.parents;
      edges_visited = t.edges_visited + length (present pair);
    } in
    let same : ◌≡◌ {A = List ℕ × Traversal} (qs, after) (ps, t') = ok-injective _ _ h₃ in
    subst (λ x. IsLoaded i x.0 t x.1) same
      (record {
        bounded = (
          omega (arith, b.0, total_loaded i qs t.parents new, length-distinct_parents pair),
          ground arith,
        );
        found = get-put i i qs t.parents ∙ rw (==-refl i) refl;
        heavier = λ side. weight_loaded side i qs t.parents t.reachability new;
        kept = refl;
      })

load-IsLoaded :
    (loader : Loader) (i : ℕ) (t t' : Traversal) (ps : List ℕ)
    → IsBounded t
    → load loader i t ≡ ok (ps, t')
    → IsLoaded i ps t t'
unfolding load
load-IsLoaded loader i t t' ps b h = go (get i t.parents) refl h
  where
    go :
        (o : Option (List ℕ))
        → get i t.parents ≡ o
        → (elim o [ some qs ↦ ok (qs, t) | none ↦ first_load loader i t ]) ≡ ok (ps, t')
        → IsLoaded i ps t t'
    go none e k = first_load-IsLoaded loader i t t' ps b e k
    go (some qs) e k =
        subst (λ x. IsLoaded i x.0 t x.1) (ok-injective (qs, t) (ps, t') k)
          (record { bounded = b; found = e; heavier = λ side. omega arith; kept = refl })

mark-Grows :
    (i : ℕ) (side other : Side) (t : Traversal)
    → Grows other t.reachability (mark i side t).reachability
unfolding marked
mark-Grows i side other t j h =
    marked-mark i j side other t ∙ or-right (i == j && same_side side other) _ h

mark-seen : (i : ℕ) (side : Side) (t : Traversal) → seen side i (mark i side t).reachability ≡ true
unfolding marked
mark-seen i left t = marked-mark i i left left t ∙ rw (==-refl i) refl
mark-seen i right t = marked-mark i i right right t ∙ rw (==-refl i) refl

-- What an expansion does to the weight of its side, and to that of any side.
record IsExpanded (i : ℕ) (side : Side) (ps : List ℕ) (t t' : Traversal) : Type 0 where
  own :
      weight side t.parents t.reachability + length ps
      ≤ weight side t'.parents (mark i side t').reachability
  any_side :
      (other : Side)
      → weight other t.parents t.reachability
        ≤ weight other t'.parents (mark i side t').reachability
  capped : (other : Side) → weight other t'.parents (mark i side t').reachability ≤ edges

expanded :
    (i : ℕ) (side : Side) (ps : List ℕ) (t t' : Traversal)
    → IsLoaded i ps t t'
    → seen side i t.reachability ≡ false
    → IsExpanded i side ps t t'
expanded i side ps t t' x new =
    let d' = (mark i side t').reachability in
    let loaded : (other : Side)
        → weight other t.parents t.reachability ≤ weight other t'.parents t'.reachability =
      λ other.
        subst (λ d. weight other t.parents t.reachability ≤ weight other t'.parents d) (sym x.kept)
          (x.heavier other) in
    let unseen : seen side i t'.reachability ≡ false =
      subst (λ d. seen side i d ≡ false) (sym x.kept) new in
    let step =
      weight_expanded side i ps t'.parents t'.reachability d' (mark-Grows i side side t') x.found
        unseen (mark-seen i side t') in
    record {
      own = omega (arith, loaded side, step);
      any_side = λ other. omega (
        arith,
        loaded other,
        weight-Grows other t'.parents t'.reachability d' (mark-Grows i side other t'),
      );
      capped =
          λ other. omega (arith, weight_le_total other t'.parents d', x.bounded.0, x.bounded.1);
    }

-- An expansion leaves less to do than before it.
measure-visit :
    (i n : ℕ) (side : Side) (ps : List ℕ) (t t' : Traversal)
    → IsExpanded i side ps t t'
    → suc (measure (n + length ps) (mark i side t')) ≤ measure (suc n) t
unfolding measure mark
measure-visit i n left ps t t' x =
    omega (arith, x.own, x.any_side right, x.capped left, x.capped right)
measure-visit i n right ps t t' x =
    omega (arith, x.own, x.any_side left, x.capped left, x.capped right)

pub bind_answers {ℓ κ} :
    {A : Type ℓ} {B : Type κ} (m : Result A) (f : A → Result B)
    → m ≢ err out_of_fuel
    → ((a : A) → m ≡ ok a → f a ≢ err out_of_fuel)
    → (m >>= f) ≢ err out_of_fuel
bind_answers (ok a) f x y h = y a refl h
bind_answers (err e) f x y h = x (cc)

pub require_answers : (b : Bool) (c : Code) → require b c ≢ err out_of_fuel
require_answers true c h = cc
require_answers false c h = cc

length-map_pair :
    (side : Side) (ps : List ℕ) → length {A = ℕ × Side} (map (λ p. (p, side)) ps) ≡ length ps
length-map_pair side [] = refl
length-map_pair side (p ∷ ps) = ap suc (length-map_pair side ps)

marked-IsBounded : (i : ℕ) (side : Side) (t : Traversal) → IsBounded t → IsBounded (mark i side t)
unfolding mark
marked-IsBounded i side t b = b

-- What an expansion leaves fits in the fuel that is left.
visit_fits :
    (i : ℕ) (side : Side) (ps : List ℕ) (queue : Queue) (t t' : Traversal) (fuel : ℕ)
    → IsExpanded i side ps t t'
    → measure (suc (length queue)) t ≤ suc fuel
    → measure (length (queue ++ map (λ p. (p, side)) ps)) (mark i side t') ≤ fuel
visit_fits i side ps queue t t' fuel x le =
    let size : length (queue ++ map (λ p. (p, side)) ps) ≡ length queue + length ps =
      length-append queue (map (λ p. (p, side)) ps)
      ∙ ap (λ n. length queue + n) (length-map_pair side ps) in
    subst (λ n. measure n (mark i side t') ≤ fuel) (sym size)
      (omega (arith, measure-visit i (length queue) side ps t t' x))

module _ (loader : Loader) (answers : (i : ℕ) → loader i ≢ err out_of_fuel) where
  first_load-answers : (i : ℕ) (t : Traversal) → first_load loader i t ≢ err out_of_fuel
  first_load-answers i t =
      bind_answers
        (require (ltb (length t.parents) max_revision_dag_nodes) revision_dag_node_limit_exceeded) _
        (require_answers _ _)
        λ u e. bind_answers (loader i) _ (answers i) λ pair e'.
          bind_answers
            (require (leb (t.edges_visited + length (present pair)) max_revision_dag_edges)
              revision_dag_edge_limit_exceeded)
            _ (require_answers _ _) λ v e'' h. cc

  load-answers : (i : ℕ) (t : Traversal) → load loader i t ≢ err out_of_fuel
  unfolding load
  load-answers i t h = go (get i t.parents) h
    where
      go :
          (o : Option (List ℕ))
          → (elim o [ some qs ↦ ok (qs, t) | none ↦ first_load loader i t ]) ≡ err out_of_fuel
          → ⊥
      go none k = first_load-answers i t k
      go (some qs) k = cc

  traverse-halts :
      (fuel : ℕ) (queue : Queue) (t : Traversal)
      → IsBounded t
      → measure (length queue) t ≤ fuel
      → traverse loader fuel queue t ≢ err out_of_fuel
  unfolding traverse measure
  traverse-halts zero [] t b le h = cc
  traverse-halts (suc fuel) [] t b le h = cc
  traverse-halts zero (e ∷ queue) t b le h = absurd (omega arith)
  traverse-halts (suc fuel) ((i, side) ∷ queue) t b le h =
      elim (Bool-cases (seen side i t.reachability)) [
        | inl m ↦ traverse-halts fuel queue t b (omega arith) (rw m at h)
        | inr new ↦
            bind_answers (load loader i t) _ (load-answers i t)
              (λ (ps, t') e.
                let x = load-IsLoaded loader i t t' ps b e in
                traverse-halts fuel (queue ++ map (λ p. (p, side)) ps) (mark i side t')
                  (marked-IsBounded i side t' x.bounded)
                  (visit_fits i side ps queue t t' fuel (expanded i side ps t t' x new) le))
              (rw new at h)
      ]

  -- The traversal from two heads ends within its fuel.
  pub analysis_traversal_halts :
      (l r : ℕ)
      → traverse loader traversal_fuel ((l, left) ∷ (r, right) ∷ []) untravelled ≢ err out_of_fuel
  unfolding total
  analysis_traversal_halts l r =
      traverse-halts traversal_fuel ((l, left) ∷ (r, right) ∷ []) untravelled
        (omega arith, omega arith) (unfold measure in omega arith)
