-- ===== src/Revision/Dag.antt =====
-- revision_dag.py: the best common ancestors of two revisions, by one bounded pass over the union
-- of their ancestries. The limits are those that service.py takes, the defaults. The order of
-- revision texts, which fixes the order of the results, is the order of the numbers here.
pub mod Reaches
pub mod Common
pub mod Halts
pub mod Answers
use weave_jacquard.Prelude.{
  ℕ, zero, suc, ◌+◌, ◌-◌, ◌*◌, Bool, true, false, ◌==◌, ltb, leb, ◌&&◌, ◌||◌, if◌then◌else◌, Option,
  none, some, List, [], ◌∷◌, ◌++◌, any, map, length,
}
use weave_jacquard.Error.{
  Result, ok, err, not_found, conflict, out_of_fuel, ◌>>=◌, ◌>>◌, require,
  revision_dag_node_limit_exceeded, revision_dag_edge_limit_exceeded, revision_dag_cycle,
}
use weave_jacquard.Limits.{max_revision_dag_nodes, max_revision_dag_edges}
use weave_jacquard.Revision.Database.{Database, find_revision}

-- `_parents`, as the source of parents.
unfoldable pub parents_of : {F : Type 0} → Database F → ℕ → Result (Option ℕ × Option ℕ)
unfolding find_revision
parents_of db i = elim (find_revision i db.revisions) [
  | some v ↦ ok (v.parent1, v.parent2)
  | none ↦ err not_found
]

-- _LEFT and _RIGHT
pub data Side : Type 0 where
  left right : Side

-- The bits of a revision in `reachability`.
pub record Sides : Type 0 where
  pub by_left : Bool
  pub by_right : Bool

abbrev pub neither : Sides
neither = record { by_left = false; by_right = false }

abbrev pub has_side : Side → Sides → Bool
has_side left s = s.by_left
has_side right s = s.by_right

abbrev pub add_side : Side → Sides → Sides
add_side left s = record s { by_left = true }
add_side right s = record s { by_right = true }

-- A dictionary keyed by revisions, in the order of insertion.
unfoldable pub get {ℓ} : {A : Type ℓ} → ℕ → List (ℕ × A) → Option A
get i [] = none
get i ((j, a) ∷ d) = if j == i then some a else get i d

unfoldable pub put {ℓ} : {A : Type ℓ} → ℕ → A → List (ℕ × A) → List (ℕ × A)
put i a [] = (i, a) ∷ []
put i a ((j, b) ∷ d) = if j == i then (j, a) ∷ d else (j, b) ∷ put i a d

abbrev pub get_or {ℓ} : {A : Type ℓ} → A → Option A → A
get_or a none = a
get_or a (some b) = b

-- (parent for parent in ... if parent is not None)
abbrev pub present : Option ℕ × Option ℕ → List ℕ
present (none, none) = []
present (some a, none) = a ∷ []
present (none, some b) = b ∷ []
present (some a, some b) = a ∷ b ∷ []

-- tuple(dict.fromkeys(raw)), for at most two parents
abbrev pub distinct_parents : List ℕ → List ℕ
distinct_parents (a ∷ b ∷ []) = if a == b then a ∷ [] else a ∷ b ∷ []
distinct_parents ps = ps

-- The variables of the traversal.
pub record Traversal : Type 0 where
  pub parents : List (ℕ × List ℕ)
  pub reachability : List (ℕ × Sides)
  pub edges_visited : ℕ

abbrev pub untravelled : Traversal
untravelled = record { parents = []; reachability = []; edges_visited = 0 }

abbrev pub Loader : Type 0
Loader = ℕ → Result (Option ℕ × Option ℕ)

-- The parents of a revision that no round has loaded.
abbrev pub first_load : Loader → ℕ → Traversal → Result (List ℕ × Traversal)
first_load loader i t = do
  require (ltb (length t.parents) max_revision_dag_nodes) revision_dag_node_limit_exceeded
  pair ← loader i
  let raw = present pair
  let edges = t.edges_visited + length raw
  require (leb edges max_revision_dag_edges) revision_dag_edge_limit_exceeded
  let ps = distinct_parents raw
  ok (ps, record t { parents = put i ps t.parents; edges_visited = edges })

-- The parents of a revision, loaded at its first visit.
unfoldable pub load : Loader → ℕ → Traversal → Result (List ℕ × Traversal)
unfolding get put
load loader i t = elim (get i t.parents) [ some ps ↦ ok (ps, t) | none ↦ first_load loader i t ]

-- The rest of a round: the side is recorded, and the parents are queued for it.
unfoldable pub mark : ℕ → Side → Traversal → Traversal
unfolding get put
mark i side t = record t {
  reachability = put i (add_side side (get_or neither (get i t.reachability))) t.reachability;
}

abbrev pub Queue : Type 0
Queue = List (ℕ × Side)

unfoldable pub traverse : Loader → ℕ → Queue → Traversal → Result Traversal
unfolding load mark get
traverse loader fuel [] t = ok t
traverse loader zero (e ∷ queue) t = err out_of_fuel
traverse loader (suc fuel) ((i, side) ∷ queue) t =
    let visited = traverse loader fuel queue t in
    let visit = load loader i t >>= λ (ps, t').
    traverse loader fuel (queue ++ map (λ p. (p, side)) ps) (mark i side t') in
    if has_side side (get_or neither (get i t.reachability)) then visited else visit

-- Each revision is expanded at most twice, and queues at most its parents each time.
abbrev pub traversal_fuel : ℕ
traversal_fuel = 2 + 2 * max_revision_dag_edges

unfoldable pub common_ancestors : List (ℕ × Sides) → List ℕ
common_ancestors [] = []
common_ancestors ((i, s) ∷ d) =
    if s.by_left && s.by_right then i ∷ common_ancestors d else common_ancestors d

-- A heap is the sorted list of its items: a pop takes the first.
unfoldable pub push_sorted : ℕ → List ℕ → List ℕ
push_sorted i [] = i ∷ []
push_sorted i (j ∷ js) = if leb i j then i ∷ j ∷ js else j ∷ push_sorted i js

unfoldable pub sorted : List ℕ → List ℕ
unfolding push_sorted
sorted [] = []
sorted (i ∷ is) = push_sorted i (sorted is)

abbrev pub member : ℕ → List ℕ → Bool
member i is = any (λ j. j == i) is

unfoldable pub count_parents : List ℕ → List (ℕ × ℕ) → Result (List (ℕ × ℕ))
unfolding get put
count_parents [] counts = ok counts
count_parents (p ∷ ps) counts = elim (get p counts) [
  | some n ↦ count_parents ps (put p (n + 1) counts)
  | none ↦ err not_found
]

unfoldable pub count_children : List (ℕ × List ℕ) → List (ℕ × ℕ) → Result (List (ℕ × ℕ))
unfolding count_parents
count_children [] counts = ok counts
count_children ((i, ps) ∷ rest) counts = count_parents ps counts >>= count_children rest

-- The variables of the topological pass.
pub record Pass : Type 0 where
  pub child_counts : List (ℕ × ℕ)
  pub ready : List ℕ
  pub common_descendant : List ℕ
  pub non_best : List ℕ
  pub processed : ℕ

-- The loop over the parents of a popped revision.
unfoldable pub release : List ℕ → Bool → List ℕ → Pass → Pass
unfolding get put push_sorted
release common propagates [] s = s
release common propagates (p ∷ ps) s =
    let n = get_or 0 (get p s.child_counts) - 1 in
    release common propagates ps (record s {
      common_descendant = if propagates then p ∷ s.common_descendant else s.common_descendant;
      non_best = if propagates && member p common then p ∷ s.non_best else s.non_best;
      child_counts = put p n s.child_counts;
      ready = if n == 0 then push_sorted p s.ready else s.ready;
    })

unfoldable pub pass_loop : List (ℕ × List ℕ) → List ℕ → ℕ → Pass → Pass
unfolding release get
pass_loop parents common zero s = s
pass_loop parents common (suc fuel) s = elim s.ready [
  | [] ↦ s
  | i ∷ ready ↦ pass_loop parents common fuel (
      release common (member i common || member i s.common_descendant) (get_or [] (get i parents))
        (record s { ready = ready; processed = s.processed + 1 }))
]

abbrev pub without : List ℕ → List ℕ → List ℕ
without [] ys = []
without (x ∷ xs) ys = if member x ys then without xs ys else x ∷ without xs ys

abbrev pub keys {ℓ} : {A : Type ℓ} → List (ℕ × A) → List ℕ
keys [] = []
keys ((i, a) ∷ d) = i ∷ keys d

abbrev pub zero_counts : List ℕ → List (ℕ × ℕ)
zero_counts [] = []
zero_counts (i ∷ is) = (i, 0) ∷ zero_counts is

unfoldable pub no_children : List (ℕ × ℕ) → List ℕ
no_children [] = []
no_children ((i, n) ∷ d) = if n == 0 then i ∷ no_children d else no_children d

-- `_best_common_ancestors`: a revision is popped once, so that as many rounds as revisions do.
unfoldable pub best_common_ancestors : List (ℕ × List ℕ) → List ℕ → Result (List ℕ)
unfolding count_children no_children sorted pass_loop
best_common_ancestors parents common = do
  counts ← count_children parents (zero_counts (keys parents))
  let s = pass_loop parents common (length parents) (record {
    child_counts = counts;
    ready = sorted (no_children counts);
    common_descendant = [];
    non_best = [];
    processed = 0;
  })
  require (s.processed == length parents) revision_dag_cycle
  ok (sorted (without common s.non_best))

pub record Analysis : Type 0 where
  pub best : List ℕ
  pub common_count : ℕ
  pub nodes_visited : ℕ
  pub edges_visited : ℕ

unfoldable pub some_common : List ℕ → Result (Unit {0})
some_common [] = err (conflict [])
some_common (i ∷ is) = ok tt

unfoldable pub analyze_common_ancestors : Loader → ℕ → ℕ → Result Analysis
unfolding traverse common_ancestors best_common_ancestors some_common
analyze_common_ancestors loader l r = do
  t ← traverse loader traversal_fuel ((l, left) ∷ (r, right) ∷ []) untravelled
  let common = common_ancestors t.reachability
  best ← best_common_ancestors t.parents common
  some_common common
  ok (record {
    best = best;
    common_count = length common;
    nodes_visited = length t.parents;
    edges_visited = t.edges_visited;
  })

-- The conflict's text is not modelled.
unfoldable pub require_single_best : Analysis → Result ℕ
require_single_best a = elim a.best [
  | [] ↦ err (conflict [])
  | i ∷ is ↦ elim is [ [] ↦ ok i | _ ↦ err (conflict []) ]
]
