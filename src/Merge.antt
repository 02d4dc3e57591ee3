-- ===== src/Merge.antt =====
-- The three-way merge of sexpr_service.py, by stable node ids: `_merge_node`, `_merge_children`
-- and `_merge_states`. A function returns the conflicts that it appends, in order, beside its
-- result. A copy of a node is the node.
pub mod Additions
pub mod Keeps
pub mod States
use weave_jacquard.Prelude.{
  Bool, true, false, ◌&&◌, ◌||◌, ◌==◌, ltb, not, if◌then◌else◌, Option, none, some, List, [], ◌∷◌,
  ◌++◌,
}
use weave_jacquard.Prelude.Text.{Text, codes, text_eq, mem_text}
use weave_jacquard.Error.{Result, ok, err, conflict}
use weave_jacquard.Sexpr.Runtime.{Runtime}
use weave_jacquard.Sexpr.Node.{
  Kind, Atom, Node, Nodes, atom, list, nil, cons, node_id, to_list, from_list, node_eq,
}
use weave_jacquard.Edit.{kind_of}
use Additions.{child_ids, check_base_order, addition_slots, slot_at, merge_additions}

-- A value, with the conflicts met on the way to it.
abbrev pub Merged : Type 0 → Type 0
Merged A = A × List Text

-- The merge of the children of our and their list with those of a list of the base.
abbrev pub ChildMerge : Type 0 → Type 0
ChildMerge F = List (Node F) → List (Node F) → Merged (List (Node F))

-- {child["id"]: child for child in children}.get(i): the last child of the id.
unfoldable pub child_of : {F : Type 0} → Text → List (Node F) → Option (Node F)
child_of i [] = none
child_of i (n ∷ ns) = elim (child_of i ns) [
  | some m ↦ some m
  | none ↦ if text_eq (node_id n) i then some n else none
]

abbrev pub kind_eq : Kind → Kind → Bool
kind_eq Kind.symbol Kind.symbol = true
kind_eq Kind.string Kind.string = true
kind_eq Kind.integer Kind.integer = true
kind_eq Kind.float Kind.float = true
kind_eq Kind.boolean Kind.boolean = true
kind_eq _ _ = false

unfoldable pub same_kind : {F : Type 0} → Node F → Node F → Bool
unfolding kind_of
same_kind (atom i a) (atom j b) = kind_eq (kind_of a) (kind_of b)
same_kind (list i cs) (list j ds) = true
same_kind _ _ = false

abbrev pub maybe_cons : {A : Type 0} → Option A → List A → List A
maybe_cons none xs = xs
maybe_cons (some x) xs = x ∷ xs

-- f"{path}:{i}:{what}"
abbrev pub detail : Text → Text → Text → Text
detail path i what = path ++ (codes ":" ++ (i ++ (codes ":" ++ what)))

module _ {F : Type 0} ⦃r : Runtime F⦄ where
  -- Python's `==`, where None is the absence of a node.
  unfoldable pub option_eq : Option (Node F) → Option (Node F) → Bool
  option_eq none none = true
  option_eq (some m) (some n) = node_eq m n
  option_eq _ _ = false

  -- The end of `_merge_node`, where both sides have a node of the base's id.
  unfoldable pub merge_same_id :
      Text → Node F → Node F → Node F → ChildMerge F → Merged (Option (Node F))
  merge_same_id path (list i cs) (list j ours) (list k theirs) children =
      let (merged, conflicts) = children (to_list ours) (to_list theirs) in
      (some (list i (from_list merged)), conflicts)
  merge_same_id path base ours theirs children =
      if same_kind ours base && same_kind theirs base
      then (some ours, detail path (node_id base) (codes "value") ∷ [])
      else (some ours, detail path (node_id base) (codes "kind") ∷ [])

  -- `_merge_node` where both sides changed a node of the base, each in its way.
  unfoldable pub merge_changed :
      Text → Node F → Option (Node F) → Option (Node F) → ChildMerge F → Merged (Option (Node F))
  unfolding merge_same_id same_kind
  merge_changed path base none theirs children = (theirs, path ∷ [])
  merge_changed path base (some ours) none children = (some ours, path ∷ [])
  merge_changed path base (some ours) (some theirs) children =
      if text_eq (node_id ours) (node_id base) && text_eq (node_id theirs) (node_id base)
      then merge_same_id path base ours theirs children
      else (some ours, path ∷ [])

  -- The first tests of `_merge_node`: a side that equals the base gives way to the other.
  unfoldable pub merge_sides :
      Option (Node F)
      → Option (Node F)
      → Option (Node F)
      → Merged (Option (Node F))
      → Merged (Option (Node F))
  unfolding option_eq
  merge_sides base ours theirs changed =
      if option_eq ours base
      then (theirs, [])
      else if option_eq theirs base || option_eq ours theirs
      then (ours, [])
      else changed

  -- `_merge_children`, given the merge of the base's children one by one.
  unfoldable pub merge_children :
      Text
      → Text
      → List Text
      → List (Node F)
      → List (Node F)
      → Merged (List (Node F))
      → Merged (List (Node F))
  unfolding check_base_order addition_slots slot_at merge_additions
  merge_children path i base_ids ours theirs items =
      let order =
        check_base_order base_ids ours path i ++ check_base_order base_ids theirs path i in
      let front =
        merge_additions (slot_at none (addition_slots none base_ids ours))
          (slot_at none (addition_slots none base_ids theirs)) in
      (front ++ items.0, order ++ items.1)

  -- `_merge_node` on a node of the base, and the loop of `_merge_children` over the base's
  -- children. The source looks a base child up by its id, which is the child itself, where no id
  -- stands twice.
  unfoldable mutual
    unfolding merge_sides merge_changed merge_children child_of addition_slots slot_at
        merge_additions

    pub merge_known : Text → Node F → Option (Node F) → Option (Node F) → Merged (Option (Node F))
    merge_known path (atom i a) ours theirs =
        merge_sides (some (atom i a)) ours theirs
          (merge_changed path (atom i a) ours theirs λ _ _. ([], []))
    merge_known path (list i cs) ours theirs = merge_sides (some (list i cs)) ours theirs (
        merge_changed path (list i cs) ours theirs λ our_children their_children.
          let base_ids = child_ids (to_list cs) in
          merge_children path i base_ids our_children their_children
            (merge_items path base_ids cs our_children their_children))

    pub merge_items :
        Text → List Text → Nodes F → List (Node F) → List (Node F) → Merged (List (Node F))
    merge_items path base_ids nil ours theirs = ([], [])
    merge_items path base_ids (cons n ns) ours theirs =
        let (merged, conflicts) =
          merge_known (path ++ (codes "/" ++ node_id n)) n (child_of (node_id n) ours)
            (child_of (node_id n) theirs) in
        let (rest, more) = merge_items path base_ids ns ours theirs in
        let added =
          merge_additions (slot_at (some (node_id n)) (addition_slots none base_ids ours))
            (slot_at (some (node_id n)) (addition_slots none base_ids theirs)) in
        (maybe_cons merged (added ++ rest), conflicts ++ more)

  -- `_merge_node` where the base has no node.
  unfoldable pub merge_new : Text → Option (Node F) → Option (Node F) → Merged (Option (Node F))
  merge_new path none theirs = (theirs, [])
  merge_new path (some ours) none = (some ours, [])
  merge_new path (some ours) (some theirs) = (some ours, path ∷ [])

  unfoldable pub merge_node :
      Text → Option (Node F) → Option (Node F) → Option (Node F) → Merged (Option (Node F))
  unfolding merge_sides merge_new merge_known
  merge_node path none ours theirs = merge_sides none ours theirs (merge_new path ours theirs)
  merge_node path (some base) ours theirs = merge_known path base ours theirs
