-- ===== src/Merge/Keeps.antt =====
-- The children that one side added are in the merge.
use weave_jacquard.Prelude.{
  ◌≡◌, ◌≢◌, refl, true, false, Option, some, none, List, [], ◌∷◌, ◌++◌, arith, Bool-cases, inl, inr,
  ◌⊎◌,
}
use weave_jacquard.Prelude.Text.{Text, codes, text_eq, text_eq_iff, text_eq_refl, mem_text}
use weave_jacquard.Sexpr.Runtime.{Runtime}
use weave_jacquard.Sexpr.Node.{Node, Nodes, nil, cons, node_id, to_list}
use weave_jacquard.Merge.{maybe_cons, child_of, merge_items, merge_children, merge_known}
use weave_jacquard.Merge.Additions.{
  child_ids, addition_slots, anchor_eq, slot_at, keep_first, merge_additions,
}

-- An anchor is the front, or a child of the base.
abbrev IsAnchor : List Text → Option Text → Type 0
IsAnchor base_ids none = Unit
IsAnchor base_ids (some a) = mem_text a base_ids ≡ true

anchor_eq_refl : (a : Option Text) → anchor_eq a a ≡ true
anchor_eq_refl none = refl
anchor_eq_refl (some t) = text_eq_refl t

module _ {F : Type 0} where
  -- A node of the list has the id.
  abbrev pub Holds : Text → List (Node F) → Type 0
  Holds i ns = mem_text i (child_ids ns) ≡ true

  Holds-left : (i : Text) (ms ns : List (Node F)) → Holds i ms → Holds i (ms ++ ns)
  unfolding child_ids mem_text
  Holds-left i [] ns h = cc
  Holds-left i (m ∷ ms) ns h = ground (arith, Holds-left i ms ns)

  Holds-right : (i : Text) (ms ns : List (Node F)) → Holds i ns → Holds i (ms ++ ns)
  unfolding child_ids mem_text
  Holds-right i [] ns h = h
  Holds-right i (m ∷ ms) ns h = ground (arith, Holds-right i ms ns)

  keep_first-Holds :
      (i : Text) (seen : List Text) (ns : List (Node F))
      → mem_text i seen ≡ false
      → Holds i ns
      → Holds i (keep_first seen ns)
  unfolding keep_first child_ids mem_text
  keep_first-Holds i seen [] new h = cc
  keep_first-Holds i seen (n ∷ ns) new h = ground (
    arith,
    text_eq_iff i (node_id n),
    keep_first-Holds i seen ns,
    keep_first-Holds i (node_id n ∷ seen) ns,
  )

  merge_additions-Holds :
      (i : Text) (ours theirs : List (Node F))
      → (Holds i ours) ⊎ (Holds i theirs)
      → Holds i (merge_additions ours theirs)
  unfolding merge_additions mem_text
  merge_additions-Holds i ours theirs (inl h) =
      keep_first-Holds i [] (ours ++ theirs) refl (Holds-left i ours theirs h)
  merge_additions-Holds i ours theirs (inr h) =
      keep_first-Holds i [] (ours ++ theirs) refl (Holds-right i ours theirs h)

  slot_at-cons :
      (i : Text) (a b : Option Text) (n : Node F) (slots : List (Option Text × Node F))
      → Holds i (slot_at a slots)
      → Holds i (slot_at a ((b, n) ∷ slots))
  unfolding slot_at child_ids mem_text
  slot_at-cons i a b n slots h = ground arith

  slot_at_here :
      (a : Option Text) (n : Node F) (slots : List (Option Text × Node F))
      → Holds (node_id n) (slot_at a ((a, n) ∷ slots))
  unfolding slot_at child_ids mem_text
  slot_at_here a n slots = ground (arith, anchor_eq_refl a, text_eq_refl (node_id n))

  kept_slots :
      (a : Option Text) (base_ids : List Text) (n : Node F) (ns : List (Node F))
      → mem_text (node_id n) base_ids ≡ true
      → addition_slots a base_ids (n ∷ ns) ≡ addition_slots (some (node_id n)) base_ids ns
  unfolding addition_slots
  kept_slots a base_ids n ns h = rw h refl

  added_slots :
      (a : Option Text) (base_ids : List Text) (n : Node F) (ns : List (Node F))
      → mem_text (node_id n) base_ids ≡ false
      → addition_slots a base_ids (n ∷ ns) ≡ (a, n) ∷ addition_slots a base_ids ns
  unfolding addition_slots
  added_slots a base_ids n ns h = rw h refl

  Holds-tail :
      (i : Text) (n : Node F) (ns : List (Node F)) → i ≢ node_id n → Holds i (n ∷ ns) → Holds i ns
  unfolding child_ids mem_text
  Holds-tail i n ns ne h = ground (arith, text_eq_iff i (node_id n))

  -- An addition stands in the slot of some anchor.
  pub slot_of :
      (i : Text) (a : Option Text) (base_ids : List Text) (ns : List (Node F))
      → IsAnchor base_ids a
      → mem_text i base_ids ≡ false
      → Holds i ns
      → (b : Option Text) × IsAnchor base_ids b × Holds i (slot_at b (addition_slots a base_ids ns))
  slot_of i a base_ids [] anchor new h = unfold mem_text child_ids in cc
  slot_of i a base_ids (n ∷ ns) anchor new h = elim (Bool-cases (mem_text (node_id n) base_ids)) [
    | inl kept ↦
        let other : i ≢ node_id n = λ e. cc in
        rw (kept_slots a base_ids n ns kept)
          (slot_of i (some (node_id n)) base_ids ns kept new (Holds-tail i n ns other h))
    | inr added ↦
        rw (added_slots a base_ids n ns added) (elim (Bool-cases (text_eq i (node_id n))) [
          | inl same ↦ (
            a,
            anchor,
            rw ((text_eq_iff i (node_id n)).0 same)
                (slot_at_here a n (addition_slots a base_ids ns)),
          )
          | inr differs ↦
              let other : i ≢ node_id n = λ e. let same = (text_eq_iff i (node_id n)).1 e in cc in
              let (b, is_anchor, in_slot) =
                slot_of i a base_ids ns anchor new (Holds-tail i n ns other h) in
              (b, is_anchor, slot_at-cons i b a n (addition_slots a base_ids ns) in_slot)
        ])
  ]

  maybe_cons-Holds :
      (i : Text) (m : Option (Node F)) (ns : List (Node F)) → Holds i ns → Holds i (maybe_cons m ns)
  unfolding child_ids mem_text
  maybe_cons-Holds i none ns h = h
  maybe_cons-Holds i (some m) ns h = ground arith

module _ {F : Type 0} ⦃r : Runtime F⦄ where
  -- One of the sides has the node in the slot of the anchor.
  abbrev InSlot : Text → Option Text → List Text → List (Node F) → List (Node F) → Type 0
  InSlot i a base_ids ours theirs =
      Holds i (slot_at a (addition_slots none base_ids ours))
      ⊎ Holds i (slot_at a (addition_slots none base_ids theirs))

  merge_items-Holds :
      (i a path : Text) (base_ids : List Text) (cs : Nodes F) (ours theirs : List (Node F))
      → mem_text a (child_ids (to_list cs)) ≡ true
      → InSlot i (some a) base_ids ours theirs
      → Holds i (merge_items path base_ids cs ours theirs).0
  unfolding merge_known
  merge_items-Holds i a path base_ids nil ours theirs h slot = unfold mem_text child_ids in cc
  merge_items-Holds i a path base_ids (cons n ns) ours theirs h slot =
      let merged =
        (merge_known (path ++ (codes "/" ++ node_id n)) n (child_of (node_id n) ours)
          (child_of (node_id n) theirs)).0 in
      let our_slot = slot_at (some (node_id n)) (addition_slots none base_ids ours) in
      let their_slot = slot_at (some (node_id n)) (addition_slots none base_ids theirs) in
      let added = merge_additions our_slot their_slot in
      let rest = (merge_items path base_ids ns ours theirs).0 in
      elim (Bool-cases (text_eq a (node_id n))) [
        | inl same ↦
            let at : a ≡ node_id n = (text_eq_iff a (node_id n)).0 same in
            maybe_cons-Holds i merged (added ++ rest) (
              Holds-left i added rest (merge_additions-Holds i our_slot their_slot (rw at at slot)))
        | inr differs ↦
            let other : a ≢ node_id n = λ e. let same = (text_eq_iff a (node_id n)).1 e in cc in
            maybe_cons-Holds i merged (added ++ rest) (
              Holds-right i added rest (
                merge_items-Holds i a path base_ids ns ours theirs
                  (Holds-tail a n (to_list ns) other h) slot))
      ]

  -- In the merge of the children of a list, every child that either side
  -- added is present.
  pub merge_children_keeps_additions :
      (i path list_id : Text) (cs : Nodes F) (ours theirs : List (Node F))
      → mem_text i (child_ids (to_list cs)) ≡ false
      → Holds i ours ⊎ Holds i theirs
      → Holds i
          (merge_children path list_id
            (child_ids (to_list cs))
            ours
            theirs
            (merge_items path (child_ids (to_list cs)) cs ours theirs)).0
  unfolding merge_children
  merge_children_keeps_additions i path list_id cs ours theirs new h =
      let (a, anchor, slot) = found h in placed a anchor slot
    where
      base_ids : List Text
      base_ids = child_ids (to_list cs)

      found :
          Holds i ours ⊎ Holds i theirs
          → (a : Option Text) × IsAnchor base_ids a × InSlot i a base_ids ours theirs
      found (inl o) =
          let (a, anchor, slot) = slot_of i none base_ids ours tt new o in (a, anchor, inl slot)
      found (inr t) =
          let (a, anchor, slot) = slot_of i none base_ids theirs tt new t in (a, anchor, inr slot)

      front : List (Node F)
      front =
          merge_additions (slot_at none (addition_slots none base_ids ours))
            (slot_at none (addition_slots none base_ids theirs))

      items : List (Node F)
      items = (merge_items path base_ids cs ours theirs).0

      placed :
          (a : Option Text)
          → IsAnchor base_ids a
          → InSlot i a base_ids ours theirs
          → Holds i
              (merge_children path list_id base_ids ours theirs
                (merge_items path base_ids cs ours theirs)).0
      placed none anchor slot = Holds-left i front items (merge_additions-Holds i _ _ slot)
      placed (some a) anchor slot =
          Holds-right i front items (merge_items-Holds i a path base_ids cs ours theirs anchor slot)
