-- ===== src/Merge/Additions.antt =====
-- The children that one side added, and the order of those that it kept: `_check_base_order`,
-- `_addition_slots` and `_merge_additions` of sexpr_service.py.
use weave_jacquard.Prelude.{
  Bool, true, false, ◌&&◌, if◌then◌else◌, Option, none, some, List, [], ◌∷◌, ◌++◌,
}
use weave_jacquard.Prelude.Text.{Text, codes, text_eq, mem_text}
use weave_jacquard.Sexpr.Node.{Node, node_id}

unfoldable pub texts_eq : List Text → List Text → Bool
texts_eq [] [] = true
texts_eq (s ∷ ss) (t ∷ ts) = text_eq s t && texts_eq ss ts
texts_eq _ _ = false

-- [i for i in xs if i in ys]
unfoldable pub common : List Text → List Text → List Text
common [] ys = []
common (i ∷ is) ys = if mem_text i ys then i ∷ common is ys else common is ys

unfoldable pub child_ids : {F : Type 0} → List (Node F) → List Text
child_ids [] = []
child_ids (n ∷ ns) = node_id n ∷ child_ids ns

-- The conflict, if the kept children do not stand in the order of the base.
unfoldable pub check_base_order : {F : Type 0} → List Text → List (Node F) → Text → Text → List Text
unfolding texts_eq common child_ids
check_base_order base_ids children path i =
    let actual = common (child_ids children) base_ids in
    let expected = common base_ids actual in
    if texts_eq actual expected then [] else (path ++ (codes ":" ++ (i ++ codes ":reorder"))) ∷ []

-- The additions in order, each with its anchor: the kept child that it follows, if any.
unfoldable pub addition_slots :
    {F : Type 0} → Option Text → List Text → List (Node F) → List (Option Text × Node F)
addition_slots anchor base_ids [] = []
addition_slots anchor base_ids (n ∷ ns) =
    let kept = addition_slots (some (node_id n)) base_ids ns in
    let added = (anchor, n) ∷ addition_slots anchor base_ids ns in
    if mem_text (node_id n) base_ids then kept else added

abbrev pub anchor_eq : Option Text → Option Text → Bool
anchor_eq none none = true
anchor_eq (some s) (some t) = text_eq s t
anchor_eq _ _ = false

-- slots.get(anchor, [])
unfoldable pub slot_at : {F : Type 0} → Option Text → List (Option Text × Node F) → List (Node F)
slot_at a [] = []
slot_at a ((b, n) ∷ slots) = if anchor_eq b a then n ∷ slot_at a slots else slot_at a slots

-- The first child of each id.
unfoldable pub keep_first : {F : Type 0} → List Text → List (Node F) → List (Node F)
keep_first seen [] = []
keep_first seen (n ∷ ns) =
    let fresh = n ∷ keep_first (node_id n ∷ seen) ns in
    if mem_text (node_id n) seen then keep_first seen ns else fresh

unfoldable pub merge_additions : {F : Type 0} → List (Node F) → List (Node F) → List (Node F)
unfolding keep_first
merge_additions ours theirs = keep_first [] (ours ++ theirs)
