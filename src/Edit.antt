-- ===== src/Edit.antt =====
-- The structural edits of concurrent_sexpr.py and sexpr_service.py, on the tree of one document.
-- The source changes the found dictionary in place. Here the tree is rebuilt, with the node of the
-- found id changed: the same, in a tree where no id stands twice, as in every stored tree. The ids
-- of new nodes are arguments.
use weave_jacquard.Prelude.{
  ℕ, zero, suc, Bool, true, false, leb, if◌then◌else◌, Option, none, some, not, length,
}
use weave_jacquard.Prelude.Int.{ℤ, pos, negsuc}
use weave_jacquard.Prelude.Text.{Text, text_eq}
use weave_jacquard.Error.{
  Result, ok, err, validation, ◌>>=◌, ◌>>◌, require, not_list, not_atom, invalid_position,
  delete_root, move_root, move_cycle, wrap_root,
}
use weave_jacquard.Sexpr.Runtime.{Runtime}
use weave_jacquard.Sexpr.Node.{
  Atom, Kind, Value, symbol, string, integer, float, boolean, str, Node, Nodes, atom, list, nil,
  cons, node_id, to_list,
}
use weave_jacquard.Sexpr.Atom.{make_atom}
use weave_jacquard.Sexpr.Validate.{validate_tree}
use weave_jacquard.Sexpr.Walk.{Yields, stop, raises, yield, walk_nodes, find_node, find_parent}

module _ {F : Type 0} where
  -- node["children"], and `_require_list`
  unfoldable pub require_list : Node F → Result (Nodes F)
  require_list (atom i a) = err (validation not_list)
  require_list (list i cs) = ok cs

  unfoldable pub insert_at : ℕ → Node F → Nodes F → Nodes F
  insert_at zero n ns = cons n ns
  insert_at (suc k) n nil = cons n nil
  insert_at (suc k) n (cons m ns) = cons m (insert_at k n ns)

  -- children.pop(index)
  unfoldable pub remove_at : ℕ → Nodes F → Nodes F
  remove_at k nil = nil
  remove_at zero (cons m ns) = ns
  remove_at (suc k) (cons m ns) = cons m (remove_at k ns)

  -- children[index] = n
  unfoldable pub replace_at : ℕ → Node F → Nodes F → Nodes F
  replace_at k n nil = nil
  replace_at zero n (cons m ns) = cons n ns
  replace_at (suc k) n (cons m ns) = cons m (replace_at k n ns)

  unfoldable pub child_at : ℕ → Nodes F → Option (Node F)
  child_at k nil = none
  child_at zero (cons m ns) = some m
  child_at (suc k) (cons m ns) = child_at k ns

  -- `_insert_child`: the new children, and the index.
  unfoldable pub insert_child : Nodes F → Node F → Option ℤ → Result (Nodes F × ℕ)
  unfolding insert_at
  insert_child cs n none = ok (insert_at (length (to_list cs)) n cs, length (to_list cs))
  insert_child cs n (some (pos k)) =
      if leb k (length (to_list cs))
      then ok (insert_at k n cs, k)
      else err (validation invalid_position)
  insert_child cs n (some (negsuc k)) = err (validation invalid_position)

-- The children of the list with the id are changed by `f`.
unfoldable mutual
  pub modify_children : {F : Type 0} → Text → (Nodes F → Nodes F) → Node F → Node F
  modify_children i f (atom j a) = atom j a
  modify_children i f (list j cs) =
      let below = modify_children_all i f cs in list j (if text_eq j i then f cs else below)

  pub modify_children_all : {F : Type 0} → Text → (Nodes F → Nodes F) → Nodes F → Nodes F
  modify_children_all i f nil = nil
  modify_children_all i f (cons n ns) = cons (modify_children i f n) (modify_children_all i f ns)

-- The node with the id gives way to another.
unfoldable mutual
  pub replace_node : {F : Type 0} → Text → Node F → Node F → Node F
  replace_node i new (atom j a) = if text_eq j i then new else atom j a
  replace_node i new (list j cs) =
      let below = list j (replace_node_all i new cs) in if text_eq j i then new else below

  pub replace_node_all : {F : Type 0} → Text → Node F → Nodes F → Nodes F
  replace_node_all i new nil = nil
  replace_node_all i new (cons n ns) = cons (replace_node i new n) (replace_node_all i new ns)

-- `any(descendant["id"] == i for descendant in walk)`
unfoldable pub walk_meets : {F : Type 0} → Text → Yields (Node F) → Result Bool
walk_meets i stop = ok false
walk_meets i (raises e) = err e
walk_meets i (yield n rest) =
    let later = walk_meets i rest in if text_eq (node_id n) i then ok true else later

unfoldable pub kind_of : {F : Type 0} → Atom F → Kind
kind_of (symbol s) = Kind.symbol
kind_of (string s) = Kind.string
kind_of (integer n) = Kind.integer
kind_of (float x) = Kind.float
kind_of (boolean b) = Kind.boolean

-- The wrapper takes the place of the child, which becomes its last item.
unfoldable pub wrap_at : {F : Type 0} → Node F → ℕ → Nodes F → Nodes F
unfolding child_at replace_at insert_at
wrap_at (atom i a) index children = children
wrap_at (list i items) index children = elim (child_at index children) [
  | some child ↦ replace_at index (list i (insert_at (length (to_list items)) child items)) children
  | none ↦ children
]

module _ {F : Type 0} ⦃r : Runtime F⦄ where
  -- `make_form`, with the id of the list and of its head symbol.
  unfoldable pub make_form : Text → Text → Text → Result (Node F)
  make_form i j head = do
    h ← make_atom j Kind.symbol (str head)
    let form = list i (cons h nil)
    validate_tree form
    ok form

  unfoldable pub create_form : Node F → Text → Text → Option ℤ → Text → Text → Result (Node F)
  unfolding make_form insert_child require_list modify_children
  create_form root parent_id head position i j = do
    parent ← find_node root parent_id
    children ← require_list parent
    form ← make_form i j head
    (children', index) ← insert_child children form position
    ok (modify_children parent_id (λ _. children') root)

  unfoldable pub add_atom : Node F → Text → Kind → Value F → Option ℤ → Text → Result (Node F)
  unfolding insert_child require_list modify_children
  add_atom root parent_id kind value position i = do
    parent ← find_node root parent_id
    children ← require_list parent
    new ← make_atom i kind value
    (children', index) ← insert_child children new position
    ok (modify_children parent_id (λ _. children') root)

  unfoldable pub set_value : Node F → Node F → Value F → Result (Node F)
  unfolding kind_of replace_node
  set_value root (list i cs) value = err (validation not_atom)
  set_value root (atom i a) value = do
    replacement ← make_atom i (kind_of a) value
    ok (replace_node i replacement root)

  unfoldable pub set_atom : Node F → Text → Value F → Result (Node F)
  unfolding set_value
  set_atom root i value = do node ← find_node root i; set_value root node value

  unfoldable pub delete_node : Node F → Text → Result (Node F)
  unfolding remove_at modify_children
  delete_node root i = do
    require (not (text_eq (node_id root) i)) delete_root
    (parent, index) ← find_parent root i
    ok (modify_children (node_id parent) (remove_at index) root)

  -- The insertion reads the children of the new parent after the removal, which matters where
  -- both parents are one.
  unfoldable pub move_node : Node F → Text → Text → Option ℤ → Result (Node F)
  unfolding walk_meets insert_child require_list remove_at modify_children
  move_node root i new_parent_id position = do
    require (not (text_eq (node_id root) i)) move_root
    node ← find_node root i
    inside ← walk_meets new_parent_id (walk_nodes node)
    require (not inside) move_cycle
    (old_parent, old_index) ← find_parent root i
    new_parent ← find_node root new_parent_id
    require_list new_parent
    let without = modify_children (node_id old_parent) (remove_at old_index) root
    new_parent' ← find_node without new_parent_id
    children ← require_list new_parent'
    (children', index) ← insert_child children node position
    ok (modify_children new_parent_id (λ _. children') without)

  unfoldable pub wrap_node : Node F → Text → Text → Text → Text → Result (Node F)
  unfolding make_form wrap_at modify_children
  wrap_node root k head i j = do
    require (not (text_eq (node_id root) k)) wrap_root
    (parent, index) ← find_parent root k
    wrapper ← make_form i j head
    ok (modify_children (node_id parent) (wrap_at wrapper index) root)
