-- ===== src/Sexpr/Node.antt =====
-- The node dictionaries of sexpr.py. An atom's `kind` and `value` are one constructor of `Atom`:
-- the checks of `validate_node` on the shape of a dictionary and on the type of a value are made
-- where a value enters (`typed_value` in Sexpr.Atom), and no tree violates them afterwards.
use weave_jacquard.Prelude.{
  ℕ, suc, ◌+◌, ◌≡◌, refl, Bool, true, false, ◌&&◌, Option, none, some, List, [], ◌∷◌,
}
use weave_jacquard.Prelude.Int.{ℤ, int_eq}
use weave_jacquard.Prelude.Text.{Text, text_eq}
use weave_jacquard.Sexpr.Runtime.{Runtime}

-- The value of a `float` atom is an `int` or a `float` of Python.
pub data Number (F : Type 0) : Type 0 where
  whole : ℤ → Number F
  floating : F → Number F

pub data Atom (F : Type 0) : Type 0 where
  symbol : Text → Atom F
  string : Text → Atom F
  integer : ℤ → Atom F
  float : Number F → Atom F
  boolean : Bool → Atom F

pub data Kind : Type 0 where
  symbol string integer float boolean : Kind

-- A value handed in by a caller, of any Python type.
pub data Value (F : Type 0) : Type 0 where
  str : Text → Value F
  int : ℤ → Value F
  float : F → Value F
  bool : Bool → Value F
  other : Value F

mutual
  pub data Node (F : Type 0) : Type 0 where
    atom : Text → Atom F → Node F
    list : Text → Nodes F → Node F

  -- The children array.
  pub data Nodes (F : Type 0) : Type 0 where
    nil : Nodes F
    cons : Node F → Nodes F → Nodes F

module _ {F : Type 0} where
  -- node["id"]
  abbrev pub node_id : Node F → Text
  node_id (atom i a) = i
  node_id (list i cs) = i

  abbrev pub to_list : Nodes F → List (Node F)
  to_list nil = []
  to_list (cons n ns) = n ∷ to_list ns

  abbrev pub from_list : List (Node F) → Nodes F
  from_list [] = nil
  from_list (n ∷ ns) = cons n (from_list ns)

  pub from_list-to_list : (ns : Nodes F) → from_list (to_list ns) ≡ ns
  from_list-to_list nil = refl
  from_list-to_list (cons n ns) = cc (from_list-to_list ns)

  pub to_list-from_list : (ns : List (Node F)) → to_list (from_list ns) ≡ ns
  to_list-from_list [] = refl
  to_list-from_list (n ∷ ns) = cc (to_list-from_list ns)

unfoldable mutual
  pub size : {F : Type 0} → Node F → ℕ
  size (atom i a) = 1
  size (list i cs) = suc (size_all cs)

  pub size_all : {F : Type 0} → Nodes F → ℕ
  size_all nil = 0
  size_all (cons n ns) = size n + size_all ns

-- head_symbol: the symbol at the front of a list.
unfoldable pub head_symbol : {F : Type 0} → Node F → Option Text
head_symbol (list i (cons (atom j (symbol s)) ns)) = some s
head_symbol _ = none

-- Python's `==` on the values of one kind: 1 == 1.0 for the values of `float` atoms.
unfoldable pub number_eq : {F : Type 0} ⦃r : Runtime F⦄ → Number F → Number F → Bool
number_eq (whole a) (whole b) = int_eq a b
number_eq ⦃r⦄ (floating x) (floating y) = r.float_eq x y
number_eq ⦃r⦄ (whole a) (floating y) = r.float_eq_int y a
number_eq ⦃r⦄ (floating x) (whole b) = r.float_eq_int x b

abbrev pub bool_eq : Bool → Bool → Bool
bool_eq true b = b
bool_eq false true = false
bool_eq false false = true

unfoldable pub atom_eq : {F : Type 0} ⦃r : Runtime F⦄ → Atom F → Atom F → Bool
unfolding number_eq
atom_eq (symbol a) (symbol b) = text_eq a b
atom_eq (string a) (string b) = text_eq a b
atom_eq (integer a) (integer b) = int_eq a b
atom_eq (float a) (float b) = number_eq a b
atom_eq (boolean a) (boolean b) = bool_eq a b
atom_eq _ _ = false

-- Python's `==` on two node dictionaries, which decides whether a side changed a node.
unfoldable mutual
  pub node_eq : {F : Type 0} ⦃r : Runtime F⦄ → Node F → Node F → Bool
  node_eq (atom i a) (atom j b) = text_eq i j && atom_eq a b
  node_eq (list i xs) (list j ys) = text_eq i j && nodes_eq xs ys
  node_eq _ _ = false

  pub nodes_eq : {F : Type 0} ⦃r : Runtime F⦄ → Nodes F → Nodes F → Bool
  nodes_eq nil nil = true
  nodes_eq (cons x xs) (cons y ys) = node_eq x y && nodes_eq xs ys
  nodes_eq _ _ = false
