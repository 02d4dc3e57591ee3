-- ===== src/Sexpr/Atom.antt =====
-- The atoms of sexpr.py: `validate_node`, `make_atom`, `_render_atom`, `_atom_value_bytes`.
pub mod Bytes
pub mod Halts
use weave_jacquard.Prelude.{
  ℕ, zero, suc, ◌+◌, ◌/◌, ◌%◌, ◌≡◌, Bool, true, false, ◌&&◌, ◌||◌, ◌==◌, ltb, leb, if◌then◌else◌,
  Option, none, some, List, [], ◌∷◌, ◌++◌, length, any,
}
use weave_jacquard.Prelude.Int.{ℤ, pos, negsuc}
use weave_jacquard.Prelude.Text.{Text, codes, utf8_length, is_surrogate}
use weave_jacquard.Error.{
  Code, Result, ok, err, validation, value_error, overflow_error, invalid_node_id, invalid_value,
  atom_value_too_large, ◌>>=◌, ◌>>◌, require,
}
use weave_jacquard.Limits.{max_atom_value_bytes}
use weave_jacquard.Sexpr.Runtime.{Runtime}
use weave_jacquard.Sexpr.Node.{
  Number, whole, floating, Atom, symbol, string, integer, float, boolean, Node, Nodes, atom, list,
  Kind, Value, str, int, bool,
}

-- NODE_ID_PATTERN = ^n_[A-Za-z0-9_-]+$
unfoldable pub is_id_char : ℕ → Bool
is_id_char c =
    (leb b'A' c && leb c b'Z')
    || (leb b'a' c && leb c b'z')
    || (leb b'0' c && leb c b'9')
    || c == b'_'
    || c == b'-'

-- What may follow the first character of the class: more of it, and `$` matches at the end and
-- also before one newline at the end.
unfoldable pub id_rest : Text → Bool
unfolding is_id_char
id_rest [] = true
id_rest (c ∷ []) = is_id_char c || c == 10
id_rest (c ∷ d ∷ s) = is_id_char c && id_rest (d ∷ s)

unfoldable pub node_id_matches : Text → Bool
unfolding id_rest
node_id_matches (a ∷ b ∷ c ∷ s) = a == b'n' && b == b'_' && is_id_char c && id_rest s
node_id_matches _ = false

-- str(n) for n ≥ 0, with fuel above n.
unfoldable pub digits : ℕ → ℕ → Text
digits zero n = []
digits (suc f) n =
    let more = digits f (n / 10) ++ (b'0' + n % 10) ∷ [] in
    if ltb n 10 then (b'0' + n) ∷ [] else more

unfoldable pub show_nat : ℕ → Text
unfolding digits
show_nat n = digits (suc n) n

unfoldable pub show_int : ℤ → Text
unfolding show_nat
show_int (pos n) = show_nat n
show_int (negsuc n) = b'-' ∷ show_nat (suc n)

-- CPython refuses to convert between `int` and `str` above this many digits.
abbrev pub max_int_digits : ℕ
max_int_digits = 4300

abbrev pub magnitude : ℤ → ℕ
magnitude (pos n) = n
magnitude (negsuc n) = suc n

-- str(n), which raises ValueError on a number of more digits.
unfoldable pub str_of_int : ℤ → Result Text
unfolding show_int
str_of_int n =
    if leb (length (show_nat (magnitude n))) max_int_digits
    then ok (show_int n)
    else err value_error

-- len(s.encode("utf-8")), which raises UnicodeEncodeError, a ValueError, on a lone surrogate.
unfoldable pub utf8_bytes : Text → Result ℕ
unfolding utf8_length
utf8_bytes s = if any is_surrogate s then err value_error else ok (utf8_length s)

-- text.replace(c, new) for one character c
unfoldable pub replace : ℕ → Text → Text → Text
replace c new [] = []
replace c new (d ∷ s) = (if d == c then new else d ∷ []) ++ replace c new s

-- The five calls of `replace`, the backslash first.
unfoldable pub escape : Text → Text
unfolding replace
escape s =
    let s₁ = replace b'\\' (codes "\\\\") s in
    let s₂ = replace b'"' (codes "\\\"") s₁ in
    let s₃ = replace 10 (codes "\\n") s₂ in
    let s₄ = replace 13 (codes "\\r") s₃ in replace 9 (codes "\\t") s₄

module _ {F : Type 0} ⦃r : Runtime F⦄ where
  -- repr(float(value)); `validate_node` has refused the integers on which float() raises.
  unfoldable pub show_number : Number F → Text
  show_number (floating x) = r.repr x
  show_number (whole n) = elim (r.float_of_int n) [ some x ↦ r.repr x | none ↦ [] ]

  unfoldable pub render_atom : Atom F → Text
  unfolding show_number escape show_int
  render_atom (string s) = b'"' ∷ escape s ++ b'"' ∷ []
  render_atom (boolean b) = if b then codes "true" else codes "false"
  render_atom (float x) = show_number x
  render_atom (integer n) = show_int n
  render_atom (symbol s) = s

  float_bytes : Number F → Result ℕ
  float_bytes (floating x) = ok (utf8_length (r.repr x))
  float_bytes (whole n) = elim (r.float_of_int n) [
    | some x ↦ ok (utf8_length (r.repr x))
    | none ↦ err overflow_error
  ]

  unfoldable pub atom_value_bytes : Atom F → Result ℕ
  unfolding float_bytes str_of_int utf8_bytes
  atom_value_bytes (string s) = utf8_bytes s
  atom_value_bytes (symbol s) = utf8_bytes s
  atom_value_bytes (float x) = float_bytes x
  atom_value_bytes (integer n) = do s ← str_of_int n; ok (utf8_length s)
  atom_value_bytes (boolean b) = ok (if b then 4 else 5)

  -- math.isfinite(value) converts an integer to a float first, and raises OverflowError there.
  check_finite : Atom F → Result (Unit {0})
  check_finite (float (floating x)) = require (r.is_finite x) invalid_value
  check_finite (float (whole n)) = elim (r.float_of_int n) [
    | some x ↦ ok tt
    | none ↦ err overflow_error
  ]
  check_finite _ = ok tt

  check_value : Atom F → Result (Unit {0})
  unfolding check_finite atom_value_bytes
  check_value a = do
    check_finite a
    n ← atom_value_bytes a
    require (leb n max_atom_value_bytes) atom_value_too_large

  unfoldable pub validate_node : Node F → Result (Unit {0})
  unfolding check_value node_id_matches
  validate_node (list i cs) = require (node_id_matches i) invalid_node_id
  validate_node (atom i a) = do require (node_id_matches i) invalid_node_id; check_value a

-- The tests of `validate_node` on the type of a value, one kind a line.
unfoldable pub typed_value : {F : Type 0} → Kind → Value F → Result (Atom F)
typed_value Kind.symbol (str s) = ok (Atom.symbol s)
typed_value Kind.string (str s) = ok (Atom.string s)
typed_value Kind.integer (int n) = ok (Atom.integer n)
typed_value Kind.float (int n) = ok (Atom.float (whole n))
typed_value Kind.float (Value.float x) = ok (Atom.float (floating x))
typed_value Kind.boolean (bool b) = ok (Atom.boolean b)
typed_value _ _ = err (validation invalid_value)

module _ {F : Type 0} ⦃r : Runtime F⦄ where
  unfoldable pub make_atom : Text → Kind → Value F → Result (Node F)
  unfolding typed_value validate_node
  make_atom i k v = do
    require (node_id_matches i) invalid_node_id
    a ← typed_value k v
    validate_node (atom i a)
    ok (atom i a)
