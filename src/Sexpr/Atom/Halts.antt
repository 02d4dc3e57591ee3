-- ===== src/Sexpr/Atom/Halts.antt =====
-- No operation on an atom needs fuel.
use weave_jacquard.Prelude.{◌≢◌, arith}
use weave_jacquard.Prelude.Int.{ℤ}
use weave_jacquard.Prelude.Text.{Text}
use weave_jacquard.Error.{err, out_of_fuel, require, invalid_node_id}
use weave_jacquard.Error.Halts.{Halts, Any, ≢-Halts, >>=-Halts, require-Halts}
use weave_jacquard.Sexpr.Runtime.{Runtime}
use weave_jacquard.Sexpr.Node.{
  Node, Atom, Kind, Value, atom, list, symbol, string, integer, float, boolean, floating, whole,
}
use weave_jacquard.Sexpr.Atom.{
  str_of_int, utf8_bytes, float_bytes, atom_value_bytes, check_finite, check_value, validate_node,
  typed_value, make_atom, node_id_matches,
}

typed_value_halts : {F : Type 0} (k : Kind) (v : Value F) → typed_value k v ≢ err out_of_fuel
unfolding typed_value
typed_value_halts k v h = ground arith

str_of_int_halts : (n : ℤ) → str_of_int n ≢ err out_of_fuel
unfolding str_of_int
str_of_int_halts n h = ground arith

pub utf8_bytes_halts : (s : Text) → utf8_bytes s ≢ err out_of_fuel
unfolding utf8_bytes
utf8_bytes_halts s h = ground arith

module _ {F : Type 0} ⦃r : Runtime F⦄ where
  pub atom_value_bytes_halts : (a : Atom F) → atom_value_bytes a ≢ err out_of_fuel
  unfolding atom_value_bytes float_bytes
  atom_value_bytes_halts (integer n) h = ground (arith, str_of_int_halts n)
  atom_value_bytes_halts (float (whole n)) h = ground arith
  atom_value_bytes_halts (float (floating x)) h = cc
  atom_value_bytes_halts (string s) h = utf8_bytes_halts s h
  atom_value_bytes_halts (symbol s) h = utf8_bytes_halts s h
  atom_value_bytes_halts (boolean b) h = cc

  check_value_halts : (a : Atom F) → check_value a ≢ err out_of_fuel
  unfolding check_value check_finite
  check_value_halts a h = ground (arith, atom_value_bytes_halts a)

  pub validate_node_halts : (n : Node F) → validate_node n ≢ err out_of_fuel
  unfolding validate_node
  validate_node_halts (atom i a) h = ground (arith, check_value_halts a)
  validate_node_halts (list i cs) h = ground arith

  pub make_atom-Halts : (i : Text) (k : Kind) (v : Value F) → Halts Any (make_atom i k v)
  unfolding make_atom
  make_atom-Halts i k v =
      >>=-Halts Any Any (require (node_id_matches i) invalid_node_id) _
        (require-Halts (node_id_matches i) invalid_node_id)
        λ _ _.
          >>=-Halts Any Any (typed_value k v) _ (≢-Halts (typed_value k v) (typed_value_halts k v))
            λ a _.
              >>=-Halts Any Any (validate_node (atom i a)) _
                (≢-Halts (validate_node (atom i a)) (validate_node_halts (atom i a))) λ _ _. tt
