-- ===== src/Sexpr/Atom/Bytes.antt =====
-- An atom that `validate_node` accepts has a size, within its bound.
use weave_jacquard.Prelude.{ℕ, ◌≤◌, ◌≡◌, arith}
use weave_jacquard.Prelude.Text.{Text}
use weave_jacquard.Error.{ok, require, >>=-eq-ok}
use weave_jacquard.Limits.{max_atom_value_bytes}
use weave_jacquard.Sexpr.Runtime.{Runtime}
use weave_jacquard.Sexpr.Node.{Atom, atom}
use weave_jacquard.Sexpr.Atom.{
  validate_node, atom_value_bytes, check_value, check_finite, node_id_matches,
}

module _ {F : Type 0} ⦃r : Runtime F⦄ where
  check_value-bytes :
      (a : Atom F)
      → check_value a ≡ ok tt
      → (n : ℕ) × (atom_value_bytes a ≡ ok n) × (n ≤ max_atom_value_bytes)
  unfolding check_value
  check_value-bytes a h =
      let (u, e, k) = >>=-eq-ok (check_finite a) _ h in
      let (n, e₂, k₂) = >>=-eq-ok (atom_value_bytes a) _ k in (n, e₂, ground arith)

  pub validate_node-bytes :
      (i : Text) (a : Atom F)
      → validate_node (atom i a) ≡ ok tt
      → (n : ℕ) × (atom_value_bytes a ≡ ok n) × (n ≤ max_atom_value_bytes)
  unfolding validate_node
  validate_node-bytes i a h =
      let (u, e, k) = >>=-eq-ok (require (node_id_matches i) _) _ h in check_value-bytes a k
