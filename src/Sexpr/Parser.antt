-- ===== src/Sexpr/Parser.antt =====
-- `_parse_atom` and `parse_source` of sexpr.py. A new node id is random in the source: here the
-- ids come from a supply `fresh`, which the parse goes through in order.
pub mod Halts
use weave_jacquard.Prelude.{
  ℕ, zero, suc, ◌+◌, ◌*◌, true, false, leb, ◌&&◌, ◌==◌, if◌then◌else◌, Option, none, some, ◌∷◌,
  length,
}
use weave_jacquard.Prelude.Text.{Text, codes, text_eq}
use weave_jacquard.Error.{
  Result, ok, err, validation, out_of_fuel, ◌>>=◌, ◌>>◌, require, source_too_large, tree_too_deep,
  tree_too_large, unexpected_eof, unexpected_rparen, trailing_input,
}
use weave_jacquard.Limits.{max_source_bytes, max_tree_depth, max_tree_nodes}
use weave_jacquard.Sexpr.Runtime.{Runtime, Digits}
use weave_jacquard.Sexpr.Node.{
  Kind, Value, Node, Nodes, symbol, str, int, bool, atom, list, nil, cons,
}
use weave_jacquard.Sexpr.Atom.{utf8_bytes, make_atom}
use weave_jacquard.Sexpr.Number.{is_integer_text, is_float_text, int_of_text}
use weave_jacquard.Sexpr.Validate.{validate_tree}
use weave_jacquard.Sexpr.Walk.{Yields, stop, raises, yield}
use weave_jacquard.Sexpr.Lexer.{Token, lparen, rparen, quoted, bare, tokenize}

-- The count that the nested functions of `parse_source` share, and the ids taken so far.
pub record Counters : Type 0 where
  pub parsed_nodes : ℕ
  pub next_id : ℕ

abbrev pub first_counters : Counters
first_counters = record { parsed_nodes = 0; next_id = 0 }

-- `account`
unfoldable pub account {ℓ} : {A : Type ℓ} → A → ℕ → Counters → Result (A × Counters)
account node depth c = do
  require (leb depth max_tree_depth) tree_too_deep
  require (leb (c.parsed_nodes + 1) max_tree_nodes) tree_too_large
  ok (node, record c { parsed_nodes = c.parsed_nodes + 1 })

module _ {F : Type 0} where
  -- wrapped["id"] = i
  unfoldable pub set_id : Text → Node F → Node F
  set_id i (atom j a) = atom i a
  set_id i (list j cs) = list i cs

  -- The id of an `@n_…` symbol.
  unfoldable pub marked_id : Node F → Option Text
  marked_id (atom i (symbol (a ∷ b ∷ c ∷ s))) =
      if a == b'@' && b == b'n' && c == b'_' then some (b ∷ c ∷ s) else none
  marked_id _ = none

  -- The children (@n_… node) of a wrapper.
  unfoldable pub wrapped_node : Nodes F → Option (Text × Node F)
  unfolding marked_id
  wrapped_node (cons m (cons n nil)) = elim (marked_id m) [ some i ↦ some (i, n) | none ↦ none ]
  wrapped_node _ = none

module _ {F : Type 0} ⦃r : Runtime F⦄ ⦃u : Digits⦄ (fresh : ℕ → Text) where
  unfoldable pub parse_atom : ℕ → Text → Result (Node F)
  parse_atom k s =
      if text_eq s (codes "true")
      then make_atom (fresh k) Kind.boolean (bool true)
      else if text_eq s (codes "false")
      then make_atom (fresh k) Kind.boolean (bool false)
      else if is_integer_text s
      then (do n ← int_of_text s; make_atom (fresh k) Kind.integer (int n))
      else if is_float_text s
      then make_atom (fresh k) Kind.float (Value.float (r.float_of_text s))
      else make_atom (fresh k) Kind.symbol (str s)

  -- An atom takes one id, and is accounted for.
  unfoldable pub parsed_atom : Result (Node F) → ℕ → Counters → Result (Node F × Counters)
  unfolding account
  parsed_atom m depth c = do node ← m; account node depth (record c { next_id = c.next_id + 1 })

  -- The node that a list gives way to: itself, or the node that it wraps, with its id.
  unfoldable pub unwrap : Node F → Nodes F → Result (Node F)
  unfolding wrapped_node set_id
  unwrap node children = elim (wrapped_node children) [
    | none ↦ ok node
    | some (i, wrapped) ↦ validate_tree (set_id i wrapped) >> ok (set_id i wrapped)
  ]

  -- The end of a list: it takes an id, and is accounted for before it is unwrapped.
  unfoldable pub close_list : Nodes F → ℕ → Counters → Result (Node F × Counters)
  unfolding account unwrap
  close_list children depth c = do
    (node, c') ←
        account (list (fresh c.next_id) children) depth (record c { next_id = c.next_id + 1 })
    n ← unwrap node children
    ok (n, c')

  -- `parse_one`, and its loop over the items of a list. The item that the loop pushes back is the
  -- first that the call after it reads: here the call is made on the stream with that item.
  unfoldable mutual
    unfolding parse_atom parsed_atom close_list

    pub parse_one : ℕ → ℕ → Yields Token → Counters → Result (Node F × Yields Token × Counters)
    parse_one zero depth ts c = err out_of_fuel
    parse_one (suc fuel) depth stop c = err (validation unexpected_eof)
    parse_one (suc fuel) depth (raises e) c = err e
    parse_one (suc fuel) depth (yield lparen ts) c = do
      require (leb depth max_tree_depth) tree_too_deep
      (children, ts', c') ← parse_items fuel (depth + 1) ts c
      (node, c'') ← close_list children depth c'
      ok (node, ts', c'')
    parse_one (suc fuel) depth (yield rparen ts) c = err (validation unexpected_rparen)
    parse_one (suc fuel) depth (yield (quoted s) ts) c = do
      (node, c') ← parsed_atom (make_atom (fresh c.next_id) Kind.string (str s)) depth c
      ok (node, ts, c')
    parse_one (suc fuel) depth (yield (bare s) ts) c = do
      (node, c') ← parsed_atom (parse_atom c.next_id s) depth c
      ok (node, ts, c')

    pub parse_items : ℕ → ℕ → Yields Token → Counters → Result (Nodes F × Yields Token × Counters)
    parse_items zero depth ts c = err out_of_fuel
    parse_items (suc fuel) depth stop c = err (validation unexpected_eof)
    parse_items (suc fuel) depth (raises e) c = err e
    parse_items (suc fuel) depth (yield rparen ts) c = ok (nil, ts, c)
    parse_items (suc fuel) depth (yield token ts) c = do
      (n, ts', c') ← parse_one fuel depth (yield token ts) c
      (ns, ts'', c'') ← parse_items fuel depth ts' c'
      ok (cons n ns, ts'', c'')

  -- The root was read: nothing may follow it.
  unfoldable pub finish : Node F → Yields Token → Result (Node F)
  finish root stop = validate_tree root >> ok root
  finish root (raises e) = err e
  finish root (yield t ts) = err (validation trailing_input)

  -- Each token costs at most two calls, and there are no more tokens than characters.
  unfoldable pub parse_source : Text → Result (Node F)
  parse_source source = do
    n ← utf8_bytes source
    require (leb n max_source_bytes) source_too_large
    (root, ts, c) ← parse_one (2 * length source + 2) 0 (tokenize source) first_counters
    finish root ts
