-- ===== src/Sexpr/Parser/Halts.antt =====
-- The parser reads any source to a tree or to an error of the code: the fuel of the model is
-- always enough.
use weave_jacquard.Prelude.{
  ℕ, zero, suc, ◌+◌, ◌*◌, ◌<◌, ◌≢◌, true, false, Option, some, none, List, [], ◌∷◌, arith, length,
  leb, subst,
}
use weave_jacquard.Prelude.Text.{Text, codes, text_eq}
use weave_jacquard.Error.{
  Result, ok, err, ◌>>=◌, ◌>>◌, require, out_of_fuel, source_too_large, tree_too_deep,
  tree_too_large,
}
use weave_jacquard.Error.Halts.{Halts, Any, >>=-Halts, require-Halts, ≢-Halts, if-Halts}
use weave_jacquard.Limits.{max_source_bytes, max_tree_depth, max_tree_nodes}
use weave_jacquard.Sexpr.Runtime.{Runtime, Digits}
use weave_jacquard.Sexpr.Node.{Node, Nodes, atom, list, cons, node_id, Kind, Value, bool, int, str}
use weave_jacquard.Sexpr.Atom.{utf8_bytes, make_atom}
use weave_jacquard.Sexpr.Atom.Halts.{
  utf8_bytes_halts, atom_value_bytes_halts, validate_node_halts, make_atom-Halts,
}
use weave_jacquard.Sexpr.Validate.{Entry, Progress, start, count_bytes, visit, validate_tree}
use weave_jacquard.Sexpr.Validate.Spec.{visit_all, preorder, validate_tree-eq-visit_all}
use weave_jacquard.Sexpr.Walk.{Yields, stop, raises, yield}
use weave_jacquard.Sexpr.Number.{int_of_text, is_integer_text, is_float_text}
use weave_jacquard.Sexpr.Lexer.{Token, lparen, rparen, quoted, bare, tokenize}
use weave_jacquard.Sexpr.Lexer.Halts.{Ends, tokenize-Ends}
use weave_jacquard.Sexpr.Parser.{
  Counters, first_counters, account, set_id, wrapped_node, parse_atom, parsed_atom, unwrap,
  close_list, parse_one, parse_items, finish, parse_source,
}

module _ {F : Type 0} ⦃r : Runtime F⦄ where
  count_bytes_halts : (n : Node F) (p : Progress) → count_bytes n p ≢ err out_of_fuel
  unfolding count_bytes
  count_bytes_halts (list i cs) p h = cc
  count_bytes_halts (atom i a) p h = ground (arith, atom_value_bytes_halts a)

  visit_halts : (e : Entry F) (p : Progress) → visit e p ≢ err out_of_fuel
  unfolding visit
  visit_halts (n, d) p h = ground (
    arith,
    validate_node_halts n,
    count_bytes_halts n (record p { node_count = p.node_count + 1; seen = node_id n ∷ p.seen }),
  )

  visit_all-Halts : (es : List (Entry F)) (p : Progress) → Halts Any (visit_all es p)
  unfolding visit_all
  visit_all-Halts [] p = tt
  visit_all-Halts (e ∷ es) p =
      >>=-Halts Any Any (visit e p) _ (≢-Halts (visit e p) (visit_halts e p))
        λ q _. visit_all-Halts es q

  pub validate_tree-Halts : (root : Node F) → Halts Any (validate_tree root)
  validate_tree-Halts root = rw (validate_tree-eq-visit_all root) (
      >>=-Halts Any Any (visit_all (preorder 0 root) start) _
        (visit_all-Halts (preorder 0 root) start) λ _ _. tt)

  checked-Halts : (root : Node F) → Halts Any (validate_tree root >> ok root)
  checked-Halts root = >>=-Halts Any Any (validate_tree root) _ (validate_tree-Halts root) λ _ _. tt

  account-Halts : (node : Node F) (depth : ℕ) (c : Counters) → Halts Any (account node depth c)
  unfolding account
  account-Halts node depth c =
      >>=-Halts Any Any (require (leb depth max_tree_depth) tree_too_deep) _ (require-Halts _ _)
        λ _ _.
          >>=-Halts Any Any (require (leb (c.parsed_nodes + 1) max_tree_nodes) tree_too_large) _
            (require-Halts _ _) λ _ _. tt

raised_out_of_fuel : {A : Type 0} (m : Result A) → Halts Any m → m ≢ err out_of_fuel
raised_out_of_fuel m h e = subst (Halts Any) e h

int_of_text_halts : ⦃u : Digits⦄ (s : Text) → int_of_text s ≢ err out_of_fuel
unfolding int_of_text
int_of_text_halts s h = ground arith

module _ (F : Type 0) ⦃r : Runtime F⦄ ⦃u : Digits⦄ (fresh : ℕ → Text) where
  unwrap-Halts : (node : Node F) (children : Nodes F) → Halts Any (unwrap fresh node children)
  unfolding unwrap
  unwrap-Halts node children = chosen (wrapped_node children)
    where
      chosen :
          (w : Option (Text × Node F))
          → Halts Any (elim w [
            | none ↦ ok node
            | some (i, wrapped) ↦ validate_tree (set_id i wrapped) >> ok (set_id i wrapped)
          ])
      chosen none = tt
      chosen (some (i, wrapped)) = checked-Halts (set_id i wrapped)

  close_list-Halts :
      (children : Nodes F) (depth : ℕ) (c : Counters)
      → Halts Any (close_list fresh children depth c)
  unfolding close_list
  close_list-Halts children depth c =
      >>=-Halts Any Any _ _ (account-Halts _ depth _) λ (node, c') _.
        >>=-Halts Any Any (unwrap fresh node children) _ (unwrap-Halts node children) λ _ _. tt

  parse_atom-Halts : (k : ℕ) (s : Text) → Halts Any (parse_atom {F = F} fresh k s)
  unfolding parse_atom
  parse_atom-Halts k s =
      if-Halts Any (text_eq s (codes "true")) _ _
        (make_atom-Halts (fresh k) Kind.boolean (bool true))
        (if-Halts Any (text_eq s (codes "false")) _ _
          (make_atom-Halts (fresh k) Kind.boolean (bool false))
          (if-Halts Any (is_integer_text s) _ _
            (>>=-Halts Any Any (int_of_text s) _ (≢-Halts (int_of_text s) (int_of_text_halts s))
              λ n _. make_atom-Halts (fresh k) Kind.integer (int n))
            (if-Halts Any (is_float_text s) _ _
              (make_atom-Halts (fresh k) Kind.float (Value.float (r.float_of_text s)))
              (make_atom-Halts (fresh k) Kind.symbol (str s)))))

  parsed_atom-Halts :
      (m : Result (Node F)) (depth : ℕ) (c : Counters)
      → Halts Any m
      → Halts Any (parsed_atom fresh m depth c)
  unfolding parsed_atom
  parsed_atom-Halts m depth c h = >>=-Halts Any Any m _ h λ node _. account-Halts node depth _

  -- What a call leaves: fewer tokens than it was given.
  abbrev Leaves : ℕ → Node F × Yields Token × Counters → Type 0
  Leaves n (node, ts, c) = (k : ℕ) × (k < n) × Ends k ts

  abbrev LeavesAll : ℕ → Nodes F × Yields Token × Counters → Type 0
  LeavesAll n (nodes, ts, c) = (k : ℕ) × (k < n) × Ends k ts

  finish-Halts :
      (k : ℕ) (root : Node F) (ts : Yields Token) → Ends k ts → Halts Any (finish fresh root ts)
  unfolding finish
  finish-Halts k root stop e = checked-Halts root
  finish-Halts k root (raises x) e = e
  finish-Halts k root (yield t ts) e = tt

  -- The item that the loop reads, and the items after it.
  items :
      (fuel n depth : ℕ) (ts : Yields Token) (c : Counters)
      → Halts (Leaves (suc n)) (parse_one fresh fuel depth ts c)
      → ((k : ℕ) (us : Yields Token) (d : Counters)
          → k < suc n
          → Ends k us
          → Halts (LeavesAll k) (parse_items fresh fuel depth us d))
      → Halts (LeavesAll (suc n)) (
          parse_one fresh fuel depth ts c >>= λ (m, us, d).
          parse_items fresh fuel depth us d >>= λ (ms, vs, d'). ok (cons m ms, vs, d'))
  items fuel n depth ts c one more =
      >>=-Halts (LeavesAll (suc n)) (Leaves (suc n)) (parse_one fresh fuel depth ts c) _ one
        λ (m, us, d) (k, lt, e).
          >>=-Halts (LeavesAll (suc n)) (LeavesAll k) (parse_items fresh fuel depth us d) _
            (more k us d lt e) λ _ (j, lt', e'). (j, omega (arith, lt, lt'), e')

  mutual
    unfolding parse_one

    parse_one-Halts :
        (fuel n depth : ℕ) (ts : Yields Token) (c : Counters)
        → 2 * n < suc fuel
        → 0 < fuel
        → Ends n ts
        → Halts (Leaves n) (parse_one fresh fuel depth ts c)
    parse_one-Halts zero n depth ts c h pos e = absurd (omega (arith, pos))
    parse_one-Halts (suc fuel) n depth stop c h pos e = tt
    parse_one-Halts (suc fuel) n depth (raises x) c h pos e = e
    parse_one-Halts (suc fuel) zero depth (yield t ts) c h pos e = absurd e
    parse_one-Halts (suc fuel) (suc n) depth (yield lparen ts) c h pos e =
        >>=-Halts (Leaves (suc n)) Any (require (leb depth max_tree_depth) tree_too_deep) _
          (require-Halts _ _)
          λ _ _.
            >>=-Halts (Leaves (suc n)) (LeavesAll n) (parse_items fresh fuel (depth + 1) ts c) _
              (parse_items-Halts fuel n (depth + 1) ts c (omega (arith, h)) e)
              λ (children, ts', c') (k, lt, e').
                >>=-Halts (Leaves (suc n)) Any (close_list fresh children depth c') _
                  (close_list-Halts children depth c') λ _ _. (k, omega (arith, lt), e')
    parse_one-Halts (suc fuel) (suc n) depth (yield rparen ts) c h pos e = tt
    parse_one-Halts (suc fuel) (suc n) depth (yield (quoted s) ts) c h pos e =
        >>=-Halts (Leaves (suc n)) Any
          (parsed_atom fresh (make_atom (fresh c.next_id) Kind.string (str s)) depth c) _
          (parsed_atom-Halts _ depth c (make_atom-Halts (fresh c.next_id) Kind.string (str s)))
          λ _ _. (n, omega arith, e)
    parse_one-Halts (suc fuel) (suc n) depth (yield (bare s) ts) c h pos e =
        >>=-Halts (Leaves (suc n)) Any (parsed_atom fresh (parse_atom fresh c.next_id s) depth c) _
          (parsed_atom-Halts _ depth c (parse_atom-Halts c.next_id s)) λ _ _. (n, omega arith, e)

    parse_items-Halts :
        (fuel n depth : ℕ) (ts : Yields Token) (c : Counters)
        → 2 * n < fuel
        → Ends n ts
        → Halts (LeavesAll n) (parse_items fresh fuel depth ts c)
    parse_items-Halts zero n depth ts c h e = absurd (omega (arith, h))
    parse_items-Halts (suc fuel) n depth stop c h e = tt
    parse_items-Halts (suc fuel) n depth (raises x) c h e = e
    parse_items-Halts (suc fuel) zero depth (yield t ts) c h e = absurd e
    parse_items-Halts (suc fuel) (suc n) depth (yield rparen ts) c h e = (n, omega arith, e)
    parse_items-Halts (suc fuel) (suc n) depth (yield lparen ts) c h e =
        items fuel n depth (yield lparen ts) c
          (parse_one-Halts fuel (suc n) depth (yield lparen ts) c (omega (arith, h))
            (omega (arith, h)) e)
          λ k us d lt e'. parse_items-Halts fuel k depth us d (omega (arith, h, lt)) e'
    parse_items-Halts (suc fuel) (suc n) depth (yield (quoted s) ts) c h e =
        items fuel n depth (yield (quoted s) ts) c
          (parse_one-Halts fuel (suc n) depth (yield (quoted s) ts) c (omega (arith, h))
            (omega (arith, h)) e)
          λ k us d lt e'. parse_items-Halts fuel k depth us d (omega (arith, h, lt)) e'
    parse_items-Halts (suc fuel) (suc n) depth (yield (bare s) ts) c h e =
        items fuel n depth (yield (bare s) ts) c
          (parse_one-Halts fuel (suc n) depth (yield (bare s) ts) c (omega (arith, h))
            (omega (arith, h)) e)
          λ k us d lt e'. parse_items-Halts fuel k depth us d (omega (arith, h, lt)) e'

  -- `parse_source` ends on every source, with a tree or with an error of the code: neither the
  -- tokenizer nor the parser nor the validation runs out of the fuel that the model gives it.
  pub parse_source_halts : (source : Text) → parse_source {F = F} fresh source ≢ err out_of_fuel
  unfolding parse_source
  parse_source_halts source h = raised_out_of_fuel (parse_source fresh source) parsed h
    where
      parsed : Halts Any (parse_source {F = F} fresh source)
      parsed =
          >>=-Halts Any Any (utf8_bytes source) _
            (≢-Halts (utf8_bytes source) (utf8_bytes_halts source))
            λ n _.
              >>=-Halts Any Any (require (leb n max_source_bytes) source_too_large) _
                (require-Halts _ _)
                λ _ _.
                  >>=-Halts Any (Leaves (length source))
                    (parse_one fresh (2 * length source + 2) 0 (tokenize source) first_counters) _
                    (parse_one-Halts (2 * length source + 2) (length source) 0 (tokenize source)
                      first_counters (omega arith) (omega arith) (tokenize-Ends source))
                    λ (root, ts, c) (k, lt, e). finish-Halts k root ts e
