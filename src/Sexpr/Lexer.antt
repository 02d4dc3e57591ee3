-- ===== src/Sexpr/Lexer.antt =====
-- `_tokenize` of sexpr.py. A token's position is not modelled: the parser does not read it.
pub mod Halts
pub mod Strings
use weave_jacquard.Prelude.{ℕ, zero, suc, Bool, ◌==◌, ◌||◌, if◌then◌else◌, [], ◌∷◌, ◌++◌, length}
use weave_jacquard.Prelude.Text.{Text}
use weave_jacquard.Error.{
  Result, ok, err, validation, out_of_fuel, invalid_string, invalid_token, ◌>>=◌,
}
use weave_jacquard.Sexpr.Runtime.{is_space}
use weave_jacquard.Sexpr.Walk.{Yields, stop, raises, yield}

pub data Token : Type 0 where
  lparen rparen : Token
  quoted : Text → Token
  bare : Text → Token

-- From a `;` up to the end of its line.
unfoldable pub skip_comment : Text → Text
skip_comment [] = []
skip_comment (c ∷ s) = if c == 10 || c == 13 then c ∷ s else skip_comment s

-- mapping.get(escaped, "\\" + escaped)
unfoldable pub unescape : ℕ → Text
unescape c =
    if c == b'n'
    then 10 ∷ []
    else if c == b'r'
    then 13 ∷ []
    else if c == b't'
    then 9 ∷ []
    else if c == b'"'
    then b'"' ∷ []
    else if c == b'\\'
    then b'\\' ∷ []
    else b'\\' ∷ c ∷ []

abbrev prepend : Text → Result (Text × Text) → Result (Text × Text)
prepend t m = m >>= λ (value, rest). ok (t ++ value, rest)

-- A string literal after its opening quote: its value, and what follows the closing quote.
unfoldable pub lex_string : Text → Result (Text × Text)
unfolding unescape
lex_string [] = err (validation invalid_string)
lex_string (c ∷ []) = if c == b'"' then ok ([], []) else err (validation invalid_string)
lex_string (c ∷ d ∷ s) =
    let escaped = prepend (unescape d) (lex_string s) in
    let plain = prepend (c ∷ []) (lex_string (d ∷ s)) in
    if c == b'"' then ok ([], d ∷ s) else if c == b'\\' then escaped else plain

-- A character that ends a bare token.
unfoldable pub is_delimiter : ℕ → Bool
is_delimiter c = is_space c || c == b'(' || c == b')' || c == b';'

unfoldable pub bare_text : Text → Text
unfolding is_delimiter
bare_text [] = []
bare_text (c ∷ s) = if is_delimiter c then [] else c ∷ bare_text s

unfoldable pub after_bare : Text → Text
unfolding is_delimiter
after_bare [] = []
after_bare (c ∷ s) = if is_delimiter c then c ∷ s else after_bare s

unfoldable pub yield_bare : Text → Yields Token → Yields Token
yield_bare [] rest = raises (validation invalid_token)
yield_bare (c ∷ s) rest = yield (bare (c ∷ s)) rest

-- The generator runs as far as its consumer asks: what it yields comes before what it raises.
-- Each round takes at least one character.
unfoldable pub tokenize_loop : ℕ → Text → Yields Token
unfolding skip_comment lex_string bare_text after_bare yield_bare
tokenize_loop fuel [] = stop
tokenize_loop zero (c ∷ s) = raises out_of_fuel
tokenize_loop (suc fuel) (c ∷ s) =
    let next = tokenize_loop fuel s in
    let after_comment = tokenize_loop fuel (skip_comment (c ∷ s)) in
    let string_token : Yields Token = elim (lex_string s) [
      | ok (value, rest) ↦ yield (quoted value) (tokenize_loop fuel rest)
      | err e ↦ raises e
    ] in
    let bare_token = yield_bare (bare_text (c ∷ s)) (tokenize_loop fuel (after_bare (c ∷ s))) in
    if is_space c
    then next
    else if c == b';'
    then after_comment
    else if c == b'('
    then yield lparen next
    else if c == b')'
    then yield rparen next
    else if c == b'"'
    then string_token
    else bare_token

unfoldable pub tokenize : Text → Yields Token
unfolding tokenize_loop
tokenize s = tokenize_loop (length s) s
