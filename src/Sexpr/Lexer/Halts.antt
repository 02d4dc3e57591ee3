-- ===== src/Sexpr/Lexer/Halts.antt =====
-- The tokenizer reads any source to its end or to an error of the code, and yields at most one
-- token a character.
use weave_jacquard.Prelude.{
  ℕ, zero, suc, ◌≤◌, ◌<◌, ◌≡◌, refl, Bool, true, false, ◌==◌, if◌then◌else◌, [], ◌∷◌, arith, length,
}
use weave_jacquard.Prelude.Text.{Text}
use weave_jacquard.Error.{Result, ok, err}
use weave_jacquard.Error.Halts.{IsRaised, Halts, if-Halts}
use weave_jacquard.Sexpr.Runtime.{is_space}
use weave_jacquard.Sexpr.Walk.{Yields, stop, raises, yield}
use weave_jacquard.Sexpr.Lexer.{
  Token, quoted, skip_comment, unescape, lex_string, prepend, is_delimiter, bare_text, after_bare,
  yield_bare, tokenize_loop, tokenize,
}

-- The stream ends, or raises an error of the code, after at most `n` items.
abbrev pub Ends : ℕ → Yields Token → Type 0
Ends n stop = Unit
Ends n (raises e) = IsRaised e
Ends zero (yield a rest) = ⊥
Ends (suc n) (yield a rest) = Ends n rest

Ends-suc : (n : ℕ) (ts : Yields Token) → Ends n ts → Ends (suc n) ts
Ends-suc n stop h = tt
Ends-suc n (raises e) h = h
Ends-suc zero (yield a rest) h = absurd h
Ends-suc (suc n) (yield a rest) h = Ends-suc n rest h

skip_comment_le : (s : Text) → length (skip_comment s) ≤ length s
unfolding skip_comment
skip_comment_le [] = omega arith
skip_comment_le (c ∷ s) = ground (arith, skip_comment_le s)

after_bare_le : (s : Text) → length (after_bare s) ≤ length s
unfolding after_bare
after_bare_le [] = omega arith
after_bare_le (c ∷ s) = ground (arith, after_bare_le s)

comment_le : (c : ℕ) (s : Text) → (c == b';') ≡ true → length (skip_comment (c ∷ s)) ≤ length s
unfolding skip_comment
comment_le c s h = ground (arith, skip_comment_le s)

bare_le :
    (c : ℕ) (s : Text)
    → is_space c ≡ false
    → (c == b';') ≡ false
    → (c == b'(') ≡ false
    → (c == b')') ≡ false
    → length (after_bare (c ∷ s)) ≤ length s
unfolding after_bare is_delimiter
bare_le c s h₁ h₂ h₃ h₄ = ground (arith, after_bare_le s)

-- A literal that is closed leaves less than there was.
prepend-Halts :
    (n k : ℕ) (t : Text) (m : Result (Text × Text))
    → n ≤ k
    → Halts (λ p. length p.1 < n) m
    → Halts (λ p. length p.1 < k) (prepend t m)
prepend-Halts n k t (ok (v, rest)) le h = omega (arith, h)
prepend-Halts n k t (err e) le h = h

lex_string-Halts : (s : Text) → Halts (λ p. length p.1 < length s) (lex_string s)
unfolding lex_string
lex_string-Halts [] = tt
lex_string-Halts (c ∷ []) = if-Halts _ (c == b'"') _ _ (omega arith) tt
lex_string-Halts (c ∷ d ∷ s) = if-Halts _ (c == b'"') _ _ (omega arith) (
    if-Halts _ (c == b'\\') _ _
      (prepend-Halts (length s) _ (unescape d) (lex_string s) (omega arith) (lex_string-Halts s))
      (prepend-Halts (length (d ∷ s)) _ (c ∷ []) (lex_string (d ∷ s)) (omega arith)
        (lex_string-Halts (d ∷ s))))

-- One round of the tokenizer, given how the rounds after it end.
yield_bare-Ends :
    (n : ℕ) (t : Text) (rest : Yields Token) → Ends n rest → Ends (suc n) (yield_bare t rest)
unfolding yield_bare
yield_bare-Ends n [] rest h = tt
yield_bare-Ends n (c ∷ t) rest h = h

string-Ends :
    (fuel n : ℕ) (m : Result (Text × Text))
    → ((s : Text) → length s < n → Ends n (tokenize_loop fuel s))
    → Halts (λ p. length p.1 < n) m
    → Ends (suc n) (elim m [
      | ok (value, rest) ↦ yield (quoted value) (tokenize_loop fuel rest)
      | err e ↦ raises e
    ])
string-Ends fuel n (ok (value, rest)) ends h = ends rest h
string-Ends fuel n (err e) ends h = h

if-Ends :
    (n : ℕ) (b : Bool) (ts us : Yields Token)
    → (b ≡ true → Ends n ts)
    → (b ≡ false → Ends n us)
    → Ends n (if b then ts else us)
if-Ends n true ts us h g = h refl
if-Ends n false ts us h g = g refl

Ends-le : (n k : ℕ) (ts : Yields Token) → n ≤ k → Ends n ts → Ends k ts
Ends-le n k stop le h = tt
Ends-le n k (raises e) le h = h
Ends-le zero k (yield t ts) le h = absurd h
Ends-le (suc n) zero (yield t ts) le h = absurd (omega (arith, le))
Ends-le (suc n) (suc k) (yield t ts) le h = Ends-le n k ts (omega (arith, le)) h

pub tokenize_loop-Ends :
    (fuel : ℕ) (s : Text) → length s ≤ fuel → Ends (length s) (tokenize_loop fuel s)
unfolding tokenize_loop
tokenize_loop-Ends fuel [] h = tt
tokenize_loop-Ends zero (c ∷ s) h = absurd (omega (arith, h))
tokenize_loop-Ends (suc fuel) (c ∷ s) h =
    let rest : (t : Text) → length t ≤ length s → Ends (length s) (tokenize_loop fuel t) = λ t le.
      Ends-le (length t) (length s) _ le (tokenize_loop-Ends fuel t (omega (arith, h, le))) in
    if-Ends _ (is_space c) _ _
      (λ _. Ends-suc (length s) (tokenize_loop fuel s) (rest s (omega arith)))
      λ space.
        if-Ends _ (c == b';') _ _
          (λ comment.
            Ends-suc (length s) (tokenize_loop fuel (skip_comment (c ∷ s)))
              (rest (skip_comment (c ∷ s)) (comment_le c s comment)))
          λ comment.
            if-Ends _ (c == b'(') _ _ (λ _. rest s (omega arith))
              λ open_.
                if-Ends _ (c == b')') _ _ (λ _. rest s (omega arith))
                  λ close.
                    if-Ends _ (c == b'"') _ _
                      (λ _.
                        string-Ends fuel (length s) (lex_string s)
                          (λ t lt. rest t (omega (arith, lt))) (lex_string-Halts s))
                      λ _.
                        yield_bare-Ends (length s) (bare_text (c ∷ s)) _
                          (rest (after_bare (c ∷ s)) (bare_le c s space comment open_ close))

pub tokenize-Ends : (source : Text) → Ends (length source) (tokenize source)
unfolding tokenize
tokenize-Ends source = tokenize_loop-Ends (length source) source (omega arith)
