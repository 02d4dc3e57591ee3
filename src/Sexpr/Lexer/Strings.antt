-- ===== src/Sexpr/Lexer/Strings.antt =====
-- A string literal that the renderer writes is read back as the string.
use weave_jacquard.Prelude.{
  ℕ, suc, ◌≡◌, refl, true, false, ◌==◌, [], ◌∷◌, ◌++◌, append_assoc, Bool-cases, ==→eq, inl, inr,
}
use weave_jacquard.Prelude.Text.{Text}
use weave_jacquard.Error.{ok}
use weave_jacquard.Sexpr.Runtime.{Runtime, is_space}
use weave_jacquard.Sexpr.Node.{string}
use weave_jacquard.Sexpr.Atom.{replace, escape, render_atom}
use weave_jacquard.Sexpr.Walk.{yield}
use weave_jacquard.Sexpr.Lexer.{quoted, prepend, lex_string, unescape, tokenize_loop}

replace-append :
    (c : ℕ) (new s t : Text) → replace c new (s ++ t) ≡ replace c new s ++ replace c new t
unfolding replace
replace-append c new [] t = refl
replace-append c new (d ∷ s) t = simp (replace-append c new s t, append_assoc)

escape-append : (s t : Text) → escape (s ++ t) ≡ escape s ++ escape t
unfolding escape
escape-append s t = simp replace-append

-- A character that has no escape.
plain_escape :
    (c : ℕ)
    → (c == b'\\') ≡ false
    → (c == b'"') ≡ false
    → (c == 10) ≡ false
    → (c == 13) ≡ false
    → (c == 9) ≡ false
    → escape (c ∷ []) ≡ c ∷ []
unfolding escape replace
plain_escape c h₁ h₂ h₃ h₄ h₅ = rw (h₁, h₂, h₃, h₄, h₅) refl

lex_plain :
    (c d : ℕ) (t : Text)
    → (c == b'\\') ≡ false
    → (c == b'"') ≡ false
    → lex_string (c ∷ d ∷ t) ≡ prepend (c ∷ []) (lex_string (d ∷ t))
unfolding lex_string
lex_plain c d t h₁ h₂ = rw (h₁, h₂) refl

-- What a character is written as is read as the character.
abbrev ReadsBack : ℕ → Type 0
ReadsBack c =
    (d : ℕ) (t : Text)
    → lex_string (escape (c ∷ []) ++ (d ∷ t)) ≡ prepend (c ∷ []) (lex_string (d ∷ t))

special : ReadsBack b'\\' × ReadsBack b'"' × ReadsBack 10 × ReadsBack 13 × ReadsBack 9
unfolding escape replace lex_string unescape
special = ((λ d t. refl), (λ d t. refl), (λ d t. refl), (λ d t. refl), (λ d t. refl))

when_eq : (c k : ℕ) → (c == k) ≡ true → ReadsBack k → ReadsBack c
when_eq c k h back = rw (==→eq c k h) back

lex_char : (c : ℕ) → ReadsBack c
lex_char c = elim (Bool-cases (c == b'\\')) [
  | inl h ↦ when_eq c b'\\' h special.0
  | inr h₁ ↦ elim (Bool-cases (c == b'"')) [
    | inl h ↦ when_eq c b'"' h special.1
    | inr h₂ ↦ elim (Bool-cases (c == 10)) [
      | inl h ↦ when_eq c 10 h special.2
      | inr h₃ ↦ elim (Bool-cases (c == 13)) [
        | inl h ↦ when_eq c 13 h special.3
        | inr h₄ ↦ elim (Bool-cases (c == 9)) [
          | inl h ↦ when_eq c 9 h special.4
          | inr h₅ ↦ λ d t. rw (plain_escape c h₁ h₂ h₃ h₄ h₅) (lex_plain c d t h₁ h₂)
        ]
      ]
    ]
  ]
]

nonempty : (s : Text) (c : ℕ) (rest : Text) → (d : ℕ) × (t : Text) × (s ++ (c ∷ rest) ≡ d ∷ t)
nonempty [] c rest = (c, rest, refl)
nonempty (d ∷ s) c rest = (d, s ++ (c ∷ rest), refl)

closing : (rest : Text) → lex_string (b'"' ∷ rest) ≡ ok ([], rest)
unfolding lex_string
closing [] = refl
closing (d ∷ t) = refl

lex_string-escape : (s rest : Text) → lex_string (escape s ++ (b'"' ∷ rest)) ≡ ok (s, rest)
lex_string-escape [] rest = unfold escape replace in closing rest
lex_string-escape (c ∷ s) rest =
    let (d, t, e) = nonempty (escape s) b'"' rest in
    rw (escape-append (c ∷ []) s, append_assoc, e, lex_char c d t, ← e, lex_string-escape s rest)
      refl

module _ (F : Type 0) ⦃r : Runtime F⦄ where
  -- A string atom that the renderer writes is one token with the string as its value, and what
  -- follows the literal is read as if it stood alone.
  pub tokenize_loop-render_atom :
      (fuel : ℕ) (s rest : Text)
      → tokenize_loop (suc fuel) (render_atom {F = F} (string s) ++ rest)
        ≡ yield (quoted s) (tokenize_loop fuel rest)
  unfolding tokenize_loop render_atom is_space
  tokenize_loop-render_atom fuel s rest = rw (append_assoc, lex_string-escape s rest) refl
