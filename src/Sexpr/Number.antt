-- ===== src/Sexpr/Number.antt =====
-- The two regular expressions of `_parse_atom` in sexpr.py, and `int` on what the first matches.
use weave_jacquard.Prelude.{
  ℕ, ◌+◌, ◌*◌, Bool, true, false, leb, ◌&&◌, ◌||◌, ◌==◌, not, if◌then◌else◌, none, some, [], ◌∷◌,
  length,
}
use weave_jacquard.Prelude.Int.{ℤ, pos, negate}
use weave_jacquard.Prelude.Text.{Text}
use weave_jacquard.Error.{Result, ok, err, value_error}
use weave_jacquard.Sexpr.Runtime.{Digits}
use weave_jacquard.Sexpr.Atom.{max_int_digits}

-- [-+]? at the front of a text, skipped.
unfoldable pub after_sign : Text → Text
after_sign [] = []
after_sign (c ∷ s) = if c == b'-' || c == b'+' then s else c ∷ s

unfoldable pub is_negative : Text → Bool
is_negative [] = false
is_negative (c ∷ s) = c == b'-'

abbrev pub is_empty : Text → Bool
is_empty [] = true
is_empty (c ∷ s) = false

module _ ⦃u : Digits⦄ where
  unfoldable pub is_digit : ℕ → Bool
  is_digit c = elim (u.digit_value c) [ some v ↦ true | none ↦ false ]

  -- The longest \d* at the front, and what follows it. What may follow a run of digits in either
  -- expression is no digit, so the longest run is the one that a match takes.
  unfoldable pub digit_run : Text → Text
  unfolding is_digit
  digit_run [] = []
  digit_run (c ∷ s) = if is_digit c then c ∷ digit_run s else []

  unfoldable pub after_digits : Text → Text
  unfolding is_digit
  after_digits [] = []
  after_digits (c ∷ s) = if is_digit c then after_digits s else c ∷ s

  -- \d+ up to the end
  unfoldable pub is_digits : Text → Bool
  unfolding digit_run after_digits
  is_digits s = not (is_empty (digit_run s)) && is_empty (after_digits s)

  -- [-+]?\d+
  unfoldable pub is_integer_text : Text → Bool
  unfolding is_digits after_sign
  is_integer_text s = is_digits (after_sign s)

  -- [eE][-+]?\d+
  unfoldable pub is_exponent : Text → Bool
  unfolding is_digits after_sign
  is_exponent [] = false
  is_exponent (c ∷ s) = (c == b'e' || c == b'E') && is_digits (after_sign s)

  -- What follows the digits before a point: (\.\d*)(exponent)? or, with no point, the exponent;
  -- `leading` is whether there were digits.
  unfoldable pub is_fraction : Bool → Text → Bool
  unfolding digit_run after_digits is_exponent
  is_fraction leading [] = false
  is_fraction leading (c ∷ s) =
      if c == b'.'
      then (leading || not (is_empty (digit_run s)))
        && (is_empty (after_digits s) || is_exponent (after_digits s))
      else leading && is_exponent (c ∷ s)

  -- [-+]?(?:(?:\d+\.\d*|\d*\.\d+)(?:[eE][-+]?\d+)?|\d+[eE][-+]?\d+)
  unfoldable pub is_float_text : Text → Bool
  unfolding is_fraction digit_run after_digits after_sign
  is_float_text s =
      is_fraction (not (is_empty (digit_run (after_sign s)))) (after_digits (after_sign s))

  -- The number that a text of digits stands for, after `acc`.
  unfoldable pub digits_value : ℕ → Text → ℕ
  digits_value acc [] = acc
  digits_value acc (c ∷ s) =
      digits_value (elim (u.digit_value c) [ some v ↦ acc * 10 + v | none ↦ acc ]) s

  -- int(text) on a text of the first expression, with CPython's limit on its digits.
  unfoldable pub int_of_text : Text → Result ℤ
  unfolding digits_value after_sign is_negative
  int_of_text s =
      let n = digits_value 0 (after_sign s) in
      if leb (length (after_sign s)) max_int_digits
      then ok (if is_negative s then negate n else pos n)
      else err value_error
