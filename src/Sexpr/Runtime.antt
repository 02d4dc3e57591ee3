-- ===== src/Sexpr/Runtime.antt =====
-- What sexpr.py takes from the Python runtime: floats, and the Unicode tables of decimal digits.
-- No float exists in this logic, so the type `F` of floats and its operations are a parameter;
-- each law that a theorem uses is a named hypothesis of that theorem.
use weave_jacquard.Prelude.{ℕ, Bool, Option, ◌||◌, ◌&&◌, ◌==◌, leb}
use weave_jacquard.Prelude.Text.{Text}
use weave_jacquard.Prelude.Int.{ℤ}

pub record Runtime (F : Type 0) : Type 0 where
  -- math.isfinite
  pub is_finite : F → Bool
  -- float(text), for a text of the pattern that `_parse_atom` accepts
  pub float_of_text : Text → F
  -- float(n); `none` stands for OverflowError
  pub float_of_int : ℤ → Option F
  pub repr : F → Text
  -- x == y, and x == n for an integer n
  pub float_eq : F → F → Bool
  pub float_eq_int : F → ℤ → Bool

-- The Unicode table of decimal digits: the value of a digit of any script, which is what `\d`
-- matches and `int` reads.
pub record Digits : Type 0 where
  pub digit_value : ℕ → Option ℕ

-- str.isspace on one character: the White_Space code points and the separators 28 to 31.
unfoldable pub is_space : ℕ → Bool
is_space c =
    (leb 9 c && leb c 13)
    || (leb 28 c && leb c 32)
    || c == 0x85
    || c == 0xa0
    || c == 0x1680
    || (leb 0x2000 c && leb c 0x200a)
    || c == 0x2028
    || c == 0x2029
    || c == 0x202f
    || c == 0x205f
    || c == 0x3000
