-- ===== src/Batch/Input.antt =====
-- What the operations of batch_edit.py read from a raw operation: fields, references and aliases.
use weave_jacquard.Prelude.{
  leb, ◌==◌, ◌&&◌, ◌||◌, Bool, true, false, if◌then◌else◌, Option, none, some, List, [], ◌∷◌, all,
  length,
}
use weave_jacquard.Prelude.Int.{ℤ}
use weave_jacquard.Prelude.Text.{Text, codes, text_eq, mem_text}
use weave_jacquard.Error.{
  Code, Result, ok, err, validation, ◌>>=◌, ◌>>◌, require, invalid_position,
  invalid_batch_operation, unknown_batch_field, unknown_batch_alias, invalid_batch_alias,
  duplicate_batch_alias, invalid_node_reference, invalid_atom_kind, missing_value,
}
use weave_jacquard.Sexpr.Node.{Kind, Value, str, int}
use weave_jacquard.Sexpr.Atom.{is_id_char}

-- A field's value as JSON gives it; lists and objects are `Value.other`.
pub data Json (F : Type 0) : Type 0 where
  null : Json F
  scalar : Value F → Json F

abbrev pub Fields : Type 0 → Type 0
Fields F = List (Text × Json F)

-- An operation as the caller sends it.
pub data Raw (F : Type 0) : Type 0 where
  object : Fields F → Raw F
  not_object : Raw F

-- Alias and id, the latest first.
abbrev pub Aliases : Type 0
Aliases = List (Text × Text)

-- raw[name], if it is there
unfoldable pub field_of : {F : Type 0} → Text → Fields F → Option (Json F)
field_of name [] = none
field_of name ((m, v) ∷ fields) = if text_eq m name then some v else field_of name fields

-- raw.get(name)
unfoldable pub get_field : {F : Type 0} → Text → Fields F → Json F
unfolding field_of
get_field name fields = elim (field_of name fields) [ some v ↦ v | none ↦ null ]

-- A non-empty string.
unfoldable pub string_of : {F : Type 0} → Json F → Option Text
string_of (scalar (str (c ∷ s))) = some (c ∷ s)
string_of _ = none

abbrev pub some_or {ℓ} : {A : Type ℓ} → Code → Option A → Result A
some_or code none = err (validation code)
some_or code (some a) = ok a

unfoldable pub required_string : {F : Type 0} → Fields F → Text → Result Text
unfolding string_of get_field
required_string fields name = some_or invalid_batch_operation (string_of (get_field name fields))

unfoldable pub reject_unknown : {F : Type 0} → Fields F → List Text → Result (Unit {0})
reject_unknown [] allowed = ok tt
reject_unknown ((name, v) ∷ fields) allowed = do
  require (mem_text name allowed) unknown_batch_field
  reject_unknown fields allowed

unfoldable pub target_of : Text → Aliases → Option Text
target_of alias [] = none
target_of alias ((a, i) ∷ aliases) = if text_eq a alias then some i else target_of alias aliases

-- An `@` reference is an alias, any other text is the id.
unfoldable pub dereference : Text → Aliases → Result Text
unfolding target_of
dereference [] aliases = ok []
dereference (c ∷ s) aliases =
    if c == b'@' then some_or unknown_batch_alias (target_of s aliases) else ok (c ∷ s)

unfoldable pub resolve_reference : {F : Type 0} → Json F → Aliases → Result Text
unfolding string_of dereference
resolve_reference value aliases = do
  s ← some_or invalid_node_reference (string_of value)
  dereference s aliases

-- _ALIAS_PATTERN.fullmatch
unfoldable pub alias_matches : Text → Bool
unfolding is_id_char
alias_matches [] = false
alias_matches (c ∷ s) =
    ((leb b'A' c && leb c b'Z') || (leb b'a' c && leb c b'z'))
    && (leb (length s) 63 && all is_id_char s)

unfoldable pub register_alias : {F : Type 0} → Json F → Text → Aliases → Result Aliases
unfolding alias_matches target_of
register_alias null i aliases = ok aliases
register_alias (scalar (str s)) i aliases = do
  require (alias_matches s) invalid_batch_alias
  require (elim (target_of s aliases) [ some j ↦ false | none ↦ true ]) duplicate_batch_alias
  ok ((s, i) ∷ aliases)
register_alias (scalar v) i aliases = err (validation invalid_batch_alias)

unfoldable pub position_of : {F : Type 0} → Json F → Result (Option ℤ)
position_of null = ok none
position_of (scalar (int n)) = ok (some n)
position_of (scalar v) = err (validation invalid_position)

-- The position is the last that an insertion looks at: all that comes before it is the same for
-- every position.
abbrev pub at_position {ℓ} : {F : Type 0} {A : Type ℓ} → Json F → (Option ℤ → Result A) → Result A
at_position value insert = elim (position_of value) [
  | ok p ↦ insert p
  | err e ↦ insert none >> err e
]

unfoldable pub kind_named : Text → Result Kind
kind_named s =
    if text_eq s (codes "symbol")
    then ok Kind.symbol
    else if text_eq s (codes "string")
    then ok Kind.string
    else if text_eq s (codes "integer")
    then ok Kind.integer
    else if text_eq s (codes "float")
    then ok Kind.float
    else if text_eq s (codes "boolean")
    then ok Kind.boolean
    else err (validation invalid_atom_kind)

-- raw["value"]; a null is a value of no kind
unfoldable pub required_value : {F : Type 0} → Fields F → Result (Value F)
unfolding field_of
required_value fields = elim (field_of (codes "value") fields) [
  | none ↦ err (validation missing_value)
  | some null ↦ ok Value.other
  | some (scalar v) ↦ ok v
]
