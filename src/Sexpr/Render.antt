-- ===== src/Sexpr/Render.antt =====
-- `render_node` of sexpr.py and the functions below it: the canonical source, and the view that
-- bears ids. Every function but `render_node` is called on a validated tree only.
use weave_jacquard.Prelude.{
  ℕ, zero, suc, ◌+◌, ◌-◌, Bool, true, false, ltb, leb, ◌&&◌, ◌==◌, not, if◌then◌else◌, Option, none,
  some, List, [], ◌∷◌, ◌++◌, length, all, any, map, and_then,
}
use weave_jacquard.Prelude.Text.{Text}
use weave_jacquard.Error.{Result, ok, ◌>>=◌, ◌>>◌, require, rendered_source_too_large}
use weave_jacquard.Limits.{max_rendered_source_bytes}
use weave_jacquard.Sexpr.Runtime.{Runtime}
use weave_jacquard.Sexpr.Node.{Node, Nodes, atom, list, nil, cons}
use weave_jacquard.Sexpr.Atom.{utf8_bytes, render_atom, replace}
use weave_jacquard.Sexpr.Validate.{validate_tree}

-- " " * n
unfoldable pub spaces : ℕ → Text
spaces zero = []
spaces (suc n) = b' ' ∷ spaces n

-- `text if len(text) <= remaining else None`
unfoldable pub if_fits : ℕ → Text → Option Text
if_fits remaining text = if leb (length text) remaining then some text else none

-- What goes before a child on a line: a blank, but for the first.
abbrev pub separator : Bool → Text
separator first = if first then [] else b' ' ∷ []

-- " ".join(texts), and "\n".join(texts)
unfoldable pub join : ℕ → List Text → Text
join c [] = []
join c (t ∷ []) = t
join c (t ∷ u ∷ ts) = t ++ c ∷ join c (u ∷ ts)

unfoldable pub has_newline : Text → Bool
has_newline s = any (λ c. c == 10) s

-- text.replace("\n", "\n" + pad)
unfoldable pub reindent : ℕ → Text → Text
unfolding replace spaces
reindent pad text = replace 10 (10 ∷ spaces pad) text

-- f"(@{id} {text})"
unfoldable pub wrap_id : Text → Text → Text
wrap_id i text = b'(' ∷ b'@' ∷ (i ++ b' ' ∷ (text ++ b')' ∷ []))

-- The layout of the child texts of `_render_annotated`.
unfoldable pub annotated_core : ℕ → List Text → Text
unfolding join has_newline reindent
annotated_core indent [] = b'(' ∷ b')' ∷ []
annotated_core indent (head ∷ rest) =
    let compact = b'(' ∷ (join b' ' (head ∷ rest) ++ b')' ∷ []) in
    let aligned = map (λ text. spaces (indent + 2) ++ reindent (indent + 2) text) rest in
    let broken : Text = elim rest [
      | [] ↦ b'(' ∷ (head ++ b')' ∷ [])
      | _ ∷ _ ↦ b'(' ∷ (head ++ 10 ∷ (join 10 aligned ++ b')' ∷ []))
    ] in
    if all (λ text. not (has_newline text)) (head ∷ rest) && leb (indent + length compact) 88
    then compact
    else broken

module _ {F : Type 0} ⦃r : Runtime F⦄ where
  -- `_flat_text_if_fits`. The call with a negative `remaining`, which returns None, is the test
  -- that `used` is at most `remaining`.
  unfoldable mutual
    unfolding if_fits

    pub flat_text_if_fits : Node F → ℕ → Option Text
    flat_text_if_fits (atom i a) remaining = if_fits remaining (render_atom a)
    flat_text_if_fits (list i cs) remaining =
        and_then (flat_children cs true remaining 1) λ text. some (b'(' ∷ text)

    -- The loop over the children and what follows it; `used` counts the characters so far.
    pub flat_children : Nodes F → Bool → ℕ → ℕ → Option Text
    flat_children nil first remaining used =
        if ltb remaining (used + 1) then none else some (b')' ∷ [])
    flat_children (cons n ns) first remaining used =
        let used' = used + length (separator first) in
        let rest = and_then (flat_text_if_fits n (remaining - used')) λ text.
          and_then (flat_children ns false remaining (used' + length text))
            λ more. some (separator first ++ (text ++ more)) in
        if leb used' remaining then rest else none

  -- `_render_canonical`: the parts, joined.
  unfoldable mutual
    unfolding spaces

    pub render_canonical : Node F → ℕ → Text
    render_canonical (atom i a) indent = render_atom a
    render_canonical (list i nil) indent = b'(' ∷ b')' ∷ []
    render_canonical (list i (cons n ns)) indent =
        elim (flat_text_if_fits (list i (cons n ns)) (88 - indent)) [
          | some flat ↦ flat
          | none ↦ b'(' ∷ (render_canonical n (indent + 2) ++ (render_lines ns (indent + 2)))
        ]

    -- The children after the first, each on a line of its own, and the closing parenthesis.
    pub render_lines : Nodes F → ℕ → Text
    render_lines nil indent = b')' ∷ []
    render_lines (cons n ns) indent =
        10 ∷ (spaces indent ++ (render_canonical n indent ++ render_lines ns indent))

  unfoldable mutual
    unfolding wrap_id annotated_core reindent

    pub render_annotated : Node F → ℕ → Bool → Text
    render_annotated (atom i a) indent annotate_atoms =
        if annotate_atoms then wrap_id i (render_atom a) else render_atom a
    render_annotated (list i cs) indent annotate_atoms = wrap_id i (
        reindent (indent + 2)
          (annotated_core indent (render_annotated_all cs (indent + 2) annotate_atoms)))

    pub render_annotated_all : Nodes F → ℕ → Bool → List Text
    render_annotated_all nil indent annotate_atoms = []
    render_annotated_all (cons n ns) indent annotate_atoms =
        render_annotated n indent annotate_atoms ∷ render_annotated_all ns indent annotate_atoms

  unfoldable pub render_node : Node F → Bool → Bool → ℕ → Result Text
  unfolding render_canonical render_annotated
  render_node node annotated annotate_atoms indent = do
    validate_tree node
    let rendered =
        if annotated
        then render_annotated node indent annotate_atoms
        else render_canonical node indent
    n ← utf8_bytes rendered
    require (leb n max_rendered_source_bytes) rendered_source_too_large
    ok rendered
