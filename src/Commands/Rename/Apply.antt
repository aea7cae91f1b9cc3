-- ===== src/Commands/Rename/Apply.antt =====
-- The edits of one line, applied from the last to the first, are one simultaneous replacement.
use codequery.Prelude.{
  ℕ, ◌+◌, ◌-◌, ◌≤◌, List, [], ◌∷◌, ◌++◌, append_assoc, Text, ◌≡◌, refl, sym, ap, ◌∙◌, arith, take,
  drop, length, length-append, take-append, take-take, length-take, take-split,
  drop-append_of_length, take-append-drop, reverse, leb, true,
}
use codequery.Commands.Rename.{TextEdit, edit_line}

-- The new line read from left to right: from position `i` on, the text up to each edit is kept and
-- the edited range is replaced.
abbrev pub splice : ℕ → Text → List TextEdit → Text
splice i line [] = drop i line
splice i line (e ∷ es) =
    take (e.column - i) (drop i line) ++ e.new_text ++ splice e.end_column line es

-- The edits stand in order, without overlap, between `i` and the end of the line.
abbrev pub Fits : ℕ → ℕ → List TextEdit → Type 0
Fits i len [] = i ≤ len
Fits i len (e ∷ es) = (i ≤ e.column) × (e.column ≤ e.end_column) × Fits e.end_column len es

-- A fold of `edit_line`.
abbrev pub edit_all : List TextEdit → Text → Text
edit_all [] line = line
edit_all (e ∷ es) line = edit_all es (edit_line e line)

edit_all-append :
    (es fs : List TextEdit) (line : Text)
    → edit_all (es ++ fs) line ≡ edit_all fs (edit_all es line)
edit_all-append [] fs line = refl
edit_all-append (e ∷ es) fs line = edit_all-append es fs (edit_line e line)

Fits-le : (i len : ℕ) (es : List TextEdit) → Fits i len es → i ≤ len
Fits-le i len [] h = h
Fits-le i len (e ∷ es) h = omega (arith, Fits-le e.end_column len es h.2)

-- One edit, where everything behind its end has been edited already.
edit_line-prefix :
    (e : TextEdit) (line rest : Text)
    → e.column ≤ e.end_column
    → e.end_column ≤ length line
    → edit_line e (take e.end_column line ++ rest) ≡ take e.column line ++ e.new_text ++ rest
unfolding edit_line
edit_line-prefix e line rest h k =
    let before : Text = take e.end_column line in
    let len : length before ≡ e.end_column = length-take e.end_column line k in
    let fits : leb (e.column + (e.end_column - e.column)) (length (before ++ rest)) ≡ true =
      ground (arith, length-append before rest, len) in
    rw (
      fits,
      take-append e.column before rest (omega (arith, len)),
      take-take e.column e.end_column line h,
      drop-append_of_length e.end_column before rest len,
    )

-- From any point before the first edit on, the edited line is the spliced one.
edit_all-prefix :
    (i : ℕ) (line : Text) (es : List TextEdit)
    → Fits i (length line) es
    → edit_all (reverse es) line ≡ take i line ++ splice i line es
edit_all-prefix i line [] h = sym (take-append-drop i line)
edit_all-prefix i line (e ∷ es) h =
    edit_all-append (reverse es) (e ∷ []) line
    ∙ ap (edit_line e) (edit_all-prefix e.end_column line es h.2)
    ∙ edit_line-prefix e line (splice e.end_column line es) h.1 (Fits-le e.end_column _ es h.2)
    ∙ ap (λ t. t ++ e.new_text ++ splice e.end_column line es) (take-split i e.column line h.0)
    ∙ simp append_assoc

-- Edits that stand in order and do not overlap can be applied one by one from the last to the
-- first: no edit moves the range of another, and the line becomes the simultaneous replacement.
pub edit_all-eq-splice :
    (line : Text) (es : List TextEdit)
    → Fits 0 (length line) es
    → edit_all (reverse es) line ≡ splice 0 line es
edit_all-eq-splice line es h = edit_all-prefix 0 line es h
