-- ===== src/Commands/Rename/File.antt =====
-- The edits of a file, line by line.
use codequery.Prelude.{
  ℕ, zero, suc, ◌-◌, ◌<◌, List, [], ◌∷◌, Text, Option, none, some, ◌≡◌, ◌⊎◌, refl, ap, ◌∙◌, arith,
  All, All-mono, length, filter, filter-reverse, get_elem?, Bool, false, nat_beq, if◌then◌else◌,
  Bool-cases, inl, inr,
}
use codequery.Prelude.Sort.{sort_by, IsDescending, sort_by_descending}
use codequery.Prelude.Order.{le_by}
use codequery.Commands.Rename.{TextEdit, edit_line, update, apply_edit, apply_all, last_first}
use codequery.Commands.Rename.Apply.{splice, Fits, edit_all, edit_all-eq-splice}

-- The edits of the line at index `k`.
abbrev pub on_line : ℕ → TextEdit → Bool
on_line k e = nat_beq (e.line - 1) k

abbrev pub map_option : (Text → Text) → Option Text → Option Text
map_option f none = none
map_option f (some l) = some (f l)

get_elem?-update :
    (ls : List Text) (i k : ℕ) (f : Text → Text)
    → get_elem? (update ls i f) k ≡ map_option (if nat_beq i k then f else λ l. l) (get_elem? ls k)
get_elem?-update [] i k f = refl
get_elem?-update (l ∷ ls) zero zero f = refl
get_elem?-update (l ∷ ls) zero (suc k) f = ground arith
get_elem?-update (l ∷ ls) (suc i) zero f = ground arith
get_elem?-update (l ∷ ls) (suc i) (suc k) f = ground (arith, get_elem?-update ls i k f)

get_elem?-apply_edit :
    (e : TextEdit) (ls : List Text) (k : ℕ) {line : Text}
    → get_elem? ls k ≡ some line
    → get_elem? (apply_edit e ls) k ≡ some (if on_line k e then edit_line e line else line)
unfolding apply_edit
get_elem?-apply_edit e ls k h = ground (arith, get_elem?-update ls (e.line - 1) k (edit_line e))

-- Each line is changed by its own edits, in their order.
get_elem?-apply_all :
    (es : List TextEdit) (ls : List Text) (k : ℕ) (line : Text)
    → get_elem? ls k ≡ some line
    → get_elem? (apply_all es ls) k ≡ some (edit_all (filter (on_line k) es) line)
unfolding apply_all
get_elem?-apply_all [] ls k line h = h
get_elem?-apply_all (e ∷ es) ls k line h = elim (Bool-cases (on_line k e)) [
  | inl on ↦ rw on (
      get_elem?-apply_all es (apply_edit e ls) k (edit_line e line)
        (get_elem?-apply_edit e ls k h ∙ rw on))
  | inr off ↦
      rw off
        (get_elem?-apply_all es (apply_edit e ls) k line (get_elem?-apply_edit e ls k h ∙ rw off))
]

length-update : (ls : List Text) (i : ℕ) (f : Text → Text) → length (update ls i f) ≡ length ls
length-update [] i f = refl
length-update (l ∷ ls) zero f = refl
length-update (l ∷ ls) (suc i) f = ap suc (length-update ls i f)

length-apply_all : (es : List TextEdit) (ls : List Text) → length (apply_all es ls) ≡ length ls
unfolding apply_all apply_edit
length-apply_all [] ls = refl
length-apply_all (e ∷ es) ls =
    length-apply_all es (apply_edit e ls) ∙ length-update ls (e.line - 1) (edit_line e)

-- `e` stands before `f`.
abbrev pub Before : TextEdit → TextEdit → Type 0
Before e f = (e.line < f.line) ⊎ ((e.line ≡ f.line) × (e.column < f.column))

-- The edits stand in the order of the file, each position once, as `run` passes them on.
abbrev pub IsAscending : List TextEdit → Type 0
IsAscending [] = Unit
IsAscending (e ∷ es) = All (Before e) es × IsAscending es

IsDescending-of-IsAscending :
    (es : List TextEdit) → IsAscending es → IsDescending (le_by last_first) es
IsDescending-of-IsAscending [] h = tt
IsDescending-of-IsAscending (e ∷ es) h = (
  All-mono (Before e) (λ f. le_by last_first e f ≡ false) es (λ f b. ground arith) h.0,
  IsDescending-of-IsAscending es h.1,
)

-- The edits of a file, in the order of the file, are sorted from the last to the first and applied.
-- The number of lines does not change, and each line whose edits fit it, without overlap, becomes
-- the line with all of them replaced at once.
pub apply_all-splice :
    (es : List TextEdit) (ls : List Text) (k : ℕ) (line : Text)
    → IsAscending es
    → get_elem? ls k ≡ some line
    → Fits 0 (length line) (filter (on_line k) es)
    → (length (apply_all (sort_by (le_by last_first) es) ls) ≡ length ls)
      × (get_elem? (apply_all (sort_by (le_by last_first) es) ls) k
          ≡ some (splice 0 line (filter (on_line k) es)))
apply_all-splice es ls k line asc h fits = (
  length-apply_all _ ls,
  get_elem?-apply_all (sort_by (le_by last_first) es) ls k line h
      ∙ ap (λ fs. some (edit_all (filter (on_line k) fs) line))
          (sort_by_descending _ es (IsDescending-of-IsAscending es asc))
      ∙ ap (λ fs. some (edit_all fs line)) (filter-reverse (on_line k) es)
      ∙ ap some (edit_all-eq-splice line (filter (on_line k) es) fits),
)
