-- ===== src/Commands/Name.antt =====
-- `extract_name_at_column`, which callchain.rs, dead.rs and rename.rs each define alike.
use codequery.Prelude.{
  ℕ, zero, suc, ◌+◌, ◌-◌, ◌≤◌, [], ◌∷◌, Option, none, some, Text, Bool, ◌&&◌, ◌||◌, leb, ltb,
  nat_beq, if◌then◌else◌, take, drop, length, ◌≡◌, refl, arith, Bool-cases, inl, inr,
}

-- `u8::is_ascii_alphanumeric`, or an underscore
abbrev pub is_name_byte : ℕ → Bool
is_name_byte c =
    leb b'0' c && leb c b'9'
    || leb b'A' c && leb c b'Z'
    || leb b'a' c && leb c b'z'
    || nat_beq c b'_'

-- The loop that moves `end`, over the bytes from `end` on.
name_end : Text → ℕ → ℕ
name_end [] end = end
name_end (c ∷ rest) end =
    let further = name_end rest (end + 1) in if is_name_byte c then further else end

-- `line[column..end]` is not empty where `end > column`.
unfoldable pub extract_name_at_column : Text → ℕ → Option Text
unfolding name_end
extract_name_at_column line column =
    if leb (length line) column
    then none
    else (let end = name_end (drop column line) column in
        if ltb column end then some (take (end - column) (drop column line)) else none)

-- The longest beginning of a text that is a name.
abbrev pub name_run : Text → Text
name_run [] = []
name_run (c ∷ rest) = if is_name_byte c then c ∷ name_run rest else []

abbrev pub some_unless_empty : Text → Option Text
some_unless_empty [] = none
some_unless_empty (c ∷ cs) = some (c ∷ cs)

name_end-eq : (rest : Text) (e : ℕ) → name_end rest e ≡ e + length (name_run rest)
unfolding name_end
name_end-eq [] e = omega arith
name_end-eq (c ∷ rest) e = ground (arith, name_end-eq rest (e + 1))

take-name_run : (rest : Text) → take (length (name_run rest)) rest ≡ name_run rest
take-name_run [] = refl
take-name_run (c ∷ rest) = ground (arith, take-name_run rest)

drop-past : (n : ℕ) (xs : Text) → length xs ≤ n → drop n xs ≡ []
drop-past zero [] h = refl
drop-past zero (x ∷ xs) h = absurd (omega arith)
drop-past (suc n) [] h = refl
drop-past (suc n) (x ∷ xs) h = drop-past n xs (omega arith)

-- The slice from `column` to the end of the run.
slice-run :
    (run rest : Text) (column : ℕ)
    → take (length run) rest ≡ run
    → (if ltb column (column + length run)
        then some (take (column + length run - column) rest)
        else none)
      ≡ some_unless_empty run
slice-run [] rest column h = ground arith
slice-run (c ∷ run) rest column h =
    let e : column + suc (length run) - column ≡ suc (length run) = omega arith in
    rw (e, h) (ground arith)

-- The name at a column is the longest run of letters, digits and underscores that starts there;
-- there is none where that run is empty or the column is past the line.
pub extract_name_at_column-lem :
    (line : Text) (column : ℕ)
    → extract_name_at_column line column ≡ some_unless_empty (name_run (drop column line))
unfolding extract_name_at_column
extract_name_at_column-lem line column = elim (Bool-cases (leb (length line) column)) [
  | inl past ↦ rw (past, drop-past column line (ground arith))
  | inr within ↦
      rw (within, name_end-eq)
        (slice-run (name_run (drop column line)) (drop column line) column
          (take-name_run (drop column line)))
]
