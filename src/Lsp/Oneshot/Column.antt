-- ===== src/Lsp/Oneshot/Column.antt =====
-- Which column `find_identifier_column` gives.
use codequery.Prelude.{
  ℕ, zero, suc, ◌+◌, ◌-◌, ◌≤◌, Option, none, some, Text, true, false, ◌&&◌, leb, length, get_elem?,
  drop, ◌≡◌, inl, inr, refl, arith, Bool-cases, Option-cases, sym, ◌∙◌,
}
use codequery.Prelude.Utf8.{is_char_boundary, IsBoundary, is_char_boundary_iff, get_elem?-past}
use codequery.Commands.Rename.{lines}
use codequery.Index.Grep.{Find}
use codequery.Index.Grep.Words.{IsFind, Occurs, Occurs-drop, Occurs-undrop}
use codequery.Lsp.Oneshot.{
  is_ascii_alphanumeric, alphanumeric_at, is_whole_word, column_found, find_identifier_column,
}

-- An ASCII letter or digit.
pub data IsAlphanumeric (b : ℕ) : Type 0 where
  digit : b'0' ≤ b → b ≤ b'9' → IsAlphanumeric b
  lower : b'a' ≤ b → b ≤ b'z' → IsAlphanumeric b
  upper : b'A' ≤ b → b ≤ b'Z' → IsAlphanumeric b

-- No letter or digit stands before the name at this position, or behind it.
pub record IsApart (line_text : Text) (p : ℕ) (name : Text) : Type 0 where
  pub before : (q b : ℕ) → p ≡ suc q → get_elem? line_text q ≡ some b → ¬ (IsAlphanumeric b)
  pub behind : (b : ℕ) → get_elem? line_text (p + length name) ≡ some b → ¬ (IsAlphanumeric b)

-- The first position, from the column on, at which the name stands.
pub record IsFirst (line_text : Text) (column : ℕ) (name : Text) (p : ℕ) : Type 0 where
  pub from_column : column ≤ p
  pub occurs : Occurs name line_text p
  pub first : (q : ℕ) → column ≤ q → Occurs name line_text q → p ≤ q

-- Which result is to be given for a column.
pub data IsColumn (source : Text) (line column : ℕ) (name : Text) : Option ℕ → Type 0 where
  no_line :
      get_elem? (lines source) (line - 1) ≡ none → IsColumn source line column name (some column)
  panics :
      (line_text : Text)
      → get_elem? (lines source) (line - 1) ≡ some line_text
      → ¬ (IsBoundary line_text column)
      → IsColumn source line column name none
  no_name :
      (line_text : Text)
      → get_elem? (lines source) (line - 1) ≡ some line_text
      → IsBoundary line_text column
      → ((q : ℕ) → column ≤ q → ¬ (Occurs name line_text q))
      → IsColumn source line column name (some column)
  at_name :
      (line_text : Text) (p : ℕ)
      → get_elem? (lines source) (line - 1) ≡ some line_text
      → IsBoundary line_text column
      → IsFirst line_text column name p
      → IsApart line_text p name
      → IsColumn source line column name (some p)
  part_of_word :
      (line_text : Text) (p : ℕ)
      → get_elem? (lines source) (line - 1) ≡ some line_text
      → IsBoundary line_text column
      → IsFirst line_text column name p
      → ¬ (IsApart line_text p name)
      → IsColumn source line column name (some column)

is_ascii_alphanumeric-IsAlphanumeric : (b : ℕ) → is_ascii_alphanumeric b ≡ true → IsAlphanumeric b
is_ascii_alphanumeric-IsAlphanumeric b h = elim (Bool-cases (leb b'0' b && leb b b'9')) [
  | inl d ↦ digit (ground arith) (ground arith)
  | inr n ↦ elim (Bool-cases (leb b'a' b && leb b b'z')) [
    | inl l ↦ lower (ground arith) (ground arith)
    | inr m ↦ upper (ground arith) (ground arith)
  ]
]

IsAlphanumeric-is_ascii_alphanumeric : (b : ℕ) → IsAlphanumeric b → is_ascii_alphanumeric b ≡ true
IsAlphanumeric-is_ascii_alphanumeric b (digit h k) = ground arith
IsAlphanumeric-is_ascii_alphanumeric b (lower h k) = ground arith
IsAlphanumeric-is_ascii_alphanumeric b (upper h k) = ground arith

not_alphanumeric :
    (o : Option ℕ) → alphanumeric_at o ≡ false → (b : ℕ) → o ≡ some b → ¬ (IsAlphanumeric b)
not_alphanumeric o h b e a =
    let is : alphanumeric_at o ≡ true = rw e (IsAlphanumeric-is_ascii_alphanumeric b a) in
    cc (sym h ∙ is)

not_alphanumeric_at :
    (o : Option ℕ) → ((b : ℕ) → o ≡ some b → ¬ (IsAlphanumeric b)) → alphanumeric_at o ≡ false
not_alphanumeric_at none h = refl
not_alphanumeric_at (some b) h = elim (Bool-cases (is_ascii_alphanumeric b)) [
  | inl e ↦ absurd (h b refl (is_ascii_alphanumeric-IsAlphanumeric b e))
  | inr e ↦ e
]

is_whole_word-IsApart :
    (line_text : Text) (p : ℕ) (name : Text)
    → is_whole_word line_text p name ≡ true
    → IsApart line_text p name
unfolding is_whole_word
is_whole_word-IsApart line_text p name h = record {
  before = λ q b e g.
      let here : p - 1 ≡ q = omega arith in
      let apart : alphanumeric_at (get_elem? line_text (p - 1)) ≡ false = ground arith in
      not_alphanumeric (get_elem? line_text q) (rw (here) at apart) b g;
  behind = λ b g. elim (Bool-cases (leb (length line_text) (p + length name))) [
    | inl past ↦
        let gone = get_elem?-past line_text (p + length name) (ground arith) in
        absurd (cc (sym gone ∙ g))
    | inr inside ↦
        let apart : alphanumeric_at (get_elem? line_text (p + length name)) ≡ false =
          ground arith in
        not_alphanumeric (get_elem? line_text (p + length name)) apart b g
  ];
}

IsApart-is_whole_word :
    (line_text : Text) (p : ℕ) (name : Text)
    → IsApart line_text p name
    → is_whole_word line_text p name ≡ true
unfolding is_whole_word
IsApart-is_whole_word line_text zero name h =
    let end = not_alphanumeric_at (get_elem? line_text (0 + length name)) h.behind in ground arith
IsApart-is_whole_word line_text (suc q) name h =
    let e : suc q - 1 ≡ q = omega arith in
    let end = not_alphanumeric_at (get_elem? line_text (suc q + length name)) h.behind in
    let start = not_alphanumeric_at (get_elem? line_text q) (λ b g. h.before q b refl g) in
    rw e (ground arith)

module _ (find : Find) (law : IsFind find) where
  found-IsFirst :
      (line_text : Text) (column : ℕ) (name : Text) (offset : ℕ)
      → find name (drop column line_text) ≡ some offset
      → IsFirst line_text column name (column + offset)
  found-IsFirst line_text column name offset e = record {
    from_column = omega arith;
    occurs =
        Occurs-undrop name line_text column offset
          (law.found name (drop column line_text) offset e);
    first = λ q h o.
        let split : column + (q - column) ≡ q = omega arith in
        let there = Occurs-drop name line_text column (q - column) (rw split o) in
        omega (arith, law.first name (drop column line_text) offset (q - column) e there);
  }

  missing-none :
      (line_text : Text) (column : ℕ) (name : Text)
      → find name (drop column line_text) ≡ none
      → (q : ℕ) → column ≤ q
      → ¬ (Occurs name line_text q)
  missing-none line_text column name e q h o =
      let split : column + (q - column) ≡ q = omega arith in
      law.missing name (drop column line_text) (q - column) e
        (Occurs-drop name line_text column (q - column) (rw split o))

  module _ (source : Text) (line column : ℕ) (name : Text) where
    in_line :
        (line_text : Text)
        → get_elem? (lines source) (line - 1) ≡ some line_text
        → IsBoundary line_text column
        → (o : Option ℕ) → find name (drop column line_text) ≡ o
        → IsColumn source line column name (some (column_found find line_text column name o))
    in_line line_text h k none e = no_name line_text h k (missing-none line_text column name e)
    in_line line_text h k (some offset) e =
        let first = found-IsFirst line_text column name offset e in
        elim (Bool-cases (is_whole_word line_text (column + offset) name)) [
          | inl whole ↦ rw whole (
              at_name line_text (column + offset) h k first
                (is_whole_word-IsApart line_text (column + offset) name whole))
          | inr part ↦ rw part (
              part_of_word line_text (column + offset) h k first
                (λ a. cc (sym part ∙ IsApart-is_whole_word line_text (column + offset) name a)))
        ]

    -- For every source and place: without such a line the column is given back. In a line, the first
    -- place of the name from the column on is given if no ASCII letter or digit stands before it or
    -- behind it, and otherwise the column, as where the name does not follow; the slice of the line
    -- panics exactly when the column is no boundary of a character in it, the end included. The search
    -- of the standard library is assumed to give the first occurrence.
    pub find_identifier_column-IsColumn :
        IsColumn source line column name (find_identifier_column find source line column name)
    unfolding find_identifier_column
    find_identifier_column-IsColumn = elim (Option-cases (get_elem? (lines source) (line - 1))) [
      | inl e ↦ rw e (no_line e)
      | inr (line_text, e) ↦ elim (Bool-cases (is_char_boundary line_text column)) [
        | inl at ↦
            rw (e, at)
              (in_line line_text e ((is_char_boundary_iff line_text column).0 at)
                (find name (drop column line_text)) refl)
        | inr inside ↦
            rw (e, inside)
              (panics line_text e
                (λ b. cc (sym inside ∙ (is_char_boundary_iff line_text column).1 b)))
      ]
    ]
