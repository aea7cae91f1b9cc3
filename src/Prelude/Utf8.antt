-- ===== src/Prelude/Utf8.antt =====
-- `str::is_char_boundary`, on the bytes of a text.
use codequery.Prelude.{
  ℕ, zero, suc, ◌≤◌, ◌<◌, [], ◌∷◌, Option, none, some, Text, Bool, true, false, ◌&&◌, ltb, leb,
  nat_beq, length, get_elem?, if◌then◌else◌, ◌≡◌, ◌↔◌, inl, inr, refl, arith, Bool-cases,
}

-- A byte that continues a character.
abbrev pub is_continuation : ℕ → Bool
is_continuation b = leb 128 b && ltb b 192

abbrev boundary_at : Option ℕ → Bool
boundary_at none = false
boundary_at (some b) = if is_continuation b then false else true

unfoldable pub is_char_boundary : Text → ℕ → Bool
is_char_boundary s i =
    if nat_beq i 0 then true else if nat_beq i (length s) then true else boundary_at (get_elem? s i)

pub get_elem?-past : (s : Text) (i : ℕ) → length s ≤ i → get_elem? s i ≡ none
get_elem?-past [] i h = refl
get_elem?-past (c ∷ s) zero h = absurd (omega arith)
get_elem?-past (c ∷ s) (suc i) h = get_elem?-past s i (omega arith)

get_elem?-none : (s : Text) (i : ℕ) → get_elem? s i ≡ none → length s ≤ i
get_elem?-none [] i h = omega arith
get_elem?-none (c ∷ s) zero h = cc h
get_elem?-none (c ∷ s) (suc i) h = omega (arith, get_elem?-none s i h)

-- The beginning, the end, or a byte inside the text that begins a character.
pub data IsBoundary (s : Text) (i : ℕ) : Type 0 where
  beginning : i ≡ 0 → IsBoundary s i
  ending : i ≡ length s → IsBoundary s i
  ascii : (b : ℕ) → get_elem? s i ≡ some b → b < 128 → IsBoundary s i
  leading : (b : ℕ) → get_elem? s i ≡ some b → 192 ≤ b → IsBoundary s i

boundary_at-IsBoundary :
    (s : Text) (i : ℕ) (o : Option ℕ) → get_elem? s i ≡ o → boundary_at o ≡ true → IsBoundary s i
boundary_at-IsBoundary s i none e h = cc h
boundary_at-IsBoundary s i (some b) e h = elim (Bool-cases (ltb b 128)) [
  | inl low ↦ ascii b e (ground arith)
  | inr high ↦ leading b e (ground arith)
]

is_char_boundary-IsBoundary : (s : Text) (i : ℕ) → is_char_boundary s i ≡ true → IsBoundary s i
unfolding is_char_boundary
is_char_boundary-IsBoundary s i h = elim (Bool-cases (nat_beq i 0)) [
  | inl z ↦ beginning (ground arith)
  | inr y ↦ elim (Bool-cases (nat_beq i (length s))) [
    | inl l ↦ ending (ground arith)
    | inr m ↦ boundary_at-IsBoundary s i (get_elem? s i) refl (rw (y, m) at h)
  ]
]

IsBoundary-is_char_boundary : (s : Text) (i : ℕ) → IsBoundary s i → is_char_boundary s i ≡ true
unfolding is_char_boundary
IsBoundary-is_char_boundary s i (beginning e) = ground arith
IsBoundary-is_char_boundary s i (ending e) = ground arith
IsBoundary-is_char_boundary s i (ascii b e h) = rw e (ground arith)
IsBoundary-is_char_boundary s i (leading b e h) = rw e (ground arith)

pub is_char_boundary_iff : (s : Text) (i : ℕ) → (is_char_boundary s i ≡ true) ↔ IsBoundary s i
is_char_boundary_iff s i = (is_char_boundary-IsBoundary s i, IsBoundary-is_char_boundary s i)
