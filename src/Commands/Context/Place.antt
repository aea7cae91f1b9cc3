-- ===== src/Commands/Context/Place.antt =====
-- A place as `context` prints it is read back by `parse_location`.
use native.Mathlib.Numerals.{unary_clauses}
use codequery.Prelude.{
  ℕ, ◌+◌, ◌^◌, ◌<◌, [], ◌∷◌, ◌++◌, none, some, Text, true, false, nat_beq, ◌≡◌, refl, arith, length,
  take-length_append, drop, All,
}
use codequery.Prelude.Decimal.{decimal, parse_usize-decimal, is_digit, digits-IsDigit}
use codequery.Commands.Context.{rfind, parse_location}

rfind-digits : (s : Text) → All (λ c. is_digit c ≡ true) s → rfind b':' s ≡ none
unfolding rfind
rfind-digits [] h = refl
rfind-digits (c ∷ s) h =
    let other : nat_beq c b':' ≡ false = ground (arith, h.0) in rw (rfind-digits s h.1, other)

rfind-append :
    (file s : Text) → rfind b':' s ≡ none → rfind b':' (file ++ b':' ∷ s) ≡ some (length file)
unfolding rfind
rfind-append [] s h = rw h
rfind-append (c ∷ file) s h = rw (rfind-append file s h)

decimal-IsDigit : (n : ℕ) → All (λ c. is_digit c ≡ true) (decimal n)
unfolding decimal
decimal-IsDigit n = digits-IsDigit 20 n

drop-colon : (file s : Text) → drop (length file + 1) (file ++ b':' ∷ s) ≡ s
drop-colon [] s = refl
drop-colon (c ∷ file) s = simp unary_clauses (simp unary_clauses at (drop-colon file s))

-- A file's name that is not empty, which may itself have colons, then a colon and a line from 1 on
-- that fits in 64 bits, is read as that file and that line.
pub parse_location-place :
    (c : ℕ) (file : Text) (line : ℕ)
    → 0 < line
    → line < 2 ^ 64
    → parse_location ((c ∷ file) ++ b':' ∷ decimal line) ≡ some (c ∷ file, line)
unfolding parse_location
parse_location-place c file line h k =
    let found =
      rfind-append (c ∷ file) (decimal line) (rfind-digits (decimal line) (decimal-IsDigit line)) in
    let positive : nat_beq line 0 ≡ false = ground arith in
    let past : nat_beq (length (c ∷ file)) 0 ≡ false = ground arith in
    rw
      (
        found,
        drop-colon (c ∷ file) (decimal line),
        take-length_append (c ∷ file) (b':' ∷ decimal line),
        parse_usize-decimal line k,
        positive,
        past,
      )
      refl
