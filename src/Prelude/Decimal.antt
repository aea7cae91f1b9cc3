-- ===== src/Prelude/Decimal.antt =====
-- Formatting and parsing of numbers, as the Rust standard library does them.
use codequery.Prelude.{
  ℕ, zero, suc, ◌+◌, ◌-◌, ◌*◌, ◌/◌, ◌%◌, ◌^◌, ◌<◌, [], ◌∷◌, ◌++◌, append_assoc, append-nil, Text,
  codes, Bool, true, false, ltb, leb, nat_beq, ◌&&◌, if◌then◌else◌, ◌≡◌, refl, sym, ap, ◌∙◌, arith,
  All, All-append, Bool-cases, inl, inr, is_empty,
}

-- The decimal digits of a number, at most `fuel` of them. A `usize` has at most 20.
abbrev pub digits : (fuel n : ℕ) → Text
digits zero n = []
digits (suc fuel) n =
    let front = digits fuel (n / 10) in
    if ltb n 10 then (b'0' + n) ∷ [] else front ++ (b'0' + n % 10) ∷ []

unfoldable pub decimal : ℕ → Text
decimal n = digits 20 n

-- What `str::parse::<usize>` gives: the number, or the text of the error.
pub data ParsedInt : Type 0 where
  number : ℕ → ParsedInt
  invalid : Text → ParsedInt

abbrev pub is_digit : ℕ → Bool
is_digit c = leb b'0' c && leb c b'9'

-- The digits from left to right, behind a part whose value is `acc`.
abbrev pub read_digits : ℕ → Text → ParsedInt
read_digits acc [] = number acc
read_digits acc (c ∷ s) =
    let more = read_digits (acc * 10 + (c - b'0')) s in
    if is_digit c
    then (if ltb (acc * 10 + (c - b'0')) (2 ^ 64)
        then more
        else invalid (codes "number too large to fit in target type"))
    else invalid (codes "invalid digit found in string")

unfoldable pub parse_usize : Text → ParsedInt
parse_usize [] = invalid (codes "cannot parse integer from empty string")
parse_usize (c ∷ s) =
    let signed =
      if is_empty s then invalid (codes "invalid digit found in string") else read_digits 0 s in
    if nat_beq c b'+' then signed else read_digits 0 (c ∷ s)

-- 10 ^ f
abbrev power : ℕ → ℕ
power zero = 1
power (suc f) = 10 * power f

one_digit :
    (acc d : ℕ) (rest : Text)
    → d < 10
    → acc * 10 + d < 2 ^ 64
    → read_digits acc ((b'0' + d) ∷ rest) ≡ read_digits (acc * 10 + d) rest
one_digit acc d rest h k =
    let digit : is_digit (b'0' + d) ≡ true = ground arith in
    let value : b'0' + d - b'0' ≡ d = omega arith in
    let small : ltb (acc * 10 + d) (2 ^ 64) ≡ true = ground arith in rw (digit, value, small)

read_digits-digits :
    (f n : ℕ) (rest : Text)
    → n < power f
    → n < 2 ^ 64
    → read_digits 0 (digits f n ++ rest) ≡ read_digits n rest
read_digits-digits zero n rest h k = let none_left : n ≡ 0 = omega arith in rw none_left
read_digits-digits (suc f) n rest h k = elim (Bool-cases (ltb n 10)) [
  | inl one ↦
      rw one (
        one_digit 0 n rest (ground arith) (omega arith)
        ∙ ap (λ m. read_digits m rest) (omega arith))
  | inr more ↦
      let split : n / 10 * 10 + n % 10 ≡ n = omega arith in
      rw (more, append_assoc)
        (read_digits-digits f (n / 10) ((b'0' + n % 10) ∷ rest) (omega arith) (omega arith)
          ∙ one_digit (n / 10) (n % 10) rest (omega arith) (omega arith)
          ∙ ap (λ m. read_digits m rest) split)
]

-- Nothing but digits, and at least one.
pub digits-IsDigit : (f n : ℕ) → All (λ c. is_digit c ≡ true) (digits f n)
digits-IsDigit zero n = tt
digits-IsDigit (suc f) n = elim (Bool-cases (ltb n 10)) [
  | inl one ↦ rw one (ground arith, tt)
  | inr more ↦ rw more (
      All-append (λ c. is_digit c ≡ true) (digits f (n / 10)) ((b'0' + n % 10) ∷ [])
        (digits-IsDigit f (n / 10)) (ground arith, tt))
]

-- A text whose first character, if it has one, is a digit followed by a text is not signed.
parse_usize-digits :
    (c : ℕ) (s : Text) → is_digit c ≡ true → parse_usize (c ∷ s) ≡ read_digits 0 (c ∷ s)
unfolding parse_usize
parse_usize-digits c s h = let unsigned : nat_beq c b'+' ≡ false = ground arith in rw unsigned refl

pub digits-cons :
    (f n : ℕ) → (c : ℕ) × (s : Text) × (digits (suc f) n ≡ c ∷ s) × (is_digit c ≡ true)
digits-cons zero n = elim (Bool-cases (ltb n 10)) [
  | inl one ↦ (b'0' + n, [], rw one, ground arith)
  | inr more ↦ (b'0' + n % 10, [], rw more, ground arith)
]
digits-cons (suc f) n = elim (Bool-cases (ltb n 10)) [
  | inl one ↦ (b'0' + n, [], rw one, ground arith)
  | inr more ↦
      let (c, s, e, d) = digits-cons f (n / 10) in
      (c, s ++ (b'0' + n % 10) ∷ [], rw more (ap (λ t. t ++ (b'0' + n % 10) ∷ []) e), d)
]

pub digits-snoc :
    (f n : ℕ) → (s : Text) × (c : ℕ) × (digits (suc f) n ≡ s ++ c ∷ []) × (is_digit c ≡ true)
digits-snoc f n = elim (Bool-cases (ltb n 10)) [
  | inl one ↦ ([], b'0' + n, rw one, ground arith)
  | inr more ↦ (digits f (n / 10), b'0' + n % 10, rw more, ground arith)
]

parse_usize-digits_of :
    (f n : ℕ) → n < power (suc f) → n < 2 ^ 64 → parse_usize (digits (suc f) n) ≡ number n
parse_usize-digits_of f n h k =
    let (c, s, e, d) = digits-cons f n in
    ap parse_usize e
    ∙ parse_usize-digits c s d
    ∙ ap (read_digits 0) (sym e)
    ∙ ap (read_digits 0) (sym (append-nil (digits (suc f) n)))
    ∙ read_digits-digits (suc f) n [] h k

-- A number below 2^64 is read back.
pub parse_usize-decimal : (n : ℕ) → n < 2 ^ 64 → parse_usize (decimal n) ≡ number n
unfolding decimal
parse_usize-decimal n h = parse_usize-digits_of 19 n (omega arith) h

pub decimal-cons : (n : ℕ) → (c : ℕ) × (s : Text) × (decimal n ≡ c ∷ s) × (is_digit c ≡ true)
unfolding decimal
decimal-cons n = digits-cons 19 n

pub decimal-snoc : (n : ℕ) → (s : Text) × (c : ℕ) × (decimal n ≡ s ++ c ∷ []) × (is_digit c ≡ true)
unfolding decimal
decimal-snoc n = digits-snoc 19 n

pub decimal-IsDigit : (n : ℕ) → All (λ c. is_digit c ≡ true) (decimal n)
unfolding decimal
decimal-IsDigit n = digits-IsDigit 20 n
