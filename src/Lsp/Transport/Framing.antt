-- ===== src/Lsp/Transport/Framing.antt =====
-- crates/codequery-lsp/src/transport.rs: the messages of a stream are read back one after another.
use codequery.Prelude.{
  ltb, length, ℕ, ◌<◌, ◌^◌, List, [], ◌∷◌, ◌++◌, append_assoc, append-nil, Option, none, some, Text,
  codes, true, false, nat_beq, ◌≡◌, refl, sym, ap, ◌∙◌, arith, is_empty, strip_prefix, All,
  All-append, All-mono,
}
use codequery.Prelude.Decimal.{
  decimal, decimal-cons, decimal-snoc, decimal-IsDigit, parse_usize, parse_usize-decimal, is_digit,
}
use codequery.Prelude.Trim.{trim_ascii, trim_ascii-padded, trim_ascii-space, is_space}
use codequery.Lsp.Types.{ok}
use codequery.Lsp.Transport.{
  Unicode, parsed_length, header_trimmed, done, next, header_line, finished, read_lines, needs_more,
}

abbrev pub IsAscii : Text → Type 0
IsAscii s = All (λ c. c < 128) s

-- What the standard library documents: an ASCII text is UTF-8, and its white space is ASCII.
pub record IsUnicode (u : Unicode) : Type 0 where
  pub ascii_utf8 : (s : Text) → IsAscii s → u.is_utf8 s ≡ true
  pub ascii_trim : (s : Text) → IsAscii s → u.trim s ≡ trim_ascii s

abbrev NoNewline : Text → Type 0
NoNewline s = All (λ c. nat_beq c 10 ≡ false) s

-- A header that is not the length of the message: it is neither blank nor a `Content-Length`.
pub record IsOther (l : Text) : Type 0 where
  pub ascii : IsAscii l
  pub one_line : NoNewline l
  pub not_blank : is_empty (trim_ascii (l ++ 10 ∷ [])) ≡ false
  pub not_length : strip_prefix (codes "Content-Length:") (trim_ascii (l ++ 10 ∷ [])) ≡ none

-- Header lines, and what follows them.
abbrev pub headed : List Text → Text → Text
headed [] s = s
headed (l ∷ ls) s = l ++ 10 ∷ headed ls s

IsDigit-IsAscii : (s : Text) → All (λ c. is_digit c ≡ true) s → IsAscii s
IsDigit-IsAscii s h = All-mono (λ c. is_digit c ≡ true) (λ c. c < 128) s (λ c d. ground arith) h

IsDigit-NoNewline : (s : Text) → All (λ c. is_digit c ≡ true) s → NoNewline s
IsDigit-NoNewline s h =
    All-mono (λ c. is_digit c ≡ true) (λ c. nat_beq c 10 ≡ false) s (λ c d. ground arith) h

digit_not_space : (c : ℕ) → is_digit c ≡ true → is_space c ≡ false
digit_not_space c h = ground arith

module _ (u : Unicode) where
  -- A line is read up to its end, and the loop goes on behind it.
  read_lines-next :
      (content_length content_length' : Option ℕ) (line l s : Text)
      → NoNewline l
      → header_line u content_length ((line ++ l) ++ 10 ∷ []) ≡ ok (next content_length')
      → read_lines u content_length line (l ++ 10 ∷ s) ≡ read_lines u content_length' [] s
  unfolding read_lines
  read_lines-next content_length content_length' line [] s h e =
      let e' = ap (λ t. header_line u content_length (t ++ 10 ∷ [])) (sym (append-nil line)) ∙ e in
      rw (read_lines, e') refl
  read_lines-next content_length content_length' line (c ∷ l) s h e =
      rw (read_lines, h.0)
        (read_lines-next content_length content_length' (line ++ c ∷ []) l s h.1 (
          ap (λ t. header_line u content_length (t ++ 10 ∷ [])) (append_assoc line (c ∷ []) l) ∙ e))

  needs_more-next :
      (content_length content_length' : Option ℕ) (line l s : Text)
      → NoNewline l
      → header_line u content_length ((line ++ l) ++ 10 ∷ []) ≡ ok (next content_length')
      → needs_more u content_length line (l ++ 10 ∷ s) ≡ needs_more u content_length' [] s
  unfolding needs_more
  needs_more-next content_length content_length' line [] s h e =
      let e' = ap (λ t. header_line u content_length (t ++ 10 ∷ [])) (sym (append-nil line)) ∙ e in
      rw (needs_more, e') refl
  needs_more-next content_length content_length' line (c ∷ l) s h e =
      rw (needs_more, h.0)
        (needs_more-next content_length content_length' (line ++ c ∷ []) l s h.1 (
          ap (λ t. header_line u content_length (t ++ 10 ∷ [])) (append_assoc line (c ∷ []) l) ∙ e))

  read_lines-done :
      (content_length : Option ℕ) (line l s : Text)
      → NoNewline l
      → header_line u content_length ((line ++ l) ++ 10 ∷ []) ≡ ok done
      → read_lines u content_length line (l ++ 10 ∷ s) ≡ finished content_length s
  unfolding read_lines
  read_lines-done content_length line [] s h e =
      let e' = ap (λ t. header_line u content_length (t ++ 10 ∷ [])) (sym (append-nil line)) ∙ e in
      rw (read_lines, e') refl
  read_lines-done content_length line (c ∷ l) s h e =
      rw (read_lines, h.0)
        (read_lines-done content_length (line ++ c ∷ []) l s h.1 (
          ap (λ t. header_line u content_length (t ++ 10 ∷ [])) (append_assoc line (c ∷ []) l) ∙ e))

abbrev pub length_line : ℕ → Text
length_line n = codes "Content-Length: " ++ (decimal n ++ 13 ∷ [])

prefix-IsAscii : IsAscii (codes "Content-Length: ")
prefix-IsAscii = ground arith

prefix-NoNewline : NoNewline (codes "Content-Length: ")
prefix-NoNewline = ground arith

length_line-IsAscii : (n : ℕ) → IsAscii (length_line n ++ 10 ∷ [])
length_line-IsAscii n =
    let number = IsDigit-IsAscii (decimal n) (decimal-IsDigit n) in
    let ended = All-append (λ c. c < 128) (decimal n) (13 ∷ []) number (omega arith, tt) in
    All-append (λ c. c < 128) (length_line n) (10 ∷ [])
      (All-append (λ c. c < 128) (codes "Content-Length: ") (decimal n ++ 13 ∷ []) prefix-IsAscii
        ended)
      (omega arith, tt)

length_line-NoNewline : (n : ℕ) → NoNewline (length_line n)
length_line-NoNewline n =
    let number = IsDigit-NoNewline (decimal n) (decimal-IsDigit n) in
    All-append (λ c. nat_beq c 10 ≡ false) (codes "Content-Length: ") (decimal n ++ 13 ∷ [])
      prefix-NoNewline
      (All-append (λ c. nat_beq c 10 ≡ false) (decimal n) (13 ∷ []) number (refl, tt))

trim_ascii-length_line :
    (n : ℕ) → trim_ascii (length_line n ++ 10 ∷ []) ≡ codes "Content-Length: " ++ decimal n
trim_ascii-length_line n =
    let (t, e, right, he) = decimal-snoc n in
    ap (λ b. trim_ascii (codes "Content-Length: " ++ b))
      (append_assoc (decimal n) (13 ∷ []) (10 ∷ []))
    ∙ trim_ascii-padded [] (codes "Content-Length: " ++ decimal n) (13 ∷ 10 ∷ []) b'C' e
        (codes "ontent-Length: " ++ decimal n) (codes "Content-Length: " ++ t) tt (refl, (refl, tt))
        refl refl (ap (λ b. codes "Content-Length: " ++ b) right) (digit_not_space e he)

module _ (u : Unicode) (law : IsUnicode u) where
  header_line-ascii :
      (content_length : Option ℕ) (l : Text)
      → IsAscii l
      → header_line u content_length l ≡ header_trimmed u content_length (trim_ascii l)
  unfolding header_line
  header_line-ascii content_length l h = rw (law.ascii_utf8 l h, law.ascii_trim l h) refl

  header_line-other :
      (content_length : Option ℕ) (l : Text)
      → IsOther l
      → header_line u content_length (l ++ 10 ∷ []) ≡ ok (next content_length)
  header_line-other content_length l h =
      header_line-ascii content_length (l ++ 10 ∷ [])
        (All-append (λ c. c < 128) l (10 ∷ []) h.ascii (omega arith, tt))
      ∙ rw (h.not_blank, h.not_length) refl

  header_line-blank :
      (content_length : Option ℕ) → header_line u content_length (13 ∷ 10 ∷ []) ≡ ok done
  header_line-blank content_length =
      header_line-ascii content_length (13 ∷ 10 ∷ []) (omega arith, (omega arith, tt))
      ∙ ap (header_trimmed u content_length) (trim_ascii-space (13 ∷ 10 ∷ []) (refl, (refl, tt)))

  -- The spaces before and behind the number are no part of it.
  value-decimal : (n : ℕ) → u.trim (32 ∷ decimal n) ≡ decimal n
  value-decimal n =
      let (c, s, left, hc) = decimal-cons n in
      let (t, e, right, he) = decimal-snoc n in
      law.ascii_trim (32 ∷ decimal n) (omega arith, IsDigit-IsAscii (decimal n) (decimal-IsDigit n))
      ∙ ap (λ b. trim_ascii (32 ∷ b)) (sym (append-nil (decimal n)))
      ∙ trim_ascii-padded (32 ∷ []) (decimal n) [] c e s t (refl, tt) tt left (digit_not_space c hc)
          right (digit_not_space e he)

  header_line-length :
      (content_length : Option ℕ) (n : ℕ)
      → n < 2 ^ 64
      → header_line u content_length (length_line n ++ 10 ∷ []) ≡ ok (next (some n))
  header_line-length content_length n h =
      header_line-ascii content_length (length_line n ++ 10 ∷ []) (length_line-IsAscii n)
      ∙ ap (header_trimmed u content_length) (trim_ascii-length_line n)
      ∙ ap (λ t. parsed_length (parse_usize t)) (value-decimal n)
      ∙ ap parsed_length (parse_usize-decimal n h)

  -- The headers of a message are read, whatever other headers stand before its length.
  pub read_headers-headed :
      (content_length : Option ℕ) (ls : List Text) (n : ℕ) (s : Text)
      → All IsOther ls
      → n < 2 ^ 64
      → read_lines u content_length [] (headed ls (length_line n ++ 10 ∷ 13 ∷ 10 ∷ s)) ≡ ok (n, s)
  read_headers-headed content_length [] n s h k =
      read_lines-next u content_length (some n) [] (length_line n) (13 ∷ 10 ∷ s)
        (length_line-NoNewline n) (header_line-length content_length n k)
      ∙ read_lines-done u (some n) [] (13 ∷ []) s (refl, tt) (header_line-blank (some n))
  read_headers-headed content_length (l ∷ ls) n s h k =
      read_lines-next u content_length content_length [] l _ h.0.one_line
        (header_line-other content_length l h.0)
      ∙ read_headers-headed content_length ls n s h.1 k

  needs_more-blank : (n : ℕ) (s : Text) → needs_more u (some n) [] (13 ∷ 10 ∷ s) ≡ ltb (length s) n
  unfolding needs_more
  needs_more-blank n s = rw (needs_more, header_line-blank (some n)) refl

  -- Behind the headers of a message, a read asks for the bytes of its body and for no more.
  pub needs_more-headed :
      (content_length : Option ℕ) (ls : List Text) (n : ℕ) (s : Text)
      → All IsOther ls
      → n < 2 ^ 64
      → needs_more u content_length [] (headed ls (length_line n ++ 10 ∷ 13 ∷ 10 ∷ s))
        ≡ ltb (length s) n
  needs_more-headed content_length [] n s h k =
      needs_more-next u content_length (some n) [] (length_line n) (13 ∷ 10 ∷ s)
        (length_line-NoNewline n) (header_line-length content_length n k)
      ∙ needs_more-blank n s
  needs_more-headed content_length (l ∷ ls) n s h k =
      needs_more-next u content_length content_length [] l _ h.0.one_line
        (header_line-other content_length l h.0)
      ∙ needs_more-headed content_length ls n s h.1 k
