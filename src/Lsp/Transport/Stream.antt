-- ===== src/Lsp/Transport/Stream.antt =====
-- crates/codequery-lsp/src/transport.rs: the messages of a stream are read back one after another.
use codequery.Prelude.{
  ℕ, zero, suc, ◌<◌, ◌^◌, List, [], ◌∷◌, ◌++◌, append_assoc, map, Text, codes, true, none, ◌≡◌,
  refl, sym, ap, ◌∙◌, length, length-append, ltb, false, arith, All,
}
use codequery.Prelude.Decimal.{decimal}
use codequery.Lsp.Types.{Result, ok, ◌>>=◌}
use codequery.Lsp.Socket.Framing.{read_exact-append}
use codequery.Lsp.Transport.{Unicode, crlf, write_message, read_headers, read_message, needs_more}
use codequery.Lsp.Transport.Framing.{
  IsUnicode, IsOther, headed, length_line, read_headers-headed, needs_more-headed,
}

-- A message on the wire: the other headers before its length, and its text.
pub record Frame : Type 0 where
  pub others : List Text
  pub json : Text

pub record IsFrame (u : Unicode) (m : Frame) : Type 0 where
  pub others : All IsOther m.others
  pub utf8 : u.is_utf8 m.json ≡ true
  pub fits : length m.json < 2 ^ 64

-- The bytes of messages, and what follows them.
abbrev pub stream : List Frame → Text → Text
stream [] rest = rest
stream (m ∷ ms) rest = headed m.others (write_message m.json ++ stream ms rest)

-- Reading that many messages.
abbrev pub read_messages : Unicode → ℕ → Text → Result (List Text × Text)
read_messages u zero s = ok ([], s)
read_messages u (suc n) s = do
  first ← read_message u s
  others ← read_messages u n first.1
  ok (first.0 ∷ others.0, others.1)

write_message-lines :
    (json rest : Text)
    → write_message json ++ rest ≡ length_line (length json) ++ 10 ∷ 13 ∷ 10 ∷ (json ++ rest)
unfolding write_message
write_message-lines json rest =
    ap (λ b. codes "Content-Length: " ++ b)
      (append_assoc (decimal (length json)) (crlf ++ (crlf ++ json)) rest
        ∙ sym (append_assoc (decimal (length json)) (13 ∷ []) (10 ∷ 13 ∷ 10 ∷ (json ++ rest))))

pub read_message-frame :
    (u : Unicode) (law : IsUnicode u) (m : Frame) (rest : Text)
    → IsFrame u m
    → read_message u (headed m.others (write_message m.json ++ rest)) ≡ ok (m.json, rest)
unfolding read_message read_headers
read_message-frame u law m rest h =
    ap (λ b. read_message u (headed m.others b)) (write_message-lines m.json rest)
    ∙ rw
        (
          read_headers-headed u law none m.others (length m.json) (m.json ++ rest) h.others h.fits,
          read_exact-append (length m.json) m.json rest refl,
          h.utf8,
        )
        refl

-- A message that is there does not block a read.
pub needs_more-frame :
    (u : Unicode) (law : IsUnicode u) (m : Frame) (rest : Text)
    → IsFrame u m
    → needs_more u none [] (headed m.others (write_message m.json ++ rest)) ≡ false
needs_more-frame u law m rest h =
    let whole : ltb (length (m.json ++ rest)) (length m.json) ≡ false =
      ground (arith, length-append m.json rest) in
    ap (λ b. needs_more u none [] (headed m.others b)) (write_message-lines m.json rest)
    ∙ needs_more-headed u law none m.others (length m.json) (m.json ++ rest) h.others h.fits
    ∙ whole

-- A sequence of messages, each with any number of other headers before its `Content-Length`, is read
-- back message by message, and exactly the bytes behind them are left. A header is one line of ASCII
-- that is not blank and no `Content-Length`; a message is UTF-8 of less than 2^64 bytes.
pub read_messages-stream :
    (u : Unicode)
    → IsUnicode u
    → (ms : List Frame) (rest : Text) → All (IsFrame u) ms
    → read_messages u (length ms) (stream ms rest) ≡ ok (map (λ m. m.json) ms, rest)
read_messages-stream u law [] rest h = refl
read_messages-stream u law (m ∷ ms) rest h =
    rw (read_message-frame u law m (stream ms rest) h.0, read_messages-stream u law ms rest h.1)
      refl
