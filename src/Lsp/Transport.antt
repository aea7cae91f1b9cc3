-- ===== src/Lsp/Transport.antt =====
-- crates/codequery-lsp/src/transport.rs: the header-framed messages on a language server's pipes.
-- `str::trim`, the check of UTF-8 and the text of its error are parameters.
pub mod Framing
pub mod Request
pub mod Stream
use codequery.Prelude.{
  ℕ, List, [], ◌∷◌, ◌++◌, Option, none, some, Text, codes, Bool, true, false, if◌then◌else◌,
  nat_beq, is_empty, strip_prefix, length, ltb,
}
use codequery.Prelude.Decimal.{decimal, ParsedInt, number, invalid, parse_usize}
use codequery.Lsp.Types.{LspError, connection_failed, io, Result, ok, err, ◌>>=◌}
use codequery.Lsp.Socket.{read_exact, or_err}

-- What the code uses of the standard library's Unicode tables.
pub record Unicode : Type 0 where
  pub is_utf8 : Text → Bool
  pub utf8_error : Text → Text
  pub trim : Text → Text

abbrev pub crlf : Text
crlf = 13 ∷ 10 ∷ []

-- The bytes that are written for a message.
unfoldable pub write_message : Text → Text
write_message json = codes "Content-Length: " ++ (decimal (length json) ++ (crlf ++ (crlf ++ json)))

-- Where the loop stands behind a line: at the end of the headers, or before the next one.
pub data Headers : Type 0 where
  done : Headers
  next : (content_length : Option ℕ) → Headers

abbrev pub parsed_length : ParsedInt → Result Headers
parsed_length (number n) = ok (next (some n))
parsed_length (invalid e) = err (connection_failed (codes "invalid Content-Length: " ++ e))

abbrev pub stream_ended : LspError
stream_ended = connection_failed (codes "unexpected end of stream while reading headers")

abbrev pub missing_length : LspError
missing_length = connection_failed (codes "missing Content-Length header")

abbrev pub finished : Option ℕ → Text → Result (ℕ × Text)
finished none s = err missing_length
finished (some n) s = ok (n, s)

-- A line that the end of the stream cuts off is the last one.
abbrev pub last_line : Option ℕ → Result Headers → Result (ℕ × Text)
last_line content_length (ok done) = finished content_length []
last_line content_length (ok (next _)) = err stream_ended
last_line content_length (err e) = err e

module _ (u : Unicode) where
  -- The `Content-Length` of a trimmed line, or the one before it.
  abbrev pub header_value : Option ℕ → Option Text → Result Headers
  header_value content_length none = ok (next content_length)
  header_value content_length (some value) = parsed_length (parse_usize (u.trim value))

  abbrev pub header_trimmed : Option ℕ → Text → Result Headers
  header_trimmed content_length trimmed =
      if is_empty trimmed
      then ok done
      else header_value content_length (strip_prefix (codes "Content-Length:") trimmed)

  -- One round of the loop, for the line that `read_line` gives.
  unfoldable pub header_line : Option ℕ → Text → Result Headers
  header_line content_length line =
      if u.is_utf8 line
      then header_trimmed content_length (u.trim line)
      else err (io (codes "stream did not contain valid UTF-8"))

  -- The loop, with `read_line` in it: `line` is what has been read of the line.
  unfoldable pub read_lines : Option ℕ → (line s : Text) → Result (ℕ × Text)
  read_lines content_length [] [] = err stream_ended
  read_lines content_length (c ∷ line) [] =
      last_line content_length (header_line content_length (c ∷ line))
  read_lines content_length line (c ∷ s) = elim (nat_beq c 10) [
    | true ↦ elim (header_line content_length (line ++ c ∷ [])) [
      | ok h ↦ elim h [
        | done ↦ finished content_length s
        | next content_length' ↦ read_lines content_length' [] s
      ]
      | err e ↦ err e
    ]
    | false ↦ read_lines content_length (line ++ c ∷ []) s
  ]

  -- Whether a read goes past the bytes that are there: on a pipe that stays open it then blocks.
  abbrev pub needs_body : Option ℕ → Text → Bool
  needs_body none s = false
  needs_body (some n) s = ltb (length s) n

  unfoldable pub needs_more : Option ℕ → (line s : Text) → Bool
  needs_more content_length line [] = true
  needs_more content_length line (c ∷ s) = elim (nat_beq c 10) [
    | true ↦ elim (header_line content_length (line ++ c ∷ [])) [
      | ok h ↦ elim h [
        | done ↦ needs_body content_length s
        | next content_length' ↦ needs_more content_length' [] s
      ]
      | err e ↦ false
    ]
    | false ↦ needs_more content_length (line ++ c ∷ []) s
  ]

  unfoldable pub read_headers : Text → Result (ℕ × Text)
  read_headers s = read_lines none [] s

  abbrev pub utf8_body : Text × Text → Result (Text × Text)
  utf8_body (body, rest) =
      if u.is_utf8 body
      then ok (body, rest)
      else err (connection_failed (codes "invalid UTF-8 in response body: " ++ u.utf8_error body))

  -- The message, and the bytes that are left on the stream.
  unfoldable pub read_message : Text → Result (Text × Text)
  read_message s = do
    headers ← read_headers s
    body ← or_err (io (codes "failed to fill whole buffer")) (read_exact headers.0 headers.1)
    utf8_body body
