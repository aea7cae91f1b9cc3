-- ===== src/Lsp/Socket.antt =====
-- crates/codequery-lsp/src/socket.rs: the messages between the client and the daemon, and their
-- framing on a byte stream. The JSON of serde is given by a `Json`.
pub mod Framing
use codequery.Prelude.{
  ℕ, ◌+◌, ◌*◌, ◌/◌, ◌%◌, ◌^◌, List, [], ◌∷◌, ◌++◌, Option, none, some, Text, codes, Bool, true,
  false, if◌then◌else◌, ltb, length, take, drop,
}
use codequery.Prelude.Decimal.{decimal}
use codequery.Lsp.Types.{LspLocation, LspError, connection_failed, json, io, Result, ok, err, ◌>>=◌}

pub data DaemonRequest : Type 0 where
  query :
      (project language operation file : Text) (line column : ℕ) (symbol : Option Text)
      → DaemonRequest
  status shutdown : DaemonRequest
  authenticate : (token : Text) → DaemonRequest

pub record ServerInfo : Type 0 where
  pub project : Text
  pub language : Text
  pub uptime_secs : ℕ

pub data DaemonResponse : Type 0 where
  locations : List LspLocation → DaemonResponse
  hover : Option Text → DaemonResponse
  status_of : (servers : List ServerInfo) (uptime_secs : ℕ) → DaemonResponse
  ok_response auth_ok : DaemonResponse
  error : Text → DaemonResponse

pub record Json (A : Type 0) : Type 0 where
  pub to_vec : A → Option Text
  pub from_slice : Text → Option A
  -- the texts of the errors where there is no result
  pub to_vec_error : A → Text
  pub from_slice_error : Text → Text

-- `(len as u32).to_be_bytes()`
abbrev pub be_bytes : ℕ → Text
be_bytes len =
    let n = len % 2 ^ 32 in (n / 2 ^ 24) ∷ (n / 2 ^ 16 % 256) ∷ (n / 2 ^ 8 % 256) ∷ (n % 256) ∷ []

-- `u32::from_be_bytes` of the four bytes that were read
abbrev pub from_be_bytes : Text → ℕ
from_be_bytes (a ∷ b ∷ c ∷ d ∷ _) = ((a * 256 + b) * 256 + c) * 256 + d
from_be_bytes _ = 0

-- 16 MiB
abbrev pub max_message_size : ℕ
max_message_size = 16 * 1024 * 1024

abbrev pub too_large : ℕ → LspError
too_large len = connection_failed (
    codes "message too large: "
    ++ decimal len
    ++ codes " bytes (max "
    ++ decimal max_message_size
    ++ codes ")")

-- `read_exact`: the bytes and what is left, or `none` at an early end.
abbrev pub read_exact : ℕ → Text → Option (Text × Text)
read_exact n s = if ltb (length s) n then none else some (take n s, drop n s)

abbrev pub or_err : {A : Type 0} → LspError → Option A → Result A
or_err e none = err e
or_err e (some a) = ok a

module _ {A : Type 0} (j : Json A) where
  -- The bytes that are written for a message.
  unfoldable pub write_message : A → Result Text
  write_message message = do
    payload ← or_err (json (j.to_vec_error message)) (j.to_vec message)
    ok (be_bytes (length payload) ++ payload)

  abbrev pub read_payload : ℕ → Text → Result (A × Text)
  read_payload len s = if ltb max_message_size len then err (too_large len) else do
    body ← or_err (io (codes "failed to fill whole buffer")) (read_exact len s)
    message ← or_err (json (j.from_slice_error body.0)) (j.from_slice body.0)
    ok (message, body.1)

  -- The message, and the bytes that are left on the stream.
  unfoldable pub read_message : Text → Result (A × Text)
  read_message s = do
    prefix ← or_err (connection_failed (codes "connection closed")) (read_exact 4 s)
    read_payload (from_be_bytes prefix.0) prefix.1
