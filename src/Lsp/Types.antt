-- ===== src/Lsp/Types.antt =====
-- crates/codequery-lsp/src/types.rs and error.rs: locations, and the errors of the crate.
use codequery.Prelude.{ℕ, ◌++◌, Text, codes}

pub record Position : Type 0 where
  pub line : ℕ
  pub character : ℕ

pub record LspRange : Type 0 where
  pub start : Position
  pub end : Position

pub record LspLocation : Type 0 where
  pub uri : Text
  pub range : LspRange

-- A foreign error is kept as its text, a duration as its number of nanoseconds.
pub data LspError : Type 0 where
  server_not_found server_crashed initialize_failed connection_failed io json : Text → LspError
  request_failed : (method message : Text) → LspError
  timeout : (duration : ℕ) → LspError
  daemon_not_running : LspError

-- `Display` of `LspError`, given the `Debug` text of a duration.
unfoldable pub display_error : (ℕ → Text) → LspError → Text
display_error duration_text (server_not_found s) = codes "language server not found: " ++ s
display_error duration_text (server_crashed s) = codes "language server crashed: " ++ s
display_error duration_text (initialize_failed s) = codes "initialize failed: " ++ s
display_error duration_text (request_failed method message) =
    codes "request failed: " ++ method ++ codes ": " ++ message
display_error duration_text (timeout d) = codes "request timed out after " ++ duration_text d
display_error duration_text daemon_not_running = codes "daemon not running"
display_error duration_text (connection_failed s) = codes "connection failed: " ++ s
display_error duration_text (io e) = e
display_error duration_text (json e) = e

pub data Result {ℓ} (A : Type ℓ) : Type ℓ where
  ok : A → Result A
  err : LspError → Result A

infixl 5 ◌>>=◌
abbrev pub ◌>>=◌ {ℓ κ} : {A : Type ℓ} {B : Type κ} → Result A → (A → Result B) → Result B
ok a >>= f = f a
err e >>= f = err e
