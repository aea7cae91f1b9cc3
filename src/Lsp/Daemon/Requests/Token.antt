-- ===== src/Lsp/Daemon/Requests/Token.antt =====
-- The token of the daemon never changes.
use codequery.Prelude.{
  ℕ, Option, none, some, Text, ◌==◌, text_eq, ◌≡◌, refl, ◌∙◌, Bool-cases, inl, inr,
}
use codequery.Core.Language.{Language, from_name}
use codequery.Lsp.Types.{Result, ok, err}
use codequery.Lsp.Socket.{DaemonRequest, query, status, shutdown, authenticate}
use codequery.Lsp.Daemon.{
  PoolKey, key_eq, pool_key, Servers, PooledServer, Daemon, get_or_start_server,
}
use codequery.Lsp.Daemon.Lending.{get_or_start_server-token}
use codequery.Lsp.Daemon.Requests.{
  Connection, put_back, update_server, after_open, with_server, query_language, handle_query,
  handle_request, serve_request, refuse, authenticated, first_read, handle_connection,
}

module _ (sv : Servers) where
  open sv use {LspServer, to_lowercase}

  put_back-token :
      (key : PoolKey) (server : LspServer) (o : Option (PooledServer sv)) (d : Daemon sv)
      → (put_back sv key server o d).token ≡ d.token
  unfolding put_back
  put_back-token key server none d = refl
  put_back-token key server (some pooled) d = refl

  after_open-token :
      (key : PoolKey) (r : LspServer × Result (Unit {0})) (operation file : Text) (line column : ℕ)
      (d : Daemon sv)
      → (after_open sv key r operation file line column d).1.token ≡ d.token
  unfolding after_open update_server
  after_open-token key (server, err e) operation file line column d = put_back-token key server _ d
  after_open-token key (server, ok _) operation file line column d = put_back-token key _ _ d

  with_server-token :
      (key : PoolKey) (r : Result LspServer × Daemon sv) (language operation file : Text)
      (line column : ℕ)
      → (with_server sv key r language operation file line column).1.token ≡ r.1.token
  unfolding with_server
  with_server-token key (err e, d) language operation file line column = refl
  with_server-token key (ok server, d) language operation file line column =
      after_open-token key _ operation file line column d

  query_language-token :
      (now : ℕ) (l : Option Language) (project language operation file : Text) (line column : ℕ)
      (d : Daemon sv)
      → (query_language sv now l project language operation file line column d).1.token ≡ d.token
  unfolding query_language
  query_language-token now none project language operation file line column d = refl
  query_language-token now (some l) project language operation file line column d =
      with_server-token (pool_key project l) (get_or_start_server sv now project l d) language
        operation file line column
      ∙ get_or_start_server-token sv now project l d

  handle_request-token :
      (now : ℕ) (r : DaemonRequest) (d : Daemon sv) → (handle_request sv now r d).2.token ≡ d.token
  unfolding handle_request handle_query
  handle_request-token now (query project language operation file line column symbol) d =
      query_language-token now (from_name to_lowercase language) project language operation file
        line column d
  handle_request-token now status d = refl
  handle_request-token now shutdown d = refl
  handle_request-token now (authenticate token) d = refl

  serve_request-token :
      (now : ℕ) (o : Option DaemonRequest) (d : Daemon sv)
      → (serve_request sv now o d).2.token ≡ d.token
  unfolding serve_request
  serve_request-token now none d = refl
  serve_request-token now (some request) d = handle_request-token now request d

  first_read-token :
      (now : ℕ) (first second : Option DaemonRequest) (d : Daemon sv)
      → (first_read sv now first second d).2.token ≡ d.token
  unfolding first_read authenticated refuse
  first_read-token now none second d = refl
  first_read-token now (some (authenticate token)) second d = elim (Bool-cases (token == d.token)) [
    | inl same ↦ rw same (serve_request-token now second d)
    | inr other ↦ rw other
  ]
  first_read-token now (some (query _ _ _ _ _ _ _)) second d = refl
  first_read-token now (some status) second d = refl
  first_read-token now (some shutdown) second d = refl

  pub handle_connection-token :
      (now : ℕ) (c : Connection) (d : Daemon sv) → (handle_connection sv now c d).2.token ≡ d.token
  unfolding handle_connection
  handle_connection-token now c d = first_read-token now c.first c.second d
