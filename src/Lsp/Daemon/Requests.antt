-- ===== src/Lsp/Daemon/Requests.antt =====
-- crates/codequery-lsp/src/daemon.rs: what the daemon does with a request, a connection, and in its
-- accept loop. What arrives is a list of events, each with the flag and the time of its round.
pub mod Token
use codequery.Prelude.{
  ℕ, ◌-◌, ◌/◌, List, [], ◌∷◌, ◌++◌, Option, none, some, Text, codes, Bool, true, false, ◌==◌,
  text_eq, if◌then◌else◌,
}
use codequery.Prelude.Dict.{Dict, get, insert}
use codequery.Core.Language.{Language, from_name}
use codequery.Lsp.Types.{LspLocation, display_error, Result, ok, err}
use codequery.Lsp.Socket.{
  DaemonRequest, query, status, shutdown, authenticate, ServerInfo, DaemonResponse, locations,
  hover, status_of, ok_response, auth_ok, error,
}
use codequery.Lsp.Daemon.{
  PoolKey, key_eq, pool_key, Servers, PooledServer, Daemon, evict_idle_servers,
  shutdown_all_servers, get_or_start_server,
}

-- What the two reads on a connection give; `none` is a failed read.
pub record Connection : Type 0 where
  pub first : Option DaemonRequest
  pub second : Option DaemonRequest

-- What `listener.accept()` gives in one round.
pub data Accepted : Type 0 where
  connection : Connection → Accepted
  would_block accept_error : Accepted

pub record Round : Type 0 where
  pub shutdown_flag : Bool
  pub now : ℕ
  pub accepted : Accepted

module _ (sv : Servers) where
  open sv use {
    LspServer, open_document, find_definition, find_references, hover_at, read_source, debug_name,
    duration_text, to_lowercase,
  }

  -- A request changed the server that the pool lends out.
  put_back : PoolKey → LspServer → Option (PooledServer sv) → Daemon sv → Daemon sv
  put_back key server none d = d
  put_back key server (some pooled) d = record d {
    servers = insert key (record pooled { server = server }) d.servers;
  }

  update_server : PoolKey → LspServer → Daemon sv → Daemon sv
  update_server key server d = put_back key server (get key d.servers) d

  located : Result (List LspLocation) → Text → DaemonResponse
  located (ok ls) failed = locations ls
  located (err e) failed = error (failed ++ codes ": " ++ display_error duration_text e)

  hovered : Result (Option Text) → DaemonResponse
  hovered (ok text) = hover text
  hovered (err e) = error (codes "hover failed: " ++ display_error duration_text e)

  -- The `match` on the operation.
  run_operation : LspServer → Text → Text → ℕ → ℕ → LspServer × DaemonResponse
  run_operation server operation file line column =
      if operation == codes "definition"
      then (let (s, r) = find_definition server file line column in
          (s, located r (codes "definition failed")))
      else if operation == codes "references"
      then (let (s, r) = find_references server file line column true in
          (s, located r (codes "references failed")))
      else if operation == codes "hover"
      then (let (s, r) = hover_at server file line column in (s, hovered r))
      else (server, error (codes "unknown operation: " ++ operation))

  after_open :
      PoolKey
      → LspServer × Result (Unit {0})
      → Text
      → Text
      → ℕ
      → ℕ
      → Daemon sv
      → DaemonResponse × Daemon sv
  after_open key (server, err e) operation file line column d = (
    error (codes "failed to open document: " ++ display_error duration_text e),
    update_server key server d,
  )
  after_open key (server, ok _) operation file line column d =
      let (server', response) = run_operation server operation file line column in
      (response, update_server key server' d)

  with_server :
      PoolKey
      → Result LspServer × Daemon sv
      → (language operation file : Text) → ℕ
      → ℕ
      → DaemonResponse × Daemon sv
  with_server key (err e, d) language operation file line column =
      (error (codes "failed to start server: " ++ display_error duration_text e), d)
  with_server key (ok server, d) language operation file line column =
      after_open key (open_document server file (read_source file) language) operation file line
        column d

  query_language :
      ℕ
      → Option Language
      → (project language operation file : Text) → ℕ
      → ℕ
      → Daemon sv
      → DaemonResponse × Daemon sv
  query_language now none project language operation file line column d =
      (error (codes "unsupported language: " ++ language), d)
  query_language now (some lang) project language operation file line column d =
      with_server (pool_key project lang) (get_or_start_server sv now project lang d) language
        operation file line column

  unfoldable pub handle_query :
      ℕ → (project language operation file : Text) → ℕ → ℕ → Daemon sv → DaemonResponse × Daemon sv
  unfolding query_language with_server after_open run_operation located hovered update_server
      put_back
  handle_query now project language operation file line column d =
      query_language now (from_name to_lowercase language) project language operation file line
        column d

  -- `Duration::as_secs`
  abbrev as_secs : ℕ → ℕ
  as_secs duration = duration / 1000000000

  server_infos : ℕ → Dict PoolKey (PooledServer sv) → List ServerInfo
  server_infos now [] = []
  server_infos now ((key, pooled) ∷ pool) =
      record {
        project = pooled.project;
        language = to_lowercase (debug_name key.1);
        uptime_secs = as_secs (now - pooled.started);
      }
      ∷ server_infos now pool

  unfoldable pub handle_status : ℕ → Daemon sv → DaemonResponse
  unfolding server_infos
  handle_status now d = status_of (server_infos now d.servers) (as_secs (now - d.start_time))

  -- The response, whether the daemon should stop, and the daemon.
  unfoldable pub handle_request : ℕ → DaemonRequest → Daemon sv → DaemonResponse × Bool × Daemon sv
  handle_request now (query project language operation file line column symbol) d =
      let (response, d') = handle_query now project language operation file line column d in
      (response, false, d')
  handle_request now status d = (handle_status now d, false, d)
  handle_request now shutdown d = (ok_response, true, d)
  handle_request now (authenticate token) d =
      (error (codes "unexpected authenticate request"), false, d)

  -- The responses written, whether the daemon should stop, and the daemon. Writing is best-effort.
  abbrev pub Outcome : Type 0
  Outcome = List DaemonResponse × Bool × Daemon sv

  serve_request : ℕ → Option DaemonRequest → Daemon sv → Outcome
  serve_request now none d = (auth_ok ∷ [], false, d)
  serve_request now (some request) d =
      let (response, should_stop, d') = handle_request now request d in
      (auth_ok ∷ response ∷ [], should_stop, d')

  refuse : Daemon sv → Outcome
  refuse d = (error (codes "authentication failed") ∷ [], false, d)

  authenticated : ℕ → DaemonRequest → Option DaemonRequest → Daemon sv → Outcome
  authenticated now (authenticate token) second d =
      if token == d.token then serve_request now second d else refuse d
  authenticated now (query _ _ _ _ _ _ _) second d = refuse d
  authenticated now status second d = refuse d
  authenticated now shutdown second d = refuse d

  first_read : ℕ → Option DaemonRequest → Option DaemonRequest → Daemon sv → Outcome
  first_read now none second d = ([], false, d)
  first_read now (some auth_request) second d = authenticated now auth_request second d

  unfoldable pub handle_connection : ℕ → Connection → Daemon sv → Outcome
  unfolding first_read authenticated serve_request refuse
  handle_connection now c d = first_read now c.first c.second d

  accept_one : ℕ → Accepted → Daemon sv → Bool × Daemon sv
  accept_one now (connection c) d =
      let (_, should_stop, d') = handle_connection now c d in (should_stop, d')
  accept_one now would_block d = (false, d)
  accept_one now accept_error d = (false, d)

  -- One round: `true` when the loop returns.
  unfoldable pub accept_round : Round → Daemon sv → Bool × Daemon sv
  unfolding accept_one
  accept_round r d =
      if r.shutdown_flag
      then (true, d)
      else accept_one r.now r.accepted (evict_idle_servers sv r.now d)

  -- The loop over the rounds that happen: `true` when it has returned.
  unfoldable pub accept_loop : List Round → Daemon sv → Bool × Daemon sv
  accept_loop [] d = (false, d)
  accept_loop (r ∷ rounds) d =
      let (stop, d') = accept_round r d in
      let rest = accept_loop rounds d' in if stop then (true, d') else rest

  -- `run` behind the start-up: the loop, and the shutdown of every server when it returns.
  unfoldable pub run : List Round → Daemon sv → Bool × Daemon sv
  run rounds d =
      let (stopped, d') = accept_loop rounds d in
      if stopped then (true, shutdown_all_servers sv d') else (false, d')
