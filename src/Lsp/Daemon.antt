-- ===== src/Lsp/Daemon.antt =====
-- crates/codequery-lsp/src/daemon.rs: the pool of language servers, the requests, the connections
-- and the accept loop. The language servers are given by a `Servers`; the time is
-- an argument, in nanoseconds.
-- The message that shuts a server down when it leaves the pool has no effect on the daemon's state
-- and is left out, as its outcome is ignored.
pub mod Requests
pub mod Pool
pub mod Lending
pub mod Shutdown
pub mod Connections
pub mod Loop
use codequery.Prelude.{
  ℕ, ◌-◌, List, [], ◌∷◌, ◌++◌, Option, none, some, Text, codes, Bool, true, false, not, ◌==◌,
  text_eq, Eq, if◌then◌else◌, ltb, map, filter, pair_beq, pair_beq_iff, list_beq, list_beq_iff,
}
use codequery.Prelude.Dict.{Dict, get, insert, remove}
use codequery.Core.FilePath.{components}
use codequery.Core.Language.{Language, language_eq, FileTables, from_name}
use codequery.Core.Language
use codequery.Lsp.Types.{LspLocation, LspError, server_not_found, Result, ok, err}
use codequery.Lsp.Socket.{
  DaemonRequest, query, status, shutdown, authenticate, ServerInfo, DaemonResponse, locations,
  hover, status_of, ok_response, auth_ok, error,
}

-- A project and a language. Paths are equal where their components are.
abbrev pub PoolKey : Type 0
PoolKey = List Text × Language

abbrev pub names_eq : Eq (List Text)
names_eq = record { beq = list_beq text_eq.beq; beq_iff = list_beq_iff text_eq }

instance abbrev pub key_eq : Eq PoolKey
key_eq = record {
  beq = pair_beq names_eq.beq language_eq.beq;
  beq_iff = pair_beq_iff names_eq language_eq;
}

abbrev pub pool_key : Text → Language → PoolKey
pool_key project language = (components project, language)

-- A language server, as the daemon uses one. A request to it returns the server as it is then.
pub record Servers : Type 1 where
  pub LspServer : Type 0
  pub Config : Type 0
  pub config_for : Language → Option Config
  pub start : Config → Text → Result LspServer
  pub is_ready : LspServer → Bool
  pub open_document : LspServer → Text → Text → Text → LspServer × Result (Unit {0})
  pub find_definition : LspServer → Text → ℕ → ℕ → LspServer × Result (List LspLocation)
  pub find_references : LspServer → Text → ℕ → ℕ → Bool → LspServer × Result (List LspLocation)
  pub hover_at : LspServer → Text → ℕ → ℕ → LspServer × Result (Option Text)
  -- `fs::read_to_string(file).unwrap_or_default()`
  pub read_source : Text → Text
  -- `Debug` of a language and of a duration
  pub debug_name : Language → Text
  pub duration_text : ℕ → Text
  pub to_lowercase : Text → Text

module _ (sv : Servers) where
  open sv use {
    LspServer, Config, config_for, start, is_ready, open_document, find_definition, find_references,
    hover_at, read_source, debug_name, to_lowercase,
  }

  -- `project` is the path in the key, as it was when the server was put in the pool.
  pub record PooledServer : Type 0 where
    pub project : Text
    pub server : LspServer
    pub last_used : ℕ
    pub started : ℕ

  pub record Daemon : Type 0 where
    pub servers : Dict PoolKey PooledServer
    pub idle_timeout : ℕ
    pub start_time : ℕ
    pub project_root : Text
    pub token : Text

  -- `pooled.last_used.elapsed() > timeout`, at the instant `now`
  abbrev pub is_idle : ℕ → ℕ → PooledServer → Bool
  is_idle now timeout pooled = ltb timeout (now - pooled.last_used)

  idle_keys : ℕ → ℕ → Dict PoolKey PooledServer → List PoolKey
  idle_keys now timeout [] = []
  idle_keys now timeout ((key, pooled) ∷ pool) =
      let rest = idle_keys now timeout pool in
      if is_idle now timeout pooled then key ∷ rest else rest

  pub remove_all : List PoolKey → Dict PoolKey PooledServer → Dict PoolKey PooledServer
  remove_all [] pool = pool
  remove_all (key ∷ keys) pool = remove_all keys (remove key pool)

  unfoldable pub evict_idle_servers : ℕ → Daemon → Daemon
  unfolding idle_keys remove_all
  evict_idle_servers now d = record d {
    servers = remove_all (idle_keys now d.idle_timeout d.servers) d.servers;
  }

  keys_of : Dict PoolKey PooledServer → List PoolKey
  keys_of [] = []
  keys_of ((key, _) ∷ pool) = key ∷ keys_of pool

  unfoldable pub shutdown_all_servers : Daemon → Daemon
  unfolding keys_of remove_all
  shutdown_all_servers d = record d { servers = remove_all (keys_of d.servers) d.servers }

  touch : ℕ → PooledServer → PooledServer
  touch now pooled = record pooled { last_used = now }

  start_with : ℕ → Text → PoolKey → Option Config → Daemon → Result LspServer × Daemon
  start_with now project key none d =
      (err (server_not_found (codes "no language server configured for " ++ debug_name key.1)), d)
  start_with now project key (some config) d = elim (start config project) [
    | err e ↦ (err e, d)
    | ok server ↦ (
      ok server,
      record d {
        servers =
            insert key
              (record { project = project; server = server; last_used = now; started = now })
              d.servers;
      },
    )
  ]

  start_new : ℕ → Text → PoolKey → Daemon → Result LspServer × Daemon
  start_new now project key d = start_with now project key (config_for key.1) d

  -- By the state of the pool's entry: `Missing`, or `Ready` and `Dead` by `is_ready`.
  pooled_or_new : ℕ → Text → PoolKey → Option PooledServer → Daemon → Result LspServer × Daemon
  pooled_or_new now project key none d = start_new now project key d
  pooled_or_new now project key (some pooled) d =
      if is_ready pooled.server
      then (ok pooled.server, record d { servers = insert key (touch now pooled) d.servers })
      else start_new now project key (record d { servers = remove key d.servers })

  -- The server is returned, and stands in the pool under its key.
  unfoldable pub get_or_start_server : ℕ → Text → Language → Daemon → Result LspServer × Daemon
  unfolding pooled_or_new start_new start_with touch
  get_or_start_server now project language d =
      pooled_or_new now project (pool_key project language)
        (get (pool_key project language) d.servers) d
