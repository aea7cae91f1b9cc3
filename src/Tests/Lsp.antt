-- ===== src/Tests/Lsp.antt =====
-- Runs of the theorems on the daemon, its messages and the cascade.
use codequery.Prelude.{
  In, ℕ, zero, suc, ap, List, [], ◌∷◌, ◌++◌, none, some, Text, codes, map, ◌≡◌, ◌↔◌, refl, length,
  true, false, arith, text_eq, ◌==◌, if◌then◌else◌,
}
use codequery.Prelude.Dict.{get}
use codequery.Core.Query.{semantic}
use codequery.Core.Language.{Language, rust, python, from_name}
use codequery.Core.Language.Names.{ascii_lower}
use codequery.Lsp.Types.{ok, err, io}
use codequery.Lsp.Socket.{
  DaemonRequest, DaemonResponse, query, locations, auth_ok, authenticate, status, shutdown, Json,
  be_bytes, write_message, read_message, too_large,
}
use codequery.Lsp.Socket.Framing.{read_message-write_message, read_message-too_large}
use codequery.Lsp.Daemon.{
  PoolKey, key_eq, pool_key, Servers, PooledServer, Daemon, evict_idle_servers, get_or_start_server,
}
use codequery.Lsp.Daemon.Requests.{
  Connection, Round, connection, would_block, handle_connection, accept_loop, run, handle_query,
}
use codequery.Lsp.Client.{query_refs, authenticate_client, language_to_daemon_string, locations_of}
use codequery.Lsp.Client.Served.{frame, daemon_reads, query_refs-served}
use codequery.Lsp.Daemon.Pool.{unless_idle, get-evict_idle_servers}
use codequery.Lsp.Daemon.Lending.{Lends, get_or_start_server-Lends}
use codequery.Lsp.Daemon.Shutdown.{run-empties}
use codequery.Lsp.Daemon.Connections.{Ignored, unauthenticated_connection, connection_stops_iff}
use codequery.Lsp.Daemon.Loop.{Ends, accept_loop-returns_iff}
use codequery.Lsp.Cascade.{ResolvedReference, daemon, Target, World, found, resolve_with_cascade}
use codequery.Lsp.Cascade.Tiers.{IsFromTier, resolve_with_cascade-IsFromTier}

-- A server is a number, and ready where it is even.
abbrev servers : Servers
servers = record {
  LspServer = ℕ;
  Config = ℕ;
  config_for = λ l. some 4;
  start = λ config root. ok config;
  is_ready = λ s. true;
  open_document = λ s file source language. (s, ok tt);
  find_definition = λ s file line column. (s, ok []);
  find_references = λ s file line column b. (s, ok []);
  hover_at = λ s file line column. (s, ok none);
  read_source = λ file. codes "fn main() {}";
  debug_name = λ l. codes "Rust";
  duration_text = λ d. codes "1s";
  to_lowercase = map ascii_lower;
}

abbrev pooled : PooledServer servers
pooled = record { project = codes "/p"; server = 2; last_used = 10; started = 5 }

abbrev key : PoolKey
key = pool_key (codes "/p") rust

abbrev d : Daemon servers
d = record {
  servers = (key, pooled) ∷ [];
  idle_timeout = 30;
  start_time = 1;
  project_root = codes "/p";
  token = codes "secret";
}

abbrev stop_it : Connection
stop_it = record { first = some (authenticate (codes "secret")); second = some shutdown }

abbrev stranger : Connection
stranger = record { first = some status; second = some shutdown }

connection_stops_iff_example :
    ((handle_connection servers 20 stop_it d).1 ≡ true)
    ↔ ((stop_it.first ≡ some (authenticate (codes "secret"))) × (stop_it.second ≡ some shutdown))
connection_stops_iff_example = connection_stops_iff servers 20 stop_it d

unauthenticated_connection_example : Ignored servers 20 d (handle_connection servers 20 stranger d)
unauthenticated_connection_example = unauthenticated_connection servers 20 stranger d (λ p. cc p)

get-evict_idle_servers_example :
    get key (evict_idle_servers servers 50 d).servers ≡ unless_idle servers 50 30 (some pooled)
unfolding get codequery.Core.Language.language_beq evict_idle_servers
    codequery.Core.FilePath.components
get-evict_idle_servers_example = get-evict_idle_servers servers 50 key d (refl, tt)

get_or_start_server-Lends_example :
    Lends servers 20
      (pool_key (codes "/p") python)
      d
      (get_or_start_server servers 20 (codes "/p") python d)
unfolding get
get_or_start_server-Lends_example =
    get_or_start_server-Lends servers 20 (codes "/p") python d (refl, tt)

abbrev rounds : List Round
rounds =
    record { shutdown_flag = false; now = 20; accepted = would_block }
    ∷ record { shutdown_flag = true; now = 21; accepted = connection stranger }
    ∷ []

run-empties_example : get key (run servers rounds d).1.servers ≡ none
unfolding run codequery.Lsp.Daemon.Requests.accept_loop codequery.Lsp.Daemon.Requests.accept_round
run-empties_example = run-empties servers rounds d key refl

accept_loop-returns_iff_example :
    ((accept_loop servers rounds d).0 ≡ true)
    ↔ ((r : Round) × In r rounds × Ends (codes "secret") r)
accept_loop-returns_iff_example = accept_loop-returns_iff servers rounds d

-- Numbers as their only byte.
abbrev json : Json ℕ
json = record {
  to_vec = λ n. some (n ∷ []);
  from_slice = λ s. elim s [ [] ↦ none | n ∷ rest ↦ some n ];
  to_vec_error = λ n. [];
  from_slice_error = λ s. codes "EOF";
}

read_message-write_message_example :
    (write_message json 7 ≡ ok (be_bytes 1 ++ 7 ∷ []))
    × (read_message json ((be_bytes 1 ++ 7 ∷ []) ++ codes "next") ≡ ok (7, codes "next"))
read_message-write_message_example =
    read_message-write_message json 7 (7 ∷ []) (codes "next") refl refl (omega arith)

-- A message of 16 MiB and one byte.
replicate : ℕ → ℕ → Text
replicate zero x = []
replicate (suc n) x = x ∷ replicate n x

length-replicate : (n x : ℕ) → length (replicate n x) ≡ n
unfolding replicate
length-replicate zero x = refl
length-replicate (suc n) x = ap suc (length-replicate n x)

abbrev big : Text
big = replicate 16777217 0

abbrev big_json : Json ℕ
big_json = record {
  to_vec = λ n. some big;
  from_slice = λ s. some 0;
  to_vec_error = λ n. [];
  from_slice_error = λ s. [];
}

length-big : length big ≡ 16777217
length-big = length-replicate 16777217 0

read_message-too_large_example :
    (write_message big_json 0 ≡ ok (be_bytes (length big) ++ big))
    × (read_message big_json ((be_bytes (length big) ++ big) ++ []) ≡ err (too_large (length big)))
read_message-too_large_example =
    read_message-too_large big_json 0 big [] refl (omega (arith, length-big))
      (omega (arith, length-big))

abbrev target : Target
target = record {
  project_root = codes "/p";
  language = rust;
  symbol_name = codes "go";
  symbol_file = codes "/p/a.rs";
  symbol_line = 3;
  symbol_column = 0;
}

abbrev one_found : List ResolvedReference
one_found =
    record {
      ref_file = codes "/p/b.rs";
      ref_line = 9;
      ref_column = 4;
      symbol = codes "go";
      def_file = none;
      def_line = none;
      def_column = none;
      resolution = semantic;
    }
    ∷ []

-- The daemon is spawned and comes up, but its answer fails.
abbrev world : World
world = record {
  running = false;
  spawned = true;
  running_at_poll = λ i. true;
  daemon_locations = λ t. err (io (codes "reset"));
  oneshot_references = λ t. ok one_found;
  stack_graph = λ t. found [];
}

resolve_with_cascade-IsFromTier_example :
    IsFromTier world target daemon (resolve_with_cascade world target daemon).0
resolve_with_cascade-IsFromTier_example = resolve_with_cascade-IsFromTier world target daemon

-- The four messages of the exchange, each with a text of its own.
abbrev request_json : Json DaemonRequest
request_json = record {
  to_vec = λ r. elim r [
    | query _ _ _ _ _ _ _ ↦ some (2 ∷ [])
    | status ↦ none
    | shutdown ↦ none
    | authenticate t ↦ some (1 ∷ [])
  ];
  from_slice = λ s.
      if s == 1 ∷ []
      then some (authenticate (codes "secret"))
      else some (query (codes "/p") (codes "rust") (codes "references") (codes "a.rs") 3 4 none);
  to_vec_error = λ r. [];
  from_slice_error = λ s. [];
}

abbrev response_json : Json DaemonResponse
response_json = record {
  to_vec = λ r. elim r [ locations _ ↦ some (2 ∷ []) | auth_ok ↦ some (1 ∷ []) | _ ↦ none ];
  from_slice = λ s. if s == 1 ∷ [] then some auth_ok else some (locations []);
  to_vec_error = λ r. [];
  from_slice_error = λ s. [];
}

abbrev served : DaemonResponse × Daemon servers
served =
    handle_query servers 20 (codes "/p") (language_to_daemon_string (map ascii_lower) rust)
      (codes "references") (codes "a.rs") 3 4 d

query_refs-served_example :
    (query_refs request_json response_json
        (λ r. [])
        (map ascii_lower)
        (authenticate_client request_json response_json
          (λ r. [])
          (codes "secret")
          (record { outgoing = []; incoming = frame (1 ∷ []) ++ frame (2 ∷ []) })).0
        (codes "/p")
        rust
        (codes "a.rs")
        3
        4
      ≡ (
        record { outgoing = frame (1 ∷ []) ++ frame (2 ∷ []); incoming = [] },
        locations_of request_json response_json (λ r. []) served.0,
      ))
    × (handle_connection servers 20 (daemon_reads request_json (frame (1 ∷ []) ++ frame (2 ∷ []))) d
        ≡ (auth_ok ∷ served.0 ∷ [], false, served.1))
    × (from_name (map ascii_lower) (language_to_daemon_string (map ascii_lower) rust) ≡ some rust)
unfolding handle_query language_to_daemon_string codequery.Lsp.Client.debug_name from_name
    codequery.Core.Language.from_lowercase get_or_start_server get
    codequery.Core.Language.language_beq codequery.Core.FilePath.components
query_refs-served_example =
    query_refs-served request_json response_json (λ r. []) servers d 20 (codes "/p") (codes "a.rs")
      rust 3 4 (1 ∷ []) (2 ∷ []) (1 ∷ []) (2 ∷ []) (λ s h. refl)
      (record { written = refl; read = refl; fits = omega arith })
      (record { written = refl; read = refl; fits = omega arith })
      (record { written = refl; read = refl; fits = omega arith })
      (record { written = refl; read = refl; fits = omega arith })
