-- ===== src/Lsp/Client.antt =====
-- crates/codequery-lsp/src/client.rs and daemon_file.rs: the client of the daemon, on the bytes of its
-- connection.
pub mod Served
use codequery.Prelude.{
  ℕ, List, [], ◌++◌, Option, none, some, Text, codes, Bool, true, false, if◌then◌else◌, ◌>>=◌,
}
use codequery.Core.Language
use codequery.Core.Language.{Language}
use codequery.Core.FilePath.{join}
use codequery.Lsp.Types.{
  LspLocation, LspError, connection_failed, daemon_not_running, Result, ok, err,
}
use codequery.Lsp.Socket.{
  DaemonRequest, query, status, shutdown, authenticate, DaemonResponse, locations, auth_ok, error,
  Json, write_message, read_message,
}

pub record DaemonInfo : Type 0 where
  pub port : ℕ
  pub token : Text
  pub pid : ℕ
  pub project : Text
  pub started : Text

-- What `DefaultHasher`, serde and the file system give.
pub record InfoFiles : Type 0 where
  pub daemons_dir : Option Text
  pub hash_hex : Text → Text
  pub read_to_string : Text → Option Text
  pub from_str : Text → Option DaemonInfo

module _ (fs : InfoFiles) where
  unfoldable pub daemon_file_path : Text → Option Text
  daemon_file_path project_root = do
    dir ← fs.daemons_dir
    some (join dir (fs.hash_hex project_root ++ codes ".json"))

  unfoldable pub read_daemon_info : Text → Option DaemonInfo
  read_daemon_info project_root = do
    path ← daemon_file_path project_root
    contents ← fs.read_to_string path
    fs.from_str contents

-- The variant's name, as `Debug` prints it.
unfoldable pub debug_name : Language → Text
debug_name Language.rust = codes "Rust"
debug_name Language.typescript = codes "TypeScript"
debug_name Language.javascript = codes "JavaScript"
debug_name Language.python = codes "Python"
debug_name Language.go = codes "Go"
debug_name Language.c = codes "C"
debug_name Language.cpp = codes "Cpp"
debug_name Language.java = codes "Java"
debug_name Language.ruby = codes "Ruby"
debug_name Language.php = codes "Php"
debug_name Language.csharp = codes "CSharp"
debug_name Language.swift = codes "Swift"
debug_name Language.kotlin = codes "Kotlin"
debug_name Language.scala = codes "Scala"
debug_name Language.zig = codes "Zig"
debug_name Language.lua = codes "Lua"
debug_name Language.bash = codes "Bash"
debug_name Language.html = codes "Html"
debug_name Language.css = codes "Css"
debug_name Language.json = codes "Json"
debug_name Language.yaml = codes "Yaml"
debug_name Language.toml = codes "Toml"

unfoldable pub language_to_daemon_string : (Text → Text) → Language → Text
language_to_daemon_string to_lowercase language = to_lowercase (debug_name language)

-- What has been written to the daemon, and what it has written and is not read yet.
pub record DaemonClient : Type 0 where
  pub outgoing : Text
  pub incoming : Text

module _ (requests : Json DaemonRequest) (responses : Json DaemonResponse)
    (debug_response : DaemonResponse → Text) where
  abbrev written : DaemonClient → Result Text → DaemonClient × Result (Unit {0})
  written c (err e) = (c, err e)
  written c (ok bytes) = (record c { outgoing = c.outgoing ++ bytes }, ok tt)

  abbrev pub send : DaemonClient → DaemonRequest → DaemonClient × Result (Unit {0})
  send c request = written c (write_message requests request)

  abbrev pub received :
      DaemonClient → Result (DaemonResponse × Text) → DaemonClient × Result DaemonResponse
  received c (err e) = (c, err e)
  received c (ok (response, rest)) = (record c { incoming = rest }, ok response)

  abbrev pub receive : DaemonClient → DaemonClient × Result DaemonResponse
  receive c = received c (read_message responses c.incoming)

  abbrev after_send : DaemonClient × Result (Unit {0}) → DaemonClient × Result DaemonResponse
  after_send (c, err e) = (c, err e)
  after_send (c, ok _) = receive c

  -- A request is written and its response is read.
  abbrev pub exchange : DaemonClient → DaemonRequest → DaemonClient × Result DaemonResponse
  exchange c request = after_send (send c request)

  abbrev pub on_response :
      {A : Type 0}
      → (DaemonResponse → Result A)
      → DaemonClient × Result DaemonResponse
      → DaemonClient × Result A
  on_response f (c, err e) = (c, err e)
  on_response f (c, ok response) = (c, f response)

  abbrev pub auth_result : DaemonResponse → Result (Unit {0})
  auth_result auth_ok = ok tt
  auth_result (error msg) = err (connection_failed (codes "daemon authentication failed: " ++ msg))
  auth_result _ = err (connection_failed (codes "unexpected response during authentication"))

  -- The part of `connect` behind the connection.
  unfoldable pub authenticate_client : Text → DaemonClient → DaemonClient × Result (Unit {0})
  authenticate_client token c = on_response auth_result (exchange c (authenticate token))

  abbrev connected : Text → Option DaemonClient → Text → DaemonClient × Result (Unit {0})
  connected token none e = (record { outgoing = []; incoming = [] }, err (connection_failed e))
  connected token (some stream) e = authenticate_client token stream

  -- The client and whether it is connected, given the information file, the TCP stream that is
  -- opened and the text of the error where none is; the file of a dead daemon is removed then.
  unfoldable pub connect :
      Option DaemonInfo → Option DaemonClient → Text → DaemonClient × Result (Unit {0})
  connect none stream e = (record { outgoing = []; incoming = [] }, err daemon_not_running)
  connect (some info) stream e = connected info.token stream e

  abbrev pub locations_of : DaemonResponse → Result (List LspLocation)
  locations_of (locations locs) = ok locs
  locations_of (error msg) = err (connection_failed (codes "daemon query error: " ++ msg))
  locations_of other =
      err (connection_failed (codes "unexpected daemon response: " ++ debug_response other))

  unfoldable pub send_and_receive_locations :
      DaemonClient → DaemonRequest → DaemonClient × Result (List LspLocation)
  send_and_receive_locations c request = on_response locations_of (exchange c request)

  module _ (to_lowercase : Text → Text) where
    unfoldable pub query_refs :
        DaemonClient
        → (project : Text) → Language
        → (file : Text) → (line column : ℕ) → DaemonClient × Result (List LspLocation)
    query_refs c project language file line column = send_and_receive_locations c (
        query project (language_to_daemon_string to_lowercase language) (codes "references") file
          line column none)

    unfoldable pub query_definition :
        DaemonClient
        → (project : Text) → Language
        → (file : Text) → (line column : ℕ) → DaemonClient × Result (List LspLocation)
    query_definition c project language file line column = send_and_receive_locations c (
        query project (language_to_daemon_string to_lowercase language) (codes "definition") file
          line column none)

  unfoldable pub client_status : DaemonClient → DaemonClient × Result DaemonResponse
  client_status c = exchange c status

  abbrev shutdown_result : DaemonResponse → Result (Unit {0})
  shutdown_result (error msg) = err (connection_failed msg)
  shutdown_result _ = ok tt

  unfoldable pub client_shutdown : DaemonClient → DaemonClient × Result (Unit {0})
  client_shutdown c = on_response shutdown_result (exchange c shutdown)
