-- ===== src/Lsp/Server.antt =====
-- crates/codequery-lsp/src/server.rs: the start of a language server, its shutdown, and the wait until
-- it has indexed the project. The link to the process is a `Channel`.
pub mod Ready
use codequery.Prelude.{
  ℕ, List, [], ◌∷◌, ◌++◌, Option, none, some, Text, codes, Bool, true, false, not, ◌&&◌, ◌==◌,
  text_eq, if◌then◌else◌, is_empty,
}
use codequery.Lsp.Types.{
  LspError, server_not_found, server_crashed, initialize_failed, io, display_error, Result, ok, err,
}
use codequery.Lsp.Value.{Value, null, object, no_fields, get, as_str}
use codequery.Lsp.Config.{ServerConfig}
use codequery.Lsp.Queries.{Channel, Serde, LspServer}
use codequery.Lsp.Uri.{path_to_uri}

-- What spawning a process gives.
pub data Spawned (Link : Type 0) : Type 0 where
  not_found : Spawned Link
  spawn_failed : Text → Spawned Link
  running : Link → Spawned Link

-- The process and the values that serde makes: whether `which` finds a binary, what a process that
-- has exited says, the parameters of `initialize`, and the capabilities in a value.
pub record Host (ch : Channel) : Type 1 where
  pub Capabilities : Type 0
  pub which : Text → Bool
  pub spawn : ServerConfig → Spawned ch.Link
  pub exit_status : ch.Link → Option Text
  pub initialize_params : Text → Value
  pub capabilities_from : Value → Option Capabilities
  pub capabilities_error : Value → Text
  pub duration_text : ℕ → Text

module _ (ch : Channel) (sd : Serde) (canonicalize : Text → Option Text) (host : Host ch) where
  abbrev pub Server : Type 0
  Server = LspServer ch sd canonicalize

  abbrev pub display : LspError → Text
  display e = display_error host.duration_text e

  unfoldable pub check_binary_exists : Text → Result (Unit {0})
  check_binary_exists binary = if host.which binary then ok tt else err (server_not_found binary)

  abbrev pub parsed_capabilities : Value → Option host.Capabilities → Result host.Capabilities
  parsed_capabilities v none =
      err (initialize_failed (codes "failed to parse capabilities: " ++ host.capabilities_error v))
  parsed_capabilities v (some caps) = ok caps

  abbrev pub or_whole_value : Option Value → Value → Value
  or_whole_value none result = result
  or_whole_value (some v) result = v

  unfoldable pub parse_capabilities : Value → Result host.Capabilities
  parse_capabilities result =
      let v = or_whole_value (get (codes "capabilities") result) result in
      parsed_capabilities v (host.capabilities_from v)

  -- A request that fails because the process has exited is a crash.
  abbrev pub initialize_error : Text → LspError → Option Text → LspError
  initialize_error binary e (some status) =
      server_crashed (binary ++ codes " exited with " ++ status ++ codes " during initialization")
  initialize_error binary e none =
      initialize_failed (codes "initialize request failed: " ++ display e)

  abbrev pub notified :
      host.Capabilities → ch.Link × Result (Unit {0}) → Result (Server × host.Capabilities)
  notified caps (link, err e) =
      err (initialize_failed (codes "initialized notification failed: " ++ display e))
  notified caps (link, ok _) = ok (record { transport = link; opened_docs = [] }, caps)

  abbrev pub capable : ch.Link → Result host.Capabilities → Result (Server × host.Capabilities)
  capable link (err e) = err e
  capable link (ok caps) =
      notified caps (ch.send_notification link (codes "initialized") (object no_fields))

  abbrev pub initialized : Text → ch.Link × Result Value → Result (Server × host.Capabilities)
  initialized binary (link, err e) = err (initialize_error binary e (host.exit_status link))
  initialized binary (link, ok result) = capable link (parse_capabilities result)

  abbrev pub handshake : Text → Text → Spawned ch.Link → Result (Server × host.Capabilities)
  handshake binary root not_found = err (server_not_found binary)
  handshake binary root (spawn_failed e) = err (io e)
  handshake binary root (running link) = initialized binary (
      ch.send_request link (codes "initialize")
        (host.initialize_params (path_to_uri canonicalize root)))

  abbrev checked : ServerConfig → Text → Result (Unit {0}) → Result (Server × host.Capabilities)
  checked config root (err e) = err e
  checked config root (ok _) = handshake config.binary root (host.spawn config)

  unfoldable pub start_with_capabilities :
      ServerConfig → (project_root : Text) → Result (Server × host.Capabilities)
  start_with_capabilities config project_root =
      checked config project_root (check_binary_exists config.binary)

  -- The error of killing the process, or the error of the shutdown request.
  abbrev shutdown_outcome : Result (Unit {0}) → Result Value → Result (Unit {0})
  shutdown_outcome (err e) result = err e
  shutdown_outcome (ok _) (err e) = err e
  shutdown_outcome (ok _) (ok _) = ok tt

  -- `exited` is what the wait for the exit of the process gives.
  unfoldable pub shutdown_server :
      Server → (exited : ch.Link → Result (Unit {0})) → Result (Unit {0})
  shutdown_server server exited =
      let (link, result) = ch.send_request server.transport (codes "shutdown") null in
      let (link', _) = ch.send_notification link (codes "exit") null in
      shutdown_outcome (exited link') result

-- The messages that the wait looks at.
pub data Event : Type 0 where
  begin end : (token : Text) → Event
  report other : Event
  create : Option Value → Event

abbrev text_of : (Value → Text) → Option Value → Text
text_of to_text none = []
text_of to_text (some v) = to_text v

abbrev or_no_text : Option Text → Text
or_no_text none = []
or_no_text (some s) = s

abbrev as_text : Option Value → Text
as_text none = []
as_text (some v) = or_no_text (as_str v)

abbrev get_in : Text → Option Value → Option Value
get_in key none = none
get_in key (some v) = get key v

abbrev progress_event : (Value → Text) → Option Value → Event
progress_event to_text none = report
progress_event to_text (some params) =
    let token = text_of to_text (get (codes "token") params) in
    let kind = as_text (get_in (codes "kind") (get (codes "value") params)) in
    if kind == codes "begin" then begin token else if kind == codes "end" then end token else report

-- `to_text` is `Display` of a value.
unfoldable pub event_of : (to_text : Value → Text) → Value → Event
event_of to_text json =
    let method = as_text (get (codes "method") json) in
    if method == codes "$/progress"
    then progress_event to_text (get (codes "params") json)
    else if method == codes "window/workDoneProgress/create"
    then create (get (codes "id") json)
    else other

-- What `try_read_message` gives; a message that is no JSON is an `other`.
pub data Read : Type 0 where
  message : Event → Read
  nothing failed : Read

-- One poll: whether the deadline, the grace period and the drain window are over, and what is read.
pub record Poll : Type 0 where
  pub late : Bool
  pub grace_over : Bool
  pub drain_over : Bool
  pub read : Read

-- Why the wait ended.
pub data Stop : Type 0 where
  timed_out no_progress ready read_failed : Stop

-- The main loop, or the drain loop with `new_progress`.
pub data Mode : Type 0 where
  main : Mode
  drain : (new_progress : Bool) → Mode

-- The tokens in progress, whether progress was seen, and the requests that were answered.
pub record Waiting : Type 0 where
  pub active : List Text
  pub seen : Bool
  pub answered : List Value
  pub mode : Mode

-- `HashSet` as a list.
abbrev pub without : Text → List Text → List Text
without t [] = []
without t (x ∷ xs) = let rest = without t xs in if t == x then rest else x ∷ rest

abbrev pub with_token : Text → List Text → List Text
with_token t xs = t ∷ without t xs

abbrev pub respond : Option Value → List Value → List Value
respond none ids = ids
respond (some id) ids = ids ++ id ∷ []

unfoldable pub main_event : Waiting → Event → Waiting
main_event w (begin t) = record w { active = with_token t w.active; seen = true }
main_event w (end t) = record w { active = without t w.active; seen = true }
main_event w report = record w { seen = true }
main_event w (create id) = record w { seen = true; answered = respond id w.answered }
main_event w other = w

unfoldable pub drain_event : Waiting → Bool → Event → Waiting
drain_event w new (begin t) = record w { active = with_token t w.active; mode = main }
drain_event w new (create id) = record w { answered = respond id w.answered; mode = drain true }
drain_event w new (end t) = w
drain_event w new report = w
drain_event w new other = w

-- The end of the drain loop.
abbrev pub drained : Waiting → Bool → Option Stop × Waiting
drained w false = (some ready, w)
drained w true = (none, record w { mode = main })

abbrev pub main_nothing : Waiting → Bool → Option Stop × Waiting
main_nothing w grace_over =
    if not w.seen && grace_over
    then (some no_progress, w)
    else if w.seen && is_empty w.active
    then (none, record w { mode = drain false })
    else (none, w)

abbrev pub main_read : Waiting → Bool → Read → Option Stop × Waiting
main_read w grace_over (message e) = (none, main_event w e)
main_read w grace_over nothing = main_nothing w grace_over
main_read w grace_over failed = (some read_failed, w)

abbrev pub drain_read : Waiting → Bool → Read → Option Stop × Waiting
drain_read w new (message e) = (none, drain_event w new e)
drain_read w new nothing = (none, w)
drain_read w new failed = drained w new

-- One round of the loop that runs.
abbrev pub round : Mode → Waiting → Poll → Option Stop × Waiting
round main w p =
    if◌then◌else◌ {A = Option Stop × Waiting} p.late (some timed_out, w)
      (main_read w p.grace_over p.read)
round (drain new) w p =
    if◌then◌else◌ {A = Option Stop × Waiting} p.drain_over (drained w new)
      (if◌then◌else◌ {A = Option Stop × Waiting} p.late (drained w new) (drain_read w new p.read))

-- The rounds, until the wait ends or the polls do.
unfoldable pub wait_rounds : List Poll → Waiting → Option Stop × Waiting
wait_rounds [] w = (none, w)
wait_rounds (p ∷ polls) w =
    let (stop, w') = round w.mode w p in
    elim stop [ some reason ↦ (some reason, w') | none ↦ wait_rounds polls w' ]

unfoldable pub wait_for_ready : List Poll → Option Stop × Waiting
wait_for_ready polls =
    wait_rounds polls (record { active = []; seen = false; answered = []; mode = main })
