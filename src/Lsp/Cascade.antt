-- ===== src/Lsp/Cascade.antt =====
-- crates/codequery-lsp/src/cascade.rs: the resolution of references by tiers, with the results of
-- crates/codequery-resolve/src/types.rs. What the tiers answer is given by a `World`; the calls that
-- leave the process are recorded.
pub mod Tiers
pub mod Calls
use codequery.Prelude.{
  ℕ, zero, suc, ◌+◌, List, [], ◌∷◌, ◌++◌, Option, none, some, Text, codes, Bool, true, false, not,
  ◌&&◌, is_empty, map, nat_beq, if◌then◌else◌,
}
use codequery.Core.Query.{Resolution, semantic}
use codequery.Core.Language.{Language}
use codequery.Lsp.Uri.{uri_to_path}
use codequery.Lsp.Types.{LspLocation, Result, ok, err}

pub record ResolvedReference : Type 0 where
  pub ref_file : Text
  pub ref_line : ℕ
  pub ref_column : ℕ
  pub symbol : Text
  pub def_file : Option Text
  pub def_line : Option ℕ
  pub def_column : Option ℕ
  pub resolution : Resolution

pub record ResolutionResult : Type 0 where
  pub references : List ResolvedReference
  pub warnings : List Text

pub data SemanticMode : Type 0 where
  off oneshot daemon : SemanticMode

-- The calls that reach another process.
pub data Action : Type 0 where
  check_daemon spawn_daemon query_daemon run_oneshot : Action

-- The symbol that is resolved.
pub record Target : Type 0 where
  pub project_root : Text
  pub language : Language
  pub symbol_name : Text
  pub symbol_file : Text
  pub symbol_line : ℕ
  pub symbol_column : ℕ

-- The answers: whether a daemon runs at the first check and at each later one, whether it could be
-- spawned, what it and a one-shot server find, and what the stack graphs find.
pub record World : Type 0 where
  pub running : Bool
  pub spawned : Bool
  pub running_at_poll : ℕ → Bool
  pub daemon_locations : Target → Result (List LspLocation)
  pub oneshot_references : Target → Result (List ResolvedReference)
  pub stack_graph : Target → ResolutionResult

-- Lines of the protocol count from 0, those of the program from 1.
unfoldable pub daemon_reference : Target → LspLocation → ResolvedReference
daemon_reference t loc = record {
  ref_file = uri_to_path loc.uri;
  ref_line = loc.range.start.line + 1;
  ref_column = loc.range.start.character;
  symbol = t.symbol_name;
  def_file = some t.symbol_file;
  def_line = some t.symbol_line;
  def_column = some t.symbol_column;
  resolution = semantic;
}

abbrev pub found : List ResolvedReference → ResolutionResult
found references = record { references = references; warnings = [] }

-- The polls of `try_auto_start_daemon`, at most `tries` more: whether the daemon came up, and how
-- often it was looked for.
pub poll : World → (tries at : ℕ) → Bool × List Action
poll w zero at = (false, [])
poll w (suc tries) at =
    let (up, more) = poll w tries (at + 1) in
    if w.running_at_poll at then (true, check_daemon ∷ []) else (up, check_daemon ∷ more)

unfoldable pub try_auto_start_daemon : World → Bool × List Action
try_auto_start_daemon w =
    let (up, checks) = poll w 30 0 in
    if w.spawned then (up, spawn_daemon ∷ checks) else (false, spawn_daemon ∷ [])

-- Whether a daemon is there, in a mode other than `Off`.
daemon_there : World → SemanticMode → Bool × List Action
daemon_there w off = (false, [])
daemon_there w oneshot = (w.running, check_daemon ∷ [])
daemon_there w daemon =
    let (up, actions) = try_auto_start_daemon w in
    if w.running then (true, check_daemon ∷ []) else (up, check_daemon ∷ actions)

abbrev pub answered : Target → Result (List LspLocation) → Option ResolutionResult
answered t (err e) = none
answered t (ok locs) = some (found (map (daemon_reference t) locs))

-- Step 1, with the actions so far.
daemon_step : World → Target → Bool × List Action → Option ResolutionResult × List Action
daemon_step w t (false, actions) = (none, actions)
daemon_step w t (true, actions) = (answered t (w.daemon_locations t), actions ++ query_daemon ∷ [])

abbrev pub unless_empty : Result (List ResolvedReference) → Option ResolutionResult
unless_empty (err e) = none
unless_empty (ok refs) = if is_empty refs then none else some (found refs)

-- Steps 2 and 2b: a one-shot server, where the mode is not `Off`.
oneshot_step : World → Target → SemanticMode → Option ResolutionResult × List Action
oneshot_step w t off = (none, [])
oneshot_step w t oneshot = (unless_empty (w.oneshot_references t), run_oneshot ∷ [])
oneshot_step w t daemon = (unless_empty (w.oneshot_references t), run_oneshot ∷ [])

abbrev pub or_stack_graph : World → Target → Option ResolutionResult → ResolutionResult
or_stack_graph w t none = w.stack_graph t
or_stack_graph w t (some r) = r

after_daemon :
    World
    → Target
    → SemanticMode
    → Option ResolutionResult × List Action
    → ResolutionResult × List Action
after_daemon w t mode (some r, actions) = (r, actions)
after_daemon w t mode (none, actions) =
    let (r, more) = oneshot_step w t mode in (or_stack_graph w t r, actions ++ more)

-- The result, and the calls that were made for it.
unfoldable pub resolve_with_cascade : World → Target → SemanticMode → ResolutionResult × List Action
unfolding daemon_there daemon_step oneshot_step after_daemon
resolve_with_cascade w t mode = after_daemon w t mode (daemon_step w t (daemon_there w mode))
