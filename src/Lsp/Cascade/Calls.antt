-- ===== src/Lsp/Cascade/Calls.antt =====
-- How often other processes are called for one resolution.
use codequery.Prelude.{
  ℕ, zero, suc, ◌+◌, ◌≤◌, List, [], ◌∷◌, Option, none, some, Bool, true, false, if◌then◌else◌,
  arith, length, length-append,
}
use codequery.Lsp.Cascade.{
  ResolutionResult, SemanticMode, off, oneshot, daemon, Action, check_daemon, spawn_daemon,
  query_daemon, Target, World, poll, daemon_there, daemon_step, oneshot_step, after_daemon,
  try_auto_start_daemon, resolve_with_cascade,
}

-- The most calls that a mode can make.
abbrev pub most_calls : SemanticMode → ℕ
most_calls off = 0
most_calls oneshot = 3
most_calls daemon = 34

poll-calls : (w : World) (tries at : ℕ) → length (poll w tries at).1 ≤ tries
unfolding poll
poll-calls w zero at = omega arith
poll-calls w (suc tries) at = ground (arith, poll-calls w tries (at + 1))

spawn-calls :
    (b up : Bool) (checks : List Action)
    → length checks ≤ 30
    → length
        (if◌then◌else◌ {A = Bool × List Action} b
          (up, spawn_daemon ∷ checks)
          (false, spawn_daemon ∷ [])).1
      ≤ 31
spawn-calls true up checks few = omega (arith, few)
spawn-calls false up checks few = omega arith

auto_start-calls : (w : World) → length (try_auto_start_daemon w).1 ≤ 31
unfolding try_auto_start_daemon
auto_start-calls w = spawn-calls w.spawned (poll w 30 0).0 (poll w 30 0).1 (poll-calls w 30 0)

running-calls :
    (b up : Bool) (actions : List Action)
    → length actions ≤ 31
    → length
        (if◌then◌else◌ {A = Bool × List Action} b
          (true, check_daemon ∷ [])
          (up, check_daemon ∷ actions)).1
      ≤ 32
running-calls true up actions few = omega arith
running-calls false up actions few = omega (arith, few)

daemon_there-calls : (w : World) → length (daemon_there w daemon).1 ≤ 32
unfolding daemon_there
daemon_there-calls w =
    let (up, actions) = try_auto_start_daemon w in
    running-calls w.running up actions (auto_start-calls w)

module _ (w : World) (t : Target) where
  daemon_step-calls :
      (b : Bool) (actions : List Action)
      → length (daemon_step w t (b, actions)).1 ≤ length actions + 1
  unfolding daemon_step
  daemon_step-calls false actions = omega arith
  daemon_step-calls true actions = rw (length-append actions (query_daemon ∷ [])) (omega arith)

  after_daemon-calls :
      (mode : SemanticMode) (o : Option ResolutionResult) (actions : List Action)
      → length (after_daemon w t mode (o, actions)).1
        ≤ length actions + length (oneshot_step w t mode).1
  unfolding after_daemon
  after_daemon-calls mode (some r) actions = omega arith
  after_daemon-calls mode none actions =
      rw (length-append actions (oneshot_step w t mode).1) (omega arith)

  one_more : (mode : SemanticMode) → length (oneshot_step w t mode).1 ≤ 1
  unfolding oneshot_step
  one_more off = omega arith
  one_more oneshot = omega arith
  one_more daemon = omega arith

  resolve-calls :
      (mode : SemanticMode)
      → length (resolve_with_cascade w t mode).1 ≤ length (daemon_there w mode).1 + 2
  unfolding resolve_with_cascade
  resolve-calls mode =
      let (up, actions) = daemon_there w mode in
      let (answer, called) = daemon_step w t (up, actions) in
      omega
        (arith, after_daemon-calls mode answer called, daemon_step-calls up actions, one_more mode)

  -- The other processes are called at most 34 times for one resolution, at most 3 times in the
  -- one-shot mode, and never with the mode off.
  pub resolve_with_cascade-calls :
      (mode : SemanticMode) → length (resolve_with_cascade w t mode).1 ≤ most_calls mode
  unfolding resolve_with_cascade daemon_there
  resolve_with_cascade-calls off = omega arith
  resolve_with_cascade-calls oneshot = resolve-calls oneshot
  resolve_with_cascade-calls daemon = omega (arith, resolve-calls daemon, daemon_there-calls w)
