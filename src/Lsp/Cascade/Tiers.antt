-- ===== src/Lsp/Cascade/Tiers.antt =====
-- Which tier answers, and what is called for it.
use codequery.Prelude.{
  ℕ, zero, suc, ◌+◌, List, [], ◌∷◌, some, map, ◌≢◌, Bool, true, false, ◌||◌, ◌&&◌, if◌then◌else◌,
  ◌≡◌, ◌∙◌, refl, sym, arith,
}
use codequery.Core.Query.{semantic}
use codequery.Lsp.Uri.{uri_to_path}
use codequery.Lsp.Types.{LspLocation, LspError, Result, ok, err}
use codequery.Lsp.Cascade.{
  ResolutionResult, SemanticMode, off, oneshot, daemon, Action, spawn_daemon, Target, World, poll,
  daemon_there, daemon_step, oneshot_step, after_daemon, unless_empty, ResolvedReference,
  daemon_reference, or_stack_graph, try_auto_start_daemon, resolve_with_cascade,
}

-- Some poll from `at` on, among the next `tries`, finds the daemon.
pub any_poll : World → (tries at : ℕ) → Bool
any_poll w zero at = false
any_poll w (suc tries) at = w.running_at_poll at || any_poll w tries (at + 1)

-- A daemon can be asked: it runs, or in daemon mode it was spawned and came up within 30 polls.
abbrev pub reachable : World → SemanticMode → Bool
reachable w off = false
reachable w oneshot = w.running
reachable w daemon = w.running || w.spawned && any_poll w 30 0

-- The first tiers give nothing: no daemon can be asked, or the one that is asked fails.
pub data NoDaemon (w : World) (t : Target) (mode : SemanticMode) : Type 0 where
  unreached : reachable w mode ≡ false → NoDaemon w t mode
  daemon_failed : (e : LspError) → w.daemon_locations t ≡ err e → NoDaemon w t mode

-- A one-shot server gives nothing: it is not started, or it fails, or it finds no reference.
pub data NoOneshot (w : World) (t : Target) (mode : SemanticMode) : Type 0 where
  turned_off : mode ≡ off → NoOneshot w t mode
  oneshot_failed : (e : LspError) → w.oneshot_references t ≡ err e → NoOneshot w t mode
  nothing_found : w.oneshot_references t ≡ ok [] → NoOneshot w t mode

-- What a location of the protocol says, in a reference to the symbol.
pub record IsLocated (t : Target) (loc : LspLocation) (r : ResolvedReference) : Type 0 where
  pub file : r.ref_file ≡ uri_to_path loc.uri
  pub line : r.ref_line ≡ suc loc.range.start.line
  pub column : r.ref_column ≡ loc.range.start.character
  pub named : r.symbol ≡ t.symbol_name
  pub def_file : r.def_file ≡ some t.symbol_file
  pub def_line : r.def_line ≡ some t.symbol_line
  pub def_column : r.def_column ≡ some t.symbol_column
  pub precise : r.resolution ≡ semantic

-- One reference for each location, in their order.
pub data AreLocated (t : Target) : List LspLocation → List ResolvedReference → Type 0 where
  none_located : AreLocated t [] []
  one_located :
      {loc : LspLocation} {locs : List LspLocation} {r : ResolvedReference}
      {rs : List ResolvedReference}
      → IsLocated t loc r
      → AreLocated t locs rs
      → AreLocated t (loc ∷ locs) (r ∷ rs)

daemon_references-AreLocated :
    (t : Target) (locs : List LspLocation) → AreLocated t locs (map (daemon_reference t) locs)
unfolding daemon_reference
daemon_references-AreLocated t [] = none_located
daemon_references-AreLocated t (loc ∷ locs) =
    one_located
      (record {
        file = refl;
        line = omega arith;
        column = refl;
        named = refl;
        def_file = refl;
        def_line = refl;
        def_column = refl;
        precise = refl;
      })
      (daemon_references-AreLocated t locs)

-- Which result the tiers are to give.
pub data IsFromTier (w : World) (t : Target) (mode : SemanticMode) : ResolutionResult → Type 0 where
  from_daemon :
      (locs : List LspLocation) (refs : List ResolvedReference)
      → reachable w mode ≡ true
      → w.daemon_locations t ≡ ok locs
      → AreLocated t locs refs
      → IsFromTier w t mode (record { references = refs; warnings = [] })
  from_oneshot :
      (r : ResolvedReference) (rs : List ResolvedReference)
      → NoDaemon w t mode
      → mode ≢ off
      → w.oneshot_references t ≡ ok (r ∷ rs)
      → IsFromTier w t mode (record { references = r ∷ rs; warnings = [] })
  from_stack_graph : NoDaemon w t mode → NoOneshot w t mode → IsFromTier w t mode (w.stack_graph t)

poll-any : (w : World) (tries at : ℕ) → (poll w tries at).0 ≡ any_poll w tries at
unfolding poll any_poll
poll-any w zero at = refl
poll-any w (suc tries) at = ground (arith, poll-any w tries (at + 1))

up-when :
    (b up any : Bool) (checks failed : List Action)
    → up ≡ any
    → (if◌then◌else◌ {A = Bool × List Action} b (up, checks) (false, failed)).0 ≡ (b && any)
up-when true up any checks failed e = e
up-when false up any checks failed e = refl

auto_start-any : (w : World) → (try_auto_start_daemon w).0 ≡ (w.spawned && any_poll w 30 0)
unfolding try_auto_start_daemon
auto_start-any w =
    up-when w.spawned (poll w 30 0).0 (any_poll w 30 0) (spawn_daemon ∷ (poll w 30 0).1)
      (spawn_daemon ∷ []) (poll-any w 30 0)

daemon_there-reachable :
    (w : World) (mode : SemanticMode) → (daemon_there w mode).0 ≡ reachable w mode
unfolding daemon_there
daemon_there-reachable w off = refl
daemon_there-reachable w oneshot = refl
daemon_there-reachable w daemon = ground (arith, auto_start-any w)

module _ (w : World) (t : Target) (mode : SemanticMode) where
  unless_empty-IsFromTier :
      NoDaemon w t mode
      → mode ≢ off
      → (o : Result (List ResolvedReference)) → w.oneshot_references t ≡ o
      → IsFromTier w t mode (or_stack_graph w t (unless_empty (w.oneshot_references t)))
  unless_empty-IsFromTier none_up on (err e) h =
      rw h (from_stack_graph none_up (oneshot_failed e h))
  unless_empty-IsFromTier none_up on (ok []) h = rw h (from_stack_graph none_up (nothing_found h))
  unless_empty-IsFromTier none_up on (ok (r ∷ rs)) h = rw h (from_oneshot r rs none_up on h)

  oneshot_step-IsFromTier :
      NoDaemon w t mode
      → (m : SemanticMode) → mode ≡ m
      → (o : Result (List ResolvedReference)) → w.oneshot_references t ≡ o
      → IsFromTier w t mode (or_stack_graph w t (oneshot_step w t m).0)
  unfolding oneshot_step
  oneshot_step-IsFromTier none_up off e o h = from_stack_graph none_up (turned_off e)
  oneshot_step-IsFromTier none_up oneshot e o h =
      unless_empty-IsFromTier none_up (λ f. cc (sym e ∙ f)) o h
  oneshot_step-IsFromTier none_up daemon e o h =
      unless_empty-IsFromTier none_up (λ f. cc (sym e ∙ f)) o h

  after_daemon-IsFromTier :
      (b : Bool)
      → reachable w mode ≡ b
      → (actions : List Action) (r : Result (List LspLocation)) → w.daemon_locations t ≡ r
      → IsFromTier w t mode (after_daemon w t mode (daemon_step w t (b, actions))).0
  unfolding daemon_step after_daemon
  after_daemon-IsFromTier false e actions r h =
      oneshot_step-IsFromTier (unreached e) mode refl (w.oneshot_references t) refl
  after_daemon-IsFromTier true e actions (err x) h =
      rw h (oneshot_step-IsFromTier (daemon_failed x h) mode refl (w.oneshot_references t) refl)
  after_daemon-IsFromTier true e actions (ok locs) h =
      rw h (from_daemon locs _ e h (daemon_references-AreLocated t locs))

  -- With the mode off, the result is that of the stack graphs. Otherwise a daemon that
  -- runs, or in daemon mode one that was spawned and came up within 30 polls, gives the result unless
  -- it fails, one reference for each location and none for none; then a one-shot server that finds some reference gives it; and
  -- then the stack graphs.
  pub resolve_with_cascade-IsFromTier : IsFromTier w t mode (resolve_with_cascade w t mode).0
  unfolding resolve_with_cascade
  resolve_with_cascade-IsFromTier =
      after_daemon-IsFromTier (daemon_there w mode).0 (sym (daemon_there-reachable w mode))
        (daemon_there w mode).1 (w.daemon_locations t) refl
