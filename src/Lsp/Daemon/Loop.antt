-- ===== src/Lsp/Daemon/Loop.antt =====
-- When the accept loop returns.
use codequery.Prelude.{
  ℕ, List, [], ◌∷◌, some, Text, Bool, true, false, ◌≡◌, ◌↔◌, ◌⊎◌, inl, inr, refl, sym, ap, ◌∙◌,
  Bool-cases, In, here, there,
}
use mathlib.Core.Path.{subst}
use codequery.Lsp.Socket.{shutdown, authenticate}
use codequery.Lsp.Daemon.{Servers, Daemon, evict_idle_servers}
use codequery.Lsp.Daemon.Requests.{
  Connection, Accepted, connection, would_block, accept_error, Round, accept_round, accept_loop,
}
use codequery.Lsp.Daemon.Requests.Token.{handle_connection-token}
use codequery.Lsp.Daemon.Connections.{connection_stops_iff}

-- A round that ends the loop: the flag is set, or a client that knows the token asks for it.
abbrev pub Ends : Text → Round → Type 0
Ends token r =
    (r.shutdown_flag ≡ true)
    ⊎ ((c : Connection) × (r.accepted ≡ connection c)
        × (c.first ≡ some (authenticate token))
        × (c.second ≡ some shutdown))

first_or_later : {s r : Round} {rounds : List Round} → In s (r ∷ rounds) → (s ≡ r) ⊎ In s rounds
first_or_later here = inl refl
first_or_later (there m) = inr m

module _ (sv : Servers) where
  accept_round-token :
      (flag : Bool) (now : ℕ) (a : Accepted) (d : Daemon sv)
      → (accept_round sv (record { shutdown_flag = flag; now = now; accepted = a }) d).1.token
        ≡ d.token
  unfolding accept_round evict_idle_servers
  accept_round-token true now a d = refl
  accept_round-token false now (connection c) d =
      handle_connection-token sv now c (evict_idle_servers sv now d)
  accept_round-token false now would_block d = refl
  accept_round-token false now accept_error d = refl

  accept_round-Ends :
      (flag : Bool) (now : ℕ) (a : Accepted) (d : Daemon sv)
      → ((accept_round sv (record { shutdown_flag = flag; now = now; accepted = a }) d).0 ≡ true)
        ↔ Ends d.token (record { shutdown_flag = flag; now = now; accepted = a })
  unfolding accept_round evict_idle_servers
  accept_round-Ends true now a d = (λ e. inl refl, λ h. refl)
  accept_round-Ends false now (connection c) d =
      let stops = connection_stops_iff sv now c (evict_idle_servers sv now d) in
      (
        λ e. inr (c, refl, (stops.0 e).0, (stops.0 e).1),
        λ h. elim h [
          | inl f ↦ cc f
          | inr (b, e, f, g) ↦
              let same : b ≡ c = cc e in
              stops.1 (ap (λ x. x.first) (sym same) ∙ f, ap (λ x. x.second) (sym same) ∙ g)
        ],
      )
  accept_round-Ends false now would_block d =
      (λ e. cc e, λ h. elim h [ inl f ↦ cc f | inr (b, e, f, g) ↦ cc e ])
  accept_round-Ends false now accept_error d =
      (λ e. cc e, λ h. elim h [ inl f ↦ cc f | inr (b, e, f, g) ↦ cc e ])

  -- The loop returns exactly when some round ends it: a signal has set the flag, or an authenticated
  -- client sends `Shutdown`. No other request, and no error, makes it return.
  pub accept_loop-returns_iff :
      (rounds : List Round) (d : Daemon sv)
      → ((accept_loop sv rounds d).0 ≡ true) ↔ ((r : Round) × In r rounds × Ends d.token r)
  unfolding accept_loop
  accept_loop-returns_iff [] d = (λ e. cc e, λ h. elim h.1 [ ])
  accept_loop-returns_iff (r ∷ rounds) d =
      let d' : Daemon sv = (accept_round sv r d).1 in
      let kept : d'.token ≡ d.token = accept_round-token r.shutdown_flag r.now r.accepted d in
      let ends = accept_round-Ends r.shutdown_flag r.now r.accepted d in
      let (later, earlier) = accept_loop-returns_iff rounds d' in
      elim (Bool-cases (accept_round sv r d).0) [
        | inl stop ↦ rw stop (λ e. (r, here, ends.0 stop), λ h. refl)
        | inr runs ↦ rw runs (
          λ e. let (s, m, h) = later e in (s, there m, subst (λ t. Ends t s) kept h),
          λ h. elim (first_or_later h.1) [
            | inl p ↦ absurd (
                let stop = ends.1 (subst (Ends d.token) p h.2) in
                let f : false ≡ true = sym runs ∙ stop in cc f)
            | inr m ↦ earlier (h.0, m, subst (λ t. Ends t h.0) (sym kept) h.2)
          ],
        )
      ]
