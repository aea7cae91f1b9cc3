-- ===== src/Lsp/Daemon/Connections.antt =====
-- Who can make the daemon do anything: only a client that sends the token first.
use mathlib.Core.Path.{subst}
use codequery.Prelude.{
  ℕ, [], ◌∷◌, Option, none, some, Text, codes, true, false, ◌==◌, text_eq, ◌≡◌, ◌≢◌, ◌↔◌, ◌⊎◌, refl,
  sym, ap, ◌∙◌, arith, Bool-cases, inl, inr, eq_refl,
}
use codequery.Lsp.Socket.{DaemonRequest, query, status, shutdown, authenticate, error}
use codequery.Lsp.Daemon.{Servers, Daemon}
use codequery.Lsp.Daemon.Requests.{Connection, Outcome, handle_connection, handle_request}

module _ (sv : Servers) (now : ℕ) where
  -- At most an error was written, and the daemon runs on as it was.
  abbrev pub Ignored : Daemon sv → Outcome sv → Type 0
  Ignored d o =
      ((o.0 ≡ []) ⊎ (o.0 ≡ error (codes "authentication failed") ∷ [])) × (o.1 ≡ false) × (o.2 ≡ d)

  refused_or_silent :
      (first second : Option DaemonRequest) (d : Daemon sv)
      → first ≢ some (authenticate d.token)
      → Ignored d (handle_connection sv now (record { first = first; second = second }) d)
  unfolding handle_connection
  refused_or_silent none second d h = (inl refl, refl, refl)
  refused_or_silent (some (authenticate token)) second d h = elim (Bool-cases (token == d.token)) [
    | inl same ↦
        absurd (h (ap (λ t. some (authenticate t)) ((text_eq.beq_iff token d.token).0 same)))
    | inr other ↦ rw other (inr refl, refl, refl)
  ]
  refused_or_silent (some (query _ _ _ _ _ _ _)) second d h = (inr refl, refl, refl)
  refused_or_silent (some status) second d h = (inr refl, refl, refl)
  refused_or_silent (some shutdown) second d h = (inr refl, refl, refl)

  -- Without the token as its first message, a connection is answered by nothing or by one error,
  -- does not stop the daemon and changes nothing in it.
  pub unauthenticated_connection :
      (c : Connection) (d : Daemon sv)
      → c.first ≢ some (authenticate d.token)
      → Ignored d (handle_connection sv now c d)
  unauthenticated_connection c d h = refused_or_silent c.first c.second d h

  stops_on :
      (request : DaemonRequest) (d : Daemon sv)
      → ((handle_request sv now request d).1 ≡ true) ↔ (request ≡ shutdown)
  unfolding handle_request
  stops_on (query p l o f n c y) d = ground arith
  stops_on status d = ground arith
  stops_on shutdown d = ground arith
  stops_on (authenticate token) d = ground arith

  second_stops :
      (second : Option DaemonRequest) (d : Daemon sv)
      → ((handle_connection sv now
            (record { first = some (authenticate d.token); second = second })
            d).1
          ≡ true)
        ↔ (second ≡ some shutdown)
  unfolding handle_connection
  second_stops none d = rw (eq_refl text_eq d.token) (ground arith)
  second_stops (some request) d = rw (eq_refl text_eq d.token) (
    λ e. ap some ((stops_on request d).0 e),
    λ e. let q : request ≡ shutdown = cc in (stops_on request d).1 q,
  )

  has_token :
      (first : Option DaemonRequest) (token : Text)
      → (first ≡ some (authenticate token)) ⊎ (first ≢ some (authenticate token))
  has_token none token = inr (λ e. cc)
  has_token (some (authenticate t)) token = elim (Bool-cases (t == token)) [
    | inl same ↦ inl (ap (λ u. some (authenticate u)) ((text_eq.beq_iff t token).0 same))
    | inr other ↦ inr (λ e. ground (arith, text_eq.beq_iff t token))
  ]
  has_token (some (query _ _ _ _ _ _ _)) token = inr (λ e. cc)
  has_token (some status) token = inr (λ e. cc)
  has_token (some shutdown) token = inr (λ e. cc)

  -- A connection stops the daemon exactly when it first sends the token and then `Shutdown`.
  pub connection_stops_iff :
      (c : Connection) (d : Daemon sv)
      → ((handle_connection sv now c d).1 ≡ true)
        ↔ ((c.first ≡ some (authenticate d.token)) × (c.second ≡ some shutdown))
  connection_stops_iff c d = elim (has_token c.first d.token) [
    | inl p ↦
        let stops =
          subst
            (λ f.
              ((handle_connection sv now (record { first = f; second = c.second }) d).1 ≡ true)
              ↔ (c.second ≡ some shutdown))
            (sym p) (second_stops c.second d) in
        (λ e. (p, stops.0 e), λ h. stops.1 h.1)
    | inr n ↦
        let (_, runs, _) = unauthenticated_connection c d n in
        (λ e. absurd (let f : false ≡ true = sym runs ∙ e in cc f), λ h. absurd (n h.0))
  ]
