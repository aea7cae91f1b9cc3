-- ===== src/Lsp/Daemon/Lending.antt =====
-- What a request for a server does to the pool, and the shutdown of the whole pool.
use codequery.Prelude.{
  ℕ, Option, none, some, Text, ◌==◌, if◌then◌else◌, ◌≡◌, ◌≢◌, refl, ◌∙◌, arith, Bool-cases, inl,
  inr, eq_refl,
}
use codequery.Prelude.Dict.{
  get, insert, remove, get-insert, get-remove, DistinctKeys, insert-DistinctKeys,
  remove-DistinctKeys,
}
use codequery.Core.Language.{Language}
use codequery.Lsp.Types.{Result, ok, err}
use codequery.Lsp.Daemon.{
  PoolKey, key_eq, pool_key, Servers, PooledServer, Daemon, start_new, start_with, pooled_or_new,
  get_or_start_server, touch,
}

module _ (sv : Servers) (now : ℕ) where
  open sv use {LspServer, Config, config_for, start, is_ready}

  -- The pool entry for a key after a request for its server: the lent server, used now, or nothing
  -- where the request failed.
  abbrev pub Lent : Result LspServer → Option (PooledServer sv) → Type 0
  Lent (err e) entry = entry ≡ none
  Lent (ok server) entry =
      (p : PooledServer sv) × (entry ≡ some p) × (p.server ≡ server) × (p.last_used ≡ now)

  -- What a step leaves as it was.
  record Frame (key : PoolKey) (d d' : Daemon sv) : Type 0 where
    others : (k : PoolKey) → key ≢ k → get k d'.servers ≡ get k d.servers
    distinct : DistinctKeys d.servers → DistinctKeys d'.servers
    token : d'.token ≡ d.token
    timeout : d'.idle_timeout ≡ d.idle_timeout

  insert-Frame :
      (key : PoolKey) (p : PooledServer sv) (d : Daemon sv)
      → Frame key d (record d { servers = insert key p d.servers })
  insert-Frame key p d = record {
    others = λ k h. get-insert key k p d.servers ∙ ground (arith, key_eq.beq_iff key k, h);
    distinct = insert-DistinctKeys key p d.servers;
    token = refl;
    timeout = refl;
  }

  remove-Frame :
      (key : PoolKey) (d : Daemon sv) → Frame key d (record d { servers = remove key d.servers })
  remove-Frame key d = record {
    others = λ k h. get-remove key k d.servers ∙ ground (arith, key_eq.beq_iff key k, h);
    distinct = remove-DistinctKeys key d.servers;
    token = refl;
    timeout = refl;
  }

  Frame-trans : {key : PoolKey} {a b c : Daemon sv} → Frame key a b → Frame key b c → Frame key a c
  Frame-trans f g = record {
    others = λ k h. g.others k h ∙ f.others k h;
    distinct = λ h. g.distinct (f.distinct h);
    token = g.token ∙ f.token;
    timeout = g.timeout ∙ f.timeout;
  }

  Frame-refl : (key : PoolKey) (d : Daemon sv) → Frame key d d
  Frame-refl key d = record {
    others = λ k h. refl;
    distinct = λ h. h;
    token = refl;
    timeout = refl;
  }

  get-insert_self :
      (key : PoolKey) (p : PooledServer sv) (d : Daemon sv)
      → get key (insert key p d.servers) ≡ some p
  get-insert_self key p d = get-insert key key p d.servers ∙ rw (eq_refl key_eq key)

  -- The outcome of a request: the entry under the key, and the frame.
  abbrev Served : PoolKey → Daemon sv → Result LspServer × Daemon sv → Type 0
  Served key d r = Lent r.0 (get key r.1.servers) × Frame key d r.1

  start_with-Served :
      (project : Text) (key : PoolKey) (c : Option Config) (d : Daemon sv)
      → get key d.servers ≡ none
      → Served key d (start_with sv now project key c d)
  unfolding start_with
  start_with-Served project key none d h = (h, Frame-refl key d)
  start_with-Served project key (some config) d h = started (start config project)
    where
      started :
          (r : Result LspServer)
          → Served key d (elim r [
            | err e ↦ (err e, d)
            | ok server ↦ (
              ok server,
              record d {
                servers =
                    insert key
                      (record {
                        project = project;
                        server = server;
                        last_used = now;
                        started = now;
                      })
                      d.servers;
              },
            )
          ])
      started (err e) = (h, Frame-refl key d)
      started (ok server) = ((_, get-insert_self key _ d, refl, refl), insert-Frame key _ d)

  pooled_or_new-Served :
      (project : Text) (key : PoolKey) (o : Option (PooledServer sv)) (d : Daemon sv)
      → get key d.servers ≡ o
      → Served key d (pooled_or_new sv now project key o d)
  unfolding pooled_or_new start_new touch
  pooled_or_new-Served project key none d h = start_with-Served project key (config_for key.1) d h
  pooled_or_new-Served project key (some pooled) d h = elim (Bool-cases (is_ready pooled.server)) [
    | inl ready ↦ rw ready ((_, get-insert_self key _ d, refl, refl), insert-Frame key _ d)
    | inr dead ↦
        let d' : Daemon sv = record d { servers = remove key d.servers } in
        let gone : get key d'.servers ≡ none =
          get-remove key key d.servers ∙ rw (eq_refl key_eq key) in
        let served = start_with-Served project key (config_for key.1) d' gone in
        rw dead (served.0, Frame-trans (remove-Frame key d) served.1)
  ]

  pub get_or_start_server-token :
      (project : Text) (language : Language) (d : Daemon sv)
      → (get_or_start_server sv now project language d).1.token ≡ d.token
  unfolding get_or_start_server
  get_or_start_server-token project language d =
      (pooled_or_new-Served project (pool_key project language)
        (get (pool_key project language) d.servers) d refl).1.token

  -- The pool and the daemon after a request for the server of `key`.
  pub record Lends (key : PoolKey) (d : Daemon sv) (r : Result LspServer × Daemon sv) : Type 0 where
    pub lent : Lent r.0 (get key r.1.servers)
    pub others :
        (k : PoolKey)
        → get k r.1.servers ≡ (if key == k then get key r.1.servers else get k d.servers)
    pub distinct : DistinctKeys r.1.servers
    pub token : r.1.token ≡ d.token
    pub timeout : r.1.idle_timeout ≡ d.idle_timeout

  -- In a pool that binds no key twice, a request for a server either lends the server that then
  -- stands in the pool, marked as used now, or fails and leaves no server under its key. Servers
  -- under other keys, the token and the timeout stay as they were, and no key is bound twice.
  pub get_or_start_server-Lends :
      (project : Text) (language : Language) (d : Daemon sv)
      → DistinctKeys d.servers
      → Lends (pool_key project language) d (get_or_start_server sv now project language d)
  unfolding get_or_start_server
  get_or_start_server-Lends project language d h =
      let key : PoolKey = pool_key project language in
      let (lent, frame) = pooled_or_new-Served project key (get key d.servers) d refl in
      record {
        lent = lent;
        others = λ k. elim (Bool-cases (key_eq.beq key k)) [
          | inl same ↦ rw (same, (key_eq.beq_iff key k).0 same)
          | inr other ↦ rw other (frame.others k (λ p. ground (arith, key_eq.beq_iff key k)))
        ];
        distinct = frame.distinct h;
        token = frame.token;
        timeout = frame.timeout;
      }
