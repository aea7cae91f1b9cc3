-- ===== src/Lsp/Daemon/Shutdown.antt =====
-- When the accept loop returns, no language server is left in the pool.
use codequery.Prelude.{
  List, [], ◌∷◌, none, true, if◌then◌else◌, ◌≡◌, refl, ◌∙◌, arith, Bool-cases, inl, inr,
}
use codequery.Prelude.Dict.{Dict, get, contains}
use codequery.Lsp.Daemon.{
  PoolKey, key_eq, Servers, PooledServer, Daemon, keys_of, shutdown_all_servers,
}
use codequery.Lsp.Daemon.Pool.{get-remove_all}
use codequery.Lsp.Daemon.Requests.{Round, accept_loop, run}

module _ (sv : Servers) where
  keys_of-all :
      (k : PoolKey) (pool : Dict PoolKey (PooledServer sv))
      → (if contains k (keys_of sv pool) then none else get k pool) ≡ none
  unfolding keys_of get
  keys_of-all k [] = refl
  keys_of-all k ((j, p) ∷ pool) =
      ground (arith, keys_of-all k pool, key_eq.beq_iff k j, key_eq.beq_iff j k)

  get-shutdown_all_servers :
      (k : PoolKey) (d : Daemon sv) → get k (shutdown_all_servers sv d).servers ≡ none
  unfolding shutdown_all_servers
  get-shutdown_all_servers k d =
      get-remove_all sv (keys_of sv d.servers) k d.servers ∙ keys_of-all k d.servers

  -- Whatever happened while the daemon ran, by a signal or by a request: once `run` has returned,
  -- no key has a server any more.
  pub run-empties :
      (rounds : List Round) (d : Daemon sv) (k : PoolKey)
      → (run sv rounds d).0 ≡ true
      → get k (run sv rounds d).1.servers ≡ none
  unfolding run
  run-empties rounds d k h = elim (Bool-cases (accept_loop sv rounds d).0) [
    | inl stopped ↦ rw stopped (get-shutdown_all_servers k (accept_loop sv rounds d).1)
    | inr runs ↦ cc (rw runs at h)
  ]
