-- ===== src/Lsp/Daemon/Pool.antt =====
-- The pool: which servers an eviction leaves, and what a request for a server does to it.
use mathlib.Core.Path.{subst}
use codequery.Prelude.{
  ℕ, List, [], ◌∷◌, Option, none, some, Bool, true, false, if◌then◌else◌, ◌≡◌, refl, sym, ap, ◌∙◌,
  arith, Bool-cases, inl, inr,
}
use codequery.Prelude.Dict.{
  Dict, get, remove, get-remove, DistinctKeys, remove-DistinctKeys, contains,
}
use codequery.Lsp.Daemon.{
  PoolKey, key_eq, Servers, PooledServer, Daemon, is_idle, idle_keys, remove_all,
  evict_idle_servers,
}

module _ (sv : Servers) where
  -- What an eviction keeps of an entry.
  abbrev pub unless_idle : ℕ → ℕ → Option (PooledServer sv) → Option (PooledServer sv)
  unless_idle now timeout none = none
  unless_idle now timeout (some pooled) =
      if is_idle sv now timeout pooled then none else some pooled

  pub get-remove_all :
      (keys : List PoolKey) (k : PoolKey) (pool : Dict PoolKey (PooledServer sv))
      → get k (remove_all sv keys pool) ≡ (if contains k keys then none else get k pool)
  unfolding remove_all
  get-remove_all [] k pool = refl
  get-remove_all (j ∷ keys) k pool =
      get-remove_all keys k (remove j pool)
      ∙ ground (arith, get-remove j k pool, key_eq.beq_iff j k, key_eq.beq_iff k j)

  idle_of : ℕ → ℕ → Option (PooledServer sv) → Bool
  idle_of now timeout none = false
  idle_of now timeout (some pooled) = is_idle sv now timeout pooled

  idle_cases :
      (k j : PoolKey) (pooled : PooledServer sv) (now timeout : ℕ)
      (pool : Dict PoolKey (PooledServer sv))
      → contains k (idle_keys sv now timeout pool) ≡ false
      → key_eq.beq k j ≡ true
      → contains k (idle_keys sv now timeout ((j, pooled) ∷ pool)) ≡ is_idle sv now timeout pooled
  unfolding idle_keys
  idle_cases k j pooled now timeout pool h back =
      elim (Bool-cases (is_idle sv now timeout pooled)) [
        | inl idle ↦ rw (idle, back)
        | inr busy ↦ rw busy h
      ]

  idle_other :
      (k j : PoolKey) (pooled : PooledServer sv) (now timeout : ℕ)
      (pool : Dict PoolKey (PooledServer sv))
      → key_eq.beq k j ≡ false
      → contains k (idle_keys sv now timeout ((j, pooled) ∷ pool))
        ≡ contains k (idle_keys sv now timeout pool)
  unfolding idle_keys
  idle_other k j pooled now timeout pool back = elim (Bool-cases (is_idle sv now timeout pooled)) [
    | inl idle ↦ rw (idle, back)
    | inr busy ↦ rw busy
  ]

  kept :
      (o : Option (PooledServer sv)) (now timeout : ℕ)
      → (if idle_of now timeout o then none else o) ≡ unless_idle now timeout o
  unfolding idle_of
  kept none now timeout = refl
  kept (some pooled) now timeout = refl

  contains-idle_keys :
      (now timeout : ℕ) (k : PoolKey) (pool : Dict PoolKey (PooledServer sv))
      → DistinctKeys pool
      → contains k (idle_keys sv now timeout pool) ≡ idle_of now timeout (get k pool)
  unfolding idle_keys idle_of get
  contains-idle_keys now timeout k [] h = refl
  contains-idle_keys now timeout k ((j, pooled) ∷ pool) h =
      let ih = contains-idle_keys now timeout k pool h.1 in
      elim (Bool-cases (key_eq.beq j k)) [
        | inl same ↦
            let at_k : get k pool ≡ none =
              subst (λ i. get i pool ≡ none) ((key_eq.beq_iff j k).0 same) h.0 in
            let back : key_eq.beq k j ≡ true =
              (key_eq.beq_iff k j).1 (sym ((key_eq.beq_iff j k).0 same)) in
            rw same
              (idle_cases k j pooled now timeout pool (ih ∙ ap (idle_of now timeout) at_k) back)
        | inr other ↦
            let back : key_eq.beq k j ≡ false =
              ground (arith, key_eq.beq_iff k j, key_eq.beq_iff j k) in
            rw other (idle_other k j pooled now timeout pool back ∙ ih)
      ]

  -- In a pool that binds no key twice, an eviction removes exactly the servers that have been idle
  -- for longer than the timeout; every other entry stays as it was.
  pub get-evict_idle_servers :
      (now : ℕ) (k : PoolKey) (d : Daemon sv)
      → DistinctKeys d.servers
      → get k (evict_idle_servers sv now d).servers
        ≡ unless_idle now d.idle_timeout (get k d.servers)
  unfolding evict_idle_servers
  get-evict_idle_servers now k d h =
      get-remove_all (idle_keys sv now d.idle_timeout d.servers) k d.servers
      ∙ rw (contains-idle_keys now d.idle_timeout k d.servers h)
          (kept (get k d.servers) now d.idle_timeout)

  remove_all-DistinctKeys :
      (keys : List PoolKey) (pool : Dict PoolKey (PooledServer sv))
      → DistinctKeys pool
      → DistinctKeys (remove_all sv keys pool)
  unfolding remove_all
  remove_all-DistinctKeys [] pool h = h
  remove_all-DistinctKeys (k ∷ keys) pool h =
      remove_all-DistinctKeys keys (remove k pool) (remove-DistinctKeys k pool h)

  pub evict_idle_servers-DistinctKeys :
      (now : ℕ) (d : Daemon sv)
      → DistinctKeys d.servers
      → DistinctKeys (evict_idle_servers sv now d).servers
  unfolding evict_idle_servers
  evict_idle_servers-DistinctKeys now d h =
      remove_all-DistinctKeys (idle_keys sv now d.idle_timeout d.servers) d.servers h
