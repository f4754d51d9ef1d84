-- ===== src/Config/Reset.antt =====
-- internal/config.go. A configuration that cannot be loaded leaves nothing behind.
use lumine_android.Prelude.{
  All, Bool, Bool-cases, Bytes, List, [], ap, bytes_eq, bytes_eq_iff, err, false, inl, inr,
  is_empty, ok, refl, some, true, ◌||◌, ◌∙◌, ◌∷◌, ◌≡◌,
}
use lumine_android.Pool.State.{Pool}
use lumine_android.Resolve.Env.{Pools}
use lumine_android.Config.Load.{
  Globals, LoadEnv, has_pool, stop_ip_pool_monitors, stop_and_reset, reset_to, Config, ConfigError,
  validate_config_basics,
}
use lumine_android.Config.Steps.{
  Loaded, and_load, set_pool, init_pools, bind_local, choose_exchange, make_dns_cache,
  make_ttl_cache, set_log_level, take_ttl_rules, fill, fill_tables, load_config, take_pools, undo,
}
use lumine_android.Config.Monitors.{
  Owned, IsIdle, SameMonitors, SameMonitors-refl, SameMonitors-Owned, SameMonitors-IsIdle,
  bind_local-SameMonitors, set_log_level-SameMonitors, make_dns_cache-SameMonitors,
  make_ttl_cache-SameMonitors, take_ttl_rules-SameMonitors, choose_exchange-SameMonitors,
}

stop-Owned :
    (pools : Pools) (tags : List Bytes)
    → All (λ tag. has_pool tag pools ≡ true) tags
    → stop_ip_pool_monitors pools tags ≡ []
unfolding stop_ip_pool_monitors
stop-Owned pools [] h = refl
stop-Owned pools (tag ∷ tags) h = rw (h.0) (stop-Owned pools tags h.1)

stop_and_reset-Owned : (g : Globals) → Owned g → stop_and_reset g ≡ reset_to []
unfolding stop_and_reset
stop_and_reset-Owned g o = ap reset_to (stop-Owned g.ip_pools g.monitors o.owned)

Owned-IsIdle : (g : Globals) → IsIdle g → Owned g
Owned-IsIdle g i = record { owned = rw i.idle tt }

and_load-keeps :
    (P Q : Globals → Type 0) (r : Loaded) (next : Globals → Loaded)
    → P r.1
    → ((g : Globals) → P g → Q g)
    → ((g : Globals) → P g → Q (next g).1)
    → Q (and_load r next).1
and_load-keeps P Q (err e, g) next p weaken k = weaken g p
and_load-keeps P Q (ok _, g) next p weaken k = k g p

or_true : (a : Bool) {b : Bool} → b ≡ true → (a || b) ≡ true
or_true true h = refl
or_true false h = h

module _ (env : LoadEnv) where
  has_pool-set_pool :
      (tag other : Bytes) (pool : Pool) (pools : Pools)
      → has_pool other (set_pool env tag pool pools) ≡ has_pool other pools
  unfolding has_pool set_pool
  has_pool-set_pool tag other pool [] = refl
  has_pool-set_pool tag other pool ((t, p) ∷ pools) = elim (Bool-cases (bytes_eq t tag)) [
    | inl h ↦ rw (h, has_pool-set_pool tag other pool pools) refl
    | inr h ↦ rw (h, has_pool-set_pool tag other pool pools) refl
  ]

  Within : Pools → Pools → Type 0
  Within some_pools pools =
      (tag : Bytes) → has_pool tag some_pools ≡ true → has_pool tag pools ≡ true

  All-set_pool :
      (tag : Bytes) (pool : Pool) (pools : Pools) (tags : List Bytes)
      → All (λ t. has_pool t pools ≡ true) tags
      → All (λ t. has_pool t (set_pool env tag pool pools) ≡ true) tags
  All-set_pool tag pool pools [] h = tt
  All-set_pool tag pool pools (t ∷ tags) h =
      (has_pool-set_pool tag t pool pools ∙ h.0, All-set_pool tag pool pools tags h.1)

  init_pools-Owned :
      (pools : Pools) (g : Globals)
      → Within pools g.ip_pools
      → Owned g
      → Owned (init_pools env pools g).1
  unfolding init_pools Within has_pool
  init_pools-Owned [] g w o = o
  init_pools-Owned ((tag, pool) ∷ pools) g w o =
      let started = env.init_pool tag pool in
      let kept = All-set_pool tag started.1 g.ip_pools g.monitors o.owned in
      let here : has_pool tag g.ip_pools ≡ true = w tag (rw ((bytes_eq_iff tag tag).1 refl) refl) in
      let same = λ (t : Bytes). has_pool-set_pool tag t started.1 g.ip_pools in
      let later =
        λ (t : Bytes) (h : has_pool t pools ≡ true). same t ∙ w t (or_true (bytes_eq tag t) h) in
      elim (Bool-cases started.0) [
        | inl h ↦ rw h (init_pools-Owned pools _ later (record { owned = (same tag ∙ here, kept) }))
        | inr h ↦ rw h (record { owned = kept })
      ]

  take_pools-Owned : (conf : Config) (g : Globals) → IsIdle g → Owned (take_pools env conf g).1
  unfolding take_pools Within
  take_pools-Owned conf g i = elim (Bool-cases (is_empty conf.ip_pools)) [
    | inl h ↦ rw h (Owned-IsIdle g i)
    | inr h ↦ rw h (
        init_pools-Owned conf.ip_pools (record g { ip_pools = conf.ip_pools }) (λ tag t. t)
          (record { owned = rw i.idle tt }))
  ]

  -- A step that leaves the monitors alone, in front of others.
  after_same :
      (r : Loaded) (g : Globals) (next : Globals → Loaded)
      → SameMonitors g r.1
      → Owned g
      → ((g' : Globals) → Owned g' → Owned (next g').1)
      → Owned (and_load r next).1
  after_same r g next k o f =
      and_load-keeps Owned Owned r next (SameMonitors-Owned g r.1 k o) (λ _ o. o) f

  idle_same :
      (r : Loaded) (g : Globals) (next : Globals → Loaded)
      → SameMonitors g r.1
      → IsIdle g
      → ((g' : Globals) → IsIdle g' → Owned (next g').1)
      → Owned (and_load r next).1
  idle_same r g next k i f =
      and_load-keeps IsIdle Owned r next (SameMonitors-IsIdle g r.1 k i) Owned-IsIdle f

  tables_same : (conf : Config) (g : Globals) → SameMonitors g (fill_tables env conf g).1
  unfolding fill_tables
  tables_same conf g = record { monitors_kept = refl; pools_kept = refl }

  fill-Owned : (conf : Config) (g : Globals) → IsIdle g → Owned (fill env conf g).1
  unfolding fill
  fill-Owned conf g i =
      idle_same (validate_config_basics conf, g) g _ (SameMonitors-refl g) i
        λ g i. idle_same (bind_local env conf g) g _ (bind_local-SameMonitors env conf g) i λ g i.
          idle_same (set_log_level env conf g) g _ (set_log_level-SameMonitors env conf g) i λ g i.
            and_load-keeps Owned Owned (take_pools env conf g) _ (take_pools-Owned conf g i)
              (λ _ o. o)
              λ g o.
                let g' : Globals = record g {
                  dns_singleflight = conf.dns_singleflight;
                  ttl_singleflight = conf.ttl_singleflight;
                } in
                let o' : Owned g' = record { owned = o.owned } in
                after_same (make_dns_cache env conf g') g' _
                  (make_dns_cache-SameMonitors env conf g') o'
                  λ g o.
                    after_same (make_ttl_cache env conf g) g _
                      (make_ttl_cache-SameMonitors env conf g) o
                      λ g o.
                        after_same (take_ttl_rules env conf g) g _
                          (take_ttl_rules-SameMonitors env conf g) o
                          λ g o.
                            after_same (fill_tables env conf g) g (choose_exchange env conf)
                              (tables_same conf g) o
                              λ g o.
                                SameMonitors-Owned g (choose_exchange env conf g).1
                                  (choose_exchange-SameMonitors env conf g) o

  -- What a loading leaves: on an error the globals as they are reset, without any monitor; else only
  -- monitors of the pools that were loaded.
  pub data LoadEnd : Loaded → Type 0 where
    reset : (e : ConfigError) → LoadEnd (err e, reset_to [])
    loaded : (g : Globals) → Owned g → LoadEnd (ok tt, g)

  undo-LoadEnd : (r : Loaded) → Owned r.1 → LoadEnd (undo env r)
  unfolding undo
  undo-LoadEnd (err e, g) o = rw (stop_and_reset-Owned g o) (reset e)
  undo-LoadEnd (ok _, g) o = loaded g o

  -- From globals whose running monitors are those of their pools, a decoded configuration is loaded
  -- with the same true of the new globals, or, whatever step fails, all the globals are as they are
  -- reset and no monitor runs.
  pub load_config-LoadEnd :
      (conf : Config) (g : Globals)
      → Owned g
      → (r : Loaded) × (load_config env (some conf) g ≡ some r) × LoadEnd r
  unfolding load_config
  load_config-LoadEnd conf g o =
      let start = stop_and_reset g in
      let idle : IsIdle start = rw (stop_and_reset-Owned g o) (record { idle = refl }) in
      (
        undo env (fill env conf start),
        refl,
        undo-LoadEnd (fill env conf start) (fill-Owned conf start idle),
      )
