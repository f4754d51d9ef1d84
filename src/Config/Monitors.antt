-- ===== src/Config/Monitors.antt =====
-- internal/config.go. The monitors of the pools, which most of the steps leave alone.
use lumine_android.Ttl.Apply.{load_ttl_rules}
use lumine_android.Prelude.{
  All, Bool-cases, Option-cases, [], codes, err, has_prefix, if◌then◌else◌, inl, inr, is_empty,
  ltb_ℤ, not, ok, pos, refl, some, true, ◌&&◌, ◌==ℤ◌, ◌∙◌, ◌≡◌,
}
use lumine_android.Config.Load.{Globals, LoadEnv, has_pool, Config, bad_ttl_rules, log_level_of}
use lumine_android.Config.Steps.{
  Loaded, bind_local, capacity, choose_exchange, make_dns_cache, make_ttl_cache, set_log_level,
  take_ttl_rules, use_doh,
}

-- Each monitor that runs is that of a pool of the globals.
pub record Owned (g : Globals) : Type 0 where
  pub owned : All (λ tag. has_pool tag g.ip_pools ≡ true) g.monitors

-- No monitor runs.
pub record IsIdle (g : Globals) : Type 0 where
  pub idle : g.monitors ≡ []

-- The monitors and the pools are as they were.
pub record SameMonitors (g : Globals) (g' : Globals) : Type 0 where
  pub monitors_kept : g'.monitors ≡ g.monitors
  pub pools_kept : g'.ip_pools ≡ g.ip_pools

pub SameMonitors-refl : (g : Globals) → SameMonitors g g
SameMonitors-refl g = record { monitors_kept = refl; pools_kept = refl }

pub SameMonitors-Owned : (g g' : Globals) → SameMonitors g g' → Owned g → Owned g'
SameMonitors-Owned g g' k o = record { owned = rw (k.monitors_kept, k.pools_kept) o.owned }

pub SameMonitors-IsIdle : (g g' : Globals) → SameMonitors g g' → IsIdle g → IsIdle g'
SameMonitors-IsIdle g g' k i = record { idle = k.monitors_kept ∙ i.idle }

module _ (env : LoadEnv) where
  pub bind_local-SameMonitors :
      (conf : Config) (g : Globals) → SameMonitors g (bind_local env conf g).1
  unfolding bind_local
  bind_local-SameMonitors conf g = elim (Bool-cases (env.set_local_addr conf.outbound_binding)) [
    | inl h ↦ rw h (record { monitors_kept = refl; pools_kept = refl })
    | inr h ↦ rw h (SameMonitors-refl g)
  ]

  pub set_log_level-SameMonitors :
      (conf : Config) (g : Globals) → SameMonitors g (set_log_level env conf g).1
  unfolding set_log_level
  set_log_level-SameMonitors conf g = elim (Bool-cases (is_empty conf.log_level)) [
    | inl h ↦ rw h (SameMonitors-refl g)
    | inr h ↦ elim (Option-cases (log_level_of conf.log_level)) [
      | inl k ↦ rw (h, k) (SameMonitors-refl g)
      | inr (level, k) ↦ rw (h, k) (record { monitors_kept = refl; pools_kept = refl })
    ]
  ]

  pub make_dns_cache-SameMonitors :
      (conf : Config) (g : Globals) → SameMonitors g (make_dns_cache env conf g).1
  unfolding make_dns_cache
  make_dns_cache-SameMonitors conf g = elim (Bool-cases (ltb_ℤ conf.dns_cache_ttl (pos 0))) [
    | inl h ↦ rw h (SameMonitors-refl g)
    | inr h ↦ elim (Bool-cases (conf.dns_cache_ttl ==ℤ pos 0)) [
      | inl k ↦ rw (h, k) (SameMonitors-refl g)
      | inr k ↦ elim (Bool-cases (ltb_ℤ conf.dns_cache_capacity (pos 1))) [
        | inl l ↦ rw (h, k, l) (SameMonitors-refl g)
        | inr l ↦ elim (Bool-cases (env.new_cache (capacity env conf.dns_cache_capacity))) [
          | inl m ↦ rw (h, k, l, m) (record { monitors_kept = refl; pools_kept = refl })
          | inr m ↦ rw (h, k, l, m) (SameMonitors-refl g)
        ]
      ]
    ]
  ]

  pub make_ttl_cache-SameMonitors :
      (conf : Config) (g : Globals) → SameMonitors g (make_ttl_cache env conf g).1
  unfolding make_ttl_cache
  make_ttl_cache-SameMonitors conf g = elim (Bool-cases (ltb_ℤ conf.ttl_cache_ttl (pos 0))) [
    | inl h ↦ rw h (SameMonitors-refl g)
    | inr h ↦ elim (Bool-cases (conf.ttl_cache_ttl ==ℤ pos 0)) [
      | inl k ↦ rw (h, k) (SameMonitors-refl g)
      | inr k ↦ elim (Bool-cases (ltb_ℤ conf.ttl_cache_capacity (pos 1))) [
        | inl l ↦ rw (h, k, l) (SameMonitors-refl g)
        | inr l ↦ elim (Bool-cases (env.new_cache (capacity env conf.ttl_cache_capacity))) [
          | inl m ↦ rw (h, k, l, m) (record { monitors_kept = refl; pools_kept = refl })
          | inr m ↦ rw (h, k, l, m) (SameMonitors-refl g)
        ]
      ]
    ]
  ]

  pub take_ttl_rules-SameMonitors :
      (conf : Config) (g : Globals) → SameMonitors g (take_ttl_rules env conf g).1
  unfolding take_ttl_rules
  take_ttl_rules-SameMonitors conf g = elim (Bool-cases (is_empty conf.fake_ttl_rules)) [
    | inl h ↦ rw h (SameMonitors-refl g)
    | inr h ↦
        rw h
          (elim (load_ttl_rules conf.fake_ttl_rules)
            as (λ r.
              SameMonitors g
                (elim r as (λ _. Loaded) [
                  | err e ↦ (err (bad_ttl_rules e), g)
                  | ok calc ↦ (
                    ok tt,
                    record g {
                      calc = some calc;
                      sem =
                          if env.is_windows && ltb_ℤ (pos 0) conf.transmit_file_limit
                          then some conf.transmit_file_limit
                          else g.sem;
                    },
                  )
                ]).1) [
                  | err e ↦ SameMonitors-refl g
                  | ok calc ↦ record { monitors_kept = refl; pools_kept = refl }
                ])
  ]

  pub use_doh-SameMonitors : (g : Globals) → SameMonitors g (use_doh env g).1
  unfolding use_doh
  use_doh-SameMonitors g = elim (Bool-cases env.has_transport) [
    | inl h ↦ rw h (record { monitors_kept = refl; pools_kept = refl })
    | inr h ↦ rw h (SameMonitors-refl g)
  ]

  pub choose_exchange-SameMonitors :
      (conf : Config) (g : Globals) → SameMonitors g (choose_exchange env conf g).1
  unfolding choose_exchange
  choose_exchange-SameMonitors conf g =
      let g' : Globals = record g { dns_addr = conf.dns_addr } in
      let doh_kept : SameMonitors g (use_doh env g').1 = record {
        monitors_kept = (use_doh-SameMonitors g').monitors_kept;
        pools_kept = (use_doh-SameMonitors g').pools_kept;
      } in
      let addr_kept : SameMonitors g g' = record { monitors_kept = refl; pools_kept = refl } in
      elim (Bool-cases (not (has_prefix conf.dns_addr (codes "https://")))) [
        | inl h ↦ rw h (record { monitors_kept = refl; pools_kept = refl })
        | inr h ↦ elim (Bool-cases (is_empty conf.doh_proxy)) [
          | inl k ↦ elim (Bool-cases (env.gen_doh_dial conf.dns_addr)) [
            | inl l ↦ rw (h, k, l) doh_kept
            | inr l ↦ rw (h, k, l) addr_kept
          ]
          | inr k ↦ elim (Bool-cases (env.socks5_dialer conf.doh_proxy)) [
            | inl l ↦ rw (h, k, l) doh_kept
            | inr l ↦ rw (h, k, l) addr_kept
          ]
        ]
      ]
