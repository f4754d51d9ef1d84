-- ===== src/Config/Steps.antt =====
-- internal/config.go `LoadConfig` behind the JSON decoder: the steps that fill the globals.
use lumine_android.Policy.Merge.{normalize_policy_defaults}
use lumine_android.Pool.Patterns.{expand_pattern}
use lumine_android.Pool.State.{Pool}
use lumine_android.Resolve.Env.{Pools}
use lumine_android.Resolve.Redirect.{is_ipv6}
use lumine_android.Ttl.Apply.{load_ttl_rules}
use lumine_android.Config.Load.{
  Config, ConfigError, Globals, LoadEnv, bad_binding, bad_doh_dial, bad_doh_proxy, bad_transport,
  bad_ttl_rules, do53, doh, init_dns_cache, init_ip_pool, init_ttl_cache, invalid_dns_cache_cap,
  invalid_dns_cache_ttl, invalid_ttl_cache_cap, invalid_ttl_cache_ttl, log_level_of, stop_and_reset,
  unknown_log_level, validate_config_basics,
}
use lumine_android.Prelude.{
  Bool, Bytes, List, Option, Result, [], bytes_eq, codes, err, has_prefix, if◌then◌else◌, is_empty,
  length, ltb_ℤ, map, none, not, ok, pos, pos_part, some, suc, ℕ, ℤ, ◌%◌, ◌&&◌, ◌++◌, ◌==ℤ◌, ◌==◌,
  ◌^◌, ◌∷◌,
}

-- A step fails or not, and changes the globals.
abbrev pub Loaded : Type 0
Loaded = Result ConfigError (Unit {0}) × Globals

abbrev pub and_load : Loaded → (Globals → Loaded) → Loaded
and_load (err e, g) next = (err e, g)
and_load (ok _, g) next = next g

-- `strings.SplitSeq(patterns, ";")`
abbrev pub split_patterns : Bytes → List Bytes
split_patterns [] = [] ∷ []
split_patterns (c ∷ cs) =
    let rest = split_patterns cs in
    if c == b';' then [] ∷ rest else elim rest [ [] ↦ (c ∷ []) ∷ [] | p ∷ ps ↦ (c ∷ p) ∷ ps ]

-- The patterns of a text, each part expanded; the fuel is enough for any part.
unfoldable pub all_patterns : List Bytes → List Bytes
unfolding expand_pattern
all_patterns [] = []
all_patterns (p ∷ ps) =
    (elim (expand_pattern (suc (length p)) p) [ none ↦ [] | some found ↦ found ]) ++ all_patterns ps

-- One entry of a table for each pattern.
unfoldable pub entries {ℓ} : {A : Type ℓ} → List (Bytes × A) → List (Bytes × A)
unfolding all_patterns
entries [] = []
entries ((text, a) ∷ rest) =
    map (λ pattern_. (pattern_, a)) (all_patterns (split_patterns text)) ++ entries rest

unfoldable pub only {ℓ} : {A : Type ℓ} → (Bytes → Bool) → List (Bytes × A) → List (Bytes × A)
only test [] = []
only test ((k, a) ∷ rest) =
    let others = only test rest in if test k then (k, a) ∷ others else others

module _ (env : LoadEnv) where
  -- `Init` of each pool: the first that fails ends the loading. The pools are those of the globals,
  -- scanned in place.
  unfoldable pub set_pool : Bytes → Pool → Pools → Pools
  set_pool tag pool [] = []
  set_pool tag pool ((t, p) ∷ pools) =
      let rest = set_pool tag pool pools in
      if bytes_eq t tag then (t, pool) ∷ rest else (t, p) ∷ rest

  unfoldable pub init_pools : Pools → Globals → Loaded
  unfolding set_pool
  init_pools [] g = (ok tt, g)
  init_pools ((tag, pool) ∷ pools) g =
      let started = env.init_pool tag pool in
      let g' : Globals = record g { ip_pools = set_pool tag started.1 g.ip_pools } in
      if started.0
      then init_pools pools (record g' { monitors = tag ∷ g.monitors })
      else (err init_ip_pool, g')

  unfoldable pub bind_local : Config → Globals → Loaded
  bind_local conf g =
      if env.set_local_addr conf.outbound_binding
      then (ok tt, record g { local_addr = conf.outbound_binding })
      else (err bad_binding, g)

  unfoldable pub set_log_level : Config → Globals → Loaded
  unfolding log_level_of
  set_log_level conf g =
      if is_empty conf.log_level then (ok tt, g) else elim (log_level_of conf.log_level) [
        | none ↦ (err unknown_log_level, g)
        | some level ↦ (ok tt, record g { log_level = level })
      ]

  unfoldable pub take_pools : Config → Globals → Loaded
  unfolding init_pools
  take_pools conf g =
      if is_empty conf.ip_pools
      then (ok tt, g)
      else init_pools conf.ip_pools (record g { ip_pools = conf.ip_pools })

  -- `uint32` of a capacity of 1 or more.
  abbrev pub capacity : ℤ → ℕ
  capacity n = pos_part n % 2 ^ 32

  unfoldable pub make_dns_cache : Config → Globals → Loaded
  make_dns_cache conf g =
      if ltb_ℤ conf.dns_cache_ttl (pos 0)
      then (err invalid_dns_cache_ttl, g)
      else if conf.dns_cache_ttl ==ℤ pos 0
      then (ok tt, g)
      else if ltb_ℤ conf.dns_cache_capacity (pos 1)
      then (err invalid_dns_cache_cap, g)
      else let n = capacity conf.dns_cache_capacity in
        if env.new_cache n
        then (ok tt, record g { dns_cache = some n; dns_cache_ttl = conf.dns_cache_ttl })
        else (err init_dns_cache, g)

  unfoldable pub make_ttl_cache : Config → Globals → Loaded
  make_ttl_cache conf g =
      if ltb_ℤ conf.ttl_cache_ttl (pos 0)
      then (err invalid_ttl_cache_ttl, g)
      else if conf.ttl_cache_ttl ==ℤ pos 0
      then (ok tt, g)
      else if ltb_ℤ conf.ttl_cache_capacity (pos 1)
      then (err invalid_ttl_cache_cap, g)
      else let n = capacity conf.ttl_cache_capacity in
        if env.new_cache n
        then (ok tt, record g { ttl_cache = some n; ttl_cache_ttl = conf.ttl_cache_ttl })
        else (err init_ttl_cache, g)

  unfoldable pub take_ttl_rules : Config → Globals → Loaded
  unfolding load_ttl_rules
  take_ttl_rules conf g =
      if is_empty conf.fake_ttl_rules
      then (ok tt, g)
      else elim (load_ttl_rules conf.fake_ttl_rules) [
        | err e ↦ (err (bad_ttl_rules e), g)
        | ok calc ↦ (
          ok tt,
          record g {
            calc = some calc;
            sem =
                if env.is_windows && ltb_ℤ (pos 0) conf.transmit_file_limit
                then some conf.transmit_file_limit
                else g.sem;
          },
        )
      ]

  -- The default policy and the tables of hosts and policies.
  unfoldable pub fill_tables : Config → Globals → Loaded
  unfolding entries only normalize_policy_defaults
  fill_tables conf g = (
    ok tt,
    record g {
      default_policy = normalize_policy_defaults conf.default_policy;
      hosts = entries conf.hosts;
      domains = entries conf.domain_policies;
      ips = only (λ k. not (is_ipv6 k)) (entries conf.ip_policies);
      ipv6s = only is_ipv6 (entries conf.ip_policies);
    },
  )

  unfoldable pub use_doh : Globals → Loaded
  use_doh g =
      if env.has_transport
      then (ok tt, record g { dns_exchange = some doh })
      else (err bad_transport, g)

  unfoldable pub choose_exchange : Config → Globals → Loaded
  unfolding use_doh
  choose_exchange conf g =
      let g' : Globals = record g { dns_addr = conf.dns_addr } in
      if not (has_prefix conf.dns_addr (codes "https://"))
      then (ok tt, record g' { dns_exchange = some (do53 conf.udp_size) })
      else if is_empty conf.doh_proxy
      then (if env.gen_doh_dial conf.dns_addr then use_doh g' else (err bad_doh_dial, g'))
      else if env.socks5_dialer conf.doh_proxy
      then use_doh g'
      else (err bad_doh_proxy, g')

  -- Singleflight is a flag here; `dohConnPolicy`, which `genDoHDialFunc` sets, is left out.
  unfoldable pub fill : Config → Globals → Loaded
  unfolding bind_local set_log_level take_pools make_dns_cache make_ttl_cache take_ttl_rules
      fill_tables choose_exchange validate_config_basics
  fill conf g =
      and_load (validate_config_basics conf, g)
        λ g. and_load (bind_local conf g) λ g. and_load (set_log_level conf g) λ g.
          and_load (take_pools conf g) λ g.
            let g' : Globals = record g {
              dns_singleflight = conf.dns_singleflight;
              ttl_singleflight = conf.ttl_singleflight;
            } in
            and_load (make_dns_cache conf g') λ g. and_load (make_ttl_cache conf g) λ g.
              and_load (take_ttl_rules conf g)
                λ g. and_load (fill_tables conf g) (choose_exchange conf)

  -- The `defer` resets the globals behind an error.
  unfoldable pub undo : Loaded → Loaded
  unfolding stop_and_reset
  undo (err e, g) = (err e, stop_and_reset g)
  undo (ok _, g) = (ok tt, g)

  -- `none` is a file that cannot be opened or decoded.
  unfoldable pub load_config : Option Config → Globals → Option Loaded
  unfolding undo fill stop_and_reset
  load_config none g = none
  load_config (some conf) g = some (undo (fill conf (stop_and_reset g)))
