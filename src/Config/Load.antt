-- ===== src/Config/Load.antt =====
-- internal/config.go `validateConfigBasics`, `resetConfigState` and `LoadConfig` behind the JSON
-- decoder. The globals of the package are a record. Maps are lists in the order in which they are
-- gone through, and a matcher is the list of what was added to it.
use lumine_android.Dns.Mapping.{MobileDnsRecords}
use lumine_android.Policy.Types.{Policy, zero_policy}
use lumine_android.Pool.State.{Pool}
use lumine_android.Resolve.Env.{Pools}
use lumine_android.Ttl.Apply.{CalcError}
use lumine_android.Ttl.Rules.{RuleError, validate_ttl_rules}
use lumine_android.Prelude.{
  Bool, Bytes, List, Option, Result, [], bytes_eq, codes, err, false, if◌then◌else◌, is_empty,
  is_some, ltb_ℤ, none, not, ok, pos, reject, some, ℕ, ℤ, ◌&&◌, ◌==ℤ◌, ◌>>◌, ◌||◌, ◌∷◌,
}

-- `outbound_binding` is opaque.
pub record Config : Type 0 where
  pub log_level : Bytes
  pub transmit_file_limit : ℤ
  pub outbound_binding : Bytes
  pub dns_addr : Bytes
  pub udp_size : ℕ
  pub doh_proxy : Bytes
  pub fake_ttl_rules : Bytes
  pub dns_singleflight : Bool
  pub dns_cache_ttl : ℤ
  pub dns_cache_capacity : ℤ
  pub ttl_singleflight : Bool
  pub ttl_cache_ttl : ℤ
  pub ttl_cache_capacity : ℤ
  pub ip_pools : Pools
  pub hosts : List (Bytes × Bytes)
  pub default_policy : Policy
  pub domain_policies : List (Bytes × Policy)
  pub ip_policies : List (Bytes × Policy)

pub data LogLevel : Type 0 where
  log_debug log_info log_error : LogLevel

pub data Exchange : Type 0 where
  do53 : ℕ → Exchange
  doh : Exchange

pub data ConfigError : Type 0 where
  unknown_log_level invalid_dns_cache_ttl invalid_dns_cache_cap : ConfigError
  invalid_ttl_cache_ttl invalid_ttl_cache_cap : ConfigError
  bad_ttl_rules : RuleError → ConfigError
  bad_binding init_ip_pool init_dns_cache init_ttl_cache : ConfigError
  bad_doh_dial bad_doh_proxy bad_transport : ConfigError

-- `monitors` are the tags of the pools whose monitor runs; a cache is its capacity, and lifetimes
-- are in seconds. `local_addr` is what `dial.SetLocalAddr` set.
pub record Globals : Type 0 where
  pub local_addr : Bytes
  pub log_level : LogLevel
  pub default_policy : Policy
  pub ip_pools : Pools
  pub monitors : List Bytes
  pub sem : Option ℤ
  pub dns_addr : Bytes
  pub dns_exchange : Option Exchange
  pub dns_cache : Option ℕ
  pub dns_cache_ttl : ℤ
  pub dns_singleflight : Bool
  pub ttl_cache : Option ℕ
  pub ttl_cache_ttl : ℤ
  pub ttl_singleflight : Bool
  pub calc : Option (ℤ → Result CalcError ℤ)
  pub hosts : List (Bytes × Bytes)
  pub domains : List (Bytes × Policy)
  pub ips : List (Bytes × Policy)
  pub ipv6s : List (Bytes × Policy)
  pub records : MobileDnsRecords

-- What the loading calls: each says whether it succeeds, and `init_pool` is `Init`, which scans a
-- pool and starts its monitor if the scan finds an address.
pub record LoadEnv : Type 0 where
  pub set_local_addr : Bytes → Bool
  pub init_pool : Bytes → Pool → Bool × Pool
  pub new_cache : ℕ → Bool
  pub gen_doh_dial : Bytes → Bool
  pub socks5_dialer : Bytes → Bool
  pub has_transport : Bool
  pub is_windows : Bool

unfoldable pub log_level_of : Bytes → Option LogLevel
log_level_of text =
    if bytes_eq text (codes "DEBUG") || bytes_eq text (codes "debug")
    then some log_debug
    else if bytes_eq text (codes "INFO") || bytes_eq text (codes "info")
    then some log_info
    else if bytes_eq text (codes "ERROR") || bytes_eq text (codes "error")
    then some log_error
    else none

abbrev pub wrap_rules {ℓ} : {A : Type ℓ} → Result RuleError A → Result ConfigError A
wrap_rules (err e) = err (bad_ttl_rules e)
wrap_rules (ok a) = ok a

unfoldable pub validate_config_basics : Config → Result ConfigError (Unit {0})
unfolding log_level_of validate_ttl_rules reject
validate_config_basics conf =
    reject (not (is_empty conf.log_level) && not (is_some (log_level_of conf.log_level)))
      unknown_log_level
    >> reject (ltb_ℤ conf.dns_cache_ttl (pos 0)) invalid_dns_cache_ttl
    >> reject (not (conf.dns_cache_ttl ==ℤ pos 0) && ltb_ℤ conf.dns_cache_capacity (pos 1))
        invalid_dns_cache_cap
    >> reject (ltb_ℤ conf.ttl_cache_ttl (pos 0)) invalid_ttl_cache_ttl
    >> reject (not (conf.ttl_cache_ttl ==ℤ pos 0) && ltb_ℤ conf.ttl_cache_capacity (pos 1))
        invalid_ttl_cache_cap
    >> (if is_empty conf.fake_ttl_rules
        then ok tt
        else wrap_rules (validate_ttl_rules conf.fake_ttl_rules))

-- The globals behind `resetConfigState`, with the monitors that run.
abbrev pub reset_to : List Bytes → Globals
reset_to monitors = record {
  local_addr = [];
  log_level = log_info;
  default_policy = zero_policy;
  ip_pools = [];
  monitors = monitors;
  sem = none;
  dns_addr = [];
  dns_exchange = none;
  dns_cache = none;
  dns_cache_ttl = pos 0;
  dns_singleflight = false;
  ttl_cache = none;
  ttl_cache_ttl = pos 0;
  ttl_singleflight = false;
  calc = none;
  hosts = [];
  domains = [];
  ips = [];
  ipv6s = [];
  records = [];
}

unfoldable pub has_pool : Bytes → Pools → Bool
has_pool tag [] = false
has_pool tag ((t, pool) ∷ pools) = bytes_eq t tag || has_pool tag pools

-- `StopIPPoolMonitors`: the monitors of the pools end.
unfoldable pub stop_ip_pool_monitors : Pools → List Bytes → List Bytes
unfolding has_pool
stop_ip_pool_monitors pools [] = []
stop_ip_pool_monitors pools (tag ∷ tags) =
    let rest = stop_ip_pool_monitors pools tags in if has_pool tag pools then rest else tag ∷ rest

unfoldable pub stop_and_reset : Globals → Globals
unfolding stop_ip_pool_monitors
stop_and_reset g = reset_to (stop_ip_pool_monitors g.ip_pools g.monitors)
