-- ===== src/Pool/Config.antt =====
-- internal/ippool.go `parseIPList` and `(*IPPool).UnmarshalJSON`, behind the decoding of the JSON
-- object into `tmp`. Addresses and prefixes of net/netip, `net.LookupIP` and `time.ParseDuration`
-- are parameters.
use lumine_android.Prelude.{
  Bool, Bytes, List, Option, Result, [], err, if◌then◌else◌, is_empty, leb, leb_ℤ, length, ltb,
  ltb_ℤ, min, negsuc, none, ok, pos, pos_part, reject, replicate, some, suc, zero, ℕ, ℤ, ◌*◌, ◌++◌,
  ◌==◌, ◌>>=◌, ◌>>◌, ◌||◌, ◌∷◌,
}
use lumine_android.Pool.State.{Pool}
use lumine_android.Pool.Patterns.{expand_pattern}

abbrev pub max_ip_pool_size : ℕ
max_ip_pool_size = 1000

-- `no_fuel` is a loop cut off, which does not happen.
pub data PoolError : Type 0 where
  too_many no_ips too_few_ips invalid_port invalid_max_concurrency : PoolError
  invalid_top_ip_count invalid_attempts invalid_timeout invalid_update_interval : PoolError
  lookup_failed : Bytes → PoolError
  no_fuel : PoolError

-- What the source takes from net/netip and net. The prefix is its first address and the test for
-- the addresses in it.
pub record Addresses : Type 1 where
  pub Addr : Type 0
  pub parse_addr : Bytes → Bool
  pub parse_prefix : Bytes → Option (Addr × (Addr → Bool))
  pub next_addr : Addr → Option Addr
  pub addr_string : Addr → Bytes
  pub lookup_ip : Bytes → Option (List Bytes)

unfoldable pub add_ip : Bytes → List Bytes → Result PoolError (List Bytes)
add_ip s ips = if leb max_ip_pool_size (length ips) then err too_many else ok (ips ++ s ∷ [])

-- The addresses of a host name, in the order of the answer.
unfoldable pub add_found : List Bytes → List Bytes → Result PoolError (List Bytes)
unfolding add_ip
add_found [] ips = ok ips
add_found (s ∷ ss) ips = add_ip s ips >>= add_found ss

module _ (net : Addresses) where
  -- The loop over a prefix, from `addr` on.
  unfoldable pub add_prefix :
      ℕ → (net.Addr → Bool) → net.Addr → List Bytes → Result PoolError (List Bytes)
  unfolding add_ip
  add_prefix zero contains addr ips = err no_fuel
  add_prefix (suc fuel) contains addr ips = add_ip (net.addr_string addr) ips >>= (λ more.
      elim (net.next_addr addr) [
        | none ↦ ok more
        | some next ↦
            let rest = add_prefix fuel contains next more in if contains next then rest else ok more
      ])

  -- One text of an expanded pattern.
  unfoldable pub add_source : Bytes → List Bytes → Result PoolError (List Bytes)
  unfolding add_ip add_prefix add_found
  add_source s ips =
      if leb max_ip_pool_size (length ips)
      then err too_many
      else if net.parse_addr s
      then ok (ips ++ s ∷ [])
      else elim (net.parse_prefix s) [
        | some (addr, contains) ↦
            if contains addr then add_prefix (suc max_ip_pool_size) contains addr ips else ok ips
        | none ↦ elim (net.lookup_ip s) [
          | none ↦ err (lookup_failed s)
          | some found ↦ add_found found ips
        ]
      ]

  unfoldable pub add_sources : List Bytes → List Bytes → Result PoolError (List Bytes)
  unfolding add_source
  add_sources [] ips = ok ips
  add_sources (s ∷ ss) ips = add_source s ips >>= add_sources ss

  unfoldable pub add_patterns : List Bytes → List Bytes → Result PoolError (List Bytes)
  unfolding add_sources expand_pattern
  add_patterns [] ips = ok ips
  add_patterns (p ∷ ps) ips = elim (expand_pattern (suc (length p)) p) [
    | none ↦ err no_fuel
    | some texts ↦ add_sources texts ips >>= add_patterns ps
  ]

  unfoldable pub parse_ip_list : List Bytes → Result PoolError (List Bytes)
  unfolding add_patterns
  parse_ip_list sources = add_patterns sources []

-- The fields of `tmp`; a missing member is empty or 0.
pub record RawPool : Type 0 where
  pub ips : List Bytes
  pub port : ℤ
  pub top_ip_count : ℤ
  pub max_concurrency : ℤ
  pub timeout : Bytes
  pub update_interval : Bytes
  pub attempts : ℤ

-- A number that 0 leaves at a default, within 1 and `high`.
unfoldable pub count_or : ℕ → ℕ → PoolError → ℤ → Result PoolError ℕ
count_or default high e (pos n) = if n == 0 then ok default else if ltb high n then err e else ok n
count_or default high e (negsuc n) = err e

-- A duration that the empty text leaves at a default.
unfoldable pub duration_or : (Bytes → Option ℤ) → ℤ → PoolError → Bytes → Result PoolError ℤ
duration_or parse default e s =
    if is_empty s
    then ok default
    else elim (parse s) [ none ↦ err e | some d ↦ if leb_ℤ d (pos 0) then err e else ok d ]

abbrev pub nanoseconds_per_second : ℕ
nanoseconds_per_second = 1000000000

-- The pool with empty tables; the semaphore is left out, its size is only tested.
unfoldable pub make_pool : List Bytes → ℤ → ℕ → ℕ → ℤ → ℤ → Pool
make_pool ips port top attempts timeout interval = record {
  ips = ips;
  port = pos_part port;
  top_ip_count = top;
  attempts = attempts;
  timeout = timeout;
  update_interval = interval;
  best_indexes = replicate top 0;
  best_weights = replicate top 0;
  total_weight = 0;
  cur_valid_ips = 0;
  counter = 0;
}

unfoldable pub unmarshal_pool : Addresses → (Bytes → Option ℤ) → RawPool → Result PoolError Pool
unfolding parse_ip_list count_or duration_or make_pool
unmarshal_pool net parse_duration raw = do
  ips ← parse_ip_list net raw.ips
  reject (is_empty ips) no_ips
  reject (ltb max_ip_pool_size (length ips)) too_many
  reject (ltb_ℤ (pos (length ips)) raw.top_ip_count) too_few_ips
  reject (leb_ℤ raw.port (pos 0) || ltb_ℤ (pos 65535) raw.port) invalid_port
  reject (ltb_ℤ raw.max_concurrency (pos 0)) invalid_max_concurrency
  top ← count_or 3 (min 255 (length ips)) invalid_top_ip_count raw.top_ip_count
  attempts ← count_or 4 255 invalid_attempts raw.attempts
  timeout ← duration_or parse_duration (pos nanoseconds_per_second) invalid_timeout raw.timeout
  interval ←
      duration_or parse_duration (pos (1800 * nanoseconds_per_second)) invalid_update_interval
        raw.update_interval
  ok (make_pool ips raw.port top attempts timeout interval)
