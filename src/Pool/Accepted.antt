-- ===== src/Pool/Accepted.antt =====
-- internal/ippool.go. What a pool that the configuration is accepted with satisfies.
use lumine_android.Pool.Sources.{Fits, parse_ip_list-Fits, refused, within}
use lumine_android.Pool.Config.{
  Addresses, PoolError, RawPool, count_or, duration_or, invalid_attempts, invalid_timeout,
  invalid_top_ip_count, invalid_update_interval, make_pool, max_ip_pool_size,
  nanoseconds_per_second, parse_ip_list, unmarshal_pool,
}
use lumine_android.Prelude.{
  Bool-cases, Bytes, Holds, Holds-bind, Holds-reject, List, Option, Option-cases, Result, [], arith,
  fails, false, holds, inl, inr, is_empty, leb-false, leb_ℤ, length, length-replicate, ltb, ltb_ℤ,
  min, neg_part, negsuc, pos, pos_part, refl, ℕ, ℤ, ◌*◌, ◌+◌, ◌<ℤ◌, ◌==◌, ◌||◌, ◌∷◌, ◌≡◌, ◌≤◌,
}
use lumine_android.Pool.State.{IsValid, Pool}

Fits→Holds :
    (r : Result PoolError (List Bytes)) → Fits r → Holds (λ ips. length ips ≤ max_ip_pool_size) r
Fits→Holds _ (within h) = holds h
Fits→Holds _ (refused ne) = fails

abbrev CountIn : ℕ → Type 0
CountIn n = (1 ≤ n) × (n ≤ 255)

count_or-CountIn :
    (default high : ℕ) (e : PoolError) (raw : ℤ)
    → CountIn default
    → high ≤ 255
    → Holds CountIn (count_or default high e raw)
unfolding count_or
count_or-CountIn default high e (negsuc n) h k = fails
count_or-CountIn default high e (pos n) h k = elim (Bool-cases (n == 0)) [
  | inl z ↦ rw z (holds h)
  | inr z ↦ elim (Bool-cases (ltb high n)) [
    | inl b ↦ rw (z, b) fails
    | inr b ↦ rw (z, b) (holds (ground arith, ground arith))
  ]
]

duration_or-positive :
    (parse : Bytes → Option ℤ) (default : ℤ) (e : PoolError) (s : Bytes)
    → pos 0 <ℤ default
    → Holds (λ d. pos 0 <ℤ d) (duration_or parse default e s)
unfolding duration_or
duration_or-positive parse default e s h = elim (Bool-cases (is_empty s)) [
  | inl z ↦ rw z (holds h)
  | inr z ↦ elim (Option-cases (parse s)) [
    | inl n ↦ rw (z, n) fails
    | inr (d, n) ↦ elim (Bool-cases (leb_ℤ d (pos 0))) [
      | inl b ↦ rw (z, n, b) fails
      | inr b ↦ rw (z, n, b) (holds (leb-false (pos_part d + 0) (0 + neg_part d) b))
    ]
  ]
]

-- A pool in its first state: the invariant of the tables, and every number within its bounds.
pub record IsAccepted (p : Pool) : Type 0 where
  pub valid : IsValid p
  pub has_ips : 1 ≤ length p.ips
  pub ips_le : length p.ips ≤ max_ip_pool_size
  pub port_in : (1 ≤ p.port) × (p.port ≤ 65535)
  pub top_in : CountIn p.top_ip_count
  pub attempts_in : CountIn p.attempts
  pub timeout_positive : pos 0 <ℤ p.timeout
  pub interval_positive : pos 0 <ℤ p.update_interval

make_pool-IsAccepted :
    (ips : List Bytes) (port : ℤ) (top attempts : ℕ) (timeout interval : ℤ)
    → is_empty ips ≡ false
    → length ips ≤ max_ip_pool_size
    → (leb_ℤ port (pos 0) || ltb_ℤ (pos 65535) port) ≡ false
    → CountIn top
    → CountIn attempts
    → pos 0 <ℤ timeout
    → pos 0 <ℤ interval
    → IsAccepted (make_pool ips port top attempts timeout interval)
unfolding make_pool
make_pool-IsAccepted [] port top attempts timeout interval ne le port_ok t a d i = cc
make_pool-IsAccepted (x ∷ xs) (negsuc n) top attempts timeout interval ne le port_ok t a d i =
    let no : ⊥ = ground arith in elim no [ ]
make_pool-IsAccepted (x ∷ xs) (pos n) top attempts timeout interval ne le port_ok t a d i = record {
  valid = record {
    indexes_length = length-replicate top 0;
    weights_length = length-replicate top 0;
    valid_le = omega arith;
    total_is = refl;
    weights_pos = tt;
    indexes_in = tt;
  };
  has_ips = omega arith;
  ips_le = le;
  port_in = (ground arith, ground arith);
  top_in = t;
  attempts_in = a;
  timeout_positive = d;
  interval_positive = i;
}

-- A pool that is accepted satisfies the invariant of the pools before its first scan, has between 1
-- and 1000 addresses, a port between 1 and 65535, between 1 and 255 best addresses and attempts,
-- and a positive timeout and interval, whatever the network answers.
pub unmarshal_pool-IsAccepted :
    (net : Addresses) (parse_duration : Bytes → Option ℤ) (raw : RawPool)
    → Holds IsAccepted (unmarshal_pool net parse_duration raw)
unfolding unmarshal_pool
unmarshal_pool-IsAccepted net parse_duration raw =
    Holds-bind _ _ (parse_ip_list net raw.ips) _
      (Fits→Holds (parse_ip_list net raw.ips) (parse_ip_list-Fits net raw.ips))
      (λ ips le. Holds-reject _ _ _ _ (λ some_ips. Holds-reject _ _ _ _ (λ fits.
        Holds-reject _ _ _ _ (λ enough. Holds-reject _ _ _ _ (λ port_ok.
          Holds-reject _ _ _ _ (λ concurrency.
            Holds-bind _ _ _ _
              (count_or-CountIn 3 (min 255 (length ips)) invalid_top_ip_count raw.top_ip_count
                (omega arith, omega arith) (omega arith))
              (λ top t.
                Holds-bind _ _ _ _
                  (count_or-CountIn 4 255 invalid_attempts raw.attempts (omega arith, omega arith)
                    (omega arith))
                  (λ attempts a.
                    Holds-bind _ _ _ _
                      (duration_or-positive parse_duration (pos nanoseconds_per_second)
                        invalid_timeout raw.timeout (omega arith))
                      (λ timeout d.
                        Holds-bind _ _ _ _
                          (duration_or-positive parse_duration (pos (1800 * nanoseconds_per_second))
                            invalid_update_interval raw.update_interval (omega arith))
                          (λ interval i. holds (
                            make_pool-IsAccepted ips raw.port top attempts timeout interval some_ips
                              le port_ok t a d i)))))))))))
