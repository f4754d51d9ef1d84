-- ===== src/Tests/Pools.antt =====
-- A pool of three addresses: a scan with two results, and the addresses handed out.
use lumine_android.Pool.Sources.{Fits, parse_ip_list-Fits}
use lumine_android.Pool.Patterns.{expand_pattern}
use lumine_android.Pool.Config.{Addresses, RawPool, parse_ip_list, unmarshal_pool}
use lumine_android.Pool.Accepted.{IsAccepted, unmarshal_pool-IsAccepted}
use lumine_android.Pool.Update.{update_best, update_best-IsValid}
use lumine_android.Pool.Select.{get-round_of, round_of, get, got}
use lumine_android.Pool.Rank.{IsOrdered, alike, rank-sorts, rank}
use mathlib.Core.List.{Perm}
use lumine_android.Prelude.{
  Bytes, Holds, List, [], arith, codes, get_elem?, if◌then◌else◌, length, ltb, min, none, pos, refl,
  some, take, ℕ, ◌%◌, ◌+◌, ◌-◌, ◌==◌, ◌∷◌, ◌≡◌, ◌≢◌,
}
use lumine_android.Pool.State.{IsValid, IpResult, Pool}

abbrev fresh : Pool
fresh = record {
  ips = codes "1.1.1.1" ∷ codes "2.2.2.2" ∷ codes "3.3.3.3" ∷ [];
  port = 443;
  top_ip_count = 2;
  attempts = 4;
  timeout = pos 1000000000;
  update_interval = pos 1000000000;
  best_indexes = 0 ∷ 0 ∷ [];
  best_weights = 0 ∷ 0 ∷ [];
  total_weight = 0;
  cur_valid_ips = 0;
  counter = 0;
}

abbrev results : List IpResult
results =
    record { ip_index = 1; latency = 500; lost = 1 }
    ∷ record { ip_index = 2; latency = 100; lost = 1 }
    ∷ record { ip_index = 0; latency = 900; lost = 0 }
    ∷ []

-- A quotient that makes small weights.
abbrev small : IpResult → ℕ
small r = 2 - r.lost

abbrev scanned : Pool
scanned = record fresh {
  best_indexes = 0 ∷ 2 ∷ [];
  best_weights = 2 ∷ 1 ∷ [];
  total_weight = 3;
  cur_valid_ips = 2;
}

scan : update_best small results fresh ≡ scanned
unfolding update_best
scan = refl

third : (get (record scanned { counter = 2 })).1 ≡ got (codes "3.3.3.3")
unfolding get
third = refl

rank-sorts_example :
    IsOrdered (rank results)
    × Perm (rank results) results
    × ((lost latency : ℕ) → alike lost latency (rank results) ≡ alike lost latency results)
rank-sorts_example = rank-sorts results

update_best-IsValid_example :
    IsValid (update_best small results fresh)
    × ((update_best small results fresh).ips ≡ fresh.ips)
    × (results ≡ [] → update_best small results fresh ≡ fresh)
    × (results ≢ []
        → (update_best small results fresh).cur_valid_ips ≡ min fresh.top_ip_count (length results))
update_best-IsValid_example = update_best-IsValid small results fresh (omega arith) (omega arith)

get-round_of_example :
    (entry k : ℕ) × (ip : Bytes) × (get_elem? (round_of 0 (take 2 scanned.best_weights)) (0 % 3)
      ≡ some entry)
    × (get_elem? (take 2 scanned.best_indexes) entry ≡ some k)
    × (get_elem? scanned.ips k ≡ some ip)
    × (get scanned ≡ (record scanned { counter = 1 }, got ip))
get-round_of_example = get-round_of scanned (omega arith) (omega arith)

-- Addresses that are numbers, one digit each; `0/8` is the prefix of them all.
abbrev digits : Addresses
digits = record {
  Addr = ℕ;
  parse_addr = λ s. length s == 1;
  parse_prefix = λ s. if length s == 3 then some (0, λ n. ltb n 8) else none;
  next_addr = λ n. some (n + 1);
  addr_string = λ n. (b'0' + n) ∷ [];
  lookup_ip = λ s. none;
}

abbrev digit_pool : RawPool
digit_pool = record {
  ips = codes "(7|8)" ∷ codes "0/8" ∷ [];
  port = pos 443;
  top_ip_count = pos 2;
  max_concurrency = pos 0;
  timeout = codes "1s";
  update_interval = [];
  attempts = pos 0;
}

expanded :
    expand_pattern 20 (codes "a(b|c)d(e|f)")
    ≡ some (codes "abde" ∷ codes "abdf" ∷ codes "acde" ∷ codes "acdf" ∷ [])
unfolding expand_pattern
expanded = refl

parse_ip_list-Fits_example : Fits (parse_ip_list digits digit_pool.ips)
parse_ip_list-Fits_example = parse_ip_list-Fits digits digit_pool.ips

unmarshal_pool-IsAccepted_example :
    Holds IsAccepted (unmarshal_pool digits (λ _. some (pos 1000000000)) digit_pool)
unmarshal_pool-IsAccepted_example =
    unmarshal_pool-IsAccepted digits (λ _. some (pos 1000000000)) digit_pool
