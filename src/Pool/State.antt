-- ===== src/Pool/State.antt =====
-- internal/ippool.go `IPPool` and `ipResult`. The locks, the semaphore of the scan and the monitor
-- goroutine are left out: an operation is one atomic step here. Text that reaches only the log is
-- left out too.
use lumine_android.Prelude.{All, Bytes, List, length, sum, take, ℕ, ℤ, ◌<◌, ◌≡◌, ◌≤◌}

abbrev pub uint32_mod : ℕ
uint32_mod = 4294967296

-- `latency` in nanoseconds. `lost` is the number of failed attempts: the source holds the fraction
-- `lost / attempts`, which orders results with one number of attempts alike.
pub record IpResult : Type 0 where
  pub ip_index : ℕ
  pub latency : ℕ
  pub lost : ℕ

pub record Pool : Type 0 where
  pub ips : List Bytes
  pub port : ℕ
  pub top_ip_count : ℕ
  pub attempts : ℕ
  pub timeout : ℤ
  pub update_interval : ℤ
  pub best_indexes : List ℕ
  pub best_weights : List ℕ
  pub total_weight : ℕ
  pub cur_valid_ips : ℕ
  pub counter : ℕ

-- The first `cur_valid_ips` entries of the two tables are in use: positive weights with their sum,
-- and indexes of addresses.
pub record IsValid (p : Pool) : Type 0 where
  pub indexes_length : length p.best_indexes ≡ p.top_ip_count
  pub weights_length : length p.best_weights ≡ p.top_ip_count
  pub valid_le : p.cur_valid_ips ≤ p.top_ip_count
  pub total_is : p.total_weight ≡ sum (take p.cur_valid_ips p.best_weights)
  pub weights_pos : All (λ w. 1 ≤ w) (take p.cur_valid_ips p.best_weights)
  pub indexes_in : All (λ i. i < length p.ips) (take p.cur_valid_ips p.best_indexes)
