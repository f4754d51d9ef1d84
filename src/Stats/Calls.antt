-- ===== src/Stats/Calls.antt =====
-- mobile/stats.go. The calls that the proxy makes on the statistics, and what each is to add.
use lumine_android.Stats.State.{
  StatsEvent, StatsState, record_blocked_stat, record_dns_stat, record_failed_stat, record_tcp_stat,
  record_udp_stat,
}
use lumine_android.Prelude.{
  Bool, Bytes, List, [], bytes_eq, codes, false, if◌then◌else◌, suc, true, ℕ, ◌∷◌,
}

-- The calls that the proxy makes, with the time of each.
pub data Call : Type 0 where
  tcp udp : Bytes → Bytes → Bytes → Call
  dns : Bytes → Bytes → Bytes → Bytes → Call
  blocked_call : Bytes → Bytes → Bytes → Call
  failed_call : Bytes → Bytes → Bytes → Bytes → Call

unfoldable pub make_call : Call → StatsState → StatsState
unfolding record_tcp_stat record_udp_stat record_dns_stat record_blocked_stat record_failed_stat
make_call (tcp now target mode) st = record_tcp_stat now target mode st
make_call (udp now target mode) st = record_udp_stat now target mode st
make_call (dns now target outcome detail) st = record_dns_stat now target outcome detail st
make_call (blocked_call now kind target) st = record_blocked_stat now kind target st
make_call (failed_call now kind target detail) st = record_failed_stat now kind target detail st

unfoldable pub make_calls : List Call → StatsState → StatsState
unfolding make_call
make_calls [] st = st
make_calls (c ∷ cs) st = make_calls cs (make_call c st)

-- The event of a call.
abbrev pub event_of : Call → StatsEvent
event_of (tcp now target mode) = record {
  time = now;
  typ = codes "TCP";
  target = target;
  mode = mode;
  outcome = codes "ok";
  detail = [];
}
event_of (udp now target mode) = record {
  time = now;
  typ = codes "UDP";
  target = target;
  mode = mode;
  outcome = codes "ok";
  detail = [];
}
event_of (dns now target outcome detail) = record {
  time = now;
  typ = codes "DNS";
  target = target;
  mode = [];
  outcome = outcome;
  detail = detail;
}
event_of (blocked_call now kind target) = record {
  time = now;
  typ = kind;
  target = target;
  mode = [];
  outcome = codes "blocked";
  detail = [];
}
event_of (failed_call now kind target detail) = record {
  time = now;
  typ = kind;
  target = target;
  mode = [];
  outcome = codes "failed";
  detail = detail;
}

abbrev pub is_tcp : Call → Bool
is_tcp (tcp now target mode) = true
is_tcp _ = false

abbrev pub is_udp : Call → Bool
is_udp (udp now target mode) = true
is_udp _ = false

abbrev pub is_dns : Call → Bool
is_dns (dns now target outcome detail) = true
is_dns _ = false

abbrev pub is_blocked : Call → Bool
is_blocked (blocked_call now kind target) = true
is_blocked _ = false

-- A DNS query with the outcome `failed` counts as a failed request too.
abbrev pub is_failed : Call → Bool
is_failed (failed_call now kind target detail) = true
is_failed (dns now target outcome detail) = bytes_eq outcome (codes "failed")
is_failed _ = false

abbrev pub count : (Call → Bool) → List Call → ℕ
count p [] = 0
count p (c ∷ cs) = if p c then suc (count p cs) else count p cs
