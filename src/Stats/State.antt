-- ===== src/Stats/State.antt =====
-- mobile/stats.go. A call is one step here; the source takes the lock once for the counter and
-- once for the event. The times are texts that the caller gives.
use lumine_android.Prelude.{
  Bytes, List, [], bytes_eq, codes, drop, if◌then◌else◌, is_empty, length, ltb, take, ℕ, ◌%◌, ◌++◌,
  ◌+◌, ◌-◌, ◌∷◌,
}

pub record StatsEvent : Type 0 where
  pub time : Bytes
  pub typ : Bytes
  pub target : Bytes
  pub mode : Bytes
  pub outcome : Bytes
  pub detail : Bytes

pub record StatsState : Type 0 where
  pub started_at : Bytes
  pub tcp_connections : ℕ
  pub udp_flows : ℕ
  pub dns_queries : ℕ
  pub blocked_requests : ℕ
  pub failed_requests : ℕ
  pub events : List StatsEvent

abbrev pub max_events : ℕ
max_events = 80

abbrev pub uint64_mod : ℕ
uint64_mod = 18446744073709551616

-- `counter++`
abbrev pub increment : ℕ → ℕ
increment n = (n + 1) % uint64_mod

unfoldable pub reset_stats : Bytes → StatsState → StatsState
reset_stats now st = record {
  started_at = now;
  tcp_connections = 0;
  udp_flows = 0;
  dns_queries = 0;
  blocked_requests = 0;
  failed_requests = 0;
  events = [];
}

-- `copy(dst, src)` for a source that is not longer.
abbrev pub copy_front {ℓ} : {A : Type ℓ} → List A → List A → List A
copy_front dst src = src ++ drop (length src) dst

-- `events` after an event was appended: the last 80 are moved to the front.
unfoldable pub trim_events {ℓ} : {A : Type ℓ} → List A → List A
trim_events xs =
    if ltb max_events (length xs)
    then take max_events (copy_front xs (drop (length xs - max_events) xs))
    else xs

unfoldable pub record_stat_event : Bytes → StatsEvent → StatsState → StatsState
unfolding trim_events
record_stat_event now event st =
    let stamped = if is_empty event.time then record event { time = now } else event in
    record st { events = trim_events (st.events ++ stamped ∷ []) }

unfoldable pub record_tcp_stat : Bytes → Bytes → Bytes → StatsState → StatsState
unfolding record_stat_event
record_tcp_stat now target mode st =
    record_stat_event now
      (record {
        time = [];
        typ = codes "TCP";
        target = target;
        mode = mode;
        outcome = codes "ok";
        detail = [];
      })
      (record st { tcp_connections = increment st.tcp_connections })

unfoldable pub record_udp_stat : Bytes → Bytes → Bytes → StatsState → StatsState
unfolding record_stat_event
record_udp_stat now target mode st =
    record_stat_event now
      (record {
        time = [];
        typ = codes "UDP";
        target = target;
        mode = mode;
        outcome = codes "ok";
        detail = [];
      })
      (record st { udp_flows = increment st.udp_flows })

unfoldable pub record_dns_stat : Bytes → Bytes → Bytes → Bytes → StatsState → StatsState
unfolding record_stat_event
record_dns_stat now target outcome detail st =
    record_stat_event now
      (record {
        time = [];
        typ = codes "DNS";
        target = target;
        mode = [];
        outcome = outcome;
        detail = detail;
      })
      (record st {
        dns_queries = increment st.dns_queries;
        failed_requests =
            if bytes_eq outcome (codes "failed")
            then increment st.failed_requests
            else st.failed_requests;
      })

unfoldable pub record_blocked_stat : Bytes → Bytes → Bytes → StatsState → StatsState
unfolding record_stat_event
record_blocked_stat now kind target st =
    record_stat_event now
      (record {
        time = [];
        typ = kind;
        target = target;
        mode = [];
        outcome = codes "blocked";
        detail = [];
      })
      (record st { blocked_requests = increment st.blocked_requests })

unfoldable pub record_failed_stat : Bytes → Bytes → Bytes → Bytes → StatsState → StatsState
unfolding record_stat_event
record_failed_stat now kind target detail st =
    record_stat_event now
      (record {
        time = [];
        typ = kind;
        target = target;
        mode = [];
        outcome = codes "failed";
        detail = detail;
      })
      (record st { failed_requests = increment st.failed_requests })

-- `GetStats` before the JSON encoder: the snapshot has the fields of the state.
unfoldable pub get_stats : StatsState → StatsState
get_stats st = record {
  started_at = st.started_at;
  tcp_connections = st.tcp_connections;
  udp_flows = st.udp_flows;
  dns_queries = st.dns_queries;
  blocked_requests = st.blocked_requests;
  failed_requests = st.failed_requests;
  events = st.events;
}
