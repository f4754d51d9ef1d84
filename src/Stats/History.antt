-- ===== src/Stats/History.antt =====
-- mobile/stats.go. What the statistics show of the calls since the start.
use lumine_android.Stats.Trim.{last_events, trim_events-last_events}
use lumine_android.Stats.State.{
  StatsEvent, StatsState, get_stats, increment, record_blocked_stat, record_dns_stat,
  record_failed_stat, record_stat_event, record_tcp_stat, record_udp_stat, reset_stats, trim_events,
  uint64_mod,
}
use lumine_android.Stats.Calls.{
  Call, blocked_call, count, dns, event_of, failed_call, is_blocked, is_dns, is_failed, is_tcp,
  is_udp, make_call, make_calls, tcp, udp,
}
use lumine_android.Prelude.{
  Bool, Bool-cases, Bytes, List, [], append-nil, append_assoc, arith, if◌then◌else◌, inl, inr, map,
  refl, suc, sym, ℕ, ◌%◌, ◌++◌, ◌+◌, ◌∙◌, ◌∷◌, ◌≡◌,
}

module _ (f : StatsState → ℕ) (p : Call → Bool)
    (step : (c : Call) (st : StatsState)
      → f (make_call c st) ≡ (if p c then increment (f st) else f st)) where
  make_calls-count :
      (cs : List Call) (st : StatsState) (k : ℕ)
      → f st ≡ k % uint64_mod
      → f (make_calls cs st) ≡ (k + count p cs) % uint64_mod
  unfolding make_calls
  make_calls-count [] st k h = let e : k + 0 ≡ k = omega arith in rw e h
  make_calls-count (c ∷ cs) st k h = elim (Bool-cases (p c)) [
    | inl e ↦
        let here : f (make_call c st) ≡ (k + 1) % uint64_mod = step c st ∙ rw e (omega arith) in
        let sum_ok : k + suc (count p cs) ≡ (k + 1) + count p cs = omega arith in
        rw (e, sum_ok) (make_calls-count cs (make_call c st) (k + 1) here)
    | inr e ↦
        let here : f (make_call c st) ≡ k % uint64_mod = step c st ∙ rw e h in
        rw e (make_calls-count cs (make_call c st) k here)
  ]

  make_calls-count_all :
      (cs : List Call) (st : StatsState) → f st ≡ 0 → f (make_calls cs st) ≡ count p cs % uint64_mod
  make_calls-count_all cs st h =
      let e : 0 + count p cs ≡ count p cs = omega arith in rw e at (make_calls-count cs st 0 h)

make_call-started : (c : Call) (st : StatsState) → (make_call c st).started_at ≡ st.started_at
unfolding make_call record_tcp_stat record_stat_event record_udp_stat record_dns_stat
    record_blocked_stat record_failed_stat
make_call-started (tcp now target mode) st = refl
make_call-started (udp now target mode) st = refl
make_call-started (dns now target outcome detail) st = refl
make_call-started (blocked_call now kind target) st = refl
make_call-started (failed_call now kind target detail) st = refl

make_call-counters :
    (c : Call) (st : StatsState)
    → ((make_call c st).tcp_connections
        ≡ (if is_tcp c then increment st.tcp_connections else st.tcp_connections))
      × ((make_call c st).udp_flows ≡ (if is_udp c then increment st.udp_flows else st.udp_flows))
      × ((make_call c st).dns_queries
          ≡ (if is_dns c then increment st.dns_queries else st.dns_queries))
      × ((make_call c st).blocked_requests
          ≡ (if is_blocked c then increment st.blocked_requests else st.blocked_requests))
      × ((make_call c st).failed_requests
          ≡ (if is_failed c then increment st.failed_requests else st.failed_requests))
unfolding make_call record_tcp_stat record_stat_event record_udp_stat record_dns_stat
    record_blocked_stat record_failed_stat
make_call-counters (tcp now target mode) st = (refl, refl, refl, refl, refl)
make_call-counters (udp now target mode) st = (refl, refl, refl, refl, refl)
make_call-counters (dns now target outcome detail) st = (refl, refl, refl, refl, refl)
make_call-counters (blocked_call now kind target) st = (refl, refl, refl, refl, refl)
make_call-counters (failed_call now kind target detail) st = (refl, refl, refl, refl, refl)

make_call-events :
    (c : Call) (st : StatsState)
    → (make_call c st).events ≡ trim_events (st.events ++ event_of c ∷ [])
unfolding make_call record_tcp_stat record_stat_event record_udp_stat record_dns_stat
    record_blocked_stat record_failed_stat
make_call-events (tcp now target mode) st = refl
make_call-events (udp now target mode) st = refl
make_call-events (dns now target outcome detail) st = refl
make_call-events (blocked_call now kind target) st = refl
make_call-events (failed_call now kind target detail) st = refl

make_calls-events :
    (cs : List Call) (st : StatsState) (past : List StatsEvent)
    → st.events ≡ last_events past
    → (make_calls cs st).events ≡ last_events (past ++ map event_of cs)
unfolding make_calls
make_calls-events [] st past h = rw (append-nil past) h
make_calls-events (c ∷ cs) st past h =
    let here : (make_call c st).events ≡ last_events (past ++ event_of c ∷ []) =
      make_call-events c st ∙ rw h (trim_events-last_events past (event_of c)) in
    let assoc : past ++ event_of c ∷ map event_of cs
        ≡ (past ++ event_of c ∷ []) ++ map event_of cs =
      sym (append_assoc past (event_of c ∷ []) (map event_of cs)) in
    rw assoc (make_calls-events cs (make_call c st) (past ++ event_of c ∷ []) here)

make_calls-started :
    (cs : List Call) (st : StatsState) → (make_calls cs st).started_at ≡ st.started_at
unfolding make_calls
make_calls-started [] st = refl
make_calls-started (c ∷ cs) st = make_calls-started cs (make_call c st) ∙ make_call-started c st

-- What a snapshot shows after a list of calls since the start.
pub record Shows (now : Bytes) (cs : List Call) (st : StatsState) : Type 0 where
  pub started : st.started_at ≡ now
  pub tcp_count : st.tcp_connections ≡ count is_tcp cs % uint64_mod
  pub udp_count : st.udp_flows ≡ count is_udp cs % uint64_mod
  pub dns_count : st.dns_queries ≡ count is_dns cs % uint64_mod
  pub blocked_count : st.blocked_requests ≡ count is_blocked cs % uint64_mod
  pub failed_count : st.failed_requests ≡ count is_failed cs % uint64_mod
  pub last_80 : st.events ≡ last_events (map event_of cs)

-- After a start and any list of calls, the snapshot counts the connections, the flows, the queries,
-- the refused and the failed requests, modulo 2^64, and lists the last 80 events in order.
pub get_stats-Shows :
    (now : Bytes) (cs : List Call) (before : StatsState)
    → Shows now cs (get_stats (make_calls cs (reset_stats now before)))
unfolding get_stats make_call record_tcp_stat record_stat_event record_udp_stat record_dns_stat
    record_blocked_stat record_failed_stat reset_stats
get_stats-Shows now cs before = record {
  started = make_calls-started cs (reset_stats now before);
  tcp_count =
      make_calls-count_all (λ st. st.tcp_connections) is_tcp (λ c st. (make_call-counters c st).0)
        cs (reset_stats now before) refl;
  udp_count =
      make_calls-count_all (λ st. st.udp_flows) is_udp (λ c st. (make_call-counters c st).1) cs
        (reset_stats now before) refl;
  dns_count =
      make_calls-count_all (λ st. st.dns_queries) is_dns (λ c st. (make_call-counters c st).2) cs
        (reset_stats now before) refl;
  blocked_count =
      make_calls-count_all (λ st. st.blocked_requests) is_blocked
        (λ c st. (make_call-counters c st).3) cs (reset_stats now before) refl;
  failed_count =
      make_calls-count_all (λ st. st.failed_requests) is_failed
        (λ c st. (make_call-counters c st).4) cs (reset_stats now before) refl;
  last_80 = make_calls-events cs (reset_stats now before) [] refl;
}
