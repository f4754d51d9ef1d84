-- ===== src/Tests/Statistics.antt =====
-- A short run of the statistics.
use lumine_android.Prelude.{Bytes, List, [], codes, refl, ◌∷◌, ◌≡◌}
use lumine_android.Stats.State.{StatsState, get_stats, reset_stats}
use lumine_android.Stats.Calls.{Call, make_calls, tcp, dns, blocked_call}
use lumine_android.Stats.History.{Shows, get_stats-Shows}

abbrev noon : Bytes
noon = codes "12:00:00"

abbrev old : StatsState
old = record {
  started_at = [];
  tcp_connections = 7;
  udp_flows = 7;
  dns_queries = 7;
  blocked_requests = 7;
  failed_requests = 7;
  events = [];
}

abbrev calls : List Call
calls =
    tcp noon (codes "site:443") (codes "tls-rf")
    ∷ dns noon (codes "site") (codes "failed") []
    ∷ blocked_call noon (codes "TCP") (codes "ads:443")
    ∷ []

failed_once : (get_stats (make_calls calls (reset_stats noon old))).failed_requests ≡ 1
unfolding get_stats make_calls reset_stats
failed_once = refl

get_stats-Shows_example : Shows noon calls (get_stats (make_calls calls (reset_stats noon old)))
get_stats-Shows_example = get_stats-Shows noon calls old
