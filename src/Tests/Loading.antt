-- ===== src/Tests/Loading.antt =====
-- A configuration that fails behind its pools, and a CONNECT request.
use lumine_android.Prelude.{
  [], codes, err, false, is_some, none, pos, refl, reject, some, true, ◌++◌, ◌∷◌, ◌≡◌,
}
use lumine_android.Policy.Types.{Policy, mode_raw}
use lumine_android.Policy.Merge.{empty_policy}
use lumine_android.Pool.State.{Pool}
use lumine_android.Resolve.Env.{Env}
use lumine_android.Resolve.GenPolicy.{gen_policy}
use lumine_android.Http.Handler.{HttpEnv, HttpState, ProxyRequest, http_handler}
use lumine_android.Http.Connected.{ServedEnd}
use lumine_android.Http.Started.{http_handler-ServedEnd}
use lumine_android.Config.Load.{Config, LoadEnv, reset_to, bad_doh_proxy}
use lumine_android.Config.Steps.{Loaded, load_config}
use lumine_android.Config.Reset.{LoadEnd, load_config-LoadEnd}

abbrev pool : Pool
pool = record {
  ips = codes "1.1.1.1" ∷ [];
  port = 443;
  top_ip_count = 1;
  attempts = 4;
  timeout = pos 1000000000;
  update_interval = pos 1000000000;
  best_indexes = 0 ∷ [];
  best_weights = 1 ∷ [];
  total_weight = 1;
  cur_valid_ips = 1;
  counter = 0;
}

abbrev policy : Policy
policy = record empty_policy { mode = mode_raw }

abbrev conf : Config
conf = record {
  log_level = codes "info";
  transmit_file_limit = pos 0;
  outbound_binding = [];
  dns_addr = codes "https://dns";
  udp_size = 0;
  doh_proxy = codes "proxy";
  fake_ttl_rules = [];
  dns_singleflight = true;
  dns_cache_ttl = pos 60;
  dns_cache_capacity = pos 100;
  ttl_singleflight = false;
  ttl_cache_ttl = pos 0;
  ttl_cache_capacity = pos 0;
  ip_pools = (codes "p", pool) ∷ [];
  hosts = [];
  default_policy = policy;
  domain_policies = (codes "a;b", policy) ∷ [];
  ip_policies = [];
}

-- The proxy of the DNS server cannot be dialed.
abbrev loading : LoadEnv
loading = record {
  set_local_addr = λ _. true;
  init_pool = λ _ p. (true, p);
  new_cache = λ _. true;
  gen_doh_dial = λ _. true;
  socks5_dialer = λ _. false;
  has_transport = true;
  is_windows = false;
}

undone : load_config loading (some conf) (reset_to []) ≡ some (err bad_doh_proxy, reset_to [])
unfolding load_config reject
undone = refl

load_config-LoadEnd_example :
    (r : Loaded) × (load_config loading (some conf) (reset_to []) ≡ some r) × LoadEnd loading r
load_config-LoadEnd_example = load_config-LoadEnd loading conf (reset_to []) (record { owned = tt })

abbrev tables : Env
tables = record {
  default_policy = policy;
  find_domain = λ _. none;
  find_host = λ _. none;
  find_ipv4 = λ _. none;
  find_ipv6 = λ _. none;
  is_ip = λ _. false;
  parse_addr = λ _. none;
  parse_prefix = λ _. none;
  addr_string = λ b. b;
  dns_resolve = λ _ _. some (codes "9");
}

abbrev proxy : HttpEnv
proxy = record {
  tunnel = record {
    resolve = tables;
    dial = λ _ _. true;
    succeeds = λ _. true;
    join_host_port = λ host port. host ++ (58 ∷ port);
    format_int = λ _. [];
    detect = λ _ _ _ _ _. err tt;
    calc = none;
    cached = λ _. none;
  };
  split_host_port = λ host. some (host, codes "443");
  can_hijack = true;
  hijacks = true;
  accepts = λ _. true;
  has_transport = true;
  transport_dials = λ target _. target ∷ [];
  round_trip = λ _ _ _. none;
}

abbrev connect : ProxyRequest
connect = record {
  is_connect = true;
  is_abs = false;
  host = codes "a.bc";
  url_host = [];
  scheme = [];
  request_uri = [];
}

abbrev idle : HttpState
idle = record { pools = []; events = [] }

tunnelled : is_some (http_handler proxy connect idle).0 ≡ true
unfolding http_handler gen_policy
tunnelled = refl

http_handler-ServedEnd_example : ServedEnd proxy true (http_handler proxy connect idle)
http_handler-ServedEnd_example =
    http_handler-ServedEnd proxy connect idle (record { so_many = refl; none_closed = refl })
