-- ===== src/Tests/Tunnels.antt =====
-- Connections through the tunnel and the bridge with a server that takes all or nothing.
use lumine_android.Tunnel.Unserved.{handle_tunnel-Unserved, no_method}
use lumine_android.Prelude.{
  Bool, Bytes, List, Option, [], arith, codes, concat, drop, err, false, none, ok, pos, refl,
  reject, replicate, some, suc, take, true, ◌++◌, ◌+◌, ◌∷◌, ◌≡◌,
}
use lumine_android.Policy.Types.{Policy, mode_direct, mode_tls_alert}
use lumine_android.Policy.Merge.{empty_policy, merge_policies}
use lumine_android.Resolve.Env.{Env}
use lumine_android.Resolve.Plan.{DialPlan, source_mobile}
use lumine_android.Tls.Parse.{Hello, parse_client_hello, not_standard_record, HelloError}
use lumine_android.Tunnel.Bridge.{BridgeEnv, wrap_tcp_conn, write_conn}
use lumine_android.Tunnel.Stream.{sent, write_all, expected}
use lumine_android.Tunnel.Chunks.{write_all-expected}
use lumine_android.Tunnel.Refused.{write_all-refused, write_conn-twice, OnlyAlert, by_alert}
use lumine_android.Tunnel.State.{TunnelEnv, TunnelState}
use lumine_android.Tunnel.Counts.{opened, closed_count, IsBalanced}
use lumine_android.Tunnel.HandleTls.{handle_tls}
use lumine_android.Tunnel.HandleTunnel.{handle_tunnel, ended, tls_record, classify}
use lumine_android.Tunnel.Balance.{handle_tls-IsBalanced}
use lumine_android.Tunnel.Served.{HasOne, handle_tunnel-HasOne, handle_tunnel-handle_tls}

-- Session id, cipher suites and compression methods are short; the one extension is the name.
abbrev hello : Bytes
hello =
    (0x16 ∷ 3 ∷ 1 ∷ 0 ∷ 60 ∷ 1 ∷ 0 ∷ 0 ∷ 56 ∷ 3 ∷ 3 ∷ replicate 32 7)
    ++ ((0 ∷ 0 ∷ 2 ∷ 0x13 ∷ 1 ∷ 1 ∷ 0 ∷ [])
        ++ ((0 ∷ 13 ∷ 0 ∷ 0 ∷ 0 ∷ 9 ∷ 0 ∷ 7 ∷ 0 ∷ 0 ∷ 4 ∷ []) ++ codes "a.bc"))

abbrev parts : Hello
parts = record {
  prt_ver = 3 ∷ 3 ∷ [];
  sni_start = pos 61;
  sni_len = 4;
  has_key_share = false;
  has_ech = false;
}

parsed : parse_client_hello hello ≡ ok parts
unfolding parse_client_hello reject
parsed = refl

abbrev policy : Policy
policy = record empty_policy { mode = mode_direct }

abbrev tables : Env
tables = record {
  default_policy = policy;
  find_domain = λ _. none;
  find_host = λ _. none;
  find_ipv4 = λ _. none;
  find_ipv6 = λ _. none;
  is_ip = λ _. false;
  parse_addr = λ _. none;
  parse_prefix = λ _. none;
  addr_string = λ b. b;
  dns_resolve = λ _ _. none;
}

abbrev bridge : BridgeEnv
bridge = record {
  succeeds = λ _. true;
  find_domain = λ _. none;
  address = λ _. codes "9:443";
  detect = λ _ _ _ _ _. err tt;
  calc = none;
  cached = λ _. none;
}

abbrev plan : Policy → DialPlan
plan p = record {
  source = source_mobile;
  origin_host = codes "a.bc";
  origin_port = pos 443;
  recovered_domain = [];
  matched_domain = true;
  matched_ip = false;
  target_host = codes "9";
  target_port = pos 443;
  policy = p;
  blocked = false;
}

abbrev cut_hello : List Bytes
cut_hello = take 30 hello ∷ (drop 30 hello ++ 1 ∷ []) ∷ (2 ∷ []) ∷ []

forwarded :
    sent (write_all bridge cut_hello (wrap_tcp_conn (plan policy)) []).1 ≡ hello ++ 1 ∷ 2 ∷ []
unfolding write_all merge_policies parse_client_hello reject
forwarded = refl

write_all-expected_example :
    sent (write_all bridge cut_hello (wrap_tcp_conn (plan policy)) []).1
    ≡ expected bridge (plan policy) (concat cut_hello)
unfolding parse_client_hello reject
write_all-expected_example =
    write_all-expected bridge (λ _. refl) (plan policy) cut_hello (λ _. (parts, refl))

abbrev alerting : Policy
alerting = record empty_policy { mode = mode_tls_alert }

write_all-refused_example :
    OnlyAlert parts (sent (write_all bridge cut_hello (wrap_tcp_conn (plan alerting)) []).1)
unfolding parse_client_hello reject
write_all-refused_example =
    write_all-refused bridge (plan alerting) cut_hello parts (λ _. refl) refl refl refl
      (by_alert refl)

abbrev short : Bytes
short = 0x16 ∷ 3 ∷ 1 ∷ 0 ∷ 0 ∷ []

abbrev refused_error : HelloError
refused_error = not_standard_record

write_conn-twice_example :
    sent (write_conn bridge (short ++ 7 ∷ []) (wrap_tcp_conn (plan policy)) []).2
    ≡ (short ++ 7 ∷ []) ++ 7 ∷ []
unfolding parse_client_hello reject
write_conn-twice_example =
    write_conn-twice bridge (plan policy) short (7 ∷ []) _ _ (λ _. refl) (omega arith) refl refl
      refl (λ e. cc)

abbrev around : Bool → Bool → TunnelEnv
around up accepted = record {
  resolve = tables;
  dial = λ _ _. up;
  succeeds = λ _. accepted;
  join_host_port = λ host port. host ++ (58 ∷ port);
  format_int = λ _. [];
  detect = λ _ _ _ _ _. err tt;
  calc = none;
  cached = λ _. none;
}

abbrev start : Option Bytes → TunnelState
start server = record {
  policy = policy;
  target = codes "9:443";
  server = server;
  pools = [];
  events = [];
}

open_start : IsBalanced 1 (start (some (codes "9:443")))
open_start = record { balance = refl }

handle_tls-IsBalanced_example :
    IsBalanced 0
      (handle_tls (around true true) (codes "a.bc") (codes "443") (some hello) (start none)).1
handle_tls-IsBalanced_example =
    handle_tls-IsBalanced (around true true) 0 (codes "a.bc") (codes "443") (some hello)
      (start none) (record { balance = refl })

handle_tunnel-HasOne_example :
    HasOne 0
      (handle_tunnel
        (around true true)
        (codes "a.bc")
        (codes "443")
        (tls_record (some hello))
        (start none)).1
unfolding handle_tunnel parse_client_hello reject
handle_tunnel-HasOne_example =
    handle_tunnel-HasOne (around true true) (codes "a.bc") (codes "443") 0 (tls_record (some hello))
      (codes "9:443") (start none) (record { balance = refl }) refl

-- The server's connection is there, but the record cannot be read.
handle_tunnel-handle_tls_example :
    (let r =
        handle_tunnel
          (around true true)
          (codes "a.bc")
          (codes "443")
          (tls_record none)
          (start (some (codes "9:443"))) in
      (r.0 ≡ ended) × (opened r.1.events + 1 ≡ suc (closed_count r.1.events)))
unfolding handle_tls
handle_tunnel-handle_tls_example =
    handle_tunnel-handle_tls (around true true) (codes "a.bc") (codes "443") 1 none
      (start (some (codes "9:443"))) open_start refl refl refl

-- An SSH client in front of a policy that replies first.
handle_tunnel-Unserved_example :
    handle_tunnel
      (around true true)
      (codes "a.bc")
      (codes "22")
      (classify (codes "SSH-2.0-ab") none none)
      (start none)
    ≡ (ended, start none)
handle_tunnel-Unserved_example =
    handle_tunnel-Unserved (around true true) (codes "a.bc") (codes "22") (codes "SSH-2.0-ab") none
      none (start none) refl refl (no_method refl refl refl refl refl refl refl refl)
