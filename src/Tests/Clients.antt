-- ===== src/Tests/Clients.antt =====
-- A SOCKS5 client that asks for a domain.
use lumine_android.Prelude.{
  [], arith, codes, err, false, ltb, none, refl, some, suc, true, ℕ, ◌++◌, ◌∷◌, ◌≡◌,
}
use lumine_android.Policy.Types.{Policy, mode_raw}
use lumine_android.Policy.Merge.{empty_policy}
use lumine_android.Resolve.Env.{Env}
use lumine_android.Resolve.GenPolicy.{gen_policy}
use lumine_android.Tunnel.State.{to_client, dialed}
use lumine_android.Tunnel.Counts.{opened, closed_count}
use lumine_android.Tunnel.HandleTunnel.{unknown}
use lumine_android.Socks.Handler.{
  contains_zero, SocksEnv, SocksClient, socks5_handler, serve_socks5, connect_target, no_auth_reply,
  reply_of,
}
use lumine_android.Socks.Encoded.{
  greeting, connect_domain, port_bytes, client, socks5_handler-encoded,
}
use lumine_android.Socks.Opened.{IsQuiet}
use lumine_android.Socks.Started.{HandlerEnd, socks5_handler-HandlerEnd, serve_socks5-HasOne}

abbrev direct : Policy
direct = record empty_policy { mode = mode_raw }

abbrev tables : Env
tables = record {
  default_policy = direct;
  find_domain = λ _. none;
  find_host = λ _. none;
  find_ipv4 = λ _. none;
  find_ipv6 = λ _. none;
  is_ip = λ _. false;
  parse_addr = λ _. none;
  parse_prefix = λ _. none;
  addr_string = λ b. b;
  dns_resolve = λ _ _. some (codes "9");
}

-- The client takes `taken` events.
abbrev around : ℕ → SocksEnv
around taken = record {
  tunnel = record {
    resolve = tables;
    dial = λ _ _. true;
    succeeds = λ _. true;
    join_host_port = λ host port. host ++ (58 ∷ port);
    format_int = λ _. [];
    detect = λ _ _ _ _ _. err tt;
    calc = none;
    cached = λ _. none;
  };
  accepts = λ k. ltb k taken;
  ip_string = λ ip. ip;
  format_uint = λ n. n ∷ [];
}

abbrev asked : SocksClient
asked =
    client
      (greeting (2 ∷ 0 ∷ []) ++ (connect_domain (codes "a.bc") ++ (port_bytes 443 ++ (7 ∷ 8 ∷ []))))
      [] []

accepted :
    (socks5_handler (around 9) asked).1
    ≡ client (7 ∷ 8 ∷ []) [] (
        to_client no_auth_reply
        ∷ dialed (codes "9" ++ (58 ∷ 443 ∷ [])) true
        ∷ to_client (reply_of 0)
        ∷ [])
unfolding socks5_handler gen_policy
accepted = refl

socks5_handler-encoded_example :
    socks5_handler (around 9) asked
    ≡ connect_target
        (around 9)
        (codes "a.bc")
        (codes "9")
        direct
        443
        (client (7 ∷ 8 ∷ []) [] (to_client no_auth_reply ∷ []))
unfolding gen_policy contains_zero
socks5_handler-encoded_example =
    socks5_handler-encoded (around 9) [] (2 ∷ 0 ∷ []) (codes "a.bc") (codes "9") (7 ∷ 8 ∷ []) direct
      443 refl refl (omega arith) (omega arith) refl

nothing_yet : IsQuiet asked
nothing_yet = record { none_opened = refl; none_closed = refl }

socks5_handler-HandlerEnd_example : HandlerEnd (around 9) (socks5_handler (around 9) asked)
socks5_handler-HandlerEnd_example = socks5_handler-HandlerEnd (around 9) asked nothing_yet

serve_socks5-HasOne_example :
    opened (serve_socks5 (around 9) (λ _. unknown) asked).1
    ≡ suc (closed_count (serve_socks5 (around 9) (λ _. unknown) asked).1)
unfolding serve_socks5 gen_policy
serve_socks5-HasOne_example =
    serve_socks5-HasOne (around 9) (λ _. unknown) (codes "9" ++ (58 ∷ 443 ∷ [])) asked nothing_yet
      refl
