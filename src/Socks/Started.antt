-- ===== src/Socks/Started.antt =====
-- internal/socks5.go. The connections that a request leaves to its tunnel.
use lumine_android.Tunnel.Served.{ended-forwarding, handle_tunnel-HasOne}
use lumine_android.Tunnel.HandleTunnel.{FirstPacket, forwarding, TunnelStart}
use lumine_android.Prelude.{
  Bool, Bool-cases, Bytes, [], arith, err, false, inl, inr, length, none, ok, refl, some, suc, true,
  ℕ, ◌++◌, ◌∷◌, ◌≡◌,
}
use lumine_android.Policy.Types.{Policy, is_true}
use lumine_android.Resolve.GenPolicy.{
  Verdict, blocked, domain_not_found, failed, found, gen_policy, found, failed, blocked,
  domain_not_found,
}
use lumine_android.Tunnel.State.{to_client, dialed}
use lumine_android.Tunnel.Counts.{
  opened, closed_count, IsBalanced, opened-append, closed_count-append,
}
use lumine_android.Socks.Opened.{
  IsQuiet, read_n-Quiet, select_method-Quiet, read_command-Quiet, read_host-Quiet,
  write_client-Quiet,
}
use lumine_android.Socks.Handler.{
  SocksEnv, SocksClient, SocksError, Stepped, and_then, read_n, write_client, refuse, select_method,
  read_command, read_host, reply_success, dial_target, connect_target, serve_verdict, serve_host,
  socks5_handler, tunnel_state, write_failed, success, reply_of, new_tunnel, serve_socks5,
  start_tunnel,
}

module _ (env : SocksEnv) where
  -- No connection was opened, or one that is left open behind a success reply that could not be
  -- written, or as many as the tunnel is given.
  pub data HandlerEnd : Stepped TunnelStart → Type 0 where
    gave_up : (e : SocksError) (c : SocksClient) → IsQuiet c → HandlerEnd (err e, c)
    left_open :
        (c : SocksClient)
        → opened c.events ≡ 1
        → closed_count c.events ≡ 0
        → HandlerEnd (err write_failed, c)
    started :
        (t : TunnelStart) (c : SocksClient)
        → IsBalanced 0 (tunnel_state env t c)
        → HandlerEnd (ok t, c)

  and_then-HandlerEnd :
      {A : Type 0} (r : Stepped A) (next : A → SocksClient → Stepped TunnelStart)
      → IsQuiet r.1
      → ((a : A) (c : SocksClient) → IsQuiet c → HandlerEnd (next a c))
      → HandlerEnd (and_then r next)
  and_then-HandlerEnd (err e, c) next q k = gave_up e c q
  and_then-HandlerEnd (ok a, c) next q k = k a c q

  refuse-HandlerEnd :
      (code : ℕ) (e : SocksError) (c : SocksClient) → IsQuiet c → HandlerEnd (refuse env code e c)
  unfolding refuse
  refuse-HandlerEnd code e c q = gave_up e _ (write_client-Quiet env (reply_of code) c q)

  -- A dial that fails opens nothing.
  dialed-IsQuiet :
      (target : Bytes) (c : SocksClient)
      → IsQuiet c
      → IsQuiet (record c { events = c.events ++ dialed target false ∷ [] })
  dialed-IsQuiet target c q =
      let more = dialed target false ∷ [] in
      record {
        none_opened = omega (arith, opened-append c.events more, q.none_opened);
        none_closed = omega (arith, closed_count-append c.events more, q.none_closed);
      }

  reply_success-HandlerEnd :
      (t : TunnelStart) (c : SocksClient)
      → t.server ≡ none
      → IsQuiet c
      → HandlerEnd (reply_success env t c)
  unfolding reply_success write_client
  reply_success-HandlerEnd t c none_yet q =
      let more = to_client (reply_of success) ∷ [] in
      let quiet = write_client-Quiet env (reply_of success) c q in
      elim (Bool-cases (env.accepts (length c.events))) [
        | inl h ↦ rw h (
            started t _ (record {
              balance = rw none_yet (omega (arith, quiet.none_opened, quiet.none_closed));
            }))
        | inr h ↦ rw h (gave_up write_failed _ quiet)
      ]

  reply_dialed-HandlerEnd :
      (t : TunnelStart) (c : SocksClient) (address : Bytes)
      → opened c.events ≡ 1
      → closed_count c.events ≡ 0
      → HandlerEnd (reply_success env (record t { server = some address }) c)
  unfolding reply_success write_client
  reply_dialed-HandlerEnd t c address one none_closed =
      let more = to_client (reply_of success) ∷ [] in
      let a : opened (c.events ++ more) ≡ 1 = omega (arith, opened-append c.events more, one) in
      let b : closed_count (c.events ++ more) ≡ 0 =
        omega (arith, closed_count-append c.events more, none_closed) in
      elim (Bool-cases (env.accepts (length c.events))) [
        | inl h ↦ rw h (started _ _ (record { balance = omega (arith, a, b) }))
        | inr h ↦ rw h (left_open _ a b)
      ]

  dial_target-HandlerEnd :
      (t : TunnelStart) (c : SocksClient) → IsQuiet c → HandlerEnd (dial_target env t c)
  unfolding dial_target
  dial_target-HandlerEnd t c q =
      let more = dialed t.target true ∷ [] in
      elim (Bool-cases (env.tunnel.dial (length c.events) t.target)) [
        | inl h ↦ rw h (
            reply_dialed-HandlerEnd t (record c { events = c.events ++ more }) t.target
              (omega (arith, opened-append c.events more, q.none_opened))
              (omega (arith, closed_count-append c.events more, q.none_closed)))
        | inr h ↦ rw h (refuse-HandlerEnd _ _ _ (dialed-IsQuiet t.target c q))
      ]

  connect_target-HandlerEnd :
      (origin dst : Bytes) (p : Policy) (port : ℕ) (c : SocksClient)
      → IsQuiet c
      → HandlerEnd (connect_target env origin dst p port c)
  unfolding connect_target
  connect_target-HandlerEnd origin dst p port c q = elim (Bool-cases (is_true p.reply_first)) [
    | inl h ↦ rw h (reply_success-HandlerEnd (new_tunnel env origin dst p port) c refl q)
    | inr h ↦ rw h (dial_target-HandlerEnd (new_tunnel env origin dst p port) c q)
  ]

  serve_verdict-HandlerEnd :
      (origin : Bytes) (v : Verdict) (c : SocksClient)
      → IsQuiet c
      → HandlerEnd (serve_verdict env origin v c)
  unfolding serve_verdict
  serve_verdict-HandlerEnd origin failed c q = refuse-HandlerEnd _ _ c q
  serve_verdict-HandlerEnd origin blocked c q = refuse-HandlerEnd _ _ c q
  serve_verdict-HandlerEnd origin domain_not_found c q = gave_up _ c q
  serve_verdict-HandlerEnd origin (found dst p) c q =
      and_then-HandlerEnd (read_n 2 c) _ (read_n-Quiet 2 c q)
        λ bytes c q. connect_target-HandlerEnd origin dst p _ c q

  serve_host-HandlerEnd :
      (origin : Bytes) (is_ip : Bool) (c : SocksClient)
      → IsQuiet c
      → HandlerEnd (serve_host env origin is_ip c)
  unfolding serve_host
  serve_host-HandlerEnd origin is_ip c q =
      let r = gen_policy env.tunnel.resolve origin is_ip false c.pools in
      serve_verdict-HandlerEnd origin r.0 (record c { pools = r.1 })
        (record { none_opened = q.none_opened; none_closed = q.none_closed })

  -- From a client without connections to servers, the handler gives up with none opened, or, where
  -- its success reply could not be written, with one that it leaves open, or it starts the tunnel
  -- with all those that it opened.
  pub socks5_handler-HandlerEnd : (c : SocksClient) → IsQuiet c → HandlerEnd (socks5_handler env c)
  unfolding socks5_handler
  socks5_handler-HandlerEnd c q =
      and_then-HandlerEnd (select_method env c) _ (select_method-Quiet env c q) λ _ c q.
        and_then-HandlerEnd (read_command env c) _ (read_command-Quiet env c q) λ atyp c q.
          and_then-HandlerEnd (read_host env atyp c) _ (read_host-Quiet env atyp c q)
            λ host c q. serve_host-HandlerEnd host.0 host.1 c q

  start_tunnel-HasOne :
      (packet_of : Bytes → FirstPacket) (address : Bytes) (r : Stepped TunnelStart)
      → HandlerEnd r
      → (start_tunnel env packet_of r).0 ≡ forwarding address
      → opened (start_tunnel env packet_of r).1
        ≡ suc (closed_count (start_tunnel env packet_of r).1)
  unfolding start_tunnel
  start_tunnel-HasOne packet_of address _ (gave_up err_ c q) e =
      elim (ended-forwarding address e) [ ]
  start_tunnel-HasOne packet_of address _ (left_open c a b) e =
      elim (ended-forwarding address e) [ ]
  start_tunnel-HasOne packet_of address _ (started t c balanced) e =
      let one =
        handle_tunnel-HasOne env.tunnel t.origin_host t.origin_port 0 (packet_of c.input) address
          (tunnel_state env t c) balanced e in
      omega (arith, one.one_left)

  -- A SOCKS5 client, without connections to servers at first, whose tunnel goes on to copy bytes,
  -- whatever was dialed, switched and closed on the way, leaves just one connection to a server
  -- open.
  pub serve_socks5-HasOne :
      (packet_of : Bytes → FirstPacket) (address : Bytes) (c : SocksClient)
      → IsQuiet c
      → (serve_socks5 env packet_of c).0 ≡ forwarding address
      → opened (serve_socks5 env packet_of c).1
        ≡ suc (closed_count (serve_socks5 env packet_of c).1)
  unfolding serve_socks5
  serve_socks5-HasOne packet_of address c q =
      start_tunnel-HasOne packet_of address (socks5_handler env c) (socks5_handler-HandlerEnd c q)
