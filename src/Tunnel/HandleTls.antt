-- ===== src/Tunnel/HandleTls.antt =====
-- internal/tunnel.go `handleTLS`, behind the reading of the record.
use lumine_android.Ttl.Apply.{get_fake_ttl}
use lumine_android.Prelude.{
  Bool, Bytes, Option, [], bytes_eq, err, false, get_or, if◌then◌else◌, is_some, none, not, ok, pos,
  some, true, unset_int, ℕ, ◌&&◌, ◌++◌, ◌==ℤ◌, ◌==◌, ◌||◌, ◌∷◌,
}
use lumine_android.Policy.Types.{
  Policy, Mode, SniffOverrideMode, sniff_always, sniff_policy_exists, mode_direct, mode_raw,
  mode_tls_rf, mode_ttl_d, is_true, is_mode_block, is_mode_tls_alert,
}
use lumine_android.Resolve.GenPolicy.{Verdict, found, blocked, domain_not_found, failed, gen_policy}
use lumine_android.Tls.Parse.{Fault, panic, no_fuel, Hello, parse_client_hello}
use lumine_android.Tunnel.Wire.{
  desync, desync_failed, ttl_failed, access_denied, protocol_version, Outcome, Wire, make_event,
  send_by_records, write_wire,
}
use lumine_android.Tunnel.Bridge.{has_name, sni_of}
use lumine_android.Tunnel.State.{
  Handled, goes_on, gives_up, crashes, TunnelEnv, TunnelState, alert_client, close_server,
  dial_server, ensure_server, on_wire,
}

abbrev pub is_ipv6_target : Bytes → Bool
is_ipv6_target target = get_or target 0 0 == b'['

-- A ClientHello that does not parse is given up; an index out of range panics.
abbrev pub handled_fault : Fault → Handled
handled_fault panic = crashes
handled_fault no_fuel = crashes
handled_fault _ = gives_up

module _ (env : TunnelEnv) where
  -- `originPort`, or the port of the new policy.
  abbrev pub port_of : Bytes → Policy → Bytes
  port_of origin_port q =
      if q.port ==ℤ pos 0 || q.port ==ℤ unset_int then origin_port else env.format_int q.port

  -- The new connection takes the place of the old one, which is closed.
  unfoldable pub switch_server : Bytes → Policy → TunnelState → TunnelState
  unfolding dial_server
  switch_server address q s =
      let r = dial_server env address s in
      if r.0
      then record s {
        policy = q;
        target = address;
        server = some address;
        events = r.1.events ++ (if is_some s.server then close_server ∷ [] else []);
      }
      else r.1

  -- What `genPolicy` says of the SNI; `false` ends the tunnel.
  unfoldable pub apply_verdict : Bytes → Bytes → Verdict → TunnelState → Bool × TunnelState
  unfolding switch_server alert_client
  apply_verdict prt_ver origin_port failed s = (true, s)
  apply_verdict prt_ver origin_port domain_not_found s = (true, s)
  apply_verdict prt_ver origin_port blocked s = (false, s)
  apply_verdict prt_ver origin_port (found host q) s =
      if is_mode_block q.mode
      then (false, s)
      else if is_mode_tls_alert q.mode
      then (false, alert_client prt_ver access_denied s)
      else (true, switch_server (env.join_host_port host (port_of origin_port q)) q s)

  unfoldable pub ask_policy : Bytes → Bytes → Bytes → Bool → TunnelState → Bool × TunnelState
  unfolding apply_verdict gen_policy
  ask_policy prt_ver origin_port sni return_when_not_found s =
      let r = gen_policy env.resolve sni false return_when_not_found s.pools in
      apply_verdict prt_ver origin_port r.0 (record s { pools = r.1 })

  unfoldable pub override_by :
      SniffOverrideMode → Bytes → Hello → Bytes → TunnelState → Bool × TunnelState
  unfolding ask_policy
  override_by sniff_always origin_port h sni s =
      if h.has_ech then (true, s) else ask_policy h.prt_ver origin_port sni false s
  override_by sniff_policy_exists origin_port h sni s =
      if h.has_ech then (true, s) else ask_policy h.prt_ver origin_port sni true s
  override_by _ origin_port h sni s = (true, s)

  unfoldable pub override_sniff : Bytes → Bytes → Bytes → Hello → TunnelState → Bool × TunnelState
  unfolding override_by
  override_sniff origin_host origin_port record_ h s =
      let sni = sni_of record_ h in
      if bytes_eq origin_host sni
      then (true, s)
      else override_by s.policy.sniff_override_mode origin_port h sni s

  unfoldable pub desync_server : Policy → Bytes → Bytes → Hello → (ℕ → Bool) → Wire → Outcome × Wire
  unfolding get_fake_ttl make_event
  desync_server p target record_ h succeeds w =
      elim (get_fake_ttl env.detect env.calc (env.cached target) p target (is_ipv6_target target)) [
        | err e ↦ (some ttl_failed, w)
        | ok ttl ↦ make_event succeeds (desync record_ h.sni_start ttl p.fake_sleep) desync_failed w
      ]

  -- The `switch` on the mode; any other mode sends nothing.
  unfoldable pub send_by_mode : Mode → Bytes → Hello → TunnelState → Handled × TunnelState
  unfolding on_wire send_by_records desync_server make_event
  send_by_mode mode_direct record_ h s = on_wire env (λ succeeds. write_wire succeeds record_) s
  send_by_mode mode_raw record_ h s = on_wire env (λ succeeds. write_wire succeeds record_) s
  send_by_mode mode_tls_rf record_ h s =
      on_wire env (λ succeeds. send_by_records succeeds s.policy record_ h.sni_start h.sni_len) s
  send_by_mode mode_ttl_d record_ h s = on_wire env (desync_server s.policy s.target record_ h) s
  send_by_mode _ record_ h s = (goes_on, s)

  -- `dstConn` is dialed where it is nil, and then `send` is made.
  unfoldable pub connect_and :
      (TunnelState → Handled × TunnelState) → TunnelState → Handled × TunnelState
  unfolding ensure_server
  connect_and send s = let r = ensure_server env s in if r.0 then send r.1 else (gives_up, r.1)

  -- A record with a name: the override, the connection and the ClientHello.
  unfoldable pub send_named : Bytes → Bytes → Bytes → Hello → TunnelState → Handled × TunnelState
  unfolding override_sniff connect_and send_by_mode
  send_named origin_host origin_port record_ h s =
      let r = override_sniff origin_host origin_port record_ h s in
      if r.0
      then connect_and (λ s'. send_by_mode s'.policy.mode record_ h s') r.1
      else (gives_up, r.1)

  unfoldable pub handle_parsed : Bytes → Bytes → Bytes → Hello → TunnelState → Handled × TunnelState
  unfolding send_named connect_and on_wire alert_client make_event
  handle_parsed origin_host origin_port record_ h s =
      if is_mode_tls_alert s.policy.mode
      then (gives_up, alert_client h.prt_ver access_denied s)
      else if is_true s.policy.tls13_only && not h.has_key_share
      then (gives_up, alert_client h.prt_ver protocol_version s)
      else if has_name h
      then send_named origin_host origin_port record_ h s
      else connect_and (on_wire env (λ succeeds. write_wire succeeds record_)) s

  -- `none` is a record that could not be read.
  unfoldable pub handle_tls : Bytes → Bytes → Option Bytes → TunnelState → Handled × TunnelState
  unfolding handle_parsed parse_client_hello
  handle_tls origin_host origin_port none s = (gives_up, s)
  handle_tls origin_host origin_port (some record_) s = elim (parse_client_hello record_) [
    | err e ↦ (handled_fault e, s)
    | ok h ↦ handle_parsed origin_host origin_port record_ h s
  ]
