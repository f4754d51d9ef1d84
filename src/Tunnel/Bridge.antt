-- ===== src/Tunnel/Bridge.antt =====
-- internal/tun_bridge.go `tunPolicyConn`: what the device writes is held back until the first TLS
-- record is whole, and that record is sent as the policy says. The lock is held by each call.
use lumine_android.Prelude.{
  Bool, Bytes, Option, Result, [], drop, err, false, get_or, if◌then◌else◌, is_empty, is_some,
  length, ltb, ltb_ℤ, none, not, ok, pos, pos_part, slice, some, take, true, ℕ, ℤ, ◌&&◌, ◌*◌, ◌++◌,
  ◌+◌, ◌==◌, ◌∷◌,
}
use lumine_android.Policy.Types.{
  Policy, Mode, mode_tls_rf, mode_ttl_d, mode_block, mode_tls_alert, is_true, is_mode_tls_alert,
}
use lumine_android.Policy.Merge.{merge_policies}
use lumine_android.Resolve.Plan.{DialPlan}
use lumine_android.Resolve.Redirect.{is_ipv6}
use lumine_android.Tls.Parse.{no_fuel, Hello, failed, panic, parse_client_hello}
use lumine_android.Ttl.Apply.{CalcError, get_fake_ttl}
use lumine_android.Tunnel.Wire.{
  Wire, Outcome, eof, fault, ttl_failed, desync_failed, desync, close, access_denied, level_fatal,
  make_event, protocol_version, send_by_records, tls_alert, write_wire,
}

-- What the connection reads of its surroundings. `detect`, `calc` and `cached` are the arguments of
-- `get_fake_ttl`; `address` is `plan.TargetAddress()`.
pub record BridgeEnv : Type 0 where
  pub succeeds : ℕ → Bool
  pub find_domain : Bytes → Option Policy
  pub address : DialPlan → Bytes
  pub detect : Bytes → Bool → ℤ → ℤ → ℤ → Result (Unit {0}) ℤ
  pub calc : Option (ℤ → Result CalcError ℤ)
  pub cached : Bytes → Option ℤ

pub record TunPolicyConn : Type 0 where
  pub plan : DialPlan
  pub handled : Bool
  pub closed : Bool
  pub pending : Bytes

-- `WrapTCPConn`
abbrev pub wrap_tcp_conn : DialPlan → TunPolicyConn
wrap_tcp_conn plan = record { plan = plan; handled = false; closed = false; pending = [] }

abbrev pub has_name : Hello → Bool
has_name h = ltb_ℤ (pos 0) h.sni_start && ltb 0 h.sni_len

-- `record[sniStart : sniStart+sniLen]`
abbrev pub sni_of : Bytes → Hello → Bytes
sni_of record_ h = slice record_ (pos_part h.sni_start) (pos_part h.sni_start + h.sni_len)

-- `recordLen`, and the test for a TLS handshake, at five bytes or more.
abbrev pub record_length : Bytes → ℕ
record_length pending = 5 + get_or pending 3 0 * 256 + get_or pending 4 0

abbrev pub is_handshake : Bytes → Bool
is_handshake pending = get_or pending 0 0 == 0x16 && get_or pending 1 0 == 3

module _ (env : BridgeEnv) where
  -- `sendTLSAlert`, whose error goes to the log, and `Close`.
  unfoldable pub refuse_with_alert : Hello → ℕ → Wire → Outcome × Wire
  unfolding make_event
  refuse_with_alert h desc w =
      (some eof, (write_wire env.succeeds (tls_alert h.prt_ver desc level_fatal) w).1 ++ close ∷ [])

  -- The policy behind the SNI's own.
  unfoldable pub sni_policy : Bytes → Hello → Policy → Policy
  unfolding merge_policies
  sni_policy record_ h p =
      if has_name h
      then (elim (env.find_domain (sni_of record_ h)) [
        | none ↦ p
        | some d ↦ merge_policies (d ∷ p ∷ [])
      ])
      else p

  unfoldable pub send_by_desync : DialPlan → Policy → Bytes → Hello → Wire → Outcome × Wire
  unfolding get_fake_ttl make_event
  send_by_desync plan p record_ h w =
      let addr = env.address plan in
      elim (get_fake_ttl env.detect env.calc (env.cached addr) p addr (is_ipv6 plan.target_host)) [
        | err e ↦ (some ttl_failed, w)
        | ok ttl ↦
            make_event env.succeeds (desync record_ h.sni_start ttl p.fake_sleep) desync_failed w
      ]

  -- The two `switch` statements on the mode.
  unfoldable pub forward_by_mode : Mode → DialPlan → Policy → Bytes → Hello → Wire → Outcome × Wire
  unfolding send_by_records send_by_desync refuse_with_alert make_event
  forward_by_mode mode_block plan p record_ h w = (some eof, w ++ close ∷ [])
  forward_by_mode mode_tls_alert plan p record_ h w = refuse_with_alert h access_denied w
  forward_by_mode mode_tls_rf plan p record_ h w =
      send_by_records env.succeeds p record_ h.sni_start h.sni_len w
  forward_by_mode mode_ttl_d plan p record_ h w = send_by_desync plan p record_ h w
  forward_by_mode _ plan p record_ h w = write_wire env.succeeds record_ w

  unfoldable pub handle_hello : DialPlan → Bytes → Hello → Wire → Outcome × Wire
  unfolding sni_policy forward_by_mode refuse_with_alert
  handle_hello plan record_ h w =
      if is_mode_tls_alert plan.policy.mode
      then refuse_with_alert h access_denied w
      else if is_true plan.policy.tls13_only && not h.has_key_share
      then refuse_with_alert h protocol_version w
      else let p = sni_policy record_ h plan.policy in forward_by_mode p.mode plan p record_ h w

  unfoldable pub flush_pending : Bytes → Wire → Outcome × Wire
  unfolding make_event
  flush_pending pending w =
      if is_empty pending then (none, w) else write_wire env.succeeds pending w

  -- `handleTLSRecordLocked`, with the bytes that are pending. After a parse error they are sent.
  unfoldable pub handle_tls_record : DialPlan → Bytes → Bytes → Wire → Outcome × Wire
  unfolding handle_hello flush_pending parse_client_hello
  handle_tls_record plan pending record_ w = elim (parse_client_hello record_) [
    | ok h ↦ handle_hello plan record_ h w
    | err (failed h e) ↦ flush_pending pending w
    | err panic ↦ (some fault, w)
    | err no_fuel ↦ (some fault, w)
  ]

  -- The end of `tryHandlePendingLocked`: the tail behind the record.
  unfoldable pub write_tail : Bytes → Outcome × Wire → Outcome × Wire
  unfolding make_event
  write_tail tail (some e, w) = (some e, w)
  write_tail tail (none, w) = if is_empty tail then (none, w) else write_wire env.succeeds tail w

  -- `handled`, the error, the connection and the operations made.
  unfoldable pub try_handle_pending : TunPolicyConn → Wire → Bool × Outcome × TunPolicyConn × Wire
  unfolding handle_tls_record write_tail flush_pending
  try_handle_pending c w =
      let settle : Outcome × Wire → Bool × Outcome × TunPolicyConn × Wire =
        λ r. (true, r.0, record c { handled = true; closed = is_some r.0; pending = [] }, r.1) in
      if ltb (length c.pending) 5
      then (false, none, c, w)
      else if not (is_handshake c.pending)
      then settle (flush_pending c.pending w)
      else if ltb (length c.pending) (record_length c.pending)
      then (false, none, c, w)
      else let n = record_length c.pending in
        settle
          (write_tail (drop n c.pending) (handle_tls_record c.plan c.pending (take n c.pending) w))

  -- The count and the error.
  unfoldable pub write_conn : Bytes → TunPolicyConn → Wire → (ℕ × Outcome) × TunPolicyConn × Wire
  unfolding try_handle_pending make_event
  write_conn b c w =
      if c.closed
      then ((0, some eof), c, w)
      else if c.handled
      then (let r = write_wire env.succeeds b w in
          ((if is_some r.0 then 0 else length b, r.0), c, r.1))
      else (let r = try_handle_pending (record c { pending = c.pending ++ b }) w in
          ((if r.0 && is_some r.1 then 0 else length b, if r.0 then r.1 else none), r.2, r.3))
