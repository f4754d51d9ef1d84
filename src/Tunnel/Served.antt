-- ===== src/Tunnel/Served.antt =====
-- internal/tunnel.go. How `handleTunnel` ends.
use lumine_android.Prelude.{
  Bool, Bool-cases, Bytes, Option, [], arith, false, if◌then◌else◌, inl, inr, is_some, none, pos,
  refl, some, suc, true, unset_int, ℕ, ◌+◌, ◌==ℤ◌, ◌||◌, ◌∷◌, ◌≡◌,
}
use lumine_android.Policy.Types.{is_mode_raw}
use lumine_android.Tunnel.Counts.{opened, closed_count, open_count, IsBalanced}
use lumine_android.Tunnel.Balance.{handle_tls-IsBalanced, ensure_server-IsBalanced, add_events}
use lumine_android.Tunnel.HandleTls.{handle_tls}
use lumine_android.Tunnel.HandleTunnel.{
  FirstPacket, HttpRequest, handle_http, after_handler, start_forwarding, forward_by, unread,
  http_request, close_both, handle_packet, forward_request, forwarding, ended, tls_record, unknown,
  handle_tunnel, crashed,
}
use lumine_android.Tunnel.State.{
  Handled, goes_on, gives_up, crashes, TunnelState, TunnelEnv, HttpReply, replied, requested,
  ensure_server,
}

-- All connections given and opened are closed but one.
pub record HasOne (given : ℕ) (s : TunnelState) : Type 0 where
  pub one_left : opened s.events + given ≡ suc (closed_count s.events)

pub ended-forwarding : (address : Bytes) → ¬ (ended ≡ forwarding address)
ended-forwarding address e = cc

crashed-forwarding : (address : Bytes) → ¬ (crashed ≡ forwarding address)
crashed-forwarding address e = cc

open_count-some : (s : TunnelState) → is_some s.server ≡ true → open_count s ≡ 1
open_count-some s h = rw h refl

module _ (env : TunnelEnv) (origin_host origin_port : Bytes) where
  forward_by-HasOne :
      (given : ℕ) (o : Option Bytes) (address : Bytes) (s : TunnelState)
      → s.server ≡ o
      → IsBalanced given s
      → (forward_by env o s).0 ≡ forwarding address
      → HasOne given (forward_by env o s).1
  unfolding forward_by
  forward_by-HasOne given none address s k b e = elim (ended-forwarding address e) [ ]
  forward_by-HasOne given (some a) address s k b e = record {
    one_left = omega (arith, open_count-some s (rw k refl), b.balance);
  }

  start_forwarding-HasOne :
      (given : ℕ) (address : Bytes) (s : TunnelState)
      → IsBalanced given s
      → (start_forwarding env s).0 ≡ forwarding address
      → HasOne given (start_forwarding env s).1
  unfolding start_forwarding
  start_forwarding-HasOne given address s b e = forward_by-HasOne given s.server address s refl b e

  after_handler-HasOne :
      (given : ℕ) (own : Option Bytes) (address : Bytes) (r : Handled × TunnelState)
      → IsBalanced given r.1
      → (after_handler env own r).0 ≡ forwarding address
      → HasOne given (after_handler env own r).1
  unfolding after_handler
  after_handler-HasOne given own address (goes_on, s) b e =
      start_forwarding-HasOne given address s b e
  after_handler-HasOne given own address (gives_up, s) b e = elim (ended-forwarding address e) [ ]
  after_handler-HasOne given own address (crashes, s) b e = elim (crashed-forwarding address e) [ ]

  forward_request-IsBalanced :
      (given : ℕ) (s : TunnelState)
      → IsBalanced given s
      → IsBalanced given (forward_request env s).1
  unfolding forward_request
  forward_request-IsBalanced given s b =
      let r = ensure_server env s in
      let c = ensure_server-IsBalanced env given s b in
      let bad : HttpReply = record { status = pos 502; location = none } in
      elim (Bool-cases r.0) [
        | inl h ↦ rw h (add_events env given r.1 (requested ∷ []) refl refl c)
        | inr h ↦ rw h (add_events env given r.1 (replied bad ∷ []) refl refl c)
      ]

  handle_http-IsBalanced :
      (given : ℕ) (req : HttpRequest) (s : TunnelState)
      → IsBalanced given s
      → IsBalanced given (handle_http env origin_host req s).1
  unfolding handle_http
  handle_http-IsBalanced given req s b =
      let status = s.policy.http_status in
      elim (Bool-cases (status ==ℤ pos 0 || status ==ℤ unset_int)) [
        | inl h ↦ rw h (forward_request-IsBalanced given s b)
        | inr h ↦ rw h (add_events env given s (replied _ ∷ []) refl refl b)
      ]

  packet-HasOne :
      (given : ℕ) (packet : FirstPacket) (address : Bytes) (s : TunnelState)
      → IsBalanced given s
      → (handle_packet env origin_host origin_port packet s).0 ≡ forwarding address
      → HasOne given (handle_packet env origin_host origin_port packet s).1
  unfolding handle_packet
  packet-HasOne given unread address s b e = elim (ended-forwarding address e) [ ]
  packet-HasOne given (tls_record r) address s b e =
      after_handler-HasOne given s.server address (handle_tls env origin_host origin_port r s)
        (handle_tls-IsBalanced env given origin_host origin_port r s b) e
  packet-HasOne given (http_request none) address s b e =
      start_forwarding-HasOne given address s b e
  packet-HasOne given (http_request (some req)) address s b e =
      after_handler-HasOne given s.server address (handle_http env origin_host req s)
        (handle_http-IsBalanced given req s b) e
  packet-HasOne given unknown address s b e = start_forwarding-HasOne given address s b e

  raw_end :
      (given : ℕ) (address : Bytes) (r : Bool × TunnelState)
      → IsBalanced given r.1
      → (if r.0 then start_forwarding env r.1 else (ended, close_both env r.1)).0
        ≡ forwarding address
      → HasOne given (if r.0 then start_forwarding env r.1 else (ended, close_both env r.1)).1
  raw_end given address (true, s) b e = start_forwarding-HasOne given address s b e
  raw_end given address (false, s) b e = elim (ended-forwarding address e) [ ]

  given_up :
      (given : ℕ) (own : Option Bytes) (r : Handled × TunnelState)
      → IsBalanced given r.1
      → r.0 ≡ gives_up
      → is_some r.1.server ≡ true
      → let t = after_handler env own r in
        (t.0 ≡ ended) × (opened t.1.events + given ≡ suc (closed_count t.1.events))
  unfolding after_handler
  given_up given own (goes_on, s) b h k = cc
  given_up given own (crashes, s) b h k = cc
  given_up given own (gives_up, s) b h k = (refl, omega (arith, open_count-some s k, b.balance))

  -- A tunnel, not in the mode `raw` and with its connections accounted for at the start, whose
  -- ClientHello `handleTLS` gives up on without a panic while a server's connection is there, ends
  -- with one more connection given and opened than closed: `handleTLS` returns a nil connection,
  -- which hides the server's from `closeBoth`.
  pub handle_tunnel-handle_tls :
      (given : ℕ) (record_ : Option Bytes) (s : TunnelState)
      → IsBalanced given s
      → is_mode_raw s.policy.mode ≡ false
      → (handle_tls env origin_host origin_port record_ s).0 ≡ gives_up
      → is_some (handle_tls env origin_host origin_port record_ s).1.server ≡ true
      → (let r = handle_tunnel env origin_host origin_port (tls_record record_) s in
          (r.0 ≡ ended) × (opened r.1.events + given ≡ suc (closed_count r.1.events)))
  unfolding handle_tunnel
  handle_tunnel-handle_tls given record_ s b h e k =
      let c = handle_tls-IsBalanced env given origin_host origin_port record_ s b in
      rw h (given_up given s.server (handle_tls env origin_host origin_port record_ s) c e k)

  -- A tunnel that goes on to copy bytes, of whatever protocol and in whatever mode, has closed all
  -- the connections given and opened but one, if its connections are accounted for at the start.
  pub handle_tunnel-HasOne :
      (given : ℕ) (packet : FirstPacket) (address : Bytes) (s : TunnelState)
      → IsBalanced given s
      → (handle_tunnel env origin_host origin_port packet s).0 ≡ forwarding address
      → HasOne given (handle_tunnel env origin_host origin_port packet s).1
  unfolding handle_tunnel
  handle_tunnel-HasOne given packet address s b = elim (Bool-cases (is_mode_raw s.policy.mode)) [
    | inl h ↦
        rw h (raw_end given address (ensure_server env s) (ensure_server-IsBalanced env given s b))
    | inr h ↦ rw h (packet-HasOne given packet address s b)
  ]
