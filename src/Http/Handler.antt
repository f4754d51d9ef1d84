-- ===== src/Http/Handler.antt =====
-- internal/http.go `httpHandler`, `handleConnect` and `forwardHTTPRequest`. The log is left out, and
-- so are the body and the headers of what is forwarded.
use lumine_android.Policy.Types.{Policy, is_mode_block, is_true}
use lumine_android.Resolve.Env.{Pools}
use lumine_android.Resolve.GenPolicy.{Verdict, blocked, domain_not_found, failed, found, gen_policy}
use lumine_android.Tunnel.HandleTls.{port_of}
use lumine_android.Tunnel.HandleTunnel.{TunnelStart}
use lumine_android.Tunnel.State.{TunnelEnv, TunnelEvent, dialed, replied, requested, to_client}
use lumine_android.Prelude.{
  Bool, Bytes, List, Option, [], bytes_eq, codes, false, if◌then◌else◌, is_empty, length, none, not,
  pos, some, unset_int, ℕ, ℤ, ◌++◌, ◌==ℤ◌, ◌||◌, ◌∷◌,
}

-- `split_host_port` is `net.SplitHostPort`; `can_hijack` and `hijacks` say whether the response
-- writer can be and is taken over, and `accepts` whether a write to the client behind so many
-- events is taken. `transport_dials` are the addresses, for a target and a scheme, at which
-- `RoundTrip` asks for connections, and `round_trip` is the status that it gives behind their
-- outcomes. The connections are the transport's to close, which is not followed here.
pub record HttpEnv : Type 0 where
  pub tunnel : TunnelEnv
  pub split_host_port : Bytes → Option (Bytes × Bytes)
  pub can_hijack : Bool
  pub hijacks : Bool
  pub accepts : ℕ → Bool
  pub has_transport : Bool
  pub transport_dials : Bytes → Bytes → List Bytes
  pub round_trip : Bytes → Bytes → List Bool → Option ℤ

pub record ProxyRequest : Type 0 where
  pub is_connect : Bool
  pub is_abs : Bool
  pub host : Bytes
  pub url_host : Bytes
  pub scheme : Bytes
  pub request_uri : Bytes

pub record HttpState : Type 0 where
  pub pools : Pools
  pub events : List TunnelEvent

-- The tunnel that a request starts, if it starts one.
abbrev pub Served : Type 0
Served = Option TunnelStart × HttpState

abbrev crlf_twice : Bytes
crlf_twice = 13 ∷ 10 ∷ 13 ∷ 10 ∷ []

abbrev pub bad_gateway : Bytes
bad_gateway = codes "HTTP/1.1 502 Bad Gateway" ++ crlf_twice

abbrev pub connection_established : Bytes
connection_established = codes "HTTP/1.1 200 Connection Established" ++ crlf_twice

abbrev pub add_event : TunnelEvent → HttpState → HttpState
add_event e s = record s { events = s.events ++ e ∷ [] }

-- `http.Error`, or a status with the header `Location`.
abbrev pub respond : ℕ → HttpState → Served
respond status s = (none, add_event (replied (record { status = pos status; location = none })) s)

module _ (env : HttpEnv) where
  -- The answer to CONNECT, on the connection that was taken over.
  unfoldable pub reply_established : TunnelStart → HttpState → Served
  reply_established t s = (
    if env.accepts (length s.events) then some t else none,
    add_event (to_client connection_established) s,
  )

  unfoldable pub dial_or_refuse : TunnelStart → HttpState → Served
  unfolding reply_established
  dial_or_refuse t s =
      let up = env.tunnel.dial (length s.events) t.target in
      let s' = add_event (dialed t.target up) s in
      if up
      then reply_established (record t { server = some t.target }) s'
      else (none, add_event (to_client bad_gateway) s')

  unfoldable pub hijack_and_dial : TunnelStart → HttpState → Served
  unfolding dial_or_refuse reply_established
  hijack_and_dial t s =
      if not env.can_hijack
      then respond 500 s
      else if not env.hijacks
      then respond 500 s
      else if is_true t.policy.reply_first
      then reply_established t s
      else dial_or_refuse t s

  abbrev pub start_of : Bytes → Bytes → Bytes → Policy → TunnelStart
  start_of origin port dst p = record {
    policy = p;
    server = none;
    target = env.tunnel.join_host_port dst (port_of env.tunnel port p);
    origin_host = origin;
    origin_port = port;
  }

  -- `genPolicy` is not asked to say `domain_not_found`, which would leave the policy nil.
  unfoldable pub connect_verdict : Bytes → Bytes → Verdict → HttpState → Served
  unfolding hijack_and_dial
  connect_verdict origin port failed s = respond 500 s
  connect_verdict origin port blocked s = respond 403 s
  connect_verdict origin port domain_not_found s = (none, s)
  connect_verdict origin port (found dst p) s =
      if is_mode_block p.mode then respond 403 s else hijack_and_dial (start_of origin port dst p) s

  unfoldable pub connect_host : Bytes → Bytes → HttpState → Served
  unfolding connect_verdict gen_policy
  connect_host origin port s =
      let r = gen_policy env.tunnel.resolve origin false false s.pools in
      connect_verdict origin port r.0 (record s { pools = r.1 })

  -- A host without a port gets no answer here.
  unfoldable pub connect_split : Option (Bytes × Bytes) → HttpState → Served
  unfolding connect_host
  connect_split none s = (none, s)
  connect_split (some (origin, port)) s = connect_host origin port s

  unfoldable pub handle_connect : ProxyRequest → HttpState → Served
  unfolding connect_split
  handle_connect req s =
      if is_empty req.host then respond 400 s else connect_split (env.split_host_port req.host) s

  -- The transport dials with `dial.DialTimeout`, or by itself without a timeout.
  unfoldable pub dial_all : List Bytes → HttpState → List Bool × HttpState
  dial_all [] s = ([], s)
  dial_all (address ∷ rest) s =
      let up = env.tunnel.dial (length s.events) address in
      let r = dial_all rest (add_event (dialed address up) s) in (up ∷ r.0, r.1)

  unfoldable pub answer_client : Option ℤ → HttpState → HttpState
  answer_client none s = add_event (replied (record { status = pos 502; location = none })) s
  answer_client (some status) s =
      add_event (replied (record { status = status; location = none })) s

  -- `transport.RoundTrip`, and the server's answer.
  unfoldable pub forward_to : Bytes → Bytes → HttpState → HttpState
  unfolding dial_all answer_client
  forward_to target scheme s =
      let d = dial_all (env.transport_dials target scheme) s in
      answer_client (env.round_trip target scheme d.0) (add_event requested d.1)

  abbrev pub location_of : ProxyRequest → Bytes → Bytes
  location_of req host =
      (if is_empty req.scheme then codes "https" else req.scheme)
      ++ (codes "://" ++ (host ++ req.request_uri))

  -- The answer that a policy names, or the request sent on.
  unfoldable pub forward_policy :
      ProxyRequest → Bytes → Bytes → Bytes → Policy → HttpState → HttpState
  unfolding forward_to
  forward_policy req host port dst p s =
      let status = p.http_status in
      if not (status ==ℤ pos 0 || status ==ℤ unset_int)
      then (let moved = status ==ℤ pos 301 || status ==ℤ pos 302 in
          add_event
            (replied (record {
              status = status;
              location = if moved then some (location_of req host) else none;
            }))
            s)
      else if not env.has_transport
      then (respond 500 s).1
      else forward_to (env.tunnel.join_host_port dst (port_of env.tunnel port p))
          (if is_empty req.scheme then codes "http" else req.scheme) s

  unfoldable pub forward_verdict : ProxyRequest → Bytes → Bytes → Verdict → HttpState → HttpState
  unfolding forward_policy
  forward_verdict req host port failed s = (respond 500 s).1
  forward_verdict req host port blocked s = (respond 403 s).1
  forward_verdict req host port domain_not_found s = s
  forward_verdict req host port (found dst p) s = forward_policy req host port dst p s

  -- Without a port in the host the scheme decides.
  abbrev pub split_or_default : ProxyRequest → Bytes → Bytes × Bytes
  split_or_default req host = elim (env.split_host_port host) [
    | some p ↦ p
    | none ↦ (host, if bytes_eq req.scheme (codes "https") then codes "443" else codes "80")
  ]

  unfoldable pub forward_http_request : ProxyRequest → HttpState → HttpState
  unfolding forward_verdict gen_policy
  forward_http_request req s =
      let host = if is_empty req.host then req.url_host else req.host in
      if is_empty host
      then (respond 400 s).1
      else let split = split_or_default req host in
        let r = gen_policy env.tunnel.resolve split.0 false false s.pools in
        forward_verdict req host split.1 r.0 (record s { pools = r.1 })

  unfoldable pub http_handler : ProxyRequest → HttpState → Served
  unfolding handle_connect forward_http_request
  http_handler req s =
      if req.is_connect
      then handle_connect req s
      else if not req.is_abs
      then respond 403 s
      else (none, forward_http_request req s)
