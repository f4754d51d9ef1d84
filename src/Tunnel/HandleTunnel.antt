-- ===== src/Tunnel/HandleTunnel.antt =====
-- internal/tunnel.go `handleHTTP` and `handleTunnel`, up to the copying of bytes.
use lumine_android.Policy.Types.{is_mode_raw, Policy}
use lumine_android.Prelude.{
  Bool, Bytes, List, Option, [], codes, false, get_or, has_prefix, if◌then◌else◌, is_empty, length,
  none, not, pos, some, unset_int, ◌&&◌, ◌++◌, ◌==ℤ◌, ◌==◌, ◌||◌, ◌∷◌,
}
use lumine_android.Tunnel.State.{
  Handled, goes_on, gives_up, crashes, TunnelEnv, TunnelState, replied, requested, close_server,
  ensure_server, log_event,
}
use lumine_android.Tunnel.HandleTls.{handle_tls}

-- What a front end starts a tunnel with.
pub record TunnelStart : Type 0 where
  pub policy : Policy
  pub server : Option Bytes
  pub target : Bytes
  pub origin_host : Bytes
  pub origin_port : Bytes

-- What is read of a request.
pub record HttpRequest : Type 0 where
  pub host : Bytes
  pub url_host : Bytes
  pub request_uri : Bytes

abbrev pub request_host : Bytes → HttpRequest → Bytes
request_host origin_host req =
    if not (is_empty req.host)
    then req.host
    else if not (is_empty req.url_host)
    then req.url_host
    else origin_host

-- What the client's connection gives: nothing in ten bytes, a TLS record (`none` where it cannot be
-- read), an HTTP request (`none` where it does not parse), or something else.
pub data FirstPacket : Type 0 where
  unread : FirstPacket
  tls_record : Option Bytes → FirstPacket
  http_request : Option HttpRequest → FirstPacket
  unknown : FirstPacket

-- `bytesHasPrefix`
unfoldable pub bytes_has_prefix : Bytes → List Bytes → Bool
bytes_has_prefix b [] = false
bytes_has_prefix b (p ∷ ps) = has_prefix b p || bytes_has_prefix b ps

abbrev pub http_methods : List Bytes
http_methods =
    codes "GET "
    ∷ codes "POST "
    ∷ codes "HEAD "
    ∷ codes "PUT "
    ∷ codes "DELETE "
    ∷ codes "OPTIONS "
    ∷ codes "TRACE "
    ∷ codes "PATCH "
    ∷ []

-- The protocol of the ten bytes that are looked at.
unfoldable pub classify : Bytes → Option Bytes → Option HttpRequest → FirstPacket
unfolding bytes_has_prefix
classify peeked record_ req =
    if get_or peeked 0 0 == 0x16 && get_or peeked 1 0 == 3
    then tls_record record_
    else if bytes_has_prefix peeked http_methods
    then http_request req
    else unknown

-- How a tunnel goes on: it copies bytes to and from a server, or it has ended, or a panic ends the
-- process.
pub data TunnelEnd : Type 0 where
  forwarding : Bytes → TunnelEnd
  ended crashed : TunnelEnd

module _ (env : TunnelEnv) where
  -- The answer that a policy names, or the request sent on.
  unfoldable pub send_request : TunnelState → Handled × TunnelState
  send_request s =
      (if env.succeeds (length s.events) then goes_on else gives_up, log_event requested s)

  unfoldable pub forward_request : TunnelState → Handled × TunnelState
  unfolding ensure_server send_request
  forward_request s =
      let r = ensure_server env s in
      if r.0
      then send_request r.1
      else (gives_up, log_event (replied (record { status = pos 502; location = none })) r.1)

  unfoldable pub reply_by_policy : Bytes → HttpRequest → TunnelState → TunnelState
  reply_by_policy origin_host req s =
      let status = s.policy.http_status in
      let moved = status ==ℤ pos 301 || status ==ℤ pos 302 in
      let url = codes "https://" ++ (request_host origin_host req ++ req.request_uri) in
      log_event (replied (record { status = status; location = if moved then some url else none }))
        s

  unfoldable pub handle_http : Bytes → HttpRequest → TunnelState → Handled × TunnelState
  unfolding forward_request reply_by_policy
  handle_http origin_host req s =
      if s.policy.http_status ==ℤ pos 0 || s.policy.http_status ==ℤ unset_int
      then forward_request s
      else (gives_up, reply_by_policy origin_host req s)

  -- `closeBoth`, for the server.
  unfoldable pub close_by : Option Bytes → TunnelState → TunnelState
  close_by none s = s
  close_by (some address) s = record s { server = none; events = s.events ++ close_server ∷ [] }

  unfoldable pub close_both : TunnelState → TunnelState
  unfolding close_by
  close_both s = close_by s.server s

  -- Behind the first packet: bytes are copied if there is a server.
  unfoldable pub forward_by : Option Bytes → TunnelState → TunnelEnd × TunnelState
  unfolding close_both
  forward_by none s = (ended, close_both s)
  forward_by (some address) s = (forwarding address, s)

  unfoldable pub start_forwarding : TunnelState → TunnelEnd × TunnelState
  unfolding forward_by
  start_forwarding s = forward_by s.server s

  -- `if dstConn, ok = handle(…); !ok { return }`: a handler that gives up returns a nil connection,
  -- which takes the place of the server's before `closeBoth`. A panic assigns nothing, and
  -- `closeBoth`, which is deferred, closes the connection that the handler was `given`.
  unfoldable pub after_handler : Option Bytes → Handled × TunnelState → TunnelEnd × TunnelState
  unfolding start_forwarding close_both
  after_handler given (goes_on, s) = start_forwarding s
  after_handler given (gives_up, s) = (ended, close_both (record s { server = none }))
  after_handler given (crashes, s) = (crashed, close_both (record s { server = given }))

  unfoldable pub handle_packet : Bytes → Bytes → FirstPacket → TunnelState → TunnelEnd × TunnelState
  unfolding after_handler handle_tls handle_http start_forwarding close_both
  handle_packet origin_host origin_port unread s = (ended, close_both s)
  handle_packet origin_host origin_port (tls_record record_) s =
      after_handler s.server (handle_tls env origin_host origin_port record_ s)
  handle_packet origin_host origin_port (http_request none) s = start_forwarding s
  handle_packet origin_host origin_port (http_request (some req)) s =
      after_handler s.server (handle_http origin_host req s)
  handle_packet origin_host origin_port unknown s = start_forwarding s

  unfoldable pub handle_tunnel : Bytes → Bytes → FirstPacket → TunnelState → TunnelEnd × TunnelState
  unfolding handle_packet ensure_server start_forwarding
  handle_tunnel origin_host origin_port packet s =
      if is_mode_raw s.policy.mode
      then (let r = ensure_server env s in
          if r.0 then start_forwarding r.1 else (ended, close_both r.1))
      else handle_packet origin_host origin_port packet s
