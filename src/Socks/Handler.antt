-- ===== src/Socks/Handler.antt =====
-- internal/socks5.go `socks5Handler`. The client's bytes are a list, and reading more than there are
-- is an error. The log is left out.
use lumine_android.Policy.Types.{Policy, is_true}
use lumine_android.Resolve.Env.{Pools}
use lumine_android.Resolve.GenPolicy.{Verdict, blocked, domain_not_found, failed, found, gen_policy}
use lumine_android.Tunnel.HandleTunnel.{FirstPacket, TunnelEnd, ended, handle_tunnel, TunnelStart}
use lumine_android.Tunnel.State.{TunnelEnv, TunnelEvent, TunnelState, dialed, to_client}
use lumine_android.Prelude.{
  Bool, Bytes, List, Result, [], drop, err, false, get_or, if◌then◌else◌, length, ltb, negsuc, none,
  not, ok, pos, replicate, some, take, true, unset_int, ℕ, ℤ, ◌%◌, ◌*◌, ◌++◌, ◌+◌, ◌-◌, ◌==ℤ◌, ◌==◌,
  ◌^◌, ◌||◌, ◌∷◌,
}

-- `accepts` says whether the client's connection takes a write behind so many events; `ip_string` is
-- `net.IP.String` and `format_uint` is `F.Uint`.
pub record SocksEnv : Type 0 where
  pub tunnel : TunnelEnv
  pub accepts : ℕ → Bool
  pub ip_string : Bytes → Bytes
  pub format_uint : ℕ → Bytes

pub record SocksClient : Type 0 where
  pub input : Bytes
  pub pools : Pools
  pub events : List TunnelEvent

pub data SocksError : Type 0 where
  read_failed bad_version no_auth_missing write_failed command_not_supported : SocksError
  domain_too_long atyp_not_supported policy_failed connection_blocked dial_failed nil_policy :
      SocksError

abbrev pub no_auth_reply : Bytes
no_auth_reply = 5 ∷ 0 ∷ []

-- The replies differ in their second byte.
abbrev pub reply_of : ℕ → Bytes
reply_of code = 5 ∷ code ∷ 0 ∷ 1 ∷ replicate 6 0

abbrev pub success : ℕ
success = 0

abbrev pub server_failure : ℕ
server_failure = 1

abbrev pub conn_not_allowed : ℕ
conn_not_allowed = 2

abbrev pub cmd_not_supported : ℕ
cmd_not_supported = 7

abbrev pub addr_not_supported : ℕ
addr_not_supported = 8

-- A step gives a value or an error, and the client behind it.
abbrev pub Stepped : Type 0 → Type 0
Stepped A = Result SocksError A × SocksClient

abbrev pub and_then : {A B : Type 0} → Stepped A → (A → SocksClient → Stepped B) → Stepped B
and_then (err e, c) next = (err e, c)
and_then (ok a, c) next = next a c

-- `readN`
unfoldable pub read_n : ℕ → SocksClient → Stepped Bytes
read_n n c =
    if ltb (length c.input) n
    then (err read_failed, record c { input = [] })
    else (ok (take n c.input), record c { input = drop n c.input })

-- `slices.Contains(methods, 0x0)`
unfoldable pub contains_zero : Bytes → Bool
contains_zero [] = false
contains_zero (m ∷ ms) = m == 0 || contains_zero ms

-- `uint16(n)` of an int.
abbrev pub to_uint16 : ℤ → ℕ
to_uint16 (pos n) = n % 2 ^ 16
to_uint16 (negsuc n) = 2 ^ 16 - 1 - n % 2 ^ 16

module _ (env : SocksEnv) where
  unfoldable pub write_client : Bytes → SocksClient → Stepped (Unit {0})
  write_client bytes c = (
    if env.accepts (length c.events) then ok tt else err write_failed,
    record c { events = c.events ++ to_client bytes ∷ [] },
  )

  -- A reply in front of giving up; whether it is taken does not matter.
  unfoldable pub refuse : {A : Type 0} → ℕ → SocksError → SocksClient → Stepped A
  unfolding write_client
  refuse code e c = (err e, (write_client (reply_of code) c).1)

  unfoldable pub select_method : SocksClient → Stepped (Unit {0})
  unfolding read_n write_client contains_zero
  select_method c = and_then (read_n 2 c) λ header c.
      if not (get_or header 0 0 == 5)
      then (err bad_version, c)
      else and_then (read_n (get_or header 1 0) c) λ methods c.
        if contains_zero methods then write_client no_auth_reply c else (err no_auth_missing, c)

  -- The type of the address.
  unfoldable pub read_command : SocksClient → Stepped ℕ
  unfolding read_n refuse
  read_command c = and_then (read_n 4 c) λ header c.
      if not (get_or header 0 0 == 5)
      then (err bad_version, c)
      else if not (get_or header 1 0 == 1)
      then refuse cmd_not_supported command_not_supported c
      else (ok (get_or header 3 0), c)

  unfoldable pub read_domain : SocksClient → Stepped (Bytes × Bool)
  unfolding read_n
  read_domain c = and_then (read_n 1 c) λ len c.
      if ltb 253 (get_or len 0 0)
      then (err domain_too_long, c)
      else and_then (read_n (get_or len 0 0) c) λ domain c. (ok (domain, false), c)

  unfoldable pub read_ip : ℕ → SocksClient → Stepped (Bytes × Bool)
  unfolding read_n
  read_ip n c = and_then (read_n n c) λ ip c. (ok (env.ip_string ip, true), c)

  -- `originHost` and `isIP`
  unfoldable pub read_host : ℕ → SocksClient → Stepped (Bytes × Bool)
  unfolding read_ip read_domain refuse
  read_host atyp c =
      if atyp == 1
      then read_ip 4 c
      else if atyp == 4
      then read_ip 16 c
      else if atyp == 3
      then read_domain c
      else refuse addr_not_supported atyp_not_supported c

  -- Behind the dial: the reply, and what the tunnel is started with.
  unfoldable pub reply_success : TunnelStart → SocksClient → Stepped TunnelStart
  unfolding write_client
  reply_success t c = and_then (write_client (reply_of success) c) λ _ c. (ok t, c)

  unfoldable pub dial_target : TunnelStart → SocksClient → Stepped TunnelStart
  unfolding reply_success refuse
  dial_target t c =
      let up = env.tunnel.dial (length c.events) t.target in
      let c' : SocksClient = record c { events = c.events ++ dialed t.target up ∷ [] } in
      if up
      then reply_success (record t { server = some t.target }) c'
      else refuse server_failure dial_failed c'

  -- The target, with the policy's port in place of the client's.
  abbrev pub new_tunnel : Bytes → Bytes → Policy → ℕ → TunnelStart
  new_tunnel origin dst p port =
      let dst_port = if p.port ==ℤ pos 0 || p.port ==ℤ unset_int then port else to_uint16 p.port in
      record {
        policy = p;
        server = none;
        target = env.tunnel.join_host_port dst (env.format_uint dst_port);
        origin_host = origin;
        origin_port = env.format_uint port;
      }

  -- The dial, unless the reply comes first.
  unfoldable pub connect_target : Bytes → Bytes → Policy → ℕ → SocksClient → Stepped TunnelStart
  unfolding dial_target reply_success
  connect_target origin dst p port c =
      if is_true p.reply_first
      then reply_success (new_tunnel origin dst p port) c
      else dial_target (new_tunnel origin dst p port) c

  -- `genPolicy` is not asked to say `domain_not_found`, which would leave the policy nil.
  unfoldable pub serve_verdict : Bytes → Verdict → SocksClient → Stepped TunnelStart
  unfolding refuse read_n connect_target
  serve_verdict origin failed c = refuse server_failure policy_failed c
  serve_verdict origin blocked c = refuse conn_not_allowed connection_blocked c
  serve_verdict origin domain_not_found c = (err nil_policy, c)
  serve_verdict origin (found dst p) c =
      and_then (read_n 2 c)
        λ bytes c. connect_target origin dst p (get_or bytes 0 0 * 256 + get_or bytes 1 0) c

  unfoldable pub serve_host : Bytes → Bool → SocksClient → Stepped TunnelStart
  unfolding serve_verdict gen_policy
  serve_host origin is_ip c =
      let r = gen_policy env.tunnel.resolve origin is_ip false c.pools in
      serve_verdict origin r.0 (record c { pools = r.1 })

  unfoldable pub socks5_handler : SocksClient → Stepped TunnelStart
  unfolding select_method read_command read_host serve_host
  socks5_handler c = and_then (select_method c) λ _ c.
      and_then (read_command c)
        λ atyp c. and_then (read_host atyp c) λ host c. serve_host host.0 host.1 c

  -- The tunnel behind the handler, with what the client sends first.
  abbrev pub tunnel_state : TunnelStart → SocksClient → TunnelState
  tunnel_state t c = record {
    policy = t.policy;
    target = t.target;
    server = t.server;
    pools = c.pools;
    events = c.events;
  }

  unfoldable pub start_tunnel :
      (Bytes → FirstPacket) → Stepped TunnelStart → TunnelEnd × List TunnelEvent
  unfolding handle_tunnel
  start_tunnel packet_of (err e, c) = (ended, c.events)
  start_tunnel packet_of (ok t, c) =
      let r =
        handle_tunnel env.tunnel t.origin_host t.origin_port (packet_of c.input)
          (tunnel_state t c) in
      (r.0, r.1.events)

  unfoldable pub serve_socks5 : (Bytes → FirstPacket) → SocksClient → TunnelEnd × List TunnelEvent
  unfolding start_tunnel socks5_handler
  serve_socks5 packet_of c = start_tunnel packet_of (socks5_handler c)
