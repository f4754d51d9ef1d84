-- ===== src/Socks/Encoded.antt =====
-- internal/socks5.go. A client's greeting and CONNECT request for a domain, as RFC 1928 writes
-- them, and what the handler reads of them.
use lumine_android.Prelude.{
  Bytes, List, [], arith, drop-append, false, length, length-append, ltb, ltb-false, ok, refl,
  take-append, true, ℕ, ◌%◌, ◌*◌, ◌++◌, ◌+◌, ◌/◌, ◌<◌, ◌^◌, ◌∷◌, ◌≡◌, ◌≤◌,
}
use lumine_android.Policy.Types.{Policy}
use lumine_android.Resolve.Env.{Pools}
use lumine_android.Resolve.GenPolicy.{found, gen_policy}
use lumine_android.Tunnel.State.{TunnelEvent, to_client}
use lumine_android.Socks.Handler.{
  SocksEnv, SocksClient, read_n, contains_zero, no_auth_reply, select_method, read_command,
  read_domain, read_host, connect_target, serve_verdict, write_client, serve_host, socks5_handler,
}

abbrev pub greeting : Bytes → Bytes
greeting methods = 5 ∷ length methods ∷ methods

-- The port of a request, high byte first.
abbrev pub port_bytes : ℕ → Bytes
port_bytes port = port / 256 ∷ port % 256 ∷ []

abbrev pub connect_domain : Bytes → Bytes
connect_domain domain = 5 ∷ 1 ∷ 0 ∷ 3 ∷ length domain ∷ domain

abbrev pub client : Bytes → Pools → List TunnelEvent → SocksClient
client input pools events = record { input = input; pools = pools; events = events }

read_n-append :
    (xs rest : Bytes) (pools : Pools) (events : List TunnelEvent)
    → read_n (length xs) (client (xs ++ rest) pools events) ≡ (ok xs, client rest pools events)
unfolding read_n
read_n-append xs rest pools events =
    let enough : ltb (length (xs ++ rest)) (length xs) ≡ false =
      ltb-false (length (xs ++ rest)) (length xs) (omega (arith, length-append xs rest)) in
    rw (enough, take-append xs rest, drop-append xs rest) refl

module _ (env : SocksEnv) (pools : Pools) (events : List TunnelEvent) (rest : Bytes) where
  select_method-greeting :
      (methods : Bytes)
      → contains_zero methods ≡ true
      → env.accepts (length events) ≡ true
      → select_method env (client (greeting methods ++ rest) pools events)
        ≡ (ok tt, client rest pools (events ++ to_client no_auth_reply ∷ []))
  unfolding select_method write_client
  select_method-greeting methods h accepted =
      rw
        (
          read_n-append (5 ∷ length methods ∷ []) (methods ++ rest) pools events,
          read_n-append methods rest pools events,
          h,
          accepted,
        )
        refl

  read_command-connect :
      (atyp : ℕ)
      → read_command env (client (5 ∷ 1 ∷ 0 ∷ atyp ∷ rest) pools events)
        ≡ (ok atyp, client rest pools events)
  unfolding read_command
  read_command-connect atyp = rw (read_n-append (5 ∷ 1 ∷ 0 ∷ atyp ∷ []) rest pools events) refl

  read_host-domain :
      (domain : Bytes)
      → length domain ≤ 253
      → read_host env 3 (client (length domain ∷ (domain ++ rest)) pools events)
        ≡ (ok (domain, false), client rest pools events)
  unfolding read_host read_domain
  read_host-domain domain h =
      rw
        (
          read_n-append (length domain ∷ []) (domain ++ rest) pools events,
          ltb-false 253 (length domain) h,
          read_n-append domain rest pools events,
        )
        refl

  serve_verdict-port :
      (origin dst : Bytes) (p : Policy) (port : ℕ)
      → port < 2 ^ 16
      → serve_verdict env origin (found dst p) (client (port_bytes port ++ rest) pools events)
        ≡ connect_target env origin dst p port (client rest pools events)
  unfolding serve_verdict
  serve_verdict-port origin dst p port h =
      let same : port / 256 * 256 + port % 256 ≡ port = omega arith in
      rw (read_n-append (port_bytes port) rest pools events, same) refl

-- A client that offers no authentication among its methods, takes the first reply, and asks to be
-- connected to a domain of at most 253 bytes and a port below 2^16: where `genPolicy` finds a
-- destination, the handler dials and replies for just that domain, destination, policy and port,
-- and leaves the bytes behind the request unread.
pub socks5_handler-encoded :
    (env : SocksEnv) (pools : Pools) (methods domain dst rest : Bytes) (p : Policy) (port : ℕ)
    → contains_zero methods ≡ true
    → env.accepts 0 ≡ true
    → length domain ≤ 253
    → port < 2 ^ 16
    → (gen_policy env.tunnel.resolve domain false false pools).0 ≡ found dst p
    → socks5_handler env
        (client (greeting methods ++ (connect_domain domain ++ (port_bytes port ++ rest))) pools [])
      ≡ connect_target env domain dst p port (
          client rest
            (gen_policy env.tunnel.resolve domain false false pools).1
            (to_client no_auth_reply ∷ []))
unfolding socks5_handler serve_host
socks5_handler-encoded env pools methods domain dst rest p port h accepted long small decided =
    let events = to_client no_auth_reply ∷ [] in
    let after = port_bytes port ++ rest in
    let left = (gen_policy env.tunnel.resolve domain false false pools).1 in
    rw
      (
        select_method-greeting env pools [] (connect_domain domain ++ after) methods h accepted,
        read_command-connect env pools events (length domain ∷ (domain ++ after)) 3,
        read_host-domain env pools events after domain long,
        decided,
        serve_verdict-port env left events rest domain dst p port small,
      )
      refl
