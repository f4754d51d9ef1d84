-- ===== src/Tunnel/Unserved.antt =====
-- internal/tunnel.go. The first packets of a tunnel that no handler takes.
use lumine_android.Tunnel.State.{TunnelEnv, TunnelState}
use lumine_android.Policy.Types.{is_mode_raw}
use lumine_android.Prelude.{
  Bool-cases, Bytes, Option, codes, false, get_or, has_prefix, inl, inr, none, refl, some, ◌&&◌,
  ◌==◌, ◌≡◌, ◌⊎◌,
}
use lumine_android.Tunnel.HandleTunnel.{
  HttpRequest, TunnelEnd, forwarding, ended, bytes_has_prefix, classify, forward_by, handle_packet,
  handle_tunnel, http_methods, http_request, start_forwarding, unknown,
}

-- The ten bytes begin with no HTTP method and a space, or the request behind them does not parse.
pub data Unserved (peeked : Bytes) (req : Option HttpRequest) : Type 0 where
  no_method :
      has_prefix peeked (codes "GET ") ≡ false
      → has_prefix peeked (codes "POST ") ≡ false
      → has_prefix peeked (codes "HEAD ") ≡ false
      → has_prefix peeked (codes "PUT ") ≡ false
      → has_prefix peeked (codes "DELETE ") ≡ false
      → has_prefix peeked (codes "OPTIONS ") ≡ false
      → has_prefix peeked (codes "TRACE ") ≡ false
      → has_prefix peeked (codes "PATCH ") ≡ false
      → Unserved peeked req
  unparsed : req ≡ none → Unserved peeked req

-- Bytes are copied if there is a server.
abbrev pub end_of : Option Bytes → TunnelEnd
end_of none = ended
end_of (some address) = forwarding address

classify-Unserved :
    (peeked : Bytes) (record_ : Option Bytes) (req : Option HttpRequest)
    → (get_or peeked 0 0 == 0x16 && get_or peeked 1 0 == 3) ≡ false
    → Unserved peeked req
    → (classify peeked record_ req ≡ unknown) ⊎ (classify peeked record_ req ≡ http_request none)
unfolding classify bytes_has_prefix
classify-Unserved peeked record_ req h (no_method a b c d e f g i) =
    inl (rw (h, a, b, c, d, e, f, g, i) refl)
classify-Unserved peeked record_ req h (unparsed k) =
    elim (Bool-cases (bytes_has_prefix peeked http_methods)) [
      | inl e ↦ inr (rw (h, e, k) refl)
      | inr e ↦ inl (rw (h, e) refl)
    ]

module _ (env : TunnelEnv) (origin_host origin_port : Bytes) where
  forward_by-end_of :
      (o : Option Bytes) (s : TunnelState) → s.server ≡ o → forward_by env o s ≡ (end_of o, s)
  unfolding forward_by
  forward_by-end_of none s h = rw h refl
  forward_by-end_of (some address) s h = refl

  -- In a tunnel whose mode is not `raw`, first bytes that are no TLS handshake and begin with none
  -- of the eight HTTP methods, or are a request that does not parse, change nothing: bytes are
  -- copied if a server's connection is there, and else the tunnel ends, and no server is dialed.
  pub handle_tunnel-Unserved :
      (peeked : Bytes) (record_ : Option Bytes) (req : Option HttpRequest) (s : TunnelState)
      → is_mode_raw s.policy.mode ≡ false
      → (get_or peeked 0 0 == 0x16 && get_or peeked 1 0 == 3) ≡ false
      → Unserved peeked req
      → handle_tunnel env origin_host origin_port (classify peeked record_ req) s
        ≡ (end_of s.server, s)
  unfolding handle_tunnel handle_packet start_forwarding
  handle_tunnel-Unserved peeked record_ req s raw other u =
      let e = forward_by-end_of s.server s refl in
      elim (classify-Unserved peeked record_ req other u) [
        | inl c ↦ rw (c, raw) e
        | inr c ↦ rw (c, raw) e
      ]
