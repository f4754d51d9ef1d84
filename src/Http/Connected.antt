-- ===== src/Http/Connected.antt =====
-- internal/http.go: the connections of a handled request, and those of CONNECT.
use lumine_android.Prelude.{
  Bool, Bool-cases, Bytes, List, Option, [], arith, false, if◌then◌else◌, inl, inr, is_some, length,
  none, not, refl, some, suc, true, ℕ, ◌+◌, ◌∷◌, ◌≡◌,
}
use lumine_android.Policy.Types.{is_true, is_mode_block}
use lumine_android.Resolve.GenPolicy.{
  Verdict, blocked, domain_not_found, failed, found, gen_policy, found, failed, blocked,
  domain_not_found,
}
use lumine_android.Tunnel.State.{TunnelEvent, to_client, dialed, replied}
use lumine_android.Tunnel.HandleTunnel.{TunnelStart}
use lumine_android.Tunnel.Counts.{opened, closed_count, opened-append, closed_count-append}
use lumine_android.Http.Handler.{
  HttpEnv, HttpState, Served, add_event, respond, reply_established, dial_or_refuse,
  hijack_and_dial, start_of, connect_verdict, connect_host, connect_split, connection_established,
  bad_gateway,
}

-- So many connections were opened, and none closed.
pub record Opened (n : ℕ) (s : HttpState) : Type 0 where
  pub so_many : opened s.events ≡ n
  pub none_closed : closed_count s.events ≡ 0

pub add_event-Opened :
    (n : ℕ) (e : TunnelEvent) (s : HttpState)
    → opened (e ∷ []) ≡ 0
    → closed_count (e ∷ []) ≡ 0
    → Opened n s
    → Opened n (add_event e s)
add_event-Opened n e s h k o = record {
  so_many = omega (arith, opened-append s.events (e ∷ []), o.so_many);
  none_closed = omega (arith, closed_count-append s.events (e ∷ []), o.none_closed);
}

-- How many dials to these addresses succeed, of which the first is the k-th operation.
unfoldable pub dials_up : HttpEnv → ℕ → List Bytes → ℕ
dials_up env k [] = 0
dials_up env k (address ∷ rest) =
    (if env.tunnel.dial k address then 1 else 0) + dials_up env (suc k) rest

-- No tunnel, and no connection, or, for CONNECT, one left open where an answer could not be
-- written, or else one for each dial of the transport that succeeds; or, for CONNECT alone, a tunnel, for a
-- policy that does not block, that is given all the connections.
pub data ServedEnd (env : HttpEnv) (is_connect : Bool) : Served → Type 0 where
  unopened : (s : HttpState) → Opened 0 s → ServedEnd env is_connect (none, s)
  left_open :
      (k : ℕ) (s : HttpState)
      → is_connect ≡ true
      → env.accepts k ≡ false
      → Opened 1 s
      → ServedEnd env is_connect (none, s)
  forwarded :
      (target scheme : Bytes) (k : ℕ) (s : HttpState)
      → is_connect ≡ false
      → Opened (dials_up env k (env.transport_dials target scheme)) s
      → ServedEnd env is_connect (none, s)
  started :
      (t : TunnelStart) (s : HttpState)
      → is_connect ≡ true
      → is_mode_block t.policy.mode ≡ false
      → Opened (if is_some t.server then 1 else 0) s
      → ServedEnd env is_connect (some t, s)

module _ (env : HttpEnv) where
  pub respond-ServedEnd :
      {c : Bool} (status : ℕ) (s : HttpState) → Opened 0 s → ServedEnd env c (respond status s)
  respond-ServedEnd status s o = unopened _ (add_event-Opened 0 (replied _) s refl refl o)

  reply_undialed-ServedEnd :
      (t : TunnelStart) (s : HttpState)
      → is_mode_block t.policy.mode ≡ false
      → t.server ≡ none
      → Opened 0 s
      → ServedEnd env true (reply_established env t s)
  unfolding reply_established
  reply_undialed-ServedEnd t s allowed none_yet o =
      let o' = add_event-Opened 0 (to_client connection_established) s refl refl o in
      elim (Bool-cases (env.accepts (length s.events))) [
        | inl h ↦ rw h (started t _ refl allowed (rw none_yet o'))
        | inr h ↦ rw h (unopened _ o')
      ]

  reply_dialed-ServedEnd :
      (t : TunnelStart) (s : HttpState) (address : Bytes)
      → is_mode_block t.policy.mode ≡ false
      → Opened 1 s
      → ServedEnd env true (reply_established env (record t { server = some address }) s)
  unfolding reply_established
  reply_dialed-ServedEnd t s address allowed o =
      let o' = add_event-Opened 1 (to_client connection_established) s refl refl o in
      elim (Bool-cases (env.accepts (length s.events))) [
        | inl h ↦ rw h (started _ _ refl allowed o')
        | inr h ↦ rw h (left_open (length s.events) _ refl h o')
      ]

  dial_or_refuse-ServedEnd :
      (t : TunnelStart) (s : HttpState)
      → is_mode_block t.policy.mode ≡ false
      → Opened 0 s
      → ServedEnd env true (dial_or_refuse env t s)
  unfolding dial_or_refuse
  dial_or_refuse-ServedEnd t s allowed o =
      let more = dialed t.target true ∷ [] in
      elim (Bool-cases (env.tunnel.dial (length s.events) t.target)) [
        | inl h ↦ rw h (
            reply_dialed-ServedEnd t (add_event (dialed t.target true) s) t.target allowed (record {
              so_many = omega (arith, opened-append s.events more, o.so_many);
              none_closed = omega (arith, closed_count-append s.events more, o.none_closed);
            }))
        | inr h ↦ rw h (
            unopened _ (
              add_event-Opened 0 (to_client bad_gateway) (add_event (dialed t.target false) s) refl
                refl (add_event-Opened 0 (dialed t.target false) s refl refl o)))
      ]

  hijack_and_dial-ServedEnd :
      (t : TunnelStart) (s : HttpState)
      → is_mode_block t.policy.mode ≡ false
      → t.server ≡ none
      → Opened 0 s
      → ServedEnd env true (hijack_and_dial env t s)
  unfolding hijack_and_dial
  hijack_and_dial-ServedEnd t s allowed none_yet o = elim (Bool-cases (not env.can_hijack)) [
    | inl h ↦ rw h (respond-ServedEnd 500 s o)
    | inr h ↦ elim (Bool-cases (not env.hijacks)) [
      | inl k ↦ rw (h, k) (respond-ServedEnd 500 s o)
      | inr k ↦ elim (Bool-cases (is_true t.policy.reply_first)) [
        | inl l ↦ rw (h, k, l) (reply_undialed-ServedEnd t s allowed none_yet o)
        | inr l ↦ rw (h, k, l) (dial_or_refuse-ServedEnd t s allowed o)
      ]
    ]
  ]

  connect_verdict-ServedEnd :
      (origin port : Bytes) (v : Verdict) (s : HttpState)
      → Opened 0 s
      → ServedEnd env true (connect_verdict env origin port v s)
  unfolding connect_verdict
  connect_verdict-ServedEnd origin port failed s o = respond-ServedEnd 500 s o
  connect_verdict-ServedEnd origin port blocked s o = respond-ServedEnd 403 s o
  connect_verdict-ServedEnd origin port domain_not_found s o = unopened s o
  connect_verdict-ServedEnd origin port (found dst p) s o =
      elim (Bool-cases (is_mode_block p.mode)) [
        | inl h ↦ rw h (respond-ServedEnd 403 s o)
        | inr h ↦ rw h (hijack_and_dial-ServedEnd (start_of env origin port dst p) s h refl o)
      ]

  pub connect_split-ServedEnd :
      (split : Option (Bytes × Bytes)) (s : HttpState)
      → Opened 0 s
      → ServedEnd env true (connect_split env split s)
  unfolding connect_split connect_host
  connect_split-ServedEnd none s o = unopened s o
  connect_split-ServedEnd (some (origin, port)) s o =
      let r = gen_policy env.tunnel.resolve origin false false s.pools in
      connect_verdict-ServedEnd origin port r.0 (record s { pools = r.1 })
        (record { so_many = o.so_many; none_closed = o.none_closed })
