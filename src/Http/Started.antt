-- ===== src/Http/Started.antt =====
-- internal/http.go: the connections that a request opens and leaves to its tunnel.
use lumine_android.Http.Connected.{
  dials_up, Opened, ServedEnd, unopened, forwarded, add_event-Opened, respond-ServedEnd,
  connect_split-ServedEnd,
}
use lumine_android.Prelude.{
  Bool, Bool-cases, Bytes, List, Option, [], ap, arith, false, if◌then◌else◌, inl, inr, is_empty,
  length, length-append, none, not, pos, refl, some, suc, true, unset_int, ℕ, ℤ, ◌+◌, ◌==ℤ◌, ◌||◌,
  ◌∷◌, ◌≡◌,
}
use lumine_android.Resolve.GenPolicy.{
  Verdict, blocked, domain_not_found, failed, found, gen_policy, found, failed, blocked,
  domain_not_found,
}
use lumine_android.Tunnel.State.{dialed, replied, requested}
use lumine_android.Tunnel.Counts.{opened-append, closed_count-append}
use lumine_android.Http.Handler.{
  HttpEnv, HttpState, ProxyRequest, add_event, handle_connect, forward_to, forward_policy,
  forward_verdict, forward_http_request, http_handler, split_or_default, answer_client, dial_all,
}

module _ (env : HttpEnv) where
  add_dialed-Opened :
      (n : ℕ) (address : Bytes) (up : Bool) (s : HttpState)
      → Opened n s
      → Opened (n + (if up then 1 else 0)) (add_event (dialed address up) s)
  add_dialed-Opened n address true s o =
      let more = dialed address true ∷ [] in
      record {
        so_many = omega (arith, opened-append s.events more, o.so_many);
        none_closed = omega (arith, closed_count-append s.events more, o.none_closed);
      }
  add_dialed-Opened n address false s o =
      let more = dialed address false ∷ [] in
      record {
        so_many = omega (arith, opened-append s.events more, o.so_many);
        none_closed = omega (arith, closed_count-append s.events more, o.none_closed);
      }

  -- The dials of a transport open a connection each where they succeed.
  dial_all-Opened :
      (n : ℕ) (addresses : List Bytes) (s : HttpState)
      → Opened n s
      → Opened (n + dials_up env (length s.events) addresses) (dial_all env addresses s).1
  unfolding dial_all dials_up
  dial_all-Opened n [] s o = record {
    so_many = omega (arith, o.so_many);
    none_closed = o.none_closed;
  }
  dial_all-Opened n (address ∷ rest) s o =
      let up = env.tunnel.dial (length s.events) address in
      let s' = add_event (dialed address up) s in
      let last =
        dial_all-Opened (n + (if up then 1 else 0)) rest s' (add_dialed-Opened n address up s o) in
      let k : length s'.events ≡ suc (length s.events) =
        omega (arith, length-append s.events (dialed address up ∷ [])) in
      let same : dials_up env (length s'.events) rest ≡ dials_up env (suc (length s.events)) rest =
        ap (λ n. dials_up env n rest) k in
      record { so_many = omega (arith, last.so_many, same); none_closed = last.none_closed }

  answer_client-Opened :
      (n : ℕ) (answer : Option ℤ) (s : HttpState)
      → Opened n s
      → Opened n (answer_client env answer s)
  unfolding answer_client
  answer_client-Opened n none s o = add_event-Opened n (replied _) s refl refl o
  answer_client-Opened n (some status) s o = add_event-Opened n (replied _) s refl refl o

  forward_to-ServedEnd :
      (target scheme : Bytes) (s : HttpState)
      → Opened 0 s
      → ServedEnd env false (none, forward_to env target scheme s)
  unfolding forward_to
  forward_to-ServedEnd target scheme s o =
      let addresses = env.transport_dials target scheme in
      let d = dial_all env addresses s in
      let n = dials_up env (length s.events) addresses in
      let opened_by = dial_all-Opened 0 addresses s o in
      let all : Opened n d.1 = record {
        so_many = omega (arith, opened_by.so_many);
        none_closed = opened_by.none_closed;
      } in
      forwarded target scheme (length s.events) _ refl (
        answer_client-Opened n (env.round_trip target scheme d.0) (add_event requested d.1)
          (add_event-Opened n requested d.1 refl refl all))

  forward_verdict-ServedEnd :
      (req : ProxyRequest) (host port : Bytes) (v : Verdict) (s : HttpState)
      → Opened 0 s
      → ServedEnd env false (none, forward_verdict env req host port v s)
  unfolding forward_verdict forward_policy
  forward_verdict-ServedEnd req host port failed s o = respond-ServedEnd env 500 s o
  forward_verdict-ServedEnd req host port blocked s o = respond-ServedEnd env 403 s o
  forward_verdict-ServedEnd req host port domain_not_found s o = unopened s o
  forward_verdict-ServedEnd req host port (found dst p) s o =
      elim (Bool-cases (not (p.http_status ==ℤ pos 0 || p.http_status ==ℤ unset_int))) [
        | inl h ↦ rw h (unopened _ (add_event-Opened 0 (replied _) s refl refl o))
        | inr h ↦ elim (Bool-cases (not env.has_transport)) [
          | inl k ↦ rw (h, k) (respond-ServedEnd env 500 s o)
          | inr k ↦ rw (h, k) (forward_to-ServedEnd _ _ s o)
        ]
      ]

  forward_http_request-ServedEnd :
      (req : ProxyRequest) (s : HttpState)
      → Opened 0 s
      → ServedEnd env false (none, forward_http_request env req s)
  unfolding forward_http_request
  forward_http_request-ServedEnd req s o =
      let host = if is_empty req.host then req.url_host else req.host in
      let split = split_or_default env req host in
      let r = gen_policy env.tunnel.resolve split.0 false false s.pools in
      elim (Bool-cases (is_empty host)) [
        | inl h ↦ rw h (respond-ServedEnd env 400 s o)
        | inr h ↦ rw h (
            forward_verdict-ServedEnd req host split.1 r.0 (record s { pools = r.1 })
              (record { so_many = o.so_many; none_closed = o.none_closed }))
      ]

  -- A request to the proxy, where no connection to a server was opened or closed yet: a CONNECT
  -- request starts no tunnel and opens no connection, or it opens one and leaves it open and some
  -- write of an answer fails, or it starts a tunnel, for a policy whose mode is not `block`, that is
  -- given the connections opened.
  -- Any other request starts no tunnel, and opens no connection, or one for each successful dial of
  -- those that the transport makes for some target and scheme. The handler itself closes none.
  pub http_handler-ServedEnd :
      (req : ProxyRequest) (s : HttpState)
      → Opened 0 s
      → ServedEnd env req.is_connect (http_handler env req s)
  unfolding http_handler handle_connect
  http_handler-ServedEnd req s o = elim (Bool-cases req.is_connect) [
    | inl h ↦ elim (Bool-cases (is_empty req.host)) [
      | inl k ↦ rw (h, k) (respond-ServedEnd env 400 s o)
      | inr k ↦ rw (h, k) (connect_split-ServedEnd env (env.split_host_port req.host) s o)
    ]
    | inr h ↦ elim (Bool-cases (not req.is_abs)) [
      | inl k ↦ rw (h, k) (respond-ServedEnd env 403 s o)
      | inr k ↦ rw (h, k) (forward_http_request-ServedEnd req s o)
    ]
  ]
