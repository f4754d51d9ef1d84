-- ===== src/Tunnel/Chunks.antt =====
-- internal/tun_bridge.go. However the device cuts what it writes, the connection carries what the
-- specification says.
use lumine_android.Tunnel.Stream.{
  expected, first_outcome, is_decided, sent, is_handshake-append, record_length-append, sent-append,
  first_outcome-append, is_decided-append, write_all, expected-append_open, expected-append_refused,
}
use lumine_android.Tunnel.Bridge.{
  BridgeEnv, TunPolicyConn, is_handshake, record_length, try_handle_pending, write_tail,
  flush_pending, handle_tls_record, write_conn, wrap_tcp_conn,
}
use lumine_android.Resolve.Plan.{DialPlan}
use lumine_android.Prelude.{
  Bool-cases, Bytes, List, [], ap, append-nil, append_assoc, arith, concat, drop, false,
  if◌then◌else◌, inl, inr, is_empty, is_some, length, ltb, none, ok, refl, some, sym, take,
  take-append-le, true, ℕ, ◌++◌, ◌∙◌, ◌∷◌, ◌≡◌, ◌≤◌,
}
use lumine_android.Fragment.Send.{write}
use lumine_android.Tls.Parse.{Hello, parse_client_hello}
use lumine_android.Tunnel.Wire.{operated, Outcome, Wire, make_event, WireError, WireEvent}

-- The first record, if it is a handshake, is one that `parseClientHello` reads.
abbrev pub Readable : Bytes → Type 0
Readable all =
    is_handshake all ≡ true
    → (h : Hello) × (parse_client_hello (take (record_length all) all) ≡ ok h)

Readable-prefix : (all more : Bytes) → is_decided all ≡ true → Readable (all ++ more) → Readable all
Readable-prefix all more decided r hs =
    let le : record_length all ≤ length all = ground arith in
    let same = record_length-append all more decided in
    let (h, e) = r (is_handshake-append all more decided ∙ hs) in
    (h, rw (same, take-append-le (record_length all) all more le) at e)

module _ (env : BridgeEnv) (takes_all : (k : ℕ) → env.succeeds k ≡ true) (plan : DialPlan) where
  abbrev held : Bytes → TunPolicyConn
  held all = record { plan = plan; handled = false; closed = false; pending = all }

  make_event-takes_all :
      (event : WireEvent) (e : WireError) (w : Wire)
      → make_event env.succeeds event e w ≡ (none, w ++ event ∷ [])
  unfolding make_event
  make_event-takes_all event e w = rw (takes_all (length w)) refl

  sent-write :
      (w : Wire) (bytes : Bytes) → sent (w ++ operated (write bytes) ∷ []) ≡ sent w ++ bytes
  sent-write w bytes = rw (sent-append w (operated (write bytes) ∷ []), append-nil bytes) refl

  pub write_tail_lem :
      (tail : Bytes) (r : Outcome × Wire)
      → ((write_tail env tail r).0 ≡ r.0)
        × (sent (write_tail env tail r).1 ≡ sent r.1 ++ (if is_some r.0 then [] else tail))
  unfolding write_tail
  write_tail_lem tail (some e, w) = (refl, sym (append-nil (sent w)))
  write_tail_lem [] (none, w) = (refl, sym (append-nil (sent w)))
  write_tail_lem (x ∷ xs) (none, w) =
      rw (write_tail, make_event, takes_all (length w)) (refl, sent-write w (x ∷ xs))

  try_waiting :
      (all : Bytes)
      → is_decided all ≡ false
      → try_handle_pending env (held all) [] ≡ (false, none, held all, [])
  unfolding try_handle_pending
  try_waiting all h = elim (Bool-cases (ltb (length all) 5)) [
    | inl short ↦ rw short refl
    | inr long ↦ elim (Bool-cases (is_handshake all)) [
      | inr other ↦ let no : ⊥ = ground arith in elim no [ ]
      | inl hs ↦
          let missing : ltb (length all) (record_length all) ≡ true = ground arith in
          rw (long, hs, missing) refl
    ]
  ]

  -- The connection after the first record, with what `o` says of the outcome.
  abbrev after : Bytes → Outcome → TunPolicyConn
  after all o = record { plan = plan; handled = true; closed = is_some o; pending = [] }

  try_settled :
      (all : Bytes)
      → is_decided all ≡ true
      → Readable all
      → let o = (first_outcome env plan all).0 in
        (w : Wire) × (try_handle_pending env (held all) [] ≡ (true, o, after all o, w))
        × (sent w ≡ expected env plan all)
  unfolding try_handle_pending
  try_settled all h readable =
      let long : ltb (length all) 5 ≡ false = ground arith in
      elim (Bool-cases (is_handshake all)) [
        | inr other ↦
            let some_bytes : is_empty all ≡ false = ground arith in
            (
              operated (write all) ∷ [],
              rw (long, other, flush_pending, some_bytes, make_event, takes_all 0) refl,
              rw (h, other) (append-nil all),
            )
        | inl hs ↦
            let whole : ltb (length all) (record_length all) ≡ false = ground arith in
            let (hello, parsed) = readable hs in
            let n = record_length all in
            let fo = handle_tls_record env plan (take n all) (take n all) [] in
            let same : handle_tls_record env plan all (take n all) [] ≡ fo =
              rw (handle_tls_record, parsed) refl in
            let tail_is = write_tail_lem (drop n all) fo in
            (
              (write_tail env (drop n all) fo).1,
              rw (long, hs, whole, same, tail_is.0) refl,
              rw (h, hs) tail_is.1,
            )
      ]

  -- What is known after the bytes `all`, however they were cut.
  data Progress (all : Bytes) : TunPolicyConn → Wire → Type 0 where
    waiting : is_decided all ≡ false → Progress all (held all) []
    settled :
        {c : TunPolicyConn} {w : Wire}
        → is_decided all ≡ true
        → c.handled ≡ true
        → c.closed ≡ is_some (first_outcome env plan all).0
        → sent w ≡ expected env plan all
        → Progress all c w

  attempt-Progress :
      (all : Bytes)
      → (is_decided all ≡ true → Readable all)
      → let r = try_handle_pending env (held all) [] in Progress all r.2 r.3
  attempt-Progress all readable = elim (Bool-cases (is_decided all)) [
    | inr no_yet ↦ rw (try_waiting all no_yet) (waiting no_yet)
    | inl yes_now ↦
        let (w, e, s) = try_settled all yes_now (readable yes_now) in
        rw e (settled yes_now refl refl s)
  ]

  write_conn-Progress :
      (all b : Bytes) {c : TunPolicyConn} {w : Wire}
      → (is_decided (all ++ b) ≡ true → Readable (all ++ b))
      → Progress all c w
      → let r = write_conn env b c w in Progress (all ++ b) r.1 r.2
  unfolding write_conn
  write_conn-Progress all b readable (waiting h) = attempt-Progress (all ++ b) readable
  write_conn-Progress all b {c} {w} readable (settled h handled closed s) =
      let decided = is_decided-append all b h in
      let again = first_outcome-append all b h env plan in
      elim (Bool-cases c.closed) [
        | inl shut ↦
            let refused : is_some (first_outcome env plan all).0 ≡ true = sym closed ∙ shut in
            rw shut (
              settled decided handled (rw again (sym refused))
                (s ∙ sym (expected-append_refused all b h env plan refused)))
        | inr open_still ↦
            let accepted : is_some (first_outcome env plan all).0 ≡ false =
              sym closed ∙ open_still in
            rw (open_still, handled)
              (settled decided refl (rw again (sym accepted)) (
                sent-write w b
                ∙ ap (λ v. v ++ b) s
                ∙ sym (expected-append_open all b h env plan accepted)))
      ]

  -- The chunks one after another, up to a total that is readable.
  write_all-Progress :
      (chunks : List Bytes) (all : Bytes) {c : TunPolicyConn} {w : Wire}
      → Readable (all ++ concat chunks)
      → Progress all c w
      → let r = write_all env chunks c w in Progress (all ++ concat chunks) r.0 r.1
  unfolding write_all
  write_all-Progress [] all readable h = rw (append-nil all) h
  write_all-Progress (b ∷ bs) all {c} {w} readable h =
      let regroup : all ++ (b ++ concat bs) ≡ (all ++ b) ++ concat bs =
        sym (append_assoc all b (concat bs)) in
      let whole : Readable ((all ++ b) ++ concat bs) = rw (← regroup) readable in
      rw regroup (
        write_all-Progress bs (all ++ b) whole
          (write_conn-Progress all b (λ d. Readable-prefix (all ++ b) (concat bs) d whole) h))

  Progress-sent :
      {all : Bytes} {c : TunPolicyConn} {w : Wire}
      → Progress all c w
      → sent w ≡ expected env plan all
  Progress-sent (waiting h) = rw h refl
  Progress-sent (settled h _ _ s) = s

  -- On a connection that takes everything, and for a first record that is no handshake or one that
  -- `parseClientHello` reads, the bytes put on the wire depend on what the device wrote and not on
  -- how it cut its writes: nothing until the first record is whole, then what handling the record
  -- alone comes to, and the bytes behind it as they are unless the record was refused.
  pub write_all-expected :
      (chunks : List Bytes)
      → Readable (concat chunks)
      → sent (write_all env chunks (wrap_tcp_conn plan) []).1 ≡ expected env plan (concat chunks)
  write_all-expected chunks readable =
      Progress-sent (write_all-Progress chunks [] readable (waiting refl))
