-- ===== src/Tunnel/Stream.antt =====
-- internal/tun_bridge.go. The bytes that a connection of the device puts on the wire, however the
-- device cuts its writes.
use lumine_android.Tunnel.Wire.{operated, desync, close}
use lumine_android.Tunnel.Wire.{Outcome, Wire, WireEvent, close, desync, operated}
use lumine_android.Tunnel.Bridge.{
  BridgeEnv, TunPolicyConn, handle_tls_record, is_handshake, record_length, write_conn,
}
use lumine_android.Resolve.Plan.{DialPlan}
use lumine_android.Fragment.Send.{write, send_with_oob, await, panic, send_with_oob}
use lumine_android.Prelude.{
  Bool, Bool-cases, Bytes, List, [], ap, append-nil, append_assoc, arith, drop, drop-append-le,
  false, get_or-append, if◌then◌else◌, inl, inr, is_some, length, length-append, ltb, none, not,
  refl, sym, take, take-append-le, true, ℕ, ◌&&◌, ◌++◌, ◌||◌, ◌∙◌, ◌∷◌, ◌≡◌, ◌≤◌,
}

-- The bytes of the operations in order, the urgent ones included.
abbrev pub bytes_of : WireEvent → Bytes
bytes_of (operated (write bytes)) = bytes
bytes_of (operated (send_with_oob bytes urgent)) = bytes ++ urgent ∷ []
bytes_of (operated (await _ _)) = []
bytes_of (operated panic) = []
bytes_of (desync record_ _ _ _) = record_
bytes_of close = []

abbrev pub sent : Wire → Bytes
sent [] = []
sent (e ∷ w) = bytes_of e ++ sent w

pub sent-append : (v w : Wire) → sent (v ++ w) ≡ sent v ++ sent w
sent-append [] w = refl
sent-append (e ∷ v) w = rw (sent-append v w) (sym (append_assoc (bytes_of e) (sent v) (sent w)))

-- The device's writes, one after another.
unfoldable pub write_all : BridgeEnv → List Bytes → TunPolicyConn → Wire → TunPolicyConn × Wire
unfolding write_conn
write_all env [] c w = (c, w)
write_all env (b ∷ bs) c w = let r = write_conn env b c w in write_all env bs r.1 r.2

-- Whether the bytes so far settle what the connection carries.
abbrev pub is_decided : Bytes → Bool
is_decided all =
    not (ltb (length all) 5)
    && (not (is_handshake all) || not (ltb (length all) (record_length all)))

-- The length of the record that is handled, none for another protocol.
abbrev pub first_length : Bytes → ℕ
first_length all = if is_handshake all then record_length all else 0

-- What handling the first record alone comes to.
abbrev pub first_outcome : BridgeEnv → DialPlan → Bytes → Outcome × Wire
first_outcome env plan all =
    if is_handshake all
    then handle_tls_record env plan (take (record_length all) all) (take (record_length all) all) []
    else (none, [])

-- The specification, on all that was written: nothing before it is settled; then what the first
-- record comes to, and the bytes behind it unless the connection was refused.
abbrev pub expected : BridgeEnv → DialPlan → Bytes → Bytes
expected env plan all =
    if is_decided all
    then sent (first_outcome env plan all).1
      ++ (if is_some (first_outcome env plan all).0 then [] else drop (first_length all) all)
    else []

-- More bytes change nothing of what is settled.
module _ (all more : Bytes) (decided : is_decided all ≡ true) where
  long : 5 ≤ length all
  long = ground arith

  pub is_handshake-append : is_handshake (all ++ more) ≡ is_handshake all
  is_handshake-append =
      let l = long in
      rw (get_or-append all more 0 0 (omega arith), get_or-append all more 1 0 (omega arith)) refl

  pub record_length-append : record_length (all ++ more) ≡ record_length all
  record_length-append =
      let l = long in
      rw (get_or-append all more 3 0 (omega arith), get_or-append all more 4 0 (omega arith)) refl

  first_length-append : first_length (all ++ more) ≡ first_length all
  first_length-append = rw (is_handshake-append, record_length-append) refl

  first_length-le : first_length all ≤ length all
  first_length-le = ground arith

  pub is_decided-append : is_decided (all ++ more) ≡ true
  is_decided-append =
      rw (is_handshake-append, record_length-append) (ground (arith, length-append all more))

  pub first_outcome-append :
      (env : BridgeEnv) (plan : DialPlan)
      → first_outcome env plan (all ++ more) ≡ first_outcome env plan all
  first_outcome-append env plan = elim (Bool-cases (is_handshake all)) [
    | inr e ↦ rw (is_handshake-append, e) refl
    | inl e ↦
        let le : record_length all ≤ length all = ground arith in
        rw
          (
            is_handshake-append,
            e,
            record_length-append,
            take-append-le (record_length all) all more le,
          )
          refl
  ]

  -- What is written behind the settled part is carried on, unless the connection was refused.
  expected-append :
      (env : BridgeEnv) (plan : DialPlan)
      → expected env plan (all ++ more)
        ≡ expected env plan all ++ (if is_some (first_outcome env plan all).0 then [] else more)
  expected-append env plan =
      let n = first_length all in
      let cut : drop n (all ++ more) ≡ drop n all ++ more =
        drop-append-le n all more first_length-le in
      elim (Bool-cases (is_some (first_outcome env plan all).0)) [
        | inl e ↦
            rw (is_decided-append, decided, first_outcome-append env plan, e) (sym (append-nil _))
        | inr e ↦
            rw
              (
                is_decided-append,
                decided,
                first_outcome-append env plan,
                e,
                first_length-append,
                cut,
              )
              (sym (append_assoc (sent (first_outcome env plan all).1) (drop n all) more))
      ]

  abbrev appended : BridgeEnv → DialPlan → Bool → Bytes
  appended env plan refused = expected env plan all ++ (if refused then [] else more)

  pub expected-append_refused :
      (env : BridgeEnv) (plan : DialPlan)
      → is_some (first_outcome env plan all).0 ≡ true
      → expected env plan (all ++ more) ≡ expected env plan all
  expected-append_refused env plan h =
      expected-append env plan ∙ ap (appended env plan) h ∙ append-nil (expected env plan all)

  pub expected-append_open :
      (env : BridgeEnv) (plan : DialPlan)
      → is_some (first_outcome env plan all).0 ≡ false
      → expected env plan (all ++ more) ≡ expected env plan all ++ more
  expected-append_open env plan h = expected-append env plan ∙ ap (appended env plan) h
