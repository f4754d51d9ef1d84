-- ===== src/Tunnel/Refused.antt =====
-- internal/tun_bridge.go. What the connection of the device refuses, and what it sends twice.
use lumine_android.Fragment.Send.{write}
use lumine_android.Tunnel.Chunks.{write_all-expected, write_tail_lem}
use lumine_android.Tunnel.Bridge.{
  BridgeEnv, forward_by_mode, handle_hello, handle_tls_record, is_handshake, record_length,
  refuse_with_alert, sni_policy, try_handle_pending, wrap_tcp_conn, write_conn, flush_pending,
}
use lumine_android.Resolve.Plan.{DialPlan}
use lumine_android.Prelude.{
  Bool-cases, Bytes, List, [], append-nil, arith, concat, drop-append, err, false, inl, inr,
  is_empty, is_some, length, length-append, ltb, none, not, ok, refl, take, take-append, true, ℕ,
  ◌&&◌, ◌++◌, ◌∙◌, ◌∷◌, ◌≡◌, ◌≢◌, ◌≤◌, ◌⊎◌,
}
use lumine_android.Policy.Types.{
  mode_block, mode_tls_alert, is_true, Mode, Policy, is_mode_tls_alert,
}
use lumine_android.Tls.Parse.{Hello, parse_client_hello, failed, HelloError}
use lumine_android.Tunnel.Wire.{
  tls_alert, level_fatal, access_denied, protocol_version, Outcome, Wire, make_event, operated,
  operated,
}
use lumine_android.Tunnel.Stream.{
  sent, is_decided, write_all, is_handshake-append, record_length-append,
}

-- The alert mode, TLS 1.3 demanded and not offered, or a mode behind the SNI's policy that refuses.
pub data Refuses (env : BridgeEnv) (plan : DialPlan) (record_ : Bytes) (h : Hello) : Type 0 where
  by_alert : plan.policy.mode ≡ mode_tls_alert → Refuses env plan record_ h
  by_version :
      is_true plan.policy.tls13_only ≡ true → h.has_key_share ≡ false → Refuses env plan record_ h
  by_name :
      ((sni_policy env record_ h plan.policy).mode ≡ mode_block)
        ⊎ ((sni_policy env record_ h plan.policy).mode ≡ mode_tls_alert)
      → Refuses env plan record_ h

-- Nothing was sent, or an alert alone.
pub data OnlyAlert (h : Hello) : Bytes → Type 0 where
  silent : OnlyAlert h []
  alerted : (desc : ℕ) → OnlyAlert h (tls_alert h.prt_ver desc level_fatal)

-- An error, and no more than an alert on the wire.
pub record IsRefusal (h : Hello) (r : Outcome × Wire) : Type 0 where
  pub refused : is_some r.0 ≡ true
  pub alert : OnlyAlert h (sent r.1)

refuse_with_alert-IsRefusal :
    (env : BridgeEnv) (h : Hello) (desc : ℕ) → IsRefusal h (refuse_with_alert env h desc [])
unfolding refuse_with_alert make_event
refuse_with_alert-IsRefusal env h desc = record {
  refused = refl;
  alert = rw (append-nil (tls_alert h.prt_ver desc level_fatal)) (alerted desc);
}

handle_hello-IsRefusal :
    (env : BridgeEnv) (plan : DialPlan) (record_ : Bytes) (h : Hello)
    → Refuses env plan record_ h
    → IsRefusal h (handle_hello env plan record_ h [])
unfolding handle_hello
handle_hello-IsRefusal env plan record_ h r =
    elim (Bool-cases (is_mode_tls_alert plan.policy.mode)) [
      | inl e ↦ rw e (refuse_with_alert-IsRefusal env h access_denied)
      | inr e ↦ elim (Bool-cases (is_true plan.policy.tls13_only && not h.has_key_share)) [
        | inl f ↦ rw (e, f) (refuse_with_alert-IsRefusal env h protocol_version)
        | inr f ↦ rw (e, f) (rest e f r)
      ]
    ]
  where
    by_mode :
        (m : Mode) (p : Policy)
        → (m ≡ mode_block) ⊎ (m ≡ mode_tls_alert)
        → IsRefusal h (forward_by_mode env m plan p record_ h [])
    by_mode m p (inl e) = rw (e, forward_by_mode) (record { refused = refl; alert = silent })
    by_mode m p (inr e) = rw (e, forward_by_mode) (refuse_with_alert-IsRefusal env h access_denied)

    rest :
        is_mode_tls_alert plan.policy.mode ≡ false
        → (is_true plan.policy.tls13_only && not h.has_key_share) ≡ false
        → Refuses env plan record_ h
        → let p = sni_policy env record_ h plan.policy in
          IsRefusal h (forward_by_mode env p.mode plan p record_ h [])
    rest e f (by_alert q) = let no : ⊥ = ground arith in elim no [ ]
    rest e f (by_version q k) = let no : ⊥ = ground arith in elim no [ ]
    rest e f (by_name q) =
        by_mode (sni_policy env record_ h plan.policy).mode (sni_policy env record_ h plan.policy) q

handle_tls_record-ok :
    (env : BridgeEnv) (plan : DialPlan) (pending record_ : Bytes) (h : Hello) (w : Wire)
    → parse_client_hello record_ ≡ ok h
    → handle_tls_record env plan pending record_ w ≡ handle_hello env plan record_ h w
unfolding handle_tls_record
handle_tls_record-ok env plan pending record_ h w parsed = rw (handle_tls_record, parsed) refl

handle_tls_record-failed :
    (env : BridgeEnv) (plan : DialPlan) (pending record_ : Bytes) (h : Hello) (e : HelloError)
    (w : Wire)
    → parse_client_hello record_ ≡ err (failed h e)
    → handle_tls_record env plan pending record_ w ≡ flush_pending env pending w
unfolding handle_tls_record
handle_tls_record-failed env plan pending record_ h e w parsed = rw (handle_tls_record, parsed) refl

-- Where the bytes that the device writes first are a whole TLS record with a ClientHello that is
-- parsed and refused, then, in whatever pieces they come and whatever is written behind them, none
-- of the device's bytes reaches the server, which at most gets an alert, on a connection that takes
-- everything.
pub write_all-refused :
    (env : BridgeEnv) (plan : DialPlan) (chunks : List Bytes) (h : Hello)
    → ((k : ℕ) → env.succeeds k ≡ true)
    → is_decided (concat chunks) ≡ true
    → is_handshake (concat chunks) ≡ true
    → parse_client_hello (take (record_length (concat chunks)) (concat chunks)) ≡ ok h
    → Refuses env plan (take (record_length (concat chunks)) (concat chunks)) h
    → OnlyAlert h (sent (write_all env chunks (wrap_tcp_conn plan) []).1)
write_all-refused env plan chunks h takes_all decided hs parsed r =
    let all = concat chunks in
    let record_ = take (record_length all) all in
    let refusal = handle_hello-IsRefusal env plan record_ h r in
    let one : handle_tls_record env plan record_ record_ [] ≡ handle_hello env plan record_ h [] =
      handle_tls_record-ok env plan record_ record_ h [] parsed in
    rw
      (
        write_all-expected env takes_all plan chunks (λ _. (h, parsed)),
        decided,
        hs,
        one,
        refusal.refused,
        append-nil (sent (handle_hello env plan record_ h []).1),
      )
      refusal.alert

-- A handshake record that `parseClientHello` refuses, written together with bytes behind it: the
-- connection, which takes everything, gets the bytes behind it twice.
pub write_conn-twice :
    (env : BridgeEnv) (plan : DialPlan) (record_ tail : Bytes) (h : Hello) (e : HelloError)
    → ((k : ℕ) → env.succeeds k ≡ true)
    → 5 ≤ length record_
    → is_handshake record_ ≡ true
    → record_length record_ ≡ length record_
    → parse_client_hello record_ ≡ err (failed h e)
    → tail ≢ []
    → sent (write_conn env (record_ ++ tail) (wrap_tcp_conn plan) []).2 ≡ (record_ ++ tail) ++ tail
unfolding write_conn try_handle_pending flush_pending make_event
write_conn-twice env plan record_ tail h e takes_all long hs exact failed_ ne =
    let all = record_ ++ tail in
    let decided : is_decided record_ ≡ true = ground arith in
    let hs_all = is_handshake-append record_ tail decided ∙ hs in
    let n = record_length-append record_ tail decided ∙ exact in
    let more = length-append record_ tail in
    let five : ltb (length all) 5 ≡ false = ground arith in
    let whole : ltb (length all) (length record_) ≡ false = ground arith in
    let flushed = handle_tls_record-failed env plan all record_ h e [] failed_ in
    let nonempty : is_empty all ≡ false = ground arith in
    let flush_is : flush_pending env all [] ≡ (none, operated (write all) ∷ []) =
      rw (flush_pending, nonempty, make_event, takes_all 0) refl in
    rw
      (
        five,
        hs_all,
        n,
        whole,
        take-append record_ tail,
        drop-append record_ tail,
        flushed,
        flush_is,
      )
      ((write_tail_lem env takes_all plan tail (none, operated (write all) ∷ [])).1
        ∙ rw (append-nil all) refl)
