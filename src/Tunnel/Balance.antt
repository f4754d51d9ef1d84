-- ===== src/Tunnel/Balance.antt =====
-- internal/tunnel.go. The connections to servers that a tunnel opens and closes.
use lumine_android.Prelude.{
  Bool, Bool-cases, Bytes, List, Option, [], arith, bytes_eq, err, false, inl, inr, length, map,
  none, not, ok, refl, some, true, ℕ, ◌&&◌, ◌++◌, ◌+◌, ◌∷◌, ◌≡◌,
}
use lumine_android.Tunnel.Counts.{
  opened, closed_count, IsBalanced, opened-append, closed_count-append, opened-wired,
  closed_count-wired, closing, opened-closing, closed_count-closing,
}
use lumine_android.Tunnel.HandleTls.{
  handled_fault, apply_verdict, ask_policy, connect_and, handle_parsed, handle_tls, override_by,
  override_sniff, send_by_mode, send_named, switch_server, desync_server,
}
use lumine_android.Tunnel.Bridge.{has_name, sni_of}
use lumine_android.Tls.Parse.{Parsed, Hello, parse_client_hello}
use lumine_android.Resolve.GenPolicy.{Verdict, domain_not_found, found, blocked, failed, gen_policy}
use lumine_android.Policy.Types.{
  Mode, Policy, SniffOverrideMode, is_mode_block, is_mode_tls_alert, is_true, mode_block,
  mode_direct, mode_raw, mode_tls_alert, mode_tls_rf, mode_ttl_d, mode_unknown, sniff_always,
  sniff_off, sniff_policy_exists, sniff_unset,
}
use lumine_android.Tunnel.Wire.{
  Outcome, Wire, access_denied, level_fatal, protocol_version, tls_alert, write_wire,
  send_by_records,
}
use lumine_android.Tunnel.State.{
  Handled, TunnelEvent, dialed, wired, to_client, TunnelState, TunnelEnv, dial_server,
  ensure_server, on_wire, alert_client, ensure_by,
}

module _ (env : TunnelEnv) (given : ℕ) where
  -- Events that open and close nothing.
  pub add_events :
      (s : TunnelState) (es : List TunnelEvent)
      → opened es ≡ 0
      → closed_count es ≡ 0
      → IsBalanced given s
      → IsBalanced given (record s { events = s.events ++ es })
  add_events s es h k b = record {
    balance = omega (arith, opened-append s.events es, closed_count-append s.events es, b.balance);
  }

  on_wire-IsBalanced :
      (f : (ℕ → Bool) → Wire → Outcome × Wire) (s : TunnelState)
      → IsBalanced given s
      → IsBalanced given (on_wire env f s).1
  unfolding on_wire
  on_wire-IsBalanced f s b =
      let w = (f (λ k. env.succeeds (length s.events + k)) []).1 in
      add_events s (map wired w) (opened-wired w) (closed_count-wired w) b

  dial_server-IsBalanced :
      (address : Bytes) (s : TunnelState)
      → s.server ≡ none
      → IsBalanced given s
      → IsBalanced given (dial_server env address s).1
  unfolding dial_server
  dial_server-IsBalanced address s h b = elim (Bool-cases (env.dial (length s.events) address)) [
    | inl up ↦ rw up (record {
      balance = ground (
        arith,
        opened-append s.events (dialed address true ∷ []),
        closed_count-append s.events (dialed address true ∷ []),
        b.balance,
      );
    })
    | inr down ↦ rw down (record {
      balance = ground (
        arith,
        opened-append s.events (dialed address false ∷ []),
        closed_count-append s.events (dialed address false ∷ []),
        b.balance,
      );
    })
  ]

  ensure_by-IsBalanced :
      (o : Option Bytes) (s : TunnelState)
      → s.server ≡ o
      → IsBalanced given s
      → IsBalanced given (ensure_by env o s).1
  unfolding ensure_by
  ensure_by-IsBalanced none s h b = dial_server-IsBalanced s.target s h b
  ensure_by-IsBalanced (some a) s h b = b

  pub ensure_server-IsBalanced :
      (s : TunnelState) → IsBalanced given s → IsBalanced given (ensure_server env s).1
  unfolding ensure_server
  ensure_server-IsBalanced s b = ensure_by-IsBalanced s.server s refl b

  alert_client-IsBalanced :
      (prt_ver : Bytes) (desc : ℕ) (s : TunnelState)
      → IsBalanced given s
      → IsBalanced given (alert_client prt_ver desc s)
  unfolding alert_client
  alert_client-IsBalanced prt_ver desc s b =
      add_events s (to_client (tls_alert prt_ver desc level_fatal) ∷ []) refl refl b

  switch_server-IsBalanced :
      (address : Bytes) (q : Policy) (s : TunnelState)
      → IsBalanced given s
      → IsBalanced given (switch_server env address q s)
  unfolding switch_server dial_server
  switch_server-IsBalanced address q s b = elim (Bool-cases (env.dial (length s.events) address)) [
    | inr down ↦ rw down (add_events s (dialed address false ∷ []) refl refl b)
    | inl up ↦ rw up (record {
      balance = omega (
        arith,
        opened-append (s.events ++ dialed address true ∷ []) (closing s.server),
        closed_count-append (s.events ++ dialed address true ∷ []) (closing s.server),
        opened-append s.events (dialed address true ∷ []),
        closed_count-append s.events (dialed address true ∷ []),
        opened-closing s.server,
        closed_count-closing s.server,
        b.balance,
      );
    })
  ]

  apply_verdict-IsBalanced :
      (prt_ver origin_port : Bytes) (v : Verdict) (s : TunnelState)
      → IsBalanced given s
      → IsBalanced given (apply_verdict env prt_ver origin_port v s).1
  unfolding apply_verdict
  apply_verdict-IsBalanced prt_ver origin_port failed s b = b
  apply_verdict-IsBalanced prt_ver origin_port domain_not_found s b = b
  apply_verdict-IsBalanced prt_ver origin_port blocked s b = b
  apply_verdict-IsBalanced prt_ver origin_port (found host q) s b =
      elim (Bool-cases (is_mode_block q.mode)) [
        | inl e ↦ rw e b
        | inr e ↦ elim (Bool-cases (is_mode_tls_alert q.mode)) [
          | inl f ↦ rw (e, f) (alert_client-IsBalanced prt_ver access_denied s b)
          | inr f ↦ rw (e, f) (switch_server-IsBalanced _ q s b)
        ]
      ]

  ask_policy-IsBalanced :
      (prt_ver origin_port sni : Bytes) (flag : Bool) (s : TunnelState)
      → IsBalanced given s
      → IsBalanced given (ask_policy env prt_ver origin_port sni flag s).1
  unfolding ask_policy
  ask_policy-IsBalanced prt_ver origin_port sni flag s b =
      let r = gen_policy env.resolve sni false flag s.pools in
      apply_verdict-IsBalanced prt_ver origin_port r.0 (record s { pools = r.1 })
        (record { balance = b.balance })

  override_by-IsBalanced :
      (m : SniffOverrideMode) (origin_port : Bytes) (h : Hello) (sni : Bytes) (s : TunnelState)
      → IsBalanced given s
      → IsBalanced given (override_by env m origin_port h sni s).1
  unfolding override_by
  override_by-IsBalanced sniff_unset origin_port h sni s b = b
  override_by-IsBalanced sniff_off origin_port h sni s b = b
  override_by-IsBalanced sniff_always origin_port h sni s b = elim (Bool-cases h.has_ech) [
    | inl e ↦ rw e b
    | inr e ↦ rw e (ask_policy-IsBalanced h.prt_ver origin_port sni false s b)
  ]
  override_by-IsBalanced sniff_policy_exists origin_port h sni s b = elim (Bool-cases h.has_ech) [
    | inl e ↦ rw e b
    | inr e ↦ rw e (ask_policy-IsBalanced h.prt_ver origin_port sni true s b)
  ]

  override_sniff-IsBalanced :
      (origin_host origin_port record_ : Bytes) (h : Hello) (s : TunnelState)
      → IsBalanced given s
      → IsBalanced given (override_sniff env origin_host origin_port record_ h s).1
  unfolding override_sniff
  override_sniff-IsBalanced origin_host origin_port record_ h s b =
      elim (Bool-cases (bytes_eq origin_host (sni_of record_ h))) [
        | inl e ↦ rw e b
        | inr e ↦ rw e (
            override_by-IsBalanced s.policy.sniff_override_mode origin_port h (sni_of record_ h) s
              b)
      ]

  send_by_mode-IsBalanced :
      (m : Mode) (record_ : Bytes) (h : Hello) (s : TunnelState)
      → IsBalanced given s
      → IsBalanced given (send_by_mode env m record_ h s).1
  unfolding send_by_mode
  send_by_mode-IsBalanced mode_direct record_ h s b =
      on_wire-IsBalanced (λ succeeds. write_wire succeeds record_) s b
  send_by_mode-IsBalanced mode_raw record_ h s b =
      on_wire-IsBalanced (λ succeeds. write_wire succeeds record_) s b
  send_by_mode-IsBalanced mode_tls_rf record_ h s b =
      on_wire-IsBalanced
        (λ succeeds. send_by_records succeeds s.policy record_ h.sni_start h.sni_len) s b
  send_by_mode-IsBalanced mode_ttl_d record_ h s b =
      on_wire-IsBalanced (desync_server env s.policy s.target record_ h) s b
  send_by_mode-IsBalanced mode_unknown record_ h s b = b
  send_by_mode-IsBalanced mode_block record_ h s b = b
  send_by_mode-IsBalanced mode_tls_alert record_ h s b = b

  connect_and-IsBalanced :
      (send : TunnelState → Handled × TunnelState) (s : TunnelState)
      → ((t : TunnelState) → IsBalanced given t → IsBalanced given (send t).1)
      → IsBalanced given s
      → IsBalanced given (connect_and env send s).1
  unfolding connect_and
  connect_and-IsBalanced send s keeps b =
      let c = ensure_server-IsBalanced s b in
      elim (Bool-cases (ensure_server env s).0) [
        | inl e ↦ rw e (keeps (ensure_server env s).1 c)
        | inr e ↦ rw e c
      ]

  send_named-IsBalanced :
      (origin_host origin_port record_ : Bytes) (h : Hello) (s : TunnelState)
      → IsBalanced given s
      → IsBalanced given (send_named env origin_host origin_port record_ h s).1
  unfolding send_named
  send_named-IsBalanced origin_host origin_port record_ h s b =
      let r = override_sniff env origin_host origin_port record_ h s in
      let c = override_sniff-IsBalanced origin_host origin_port record_ h s b in
      elim (Bool-cases r.0) [
        | inl e ↦ rw e (
            connect_and-IsBalanced (λ t. send_by_mode env t.policy.mode record_ h t) r.1
              (λ t. send_by_mode-IsBalanced t.policy.mode record_ h t) c)
        | inr e ↦ rw e c
      ]

  handle_parsed-IsBalanced :
      (origin_host origin_port record_ : Bytes) (h : Hello) (s : TunnelState)
      → IsBalanced given s
      → IsBalanced given (handle_parsed env origin_host origin_port record_ h s).1
  unfolding handle_parsed
  handle_parsed-IsBalanced origin_host origin_port record_ h s b =
      let plain : (ℕ → Bool) → Wire → Outcome × Wire = (λ succeeds. write_wire succeeds record_) in
      elim (Bool-cases (is_mode_tls_alert s.policy.mode)) [
        | inl e ↦ rw e (alert_client-IsBalanced h.prt_ver access_denied s b)
        | inr e ↦ elim (Bool-cases (is_true s.policy.tls13_only && not h.has_key_share)) [
          | inl f ↦ rw (e, f) (alert_client-IsBalanced h.prt_ver protocol_version s b)
          | inr f ↦ elim (Bool-cases (has_name h)) [
            | inl g ↦ rw (e, f, g) (send_named-IsBalanced origin_host origin_port record_ h s b)
            | inr g ↦
                rw (e, f, g)
                  (connect_and-IsBalanced (on_wire env plain) s (on_wire-IsBalanced plain) b)
          ]
        ]
      ]

  parsed-IsBalanced :
      (r : Parsed Hello) (origin_host origin_port record_ : Bytes) (s : TunnelState)
      → IsBalanced given s
      → IsBalanced given
          (elim r as (λ _. Handled × TunnelState) [
            | err e ↦ (handled_fault e, s)
            | ok h ↦ handle_parsed env origin_host origin_port record_ h s
          ]).1
  parsed-IsBalanced (err e) origin_host origin_port record_ s b = b
  parsed-IsBalanced (ok h) origin_host origin_port record_ s b =
      handle_parsed-IsBalanced origin_host origin_port record_ h s b

  -- `handleTLS` accounts for its connections on every branch, errors and overrides included: where
  -- at the start the given connections and the opened ones are as many as the closed ones and the
  -- one that is there, they are so behind it.
  pub handle_tls-IsBalanced :
      (origin_host origin_port : Bytes) (record_ : Option Bytes) (s : TunnelState)
      → IsBalanced given s
      → IsBalanced given (handle_tls env origin_host origin_port record_ s).1
  unfolding handle_tls
  handle_tls-IsBalanced origin_host origin_port none s b = b
  handle_tls-IsBalanced origin_host origin_port (some record_) s b =
      parsed-IsBalanced (parse_client_hello record_) origin_host origin_port record_ s b
