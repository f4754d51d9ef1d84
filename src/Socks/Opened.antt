-- ===== src/Socks/Opened.antt =====
-- internal/socks5.go. The connections to servers that the handler opens.
use lumine_android.Prelude.{
  Bool-cases, Bytes, [], arith, err, get_or, inl, inr, length, ltb, not, ok, ℕ, ◌==◌, ◌∷◌, ◌≡◌,
}
use lumine_android.Tunnel.State.{to_client}
use lumine_android.Tunnel.Counts.{opened, closed_count, opened-append, closed_count-append}
use lumine_android.Socks.Handler.{
  SocksEnv, SocksClient, Stepped, and_then, read_n, contains_zero, write_client, select_method,
  read_command, read_domain, read_host, read_ip, refuse, reply_of, addr_not_supported,
  cmd_not_supported,
}

-- No connection was opened or closed.
pub record IsQuiet (c : SocksClient) : Type 0 where
  pub none_opened : opened c.events ≡ 0
  pub none_closed : closed_count c.events ≡ 0

abbrev pub Quiet : {A : Type 0} → Stepped A → Type 0
Quiet r = IsQuiet r.1

pub and_then-Quiet :
    {A B : Type 0} (r : Stepped A) (next : A → SocksClient → Stepped B)
    → Quiet r
    → ((a : A) (c : SocksClient) → IsQuiet c → Quiet (next a c))
    → Quiet (and_then r next)
and_then-Quiet (err e, c) next q k = q
and_then-Quiet (ok a, c) next q k = k a c q

pub read_n-Quiet : (n : ℕ) (c : SocksClient) → IsQuiet c → Quiet (read_n n c)
unfolding read_n
read_n-Quiet n c q = elim (Bool-cases (ltb (length c.input) n)) [
  | inl h ↦ rw h (record { none_opened = q.none_opened; none_closed = q.none_closed })
  | inr h ↦ rw h (record { none_opened = q.none_opened; none_closed = q.none_closed })
]

module _ (env : SocksEnv) where
  pub write_client-Quiet :
      (bytes : Bytes) (c : SocksClient) → IsQuiet c → Quiet (write_client env bytes c)
  unfolding write_client
  write_client-Quiet bytes c q = record {
    none_opened = omega (arith, opened-append c.events (to_client bytes ∷ []), q.none_opened);
    none_closed = omega (arith, closed_count-append c.events (to_client bytes ∷ []), q.none_closed);
  }

  pub select_method-Quiet : (c : SocksClient) → IsQuiet c → Quiet (select_method env c)
  unfolding select_method
  select_method-Quiet c q = and_then-Quiet (read_n 2 c) _ (read_n-Quiet 2 c q) λ header c q.
      elim (Bool-cases (not (get_or header 0 0 == 5))) [
        | inl h ↦ rw h q
        | inr h ↦ rw h (
            and_then-Quiet (read_n (get_or header 1 0) c) _ (read_n-Quiet (get_or header 1 0) c q)
              λ methods c q. elim (Bool-cases (contains_zero methods)) [
                | inl k ↦ rw k (write_client-Quiet _ c q)
                | inr k ↦ rw k q
              ])
      ]

  pub read_command-Quiet : (c : SocksClient) → IsQuiet c → Quiet (read_command env c)
  unfolding read_command refuse
  read_command-Quiet c q = and_then-Quiet (read_n 4 c) _ (read_n-Quiet 4 c q) λ header c q.
      elim (Bool-cases (not (get_or header 0 0 == 5))) [
        | inl h ↦ rw h q
        | inr h ↦ elim (Bool-cases (not (get_or header 1 0 == 1))) [
          | inl k ↦ rw (h, k) (write_client-Quiet (reply_of cmd_not_supported) c q)
          | inr k ↦ rw (h, k) q
        ]
      ]

  read_ip-Quiet : (n : ℕ) (c : SocksClient) → IsQuiet c → Quiet (read_ip env n c)
  unfolding read_ip
  read_ip-Quiet n c q = and_then-Quiet (read_n n c) _ (read_n-Quiet n c q) (λ ip c q. q)

  read_domain-Quiet : (c : SocksClient) → IsQuiet c → Quiet (read_domain env c)
  unfolding read_domain
  read_domain-Quiet c q = and_then-Quiet (read_n 1 c) _ (read_n-Quiet 1 c q) λ len c q.
      elim (Bool-cases (ltb 253 (get_or len 0 0))) [
        | inl h ↦ rw h q
        | inr h ↦ rw h (
            and_then-Quiet (read_n (get_or len 0 0) c) _ (read_n-Quiet (get_or len 0 0) c q)
              (λ domain c q. q))
      ]

  pub read_host-Quiet : (atyp : ℕ) (c : SocksClient) → IsQuiet c → Quiet (read_host env atyp c)
  unfolding read_host refuse
  read_host-Quiet atyp c q = elim (Bool-cases (atyp == 1)) [
    | inl h ↦ rw h (read_ip-Quiet 4 c q)
    | inr h ↦ elim (Bool-cases (atyp == 4)) [
      | inl k ↦ rw (h, k) (read_ip-Quiet 16 c q)
      | inr k ↦ elim (Bool-cases (atyp == 3)) [
        | inl l ↦ rw (h, k, l) (read_domain-Quiet c q)
        | inr l ↦ rw (h, k, l) (write_client-Quiet (reply_of addr_not_supported) c q)
      ]
    ]
  ]
