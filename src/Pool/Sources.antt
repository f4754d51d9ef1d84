-- ===== src/Pool/Sources.antt =====
-- internal/ippool.go. What `parseIPList` ends with.
use lumine_android.Pool.Expanded.{expand_pattern-some}
use lumine_android.Prelude.{
  Bool, Bool-cases, Bytes, List, Option-cases, Result, [], arith, err, inl, inr, leb, length,
  length-append, ok, suc, zero, ℕ, ◌++◌, ◌+◌, ◌<◌, ◌>>=◌, ◌∷◌, ◌≢◌, ◌≤◌,
}
use lumine_android.Pool.Config.{
  no_fuel, Addresses, PoolError, add_found, add_ip, add_patterns, add_prefix, add_source,
  add_sources, max_ip_pool_size, parse_ip_list,
}

-- A list of at most 1000 addresses, or an error that is not the fault of the fuel.
pub data Fits : Result PoolError (List Bytes) → Type 0 where
  within : {ips : List Bytes} → length ips ≤ max_ip_pool_size → Fits (ok ips)
  refused : {e : PoolError} → e ≢ no_fuel → Fits (err e)

Fits-bind :
    (m : Result PoolError (List Bytes)) (f : List Bytes → Result PoolError (List Bytes))
    → Fits m
    → ((ips : List Bytes) → length ips ≤ max_ip_pool_size → Fits (f ips))
    → Fits (m >>= f)
Fits-bind _ f (within {ips} h) k = k ips h
Fits-bind _ f (refused ne) k = refused ne

-- One address more is taken below the limit only.
add_ip-bind-Fits :
    (s : Bytes) (ips : List Bytes) (f : List Bytes → Result PoolError (List Bytes))
    → (length ips < max_ip_pool_size → Fits (f (ips ++ s ∷ [])))
    → Fits (add_ip s ips >>= f)
unfolding add_ip
add_ip-bind-Fits s ips f k = elim (Bool-cases (leb max_ip_pool_size (length ips))) [
  | inl e ↦ rw e (refused (λ q. cc))
  | inr e ↦ rw e (k (ground arith))
]

add_found-Fits :
    (found ips : List Bytes) → length ips ≤ max_ip_pool_size → Fits (add_found found ips)
unfolding add_found
add_found-Fits [] ips h = within h
add_found-Fits (s ∷ ss) ips h =
    add_ip-bind-Fits s ips (add_found ss)
      (λ lt. add_found-Fits ss (ips ++ s ∷ []) (omega (arith, length-append ips (s ∷ []))))

module _ (net : Addresses) where
  add_prefix-Fits :
      (fuel : ℕ) (contains : net.Addr → Bool) (addr : net.Addr) (ips : List Bytes)
      → max_ip_pool_size < length ips + fuel
      → length ips ≤ max_ip_pool_size
      → Fits (add_prefix net fuel contains addr ips)
  unfolding add_prefix
  add_prefix-Fits zero contains addr ips h k = let no : ⊥ = omega arith in elim no [ ]
  add_prefix-Fits (suc fuel) contains addr ips h k =
      add_ip-bind-Fits (net.addr_string addr) ips _ (λ lt.
        let more : List Bytes = ips ++ net.addr_string addr ∷ [] in
        let fits : length more ≤ max_ip_pool_size =
          omega (arith, length-append ips (net.addr_string addr ∷ [])) in
        let covered : max_ip_pool_size < length more + fuel =
          omega (arith, length-append ips (net.addr_string addr ∷ [])) in
        elim (Option-cases (net.next_addr addr)) [
          | inl e ↦ rw e (within fits)
          | inr (next, e) ↦ elim (Bool-cases (contains next)) [
            | inl c ↦ rw (e, c) (add_prefix-Fits fuel contains next more covered fits)
            | inr c ↦ rw (e, c) (within fits)
          ]
        ])

  add_source-Fits :
      (s : Bytes) (ips : List Bytes) → length ips ≤ max_ip_pool_size → Fits (add_source net s ips)
  unfolding add_source
  add_source-Fits s ips h = elim (Bool-cases (leb max_ip_pool_size (length ips))) [
    | inl e ↦ rw e (refused (λ q. cc))
    | inr e ↦
        let lt : length ips < max_ip_pool_size = ground arith in
        elim (Bool-cases (net.parse_addr s)) [
          | inl a ↦ rw (e, a) (within (omega (arith, length-append ips (s ∷ []))))
          | inr a ↦ elim (Option-cases (net.parse_prefix s)) [
            | inl p ↦ elim (Option-cases (net.lookup_ip s)) [
              | inl l ↦ rw (e, a, p, l) (refused (λ q. cc))
              | inr (found, l) ↦ rw (e, a, p, l) (add_found-Fits found ips h)
            ]
            | inr ((addr, contains), p) ↦ elim (Bool-cases (contains addr)) [
              | inl c ↦
                  rw (e, a, p, c)
                    (add_prefix-Fits (suc max_ip_pool_size) contains addr ips (omega arith) h)
              | inr c ↦ rw (e, a, p, c) (within h)
            ]
          ]
        ]
  ]

  add_sources-Fits :
      (ss ips : List Bytes) → length ips ≤ max_ip_pool_size → Fits (add_sources net ss ips)
  unfolding add_sources
  add_sources-Fits [] ips h = within h
  add_sources-Fits (s ∷ ss) ips h =
      Fits-bind (add_source net s ips) (add_sources net ss) (add_source-Fits s ips h)
        (add_sources-Fits ss)

  add_patterns-Fits :
      (ps ips : List Bytes) → length ips ≤ max_ip_pool_size → Fits (add_patterns net ps ips)
  unfolding add_patterns
  add_patterns-Fits [] ips h = within h
  add_patterns-Fits (p ∷ ps) ips h =
      let (texts, e) = expand_pattern-some (suc (length p)) p (omega arith) in
      rw (add_patterns, e)
        (Fits-bind (add_sources net texts ips) (add_patterns net ps) (add_sources-Fits texts ips h)
          (add_patterns-Fits ps))

  -- Whatever the addresses, the prefixes and the resolver are, the list of the sources is read to
  -- its end: the result is a list of at most 1000 addresses or an error, and neither the fuel of
  -- the patterns, one more than their length, nor that of a prefix, 1001, is ever used up.
  pub parse_ip_list-Fits : (sources : List Bytes) → Fits (parse_ip_list net sources)
  unfolding parse_ip_list
  parse_ip_list-Fits sources = add_patterns-Fits sources [] (omega arith)
