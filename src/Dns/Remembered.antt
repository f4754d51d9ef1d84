-- ===== src/Dns/Remembered.antt =====
-- internal/dns_mobile.go. What is remembered of the answers.
use lumine_android.Dns.Mapping.{
  MobileDnsRecords, delete_record, get_record, limit_ttl, lookup_mobile_dns_mapping, nanoseconds,
  remember_mobile_dns_mapping, MobileDnsRecord,
}
use lumine_android.Prelude.{
  Bool-cases, Bytes, Option, Option-cases, [], arith, bytes_eq, bytes_eq_iff, false, if◌then◌else◌,
  inl, inr, is_empty, ltb, min, none, refl, some, suc, zero, ℕ, ◌*◌, ◌+◌, ◌∙◌, ◌∷◌, ◌≡◌,
}

get_record-delete_record_other :
    (key other : Bytes) (rs : MobileDnsRecords)
    → bytes_eq key other ≡ false
    → get_record other (delete_record key rs) ≡ get_record other rs
unfolding get_record delete_record
get_record-delete_record_other key other [] h = refl
get_record-delete_record_other key other ((k, r) ∷ rs) h = elim (Bool-cases (bytes_eq k key)) [
  | inl e ↦
      let same : k ≡ key = (bytes_eq_iff k key).0 e in
      let apart : bytes_eq k other ≡ false = rw same h in
      rw (e, apart) (get_record-delete_record_other key other rs h)
  | inr e ↦ elim (Bool-cases (bytes_eq k other)) [
    | inl f ↦ rw (e, f) refl
    | inr f ↦ rw (e, f) (get_record-delete_record_other key other rs h)
  ]
]

abbrev answer : ℕ → Option MobileDnsRecord → Option Bytes
answer later none = none
answer later (some r) = if ltb r.expires later then none else some r.domain

lookup-answer :
    (parse_ip : Bytes → Option Bytes) (later : ℕ) (asked other : Bytes) (records : MobileDnsRecords)
    → parse_ip asked ≡ some other
    → (lookup_mobile_dns_mapping parse_ip later asked records).0
      ≡ answer later (get_record other records)
unfolding lookup_mobile_dns_mapping
lookup-answer parse_ip later asked other records h =
    elim (Option-cases (get_record other records)) [
      | inl e ↦ rw (lookup_mobile_dns_mapping, h, e) refl
      | inr (r, e) ↦ elim (Bool-cases (ltb r.expires later)) [
        | inl f ↦ rw (lookup_mobile_dns_mapping, h, e, f) refl
        | inr f ↦ rw (lookup_mobile_dns_mapping, h, e, f) refl
      ]
    ]

-- The seconds that an answer is remembered for.
abbrev pub lifetime : ℕ → ℕ
lifetime zero = 60
lifetime (suc n) = min (suc n) 3600

limit_ttl-lifetime : (ttl : ℕ) → limit_ttl ttl ≡ lifetime ttl
unfolding limit_ttl
limit_ttl-lifetime zero = refl
limit_ttl-lifetime (suc n) = ground arith

module _ (parse_ip : Bytes → Option Bytes) (records : MobileDnsRecords) (ip key domain : Bytes)
    (now ttl : ℕ) (parsed : parse_ip ip ≡ some key) (named : is_empty domain ≡ false) where
  remember-cons :
      remember_mobile_dns_mapping parse_ip now ip domain ttl records
      ≡ (key, record { domain = domain; expires = now + nanoseconds (limit_ttl ttl) })
        ∷ delete_record key records
  unfolding remember_mobile_dns_mapping
  remember-cons = rw (remember_mobile_dns_mapping, parsed, named) refl

  -- After an answer for a domain with a name, looking up an address of the same text gives the
  -- domain until the lifetime is over, 60 seconds for a lifetime of 0 and else as many seconds as
  -- it says but an hour at most, and nothing later; looking up an address of another text gives
  -- what it gave before.
  pub lookup-remember :
      (later : ℕ) (asked other : Bytes)
      → parse_ip asked ≡ some other
      → (lookup_mobile_dns_mapping parse_ip later asked
          (remember_mobile_dns_mapping parse_ip now ip domain ttl records)).0
        ≡ (if bytes_eq key other
            then (if ltb (now + lifetime ttl * 1000000000) later then none else some domain)
            else (lookup_mobile_dns_mapping parse_ip later asked records).0)
  unfolding get_record
  lookup-remember later asked other parsed_asked =
      let after = remember_mobile_dns_mapping parse_ip now ip domain ttl records in
      let before_is = lookup-answer parse_ip later asked other records parsed_asked in
      lookup-answer parse_ip later asked other after parsed_asked
      ∙ rw (before_is, remember-cons, limit_ttl-lifetime ttl)
          (elim (Bool-cases (bytes_eq key other)) [
            | inl e ↦ rw e refl
            | inr e ↦ rw (e, get_record-delete_record_other key other records e) refl
          ])
