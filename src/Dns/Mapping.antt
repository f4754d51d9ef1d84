-- ===== src/Dns/Mapping.antt =====
-- internal/dns_mobile.go `rememberMobileDNSMapping` and `lookupMobileDNSMapping`. The map is an
-- association list. `parse_ip` stands for `net.ParseIP(ip).String()`, `none` where there is no
-- address; times are nanoseconds. A call is one step: the source lets go of the lock between the
-- reading of a record and its deletion.
use lumine_android.Prelude.{
  Bytes, List, Option, [], bytes_eq, if◌then◌else◌, is_empty, ltb, none, some, ℕ, ◌*◌, ◌+◌, ◌==◌,
  ◌∷◌,
}

pub record MobileDnsRecord : Type 0 where
  pub domain : Bytes
  pub expires : ℕ

abbrev pub MobileDnsRecords : Type 0
MobileDnsRecords = List (Bytes × MobileDnsRecord)

unfoldable pub get_record : Bytes → MobileDnsRecords → Option MobileDnsRecord
get_record key [] = none
get_record key ((k, r) ∷ rs) = if bytes_eq k key then some r else get_record key rs

-- `delete(m, key)`
unfoldable pub delete_record : Bytes → MobileDnsRecords → MobileDnsRecords
delete_record key [] = []
delete_record key ((k, r) ∷ rs) =
    let rest = delete_record key rs in if bytes_eq k key then rest else (k, r) ∷ rest

abbrev pub mobile_dns_answer_ttl : ℕ
mobile_dns_answer_ttl = 60

abbrev pub nanoseconds : ℕ → ℕ
nanoseconds seconds = seconds * 1000000000

-- The lifetime in seconds: 0 is the default, and an hour is the most.
unfoldable pub limit_ttl : ℕ → ℕ
limit_ttl ttl =
    let given = if ttl == 0 then mobile_dns_answer_ttl else ttl in
    if ltb 3600 given then 3600 else given

module _ (parse_ip : Bytes → Option Bytes) where
  unfoldable pub remember_mobile_dns_mapping :
      ℕ → Bytes → Bytes → ℕ → MobileDnsRecords → MobileDnsRecords
  unfolding limit_ttl delete_record
  remember_mobile_dns_mapping now ip domain ttl records = elim (parse_ip ip) [
    | none ↦ records
    | some key ↦
        if is_empty domain
        then records
        else (key, record { domain = domain; expires = now + nanoseconds (limit_ttl ttl) })
          ∷ delete_record key records
  ]

  unfoldable pub lookup_mobile_dns_mapping :
      ℕ → Bytes → MobileDnsRecords → Option Bytes × MobileDnsRecords
  unfolding get_record delete_record
  lookup_mobile_dns_mapping now ip records = elim (parse_ip ip) [
    | none ↦ (none, records)
    | some key ↦ elim (get_record key records) [
      | none ↦ (none, records)
      | some r ↦
          if ltb r.expires now then (none, delete_record key records) else (some r.domain, records)
    ]
  ]
