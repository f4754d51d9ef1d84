-- ===== src/Tests/Answers.antt =====
-- An answer that is remembered for an hour.
use lumine_android.Prelude.{
  Bytes, Option, [], bytes_eq, codes, if◌then◌else◌, is_empty, ltb, none, refl, some, ◌*◌, ◌+◌, ◌≡◌,
}
use lumine_android.Dns.Mapping.{
  lookup_mobile_dns_mapping, remember_mobile_dns_mapping, nanoseconds, MobileDnsRecords,
}
use lumine_android.Dns.Remembered.{lookup-remember}

abbrev key_of : Bytes → Option Bytes
key_of ip = if is_empty ip then none else some ip

abbrev first : Bytes
first = codes "10.0.0.1"

abbrev answered : MobileDnsRecords
answered = remember_mobile_dns_mapping key_of 5 first (codes "site") 7200 []

expired : (lookup_mobile_dns_mapping key_of (6 + nanoseconds 3600) first answered).0 ≡ none
unfolding lookup_mobile_dns_mapping remember_mobile_dns_mapping
expired = refl

lookup-remember_example :
    (lookup_mobile_dns_mapping key_of 9 first
      (remember_mobile_dns_mapping key_of 5 first (codes "site") 7200 [])).0
    ≡ (if bytes_eq first first
        then (if ltb (5 + 3600 * 1000000000) 9 then none else some (codes "site"))
        else (lookup_mobile_dns_mapping key_of 9 first []).0)
lookup-remember_example =
    lookup-remember key_of [] first first (codes "site") 5 7200 refl refl 9 first first refl
