-- ===== src/Policy/Names.antt =====
-- The texts of the enumerations in a configuration: the `UnmarshalJSON` methods behind the decoding
-- of the JSON string, and the `String` methods. internal/policy.go, internal/dns.go.
use lumine_android.Policy.Types.{
  DnsMode, Mode, SniffOverrideMode, TriBool, bool_false, bool_true, bool_unset, dns_ipv4_only,
  dns_ipv6_only, dns_prefer_ipv4, dns_prefer_ipv6, dns_unknown, mode_block, mode_direct, mode_raw,
  mode_tls_alert, mode_tls_rf, mode_ttl_d, mode_unknown, sniff_always, sniff_off,
  sniff_policy_exists,
}
use lumine_android.Prelude.{
  Bytes, List, Result, [], bytes_eq, codes, err, if◌then◌else◌, ok, refl, ◌∷◌, ◌≡◌, ◌≢◌,
}

-- The error carries the refused text.
pub data NameError : Type 0 where
  invalid_name : Bytes → NameError

abbrev one_of {ℓ} : {A : Type ℓ} → List (Bytes × A) → Bytes → Result NameError A
one_of [] s = err (invalid_name s)
one_of ((name, a) ∷ names) s = if bytes_eq s name then ok a else one_of names s

unfoldable pub unmarshal_sniff_override_mode : Bytes → Result NameError SniffOverrideMode
unmarshal_sniff_override_mode = one_of (
    (codes "off", sniff_off)
    ∷ (codes "always", sniff_always)
    ∷ (codes "policy_exists", sniff_policy_exists)
    ∷ [])

unfoldable pub unmarshal_mode : Bytes → Result NameError Mode
unmarshal_mode = one_of (
    (codes "raw", mode_raw)
    ∷ (codes "direct", mode_direct)
    ∷ (codes "tls-rf", mode_tls_rf)
    ∷ (codes "ttl-d", mode_ttl_d)
    ∷ (codes "block", mode_block)
    ∷ (codes "tls-alert", mode_tls_alert)
    ∷ [])

unfoldable pub unmarshal_dns_mode : Bytes → Result NameError DnsMode
unmarshal_dns_mode = one_of (
    (codes "prefer_ipv4", dns_prefer_ipv4)
    ∷ (codes "prefer_ipv6", dns_prefer_ipv6)
    ∷ (codes "ipv4_only", dns_ipv4_only)
    ∷ (codes "ipv6_only", dns_ipv6_only)
    ∷ [])

-- The raw JSON text is compared here.
unfoldable pub unmarshal_tri_bool : Bytes → Result NameError TriBool
unmarshal_tri_bool =
    one_of
      ((codes "null", bool_unset) ∷ (codes "false", bool_false) ∷ (codes "true", bool_true) ∷ [])

unfoldable pub mode_string : Mode → Bytes
mode_string mode_raw = codes "raw"
mode_string mode_direct = codes "direct"
mode_string mode_tls_rf = codes "tls-rf"
mode_string mode_ttl_d = codes "ttl-d"
mode_string mode_block = codes "block"
mode_string mode_tls_alert = codes "tls-alert"
mode_string mode_unknown = codes "unknown"

unfoldable pub dns_mode_string : DnsMode → Bytes
dns_mode_string dns_prefer_ipv4 = codes "prefer_ipv4"
dns_mode_string dns_prefer_ipv6 = codes "prefer_ipv6"
dns_mode_string dns_ipv4_only = codes "ipv4_only"
dns_mode_string dns_ipv6_only = codes "ipv6_only"
dns_mode_string dns_unknown = codes "unknown"

mode_round_trip : (m : Mode) → m ≢ mode_unknown → unmarshal_mode (mode_string m) ≡ ok m
unfolding unmarshal_mode mode_string
mode_round_trip mode_unknown ne = absurd (ne refl)
mode_round_trip mode_raw ne = refl
mode_round_trip mode_direct ne = refl
mode_round_trip mode_tls_rf ne = refl
mode_round_trip mode_ttl_d ne = refl
mode_round_trip mode_block ne = refl
mode_round_trip mode_tls_alert ne = refl

dns_mode_round_trip :
    (m : DnsMode) → m ≢ dns_unknown → unmarshal_dns_mode (dns_mode_string m) ≡ ok m
unfolding unmarshal_dns_mode dns_mode_string
dns_mode_round_trip dns_unknown ne = absurd (ne refl)
dns_mode_round_trip dns_prefer_ipv4 ne = refl
dns_mode_round_trip dns_prefer_ipv6 ne = refl
dns_mode_round_trip dns_ipv4_only ne = refl
dns_mode_round_trip dns_ipv6_only ne = refl

-- The names that the policies are printed with are read back: each mode and DNS mode but the
-- unknown one comes from its own text, and the text of the unknown ones is refused.
pub names_round_trip :
    ((m : Mode) → m ≢ mode_unknown → unmarshal_mode (mode_string m) ≡ ok m)
    × ((m : DnsMode) → m ≢ dns_unknown → unmarshal_dns_mode (dns_mode_string m) ≡ ok m)
    × (unmarshal_mode (mode_string mode_unknown) ≡ err (invalid_name (codes "unknown")))
    × (unmarshal_dns_mode (dns_mode_string dns_unknown) ≡ err (invalid_name (codes "unknown")))
unfolding unmarshal_mode mode_string unmarshal_dns_mode dns_mode_string
names_round_trip = (mode_round_trip, dns_mode_round_trip, refl, refl)
