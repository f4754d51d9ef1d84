-- ===== src/Tests/Policies.antt =====
-- Policies: merging, defaults and reading.
use lumine_android.Policy.Types.{
  Policy, bool_true, bool_unset, dns_unknown, mode_tls_rf, mode_ttl_d, sniff_unset, zero_policy,
}
use lumine_android.Policy.Range.{InRange, unmarshal_policy-InRange}
use lumine_android.Policy.Merge.{merge_policies, normalize_policy_defaults}
use lumine_android.Policy.Fields.{first_policy, merge_policies-first_policy}
use lumine_android.Policy.Defaults.{IsNormalized, normalize-IsNormalized}
use lumine_android.Policy.Decode.{RawPolicy, unmarshal_policy}
use lumine_android.Prelude.{
  Bytes, Option, [], bytes_eq, codes, if◌then◌else◌, negsuc, none, ok, pos, refl, some, unset_int,
  ℤ, ◌∷◌, ◌≡◌,
}

abbrev fragmenting : Policy
fragmenting = record zero_policy { num_records = pos 4; port = unset_int; host = codes "-" }

abbrev probing : Policy
probing = record zero_policy {
  mode = mode_ttl_d;
  num_records = pos 2;
  port = pos 8443;
  host = codes "self";
}

merged_port : (merge_policies (fragmenting ∷ probing ∷ [])).port ≡ pos 8443
unfolding merge_policies
merged_port = refl

merged_records : (merge_policies (fragmenting ∷ probing ∷ [])).num_records ≡ pos 4
unfolding merge_policies
merged_records = refl

merge_policies-first_policy_example :
    merge_policies (fragmenting ∷ probing ∷ [])
    ≡ normalize_policy_defaults (first_policy (fragmenting ∷ probing ∷ []))
merge_policies-first_policy_example = merge_policies-first_policy (fragmenting ∷ probing ∷ [])

normalize-IsNormalized_example : IsNormalized (normalize_policy_defaults probing)
normalize-IsNormalized_example = normalize-IsNormalized probing

-- A parser of durations that knows one text.
abbrev parse_ten : Bytes → Option ℤ
parse_ten s = if bytes_eq s (codes "10s") then some (pos 10000000000) else none

abbrev raw : RawPolicy
raw = record {
  sniff_override_mode = sniff_unset;
  reply_first = bool_unset;
  connect_timeout = some (codes "10s");
  host = none;
  map_to = none;
  port = some (pos 443);
  dns_mode = dns_unknown;
  http_status = none;
  tls13_only = bool_unset;
  mode = mode_tls_rf;
  num_records = some (pos 4);
  num_segments = some (negsuc 0);
  wait_for_ack = bool_unset;
  oob = bool_unset;
  oob_ex = bool_unset;
  mod_minor_ver = bool_true;
  send_interval = none;
  fake_ttl = none;
  fake_sleep = none;
  max_ttl = none;
  attempts = none;
  single_timeout = none;
}

abbrev read : Policy
read = record zero_policy {
  connect_timeout = pos 10000000000;
  host = codes "-";
  map_to = codes "-";
  port = pos 443;
  http_status = unset_int;
  mode = mode_tls_rf;
  num_records = pos 4;
  num_segments = negsuc 0;
  mod_minor_ver = bool_true;
  send_interval = unset_int;
  fake_ttl = unset_int;
  single_timeout = unset_int;
}

read_ok : unmarshal_policy parse_ten zero_policy raw ≡ ok read
unfolding unmarshal_policy
read_ok = refl

unmarshal_policy-InRange_example : InRange read
unmarshal_policy-InRange_example = unmarshal_policy-InRange parse_ten raw read_ok
