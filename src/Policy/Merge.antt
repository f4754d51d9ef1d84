-- ===== src/Policy/Merge.antt =====
-- internal/policy.go `normalizePolicyDefaults` and `mergePolicies`.
use lumine_android.Policy.Types.{
  Policy, dns_default, is_dns_unknown, is_mode_ttl_d, is_mode_unknown, is_sniff_unset, is_unset,
  mode_default, unset_string, zero_policy,
}
use lumine_android.Prelude.{
  Bool, Bytes, List, [], bytes_eq, if◌then◌else◌, leb_ℤ, not, pos, unset_int, ℕ, ℤ, ◌&&◌, ◌*◌,
  ◌==ℤ◌, ◌∷◌,
}

abbrev pub millisecond : ℕ
millisecond = 1000000

abbrev pub default_connect_timeout : ℤ
default_connect_timeout = pos (10000 * millisecond)

abbrev pub default_ttld_attempts : ℤ
default_ttld_attempts = pos 2

abbrev pub default_ttld_max_ttl : ℤ
default_ttld_max_ttl = pos 64

abbrev pub default_ttld_fake_sleep : ℤ
default_ttld_fake_sleep = pos (200 * millisecond)

abbrev pub default_ttld_single_timeout : ℤ
default_ttld_single_timeout = pos (500 * millisecond)

-- `if value <= bound { value = default }`
abbrev pub above_or : ℤ → ℤ → ℤ → ℤ
above_or bound default value = if leb_ℤ value bound then default else value

abbrev pub text_or_unset : Bytes → Bytes
text_or_unset s = if bytes_eq s [] then unset_string else s

unfoldable pub normalize_ttld : Policy → Policy
normalize_ttld p = record p {
  attempts = above_or (pos 0) default_ttld_attempts p.attempts;
  max_ttl = above_or (pos 1) default_ttld_max_ttl p.max_ttl;
  fake_sleep = above_or (pos 0) default_ttld_fake_sleep p.fake_sleep;
  single_timeout = above_or (pos 0) default_ttld_single_timeout p.single_timeout;
}

unfoldable pub normalize_policy_defaults : Policy → Policy
unfolding normalize_ttld
normalize_policy_defaults p =
    let q = record p {
      host = text_or_unset p.host;
      map_to = text_or_unset p.map_to;
      mode = if is_mode_unknown p.mode then mode_default else p.mode;
      dns_mode = if is_dns_unknown p.dns_mode then dns_default else p.dns_mode;
      connect_timeout = above_or (pos 0) default_connect_timeout p.connect_timeout;
    } in
    if is_mode_ttl_d q.mode then normalize_ttld q else q

-- `if merged.X == unset && p.X != unset { merged.X = p.X }`
abbrev pub pick {ℓ} : {A : Type ℓ} → (A → Bool) → A → A → A
pick unset merged value = if unset merged && not (unset value) then value else merged

abbrev pub is_zero : ℤ → Bool
is_zero n = n ==ℤ pos 0

abbrev pub is_unset_int : ℤ → Bool
is_unset_int n = n ==ℤ unset_int

abbrev pub is_unset_string : Bytes → Bool
is_unset_string s = bytes_eq s unset_string

-- The value that `merged` starts from.
abbrev pub empty_policy : Policy
empty_policy = record zero_policy {
  host = unset_string;
  map_to = unset_string;
  port = unset_int;
  http_status = unset_int;
  send_interval = unset_int;
  fake_ttl = unset_int;
  connect_timeout = unset_int;
  single_timeout = unset_int;
}

-- One round of the loop.
unfoldable pub merge_into : Policy → Policy → Policy
merge_into merged p = record {
  reply_first = pick is_unset merged.reply_first p.reply_first;
  sniff_override_mode = pick is_sniff_unset merged.sniff_override_mode p.sniff_override_mode;
  dns_mode = pick is_dns_unknown merged.dns_mode p.dns_mode;
  connect_timeout = pick is_unset_int merged.connect_timeout p.connect_timeout;
  host = pick is_unset_string merged.host p.host;
  map_to = pick is_unset_string merged.map_to p.map_to;
  port = pick is_unset_int merged.port p.port;
  http_status = pick is_unset_int merged.http_status p.http_status;
  tls13_only = pick is_unset merged.tls13_only p.tls13_only;
  mode = pick is_mode_unknown merged.mode p.mode;
  num_records = pick is_zero merged.num_records p.num_records;
  num_segments = pick is_zero merged.num_segments p.num_segments;
  wait_for_ack = pick is_unset merged.wait_for_ack p.wait_for_ack;
  oob = pick is_unset merged.oob p.oob;
  oob_ex = pick is_unset merged.oob_ex p.oob_ex;
  mod_minor_ver = pick is_unset merged.mod_minor_ver p.mod_minor_ver;
  send_interval = pick is_unset_int merged.send_interval p.send_interval;
  fake_ttl = pick is_unset_int merged.fake_ttl p.fake_ttl;
  fake_sleep = pick is_zero merged.fake_sleep p.fake_sleep;
  max_ttl = pick is_zero merged.max_ttl p.max_ttl;
  attempts = pick is_zero merged.attempts p.attempts;
  single_timeout = pick is_unset_int merged.single_timeout p.single_timeout;
}

unfoldable pub merge_loop : Policy → List Policy → Policy
unfolding merge_into
merge_loop merged [] = merged
merge_loop merged (p ∷ ps) = merge_loop (merge_into merged p) ps

-- The two defaults behind the loop, and `normalizePolicyDefaults`.
unfoldable pub merge_policies : List Policy → Policy
unfolding merge_loop normalize_policy_defaults
merge_policies ps =
    let merged = merge_loop empty_policy ps in
    normalize_policy_defaults (record merged {
      mode = if is_mode_unknown merged.mode then mode_default else merged.mode;
      dns_mode = if is_dns_unknown merged.dns_mode then dns_default else merged.dns_mode;
    })
