-- ===== src/Policy/Types.antt =====
-- internal/policy.go: `SniffOverrideMode`, `Mode`, `TriBool` and `Policy`; internal/dns.go `DNSMode`.
-- Durations are nanoseconds.
use lumine_android.Prelude.{Bool, Bytes, [], codes, false, pos, true, ℤ}

pub data SniffOverrideMode : Type 0 where
  sniff_unset sniff_off sniff_always sniff_policy_exists : SniffOverrideMode

pub data Mode : Type 0 where
  mode_unknown mode_raw mode_direct mode_tls_rf mode_ttl_d mode_block mode_tls_alert : Mode

abbrev pub mode_default : Mode
mode_default = mode_tls_rf

pub data TriBool : Type 0 where
  bool_unset bool_false bool_true : TriBool

pub data DnsMode : Type 0 where
  dns_unknown dns_prefer_ipv4 dns_prefer_ipv6 dns_ipv4_only dns_ipv6_only : DnsMode

abbrev pub dns_default : DnsMode
dns_default = dns_prefer_ipv4

abbrev pub is_true : TriBool → Bool
is_true bool_true = true
is_true _ = false

abbrev pub is_unset : TriBool → Bool
is_unset bool_unset = true
is_unset _ = false

-- The comparisons with the zero values of the other enumerations, and with one mode.
abbrev pub is_sniff_unset : SniffOverrideMode → Bool
is_sniff_unset sniff_unset = true
is_sniff_unset _ = false

abbrev pub is_mode_unknown : Mode → Bool
is_mode_unknown mode_unknown = true
is_mode_unknown _ = false

abbrev pub is_mode_ttl_d : Mode → Bool
is_mode_ttl_d mode_ttl_d = true
is_mode_ttl_d _ = false

abbrev pub is_mode_block : Mode → Bool
is_mode_block mode_block = true
is_mode_block _ = false

abbrev pub is_mode_raw : Mode → Bool
is_mode_raw mode_raw = true
is_mode_raw _ = false

abbrev pub is_mode_tls_alert : Mode → Bool
is_mode_tls_alert mode_tls_alert = true
is_mode_tls_alert _ = false

abbrev pub is_dns_unknown : DnsMode → Bool
is_dns_unknown dns_unknown = true
is_dns_unknown _ = false

-- `unsetString`, "-".
abbrev pub unset_string : Bytes
unset_string = codes "-"

pub record Policy : Type 0 where
  pub reply_first : TriBool
  pub sniff_override_mode : SniffOverrideMode
  pub dns_mode : DnsMode
  pub connect_timeout : ℤ
  pub host : Bytes
  pub map_to : Bytes
  pub port : ℤ
  pub http_status : ℤ
  pub tls13_only : TriBool
  pub mode : Mode
  pub num_records : ℤ
  pub num_segments : ℤ
  pub wait_for_ack : TriBool
  pub oob : TriBool
  pub oob_ex : TriBool
  pub mod_minor_ver : TriBool
  pub send_interval : ℤ
  pub fake_ttl : ℤ
  pub fake_sleep : ℤ
  pub max_ttl : ℤ
  pub attempts : ℤ
  pub single_timeout : ℤ

-- `Policy{}`.
abbrev pub zero_policy : Policy
zero_policy = record {
  reply_first = bool_unset;
  sniff_override_mode = sniff_unset;
  dns_mode = dns_unknown;
  connect_timeout = pos 0;
  host = [];
  map_to = [];
  port = pos 0;
  http_status = pos 0;
  tls13_only = bool_unset;
  mode = mode_unknown;
  num_records = pos 0;
  num_segments = pos 0;
  wait_for_ack = bool_unset;
  oob = bool_unset;
  oob_ex = bool_unset;
  mod_minor_ver = bool_unset;
  send_interval = pos 0;
  fake_ttl = pos 0;
  fake_sleep = pos 0;
  max_ttl = pos 0;
  attempts = pos 0;
  single_timeout = pos 0;
}
