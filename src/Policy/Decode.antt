-- ===== src/Policy/Decode.antt =====
-- internal/policy.go `(*Policy).UnmarshalJSON`, behind the decoding of the JSON object into `tmp`.
-- `time.ParseDuration` is a parameter: `none` is a text that is no duration.
use lumine_android.Policy.Types.{DnsMode, Mode, Policy, SniffOverrideMode, TriBool, unset_string}
use lumine_android.Prelude.{
  Bool, Bytes, Option, Result, bytes_eq, err, if◌then◌else◌, leb_ℤ, ltb_ℤ, negsuc, none, ok, pos,
  some, unset_int, ℤ, ◌==ℤ◌, ◌>>=◌, ◌||◌,
}

-- The fields of `tmp`; a missing member is `none`, or the zero value of an enumeration.
pub record RawPolicy : Type 0 where
  pub sniff_override_mode : SniffOverrideMode
  pub reply_first : TriBool
  pub connect_timeout : Option Bytes
  pub host : Option Bytes
  pub map_to : Option Bytes
  pub port : Option ℤ
  pub dns_mode : DnsMode
  pub http_status : Option ℤ
  pub tls13_only : TriBool
  pub mode : Mode
  pub num_records : Option ℤ
  pub num_segments : Option ℤ
  pub wait_for_ack : TriBool
  pub oob : TriBool
  pub oob_ex : TriBool
  pub mod_minor_ver : TriBool
  pub send_interval : Option Bytes
  pub fake_ttl : Option ℤ
  pub fake_sleep : Option Bytes
  pub max_ttl : Option ℤ
  pub attempts : Option ℤ
  pub single_timeout : Option Bytes

pub data PolicyField : Type 0 where
  host_field map_to_field port_field http_status_field num_records_field : PolicyField
  num_segments_field fake_ttl_field attempts_field max_ttl_field : PolicyField
  connect_timeout_field send_interval_field fake_sleep_field single_timeout_field : PolicyField

pub data PolicyError : Type 0 where
  reserved_text : PolicyField → PolicyError
  out_of_range : PolicyField → ℤ → PolicyError
  bad_duration : PolicyField → Bytes → PolicyError

-- `host` and `map_to`.
unfoldable pub decode_text : PolicyField → Option Bytes → Result PolicyError Bytes
decode_text f none = ok unset_string
decode_text f (some s) = if bytes_eq s unset_string then err (reserved_text f) else ok s

-- A number with the test that refuses it, and the value of a missing one.
unfoldable pub decode_int : PolicyField → (ℤ → Bool) → ℤ → Option ℤ → Result PolicyError ℤ
decode_int f bad missing none = ok missing
decode_int f bad missing (some n) = if bad n then err (out_of_range f n) else ok n

module _ (parse_duration : Bytes → Option ℤ) where
  -- A duration with the test that refuses it, and the value of a missing one.
  unfoldable pub decode_duration :
      PolicyField → (ℤ → Bool) → ℤ → Option Bytes → Result PolicyError ℤ
  decode_duration f bad missing none = ok missing
  decode_duration f bad missing (some s) = elim (parse_duration s) [
    | none ↦ err (bad_duration f s)
    | some d ↦ if bad d then err (out_of_range f d) else ok d
  ]

  -- The fields in the order of the checks. `p` is the receiver: the fields with no value for a
  -- missing member keep its value.
  unfoldable pub unmarshal_policy : Policy → RawPolicy → Result PolicyError Policy
  unfolding decode_text decode_int decode_duration
  unmarshal_policy p raw = do
    host ← decode_text host_field raw.host
    map_to ← decode_text map_to_field raw.map_to
    port ← decode_int port_field (λ n. ltb_ℤ n (pos 0) || ltb_ℤ (pos 65535) n) unset_int raw.port
    http_status ← decode_int http_status_field (λ n. ltb_ℤ n (pos 0)) unset_int raw.http_status
    num_records ← decode_int num_records_field (λ n. leb_ℤ n (pos 0)) p.num_records raw.num_records
    num_segments ←
        decode_int num_segments_field (λ n. n ==ℤ pos 0 || ltb_ℤ n (negsuc 0)) p.num_segments
          raw.num_segments
    fake_ttl ←
        decode_int fake_ttl_field (λ n. ltb_ℤ n (pos 0) || ltb_ℤ (pos 255) n) unset_int raw.fake_ttl
    attempts ← decode_int attempts_field (λ n. ltb_ℤ n (pos 1)) p.attempts raw.attempts
    max_ttl ←
        decode_int max_ttl_field (λ n. leb_ℤ n (pos 1) || ltb_ℤ (pos 255) n) p.max_ttl raw.max_ttl
    connect_timeout ←
        decode_duration connect_timeout_field (λ d. leb_ℤ d (pos 0)) unset_int raw.connect_timeout
    send_interval ←
        decode_duration send_interval_field (λ d. ltb_ℤ d (pos 0)) unset_int raw.send_interval
    fake_sleep ← decode_duration fake_sleep_field (λ d. leb_ℤ d (pos 0)) p.fake_sleep raw.fake_sleep
    single_timeout ←
        decode_duration single_timeout_field (λ d. leb_ℤ d (pos 0)) unset_int raw.single_timeout
    ok (record {
      reply_first = raw.reply_first;
      sniff_override_mode = raw.sniff_override_mode;
      dns_mode = raw.dns_mode;
      connect_timeout = connect_timeout;
      host = host;
      map_to = map_to;
      port = port;
      http_status = http_status;
      tls13_only = raw.tls13_only;
      mode = raw.mode;
      num_records = num_records;
      num_segments = num_segments;
      wait_for_ack = raw.wait_for_ack;
      oob = raw.oob;
      oob_ex = raw.oob_ex;
      mod_minor_ver = raw.mod_minor_ver;
      send_interval = send_interval;
      fake_ttl = fake_ttl;
      fake_sleep = fake_sleep;
      max_ttl = max_ttl;
      attempts = attempts;
      single_timeout = single_timeout;
    })
