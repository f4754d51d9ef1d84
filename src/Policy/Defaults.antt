-- ===== src/Policy/Defaults.antt =====
-- internal/policy.go. What `normalizePolicyDefaults` guarantees of every policy that a connection
-- is handled with.
use lumine_android.Policy.Types.{
  DnsMode, Mode, Policy, dns_default, dns_unknown, is_dns_unknown, is_mode_unknown, mode_default,
  mode_ttl_d, mode_unknown,
}
use lumine_android.Policy.Merge.{above_or, normalize_policy_defaults, text_or_unset}
use lumine_android.Prelude.{Bytes, [], arith, bytes_eq_iff, if◌then◌else◌, pos, ℤ, ◌<ℤ◌, ◌≡◌, ◌≢◌}

pub record IsNormalized (p : Policy) : Type 0 where
  pub host_set : p.host ≢ []
  pub map_to_set : p.map_to ≢ []
  pub mode_known : p.mode ≢ mode_unknown
  pub dns_mode_known : p.dns_mode ≢ dns_unknown
  pub connect_timeout_pos : pos 0 <ℤ p.connect_timeout
  pub attempts_pos : p.mode ≡ mode_ttl_d → pos 0 <ℤ p.attempts
  pub max_ttl_above : p.mode ≡ mode_ttl_d → pos 1 <ℤ p.max_ttl
  pub fake_sleep_pos : p.mode ≡ mode_ttl_d → pos 0 <ℤ p.fake_sleep
  pub single_timeout_pos : p.mode ≡ mode_ttl_d → pos 0 <ℤ p.single_timeout

text_or_unset-ne : (s : Bytes) → text_or_unset s ≢ []
text_or_unset-ne s = ground (arith, bytes_eq_iff s [])

above_or-gt : (bound default value : ℤ) → bound <ℤ default → bound <ℤ above_or bound default value
above_or-gt bound default value h = ground arith

default_mode-ne : (m : Mode) → (if is_mode_unknown m then mode_default else m) ≢ mode_unknown
default_mode-ne m = ground arith

default_dns-ne : (m : DnsMode) → (if is_dns_unknown m then dns_default else m) ≢ dns_unknown
default_dns-ne m = ground arith

-- Whatever policy it is given, the normalisation leaves no empty host and target, no unknown mode
-- and DNS mode and a positive connect timeout, and for a TTL policy positive attempts, sleep and
-- timeout and a maximal TTL above 1.
pub normalize-IsNormalized : (p : Policy) → IsNormalized (normalize_policy_defaults p)
unfolding normalize_policy_defaults
normalize-IsNormalized p = ground (
  arith,
  text_or_unset-ne p.host,
  text_or_unset-ne p.map_to,
  default_mode-ne p.mode,
  default_dns-ne p.dns_mode,
)
