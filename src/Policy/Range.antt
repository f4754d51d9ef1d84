-- ===== src/Policy/Range.antt =====
-- internal/policy.go. The values that a policy read from a configuration can hold.
use lumine_android.Policy.Types.{Policy, zero_policy, unset_string}
use lumine_android.Policy.Decode.{
  PolicyField, RawPolicy, decode_duration, decode_int, unmarshal_policy, attempts_field,
  connect_timeout_field, decode_text, fake_sleep_field, fake_ttl_field, host_field,
  http_status_field, map_to_field, max_ttl_field, num_records_field, num_segments_field, port_field,
  send_interval_field, single_timeout_field,
}
use lumine_android.Prelude.{
  Bool, Bool-cases, Bytes, Holds, Holds-bind, Holds-ok, Option, Option-cases, arith, bytes_eq,
  fails, false, holds, inl, inr, leb_ℤ, ltb_ℤ, negsuc, none, ok, pos, refl, some, unset_int, ℤ,
  ◌<ℤ◌, ◌==ℤ◌, ◌||◌, ◌≡◌, ◌≤ℤ◌, ◌⊎◌,
}

-- Unset, or between two bounds.
abbrev pub UnsetOrBetween : ℤ → ℤ → ℤ → Type 0
UnsetOrBetween lo hi n = (n ≡ unset_int) ⊎ ((lo ≤ℤ n) × (n ≤ℤ hi))

-- The bounds of the fields; 0 stands for a missing count, -1 for a missing value of the others.
pub record InRange (p : Policy) : Type 0 where
  pub port_range : UnsetOrBetween (pos 0) (pos 65535) p.port
  pub http_status_range : unset_int ≤ℤ p.http_status
  pub num_records_range : pos 0 ≤ℤ p.num_records
  pub num_segments_range : unset_int ≤ℤ p.num_segments
  pub fake_ttl_range : UnsetOrBetween (pos 0) (pos 255) p.fake_ttl
  pub attempts_range : pos 0 ≤ℤ p.attempts
  pub max_ttl_range : (p.max_ttl ≡ pos 0) ⊎ ((pos 2 ≤ℤ p.max_ttl) × (p.max_ttl ≤ℤ pos 255))
  pub connect_timeout_range : (p.connect_timeout ≡ unset_int) ⊎ (pos 0 <ℤ p.connect_timeout)
  pub send_interval_range : unset_int ≤ℤ p.send_interval
  pub fake_sleep_range : pos 0 ≤ℤ p.fake_sleep
  pub single_timeout_range : (p.single_timeout ≡ unset_int) ⊎ (pos 0 <ℤ p.single_timeout)

decode_int-Holds :
    (f : PolicyField) (bad : ℤ → Bool) (missing : ℤ) (raw : Option ℤ)
    → Holds (λ n. (n ≡ missing) ⊎ (bad n ≡ false)) (decode_int f bad missing raw)
unfolding decode_int
decode_int-Holds f bad missing none = holds (inl refl)
decode_int-Holds f bad missing (some m) = elim (Bool-cases (bad m)) [
  | inl e ↦ rw e fails
  | inr e ↦ rw e (holds (inr e))
]

decode_duration-Holds :
    (parse : Bytes → Option ℤ) (f : PolicyField) (bad : ℤ → Bool) (missing : ℤ) (raw : Option Bytes)
    → Holds (λ n. (n ≡ missing) ⊎ (bad n ≡ false)) (decode_duration parse f bad missing raw)
unfolding decode_duration
decode_duration-Holds parse f bad missing none = holds (inl refl)
decode_duration-Holds parse f bad missing (some s) = elim (Option-cases (parse s)) [
  | inl e ↦ rw (e, decode_duration) fails
  | inr (d, e) ↦ elim (Bool-cases (bad d)) [
    | inl b ↦ rw (e, decode_duration) (rw b fails)
    | inr b ↦ rw (e, decode_duration) (rw b (holds (inr b)))
  ]
]

between :
    (lo hi n : ℤ) → (n ≡ unset_int) ⊎ ((ltb_ℤ n lo || ltb_ℤ hi n) ≡ false) → UnsetOrBetween lo hi n
between lo hi n h = ground arith

at_least : (lo missing n : ℤ) → (n ≡ missing) ⊎ (ltb_ℤ n lo ≡ false) → missing ≤ℤ lo → missing ≤ℤ n
at_least lo missing n h l = ground arith

positive :
    (missing n : ℤ) → (n ≡ missing) ⊎ (leb_ℤ n (pos 0) ≡ false) → (n ≡ missing) ⊎ (pos 0 <ℤ n)
positive missing n h = ground arith

zero_or_positive : (n : ℤ) → (n ≡ pos 0) ⊎ (leb_ℤ n (pos 0) ≡ false) → pos 0 ≤ℤ n
zero_or_positive n h = ground arith

segments_range :
    (n : ℤ) → (n ≡ pos 0) ⊎ ((n ==ℤ pos 0 || ltb_ℤ n (negsuc 0)) ≡ false) → unset_int ≤ℤ n
segments_range n h = ground arith

max_ttl_bounds :
    (n : ℤ)
    → (n ≡ pos 0) ⊎ ((leb_ℤ n (pos 1) || ltb_ℤ (pos 255) n) ≡ false)
    → (n ≡ pos 0) ⊎ ((pos 2 ≤ℤ n) × (n ≤ℤ pos 255))
max_ttl_bounds n h = ground arith

attempts_bound : (n : ℤ) → (n ≡ pos 0) ⊎ (ltb_ℤ n (pos 1) ≡ false) → pos 0 ≤ℤ n
attempts_bound n h = ground arith

decode_text-Holds :
    (f : PolicyField) (raw : Option Bytes) → Holds (λ _. Unit {0}) (decode_text f raw)
unfolding decode_text
decode_text-Holds f none = holds tt
decode_text-Holds f (some s) = elim (Bool-cases (bytes_eq s unset_string)) [
  | inl e ↦ rw e fails
  | inr e ↦ rw e (holds tt)
]

unmarshal_policy-Holds :
    (parse : Bytes → Option ℤ) (raw : RawPolicy)
    → Holds InRange (unmarshal_policy parse zero_policy raw)
unfolding unmarshal_policy
unmarshal_policy-Holds parse raw =
    Holds-bind _ _ _ _ (decode_text-Holds host_field raw.host) λ host _.
      Holds-bind _ _ _ _ (decode_text-Holds map_to_field raw.map_to) λ map_to _.
        Holds-bind _ _ _ _ (decode_int-Holds port_field _ _ raw.port) λ port port_ok.
          Holds-bind _ _ _ _ (decode_int-Holds http_status_field _ _ raw.http_status)
            λ http_status http_status_ok.
              Holds-bind _ _ _ _ (decode_int-Holds num_records_field _ _ raw.num_records)
                λ num_records num_records_ok.
                  Holds-bind _ _ _ _ (decode_int-Holds num_segments_field _ _ raw.num_segments)
                    λ num_segments num_segments_ok.
                      Holds-bind _ _ _ _ (decode_int-Holds fake_ttl_field _ _ raw.fake_ttl)
                        λ fake_ttl fake_ttl_ok.
                          Holds-bind _ _ _ _ (decode_int-Holds attempts_field _ _ raw.attempts)
                            λ attempts attempts_ok.
                              Holds-bind _ _ _ _ (decode_int-Holds max_ttl_field _ _ raw.max_ttl)
                                λ max_ttl max_ttl_ok.
                                  Holds-bind _ _ _ _
                                    (decode_duration-Holds parse connect_timeout_field _ _
                                      raw.connect_timeout)
                                    λ connect_timeout connect_timeout_ok.
                                      Holds-bind _ _ _ _
                                        (decode_duration-Holds parse send_interval_field _ _
                                          raw.send_interval)
                                        λ send_interval send_interval_ok.
                                          Holds-bind _ _ _ _
                                            (decode_duration-Holds parse fake_sleep_field _ _
                                              raw.fake_sleep)
                                            λ fake_sleep fake_sleep_ok.
                                              Holds-bind _ _ _ _
                                                (decode_duration-Holds parse single_timeout_field _
                                                  _ raw.single_timeout)
                                                λ single_timeout single_timeout_ok. holds (record {
                                                  port_range =
                                                      between (pos 0) (pos 65535) port port_ok;
                                                  http_status_range =
                                                      at_least (pos 0) unset_int http_status
                                                        http_status_ok (omega arith);
                                                  num_records_range =
                                                      zero_or_positive num_records num_records_ok;
                                                  num_segments_range =
                                                      segments_range num_segments num_segments_ok;
                                                  fake_ttl_range =
                                                      between (pos 0) (pos 255) fake_ttl
                                                        fake_ttl_ok;
                                                  attempts_range =
                                                      attempts_bound attempts attempts_ok;
                                                  max_ttl_range = max_ttl_bounds max_ttl max_ttl_ok;
                                                  connect_timeout_range =
                                                      positive unset_int connect_timeout
                                                        connect_timeout_ok;
                                                  send_interval_range =
                                                      at_least (pos 0) unset_int send_interval
                                                        send_interval_ok (omega arith);
                                                  fake_sleep_range =
                                                      zero_or_positive fake_sleep fake_sleep_ok;
                                                  single_timeout_range =
                                                      positive unset_int single_timeout
                                                        single_timeout_ok;
                                                })

-- Every policy that is read into a fresh `Policy`, whatever the texts of its durations stand for,
-- has its numbers in range: a port up to 65535 and a TTL up to 255 or unset, a maximal TTL of 0 or
-- from 2 to 255, records and attempts that are not negative, segments and a status of -1 or more,
-- and durations that are unset or positive, but for the sleep and the interval, which can be 0.
pub unmarshal_policy-InRange :
    (parse : Bytes → Option ℤ) (raw : RawPolicy) {p : Policy}
    → unmarshal_policy parse zero_policy raw ≡ ok p
    → InRange p
unmarshal_policy-InRange parse raw = Holds-ok (unmarshal_policy-Holds parse raw)
