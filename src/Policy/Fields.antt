-- ===== src/Policy/Fields.antt =====
-- internal/policy.go. What `mergePolicies` means: each field is that of the first policy that sets
-- it.
use lumine_android.Policy.Types.{
  DnsMode, Mode, Policy, bool_unset, dns_default, dns_unknown, is_dns_unknown, is_mode_unknown,
  is_sniff_unset, is_unset, mode_default, mode_unknown, sniff_unset, unset_string,
}
use lumine_android.Policy.Merge.{
  empty_policy, is_unset_int, is_unset_string, is_zero, merge_into, merge_loop, merge_policies,
  normalize_policy_defaults, pick,
}
use lumine_android.Prelude.{
  Bool, Bool-cases, List, [], ap, arith, false, if◌then◌else◌, inl, inr, map, pos, refl, true,
  unset_int, ◌∙◌, ◌∷◌, ◌≡◌,
}

-- The first set value of a list, or `default` if there is none.
abbrev pub first_set {ℓ} : {A : Type ℓ} → (A → Bool) → A → List A → A
first_set unset default [] = default
first_set unset default (x ∷ xs) = if unset x then first_set unset default xs else x

pick_all {ℓ} : {A : Type ℓ} → (A → Bool) → A → List A → A
pick_all unset a [] = a
pick_all unset a (x ∷ xs) = pick_all unset (pick unset a x) xs

pick_all_set {ℓ} :
    {A : Type ℓ} (unset : A → Bool) (a : A) (xs : List A)
    → unset a ≡ false
    → pick_all unset a xs ≡ a
unfolding pick_all
pick_all_set unset a [] h = refl
pick_all_set unset a (x ∷ xs) h = rw h (pick_all_set unset a xs h)

pick_all-first_set {ℓ} :
    {A : Type ℓ} (unset : A → Bool) (a : A) (xs : List A)
    → unset a ≡ true
    → pick_all unset a xs ≡ first_set unset a xs
unfolding pick_all
pick_all-first_set unset a [] h = refl
pick_all-first_set unset a (x ∷ xs) h = elim (Bool-cases (unset x)) [
  | inl e ↦ rw (h, e) (pick_all-first_set unset a xs h)
  | inr e ↦ rw (h, e) (pick_all_set unset x xs e)
]

merge_loop-pick_all {ℓ} :
    {A : Type ℓ} (field : Policy → A) (unset : A → Bool)
    → ((m p : Policy) → field (merge_into m p) ≡ pick unset (field m) (field p))
    → (m : Policy) (ps : List Policy)
    → field (merge_loop m ps) ≡ pick_all unset (field m) (map field ps)
unfolding merge_loop pick_all
merge_loop-pick_all field unset step m [] = refl
merge_loop-pick_all field unset step m (p ∷ ps) =
    merge_loop-pick_all field unset step (merge_into m p) ps
    ∙ ap (λ a. pick_all unset a (map field ps)) (step m p)

-- One field of the loop's result, for a field that `merge_into` picks by `unset`.
merge_loop-field {ℓ} :
    {A : Type ℓ} (field : Policy → A) (unset : A → Bool)
    → ((m p : Policy) → field (merge_into m p) ≡ pick unset (field m) (field p))
    → (m : Policy) (ps : List Policy) → unset (field m) ≡ true
    → field (merge_loop m ps) ≡ first_set unset (field m) (map field ps)
merge_loop-field field unset step m ps h =
    merge_loop-pick_all field unset step m ps ∙ pick_all-first_set unset (field m) (map field ps) h

-- The policy whose every field is the first one set.
pub first_policy : List Policy → Policy
first_policy ps = record {
  reply_first = first_set is_unset bool_unset (map (λ p. p.reply_first) ps);
  sniff_override_mode = first_set is_sniff_unset sniff_unset (map (λ p. p.sniff_override_mode) ps);
  dns_mode = first_set is_dns_unknown dns_unknown (map (λ p. p.dns_mode) ps);
  connect_timeout = first_set is_unset_int unset_int (map (λ p. p.connect_timeout) ps);
  host = first_set is_unset_string unset_string (map (λ p. p.host) ps);
  map_to = first_set is_unset_string unset_string (map (λ p. p.map_to) ps);
  port = first_set is_unset_int unset_int (map (λ p. p.port) ps);
  http_status = first_set is_unset_int unset_int (map (λ p. p.http_status) ps);
  tls13_only = first_set is_unset bool_unset (map (λ p. p.tls13_only) ps);
  mode = first_set is_mode_unknown mode_unknown (map (λ p. p.mode) ps);
  num_records = first_set is_zero (pos 0) (map (λ p. p.num_records) ps);
  num_segments = first_set is_zero (pos 0) (map (λ p. p.num_segments) ps);
  wait_for_ack = first_set is_unset bool_unset (map (λ p. p.wait_for_ack) ps);
  oob = first_set is_unset bool_unset (map (λ p. p.oob) ps);
  oob_ex = first_set is_unset bool_unset (map (λ p. p.oob_ex) ps);
  mod_minor_ver = first_set is_unset bool_unset (map (λ p. p.mod_minor_ver) ps);
  send_interval = first_set is_unset_int unset_int (map (λ p. p.send_interval) ps);
  fake_ttl = first_set is_unset_int unset_int (map (λ p. p.fake_ttl) ps);
  fake_sleep = first_set is_zero (pos 0) (map (λ p. p.fake_sleep) ps);
  max_ttl = first_set is_zero (pos 0) (map (λ p. p.max_ttl) ps);
  attempts = first_set is_zero (pos 0) (map (λ p. p.attempts) ps);
  single_timeout = first_set is_unset_int unset_int (map (λ p. p.single_timeout) ps);
}

merge_loop-first_policy : (ps : List Policy) → merge_loop empty_policy ps ≡ first_policy ps
unfolding first_policy merge_into
merge_loop-first_policy ps = λ i. record {
  reply_first = merge_loop-field (λ p. p.reply_first) is_unset (λ m p. refl) empty_policy ps refl i;
  sniff_override_mode =
      merge_loop-field (λ p. p.sniff_override_mode) is_sniff_unset (λ m p. refl) empty_policy ps
        refl i;
  dns_mode = merge_loop-field (λ p. p.dns_mode) is_dns_unknown (λ m p. refl) empty_policy ps refl i;
  connect_timeout =
      merge_loop-field (λ p. p.connect_timeout) is_unset_int (λ m p. refl) empty_policy ps refl i;
  host = merge_loop-field (λ p. p.host) is_unset_string (λ m p. refl) empty_policy ps refl i;
  map_to = merge_loop-field (λ p. p.map_to) is_unset_string (λ m p. refl) empty_policy ps refl i;
  port = merge_loop-field (λ p. p.port) is_unset_int (λ m p. refl) empty_policy ps refl i;
  http_status =
      merge_loop-field (λ p. p.http_status) is_unset_int (λ m p. refl) empty_policy ps refl i;
  tls13_only = merge_loop-field (λ p. p.tls13_only) is_unset (λ m p. refl) empty_policy ps refl i;
  mode = merge_loop-field (λ p. p.mode) is_mode_unknown (λ m p. refl) empty_policy ps refl i;
  num_records = merge_loop-field (λ p. p.num_records) is_zero (λ m p. refl) empty_policy ps refl i;
  num_segments =
      merge_loop-field (λ p. p.num_segments) is_zero (λ m p. refl) empty_policy ps refl i;
  wait_for_ack =
      merge_loop-field (λ p. p.wait_for_ack) is_unset (λ m p. refl) empty_policy ps refl i;
  oob = merge_loop-field (λ p. p.oob) is_unset (λ m p. refl) empty_policy ps refl i;
  oob_ex = merge_loop-field (λ p. p.oob_ex) is_unset (λ m p. refl) empty_policy ps refl i;
  mod_minor_ver =
      merge_loop-field (λ p. p.mod_minor_ver) is_unset (λ m p. refl) empty_policy ps refl i;
  send_interval =
      merge_loop-field (λ p. p.send_interval) is_unset_int (λ m p. refl) empty_policy ps refl i;
  fake_ttl = merge_loop-field (λ p. p.fake_ttl) is_unset_int (λ m p. refl) empty_policy ps refl i;
  fake_sleep = merge_loop-field (λ p. p.fake_sleep) is_zero (λ m p. refl) empty_policy ps refl i;
  max_ttl = merge_loop-field (λ p. p.max_ttl) is_zero (λ m p. refl) empty_policy ps refl i;
  attempts = merge_loop-field (λ p. p.attempts) is_zero (λ m p. refl) empty_policy ps refl i;
  single_timeout =
      merge_loop-field (λ p. p.single_timeout) is_unset_int (λ m p. refl) empty_policy ps refl i;
}

default_mode_twice :
    (m : Mode)
    → let d = if is_mode_unknown m then mode_default else m in
      (if is_mode_unknown d then mode_default else d) ≡ d
default_mode_twice m = ground arith

default_dns_twice :
    (m : DnsMode)
    → let d = if is_dns_unknown m then dns_default else m in
      (if is_dns_unknown d then dns_default else d) ≡ d
default_dns_twice m = ground arith

-- The loop's own defaults for the modes change nothing that the normalisation does not.
normalize_twice :
    (p : Policy)
    → normalize_policy_defaults (record p {
      mode = if is_mode_unknown p.mode then mode_default else p.mode;
      dns_mode = if is_dns_unknown p.dns_mode then dns_default else p.dns_mode;
    })
      ≡ normalize_policy_defaults p
unfolding normalize_policy_defaults
normalize_twice p = rw (default_mode_twice p.mode, default_dns_twice p.dns_mode)

-- Merging takes each field from the first policy that sets it; what none sets is unset, and gets
-- the defaults of `normalizePolicyDefaults`.
pub merge_policies-first_policy :
    (ps : List Policy) → merge_policies ps ≡ normalize_policy_defaults (first_policy ps)
unfolding merge_policies normalize_policy_defaults
merge_policies-first_policy ps = rw (merge_loop-first_policy ps) (normalize_twice (first_policy ps))
