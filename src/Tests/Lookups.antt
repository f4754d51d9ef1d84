-- ===== src/Tests/Lookups.antt =====
-- The resolver with a cache of one entry, and answers to the device with small tables.
use mathlib.Core.Option.{none-ne-some, some-injective}
use lumine_android.Prelude.{
  Bool, Bytes, Option, [], ap, bytes_eq, bytes_eq_iff, codes, false, if◌then◌else◌, inl, length,
  none, ok, pos, refl, some, sym, true, ◌==◌, ◌∙◌, ◌∷◌, ◌≡◌,
}
use lumine_android.Policy.Types.{Policy, dns_ipv4_only, dns_prefer_ipv4, mode_direct}
use lumine_android.Policy.Merge.{empty_policy, merge_policies}
use lumine_android.Resolve.Env.{Env}
use lumine_android.Resolve.Plan.{
  RequestContext, source_mobile, resolve_domain_target, policy_subject,
}
use lumine_android.Dns.Mapping.{lookup_mobile_dns_mapping}
use lumine_android.Dns.Answered.{dns_cache_key-injective}
use lumine_android.Dns.Cached.{Kept, dns_resolve-Kept}
use lumine_android.Dns.Resolver.{
  DnsEnv, CacheOps, Resolver, aaaa_record, dns_cache_key, dns_resolve,
}
use lumine_android.Dns.Given.{AnswerEnd, handle_configured_mobile_dns-AnswerEnd}
use lumine_android.Dns.Recovered.{policy_subject-handle_configured}
use lumine_android.Dns.Mobile.{
  Question, MobileEnv, MobileState, address_key, handle_configured_mobile_dns,
}

abbrev Slot : Type 0
Slot = Option (Bytes × Bytes)

abbrev slot_get : Bytes → Slot → Option Bytes
slot_get key none = none
slot_get key (some (k, v)) = if bytes_eq k key then some v else none

some_if : (b : Bool) (x y : Bytes) → (if b then some x else none) ≡ some y → (b ≡ true) × (x ≡ y)
some_if true x y h = (refl, some-injective _ _ h)
some_if false x y h = elim (none-ne-some y h) [ ]

slot_get-some : (key value : Bytes) (c : Slot) → slot_get key c ≡ some value → c ≡ some (key, value)
slot_get-some key value none h = elim (none-ne-some value h) [ ]
slot_get-some key value (some (k, v)) h =
    let kept = some_if (bytes_eq k key) v value h in rw ((bytes_eq_iff k key).0 kept.0, kept.1) refl

abbrev slot : CacheOps Slot
slot = record {
  get_cached = λ now key c. (slot_get key c, c);
  add_with_lifetime = λ now key value c. some (key, value);
  Stores = λ c key value. c ≡ some (key, value);
  get-Stores = λ now key value c h. slot_get-some key value c h;
  Stores-get = λ now asked key value c h. h;
  Stores-add = λ now added text key value c h.
      inl (sym (ap (λ p. p.0) (some-injective _ _ h)), sym (ap (λ p. p.1) (some-injective _ _ h)));
}

-- The server has one AAAA record for each name.
abbrev server : DnsEnv
server = record {
  exchange = λ n question. some (record { rcode = 0; answer = aaaa_record (some (9 ∷ [])) ∷ [] });
  ip_string = λ o. elim o [ none ↦ [] | some ip ↦ ip ];
}

abbrev fresh : Resolver Slot
fresh = record { cache = some none; now = 5; exchanges = 0 }

asked_twice : (dns_resolve slot server (codes "site") dns_prefer_ipv4 fresh).1 ≡ record {
  cache = some (some (dns_cache_key (codes "site") dns_prefer_ipv4, 9 ∷ []));
  now = 5;
  exchanges = 2;
}
unfolding dns_resolve
asked_twice = refl

from_cache :
    (let r = dns_resolve slot server (codes "site") dns_prefer_ipv4 fresh in
      (dns_resolve slot server (codes "site") dns_prefer_ipv4 r.1).0 ≡ ok (9 ∷ [], true))
unfolding dns_resolve
from_cache = refl

dns_resolve-Kept_example :
    Kept slot server
      (codes "site")
      dns_prefer_ipv4
      (dns_resolve slot server (codes "site") dns_prefer_ipv4 fresh)
dns_resolve-Kept_example =
    dns_resolve-Kept slot server (codes "site") dns_prefer_ipv4 fresh (record {
      sound = λ c e domain mode text h.
          elim (none-ne-some (dns_cache_key domain mode, text) (some-injective _ _ e ∙ h)) [ ];
    })

dns_cache_key-injective_example : (codes "site" ≡ codes "site") × (dns_ipv4_only ≡ dns_ipv4_only)
dns_cache_key-injective_example =
    dns_cache_key-injective (codes "site") (codes "site") dns_ipv4_only dns_ipv4_only refl

abbrev pinned : Policy
pinned = record empty_policy { mode = mode_direct; host = codes "9.9" }

abbrev tables : Env
tables = record {
  default_policy = record empty_policy { mode = mode_direct };
  find_domain = λ host. some pinned;
  find_host = λ _. none;
  find_ipv4 = λ _. none;
  find_ipv6 = λ _. none;
  is_ip = λ host. bytes_eq host (codes "9.9");
  parse_addr = λ _. none;
  parse_prefix = λ _. none;
  addr_string = λ b. b;
  dns_resolve = λ _ _. none;
}

abbrev device : MobileEnv
device = record {
  resolve = tables;
  parse_ip = λ text. if bytes_eq text (codes "9.9") then some (9 ∷ 9 ∷ []) else none;
  to4 = λ ip. if length ip == 2 then some ip else none;
  ip_string = λ ip. codes "9.9";
}

abbrev question : Question
question = record { name = codes "site."; qtype = 1; qclass = 1 }

abbrev state : MobileState
state = record { pools = []; records = [] }

to4_again : (ip v4 : Bytes) → device.to4 ip ≡ some v4 → device.to4 v4 ≡ some v4
to4_again ip v4 h = let kept = some_if (length ip == 2) ip v4 h in rw (← kept.1, kept.0) refl

handle_configured_mobile_dns-AnswerEnd_example :
    AnswerEnd device 5 question [] (handle_configured_mobile_dns device 5 (question ∷ []) state)
handle_configured_mobile_dns-AnswerEnd_example =
    handle_configured_mobile_dns-AnswerEnd device to4_again 5 question state

abbrev request : RequestContext
request = record {
  source = source_mobile;
  host = codes "9.9";
  port = pos 443;
  domain_target_mode = resolve_domain_target;
}

policy_subject-handle_configured_example :
    (let after = (handle_configured_mobile_dns device 5 (question ∷ []) state).1.records in
      let lookup = λ (ip : Bytes). (lookup_mobile_dns_mapping (address_key device) 9 ip after).0 in
      policy_subject tables lookup request ≡ (codes "site", false, codes "site"))
unfolding handle_configured_mobile_dns merge_policies
policy_subject-handle_configured_example =
    policy_subject-handle_configured device to4_again 5 question state
      (record {
        rcode = 0;
        answers =
            record { name = codes "site."; rrtype = 1; class_ = 1; ttl = 60; address = 9 ∷ 9 ∷ [] }
            ∷ [];
      })
      (record { name = codes "site."; rrtype = 1; class_ = 1; ttl = 60; address = 9 ∷ 9 ∷ [] })
      (codes "9.9") 9 request refl refl refl refl refl refl refl
