-- ===== src/Tests/Resolving.antt =====
-- Hosts resolved with small tables.
use lumine_android.Resolve.Mapped.{AllMixed, transform_ip-AllMixed}
use lumine_android.Resolve.Transform.{transform_bytes, transform_ip}
use lumine_android.Resolve.Unmatched.{OnlyDefault, gen_policy-OnlyDefault}
use lumine_android.Resolve.Planned.{IsPlan, plan_request-IsPlan}
use lumine_android.Resolve.Blocking.{NotBlocking, gen_policy-NotBlocking}
use lumine_android.Prelude.{
  Bytes, Holds, Option, [], arith, bytes_eq, codes, false, if◌then◌else◌, length, none, pos, refl,
  some, ◌∷◌, ◌≡◌,
}
use lumine_android.Policy.Types.{Policy, mode_block, mode_direct}
use lumine_android.Policy.Merge.{empty_policy}
use lumine_android.Resolve.Env.{Env}
use lumine_android.Resolve.GenPolicy.{found, gen_policy}
use lumine_android.Resolve.Plan.{RequestContext, source_mobile, resolve_domain_target, plan_request}

abbrev open_policy : Policy
open_policy = record empty_policy { mode = mode_direct }

abbrev closed_policy : Policy
closed_policy = record empty_policy { mode = mode_block }

abbrev address : Bytes
address = codes "9.9.9.9"

-- One name is refused by a policy, every other one resolves to one address.
abbrev tables : Policy → Env
tables p = record {
  default_policy = p;
  find_domain = λ host. if bytes_eq host (codes "ads") then some closed_policy else none;
  find_host = λ _. none;
  find_ipv4 = λ _. none;
  find_ipv6 = λ _. none;
  is_ip = λ host. bytes_eq host address;
  parse_addr = λ _. none;
  parse_prefix = λ _. none;
  addr_string = λ b. b;
  dns_resolve = λ _ _. some address;
}

abbrev remembered : Bytes → Option Bytes
remembered ip = some (codes "site")

abbrev request : RequestContext
request = record {
  source = source_mobile;
  host = address;
  port = pos 443;
  domain_target_mode = resolve_domain_target;
}

resolved :
    (gen_policy (tables closed_policy) (codes "site") false false []).0
    ≡ found address closed_policy
unfolding gen_policy
resolved = refl

gen_policy-NotBlocking_example :
    NotBlocking (gen_policy (tables open_policy) (codes "ads") false false []).0
gen_policy-NotBlocking_example =
    gen_policy-NotBlocking (tables open_policy) (λ e. cc) (codes "ads") false false []

gen_policy-OnlyDefault_example :
    OnlyDefault closed_policy (gen_policy (tables closed_policy) (codes "site") false false []).0
gen_policy-OnlyDefault_example =
    gen_policy-OnlyDefault (tables closed_policy) (codes "site") false []
      (record { no_domain = refl; no_ipv4 = λ _. refl; no_ipv6 = λ _. refl; not_address = refl })

plan_request-IsPlan_example :
    Holds
      (IsPlan (tables open_policy) remembered request)
      (plan_request (tables open_policy) remembered request []).0
plan_request-IsPlan_example =
    plan_request-IsPlan (tables open_policy) remembered request [] (λ e. cc)

mapped :
    transform_bytes 20 0 (10 ∷ 1 ∷ 2 ∷ 3 ∷ []) (172 ∷ 16 ∷ 240 ∷ 0 ∷ []) ≡ 172 ∷ 16 ∷ 242 ∷ 3 ∷ []
unfolding transform_bytes
mapped = refl

-- An environment that reads one address and one prefix.
abbrev with_prefix : Env
with_prefix = record (tables open_policy) {
  parse_addr = λ _. some (10 ∷ 1 ∷ 2 ∷ 3 ∷ []);
  parse_prefix = λ _. some (172 ∷ 16 ∷ 240 ∷ 0 ∷ [], 20);
}

transform_ip-AllMixed_example :
    (new : Bytes) × (transform_ip with_prefix (codes "10.1.2.3") (codes "172.16.240.0/20")
      ≡ some new)
    × (length new ≡ 4)
    × AllMixed 20 0 (10 ∷ 1 ∷ 2 ∷ 3 ∷ []) (172 ∷ 16 ∷ 240 ∷ 0 ∷ []) new
transform_ip-AllMixed_example =
    transform_ip-AllMixed with_prefix (codes "10.1.2.3") (codes "172.16.240.0/20")
      (10 ∷ 1 ∷ 2 ∷ 3 ∷ []) (172 ∷ 16 ∷ 240 ∷ 0 ∷ []) 20 refl refl refl
      (omega arith, (omega arith, (omega arith, (omega arith, tt))))
      (omega arith, (omega arith, (omega arith, (omega arith, tt))))
