-- ===== src/Resolve/Plan.antt =====
-- internal/dial_plan.go `PlanRequest`.
use lumine_android.Resolve.GenPolicy.{blocked, Verdict, domain_not_found, failed, found, gen_policy}
use lumine_android.Resolve.Env.{Env, Pools}
use lumine_android.Policy.Types.{Policy}
use lumine_android.Prelude.{
  Bool, Bytes, Option, Result, [], err, false, if◌then◌else◌, is_empty, ltb_ℤ, none, not, ok, pos,
  some, true, ℤ, ◌&&◌,
}

-- The four constants of the source's string type.
pub data RequestSource : Type 0 where
  source_unknown source_mobile source_socks5 source_http : RequestSource

-- `PlanRequest` does not read it.
pub data DomainTargetMode : Type 0 where
  resolve_domain_target preserve_domain_target : DomainTargetMode

abbrev pub is_mobile : RequestSource → Bool
is_mobile source_mobile = true
is_mobile _ = false

pub record RequestContext : Type 0 where
  pub source : RequestSource
  pub host : Bytes
  pub port : ℤ
  pub domain_target_mode : DomainTargetMode

pub record DialPlan : Type 0 where
  pub source : RequestSource
  pub origin_host : Bytes
  pub origin_port : ℤ
  pub recovered_domain : Bytes
  pub matched_domain : Bool
  pub matched_ip : Bool
  pub target_host : Bytes
  pub target_port : ℤ
  pub policy : Policy
  pub blocked : Bool

pub data PlanError : Type 0 where
  empty_host failed_to_resolve : PlanError

module _ (env : Env) (lookup_mapping : Bytes → Option Bytes) where
  -- The host that the policies are matched with, whether it is an address, and the domain that the
  -- DNS answers given out remember for an address (`lookupMobileDNSMapping`).
  unfoldable pub policy_subject : RequestContext → Bytes × Bool × Bytes
  policy_subject req =
      let is_ip = env.is_ip req.host in
      if is_mobile req.source && is_ip
      then elim (lookup_mapping req.host) [
        | none ↦ (req.host, is_ip, [])
        | some domain ↦ (domain, false, domain)
      ]
      else (req.host, is_ip, [])

  -- The plan with the policy and the destination: the policy's port wins if it is positive.
  unfoldable pub plan_with : RequestContext → Bool → Bytes → Bytes → Policy → Bool → DialPlan
  plan_with req policy_is_ip recovered dst p blocked_ = record {
    source = req.source;
    origin_host = req.host;
    origin_port = req.port;
    recovered_domain = recovered;
    matched_domain = not policy_is_ip;
    matched_ip = env.is_ip req.host;
    target_host = dst;
    target_port = if ltb_ℤ (pos 0) p.port then p.port else req.port;
    policy = p;
    blocked = blocked_;
  }

  -- A nil policy is replaced by the default one; `genPolicy` gives none with `blocked`.
  unfoldable pub plan_verdict : RequestContext → Bool → Bytes → Verdict → Result PlanError DialPlan
  unfolding plan_with
  plan_verdict req policy_is_ip recovered failed = err failed_to_resolve
  plan_verdict req policy_is_ip recovered blocked =
      ok (plan_with req policy_is_ip recovered [] env.default_policy true)
  plan_verdict req policy_is_ip recovered domain_not_found =
      ok (plan_with req policy_is_ip recovered [] env.default_policy false)
  plan_verdict req policy_is_ip recovered (found dst p) =
      ok (plan_with req policy_is_ip recovered dst p false)

  unfoldable pub plan_request : RequestContext → Pools → Result PlanError DialPlan × Pools
  unfolding policy_subject plan_verdict gen_policy
  plan_request req pools =
      if is_empty req.host
      then (err empty_host, pools)
      else let subject = policy_subject req in
        let decision = gen_policy env subject.0 subject.1 false pools in
        (plan_verdict req subject.1 subject.2 decision.0, decision.1)
