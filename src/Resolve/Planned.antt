-- ===== src/Resolve/Planned.antt =====
-- internal/dial_plan.go. What a plan of `PlanRequest` promises to the code that dials.
use lumine_android.Resolve.Plan.{
  DialPlan, RequestContext, is_mobile, plan_request, plan_verdict, plan_with, policy_subject,
}
use lumine_android.Resolve.Env.{Env, Pools}
use lumine_android.Resolve.Blocking.{NotBlocking, gen_policy-NotBlocking}
use lumine_android.Policy.Types.{Policy, mode_block}
use lumine_android.Prelude.{
  Bool, Bool-cases, Bytes, Holds, Option, Option-cases, [], arith, fails, false, holds, inl, inr,
  is_empty, pos, refl, some, true, ◌&&◌, ◌<ℤ◌, ◌≡◌, ◌≢◌,
}
use lumine_android.Resolve.GenPolicy.{failed, Verdict, blocked, domain_not_found, found, gen_policy}

-- A plan keeps the request, names a recovered domain only for an address that a DNS answer to the
-- device gave out, takes the port of a policy that has one, and gives no target where it refuses.
pub record IsPlan (env : Env) (lookup : Bytes → Option Bytes) (req : RequestContext)
    (plan : DialPlan) : Type 0 where
  pub same_source : plan.source ≡ req.source
  pub same_host : plan.origin_host ≡ req.host
  pub same_port : plan.origin_port ≡ req.port
  pub recovered :
      plan.recovered_domain ≢ []
      → (is_mobile req.source ≡ true)
        × (env.is_ip req.host ≡ true)
        × (lookup req.host ≡ some plan.recovered_domain)
  pub own_port : pos 0 <ℤ plan.policy.port → plan.target_port ≡ plan.policy.port
  pub kept_port : ¬ (pos 0 <ℤ plan.policy.port) → plan.target_port ≡ req.port
  pub no_target : plan.blocked ≡ true → plan.target_host ≡ []
  pub not_blocking : plan.blocked ≡ false → plan.policy.mode ≢ mode_block

module _ (env : Env) (lookup : Bytes → Option Bytes) (req : RequestContext) where
  Recovers : Bytes → Type 0
  Recovers domain =
      domain ≢ []
      → (is_mobile req.source ≡ true)
        × (env.is_ip req.host ≡ true)
        × (lookup req.host ≡ some domain)

  policy_subject-Recovers : Recovers (policy_subject env lookup req).2
  unfolding policy_subject Recovers
  policy_subject-Recovers = elim (Bool-cases (is_mobile req.source && env.is_ip req.host)) [
    | inr e ↦ rw e (λ ne. elim (ne refl) [ ])
    | inl e ↦ elim (Option-cases (lookup req.host)) [
      | inl f ↦ rw (e, f) (λ ne. elim (ne refl) [ ])
      | inr (domain, f) ↦ rw (e, f) (λ _. (ground arith, ground arith, refl))
    ]
  ]

  plan_with-IsPlan :
      (policy_is_ip : Bool) (recovered dst : Bytes) (p : Policy) (refused : Bool)
      → Recovers recovered
      → (refused ≡ true → dst ≡ [])
      → (refused ≡ false → p.mode ≢ mode_block)
      → IsPlan env lookup req (plan_with env lookup req policy_is_ip recovered dst p refused)
  unfolding plan_with Recovers
  plan_with-IsPlan policy_is_ip recovered dst p refused h k l = record {
    same_source = refl;
    same_host = refl;
    same_port = refl;
    recovered = h;
    own_port = λ lt. ground arith;
    kept_port = λ ge. ground arith;
    no_target = k;
    not_blocking = l;
  }

  plan_verdict-IsPlan :
      (policy_is_ip : Bool) (recovered : Bytes) (v : Verdict)
      → Recovers recovered
      → env.default_policy.mode ≢ mode_block
      → NotBlocking v
      → Holds (IsPlan env lookup req) (plan_verdict env lookup req policy_is_ip recovered v)
  unfolding plan_verdict
  plan_verdict-IsPlan is_ip recovered failed h d n = fails
  plan_verdict-IsPlan is_ip recovered blocked h d n =
      holds (plan_with-IsPlan is_ip recovered [] env.default_policy true h (λ _. refl) (λ e. cc))
  plan_verdict-IsPlan is_ip recovered domain_not_found h d n =
      holds (plan_with-IsPlan is_ip recovered [] env.default_policy false h (λ e. cc) (λ _. d))
  plan_verdict-IsPlan is_ip recovered (found dst p) h d n =
      holds (plan_with-IsPlan is_ip recovered dst p false h (λ e. cc) (λ _. n))

-- If the default policy does not block, every plan keeps the request's source, host and port,
-- names a recovered domain only for an address asked for by the device and remembered with this
-- domain, dials the policy's port if that is positive and else the request's, has no target where
-- it is blocked, and carries no blocking policy where it is not.
pub plan_request-IsPlan :
    (env : Env) (lookup : Bytes → Option Bytes) (req : RequestContext) (pools : Pools)
    → env.default_policy.mode ≢ mode_block
    → Holds (IsPlan env lookup req) (plan_request env lookup req pools).0
unfolding plan_request
plan_request-IsPlan env lookup req pools h = elim (Bool-cases (is_empty req.host)) [
  | inl e ↦ rw e fails
  | inr e ↦ rw e (
      let subject = policy_subject env lookup req in
      plan_verdict-IsPlan env lookup req subject.1 subject.2
        (gen_policy env subject.0 subject.1 false pools).0 (policy_subject-Recovers env lookup req)
        h (gen_policy-NotBlocking env h subject.0 subject.1 false pools))
]
