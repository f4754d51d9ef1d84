-- ===== src/Resolve/Blocking.antt =====
-- internal/policy.go. What `genPolicy` lets through: no policy that blocks, unless the default
-- policy does.
use lumine_android.Resolve.Redirect.{ip_redirect}
use lumine_android.Resolve.GenPolicy.{
  Verdict, found, ip_verdict, blocked, continue_domain, finish_domain, from_hosts,
  gen_domain_policy, gen_policy, has_no_redirect, names_no_host, redirect_verdict, resolve_domain,
  select_domain, select_target, with_default, without_mark, after_lookup, domain_not_found,
  use_host,
}
use lumine_android.Resolve.Env.{Env, ResolveError, Pools}
use lumine_android.Policy.Types.{Policy, mode_block, Mode, is_mode_block}
use lumine_android.Policy.Merge.{merge_policies}
use lumine_android.Prelude.{
  Bool, Bool-cases, Bytes, Option, Result, [], arith, err, false, if◌then◌else◌, inl, inr, none, ok,
  some, true, ◌||◌, ◌∷◌, ◌≡◌, ◌≢◌,
}

-- A verdict that comes with a policy comes with none of mode `block`.
abbrev pub NotBlocking : Verdict → Type 0
NotBlocking (found dst p) = p.mode ≢ mode_block
NotBlocking _ = Unit {0}

merge-ne_block :
    (d q : Policy)
    → d.mode ≢ mode_block
    → q.mode ≢ mode_block
    → (merge_policies (d ∷ q ∷ [])).mode ≢ mode_block
unfolding merge_policies
merge-ne_block d q h k = ground arith

merge_three-ne_block :
    (d p q : Policy)
    → d.mode ≢ mode_block
    → p.mode ≢ mode_block
    → q.mode ≢ mode_block
    → (merge_policies (d ∷ p ∷ q ∷ [])).mode ≢ mode_block
unfolding merge_policies
merge_three-ne_block d p q h k l = ground arith

is_mode_block-false : (m : Mode) → is_mode_block m ≡ false → m ≢ mode_block
is_mode_block-false m h = ground arith

module _ (env : Env) (open_default : env.default_policy.mode ≢ mode_block) where
  block_or_found :
      (dst : Bytes) (p : Policy)
      → NotBlocking (if is_mode_block p.mode then blocked else found dst p)
  block_or_found dst p = elim (Bool-cases (is_mode_block p.mode)) [
    | inl e ↦ rw e tt
    | inr e ↦ rw e (is_mode_block-false p.mode e)
  ]

  ip_verdict-NotBlocking :
      (r : Result ResolveError (Bytes × Option Policy)) → NotBlocking (ip_verdict env r)
  unfolding ip_verdict
  ip_verdict-NotBlocking (err e) = tt
  ip_verdict-NotBlocking (ok (dst, none)) = block_or_found dst _
  ip_verdict-NotBlocking (ok (dst, some q)) = block_or_found dst _

  redirect_verdict-NotBlocking :
      (domain : Option Policy) (p : Policy) (r : Result ResolveError (Bytes × Option Policy))
      → p.mode ≢ mode_block
      → NotBlocking (redirect_verdict env domain p r)
  unfolding redirect_verdict
  redirect_verdict-NotBlocking domain p (err e) h = tt
  redirect_verdict-NotBlocking domain p (ok (dst, none)) h = h
  redirect_verdict-NotBlocking domain p (ok (dst, some q)) h = block_or_found dst _

  finish_domain-NotBlocking :
      (domain : Option Policy) (p : Policy) (no_redirect : Bool) (dst : Bytes) (pools : Pools)
      → p.mode ≢ mode_block
      → NotBlocking (finish_domain env domain p no_redirect dst pools).0
  unfolding finish_domain
  finish_domain-NotBlocking domain p true dst pools h = h
  finish_domain-NotBlocking domain p false dst pools h =
      redirect_verdict-NotBlocking domain p (ip_redirect env dst pools).0 h

  select_domain-NotBlocking :
      (domain : Option Policy) (p : Policy) (no_redirect : Bool) (origin selected : Bytes)
      (pools : Pools)
      → p.mode ≢ mode_block
      → NotBlocking (select_domain env domain p no_redirect origin selected pools).0
  unfolding select_domain
  select_domain-NotBlocking domain p no_redirect origin selected pools h =
      go (select_target env p origin selected pools)
    where
      go :
          (r : Result ResolveError Bytes × Pools)
          → NotBlocking (continue_domain env domain p no_redirect r).0
      go (err e, pools') = tt
      go (ok dst, pools') = finish_domain-NotBlocking domain p no_redirect dst pools' h

  after_lookup-NotBlocking :
      (domain : Option Policy) (p : Policy) (no_redirect : Bool) (origin selected : Bytes)
      (answer : Option Bytes) (pools : Pools)
      → p.mode ≢ mode_block
      → NotBlocking (after_lookup env domain p no_redirect origin selected answer pools).0
  unfolding after_lookup
  after_lookup-NotBlocking domain p no_redirect origin selected none pools h = tt
  after_lookup-NotBlocking domain p no_redirect origin selected (some []) pools h =
      select_domain-NotBlocking domain p no_redirect origin selected pools h
  after_lookup-NotBlocking domain p no_redirect origin selected (some (x ∷ xs)) pools h =
      finish_domain-NotBlocking domain p no_redirect (x ∷ xs) pools h

  use_host-NotBlocking :
      (domain : Option Policy) (p : Policy) (no_redirect : Bool) (origin selected : Bytes)
      (flag : Bool) (pools : Pools)
      → p.mode ≢ mode_block
      → NotBlocking (use_host env domain p no_redirect origin selected flag pools).0
  unfolding use_host
  use_host-NotBlocking domain p no_redirect origin selected flag pools h =
      elim (Bool-cases (names_no_host selected)) [
        | inl e ↦ rw e (on_flag flag)
        | inr e ↦ rw e (
            select_domain-NotBlocking domain p (has_no_redirect selected) origin
              (without_mark selected) pools h)
      ]
    where
      on_flag :
          (b : Bool)
          → NotBlocking
              (if b
                then (domain_not_found, pools)
                else after_lookup env domain p no_redirect origin selected
                    (env.dns_resolve origin p.dns_mode)
                    pools).0
      on_flag true = tt
      on_flag false =
          after_lookup-NotBlocking domain p no_redirect origin selected
            (env.dns_resolve origin p.dns_mode) pools h

  from_hosts-NotBlocking :
      (domain : Option Policy) (p : Policy) (no_redirect : Bool) (origin : Bytes) (flag : Bool)
      (pools : Pools)
      → p.mode ≢ mode_block
      → NotBlocking (from_hosts env domain p no_redirect origin flag pools).0
  unfolding from_hosts
  from_hosts-NotBlocking domain p no_redirect origin flag pools h =
      use_host-NotBlocking domain p no_redirect origin
        (elim (env.find_host origin) [ none ↦ [] | some h' ↦ h' ]) flag pools h

  resolve_domain-NotBlocking :
      (domain : Option Policy) (p : Policy) (origin : Bytes) (flag : Bool) (pools : Pools)
      → p.mode ≢ mode_block
      → NotBlocking (resolve_domain env domain p origin flag pools).0
  unfolding resolve_domain
  resolve_domain-NotBlocking domain p origin flag pools h =
      elim (Bool-cases (names_no_host (without_mark p.host))) [
        | inl e ↦
            rw e (from_hosts-NotBlocking domain p (has_no_redirect p.host) origin flag pools h)
        | inr e ↦ rw e (
            select_domain-NotBlocking domain p (has_no_redirect p.host) origin (without_mark p.host)
              pools h)
      ]

  gen_domain_policy-NotBlocking :
      (domain : Option Policy) (origin : Bytes) (flag : Bool) (pools : Pools)
      → NotBlocking (gen_domain_policy env domain origin flag pools).0
  unfolding gen_domain_policy
  gen_domain_policy-NotBlocking none origin flag pools =
      resolve_domain-NotBlocking none env.default_policy origin flag pools open_default
  gen_domain_policy-NotBlocking (some d) origin flag pools =
      elim (Bool-cases (is_mode_block d.mode)) [
        | inl e ↦ rw e tt
        | inr e ↦ rw e (
            resolve_domain-NotBlocking (some d) (with_default env (d ∷ [])) origin flag pools (
              unfold with_default in
              merge-ne_block d env.default_policy (is_mode_block-false d.mode e) open_default))
      ]

  -- If the default policy does not block, no destination is given out with a blocking policy, for
  -- any host and whatever the tables, the pools and the resolver answer.
  pub gen_policy-NotBlocking :
      (origin : Bytes) (is_ip flag : Bool) (pools : Pools)
      → NotBlocking (gen_policy env origin is_ip flag pools).0
  unfolding gen_policy
  gen_policy-NotBlocking origin is_ip flag pools = elim (Bool-cases (is_ip || env.is_ip origin)) [
    | inl e ↦ rw e (ip_verdict-NotBlocking (ip_redirect env origin pools).0)
    | inr e ↦ rw e (gen_domain_policy-NotBlocking (env.find_domain origin) origin flag pools)
  ]
