-- ===== src/Resolve/Unmatched.antt =====
-- internal/policy.go. What `genPolicy` makes of a domain that no table knows: the default policy,
-- as it is.
use lumine_android.Resolve.Redirect.{get_ip_policy, ip_redirect, is_ipv6, redirect_by}
use lumine_android.Resolve.Env.{Env, Pools, ResolveError}
use lumine_android.Policy.Types.{Policy}
use lumine_android.Prelude.{
  Bool, Bool-cases, Bytes, Option, Result, [], err, false, inl, inr, none, ok, refl, some, true,
  ◌∷◌, ◌≡◌,
}
use lumine_android.Resolve.GenPolicy.{
  blocked, Verdict, after_lookup, continue_domain, finish_domain, found, from_hosts,
  gen_domain_policy, gen_policy, has_no_redirect, names_no_host, redirect_verdict, resolve_domain,
  select_domain, select_target, use_host, without_mark,
}

-- No domain policy for the host, and no policy for any address.
pub record Unmatched (env : Env) (origin : Bytes) : Type 0 where
  pub no_domain : env.find_domain origin ≡ none
  pub no_ipv4 : (ip : Bytes) → env.find_ipv4 ip ≡ none
  pub no_ipv6 : (ip : Bytes) → env.find_ipv6 ip ≡ none
  pub not_address : env.is_ip origin ≡ false

-- Failed, unknown, or the default policy; never refused.
pub OnlyDefault : Policy → Verdict → Type 0
OnlyDefault d (found dst p) = p ≡ d
OnlyDefault d blocked = ⊥
OnlyDefault d _ = Unit {0}

module _ (env : Env) (origin : Bytes) (h : Unmatched env origin) where
  get_ip_policy-none : (ip : Bytes) → get_ip_policy env ip ≡ none
  unfolding get_ip_policy
  get_ip_policy-none ip = elim (Bool-cases (is_ipv6 ip)) [
    | inl e ↦ rw e (h.no_ipv6 ip)
    | inr e ↦ rw e (h.no_ipv4 ip)
  ]

  finish_domain-OnlyDefault :
      (no_redirect : Bool) (dst : Bytes) (pools : Pools)
      → OnlyDefault env.default_policy
          (finish_domain env none env.default_policy no_redirect dst pools).0
  unfolding finish_domain ip_redirect redirect_by redirect_verdict OnlyDefault
  finish_domain-OnlyDefault true dst pools = refl
  finish_domain-OnlyDefault false dst pools = rw (get_ip_policy-none dst) refl

  continue_domain-OnlyDefault :
      (no_redirect : Bool) (r : Result ResolveError Bytes × Pools)
      → OnlyDefault env.default_policy (continue_domain env none env.default_policy no_redirect r).0
  unfolding continue_domain OnlyDefault
  continue_domain-OnlyDefault no_redirect (err e, pools) = tt
  continue_domain-OnlyDefault no_redirect (ok dst, pools) =
      finish_domain-OnlyDefault no_redirect dst pools

  select_domain-OnlyDefault :
      (no_redirect : Bool) (selected : Bytes) (pools : Pools)
      → OnlyDefault env.default_policy
          (select_domain env none env.default_policy no_redirect origin selected pools).0
  unfolding select_domain
  select_domain-OnlyDefault no_redirect selected pools =
      continue_domain-OnlyDefault no_redirect
        (select_target env env.default_policy origin selected pools)

  after_lookup-OnlyDefault :
      (no_redirect : Bool) (selected : Bytes) (answer : Option Bytes) (pools : Pools)
      → OnlyDefault env.default_policy
          (after_lookup env none env.default_policy no_redirect origin selected answer pools).0
  unfolding after_lookup OnlyDefault
  after_lookup-OnlyDefault no_redirect selected none pools = tt
  after_lookup-OnlyDefault no_redirect selected (some []) pools =
      select_domain-OnlyDefault no_redirect selected pools
  after_lookup-OnlyDefault no_redirect selected (some (x ∷ xs)) pools =
      finish_domain-OnlyDefault no_redirect (x ∷ xs) pools

  use_host-OnlyDefault :
      (no_redirect : Bool) (selected : Bytes) (flag : Bool) (pools : Pools)
      → OnlyDefault env.default_policy
          (use_host env none env.default_policy no_redirect origin selected flag pools).0
  unfolding use_host OnlyDefault
  use_host-OnlyDefault no_redirect selected flag pools =
      elim (Bool-cases (names_no_host selected)) [
        | inr e ↦
            rw e
              (select_domain-OnlyDefault (has_no_redirect selected) (without_mark selected) pools)
        | inl e ↦ elim (Bool-cases flag) [
          | inl f ↦ rw (e, f) tt
          | inr f ↦
              rw (e, f)
                (after_lookup-OnlyDefault no_redirect selected
                  (env.dns_resolve origin env.default_policy.dns_mode) pools)
        ]
      ]

  resolve_domain-OnlyDefault :
      (flag : Bool) (pools : Pools)
      → OnlyDefault env.default_policy
          (resolve_domain env none env.default_policy origin flag pools).0
  unfolding resolve_domain from_hosts
  resolve_domain-OnlyDefault flag pools =
      let no_redirect = has_no_redirect env.default_policy.host in
      elim (Bool-cases (names_no_host (without_mark env.default_policy.host))) [
        | inl e ↦ rw e (
            use_host-OnlyDefault no_redirect
              (elim (env.find_host origin) [ none ↦ [] | some s ↦ s ]) flag pools)
        | inr e ↦
            rw e
              (select_domain-OnlyDefault no_redirect (without_mark env.default_policy.host) pools)
      ]

-- A host that is not an address, has no domain policy, and is resolved where no address has a
-- policy either, is never refused: it fails, is unknown, or is given out with the default policy
-- unchanged, even where the mode of the default policy is `block`.
pub gen_policy-OnlyDefault :
    (env : Env) (origin : Bytes) (flag : Bool) (pools : Pools)
    → Unmatched env origin
    → OnlyDefault env.default_policy (gen_policy env origin false flag pools).0
unfolding gen_policy gen_domain_policy
gen_policy-OnlyDefault env origin flag pools h =
    rw (h.not_address, h.no_domain) (resolve_domain-OnlyDefault env origin h flag pools)
