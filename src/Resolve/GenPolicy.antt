-- ===== src/Resolve/GenPolicy.antt =====
-- internal/policy.go `genPolicy`. The log is left out, and the cause of a failure with it.
use lumine_android.Resolve.Redirect.{get_from_ip_pool, ip_redirect}
use lumine_android.Resolve.Env.{Action, Env, Pools, ResolveError, dns_failed}
use lumine_android.Policy.Types.{Policy, is_mode_block, unset_string}
use lumine_android.Policy.Merge.{merge_policies}
use lumine_android.Prelude.{
  Bool, Bytes, List, Option, Result, [], bytes_eq, codes, drop, err, has_prefix, if◌then◌else◌,
  is_empty, none, ok, some, ◌++◌, ◌||◌, ◌∷◌,
}

-- The results `failed`, `blocked`, `domainNotFound`, or the destination and the policy.
pub data Verdict : Type 0 where
  failed blocked domain_not_found : Verdict
  found : Bytes → Policy → Verdict

abbrev pub Decision : Type 0
Decision = Verdict × Pools

-- `strings.HasPrefix(s, "^")`, and the text behind the mark.
abbrev pub has_no_redirect : Bytes → Bool
has_no_redirect s = has_prefix s (codes "^")

abbrev pub without_mark : Bytes → Bytes
without_mark s = if has_no_redirect s then drop 1 s else s

abbrev pub names_no_host : Bytes → Bool
names_no_host s = is_empty s || bytes_eq s unset_string

module _ (env : Env) where
  -- `mergePolicies` in front of the default policy.
  unfoldable pub with_default : List Policy → Policy
  with_default ps = merge_policies (ps ++ env.default_policy ∷ [])

  unfoldable pub ip_verdict : Result ResolveError (Bytes × Option Policy) → Verdict
  unfolding with_default
  ip_verdict (err e) = failed
  ip_verdict (ok (dst, policy)) =
      let p : Policy = elim policy [ none ↦ env.default_policy | some q ↦ with_default (q ∷ []) ] in
      if is_mode_block p.mode then blocked else found dst p

  -- The branch for an address.
  unfoldable pub gen_ip_policy : Bytes → Pools → Decision
  unfolding ip_verdict ip_redirect
  gen_ip_policy origin pools = let r = ip_redirect env origin pools in (ip_verdict r.0, r.1)

  -- The redirection behind a resolved domain: `domain` is the domain policy, `p` the one so far.
  unfoldable pub redirect_verdict :
      Option Policy → Policy → Result ResolveError (Bytes × Option Policy) → Verdict
  unfolding with_default
  redirect_verdict domain p (err e) = failed
  redirect_verdict domain p (ok (dst, none)) = found dst p
  redirect_verdict domain p (ok (dst, some q)) =
      let merged : Policy = elim domain [
        | none ↦ with_default (q ∷ [])
        | some d ↦ with_default (d ∷ q ∷ [])
      ] in
      if is_mode_block merged.mode then blocked else found dst merged

  unfoldable pub finish_domain : Option Policy → Policy → Bool → Bytes → Pools → Decision
  unfolding redirect_verdict ip_redirect
  finish_domain domain p no_redirect dst pools =
      if no_redirect
      then (found dst p, pools)
      else let r = ip_redirect env dst pools in (redirect_verdict domain p r.0, r.1)

  -- `if dstHost == ""`: the destination that the selected host stands for.
  unfoldable pub select_target : Policy → Bytes → Bytes → Action Bytes
  unfolding get_from_ip_pool
  select_target p origin selected pools =
      if bytes_eq selected (codes "self")
      then (ok origin, pools)
      else if has_prefix selected (codes "$")
      then get_from_ip_pool (drop 1 selected) pools
      else if has_prefix selected (codes "?")
      then (
        elim (env.dns_resolve (drop 1 selected) p.dns_mode) [
          | none ↦ err dns_failed
          | some ip ↦ ok ip
        ],
        pools,
      )
      else (ok selected, pools)

  unfoldable pub continue_domain :
      Option Policy → Policy → Bool → Result ResolveError Bytes × Pools → Decision
  unfolding finish_domain
  continue_domain domain p no_redirect (err e, pools) = (failed, pools)
  continue_domain domain p no_redirect (ok dst, pools) =
      finish_domain domain p no_redirect dst pools

  unfoldable pub select_domain : Option Policy → Policy → Bool → Bytes → Bytes → Pools → Decision
  unfolding continue_domain select_target
  select_domain domain p no_redirect origin selected pools =
      continue_domain domain p no_redirect (select_target p origin selected pools)

  -- A resolver that gives an empty text leaves `dstHost` empty, and the selection goes on.
  unfoldable pub after_lookup :
      Option Policy → Policy → Bool → Bytes → Bytes → Option Bytes → Pools → Decision
  unfolding select_domain finish_domain
  after_lookup domain p no_redirect origin selected none pools = (failed, pools)
  after_lookup domain p no_redirect origin selected (some dst) pools =
      if is_empty dst
      then select_domain domain p no_redirect origin selected pools
      else finish_domain domain p no_redirect dst pools

  unfoldable pub use_host : Option Policy → Policy → Bool → Bytes → Bytes → Bool → Pools → Decision
  unfolding after_lookup select_domain
  use_host domain p no_redirect origin selected return_when_not_found pools =
      if names_no_host selected
      then (if return_when_not_found
          then (domain_not_found, pools)
          else after_lookup domain p no_redirect origin selected (env.dns_resolve origin p.dns_mode)
              pools)
      else select_domain domain p (has_no_redirect selected) origin (without_mark selected) pools

  -- The hosts table is asked where the policy names no host.
  unfoldable pub from_hosts : Option Policy → Policy → Bool → Bytes → Bool → Pools → Decision
  unfolding use_host
  from_hosts domain p no_redirect origin return_when_not_found pools =
      use_host domain p no_redirect origin (elim (env.find_host origin) [ none ↦ [] | some h ↦ h ])
        return_when_not_found pools

  unfoldable pub resolve_domain : Option Policy → Policy → Bytes → Bool → Pools → Decision
  unfolding from_hosts select_domain
  resolve_domain domain p origin return_when_not_found pools =
      let policy_host = without_mark p.host in
      if names_no_host policy_host
      then from_hosts domain p (has_no_redirect p.host) origin return_when_not_found pools
      else select_domain domain p (has_no_redirect p.host) origin policy_host pools

  -- The branch for a domain, with what the matcher found.
  unfoldable pub gen_domain_policy : Option Policy → Bytes → Bool → Pools → Decision
  unfolding resolve_domain with_default
  gen_domain_policy none origin return_when_not_found pools =
      resolve_domain none env.default_policy origin return_when_not_found pools
  gen_domain_policy (some d) origin return_when_not_found pools =
      if is_mode_block d.mode
      then (blocked, pools)
      else resolve_domain (some d) (with_default (d ∷ [])) origin return_when_not_found pools

  unfoldable pub gen_policy : Bytes → Bool → Bool → Pools → Decision
  unfolding gen_ip_policy gen_domain_policy
  gen_policy origin is_ip return_when_not_found pools =
      if is_ip || env.is_ip origin
      then gen_ip_policy origin pools
      else gen_domain_policy (env.find_domain origin) origin return_when_not_found pools
