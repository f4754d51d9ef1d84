-- ===== src/Resolve/DohHost.antt =====
-- internal/policy.go `resolveDoHPolicyHost`: the host that a DoH server is reached at.
use lumine_android.Resolve.Redirect.{get_from_ip_pool}
use lumine_android.Resolve.GenPolicy.{names_no_host, without_mark}
use lumine_android.Resolve.Env.{Action, Env}
use lumine_android.Policy.Types.{Policy, unset_string}
use lumine_android.Prelude.{
  Bytes, [], bytes_eq, codes, drop, has_prefix, if◌then◌else◌, is_empty, none, ok, some, ◌||◌,
}

module _ (env : Env) where
  -- The host that the policy or else the hosts table selects, without the mark.
  unfoldable pub select_doh_host : Bytes → Policy → Bytes
  select_doh_host host p =
      let policy_host = without_mark p.host in
      if names_no_host policy_host
      then elim (env.find_host host) [ none ↦ [] | some h ↦ without_mark h ]
      else policy_host

  unfoldable pub doh_target : Bytes → Bytes → Action Bytes
  unfolding get_from_ip_pool
  doh_target host selected pools =
      if is_empty selected || bytes_eq selected unset_string || bytes_eq selected (codes "self")
      then (ok host, pools)
      else if has_prefix selected (codes "$")
      then get_from_ip_pool (drop 1 selected) pools
      else if has_prefix selected (codes "?")
      then (ok host, pools)
      else (ok selected, pools)

  unfoldable pub resolve_doh_policy_host : Bytes → Policy → Action Bytes
  unfolding select_doh_host doh_target
  resolve_doh_policy_host host p = doh_target host (select_doh_host host p)
