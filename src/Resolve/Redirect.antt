-- ===== src/Resolve/Redirect.antt =====
-- internal/ippool.go `getFromIPPool`, internal/policy.go `getIPPolicy`, internal/utils.go
-- `isIPv6` and `ipRedirect`.
use lumine_android.Resolve.Transform.{transform_ip}
use lumine_android.Resolve.Env.{
  Action, Env, Pools, ResolveError, bad_transform, ip_pool_empty, ip_pool_missing, ip_pool_panic,
  no_ip_pools,
}
use lumine_android.Pool.State.{Pool}
use lumine_android.Pool.Select.{Got, no_ip}
use lumine_android.Policy.Types.{Policy, unset_string}
use lumine_android.Pool.Select.{get, got, panics, no_ip}
use lumine_android.Prelude.{
  Bool, Bytes, Option, Result, [], bytes_eq, codes, drop, err, false, has_prefix, if◌then◌else◌,
  is_empty, none, ok, some, ℕ, ◌==◌, ◌||◌, ◌∷◌,
}

unfoldable pub find_pool : Bytes → Pools → Option Pool
find_pool tag [] = none
find_pool tag ((t, p) ∷ pools) = if bytes_eq t tag then some p else find_pool tag pools

unfoldable pub put_pool : Bytes → Pool → Pools → Pools
put_pool tag p [] = []
put_pool tag p ((t, q) ∷ pools) =
    if bytes_eq t tag then (t, p) ∷ pools else (t, q) ∷ put_pool tag p pools

-- The text that a pool hands out; the empty one is an error too.
unfoldable pub ip_from_got : Got → Result ResolveError Bytes
ip_from_got no_ip = err ip_pool_empty
ip_from_got panics = err ip_pool_panic
ip_from_got (got ip) = if is_empty ip then err ip_pool_empty else ok ip

unfoldable pub get_from_ip_pool : Bytes → Action Bytes
unfolding find_pool put_pool ip_from_got
get_from_ip_pool tag pools =
    if is_empty pools then (err no_ip_pools, pools) else elim (find_pool tag pools) [
      | none ↦ (err ip_pool_missing, pools)
      | some p ↦ (ip_from_got (get p).1, put_pool tag (get p).0 pools)
    ]

abbrev pub contains_byte : ℕ → Bytes → Bool
contains_byte c [] = false
contains_byte c (x ∷ xs) = x == c || contains_byte c xs

abbrev pub is_ipv6 : Bytes → Bool
is_ipv6 = contains_byte b':'

module _ (env : Env) where
  unfoldable pub get_ip_policy : Bytes → Option Policy
  get_ip_policy ip = if is_ipv6 ip then env.find_ipv6 ip else env.find_ipv4 ip

  -- The target that `map_to` names for an address.
  unfoldable pub map_target : Bytes → Bytes → Action Bytes
  unfolding get_from_ip_pool transform_ip
  map_target ip map_to pools =
      if has_prefix map_to (codes "$")
      then get_from_ip_pool (drop 1 map_to) pools
      else if contains_byte b'/' map_to
      then (elim (transform_ip env ip map_to) [ none ↦ err bad_transform | some t ↦ ok t ], pools)
      else (ok map_to, pools)

  -- The policy that goes with the target: looked up again if the address changed.
  unfoldable pub redirected :
      Bytes → Policy → Result ResolveError Bytes → Result ResolveError (Bytes × Option Policy)
  redirected ip p (err e) = err e
  redirected ip p (ok target) =
      ok (target, if bytes_eq ip target then some p else get_ip_policy target)

  unfoldable pub redirect_by : Bytes → Option Policy → Action (Bytes × Option Policy)
  unfolding map_target redirected get_ip_policy
  redirect_by ip none pools = (ok (ip, none), pools)
  redirect_by ip (some p) pools =
      if is_empty p.map_to || bytes_eq p.map_to unset_string
      then (ok (ip, some p), pools)
      else let r = map_target ip p.map_to pools in (redirected ip p r.0, r.1)

  unfoldable pub ip_redirect : Bytes → Action (Bytes × Option Policy)
  unfolding redirect_by
  ip_redirect ip = redirect_by ip (get_ip_policy ip)
