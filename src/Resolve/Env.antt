-- ===== src/Resolve/Env.antt =====
-- internal/policy.go and internal/utils.go. What the resolution of a host reads. The matchers are
-- of github.com/moi-si/addrtrie, the address functions of net and net/netip, and the resolver asks
-- the network: all parameters here.
use lumine_android.Pool.State.{Pool}
use lumine_android.Policy.Types.{DnsMode, Policy}
use lumine_android.Prelude.{Bool, Bytes, List, Option, Result, ℕ}

pub record Env : Type 0 where
  pub default_policy : Policy
  pub find_domain : Bytes → Option Policy  -- domainMatcher.Find
  pub find_host : Bytes → Option Bytes  -- hostsMatcher.Find
  pub find_ipv4 : Bytes → Option Policy  -- ipMatcher.Find
  pub find_ipv6 : Bytes → Option Policy  -- ipv6Matcher.Find
  pub is_ip : Bytes → Bool  -- net.ParseIP(host) != nil
  pub parse_addr : Bytes → Option Bytes  -- netip.ParseAddr, its 4 or 16 bytes
  pub parse_prefix : Bytes → Option (Bytes × ℕ)  -- netip.ParsePrefix: Masked().Addr() and Bits()
  pub addr_string : Bytes → Bytes  -- netip.Addr.String
  pub dns_resolve : Bytes → DnsMode → Option Bytes  -- dnsResolve, `none` where it fails

-- `ipPools`, by tag.
abbrev pub Pools : Type 0
Pools = List (Bytes × Pool)

-- `ip_pool_panic` is the fault of `Get` on a pool that breaks its invariant.
pub data ResolveError : Type 0 where
  no_ip_pools ip_pool_missing ip_pool_empty ip_pool_panic bad_transform dns_failed : ResolveError

-- A step that reads and changes the pools.
abbrev pub Action : Type 0 → Type 0
Action A = Pools → Result ResolveError A × Pools
