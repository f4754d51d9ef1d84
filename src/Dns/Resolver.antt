-- ===== src/Dns/Resolver.antt =====
-- internal/dns.go `dnsResolve`, `doDNSResolve` and what they call. The exchange with the server
-- (`dnsExchange`) and the cache (github.com/elastic/go-freelru) are parameters.
use lumine_android.Policy.Names.{dns_mode_string}
use lumine_android.Policy.Types.{
  DnsMode, dns_ipv4_only, dns_ipv6_only, dns_prefer_ipv4, dns_prefer_ipv6, dns_unknown,
}
use lumine_android.Prelude.{
  Bool, Bytes, List, Option, Result, [], codes, err, false, if◌then◌else◌, none, ok, some, suc,
  true, ℕ, ◌++◌, ◌==◌, ◌>>=◌, ◌∷◌, ◌≡◌, ◌⊎◌,
}

pub data QueryType : Type 0 where
  type_a type_aaaa : QueryType

-- A record of an answer; the address of an A or AAAA record may be nil.
pub data ResourceRecord : Type 0 where
  a_record : Option Bytes → ResourceRecord
  aaaa_record : Option Bytes → ResourceRecord
  other_record : ResourceRecord

pub record Reply : Type 0 where
  pub rcode : ℕ
  pub answer : List ResourceRecord

pub data DnsError : Type 0 where
  dns_exchange bad_rcode a_not_found aaaa_not_found record_not_found : DnsError

unfoldable pub pick_first_a_record : List ResourceRecord → Option Bytes
pick_first_a_record [] = none
pick_first_a_record (a_record ip ∷ rs) = ip
pick_first_a_record (_ ∷ rs) = pick_first_a_record rs

unfoldable pub pick_first_aaaa_record : List ResourceRecord → Option Bytes
pick_first_aaaa_record [] = none
pick_first_aaaa_record (aaaa_record ip ∷ rs) = ip
pick_first_aaaa_record (_ ∷ rs) = pick_first_aaaa_record rs

unfoldable pub pick_first : QueryType → List ResourceRecord → Option Bytes
unfolding pick_first_a_record pick_first_aaaa_record
pick_first type_a rs = pick_first_a_record rs
pick_first type_aaaa rs = pick_first_aaaa_record rs

unfoldable pub dns_cache_key : Bytes → DnsMode → Bytes
unfolding dns_mode_string
dns_cache_key domain mode = dns_mode_string mode ++ (0 ∷ domain)

-- `exchange n question` is the outcome of the n-th exchange of a message with that question, or
-- with none; `ip_string` is `net.IP.String`, for a nil address as well.
pub record DnsEnv : Type 0 where
  pub exchange : ℕ → Option (Bytes × QueryType) → Option Reply
  pub ip_string : Option Bytes → Bytes

-- The cache: what is added may be dropped at any time, for its age or for want of room, and what
-- comes out went in.
pub record CacheOps (Cache : Type 0) : Type 1 where
  pub get_cached : ℕ → Bytes → Cache → Option Bytes × Cache
  pub add_with_lifetime : ℕ → Bytes → Bytes → Cache → Cache
  pub Stores : Cache → Bytes → Bytes → Type 0
  pub get-Stores :
      (now : ℕ) (key value : Bytes) (c : Cache)
      → (get_cached now key c).0 ≡ some value
      → Stores c key value
  pub Stores-get :
      (now : ℕ) (asked key value : Bytes) (c : Cache)
      → Stores (get_cached now asked c).1 key value
      → Stores c key value
  pub Stores-add :
      (now : ℕ) (added text key value : Bytes) (c : Cache)
      → Stores (add_with_lifetime now added text c) key value
      → ((key ≡ added) × (value ≡ text)) ⊎ Stores c key value

-- `cache` is `dnsCache`, or nil; `now` is the time of the call, and `exchanges` counts the
-- exchanges made.
pub record Resolver (Cache : Type 0) : Type 0 where
  pub cache : Option Cache
  pub now : ℕ
  pub exchanges : ℕ

module _ {Cache : Type 0} (ops : CacheOps Cache) (env : DnsEnv) where
  -- One exchange, with its error and the test of the code.
  unfoldable pub ask :
      Option (Bytes × QueryType) → Resolver Cache → Result DnsError Reply × Resolver Cache
  ask question r = (
    elim (env.exchange r.exchanges question) [
      | none ↦ err dns_exchange
      | some reply ↦ if reply.rcode == 0 then ok reply else err bad_rcode
    ],
    record r { exchanges = suc r.exchanges },
  )

  unfoldable pub or_error : DnsError → Option Bytes → Result DnsError (Option Bytes)
  or_error e none = err e
  or_error e (some ip) = ok (some ip)

  -- An exchange and the first record of a type in it.
  unfoldable pub ask_for :
      DnsError
      → QueryType
      → Bytes
      → Resolver Cache
      → Result DnsError (Option Bytes) × Resolver Cache
  unfolding ask pick_first or_error
  ask_for e t name r =
      let a = ask (some (name, t)) r in
      (a.0 >>= λ reply. or_error e (pick_first t reply.answer), a.1)

  -- The other type where the first has no record.
  unfoldable pub fall_back :
      QueryType
      → Bytes
      → Result DnsError (Option Bytes) × Resolver Cache
      → Result DnsError (Option Bytes) × Resolver Cache
  unfolding ask_for
  fall_back t name (err record_not_found, r) = ask_for record_not_found t name r
  fall_back t name other = other

  -- The queries by the mode. An unknown mode sends a message without a question.
  unfoldable pub query :
      DnsMode → Bytes → Resolver Cache → Result DnsError (Option Bytes) × Resolver Cache
  unfolding ask ask_for fall_back
  query dns_ipv4_only name r = ask_for a_not_found type_a name r
  query dns_ipv6_only name r = ask_for aaaa_not_found type_aaaa name r
  query dns_prefer_ipv4 name r = fall_back type_aaaa name (ask_for record_not_found type_a name r)
  query dns_prefer_ipv6 name r = fall_back type_a name (ask_for record_not_found type_aaaa name r)
  query dns_unknown name r = let a = ask none r in (a.0 >>= λ reply. ok none, a.1)

  unfoldable pub store : Bytes → Bytes → Resolver Cache → Resolver Cache
  store key text r = record r {
    cache = elim r.cache [ none ↦ none | some c ↦ some (ops.add_with_lifetime r.now key text c) ];
  }

  unfoldable pub finish_resolve :
      Bytes
      → Result DnsError (Option Bytes) × Resolver Cache
      → Result DnsError Bytes × Resolver Cache
  unfolding store
  finish_resolve key (err e, r) = (err e, r)
  finish_resolve key (ok ip, r) = let text = env.ip_string ip in (ok text, store key text r)

  unfoldable pub do_dns_resolve :
      Bytes → DnsMode → Resolver Cache → Result DnsError Bytes × Resolver Cache
  unfolding query finish_resolve dns_cache_key
  do_dns_resolve domain mode r =
      finish_resolve (dns_cache_key domain mode) (query mode (domain ++ codes ".") r)

  -- The address, and whether it comes from the cache. A call of its own makes the query: waiting
  -- for the query of another caller (`dnsSingleflight`) is left out.
  unfoldable pub resolve_uncached :
      Bytes → DnsMode → Resolver Cache → Result DnsError (Bytes × Bool) × Resolver Cache
  unfolding do_dns_resolve
  resolve_uncached domain mode r =
      let a = do_dns_resolve domain mode r in (a.0 >>= λ ip. ok (ip, false), a.1)

  unfoldable pub after_cache :
      Bytes
      → DnsMode
      → Option Bytes × Cache
      → Resolver Cache
      → Result DnsError (Bytes × Bool) × Resolver Cache
  unfolding resolve_uncached
  after_cache domain mode (some ip, c) r = (ok (ip, true), record r { cache = some c })
  after_cache domain mode (none, c) r = resolve_uncached domain mode (record r { cache = some c })

  unfoldable pub resolve_with :
      Option Cache
      → Bytes
      → DnsMode
      → Resolver Cache
      → Result DnsError (Bytes × Bool) × Resolver Cache
  unfolding after_cache dns_cache_key resolve_uncached
  resolve_with none domain mode r = resolve_uncached domain mode r
  resolve_with (some c) domain mode r =
      after_cache domain mode (ops.get_cached r.now (dns_cache_key domain mode) c) r

  unfoldable pub dns_resolve :
      Bytes → DnsMode → Resolver Cache → Result DnsError (Bytes × Bool) × Resolver Cache
  unfolding resolve_with
  dns_resolve domain mode r = resolve_with r.cache domain mode r
