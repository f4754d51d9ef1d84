-- ===== src/Dns/Answered.antt =====
-- internal/dns.go. Where the addresses of the resolver come from.
use lumine_android.Prelude.{
  Bytes, Option, [], ap, bytes_eq, codes, if◌then◌else◌, none, refl, some, suc, sym, true, ℕ, ◌==◌,
  ◌∙◌, ◌∷◌, ◌≡◌, ◌≢◌,
}
use lumine_android.Policy.Names.{dns_mode_string}
use lumine_android.Policy.Types.{
  DnsMode, dns_ipv4_only, dns_ipv6_only, dns_prefer_ipv4, dns_prefer_ipv6, dns_unknown,
}
use lumine_android.Dns.Resolver.{
  QueryType, type_a, type_aaaa, Reply, DnsEnv, pick_first, dns_cache_key,
}

-- A key up to its first 0 and behind it.
abbrev cut_key : Bytes → Bytes × Bytes
cut_key [] = ([], [])
cut_key (c ∷ cs) = let rest = cut_key cs in if c == 0 then ([], cs) else (c ∷ rest.0, rest.1)

abbrev mode_of_name : Bytes → DnsMode
mode_of_name name =
    if bytes_eq name (codes "prefer_ipv4")
    then dns_prefer_ipv4
    else if bytes_eq name (codes "prefer_ipv6")
    then dns_prefer_ipv6
    else if bytes_eq name (codes "ipv4_only")
    then dns_ipv4_only
    else if bytes_eq name (codes "ipv6_only")
    then dns_ipv6_only
    else dns_unknown

cut_key-dns_cache_key :
    (domain : Bytes) (mode : DnsMode)
    → cut_key (dns_cache_key domain mode) ≡ (dns_mode_string mode, domain)
unfolding dns_cache_key dns_mode_string
cut_key-dns_cache_key domain dns_prefer_ipv4 = refl
cut_key-dns_cache_key domain dns_prefer_ipv6 = refl
cut_key-dns_cache_key domain dns_ipv4_only = refl
cut_key-dns_cache_key domain dns_ipv6_only = refl
cut_key-dns_cache_key domain dns_unknown = refl

mode_of_name-string : (mode : DnsMode) → mode_of_name (dns_mode_string mode) ≡ mode
unfolding dns_mode_string
mode_of_name-string dns_prefer_ipv4 = refl
mode_of_name-string dns_prefer_ipv6 = refl
mode_of_name-string dns_ipv4_only = refl
mode_of_name-string dns_ipv6_only = refl
mode_of_name-string dns_unknown = refl

-- The cache's keys keep the domains and the modes apart: two pairs of a domain and a mode with one
-- key are the same.
pub dns_cache_key-injective :
    (domain other : Bytes) (mode mode' : DnsMode)
    → dns_cache_key domain mode ≡ dns_cache_key other mode'
    → (domain ≡ other) × (mode ≡ mode')
dns_cache_key-injective domain other mode mode' e =
    let cut =
      sym (cut_key-dns_cache_key domain mode)
      ∙ (ap cut_key e ∙ cut_key-dns_cache_key other mode') in
    (
      ap (λ c. c.1) cut,
      sym (mode_of_name-string mode) ∙ (ap (λ c. mode_of_name c.0) cut ∙ mode_of_name-string mode'),
    )

-- The type that a mode asks for first, and the one that it falls back to.
abbrev pub first_type : DnsMode → QueryType
first_type dns_prefer_ipv6 = type_aaaa
first_type dns_ipv6_only = type_aaaa
first_type _ = type_a

abbrev pub second_type : DnsMode → Option QueryType
second_type dns_prefer_ipv4 = some type_aaaa
second_type dns_prefer_ipv6 = some type_a
second_type _ = none

module _ (env : DnsEnv) (name : Bytes) where
  -- Some exchange for the records of a type succeeded, and its first record of the type is this.
  pub record FirstRecord (t : QueryType) (n : ℕ) (ip : Option Bytes) : Type 0 where
    pub reply : Reply
    pub replies : env.exchange n (some (name, t)) ≡ some reply
    pub succeeded : (reply.rcode == 0) ≡ true
    pub first : pick_first t reply.answer ≡ ip

  -- The texts that a mode may give for a name.
  pub data Answered : DnsMode → Bytes → Type 0 where
    preferred :
        {mode : DnsMode} (n : ℕ) (ip : Bytes)
        → mode ≢ dns_unknown
        → FirstRecord (first_type mode) n (some ip)
        → Answered mode (env.ip_string (some ip))
    fallen_back :
        {mode : DnsMode} (n : ℕ) (t : QueryType) (ip : Bytes)
        → second_type mode ≡ some t
        → FirstRecord (first_type mode) n none
        → FirstRecord t (suc n) (some ip)
        → Answered mode (env.ip_string (some ip))
    without_question :
        (n : ℕ) (reply : Reply)
        → env.exchange n none ≡ some reply
        → Answered dns_unknown (env.ip_string none)
