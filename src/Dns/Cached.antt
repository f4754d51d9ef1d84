-- ===== src/Dns/Cached.antt =====
-- internal/dns.go. What the resolver gives, from the cache or from an exchange.
use lumine_android.Dns.Provenance.{query-Allowed, query-cache}
use mathlib.Core.Path.{subst}
use mathlib.Core.Option.{none-ne-some, some-injective}
use lumine_android.Prelude.{
  Bool, Bytes, Holds, Option, Option-cases, Result, codes, err, fails, false, holds, inl, inr, none,
  ok, refl, some, ℕ, ◌++◌, ◌>>=◌, ◌≡◌,
}
use lumine_android.Policy.Types.{DnsMode}
use lumine_android.Dns.Answered.{Answered, dns_cache_key-injective}
use lumine_android.Dns.Resolver.{
  dns_resolve, DnsError, DnsEnv, CacheOps, Resolver, dns_cache_key, after_cache, do_dns_resolve,
  finish_resolve, query, resolve_uncached, resolve_with, store,
}

module _ {Cache : Type 0} (ops : CacheOps Cache) (env : DnsEnv) where
  -- Every text stored for a domain and a mode is one that the mode may give for the domain.
  abbrev pub IsSound : Cache → Type 0
  IsSound c =
      (domain : Bytes) (mode : DnsMode) (text : Bytes)
      → ops.Stores c (dns_cache_key domain mode) text
      → Answered env (domain ++ codes ".") mode text

  pub record SoundCache (cache : Option Cache) : Type 0 where
    pub sound : (c : Cache) → cache ≡ some c → IsSound c

  -- A result is one that the mode may give, and the cache stays sound.
  pub record Kept (domain : Bytes) (mode : DnsMode)
      (a : Result DnsError (Bytes × Bool) × Resolver Cache) : Type 0 where
    pub answered : Holds (λ p. Answered env (domain ++ codes ".") mode p.0) a.0
    pub still : SoundCache a.1.cache

  stored-IsSound :
      (domain : Bytes) (mode : DnsMode) (text : Bytes) (now : ℕ) (c : Cache)
      → Answered env (domain ++ codes ".") mode text
      → IsSound c
      → IsSound (ops.add_with_lifetime now (dns_cache_key domain mode) text c)
  stored-IsSound domain mode text now c a s other mode' text' h =
      elim (ops.Stores-add now (dns_cache_key domain mode) text (dns_cache_key other mode') text' c
        h) [
          | inr old ↦ s other mode' text' old
          | inl (same, same_text) ↦
              let k = dns_cache_key-injective other domain mode' mode same in
              rw (k.0, k.1, same_text) a
        ]

  store-SoundCache :
      (domain : Bytes) (mode : DnsMode) (text : Bytes) (r : Resolver Cache)
      → Answered env (domain ++ codes ".") mode text
      → SoundCache r.cache
      → SoundCache (store ops env (dns_cache_key domain mode) text r).cache
  unfolding store
  store-SoundCache domain mode text r a s = elim (Option-cases r.cache) [
    | inl h ↦ rw h (record { sound = λ c e. elim (none-ne-some c e) [ ] })
    | inr (c, h) ↦ rw h (record {
      sound = λ d e.
          subst IsSound (some-injective _ _ e)
            (stored-IsSound domain mode text r.now c a (s.sound c h));
    })
  ]

  -- The end of the resolution, with its flag.
  uncached-Kept :
      (domain : Bytes) (mode : DnsMode) (a : Result DnsError (Option Bytes) × Resolver Cache)
      → Holds (λ ip. Answered env (domain ++ codes ".") mode (env.ip_string ip)) a.0
      → SoundCache a.1.cache
      → (let b = finish_resolve ops env (dns_cache_key domain mode) a in
          Kept domain mode (b.0 >>= λ ip. ok (ip, false), b.1))
  unfolding finish_resolve
  uncached-Kept domain mode (err e, r) allowed s = record { answered = fails; still = s }
  uncached-Kept domain mode (ok ip, r) (holds h) s = record {
    answered = holds h;
    still = store-SoundCache domain mode (env.ip_string ip) r h s;
  }

  resolve_uncached-Kept :
      (domain : Bytes) (mode : DnsMode) (r : Resolver Cache)
      → SoundCache r.cache
      → Kept domain mode (resolve_uncached ops env domain mode r)
  unfolding resolve_uncached do_dns_resolve
  resolve_uncached-Kept domain mode r s =
      let name = domain ++ codes "." in
      uncached-Kept domain mode (query ops env mode name r) (query-Allowed ops env name mode r)
        (rw (query-cache ops env name mode r) s)

  after_cache-Kept :
      (domain : Bytes) (mode : DnsMode) (found : Option Bytes × Cache) (r : Resolver Cache)
      → IsSound found.1
      → ((text : Bytes) → found.0 ≡ some text → Answered env (domain ++ codes ".") mode text)
      → Kept domain mode (after_cache ops env domain mode found r)
  unfolding after_cache
  after_cache-Kept domain mode (some text, c) r s a = record {
    answered = holds (a text refl);
    still = record { sound = λ d e. subst IsSound (some-injective _ _ e) s };
  }
  after_cache-Kept domain mode (none, c) r s a =
      resolve_uncached-Kept domain mode (record r { cache = some c })
        (record { sound = λ d e. subst IsSound (some-injective _ _ e) s })

  resolve_with-Kept :
      (o : Option Cache) (domain : Bytes) (mode : DnsMode) (r : Resolver Cache)
      → r.cache ≡ o
      → SoundCache r.cache
      → Kept domain mode (resolve_with ops env o domain mode r)
  unfolding resolve_with
  resolve_with-Kept none domain mode r h s = resolve_uncached-Kept domain mode r s
  resolve_with-Kept (some c) domain mode r h s =
      let key = dns_cache_key domain mode in
      after_cache-Kept domain mode (ops.get_cached r.now key c) r
        (λ other m text k.
          s.sound c h other m text (ops.Stores-get r.now key (dns_cache_key other m) text c k))
        (λ text k. s.sound c h domain mode text (ops.get-Stores r.now key text c k))

  -- With a cache that only stores texts which the keys' domains and modes allow, or with no cache,
  -- `dnsResolve` fails or gives such a text, cached or not: the address of the first record of the
  -- mode's first type in a successful exchange, or, for a mode with "prefer" and where that
  -- exchange has no such record, of the first of the other type in the next exchange; for the
  -- unknown mode, the text of no address. The cache stays so.
  pub dns_resolve-Kept :
      (domain : Bytes) (mode : DnsMode) (r : Resolver Cache)
      → SoundCache r.cache
      → Kept domain mode (dns_resolve ops env domain mode r)
  unfolding dns_resolve
  dns_resolve-Kept domain mode r s = resolve_with-Kept r.cache domain mode r refl s
