-- ===== src/Dns/Provenance.antt =====
-- internal/dns.go. The resolver's queries give what `Answered` allows.
use mathlib.Core.Path.{subst}
use lumine_android.Prelude.{
  Bool-cases, Bytes, Holds, Option, Option-cases, Result, err, fails, holds, inl, inr, none, ok,
  refl, some, suc, ℕ, ◌==◌, ◌≡◌, ◌≢◌,
}
use lumine_android.Policy.Types.{
  DnsMode, dns_ipv4_only, dns_ipv6_only, dns_prefer_ipv4, dns_prefer_ipv6, dns_unknown,
}
use lumine_android.Dns.Answered.{
  first_type, second_type, FirstRecord, Answered, preferred, fallen_back, without_question,
}
use lumine_android.Dns.Resolver.{
  QueryType, type_a, type_aaaa, DnsError, DnsEnv, CacheOps, Resolver, dns_exchange, bad_rcode,
  record_not_found, a_not_found, aaaa_not_found, pick_first, or_error, ask_for, fall_back, query,
}

module _ {Cache : Type 0} (ops : CacheOps Cache) (env : DnsEnv) (name : Bytes) where
  -- How an exchange for one type ends.
  data AskEnd (e : DnsError) (t : QueryType) (n : ℕ) : Result DnsError (Option Bytes) → Type 0 where
    got : (ip : Bytes) → FirstRecord env name t n (some ip) → AskEnd e t n (ok (some ip))
    lacks : FirstRecord env name t n none → AskEnd e t n (err e)
    broke : (e' : DnsError) → e' ≢ record_not_found → AskEnd e t n (err e')

  or_error-AskEnd :
      (e : DnsError) (t : QueryType) (n : ℕ) (ip : Option Bytes)
      → FirstRecord env name t n ip
      → AskEnd e t n (or_error ops env e ip)
  unfolding or_error
  or_error-AskEnd e t n none f = lacks f
  or_error-AskEnd e t n (some ip) f = got ip f

  ask_for-AskEnd :
      (e : DnsError) (t : QueryType) (r : Resolver Cache)
      → AskEnd e t r.exchanges (ask_for ops env e t name r).0
  unfolding ask_for
  ask_for-AskEnd e t r = elim (Option-cases (env.exchange r.exchanges (some (name, t)))) [
    | inl h ↦ rw h (broke dns_exchange (λ k. cc))
    | inr (reply, h) ↦ elim (Bool-cases (reply.rcode == 0)) [
      | inl k ↦
          rw (h, k)
            (or_error-AskEnd e t r.exchanges (pick_first t reply.answer)
              (record { reply = reply; replies = h; succeeded = k; first = refl }))
      | inr k ↦ rw (h, k) (broke bad_rcode (λ l. cc))
    ]
  ]

  abbrev pub Allowed : DnsMode → Result DnsError (Option Bytes) → Type 0
  Allowed mode = Holds (λ ip. Answered env name mode (env.ip_string ip))

  only-Allowed :
      (e : DnsError) (mode : DnsMode) (n : ℕ) (res : Result DnsError (Option Bytes))
      → mode ≢ dns_unknown
      → AskEnd e (first_type mode) n res
      → Allowed mode res
  only-Allowed e mode n _ known (got ip f) = holds (preferred n ip known f)
  only-Allowed e mode n _ known (lacks f) = fails
  only-Allowed e mode n _ known (broke e' ne) = fails

  second-Allowed :
      (mode : DnsMode) (t : QueryType) (n : ℕ) (res : Result DnsError (Option Bytes))
      → second_type mode ≡ some t
      → FirstRecord env name (first_type mode) n none
      → AskEnd record_not_found t (suc n) res
      → Allowed mode res
  second-Allowed mode t n _ sec f (got ip g) = holds (fallen_back n t ip sec f g)
  second-Allowed mode t n _ sec f (lacks g) = fails
  second-Allowed mode t n _ sec f (broke e' ne) = fails

  fall_back-Allowed :
      (mode : DnsMode) (t : QueryType) (n : ℕ) (res : Result DnsError (Option Bytes))
      (r : Resolver Cache)
      → mode ≢ dns_unknown
      → second_type mode ≡ some t
      → r.exchanges ≡ suc n
      → AskEnd record_not_found (first_type mode) n res
      → Allowed mode (fall_back ops env t name (res, r)).0
  unfolding fall_back
  fall_back-Allowed mode t n _ r known sec count (got ip f) = holds (preferred n ip known f)
  fall_back-Allowed mode t n _ r known sec count (lacks f) = second-Allowed mode t n _ sec f (
      subst (λ k. AskEnd record_not_found t k (ask_for ops env record_not_found t name r).0) count
        (ask_for-AskEnd record_not_found t r))
  fall_back-Allowed mode t n _ r known sec count (broke dns_exchange ne) = fails
  fall_back-Allowed mode t n _ r known sec count (broke bad_rcode ne) = fails
  fall_back-Allowed mode t n _ r known sec count (broke a_not_found ne) = fails
  fall_back-Allowed mode t n _ r known sec count (broke aaaa_not_found ne) = fails
  fall_back-Allowed mode t n _ r known sec count (broke record_not_found ne) = elim (ne refl) [ ]

  pub query-Allowed :
      (mode : DnsMode) (r : Resolver Cache) → Allowed mode (query ops env mode name r).0
  unfolding query
  query-Allowed dns_ipv4_only r =
      only-Allowed a_not_found dns_ipv4_only r.exchanges _ (λ h. cc)
        (ask_for-AskEnd a_not_found type_a r)
  query-Allowed dns_ipv6_only r =
      only-Allowed aaaa_not_found dns_ipv6_only r.exchanges _ (λ h. cc)
        (ask_for-AskEnd aaaa_not_found type_aaaa r)
  query-Allowed dns_prefer_ipv4 r =
      fall_back-Allowed dns_prefer_ipv4 type_aaaa r.exchanges _ _ (λ h. cc) refl refl
        (ask_for-AskEnd record_not_found type_a r)
  query-Allowed dns_prefer_ipv6 r =
      fall_back-Allowed dns_prefer_ipv6 type_a r.exchanges _ _ (λ h. cc) refl refl
        (ask_for-AskEnd record_not_found type_aaaa r)
  query-Allowed dns_unknown r = elim (Option-cases (env.exchange r.exchanges none)) [
    | inl h ↦ rw h fails
    | inr (reply, h) ↦ elim (Bool-cases (reply.rcode == 0)) [
      | inl k ↦ rw (h, k) (holds (without_question r.exchanges reply h))
      | inr k ↦ rw (h, k) fails
    ]
  ]

  fall_back-cache :
      (t : QueryType) (a : Result DnsError (Option Bytes) × Resolver Cache)
      → (fall_back ops env t name a).1.cache ≡ a.1.cache
  unfolding fall_back
  fall_back-cache t (err record_not_found, r) = refl
  fall_back-cache t (err dns_exchange, r) = refl
  fall_back-cache t (err bad_rcode, r) = refl
  fall_back-cache t (err a_not_found, r) = refl
  fall_back-cache t (err aaaa_not_found, r) = refl
  fall_back-cache t (ok ip, r) = refl

  -- The queries leave the cache alone.
  pub query-cache :
      (mode : DnsMode) (r : Resolver Cache) → (query ops env mode name r).1.cache ≡ r.cache
  unfolding query
  query-cache dns_ipv4_only r = refl
  query-cache dns_ipv6_only r = refl
  query-cache dns_prefer_ipv4 r = fall_back-cache type_aaaa _
  query-cache dns_prefer_ipv6 r = fall_back-cache type_a _
  query-cache dns_unknown r = refl
