-- ===== src/Dns/Recovered.antt =====
-- From an answer to the device to the request for the address that it gave: internal/dns_mobile.go
-- and internal/dial_plan.go.
use lumine_android.Resolve.Plan.{RequestContext, is_mobile, policy_subject}
use lumine_android.Dns.Remembered.{lookup-remember}
use mathlib.Core.Option.{none-ne-some, some-injective}
use lumine_android.Prelude.{
  Bytes, List, Option, [], ap, bytes_eq_iff, false, ltb, refl, some, true, ℕ, ◌+◌, ◌∙◌, ◌∷◌, ◌≡◌,
}
use lumine_android.Dns.Mapping.{
  MobileDnsRecords, lookup_mobile_dns_mapping, mobile_dns_answer_ttl, nanoseconds, limit_ttl,
}
use lumine_android.Dns.Given.{
  AnswerEnd, unhandled, without_address, with_address, handle_configured_mobile_dns-AnswerEnd,
}
use lumine_android.Dns.Mobile.{
  Question, MobileEnv, MobileState, MobileReply, AddressAnswer, trim_dot, address_key,
  handle_configured_mobile_dns,
}

nil-ne-cons {ℓ} : {A : Type ℓ} (a : A) (rest : List A) → ¬ (◌≡◌ {A = List A} [] (a ∷ rest))
nil-ne-cons a rest e = cc

-- The first of the answers, or an empty one.
abbrev first_address : List AddressAnswer → Bytes
first_address [] = []
first_address (a ∷ rest) = a.address

module _ (env : MobileEnv)
    (to4_again : (ip v4 : Bytes) → env.to4 ip ≡ some v4 → env.to4 v4 ≡ some v4) (now : ℕ)
    (q : Question) where
  lookup-AnswerEnd :
      (records : MobileDnsRecords) (r : Option MobileReply × MobileState) (reply : MobileReply)
      (a : AddressAnswer) (key : Bytes) (later : ℕ)
      → AnswerEnd env now q records r
      → r.0 ≡ some reply
      → reply.answers ≡ a ∷ []
      → address_key env (env.ip_string a.address) ≡ some key
      → ltb (now + nanoseconds mobile_dns_answer_ttl) later ≡ false
      → (lookup_mobile_dns_mapping (address_key env) later (env.ip_string a.address) r.1.records).0
        ≡ some (trim_dot q.name)
  unfolding limit_ttl
  lookup-AnswerEnd records _ reply a key later (unhandled t h) e one printed fresh =
      elim (none-ne-some reply e) [ ]
  lookup-AnswerEnd records _ reply a key later (without_address rcode t _ h) e one printed fresh =
      elim (nil-ne-cons a [] (ap (λ r. r.answers) (some-injective _ _ e) ∙ one)) [ ]
  lookup-AnswerEnd records _ reply a key later (with_address ip t family named h) e one printed
        fresh =
      let same : ip ≡ a.address =
        ap first_address (ap (λ r. r.answers) (some-injective _ _ e) ∙ one) in
      let ttl = mobile_dns_answer_ttl in
      let at_ip : address_key env (env.ip_string ip) ≡ some key = rw same printed in
      ap (λ rs. (lookup_mobile_dns_mapping (address_key env) later (env.ip_string a.address) rs).0)
        h
      ∙ (lookup-remember (address_key env) records (env.ip_string ip) key (trim_dot q.name) now ttl
            at_ip named later (env.ip_string a.address) key printed
          ∙ rw ((bytes_eq_iff key key).1 refl, fresh) refl)

  -- When the reply to a device's question gives one address, the text of the address parses to one
  -- that is printed, and `To4` keeps what it gives, then a request of the device for that text,
  -- which is an address, before the 60 seconds of the answer are over, is matched by the domain of
  -- the question and not by the address.
  pub policy_subject-handle_configured :
      (s : MobileState) (reply : MobileReply) (a : AddressAnswer) (key : Bytes) (later : ℕ)
      (req : RequestContext)
      → (handle_configured_mobile_dns env now (q ∷ []) s).0 ≡ some reply
      → reply.answers ≡ a ∷ []
      → address_key env (env.ip_string a.address) ≡ some key
      → ltb (now + nanoseconds mobile_dns_answer_ttl) later ≡ false
      → is_mobile req.source ≡ true
      → req.host ≡ env.ip_string a.address
      → env.resolve.is_ip req.host ≡ true
      → (let after = (handle_configured_mobile_dns env now (q ∷ []) s).1.records in
          let lookup =
            λ (ip : Bytes). (lookup_mobile_dns_mapping (address_key env) later ip after).0 in
          policy_subject env.resolve lookup req ≡ (trim_dot q.name, false, trim_dot q.name))
  unfolding policy_subject
  policy_subject-handle_configured s reply a key later req e one printed fresh mobile host ip =
      let answered =
        lookup-AnswerEnd s.records (handle_configured_mobile_dns env now (q ∷ []) s) reply a key
          later (handle_configured_mobile_dns-AnswerEnd env to4_again now q s) e one printed
          fresh in
      rw (mobile, ip, host, answered) refl
