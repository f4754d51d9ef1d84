-- ===== src/Dns/Given.antt =====
-- internal/dns_mobile.go. The answers that are given to the device, and what is remembered of
-- them.
use lumine_android.Resolve.GenPolicy.{Verdict, blocked, domain_not_found, failed, found, gen_policy}
use lumine_android.Policy.Types.{Policy, is_mode_block}
use mathlib.Core.Option.{none-ne-some, some-injective}
use lumine_android.Prelude.{
  ==_iff, Bool-cases, Bytes, Option, Option-cases, Result, [], err, false, inl, inr, is_empty, none,
  ok, refl, some, sym, true, ℕ, ◌==◌, ◌>>=◌, ◌||◌, ◌∙◌, ◌∷◌, ◌≡◌,
}
use lumine_android.Dns.Mapping.{
  MobileDnsRecords, remember_mobile_dns_mapping, mobile_dns_answer_ttl,
}
use lumine_android.Dns.Mobile.{
  Question, MobileEnv, MobileState, MobileReply, type_a, type_aaaa, plain_reply, rcode_success,
  trim_dot, address_key, of_family, append_address_answer, answer_address, answer_domain,
  answer_question, answer_verdict, handle_configured_mobile_dns, or_resolved, rcode_refused,
  rcode_server_failure, resolve_mobile_dns_answer_ip, type_https, type_svcb,
}

-- The reply with just one address, which lives for a minute.
abbrev pub one_answer : Question → Bytes → MobileReply
one_answer q ip = record {
  rcode = 0;
  answers =
      record { name = q.name; rrtype = q.qtype; class_ = q.qclass; ttl = 60; address = ip } ∷ [];
}

-- No error, a server's failure, or a refusal (RFC 1035).
pub data ReplyCode : ℕ → Type 0 where
  no_error : ReplyCode 0
  failure : ReplyCode 2
  refused : ReplyCode 5

module _ (env : MobileEnv) where
  -- `ip` is an address of the family that a question asks for.
  pub data OfFamily (qtype : ℕ) : Bytes → Type 0 where
    is_v4 : (ip v4 : Bytes) → qtype ≡ type_a → env.to4 ip ≡ some v4 → OfFamily qtype v4
    is_v6 : (ip : Bytes) → qtype ≡ type_aaaa → env.to4 ip ≡ none → OfFamily qtype ip

  -- No address and nothing remembered, or one address of the family asked for, with the question's
  -- name, type and class, and remembered for the domain.
  pub data AnswerEnd (now : ℕ) (q : Question) (records : MobileDnsRecords)
      : Option MobileReply × MobileState → Type 0 where
    unhandled : (t : MobileState) → t.records ≡ records → AnswerEnd now q records (none, t)
    without_address :
        (rcode : ℕ) (t : MobileState)
        → ReplyCode rcode
        → t.records ≡ records
        → AnswerEnd now q records (some (record { rcode = rcode; answers = [] }), t)
    with_address :
        (ip : Bytes) (t : MobileState)
        → OfFamily q.qtype ip
        → is_empty (trim_dot q.name) ≡ false
        → t.records
          ≡ remember_mobile_dns_mapping
              (address_key env)
              now
              (env.ip_string ip)
              (trim_dot q.name)
              mobile_dns_answer_ttl
              records
        → AnswerEnd now q records (some (one_answer q ip), t)

module _ (env : MobileEnv)
    (to4_again : (ip v4 : Bytes) → env.to4 ip ≡ some v4 → env.to4 v4 ≡ some v4) where
  v6-OfFamily :
      (qtype : ℕ) (ip got : Bytes) (o : Option Bytes)
      → env.to4 ip ≡ o
      → qtype ≡ type_aaaa
      → elim o as (λ _. Option Bytes) [ none ↦ some ip | some v4 ↦ none ] ≡ some got
      → OfFamily env qtype got
  v6-OfFamily qtype ip got none h k e = rw (sym (some-injective _ _ e)) (is_v6 ip k h)
  v6-OfFamily qtype ip got (some v4) h k e = elim (none-ne-some got e) [ ]

  of_family-OfFamily :
      (qtype : ℕ) (ip got : Bytes)
      → (qtype == type_a || qtype == type_aaaa) ≡ true
      → of_family env qtype ip ≡ some got
      → OfFamily env qtype got
  unfolding of_family
  of_family-OfFamily qtype ip got asked e = elim (Bool-cases (qtype == type_a)) [
    | inl h ↦ is_v4 ip got ((==_iff qtype type_a).0 h) (sym (rw h refl) ∙ e)
    | inr h ↦
        v6-OfFamily qtype ip got (env.to4 ip) refl
          ((==_iff qtype type_aaaa).0 (sym (rw h refl) ∙ asked)) (sym (rw h refl) ∙ e)
  ]

  append_address_answer-one :
      (q : Question) (ip : Bytes)
      → OfFamily env q.qtype ip
      → append_address_answer env q ip (plain_reply env rcode_success) ≡ one_answer q ip
  unfolding append_address_answer
  append_address_answer-one q ip (is_v4 source _ k h) = rw (k, to4_again source ip h) refl
  append_address_answer-one q ip (is_v6 _ k h) = rw k refl

  answer_address-AnswerEnd :
      (now : ℕ) (q : Question) (found_ : Option Bytes) (s : MobileState)
      → (q.qtype == type_a || q.qtype == type_aaaa) ≡ true
      → is_empty (trim_dot q.name) ≡ false
      → AnswerEnd env now q s.records (
          answer_address env now q
            (trim_dot q.name)
            (elim found_ as (λ _. Result (Unit {0}) (Option Bytes)) [
              | none ↦ ok none
              | some ip ↦ ok (of_family env q.qtype ip)
            ])
            s)
  unfolding answer_address
  answer_address-AnswerEnd now q none s asked named = without_address rcode_success s no_error refl
  answer_address-AnswerEnd now q (some ip) s asked named =
      elim (Option-cases (of_family env q.qtype ip)) [
        | inl h ↦ rw h (without_address rcode_success s no_error refl)
        | inr (got, h) ↦
            let family = of_family-OfFamily q.qtype ip got asked h in
            rw (h, append_address_answer-one q got family) (with_address got _ family named refl)
      ]

  resolved-AnswerEnd :
      (now : ℕ) (q : Question) (r : Result (Unit {0}) (Option Bytes)) (s : MobileState)
      → (q.qtype == type_a || q.qtype == type_aaaa) ≡ true
      → is_empty (trim_dot q.name) ≡ false
      → AnswerEnd env now q s.records (
          answer_address env now q
            (trim_dot q.name)
            (r >>= λ found_. elim found_ as (λ _. Result (Unit {0}) (Option Bytes)) [
              | none ↦ ok none
              | some ip ↦ ok (of_family env q.qtype ip)
            ])
            s)
  unfolding answer_address
  resolved-AnswerEnd now q (err e) s asked named =
      without_address rcode_server_failure s failure refl
  resolved-AnswerEnd now q (ok found_) s asked named =
      answer_address-AnswerEnd now q found_ s asked named

  answer_question-AnswerEnd :
      (now : ℕ) (q : Question) (host : Bytes) (p : Policy) (s : MobileState)
      → is_empty (trim_dot q.name) ≡ false
      → AnswerEnd env now q s.records (answer_question env now q (trim_dot q.name) host p s)
  unfolding answer_question resolve_mobile_dns_answer_ip
  answer_question-AnswerEnd now q host p s named =
      elim (Bool-cases (q.qtype == type_a || q.qtype == type_aaaa)) [
        | inl h ↦ rw h (
            resolved-AnswerEnd now q (or_resolved env (env.parse_ip host) host q.qtype p) s h named)
        | inr h ↦ elim (Bool-cases (q.qtype == type_https || q.qtype == type_svcb)) [
          | inl k ↦ rw (h, k) (without_address rcode_success s no_error refl)
          | inr k ↦ rw (h, k) (unhandled s refl)
        ]
      ]

  answer_verdict-AnswerEnd :
      (now : ℕ) (q : Question) (v : Verdict) (s : MobileState)
      → is_empty (trim_dot q.name) ≡ false
      → AnswerEnd env now q s.records (answer_verdict env now q (trim_dot q.name) v s)
  unfolding answer_verdict
  answer_verdict-AnswerEnd now q failed s named =
      without_address rcode_server_failure s failure refl
  answer_verdict-AnswerEnd now q domain_not_found s named = unhandled s refl
  answer_verdict-AnswerEnd now q blocked s named = without_address rcode_refused s refused refl
  answer_verdict-AnswerEnd now q (found host p) s named = elim (Bool-cases (is_mode_block p.mode)) [
    | inl h ↦ rw h (without_address rcode_refused s refused refl)
    | inr h ↦ rw h (answer_question-AnswerEnd now q host p s named)
  ]

  -- Where `To4` keeps what it gives, a request with one question is left to the resolver, with
  -- nothing remembered, or its reply has no address and the code 0, 2 or 5, with nothing
  -- remembered, or it is a success with just one address, of the family that the question asks for, with the question's name, type
  -- and class and 60 seconds to live, and the text of that address is remembered for the question's
  -- name without its last dot.
  pub handle_configured_mobile_dns-AnswerEnd :
      (now : ℕ) (q : Question) (s : MobileState)
      → AnswerEnd env now q s.records (handle_configured_mobile_dns env now (q ∷ []) s)
  unfolding handle_configured_mobile_dns answer_domain
  handle_configured_mobile_dns-AnswerEnd now q s = elim (Bool-cases (is_empty (trim_dot q.name))) [
    | inl h ↦ rw h (unhandled s refl)
    | inr h ↦ rw h (
        let r = gen_policy env.resolve (trim_dot q.name) false true s.pools in
        answer_verdict-AnswerEnd now q r.0 (record s { pools = r.1 }) h)
  ]
