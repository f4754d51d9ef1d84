-- ===== src/Dns/Mobile.antt =====
-- internal/dns_mobile.go `HandleDNSQueryPacket` and what it calls. The messages are those of
-- github.com/miekg/dns: `unpack` and `pack` are parameters, and a message is what the source reads
-- and sets of it.
use lumine_android.Dns.Mapping.{
  MobileDnsRecords, mobile_dns_answer_ttl, remember_mobile_dns_mapping,
}
use lumine_android.Policy.Types.{DnsMode, Policy, dns_ipv4_only, dns_ipv6_only, is_mode_block}
use lumine_android.Resolve.Env.{Env, Pools}
use lumine_android.Resolve.GenPolicy.{Verdict, blocked, domain_not_found, failed, found, gen_policy}
use mathlib.Core.Option
use lumine_android.Prelude.{
  Bool, Bytes, List, Option, Result, [], err, false, if◌then◌else◌, is_empty, none, ok, some, true,
  ℕ, ◌&&◌, ◌++◌, ◌==◌, ◌>>=◌, ◌||◌, ◌∷◌,
}

pub record Question : Type 0 where
  pub name : Bytes
  pub qtype : ℕ
  pub qclass : ℕ

pub record AddressAnswer : Type 0 where
  pub name : Bytes
  pub rrtype : ℕ
  pub class_ : ℕ
  pub ttl : ℕ
  pub address : Bytes

-- A reply to the request (`SetReply`), with recursion available.
pub record MobileReply : Type 0 where
  pub rcode : ℕ
  pub answers : List AddressAnswer

abbrev pub type_a : ℕ
type_a = 1

abbrev pub type_aaaa : ℕ
type_aaaa = 28

abbrev pub type_svcb : ℕ
type_svcb = 64

abbrev pub type_https : ℕ
type_https = 65

abbrev pub rcode_success : ℕ
rcode_success = 0

abbrev pub rcode_server_failure : ℕ
rcode_server_failure = 2

abbrev pub rcode_refused : ℕ
rcode_refused = 5

-- `strings.TrimSuffix(name, ".")`
abbrev pub trim_dot : Bytes → Bytes
trim_dot [] = []
trim_dot (c ∷ []) = if c == 46 then [] else c ∷ []
trim_dot (c ∷ d ∷ cs) = c ∷ trim_dot (d ∷ cs)

-- `parse_ip` is `net.ParseIP`, `to4` is `net.IP.To4` and `ip_string` is `net.IP.String`.
pub record MobileEnv : Type 0 where
  pub resolve : Env
  pub parse_ip : Bytes → Option Bytes
  pub to4 : Bytes → Option Bytes
  pub ip_string : Bytes → Bytes

pub record MobileState : Type 0 where
  pub pools : Pools
  pub records : MobileDnsRecords

abbrev pub is_dns_ipv4_only : DnsMode → Bool
is_dns_ipv4_only dns_ipv4_only = true
is_dns_ipv4_only _ = false

abbrev pub is_dns_ipv6_only : DnsMode → Bool
is_dns_ipv6_only dns_ipv6_only = true
is_dns_ipv6_only _ = false

module _ (env : MobileEnv) where
  -- The text of an address as it is printed: what the answers are remembered by.
  abbrev pub address_key : Bytes → Option Bytes
  address_key text = Option.map env.ip_string (env.parse_ip text)

  -- An address of the family asked for.
  unfoldable pub of_family : ℕ → Bytes → Option Bytes
  of_family qtype ip =
      if qtype == type_a then env.to4 ip else elim (env.to4 ip) [ none ↦ some ip | some v4 ↦ none ]

  -- A name is resolved by the family asked for, unless the policy wants the other one only.
  unfoldable pub resolve_name : Bytes → ℕ → Policy → Result (Unit {0}) (Option Bytes)
  resolve_name host qtype p =
      if qtype == type_a && is_dns_ipv6_only p.dns_mode
      then ok none
      else if qtype == type_aaaa && is_dns_ipv4_only p.dns_mode
      then ok none
      else elim (env.resolve.dns_resolve host
          (if qtype == type_aaaa then dns_ipv6_only else dns_ipv4_only)) [
            | none ↦ err tt
            | some resolved ↦ ok (env.parse_ip resolved)
          ]

  unfoldable pub or_resolved : Option Bytes → Bytes → ℕ → Policy → Result (Unit {0}) (Option Bytes)
  unfolding resolve_name
  or_resolved (some ip) host qtype p = ok (some ip)
  or_resolved none host qtype p = resolve_name host qtype p

  unfoldable pub resolve_mobile_dns_answer_ip :
      Bytes → ℕ → Policy → Result (Unit {0}) (Option Bytes)
  unfolding or_resolved of_family
  resolve_mobile_dns_answer_ip host qtype p =
      or_resolved (env.parse_ip host) host qtype p >>= λ found. elim found [
        | none ↦ ok none
        | some ip ↦ ok (of_family qtype ip)
      ]

  -- `ip` is of the family that the question asks for, so `To4` of it is the same address.
  unfoldable pub append_address_answer : Question → Bytes → MobileReply → MobileReply
  append_address_answer q ip reply =
      let address =
        if q.qtype == type_a then elim (env.to4 ip) [ none ↦ [] | some v4 ↦ v4 ] else ip in
      record reply {
        answers =
            reply.answers
            ++ record {
              name = q.name;
              rrtype = q.qtype;
              class_ = q.qclass;
              ttl = mobile_dns_answer_ttl;
              address = address;
            }
              ∷ [];
      }

  abbrev pub plain_reply : ℕ → MobileReply
  plain_reply rcode = record { rcode = rcode; answers = [] }

  unfoldable pub answer_address :
      ℕ
      → Question
      → Bytes
      → Result (Unit {0}) (Option Bytes)
      → MobileState
      → Option MobileReply × MobileState
  unfolding append_address_answer remember_mobile_dns_mapping
  answer_address now q domain (err e) s = (some (plain_reply rcode_server_failure), s)
  answer_address now q domain (ok none) s = (some (plain_reply rcode_success), s)
  answer_address now q domain (ok (some ip)) s = (
    some (append_address_answer q ip (plain_reply rcode_success)),
    record s {
      records =
          remember_mobile_dns_mapping address_key now (env.ip_string ip) domain
            mobile_dns_answer_ttl s.records;
    },
  )

  -- A, AAAA, HTTPS and SVCB questions are answered; `none` leaves one to the exchange.
  unfoldable pub answer_question :
      ℕ → Question → Bytes → Bytes → Policy → MobileState → Option MobileReply × MobileState
  unfolding answer_address resolve_mobile_dns_answer_ip
  answer_question now q domain host p s =
      if q.qtype == type_a || q.qtype == type_aaaa
      then answer_address now q domain (resolve_mobile_dns_answer_ip host q.qtype p) s
      else if q.qtype == type_https || q.qtype == type_svcb
      then (some (plain_reply rcode_success), s)
      else (none, s)

  unfoldable pub answer_verdict :
      ℕ → Question → Bytes → Verdict → MobileState → Option MobileReply × MobileState
  unfolding answer_question
  answer_verdict now q domain domain_not_found s = (none, s)
  answer_verdict now q domain failed s = (some (plain_reply rcode_server_failure), s)
  answer_verdict now q domain blocked s = (some (plain_reply rcode_refused), s)
  answer_verdict now q domain (found host p) s =
      if is_mode_block p.mode
      then (some (plain_reply rcode_refused), s)
      else answer_question now q domain host p s

  unfoldable pub answer_domain :
      ℕ → Question → Bytes → MobileState → Option MobileReply × MobileState
  unfolding answer_verdict gen_policy
  answer_domain now q domain s =
      if is_empty domain
      then (none, s)
      else let r = gen_policy env.resolve domain false true s.pools in
        answer_verdict now q domain r.0 (record s { pools = r.1 })

  unfoldable pub handle_configured_mobile_dns :
      ℕ → List Question → MobileState → Option MobileReply × MobileState
  unfolding answer_domain
  handle_configured_mobile_dns now [] s = (none, s)
  handle_configured_mobile_dns now (q ∷ []) s = answer_domain now q (trim_dot q.name) s
  handle_configured_mobile_dns now (q ∷ q' ∷ qs) s = (none, s)

-- The packets: `unpack` gives the questions of a request, `pack` the bytes of a reply to it, and
-- `exchange` sends the request on and packs what comes back.
pub record PacketEnv : Type 0 where
  pub mobile : MobileEnv
  pub unpack : Bytes → Option (List Question)
  pub pack : Bytes → MobileReply → Option Bytes
  pub exchange : Bytes → Option Bytes

module _ (env : PacketEnv) where
  unfoldable pub pack_or_exchange :
      Bytes → Option MobileReply × MobileState → Option Bytes × MobileState
  pack_or_exchange payload (some reply, s) = (env.pack payload reply, s)
  pack_or_exchange payload (none, s) = (env.exchange payload, s)

  unfoldable pub handle_questions :
      ℕ → Bytes → Option (List Question) → MobileState → Option Bytes × MobileState
  unfolding pack_or_exchange handle_configured_mobile_dns
  handle_questions now payload none s = (none, s)
  handle_questions now payload (some questions) s =
      pack_or_exchange payload (handle_configured_mobile_dns env.mobile now questions s)

  unfoldable pub handle_dns_query_packet : ℕ → Bytes → MobileState → Option Bytes × MobileState
  unfolding handle_questions
  handle_dns_query_packet now payload s = handle_questions now payload (env.unpack payload) s
