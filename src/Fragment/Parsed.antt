-- ===== src/Fragment/Parsed.antt =====
-- internal/utils.go and internal/fragment.go. `parseClientHello` and `sendRecords` together, as
-- the tunnels call them one after the other.
use mathlib.Core.Path.{subst}
use lumine_android.Fragment.Send.{Options, done, mod_minor, perform, send_records}
use lumine_android.Fragment.Records.{read_payload}
use lumine_android.Fragment.Delivery.{send_records-several}
use lumine_android.Fragment.Carried.{contents}
use lumine_android.Prelude.{
  Bool, Bytes, Result, arith, drop, length, negsuc, ok, ok-injective, pos, some, take, true, ℕ, ℤ,
  ◌+◌, ◌<◌, ◌≡◌, ◌≤ℤ◌, ◌≤◌,
}
use lumine_android.Tls.Parse.{Hello, parse_client_hello, Fault}
use lumine_android.Tls.Bounds.{
  Ensures, NameInside, parse_client_hello-NameInside, name_at, no_name, returns, refuses,
}

Ensures-ok :
    {A : Type 0} {P : A → Type 0} {r : Result Fault A} {a : A} → Ensures P r → r ≡ ok a → P a
Ensures-ok {P} (returns h) e = subst P (ok-injective e) h
Ensures-ok refuses e = cc

NameInside-start :
    (message : Bytes) (h : Hello) (start : ℕ)
    → NameInside message h
    → h.sni_start ≡ pos start
    → (58 ≤ start) × (start + h.sni_len ≤ length message)
NameInside-start message h start (no_name e) at_start = cc
NameInside-start message h start (name_at s e low fits) at_start =
    let same : s ≡ start = cc in (rw (← same) low, rw (← same) fits)

-- A ClientHello record of 5 bytes or more and fewer than 65541 that is parsed with a name, sent as
-- two records or more with a number of segments of -1 or more: on a connection that takes
-- everything nothing fails or panics, and what is sent is a stream of at most that many TLS
-- records, whose payloads put together are the payload of the record that was parsed.
pub parse_client_hello-send_records :
    (o : Options) (message : Bytes) (h : Hello) (start records : ℕ) (segments : ℤ) (minor : Bool)
    → 5 ≤ length message
    → length message < 65541
    → parse_client_hello message ≡ ok h
    → h.sni_start ≡ pos start
    → 2 ≤ records
    → negsuc 0 ≤ℤ segments
    → let steps = send_records o message h.sni_start h.sni_len (pos records) segments minor in
      (perform (λ _. true) 0 steps ≡ (steps, done))
      × (read_payload (take 3 (mod_minor minor message)) records (contents steps)
          ≡ some (drop 5 message))
parse_client_hello-send_records o message h start records segments minor long small parsed at_start
      two low =
    let inside =
      NameInside-start message h start
        (Ensures-ok (parse_client_hello-NameInside message long) parsed) at_start in
    rw at_start (
      send_records-several o message start h.sni_len records segments minor
        (omega (arith, inside.0)) inside.1 small two low)
