-- ===== src/Tests/Sending.antt =====
-- A ClientHello for `a.bc`, read by `parse_client_hello` and sent by `send_records`.
use lumine_android.Fragment.Parsed.{parse_client_hello-send_records}
use lumine_android.Fragment.Carried.{contents}
use lumine_android.Tls.Parse.{parse_client_hello}
use lumine_android.Tls.Bounds.{Ensures, NameInside, parse_client_hello-NameInside}
use lumine_android.Fragment.Send.{
  Options, Step, bare, mod_minor, send_records, done, panicked, perform,
}
use lumine_android.Fragment.Records.{read_payload}
use lumine_android.Fragment.Direct.{run_records}
use lumine_android.Fragment.Returns.{run_records-failed, run_records-perform}
use lumine_android.Fragment.Delivery.{
  send_records-panics, send_records-several, send_records-single,
}
use lumine_android.Prelude.{
  Bytes, List, [], arith, codes, drop, false, length, map, negsuc, ok, pos, refl, reject, replicate,
  some, take, true, ℕ, ◌++◌, ◌<◌, ◌==◌, ◌∷◌, ◌≡◌,
}

-- Session id, cipher suites and compression methods are short; the one extension is the name.
abbrev hello : Bytes
hello =
    (0x16 ∷ 3 ∷ 1 ∷ 0 ∷ 60 ∷ 1 ∷ 0 ∷ 0 ∷ 56 ∷ 3 ∷ 3 ∷ replicate 32 7)
    ++ ((0 ∷ 0 ∷ 2 ∷ 0x13 ∷ 1 ∷ 1 ∷ 0 ∷ [])
        ++ ((0 ∷ 13 ∷ 0 ∷ 0 ∷ 0 ∷ 9 ∷ 0 ∷ 7 ∷ 0 ∷ 0 ∷ 4 ∷ []) ++ codes "a.bc"))

parsed :
    parse_client_hello hello
    ≡ ok (record {
      prt_ver = 3 ∷ 3 ∷ [];
      sni_start = pos 61;
      sni_len = 4;
      has_key_share = false;
      has_ech = false;
    })
unfolding parse_client_hello reject
parsed = refl

abbrev options : Options
options = record { oob = true; oobex = true; wait_enabled = false; interval = pos 0 }

sent_single :
    (perform (λ _. true) 0 (send_records options hello (pos 61) 4 (pos 1) (pos 3) true)).1 ≡ done
unfolding perform send_records
sent_single = refl

parse_client_hello-NameInside_example : Ensures (NameInside hello) (parse_client_hello hello)
parse_client_hello-NameInside_example = parse_client_hello-NameInside hello (omega arith)

send_records-several_example :
    let steps = send_records options hello (pos 61) 4 (pos 4) (negsuc 0) true in
    (perform (λ _. true) 0 steps ≡ (steps, done))
    × (read_payload (take 3 (mod_minor true hello)) 4 (contents steps) ≡ some (drop 5 hello))
send_records-several_example =
    send_records-several options hello 61 4 4 (negsuc 0) true (omega arith) (omega arith)
      (omega arith) (omega arith) (omega arith)

send_records-single_example :
    let steps = send_records options hello (pos 61) 4 (pos 1) (pos 3) true in
    (perform (λ _. true) 0 steps ≡ (steps, done)) × (contents steps ≡ mod_minor true hello)
send_records-single_example =
    send_records-single options hello 61 4 1 3 true (omega arith) (omega arith) (omega arith)

send_records-panics_example :
    (perform (λ _. true) 0 (send_records options hello (pos 61) 4 (pos 0) (negsuc 0) false)).1
    ≡ panicked
send_records-panics_example =
    send_records-panics options hello (pos 61) 4 0 false (omega arith) (omega arith)

-- The first operation succeeds, which sends a packet with an urgent byte, and the second one, which
-- waits, does not.
run_records-perform_example :
    let made =
      perform (λ k. k == 0) 0 (send_records options hello (pos 61) 4 (pos 4) (negsuc 0) true) in
    run_records (λ k. k == 0) options hello (pos 61) 4 (pos 4) (negsuc 0) true []
    ≡ (made.1, map (λ s. s.operation) made.0)
run_records-perform_example =
    run_records-perform (λ k. k == 0) options hello (pos 61) 4 (pos 4) (negsuc 0) true

run_records-failed_example :
    (before after : List Step) × (last : Step) × ((run_records
        (λ k. k == 0)
        options
        hello
        (pos 61)
        4
        (pos 4)
        (negsuc 0)
        true
        []).1
      ≡ map (λ s. s.operation) (before ++ last ∷ []))
    × (send_records options hello (pos 61) 4 (pos 4) (negsuc 0) true ≡ before ++ last ∷ after)
    × (last.label ≡ bare)
    × ((length before == 0) ≡ false)
    × ((i : ℕ) → i < length before → (i == 0) ≡ true)
unfolding run_records
run_records-failed_example =
    run_records-failed (λ k. k == 0) options hello (pos 61) 4 (pos 4) (negsuc 0) true bare refl

parse_client_hello-send_records_example :
    let steps = send_records options hello (pos 61) 4 (pos 4) (negsuc 0) true in
    (perform (λ _. true) 0 steps ≡ (steps, done))
    × (read_payload (take 3 (mod_minor true hello)) 4 (contents steps) ≡ some (drop 5 hello))
parse_client_hello-send_records_example =
    parse_client_hello-send_records options hello
      (record {
        prt_ver = 3 ∷ 3 ∷ [];
        sni_start = pos 61;
        sni_len = 4;
        has_key_share = false;
        has_ech = false;
      })
      61 4 (negsuc 0) true (omega arith) (omega arith) parsed refl (omega arith) (omega arith)
