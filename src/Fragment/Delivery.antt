-- ===== src/Fragment/Delivery.antt =====
-- internal/fragment.go `sendRecords`: what arrives of a message, and what `perform` leaves when a
-- step fails.
use lumine_android.Fragment.Records.{read_payload, read_payload-hello}
use lumine_android.Fragment.Send.{
  Options, Step, at_least_one, dispatch_records, done, mod_minor, perform, record_chunks,
  send_records, several_records, Label, chunk_steps, failed, merged_steps, panicked, oob_steps,
  segment_steps, single_record, single_rest,
}
use lumine_android.Fragment.Carried.{
  Carries, contents, is_safe, single_record-Carries, chunk_steps-Carries, find_cut-InRange,
  merged_steps-Carries, is_panic,
}
use lumine_android.Prelude.{
  Bool, Bool-cases, Bytes, List, [], ap, arith, concat, drop, drop-set, false, if◌then◌else◌, inl,
  inr, length, length-set, ltb-false, negsuc, pos, refl, some, suc, take, true, zero, ℕ, ℤ, ◌++◌,
  ◌+◌, ◌<◌, ◌==ℤ◌, ◌==◌, ◌∷◌, ◌≡◌, ◌≢◌, ◌≤ℤ◌, ◌≤◌,
}

perform_all :
    (k : ℕ) (steps : List Step) → is_safe steps ≡ true → perform (λ _. true) k steps ≡ (steps, done)
unfolding perform is_safe
perform_all k [] h = refl
perform_all k (s ∷ steps) h = ground (arith, perform_all (suc k) steps)

-- The count that an argument of 0 or more comes to.
abbrev positive : ℕ → ℕ
positive zero = 1
positive (suc n) = suc n

positive_one : (n : ℕ) → n ≤ 1 → positive n ≡ 1
positive_one zero _ = refl
positive_one (suc n) k = omega arith

at_least_one-pos : (n : ℕ) → at_least_one (pos n) ≡ pos (positive n)
at_least_one-pos zero = refl
at_least_one-pos (suc n) = ground arith

length-mod_minor : (minor : Bool) (hello : Bytes) → length (mod_minor minor hello) ≡ length hello
length-mod_minor true hello = length-set hello 2 4
length-mod_minor false hello = refl

send_records-dispatch :
    (o : Options) (hello : Bytes) (offset : ℤ) (len : ℕ) (records segments : ℤ) (minor : Bool)
    → 3 ≤ length hello
    → send_records o hello offset len records segments minor
      ≡ dispatch_records o
          (mod_minor minor hello)
          offset
          len
          (at_least_one records)
          (at_least_one segments)
unfolding send_records
send_records-dispatch o hello offset len records segments true h = rw (ltb-false (length hello) 3 h)
send_records-dispatch o hello offset len records segments false h = refl

-- At most one record, for a name that starts at byte 35 or later and ends in the data: on a
-- connection that takes everything the call ends well, and what it sends carries the ClientHello
-- with its minor version changed if that was asked for, whatever the urgent-byte options and the
-- number of segments, from 0 on, are.
pub send_records-single :
    (o : Options) (hello : Bytes) (offset len records segments : ℕ) (minor : Bool)
    → 35 ≤ offset
    → offset + len ≤ length hello
    → records ≤ 1
    → let steps = send_records o hello (pos offset) len (pos records) (pos segments) minor in
      (perform (λ _. true) 0 steps ≡ (steps, done)) × (contents steps ≡ mod_minor minor hello)
unfolding dispatch_records
send_records-single o hello offset len records segments minor far h one =
    let e =
      send_records-dispatch o hello (pos offset) len (pos records) (pos segments) minor
        (omega arith) in
    let r : positive records ≡ 1 = positive_one records one in
    let c =
      single_record-Carries o (mod_minor minor hello) offset len (positive segments) far
        (omega (arith, length-mod_minor minor hello)) (positive_ne segments) in
    rw (e, at_least_one-pos records, at_least_one-pos segments, r)
      (perform_all 0 _ c.safe, c.carried)
  where
    positive_ne : (n : ℕ) → positive n ≢ 0
    positive_ne zero = omega arith
    positive_ne (suc n) = omega arith

-- The steps of several records, for the counts of segments that a policy may hold.
several_records-Carries :
    (o : Options) (hello : Bytes) (offset len records : ℕ) (segments : ℤ)
    → 35 ≤ offset
    → offset + len ≤ length hello
    → negsuc 0 ≤ℤ segments
    → segments ≢ pos 0
    → (cut : ℕ) × (5 ≤ cut)
      × Carries
          (several_records o hello (pos offset) len records segments)
          (concat (record_chunks hello cut records))
unfolding several_records
several_records-Carries o hello offset len records segments far h low ne =
    let (cut, found, above) = find_cut-InRange hello offset len h in
    let chunks = record_chunks hello cut records in
    (
      cut,
      omega arith,
      rw (found, several_records, ltb-false cut 5 (omega arith)) (rest segments chunks low ne),
    )
  where
    rest :
        (n : ℤ) (chunks : List Bytes)
        → negsuc 0 ≤ℤ n
        → n ≢ pos 0
        → Carries
            (if n ==ℤ negsuc 0 then chunk_steps o 0 chunks else merged_steps o (concat chunks) n)
            (concat chunks)
    rest (pos zero) chunks l e = absurd (e refl)
    rest (pos (suc n)) chunks l e = merged_steps-Carries o (concat chunks) (suc n) (omega arith)
    rest (negsuc zero) chunks l e = chunk_steps-Carries o 0 chunks
    rest (negsuc (suc n)) chunks l e = absurd (omega arith)

at_least_one-low : (n : ℤ) → negsuc 0 ≤ℤ n → negsuc 0 ≤ℤ at_least_one n
at_least_one-low n h = ground arith

at_least_one-ne : (n : ℤ) → at_least_one n ≢ pos 0
at_least_one-ne n = ground arith

drop-mod_minor : (minor : Bool) (hello : Bytes) → drop 5 (mod_minor minor hello) ≡ drop 5 hello
drop-mod_minor true hello = drop-set hello 2 5 4 (omega arith)
drop-mod_minor false hello = refl

dispatch_several :
    (o : Options) (hello : Bytes) (offset : ℤ) (len records : ℕ) (segments : ℤ)
    → 2 ≤ records
    → dispatch_records o hello offset len (at_least_one (pos records)) (at_least_one segments)
      ≡ several_records o hello offset len records (at_least_one segments)
unfolding dispatch_records
dispatch_several o hello offset len zero segments two = absurd (omega arith)
dispatch_several o hello offset len (suc zero) segments two = absurd (omega arith)
dispatch_several o hello offset len (suc (suc n)) segments two =
    let e : (suc (suc n) == 1) ≡ false = ground arith in
    rw (at_least_one-pos (suc (suc n)), dispatch_records, e)

-- Two records or more, for fewer than 65541 bytes with a name that starts at byte 35 or later and
-- ends in them, and a number of segments of -1 or more: on a connection that takes everything the
-- call ends well, and what it sends is a stream of at most that many TLS records, each with the
-- first three bytes of the (changed) ClientHello record, whose payloads put together are the
-- payload of the ClientHello.
pub send_records-several :
    (o : Options) (hello : Bytes) (offset len records : ℕ) (segments : ℤ) (minor : Bool)
    → 35 ≤ offset
    → offset + len ≤ length hello
    → length hello < 65541
    → 2 ≤ records
    → negsuc 0 ≤ℤ segments
    → let steps = send_records o hello (pos offset) len (pos records) segments minor in
      (perform (λ _. true) 0 steps ≡ (steps, done))
      × (read_payload (take 3 (mod_minor minor hello)) records (contents steps)
          ≡ some (drop 5 hello))
unfolding dispatch_records
send_records-several o hello offset len records segments minor far h small two low =
    let m = mod_minor minor hello in
    let same : length m ≡ length hello = length-mod_minor minor hello in
    let e =
      send_records-dispatch o hello (pos offset) len (pos records) segments minor (omega arith) in
    let (cut, five, c) =
      several_records-Carries o m offset len records (at_least_one segments) far (omega arith)
        (at_least_one-low segments low) (at_least_one-ne segments) in
    rw (e, dispatch_several o m (pos offset) len records segments two)
      (
        perform_all 0 _ c.safe,
        rw (c.carried, ← drop-mod_minor minor hello)
            (read_payload-hello m cut records two five (omega arith) (omega arith)),
      )

pub perform-cons :
    (succeeds : ℕ → Bool) (k : ℕ) (s : Step) (rest : List Step)
    → perform succeeds k (s ∷ rest) ≡ (
        if is_panic s.operation
        then ([], panicked)
        else if succeeds k
        then (s ∷ (perform succeeds (suc k) rest).0, (perform succeeds (suc k) rest).1)
        else (s ∷ [], failed s.label))
unfolding perform
perform-cons succeeds k s rest = ground arith

later :
    (succeeds : ℕ → Bool) (k n : ℕ) → succeeds (suc k + n) ≡ false → succeeds (k + suc n) ≡ false
later succeeds k n h = let e : k + suc n ≡ suc k + n = omega arith in rw e h

later_none : (succeeds : ℕ → Bool) (k : ℕ) → succeeds k ≡ false → succeeds (k + 0) ≡ false
later_none succeeds k h = let e : k + 0 ≡ k = omega arith in rw e h

succeeds_below :
    (succeeds : ℕ → Bool) (k n : ℕ)
    → succeeds k ≡ true
    → ((i : ℕ) → i < n → succeeds (suc k + i) ≡ true)
    → (i : ℕ) → i < suc n
    → succeeds (k + i) ≡ true
succeeds_below succeeds k n h others zero lt = let e : k + 0 ≡ k = omega arith in rw e h
succeeds_below succeeds k n h others (suc i) lt =
    let e : k + suc i ≡ suc k + i = omega arith in rw e (others i (omega arith))

-- A call that fails with the error of `label` has made the steps up to one with that label: those
-- before it succeeded, it failed, and none of the later ones was made.
pub perform-failed :
    (succeeds : ℕ → Bool) (k : ℕ) (steps : List Step) (label : Label)
    → (perform succeeds k steps).1 ≡ failed label
    → (before after : List Step) × (last : Step) × ((perform succeeds k steps).0
        ≡ before ++ last ∷ [])
      × (steps ≡ before ++ last ∷ after)
      × (last.label ≡ label)
      × (succeeds (k + length before) ≡ false)
      × ((i : ℕ) → i < length before → succeeds (k + i) ≡ true)
unfolding perform
perform-failed succeeds k [] label h = cc
perform-failed succeeds k (s ∷ rest) label h = elim (Bool-cases (is_panic s.operation)) [
  | inl p ↦ let e : panicked ≡ failed label = rw (perform-cons succeeds k s rest, p) at h in cc
  | inr p ↦ elim (Bool-cases (succeeds k)) [
    | inl good ↦
        let e : perform succeeds k (s ∷ rest)
            ≡ (s ∷ (perform succeeds (suc k) rest).0, (perform succeeds (suc k) rest).1) =
          rw (perform-cons succeeds k s rest, p, good) in
        let (before, after, last, made, whole, named, bad, others) =
          perform-failed succeeds (suc k) rest label (rw e at h) in
        (
          s ∷ before,
          after,
          last,
          rw e (ap (◌∷◌ s) made),
          ap (◌∷◌ s) whole,
          named,
          later succeeds k (length before) bad,
          succeeds_below succeeds k (length before) good others,
        )
    | inr bad ↦
        let e : perform succeeds k (s ∷ rest) ≡ (s ∷ [], failed s.label) =
          rw (perform-cons succeeds k s rest, p, bad) in
        let named : failed s.label ≡ failed label = rw e at h in
        ([], rest, s, rw e, refl, cc, later_none succeeds k bad, λ i lt. elim lt [ ])
  ]
]

-- `num_segs: -1` (a segment for each record) with at most one record: on a connection that takes
-- everything the call panics, for every message of three bytes or more and all other options.
pub send_records-panics :
    (o : Options) (hello : Bytes) (offset : ℤ) (len records : ℕ) (minor : Bool)
    → 3 ≤ length hello
    → records ≤ 1
    → (perform (λ _. true) 0 (send_records o hello offset len (pos records) (negsuc 0) minor)).1
      ≡ panicked
unfolding dispatch_records single_record single_rest segment_steps oob_steps perform
send_records-panics o hello offset len records minor h one =
    let e = send_records-dispatch o hello offset len (pos records) (negsuc 0) minor h in
    let r : positive records ≡ 1 = positive_one records one in
    rw (e, at_least_one-pos records, r) (ground arith)
