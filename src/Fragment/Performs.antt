-- ===== src/Fragment/Performs.antt =====
-- internal/fragment.go `sendRecords`: each part of it with its error returns (`Direct`) against the
-- steps of that part (`Send`).
use lumine_android.Fragment.Carried.{is_panic}
use lumine_android.Fragment.Delivery.{perform-cons}
use lumine_android.Fragment.Direct.{
  Ended, Log, await_ack, crash, return_nil, run_chunks, run_merged, run_merged_rest, run_oob,
  run_or_return, run_parts, run_segments, run_single, run_single_rest,
}
use lumine_android.Fragment.Send.{
  Label, Operation, Options, Step, await, bare, chunk_step, chunk_steps, find_cut, merged_rest,
  merged_steps, oob_steps, panics, perform, segment_steps, send_parts, single_record, single_rest,
  step, wait_step, write_packet, write_record, write_segment, remaining, oob_1, oob_2, oob_first,
  send_with_oob, write,
}
use lumine_android.Prelude.{
  Bool, Bool-cases, Bytes, List, Option-cases, [], append-nil, append_assoc, arith, drop, false,
  inl, inr, leb, length, length-append, ltb, map, negsuc, pos, refl, suc, ℕ, ℤ, ◌&&◌, ◌++◌, ◌+◌,
  ◌-ℤ◌, ◌==ℤ◌, ◌==◌, ◌||◌, ◌∷◌, ◌≡◌,
}

-- How a call ends that makes these steps after the operations of `log`, one after another.
abbrev pub after_log : (ℕ → Bool) → List Step → Log → Ended
after_log succeeds steps log =
    let made = perform succeeds (length log) steps in (made.1, log ++ map (λ s. s.operation) made.0)

-- The call does what making these steps one after another does.
abbrev pub Performs : (ℕ → Bool) → List Step → (Log → Ended) → Type 0
Performs succeeds steps call = (log : Log) → call log ≡ after_log succeeds steps log

module _ (succeeds : ℕ → Bool) where
  pub return_nil-Performs : Performs succeeds [] (return_nil succeeds)
  unfolding perform
  return_nil-Performs log = rw (append-nil log) refl

  pub crash-Performs : Performs succeeds panics (crash succeeds)
  unfolding perform
  crash-Performs log = rw (append-nil log) refl

  pub run_or_return-Performs :
      (operation : Operation) (label : Label) (rest : List Step) {next : Log → Ended}
      → is_panic operation ≡ false
      → Performs succeeds rest next
      → Performs succeeds
          (step operation label ∷ rest)
          (run_or_return succeeds operation label next)
  run_or_return-Performs operation label rest {next} p h log =
      elim (Bool-cases (succeeds (length log))) [
        | inl good ↦
            let e = perform-cons succeeds (length log) (step operation label) rest in
            let n : length (log ++ operation ∷ []) ≡ suc (length log) =
              omega (arith, length-append log (operation ∷ [])) in
            let m = h (log ++ operation ∷ []) in
            rw (e, p, good, m, n, append_assoc log (operation ∷ [])) refl
        | inr bad ↦ rw (perform-cons succeeds (length log) (step operation label) rest, p, bad) refl
      ]

  await_ack-Performs :
      (o : Options) (rest : List Step) {next : Log → Ended}
      → Performs succeeds rest next
      → Performs succeeds (wait_step o ∷ rest) (await_ack succeeds o next)
  await_ack-Performs o rest h =
      run_or_return-Performs (await o.wait_enabled o.interval) bare rest refl h

  run_oob-Performs :
      (o : Options) (bytes : Bytes) (rest : List Step) {next : Log → Ended}
      → Performs succeeds rest next
      → Performs succeeds (oob_steps o bytes ++ rest) (run_oob succeeds o bytes next)
  unfolding run_oob oob_steps
  run_oob-Performs o bytes rest h =
      run_or_return-Performs _ oob_1 _ refl
        (run_or_return-Performs _ oob_2 _ refl (await_ack-Performs o rest h))

  run_parts-Performs :
      (o : Options) (label : ℕ → Label) (i : ℕ) (packets : List Bytes)
      → Performs succeeds (send_parts o label i packets) (run_parts succeeds o label i packets)
  unfolding run_parts send_parts
  run_parts-Performs o label i [] log = return_nil-Performs log
  run_parts-Performs o label i (packet ∷ packets) log =
      let rest = await_ack-Performs o _ (run_parts-Performs o label (i + 1) packets) in
      elim (Bool-cases (i == 0 && o.oob)) [
        | inl first ↦
            rw first (run_or_return-Performs (send_with_oob packet 0) oob_first _ refl rest log)
        | inr other ↦
            rw other (run_or_return-Performs (write packet) (label (i + 1)) _ refl rest log)
      ]

  run_segments-Performs :
      (o : Options) (hello : Bytes) (offset : ℤ) (len : ℕ) (segments : ℤ)
      → Performs succeeds
          (segment_steps o hello offset len segments)
          (run_segments succeeds o hello offset len segments)
  unfolding run_segments segment_steps
  run_segments-Performs o hello offset len (negsuc segments) log = crash-Performs log
  run_segments-Performs o hello offset len (pos segments) log =
      elim (Option-cases (find_cut hello offset len)) [
        | inl e ↦ rw (e, run_segments, segment_steps) (crash-Performs log)
        | inr (cut, e) ↦
            rw (e, run_segments, segment_steps) (run_parts-Performs o write_packet 0 _ log)
      ]

  run_single_rest-Performs :
      (o : Options) (hello : Bytes) (offset : ℤ) (len : ℕ) (segments : ℤ)
      → Performs succeeds
          (single_rest o hello offset len segments)
          (run_single_rest succeeds o hello offset len segments)
  unfolding run_single_rest single_rest
  run_single_rest-Performs o hello offset len segments log =
      elim (Bool-cases (segments ==ℤ pos 1)) [
        | inl e ↦
            rw e (run_or_return-Performs (write hello) remaining [] refl return_nil-Performs log)
        | inr e ↦ rw e (run_segments-Performs o hello offset len segments log)
      ]

  pub run_single-Performs :
      (o : Options) (hello : Bytes) (offset : ℤ) (len : ℕ) (segments : ℤ)
      → Performs succeeds
          (single_record o hello offset len segments)
          (run_single succeeds o hello offset len segments)
  unfolding run_single single_record
  run_single-Performs o hello offset len segments log =
      elim (Bool-cases (o.oobex && leb 35 (length hello))) [
        | inl e ↦ rw e (
            run_oob-Performs o hello _
              (run_single_rest-Performs o (drop 35 hello) (offset -ℤ pos 35) len segments) log)
        | inr e ↦ rw e (run_single_rest-Performs o hello offset len segments log)
      ]

  pub run_chunks-Performs :
      (o : Options) (i : ℕ) (chunks : List Bytes)
      → Performs succeeds (chunk_steps o i chunks) (run_chunks succeeds o i chunks)
  unfolding run_chunks chunk_steps chunk_step
  run_chunks-Performs o i [] log = return_nil-Performs log
  run_chunks-Performs o i (chunk ∷ chunks) log =
      let rest = await_ack-Performs o _ (run_chunks-Performs o (i + 1) chunks) in
      elim (Bool-cases (i == 0)) [
        | inl e ↦ elim (Bool-cases o.oob) [
          | inl e2 ↦ rw (e, e2) (run_or_return-Performs _ oob_first _ refl rest log)
          | inr e2 ↦ elim (Bool-cases (o.oobex && ltb 0 (length chunk))) [
            | inl e3 ↦ rw (e, e2, e3) (run_or_return-Performs _ oob_1 _ refl rest log)
            | inr e3 ↦ rw (e, e2, e3) (run_or_return-Performs _ (write_record 1) _ refl rest log)
          ]
        ]
        | inr e ↦ elim (Bool-cases (i == 1 && o.oobex)) [
          | inl e2 ↦ rw (e, e2) (run_or_return-Performs _ oob_2 _ refl rest log)
          | inr e2 ↦ rw (e, e2) (run_or_return-Performs _ (write_record (i + 1)) _ refl rest log)
        ]
      ]

  run_merged_rest-Performs :
      (o : Options) (merged : Bytes) (segments : ℤ)
      → Performs succeeds
          (merged_rest o merged segments)
          (run_merged_rest succeeds o merged segments)
  unfolding run_merged_rest merged_rest
  run_merged_rest-Performs o merged (negsuc segments) log = return_nil-Performs log
  run_merged_rest-Performs o merged (pos segments) log =
      elim (Bool-cases (segments == 1 || leb (length merged) segments)) [
        | inl e ↦ rw e (run_or_return-Performs (write merged) bare [] refl return_nil-Performs log)
        | inr e ↦ rw e (run_parts-Performs o write_segment 0 _ log)
      ]

  pub run_merged-Performs :
      (o : Options) (merged : Bytes) (segments : ℤ)
      → Performs succeeds (merged_steps o merged segments) (run_merged succeeds o merged segments)
  unfolding run_merged merged_steps
  run_merged-Performs o merged segments log =
      elim (Bool-cases (o.oobex && leb 35 (length merged))) [
        | inl e ↦
            rw e (
              run_oob-Performs o merged _ (run_merged_rest-Performs o (drop 35 merged) segments)
                log)
        | inr e ↦ rw e (run_merged_rest-Performs o merged segments log)
      ]
