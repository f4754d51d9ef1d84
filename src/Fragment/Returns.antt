-- ===== src/Fragment/Returns.antt =====
-- internal/fragment.go `sendRecords`: the translation with its error returns (`Direct`) against the
-- steps of `Send`, and what a call that returns an error has done.
use lumine_android.Fragment.Performs.{
  Performs, crash-Performs, run_single-Performs, run_chunks-Performs, run_merged-Performs,
}
use lumine_android.Fragment.Delivery.{perform-failed}
use lumine_android.Fragment.Direct.{run_dispatch, run_records, run_several}
use lumine_android.Fragment.Send.{
  Label, Options, Step, at_least_one, dispatch_records, failed, find_cut, mod_minor, perform,
  send_records, several_records,
}
use lumine_android.Fragment.Split.{record_header_len}
use lumine_android.Prelude.{
  Bool, Bool-cases, Bytes, List, Option-cases, [], arith, false, inl, inr, length, ltb, map, negsuc,
  pos, refl, true, ℕ, ℤ, ◌&&◌, ◌++◌, ◌+◌, ◌<◌, ◌==ℤ◌, ◌==◌, ◌∷◌, ◌≡◌,
}

module _ (succeeds : ℕ → Bool) where
  run_several-Performs :
      (o : Options) (hello : Bytes) (offset : ℤ) (len records : ℕ) (segments : ℤ)
      → Performs succeeds
          (several_records o hello offset len records segments)
          (run_several succeeds o hello offset len records segments)
  unfolding run_several several_records
  run_several-Performs o hello offset len records segments log =
      elim (Option-cases (find_cut hello offset len)) [
        | inl e ↦ rw (e, run_several, several_records) (crash-Performs succeeds log)
        | inr (cut, e) ↦ elim (Bool-cases (ltb cut record_header_len)) [
          | inl e2 ↦ rw (e, run_several, several_records, e2) (crash-Performs succeeds log)
          | inr e2 ↦ elim (Bool-cases (segments ==ℤ negsuc 0)) [
            | inl e3 ↦
                rw (e, run_several, several_records, e2, e3)
                  (run_chunks-Performs succeeds o 0 _ log)
            | inr e3 ↦
                rw (e, run_several, several_records, e2, e3)
                  (run_merged-Performs succeeds o _ segments log)
          ]
        ]
      ]

  run_dispatch-Performs :
      (o : Options) (hello : Bytes) (offset : ℤ) (len : ℕ) (records segments : ℤ)
      → Performs succeeds
          (dispatch_records o hello offset len records segments)
          (run_dispatch succeeds o hello offset len records segments)
  unfolding run_dispatch dispatch_records
  run_dispatch-Performs o hello offset len (negsuc records) segments log =
      crash-Performs succeeds log
  run_dispatch-Performs o hello offset len (pos records) segments log =
      elim (Bool-cases (records == 1)) [
        | inl e ↦ rw e (run_single-Performs succeeds o hello offset len segments log)
        | inr e ↦ rw e (run_several-Performs o hello offset len records segments log)
      ]

  run_records-Performs :
      (o : Options) (hello : Bytes) (offset : ℤ) (len : ℕ) (records segments : ℤ) (minor : Bool)
      → Performs succeeds
          (send_records o hello offset len records segments minor)
          (run_records succeeds o hello offset len records segments minor)
  unfolding run_records send_records
  run_records-Performs o hello offset len records segments minor log =
      elim (Bool-cases (minor && ltb (length hello) 3)) [
        | inl e ↦ rw e (crash-Performs succeeds log)
        | inr e ↦ rw e (
            run_dispatch-Performs o (mod_minor minor hello) offset len (at_least_one records)
              (at_least_one segments) log)
      ]

-- A call of `sendRecords` that makes its operations and returns at each error as the code does
-- ends, for all arguments and all outcomes of the operations, as making the steps of `send_records`
-- one after another up to the first that fails, and it has made the same operations.
pub run_records-perform :
    (succeeds : ℕ → Bool) (o : Options) (hello : Bytes) (offset : ℤ) (len : ℕ)
    (records segments : ℤ) (minor : Bool)
    → let made = perform succeeds 0 (send_records o hello offset len records segments minor) in
      run_records succeeds o hello offset len records segments minor []
      ≡ (made.1, map (λ s. s.operation) made.0)
run_records-perform succeeds o hello offset len records segments minor =
    run_records-Performs succeeds o hello offset len records segments minor []

-- A call of `sendRecords` that returns the error of `label`, for all arguments and all outcomes of
-- the operations: its operations are those of a first part of the steps of `send_records`, of which
-- the last has this label; that one failed, and all before it succeeded.
pub run_records-failed :
    (succeeds : ℕ → Bool) (o : Options) (hello : Bytes) (offset : ℤ) (len : ℕ)
    (records segments : ℤ) (minor : Bool) (label : Label)
    → (run_records succeeds o hello offset len records segments minor []).0 ≡ failed label
    → (before after : List Step) × (last : Step) × ((run_records succeeds o hello offset len records
          segments minor []).1
        ≡ map (λ s. s.operation) (before ++ last ∷ []))
      × (send_records o hello offset len records segments minor ≡ before ++ last ∷ after)
      × (last.label ≡ label)
      × (succeeds (length before) ≡ false)
      × ((i : ℕ) → i < length before → succeeds i ≡ true)
run_records-failed succeeds o hello offset len records segments minor label h =
    let e = run_records-perform succeeds o hello offset len records segments minor in
    let steps = send_records o hello offset len records segments minor in
    let (before, after, last, made, whole, named, bad, others) =
      perform-failed succeeds 0 steps label (rw e at h) in
    let at_0 : (n : ℕ) → 0 + n ≡ n = λ n. omega arith in
    (
      before,
      after,
      last,
      rw (e, made) refl,
      whole,
      named,
      rw (at_0 (length before)) at bad,
      λ i lt. rw (at_0 i) at (others i lt),
    )
