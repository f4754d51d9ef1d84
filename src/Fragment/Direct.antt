-- ===== src/Fragment/Direct.antt =====
-- internal/fragment.go `sendRecords` with each of its error returns, statement by statement: an
-- operation whose error is not nil returns it wrapped, and nothing else is done.
use lumine_android.Fragment.Split.{split_and_append, record_header_len}
use lumine_android.Fragment.Send.{
  Operation, write, send_with_oob, await, Label, oob_1, oob_2, oob_first, remaining, bare,
  write_packet, write_record, write_segment, Options, SendResult, done, panicked, failed, find_cut,
  cut_segments, record_chunks, mod_minor, at_least_one,
}
use lumine_android.Prelude.{
  Bool, Bytes, List, [], concat, drop, get_elem?, if◌then◌else◌, leb, length, ltb, negsuc, none,
  pos, slice, some, take, ℕ, ℤ, ◌&&◌, ◌++◌, ◌+◌, ◌-ℤ◌, ◌-◌, ◌/◌, ◌==ℤ◌, ◌==◌, ◌||◌, ◌∷◌,
}

-- The operations made so far.
abbrev pub Log : Type 0
Log = List Operation

abbrev pub Ended : Type 0
Ended = SendResult × Log

module _ (succeeds : ℕ → Bool) where
  -- `if err := operation; err != nil { return E.WithStr(label, err) }`, and what comes behind it.
  -- Whether the k-th operation succeeds is up to the connection.
  abbrev pub run_or_return : Operation → Label → (Log → Ended) → Log → Ended
  run_or_return operation label next log =
      let made = log ++ operation ∷ [] in
      if succeeds (length log) then next made else (failed label, made)

  abbrev pub return_nil : Log → Ended
  return_nil log = (done, log)

  -- A run-time panic of the source.
  abbrev pub crash : Log → Ended
  crash log = (panicked, log)

  abbrev pub await_ack : Options → (Log → Ended) → Log → Ended
  await_ack o next = run_or_return (await o.wait_enabled o.interval) bare next

  abbrev pub urgent_byte : Bytes → ℕ → ℕ
  urgent_byte bytes i = elim (get_elem? bytes i) [ none ↦ 0 | some b ↦ b ]

  -- The first 35 bytes with two urgent bytes.
  unfoldable pub run_oob : Options → Bytes → (Log → Ended) → Log → Ended
  run_oob o bytes next log =
      run_or_return (send_with_oob (take 15 bytes) (urgent_byte bytes 15)) oob_1
        (run_or_return (send_with_oob (slice bytes 16 35) 0) oob_2 (await_ack o next)) log

  -- The loops over the packets and over the segments of `merged`.
  unfoldable pub run_parts : Options → (ℕ → Label) → ℕ → List Bytes → Log → Ended
  run_parts o label i [] log = return_nil log
  run_parts o label i (packet ∷ packets) log =
      let rest = await_ack o (run_parts o label (i + 1) packets) in
      if i == 0 && o.oob
      then run_or_return (send_with_oob packet 0) oob_first rest log
      else run_or_return (write packet) (label (i + 1)) rest log

  unfoldable pub run_segments : Options → Bytes → ℤ → ℕ → ℤ → Log → Ended
  unfolding find_cut split_and_append run_parts
  run_segments o hello offset len (negsuc segments) log = crash log
  run_segments o hello offset len (pos segments) log =
      let left = segments / 2 in
      elim (find_cut hello offset len) [
        | none ↦ crash log
        | some cut ↦
            run_parts o write_packet 0
              (split_and_append (take cut hello) none left
                ++ split_and_append (drop cut hello) none (segments - left))
              log
      ]

  unfoldable pub run_single_rest : Options → Bytes → ℤ → ℕ → ℤ → Log → Ended
  unfolding run_segments
  run_single_rest o hello offset len segments log =
      if segments ==ℤ pos 1
      then run_or_return (write hello) remaining return_nil log
      else run_segments o hello offset len segments log

  unfoldable pub run_single : Options → Bytes → ℤ → ℕ → ℤ → Log → Ended
  unfolding run_oob run_single_rest
  run_single o hello offset len segments log =
      if o.oobex && leb 35 (length hello)
      then run_oob o hello (run_single_rest o (drop 35 hello) (offset -ℤ pos 35) len segments) log
      else run_single_rest o hello offset len segments log

  -- The branch `segments == -1`, record by record.
  unfoldable pub run_chunks : Options → ℕ → List Bytes → Log → Ended
  run_chunks o i [] log = return_nil log
  run_chunks o i (chunk ∷ chunks) log =
      let rest = await_ack o (run_chunks o (i + 1) chunks) in
      let l = length chunk in
      if i == 0
      then (if o.oob
          then run_or_return (send_with_oob chunk 0) oob_first rest log
          else if o.oobex && ltb 0 l
          then run_or_return (send_with_oob (take (l - 1) chunk) (urgent_byte chunk (l - 1))) oob_1
              rest log
          else run_or_return (write chunk) (write_record 1) rest log)
      else if i == 1 && o.oobex
      then run_or_return (send_with_oob chunk 0) oob_2 rest log
      else run_or_return (write chunk) (write_record (i + 1)) rest log

  -- A negative count makes no round of the loop.
  unfoldable pub run_merged_rest : Options → Bytes → ℤ → Log → Ended
  unfolding run_parts cut_segments
  run_merged_rest o merged (negsuc segments) log = return_nil log
  run_merged_rest o merged (pos segments) log =
      if segments == 1 || leb (length merged) segments
      then run_or_return (write merged) bare return_nil log
      else run_parts o write_segment 0 (cut_segments merged (length merged / segments) 0 segments)
          log

  unfoldable pub run_merged : Options → Bytes → ℤ → Log → Ended
  unfolding run_oob run_merged_rest
  run_merged o merged segments log =
      if o.oobex && leb 35 (length merged)
      then run_oob o merged (run_merged_rest o (drop 35 merged) segments) log
      else run_merged_rest o merged segments log

  unfoldable pub run_several : Options → Bytes → ℤ → ℕ → ℕ → ℤ → Log → Ended
  unfolding find_cut record_chunks run_chunks run_merged
  run_several o hello offset len records segments log = elim (find_cut hello offset len) [
    | none ↦ crash log
    | some cut ↦
        if ltb cut record_header_len
        then crash log
        else if segments ==ℤ negsuc 0
        then run_chunks o 0 (record_chunks hello cut records) log
        else run_merged o (concat (record_chunks hello cut records)) segments log
  ]

  unfoldable pub run_dispatch : Options → Bytes → ℤ → ℕ → ℤ → ℤ → Log → Ended
  unfolding run_single run_several
  run_dispatch o hello offset len (negsuc records) segments log = crash log
  run_dispatch o hello offset len (pos records) segments log =
      if records == 1
      then run_single o hello offset len segments log
      else run_several o hello offset len records segments log

  unfoldable pub run_records : Options → Bytes → ℤ → ℕ → ℤ → ℤ → Bool → Log → Ended
  unfolding run_dispatch
  run_records o hello offset len records segments mod_minor_ver log =
      if mod_minor_ver && ltb (length hello) 3
      then crash log
      else run_dispatch o (mod_minor mod_minor_ver hello) offset len (at_least_one records)
          (at_least_one segments) log
