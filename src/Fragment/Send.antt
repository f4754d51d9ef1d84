-- ===== src/Fragment/Send.antt =====
-- internal/fragment.go `sendRecords`: the operations it makes on the connection, in order. The
-- choice of operations does not depend on their outcome, except that the first failure ends the
-- call: the branches build the list of steps, and `perform` makes them one after another.
-- `sendWithOOB` (a send with MSG_OOB) and `waitForAck` are operations of the platform here.
use lumine_android.Fragment.Split.{find_last_dot_or_mid_pos, split_and_append, record_header_len}
use lumine_android.Prelude.{
  Bool, Bytes, List, Option, [], concat, drop, false, get_elem?, if◌then◌else◌, leb, length, ltb,
  negsuc, none, pos, set, slice, some, suc, take, true, zero, ℕ, ℤ, ◌&&◌, ◌*◌, ◌++◌, ◌+◌, ◌-ℤ◌, ◌-◌,
  ◌/◌, ◌==ℤ◌, ◌==◌, ◌||◌, ◌∷◌,
}

-- `await enabled interval` is `waitForAck`; `panic` stands for a run-time panic of the source.
pub data Operation : Type 0 where
  write : Bytes → Operation
  send_with_oob : Bytes → ℕ → Operation
  await : Bool → ℤ → Operation
  panic : Operation

-- The texts that the errors are wrapped with. `bare` returns the error as it is.
pub data Label : Type 0 where
  oob_1 oob_2 oob_first remaining bare : Label
  write_packet write_record write_segment : ℕ → Label

pub record Step : Type 0 where
  pub operation : Operation
  pub label : Label

abbrev pub step : Operation → Label → Step
step o l = record { operation = o; label = l }

abbrev pub panics : List Step
panics = step panic bare ∷ []

-- The arguments that `sendRecords` passes on unchanged.
pub record Options : Type 0 where
  pub oob : Bool
  pub oobex : Bool
  pub wait_enabled : Bool
  pub interval : ℤ

abbrev pub wait_step : Options → Step
wait_step o = step (await o.wait_enabled o.interval) bare

-- The first 35 bytes with two urgent bytes: byte 15 itself, and a zero after byte 34.
unfoldable pub oob_steps : Options → Bytes → List Step
oob_steps o bytes =
    step (send_with_oob (take 15 bytes) (elim (get_elem? bytes 15) [ none ↦ 0 | some b ↦ b ])) oob_1
    ∷ step (send_with_oob (slice bytes 16 35) 0) oob_2
    ∷ wait_step o
    ∷ []

-- `for i, packet := range packets`, and the loop over the segments of `merged`.
unfoldable pub send_parts : Options → (ℕ → Label) → ℕ → List Bytes → List Step
send_parts o label i [] = []
send_parts o label i (packet ∷ packets) =
    (if i == 0 && o.oob
      then step (send_with_oob packet 0) oob_first
      else step (write packet) (label (i + 1)))
    ∷ wait_step o
    ∷ send_parts o label (i + 1) packets

-- `findLastDotOrMidPos(clientHello, offset, length)`; `none` is the slice that panics.
unfoldable pub find_cut : Bytes → ℤ → ℕ → Option ℕ
unfolding find_last_dot_or_mid_pos
find_cut hello (negsuc offset) len = none
find_cut hello (pos offset) len =
    if leb (offset + len) (length hello)
    then some (find_last_dot_or_mid_pos hello offset len)
    else none

-- `make([][]byte, 0, segments)` panics at a negative capacity.
unfoldable pub segment_steps : Options → Bytes → ℤ → ℕ → ℤ → List Step
unfolding find_cut split_and_append send_parts
segment_steps o hello offset len (negsuc segments) = panics
segment_steps o hello offset len (pos segments) =
    let left = segments / 2 in
    elim (find_cut hello offset len) [
      | none ↦ panics
      | some cut ↦ send_parts o write_packet 0 (
          split_and_append (take cut hello) none left
          ++ split_and_append (drop cut hello) none (segments - left))
    ]

-- The branch `records == 1` behind the urgent bytes.
unfoldable pub single_rest : Options → Bytes → ℤ → ℕ → ℤ → List Step
unfolding segment_steps
single_rest o hello offset len segments =
    if segments ==ℤ pos 1
    then step (write hello) remaining ∷ []
    else segment_steps o hello offset len segments

unfoldable pub single_record : Options → Bytes → ℤ → ℕ → ℤ → List Step
unfolding oob_steps single_rest
single_record o hello offset len segments =
    if o.oobex && leb 35 (length hello)
    then oob_steps o hello ++ single_rest o (drop 35 hello) (offset -ℤ pos 35) len segments
    else single_rest o hello offset len segments

-- One operation of the branch `segments == -1`, which writes record by record.
unfoldable pub chunk_step : Options → ℕ → Bytes → Step
chunk_step o i chunk =
    let l = length chunk in
    if i == 0
    then (if o.oob
        then step (send_with_oob chunk 0) oob_first
        else if o.oobex && ltb 0 l
        then step
            (send_with_oob (take (l - 1) chunk)
              (elim (get_elem? chunk (l - 1)) [ none ↦ 0 | some b ↦ b ]))
            oob_1
        else step (write chunk) (write_record 1))
    else if i == 1 && o.oobex
    then step (send_with_oob chunk 0) oob_2
    else step (write chunk) (write_record (i + 1))

unfoldable pub chunk_steps : Options → ℕ → List Bytes → List Step
unfolding chunk_step
chunk_steps o i [] = []
chunk_steps o i (chunk ∷ chunks) = chunk_step o i chunk ∷ wait_step o ∷ chunk_steps o (i + 1) chunks

-- The segments of `merged`: `base` bytes each, the last one up to the end.
unfoldable pub cut_segments : Bytes → ℕ → ℕ → ℕ → List Bytes
cut_segments merged base i zero = []
cut_segments merged base i (suc zero) = drop (i * base) merged ∷ []
cut_segments merged base i (suc (suc left)) =
    slice merged (i * base) (i * base + base) ∷ cut_segments merged base (i + 1) (suc left)

-- A negative count makes no round of the loop (`range` of a negative number).
unfoldable pub merged_rest : Options → Bytes → ℤ → List Step
unfolding send_parts cut_segments
merged_rest o merged (negsuc segments) = []
merged_rest o merged (pos segments) =
    if segments == 1 || leb (length merged) segments
    then step (write merged) bare ∷ []
    else send_parts o write_segment 0 (cut_segments merged (length merged / segments) 0 segments)

unfoldable pub merged_steps : Options → Bytes → ℤ → List Step
unfolding oob_steps merged_rest
merged_steps o merged segments =
    if o.oobex && leb 35 (length merged)
    then oob_steps o merged ++ merged_rest o (drop 35 merged) segments
    else merged_rest o merged segments

-- The chunks of the branch with several records.
unfoldable pub record_chunks : Bytes → ℕ → ℕ → List Bytes
unfolding split_and_append
record_chunks hello cut records =
    let left = records / 2 in
    let header = take 3 hello in
    split_and_append (slice hello record_header_len cut) (some header) left
    ++ split_and_append (drop cut hello) (some header) (records - left)

unfoldable pub several_records : Options → Bytes → ℤ → ℕ → ℕ → ℤ → List Step
unfolding find_cut record_chunks chunk_steps merged_steps
several_records o hello offset len records segments = elim (find_cut hello offset len) [
  | none ↦ panics
  | some cut ↦
      if ltb cut record_header_len
      then panics
      else if segments ==ℤ negsuc 0
      then chunk_steps o 0 (record_chunks hello cut records)
      else merged_steps o (concat (record_chunks hello cut records)) segments
]

-- A count of 0 means 1.
abbrev pub at_least_one : ℤ → ℤ
at_least_one n = if n ==ℤ pos 0 then pos 1 else n

-- `if modMinorVer { clientHello[2] = 0x4 }`
abbrev pub mod_minor : Bool → Bytes → Bytes
mod_minor true hello = set hello 2 4
mod_minor false hello = hello

unfoldable pub dispatch_records : Options → Bytes → ℤ → ℕ → ℤ → ℤ → List Step
unfolding single_record several_records
dispatch_records o hello offset len (negsuc records) segments = panics
dispatch_records o hello offset len (pos records) segments =
    if records == 1
    then single_record o hello offset len segments
    else several_records o hello offset len records segments

unfoldable pub send_records : Options → Bytes → ℤ → ℕ → ℤ → ℤ → Bool → List Step
unfolding dispatch_records
send_records o hello offset len records segments mod_minor_ver =
    if mod_minor_ver && ltb (length hello) 3
    then panics
    else dispatch_records o (mod_minor mod_minor_ver hello) offset len (at_least_one records)
        (at_least_one segments)

pub data SendResult : Type 0 where
  done panicked : SendResult
  failed : Label → SendResult

-- Whether the k-th operation succeeds is up to the connection. The steps made, the failing one
-- included, and how the call ends.
unfoldable pub perform : (ℕ → Bool) → ℕ → List Step → List Step × SendResult
perform succeeds k [] = ([], done)
perform succeeds k (s ∷ rest) =
    let after = perform succeeds (suc k) rest in
    elim s.operation [
      | panic ↦ ([], panicked)
      | _ ↦ if succeeds k then (s ∷ after.0, after.1) else (s ∷ [], failed s.label)
    ]
