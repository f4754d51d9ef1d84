-- ===== src/Fragment/Records.antt =====
-- internal/fragment.go. Reading back a stream of TLS records, as a receiver does, and the records
-- of `sendRecords`.
use lumine_android.Fragment.Pieces.{
  split_and_append-wrap, concat-split_and_append, length-split_and_append,
}
use lumine_android.Fragment.Send.{record_chunks}
use lumine_android.Fragment.Split.{make_record, split_and_append, record_header_len}
use mathlib.Core.Option
use lumine_android.Prelude.{
  Bytes, List, Option, [], arith, bytes_eq, bytes_eq_iff, concat, concat-append, drop, drop-append,
  if◌then◌else◌, leb, length, length-append, length-drop, le→leb, map, map-append, none, refl,
  slice, slice-append-drop, some, suc, sym, take, take-append, true, zero, ℕ, ◌%◌, ◌&&◌, ◌*◌, ◌++◌,
  ◌+◌, ◌-◌, ◌/◌, ◌<◌, ◌∙◌, ◌∷◌, ◌≡◌, ◌≤◌,
}

-- The payload of a stream of records that all start with `header`; `none` if it is no such stream.
-- The fuel bounds the number of records.
unfoldable pub read_payload : Bytes → ℕ → Bytes → Option Bytes
read_payload header fuel [] = some []
read_payload header (suc fuel) (a ∷ b ∷ c ∷ hi ∷ lo ∷ body) =
    let n = hi * 256 + lo in
    let rest = read_payload header fuel (drop n body) in
    if bytes_eq header (a ∷ b ∷ c ∷ []) && leb n (length body)
    then Option.map (λ later. take n body ++ later) rest
    else none
read_payload header _ _ = none

read_payload-make_record :
    (a b c fuel : ℕ) (payload rest : Bytes)
    → length payload < 65536
    → read_payload (a ∷ b ∷ c ∷ []) (suc fuel) (make_record (a ∷ b ∷ c ∷ []) payload ++ rest)
      ≡ Option.map (λ later. payload ++ later) (read_payload (a ∷ b ∷ c ∷ []) fuel rest)
unfolding read_payload make_record
read_payload-make_record a b c fuel payload rest small =
    let n = length payload % 65536 in
    let e : n / 256 * 256 + n % 256 ≡ length payload = omega arith in
    let same : bytes_eq (a ∷ b ∷ c ∷ []) (a ∷ b ∷ c ∷ []) ≡ true =
      (bytes_eq_iff (a ∷ b ∷ c ∷ []) (a ∷ b ∷ c ∷ [])).1 refl in
    let fits : leb (length payload) (length (payload ++ rest)) ≡ true =
      le→leb _ _ (omega (arith, length-append payload rest)) in
    rw (e, same, fits, take-append payload rest, drop-append payload rest)

-- All pieces of a list are shorter than what bounds their concatenation.
pub read_payload-pieces :
    (a b c : ℕ) (pieces : List Bytes) (fuel : ℕ)
    → length pieces ≤ fuel
    → length (concat pieces) < 65536
    → read_payload (a ∷ b ∷ c ∷ []) fuel (concat (map (make_record (a ∷ b ∷ c ∷ [])) pieces))
      ≡ some (concat pieces)
unfolding read_payload
read_payload-pieces a b c [] fuel h small = refl
read_payload-pieces a b c (p ∷ ps) zero h small = elim h [ ]
read_payload-pieces a b c (p ∷ ps) (suc fuel) h small =
    let bound = length-append p (concat ps) in
    read_payload-make_record a b c fuel p (concat (map (make_record (a ∷ b ∷ c ∷ [])) ps))
      (omega arith)
    ∙ rw (read_payload-pieces a b c ps fuel (omega arith) (omega arith))

-- The pieces that the records of the several-record branch carry.
pub record_pieces : Bytes → ℕ → ℕ → List Bytes
record_pieces hello cut records =
    split_and_append (slice hello record_header_len cut) none (records / 2)
    ++ split_and_append (drop cut hello) none (records - records / 2)

pub record_chunks-record_pieces :
    (hello : Bytes) (cut records : ℕ)
    → record_chunks hello cut records
      ≡ map (make_record (take 3 hello)) (record_pieces hello cut records)
unfolding record_chunks record_pieces
record_chunks-record_pieces hello cut records =
    rw
      (
        split_and_append-wrap (slice hello 5 cut) (take 3 hello) (records / 2),
        split_and_append-wrap (drop cut hello) (take 3 hello) (records - records / 2),
      )
      (sym (map-append _ _ _))

pub concat-record_pieces :
    (hello : Bytes) (cut records : ℕ)
    → 2 ≤ records
    → 5 ≤ cut
    → concat (record_pieces hello cut records) ≡ drop 5 hello
unfolding record_pieces
concat-record_pieces hello cut records two five =
    rw
      (
        concat-append (split_and_append (slice hello 5 cut) none (records / 2))
            (split_and_append (drop cut hello) none (records - records / 2)),
        concat-split_and_append (slice hello 5 cut) (records / 2) (omega arith),
        concat-split_and_append (drop cut hello) (records - records / 2) (omega arith),
      )
      (slice-append-drop hello 5 cut five)

pub length-record_pieces :
    (hello : Bytes) (cut records : ℕ) → length (record_pieces hello cut records) ≤ records
unfolding record_pieces
length-record_pieces hello cut records =
    let left = split_and_append (slice hello record_header_len cut) none (records / 2) in
    let right = split_and_append (drop cut hello) none (records - records / 2) in
    let a : length left ≤ records / 2 = length-split_and_append _ _ in
    let b : length right ≤ records - records / 2 = length-split_and_append _ _ in
    omega (arith, length-append left right)

-- The records of a ClientHello read back to its payload.
pub read_payload-record_chunks :
    (a b c : ℕ) (rest : Bytes) (cut records : ℕ)
    → 2 ≤ records
    → 5 ≤ cut
    → length rest < 65538
    → read_payload (a ∷ b ∷ c ∷ []) records (concat (record_chunks (a ∷ b ∷ c ∷ rest) cut records))
      ≡ some (drop 2 rest)
read_payload-record_chunks a b c rest cut records two five small =
    let hello : Bytes = a ∷ b ∷ c ∷ rest in
    let whole = concat-record_pieces hello cut records two five in
    rw (record_chunks-record_pieces hello cut records) (
      read_payload-pieces a b c (record_pieces hello cut records) records
        (length-record_pieces hello cut records) (rw whole (omega (arith, length-drop 2 rest)))
      ∙ rw whole)

pub read_payload-hello :
    (hello : Bytes) (cut records : ℕ)
    → 2 ≤ records
    → 5 ≤ cut
    → 3 ≤ length hello
    → length hello < 65541
    → read_payload (take 3 hello) records (concat (record_chunks hello cut records))
      ≡ some (drop 5 hello)
read_payload-hello (a ∷ b ∷ c ∷ rest) cut records two five h small =
    read_payload-record_chunks a b c rest cut records two five (omega arith)
read_payload-hello _ cut records two five h small = absurd (omega arith)
