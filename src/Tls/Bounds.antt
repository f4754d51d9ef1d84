-- ===== src/Tls/Bounds.antt =====
-- internal/utils.go. `parseClientHello` never reads out of range, ends, and finds a name that lies
-- in the data.
use lumine_android.Tls.Parse.{
  Hello, HelloError, Parsed, byte_at, parse_headers, uint16_at, failed, parse_sni, skip_bytes16,
  skip_bytes8, skip_lists, note_extension, parse_block, parse_client_hello, parse_extension,
  parse_extensions,
}
use lumine_android.Prelude.{
  Bool, Bool-cases, Bytes, arith, err, false, get_elem?_lt, if◌then◌else◌, inl, inr, leb, leb→le,
  length, ltb, ok, pos, refl, reject, suc, true, unset_int, zero, ℕ, ◌&&◌, ◌*◌, ◌+◌, ◌<◌, ◌==ℤ◌,
  ◌==◌, ◌>>=◌, ◌>>◌, ◌≡◌, ◌≤◌,
}

-- The call does not panic or run out of fuel, and what it returns without an error satisfies `P`.
pub data Ensures {A : Type 0} (P : A → Type 0) : Parsed A → Type 0 where
  returns : {a : A} → P a → Ensures P (ok a)
  refuses : {h : Hello} {e : HelloError} → Ensures P (err (failed h e))

Ensures-bind :
    {A B : Type 0} (P : A → Type 0) (Q : B → Type 0) (m : Parsed A) (f : A → Parsed B)
    → Ensures P m
    → ((a : A) → P a → Ensures Q (f a))
    → Ensures Q (m >>= f)
Ensures-bind P Q _ f (returns {a} h) k = k a h
Ensures-bind P Q _ f refuses k = refuses

Ensures-weaken :
    {A : Type 0} (P Q : A → Type 0) (m : Parsed A)
    → ((a : A) → P a → Q a)
    → Ensures P m
    → Ensures Q m
Ensures-weaken P Q _ f (returns {a} h) = returns (f a h)
Ensures-weaken P Q _ f refuses = refuses

Ensures-if :
    {A : Type 0} {P : A → Type 0} (test : Bool) {m n : Parsed A}
    → Ensures P m
    → Ensures P n
    → Ensures P (if test then m else n)
Ensures-if true h k = h
Ensures-if false h k = k

-- What follows a rejected test may use that it failed.
Ensures-reject :
    {B : Type 0} (Q : B → Type 0) (test : Bool) (h : Hello) (e : HelloError) (rest : Parsed B)
    → (test ≡ false → Ensures Q rest)
    → Ensures Q (reject test (failed h e) >> rest)
unfolding reject
Ensures-reject Q true h e rest k = refuses
Ensures-reject Q false h e rest k = k refl

byte_at_lt : (message : Bytes) (i : ℕ) → i < length message → (b : ℕ) × (byte_at message i ≡ ok b)
unfolding byte_at
byte_at_lt message i h = let (b, e) = get_elem?_lt message i h in (b, rw (e, byte_at))

Ensures-byte_at :
    {B : Type 0} (Q : B → Type 0) (message : Bytes) (i : ℕ) (f : ℕ → Parsed B)
    → i < length message
    → ((b : ℕ) → Ensures Q (f b))
    → Ensures Q (byte_at message i >>= f)
Ensures-byte_at Q message i f h k =
    let (b, e) = byte_at_lt message i h in
    Ensures-bind (λ _. Unit {0}) Q (byte_at message i) f (rw e (returns tt)) (λ c _. k c)

uint16_at_lt :
    (message : Bytes) (i : ℕ) → i + 1 < length message → (n : ℕ) × (uint16_at message i ≡ ok n)
unfolding uint16_at
uint16_at_lt message i h =
    let (hi, e) = byte_at_lt message i (omega arith) in
    let (lo, e') = byte_at_lt message (i + 1) h in (hi * 256 + lo, cc)

Ensures-uint16_at :
    {B : Type 0} (Q : B → Type 0) (message : Bytes) (i : ℕ) (f : ℕ → Parsed B)
    → i + 1 < length message
    → ((n : ℕ) → Ensures Q (f n))
    → Ensures Q (uint16_at message i >>= f)
Ensures-uint16_at Q message i f h k =
    let (n, e) = uint16_at_lt message i h in
    Ensures-bind (λ _. Unit {0}) Q (uint16_at message i) f (rw e (returns tt)) (λ c _. k c)

abbrev Behind : Bytes → ℕ → ℕ → Type 0
Behind message low offset = (low ≤ offset) × (offset ≤ length message)

parse_headers-Ensures :
    (message : Bytes)
    → 5 ≤ length message
    → Ensures (λ offset. (offset ≡ 9) × (44 ≤ length message)) (parse_headers message)
unfolding parse_headers
parse_headers-Ensures message h = Ensures-byte_at _ message 0 _ (omega arith) λ t.
    Ensures-reject _ _ _ _ _ λ _. Ensures-byte_at _ message 1 _ (omega arith) λ m.
      Ensures-reject _ _ _ _ _ λ _. Ensures-uint16_at _ message 3 _ (omega arith) λ record_len.
        Ensures-reject _ _ _ _ _ λ fits. Ensures-reject _ _ _ _ _ λ enough.
          Ensures-byte_at _ message 5 _ (ground arith) λ ty. Ensures-reject _ _ _ _ _ λ _.
            Ensures-byte_at _ message 6 _ (ground arith) λ a.
              Ensures-byte_at _ message 7 _ (ground arith) λ b.
                Ensures-byte_at _ message 8 _ (ground arith) λ c.
                  Ensures-reject _ _ _ _ _
                    λ inside. Ensures-reject _ _ _ _ _ λ long. returns (refl, ground arith)

skip_bytes8-Ensures :
    (message : Bytes) (h : Hello) (missing exceeds : HelloError) (offset : ℕ)
    → Ensures (Behind message (offset + 1)) (skip_bytes8 message h missing exceeds offset)
unfolding skip_bytes8
skip_bytes8-Ensures message h missing exceeds offset = Ensures-reject _ _ _ _ _ λ there.
    Ensures-byte_at _ message offset _ (ground arith)
      λ n. Ensures-reject _ _ _ _ _ λ fits. returns (omega arith, ground arith)

skip_bytes16-Ensures :
    (message : Bytes) (h : Hello) (missing exceeds : HelloError) (offset : ℕ)
    → Ensures (Behind message (offset + 2)) (skip_bytes16 message h missing exceeds offset)
unfolding skip_bytes16
skip_bytes16-Ensures message h missing exceeds offset = Ensures-reject _ _ _ _ _ λ there.
    Ensures-uint16_at _ message offset _ (ground arith)
      λ n. Ensures-reject _ _ _ _ _ λ fits. returns (omega arith, ground arith)

skip_lists-Ensures :
    (message : Bytes) (h : Hello) (offset : ℕ)
    → Ensures (Behind message (offset + 4)) (skip_lists message h offset)
unfolding skip_lists
skip_lists-Ensures message h offset =
    Ensures-bind _ _ _ _ (skip_bytes8-Ensures message h _ _ offset) λ sid at_sid.
      Ensures-bind _ _ _ _ (skip_bytes16-Ensures message h _ _ sid) λ suites at_suites.
        Ensures-weaken _ _ _ (λ o at_o. (omega arith, at_o.1))
          (skip_bytes8-Ensures message h _ _ suites)

-- No name was found, or it lies in the data, behind the fixed part of a ClientHello.
pub data NameInside (message : Bytes) (h : Hello) : Type 0 where
  no_name : h.sni_start ≡ unset_int → NameInside message h
  name_at :
      (start : ℕ)
      → h.sni_start ≡ pos start
      → 58 ≤ start
      → start + h.sni_len ≤ length message
      → NameInside message h

parse_sni-Ensures :
    (message : Bytes) (h : Hello) (start ext_len : ℕ)
    → 53 ≤ start
    → start + ext_len ≤ length message
    → Ensures (NameInside message) (parse_sni message h start ext_len)
unfolding parse_sni
parse_sni-Ensures message h start ext_len low fits = Ensures-reject _ _ _ _ _ λ two.
    Ensures-uint16_at _ message start _ (ground arith) λ list_len. Ensures-reject _ _ _ _ _ λ _.
      Ensures-reject _ _ _ _ _ λ three.
        Ensures-byte_at _ message (start + 2) _ (ground arith) λ name_type.
          Ensures-reject _ _ _ _ _ λ _.
            Ensures-uint16_at _ message (start + 2 + 1) _ (ground arith) λ name_len.
              Ensures-reject _ _ _ _ _
                λ inside. returns (name_at (start + 2 + 3) refl (omega arith) (ground arith))

NameInside-note_extension :
    {message : Bytes} {h : Hello} (ext_type : ℕ)
    → NameInside message h
    → NameInside message (note_extension h ext_type)
NameInside-note_extension ext_type (no_name e) = no_name e
NameInside-note_extension ext_type (name_at start e low fits) = name_at start e low fits

-- A round of the loop moves the offset forward by four bytes or more, within the block.
parse_extension-Ensures :
    (message : Bytes) (extensions_end offset : ℕ) (h : Hello)
    → 49 ≤ offset
    → offset + 4 ≤ extensions_end
    → extensions_end ≤ length message
    → NameInside message h
    → Ensures
        (λ r. (offset + 4 ≤ r.0) × (r.0 ≤ extensions_end) × NameInside message r.1)
        (parse_extension message extensions_end offset h)
unfolding parse_extension
parse_extension-Ensures message extensions_end offset h low room inside name =
    Ensures-uint16_at _ message offset _ (omega arith) λ ext_type.
      Ensures-uint16_at _ message (offset + 2) _ (omega arith) λ ext_len.
        Ensures-reject _ _ _ _ _ λ fits.
          let bound : offset + 4 + ext_len ≤ extensions_end = ground arith in
          Ensures-bind (NameInside message) _ _ _
            (Ensures-if (h.sni_start ==ℤ unset_int && ext_type == 0)
              (parse_sni-Ensures message (note_extension h ext_type) (offset + 4) ext_len
                (omega arith) (omega arith))
              (returns (NameInside-note_extension ext_type name)))
            λ h' name'. returns (omega arith, bound, name')

parse_extensions-Ensures :
    (fuel : ℕ) (message : Bytes) (extensions_end offset : ℕ) (h : Hello)
    → 49 ≤ offset
    → extensions_end ≤ length message
    → offset ≤ length message
    → length message < offset + fuel
    → NameInside message h
    → Ensures (NameInside message) (parse_extensions fuel message extensions_end offset h)
unfolding parse_extensions
parse_extensions-Ensures zero message extensions_end offset h low inside here enough name =
    absurd (omega arith)
parse_extensions-Ensures (suc fuel) message extensions_end offset h low inside here enough name =
    elim (Bool-cases (leb (offset + 4) extensions_end)) [
      | inl more ↦ rw more (
          Ensures-bind _ _ _ _
            (parse_extension-Ensures message extensions_end offset h low (leb→le _ _ more) inside
              name)
            λ r h'.
              parse_extensions-Ensures fuel message extensions_end r.0 r.1 (omega arith) inside
                (omega arith) (omega arith) h'.2)
      | inr over ↦ rw over (returns name)
    ]

parse_block-Ensures :
    (message : Bytes) (h : Hello) (offset : ℕ)
    → 47 ≤ offset
    → NameInside message h
    → Ensures (NameInside message) (parse_block message h offset)
unfolding parse_block
parse_block-Ensures message h offset low name =
    elim (Bool-cases (ltb (length message) (offset + 2))) [
      | inl none_left ↦ rw none_left (returns name)
      | inr block ↦ rw block (
          Ensures-uint16_at _ message offset _ (ground arith) λ total.
            Ensures-reject _ _ _ _ _ λ fits.
              parse_extensions-Ensures (suc (length message)) message (offset + 2 + total)
                (offset + 2) h (omega arith) (ground arith) (ground arith) (omega arith) name)
    ]

-- On at least the five bytes of a record header the function does not panic and its loop ends;
-- without an error, a server name that it found starts at byte 58 or later and ends in the data.
pub parse_client_hello-NameInside :
    (message : Bytes)
    → 5 ≤ length message
    → Ensures (NameInside message) (parse_client_hello message)
unfolding parse_client_hello
parse_client_hello-NameInside message h =
    Ensures-bind _ _ _ _ (parse_headers-Ensures message h) λ offset at_offset.
      Ensures-bind _ _ _ _ (skip_lists-Ensures message _ (offset + 34))
        λ ext at_ext. parse_block-Ensures message _ ext (omega arith) (no_name refl)
