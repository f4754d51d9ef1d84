-- ===== src/Tls/Parse.antt =====
-- internal/utils.go `parseClientHello`. An index or a slice out of range is the fault `panic`; the
-- values that the function returns beside an error stand in `failed`. Lengths are plain numbers:
-- they are at most 24 bits wide, and the offsets built from them fit an `int`.
use lumine_android.Prelude.{
  Bool, Bytes, Result, [], err, false, get_elem?, if◌then◌else◌, leb, length, ltb, none, not, ok,
  pos, reject, slice, some, suc, unset_int, zero, ℕ, ℤ, ◌&&◌, ◌*◌, ◌+◌, ◌==ℤ◌, ◌==◌, ◌>>=◌, ◌>>◌,
  ◌||◌,
}

pub data HelloError : Type 0 where
  not_handshake_record not_standard_record record_exceeds_data handshake_too_short : HelloError
  not_client_hello : ℕ → HelloError
  handshake_exceeds_record hello_too_short end_after_random session_id_exceeds_data : HelloError
  no_cipher_suites_length cipher_suites_exceed_data no_compression_length : HelloError
  compression_exceeds_data extensions_exceed_data extension_exceeds_block : HelloError
  sni_no_list_length sni_list_mismatch sni_entry_too_short sni_bad_name_type : HelloError
  sni_name_exceeds_extension : HelloError

-- The results `prtVer, sniStart, sniLen, hasKeyShare, hasECH`; `prt_ver` is empty for nil.
pub record Hello : Type 0 where
  pub prt_ver : Bytes
  pub sni_start : ℤ
  pub sni_len : ℕ
  pub has_key_share : Bool
  pub has_ech : Bool

-- `no_fuel` is the loop over the extensions cut off, which does not happen (`Bounds`).
pub data Fault : Type 0 where
  panic no_fuel : Fault
  failed : Hello → HelloError → Fault

abbrev pub Parsed : Type 0 → Type 0
Parsed A = Result Fault A

abbrev pub no_hello : Bytes → Hello
no_hello v = record {
  prt_ver = v;
  sni_start = unset_int;
  sni_len = 0;
  has_key_share = false;
  has_ech = false;
}

-- `data[i]`.
unfoldable pub byte_at : Bytes → ℕ → Parsed ℕ
byte_at message i = elim (get_elem? message i) [ none ↦ err panic | some b ↦ ok b ]

-- `binary.BigEndian.Uint16(data[i : i+2])`.
unfoldable pub uint16_at : Bytes → ℕ → Parsed ℕ
unfolding byte_at
uint16_at message i = do hi ← byte_at message i; lo ← byte_at message (i + 1); ok (hi * 256 + lo)

-- The record and handshake headers, up to the offset of the protocol version.
unfoldable pub parse_headers : Bytes → Parsed ℕ
unfolding byte_at uint16_at
parse_headers message = do
  record_type ← byte_at message 0
  reject (not (record_type == 0x16)) (failed (no_hello []) not_handshake_record)
  major ← byte_at message 1
  reject (not (major == 3)) (failed (no_hello []) not_standard_record)
  record_len ← uint16_at message 3
  reject (ltb (length message) (5 + record_len)) (failed (no_hello []) record_exceeds_data)
  reject (ltb record_len 4) (failed (no_hello []) handshake_too_short)
  handshake_type ← byte_at message 5
  reject (not (handshake_type == 1)) (failed (no_hello []) (not_client_hello handshake_type))
  a ← byte_at message 6
  b ← byte_at message 7
  c ← byte_at message 8
  let handshake_len = a * 65536 + b * 256 + c
  reject (ltb record_len (handshake_len + 4)) (failed (no_hello []) handshake_exceeds_record)
  reject (ltb handshake_len 35) (failed (no_hello []) hello_too_short)
  ok 9

-- A length byte and what it covers: the offset behind it.
unfoldable pub skip_bytes8 : Bytes → Hello → HelloError → HelloError → ℕ → Parsed ℕ
unfolding byte_at
skip_bytes8 message h missing exceeds offset = do
  reject (leb (length message) offset) (failed h missing)
  n ← byte_at message offset
  reject (ltb (length message) (offset + 1 + n)) (failed h exceeds)
  ok (offset + 1 + n)

-- A two-byte length and what it covers.
unfoldable pub skip_bytes16 : Bytes → Hello → HelloError → HelloError → ℕ → Parsed ℕ
unfolding uint16_at
skip_bytes16 message h missing exceeds offset = do
  reject (ltb (length message) (offset + 2)) (failed h missing)
  n ← uint16_at message offset
  reject (ltb (length message) (offset + 2 + n)) (failed h exceeds)
  ok (offset + 2 + n)

-- Session id, cipher suites and compression methods: the offset of the extensions.
unfoldable pub skip_lists : Bytes → Hello → ℕ → Parsed ℕ
unfolding skip_bytes8 skip_bytes16
skip_lists message h offset = do
  sid ← skip_bytes8 message h end_after_random session_id_exceeds_data offset
  suites ← skip_bytes16 message h no_cipher_suites_length cipher_suites_exceed_data sid
  skip_bytes8 message h no_compression_length compression_exceeds_data suites

-- The server name extension between `start` and `end`: where the name stands.
unfoldable pub parse_sni : Bytes → Hello → ℕ → ℕ → Parsed Hello
unfolding byte_at uint16_at
parse_sni message h start ext_len = do
  let end = start + ext_len
  reject (ltb ext_len 2) (failed h sni_no_list_length)
  list_len ← uint16_at message start
  reject (not (list_len + 2 == ext_len)) (failed h sni_list_mismatch)
  let cursor = start + 2
  reject (ltb end (cursor + 3)) (failed h sni_entry_too_short)
  name_type ← byte_at message cursor
  reject (not (name_type == 0)) (failed h sni_bad_name_type)
  name_len ← uint16_at message (cursor + 1)
  reject (ltb end (cursor + 3 + name_len)) (failed h sni_name_exceeds_extension)
  ok (record h { sni_start = pos (cursor + 3); sni_len = name_len })

-- `hasKeyShare` and `hasECH`.
abbrev pub note_extension : Hello → ℕ → Hello
note_extension h ext_type = record h {
  has_key_share = ext_type == 0x0033 || h.has_key_share;
  has_ech = ext_type == 0x00fe || h.has_ech;
}

-- One round of the loop over the extensions: the offset behind it, and the results so far.
unfoldable pub parse_extension : Bytes → ℕ → ℕ → Hello → Parsed (ℕ × Hello)
unfolding uint16_at parse_sni
parse_extension message extensions_end offset h = do
  ext_type ← uint16_at message offset
  ext_len ← uint16_at message (offset + 2)
  let start = offset + 4
  reject (ltb extensions_end (start + ext_len)) (failed h extension_exceeds_block)
  let h' = note_extension h ext_type
  h'' ←
      (if h.sni_start ==ℤ unset_int && ext_type == 0
        then parse_sni message h' start ext_len
        else ok h')
  ok (start + ext_len, h'')

unfoldable pub parse_extensions : ℕ → Bytes → ℕ → ℕ → Hello → Parsed Hello
unfolding parse_extension
parse_extensions zero message extensions_end offset h = err no_fuel
parse_extensions (suc fuel) message extensions_end offset h =
    if leb (offset + 4) extensions_end
    then (parse_extension message extensions_end offset h
        >>= (λ r. parse_extensions fuel message extensions_end r.0 r.1))
    else ok h

-- The block of extensions, which may be missing.
unfoldable pub parse_block : Bytes → Hello → ℕ → Parsed Hello
unfolding uint16_at parse_extensions
parse_block message h offset = if ltb (length message) (offset + 2) then ok h else do
  total ← uint16_at message offset
  reject (ltb (length message) (offset + 2 + total)) (failed h extensions_exceed_data)
  parse_extensions (suc (length message)) message (offset + 2 + total) (offset + 2) h

unfoldable pub parse_client_hello : Bytes → Parsed Hello
unfolding parse_headers skip_lists parse_block
parse_client_hello message = do
  offset ← parse_headers message
  let h = no_hello (slice message offset (offset + 2))
  extensions ← skip_lists message h (offset + 34)
  parse_block message h extensions
