-- ===== src/Fragment/Split.antt =====
-- internal/fragment.go `splitAndAppend` and `makeRecord`; internal/utils.go `findLastDotOrMidPos`.
use lumine_android.Prelude.{
  Bytes, List, Option, [], drop, if◌then◌else◌, length, ltb, none, slice, some, suc, take, zero, ℕ,
  ◌%◌, ◌*◌, ◌++◌, ◌+◌, ◌/◌, ◌==◌, ◌||◌, ◌∷◌,
}

-- `bytes.LastIndexByte`; `none` is -1.
unfoldable pub last_index_byte : Bytes → ℕ → Option ℕ
last_index_byte [] c = none
last_index_byte (x ∷ xs) c = elim (last_index_byte xs c) [
  | some i ↦ some (suc i)
  | none ↦ if x == c then some 0 else none
]

unfoldable pub find_last_dot_or_mid_pos : Bytes → ℕ → ℕ → ℕ
unfolding last_index_byte
find_last_dot_or_mid_pos hello sni_start sni_len =
    elim (last_index_byte (slice hello sni_start (sni_start + sni_len)) b'.') [
      | none ↦ sni_len / 2 + sni_start
      | some sub_idx ↦ sni_start + sub_idx
    ]

-- The five bytes of a record header hold three bytes of `header` and the length as a uint16.
abbrev pub record_header_len : ℕ
record_header_len = 5

unfoldable pub make_record : Bytes → Bytes → Bytes
make_record header payload =
    let n = length payload % 65536 in take 3 header ++ (n / 256) ∷ (n % 256) ∷ payload

-- One appended element: `header` is nil where segments are cut.
unfoldable pub wrap_part : Option Bytes → Bytes → Bytes
unfolding make_record
wrap_part none part = part
wrap_part (some header) part = make_record header part

-- The loop, from round `i` with the given number of rounds left; the last one takes the rest.
unfoldable pub split_loop : Bytes → Option Bytes → ℕ → ℕ → ℕ → List Bytes
unfolding wrap_part
split_loop message header base i zero = []
split_loop message header base i (suc zero) = wrap_part header (drop (i * base) message) ∷ []
split_loop message header base i (suc (suc left)) =
    wrap_part header (slice message (i * base) ((i + 1) * base))
    ∷ split_loop message header base (i + 1) (suc left)

-- What the function appends to `*result`.
unfoldable pub split_and_append : Bytes → Option Bytes → ℕ → List Bytes
unfolding split_loop wrap_part
split_and_append message header n =
    if n == 0
    then []
    else if n == 1 || ltb (length message) n
    then wrap_part header message ∷ []
    else split_loop message header (length message / n) 0 n
