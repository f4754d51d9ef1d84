-- ===== src/Resolve/Transform.antt =====
-- internal/utils.go `transformIP`: the network's bits in front of the address's own.
use lumine_android.Prelude.{
  Bytes, Option, [], if◌then◌else◌, leb, length, none, some, ℕ, ◌%◌, ◌*◌, ◌+◌, ◌-◌, ◌/◌, ◌==◌, ◌^◌,
  ◌∷◌,
}
use lumine_android.Resolve.Env.{Env}

-- Byte `i` of the new address. With `low` the power of two below the mask, `net & mask` is
-- `net / low * low`, `ip & ^mask` is `ip % low`, and `|` adds them.
unfoldable pub transform_byte : ℕ → ℕ → ℕ → ℕ → ℕ
transform_byte bits i ip net =
    let bit_pos = i * 8 in
    let low = 2 ^ (8 - (bits - bit_pos)) in
    if leb (bit_pos + 8) bits
    then net
    else if leb bits bit_pos
    then ip
    else (net / low) * low + ip % low

unfoldable pub transform_bytes : ℕ → ℕ → Bytes → Bytes → Bytes
unfolding transform_byte
transform_bytes bits i (x ∷ xs) (n ∷ ns) =
    transform_byte bits i x n ∷ transform_bytes bits (i + 1) xs ns
transform_bytes bits i _ _ = []

-- The versions differ where the lengths do.
unfoldable pub transform_ip : Env → Bytes → Bytes → Option Bytes
unfolding transform_bytes
transform_ip env ip_str target_net = elim (env.parse_addr ip_str) [
  | none ↦ none
  | some ip ↦ elim (env.parse_prefix target_net) [
    | none ↦ none
    | some (network, bits) ↦
        if length ip == length network
        then some (env.addr_string (transform_bytes bits 0 ip network))
        else none
  ]
]
