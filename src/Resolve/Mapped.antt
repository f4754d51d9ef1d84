-- ===== src/Resolve/Mapped.antt =====
-- internal/utils.go. What `transformIP` makes of an address.
use lumine_android.Resolve.Env.{Env}
use lumine_android.Resolve.Transform.{transform_byte, transform_bytes, transform_ip}
use native.Mathlib.Numerals.{unary_clauses}
use mathlib.Core.Option.{some-injective}
use native.Mathlib.Nat.{div-eq_of_lt, mod-lt, mod-mod, mul-add-div_right, mul-add-mod_self_right}
use lumine_android.Prelude.{
  All, Bool-cases, Bytes, [], ap, arith, get_elem?, inl, inr, leb, length, min, refl, some, suc,
  true, zero, ℕ, ◌%◌, ◌*◌, ◌+◌, ◌-◌, ◌/◌, ◌<◌, ◌==◌, ◌^◌, ◌∙◌, ◌∷◌, ◌≡◌,
}

-- How many of a byte's low bits the address keeps.
abbrev pub kept_bits : ℕ → ℕ → ℕ
kept_bits bits i = 8 - min 8 (bits - i * 8)

-- A byte whose bits from `w` on are the network's, and whose bits below are the address's.
abbrev pub IsMixed : ℕ → ℕ → ℕ → ℕ → Type 0
IsMixed w ip net new = (new / w ≡ net / w) × (new % w ≡ ip % w)

mix_parts : (w ip net : ℕ) → 0 < w → IsMixed w ip net ((net / w) * w + ip % w)
mix_parts w ip net h = (
  mul-add-div_right h (net / w) (ip % w) ∙ rw (div-eq_of_lt (mod-lt ip h)) (omega arith),
  mul-add-mod_self_right (net / w) w (ip % w) ∙ mod-mod ip w,
)

pow_pos : (n : ℕ) → 0 < 2 ^ n
pow_pos zero = omega arith
pow_pos (suc n) = simp unary_clauses (omega (arith, pow_pos n))

transform_byte-IsMixed :
    (bits i ip net : ℕ)
    → ip < 256
    → net < 256
    → IsMixed (2 ^ kept_bits bits i) ip net (transform_byte bits i ip net)
unfolding transform_byte
transform_byte-IsMixed bits i ip net h k = elim (Bool-cases (leb (i * 8 + 8) bits)) [
  | inl e ↦
      let none_kept : kept_bits bits i ≡ 0 = ground arith in rw (e, none_kept) (refl, omega arith)
  | inr e ↦ elim (Bool-cases (leb bits (i * 8))) [
    | inl f ↦
        let all_kept : kept_bits bits i ≡ 8 = ground arith in
        rw (e, f, all_kept) (omega arith, refl)
    | inr f ↦
        let some_kept : kept_bits bits i ≡ 8 - (bits - i * 8) = ground arith in
        rw (e, f, some_kept)
          (mix_parts (2 ^ (8 - (bits - i * 8))) ip net (pow_pos (8 - (bits - i * 8))))
  ]
]

-- Every byte of the addresses.
pub AllMixed : ℕ → ℕ → Bytes → Bytes → Bytes → Type 0
AllMixed bits i ip network new =
    (j x n : ℕ)
    → get_elem? ip j ≡ some x
    → get_elem? network j ≡ some n
    → (b : ℕ) × (get_elem? new j ≡ some b) × IsMixed (2 ^ kept_bits bits (i + j)) x n b

transform_bytes-AllMixed :
    (bits i : ℕ) (ip network : Bytes)
    → All (λ x. x < 256) ip
    → All (λ n. n < 256) network
    → AllMixed bits i ip network (transform_bytes bits i ip network)
unfolding transform_bytes AllMixed
transform_bytes-AllMixed bits i [] network h k j x n f g = cc
transform_bytes-AllMixed bits i (y ∷ ys) [] h k j x n f g = cc
transform_bytes-AllMixed bits i (y ∷ ys) (m ∷ ms) h k zero x n f g =
    let same_x : y ≡ x = some-injective _ _ f in
    let same_n : m ≡ n = some-injective _ _ g in
    let here : i + 0 ≡ i = omega arith in
    (
      transform_byte bits i y m,
      refl,
      rw (here, ← same_x, ← same_n) (transform_byte-IsMixed bits i y m h.0 k.0),
    )
transform_bytes-AllMixed bits i (y ∷ ys) (m ∷ ms) h k (suc j) x n f g =
    let next : i + suc j ≡ i + 1 + j = omega arith in
    rw next (transform_bytes-AllMixed bits (i + 1) ys ms h.1 k.1 j x n f g)

length-transform_bytes :
    (bits i : ℕ) (ip network : Bytes)
    → length ip ≡ length network
    → length (transform_bytes bits i ip network) ≡ length ip
unfolding transform_bytes
length-transform_bytes bits i [] network h = refl
length-transform_bytes bits i (x ∷ xs) [] h = omega arith
length-transform_bytes bits i (x ∷ xs) (n ∷ ns) h =
    ap suc (length-transform_bytes bits (i + 1) xs ns (omega arith))

-- An address and a network of one version, both of bytes below 256, give an address of the same
-- version, the high bits of which, as many as the prefix has, are the network's and the others the
-- address's.
pub transform_ip-AllMixed :
    (env : Env) (ip_str target_net ip network : Bytes) (bits : ℕ)
    → env.parse_addr ip_str ≡ some ip
    → env.parse_prefix target_net ≡ some (network, bits)
    → length ip ≡ length network
    → All (λ x. x < 256) ip
    → All (λ n. n < 256) network
    → (new : Bytes) × (transform_ip env ip_str target_net ≡ some (env.addr_string new))
      × (length new ≡ length ip)
      × AllMixed bits 0 ip network new
unfolding transform_ip
transform_ip-AllMixed env ip_str target_net ip network bits parsed_ip parsed_net same h k =
    let equal : (length ip == length network) ≡ true = ground arith in
    (
      transform_bytes bits 0 ip network,
      rw (transform_ip, parsed_ip, parsed_net, equal) refl,
      length-transform_bytes bits 0 ip network same,
      transform_bytes-AllMixed bits 0 ip network h k,
    )
