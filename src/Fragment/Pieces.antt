-- ===== src/Fragment/Pieces.antt =====
-- internal/fragment.go. What `splitAndAppend` cuts: no byte is lost, doubled or moved.
use lumine_android.Fragment.Split.{make_record, split_loop, split_and_append}
use lumine_android.Prelude.{
  Bytes, ap, append-nil, arith, concat, drop, length, map, none, refl, slice, slice-append-drop,
  some, suc, zero, ℕ, ◌*◌, ◌+◌, ◌/◌, ◌∷◌, ◌≡◌, ◌≢◌, ◌≤◌,
}

split_loop-wrap :
    (m header : Bytes) (base i n : ℕ)
    → split_loop m (some header) base i n ≡ map (make_record header) (split_loop m none base i n)
unfolding split_loop
split_loop-wrap m header base i zero = refl
split_loop-wrap m header base i (suc zero) = refl
split_loop-wrap m header base i (suc (suc n)) =
    ap (◌∷◌ (make_record header (slice m (i * base) ((i + 1) * base))))
      (split_loop-wrap m header base (i + 1) (suc n))

concat-split_loop :
    (m : Bytes) (base i n : ℕ) → concat (split_loop m none base i (suc n)) ≡ drop (i * base) m
unfolding split_loop
concat-split_loop m base i zero = append-nil _
concat-split_loop m base i (suc n) =
    rw (concat-split_loop m base (i + 1) n)
      (slice-append-drop m (i * base) ((i + 1) * base) (grind arith))

-- With a header every piece is wrapped in a record of its own.
pub split_and_append-wrap :
    (m header : Bytes) (n : ℕ)
    → split_and_append m (some header) n ≡ map (make_record header) (split_and_append m none n)
unfolding split_and_append
split_and_append-wrap m header n = ground (arith, split_loop-wrap m header (length m / n) 0 n)

pub concat-split_and_append : (m : Bytes) (n : ℕ) → n ≢ 0 → concat (split_and_append m none n) ≡ m
unfolding split_and_append
concat-split_and_append m zero h = absurd (h refl)
concat-split_and_append m (suc n) h =
    ground (arith, append-nil m, concat-split_loop m (length m / suc n) 0 n)

length-split_loop : (m : Bytes) (base i n : ℕ) → length (split_loop m none base i n) ≡ n
unfolding split_loop
length-split_loop m base i zero = refl
length-split_loop m base i (suc zero) = refl
length-split_loop m base i (suc (suc n)) = ap suc (length-split_loop m base (i + 1) (suc n))

pub length-split_and_append : (m : Bytes) (n : ℕ) → length (split_and_append m none n) ≤ n
unfolding split_and_append
length-split_and_append m n = ground (arith, length-split_loop m (length m / n) 0 n)
