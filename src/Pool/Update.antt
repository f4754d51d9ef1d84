-- ===== src/Pool/Update.antt =====
-- internal/ippool.go `updateBest`: the best results become the entries of the two tables.
-- `quotient` is the integer part of `10000 / (latencyMs * (1 + loss) + 1e-5)`, which the source
-- computes with floats; the weight is that clamped to 1 .. 10000 and truncated, in either order.
use lumine_android.Pool.State.{IpResult, Pool, IsValid}
use lumine_android.Pool.Rank.{rank, All-rank, length-rank}
use lumine_android.Prelude.{
  All, List, [], ap, arith, if◌then◌else◌, length, length-set, ltb, min, refl, set, suc, sum, take,
  zero, ℕ, ◌++◌, ◌+◌, ◌-◌, ◌<◌, ◌∙◌, ◌∷◌, ◌≡◌, ◌≢◌, ◌≤◌,
}

abbrev pub min_weight : ℕ
min_weight = 1

abbrev pub max_weight : ℕ
max_weight = 10000

unfoldable pub clamp_weight : ℕ → ℕ
clamp_weight n = if ltb n min_weight then min_weight else if ltb max_weight n then max_weight else n

-- `for i := validCount; i < topIPCount; i++`.
unfoldable pub clear_weights : ℕ → ℕ → List ℕ → List ℕ
clear_weights i zero weights = weights
clear_weights i (suc left) weights = clear_weights (i + 1) left (set weights i 0)

module _ (quotient : IpResult → ℕ) where
  -- One round of the first loop, for the entry `i`.
  unfoldable pub put_best : ℕ → IpResult → Pool → Pool
  unfolding clamp_weight
  put_best i res p = record p {
    best_indexes = set p.best_indexes i res.ip_index;
    best_weights = set p.best_weights i (clamp_weight (quotient res));
    total_weight = p.total_weight + clamp_weight (quotient res);
    cur_valid_ips = p.cur_valid_ips + 1;
  }

  -- `for i := 0; i < topIPCount && i < len(results); i++`, with `left` entries left.
  unfoldable pub put_all : ℕ → ℕ → List IpResult → Pool → Pool
  unfolding put_best
  put_all i zero results p = p
  put_all i (suc left) [] p = p
  put_all i (suc left) (res ∷ results) p = put_all (i + 1) left results (put_best i res p)

  -- The count and the sum are local variables of the source, which start from 0.
  unfoldable pub update_best : List IpResult → Pool → Pool
  unfolding rank put_all clear_weights
  update_best [] p = p
  update_best (r ∷ rs) p =
      let filled =
        put_all 0 p.top_ip_count (rank (r ∷ rs))
          (record p { total_weight = 0; cur_valid_ips = 0 }) in
      record filled {
        best_weights =
            clear_weights filled.cur_valid_ips (p.top_ip_count - filled.cur_valid_ips)
              filled.best_weights;
      }

-- What the first loop keeps: the entries below `i` are in use.
record IsFilled (p : Pool) (i : ℕ) : Type 0 where
  indexes_length : length p.best_indexes ≡ p.top_ip_count
  weights_length : length p.best_weights ≡ p.top_ip_count
  count_is : p.cur_valid_ips ≡ i
  total_is : p.total_weight ≡ sum (take i p.best_weights)
  weights_pos : All (λ w. 1 ≤ w) (take i p.best_weights)
  indexes_in : All (λ k. k < length p.ips) (take i p.best_indexes)

take-set_next {ℓ} :
    {A : Type ℓ} (xs : List A) (i : ℕ) (v : A)
    → i < length xs
    → take (i + 1) (set xs i v) ≡ take i xs ++ v ∷ []
take-set_next [] i v h = elim h [ ]
take-set_next (x ∷ xs) zero v h = refl
take-set_next (x ∷ xs) (suc i) v h =
    let e : suc i + 1 ≡ suc (i + 1) = omega arith in
    rw e (ap (◌∷◌ x) (take-set_next xs i v (omega arith)))

take-set_above {ℓ} :
    {A : Type ℓ} (xs : List A) (k i : ℕ) (v : A) → k ≤ i → take k (set xs i v) ≡ take k xs
take-set_above [] k i v h = refl
take-set_above (x ∷ xs) zero i v h = refl
take-set_above (x ∷ xs) (suc k) zero v h = elim h [ ]
take-set_above (x ∷ xs) (suc k) (suc i) v h = ap (◌∷◌ x) (take-set_above xs k i v (omega arith))

take-clear_weights :
    (ws : List ℕ) (k i left : ℕ) → k ≤ i → take k (clear_weights i left ws) ≡ take k ws
unfolding clear_weights
take-clear_weights ws k i zero h = refl
take-clear_weights ws k i (suc left) h =
    take-clear_weights (set ws i 0) k (i + 1) left (omega arith) ∙ take-set_above ws k i 0 h

length-clear_weights : (ws : List ℕ) (i left : ℕ) → length (clear_weights i left ws) ≡ length ws
unfolding clear_weights
length-clear_weights ws i zero = refl
length-clear_weights ws i (suc left) =
    length-clear_weights (set ws i 0) (i + 1) left ∙ length-set ws i 0

All-concat {ℓ κ} :
    {A : Type ℓ} (P : A → Type κ) (xs : List A) (v : A) → All P xs → P v → All P (xs ++ v ∷ [])
All-concat P [] v h k = (k, tt)
All-concat P (x ∷ xs) v h k = (h.0, All-concat P xs v h.1 k)

sum-concat : (xs : List ℕ) (v : ℕ) → sum (xs ++ v ∷ []) ≡ sum xs + v
sum-concat [] v = omega arith
sum-concat (x ∷ xs) v = omega (arith, sum-concat xs v)

clamp_weight_pos : (n : ℕ) → 1 ≤ clamp_weight n
unfolding clamp_weight
clamp_weight_pos n = ground arith

module _ (quotient : IpResult → ℕ) where
  put_best-IsFilled :
      (i : ℕ) (res : IpResult) (p : Pool)
      → i < p.top_ip_count
      → res.ip_index < length p.ips
      → IsFilled p i
      → IsFilled (put_best quotient i res p) (i + 1)
  unfolding put_best
  put_best-IsFilled i res p lt inside f =
      let w = clamp_weight (quotient res) in
      let ws = take-set_next p.best_weights i w (omega arith) in
      let is = take-set_next p.best_indexes i res.ip_index (omega arith) in
      record {
        indexes_length = length-set p.best_indexes i res.ip_index ∙ f.indexes_length;
        weights_length = length-set p.best_weights i w ∙ f.weights_length;
        count_is = omega arith;
        total_is = rw ws (omega (arith, sum-concat (take i p.best_weights) w));
        weights_pos = rw ws (
            All-concat _ (take i p.best_weights) w f.weights_pos (clamp_weight_pos (quotient res)));
        indexes_in = rw is (All-concat _ (take i p.best_indexes) res.ip_index f.indexes_in inside);
      }

  -- The loop ends with as many entries as there are results, up to the number wanted.
  put_all-IsFilled :
      (i left : ℕ) (results : List IpResult) (p : Pool)
      → i + left ≡ p.top_ip_count
      → All (λ r. r.ip_index < length p.ips) results
      → IsFilled p i
      → (IsFilled (put_all quotient i left results p) (i + min left (length results)))
        × ((put_all quotient i left results p).top_ip_count ≡ p.top_ip_count)
        × ((put_all quotient i left results p).ips ≡ p.ips)
        × ((put_all quotient i left results p).counter ≡ p.counter)
  unfolding put_all
  put_all-IsFilled i zero results p e h f =
      let k : i + min 0 (length results) ≡ i = omega arith in (rw k f, refl, refl, refl)
  put_all-IsFilled i (suc left) [] p e h f =
      let k : i + min (suc left) 0 ≡ i = omega arith in (rw k f, refl, refl, refl)
  put_all-IsFilled i (suc left) (r ∷ rs) p e h f =
      let k : i + min (suc left) (length (r ∷ rs)) ≡ i + 1 + min left (length rs) = omega arith in
      rw k (
        put_all-IsFilled (i + 1) left rs (put_best quotient i r p) (omega arith) h.1
          (put_best-IsFilled i r p (omega arith) h.0 f))

  -- On a valid pool a scan with results for addresses of the pool leaves a valid pool behind, with
  -- as many entries as results, up to the number wanted, and with the same addresses; one with no
  -- results changes nothing.
  pub update_best-IsValid :
      (results : List IpResult) (p : Pool)
      → IsValid p
      → All (λ r. r.ip_index < length p.ips) results
      → IsValid (update_best quotient results p)
        × ((update_best quotient results p).ips ≡ p.ips)
        × (results ≡ [] → update_best quotient results p ≡ p)
        × (results ≢ []
            → (update_best quotient results p).cur_valid_ips ≡ min p.top_ip_count (length results))
  unfolding update_best
  update_best-IsValid [] p v h = (v, refl, λ _. refl, λ ne. absurd (ne refl))
  update_best-IsValid (r ∷ rs) p v h =
      let start = record p { total_weight = 0; cur_valid_ips = 0 } in
      let ranked = rank (r ∷ rs) in
      let (f, top, same, _) =
        put_all-IsFilled 0 p.top_ip_count ranked start (omega arith) (All-rank _ (r ∷ rs) h)
          (record {
            indexes_length = v.indexes_length;
            weights_length = v.weights_length;
            count_is = refl;
            total_is = refl;
            weights_pos = tt;
            indexes_in = tt;
          }) in
      let filled = put_all quotient 0 p.top_ip_count ranked start in
      let n = filled.cur_valid_ips in
      let count : n ≡ 0 + min p.top_ip_count (length ranked) = f.count_is in
      let kept = take-clear_weights filled.best_weights n n (p.top_ip_count - n) (omega arith) in
      let g : IsFilled filled n = rw count f in
      (
        record {
          indexes_length = f.indexes_length;
          weights_length =
              length-clear_weights filled.best_weights n (p.top_ip_count - n) ∙ f.weights_length;
          valid_le = omega arith;
          total_is = rw kept g.total_is;
          weights_pos = rw kept g.weights_pos;
          indexes_in = g.indexes_in;
        },
        same,
        λ e. cc,
        λ _. omega (arith, length-rank (r ∷ rs)),
      )
