-- ===== src/Pool/Select.antt =====
-- internal/ippool.go `Get`: weighted round robin over the entries in use.
use lumine_android.Pool.State.{Pool, uint32_mod, IsValid}
use native.Mathlib.Nat.{mod-lt}
use lumine_android.Prelude.{
  All, All-get_elem?, Bool-cases, Bytes, List, Option, [], ap, arith, false, get_elem?,
  get_elem?_lt, if◌then◌else◌, inl, inr, length, length-append, length-replicate, length-take, ltb,
  none, refl, replicate, some, suc, sum, sym, take, zero, ℕ, ◌%◌, ◌++◌, ◌+◌, ◌-◌, ◌<◌, ◌==◌, ◌∙◌,
  ◌∷◌, ◌≡◌, ◌≤◌,
}

-- `no_ip` is the empty string; `panics` a division by zero or an index out of range.
pub data Got : Type 0 where
  no_ip panics : Got
  got : Bytes → Got

-- The loop: the first entry at which the sum of the weights passes the target.
unfoldable pub find_entry : ℕ → ℕ → ℕ → List ℕ → Option ℕ
find_entry acc target i [] = none
find_entry acc target i (w ∷ ws) =
    let rest = find_entry (acc + w) target (i + 1) ws in
    if ltb target (acc + w) then some i else rest

-- `p.ips[indexes[i]]`
unfoldable pub ip_of_entry : Pool → List ℕ → ℕ → Got
ip_of_entry p indexes i = elim (get_elem? indexes i) [
  | none ↦ panics
  | some k ↦ elim (get_elem? p.ips k) [ none ↦ panics | some ip ↦ got ip ]
]

unfoldable pub choose_ip : Pool → ℕ → Got
unfolding find_entry ip_of_entry
choose_ip p current =
    let indexes = take p.cur_valid_ips p.best_indexes in
    if p.total_weight == 0
    then panics
    else ip_of_entry p indexes
        (elim (find_entry 0 (current % p.total_weight) 0 (take p.cur_valid_ips p.best_weights)) [
          | none ↦ 0
          | some i ↦ i
        ])

-- `atomic.AddUint32(&p.counter, 1) - 1` is the counter before, in 32 bits. A weight is at most
-- 10000 and a pool has at most 255 entries, so `uint32(total)` is the total.
unfoldable pub get : Pool → Pool × Got
unfolding choose_ip
get p =
    if p.cur_valid_ips == 0
    then (p, no_ip)
    else (record p { counter = (p.counter + 1) % uint32_mod }, choose_ip p p.counter)

-- One round of the round robin: each entry as often as its weight says, in their order.
abbrev pub round_of : ℕ → List ℕ → List ℕ
round_of i [] = []
round_of i (w ∷ ws) = replicate w i ++ round_of (i + 1) ws

length-round_of : (i : ℕ) (ws : List ℕ) → length (round_of i ws) ≡ sum ws
length-round_of i [] = refl
length-round_of i (w ∷ ws) =
    length-append (replicate w i) (round_of (i + 1) ws)
    ∙ rw (length-replicate w i, length-round_of (i + 1) ws)

get_elem?-append_left {ℓ} :
    {A : Type ℓ} (xs ys : List A) (i : ℕ) → i < length xs → get_elem? (xs ++ ys) i ≡ get_elem? xs i
get_elem?-append_left [] ys i h = elim h [ ]
get_elem?-append_left (x ∷ xs) ys zero h = refl
get_elem?-append_left (x ∷ xs) ys (suc i) h = get_elem?-append_left xs ys i (omega arith)

get_elem?-append_right {ℓ} :
    {A : Type ℓ} (xs ys : List A) (i : ℕ) → get_elem? (xs ++ ys) (length xs + i) ≡ get_elem? ys i
get_elem?-append_right [] ys i = let e : 0 + i ≡ i = omega arith in rw e
get_elem?-append_right (x ∷ xs) ys i =
    let e : suc (length xs) + i ≡ suc (length xs + i) = omega arith in
    rw e (get_elem?-append_right xs ys i)

get_elem?-replicate {ℓ} :
    {A : Type ℓ} (n : ℕ) (a : A) (i : ℕ) → i < n → get_elem? (replicate n a) i ≡ some a
get_elem?-replicate zero a i h = elim h [ ]
get_elem?-replicate (suc n) a zero h = refl
get_elem?-replicate (suc n) a (suc i) h = get_elem?-replicate n a i (omega arith)

-- The loop finds the entry at the target's place in the round.
find_entry-round_of :
    (acc t i : ℕ) (ws : List ℕ) → find_entry acc (acc + t) i ws ≡ get_elem? (round_of i ws) t
unfolding find_entry
find_entry-round_of acc t i [] = refl
find_entry-round_of acc t i (w ∷ ws) = elim (Bool-cases (ltb (acc + t) (acc + w))) [
  | inl e ↦
      let lt : t < w = ground arith in
      rw e (
        sym (
          get_elem?-append_left (replicate w i) (round_of (i + 1) ws) t
            (rw (length-replicate w i) lt)
          ∙ get_elem?-replicate w i t lt))
  | inr e ↦
      let s : t ≡ length (replicate w i) + (t - w) = rw (length-replicate w i) (ground arith) in
      let u : acc + t ≡ acc + w + (t - w) = ground arith in
      rw e (
        ap (λ k. find_entry (acc + w) k (i + 1) ws) u
        ∙ find_entry-round_of (acc + w) (t - w) (i + 1) ws
        ∙ sym (get_elem?-append_right (replicate w i) (round_of (i + 1) ws) (t - w))
        ∙ ap (get_elem? (replicate w i ++ round_of (i + 1) ws)) (sym s))
]

All-replicate {ℓ κ} : {A : Type ℓ} (P : A → Type κ) (n : ℕ) (a : A) → P a → All P (replicate n a)
All-replicate P zero a h = tt
All-replicate P (suc n) a h = (h, All-replicate P n a h)

All-append {ℓ κ} :
    {A : Type ℓ} (P : A → Type κ) (xs ys : List A) → All P xs → All P ys → All P (xs ++ ys)
All-append P [] ys h k = k
All-append P (x ∷ xs) ys h k = (h.0, All-append P xs ys h.1 k)

-- A round names entries of the table only.
round_of-bounded :
    (bound i : ℕ) (ws : List ℕ) → i + length ws ≤ bound → All (λ e. e < bound) (round_of i ws)
round_of-bounded bound i [] h = tt
round_of-bounded bound i (w ∷ ws) h =
    All-append (λ e. e < bound) (replicate w i) (round_of (i + 1) ws)
      (All-replicate (λ e. e < bound) w i (omega arith))
      (round_of-bounded bound (i + 1) ws (omega arith))

sum_pos : (ws : List ℕ) → All (λ w. 1 ≤ w) ws → 0 < length ws → 0 < sum ws
sum_pos [] h k = elim k [ ]
sum_pos (w ∷ ws) h k = omega (arith, h.0)

ip_of_entry-got :
    (p : Pool) (indexes : List ℕ) (entry k : ℕ) (ip : Bytes)
    → get_elem? indexes entry ≡ some k
    → get_elem? p.ips k ≡ some ip
    → ip_of_entry p indexes entry ≡ got ip
unfolding ip_of_entry
ip_of_entry-got p indexes entry k ip f g = rw (ip_of_entry, f) (rw g)

choose_ip-got :
    (p : Pool) (current entry k : ℕ) (ip : Bytes)
    → (p.total_weight == 0) ≡ false
    → find_entry 0 (current % p.total_weight) 0 (take p.cur_valid_ips p.best_weights) ≡ some entry
    → get_elem? (take p.cur_valid_ips p.best_indexes) entry ≡ some k
    → get_elem? p.ips k ≡ some ip
    → choose_ip p current ≡ got ip
unfolding choose_ip
choose_ip-got p current entry k ip whole found f g =
    rw (choose_ip, whole, found)
      (ip_of_entry-got p (take p.cur_valid_ips p.best_indexes) entry k ip f g)

-- A valid pool in use: the call neither panics nor comes back empty. With the counter's place in
-- the round of the weights it takes that entry's address, and moves the counter on by one.
pub get-round_of :
    (p : Pool)
    → IsValid p
    → 0 < p.cur_valid_ips
    → (entry k : ℕ) × (ip : Bytes) × (get_elem?
          (round_of 0 (take p.cur_valid_ips p.best_weights))
          (p.counter % p.total_weight)
        ≡ some entry)
      × (get_elem? (take p.cur_valid_ips p.best_indexes) entry ≡ some k)
      × (get_elem? p.ips k ≡ some ip)
      × (get p ≡ (record p { counter = (p.counter + 1) % uint32_mod }, got ip))
unfolding get
get-round_of p v use_pos =
    let n = p.cur_valid_ips in
    let ws = take n p.best_weights in
    let is = take n p.best_indexes in
    let ws_len : length ws ≡ n = omega (arith, length-take n p.best_weights) in
    let is_len : length is ≡ n = omega (arith, length-take n p.best_indexes) in
    let total : 0 < p.total_weight = rw v.total_is (sum_pos ws v.weights_pos (omega arith)) in
    let target : p.counter % p.total_weight < length (round_of 0 ws) =
      rw (length-round_of 0 ws, ← v.total_is) (mod-lt p.counter total) in
    let (entry, e) = get_elem?_lt (round_of 0 ws) (p.counter % p.total_weight) target in
    let inside : entry < n =
      All-get_elem? (λ x. x < n) (round_of 0 ws) (p.counter % p.total_weight)
        (round_of-bounded n 0 ws (omega arith)) e in
    let (k, f) = get_elem?_lt is entry (omega arith) in
    let (ip, g) =
      get_elem?_lt p.ips k (All-get_elem? (λ x. x < length p.ips) is entry v.indexes_in f) in
    let found : find_entry 0 (p.counter % p.total_weight) 0 ws ≡ some entry =
      let z : 0 + p.counter % p.total_weight ≡ p.counter % p.total_weight = omega arith in
      (rw z at (find_entry-round_of 0 (p.counter % p.total_weight) 0 ws)) ∙ e in
    let busy : (n == 0) ≡ false = ground arith in
    let whole : (p.total_weight == 0) ≡ false = ground arith in
    (entry, k, ip, e, f, g, rw (busy, choose_ip-got p p.counter entry k ip whole found f g))
