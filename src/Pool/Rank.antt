-- ===== src/Pool/Rank.antt =====
-- internal/ippool.go: `testIP`, the results that a scan keeps, and their order (`sort.SliceStable`
-- in `updateBest`).
use lumine_android.Pool.State.{IpResult}
use mathlib.Core.List.{Perm}
use mathlib.Core.List.Perm
use lumine_android.Prelude.{
  ==_iff, All, Bool, Bool-cases, List, Option, [], ap, arith, false, if◌then◌else◌, inl, inr,
  length, ltb, none, not, refl, some, suc, sym, true, ℕ, ◌&&◌, ◌+◌, ◌-◌, ◌/◌, ◌<◌, ◌==◌, ◌^◌, ◌∙◌,
  ◌∷◌, ◌≡◌, ◌≤◌,
}

-- The attempts of `testIP`: `none` is a failed dial, `some t` one that took `t` nanoseconds. With no
-- success the latency is `math.MaxInt64`.
abbrev pub max_int64 : ℕ
max_int64 = 2 ^ 63 - 1

unfoldable pub successes : List (Option ℕ) → ℕ
successes [] = 0
successes (none ∷ dials) = successes dials
successes (some t ∷ dials) = suc (successes dials)

unfoldable pub total_latency : List (Option ℕ) → ℕ
total_latency [] = 0
total_latency (none ∷ dials) = total_latency dials
total_latency (some t ∷ dials) = t + total_latency dials

unfoldable pub test_ip : ℕ → List (Option ℕ) → IpResult
unfolding successes total_latency
test_ip index dials =
    let n = successes dials in
    record {
      ip_index = index;
      latency = if n == 0 then max_int64 else total_latency dials / n;
      lost = length dials - n;
    }

-- `res.loss < 1.0`
unfoldable pub valid_results : ℕ → List IpResult → List IpResult
valid_results attempts [] = []
valid_results attempts (r ∷ rs) =
    let rest = valid_results attempts rs in if ltb r.lost attempts then r ∷ rest else rest

-- The comparison: less loss first, then less latency.
unfoldable pub ranks_before : IpResult → IpResult → Bool
ranks_before a b = if not (a.lost == b.lost) then ltb a.lost b.lost else ltb a.latency b.latency

-- A stable sort: a result goes behind those that it does not rank before.
unfoldable pub insert_result : IpResult → List IpResult → List IpResult
unfolding ranks_before
insert_result r [] = r ∷ []
insert_result r (s ∷ ss) = if ranks_before s r then s ∷ insert_result r ss else r ∷ s ∷ ss

unfoldable pub rank : List IpResult → List IpResult
unfolding insert_result
rank [] = []
rank (r ∷ rs) = insert_result r (rank rs)

-- No result ranks before the one in front of it.
abbrev IsRanked : List IpResult → Type 0
IsRanked [] = Unit
IsRanked (r ∷ rs) = All (λ s. ranks_before s r ≡ false) rs × IsRanked rs

ranks_before_trans :
    (a b c : IpResult)
    → ranks_before b a ≡ false
    → ranks_before c b ≡ false
    → ranks_before c a ≡ false
unfolding ranks_before
ranks_before_trans a b c h k = ground arith

ranks_before_asym : (a b : IpResult) → ranks_before a b ≡ true → ranks_before b a ≡ false
unfolding ranks_before
ranks_before_asym a b h = ground arith

All-insert_result {ℓ} :
    (P : IpResult → Type ℓ) (r : IpResult) (rs : List IpResult)
    → P r
    → All P rs
    → All P (insert_result r rs)
unfolding insert_result
All-insert_result P r [] h k = (h, tt)
All-insert_result P r (s ∷ ss) h k = elim (Bool-cases (ranks_before s r)) [
  | inl e ↦ rw e (k.0, All-insert_result P r ss h k.1)
  | inr e ↦ rw e (h, k)
]

All-ranked :
    (r s : IpResult) (rs : List IpResult)
    → ranks_before s r ≡ false
    → All (λ t. ranks_before t s ≡ false) rs
    → All (λ t. ranks_before t r ≡ false) rs
All-ranked r s [] h k = tt
All-ranked r s (t ∷ ts) h k = (ranks_before_trans r s t h k.0, All-ranked r s ts h k.1)

insert_result-IsRanked :
    (r : IpResult) (rs : List IpResult) → IsRanked rs → IsRanked (insert_result r rs)
unfolding insert_result
insert_result-IsRanked r [] h = (tt, tt)
insert_result-IsRanked r (s ∷ ss) h = elim (Bool-cases (ranks_before s r)) [
  | inl e ↦ rw e (
    All-insert_result (λ t. ranks_before t s ≡ false) r ss (ranks_before_asym s r e) h.0,
    insert_result-IsRanked r ss h.1,
  )
  | inr e ↦ rw e ((e, All-ranked r s ss e h.0), h)
]

insert_result-perm : (r : IpResult) (rs : List IpResult) → Perm (insert_result r rs) (r ∷ rs)
unfolding insert_result
insert_result-perm r [] = Perm.refl (r ∷ [])
insert_result-perm r (s ∷ ss) = elim (Bool-cases (ranks_before s r)) [
  | inl e ↦ rw e (Perm.trans (Perm.cons s (insert_result-perm r ss)) (Perm.swap r s ss))
  | inr e ↦ rw e (Perm.refl (r ∷ s ∷ ss))
]

rank-perm : (rs : List IpResult) → Perm (rank rs) rs
unfolding rank
rank-perm [] = Perm.refl []
rank-perm (r ∷ rs) = Perm.trans (insert_result-perm r (rank rs)) (Perm.cons r (rank-perm rs))

rank-IsRanked : (rs : List IpResult) → IsRanked (rank rs)
unfolding rank
rank-IsRanked [] = tt
rank-IsRanked (r ∷ rs) = insert_result-IsRanked r (rank rs) (rank-IsRanked rs)

-- Less loss, or the same loss and no more latency.
pub data Precedes (a b : IpResult) : Type 0 where
  less_loss : a.lost < b.lost → Precedes a b
  same_loss : a.lost ≡ b.lost → a.latency ≤ b.latency → Precedes a b

-- Each result precedes all those behind it.
abbrev pub IsOrdered : List IpResult → Type 0
IsOrdered [] = Unit
IsOrdered (r ∷ rs) = All (λ s. Precedes r s) rs × IsOrdered rs

-- The results with one loss and latency.
abbrev pub alike : ℕ → ℕ → List IpResult → List IpResult
alike lost latency [] = []
alike lost latency (r ∷ rs) =
    let rest = alike lost latency rs in
    if r.lost == lost && r.latency == latency then r ∷ rest else rest

ranks_before-Precedes : (a b : IpResult) → ranks_before b a ≡ false → Precedes a b
unfolding ranks_before
ranks_before-Precedes a b h = elim (Bool-cases (b.lost == a.lost)) [
  | inl e ↦ same_loss (sym ((==_iff b.lost a.lost).0 e)) (ground arith)
  | inr e ↦ less_loss (ground arith)
]

All-Precedes :
    (r : IpResult) (rs : List IpResult)
    → All (λ s. ranks_before s r ≡ false) rs
    → All (λ s. Precedes r s) rs
All-Precedes r [] h = tt
All-Precedes r (s ∷ ss) h = (ranks_before-Precedes r s h.0, All-Precedes r ss h.1)

IsRanked-IsOrdered : (rs : List IpResult) → IsRanked rs → IsOrdered rs
IsRanked-IsOrdered [] h = tt
IsRanked-IsOrdered (r ∷ rs) h = (All-Precedes r rs h.0, IsRanked-IsOrdered rs h.1)

-- A result that ranks before another one has not both its loss and its latency.
ranks_apart :
    (s r : IpResult) (lost latency : ℕ)
    → ranks_before s r ≡ true
    → (r.lost == lost && r.latency == latency) ≡ true
    → (s.lost == lost && s.latency == latency) ≡ false
unfolding ranks_before
ranks_apart s r lost latency h k = ground arith

alike-insert_result :
    (lost latency : ℕ) (r : IpResult) (rs : List IpResult)
    → alike lost latency (insert_result r rs) ≡ alike lost latency (r ∷ rs)
unfolding insert_result
alike-insert_result lost latency r [] = refl
alike-insert_result lost latency r (s ∷ ss) = elim (Bool-cases (ranks_before s r)) [
  | inr e ↦ rw e refl
  | inl e ↦ elim (Bool-cases (r.lost == lost && r.latency == latency)) [
    | inr f ↦ rw (e, alike-insert_result lost latency r ss, f) refl
    | inl f ↦
        rw (e, alike-insert_result lost latency r ss, f, ranks_apart s r lost latency e f) refl
  ]
]

alike-rank :
    (lost latency : ℕ) (rs : List IpResult) → alike lost latency (rank rs) ≡ alike lost latency rs
unfolding rank
alike-rank lost latency [] = refl
alike-rank lost latency (r ∷ rs) =
    alike-insert_result lost latency r (rank rs) ∙ rw (alike-rank lost latency rs) refl

-- The scan's results are put in order: none is lost or doubled, each has less loss than those
-- behind it, or the same loss and no more latency, and those with the same loss and latency stay in
-- the order they had.
pub rank-sorts :
    (rs : List IpResult)
    → IsOrdered (rank rs)
      × Perm (rank rs) rs
      × ((lost latency : ℕ) → alike lost latency (rank rs) ≡ alike lost latency rs)
rank-sorts rs = (
  IsRanked-IsOrdered (rank rs) (rank-IsRanked rs),
  rank-perm rs,
  λ lost latency. alike-rank lost latency rs,
)

pub All-rank {ℓ} : (P : IpResult → Type ℓ) (rs : List IpResult) → All P rs → All P (rank rs)
unfolding rank
All-rank P [] h = tt
All-rank P (r ∷ rs) h = All-insert_result P r (rank rs) h.0 (All-rank P rs h.1)

length-insert_result :
    (r : IpResult) (rs : List IpResult) → length (insert_result r rs) ≡ suc (length rs)
unfolding insert_result
length-insert_result r [] = refl
length-insert_result r (s ∷ ss) = elim (Bool-cases (ranks_before s r)) [
  | inl e ↦ rw e (ap suc (length-insert_result r ss))
  | inr e ↦ rw e
]

pub length-rank : (rs : List IpResult) → length (rank rs) ≡ length rs
unfolding rank
length-rank [] = refl
length-rank (r ∷ rs) = length-insert_result r (rank rs) ∙ ap suc (length-rank rs)
