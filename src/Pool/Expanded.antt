-- ===== src/Pool/Expanded.antt =====
-- internal/utils.go. What `expandPattern` ends with: a list for every text, and what splitting
-- keeps.
use lumine_android.Pool.Patterns.{
  combine, expand_pattern, find_group, find_left, find_right, next_depth, split_by_pipe,
}
use mathlib.Core.Option
use lumine_android.Prelude.{
  Bool-cases, Bytes, List, Option, Option-cases, [], arith, inl, inr, length, none, refl, some, suc,
  zero, ℕ, ◌&&◌, ◌<◌, ◌==◌, ◌∷◌, ◌≡◌,
}

-- What stands behind, if anything was found, is shorter than `n`.
LeavesLess : {A : Type 0} → ℕ → Option (A × Bytes) → Type 0
LeavesLess n none = Unit
LeavesLess n (some r) = length r.1 < n

LeavesLess-map :
    {A B : Type 0} (n : ℕ) (f : A → B) (o : Option (A × Bytes))
    → LeavesLess n o
    → LeavesLess (suc n) (Option.map (λ r. (f r.0, r.1)) o)
unfolding LeavesLess
LeavesLess-map n f none h = tt
LeavesLess-map n f (some r) h = omega arith

find_left-LeavesLess : (s : Bytes) → LeavesLess (length s) (find_left s)
unfolding find_left LeavesLess
find_left-LeavesLess [] = tt
find_left-LeavesLess (c ∷ cs) = elim (Bool-cases (c == b'(')) [
  | inl e ↦ rw e (omega arith)
  | inr e ↦ rw e (LeavesLess-map (length cs) (◌∷◌ c) (find_left cs) (find_left-LeavesLess cs))
]

find_right-LeavesLess : (depth : ℕ) (s : Bytes) → LeavesLess (length s) (find_right depth s)
unfolding find_right LeavesLess
find_right-LeavesLess depth [] = tt
find_right-LeavesLess depth (c ∷ cs) = elim (Bool-cases (c == b')' && next_depth depth c == 0)) [
  | inl e ↦ rw e (omega arith)
  | inr e ↦ rw e (
      LeavesLess-map (length cs) (◌∷◌ c) (find_right (next_depth depth c) cs)
        (find_right-LeavesLess (next_depth depth c) cs))
]

find_group-shorter :
    (s : Bytes) {prefix inner suffix : Bytes}
    → find_group s ≡ some (prefix, inner, suffix)
    → length suffix < length s
unfolding find_group LeavesLess
find_group-shorter s {prefix} {inner} {suffix} h = on_left (find_left s) (find_left-LeavesLess s) h
  where
    on_right :
        (n : ℕ) (p : Bytes) (o : Option (Bytes × Bytes))
        → LeavesLess n o
        → Option.map {B = Bytes × Bytes × Bytes} (λ r. (p, r.0, r.1)) o
          ≡ some (prefix, inner, suffix)
        → length suffix < n
    on_right n p none k e = cc
    on_right n p (some r) k e = let same : r.1 ≡ suffix = cc in rw (← same) k

    on_left :
        (o : Option (Bytes × Bytes))
        → LeavesLess (length s) o
        → elim o [
          | none ↦ none
          | some (p, behind) ↦
              Option.map {B = Bytes × Bytes × Bytes} (λ r. (p, r.0, r.1)) (find_right 1 behind)
        ]
          ≡ some (prefix, inner, suffix)
        → length suffix < length s
    on_left none k e = cc
    on_left (some (p, behind)) k e =
        let less : length suffix < length behind =
          on_right (length behind) p (find_right 1 behind) (find_right-LeavesLess 1 behind) e in
        omega arith

-- Fuel above the length is enough.
pub expand_pattern-some :
    (fuel : ℕ) (s : Bytes)
    → length s < fuel
    → (texts : List Bytes) × (expand_pattern fuel s ≡ some texts)
unfolding expand_pattern
expand_pattern-some zero s h = elim h [ ]
expand_pattern-some (suc fuel) s h = elim (Option-cases (find_group s)) [
  | inl e ↦ (split_by_pipe s, rw (expand_pattern, e) refl)
  | inr ((prefix, inner, suffix), e) ↦
      let less : length suffix < length s = find_group-shorter s e in
      let (texts, q) = expand_pattern-some fuel suffix (omega arith) in
      (combine prefix (split_by_pipe inner) texts, rw (expand_pattern, e, q) refl)
]
