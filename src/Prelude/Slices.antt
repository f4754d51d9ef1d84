-- ===== src/Prelude/Slices.antt =====
-- Go's byte slices and strings as lists of byte values.
use Prim.Native.Char.{code}
use Prim.Native.String.{String}
use Prim.Native.Nat.{ℕ, ◌-◌, ◌+◌, ◌≤◌}
use mathlib.Core.Path.{◌≡◌}
use mathlib.Core.Logic.{◌↔◌}
use mathlib.Core.Bool.{Bool, true, false, ◌&&◌}
use mathlib.Core.List.{List, [], ◌∷◌, ◌++◌}
use native.Mathlib.Omega.{arith}
use lumine_android.Prelude.Tests.{◌==◌}
use lumine_android.Prelude.Lists.{take, drop, drop-drop, take-append-drop}

abbrev pub Bytes : Type 0
Bytes = List ℕ

-- The code points of a text, which are its bytes where it is ASCII.
abbrev pub codes : String → Bytes
codes String.[] = []
codes (String.◌∷◌ c s) = code c ∷ codes s

-- `xs[i:j]`, for bounds within the slice.
abbrev pub slice {ℓ} : {A : Type ℓ} → List A → ℕ → ℕ → List A
slice xs i j = take (j - i) (drop i xs)

pub slice-append-drop {ℓ} :
    {A : Type ℓ} (xs : List A) (i j : ℕ) → i ≤ j → slice xs i j ++ drop j xs ≡ drop i xs
slice-append-drop xs i j h =
    let e : i + (j - i) ≡ j = omega arith in
    let split : drop (j - i) (drop i xs) ≡ drop j xs = rw e at (drop-drop (j - i) i xs) in
    rw (← split) (take-append-drop (j - i) (drop i xs))

-- `==` on strings.
abbrev pub bytes_eq : Bytes → Bytes → Bool
bytes_eq [] [] = true
bytes_eq (x ∷ xs) (y ∷ ys) = x == y && bytes_eq xs ys
bytes_eq _ _ = false

pub bytes_eq_iff : (a b : Bytes) → (bytes_eq a b ≡ true) ↔ (a ≡ b)
bytes_eq_iff (x ∷ a) (y ∷ b) = ground (arith, bytes_eq_iff a b)
bytes_eq_iff _ _ = ground arith

-- `strings.HasPrefix`.
abbrev pub has_prefix : Bytes → Bytes → Bool
has_prefix s [] = true
has_prefix [] (p ∷ ps) = false
has_prefix (c ∷ cs) (p ∷ ps) = c == p && has_prefix cs ps
