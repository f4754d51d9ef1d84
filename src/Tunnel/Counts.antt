-- ===== src/Tunnel/Counts.antt =====
-- internal/tunnel.go. What is counted in the events of a tunnel: the servers' connections opened
-- and closed.
use lumine_android.Prelude.{
  Bytes, List, Option, [], arith, false, if◌then◌else◌, is_some, map, none, refl, some, suc, true,
  ℕ, ◌++◌, ◌+◌, ◌∷◌, ◌≡◌,
}
use lumine_android.Tunnel.Wire.{Wire}
use lumine_android.Tunnel.State.{
  TunnelEvent, dialed, close_server, wired, to_client, replied, requested, TunnelState,
}

abbrev pub opened : List TunnelEvent → ℕ
opened [] = 0
opened (dialed address true ∷ es) = suc (opened es)
opened (_ ∷ es) = opened es

abbrev pub closed_count : List TunnelEvent → ℕ
closed_count [] = 0
closed_count (close_server ∷ es) = suc (closed_count es)
closed_count (_ ∷ es) = closed_count es

abbrev pub open_count : TunnelState → ℕ
open_count s = if is_some s.server then 1 else 0

-- `given` connections at the start and the opened ones are the closed and the open ones.
pub record IsBalanced (given : ℕ) (s : TunnelState) : Type 0 where
  pub balance : opened s.events + given ≡ closed_count s.events + open_count s

pub opened-append : (xs ys : List TunnelEvent) → opened (xs ++ ys) ≡ opened xs + opened ys
opened-append [] ys = omega arith
opened-append (dialed a true ∷ xs) ys = omega (arith, opened-append xs ys)
opened-append (dialed a false ∷ xs) ys = opened-append xs ys
opened-append (close_server ∷ xs) ys = opened-append xs ys
opened-append (wired e ∷ xs) ys = opened-append xs ys
opened-append (to_client b ∷ xs) ys = opened-append xs ys
opened-append (replied r ∷ xs) ys = opened-append xs ys
opened-append (requested ∷ xs) ys = opened-append xs ys

pub closed_count-append :
    (xs ys : List TunnelEvent) → closed_count (xs ++ ys) ≡ closed_count xs + closed_count ys
closed_count-append [] ys = omega arith
closed_count-append (dialed a true ∷ xs) ys = closed_count-append xs ys
closed_count-append (dialed a false ∷ xs) ys = closed_count-append xs ys
closed_count-append (close_server ∷ xs) ys = omega (arith, closed_count-append xs ys)
closed_count-append (wired e ∷ xs) ys = closed_count-append xs ys
closed_count-append (to_client b ∷ xs) ys = closed_count-append xs ys
closed_count-append (replied r ∷ xs) ys = closed_count-append xs ys
closed_count-append (requested ∷ xs) ys = closed_count-append xs ys

pub opened-wired : (w : Wire) → opened (map wired w) ≡ 0
opened-wired [] = refl
opened-wired (e ∷ w) = opened-wired w

pub closed_count-wired : (w : Wire) → closed_count (map wired w) ≡ 0
closed_count-wired [] = refl
closed_count-wired (e ∷ w) = closed_count-wired w

-- What `switch_server` closes.
abbrev pub closing : Option Bytes → List TunnelEvent
closing o = if is_some o then close_server ∷ [] else []

pub opened-closing : (o : Option Bytes) → opened (closing o) ≡ 0
opened-closing none = refl
opened-closing (some a) = refl

pub closed_count-closing :
    (o : Option Bytes) → closed_count (closing o) ≡ (if is_some o then 1 else 0)
closed_count-closing none = refl
closed_count-closing (some a) = refl
