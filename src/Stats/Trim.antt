-- ===== src/Stats/Trim.antt =====
-- mobile/stats.go. The events that are kept are the last 80.
use lumine_android.Stats.State.{max_events, trim_events}
use lumine_android.Prelude.{
  Bool-cases, List, [], ap, arith, drop, drop-append-le, drop-drop, false, inl, inr, leb, length,
  length-append, length-drop, ltb, refl, sym, take, take-append, true, ℕ, ◌++◌, ◌+◌, ◌-◌, ◌∙◌, ◌∷◌,
  ◌≡◌,
}

abbrev pub last_events {ℓ} : {A : Type ℓ} → List A → List A
last_events xs = drop (length xs - max_events) xs

module _ {ℓ} {A : Type ℓ} where
  take-append-exact : (n : ℕ) (xs ys : List A) → length xs ≡ n → take n (xs ++ ys) ≡ xs
  take-append-exact n xs ys h = rw (← h) (take-append xs ys)

  trim_events-drop :
      (n : ℕ) (zs : List A)
      → n + max_events ≡ length zs - 1
      → trim_events (drop n zs) ≡ drop (length zs - max_events) zs
  unfolding trim_events
  trim_events-drop n zs h =
      let long : ltb max_events (length (drop n zs)) ≡ true = ground (arith, length-drop n zs) in
      let same : n + (length (drop n zs) - max_events) ≡ length zs - max_events =
        omega (arith, length-drop n zs) in
      let moved : drop (length (drop n zs) - max_events) (drop n zs)
          ≡ drop (length zs - max_events) zs =
        drop-drop (length (drop n zs) - max_events) n zs ∙ ap (λ k. drop k zs) same in
      rw (long, moved)
        (take-append-exact max_events (drop (length zs - max_events) zs) _
          (omega (arith, length-drop (length zs - max_events) zs)))

  -- Appending to the last events and trimming gives the last events of the longer list.
  pub trim_events-last_events :
      (xs : List A) (x : A) → trim_events (last_events xs ++ x ∷ []) ≡ last_events (xs ++ x ∷ [])
  unfolding trim_events
  trim_events-last_events xs x =
      let n = length xs - max_events in
      let one : length (xs ++ x ∷ []) ≡ length xs + 1 = length-append xs (x ∷ []) in
      let whole : last_events xs ++ x ∷ [] ≡ drop n (xs ++ x ∷ []) =
        sym (drop-append-le n xs (x ∷ []) (omega arith)) in
      rw whole (elim (Bool-cases (leb max_events (length xs))) [
        | inl e ↦ trim_events-drop n (xs ++ x ∷ []) (ground (arith, one))
        | inr e ↦
            let none_dropped : n ≡ 0 = ground (arith, one) in
            let none_over : length (xs ++ x ∷ []) - max_events ≡ 0 = ground (arith, one) in
            let short : ltb max_events (length (xs ++ x ∷ [])) ≡ false = ground (arith, one) in
            rw (none_dropped, none_over, short) refl
      ])
