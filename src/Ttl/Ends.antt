-- ===== src/Ttl/Ends.antt =====
-- internal/desync_rules.go. The loop of `parseTTLRules` ends: each rule takes a byte or more.
use lumine_android.Ttl.Rules.{
  Rule, RuleError, no_fuel, parse_right, parse_rules, scan_digits, skip_semicolon, parse_ttl_rules,
  sort_rules,
}
use mathlib.Core.Option
use lumine_android.Prelude.{
  Bool, Bool-cases, Bytes, List, Option, Result, [], arith, err, false, inl, inr, is_empty, length,
  not, ok, reject, suc, true, zero, ℕ, ◌&&◌, ◌*◌, ◌++◌, ◌+◌, ◌-◌, ◌<◌, ◌==◌, ◌>>=◌, ◌∷◌, ◌≡◌, ◌≢◌,
  ◌≤◌,
}

length-scan_digits :
    (any : Bool) (acc : ℕ) (b : Bytes) → length (scan_digits any acc b).2 ≤ length b
unfolding scan_digits
length-scan_digits any acc [] = omega arith
length-scan_digits any acc (c ∷ cs) =
    ground (arith, length-scan_digits true (acc * 10 + (c - b'0')) cs)

-- Digits that were found were taken.
scan_digits-shorter :
    (b : Bytes) → (scan_digits false 0 b).0 ≡ true → length (scan_digits false 0 b).2 < length b
unfolding scan_digits
scan_digits-shorter [] h = cc
scan_digits-shorter (c ∷ cs) h = ground (arith, length-scan_digits true (0 * 10 + (c - b'0')) cs)

length-skip_semicolon : (b : Bytes) → length (skip_semicolon b) ≤ length b
unfolding skip_semicolon
length-skip_semicolon [] = omega arith
length-skip_semicolon (c ∷ cs) = ground arith

-- A result that is not the fault of the fuel.
abbrev Ends : {A : Type 0} → Result RuleError A → Type 0
Ends r = r ≢ err no_fuel

data Right (b : Bytes) : Result RuleError (Rule × Bytes) → Type 0 where
  rule : {r : Rule} {rest : Bytes} → length rest ≤ length b → Right b (ok (r, rest))
  refused : {e : RuleError} → e ≢ no_fuel → Right b (err e)

parse_right-Right : (a : ℕ) (b : Bytes) → Right b (parse_right a b)
unfolding parse_right reject
parse_right-Right a [] = refused (λ e. cc)
parse_right-Right a (op ∷ rest) = elim (Bool-cases (not (op == b'-') && not (op == b'='))) [
  | inl e ↦ rw e (refused (λ e. cc))
  | inr e ↦ elim (Bool-cases (scan_digits false 0 rest).0) [
    | inr none_there ↦ rw (e, none_there) (refused (λ e. cc))
    | inl there ↦
        rw (e, there)
          (rule (
            omega (
              arith,
              length-scan_digits false 0 rest,
              length-skip_semicolon (scan_digits false 0 rest).2,
            )))
  ]
]

bind-Ends :
    (b : Bytes) (m : Result RuleError (Rule × Bytes)) {B : Type 0}
    (f : Rule × Bytes → Result RuleError B)
    → Right b m
    → ((r : Rule) (rest : Bytes) → length rest ≤ length b → Ends (f (r, rest)))
    → Ends (m >>= f)
bind-Ends b _ f (rule {r} {rest} h) k = k r rest h
bind-Ends b _ f (refused ne) k = λ e. ne cc

parse_rules-Ends :
    (fuel : ℕ) (rules : List Rule) (b : Bytes) → length b < fuel → Ends (parse_rules fuel rules b)
unfolding parse_rules
parse_rules-Ends zero rules b h = elim h [ ]
parse_rules-Ends (suc fuel) rules [] h = λ e. cc
parse_rules-Ends (suc fuel) rules (c ∷ cs) h =
    let left = scan_digits false 0 (c ∷ cs) in
    elim (Bool-cases left.0) [
      | inr none_there ↦ rw none_there (λ e. cc)
      | inl there ↦ elim (Bool-cases (is_empty left.2 && is_empty rules)) [
        | inl single ↦ rw (there, single) (λ e. cc)
        | inr more ↦
            rw (there, more)
              (bind-Ends left.2 (parse_right left.1 left.2) _ (parse_right-Right left.1 left.2)
                (λ r rest shorter.
                  parse_rules-Ends fuel (rules ++ r ∷ []) rest
                    (omega (arith, scan_digits-shorter (c ∷ cs) there))))
      ]
    ]

-- On every text the parser ends by itself: the fuel of the loop, one more than the length of the
-- text, is never used up.
pub parse_ttl_rules-Ends : (conf : Bytes) → parse_ttl_rules conf ≢ err no_fuel
unfolding parse_ttl_rules
parse_ttl_rules-Ends conf = elim (Bool-cases (length conf == 0)) [
  | inl e ↦ rw e (λ h. cc)
  | inr e ↦ rw e (
      keep (parse_rules (suc (length conf)) [] conf)
        (parse_rules-Ends (suc (length conf)) [] conf (omega arith)))
]
  where
    keep :
        (m : Result RuleError (Option (List Rule)))
        → Ends m
        → Ends (m >>= (λ rules. ok (Option.map sort_rules rules)))
    keep (ok o) h = λ e. cc
    keep (err k) h = λ e. h cc
