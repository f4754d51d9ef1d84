-- ===== src/Ttl/Choice.antt =====
-- internal/desync.go and internal/desync_rules.go. Which rule `calcTTL` applies, and that the
-- parser ends.
use lumine_android.Ttl.Rules.{Rule, insert_rule, sort_rules, parse_rules, parse_ttl_rules}
use lumine_android.Ttl.Apply.{CalcError, apply_rules, no_matching_rule, load_ttl_rules}
use mathlib.Core.List.{Memᴰ}
use lumine_android.Prelude.{
  All, Bool-cases, Bytes, Holds, Holds-any, Holds-bind, Holds-ok, List, Option, Result, [], arith,
  err, fails, holds, if◌then◌else◌, inl, inr, leb_ℤ, leb→le, length, ltb, ltb→lt, neg_part, none,
  ok, pos, pos_part, refl, some, suc, ℕ, ℤ, ◌+◌, ◌-ℤ◌, ◌<ℤ◌, ◌==◌, ◌∷◌, ◌≡◌, ◌≤ℤ◌, ◌≤◌, ◌⊎◌,
}

-- The highest threshold first.
abbrev pub IsSorted : List Rule → Type 0
IsSorted [] = Unit
IsSorted (r ∷ rs) = All (λ s. s.threshold ≤ r.threshold) rs × IsSorted rs

All-insert_rule {ℓ} :
    (P : Rule → Type ℓ) (r : Rule) (rs : List Rule) → P r → All P rs → All P (insert_rule r rs)
unfolding insert_rule
All-insert_rule P r [] h k = (h, tt)
All-insert_rule P r (s ∷ ss) h k = elim (Bool-cases (ltb r.threshold s.threshold)) [
  | inl e ↦ rw e (k.0, All-insert_rule P r ss h k.1)
  | inr e ↦ rw e (h, k)
]

All-le :
    (a b : ℕ) (rs : List Rule)
    → a ≤ b
    → All (λ s. s.threshold ≤ a) rs
    → All (λ s. s.threshold ≤ b) rs
All-le a b [] h k = tt
All-le a b (r ∷ rs) h k = (omega arith, All-le a b rs h k.1)

insert_rule-IsSorted : (r : Rule) (rs : List Rule) → IsSorted rs → IsSorted (insert_rule r rs)
unfolding insert_rule
insert_rule-IsSorted r [] h = (tt, tt)
insert_rule-IsSorted r (s ∷ ss) h = elim (Bool-cases (ltb r.threshold s.threshold)) [
  | inl e ↦ rw e (
    All-insert_rule (λ t. t.threshold ≤ s.threshold) r ss
        (ground (arith, ltb→lt r.threshold s.threshold)) h.0,
    insert_rule-IsSorted r ss h.1,
  )
  | inr e ↦
      let le : s.threshold ≤ r.threshold = ground arith in
      rw e ((le, All-le s.threshold r.threshold ss le h.0), h)
]

pub sort_rules-IsSorted : (rs : List Rule) → IsSorted (sort_rules rs)
unfolding sort_rules
sort_rules-IsSorted [] = tt
sort_rules-IsSorted (r ∷ rs) = insert_rule-IsSorted r (sort_rules rs) (sort_rules-IsSorted rs)

-- What one rule makes of a TTL.
abbrev pub result_of : Rule → ℤ → ℤ
result_of r ttl = if r.typ == b'-' then ttl -ℤ pos r.val else pos r.val

-- A rule of the list, of those at whose threshold the TTL is or above one with the highest.
pub record IsBest (rules : List Rule) (ttl : ℤ) (r : Rule) : Type 0 where
  pub listed : Memᴰ r rules
  pub reached : pos r.threshold ≤ℤ ttl
  pub highest : All (λ s. (ttl <ℤ pos s.threshold) ⊎ (s.threshold ≤ r.threshold)) rules

All-highest :
    (rs : List Rule) (ttl : ℤ) (r : Rule)
    → All (λ s. s.threshold ≤ r.threshold) rs
    → All (λ s. (ttl <ℤ pos s.threshold) ⊎ (s.threshold ≤ r.threshold)) rs
All-highest [] ttl r h = tt
All-highest (s ∷ ss) ttl r h = (inr h.0, All-highest ss ttl r h.1)

-- The outcome of the rules on a TTL: that of a best rule, or an error if no rule is reached.
pub Decides : List Rule → ℤ → Result CalcError ℤ → Type 0
Decides rules ttl (ok n) = (r : Rule) × IsBest rules ttl r × (n ≡ result_of r ttl)
Decides rules ttl (err e) = (e ≡ no_matching_rule) × All (λ s. ttl <ℤ pos s.threshold) rules

apply_rules-Decides : (rs : List Rule) (ttl : ℤ) → IsSorted rs → Decides rs ttl (apply_rules rs ttl)
unfolding apply_rules Decides
apply_rules-Decides [] ttl h = (refl, tt)
apply_rules-Decides (r ∷ rs) ttl h = elim (Bool-cases (leb_ℤ (pos r.threshold) ttl)) [
  | inl e ↦ rw e (
    r,
    record {
      listed = Memᴰ.head refl;
      reached = ground (
        arith,
        leb→le (pos_part (pos r.threshold) + neg_part ttl)
            (pos_part ttl + neg_part (pos r.threshold)),
      );
      highest = (inr (omega arith), All-highest rs ttl r h.0);
    },
    refl,
  )
  | inr e ↦ rw e (lift (apply_rules rs ttl) (ground arith) (apply_rules-Decides rs ttl h.1))
]
  where
    lift :
        (out : Result CalcError ℤ)
        → ttl <ℤ pos r.threshold
        → Decides rs ttl out
        → Decides (r ∷ rs) ttl out
    lift (ok n) below (s, b, q) = (
      s,
      record { listed = Memᴰ.tail b.listed; reached = b.reached; highest = (inl below, b.highest) },
      q,
    )
    lift (err e) below (q, all) = (q, (below, all))

OptionSorted : Option (List Rule) → Type 0
OptionSorted none = Unit
OptionSorted (some rules) = IsSorted rules

parse_ttl_rules-Holds : (conf : Bytes) → Holds OptionSorted (parse_ttl_rules conf)
unfolding parse_ttl_rules OptionSorted
parse_ttl_rules-Holds conf = elim (Bool-cases (length conf == 0)) [
  | inl e ↦ rw e fails
  | inr e ↦ rw e (
      Holds-bind (λ _. Unit {0}) OptionSorted (parse_rules (suc (length conf)) [] conf) _
        (Holds-any (parse_rules (suc (length conf)) [] conf))
        (elim [ none ↦ λ _. holds tt | some rules ↦ λ _. holds (sort_rules-IsSorted rules) ]))
]

-- A text that is read as rules gives a function which, on every TTL, applies a rule with the
-- highest threshold that the TTL reaches, and which fails exactly where the TTL is below all
-- thresholds, with `no_matching_rule`.
pub load_ttl_rules-Decides :
    (conf : Bytes) (rules : List Rule)
    → parse_ttl_rules conf ≡ ok (some rules)
    → (f : ℤ → Result CalcError ℤ) × (load_ttl_rules conf ≡ ok f)
      × ((ttl : ℤ) → Decides rules ttl (f ttl))
unfolding load_ttl_rules OptionSorted
load_ttl_rules-Decides conf rules h = (
  apply_rules rules,
  rw h,
  λ ttl. apply_rules-Decides rules ttl (Holds-ok (parse_ttl_rules-Holds conf) h),
)
