-- ===== src/Ttl/Apply.antt =====
-- internal/desync.go `loadTTLRules` (the function `calcTTL` that it installs), `getFakeTTL` and
-- `getMinimalReachableTTL`.
use lumine_android.Ttl.Rules.{Rule, RuleError, is_digit, parse_ttl_rules}
use lumine_android.Policy.Types.{Policy}
use lumine_android.Prelude.{
  Bool, Bytes, List, Option, Result, [], err, false, if◌then◌else◌, leb_ℤ, none, not, ok, pos,
  reject, some, true, unset_int, ℕ, ℤ, ◌*◌, ◌+◌, ◌-ℤ◌, ◌-◌, ◌==ℤ◌, ◌==◌, ◌>>=◌, ◌>>◌, ◌||◌, ◌∷◌,
}

-- The error of `calcTTL`.
pub data CalcError : Type 0 where
  invalid_integer no_matching_rule : CalcError

-- The loop over the text of a single number.
unfoldable pub read_integer : ℕ → Bytes → Result CalcError ℤ
read_integer val [] = ok (pos val)
read_integer val (c ∷ cs) =
    let rest = read_integer (val * 10 + (c - b'0')) cs in
    if not (is_digit c) then err invalid_integer else rest

-- The first rule at whose threshold the TTL is, or above.
unfoldable pub apply_rules : List Rule → ℤ → Result CalcError ℤ
apply_rules [] ttl = err no_matching_rule
apply_rules (r ∷ rs) ttl =
    let rest = apply_rules rs ttl in
    if leb_ℤ (pos r.threshold) ttl
    then ok (if r.typ == b'-' then ttl -ℤ pos r.val else pos r.val)
    else rest

-- What `loadTTLRules` installs for a text.
unfoldable pub calc_ttl : Bytes → Option (List Rule) → ℤ → Result CalcError ℤ
unfolding read_integer apply_rules
calc_ttl conf none ttl = read_integer 0 conf
calc_ttl conf (some rules) ttl = apply_rules rules ttl

unfoldable pub load_ttl_rules : Bytes → Result RuleError (ℤ → Result CalcError ℤ)
unfolding calc_ttl parse_ttl_rules
load_ttl_rules conf = parse_ttl_rules conf >>= (λ rules. ok (calc_ttl conf rules))

pub data FakeTtlError (E : Type 0) : Type 0 where
  detect_failed : E → FakeTtlError E
  not_reachable : FakeTtlError E
  calc_failed : CalcError → FakeTtlError E

-- `detect` stands for `detectMinimalReachableTTL` of the platform, with or without the single
-- flight, which makes the same call once for several callers; `cached` is what the cache holds for
-- the address, `none` without a cache.
module _ {E : Type 0} (detect : Bytes → Bool → ℤ → ℤ → ℤ → Result E ℤ) where
  unfoldable pub get_minimal_reachable_ttl :
      Option ℤ → Bytes → Bool → ℤ → ℤ → ℤ → Result E (ℤ × Bool)
  get_minimal_reachable_ttl (some ttl) addr ipv6 max_ttl attempts dial_timeout = ok (ttl, true)
  get_minimal_reachable_ttl none addr ipv6 max_ttl attempts dial_timeout =
      detect addr ipv6 max_ttl attempts dial_timeout >>= (λ found. ok (found, false))

  abbrev wrap_detect : Result E (ℤ × Bool) → Result (FakeTtlError E) (ℤ × Bool)
  wrap_detect (ok r) = ok r
  wrap_detect (err e) = err (detect_failed e)

  abbrev wrap_calc : Result CalcError ℤ → Result (FakeTtlError E) ℤ
  wrap_calc (ok r) = ok r
  wrap_calc (err e) = err (calc_failed e)

  -- `calc` is the variable `calcTTL`, nil without rules.
  unfoldable pub get_fake_ttl :
      Option (ℤ → Result CalcError ℤ) → Option ℤ → Policy → Bytes → Bool → Result (FakeTtlError E) ℤ
  unfolding get_minimal_reachable_ttl
  get_fake_ttl calc cached p addr ipv6 =
      if not (p.fake_ttl ==ℤ pos 0 || p.fake_ttl ==ℤ unset_int)
      then ok p.fake_ttl
      else (wrap_detect
            (get_minimal_reachable_ttl cached addr ipv6 p.max_ttl p.attempts p.single_timeout)
          >>= (λ found.
              reject (found.0 ==ℤ unset_int) not_reachable
              >> elim calc [ none ↦ ok (found.0 -ℤ pos 1) | some f ↦ wrap_calc (f found.0) ]))
