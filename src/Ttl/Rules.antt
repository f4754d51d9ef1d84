-- ===== src/Ttl/Rules.antt =====
-- internal/desync_rules.go `parseTTLRules`: rules such as `10-1;5=3`, sorted by threshold, the
-- highest first. Numbers are unbounded here; the source's `int` wraps at 2^63, which a text of 19
-- digits or more can reach.
use mathlib.Core.Option
use lumine_android.Prelude.{
  Bool, Bytes, List, Option, Result, [], err, false, if◌then◌else◌, is_empty, leb, length, ltb,
  none, not, ok, reject, some, suc, true, zero, ℕ, ◌&&◌, ◌*◌, ◌++◌, ◌+◌, ◌-◌, ◌==◌, ◌>>=◌, ◌>>◌,
  ◌∷◌,
}

pub record Rule : Type 0 where
  pub threshold : ℕ
  pub typ : ℕ
  pub val : ℕ

-- `no_fuel` is the loop cut off, which does not happen.
pub data RuleError : Type 0 where
  empty_config missing_left_number missing_operator invalid_operator : RuleError
  missing_right_number no_fuel : RuleError

abbrev pub is_digit : ℕ → Bool
is_digit c = leb b'0' c && leb c b'9'

-- The digits at the front, read with `acc*10 + int(c-'0')`: whether there were any, the number and
-- what follows.
unfoldable pub scan_digits : Bool → ℕ → Bytes → Bool × ℕ × Bytes
scan_digits any acc [] = (any, acc, [])
scan_digits any acc (c ∷ cs) =
    let rest = scan_digits true (acc * 10 + (c - b'0')) cs in
    if is_digit c then rest else (any, acc, c ∷ cs)

-- `if i < len(b) && b[i] == ';' { i++ }`
unfoldable pub skip_semicolon : Bytes → Bytes
skip_semicolon [] = []
skip_semicolon (c ∷ cs) = if c == b';' then cs else c ∷ cs

-- The operator and the right number behind the left one.
unfoldable pub parse_right : ℕ → Bytes → Result RuleError (Rule × Bytes)
unfolding scan_digits skip_semicolon
parse_right a [] = err missing_operator
parse_right a (op ∷ rest) = do
  reject (not (op == b'-') && not (op == b'=')) invalid_operator
  let right = scan_digits false 0 rest
  reject (not right.0) missing_right_number
  ok (record { threshold = a; typ = op; val = right.1 }, skip_semicolon right.2)

-- The loop over the rules. `none` is the nil list of a text that is one number.
unfoldable pub parse_rules : ℕ → List Rule → Bytes → Result RuleError (Option (List Rule))
unfolding parse_right
parse_rules zero rules b = err no_fuel
parse_rules (suc fuel) rules [] = ok (some rules)
parse_rules (suc fuel) rules (c ∷ cs) =
    let left = scan_digits false 0 (c ∷ cs) in
    if not left.0
    then err missing_left_number
    else if is_empty left.2 && is_empty rules
    then ok none
    else (parse_right left.1 left.2 >>= (λ r. parse_rules fuel (rules ++ r.0 ∷ []) r.1))

-- `sort.Slice` by threshold, the highest first. The source's sort may leave rules of one threshold
-- in any order; here they keep theirs.
unfoldable pub insert_rule : Rule → List Rule → List Rule
insert_rule r [] = r ∷ []
insert_rule r (s ∷ ss) = if ltb r.threshold s.threshold then s ∷ insert_rule r ss else r ∷ s ∷ ss

unfoldable pub sort_rules : List Rule → List Rule
unfolding insert_rule
sort_rules [] = []
sort_rules (r ∷ rs) = insert_rule r (sort_rules rs)

unfoldable pub parse_ttl_rules : Bytes → Result RuleError (Option (List Rule))
unfolding parse_rules sort_rules
parse_ttl_rules conf =
    if length conf == 0
    then err empty_config
    else (parse_rules (suc (length conf)) [] conf >>= (λ rules. ok (Option.map sort_rules rules)))

unfoldable pub validate_ttl_rules : Bytes → Result RuleError (Unit {0})
unfolding parse_ttl_rules
validate_ttl_rules conf = parse_ttl_rules conf >>= (λ _. ok tt)
