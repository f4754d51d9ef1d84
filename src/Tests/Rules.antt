-- ===== src/Tests/Rules.antt =====
-- Rules for the TTL of fake packets.
use lumine_android.Prelude.{
  List, Result, [], codes, err, ok, pos, refl, reject, some, ℤ, ◌∷◌, ◌≡◌, ◌≢◌,
}
use lumine_android.Ttl.Ends.{parse_ttl_rules-Ends}
use lumine_android.Ttl.Choice.{load_ttl_rules-Decides, Decides}
use lumine_android.Ttl.Apply.{CalcError, load_ttl_rules, apply_rules}
use lumine_android.Ttl.Rules.{Rule, no_fuel, parse_ttl_rules}

abbrev two_rules : List Rule
two_rules =
    record { threshold = 10; typ = b'-'; val = 1 }
    ∷ record { threshold = 5; typ = b'='; val = 3 }
    ∷ []

read_two : parse_ttl_rules (codes "5=3;10-1") ≡ ok (some two_rules)
unfolding parse_ttl_rules reject
read_two = refl

applied : apply_rules two_rules (pos 12) ≡ ok (pos 11)
unfolding apply_rules
applied = refl

load_ttl_rules-Decides_example :
    (f : ℤ → Result CalcError ℤ) × (load_ttl_rules (codes "5=3;10-1") ≡ ok f)
    × ((ttl : ℤ) → Decides two_rules ttl (f ttl))
load_ttl_rules-Decides_example = load_ttl_rules-Decides (codes "5=3;10-1") two_rules read_two

parse_ttl_rules-Ends_example : parse_ttl_rules (codes "10-1;5=") ≢ err no_fuel
parse_ttl_rules-Ends_example = parse_ttl_rules-Ends (codes "10-1;5=")
