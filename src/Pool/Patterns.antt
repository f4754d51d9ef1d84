-- ===== src/Pool/Patterns.antt =====
-- internal/utils.go `expandPattern` and `splitByPipe`: `a(b|c)d` stands for `abd` and `acd`. The
-- text is a list of bytes: the characters that are looked for are ASCII, so that splitting bytes
-- and splitting characters is one thing where the text is UTF-8, as JSON strings are.
use mathlib.Core.Option
use lumine_android.Prelude.{
  Bytes, List, Option, [], if◌then◌else◌, is_empty, map, none, some, suc, zero, ℕ, ◌&&◌, ◌++◌, ◌-◌,
  ◌==◌, ◌∷◌,
}

-- The loop of `splitByPipe`, with `curr` read so far.
unfoldable pub split_parts : Bytes → Bytes → List Bytes
split_parts curr [] = curr ∷ []
split_parts curr (c ∷ cs) =
    let rest = split_parts (if c == b'|' then [] else curr ++ c ∷ []) cs in
    if c == b'|' then curr ∷ rest else rest

unfoldable pub split_by_pipe : Bytes → List Bytes
unfolding split_parts
split_by_pipe s = if is_empty s then [] ∷ [] else split_parts [] s

-- What stands before the first `(` and behind it.
unfoldable pub find_left : Bytes → Option (Bytes × Bytes)
find_left [] = none
find_left (c ∷ cs) =
    let rest = find_left cs in
    if c == b'(' then some ([], cs) else Option.map (λ r. (c ∷ r.0, r.1)) rest

-- `depth++` and `depth--`.
abbrev pub next_depth : ℕ → ℕ → ℕ
next_depth depth c = if c == b'(' then suc depth else if c == b')' then depth - 1 else depth

-- What stands before the `)` that closes the group, and behind it.
unfoldable pub find_right : ℕ → Bytes → Option (Bytes × Bytes)
find_right depth [] = none
find_right depth (c ∷ cs) =
    let rest = find_right (next_depth depth c) cs in
    if c == b')' && next_depth depth c == 0
    then some ([], cs)
    else Option.map (λ r. (c ∷ r.0, r.1)) rest

-- The prefix, the group's content and the suffix of a text with a group.
unfoldable pub find_group : Bytes → Option (Bytes × Bytes × Bytes)
unfolding find_left find_right
find_group s = elim (find_left s) [
  | none ↦ none
  | some (prefix, behind) ↦ Option.map (λ r. (prefix, r.0, r.1)) (find_right 1 behind)
]

-- `prefix + part + suff` for every suffix, and for every part.
unfoldable pub combine : Bytes → List Bytes → List Bytes → List Bytes
combine prefix [] suffixes = []
combine prefix (part ∷ parts) suffixes =
    map (λ suff. prefix ++ (part ++ suff)) suffixes ++ combine prefix parts suffixes

-- The recursion on the suffix runs on fuel; `none` is its end.
unfoldable pub expand_pattern : ℕ → Bytes → Option (List Bytes)
unfolding find_group split_by_pipe combine
expand_pattern zero s = none
expand_pattern (suc fuel) s = elim (find_group s) [
  | none ↦ some (split_by_pipe s)
  | some (prefix, inner, suffix) ↦
      Option.map (combine prefix (split_by_pipe inner)) (expand_pattern fuel suffix)
]
