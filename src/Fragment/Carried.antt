-- ===== src/Fragment/Carried.antt =====
-- internal/fragment.go. What the steps of `sendRecords` carry to a receiver that reads the stream,
-- and that they do not panic.
use lumine_android.Fragment.Split.{find_last_dot_or_mid_pos, split_and_append}
use lumine_android.Fragment.Pieces.{concat-split_and_append}
use lumine_android.Fragment.Send.{
  Operation, write, send_with_oob, await, panic, Label, oob_1, Step, Options, send_parts,
  cut_segments, chunk_step, chunk_steps, oob_steps, merged_rest, find_cut, merged_steps,
  segment_steps, single_record, single_rest, write_packet, write_segment, bare, remaining,
}
use lumine_android.Fragment.Send.{step}
use lumine_android.Prelude.{
  Bool, Bool-cases, Bytes, List, [], append-nil, append_assoc, arith, concat, concat-append, drop,
  drop-length, drop_of_get_elem?, false, get_elem?_lt, inl, inr, leb, leb→le, length, length-drop,
  le→leb, none, not, pos, refl, slice, slice-append-drop, some, suc, sym, take, take-add,
  take-append-drop, take-get_elem?-drop, true, zero, ℕ, ◌&&◌, ◌*◌, ◌++◌, ◌+◌, ◌-ℤ◌, ◌-◌, ◌/◌, ◌==◌,
  ◌||◌, ◌∷◌, ◌≡◌, ◌≢◌, ◌≤◌,
}

-- The urgent byte labelled `oob 1` is a byte of the message; the other urgent bytes are fillers,
-- which the receiver discards.
abbrev pub with_urgent : Label → Bytes → ℕ → Bytes
with_urgent oob_1 bytes urgent = bytes ++ urgent ∷ []
with_urgent _ bytes urgent = bytes

abbrev pub content : Operation → Label → Bytes
content (write bytes) label = bytes
content (send_with_oob bytes urgent) label = with_urgent label bytes urgent
content (await _ _) label = []
content panic label = []

unfoldable pub contents : List Step → Bytes
contents [] = []
contents (s ∷ steps) = content s.operation s.label ++ contents steps

abbrev pub is_panic : Operation → Bool
is_panic panic = true
is_panic _ = false

unfoldable pub is_safe : List Step → Bool
is_safe [] = true
is_safe (s ∷ steps) = not (is_panic s.operation) && is_safe steps

-- The steps do not panic, and carry these bytes.
pub record Carries (steps : List Step) (bytes : Bytes) : Type 0 where
  pub safe : is_safe steps ≡ true
  pub carried : contents steps ≡ bytes

Carries-nil : Carries [] []
unfolding is_safe contents
Carries-nil = ground arith

Carries-cons :
    (s : Step) {steps : List Step} {bytes : Bytes}
    → is_panic s.operation ≡ false
    → Carries steps bytes
    → Carries (s ∷ steps) (content s.operation s.label ++ bytes)
unfolding is_safe contents
Carries-cons s p c = ground arith

last-Carries :
    {bytes : Bytes} (op : Operation) (label : Label)
    → is_panic op ≡ false
    → content op label ≡ bytes
    → Carries (step op label ∷ []) bytes
unfolding is_safe contents
last-Carries op label p c = ground (arith, append-nil (content op label))

contents-append : (xs ys : List Step) → contents (xs ++ ys) ≡ contents xs ++ contents ys
unfolding contents
contents-append [] ys = refl
contents-append (s ∷ xs) ys =
    rw (contents-append xs ys)
      (sym (append_assoc (content s.operation s.label) (contents xs) (contents ys)))

is_safe-append : (xs ys : List Step) → is_safe (xs ++ ys) ≡ (is_safe xs && is_safe ys)
unfolding is_safe
is_safe-append [] ys = refl
is_safe-append (s ∷ xs) ys = ground (arith, is_safe-append xs ys)

Carries-append :
    (xs ys : List Step) {a b : Bytes} → Carries xs a → Carries ys b → Carries (xs ++ ys) (a ++ b)
Carries-append xs ys c d = record {
  safe = rw (is_safe-append xs ys, c.safe, d.safe);
  carried = rw (contents-append xs ys, c.carried, d.carried);
}

send_parts-Carries :
    (o : Options) (label : ℕ → Label) (i : ℕ) (parts : List Bytes)
    → ((k : ℕ) → label k ≢ oob_1)
    → Carries (send_parts o label i parts) (concat parts)
unfolding send_parts is_safe contents
send_parts-Carries o label i [] ne = ground arith
send_parts-Carries o label i (p ∷ ps) ne = ground (arith, send_parts-Carries o label (i + 1) ps ne)

concat-cut_segments :
    (merged : Bytes) (base i n : ℕ)
    → concat (cut_segments merged base i (suc n)) ≡ drop (i * base) merged
unfolding cut_segments
concat-cut_segments merged base i zero = append-nil _
concat-cut_segments merged base i (suc n) =
    let e : (i + 1) * base ≡ i * base + base = grind arith in
    rw (concat-cut_segments merged base (i + 1) n, e)
      (slice-append-drop merged (i * base) (i * base + base) (omega arith))

chunk_step-content :
    (o : Options) (i : ℕ) (chunk : Bytes)
    → content (chunk_step o i chunk).operation (chunk_step o i chunk).label ≡ chunk
unfolding chunk_step
chunk_step-content o i [] = ground arith
chunk_step-content o i (x ∷ xs) =
    let (b, e) = get_elem?_lt (x ∷ xs) (length xs) (omega arith) in
    let whole = take-get_elem?-drop (x ∷ xs) (length xs) e in
    let gone : drop (length xs) xs ≡ [] = drop-length xs in
    let l : suc (length xs) - 1 ≡ length xs = omega arith in rw l (ground (arith, whole, gone, e))

chunk_step_safe :
    (o : Options) (i : ℕ) (chunk : Bytes) → is_panic (chunk_step o i chunk).operation ≡ false
unfolding chunk_step
chunk_step_safe o i chunk = ground arith

pub chunk_steps-Carries :
    (o : Options) (i : ℕ) (chunks : List Bytes) → Carries (chunk_steps o i chunks) (concat chunks)
unfolding chunk_steps is_safe contents
chunk_steps-Carries o i [] = ground arith
chunk_steps-Carries o i (c ∷ cs) =
    ground
      (arith, chunk_step_safe o i c, chunk_step-content o i c, chunk_steps-Carries o (i + 1) cs)

-- The urgent steps carry the first 35 bytes.
oob_steps-Carries :
    (o : Options) (bytes : Bytes) → 35 ≤ length bytes → Carries (oob_steps o bytes) (take 35 bytes)
unfolding oob_steps is_safe contents
oob_steps-Carries o bytes h =
    let (b, e) = get_elem?_lt bytes 15 (omega arith) in
    let parts = take-add 15 20 bytes in
    let tail = drop_of_get_elem? bytes 15 e in
    record {
      safe = refl;
      carried =
          rw (e, parts, tail)
            (rw (append-nil (slice bytes 16 35)) (append_assoc (take 15 bytes) (b ∷ []) _));
    }

pub merged_rest-Carries :
    (o : Options) (merged : Bytes) (segments : ℕ)
    → segments ≢ 0
    → Carries (merged_rest o merged (pos segments)) merged
unfolding merged_rest
merged_rest-Carries o merged zero ne = absurd (ne refl)
merged_rest-Carries o merged (suc n) ne =
    elim (Bool-cases (suc n == 1 || leb (length merged) (suc n))) [
      | inl one ↦ rw one (last-Carries (write merged) bare refl refl)
      | inr more ↦ rw more (
          rw concat_all at (
            send_parts-Carries o write_segment 0
              (cut_segments merged (length merged / suc n) 0 (suc n)) (λ k e. cc)))
    ]
  where
    concat_all : concat (cut_segments merged (length merged / suc n) 0 (suc n)) ≡ merged
    concat_all =
        let e : 0 * (length merged / suc n) ≡ 0 = omega arith in
        rw e at (concat-cut_segments merged (length merged / suc n) 0 n)

pub merged_steps-Carries :
    (o : Options) (merged : Bytes) (segments : ℕ)
    → segments ≢ 0
    → Carries (merged_steps o merged (pos segments)) merged
unfolding merged_steps
merged_steps-Carries o merged segments ne = elim (Bool-cases (o.oobex && leb 35 (length merged))) [
  | inl long ↦ rw long (
      rw take-append-drop at (
        Carries-append (oob_steps o merged) (merged_rest o (drop 35 merged) (pos segments))
          (oob_steps-Carries o merged (ground (arith, leb→le 35 (length merged))))
          (merged_rest-Carries o (drop 35 merged) segments ne)))
  | inr short ↦ rw short (merged_rest-Carries o merged segments ne)
]

-- A cut inside the message, wherever the name stands.
pub find_cut-InRange :
    (hello : Bytes) (offset len : ℕ)
    → offset + len ≤ length hello
    → (cut : ℕ) × (find_cut hello (pos offset) len ≡ some cut) × (offset ≤ cut)
unfolding find_cut find_last_dot_or_mid_pos
find_cut-InRange hello offset len h =
    (find_last_dot_or_mid_pos hello offset len, rw (le→leb _ _ h), ground arith)

pub segment_steps-Carries :
    (o : Options) (hello : Bytes) (offset len segments : ℕ)
    → offset + len ≤ length hello
    → 2 ≤ segments
    → Carries (segment_steps o hello (pos offset) len (pos segments)) hello
unfolding segment_steps
segment_steps-Carries o hello offset len segments h two =
    let (cut, found, _) = find_cut-InRange hello offset len h in
    let left = split_and_append (take cut hello) none (segments / 2) in
    let right = split_and_append (drop cut hello) none (segments - segments / 2) in
    let all : concat (left ++ right) ≡ hello =
      rw
        (
          concat-append left right,
          concat-split_and_append (take cut hello) (segments / 2) (omega arith),
          concat-split_and_append (drop cut hello) (segments - segments / 2) (omega arith),
        )
        (take-append-drop cut hello) in
    rw (found, segment_steps)
      (rw all at (send_parts-Carries o write_packet 0 (left ++ right) (λ k e. cc)))

pub single_rest-Carries :
    (o : Options) (hello : Bytes) (offset len segments : ℕ)
    → offset + len ≤ length hello
    → segments ≢ 0
    → Carries (single_rest o hello (pos offset) len (pos segments)) hello
unfolding single_rest
single_rest-Carries o hello offset len segments h ne = elim (Bool-cases (segments == 1)) [
  | inl one ↦ rw one (last-Carries (write hello) remaining refl refl)
  | inr more ↦ rw more (segment_steps-Carries o hello offset len segments h (ground arith))
]

pub single_record-Carries :
    (o : Options) (hello : Bytes) (offset len segments : ℕ)
    → 35 ≤ offset
    → offset + len ≤ length hello
    → segments ≢ 0
    → Carries (single_record o hello (pos offset) len (pos segments)) hello
unfolding single_record
single_record-Carries o hello offset len segments far h ne =
    elim (Bool-cases (o.oobex && leb 35 (length hello))) [
      | inl long ↦
          let back : pos offset -ℤ pos 35 ≡ pos (offset - 35) = ground arith in
          rw (long, back)
            (rw take-append-drop at (
              Carries-append (oob_steps o hello)
                (single_rest o (drop 35 hello) (pos (offset - 35)) len (pos segments))
                (oob_steps-Carries o hello (omega arith))
                (single_rest-Carries o (drop 35 hello) (offset - 35) len segments
                  (omega (arith, length-drop 35 hello)) ne)))
      | inr short ↦ rw short (single_rest-Carries o hello offset len segments h ne)
    ]
