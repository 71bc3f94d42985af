-- ===== src/CaPins/Stored.antt =====
-- The pin file: what is written is what is read back.
use mathlib.Core.List.{reverse, reverse_aux, reverse-reverse}
use tracedown_probe_agent.Base.{
  ℕ, ◌≡◌, ◌≢◌, refl, ap, ◌∙◌, Bool, true, false, ◌||◌, not, some, List, [], ◌∷◌, ◌++◌, Text, any,
  all, map, All, arith, select,
}
use tracedown_probe_agent.Bytes.{text_eq, text_eq_sound}
use tracedown_probe_agent.Spaces.{strip, strip_left, is_blank}
use tracedown_probe_agent.CaPins.{
  is_line_break, onto_line, split_lines, is_filled, read_pins, text_lt, place, insert_pin,
  sorted_pins, join_lines, write_pins,
}

-- A text that is not empty and holds no space, as a hexadecimal digest is.
abbrev pub IsWord : Text → Type 0
IsWord s = (s ≢ []) × (all (λ c. not (is_blank c)) s ≡ true)

-- A line break is a space.
is_line_break-is_blank : (c : ℕ) → is_blank c ≡ false → is_line_break c ≡ false
unfolding is_blank
is_line_break-is_blank c h = ground arith

split_lines-append :
    (s rest : Text)
    → all (λ c. not (is_blank c)) s ≡ true
    → split_lines (s ++ (10 ∷ rest)) ≡ s ∷ split_lines rest
unfolding split_lines
split_lines-append [] rest h = refl
split_lines-append (c ∷ s) rest h =
    let ih = split_lines-append s rest (ground arith) in
    let e = is_line_break-is_blank c (ground arith) in
    ap
      (λ b. elim b [
        | true ↦ [] ∷ split_lines (s ++ (10 ∷ rest))
        | false ↦ onto_line c (split_lines (s ++ (10 ∷ rest)))
      ])
      e
    ∙ ap (onto_line c) ih

split_lines-join_lines :
    (ss : List Text) → All IsWord ss → split_lines (join_lines ss) ≡ ss ++ ([] ∷ [])
unfolding split_lines join_lines
split_lines-join_lines [] h = refl
split_lines-join_lines (s ∷ ss) h =
    split_lines-append s (join_lines ss) h.0.1 ∙ ap (λ l. s ∷ l) (split_lines-join_lines ss h.1)

strip_left-word : (s : Text) → all (λ c. not (is_blank c)) s ≡ true → strip_left s ≡ s
unfolding strip_left
strip_left-word [] h = refl
strip_left-word (c ∷ s) h = ground arith

all-reverse_aux :
    (s t : Text)
    → all (λ c. not (is_blank c)) s ≡ true
    → all (λ c. not (is_blank c)) t ≡ true
    → all (λ c. not (is_blank c)) (reverse_aux s t) ≡ true
all-reverse_aux [] t h k = k
all-reverse_aux (c ∷ s) t h k = all-reverse_aux s (c ∷ t) (ground arith) (ground arith)

strip-word : (s : Text) → all (λ c. not (is_blank c)) s ≡ true → strip s ≡ s
unfolding strip
strip-word s h =
    ap (λ t. reverse (strip_left (reverse t))) (strip_left-word s h)
    ∙ ap reverse (strip_left-word (reverse s) (all-reverse_aux s [] h refl))
    ∙ reverse-reverse s

filled : (s : Text) (ts : List Text) → s ≢ [] → select is_filled (s ∷ ts) ≡ s ∷ select is_filled ts
filled [] ts h = absurd (h refl)
filled (c ∷ s) ts h = refl

lines_of_words :
    (ss : List Text) → All IsWord ss → select is_filled (map strip (ss ++ ([] ∷ []))) ≡ ss
unfolding strip strip_left
lines_of_words [] h = refl
lines_of_words (s ∷ ss) h =
    ap (λ t. select is_filled (t ∷ map strip (ss ++ ([] ∷ [])))) (strip-word s h.0.1)
    ∙ filled s (map strip (ss ++ ([] ∷ []))) h.0.0
    ∙ ap (λ ts. s ∷ ts) (lines_of_words ss h.1)

module _ (P : Text → Type 0) where
  All-place :
      (same less : Bool) (s t : Text) (ts rest : List Text)
      → P s
      → P t
      → All P ts
      → All P rest
      → All P (place same less s t ts rest)
  All-place true less s t ts rest p q h k = (q, h)
  All-place false true s t ts rest p q h k = (p, (q, h))
  All-place false false s t ts rest p q h k = (q, k)

  All-insert_pin : (s : Text) (ss : List Text) → P s → All P ss → All P (insert_pin s ss)
  unfolding insert_pin
  All-insert_pin s [] p h = (p, tt)
  All-insert_pin s (t ∷ ts) p h =
      All-place (text_eq s t) (text_lt s t) s t ts (insert_pin s ts) p h.0 h.1
        (All-insert_pin s ts p h.1)

  All-sorted_pins : (ss : List Text) → All P ss → All P (sorted_pins ss)
  unfolding sorted_pins
  All-sorted_pins [] h = tt
  All-sorted_pins (s ∷ ss) h = All-insert_pin s (sorted_pins ss) h.0 (All-sorted_pins ss h.1)

-- What is read back from a written pin file is the sorted set of the fingerprints.
read_back : (ss : List Text) → All IsWord ss → read_pins (some (write_pins ss)) ≡ sorted_pins ss
unfolding read_pins write_pins
read_back ss h =
    let w = All-sorted_pins IsWord ss h in
    ap (λ ls. select is_filled (map strip ls)) (split_lines-join_lines (sorted_pins ss) w)
    ∙ lines_of_words (sorted_pins ss) w

-- The fingerprint is among those of a list.
abbrev pub in_set : Text → List Text → Bool
in_set u ss = any (text_eq u) ss

in_set-place :
    (u : Text) (same less : Bool) (s t : Text) (ts rest : List Text)
    → text_eq s t ≡ same
    → in_set u rest ≡ (text_eq u s || in_set u ts)
    → in_set u (place same less s t ts rest) ≡ (text_eq u s || in_set u (t ∷ ts))
in_set-place u true less s t ts rest e h =
    let eq = ap (text_eq u) (text_eq_sound s t e) in ground arith
in_set-place u false true s t ts rest e h = refl
in_set-place u false false s t ts rest e h = ground arith

in_set-insert_pin :
    (u s : Text) (ss : List Text) → in_set u (insert_pin s ss) ≡ (text_eq u s || in_set u ss)
unfolding insert_pin
in_set-insert_pin u s [] = refl
in_set-insert_pin u s (t ∷ ts) =
    in_set-place u (text_eq s t) (text_lt s t) s t ts (insert_pin s ts) refl
      (in_set-insert_pin u s ts)

in_set-sorted_pins : (u : Text) (ss : List Text) → in_set u (sorted_pins ss) ≡ in_set u ss
unfolding sorted_pins
in_set-sorted_pins u [] = refl
in_set-sorted_pins u (s ∷ ss) =
    in_set-insert_pin u s (sorted_pins ss) ∙ ap (λ b. text_eq u s || b) (in_set-sorted_pins u ss)

-- Whatever set of fingerprints is written, each without spaces and not empty, the same set is read
-- back.
pub read_pins-write_pins :
    (ss : List Text)
    → All IsWord ss
    → (u : Text) → in_set u (read_pins (some (write_pins ss))) ≡ in_set u ss
read_pins-write_pins ss h u = ap (in_set u) (read_back ss h) ∙ in_set-sorted_pins u ss
