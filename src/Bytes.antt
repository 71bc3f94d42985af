-- ===== src/Bytes.antt =====
-- Byte strings: prefix and substring tests (Python's `in` on bytes), and what they say.
use tracedown_probe_agent.Base.{
  ℕ, ◌≡◌, refl, Bool, true, false, not, ◌&&◌, ◌||◌, List, [], ◌∷◌, Text, arith, ◌==◌,
}

-- The bytes are equal.
abbrev pub text_eq : Text → Text → Bool
text_eq [] [] = true
text_eq [] (y ∷ ys) = false
text_eq (x ∷ xs) [] = false
text_eq (x ∷ xs) (y ∷ ys) = x == y && text_eq xs ys

pub text_eq_sound : (xs ys : Text) → text_eq xs ys ≡ true → xs ≡ ys
text_eq_sound [] [] h = refl
text_eq_sound [] (y ∷ ys) h = ground arith
text_eq_sound (x ∷ xs) [] h = ground arith
text_eq_sound (x ∷ xs) (y ∷ ys) h = ground (arith, text_eq_sound xs ys)

pub text_eq_refl : (xs : Text) → text_eq xs xs ≡ true
text_eq_refl [] = refl
text_eq_refl (x ∷ xs) = ground (arith, text_eq_refl xs)

-- `data.startswith(needle)`
abbrev pub starts_with : Text → Text → Bool
starts_with [] l = true
starts_with (c ∷ s) [] = false
starts_with (c ∷ s) (b ∷ r) = c == b && starts_with s r

-- `needle in data`
abbrev pub contains : Text → Text → Bool
contains s [] = starts_with s []
contains s (b ∷ r) = starts_with s (b ∷ r) || contains s r

abbrev pub mem : ℕ → List ℕ → Bool
mem x [] = false
mem x (y ∷ ys) = x == y || mem x ys

-- No byte of the first text stands in the second.
abbrev pub disjoint : Text → Text → Bool
disjoint [] m = true
disjoint (c ∷ s) m = not (mem c m) && disjoint s m
