-- ===== src/Tcp/Layout/Aligned.antt =====
-- The layout of the struct: aligned fields, in order, none over another.
use tracedown_probe_agent.Base.{
  ℕ, ◌+◌, ◌-◌, ◌%◌, ◌≤◌, ◌≡◌, refl, sym, ap, ◌∙◌, subst, String, List, [], ◌∷◌, ◌++◌, arith,
}
use tracedown_probe_agent.Tcp.Layout.{
  Code, byte, word, quad, code_size, align, calcsize_from, calcsize, Slot, slot_end, offsets_from,
  size_of,
}

calcsize_from-append :
    (n : ℕ) (fmt : List Code) (c : Code)
    → calcsize_from n (fmt ++ c ∷ []) ≡ align (calcsize_from n fmt) (code_size c) + code_size c
unfolding calcsize_from
calcsize_from-append n [] c = refl
calcsize_from-append n (d ∷ fmt) c =
    calcsize_from-append (align n (code_size d) + code_size d) fmt c

-- A field starts at the next multiple of its size.
calcsize-append :
    (fmt : List Code) (c : Code)
    → calcsize (fmt ++ c ∷ []) ≡ align (calcsize fmt) (code_size c) + code_size c
unfolding calcsize
calcsize-append fmt c = calcsize_from-append 0 fmt c

-- Each field begins at a multiple of its size, at or behind `from`, and ends before the next begins.
abbrev pub IsLaidOut : ℕ → List Slot → Type 0
IsLaidOut from [] = Unit
IsLaidOut from (s ∷ slots) =
    (from ≤ s.start) × (s.start % code_size s.code ≡ 0) × IsLaidOut (slot_end s) slots

align-le : (n : ℕ) (c : Code) → n ≤ align n (code_size c)
align-le n byte = omega arith
align-le n word = omega arith
align-le n quad = omega arith

align_mod : (n : ℕ) (c : Code) → align n (code_size c) % code_size c ≡ 0
align_mod n byte = omega arith
align_mod n word = omega arith
align_mod n quad = omega arith

sub_of_add : (a b k : ℕ) → a ≡ b + k → a - k ≡ b
sub_of_add a b k h = omega arith

add_of_sub : (a b k : ℕ) → a ≡ b + k → a ≡ a - k + k
add_of_sub a b k h = omega arith

start-eq :
    (fmt : List Code) (c : Code)
    → calcsize (fmt ++ c ∷ []) - code_size c ≡ align (calcsize fmt) (code_size c)
start-eq fmt c = sub_of_add _ _ (code_size c) (calcsize-append fmt c)

slot_end-eq :
    (fmt : List Code) (c : Code)
    → calcsize (fmt ++ c ∷ []) ≡ calcsize (fmt ++ c ∷ []) - code_size c + code_size c
slot_end-eq fmt c = add_of_sub _ _ (code_size c) (calcsize-append fmt c)

-- Whatever fields come behind whatever format, they are aligned and do not overlap.
pub offsets_from-IsLaidOut :
    (fmt : List Code) (fs : List (String × Code)) → IsLaidOut (calcsize fmt) (offsets_from fmt fs)
unfolding offsets_from
offsets_from-IsLaidOut fmt [] = tt
offsets_from-IsLaidOut fmt ((name, c) ∷ fs) = (
  subst (λ n. calcsize fmt ≤ n) (sym (start-eq fmt c)) (align-le (calcsize fmt) c),
  ap (λ n. n % code_size c) (start-eq fmt c) ∙ align_mod (calcsize fmt) c,
  subst (λ n. IsLaidOut n (offsets_from (fmt ++ c ∷ []) fs)) (slot_end-eq fmt c)
      (offsets_from-IsLaidOut (fmt ++ c ∷ []) fs),
)

-- Every field ends within the size that is asked of the kernel.
abbrev pub EndsWithin : ℕ → List Slot → Type 0
EndsWithin n [] = Unit
EndsWithin n (s ∷ slots) = (slot_end s ≤ n) × EndsWithin n slots

EndsWithin-le : (m n : ℕ) (slots : List Slot) → m ≤ n → EndsWithin m slots → EndsWithin n slots
EndsWithin-le m n [] h e = tt
EndsWithin-le m n (s ∷ slots) h e = (omega arith, EndsWithin-le m n slots h e.1)

pub size_of-EndsWithin : (slots : List Slot) → EndsWithin (size_of slots) slots
unfolding size_of
size_of-EndsWithin [] = tt
size_of-EndsWithin (s ∷ slots) =
    (omega arith, EndsWithin-le (size_of slots) _ slots (omega arith) (size_of-EndsWithin slots))

-- For every list of fields the computed offsets are aligned, in order and free of overlap, the
-- first at or behind 0, and every field ends within the computed size.
pub offsets_fit :
    (fs : List (String × Code))
    → IsLaidOut 0 (offsets_from [] fs)
      × EndsWithin (size_of (offsets_from [] fs)) (offsets_from [] fs)
unfolding calcsize calcsize_from
offsets_fit fs = (offsets_from-IsLaidOut [] fs, size_of-EndsWithin (offsets_from [] fs))
