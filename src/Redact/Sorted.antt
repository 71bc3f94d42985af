-- ===== src/Redact/Sorted.antt =====
-- `longest_first` keeps every secret that is not empty, adds none, and puts no text before a
-- longer one.
use tracedown_probe_agent.Base.{
  ℕ, ◌≤◌, ◌⊎◌, inl, inr, List, [], ◌∷◌, Text, length, In, here, there, All, select, ltb, arith,
  Bool-cases,
}
use tracedown_probe_agent.Redact.{insert, sort_from, longest_first, is_nonempty}

-- Every text is at least as long as those behind it.
abbrev pub IsSorted : List Text → Type 0
IsSorted [] = Unit
IsSorted (s ∷ ss) = All (λ t. length t ≤ length s) ss × IsSorted ss

module _ (P : Text → Type 0) where
  All-insert : (s : Text) (ss : List Text) → P s → All P ss → All P (insert s ss)
  unfolding insert
  All-insert s [] p h = (p, tt)
  All-insert s (t ∷ ts) p h = elim (Bool-cases (ltb (length t) (length s))) [
    | inl e ↦ rw e (p, h)
    | inr e ↦ rw e (h.0, All-insert s ts p h.1)
  ]

  All-sort_from : (sorted ss : List Text) → All P sorted → All P ss → All P (sort_from sorted ss)
  unfolding sort_from
  All-sort_from sorted [] h k = h
  All-sort_from sorted (s ∷ ss) h k =
      All-sort_from (insert s sorted) ss (All-insert s sorted k.0 h) k.1

  All-select : (ss : List Text) → All P ss → All P (select is_nonempty ss)
  All-select [] h = tt
  All-select ([] ∷ ss) h = All-select ss h.1
  All-select ((c ∷ s) ∷ ss) h = (h.0, All-select ss h.1)

  -- What holds of every secret holds of every text that is masked.
  pub All-longest_first : (ss : List Text) → All P ss → All P (longest_first ss)
  unfolding longest_first
  All-longest_first ss h = All-sort_from [] (select is_nonempty ss) tt (All-select ss h)

All-le :
    (m n : ℕ) (ss : List Text) → m ≤ n → All (λ t. length t ≤ m) ss → All (λ t. length t ≤ n) ss
All-le m n [] h a = tt
All-le m n (s ∷ ss) h a = (omega arith, All-le m n ss h a.1)

insert-IsSorted : (s : Text) (ss : List Text) → IsSorted ss → IsSorted (insert s ss)
unfolding insert
insert-IsSorted s [] h = (tt, tt)
insert-IsSorted s (t ∷ ts) h = elim (Bool-cases (ltb (length t) (length s))) [
  | inl e ↦ rw e ((ground arith, All-le (length t) (length s) ts (ground arith) h.0), h)
  | inr e ↦
      rw e (All-insert (λ u. length u ≤ length t) s ts (ground arith) h.0, insert-IsSorted s ts h.1)
]

sort_from-IsSorted : (sorted ss : List Text) → IsSorted sorted → IsSorted (sort_from sorted ss)
unfolding sort_from
sort_from-IsSorted sorted [] h = h
sort_from-IsSorted sorted (s ∷ ss) h =
    sort_from-IsSorted (insert s sorted) ss (insert-IsSorted s sorted h)

-- No secret is masked before a longer one.
pub longest_first-IsSorted : (ss : List Text) → IsSorted (longest_first ss)
unfolding longest_first
longest_first-IsSorted ss = sort_from-IsSorted [] (select is_nonempty ss) tt

module _ {s : Text} where
  In-insert_self : (ss : List Text) → In s (insert s ss)
  unfolding insert
  In-insert_self [] = here
  In-insert_self (t ∷ ts) = elim (Bool-cases (ltb (length t) (length s))) [
    | inl e ↦ rw e here
    | inr e ↦ rw e (there (In-insert_self ts))
  ]

  In-insert : (t : Text) {ss : List Text} → In s ss → In s (insert t ss)
  unfolding insert
  In-insert t (here {xs = us}) = elim (Bool-cases (ltb (length s) (length t))) [
    | inl e ↦ rw e (there here)
    | inr e ↦ rw e here
  ]
  In-insert t (there {y = u} {xs = us} m) = elim (Bool-cases (ltb (length u) (length t))) [
    | inl e ↦ rw e (there (there m))
    | inr e ↦ rw e (there (In-insert t m))
  ]

  In-sort_from : (sorted ss : List Text) → In s sorted ⊎ In s ss → In s (sort_from sorted ss)
  unfolding sort_from
  In-sort_from sorted [] (inl m) = m
  In-sort_from sorted [] (inr m) = elim m [ ]
  In-sort_from sorted (t ∷ ts) (inl m) = In-sort_from (insert t sorted) ts (inl (In-insert t m))
  In-sort_from sorted (t ∷ ts) (inr here) =
      In-sort_from (insert t sorted) ts (inl (In-insert_self sorted))
  In-sort_from sorted (t ∷ ts) (inr (there m)) = In-sort_from (insert t sorted) ts (inr m)

In-select : {c : ℕ} {s : Text} {ss : List Text} → In (c ∷ s) ss → In (c ∷ s) (select is_nonempty ss)
In-select here = here
In-select (there {y = []} m) = In-select m
In-select (there {y = d ∷ t} m) = there (In-select m)

-- Every secret that is not empty is masked.
pub In-longest_first :
    {c : ℕ} {s : Text} {ss : List Text} → In (c ∷ s) ss → In (c ∷ s) (longest_first ss)
unfolding longest_first
In-longest_first {ss} m = In-sort_from [] (select is_nonempty ss) (inr (In-select m))
