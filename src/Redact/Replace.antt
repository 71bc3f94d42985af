-- ===== src/Redact/Replace.antt =====
-- What `bytes.replace` leaves behind: no occurrence of the needle, and no occurrence of any other
-- text that was not there before, for texts that share no byte with what is put in.
use tracedown_probe_agent.Base.{
  ℕ, zero, suc, ◌-◌, ◌≡◌, refl, true, false, List, [], ◌∷◌, ◌++◌, length, arith,
}
use tracedown_probe_agent.Bytes.{starts_with, contains, disjoint, mem}
use tracedown_probe_agent.Redact.{replace_from}

-- A text that begins with no byte of `new` is not found across `new`.
contains-append :
    (c : ℕ) (s new rest : List ℕ)
    → mem c new ≡ false
    → contains (c ∷ s) (new ++ rest) ≡ contains (c ∷ s) rest
contains-append c s [] rest h = refl
contains-append c s (n ∷ new) rest h = ground (arith, contains-append c s new rest)

-- A prefix of the result that avoids `new` was a prefix before.
starts_with-replace_from :
    (s needle : List ℕ) (n : ℕ) (new l : List ℕ)
    → disjoint s (n ∷ new) ≡ true
    → starts_with s (replace_from 0 needle (n ∷ new) l) ≡ true
    → starts_with s l ≡ true
unfolding replace_from
starts_with-replace_from [] needle n new l d h = refl
starts_with-replace_from (c ∷ s) needle n new [] d h = h
starts_with-replace_from (c ∷ s) needle n new (b ∷ r) d h =
    ground (arith, starts_with-replace_from s needle n new r)

-- An occurrence in the result of a text that avoids `new` was there before.
pub contains-replace_from :
    (skip : ℕ) (s needle : List ℕ) (c n : ℕ) (new l : List ℕ)
    → disjoint (c ∷ s) (n ∷ new) ≡ true
    → contains (c ∷ s) (replace_from skip needle (n ∷ new) l) ≡ true
    → contains (c ∷ s) l ≡ true
unfolding replace_from
contains-replace_from skip s needle c n new [] d h = h
contains-replace_from (suc k) s needle c n new (b ∷ r) d h =
    ground (arith, contains-replace_from k s needle c n new r)
contains-replace_from zero s needle c n new (b ∷ r) d h =
    let k = length needle - 1 in
    ground (
      arith,
      contains-append c s (n ∷ new) (replace_from k needle (n ∷ new) r),
      contains-replace_from k s needle c n new r d,
      contains-replace_from 0 s needle c n new r d,
      starts_with-replace_from s needle n new r,
    )

-- The needle itself is gone.
pub not_contains-replace_from :
    (skip : ℕ) (s : List ℕ) (c n : ℕ) (new l : List ℕ)
    → disjoint (c ∷ s) (n ∷ new) ≡ true
    → contains (c ∷ s) (replace_from skip (c ∷ s) (n ∷ new) l) ≡ false
unfolding replace_from
not_contains-replace_from skip s c n new [] d = refl
not_contains-replace_from (suc k) s c n new (b ∷ r) d = not_contains-replace_from k s c n new r d
not_contains-replace_from zero s c n new (b ∷ r) d = ground (
  arith,
  contains-append c s (n ∷ new) (replace_from (length s) (c ∷ s) (n ∷ new) r),
  not_contains-replace_from (length s) s c n new r d,
  not_contains-replace_from 0 s c n new r d,
  starts_with-replace_from s (c ∷ s) n new r,
)
