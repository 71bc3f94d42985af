-- ===== src/Renewal/Causes.antt =====
-- `_is_certificate_rejection`: the chain of causes of an exception, cycles included.
use tracedown_probe_agent.Base.{
  ℕ, zero, suc, ◌≡◌, refl, Bool, true, false, Option, none, some, List, [], ◌∷◌, length, ◌==◌,
  arith, ap, ◌∙◌, ◌<◌,
}

-- An exception object: its identity, whether it is an `SSLCertVerificationError`, and the
-- identities of `__cause__` and `__context__`.
pub record Exception : Type 0 where
  pub id : ℕ
  pub is_certificate : Bool
  pub cause : Option ℕ
  pub context : Option ℕ

-- The exception that was raised, and all the exceptions there are.
pub record Raised : Type 0 where
  pub current : ℕ
  pub objects : List Exception

-- `e` itself where it is the object, else what was found behind it, with `e` kept.
abbrev choose :
    Bool
    → Exception
    → List Exception
    → Option (Exception × List Exception)
    → Option (Exception × List Exception)
choose true e es rest = some (e, es)
choose false e es none = none
choose false e es (some (f, fs)) = some (f, e ∷ fs)

-- The object, and the others: those not in `seen` are what is left.
unfoldable pub take_out : ℕ → List Exception → Option (Exception × List Exception)
take_out n [] = none
take_out n (e ∷ es) = choose (e.id == n) e es (take_out n es)

-- `cur.__cause__ or cur.__context__`
abbrev pub behind : Exception → Option ℕ
behind e = elim e.cause [ some n ↦ some n | none ↦ e.context ]

-- The body of the loop at an object, with the loop from there.
abbrev visit : (List Exception → Option ℕ → Bool) → Option (Exception × List Exception) → Bool
visit loop none = false
visit loop (some (e, rest)) = elim e.is_certificate [ true ↦ true | false ↦ loop rest (behind e) ]

-- The loop, on fuel, over the objects that have not been seen.
unfoldable pub walk : ℕ → List Exception → Option ℕ → Bool
walk zero objects cur = false
walk (suc n) objects none = false
walk (suc n) objects (some cur) = visit (walk n) (take_out cur objects)

-- `_is_certificate_rejection`
unfoldable pub is_certificate_rejection : Raised → Bool
unfolding walk take_out
is_certificate_rejection r = walk (suc (length r.objects)) r.objects (some r.current)

choose-length :
    (b : Bool) (e : Exception) (es : List Exception) (r : Option (Exception × List Exception))
    (g : Exception) (gs : List Exception)
    → ((f : Exception) (fs : List Exception) → r ≡ some (f, fs) → length es ≡ suc (length fs))
    → choose b e es r ≡ some (g, gs)
    → length es ≡ length gs
choose-length true e es r g gs k h = let same : es ≡ gs = cc h in ap length same
choose-length false e es none g gs k h = ground arith
choose-length false e es (some (f, fs)) g gs k h =
    let same : e ∷ fs ≡ gs = cc h in k f fs refl ∙ ap length same

length-take_out :
    (n : ℕ) (es : List Exception) (e : Exception) (rest : List Exception)
    → take_out n es ≡ some (e, rest)
    → length es ≡ suc (length rest)
unfolding take_out
length-take_out n [] e rest h = ground arith
length-take_out n (x ∷ xs) e rest h =
    ap suc (choose-length (x.id == n) x xs (take_out n xs) e rest (length-take_out n xs) h)

visit_lem :
    (n m : ℕ) (found : Option (Exception × List Exception))
    → ((e : Exception) (rest : List Exception)
        → found ≡ some (e, rest)
        → walk n rest (behind e) ≡ walk m rest (behind e))
    → visit (walk n) found ≡ visit (walk m) found
visit_lem n m none h = refl
visit_lem n m (some (e, rest)) h = let same = h e rest refl in ground arith

-- Fuel for one object more than there are never runs out, cycles of causes included: every two
-- such amounts give one result.
pub walk_fuel :
    (n m : ℕ) (objects : List Exception) (cur : Option ℕ)
    → length objects < n
    → length objects < m
    → walk n objects cur ≡ walk m objects cur
unfolding walk
walk_fuel zero m objects cur h l = absurd (omega (arith, h))
walk_fuel (suc n) zero objects cur h l = absurd (omega (arith, l))
walk_fuel (suc n) (suc m) objects none h l = refl
walk_fuel (suc n) (suc m) objects (some cur) h l =
    visit_lem n m (take_out cur objects) λ e rest found.
      let shorter = length-take_out cur objects e rest found in
      walk_fuel n m rest (behind e) (omega arith) (omega arith)
