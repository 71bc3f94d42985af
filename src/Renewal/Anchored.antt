-- ===== src/Renewal/Anchored.antt =====
-- `renewal_loop`: the trust anchor over all the rounds of an agent's life.
use tracedown_probe_agent.Writes.{pins_file, Disk, raise}
use tracedown_probe_agent.Base.{
  ◌≡◌, ◌≢◌, ◌⊎◌, inl, inr, refl, sym, ◌∙◌, subst, if◌then◌else◌, true, false, Option, some, List,
  [], ◌∷◌, Text, Bool, any, All, arith, Bool-cases,
}
use tracedown_probe_agent.Bytes.{text_eq, text_eq_sound, text_eq_refl}
use tracedown_probe_agent.Config.{AgentSettings}
use tracedown_probe_agent.CaPins.{
  Certificates, read_pins, write_pins, ca_fingerprints, bundle_preserves_pins, shares_pin,
}
use tracedown_probe_agent.CaPins.Stored.{IsWord, in_set, read_pins-write_pins}
use tracedown_probe_agent.Renewal.{Answer, Listener, Outside, drops_trust_anchor}
use tracedown_probe_agent.Renewal.Continuity.{kept_bundle, IsAnswered, renew_files-cases}
use tracedown_probe_agent.Renewal.Install.{
  ca_root_of, install, keeps_anchor, accept, renew, renew_if_needed,
}
use tracedown_probe_agent.Renewal.Listening.{needed-cases}
use tracedown_probe_agent.Renewal.Rounds.{MayFollow, install-Held, renewal_rounds}
use tracedown_probe_agent.Bootstrap.Registered.{ca_fingerprints-IsWord}

-- Sets of fingerprints all of whose members pass a test.
module _ (good : Text → Bool) where
  abbrev pub AllGood : List Text → Type 0
  AllGood fs = All (λ f. good f ≡ true) fs

  in_set-AllGood : (u : Text) (fs : List Text) → AllGood fs → in_set u fs ≡ true → good u ≡ true
  in_set-AllGood u [] h k = cc k
  in_set-AllGood u (f ∷ fs) h k = elim (Bool-cases (text_eq u f)) [
    | inl e ↦ rw (text_eq_sound u f e) h.0
    | inr e ↦ in_set-AllGood u fs h.1 (ground (arith, e, k))
  ]

  members-AllGood :
      (fs : List Text) → ((u : Text) → in_set u fs ≡ true → good u ≡ true) → AllGood fs
  members-AllGood [] h = tt
  members-AllGood (f ∷ fs) h =
      (h f (ground (arith, text_eq_refl f)), members-AllGood fs λ u k. h u (ground (arith, k)))

  -- A set that shares a member with one of good members has a good one.
  any-shares_pin :
      (c : Certificates) (fs pinned : List Text)
      → AllGood pinned
      → shares_pin c fs pinned ≡ true
      → any good fs ≡ true
  any-shares_pin c [] pinned h k = cc k
  any-shares_pin c (f ∷ fs) pinned h k = elim (Bool-cases (in_set f pinned)) [
    | inl e ↦ rw (in_set-AllGood f pinned h e) refl
    | inr e ↦ ground (arith, any-shares_pin c fs pinned h, e, k)
  ]

-- Pins are recorded and all good; the anchor is the first one, or a bundle of good CAs only.
abbrev pub IsRooted :
    (Text → Bool) → Certificates → Option Text → Option Text → Option Text → Type 0
IsRooted good c first ca pins =
    (read_pins pins ≢ [])
    × AllGood good (read_pins pins)
    × ((ca ≡ first) ⊎ ((t : Text) × (ca ≡ some t) × AllGood good (ca_fingerprints c t)))

-- A round in which the pins can be written, and no answer's bundle mixes good CAs with others.
abbrev pub IsUnmixed : (Text → Bool) → Certificates → Outside → Type 0
IsUnmixed good c o =
    (o.certificates ≡ c)
    × ((t : Text) → o.takes pins_file t ≡ true)
    × ((a : Answer)
        → IsAnswered o a
        → (t : Text) → ca_root_of a ≡ some t
        → any good (ca_fingerprints c t) ≡ true
        → AllGood good (ca_fingerprints c t))

module _ (good : Text → Bool) (first : Option Text) where
  not_empty : (f : Text) (fs : List Text) → in_set f fs ≡ true → fs ≢ []
  not_empty f [] h e = cc h
  not_empty f (g ∷ fs) h e = cc e

  good-MayFollow :
      (o : Outside)
      → ((der : Text) → IsWord (o.certificates.sha256 der))
      → (t : Text) → AllGood good (ca_fingerprints o.certificates t)
      → MayFollow o (IsRooted good o.certificates first) t
  good-MayFollow o digest t h = (
    λ ca pins rooted. (rooted.0, rooted.1, inr (t, refl, h)),
    λ ca pins f fs e rooted.
        let words = subst (All IsWord) e (ca_fingerprints-IsWord o.certificates digest t) in
        let back = read_pins-write_pins (f ∷ fs) words in
        (
          not_empty f (read_pins (some (write_pins (f ∷ fs))))
              (back f ∙ ground (arith, text_eq_refl f)),
          members-AllGood good (read_pins (some (write_pins (f ∷ fs))))
              (λ u k. in_set-AllGood good u (f ∷ fs) (subst (AllGood good) e h) (sym (back u) ∙ k)),
          rooted.2,
        ),
  )

  -- The bundle of an accepted answer is good: it holds a CA that is pinned, and mixes none.
  accepted_bundle :
      (o : Outside) (a : Answer) (d : Disk)
      → IsUnmixed good o.certificates o
      → IsAnswered o a
      → IsRooted good o.certificates first d.ca d.pins
      → keeps_anchor o a d ≡ true
      → (t : Text) → ca_root_of a ≡ some t
      → AllGood good (ca_fingerprints o.certificates t)
  unfolding keeps_anchor bundle_preserves_pins
  accepted_bundle o a d unmixed given rooted kept t e =
      unmixed.2 a given t e (by (read_pins d.pins) rooted.0 rooted.1 (kept_bundle o a d t e kept))
    where
      by :
          (pins : List Text)
          → pins ≢ []
          → AllGood good pins
          → bundle_preserves_pins o.certificates t pins ≡ true
          → any good (ca_fingerprints o.certificates t) ≡ true
      by [] ne h k = absurd (ne refl)
      by (p ∷ ps) ne h k =
          any-shares_pin good o.certificates (ca_fingerprints o.certificates t) (p ∷ ps) h k

  accept-IsRooted :
      (o : Outside) (a : Answer) (d : Disk)
      → ((der : Text) → IsWord (o.certificates.sha256 der))
      → IsUnmixed good o.certificates o
      → IsAnswered o a
      → IsRooted good o.certificates first d.ca d.pins
      → IsRooted good o.certificates first (accept o a d).disk.ca (accept o a d).disk.pins
  unfolding accept
  accept-IsRooted o a d digest unmixed given rooted =
      elim (keeps_anchor o a d)
          as (λ b.
            keeps_anchor o a d ≡ b
            → IsRooted good o.certificates first
                (if b then install o a d else raise drops_trust_anchor d).disk.ca
                (if b then install o a d else raise drops_trust_anchor d).disk.pins) [
                  | true ↦ λ kept.
                      install-Held o (IsRooted good o.certificates first) unmixed.1 a
                        (λ t e.
                          good-MayFollow o digest t
                            (accepted_bundle o a d unmixed given rooted kept t e))
                        d rooted
                  | false ↦ λ dropped. rooted
                ]
        refl

  round-IsRooted :
      (o : Outside) (s : AgentSettings) (l : Option Listener) (d : Disk)
      → ((der : Text) → IsWord (o.certificates.sha256 der))
      → IsUnmixed good o.certificates o
      → IsRooted good o.certificates first d.ca d.pins
      → IsRooted good o.certificates first
          (renew_if_needed o s l d).0.ca
          (renew_if_needed o s l d).0.pins
  unfolding renew
  round-IsRooted o s l d digest unmixed rooted =
      needed-cases o (λ r. IsRooted good o.certificates first r.0.ca r.0.pins) s l d rooted
        λ slug.
          renew_files-cases o (λ r. IsRooted good o.certificates first r.disk.ca r.disk.pins) d
            (λ e. rooted) (λ a given. accept-IsRooted o a d digest unmixed given rooted) s slug

  rounds-IsRooted :
      (c : Certificates) (digest : (der : Text) → IsWord (c.sha256 der)) (s : AgentSettings)
      (os : List Outside) (l : Option Listener) (d : Disk)
      → All (IsUnmixed good c) os
      → IsRooted good c first d.ca d.pins
      → IsRooted good c first (renewal_rounds s os l d).0.ca (renewal_rounds s os l d).0.pins
  unfolding renewal_rounds
  rounds-IsRooted c digest s [] l d unmixed rooted = rooted
  rounds-IsRooted c digest s (o ∷ os) l d unmixed rooted =
      rounds-IsRooted c digest s os (renew_if_needed o s l d).1 (renew_if_needed o s l d).0
        unmixed.1 (by c digest unmixed.0.0 unmixed.0 rooted)
    where
      by :
          (c' : Certificates)
          → ((der : Text) → IsWord (c'.sha256 der))
          → o.certificates ≡ c'
          → IsUnmixed good c' o
          → IsRooted good c' first d.ca d.pins
          → IsRooted good c' first (renew_if_needed o s l d).0.ca (renew_if_needed o s l d).0.pins
      by c' dig e un ro =
          subst
            (λ c''.
              ((der : Text) → IsWord (c''.sha256 der))
              → IsUnmixed good c'' o
              → IsRooted good c'' first d.ca d.pins
              → IsRooted good c'' first (renew_if_needed o s l d).0.ca
                  (renew_if_needed o s l d).0.pins)
            e (round-IsRooted o s l d) dig un ro

-- For any set of CAs that holds all that are pinned at first, and where some are: over any number of
-- rounds of the renewal loop, in which no bundle that is answered mixes CAs of the set with others and
-- the pins can be written, the anchor on disk is the first one, or a bundle of CAs of the set only, and
-- pins are recorded, all of the set. The digests are taken to be words.
pub renewal_rounds-IsRooted :
    (good : Text → Bool) (c : Certificates)
    → ((der : Text) → IsWord (c.sha256 der))
    → (s : AgentSettings) (os : List Outside) (l : Option Listener) (d : Disk)
    → All (IsUnmixed good c) os
    → read_pins d.pins ≢ []
    → AllGood good (read_pins d.pins)
    → IsRooted good c d.ca (renewal_rounds s os l d).0.ca (renewal_rounds s os l d).0.pins
renewal_rounds-IsRooted good c digest s os l d unmixed pinned h =
    rounds-IsRooted good d.ca c digest s os l d unmixed (pinned, h, inl refl)
