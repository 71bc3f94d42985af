-- ===== src/Writes.antt =====
-- The agent's files, and steps that write them and may raise: each leaves the files that it wrote.
use tracedown_probe_agent.Base.{◌≡◌, refl, Option, none, some, Text, arith}

pub data FileName : Type 0 where
  key_file cert_file ca_file pins_file slug_file : FileName

-- The contents of the five files, none for a file that does not exist.
pub record Disk : Type 0 where
  pub key : Option Text
  pub cert : Option Text
  pub ca : Option Text
  pub pins : Option Text
  pub slug : Option Text

abbrev pub put : FileName → Option Text → Disk → Disk
put key_file t d = record d { key = t }
put cert_file t d = record d { cert = t }
put ca_file t d = record d { ca = t }
put pins_file t d = record d { pins = t }
put slug_file t d = record d { slug = t }

-- The files after some steps, and the error that ended them.
pub record Outcome (E : Type 0) : Type 0 where
  pub disk : Disk
  pub error : Option E

module _ {E : Type 0} where
  abbrev pub done : Disk → Outcome E
  done d = record { disk = d; error = none }

  abbrev pub raise : E → Disk → Outcome E
  raise e d = record { disk = d; error = some e }

  -- The second step is taken where the first raised nothing.
  abbrev pub and_then : Outcome E → (Disk → Outcome E) → Outcome E
  and_then r k = elim r.error [ none ↦ k r.disk | some e ↦ r ]

  module _ (Q : Disk → Type 0) where
    by_error :
        (d : Disk) (e : Option E) (k : Disk → Outcome E)
        → Q d
        → ((d1 : Disk) → Q d1 → Q (k d1).disk)
        → Q (and_then (record { disk = d; error = e }) k).disk
    by_error d none k h keeps = keeps d h
    by_error d (some e) k h keeps = h

    -- What holds of the files after the first step, and is kept by the second, holds after both.
    pub and_then-keeps :
        (r : Outcome E) (k : Disk → Outcome E)
        → Q r.disk
        → ((d : Disk) → Q d → Q (k d).disk)
        → Q (and_then r k).disk
    and_then-keeps r k h keeps = by_error r.disk r.error k h keeps

  module _ (P : Option E → Type 0) where
    error_by :
        (d : Disk) (e : Option E) (k : Disk → Outcome E)
        → P e
        → ((d1 : Disk) → P (k d1).error)
        → P (and_then (record { disk = d; error = e }) k).error
    error_by d none k p h = h d
    error_by d (some e) k p h = p

    -- What holds of the ends of two steps holds of the end of both.
    pub and_then-error :
        (r : Outcome E) (k : Disk → Outcome E)
        → P r.error
        → ((d1 : Disk) → P (k d1).error)
        → P (and_then r k).error
    and_then-error r k p h = error_by r.disk r.error k p h

  module _ (P Q : Disk → Type 0) where
    ok_by :
        (d : Disk) (e : Option E) (k : Disk → Outcome E)
        → (e ≡ none → P d)
        → ((d1 : Disk) → P d1 → (k d1).error ≡ none → Q (k d1).disk)
        → (and_then (record { disk = d; error = e }) k).error ≡ none
        → Q (and_then (record { disk = d; error = e }) k).disk
    ok_by d none k p next h = next d (p refl) h
    ok_by d (some e) k p next h = ground arith

    -- Two steps that raise nothing: what the first brings about, and what the second makes of it.
    pub and_then-ok :
        (r : Outcome E) (k : Disk → Outcome E)
        → (r.error ≡ none → P r.disk)
        → ((d1 : Disk) → P d1 → (k d1).error ≡ none → Q (k d1).disk)
        → (and_then r k).error ≡ none
        → Q (and_then r k).disk
    and_then-ok r k p next h = ok_by r.disk r.error k p next h
