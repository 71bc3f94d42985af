-- ===== src/Startup/Modes.antt =====
-- In which mode the agent comes up.
use tracedown_probe_agent.Base.{
  ◌≡◌, ◌↔◌, inl, inr, refl, sym, ap, ◌∙◌, true, false, ◌&&◌, none, some, Text, arith, Bool-cases,
  Option-cases,
}
use tracedown_probe_agent.Config.{AgentSettings}
use tracedown_probe_agent.Writes.{Disk, done}
use tracedown_probe_agent.Bootstrap.{Run, exists, ensure_registered}
use tracedown_probe_agent.Bootstrap.Registered.{ensure_registered-files}
use tracedown_probe_agent.Startup.{
  Outside, plain_http, certs_exist, is_enrolling, enrol, listen, after_enrolment, start,
}

listen-plain_http : (o : Outside) (d : Disk) → listen o d ≡ plain_http → certs_exist d ≡ false
unfolding listen
listen-plain_http o d h = ground arith

after-plain_http :
    (o : Outside) (r : Run)
    → (after_enrolment o r).mode ≡ plain_http
    → (r.outcome.error ≡ none) × (certs_exist r.outcome.disk ≡ false)
unfolding after_enrolment
after-plain_http o r h = elim (Option-cases r.outcome.error) [
  | inl e ↦ (e, listen-plain_http o r.outcome.disk (ground arith))
  | inr (x, e) ↦ absurd (ground arith)
]

module _ (o : Outside) where
  enrolled :
      (s : AgentSettings) (d : Disk)
      → is_enrolling s ≡ true
      → certs_exist d ≡ false
      → enrol o s d ≡ ensure_registered o.bootstrap s d
  unfolding enrol
  enrolled s d t c = ground arith

  kept : (s : AgentSettings) (d : Disk) → certs_exist d ≡ true → (enrol o s d).outcome.disk ≡ d
  unfolding enrol
  kept s d c = ground arith

  missing_ca :
      (d : Disk) → (exists d.cert && exists d.key) ≡ true → (certs_exist d ≡ false) ↔ (d.ca ≡ none)
  unfolding certs_exist
  missing_ca d h = ground arith

  skipped :
      (s : AgentSettings) (d : Disk)
      → (exists d.cert && exists d.key) ≡ true
      → (ensure_registered o.bootstrap s d).outcome ≡ done d
  unfolding ensure_registered
  skipped s d h = rw h refl

  all_files :
      (d : Disk) (key cert ca : Text)
      → d.key ≡ some key
      → d.cert ≡ some cert
      → d.ca ≡ some ca
      → certs_exist d ≡ true
  unfolding certs_exist
  all_files d key cert ca k c a = ground arith

  plain_by :
      (s : AgentSettings) (d : Disk)
      → is_enrolling s ≡ true
      → certs_exist d ≡ false
      → (start o s d).mode ≡ plain_http
      → ((ensure_registered o.bootstrap s d).outcome.error ≡ none)
        × (certs_exist (ensure_registered o.bootstrap s d).outcome.disk ≡ false)
  unfolding start
  plain_by s d t c h =
      after-plain_http o (ensure_registered o.bootstrap s d)
        (ap (λ r. (after_enrolment o r).mode) (sym (enrolled s d t c)) ∙ h)

  no_files :
      (s : AgentSettings) (d : Disk) → (start o s d).mode ≡ plain_http → certs_exist d ≡ false
  unfolding start
  no_files s d h = elim (Bool-cases (certs_exist d)) [
    | inr c ↦ c
    | inl c ↦ sym (ap certs_exist (kept s d c)) ∙ (after-plain_http o (enrol o s d) h).1
  ]

  started_plain :
      (s : AgentSettings) (d : Disk)
      → is_enrolling s ≡ true
      → (exists d.cert && exists d.key) ≡ true
      → d.ca ≡ none
      → (start o s d).mode ≡ plain_http
  unfolding start enrol after_enrolment listen ensure_registered certs_exist
  started_plain s d t h a = ground arith

  -- An agent that is given a token and a gateway listens over plain HTTP exactly where its key and
  -- its certificate are on disk and the CA bundle is not.
  pub start-plain_http_iff :
      (s : AgentSettings) (d : Disk)
      → is_enrolling s ≡ true
      → ((start o s d).mode ≡ plain_http)
        ↔ (((exists d.cert && exists d.key) ≡ true) × (d.ca ≡ none))
  start-plain_http_iff s d t = (forth, λ (h, a). started_plain s d t h a)
    where
      forth :
          (start o s d).mode ≡ plain_http → ((exists d.cert && exists d.key) ≡ true) × (d.ca ≡ none)
      forth h = elim (Bool-cases (exists d.cert && exists d.key)) [
        | inl both ↦ (both, (missing_ca d both).0 (no_files s d h))
        | inr missing ↦
            let (fine, lacking) = plain_by s d t (no_files s d h) h in
            let (cert, bundle, k, c, a, _) = ensure_registered-files o.bootstrap s d missing fine in
            let full =
              all_files (ensure_registered o.bootstrap s d).outcome.disk _ cert bundle k c a in
            absurd (ground arith)
      ]
