-- ===== src/Hooks/Shapes.antt =====
-- Which layers an entry has after a sequence of installs, and in which order.
use tracedown_probe_agent.Base.{◌≡◌, refl, Bool, true, false, List, [], ◌∷◌, any}
use tracedown_probe_agent.Hooks.{Installer, egress_guard, run_progress, wire_metrics}

abbrev pub is_guard : Installer → Bool
is_guard egress_guard = true
is_guard _ = false

abbrev pub is_progress : Installer → Bool
is_progress run_progress = true
is_progress _ = false

abbrev pub is_metrics : Installer → Bool
is_metrics wire_metrics = true
is_metrics _ = false

-- The guard was installed before the hooks of run_progress.
abbrev pub guard_first : List Installer → Bool
guard_first [] = false
guard_first (egress_guard ∷ is) = true
guard_first (run_progress ∷ is) = false
guard_first (wire_metrics ∷ is) = guard_first is

-- The layers of an entry that two modules wrap.
pub data Shape : Type 0 where
  bare traced refusing refusing_over_traced traced_over_refusing : Shape

abbrev pub shape_of : Bool → Bool → Bool → Shape
shape_of false false first = bare
shape_of true false first = traced
shape_of false true first = refusing
shape_of true true false = refusing_over_traced
shape_of true true true = traced_over_refusing

abbrev pub next : Installer → Shape → Shape
next egress_guard bare = refusing
next egress_guard traced = refusing_over_traced
next egress_guard s = s
next run_progress bare = traced
next run_progress refusing = traced_over_refusing
next run_progress s = s
next wire_metrics s = s

abbrev pub after : List Installer → Shape → Shape
after [] s = s
after (i ∷ is) s = after is (next i s)

after-refusing : (is : List Installer) → after is refusing ≡ shape_of (any is_progress is) true true
after-refusing [] = refl
after-refusing (egress_guard ∷ is) = after-refusing is
after-refusing (wire_metrics ∷ is) = after-refusing is
after-refusing (run_progress ∷ is) = both is
  where
    both : (is : List Installer) → after is traced_over_refusing ≡ traced_over_refusing
    both [] = refl
    both (egress_guard ∷ is) = both is
    both (run_progress ∷ is) = both is
    both (wire_metrics ∷ is) = both is

after-traced : (is : List Installer) → after is traced ≡ shape_of true (any is_guard is) false
after-traced [] = refl
after-traced (run_progress ∷ is) = after-traced is
after-traced (wire_metrics ∷ is) = after-traced is
after-traced (egress_guard ∷ is) = both is
  where
    both : (is : List Installer) → after is refusing_over_traced ≡ refusing_over_traced
    both [] = refl
    both (egress_guard ∷ is) = both is
    both (run_progress ∷ is) = both is
    both (wire_metrics ∷ is) = both is

pub after-bare :
    (is : List Installer)
    → after is bare ≡ shape_of (any is_progress is) (any is_guard is) (guard_first is)
after-bare [] = refl
after-bare (egress_guard ∷ is) = after-refusing is
after-bare (run_progress ∷ is) = after-traced is
after-bare (wire_metrics ∷ is) = after-bare is
