-- ===== src/Health/Tests.antt =====
-- Challenges that pass and fail, and the theorem at one.
use tracedown_probe_agent.Base.{ℕ, ◌≡◌, refl, Option, some, codes}
use tracedown_probe_agent.Int.{pos}
use tracedown_probe_agent.Result.{ok}
use tracedown_probe_agent.Json.{int, str, object, Members, empty, member, find}
use tracedown_probe_agent.Config.{agent_version}
use tracedown_probe_agent.Health.{raised, run_health_sync, answer, challenge}
use tracedown_probe_agent.Health.Honest.{IsHonest, challenge-IsHonest}

abbrev held : Option ℕ
held = some 1

abbrev passed : Members
passed =
    member (codes "outcome") (str (codes "success"))
      (member (codes "runVars") (object (member (codes "token") (str (codes "t1")) empty)) empty)

-- A token that is a number is no token for the answer's type.
abbrev numbered : Members
numbered =
    member (codes "outcome") (str (codes "success"))
      (member (codes "runVars") (object (member (codes "token") (int (pos 7)) empty)) empty)

passed_token : (challenge held (codes "c1") 10 35 (ok passed)).token ≡ some (codes "t1")
unfolding challenge run_health_sync answer find
passed_token = refl

numbered_error : (challenge held (codes "c1") 10 35 (ok numbered)).error ≡ some raised
unfolding challenge run_health_sync answer find
numbered_error = refl

challenge-IsHonest_example : IsHonest (ok passed) (challenge held (codes "c1") 10 35 (ok passed))
challenge-IsHonest_example = challenge-IsHonest held (codes "c1") 10 35 (ok passed)

-- A version that is a number counts for none.
versions :
    (agent_version (
        some (
          member
            (codes "project")
            (object (member (codes "version") (str (codes "1.4.0")) empty))
            empty))
      ≡ codes "1.4.0")
    × (agent_version (
          some (
            member (codes "project") (object (member (codes "version") (int (pos 2)) empty)) empty))
        ≡ codes "0.0.0")
unfolding agent_version find
versions = (refl, refl)
