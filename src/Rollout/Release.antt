-- ===== src/Rollout/Release.antt =====
-- src/ingress/release.rs: the progress that the controller writes back to the object of a rollout,
-- as `command` changes it for an operator. `policy_hash` is a parameter, and the calls of Kubernetes
-- around these are not part of it; `now` is the clock in seconds.
pub mod Climb
pub mod Waits
use rgnix.Base.{
  ◌==◌, is_some, length, Text, Result, ◌>>◌, ensure, ok, ℕ, String, true, false, not, ◌&&◌, Option,
  some,
}
use rgnix.Rollout.{ℤ, Policy, Progress, default_progress}
use rgnix.Rollout.Advance.{stage_is}

pub data Operation : Type 0 where
  pause resume approve rollback : Operation

-- The annotation that is written: the revision rolled back, or the progress.
pub data Patch : Type 0 where
  rolled_back : Text → Patch
  progressed : Progress → Patch

abbrev pub initial : (Policy → Text) → ℤ → Policy → Progress
initial policy_hash now p = record default_progress {
  revision = p.revision;
  policy_hash = policy_hash p;
  started_at = now;
}

abbrev pub if_active : Policy → Progress → Result String Patch → Result String Patch
if_active p g done =
    ensure (not (length p.steps == 0) && not g.promoted) "rollout has no active stages" >> done

-- The choice of the patch in `command`; `stage` is the one that the command names.
unfoldable pub commanded : Operation → ℤ → Option ℕ → Policy → Progress → Result String Patch
commanded rollback now stage p g =
    ensure (is_some p.rollback) "rollback fallback is not configured" >> ok (rolled_back p.revision)
commanded pause now stage p g = if_active p g (ok (progressed (record g { paused = true })))
commanded resume now stage p g =
    if_active p g (ok (progressed (record g { paused = false; started_at = now })))
commanded approve now stage p g = if_active p g (
    ensure (stage_is stage g.stage) "approval requires the current stage number"
    >> ok (progressed (record g { approved_stage = some g.stage })))
