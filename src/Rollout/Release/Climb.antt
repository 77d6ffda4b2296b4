-- ===== src/Rollout/Release/Climb.antt =====
-- src/ingress/release.rs and src/rollout/progress.rs: the histories of a rollout's progress, and what it
-- has waited for.
use rgnix.Base.{
  ◌==◌, if◌then◌else◌, length, get_elem?, any, Text, ok, ℕ, zero, suc, ◌+◌, ◌≤◌, ◌<◌, ◌≡◌, Bool,
  true, false, Option, some, List, [], ◌∷◌,
}
use rgnix.Rollout.{pos, half_word, int_eq, Step, Policy, Samples, Progress, State}
use rgnix.Rollout.Advance.{next_progress}
use rgnix.Rollout.Release.{Operation, progressed, initial, commanded}

-- The seconds that the first `k` steps last.
abbrev pub spent : List Step → ℕ → ℕ
spent [] k = 0
spent (x ∷ xs) zero = 0
spent (x ∷ xs) (suc k) = x.duration_seconds + spent xs k

-- The approvals once an operation has succeeded.
abbrev pub grants : Operation → Progress → List ℕ → List ℕ
grants Operation.pause g granted = granted
grants Operation.resume g granted = granted
grants Operation.approve g granted = g.stage ∷ granted
grants Operation.rollback g granted = granted

-- Steps as `Policy::parse` accepts them: none lasts more than a day.
abbrev pub AreShort : List Step → Type 0
AreShort xs = (i : ℕ) (step : Step) → get_elem? xs i ≡ some step → step.duration_seconds ≤ 86400

-- The stages that are done: those before the present one, and with the promotion that one too.
abbrev pub done_before : Progress → ℕ
done_before g = if g.promoted then suc g.stage else g.stage

module _ (policy_hash : Policy → Text) (p : Policy) where
  -- The progress in the annotation of a rollout that began at some time, after what the controller
  -- and its operators did up to now, with the stages that an operator approved. The clock, in
  -- seconds, does not go back; a state that is asked for its next progress has the policy and the
  -- progress of the annotation, whatever else has changed in it.
  pub data Climb : ℕ → ℕ → List ℕ → Progress → Type 0 where
    opens :
        (now : ℕ) (gates_pass : Bool) (samples : Option Samples) (s : State) (g : Progress)
        → s.policy ≡ p
        → int_eq s.progress.started_at (pos 0) ≡ true
        → 1 ≤ now
        → next_progress policy_hash (pos now) gates_pass samples s ≡ some (some g)
        → Climb now now [] g
    unpublished : (now : ℕ) → 1 ≤ now → Climb now now [] (initial policy_hash (pos now) p)
    moves :
        (began now later : ℕ) (granted : List ℕ) (g h : Progress) (gates_pass : Bool)
        (samples : Option Samples) (s : State)
        → Climb began now granted g
        → now ≤ later
        → later < half_word
        → s.policy ≡ p
        → s.progress ≡ g
        → next_progress policy_hash (pos later) gates_pass samples s ≡ some (some h)
        → Climb began later granted h
    commands :
        (began now later : ℕ) (granted : List ℕ) (g h : Progress) (op : Operation)
        (stage : Option ℕ)
        → Climb began now granted g
        → now ≤ later
        → commanded op (pos later) stage p g ≡ ok (progressed h)
        → Climb began later (grants op g granted) h

  -- The time of the last change of stage or of the last resumption is kept, the stages that are
  -- done have lasted as long as they should, and those that want an approval have had one.
  pub record Waited (began now : ℕ) (granted : List ℕ) (g : Progress) : Type 0 where
    pub since : ℕ
    pub started : g.started_at ≡ pos since
    pub in_time : (1 ≤ since) × (since ≤ now)
    pub waited : g.promoted ≡ false → began + spent p.steps g.stage ≤ since
    pub lasted : began + spent p.steps (done_before g) ≤ now
    pub promoted_last : g.promoted ≡ true → suc g.stage ≡ length p.steps
    pub asked : (k : ℕ) → g.approved_stage ≡ some k → any (λ j. j == k) granted ≡ true
    pub approved :
        (i : ℕ) (step : Step)
        → i < done_before g
        → get_elem? p.steps i ≡ some step
        → step.approval ≡ true
        → any (λ j. j == i) granted ≡ true
