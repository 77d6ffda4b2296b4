-- ===== src/Rollout/Latch.antt =====
-- The rollback latch: the operations of a rollout as steps, and what none of them undoes.
use rgnix.Base.{Text, Result, ok, ℕ, String, ◌≡◌, refl, ap, ◌∙◌, Bool, true, Option, some, List}
use rgnix.Request.{Request}
use rgnix.Rollout.Completed.Trips.{completed-Latched}
use rgnix.Rollout.Select.Shares.{
  select-Latched, select_at_latched, force_rollback-Latched, enforce_latched,
}
use rgnix.Rollout.Advance.Stages.{sample_report-Latched, sync_progress-Latched}
use rgnix.Rollout.{Policy, Progress, State, Latched}
use rgnix.Rollout.Completed.{completed}
use rgnix.Rollout.Select.{fallback_in, fallback_of, enforce, force_rollback, select_at, select}
use rgnix.Rollout.Advance.{sync_progress, sample_report}
use rgnix.Rollout.Metrics.{Observation, evaluate_metrics, evaluate_metrics-Latched}

module _ (header_name : Text → Bool) (sha256 : Text → Text) (trim : Text → Text)
    (policy_hash : Policy → Text) (read : Text → Result String Progress) where
  -- What can happen to a rollout's state, in any order.
  pub data Event : State → State → Type 0 where
    selects : (s : State) (q : Request) → Event s (select header_name sha256 trim s q).0
    completes :
        (s t : State) (backend : Text) (failed : Bool) (elapsed stage now : ℕ) (v : Bool)
        → completed backend failed elapsed stage now s ≡ some (t, v)
        → Event s t
    forces : (s : State) → Event s (force_rollback s)
    syncs :
        (s t : State) (value : Option Text)
        → sync_progress policy_hash read value s ≡ ok t
        → Event s t
    reports : (s : State) (now : ℕ) → Event s (sample_report now s).0
    evaluates :
        (s : State) (now : ℕ) (digest : Text) (results : List (Text × Observation))
        → Event s (evaluate_metrics now digest results s).0

  pub data Reach (s : State) : State → Type 0 where
    here : Reach s s
    next : {t u : State} → Reach s t → Event t u → Reach s u

  Event-Latched : {s t : State} → Event s t → s.window.rolled_back ≡ true → Latched s t
  Event-Latched (selects s q) h = select-Latched header_name sha256 trim s q h
  Event-Latched (completes s t backend failed elapsed stage now v e) h =
      completed-Latched backend failed elapsed stage now s h e
  Event-Latched (forces s) h = force_rollback-Latched s h
  Event-Latched (syncs s t value e) h = sync_progress-Latched policy_hash read value s h e
  Event-Latched (reports s now) h = sample_report-Latched now s h
  Event-Latched (evaluates s now digest results) h = evaluate_metrics-Latched now digest results s h

  Reach-Latched : {s t : State} → Reach s t → s.window.rolled_back ≡ true → Latched s t
  Reach-Latched here h = record { back = h; policy = refl; backends = refl }
  Reach-Latched (next r e) h =
      let before = Reach-Latched r h in
      let after = Event-Latched e before.back in
      record {
        back = after.back;
        policy = after.policy ∙ before.policy;
        backends = after.backends ∙ before.backends;
      }

  -- Once a rollout is rolled back it stays so: in every later state, whatever requests, samples,
  -- progress, metrics and reports come in between, every request is sent to the fallback that the
  -- policy named, and a backend that a script chose is replaced by it.
  pub Reach-fallback :
      (s t : State)
      → s.window.rolled_back ≡ true
      → Reach s t
      → ((q : Request) (c : ℕ) → select_at header_name sha256 trim t q c ≡ fallback_of s)
        × ((backend : Text) → enforce t backend ≡ fallback_of s)
  Reach-fallback s t h r =
      let kept = Reach-Latched r h in
      let same : fallback_of t ≡ fallback_of s =
        ap (λ p. fallback_in p t.backends) kept.policy ∙ ap (fallback_in s.policy) kept.backends in
      (
        λ q c. select_at_latched header_name sha256 trim t q c kept.back ∙ same,
        λ backend. enforce_latched t backend kept.back ∙ same,
      )
