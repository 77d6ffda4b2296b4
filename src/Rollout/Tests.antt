-- ===== src/Rollout/Tests.antt =====
-- A rollout of a canary, and the theorems about rollouts at it.
use rgnix.Base.{
  is_some_and, any, Text, codes, text_eq, Result, err, ℕ, zero, suc, ◌+◌, ◌*◌, ◌≤◌, String, ◌≡◌,
  refl, ◌↔◌, ◌⊎◌, Bool, true, false, Option, none, some, List, [], ◌∷◌, map, arith,
}
use rgnix.Request.{Request}
use rgnix.Rollout.Completed.Trips.{IsTallied, IsBreached, IsCounted, completed_trips}
use rgnix.Rollout.Select.Shares.{select_at_share, IsServable, select_at-total}
use rgnix.Rollout.Advance.Stages.{Fits, FitsAny, sync_progress-Fits, next_progress-Fits}
use rgnix.Rollout.{
  pos, Target, Rollback, pause, MetricRollback, Step, Policy, Progress, default_progress,
  default_window, default_failures, State, stage_weights,
}
use rgnix.Rollout.Completed.{serves, completed}
use rgnix.Rollout.Select.{backend_of, fallback_of, enforce, select_at}
use rgnix.Rollout.Advance.{install, sync_progress, next_progress}
use rgnix.Rollout.Metrics.{
  Observation, extend, gate_round, gate_loop, current_gates, evaluate_metrics, IsBlamed,
  evaluate_metrics-IsBlamed,
}
use rgnix.Rollout.Latch.{here, Reach-fallback}
use rgnix.Rollout.Parse.{
  unique_services, services, total_weight, check_rollback, check_metrics, check_step, check,
}
use rgnix.Rollout.Parse.Weights.{HasMaps, check-stage_weights}
use rgnix.Rollout.Release.{Operation, initial, commanded}
use rgnix.Rollout.Release.Climb.{Climb, unpublished, moves, commands, Waited}
use rgnix.Rollout.Release.Waits.{Climb-Waited}

abbrev stable : Target
stable = record { service = codes "stable"; weight = 3 }

abbrev canary : Target
canary = record { service = codes "canary"; weight = 1 }

abbrev rule : Rollback
rule = record {
  fallback = codes "stable";
  min_requests = 2;
  error_percent = 50;
  window_seconds = 60;
  max_p95_ms = some 100;
}

abbrev gate_rule : MetricRollback
gate_rule = record { consecutive_failures = 1; failure_seconds = 0; unavailable = pause }

abbrev first_step : Step
first_step = record {
  weights = (codes "stable", 3) ∷ (codes "canary", 1) ∷ [];
  duration_seconds = 10;
  min_requests = 1;
  approval = false;
}

abbrev policy : Policy
policy = record {
  revision = codes "r1";
  backends = stable ∷ canary ∷ [];
  mirror = none;
  rollback = some rule;
  steps = first_step ∷ first_step ∷ [];
  cohort = none;
  metric_gates = codes "orders" ∷ [];
  metric_rollback = some gate_rule;
}

abbrev started : Progress
started = record default_progress { started_at = pos 100 }

abbrev state : State
state = record {
  policy = policy;
  kind = codes "Ingress";
  owner = codes "ns/app";
  uid = codes "u";
  backends = (codes "stable", codes "s:80") ∷ (codes "canary", codes "c:80") ∷ [];
  cursor = 0;
  window = default_window;
  progress = started;
  metric_failures = default_failures;
}

abbrev visitor : Request
visitor = record { claims = []; remote_addr = codes "10.0.0.9"; header = λ n. none }

abbrev any_name : Text → Bool
any_name n = true

abbrev same : Text → Text
same s = s

abbrev hash_of : Policy → Text
hash_of p = p.revision

abbrev unread : Text → Result String Progress
unread t = err "expected value"

rollout : Unit {0}
unfolding stage_weights
rollout = tt

select_at_share_example :
    select_at any_name same same state visitor (5 * 4 + (3 + 0)) ≡ some (codes "c:80")
unfolding rollout
select_at_share_example =
    select_at_share any_name same same state visitor (stable ∷ []) [] canary 5 0 refl refl refl
      (omega arith)

servable : IsServable any_name same same state
unfolding rollout
servable = record {
  weights = stable ∷ canary ∷ [];
  staged = refl;
  positive = omega arith;
  known = (refl, (refl, tt));
  parsed = λ text e. absurd (ground arith);
  returns = λ e. refl;
}

select_at-total_example :
    (name : Text) × (select_at any_name same same state visitor 7 ≡ some name)
    × ((state.window.rolled_back ≡ true) × (fallback_of state ≡ some name)
        ⊎ (state.window.rolled_back ≡ false)
          × any
              (λ t. is_some_and (backend_of state t.service) (text_eq name))
              (stable ∷ canary ∷ [])
            ≡ true)
unfolding servable
select_at-total_example = select_at-total any_name same same state visitor 7 servable

counted : IsCounted rule (codes "c:80") 0 state
unfolding serves
counted = record {
  current = refl;
  ruled = refl;
  fallback = codes "s:80";
  resolved = refl;
  other = refl;
  served = refl;
}

completed_trips_example :
    (t : State) × (v : Bool) × (completed (codes "c:80") true 5 0 1000 state ≡ some (t, v))
    × IsTallied rule t.window
    × (t.window.rolled_back ≡ v)
    × ((v ≡ true) ↔ IsBreached rule t.window.samples)
completed_trips_example = completed_trips (codes "c:80") true 5 0 1000 state rule counted refl refl

policy-HasMaps : HasMaps policy
policy-HasMaps zero step at = ground (arith, at)
policy-HasMaps (suc zero) step at = ground (arith, at)
policy-HasMaps (suc (suc i)) step at = absurd (ground (arith, at))

check-stage_weights_example :
    (us : List Target) × (stage_weights state ≡ some us)
    × (map (λ t. t.service) us ≡ services policy)
    × (1 ≤ total_weight us)
unfolding check unique_services check_rollback check_metrics check_step
check-stage_weights_example = check-stage_weights any_name state policy-HasMaps refl

-- A rollout that began at 100 s, was paused and resumed at 105 s, and moved at 200 s.
abbrev resumed : Progress
resumed = record (initial hash_of (pos 100) policy) { started_at = pos 105 }

abbrev second_stage : Progress
second_stage = record resumed { stage = 1; started_at = pos 200 }

climb : Climb hash_of policy 100 200 [] second_stage
unfolding commanded next_progress
climb =
    moves 100 105 200 [] resumed second_stage true
      (some (record { count = 9; errors = 0; slow = 0 })) (record state { progress = resumed })
      (commands 100 103 105 [] (record (initial hash_of (pos 100) policy) { paused = true }) resumed
        Operation.resume none
        (commands 100 100 103 [] (initial hash_of (pos 100) policy)
          (record (initial hash_of (pos 100) policy) { paused = true }) Operation.pause none
          (unpublished 100 (omega arith)) (omega arith) refl)
        (omega arith) refl)
      (omega arith) (omega arith) refl refl refl

Climb-Waited_example : Waited hash_of policy 100 200 [] second_stage
unfolding check unique_services check_rollback check_metrics check_step
Climb-Waited_example = Climb-Waited hash_of policy any_name refl climb

next_progress-Fits_example :
    (o : Option Progress) × (next_progress hash_of (pos 200) true none state ≡ some o)
    × FitsAny policy o
next_progress-Fits_example = next_progress-Fits hash_of (pos 200) true none state (omega arith)

sync_progress-Fits_example : Fits policy default_progress
unfolding sync_progress install
sync_progress-Fits_example = sync_progress-Fits hash_of unread none state (omega arith) refl

abbrev bad_orders : List (Text × Observation)
bad_orders = (codes "orders", record { digest = codes "d"; passed = some false; checked = 10 }) ∷ []

evaluate_metrics-IsBlamed_example :
    (state.window.rolled_back ≡ false)
    × ((evaluate_metrics 10 (codes "d") bad_orders state).0.window.rolled_back ≡ true)
    × (r : MetricRollback) × (policy.metric_rollback ≡ some r)
    × IsBlamed 10
        (codes "d")
        r
        bad_orders
        policy.metric_gates
        (evaluate_metrics 10 (codes "d") bad_orders state).0.metric_failures.gates
unfolding evaluate_metrics gate_loop gate_round current_gates extend
evaluate_metrics-IsBlamed_example = evaluate_metrics-IsBlamed 10 (codes "d") bad_orders state refl

abbrev rolled : State
rolled = record state { window = record default_window { rolled_back = true } }

Reach-fallback_example :
    ((q : Request) (c : ℕ) → select_at any_name same same rolled q c ≡ some (codes "s:80"))
    × ((backend : Text) → enforce rolled backend ≡ some (codes "s:80"))
Reach-fallback_example = Reach-fallback any_name same same hash_of unread rolled rolled refl here
