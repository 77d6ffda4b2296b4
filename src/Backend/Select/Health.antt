-- ===== src/Backend/Select/Health.antt =====
-- The health of an endpoint over any history of results, probes and looks at it.
use rgnix.Base.{
  ltb, is_some_and, Text, ℕ, ◌+◌, ◌<◌, ◌≡◌, refl, ◌≢◌, ◌↔◌, ◌⊎◌, Bool, true, false, Option, none,
  some, arith,
}
use rgnix.Backend.{HealthCheck, State, new_state, record_result, set_active_health}
use rgnix.Backend.Select.{thaw, until_next, ready_state}

-- A call on an endpoint's state.
pub data Event : Type 0 where
  result : ℕ → Bool → ℕ → ℕ → Event
  probe : Bool → Event
  look : Option HealthCheck → ℕ → ℕ → Event

abbrev pub run : Event → State → ℕ → State × ℕ
run (result now failed max_fails cooldown) s revision =
    let (t, r, ejected) = record_result now failed max_fails cooldown s revision in (t, r)
run (probe good) s revision = set_active_health good s revision
run (look check now weight) s revision =
    let (t, expires, answer) = ready_state check now weight s none in (t, revision)

-- Histories of an endpoint's state.
pub data History : State → ℕ → Type 0 where
  fresh : (address : Text) (revision : ℕ) → History (new_state address) revision
  after :
      {s : State} {revision : ℕ} (e : Event)
      → History s revision
      → History (run e s revision).0 (run e s revision).1

-- What `has_failures` promises when it is not set.
abbrev pub IsQuiet : State → Type 0
IsQuiet s = s.has_failures ≡ false → (s.health.failures ≡ 0) × (s.health.blocked_until ≡ none)

record_result-IsQuiet :
    (now : ℕ) (failed : Bool) (max_fails cooldown : ℕ) (s : State) (revision : ℕ)
    → IsQuiet s
    → IsQuiet (record_result now failed max_fails cooldown s revision).0
unfolding record_result
record_result-IsQuiet now failed max_fails cooldown s revision q = ground arith

ready_state-IsQuiet :
    (check : Option HealthCheck) (now weight : ℕ) (s : State)
    → IsQuiet s
    → IsQuiet (ready_state check now weight s none).0
unfolding ready_state thaw until_next
ready_state-IsQuiet check now weight s q = ground arith

probe-IsQuiet :
    (good : Bool) (s : State) (revision : ℕ)
    → IsQuiet s
    → IsQuiet (set_active_health good s revision).0
unfolding set_active_health
probe-IsQuiet good s revision q = ground arith

-- In every history, an endpoint without the failure flag has no failures and no cooldown.
pub History-IsQuiet : {s : State} {revision : ℕ} → History s revision → IsQuiet s
unfolding new_state
History-IsQuiet (fresh address revision) = λ h. (refl, refl)
History-IsQuiet (after {s} {revision} (result now failed max_fails cooldown) before) =
    record_result-IsQuiet now failed max_fails cooldown s revision (History-IsQuiet before)
History-IsQuiet (after {s} {revision} (probe good) before) =
    probe-IsQuiet good s revision (History-IsQuiet before)
History-IsQuiet (after {s} {revision} (look check now weight) before) =
    ready_state-IsQuiet check now weight s (History-IsQuiet before)

-- An endpoint that may be chosen: it has a weight, no cooldown runs, and its check, if there is
-- one, has passed.
abbrev pub MayServe : Option HealthCheck → ℕ → ℕ → State → Type 0
MayServe check now weight s =
    (0 < weight)
    × (is_some_and s.health.blocked_until (λ t. ltb now t) ≡ false)
    × ((check ≡ none) ⊎ (s.health.active_ok ≡ some true))

-- In every history `ready` answers by the health alone, though it reads it only when the flag or
-- the check asks for it.
pub ready_state-MayServe :
    {s : State} {revision : ℕ} (check : Option HealthCheck) (now weight : ℕ) (expires : Option ℕ)
    → History s revision
    → ((ready_state check now weight s expires).2 ≡ true) ↔ MayServe check now weight s
unfolding ready_state thaw until_next
ready_state-MayServe {s} check now weight expires history =
    let quiet : IsQuiet s = History-IsQuiet history in ground arith

-- What a snapshot of the endpoints reads of a state.
abbrev pub Same : State → State → Type 0
Same s t =
    (t.health.blocked_until ≡ s.health.blocked_until) × (t.health.active_ok ≡ s.health.active_ok)

-- What an outside observer reports of an endpoint.
abbrev pub is_report : Event → Bool
is_report (result now failed max_fails cooldown) = true
is_report (probe good) = true
is_report (look check now weight) = false

-- A result or a probe that leaves the revision leaves the cooldown and the answer of the check,
-- which are what a snapshot of the endpoints rests on.
pub report-Same :
    (e : Event) (s : State) (revision : ℕ)
    → is_report e ≡ true
    → (run e s revision).1 ≡ revision
    → Same s (run e s revision).0
unfolding record_result set_active_health
report-Same (result now failed max_fails cooldown) s revision h same = ground arith
report-Same (probe good) s revision h same = ground arith
report-Same (look check now weight) s revision h same = absurd (ground arith)

-- A result that ejects an endpoint was a failure of an endpoint with no cooldown; it starts the
-- cooldown of the call and changes the revision.
pub record_result-ejects :
    (now : ℕ) (failed : Bool) (max_fails cooldown : ℕ) (s : State) (revision : ℕ)
    → let done = record_result now failed max_fails cooldown s revision in
      done.2 ≡ true
      → (failed ≡ true)
        × (s.health.blocked_until ≡ none)
        × (done.0.health.blocked_until ≡ some (now + cooldown))
        × (done.1 ≢ revision)
unfolding record_result
record_result-ejects now failed max_fails cooldown s revision h =
    (ground arith, ground arith, ground arith, ground arith)
