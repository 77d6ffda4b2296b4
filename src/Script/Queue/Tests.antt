-- ===== src/Script/Queue/Tests.antt =====
-- src/script/queue.rs: examples of the queue.
use rgnix.Base.{codes, err, String, ◌≡◌, refl, none, some, List, [], ◌∷◌}
use rgnix.Script.Queue.{Job, State, namespace_full, no_jobs, submit_within, submit}
use rgnix.Script.Queue.Steps.{Run, submits, Reachable, starts, steps, IsSane, Reachable-IsSane}
use rgnix.Script.Queue.Order.{Event, submitted, worked, run, run-order}

abbrev one : State
one = (submit 10 100 (codes "a") (codes "shop") (codes "x") no_jobs).0

abbrev two : State
two = (submit 10 200 (codes "b") (codes "shop") (codes "y") one).0

-- A third of the namespace is refused.
third_refused : (submit 10 300 (codes "c") (codes "shop") (codes "z") two).1 ≡ err namespace_full
unfolding submit submit_within
third_refused = refl

abbrev two_run : Run
two_run = record { state = two; working = none }

two-Reachable : Reachable two_run
two-Reachable =
    steps (record { state = one; working = none }) two_run
      (steps (record { state = no_jobs; working = none }) (record { state = one; working = none })
        starts (submits 10 100 (codes "a") (codes "shop") (codes "x") no_jobs none))
      (submits 10 200 (codes "b") (codes "shop") (codes "y") one none)

Reachable-IsSane_example : IsSane two_run
Reachable-IsSane_example = Reachable-IsSane two_run two-Reachable

abbrev job_of : String → String → Job
job_of k x = record { key = codes k; source = codes x }

-- A submission while the worker compiles the first job, and one before it has finished.
abbrev events : List Event
events =
    worked
    ∷ submitted 10 300 (codes "c") (codes "news") (codes "z")
    ∷ worked
    ∷ submitted 10 400 (codes "d") (codes "news") (codes "z")
    ∷ worked
    ∷ []

two_lem : two.jobs ≡ job_of "a" "x" ∷ job_of "b" "y" ∷ []
unfolding submit submit_within
two_lem = refl

run-order_example :
    ((run events two_run).working ≡ some (job_of "b" "y")) × Reachable (run events two_run)
run-order_example =
    run-order events two_run (job_of "b" "y") (job_of "a" "x" ∷ []) [] two-Reachable two_lem refl
