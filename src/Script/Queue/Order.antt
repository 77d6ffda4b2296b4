-- ===== src/Script/Queue/Order.antt =====
-- src/script/queue.rs: the order in which the worker serves jobs.
use rgnix.Base.{
  Option-cases, length, Text, ℕ, ◌+◌, ◌*◌, ◌≡◌, refl, sym, ap, ◌∙◌, inl, inr, Option, none, some,
  List, [], ◌∷◌, ◌++◌, append-nil, append_assoc, arith,
}
use rgnix.Script.Queue.{Job, State, submit, take_job, finish}
use rgnix.Script.Queue.Steps.{Run, submits, takes, finishes, Reachable, steps, submit-Changes}

-- What happens to the queue: a call of `submit`, or one turn of the worker, which is what it does
-- while it holds the mutex once. Between two turns it compiles or waits, and callers submit.
pub data Event : Type 0 where
  submitted : ℕ → ℕ → Text → Text → Text → Event
  worked : Event

pub take_turn : State → Run
unfolding take_job
take_turn s = elim (take_job s) [
  | none ↦ record { state = s; working = none }
  | some (job, t) ↦ record { state = t; working = some job }
]

-- The worker's turn: the job in work, once compiled, is finished; without one the first job is taken.
pub turn : Run → Run
unfolding take_turn finish
turn r = elim r.working [
  | some job ↦ record { state = finish job.key r.state; working = none }
  | none ↦ take_turn r.state
]

pub happen : Event → Run → Run
unfolding turn submit
happen (submitted per_minute now key namespace source) r = record r {
  state = (submit per_minute now key namespace source r.state).0;
}
happen worked r = turn r

abbrev pub run : List Event → Run → Run
run [] r = r
run (e ∷ es) r = run es (happen e r)

-- The turns of the worker among the events.
abbrev pub turns : List Event → ℕ
turns [] = 0
turns (submitted p t k n x ∷ es) = turns es
turns (worked ∷ es) = 1 + turns es

-- The turns until the worker takes the job after `n` others: two for each of them, one for a job in
-- work, and the one that takes it.
abbrev pub turns_until : Option Job → ℕ → ℕ
turns_until none n = 1 + 2 * n
turns_until (some job) n = 2 + 2 * n

take_turn-Reachable :
    (s : State) → Reachable (record { state = s; working = none }) → Reachable (take_turn s)
unfolding take_turn
take_turn-Reachable s reach = elim (Option-cases (take_job s)) [
  | inl idle ↦ rw (take_turn, idle) reach
  | inr ((job, t), taken) ↦
      rw (take_turn, taken)
        (steps (record { state = s; working = none }) (record { state = t; working = some job })
          reach (takes s t job taken))
]

turn-Reachable :
    (s : State) (w : Option Job)
    → Reachable (record { state = s; working = w })
    → Reachable (turn (record { state = s; working = w }))
unfolding turn
turn-Reachable s none reach = take_turn-Reachable s reach
turn-Reachable s (some job) reach =
    steps (record { state = s; working = some job })
      (record { state = finish job.key s; working = none }) reach (finishes s job)

-- Events are steps of the queue.
happen-Reachable : (e : Event) (r : Run) → Reachable r → Reachable (happen e r)
unfolding happen
happen-Reachable (submitted p t k n x) r reach =
    steps r _ reach (submits p t k n x r.state r.working)
happen-Reachable worked r reach = turn-Reachable r.state r.working reach

run-Reachable : (es : List Event) (r : Run) → Reachable r → Reachable (run es r)
run-Reachable [] r reach = reach
run-Reachable (e ∷ es) r reach = run-Reachable es (happen e r) (happen-Reachable e r reach)

take_turn_lem :
    (s : State) (job : Job) (jobs : List Job)
    → s.jobs ≡ job ∷ jobs
    → ((take_turn s).state.jobs ≡ jobs) × ((take_turn s).working ≡ some job)
unfolding take_turn take_job
take_turn_lem s job jobs is = rw is (refl, refl)

submit-jobs :
    (per_minute now : ℕ) (key namespace source : Text) (s : State)
    → (more : List Job) × ((submit per_minute now key namespace source s).0.jobs ≡ s.jobs ++ more)
submit-jobs per_minute now key namespace source s =
    elim (submit-Changes per_minute now key namespace source s) [
      | inl same ↦ ([], same.0 ∙ sym (append-nil s.jobs))
      | inr added ↦ (record { key = key; source = source } ∷ [], added.0)
    ]

-- With a job in work a turn leaves the waiting jobs, and with none it takes the first.
finished_lem :
    (r : Run) (job : Job)
    → r.working ≡ some job
    → ((happen worked r).state.jobs ≡ r.state.jobs) × ((happen worked r).working ≡ none)
unfolding happen turn finish
finished_lem r job busy = rw busy (refl, refl)

taken_lem :
    (r : Run) (job : Job) (jobs : List Job)
    → r.working ≡ none
    → r.state.jobs ≡ job ∷ jobs
    → ((happen worked r).state.jobs ≡ jobs) × ((happen worked r).working ≡ some job)
unfolding happen turn
taken_lem r job jobs idle is = rw idle (take_turn_lem r.state job jobs is)

submitted_lem :
    (p t : ℕ) (k n x : Text) (r : Run)
    → (more : List Job) × ((happen (submitted p t k n x) r).state.jobs ≡ r.state.jobs ++ more)
      × ((happen (submitted p t k n x) r).working ≡ r.working)
unfolding happen
submitted_lem p t k n x r = let grown = submit-jobs p t k n x r.state in (grown.0, grown.1, refl)

no_turns : (es : List Event) (r : Run) → turns es ≡ 0 → (run es r).working ≡ r.working
no_turns [] r h = refl
no_turns (submitted p t k n x ∷ es) r h =
    let (more, grown, same) = submitted_lem p t k n x r in
    no_turns es (happen (submitted p t k n x) r) h ∙ same
no_turns (worked ∷ es) r h = absurd (omega arith)

works_on :
    (es : List Event) (r : Run) (w : Option Job) (job : Job) (before after : List Job)
    → r.working ≡ w
    → r.state.jobs ≡ before ++ job ∷ after
    → turns es ≡ turns_until w (length before)
    → (run es r).working ≡ some job
works_on [] r none job before after at is count = absurd (omega arith)
works_on [] r (some v) job before after at is count = absurd (omega arith)
works_on (submitted p t k n x ∷ es) r w job before after at is count =
    let (more, grown, same) = submitted_lem p t k n x r in
    works_on es (happen (submitted p t k n x) r) w job before (after ++ more) (same ∙ at)
      (grown ∙ (ap (λ z. z ++ more) is ∙ append_assoc before (job ∷ after) more)) count
works_on (worked ∷ es) r (some v) job before after at is count =
    let (jobs, idle) = finished_lem r v at in
    works_on es (happen worked r) none job before after idle (jobs ∙ is) (omega arith)
works_on (worked ∷ es) r none job [] after at is count =
    no_turns es (happen worked r) (omega arith) ∙ (taken_lem r job after at is).1
works_on (worked ∷ es) r none job (b ∷ before) after at is count =
    let (jobs, busy) = taken_lem r b (before ++ job ∷ after) at is in
    works_on es (happen worked r) (some b) job before after busy jobs (omega arith)

-- The worker takes every waiting job, in their order, whatever is submitted while it compiles others
-- and between its turns: a job with some jobs before it is in work after two turns for each of them
-- and one of its own, with one more where another job was in work at first. The run is one of the
-- queue's steps.
pub run-order :
    (es : List Event) (r : Run) (job : Job) (before after : List Job)
    → Reachable r
    → r.state.jobs ≡ before ++ job ∷ after
    → turns es ≡ turns_until r.working (length before)
    → ((run es r).working ≡ some job) × Reachable (run es r)
run-order es r job before after reach is count =
    (works_on es r r.working job before after refl is count, run-Reachable es r reach)
