-- ===== src/Script/Queue.antt =====
-- src/script/queue.rs: the queue of compilations and its worker. A call takes the state and returns
-- the new one, as the mutex is held throughout; the worker holds it to take a job and again to finish
-- it, and compiles in between. `now` is the call's `Instant::now()` in nanoseconds. Condition
-- variables and the end of the process are not part of it.
pub mod Steps
pub mod Order
pub mod Tests
use rgnix.Base.{
  ltb, leb, if◌then◌else◌, unwrap_or, length, drop, retain, Text, text_eq, text_is_eq, lookup,
  insert, contains_key, or_insert, retain_entries, Result, ok, err, ℕ, ◌+◌, ◌-◌, Bool, not, ◌&&◌,
  Option, none, some, List, [], ◌∷◌, ◌++◌,
}

pub record Job : Type 0 where
  pub key : Text
  pub source : Text

pub record State : Type 0 where
  pub jobs : List Job
  pub pending : List (Text × Text)
  pub budgets : List (Text × (ℕ × ℕ))

-- What `PendingCompilation` says.
pub data Pending : Type 0 where
  queue_full namespace_full capacity_reached rate_exceeded : Pending

-- `State::default`
abbrev pub no_jobs : State
no_jobs = record { jobs = []; pending = []; budgets = [] }

abbrev pub minute : ℕ
minute = 60000000000

-- The pending compilations of a namespace.
abbrev pub count_of : Text → List (Text × Text) → ℕ
count_of namespace [] = 0
count_of namespace ((k, ns) ∷ m) =
    if text_eq ns namespace then 1 + count_of namespace m else count_of namespace m

abbrev pub recent : ℕ → Text → ℕ × ℕ → Bool
recent now ns budget = ltb (now - budget.0) minute

-- `submit`, from the budgets on. The budget of the namespace is made even if the call is refused.
unfoldable pub submit_within :
    ℕ → ℕ → Text → Text → Text → State → State × Result Pending (Unit {0})
submit_within per_minute now key namespace source s =
    let kept = retain_entries (recent now) s.budgets in
    if leb 4096 (length kept) && not (contains_key namespace kept)
    then (record s { budgets = kept }, err capacity_reached)
    else (let budget = unwrap_or (lookup namespace kept) (now, 0) in
        if leb per_minute budget.1
        then (record s { budgets = or_insert namespace (now, 0) kept }, err rate_exceeded)
        else (
          record {
            jobs = s.jobs ++ record { key = key; source = source } ∷ [];
            pending = insert key namespace s.pending;
            budgets = insert namespace (budget.0, budget.1 + 1) kept;
          },
          ok tt,
        ))

-- `Queue::submit`
unfoldable pub submit : ℕ → ℕ → Text → Text → Text → State → State × Result Pending (Unit {0})
unfolding submit_within
submit per_minute now key namespace source s =
    if contains_key key s.pending
    then (s, ok tt)
    else if leb 128 (length s.pending)
    then (s, err queue_full)
    else if leb 2 (count_of namespace s.pending)
    then (s, err namespace_full)
    else submit_within per_minute now key namespace source s

-- The worker takes the first job.
unfoldable pub take_job : State → Option (Job × State)
take_job s = elim s.jobs [ [] ↦ none | job ∷ jobs ↦ some (job, record s { jobs = jobs }) ]

-- The worker is done with a job.
unfoldable pub finish : Text → State → State
finish key s = record s { pending = retain_entries (λ k ns. not (text_eq k key)) s.pending }

-- The compiled scripts that the worker keeps for half a minute, 64 at most, with their times.
abbrev pub half_minute : ℕ
half_minute = 30000000000

abbrev pub last_of {ℓ} : {A : Type ℓ} → ℕ → List A → List A
last_of n xs = drop (length xs - n) xs

unfoldable pub keep_warm {ℓ} : {A : Type ℓ} → ℕ → A → List (ℕ × A) → List (ℕ × A)
keep_warm now script warm =
    last_of 63 (retain (λ w. ltb (now - w.0) half_minute) warm) ++ (now, script) ∷ []
