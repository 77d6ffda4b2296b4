-- ===== src/Rollout/Completed.antt =====
-- src/rollout.rs: the sliding window of samples and the automatic rollback, `Window::prune` and
-- `State::completed`. A call takes the instant that it reads; `none` is a panic.
pub mod Trips
pub mod Percentile
use rgnix.Base.{
  ltb, leb, ◌==◌, if◌then◌else◌, is_some_and, is_some, from_bool, length, Text, codes, text_eq,
  text_is_eq, u64_max, lookup, ℕ, ◌+◌, ◌-◌, ◌*◌, ◌/◌, min, Bool, true, false, not, ◌&&◌, ◌||◌,
  Option, none, some, List, [], ◌∷◌, ◌++◌,
}
use rgnix.Rollout.{Target, Rollback, Samples, Sample, Window, State, second}

abbrev pub is_slow : Rollback → ℕ → Bool
is_slow rule elapsed = is_some_and rule.max_p95_ms (λ limit. ltb limit elapsed)

-- The sample leaves the totals.
abbrev pub forget : Rollback → Sample → Samples → Samples
forget rule x t = record {
  count = t.count - 1;
  errors = t.errors - from_bool x.failed;
  slow = t.slow - from_bool (is_slow rule x.elapsed);
}

-- The loop of `Window::prune`: the oldest sample goes while it is too old or there are too many.
unfoldable pub prune_samples : ℕ → Rollback → List Sample → Samples → List Sample × Samples
prune_samples now rule [] totals = ([], totals)
prune_samples now rule (x ∷ xs) totals =
    let rest = prune_samples now rule xs (forget rule x totals) in
    if ltb rule.window_seconds ((now - x.at) / second) || ltb 10000 (length (x ∷ xs))
    then rest
    else (x ∷ xs, totals)

unfoldable pub prune : ℕ → Rollback → Window → Window
unfolding prune_samples
prune now rule w =
    let (samples, totals) = prune_samples now rule w.samples w.totals in
    record w { samples = samples; totals = totals }

abbrev pub add_sample : Rollback → Sample → Window → Window
add_sample rule x w = record w {
  samples = w.samples ++ x ∷ [];
  totals = record {
    count = w.totals.count + 1;
    errors = w.totals.errors + from_bool x.failed;
    slow = w.totals.slow + from_bool (is_slow rule x.elapsed);
  };
}

-- `samples.errors * 100 >= samples.count * error_percent`; a window counts at most 10000 samples and
-- the percentage is at most 100, so the products are far from the range of `u64`.
abbrev pub error_limit : Rollback → Samples → Bool
error_limit rule t = leb (t.count * rule.error_percent) (t.errors * 100)

-- `rule.max_p95_ms.is_some() && samples.slow > samples.count / 20`
abbrev pub latency_limit : Rollback → Samples → Bool
latency_limit rule t = is_some rule.max_p95_ms && ltb (t.count / 20) t.slow

-- The decision once the new sample is in.
unfoldable pub judge : Rollback → Window → Window × Bool
judge rule w =
    if ltb w.totals.count rule.min_requests
    then (w, false)
    else if error_limit rule w.totals
    then (record w { rolled_back = true; reason = codes "error threshold" }, true)
    else if latency_limit rule w.totals
    then (record w { rolled_back = true; reason = codes "p95 threshold" }, true)
    else (w, false)

-- `targets.iter().any(|t| self.backends[&t.service] == backend)`
unfoldable pub serves : List (Text × Text) → Text → List Target → Option Bool
serves known backend [] = some false
serves known backend (t ∷ ts) = elim (lookup t.service known) [
  | none ↦ none
  | some name ↦ if text_eq name backend then some true else serves known backend ts
]

unfoldable pub record_sample : Rollback → State → Sample → State × Bool
unfolding prune judge
record_sample rule s x =
    if s.window.rolled_back
    then (s, false)
    else (let (w, verdict) = judge rule (prune x.at rule (add_sample rule x s.window)) in
        (record s { window = w }, verdict))

-- `State::completed`
unfoldable pub completed : Text → Bool → ℕ → ℕ → ℕ → State → Option (State × Bool)
completed backend failed elapsed stage now s =
    if not (stage == s.progress.stage) then some (s, false) else elim s.policy.rollback [
      | none ↦ some (s, false)
      | some rule ↦ elim (lookup rule.fallback s.backends) [
        | none ↦ none
        | some fallback ↦
            if text_eq fallback backend
            then some (s, false)
            else elim (serves s.backends backend s.policy.backends) [
              | none ↦ none
              | some false ↦ some (s, false)
              | some true ↦ some (
                  record_sample rule s
                    (record { at = now; failed = failed; elapsed = min elapsed u64_max }))
            ]
      ]
    ]
