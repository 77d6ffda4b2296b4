-- ===== src/Rollout/Completed/Trips.antt =====
-- When a report rolls back: the thresholds on the samples of the window.
use rgnix.Base.{
  ltb, Bool-cases, Option-cases, from_bool, length, sum_of, length-append, sum_of-append, Text,
  text_eq, text_is_eq, u64_max, lookup, ℕ, suc, ◌-◌, ◌*◌, ◌/◌, ◌≤◌, ◌<◌, min, ◌≡◌, refl, sym, ap,
  ◌∙◌, ◌↔◌, ◌⊎◌, inl, inr, Bool, true, false, ◌||◌, some, List, [], ◌∷◌, ◌++◌, map, arith,
}
use rgnix.Rollout.Completed.Percentile.{p95, above, p95-above}
use rgnix.Rollout.{Rollback, Samples, Sample, Window, State, second, Latched}
use rgnix.Rollout.Completed.{
  is_slow, forget, prune_samples, prune, add_sample, error_limit, judge, serves, record_sample,
  completed,
}

-- The totals of a list of samples, counted afresh.
abbrev pub tally : Rollback → List Sample → Samples
tally rule xs = record {
  count = length xs;
  errors = sum_of (λ x. from_bool x.failed) xs;
  slow = sum_of (λ x. from_bool (is_slow rule x.elapsed)) xs;
}

-- The running totals are those of the samples in the window, of which there are at most 10000.
pub record IsTallied (rule : Rollback) (w : Window) : Type 0 where
  pub totals : w.totals ≡ tally rule w.samples
  pub bounded : length w.samples ≤ 10000

prune_samples-tally :
    (now : ℕ) (rule : Rollback) (xs : List Sample)
    → (prune_samples now rule xs (tally rule xs)).1
      ≡ tally rule (prune_samples now rule xs (tally rule xs)).0
unfolding prune_samples
prune_samples-tally now rule [] = refl
prune_samples-tally now rule (x ∷ xs) =
    elim (Bool-cases
      (ltb rule.window_seconds ((now - x.at) / second) || ltb 10000 (length (x ∷ xs)))) [
        | inl old ↦ rw old (
            let e : forget rule x (tally rule (x ∷ xs)) ≡ tally rule xs = ground arith in
            rw e (prune_samples-tally now rule xs))
        | inr kept ↦ rw kept
      ]

prune_samples-bounded :
    (now : ℕ) (rule : Rollback) (xs : List Sample) (t : Samples)
    → length (prune_samples now rule xs t).0 ≤ 10000
unfolding prune_samples
prune_samples-bounded now rule [] t = omega arith
prune_samples-bounded now rule (x ∷ xs) t =
    ground (arith, prune_samples-bounded now rule xs (forget rule x t))

pub prune-IsTallied :
    (now : ℕ) (rule : Rollback) (w : Window)
    → w.totals ≡ tally rule w.samples
    → IsTallied rule (prune now rule w)
unfolding prune
prune-IsTallied now rule w e = record {
  totals = rw e (prune_samples-tally now rule w.samples);
  bounded = prune_samples-bounded now rule w.samples w.totals;
}

tally-add :
    (rule : Rollback) (x : Sample) (w : Window)
    → w.totals ≡ tally rule w.samples
    → (add_sample rule x w).totals ≡ tally rule (w.samples ++ x ∷ [])
tally-add rule x w e = ground (
  arith,
  length-append w.samples (x ∷ []),
  sum_of-append (λ y. from_bool y.failed) w.samples (x ∷ []),
  sum_of-append (λ y. from_bool (is_slow rule y.elapsed)) w.samples (x ∷ []),
)

-- The rule's thresholds, on the samples themselves: enough of them, and too many failures or a
-- 95th percentile of the times above the limit.
abbrev pub IsBreached : Rollback → List Sample → Type 0
IsBreached rule xs =
    (rule.min_requests ≤ length xs)
    × ((length xs * rule.error_percent ≤ sum_of (λ x. from_bool x.failed) xs * 100)
        ⊎ ((limit : ℕ) × (rule.max_p95_ms ≡ some limit) × (limit < p95 (map (λ x. x.elapsed) xs))))

-- The call reports a request of a target that is not the fallback, at the stage that is current.
pub record IsCounted (rule : Rollback) (backend : Text) (stage : ℕ) (s : State) : Type 0 where
  pub current : stage ≡ s.progress.stage
  pub ruled : s.policy.rollback ≡ some rule
  pub fallback : Text
  pub resolved : lookup rule.fallback s.backends ≡ some fallback
  pub other : text_eq fallback backend ≡ false
  pub served : serves s.backends backend s.policy.backends ≡ some true

slow-above :
    (rule : Rollback) (limit : ℕ) (xs : List Sample)
    → rule.max_p95_ms ≡ some limit
    → sum_of (λ x. from_bool (is_slow rule x.elapsed)) xs ≡ above limit (map (λ x. x.elapsed) xs)
slow-above rule limit [] e = refl
slow-above rule limit (x ∷ xs) e = ground (arith, slow-above rule limit xs e)

length-map : (xs : List Sample) → length (map (λ x. x.elapsed) xs) ≡ length xs
length-map [] = refl
length-map (x ∷ xs) = ap suc (length-map xs)

judge-IsBreached :
    (rule : Rollback) (w : Window)
    → w.totals ≡ tally rule w.samples
    → ((judge rule w).1 ≡ true) ↔ IsBreached rule w.samples
unfolding judge
judge-IsBreached rule w e = elim (Option-cases rule.max_p95_ms) [
  | inl unlimited ↦ (
    λ h. (ground arith, inl (ground arith)),
    λ (enough, over). elim over [
      | inl errors ↦ ground arith
      | inr (limit, limited, slow) ↦ absurd (ground arith)
    ],
  )
  | inr (limit, limited) ↦
      let times = map (λ (x : Sample). x.elapsed) w.samples in
      let slow = slow-above rule limit w.samples limited in
      let size = length-map w.samples in
      let rank = p95-above limit times in
      (
        λ h. (
          ground arith,
          elim (Bool-cases (error_limit rule w.totals)) [
            | inl errors ↦ inl (ground arith)
            | inr few ↦ inr (limit, limited, rank.1 (ground (arith, slow, size)))
          ],
        ),
        λ (enough, over). elim over [
          | inl errors ↦ ground arith
          | inr (l, limited', above_limit) ↦
              let same : l ≡ limit = ground arith in
              let many : length times / 20 < above limit times = rank.0 (rw same at above_limit) in
              ground (arith, slow, size, many)
        ],
      )
]

judge_window :
    (rule : Rollback) (w : Window)
    → w.rolled_back ≡ false
    → ((judge rule w).0.rolled_back ≡ (judge rule w).1)
      × ((judge rule w).0.samples ≡ w.samples)
      × ((judge rule w).0.totals ≡ w.totals)
unfolding judge
judge_window rule w h = ground arith

prune-rolled_back :
    (now : ℕ) (rule : Rollback) (w : Window)
    → w.rolled_back ≡ false
    → (prune now rule w).rolled_back ≡ false
unfolding prune
prune-rolled_back now rule w h = h

-- A counted request, reported while the rollout has not been rolled back: the new window's totals
-- are those of its samples, at most 10000 of them, and the rollout is rolled back by this call
-- exactly when the samples breach the rule.
pub completed_trips :
    (backend : Text) (failed : Bool) (elapsed stage now : ℕ) (s : State) (rule : Rollback)
    → IsCounted rule backend stage s
    → s.window.rolled_back ≡ false
    → s.window.totals ≡ tally rule s.window.samples
    → (t : State) × (v : Bool) × (completed backend failed elapsed stage now s ≡ some (t, v))
      × IsTallied rule t.window
      × (t.window.rolled_back ≡ v)
      × ((v ≡ true) ↔ IsBreached rule t.window.samples)
unfolding completed record_sample
completed_trips backend failed elapsed stage now s rule c calm totals =
    let x : Sample = record { at = now; failed = failed; elapsed = min elapsed u64_max } in
    let w = prune now rule (add_sample rule x s.window) in
    let tallied =
      prune-IsTallied now rule (add_sample rule x s.window) (tally-add rule x s.window totals) in
    let kept = judge_window rule w (prune-rolled_back now rule (add_sample rule x s.window) calm) in
    (
      record s { window = (judge rule w).0 },
      (judge rule w).1,
      ground arith,
      record {
        totals = kept.2 ∙ tallied.totals ∙ ap (tally rule) (sym kept.1);
        bounded = rw kept.1 tallied.bounded;
      },
      kept.0,
      rw kept.1 (judge-IsBreached rule w tallied.totals),
    )

completed_same :
    (backend : Text) (failed : Bool) (elapsed stage now : ℕ) (s : State) {t : State} {v : Bool}
    → s.window.rolled_back ≡ true
    → completed backend failed elapsed stage now s ≡ some (t, v)
    → s ≡ t
unfolding completed record_sample
completed_same backend failed elapsed stage now s h e = ground arith

-- A latched rollback is not undone by a report.
pub completed-Latched :
    (backend : Text) (failed : Bool) (elapsed stage now : ℕ) (s : State) {t : State} {v : Bool}
    → s.window.rolled_back ≡ true
    → completed backend failed elapsed stage now s ≡ some (t, v)
    → Latched s t
completed-Latched backend failed elapsed stage now s {t} h e =
    let same : s ≡ t = completed_same backend failed elapsed stage now s h e in
    rw (← same) (record { back = h; policy = refl; backends = refl })

pub prune_latched :
    (now : ℕ) (rule : Rollback) (w : Window)
    → w.rolled_back ≡ true
    → (prune now rule w).rolled_back ≡ true
unfolding prune
prune_latched now rule w h = h
