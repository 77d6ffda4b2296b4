-- ===== src/Rollout/Advance/Stages.antt =====
-- The stages that a rollout can be in and move to.
use rgnix.Base.{
  ◌==◌, Bool-cases, Option-cases, is_some, length, get_elem?, Text, Result, ok, err, ℕ, zero, suc,
  ◌+◌, ◌≤◌, ◌<◌, String, ◌≡◌, refl, ◌≢◌, ◌⊎◌, inl, inr, Bool, true, false, Option, none, some, List,
  [], ◌∷◌, arith,
}
use rgnix.Rollout.Completed.Trips.{prune_latched}
use rgnix.Rollout.{
  ℤ, pos, sub_lt, int_eq, Step, Policy, Samples, Progress, default_progress, State, Latched,
}
use rgnix.Rollout.Advance.{
  stage_limit, install, is_current, accept, sync_progress, next_progress, sample_report,
}

-- Progress that fits a policy's steps.
abbrev pub Fits : Policy → Progress → Type 0
Fits p g = g.stage < stage_limit p

abbrev pub FitsAny : Policy → Option Progress → Type 0
FitsAny p none = Unit
FitsAny p (some g) = Fits p g

install_parts :
    (g : Progress) (s : State) → ((install g s).policy ≡ s.policy) × ((install g s).progress ≡ g)
unfolding install
install_parts g s = ground arith

Result-cases :
    (r : Result String Progress) → ((g : Progress) × (r ≡ ok g)) ⊎ ((m : String) × (r ≡ err m))
Result-cases (ok g) = inl (g, refl)
Result-cases (err m) = inr (m, refl)

get_elem?_lt : (xs : List Step) (i : ℕ) → i < length xs → is_some (get_elem? xs i) ≡ true
get_elem?_lt [] i h = absurd (omega arith)
get_elem?_lt (x ∷ xs) zero h = refl
get_elem?_lt (x ∷ xs) (suc i) h = get_elem?_lt xs i (omega arith)

lt_of_get_elem? : (xs : List Step) (i : ℕ) {x : Step} → get_elem? xs i ≡ some x → i < length xs
lt_of_get_elem? [] i h = absurd (ground arith)
lt_of_get_elem? (x ∷ xs) zero h = omega arith
lt_of_get_elem? (x ∷ xs) (suc i) {x = y} h = omega (arith, lt_of_get_elem? xs i {x = y} h)

module _ (policy_hash : Policy → Text) where
  accept-Fits :
      (s : State) (g : Progress) {t : State}
      → Fits s.policy s.progress
      → accept policy_hash s g ≡ ok t
      → Fits t.policy t.progress
  unfolding accept
  accept-Fits s g f h = elim (Bool-cases (is_current policy_hash s g)) [
    | inl current ↦ ground (arith, install_parts g s)
    | inr other ↦ ground arith
  ]

  -- The stage of a state that fits its steps still does after a synchronisation that succeeds,
  -- whatever text the progress is read from.
  pub sync_progress-Fits :
      (read : Text → Result String Progress) (value : Option Text) (s : State) {t : State}
      → Fits s.policy s.progress
      → sync_progress policy_hash read value s ≡ ok t
      → Fits t.policy t.progress
  unfolding sync_progress accept
  sync_progress-Fits read none s f h = ground (arith, install_parts default_progress s)
  sync_progress-Fits read (some text) s {t} f h = elim (Result-cases (read text)) [
    | inl (g, parsed) ↦ accept-Fits s g {t = t} f (ground arith)
    | inr (message, failed) ↦ absurd (ground arith)
  ]

  -- What it takes to leave a stage.
  pub record MayLeave (now : ℤ) (s : State) (step : Step) (t : Samples) : Type 0 where
    pub here : get_elem? s.policy.steps s.progress.stage ≡ some step
    pub running :
        (s.progress.paused ≡ false) × (s.progress.promoted ≡ false) × (s.window.rolled_back ≡ false)
    pub long_enough : sub_lt now s.progress.started_at step.duration_seconds ≡ false
    pub approved : (step.approval ≡ false) ⊎ (s.progress.approved_stage ≡ some s.progress.stage)
    pub sampled : step.min_requests ≤ t.count

  -- What a started rollout that moves has met, and what it moves to.
  pub next_progress-MayLeave :
      (now : ℤ) (gates_pass : Bool) (samples : Option Samples) (s : State) {g : Progress}
      → int_eq s.progress.started_at (pos 0) ≡ false
      → next_progress policy_hash now gates_pass samples s ≡ some (some g)
      → (step : Step) × (t : Samples) × (samples ≡ some t)
        × (gates_pass ≡ true)
        × MayLeave now s step t
        × (((s.progress.stage + 1 ≡ length s.policy.steps)
              × (g ≡ record s.progress { promoted = true }))
            ⊎ ((s.progress.stage + 1 ≢ length s.policy.steps)
                × (g ≡ record s.progress {
                  stage = s.progress.stage + 1;
                  started_at = now;
                  approved_stage = none;
                })))
  unfolding next_progress
  next_progress-MayLeave now gates_pass none s started h = absurd (ground arith)
  next_progress-MayLeave now gates_pass (some t) s started h =
      elim (Option-cases (get_elem? s.policy.steps s.progress.stage)) [
        | inl past ↦ absurd (ground arith)
        | inr (step, here) ↦ (
          step,
          t,
          refl,
          ground arith,
          record {
            here = here;
            running = ground arith;
            long_enough = ground arith;
            approved = ground arith;
            sampled = ground arith;
          },
          elim (Bool-cases ((s.progress.stage + 1) == length s.policy.steps)) [
            | inl last ↦ inl (ground arith)
            | inr more ↦ inr (ground arith)
          ],
        )
      ]

  next_progress_total :
      (now : ℤ) (gates_pass : Bool) (samples : Option Samples) (s : State)
      → Fits s.policy s.progress
      → is_some (next_progress policy_hash now gates_pass samples s) ≡ true
  unfolding next_progress
  next_progress_total now gates_pass samples s f =
      ground (arith, get_elem?_lt s.policy.steps s.progress.stage)

  pub next_progress_first :
      (now : ℤ) (gates_pass : Bool) (samples : Option Samples) (s : State) (g : Progress)
      → int_eq s.progress.started_at (pos 0) ≡ true
      → next_progress policy_hash now gates_pass samples s ≡ some (some g)
      → g ≡ record default_progress {
        revision = s.policy.revision;
        policy_hash = policy_hash s.policy;
        started_at = now;
      }
  unfolding next_progress
  next_progress_first now gates_pass samples s g fresh e = ground arith

  next_progress_fresh :
      (now : ℤ) (gates_pass : Bool) (samples : Option Samples) (s : State) (g : Progress)
      → int_eq s.progress.started_at (pos 0) ≡ true
      → next_progress policy_hash now gates_pass samples s ≡ some (some g)
      → Fits s.policy g
  unfolding next_progress
  next_progress_fresh now gates_pass samples s g fresh e = ground arith

  -- The next progress of a state that fits its steps fits them too, and asking for it never panics,
  -- in a build whose arithmetic wraps.
  pub next_progress-Fits :
      (now : ℤ) (gates_pass : Bool) (samples : Option Samples) (s : State)
      → Fits s.policy s.progress
      → (o : Option Progress) × (next_progress policy_hash now gates_pass samples s ≡ some o)
        × FitsAny s.policy o
  next_progress-Fits now gates_pass samples s f =
      elim (Option-cases (next_progress policy_hash now gates_pass samples s)) [
        | inl panics ↦ absurd (ground (arith, next_progress_total now gates_pass samples s f))
        | inr (none, found) ↦ (none, found, tt)
        | inr (some g, found) ↦ (some g, found, keeps g found)
      ]
    where
      keeps :
          (g : Progress)
          → next_progress policy_hash now gates_pass samples s ≡ some (some g)
          → Fits s.policy g
      keeps g e = elim (Bool-cases (int_eq s.progress.started_at (pos 0))) [
        | inl fresh ↦ next_progress_fresh now gates_pass samples s g fresh e
        | inr started ↦
            let (step, t, known, passing, leave, next) =
              next_progress-MayLeave now gates_pass samples s started e in
            let inside = lt_of_get_elem? s.policy.steps s.progress.stage leave.here in
            elim next [
              | inl (last, promoted) ↦ ground (arith, inside)
              | inr (more, moved) ↦ ground (arith, inside)
            ]
      ]

pub sample_report-Latched :
    (now : ℕ) (s : State) → s.window.rolled_back ≡ true → Latched s (sample_report now s).0
unfolding sample_report
sample_report-Latched now s h = elim (Option-cases s.policy.rollback) [
  | inl unruled ↦
      simp (unruled, sample_report) (record { back = h; policy = refl; backends = refl })
  | inr (rule, ruled) ↦
      simp (ruled, sample_report)
        (record { back = prune_latched now rule s.window h; policy = refl; backends = refl })
]

install-Latched : (g : Progress) (s : State) → s.window.rolled_back ≡ true → Latched s (install g s)
unfolding install
install-Latched g s h = ground arith

module _ (policy_hash : Policy → Text) where
  accept-Latched :
      (g : Progress) (s : State) {t : State}
      → s.window.rolled_back ≡ true
      → accept policy_hash s g ≡ ok t
      → Latched s t
  unfolding accept
  accept-Latched g s {t} h e = elim (Bool-cases (is_current policy_hash s g)) [
    | inl current ↦ let same : install g s ≡ t = ground arith in rw (← same) (install-Latched g s h)
    | inr other ↦
        let same : s ≡ t = ground arith in
        rw (← same) (record { back = h; policy = refl; backends = refl })
  ]

  pub sync_progress-Latched :
      (read : Text → Result String Progress) (value : Option Text) (s : State) {t : State}
      → s.window.rolled_back ≡ true
      → sync_progress policy_hash read value s ≡ ok t
      → Latched s t
  unfolding sync_progress
  sync_progress-Latched read none s {t} h e =
      let same : install default_progress s ≡ t = ground arith in
      rw (← same) (install-Latched default_progress s h)
  sync_progress-Latched read (some text) s {t} h e = elim (Result-cases (read text)) [
    | inl (g, parsed) ↦ accept-Latched g s {t = t} h (ground arith)
    | inr (message, failed) ↦ absurd (ground arith)
  ]
