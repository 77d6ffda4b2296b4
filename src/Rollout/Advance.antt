-- ===== src/Rollout/Advance.antt =====
-- src/rollout/progress.rs: the stages of a rollout, `State::sync_progress`, `State::sample_report`
-- and `State::next_progress`. `policy_hash` (SHA-256 of the policy's JSON) and `read`
-- (`serde_json::from_str`) are parameters. Arithmetic on `u64` and `i64` wraps, as in a release build.
pub mod Stages
use rgnix.Base.{
  ltb, leb, ◌==◌, if◌then◌else◌, is_some_and, is_none_or, length, get_elem?, Text, text_eq, Result,
  ◌>>◌, ◌>>=◌, ensure, ok, ℕ, ◌+◌, ◌*◌, ◌%◌, max, String, Bool, true, not, ◌&&◌, ◌||◌, Option, none,
  some, [],
}
use rgnix.Rollout.{
  ℤ, pos, is_nonneg, word, sub_lt, int_eq, Rollback, Policy, Samples, no_samples, Progress,
  default_progress, State,
}
use rgnix.Rollout.Completed.{prune, latency_limit}

-- `Some(a) == b` for stages
abbrev pub stage_is : Option ℕ → ℕ → Bool
stage_is o n = is_some_and o (λ m. m == n)

-- `samples.errors * 100 >= samples.count * u64::from(rule.error_percent)`, with products that wrap
abbrev pub errors_reach : Rollback → Samples → Bool
errors_reach rule t = leb ((t.count * rule.error_percent) % word) ((t.errors * 100) % word)

abbrev pub stage_limit : Policy → ℕ
stage_limit p = max (length p.steps) 1

-- The window starts afresh when the stage or its start changes.
unfoldable pub install : Progress → State → State
install progress s =
    if (s.progress.stage == progress.stage) && int_eq s.progress.started_at progress.started_at
    then record s { progress = progress }
    else record s {
      progress = progress;
      window = record s.window { samples = []; totals = no_samples };
    }

module _ (policy_hash : Policy → Text) where
  abbrev pub is_current : State → Progress → Bool
  is_current s p =
      text_eq p.revision s.policy.revision && text_eq p.policy_hash (policy_hash s.policy)

  -- The checks on progress of this very policy.
  unfoldable pub accept : State → Progress → Result String State
  unfolding install
  accept s p =
      if is_current s p
      then (do
        ensure
            (ltb p.stage (stage_limit s.policy)
              && (is_nonneg p.started_at
                  && is_none_or p.approved_stage (λ stage. ltb stage (stage_limit s.policy))))
            "invalid rollout progress"
        ok (install p s))
      else ok s

  -- `State::sync_progress`
  unfoldable pub sync_progress :
      (Text → Result String Progress) → Option Text → State → Result String State
  sync_progress read none s = ok (install default_progress s)
  sync_progress read (some text) s = read text >>= accept s

  -- `State::next_progress`; the outer `none` is the panic of a stage past the last step.
  unfoldable pub next_progress : ℤ → Bool → Option Samples → State → Option (Option Progress)
  next_progress now gates_pass samples s =
      if length s.policy.steps == 0
      then some none
      else if int_eq s.progress.started_at (pos 0)
      then some (
          some (record default_progress {
            revision = s.policy.revision;
            policy_hash = policy_hash s.policy;
            started_at = now;
          }))
      else elim (get_elem? s.policy.steps s.progress.stage) [
        | none ↦ none
        | some step ↦
            if s.progress.paused
              || (s.progress.promoted
                  || (not gates_pass
                      || (sub_lt now s.progress.started_at step.duration_seconds
                          || (step.approval
                              && not (stage_is s.progress.approved_stage s.progress.stage)))))
            then some none
            else if s.window.rolled_back
            then some none
            else elim samples [
              | none ↦ some none
              | some t ↦
                  if ltb t.count step.min_requests
                  then some none
                  else if ltb 0 t.count
                      && is_some_and s.policy.rollback
                          (λ rule. errors_reach rule t || latency_limit rule t)
                  then some none
                  else if (s.progress.stage + 1) == length s.policy.steps
                  then some (some (record s.progress { promoted = true }))
                  else some (
                      some (record s.progress {
                        stage = s.progress.stage + 1;
                        started_at = now;
                        approved_stage = none;
                      }))
            ]
      ]

-- `State::sample_report`, less the key: the window is pruned and its totals are handed out.
unfoldable pub sample_report : ℕ → State → State × Samples
sample_report now s = elim s.policy.rollback [
  | none ↦ (s, no_samples)
  | some rule ↦ let w = prune now rule s.window in (record s { window = w }, w.totals)
]
