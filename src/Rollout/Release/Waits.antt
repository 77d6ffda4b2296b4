-- ===== src/Rollout/Release/Waits.antt =====
-- src/ingress/release.rs and src/rollout/progress.rs: what a rollout has waited for.
use rgnix.Base.{
  ◌==◌, Bool-cases, length, get_elem?, any, Text, ok, ℕ, zero, suc, ◌+◌, ◌≤◌, ◌<◌, ◌≡◌, refl, sym,
  ◌∙◌, ◌⊎◌, inl, inr, Bool, true, false, Option, none, some, List, [], ◌∷◌, arith,
}
use rgnix.Rollout.{pos, half_word, sub_lt, int_eq, Step, Policy, Samples, Progress, State}
use rgnix.Rollout.Parse.{check_step, check}
use rgnix.Rollout.Parse.Weights.{each_at}
use rgnix.Rollout.Advance.Stages.{MayLeave, next_progress-MayLeave, next_progress_first}
use rgnix.Rollout.Release.Climb.{
  spent, grants, AreShort, Climb, opens, unpublished, moves, commands, Waited,
}
use rgnix.Rollout.Release.{Operation, progressed, initial, commanded}

spent_next :
    (xs : List Step) (k : ℕ) (x : Step)
    → get_elem? xs k ≡ some x
    → spent xs (suc k) ≡ spent xs k + x.duration_seconds
spent_next [] k x h = absurd (ground arith)
spent_next (y ∷ []) zero x h = ground arith
spent_next (y ∷ z ∷ ys) zero x h = ground arith
spent_next (y ∷ ys) (suc k) x h = omega (arith, spent_next ys k x h)

-- A difference of times that have not reached the half of the words is no less than a short duration
-- only where that much time is between them.
wait_lem :
    (later n d : ℕ)
    → n ≤ later
    → later < half_word
    → d ≤ 86400
    → sub_lt (pos later) (pos n) d ≡ false
    → n + d ≤ later
wait_lem later n d ordered small short h = ground arith

spent_none : (xs : List Step) → spent xs 0 ≡ 0
spent_none [] = refl
spent_none (x ∷ xs) = refl

check-AreShort :
    (header_name : Text → Bool) (p : Policy) {q : Policy}
    → check header_name p ≡ ok q
    → AreShort p.steps
unfolding check check_step
check-AreShort header_name p h i step at =
    let checked : check_step p step ≡ ok tt =
      each_at (check_step p) p.steps i {x = step} (ground arith) at in
    ground (arith, checked)

module _ (policy_hash : Policy → Text) (p : Policy) where
  initial-Waited :
      (now : ℕ) → 1 ≤ now → Waited policy_hash p now now [] (initial policy_hash (pos now) p)
  initial-Waited now h = record {
    since = now;
    started = refl;
    in_time = omega arith;
    waited = λ e. omega (arith, spent_none p.steps);
    lasted = omega (arith, spent_none p.steps);
    promoted_last = λ e. absurd (ground (arith, e));
    asked = λ k e. absurd (ground (arith, e));
    approved = λ i step low at wants. absurd (omega (arith, low));
  }

  -- What happens to a command.
  commanded-Waited :
      (began now later : ℕ) (granted : List ℕ) (g h : Progress) (op : Operation) (stage : Option ℕ)
      → Waited policy_hash p began now granted g
      → now ≤ later
      → commanded op (pos later) stage p g ≡ ok (progressed h)
      → Waited policy_hash p began later (grants op g granted) h
  unfolding commanded
  commanded-Waited began now later granted g h Operation.rollback stage w ordered e =
      absurd (ground arith)
  commanded-Waited began now later granted g h Operation.pause stage w ordered e =
      let same : record g { paused = true } ≡ h = ground (arith, e) in
      rw (sym same) (record {
        since = w.since;
        started = w.started;
        in_time = omega (arith, w.in_time);
        waited = w.waited;
        lasted = omega (arith, w.lasted);
        promoted_last = w.promoted_last;
        asked = w.asked;
        approved = w.approved;
      })
  commanded-Waited began now later granted g h Operation.resume stage w ordered e =
      let same : record g { paused = false; started_at = pos later } ≡ h = ground (arith, e) in
      rw (sym same) (record {
        since = later;
        started = refl;
        in_time = omega (arith, w.in_time);
        waited = λ running. omega (arith, w.waited running, w.in_time);
        lasted = omega (arith, w.lasted);
        promoted_last = w.promoted_last;
        asked = w.asked;
        approved = w.approved;
      })
  commanded-Waited began now later granted g h Operation.approve stage w ordered e =
      let same : record g { approved_stage = some g.stage } ≡ h = ground (arith, e) in
      rw (sym same) (record {
        since = w.since;
        started = w.started;
        in_time = omega (arith, w.in_time);
        waited = w.waited;
        lasted = omega (arith, w.lasted);
        promoted_last = w.promoted_last;
        asked = λ k is. ground (arith, is);
        approved = λ i step low at wants. ground (arith, w.approved i step low at wants);
      })

  -- What the stage that is left has met, in terms of the annotation.
  record Leaves (later : ℕ) (granted : List ℕ) (g : Progress) (since : ℕ) : Type 0 where
    step : Step
    here : get_elem? p.steps g.stage ≡ some step
    running : g.promoted ≡ false
    long : since + step.duration_seconds ≤ later
    agreed : step.approval ≡ true → any (λ j. j == g.stage) granted ≡ true

  left-Leaves :
      (began now later : ℕ) (granted : List ℕ) (g : Progress) (s : State) (step : Step)
      (t : Samples) (w : Waited policy_hash p began now granted g)
      → AreShort p.steps
      → now ≤ later
      → later < half_word
      → s.policy ≡ p
      → s.progress ≡ g
      → MayLeave policy_hash (pos later) s step t
      → Leaves later granted g w.since
  left-Leaves began now later granted g s step t w short ordered small pe ge leave =
      let at : get_elem? p.steps g.stage ≡ some step = rw (pe, ge) at leave.here in
      let from : s.progress.started_at ≡ pos w.since = rw ge w.started in
      record {
        step = step;
        here = at;
        running = rw ge at (leave.running.1);
        long =
            wait_lem later w.since step.duration_seconds (omega (arith, w.in_time)) small
              (short g.stage step at) (rw from at leave.long_enough);
        agreed = λ wants. elim leave.approved [
          | inl never ↦ absurd (ground (arith, never, wants))
          | inr is ↦ w.asked g.stage (rw ge at is)
        ];
      }

  -- Every stage that is done by the end of the one that is left has had its approval.
  approved-next :
      (began now later : ℕ) (granted : List ℕ) (g : Progress)
      (w : Waited policy_hash p began now granted g)
      → (l : Leaves later granted g w.since) → (i : ℕ) (step : Step) → i < suc g.stage
      → get_elem? p.steps i ≡ some step
      → step.approval ≡ true
      → any (λ j. j == i) granted ≡ true
  approved-next began now later granted g w l i step low at wants =
      elim (Bool-cases (i == g.stage)) [
        | inl last ↦
            let is : i ≡ g.stage = ground (arith, last) in
            let same : some l.step ≡ some step = sym l.here ∙ (rw is at at) in
            rw is (l.agreed (ground (arith, same, wants)))
        | inr before ↦ w.approved i step (ground (arith, low, before, l.running)) at wants
      ]

  moved-Waited :
      (began now later : ℕ) (granted : List ℕ) (g h : Progress)
      (w : Waited policy_hash p began now granted g)
      → later < half_word
      → now ≤ later
      → Leaves later granted g w.since
      → ((suc g.stage ≡ length p.steps) × (h ≡ record g { promoted = true }))
        ⊎ (h ≡ record g { stage = g.stage + 1; started_at = pos later; approved_stage = none })
      → Waited policy_hash p began later granted h
  moved-Waited began now later granted g h w small ordered l (inl (last, is)) = rw is (record {
    since = w.since;
    started = w.started;
    in_time = omega (arith, w.in_time);
    waited = λ e. absurd (ground (arith, e));
    lasted = omega (arith, spent_next p.steps g.stage l.step l.here, l.long, w.waited l.running);
    promoted_last = λ e. last;
    asked = w.asked;
    approved = approved-next began now later granted g w l;
  })
  moved-Waited began now later granted g h w small ordered l (inr is) = rw is (
      let running : g.promoted ≡ false = l.running in
      let long = spent_next p.steps g.stage l.step l.here in
      record {
        since = later;
        started = refl;
        in_time = omega (arith, w.in_time);
        waited = λ e. ground (arith, long, l.long, w.waited running);
        lasted = ground (arith, long, l.long, w.waited running, running);
        promoted_last = λ e. absurd (ground (arith, e, running));
        asked = λ k e. absurd (ground (arith, e));
        approved = λ i step low at wants.
            approved-next began now later granted g w l i step (ground (arith, low, running)) at
              wants;
      })

  short-Waited :
      {began now : ℕ} {granted : List ℕ} {g : Progress}
      → AreShort p.steps
      → Climb policy_hash p began now granted g
      → Waited policy_hash p began now granted g
  short-Waited short (opens now gates_pass samples s g pe fresh positive e) =
      let first = next_progress_first policy_hash (pos now) gates_pass samples s g fresh e in
      let is : g ≡ initial policy_hash (pos now) p = rw pe at first in
      rw is (initial-Waited now positive)
  short-Waited short (unpublished now positive) = initial-Waited now positive
  short-Waited short
        (moves began now later granted g h gates_pass samples s c ordered small pe ge e) =
      let w = short-Waited short c in
      let started : int_eq s.progress.started_at (pos 0) ≡ false =
        rw (ge, w.started) (ground (arith, w.in_time)) in
      let (step, t, known, passing, leave, next) =
        next_progress-MayLeave policy_hash (pos later) gates_pass samples s started e in
      moved-Waited began now later granted g h w small ordered
        (left-Leaves began now later granted g s step t w short ordered small pe ge leave)
        (elim next [
          | inl (last, promoted) ↦ inl (ground (arith, rw (pe, ge) at last), rw ge at promoted)
          | inr (more, moved) ↦ inr (rw ge at moved)
        ])
  short-Waited short (commands began now later granted g h op stage c ordered e) =
      commanded-Waited began now later granted g h op stage (short-Waited short c) ordered e

  -- A rollout under an accepted policy is nowhere before its time: through every history of
  -- publications and commands, on a clock that neither goes back nor, where a stage is left, has
  -- reached 2 ^ 63 seconds, the steps of all stages that are done, and of the last one where it is
  -- promoted, have lasted their durations one after another since it began, each of them that wants
  -- an approval was approved by an operator while it was the present one, and only the last stage is
  -- promoted.
  pub Climb-Waited :
      (header_name : Text → Bool) {q : Policy} {began now : ℕ} {granted : List ℕ} {g : Progress}
      → check header_name p ≡ ok q
      → Climb policy_hash p began now granted g
      → Waited policy_hash p began now granted g
  Climb-Waited header_name accepted c = short-Waited (check-AreShort header_name p accepted) c
