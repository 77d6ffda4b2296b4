-- ===== src/Rollout/Metrics.antt =====
-- src/rollout/metrics.rs: rollback by external metrics, `State::evaluate_metrics`. `now` is the
-- instant that `elapsed` reads.
use rgnix.Base.{
  ltb, leb, ◌==◌, if◌then◌else◌, Bool-cases, Option-cases, is_some, unwrap_or, any, Text, codes,
  text_eq, text_eq_iff, text_is_eq, lookup, insert, lookup-insert_self, retain_entries, ℕ, ◌+◌, ◌-◌,
  ◌/◌, ◌≤◌, min, ◌≡◌, refl, inl, inr, Bool, true, false, not, ◌&&◌, Option, none, some, List, [],
  ◌∷◌, ◌++◌, arith,
}
use rgnix.Rollout.{
  Unavailable, pause, rollback, MetricRollback, Window, Streak, State, second, Latched,
}

pub record Observation : Type 0 where
  pub digest : Text
  pub passed : Option Bool
  pub checked : ℕ

-- `Observation::fresh`
abbrev pub fresh : ℕ → Text → Observation → Bool
fresh now digest o = text_eq o.digest digest && leb ((now - o.checked) / second) 60

abbrev pub is_rollback : Unavailable → Bool
is_rollback pause = false
is_rollback rollback = true

abbrev pub failing : MetricRollback → Observation → Bool
failing rule o = elim o.passed [
  | none ↦ is_rollback rule.unavailable
  | some true ↦ false
  | some false ↦ true
]

-- An observation joins a streak; a gap of more than a minute starts another.
unfoldable pub extend : Observation → Streak → Streak
extend o k =
    if ltb k.last o.checked
    then (if ltb 60 ((o.checked - k.last) / second)
        then record { first = o.checked; last = o.checked; number = 1 }
        else record k { last = o.checked; number = min (k.number + 1) 4294967295 })
    else k

abbrev pub start_streak : Observation → Streak
start_streak o = record { first = o.checked; last = o.checked; number = 1 }

abbrev pub ripe : MetricRollback → Streak → Bool
ripe rule k =
    leb rule.consecutive_failures k.number && leb rule.failure_seconds ((k.last - k.first) / second)

-- `failures.gates.remove(name)`
abbrev pub remove : Text → List (Text × Streak) → List (Text × Streak)
remove name = retain_entries (λ k v. not (text_eq k name))

-- `format!("external metric {name} {}", ..)`
abbrev pub reason_of : Text → Observation → Text
reason_of name o =
    codes "external metric "
    ++ (name ++ (if is_some o.passed then codes " threshold" else codes " unavailable"))

-- One round of the loop on the gates: the gates' streaks, and whether the gate trips.
unfoldable pub gate_round :
    ℕ
    → Text
    → MetricRollback
    → List (Text × Observation)
    → Text
    → List (Text × Streak)
    → List (Text × Streak) × Option Observation
gate_round now digest rule results name gates = elim (lookup name results) [
  | none ↦ (remove name gates, none)
  | some o ↦
      if fresh now digest o && failing rule o
      then (let streak = extend o (unwrap_or (lookup name gates) (start_streak o)) in
          (insert name streak gates, if ripe rule streak then some o else none))
      else (remove name gates, none)
]

-- The loop. A gate that trips ends it unless the rollback is latched already.
unfoldable pub gate_loop :
    ℕ
    → Text
    → MetricRollback
    → List (Text × Observation)
    → List Text
    → List (Text × Streak)
    → Window
    → List (Text × Streak) × Window × Bool
gate_loop now digest rule results [] gates w = (gates, w, false)
gate_loop now digest rule results (name ∷ names) gates w =
    let (gates', tripped) = gate_round now digest rule results name gates in
    let rest = gate_loop now digest rule results names gates' w in
    if is_some tripped && not w.rolled_back
    then (
      gates',
      record w {
        rolled_back = true;
        reason = elim tripped [ none ↦ [] | some o ↦ reason_of name o ];
      },
      true,
    )
    else rest

unfoldable pub current_gates : Text → State → List (Text × Streak)
current_gates digest s =
    if text_eq s.metric_failures.digest digest && (s.metric_failures.stage == s.progress.stage)
    then s.metric_failures.gates
    else []

-- `State::evaluate_metrics`
unfoldable pub evaluate_metrics : ℕ → Text → List (Text × Observation) → State → State × Bool
evaluate_metrics now digest results s = elim s.policy.metric_rollback [
  | none ↦ (s, false)
  | some rule ↦
      let (gates, w, tripped) =
        gate_loop now digest rule results s.policy.metric_gates (current_gates digest s) s.window in
      (
        record s {
          window = w;
          metric_failures = record { digest = digest; stage = s.progress.stage; gates = gates };
        },
        tripped,
      )
]

-- A gate that is blamed for a rollback: listed in the policy, observed lately as failing under the
-- current digest, with a streak in `gates` that is long enough by number and by time.
pub record IsBlamed (now : ℕ) (digest : Text) (rule : MetricRollback)
    (results : List (Text × Observation)) (names : List Text) (gates : List (Text × Streak))
    : Type 0 where
  pub name : Text
  pub listed : any (text_eq name) names ≡ true
  pub observation : Observation
  pub seen : lookup name results ≡ some observation
  pub recent : fresh now digest observation ≡ true
  pub fails : failing rule observation ≡ true
  pub streak : Streak
  pub kept : lookup name gates ≡ some streak
  pub often : rule.consecutive_failures ≤ streak.number
  pub long : rule.failure_seconds ≤ (streak.last - streak.first) / second

IsBlamed-later :
    {now : ℕ} {digest : Text} {rule : MetricRollback} {results : List (Text × Observation)}
    (name : Text) (names : List Text) (gates : List (Text × Streak))
    → IsBlamed now digest rule results names gates
    → IsBlamed now digest rule results (name ∷ names) gates
IsBlamed-later name names gates b = record {
  name = b.name;
  listed = ground (arith, b.listed);
  observation = b.observation;
  seen = b.seen;
  recent = b.recent;
  fails = b.fails;
  streak = b.streak;
  kept = b.kept;
  often = b.often;
  long = b.long;
}

module _ (now : ℕ) (digest : Text) (rule : MetricRollback)
    (results : List (Text × Observation)) where
  gate_round-IsBlamed :
      (name : Text) (names : List Text) (gates : List (Text × Streak))
      → is_some (gate_round now digest rule results name gates).1 ≡ true
      → IsBlamed now digest rule results
          (name ∷ names)
          (gate_round now digest rule results name gates).0
  unfolding gate_round
  gate_round-IsBlamed name names gates h = elim (Option-cases (lookup name results)) [
    | inl missing ↦ absurd (ground arith)
    | inr (o, seen) ↦ elim (Bool-cases (fresh now digest o && failing rule o)) [
      | inl bad ↦
          let streak = extend o (unwrap_or (lookup name gates) (start_streak o)) in
          elim (Bool-cases (ripe rule streak)) [
            | inl tripped ↦ record {
              name = name;
              listed = ground (arith, text_eq_iff name name);
              observation = o;
              seen = seen;
              recent = ground arith;
              fails = ground arith;
              streak = streak;
              kept = rw (seen, gate_round) (rw bad (lookup-insert_self name streak gates));
              often = ground arith;
              long = ground arith;
            }
            | inr waiting ↦ absurd (ground arith)
          ]
      | inr fine ↦ absurd (ground arith)
    ]
  ]

  -- What the loop leaves when it trips.
  gate_loop-IsBlamed :
      (names : List Text) (gates : List (Text × Streak)) (w : Window)
      → (gate_loop now digest rule results names gates w).2 ≡ true
      → (w.rolled_back ≡ false)
        × ((gate_loop now digest rule results names gates w).1.rolled_back ≡ true)
        × IsBlamed now digest rule results names (gate_loop now digest rule results names gates w).0
  unfolding gate_loop
  gate_loop-IsBlamed [] gates w h = absurd (ground arith)
  gate_loop-IsBlamed (name ∷ names) gates w h =
      let round = gate_round now digest rule results name gates in
      elim (Bool-cases (is_some round.1 && not w.rolled_back)) [
        | inl trips ↦
            rw trips (ground arith, refl, gate_round-IsBlamed name names gates (ground arith))
        | inr on ↦
            let (calm, back, blamed) = gate_loop-IsBlamed names round.0 w (rw on at h) in
            rw on (calm, back, IsBlamed-later name names _ blamed)
      ]

-- A call that rolls back finds no rollback latched, latches one, and has a gate to blame.
pub evaluate_metrics-IsBlamed :
    (now : ℕ) (digest : Text) (results : List (Text × Observation)) (s : State)
    → (evaluate_metrics now digest results s).1 ≡ true
    → (s.window.rolled_back ≡ false)
      × ((evaluate_metrics now digest results s).0.window.rolled_back ≡ true)
      × (rule : MetricRollback) × (s.policy.metric_rollback ≡ some rule)
      × IsBlamed now digest rule results s.policy.metric_gates
          (evaluate_metrics now digest results s).0.metric_failures.gates
unfolding evaluate_metrics
evaluate_metrics-IsBlamed now digest results s h = elim (Option-cases s.policy.metric_rollback) [
  | inl unruled ↦ absurd (ground arith)
  | inr (rule, ruled) ↦
      let (calm, back, blamed) =
        gate_loop-IsBlamed now digest rule results s.policy.metric_gates (current_gates digest s)
          s.window (simp (ruled, evaluate_metrics) at h) in
      simp (ruled, evaluate_metrics) (calm, back, rule, refl, blamed)
]

gate_loop_latched :
    (now : ℕ) (digest : Text) (rule : MetricRollback) (results : List (Text × Observation))
    (names : List Text) (gates : List (Text × Streak)) (w : Window)
    → w.rolled_back ≡ true
    → (gate_loop now digest rule results names gates w).1.rolled_back ≡ true
unfolding gate_loop
gate_loop_latched now digest rule results [] gates w h = h
gate_loop_latched now digest rule results (name ∷ names) gates w h =
    let round = gate_round now digest rule results name gates in
    elim (Bool-cases (is_some round.1 && not w.rolled_back)) [
      | inl trips ↦ absurd (ground arith)
      | inr on ↦ rw on (gate_loop_latched now digest rule results names round.0 w h)
    ]

pub evaluate_metrics-Latched :
    (now : ℕ) (digest : Text) (results : List (Text × Observation)) (s : State)
    → s.window.rolled_back ≡ true
    → Latched s (evaluate_metrics now digest results s).0
unfolding evaluate_metrics
evaluate_metrics-Latched now digest results s h = elim (Option-cases s.policy.metric_rollback) [
  | inl unruled ↦
      simp (unruled, evaluate_metrics) (record { back = h; policy = refl; backends = refl })
  | inr (rule, ruled) ↦
      simp (ruled, evaluate_metrics)
        (record {
          back =
              gate_loop_latched now digest rule results s.policy.metric_gates
                (current_gates digest s) s.window h;
          policy = refl;
          backends = refl;
        })
]
