-- ===== src/Rollout.antt =====
-- src/rollout.rs, src/rollout/progress.rs, src/rollout/metrics.rs: the records of a rollout. An
-- `Instant` is in nanoseconds, a Unix time in seconds is an `ℤ`.
pub mod Parse
pub mod Completed
pub mod Select
pub mod Advance
pub mod Metrics
pub mod Latch
pub mod Release
mod Tests
use rgnix.Base.{
  ltb, ◌==◌, get_elem?, Text, text_is_eq, lookup, ℕ, ◌+◌, ◌-◌, ◌%◌, ◌≡◌, Bool, true, false, Option,
  none, some, List, [], ◌∷◌,
}

-- `i64`; `negsuc n` is -(n + 1).
pub data ℤ : Type 0 where
  pos : ℕ → ℤ
  negsuc : ℕ → ℤ

abbrev pub is_nonneg : ℤ → Bool
is_nonneg (pos n) = true
is_nonneg (negsuc n) = false

-- The 64 bits of an `i64`, as a number, and `<` of the signed numbers that bits stand for.
abbrev pub word : ℕ
word = 18446744073709551616

abbrev pub half_word : ℕ
half_word = 9223372036854775808

abbrev pub bits_of : ℤ → ℕ
bits_of (pos n) = n % word
bits_of (negsuc n) = word - 1 - n % word

abbrev pub signed_lt : ℕ → ℕ → Bool
signed_lt a b = ltb ((a + half_word) % word) ((b + half_word) % word)

-- `a - b < n as i64`, with a difference that wraps
abbrev pub sub_lt : ℤ → ℤ → ℕ → Bool
sub_lt a b n = signed_lt ((bits_of a + (word - bits_of b)) % word) (n % word)

abbrev pub int_eq : ℤ → ℤ → Bool
int_eq (pos a) (pos b) = a == b
int_eq (negsuc a) (negsuc b) = a == b
int_eq (pos a) (negsuc b) = false
int_eq (negsuc a) (pos b) = false

pub record Target : Type 0 where
  pub service : Text
  pub weight : ℕ

pub record Mirror : Type 0 where
  pub service : Text
  pub percent : ℕ
  pub max_body_bytes : ℕ
  pub timeout_ms : ℕ

pub record Rollback : Type 0 where
  pub fallback : Text
  pub min_requests : ℕ
  pub error_percent : ℕ
  pub window_seconds : ℕ
  pub max_p95_ms : Option ℕ

pub data Unavailable : Type 0 where
  pause rollback : Unavailable

-- `metrics::Rollback`
pub record MetricRollback : Type 0 where
  pub consecutive_failures : ℕ
  pub failure_seconds : ℕ
  pub unavailable : Unavailable

pub record Step : Type 0 where
  pub weights : List (Text × ℕ)
  pub duration_seconds : ℕ
  pub min_requests : ℕ
  pub approval : Bool

pub record Policy : Type 0 where
  pub revision : Text
  pub backends : List Target
  pub mirror : Option Mirror
  pub rollback : Option Rollback
  pub steps : List Step
  pub cohort : Option Text
  pub metric_gates : List Text
  pub metric_rollback : Option MetricRollback

pub record Samples : Type 0 where
  pub count : ℕ
  pub errors : ℕ
  pub slow : ℕ

abbrev pub no_samples : Samples
no_samples = record { count = 0; errors = 0; slow = 0 }

pub record Progress : Type 0 where
  pub revision : Text
  pub policy_hash : Text
  pub stage : ℕ
  pub started_at : ℤ
  pub paused : Bool
  pub approved_stage : Option ℕ
  pub promoted : Bool

abbrev pub default_progress : Progress
default_progress = record {
  revision = [];
  policy_hash = [];
  stage = 0;
  started_at = pos 0;
  paused = false;
  approved_stage = none;
  promoted = false;
}

-- One answered request: when, whether it failed, and how many milliseconds it took.
pub record Sample : Type 0 where
  pub at : ℕ
  pub failed : Bool
  pub elapsed : ℕ

-- The samples stand oldest first.
pub record Window : Type 0 where
  pub samples : List Sample
  pub totals : Samples
  pub rolled_back : Bool
  pub reason : Text

abbrev pub default_window : Window
default_window = record { samples = []; totals = no_samples; rolled_back = false; reason = [] }

-- What a failing gate has shown: first and last failing observation, and how many.
pub record Streak : Type 0 where
  pub first : ℕ
  pub last : ℕ
  pub number : ℕ

pub record Failures : Type 0 where
  pub digest : Text
  pub stage : ℕ
  pub gates : List (Text × Streak)

abbrev pub default_failures : Failures
default_failures = record { digest = []; stage = 0; gates = [] }

pub record State : Type 0 where
  pub policy : Policy
  pub kind : Text
  pub owner : Text
  pub uid : Text
  pub backends : List (Text × Text)
  pub cursor : ℕ
  pub window : Window
  pub progress : Progress
  pub metric_failures : Failures

abbrev pub second : ℕ
second = 1000000000

-- `weights.map_or(target.weight, |w| w[&target.service])` of each target, in
-- `State::stage_weights`; a weight that is missing would panic, and is no target here.
unfoldable pub stage_targets : Option Step → List Target → Option (List Target)
stage_targets none targets = some targets
stage_targets (some step) [] = some []
stage_targets (some step) (t ∷ ts) = elim (lookup t.service step.weights) [
  | none ↦ none
  | some w ↦ elim (stage_targets (some step) ts) [
    | none ↦ none
    | some rest ↦ some (record { service = t.service; weight = w } ∷ rest)
  ]
]

unfoldable pub stage_weights : State → Option (List Target)
unfolding stage_targets
stage_weights s = stage_targets (get_elem? s.policy.steps s.progress.stage) s.policy.backends

-- A state `t` with the rollback latched, and with the parts of `s` that its fallback is found by.
pub record Latched (s t : State) : Type 0 where
  pub back : t.window.rolled_back ≡ true
  pub policy : t.policy ≡ s.policy
  pub backends : t.backends ≡ s.backends
