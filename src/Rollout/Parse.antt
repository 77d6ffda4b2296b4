-- ===== src/Rollout/Parse.antt =====
-- src/rollout.rs: the checks of `Policy::parse`, on the policy that `serde_json` has read. The
-- parser of cohort keys takes `HeaderName::from_bytes` as a parameter.
pub mod Weights
use rgnix.Base.{
  ltb, leb, ◌==◌, if◌then◌else◌, within, is_none_or, is_some, length, all, any, sum_of, Text,
  text_eq, Result, ◌>>◌, ◌>>=◌, ensure, each, ok, ℕ, ◌*◌, String, Bool, true, false, not, ◌&&◌,
  ◌||◌, Option, none, some, List, [], ◌∷◌, map,
}
use rgnix.Traffic
use rgnix.Rollout.{Target, Mirror, Rollback, MetricRollback, Step, Policy}

-- `unique.insert(&backend.service)` for each backend
unfoldable pub unique_services : List Text → List Target → Bool
unique_services seen [] = true
unique_services seen (t ∷ ts) =
    if any (text_eq t.service) seen then false else unique_services (t.service ∷ seen) ts

abbrev pub services : Policy → List Text
services p = map (λ t. t.service) p.backends

abbrev pub declared : Policy → Text → Bool
declared p name = any (text_eq name) (services p)

abbrev pub total_weight : List Target → ℕ
total_weight = sum_of (λ t. t.weight)

unfoldable pub check_mirror : Mirror → Result String (Unit {0})
check_mirror m =
    ensure
      (leb m.percent 100 && (leb m.max_body_bytes (1024 * 1024) && within 1 10000 m.timeout_ms))
      "invalid mirror percentage/body/timeout"

unfoldable pub check_rollback : Policy → Rollback → Result String (Unit {0})
check_rollback p r =
    ensure
      (declared p r.fallback
        && (within 1 10000 r.min_requests
            && (within 1 100 r.error_percent
                && (within 1 3600 r.window_seconds && is_none_or r.max_p95_ms (within 1 3600000)))))
      "invalid rollback thresholds or fallback"

abbrev pub is_route : Traffic.Key → Bool
is_route Traffic.Key.route = true
is_route Traffic.Key.ip = false
is_route (Traffic.Key.header n) = false
is_route (Traffic.Key.cookie n) = false
is_route (Traffic.Key.claim n) = false

unfoldable pub check_cohort : (Text → Bool) → Text → Result String (Unit {0})
check_cohort header_name text = do
  key ← Traffic.parse header_name text
  ensure (not (is_route key)) "cohort requires a client-specific key"

-- `metrics::Rollback::validate`
unfoldable pub check_metric_rule : MetricRollback → Result String (Unit {0})
check_metric_rule m =
    ensure (within 1 120 m.consecutive_failures && leb m.failure_seconds 3600)
      "metric rollback requires 1..120 failures and at most 3600 failure seconds"

unfoldable pub check_metrics : Policy → MetricRollback → Result String (Unit {0})
unfolding check_metric_rule
check_metrics p m = do
  ensure (is_some p.rollback && not (length p.metric_gates == 0))
      "metric rollback requires metric gates and a rollback fallback"
  check_metric_rule m

unfoldable pub check_step : Policy → Step → Result String (Unit {0})
check_step p step = do
  ensure (is_some p.rollback) "staged rollouts require rollback thresholds and fallback"
  ensure (leb step.duration_seconds 86400 && leb step.min_requests 10000)
      "invalid stage duration or sample budget"
  ensure
      ((length step.weights == length p.backends)
        && (all (λ e. declared p e.0 && leb e.1 10000) step.weights
            && ltb 0 (sum_of (λ e. e.1) step.weights)))
      "stage weights must cover every declared target with positive total weight"

abbrev pub optionally {ℓ} :
    {A : Type ℓ} → (A → Result String (Unit {0})) → Option A → Result String (Unit {0})
optionally f none = ok tt
optionally f (some a) = f a

-- `Policy::parse` after deserialisation: the policy is returned as it was read.
unfoldable pub check : (Text → Bool) → Policy → Result String Policy
check header_name p = do
  ensure (not (length p.revision == 0) && leb (length p.revision) 64)
      "traffic revision requires 1..64 bytes"
  ensure
      (within 1 8 (length p.backends)
        && (all (λ t. leb t.weight 10000) p.backends && ltb 0 (total_weight p.backends)))
      "traffic requires 1..8 backends and positive total weight"
  ensure (unique_services [] p.backends) "duplicate traffic backend"
  optionally check_mirror p.mirror
  optionally (check_rollback p) p.rollback
  optionally (check_cohort header_name) p.cohort
  ensure (leb (length p.steps) 16 && leb (length p.metric_gates) 8)
      "at most 16 rollout stages and 8 metric gates"
  ensure ((length p.metric_gates == 0) || (not (length p.steps == 0) || is_some p.metric_rollback))
      "metric gates require rollout steps or metric rollback"
  optionally (check_metrics p) p.metric_rollback
  each (check_step p) p.steps
  ok p
