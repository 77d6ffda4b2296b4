-- ===== src/Tenancy/Quotas.antt =====
-- What a valid quota leaves of a route's settings.
use rgnix.Base.{ok, ℕ, ◌≤◌, min, ◌≡◌, ◌⊎◌, Option, none, some, arith}
use rgnix.Tenancy.{Quota, validate, Settings, from_secs, constrain, lowered, with_gateway}
use rgnix.Gateway.Timeouts.{Budgets, positive}

-- An hour, the longest timeout a quota can allow.
abbrev pub hour : ℕ
hour = 3600000000000

-- The ceilings of every quota, and those of the settings that were asked for.
pub record IsWithin (asked s : Settings) : Type 0 where
  pub body_positive : 1 ≤ s.max_body
  pub body_bounded : s.max_body ≤ 1073741824
  pub body_lowered : (asked.max_body ≡ 0) ⊎ (s.max_body ≤ asked.max_body)
  pub connect : s.connect_timeout ≤ min hour asked.connect_timeout
  pub read : s.read_timeout ≤ min hour asked.read_timeout
  pub write : s.write_timeout ≤ min hour asked.write_timeout
  pub header : s.client_header_timeout ≤ min hour asked.client_header_timeout
  pub body : s.client_body_timeout ≤ min hour asked.client_body_timeout
  pub send : s.send_timeout ≤ min hour asked.send_timeout
  pub idle : s.keepalive ≤ min hour asked.keepalive
  pub policy : s.body_policy_timeout ≤ min hour asked.body_policy_timeout

-- A deadline that is set stays set and is not above an hour nor what was asked for.
abbrev pub IsLowered : Option ℕ → Option ℕ → Type 0
IsLowered none none = Unit
IsLowered none (some d) = ⊥
IsLowered (some asked) none = ⊥
IsLowered (some asked) (some d) = d ≤ min hour asked

abbrev pub DeadlinesWithin : Budgets → Option Budgets → Type 0
DeadlinesWithin asked none = ⊥
DeadlinesWithin asked (some b) =
    IsLowered asked.request b.request × IsLowered asked.backend_request b.backend_request

lowered_lem : (ceiling : ℕ) (d : Option ℕ) → ceiling ≤ hour → IsLowered d (lowered ceiling d)
lowered_lem ceiling none h = tt
lowered_lem ceiling (some d) h = omega arith

-- What `validate` has checked of the fields that `constrain` reads.
validate-ceilings :
    (q : Quota)
    → validate q ≡ ok tt
    → (1 ≤ q.max_body_bytes) × (q.max_body_bytes ≤ 1073741824) × (q.max_timeout_seconds ≤ 3600)
unfolding validate
validate-ceilings q h = (ground arith, ground arith, ground arith)

-- Under a quota that `validate` accepts, the settings of a route of a Gateway, constrained and then
-- given the policy's deadlines, have a body limit from 1 byte to 1 GiB, and neither their eight
-- timeouts on connections, headers, bodies, sends and idling nor those deadlines are above an hour;
-- none of all these is above what was asked for, where 0 asked for no body limit, and a deadline is
-- set exactly where it was.
pub constrain-IsWithin :
    (q : Quota) (b : Budgets) (s : Settings)
    → validate q ≡ ok tt
    → IsWithin s (with_gateway (some q) b (constrain q s))
      × DeadlinesWithin b (with_gateway (some q) b (constrain q s)).gateway
unfolding constrain with_gateway
constrain-IsWithin q b s h =
    let (positive, bounded, seconds) = validate-ceilings q h in
    (
      record {
        body_positive = ground arith;
        body_bounded = ground arith;
        body_lowered = ground arith;
        connect = omega arith;
        read = omega arith;
        write = omega arith;
        header = omega arith;
        body = omega arith;
        send = omega arith;
        idle = omega arith;
        policy = omega arith;
      },
      (
        lowered_lem (from_secs q.max_timeout_seconds) b.request (omega (arith, seconds)),
        lowered_lem (from_secs q.max_timeout_seconds) b.backend_request (omega (arith, seconds)),
      ),
    )
