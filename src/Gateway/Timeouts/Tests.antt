-- ===== src/Gateway/Timeouts/Tests.antt =====
-- src/gateway/timeouts.rs: examples of timeouts.
use rgnix.Base.{codes, strip_prefix, ok, ◌≡◌, refl, some}
use rgnix.Gateway.Timeouts.{Timeouts, unit_of, components, duration, budgets}
use rgnix.Gateway.Timeouts.Bounds.{IsSafe, budgets-IsSafe}

mixed : duration (codes "1h30m") ≡ ok 5400000
unfolding duration components unit_of strip_prefix
mixed = refl

abbrev both : Timeouts
both = record { request = some (codes "1h30m"); backend_request = some (codes "500ms") }

budgets-IsSafe_example : IsSafe (budgets both)
budgets-IsSafe_example = budgets-IsSafe both
