-- ===== src/Budget.antt =====
-- src/runtime/budget.rs: the process-wide request limit. Each atomic operation is one step, so the
-- threads' calls are sequences of steps.
mod Laws
mod Tests
use rgnix.Base.{◌==◌, if◌then◌else◌, ℕ, ◌+◌, ◌-◌, Bool, true, false}

-- `RequestBudget`: the free slots
pub record RequestBudget : Type 0 where
  pub available : ℕ

-- `RequestBudget::new`
pub new : ℕ → RequestBudget
new limit = record { available = limit }

-- `try_acquire_owned`: whether a permit is given
pub try_acquire_owned : RequestBudget → RequestBudget × Bool
try_acquire_owned b =
    if b.available == 0 then (b, false) else (record { available = b.available - 1 }, true)

-- `Drop for RequestPermit`
pub drop_permit : RequestBudget → RequestBudget
drop_permit b = record { available = b.available + 1 }
