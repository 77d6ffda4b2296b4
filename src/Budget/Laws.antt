-- ===== src/Budget/Laws.antt =====
-- The permits that are out and the free slots, in any interleaving of the threads' calls.
use rgnix.Base.{if◌then◌else◌, ℕ, ◌+◌, ◌≡◌, ◌↔◌, false, arith}
use rgnix.Budget.{RequestBudget, new, try_acquire_owned, drop_permit}

-- Sequences of calls from a new budget, with the number of permits that are out.
pub data Reach (limit : ℕ) : RequestBudget → ℕ → Type 0 where
  start : Reach limit (new limit) 0
  try :
      {b : RequestBudget} {n : ℕ}
      → Reach limit b n
      → Reach limit (try_acquire_owned b).0 (if (try_acquire_owned b).1 then n + 1 else n)
  give : {b : RequestBudget} {n : ℕ} → Reach limit b (n + 1) → Reach limit (drop_permit b) n

Reach-sum : {limit : ℕ} {b : RequestBudget} {n : ℕ} → Reach limit b n → b.available + n ≡ limit
unfolding new try_acquire_owned drop_permit
Reach-sum start = omega arith
Reach-sum (try h) = ground (arith, Reach-sum h)
Reach-sum (give h) = omega (arith, Reach-sum h)

-- In any interleaving of acquisitions and drops, the free slots and the permits that are out make
-- up the limit, and an acquisition is refused exactly when all the permits are out.
pub Reach-Balanced :
    {limit : ℕ} {b : RequestBudget} {n : ℕ}
    → Reach limit b n
    → (b.available + n ≡ limit) × (((try_acquire_owned b).1 ≡ false) ↔ (n ≡ limit))
unfolding try_acquire_owned
Reach-Balanced {limit} {b} {n} h = let sum = Reach-sum h in (sum, ground arith)
