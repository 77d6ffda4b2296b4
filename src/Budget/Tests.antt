-- ===== src/Budget/Tests.antt =====
-- Examples of the request budget.
use rgnix.Base.{suc, ◌+◌, ◌≡◌, ◌↔◌, false}
use rgnix.Budget.{RequestBudget, new, try_acquire_owned}
use rgnix.Budget.Laws.{start, try, Reach-Balanced}

abbrev one_out : RequestBudget
one_out = (try_acquire_owned (new 1)).0

Reach-Balanced_example :
    (one_out.available + 1 ≡ 1) × (((try_acquire_owned one_out).1 ≡ false) ↔ (suc 0 ≡ 1))
unfolding new try_acquire_owned
Reach-Balanced_example = Reach-Balanced (try start)
