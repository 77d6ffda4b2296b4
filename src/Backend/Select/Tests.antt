-- ===== src/Backend/Select/Tests.antt =====
-- Examples of selections and of the health of an endpoint.
use rgnix.Base.{
  ltb, Text, codes, ℕ, zero, suc, ◌≡◌, refl, ◌↔◌, inr, true, false, Option, none, some, [], ◌∷◌,
  arith,
}
use rgnix.Net.{v4, SocketAddr}
use rgnix.Backend.{round_robin, State, Backend, new_state, record_result}
use rgnix.Backend.Select.{ready_state, active_of, select}
use rgnix.Backend.Select.Health.{
  result, run, History, fresh, after, MayServe, ready_state-MayServe, Same, report-Same,
}
use rgnix.Backend.Select.Leases.{start, selects, Counted, leases-Counted}

abbrev address_at : ℕ → SocketAddr
address_at n = record { ip = v4 (10 ∷ 0 ∷ 0 ∷ n ∷ []); port = 80 }

abbrev first_state : State
first_state = record {
  hash_address = codes "10.0.0.1:80";
  active = 0;
  has_failures = false;
  health = record { failures = 0; blocked_until = none; active_ok = none };
}

abbrev two_backends : Backend
two_backends = record {
  options = record { balance = round_robin; max_inflight = 1; health = none };
  numeric = true;
  configured =
      record { address = address_at 1; weight = 1 }
      ∷ record { address = address_at 2; weight = 2 }
      ∷ [];
  states = first_state ∷ record first_state { hash_address = codes "10.0.0.2:80" } ∷ [];
  pool =
      (record { address = address_at 1; weight = 1 }, 0)
      ∷ (record { address = address_at 2; weight = 2 }, 1)
      ∷ [];
  selection = none;
  fixed = none;
  cursor = 1;
  active = 0;
  revision = 0;
}

abbrev no_score : Text → Text → ℕ → ℕ
no_score key address weight = weight

abbrev after_one : Backend × Option ℕ
after_one = select no_score ltb 5 [] two_backends

abbrev after_two : Backend × Option ℕ
after_two = select no_score ltb 6 [] after_one.0

select_tests : (after_one.1 ≡ some 1) × (after_two.1 ≡ none)
unfolding select
select_tests = (refl, refl)

idle : (i : ℕ) → active_of two_backends.states i ≡ 0
idle zero = refl
idle (suc zero) = refl
idle (suc (suc i)) = refl

leases-Counted_example : Counted no_score ltb 1 after_one.0 (1 ∷ [])
unfolding select
leases-Counted_example =
    leases-Counted no_score ltb two_backends
      (record { options = refl; active = refl; counts = idle; bounded = inr (omega arith) })
      (selects 5 [] start)

abbrev failed_once : State
failed_once = (run (result 10 true 1 30) (new_state (codes "10.0.0.1:80")) 7).0

failed_history : History failed_once 8
unfolding record_result new_state
failed_history = after (result 10 true 1 30) (fresh (codes "10.0.0.1:80") 7)

ready_state-MayServe_example :
    ((ready_state none 20 1 failed_once none).2 ≡ true) ↔ MayServe none 20 1 failed_once
ready_state-MayServe_example = ready_state-MayServe none 20 1 none failed_history

report-Same_example : Same failed_once (run (result 11 true 9 30) failed_once 8).0
unfolding record_result new_state
report-Same_example = report-Same (result 11 true 9 30) failed_once 8 refl refl
