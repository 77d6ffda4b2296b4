-- ===== src/Traffic/Limiter/Tests.antt =====
-- Runs of the limiter, and its theorems at concrete inputs.
use rgnix.Base.{
  ltb, leb, length, Text, codes, text_is_eq, lookup, Result, ok, err, ℕ, ◌+◌, ◌-◌, ◌*◌, ◌/◌, ◌≤◌,
  min, max, ◌≡◌, refl, false, Option, none, some, [], arith,
}
use rgnix.Base.Floats.{F64, Laws}
use rgnix.Request.{Request}
use rgnix.Traffic.{ip, Policy, value}
use rgnix.Traffic.Limiter.{
  Bucket, Limiter, bucket_key, new_limiter, set_capacity, prune, check_slot, refill, spend, occupy,
  slot_stage, rate_stage, finish, then_rate, acquire_keys, acquire, release,
}
use rgnix.Traffic.Limiter.Counts.{granted, give_back, Counted}
use rgnix.Traffic.Limiter.Permits.{acquired, released, start, next, Reach-Counted}
use rgnix.Traffic.Limiter.Tokens.{acquire-IsBounded}
use rgnix.Traffic.Limiter.Capacity.{acquire-length}

-- Whole numbers in place of `f64`, and a digest that keeps its input.
abbrev whole : F64
whole = record {
  Float = ℕ;
  of_nat = λ n. n;
  add = λ a b. a + b;
  sub = λ a b. a - b;
  mul = λ a b. a * b;
  div = λ a b. a / b;
  neg = λ a. 0 - a;
  ln = λ a. a;
  fmin = λ a b. min a b;
  flt = ltb;
  total_le = leb;
  as_secs = λ n. n / 1000000000;
}

whole_min : (a n : ℕ) → ltb n (min a n) ≡ false
whole_min a n = ground arith

whole_sub : (a n : ℕ) → ltb n a ≡ false → ltb n (a - 1) ≡ false
whole_sub a n h = ground arith

abbrev whole_laws : Laws whole
whole_laws = record { fmin-le = whole_min; sub_one-le = whole_sub }

abbrev same : Text → Text
same s = s

abbrev unit_policy : Policy → Text
unit_policy p = []

abbrev client : Request
client = record { claims = []; remote_addr = codes "10.0.0.9"; header = λ n. none }

abbrev strict : Policy
strict = record {
  rate = some (record { per_second = 1; burst = 1; key = ip });
  concurrency = some (record { limit = 1; key = ip });
}

limiter : Unit {0}
unfolding acquire acquire_keys then_rate slot_stage rate_stage finish occupy spend check_slot prune
    refill bucket_key new_limiter release set_capacity value
limiter = tt

abbrev ask : ℕ → Limiter ℕ → Limiter ℕ × Result ℕ (Option Text)
ask = acquire whole same unit_policy same (codes "r") strict client

slot : Text
unfolding bucket_key value
slot = bucket_key same unit_policy (codes "r") (codes "concurrency") strict (value same ip client)

-- Granted; refused while the slot is taken; refused by the rate; granted a second later.
acquire_tests :
    ((ask 0 (new_limiter ℕ)).1 ≡ ok (some slot))
    × ((ask 0 (ask 0 (new_limiter ℕ)).0).1 ≡ err 503)
    × ((ask 0 (release 0 slot (ask 0 (new_limiter ℕ)).0)).1 ≡ err 429)
    × ((ask 1000000000 (release 0 slot (ask 0 (new_limiter ℕ)).0)).1 ≡ ok (some slot))
    × ((ask 0 (set_capacity (new_limiter ℕ) 1)).1 ≡ err 503)
unfolding limiter slot
acquire_tests = (refl, refl, refl, refl, refl)

Reach-Counted_example :
    Counted
      (release 5 slot (ask 0 (new_limiter ℕ)).0)
      (give_back slot (granted (ask 0 (new_limiter ℕ)).1 []))
Reach-Counted_example = Reach-Counted whole same unit_policy same (
    next (next start (acquired (codes "r") strict client 0 (new_limiter ℕ) []))
      (released slot 5 _ _))

acquire-length_example : length (ask 0 (new_limiter ℕ)).0.buckets ≤ max 16384 0
unfolding new_limiter
acquire-length_example =
    acquire-length whole same unit_policy same (codes "r") strict client 0 (new_limiter ℕ)

acquire-IsBounded_example :
    (b : Bucket ℕ) × (lookup
        (bucket_key same unit_policy (codes "r") (codes "rate") strict (value same ip client))
        (ask 0 (new_limiter ℕ)).0.buckets
      ≡ some b)
    × (ltb 1 b.tokens ≡ false)
unfolding limiter slot
acquire-IsBounded_example =
    acquire-IsBounded whole whole_laws same unit_policy same (codes "r") strict client 0
      (new_limiter ℕ) (record { per_second = 1; burst = 1; key = ip }) {permit = some slot} refl
      refl
