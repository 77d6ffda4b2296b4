-- ===== src/Traffic/Limiter/Capacity.antt =====
-- src/traffic.rs: the number of buckets.
use rgnix.Base.{
  Bool-cases, is_some, length, Text, text_is_eq, length-insert, length-retain_entries-le, Result,
  ok, err, ℕ, ◌≤◌, max, inl, inr, not, ◌&&◌, Option, none, some, arith,
}
use rgnix.Base.Floats.{F64}
use rgnix.Request.{Request}
use rgnix.Traffic.{Rate, Policy}
use rgnix.Traffic.Limiter.{
  Limiter, Buckets, stays, prune, check_slot, spend, occupy, slot_stage, rate_stage, finish,
  then_rate, acquire_keys, acquire,
}

module _ (f : F64) where
  open f use {Float, of_nat, flt}

  length-prune-le :
      (now capacity : ℕ) (m : Buckets Float) → length (prune f now capacity m) ≤ length m
  unfolding prune
  length-prune-le now capacity m = ground (arith, length-retain_entries-le (stays f now) m)

  check_slot-length :
      (now capacity limit : ℕ) (id : Text) (m : Buckets Float)
      → length (check_slot f now capacity limit id m).0 ≤ max capacity (length m)
  unfolding check_slot
  check_slot-length now capacity limit id m =
      ground (arith, length-insert id (record { tokens = of_nat 0; active = 0; touched = now }) m)

  spend-length :
      (now capacity : ℕ) (r : Rate) (id : Text) (m : Buckets Float)
      → length (spend f now capacity r id m).0 ≤ max capacity (length m)
  unfolding spend
  spend-length now capacity r id m = grind (arith, length-insert)

  occupy-length :
      (now : ℕ) (id : Option Text) (m : Buckets Float) → length (occupy f now id m) ≤ length m
  unfolding occupy
  occupy-length now none m = omega arith
  occupy-length now (some id) m = grind (arith, length-insert)

  slot_stage-length :
      (now capacity : ℕ) (slot : Option (ℕ × Text)) (m : Buckets Float)
      → length (slot_stage f now capacity slot m).0 ≤ max capacity (length m)
  unfolding slot_stage
  slot_stage-length now capacity none m = omega arith
  slot_stage-length now capacity (some (limit, id)) m = check_slot-length now capacity limit id m

  rate_stage-length :
      (now capacity : ℕ) (rate : Option (Rate × Text)) (m : Buckets Float)
      → length (rate_stage f now capacity rate m).0 ≤ max capacity (length m)
  unfolding rate_stage
  rate_stage-length now capacity none m = omega arith
  rate_stage-length now capacity (some (r, id)) m = spend-length now capacity r id m

  finish-length :
      (now : ℕ) (m : Buckets Float) (r : Result ℕ (Unit {0})) (id : Option Text)
      → length (finish f now (m, r) id).0 ≤ length m
  unfolding finish
  finish-length now m (err status) id = omega arith
  finish-length now m (ok done) id = occupy-length now id m

  then_rate-length :
      (now capacity : ℕ) (rate : Option (Rate × Text)) (m : Buckets Float)
      (r : Result ℕ (Option Text))
      → length (then_rate f now capacity rate (m, r)).0 ≤ max capacity (length m)
  unfolding then_rate
  then_rate-length now capacity rate m (err status) = omega arith
  then_rate-length now capacity rate m (ok id) =
      let (m', r) = rate_stage f now capacity rate m in
      omega (arith, finish-length now m' r id, rate_stage-length now capacity rate m)

  acquire_keys-length :
      (now : ℕ) (slot : Option (ℕ × Text)) (rate : Option (Rate × Text)) (l : Limiter Float)
      → length (acquire_keys f now slot rate l).0.buckets ≤ max l.capacity (length l.buckets)
  unfolding acquire_keys
  acquire_keys-length now slot rate l =
      let m0 = prune f now l.capacity l.buckets in
      let (m, r) = slot_stage f now l.capacity slot m0 in
      omega (
        arith,
        length-prune-le now l.capacity l.buckets,
        slot_stage-length now l.capacity slot m0,
        then_rate-length now l.capacity rate m r,
      )

  -- A call leaves at most as many buckets as the capacity, or as there were where the capacity
  -- was lowered below that before.
  pub acquire-length :
      (digest : Text → Text) (serialize : Policy → Text) (trim : Text → Text) (route_id : Text)
      (p : Policy) (q : Request) (now : ℕ) (l : Limiter Float)
      → length (acquire f digest serialize trim route_id p q now l).0.buckets
        ≤ max l.capacity (length l.buckets)
  unfolding acquire
  acquire-length digest serialize trim route_id p q now l =
      elim (Bool-cases (not (is_some p.rate) && not (is_some p.concurrency))) [
        | inl free ↦ rw free (omega arith)
        | inr limited ↦ rw limited (acquire_keys-length now _ _ l)
      ]
