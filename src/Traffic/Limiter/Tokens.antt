-- ===== src/Traffic/Limiter/Tokens.antt =====
-- The token bucket of a rate. The laws of `f64` that this needs are the hypothesis `Laws`.
use rgnix.Base.{
  Bool-cases, Option-cases, unwrap_or, Text, codes, text_eq, text_eq_iff, text_is_eq, lookup,
  insert, lookup-insert, lookup-insert_self, Result, ok, err, ℕ, ◌+◌, ◌≡◌, refl, inl, inr, false,
  Option, none, some, arith,
}
use rgnix.Base.Floats.{F64, Laws}
use rgnix.Request.{Request}
use rgnix.Traffic.{Rate, Policy, value}
use rgnix.Traffic.Limiter.{
  Bucket, Limiter, Buckets, bucket_key, prune, refused, refill, spend, occupy, slot_stage,
  rate_stage, finish, then_rate, acquire_keys, slot_of, acquire,
}

module _ (f : F64) (laws : Laws f) where
  open f use {Float, of_nat, flt, sub}

  -- The key has a bucket that holds no more tokens than the burst.
  abbrev IsBounded : Rate → Text → Buckets Float → Type 0
  IsBounded r id m =
      (b : Bucket Float) × (lookup id m ≡ some b) × (flt (of_nat r.burst) b.tokens ≡ false)

  -- A refilled bucket stays bounded when a token is taken.
  taken_bound :
      (now : ℕ) (r : Rate) (b : Bucket Float)
      → flt (of_nat r.burst) (sub (refill f now r b) (of_nat 1)) ≡ false
  unfolding refill
  taken_bound now r b = laws.sub_one-le _ r.burst (laws.fmin-le _ r.burst)

  insert-IsBounded :
      (r : Rate) (id : Text) (b : Bucket Float) (m : Buckets Float)
      → flt (of_nat r.burst) b.tokens ≡ false
      → IsBounded r id (insert id b m)
  insert-IsBounded r id b m h = (b, lookup-insert_self id b m, h)

  spend-IsBounded :
      (now capacity : ℕ) (r : Rate) (id : Text) (m : Buckets Float)
      → (spend f now capacity r id m).1 ≡ ok tt
      → IsBounded r id (spend f now capacity r id m).0
  unfolding spend
  spend-IsBounded now capacity r id m h = elim (Bool-cases (refused f capacity id m)) [
    | inl full ↦ absurd (ground arith)
    | inr room ↦ rw room (elim (Bool-cases (flt (refill f now r bucket) (of_nat 1))) [
      | inl low ↦ absurd (ground arith)
      | inr enough ↦ rw enough (insert-IsBounded r id _ m (taken_bound now r bucket))
    ])
  ]
    where
      bucket : Bucket Float
      bucket =
          unwrap_or (lookup id m) (record { tokens = of_nat r.burst; active = 0; touched = now })

  occupy-IsBounded :
      (now : ℕ) (r : Rate) (id : Text) (k : Option Text) (m : Buckets Float)
      → IsBounded r id m
      → IsBounded r id (occupy f now k m)
  unfolding occupy
  occupy-IsBounded now r id none m b = b
  occupy-IsBounded now r id (some k) m (b, found, bound) = elim (Option-cases (lookup k m)) [
    | inl missing ↦ rw (missing, occupy) (b, found, bound)
    | inr (c, there) ↦
        rw (there, occupy)
          (elim (Bool-cases (text_eq k id)) [
            | inl same ↦
                let at : k ≡ id = (text_eq_iff k id).0 same in
                let one : c ≡ b = ground (arith, rw at at there) in
                (
                  record c { active = c.active + 1; touched = now },
                  rw (
                    lookup-insert k id (record c { active = c.active + 1; touched = now }) m,
                    same,
                  ),
                  rw one bound,
                )
            | inr other ↦ (
              b,
              rw (lookup-insert k id (record c { active = c.active + 1; touched = now }) m, other)
                  found,
              bound,
            )
          ])
  ]

  finish-IsBounded :
      (now : ℕ) (r : Rate) (id : Text) (k : Option Text) (m : Buckets Float)
      (o : Result ℕ (Unit {0})) {permit : Option Text}
      → (finish f now (m, o) k).1 ≡ ok permit
      → (o ≡ ok tt → IsBounded r id m)
      → IsBounded r id (finish f now (m, o) k).0
  unfolding finish
  finish-IsBounded now r id k m (err status) h b = cc
  finish-IsBounded now r id k m (ok tt) h b = occupy-IsBounded now r id k m (b refl)

  then_rate-IsBounded :
      (now capacity : ℕ) (r : Rate) (id : Text) (m : Buckets Float) (o : Result ℕ (Option Text))
      {permit : Option Text}
      → (then_rate f now capacity (some (r, id)) (m, o)).1 ≡ ok permit
      → IsBounded r id (then_rate f now capacity (some (r, id)) (m, o)).0
  unfolding then_rate rate_stage
  then_rate-IsBounded now capacity r id m (err status) h = cc
  then_rate-IsBounded now capacity r id m (ok k) h =
      let (m', o) = spend f now capacity r id m in
      finish-IsBounded now r id k m' o h (spend-IsBounded now capacity r id m)

  -- When a call under a policy with a rate is let through, the bucket of the rate's key holds no
  -- more tokens than the burst, whatever time has passed since it was last touched.
  pub acquire-IsBounded :
      (digest : Text → Text) (serialize : Policy → Text) (trim : Text → Text) (route_id : Text)
      (p : Policy) (q : Request) (now : ℕ) (l : Limiter Float) (r : Rate) {permit : Option Text}
      → p.rate ≡ some r
      → (acquire f digest serialize trim route_id p q now l).1 ≡ ok permit
      → (b : Bucket Float) × (lookup
            (bucket_key digest serialize route_id (codes "rate") p (value trim r.key q))
            (acquire f digest serialize trim route_id p q now l).0.buckets
          ≡ some b)
        × (flt (of_nat r.burst) b.tokens ≡ false)
  unfolding acquire acquire_keys
  acquire-IsBounded digest serialize trim route_id p q now l r e h =
      let m0 = prune f now l.capacity l.buckets in
      let slot = slot_of f digest serialize trim route_id p q p.concurrency in
      let id = bucket_key digest serialize route_id (codes "rate") p (value trim r.key q) in
      let (m, o) = slot_stage f now l.capacity slot m0 in
      simp e (then_rate-IsBounded now l.capacity r id m o (simp e at h))
