-- ===== src/Traffic/Limiter.antt =====
-- src/traffic.rs: the shared limiter. A call takes the limiter's state and returns the new one, as
-- the mutex is held throughout. `now` is the call's `Instant::now()` in nanoseconds. SHA-256
-- (`digest`) and `serde_json` (`serialize`) are parameters, and so is `f64`.
mod Counts
pub mod Permits
pub mod Tokens
pub mod Capacity
mod Tests
use rgnix.Base.{
  ltb, leb, if◌then◌else◌, is_some, unwrap_or, length, Text, codes, text_is_eq, lookup, insert,
  contains_key, or_insert, retain_entries, Result, ◌>>◌, ok, err, ℕ, ◌+◌, ◌-◌, Bool, not, ◌&&◌,
  ◌||◌, Option, none, some, List, [], ◌∷◌, ◌++◌,
}
use rgnix.Base.Floats.{F64}
use rgnix.Request.{Request}
use rgnix.Traffic.{Rate, Concurrency, Policy, value}

pub record Bucket (Float : Type 0) : Type 0 where
  pub tokens : Float
  pub active : ℕ
  pub touched : ℕ

pub record Limiter (Float : Type 0) : Type 0 where
  pub capacity : ℕ
  pub buckets : List (Text × Bucket Float)

abbrev pub Buckets : Type 0 → Type 0
Buckets Float = List (Text × Bucket Float)

abbrev pub minute : ℕ
minute = 60000000000

-- The SHA-256 of `format!("{route}\0{kind}\0{policy}\0{}", ..)`.
pub bucket_key : (Text → Text) → (Policy → Text) → Text → Text → Policy → Text → Text
bucket_key digest serialize route_id kind policy selected =
    digest (route_id ++ 0 ∷ kind ++ 0 ∷ serialize policy ++ 0 ∷ selected)

-- `Limiter::default`
pub new_limiter : (Float : Type 0) → Limiter Float
new_limiter Float = record { capacity = 16384; buckets = [] }

-- `Limiter::set_capacity`
pub set_capacity : {Float : Type 0} → Limiter Float → ℕ → Limiter Float
set_capacity l n = record l { capacity = n }

module _ (f : F64) where
  open f use {Float, of_nat, add, sub, mul, fmin, flt, as_secs}

  abbrev stays : ℕ → Text → Bucket Float → Bool
  stays now k b = ltb 0 b.active || ltb (now - b.touched) minute

  -- Idle buckets go when the map is full.
  prune : ℕ → ℕ → Buckets Float → Buckets Float
  prune now capacity m = if leb capacity (length m) then retain_entries (stays now) m else m

  -- The guard of both branches: a new key finds the map full.
  abbrev refused : ℕ → Text → Buckets Float → Bool
  refused capacity id m = not (contains_key id m) && leb capacity (length m)

  -- The branch of a concurrency limit. The bucket is made even if the call is then refused.
  check_slot : ℕ → ℕ → ℕ → Text → Buckets Float → Buckets Float × Result ℕ (Unit {0})
  check_slot now capacity limit id m =
      if refused capacity id m
      then (m, err 503)
      else (let fresh : Bucket Float = record { tokens = of_nat 0; active = 0; touched = now } in
          let bucket = unwrap_or (lookup id m) fresh in
          (or_insert id fresh m, if leb limit bucket.active then err 503 else ok tt))

  -- What a bucket holds once it is refilled for the time since it was touched.
  refill : ℕ → Rate → Bucket Float → Float
  refill now r b =
      fmin (add b.tokens (mul (as_secs (now - b.touched)) (of_nat r.per_second))) (of_nat r.burst)

  -- The branch of a rate.
  spend : ℕ → ℕ → Rate → Text → Buckets Float → Buckets Float × Result ℕ (Unit {0})
  spend now capacity r id m =
      if refused capacity id m
      then (m, err 503)
      else (let bucket =
            unwrap_or (lookup id m)
              (record { tokens = of_nat r.burst; active = 0; touched = now }) in
          let tokens = refill now r bucket in
          if flt tokens (of_nat 1)
          then (insert id (record bucket { tokens = tokens; touched = now }) m, err 429)
          else (
            insert id (record bucket { tokens = sub tokens (of_nat 1); touched = now }) m,
            ok tt,
          ))

  -- The permit's bucket is counted last.
  occupy : ℕ → Option Text → Buckets Float → Buckets Float
  occupy now none m = m
  occupy now (some id) m = elim (lookup id m) [
    | none ↦ m
    | some b ↦ insert id (record b { active = b.active + 1; touched = now }) m
  ]

  slot_stage : ℕ → ℕ → Option (ℕ × Text) → Buckets Float → Buckets Float × Result ℕ (Option Text)
  slot_stage now capacity none m = (m, ok none)
  slot_stage now capacity (some (limit, id)) m =
      let (m', r) = check_slot now capacity limit id m in (m', r >> ok (some id))

  rate_stage : ℕ → ℕ → Option (Rate × Text) → Buckets Float → Buckets Float × Result ℕ (Unit {0})
  rate_stage now capacity none m = (m, ok tt)
  rate_stage now capacity (some (r, id)) m = spend now capacity r id m

  finish :
      ℕ → Buckets Float × Result ℕ (Unit {0}) → Option Text → Buckets Float × Result ℕ (Option Text)
  finish now (m, err status) id = (m, err status)
  finish now (m, ok done) id = (occupy now id m, ok id)

  then_rate :
      ℕ
      → ℕ
      → Option (Rate × Text)
      → Buckets Float × Result ℕ (Option Text)
      → Buckets Float × Result ℕ (Option Text)
  then_rate now capacity rate (m, err status) = (m, err status)
  then_rate now capacity rate (m, ok id) = finish now (rate_stage now capacity rate m) id

  -- `acquire` once the keys of the two limits are computed.
  acquire_keys :
      ℕ
      → Option (ℕ × Text)
      → Option (Rate × Text)
      → Limiter Float
      → Limiter Float × Result ℕ (Option Text)
  acquire_keys now slot rate l =
      let (m, r) =
        then_rate now l.capacity rate
          (slot_stage now l.capacity slot (prune now l.capacity l.buckets)) in
      (record l { buckets = m }, r)

  module _ (digest : Text → Text) (serialize : Policy → Text) (trim : Text → Text) where
    abbrev slot_of : Text → Policy → Request → Option Concurrency → Option (ℕ × Text)
    slot_of route_id p q none = none
    slot_of route_id p q (some c) =
        some (
          c.limit,
          bucket_key digest serialize route_id (codes "concurrency") p (value trim c.key q),
        )

    abbrev rate_of : Text → Policy → Request → Option Rate → Option (Rate × Text)
    rate_of route_id p q none = none
    rate_of route_id p q (some r) =
        some (r, bucket_key digest serialize route_id (codes "rate") p (value trim r.key q))

    -- `Limiter::acquire`: the permit is the key of the bucket that it occupies.
    pub acquire :
        Text → Policy → Request → ℕ → Limiter Float → Limiter Float × Result ℕ (Option Text)
    acquire route_id p q now l =
        if not (is_some p.rate) && not (is_some p.concurrency)
        then (l, ok none)
        else acquire_keys now (slot_of route_id p q p.concurrency) (rate_of route_id p q p.rate) l

-- `Drop for Permit`
pub release : {Float : Type 0} → ℕ → Text → Limiter Float → Limiter Float
release now id l = elim (lookup id l.buckets) [
  | none ↦ l
  | some b ↦ record l {
    buckets = insert id (record b { active = b.active - 1; touched = now }) l.buckets;
  }
]
