-- ===== src/Traffic/Limiter/Permits.antt =====
-- src/traffic.rs: the permits of the concurrency limits, over histories of calls.
use rgnix.Base.{
  leb, if◌then◌else◌, Bool-cases, Option-cases, is_some, length, Text, text_eq, text_eq_iff,
  text_is_eq, lookup, contains_key, lookup-insert_self, IsUnique, insert-IsUnique,
  retain_entries-IsUnique, lookup-retain_entries, Result, ◌>>◌, ok, err, ℕ, ◌+◌, ◌≡◌, refl, ap, ◌∙◌,
  inl, inr, true, not, ◌&&◌, Option, none, some, List, [], arith,
}
use rgnix.Base.Floats.{F64}
use rgnix.Traffic.{Rate, Policy}
use rgnix.Request.{Request}
use rgnix.Traffic.Limiter.{
  Limiter, Buckets, new_limiter, set_capacity, stays, prune, check_slot, refill, spend, occupy,
  slot_stage, rate_stage, finish, then_rate, acquire_keys, acquire, release,
}
use rgnix.Traffic.Limiter.Counts.{
  count, granted, give_back, active_at, Counted, Keeps, active_at-insert, contains_key-insert,
  Keeps-refl, Keeps-trans, insert-Keeps, release-Counted,
}

module _ (f : F64) where
  open f use {Float, of_nat, flt}

  prune-Keeps :
      (now capacity : ℕ) (m : Buckets Float) → IsUnique m → Keeps m (prune f now capacity m)
  unfolding prune
  prune-Keeps now capacity m u = elim (Bool-cases (leb capacity (length m))) [
    | inl full ↦ rw full (record {
      unique = retain_entries-IsUnique (stays f now) m u;
      same = λ k. ground (arith, lookup-retain_entries (stays f now) k m u);
    })
    | inr room ↦ rw room (Keeps-refl u)
  ]

  check_slot-Keeps :
      (now capacity limit : ℕ) (id : Text) (m : Buckets Float)
      → IsUnique m
      → Keeps m (check_slot f now capacity limit id m).0
  unfolding check_slot
  check_slot-Keeps now capacity limit id m u = elim (Option-cases (lookup id m)) [
    | inl missing ↦ elim (Bool-cases (leb capacity (length m))) [
      | inl full ↦ rw (missing, full) (Keeps-refl u)
      | inr room ↦ rw (missing, room) (insert-Keeps id _ m u (ground arith))
    ]
    | inr (b, found) ↦ rw found (Keeps-refl u)
  ]

  spend-Keeps :
      (now capacity : ℕ) (r : Rate) (id : Text) (m : Buckets Float)
      → IsUnique m
      → Keeps m (spend f now capacity r id m).0
  unfolding spend
  spend-Keeps now capacity r id m u = elim (Option-cases (lookup id m)) [
    | inl missing ↦ elim (Bool-cases (leb capacity (length m))) [
      | inl full ↦ rw (missing, full) (Keeps-refl u)
      | inr room ↦
          rw (missing, room)
            (elim (Bool-cases (
              flt (refill f now r (record { tokens = of_nat r.burst; active = 0; touched = now }))
                (of_nat 1))) [
                  | inl low ↦ rw low (insert-Keeps id _ m u (ground arith))
                  | inr enough ↦ rw enough (insert-Keeps id _ m u (ground arith))
                ])
    ]
    | inr (b, found) ↦ rw found (elim (Bool-cases (flt (refill f now r b) (of_nat 1))) [
      | inl low ↦ rw low (insert-Keeps id _ m u (ground arith))
      | inr enough ↦ rw enough (insert-Keeps id _ m u (ground arith))
    ])
  ]

  -- What the slot stage leaves: the same counts, and a bucket for the key that it hands on.
  abbrev HasSlot : Result ℕ (Option Text) → Buckets Float → Type 0
  HasSlot (err status) m = Unit {0}
  HasSlot (ok none) m = Unit {0}
  HasSlot (ok (some id)) m = contains_key id m ≡ true

  check_slot-has :
      (now capacity limit : ℕ) (id : Text) (m : Buckets Float)
      → HasSlot
          ((check_slot f now capacity limit id m).1 >> ok (some id))
          (check_slot f now capacity limit id m).0
  unfolding check_slot
  check_slot-has now capacity limit id m =
      ground
        (arith, lookup-insert_self id (record { tokens = of_nat 0; active = 0; touched = now }) m)

  slot_stage-has :
      (now capacity : ℕ) (slot : Option (ℕ × Text)) (m : Buckets Float)
      → HasSlot (slot_stage f now capacity slot m).1 (slot_stage f now capacity slot m).0
  unfolding slot_stage
  slot_stage-has now capacity none m = tt
  slot_stage-has now capacity (some (limit, id)) m = check_slot-has now capacity limit id m

  slot_stage-Keeps :
      (now capacity : ℕ) (slot : Option (ℕ × Text)) (m : Buckets Float)
      → IsUnique m
      → Keeps m (slot_stage f now capacity slot m).0
  unfolding slot_stage
  slot_stage-Keeps now capacity none m u = Keeps-refl u
  slot_stage-Keeps now capacity (some (limit, id)) m u = check_slot-Keeps now capacity limit id m u

  rate_stage-Keeps :
      (now capacity : ℕ) (rate : Option (Rate × Text)) (m : Buckets Float)
      → IsUnique m
      → Keeps m (rate_stage f now capacity rate m).0
  unfolding rate_stage
  rate_stage-Keeps now capacity none m u = Keeps-refl u
  rate_stage-Keeps now capacity (some (r, id)) m u = spend-Keeps now capacity r id m u

  rate_stage-has :
      (now capacity : ℕ) (rate : Option (Rate × Text)) (k : Text) (m : Buckets Float)
      → contains_key k m ≡ true
      → contains_key k (rate_stage f now capacity rate m).0 ≡ true
  unfolding rate_stage spend
  rate_stage-has now capacity none k m h = h
  rate_stage-has now capacity (some (r, id)) k m h = grind (arith, contains_key-insert)

  occupy-counts :
      (now : ℕ) (id k : Text) (m : Buckets Float)
      → contains_key id m ≡ true
      → active_at k (occupy f now (some id) m) ≡ (if text_eq id k then 1 else 0) + active_at k m
  unfolding occupy
  occupy-counts now id k m h = elim (Option-cases (lookup id m)) [
    | inl missing ↦ cc
    | inr (b, found) ↦
        rw (found, occupy)
          (ground (
            arith,
            active_at-insert id k (record b { active = b.active + 1; touched = now }) m,
            text_eq_iff id k,
          ))
  ]

  occupy-IsUnique :
      (now : ℕ) (id : Option Text) (m : Buckets Float) → IsUnique m → IsUnique (occupy f now id m)
  unfolding occupy
  occupy-IsUnique now none m u = u
  occupy-IsUnique now (some id) m u = elim (Option-cases (lookup id m)) [
    | inl missing ↦ rw (missing, occupy) u
    | inr (b, found) ↦ rw (found, occupy) (insert-IsUnique id _ m u)
  ]

  -- The outcome of the last stage, over buckets that count `ps`.
  finish-Counted :
      (now capacity : ℕ) (l : Limiter Float) (ps : List Text) (m : Buckets Float)
      (r : Result ℕ (Unit {0})) (id : Option Text)
      → IsUnique m
      → ((k : Text) → active_at k m ≡ count k ps)
      → HasSlot (ok id) m
      → Counted
          (record l { buckets = (finish f now (m, r) id).0 })
          (granted (finish f now (m, r) id).1 ps)
  unfolding finish occupy
  finish-Counted now capacity l ps m (err status) id u c h = record { unique = u; counts = c }
  finish-Counted now capacity l ps m (ok done) none u c h = record { unique = u; counts = c }
  finish-Counted now capacity l ps m (ok done) (some id) u c h = record {
    unique = occupy-IsUnique now (some id) m u;
    counts = λ k. occupy-counts now id k m h ∙ ap (◌+◌ (if text_eq id k then 1 else 0)) (c k);
  }

  then_rate-Counted :
      (now capacity : ℕ) (rate : Option (Rate × Text)) (l : Limiter Float) (ps : List Text)
      (m : Buckets Float) (r : Result ℕ (Option Text))
      → IsUnique m
      → ((k : Text) → active_at k m ≡ count k ps)
      → HasSlot r m
      → Counted
          (record l { buckets = (then_rate f now capacity rate (m, r)).0 })
          (granted (then_rate f now capacity rate (m, r)).1 ps)
  unfolding then_rate
  then_rate-Counted now capacity rate l ps m (err status) u c h = record { unique = u; counts = c }
  then_rate-Counted now capacity rate l ps m (ok id) u c h =
      let kept = rate_stage-Keeps now capacity rate m u in
      let (m', r) = rate_stage f now capacity rate m in
      finish-Counted now capacity l ps m' r id kept.unique (λ k. kept.same k ∙ c k)
        (still (ok id) h)
    where
      still :
          (o : Result ℕ (Option Text))
          → HasSlot o m
          → HasSlot o (rate_stage f now capacity rate m).0
      still (err status) h = tt
      still (ok none) h = tt
      still (ok (some k)) h = rate_stage-has now capacity rate k m h

  acquire_keys-Counted :
      (now : ℕ) (slot : Option (ℕ × Text)) (rate : Option (Rate × Text)) (l : Limiter Float)
      (ps : List Text)
      → Counted l ps
      → Counted (acquire_keys f now slot rate l).0 (granted (acquire_keys f now slot rate l).1 ps)
  unfolding acquire_keys
  acquire_keys-Counted now slot rate l ps c =
      let pruned = prune-Keeps now l.capacity l.buckets c.unique in
      let slotted =
        slot_stage-Keeps now l.capacity slot (prune f now l.capacity l.buckets) pruned.unique in
      let both = Keeps-trans pruned slotted in
      let (m, r) = slot_stage f now l.capacity slot (prune f now l.capacity l.buckets) in
      then_rate-Counted now l.capacity rate l ps m r both.unique (λ k. both.same k ∙ c.counts k)
        (slot_stage-has now l.capacity slot (prune f now l.capacity l.buckets))

  -- A history of one limiter: calls of `acquire` for any routes, policies and requests, returns of
  -- permits, and changes of the capacity. A permit that is out is a key in the list.
  module _ (digest : Text → Text) (serialize : Policy → Text) (trim : Text → Text) where
    pub data Step : Limiter Float × List Text → Limiter Float × List Text → Type 0 where
      acquired :
          (route_id : Text) (p : Policy) (q : Request) (now : ℕ) (l : Limiter Float)
          (ps : List Text)
          → Step
              (l, ps)
              (
                (acquire f digest serialize trim route_id p q now l).0,
                granted (acquire f digest serialize trim route_id p q now l).1 ps,
              )
      released :
          (id : Text) (now : ℕ) (l : Limiter Float) (ps : List Text)
          → Step (l, ps) (release now id l, give_back id ps)
      resized : (n : ℕ) (l : Limiter Float) (ps : List Text) → Step (l, ps) (set_capacity l n, ps)

    pub data Reach : Limiter Float × List Text → Type 0 where
      start : Reach (new_limiter Float, [])
      next : {s t : Limiter Float × List Text} → Reach s → Step s t → Reach t

    acquire-Counted :
        (route_id : Text) (p : Policy) (q : Request) (now : ℕ) (l : Limiter Float) (ps : List Text)
        → Counted l ps
        → Counted
            (acquire f digest serialize trim route_id p q now l).0
            (granted (acquire f digest serialize trim route_id p q now l).1 ps)
    unfolding acquire
    acquire-Counted route_id p q now l ps c =
        elim (Bool-cases (not (is_some p.rate) && not (is_some p.concurrency))) [
          | inl free ↦ rw free c
          | inr limited ↦ rw limited (acquire_keys-Counted now _ _ l ps c)
        ]

    Step-Counted : {s t : Limiter Float × List Text} → Step s t → Counted s.0 s.1 → Counted t.0 t.1
    unfolding set_capacity
    Step-Counted (acquired route_id p q now l ps) c = acquire-Counted route_id p q now l ps c
    Step-Counted (released id now l ps) c = release-Counted now id l ps c
    Step-Counted (resized n l ps) c = record { unique = c.unique; counts = c.counts }

    -- In every state that a limiter reaches from its default by calls of `acquire`, returns of
    -- permits and changes of the capacity, in any order, each bucket counts exactly the permits of
    -- its key that are out, and no key has two buckets: an error in either stage, a prune and a
    -- refused rate take no slot and lose none.
    pub Reach-Counted : {s : Limiter Float × List Text} → Reach s → Counted s.0 s.1
    unfolding new_limiter
    Reach-Counted start = record { unique = tt; counts = λ k. refl }
    Reach-Counted (next r st) = Step-Counted st (Reach-Counted r)
