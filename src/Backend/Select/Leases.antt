-- ===== src/Backend/Select/Leases.antt =====
-- The leases that are out, over any history of selections, drops and health events.
use rgnix.Base.{
  ltb, leb, Bool-cases, Option-cases, length, get_elem?, Text, ℕ, ◌-◌, ◌≤◌, ◌<◌, ◌≡◌, refl, ◌∙◌,
  ◌⊎◌, inl, inr, Bool, ◌&&◌, Option, none, some, List, [], ◌∷◌, arith,
}
use rgnix.Backend.{Selection, Backend, record_at, probed, drop_lease}
use rgnix.Backend.Select.{
  lease, last_of, active_of, fixed_entry, lease_ready, current, only, choose, select_from,
  select_pool, select,
}
use rgnix.Backend.Select.Outcomes.{
  out, give_back, out-give_back, length-give_back, active_of-set_state, active_of-there, Keeps,
  Outcome, Keeps-refl, Keeps-Outcome, record_at-Keeps, probed-Keeps, lease-Outcome, current-Keeps,
  retouch-Outcome, lease_ready-Outcome,
}

module _ {Cost : Type 0} (score : Text → Text → ℕ → Cost) (costs_less : Cost → Cost → Bool) where
  select_from-Outcome :
      (sel : Selection) (key : Text) (b : Backend)
      → Outcome b (select_from score costs_less sel key b)
  unfolding select_from
  select_from-Outcome sel key b = elim (Option-cases (last_of sel.cumulative_weights)) [
    | inl nothing ↦ rw (nothing, select_from) (Keeps-refl b)
    | inr (total, there) ↦
        let pick = choose score costs_less sel key total b in
        let c = record b { cursor = pick.0 } in
        elim (Option-cases pick.1) [
          | inl nothing ↦
              let same : select_from score costs_less sel key b ≡ (c, none) = ground arith in
              rw same (record { options = refl; active = refl; counts = λ i. refl })
          | inr (e, chosen) ↦
              let same : select_from score costs_less sel key b ≡ lease e c = ground arith in
              rw same (retouch-Outcome b c (lease e c) refl refl refl (lease-Outcome e c))
        ]
  ]

  select_pool-Outcome :
      (now : ℕ) (key : Text) (b : Backend) → Outcome b (select_pool score costs_less now key b)
  unfolding select_pool
  select_pool-Outcome now key b =
      elim (Bool-cases (ltb 0 b.options.max_inflight && leb b.options.max_inflight b.active)) [
        | inl full ↦
            let same : select_pool score costs_less now key b ≡ (b, none) = ground arith in
            rw same (Keeps-refl b)
        | inr room ↦ elim (Option-cases (only b.pool)) [
          | inr (e, alone) ↦
              let same : select_pool score costs_less now key b ≡ lease_ready now e b =
                ground arith in
              rw same (lease_ready-Outcome now e b)
          | inl many ↦
              let (c, sel) = current now b in
              let same : select_pool score costs_less now key b
                  ≡ select_from score costs_less sel key c =
                ground arith in
              rw same (
                Keeps-Outcome (select_from score costs_less sel key c) (current-Keeps now b)
                  (select_from-Outcome sel key c))
        ]
      ]

  select-Outcome :
      (now : ℕ) (key : Text) (b : Backend) → Outcome b (select score costs_less now key b)
  unfolding select
  select-Outcome now key b =
      let c = record b { fixed = some (fixed_entry b) } in
      elim (Option-cases (fixed_entry b)) [
        | inr (e, here) ↦
            let same : select score costs_less now key b ≡ lease_ready now e c = ground arith in
            rw same (
              retouch-Outcome b c (lease_ready now e c) refl refl refl
                (lease_ready-Outcome now e c))
        | inl nothing ↦
            let same : select score costs_less now key b ≡ select_pool score costs_less now key c =
              ground arith in
            rw same (
              retouch-Outcome b c (select_pool score costs_less now key c) refl refl refl
                (select_pool-Outcome now key c))
      ]

  -- The leases that are out after a call.
  abbrev pub granted : Option ℕ → List ℕ → List ℕ
  granted none ps = ps
  granted (some i) ps = i ∷ ps

  -- Calls on a backend, in any order, and the leases that are out: a selection, the drop of one of
  -- them, a result and a probe.
  pub data Reach (start_at : Backend) : Backend → List ℕ → Type 0 where
    start : Reach start_at start_at []
    selects :
        {b : Backend} {ps : List ℕ} (now : ℕ) (key : Text)
        → Reach start_at b ps
        → Reach start_at
            (select score costs_less now key b).0
            (granted (select score costs_less now key b).1 ps)
    drops :
        {b : Backend} {ps : List ℕ} (i : ℕ)
        → 0 < out i ps
        → Reach start_at b ps
        → Reach start_at (drop_lease i b) (give_back i ps)
    records :
        {b : Backend} {ps : List ℕ} (now : ℕ) (failed : Bool) (max_fails cooldown i : ℕ)
        → Reach start_at b ps
        → Reach start_at (record_at now failed max_fails cooldown i b).0 ps
    probes :
        {b : Backend} {ps : List ℕ} (i : ℕ) (good : Bool)
        → Reach start_at b ps
        → Reach start_at (probed i good b) ps

  pub record Counted (limit : ℕ) (b : Backend) (ps : List ℕ) : Type 0 where
    pub options : b.options.max_inflight ≡ limit
    pub active : b.active ≡ length ps
    pub counts : (i : ℕ) → active_of b.states i ≡ out i ps
    pub bounded : (limit ≡ 0) ⊎ (b.active ≤ limit)

  granted-Counted :
      (limit : ℕ) (b : Backend) (ps : List ℕ) (r : Backend × Option ℕ)
      → Counted limit b ps
      → Outcome b r
      → Counted limit r.0 (granted r.1 ps)
  granted-Counted limit b ps (c, none) k o = record {
    options = ground (arith, k.options, o.options);
    active = o.active ∙ k.active;
    counts = λ i. o.counts i ∙ k.counts i;
    bounded = ground (arith, k.bounded, o.active);
  }
  granted-Counted limit b ps (c, some i) k o = record {
    options = ground (arith, k.options, o.options);
    active = omega (arith, o.active, k.active);
    counts = λ j. ground (arith, o.counts j, k.counts j);
    bounded = ground (arith, o.room, k.options, o.active);
  }

  drop-Counted :
      (limit : ℕ) (b : Backend) (ps : List ℕ) (i : ℕ)
      → 0 < out i ps
      → Counted limit b ps
      → Counted limit (drop_lease i b) (give_back i ps)
  unfolding drop_lease
  drop-Counted limit b ps i held k = elim (Option-cases (get_elem? b.states i)) [
    | inl missing ↦ absurd (ground (arith, k.counts i))
    | inr (s, there) ↦
        rw (there, drop_lease)
          (record {
            options = k.options;
            active = ground (arith, k.active, length-give_back i ps);
            counts = λ j. ground (
              arith,
              k.counts j,
              k.counts i,
              out-give_back i j ps,
              active_of-there i s b.states there,
              active_of-set_state i j s (record s { active = s.active - 1 }) b.states there,
            );
            bounded = ground (arith, k.bounded);
          })
  ]

  Keeps-Counted :
      (limit : ℕ) (b c : Backend) (ps : List ℕ)
      → Counted limit b ps
      → Keeps b c
      → Counted limit c ps
  Keeps-Counted limit b c ps k o = granted-Counted limit b ps (c, none) k o

  -- From a backend without leases, after any calls in any order: the count of the backend is the
  -- number of leases that are out, each endpoint's count is the number of those that hold it, and
  -- a limit on the requests in flight, which is one that is not 0, is never passed.
  pub leases-Counted :
      (start_at : Backend) {b : Backend} {ps : List ℕ}
      → Counted start_at.options.max_inflight start_at []
      → Reach start_at b ps
      → Counted start_at.options.max_inflight b ps
  leases-Counted start_at k start = k
  leases-Counted start_at k (selects {b} {ps} now key h) =
      granted-Counted start_at.options.max_inflight b ps (select score costs_less now key b)
        (leases-Counted start_at k h) (select-Outcome now key b)
  leases-Counted start_at k (drops {b} {ps} i held h) =
      drop-Counted start_at.options.max_inflight b ps i held (leases-Counted start_at k h)
  leases-Counted start_at k (records {b} {ps} now failed max_fails cooldown i h) =
      Keeps-Counted start_at.options.max_inflight b _ ps (leases-Counted start_at k h)
        (record_at-Keeps now failed max_fails cooldown i b)
  leases-Counted start_at k (probes {b} {ps} i good h) =
      Keeps-Counted start_at.options.max_inflight b _ ps (leases-Counted start_at k h)
        (probed-Keeps i good b)
