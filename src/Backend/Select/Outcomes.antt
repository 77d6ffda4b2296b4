-- ===== src/Backend/Select/Outcomes.antt =====
-- What each call on a backend does to the counts of its leases.
use rgnix.Base.{
  leb, ◌==◌, if◌then◌else◌, Bool-cases, Option-cases, length, get_elem?, ℕ, zero, suc, ◌+◌, ◌-◌,
  ◌<◌, ◌≡◌, refl, ap, ◌∙◌, ◌⊎◌, inl, inr, Bool, not, ◌&&◌, Option, none, some, List, [], ◌∷◌, arith,
}
use rgnix.Backend.{
  HealthCheck, State, Entry, Backend, record_result, set_active_health, set_state, record_at,
  probed,
}
use rgnix.Backend.Select.{
  thaw, until_next, ready_state, ready, gather, new_selection, lease, active_of, lease_ready,
  is_stale, renew, current,
}

-- How many leases hold the state at a place.
abbrev pub out : ℕ → List ℕ → ℕ
out i [] = 0
out i (p ∷ ps) = (if p == i then 1 else 0) + out i ps

abbrev pub give_back : ℕ → List ℕ → List ℕ
give_back i [] = []
give_back i (p ∷ ps) = if p == i then ps else p ∷ give_back i ps

pub out-give_back :
    (i j : ℕ) (ps : List ℕ) → out j (give_back i ps) ≡ (if i == j then out j ps - 1 else out j ps)
out-give_back i j [] = ground arith
out-give_back i j (p ∷ ps) = ground (arith, out-give_back i j ps)

pub length-give_back :
    (i : ℕ) (ps : List ℕ) → 0 < out i ps → length (give_back i ps) + 1 ≡ length ps
length-give_back i [] h = omega arith
length-give_back i (p ∷ ps) h = ground (arith, length-give_back i ps)

pub active_of-set_state :
    (i j : ℕ) (s t : State) (states : List State)
    → get_elem? states i ≡ some s
    → active_of (set_state i t states) j ≡ (if i == j then t.active else active_of states j)
active_of-set_state i j s t [] h = absurd (ground arith)
active_of-set_state zero zero s t (u ∷ states) h = refl
active_of-set_state zero (suc j) s t (u ∷ states) h = ground arith
active_of-set_state (suc i) zero s t (u ∷ states) h = ground arith
active_of-set_state (suc i) (suc j) s t (u ∷ states) h =
    ground (arith, active_of-set_state i j s t states h)

pub active_of-there :
    (i : ℕ) (s : State) (states : List State)
    → get_elem? states i ≡ some s
    → active_of states i ≡ s.active
active_of-there i s states h = ground arith

-- What leaves all the counts as they are.
pub record Keeps (b c : Backend) : Type 0 where
  pub options : c.options ≡ b.options
  pub active : c.active ≡ b.active
  pub counts : (i : ℕ) → active_of c.states i ≡ active_of b.states i

-- What one lease more does to the counts.
pub record Leased (b c : Backend) (i : ℕ) : Type 0 where
  pub options : c.options ≡ b.options
  pub room : (b.options.max_inflight ≡ 0) ⊎ (b.active < b.options.max_inflight)
  pub active : c.active ≡ b.active + 1
  pub counts : (j : ℕ) → active_of c.states j ≡ (if i == j then 1 else 0) + active_of b.states j

abbrev pub Outcome : Backend → Backend × Option ℕ → Type 0
Outcome b (c, none) = Keeps b c
Outcome b (c, some i) = Leased b c i

pub Keeps-refl : (b : Backend) → Keeps b b
Keeps-refl b = record { options = refl; active = refl; counts = λ i. refl }

Keeps-trans : {b c d : Backend} → Keeps b c → Keeps c d → Keeps b d
Keeps-trans k l = record {
  options = l.options ∙ k.options;
  active = l.active ∙ k.active;
  counts = λ i. l.counts i ∙ k.counts i;
}

pub Keeps-Outcome : {b c : Backend} (r : Backend × Option ℕ) → Keeps b c → Outcome c r → Outcome b r
Keeps-Outcome (d, none) k o = Keeps-trans k o
Keeps-Outcome (d, some i) k o = record {
  options = o.options ∙ k.options;
  room = ground (arith, o.room, k.options, k.active);
  active = ground (arith, o.active, k.active);
  counts = λ j. ground (arith, o.counts j, k.counts j);
}

set_state-Keeps :
    (b c : Backend) (i : ℕ) (s t : State)
    → get_elem? b.states i ≡ some s
    → t.active ≡ s.active
    → c.options ≡ b.options
    → c.active ≡ b.active
    → c.states ≡ set_state i t b.states
    → Keeps b c
set_state-Keeps b c i s t h same options active states = record {
  options = options;
  active = active;
  counts = λ j.
      rw states
        (ground (arith, active_of-set_state i j s t b.states h, active_of-there i s b.states h));
}

ready_state-active :
    (check : Option HealthCheck) (now weight : ℕ) (s : State) (expires : Option ℕ)
    → (ready_state check now weight s expires).0.active ≡ s.active
unfolding ready_state thaw until_next
ready_state-active check now weight s expires = ground arith

record_result-active :
    (now : ℕ) (failed : Bool) (max_fails cooldown : ℕ) (s : State) (revision : ℕ)
    → (record_result now failed max_fails cooldown s revision).0.active ≡ s.active
unfolding record_result
record_result-active now failed max_fails cooldown s revision = ground arith

set_active_health-active :
    (good : Bool) (s : State) (revision : ℕ)
    → (set_active_health good s revision).0.active ≡ s.active
unfolding set_active_health
set_active_health-active good s revision = ground arith

ready-Keeps :
    (now : ℕ) (e : Entry) (expires : Option ℕ) (b : Backend) → Keeps b (ready now e expires b).0
unfolding ready
ready-Keeps now (e, i) expires b = elim (Option-cases (get_elem? b.states i)) [
  | inl missing ↦ rw (missing, ready) (Keeps-refl b)
  | inr (s, there) ↦
      rw (there, ready)
        (set_state-Keeps b _ i s (ready_state b.options.health now e.weight s expires).0 there
          (ready_state-active b.options.health now e.weight s expires) refl refl refl)
]

gather-Keeps :
    (now : ℕ) (es : List Entry) (total : ℕ) (expires : Option ℕ) (b : Backend)
    → Keeps b (gather now es total expires b).0
unfolding gather
gather-Keeps now [] total expires b = Keeps-refl b
gather-Keeps now ((e, i) ∷ es) total expires b =
    let (c, expires', answer) = ready now (e, i) expires b in
    let total' = if answer then total + e.weight else total in
    let same : (gather now ((e, i) ∷ es) total expires b).0 ≡ (gather now es total' expires' c).0 =
      ground arith in
    rw same (Keeps-trans (ready-Keeps now (e, i) expires b) (gather-Keeps now es total' expires' c))

pub record_at-Keeps :
    (now : ℕ) (failed : Bool) (max_fails cooldown i : ℕ) (b : Backend)
    → Keeps b (record_at now failed max_fails cooldown i b).0
unfolding record_at
record_at-Keeps now failed max_fails cooldown i b = elim (Option-cases (get_elem? b.states i)) [
  | inl missing ↦ rw (missing, record_at) (Keeps-refl b)
  | inr (s, there) ↦
      rw (there, record_at)
        (set_state-Keeps b _ i s (record_result now failed max_fails cooldown s b.revision).0 there
          (record_result-active now failed max_fails cooldown s b.revision) refl refl refl)
]

pub probed-Keeps : (i : ℕ) (good : Bool) (b : Backend) → Keeps b (probed i good b)
unfolding probed
probed-Keeps i good b = elim (Option-cases (get_elem? b.states i)) [
  | inl missing ↦ rw (missing, probed) (Keeps-refl b)
  | inr (s, there) ↦
      rw (there, probed)
        (set_state-Keeps b _ i s (set_active_health good s b.revision).0 there
          (set_active_health-active good s b.revision) refl refl refl)
]

pub lease-Outcome : (e : Entry) (b : Backend) → Outcome b (lease e b)
unfolding lease
lease-Outcome (e, i) b =
    elim (Bool-cases (not (b.options.max_inflight == 0) && leb b.options.max_inflight b.active)) [
      | inl full ↦ rw full (Keeps-refl b)
      | inr room ↦ rw room (elim (Option-cases (get_elem? b.states i)) [
        | inl missing ↦ rw missing (Keeps-refl b)
        | inr (s, there) ↦ rw there (record {
          options = refl;
          room = ground arith;
          active = refl;
          counts = λ j. ground (
            arith,
            active_of-set_state i j s (record s { active = s.active + 1 }) b.states there,
            active_of-there i s b.states there,
          );
        })
      ])
    ]

renew-Keeps : (now : ℕ) (b : Backend) → Keeps b (renew now b).0
unfolding renew new_selection
renew-Keeps now b =
    let k = gather-Keeps now b.pool 0 none b in
    record { options = k.options; active = k.active; counts = k.counts }

pub current-Keeps : (now : ℕ) (b : Backend) → Keeps b (current now b).0
unfolding current
current-Keeps now b = elim (Option-cases b.selection) [
  | inl missing ↦
      let same : (current now b).0 ≡ (renew now b).0 = ground arith in rw same (renew-Keeps now b)
  | inr (sel, there) ↦ elim (Bool-cases (is_stale now b.revision sel)) [
    | inl stale ↦
        let same : (current now b).0 ≡ (renew now b).0 = ground arith in rw same (renew-Keeps now b)
    | inr fresh ↦ let same : (current now b).0 ≡ b = ground arith in rw same (Keeps-refl b)
  ]
]

-- A change of the fields that the counts do not read.
pub retouch-Outcome :
    (b c : Backend) (r : Backend × Option ℕ)
    → c.options ≡ b.options
    → c.active ≡ b.active
    → c.states ≡ b.states
    → Outcome c r
    → Outcome b r
retouch-Outcome b c r options active states o =
    Keeps-Outcome r
      (record { options = options; active = active; counts = λ i. ap (λ x. active_of x i) states })
      o

pub lease_ready-Outcome : (now : ℕ) (e : Entry) (b : Backend) → Outcome b (lease_ready now e b)
unfolding lease_ready
lease_ready-Outcome now e b = elim (Bool-cases (ready now e none b).2) [
  | inl is_ready ↦
      rw (is_ready, lease_ready)
        (Keeps-Outcome (lease e (ready now e none b).0) (ready-Keeps now e none b)
          (lease-Outcome e (ready now e none b).0))
  | inr unready ↦ rw (unready, lease_ready) (ready-Keeps now e none b)
]
