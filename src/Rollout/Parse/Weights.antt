-- ===== src/Rollout/Parse/Weights.antt =====
-- src/rollout.rs and src/rollout/progress.rs: the weights of a stage, `State::stage_weights`, under a
-- policy that `Policy::parse` accepts.
use rgnix.Base.{
  leb, if◌then◌else◌, Bool-cases, Option-cases, length, get_elem?, all, any, sum_of, Text, text_eq,
  text_eq_iff, text_is_eq, lookup, IsUnique, Result, each, ok, ℕ, zero, suc, ◌+◌, ◌≤◌, String, ◌≡◌,
  refl, sym, ap, ◌∙◌, inl, inr, Bool, true, false, ◌&&◌, none, some, List, [], ◌∷◌, map, arith,
}
use rgnix.Rollout.{Target, Step, Policy, State, stage_targets, stage_weights}
use rgnix.Rollout.Parse.{unique_services, services, declared, total_weight, check_step, check}

abbrev names_of : List Target → List Text
names_of = map (λ t. t.service)

abbrev within_names : List Text → List (Text × ℕ) → Bool
within_names names m = all (λ e. any (text_eq e.0) names) m

-- The map less one key.
without : Text → List (Text × ℕ) → List (Text × ℕ)
without k [] = []
without k ((j, v) ∷ m) = if text_eq j k then m else (j, v) ∷ without k m

lookup-without-none :
    (k j : Text) (m : List (Text × ℕ)) → lookup j m ≡ none → lookup j (without k m) ≡ none
unfolding without
lookup-without-none k j [] h = refl
lookup-without-none k j ((i, v) ∷ m) h = ground (arith, lookup-without-none k j m)

lookup-without :
    (k j : Text) (m : List (Text × ℕ)) → text_eq k j ≡ false → lookup j (without k m) ≡ lookup j m
unfolding without
lookup-without k j [] h = refl
lookup-without k j ((i, v) ∷ m) h =
    ground (arith, lookup-without k j m h, text_eq_iff i k, text_eq_iff i j, text_eq_iff k j)

without-IsUnique : (k : Text) (m : List (Text × ℕ)) → IsUnique m → IsUnique (without k m)
unfolding without
without-IsUnique k [] u = tt
without-IsUnique k ((i, v) ∷ m) u = elim (Bool-cases (text_eq i k)) [
  | inl same ↦ rw (without, same) (u.1)
  | inr other ↦ rw (without, other) (lookup-without-none k i m (u.0), without-IsUnique k m (u.1))
]

without_parts :
    (k : Text) (m : List (Text × ℕ)) (w : ℕ)
    → lookup k m ≡ some w
    → (length m ≡ 1 + length (without k m))
      × (sum_of (λ e. e.1) m ≡ w + sum_of (λ e. e.1) (without k m))
unfolding without
without_parts k [] w h = absurd (ground arith)
without_parts k ((i, v) ∷ m) w h = ground (arith, without_parts k m w)

missing-within :
    (k : Text) (names : List Text) (m : List (Text × ℕ))
    → lookup k m ≡ none
    → within_names (k ∷ names) m ≡ true
    → within_names names m ≡ true
missing-within k names [] h all_in = refl
missing-within k names ((i, v) ∷ m) h all_in = ground (arith, missing-within k names m)

without-within :
    (k : Text) (names : List Text) (m : List (Text × ℕ))
    → IsUnique m
    → within_names (k ∷ names) m ≡ true
    → within_names names (without k m) ≡ true
unfolding without
without-within k names [] u all_in = refl
without-within k names ((i, v) ∷ m) u all_in = elim (Bool-cases (text_eq i k)) [
  | inl same ↦
      let at : i ≡ k = (text_eq_iff i k).0 same in
      rw (without, same)
        (missing-within k names m (ground (rw at at (u.0), arith)) (ground (all_in, arith)))
  | inr other ↦
      let rest : within_names names (without k m) ≡ true =
        without-within k names m (u.1) (ground (all_in, arith)) in
      rw (without, other) (ground (arith, rest, all_in, other))
]

-- A map without repeated keys has no more entries than there are names for its keys.
length-within-le :
    (names : List Text) (m : List (Text × ℕ))
    → IsUnique m
    → within_names names m ≡ true
    → length m ≤ length names
length-within-le [] [] u all_in = omega arith
length-within-le [] (e ∷ m) u all_in = absurd (ground arith)
length-within-le (k ∷ names) m u all_in = elim (Option-cases (lookup k m)) [
  | inl missing ↦
      omega (arith, length-within-le names m u (missing-within k names m missing all_in))
  | inr (w, found) ↦ omega (
    arith,
    (without_parts k m w found).0,
    length-within-le names (without k m) (without-IsUnique k m u)
        (without-within k names m u all_in),
  )
]

-- A name that was seen does not come again.
unique-seen :
    (k : Text) (seen : List Text) (ts : List Target)
    → any (text_eq k) seen ≡ true
    → unique_services seen ts ≡ true
    → any (text_eq k) (names_of ts) ≡ false
unfolding unique_services
unique-seen k seen [] h u = refl
unique-seen k seen (t ∷ ts) h u = elim (Bool-cases (text_eq k t.service)) [
  | inl same ↦
      let at : k ≡ t.service = (text_eq_iff k t.service).0 same in
      absurd (ground (arith, rw at at h, u))
  | inr other ↦ ground (arith, unique-seen k (t.service ∷ seen) ts, other)
]

length-names : (ts : List Target) → length (names_of ts) ≡ length ts
length-names [] = refl
length-names (t ∷ ts) = ap suc (length-names ts)

-- The targets of a stage whose weights are for exactly the services of the targets.
record Covers (ts us : List Target) (total : ℕ) : Type 0 where
  same_services : names_of us ≡ names_of ts
  same_total : total_weight us ≡ total

stage_targets_step :
    (step : Step) (t : Target) (ts us : List Target) (w : ℕ)
    → lookup t.service step.weights ≡ some w
    → stage_targets (some step) ts ≡ some us
    → stage_targets (some step) (t ∷ ts) ≡ some (record { service = t.service; weight = w } ∷ us)
unfolding stage_targets
stage_targets_step step t ts us w here is = rw (stage_targets, here, is) refl

stage_targets-Covers :
    (step : Step) (seen : List Text) (ts : List Target) (m : List (Text × ℕ))
    → unique_services seen ts ≡ true
    → IsUnique m
    → within_names (names_of ts) m ≡ true
    → length m ≡ length ts
    → ((k : Text) → any (text_eq k) (names_of ts) ≡ true → lookup k step.weights ≡ lookup k m)
    → (us : List Target) × (stage_targets (some step) ts ≡ some us)
      × Covers ts us (sum_of (λ e. e.1) m)
unfolding stage_targets unique_services
stage_targets-Covers step seen [] [] distinct u all_in len agree =
    ([], refl, record { same_services = refl; same_total = refl })
stage_targets-Covers step seen [] (e ∷ m) distinct u all_in len agree = absurd (omega (arith, len))
stage_targets-Covers step seen (t ∷ ts) m distinct u all_in len agree =
    let rest : unique_services (t.service ∷ seen) ts ≡ true = ground (arith, distinct) in
    let self : text_eq t.service t.service ≡ true = (text_eq_iff t.service t.service).1 refl in
    let alone : any (text_eq t.service) (names_of ts) ≡ false =
      unique-seen t.service (t.service ∷ seen) ts (ground (arith, self)) rest in
    elim (Option-cases (lookup t.service m)) [
      | inl missing ↦ absurd (
          omega (
            arith,
            len,
            length-names ts,
            length-within-le (names_of ts) m u
                (missing-within t.service (names_of ts) m missing all_in),
          ))
      | inr (w, found) ↦
          let parts = without_parts t.service m w found in
          let (us, is, covers) =
            stage_targets-Covers step (t.service ∷ seen) ts (without t.service m) rest
              (without-IsUnique t.service m u) (without-within t.service (names_of ts) m u all_in)
              (omega (arith, len, parts.0))
              (λ k there.
                agree k (ground (arith, there))
                ∙ sym (
                    lookup-without t.service k m
                      (ground (arith, there, alone, text_eq_iff t.service k)))) in
          let here : lookup t.service step.weights ≡ some w =
            agree t.service (ground (arith, self)) ∙ found in
          (
            record { service = t.service; weight = w } ∷ us,
            stage_targets_step step t ts us w here is,
            record {
              same_services = ap (λ names. t.service ∷ names) covers.same_services;
              same_total = omega (arith, covers.same_total, parts.1);
            },
          )
    ]

all-names :
    (p : Policy) (m : List (Text × ℕ))
    → all (λ e. declared p e.0 && leb e.1 10000) m ≡ true
    → within_names (services p) m ≡ true
all-names p [] h = refl
all-names p (e ∷ m) h = ground (arith, all-names p m)

check_step_parts :
    (p : Policy) (step : Step)
    → check_step p step ≡ ok tt
    → (length step.weights ≡ length p.backends)
      × (within_names (services p) step.weights ≡ true)
      × (1 ≤ sum_of (λ e. e.1) step.weights)
unfolding check_step
check_step_parts p step h = (ground arith, all-names p step.weights (ground arith), ground arith)

-- A loop of checks that succeeds has made each of them.
pub each_at :
    (f : Step → Result String (Unit {0})) (xs : List Step) (i : ℕ) {x : Step}
    → each f xs ≡ ok tt
    → get_elem? xs i ≡ some x
    → f x ≡ ok tt
each_at f [] i h at = absurd (ground arith)
each_at f (y ∷ ys) zero h at = ground arith
each_at f (y ∷ ys) (suc i) {x} h at = each_at f ys i {x = x} (ground arith) at

-- A map of weights has each key once.
abbrev pub HasMaps : Policy → Type 0
HasMaps p = (i : ℕ) (step : Step) → get_elem? p.steps i ≡ some step → IsUnique step.weights

-- Under an accepted policy the weights of a stage never panic, whatever the progress of the rollout:
-- although `Policy::parse` compares only their number with that of the targets, every target has one;
-- they are those of the targets in the policy's order, and their total is positive.
pub check-stage_weights :
    (header_name : Text → Bool) (s : State) {q : Policy}
    → HasMaps s.policy
    → check header_name s.policy ≡ ok q
    → (us : List Target) × (stage_weights s ≡ some us)
      × (map (λ t. t.service) us ≡ services s.policy)
      × (1 ≤ total_weight us)
unfolding stage_weights stage_targets check
check-stage_weights header_name s maps h =
    elim (Option-cases (get_elem? s.policy.steps s.progress.stage)) [
      | inl past ↦ (s.policy.backends, rw past refl, refl, ground arith)
      | inr (step, at) ↦
          let checked : check_step s.policy step ≡ ok tt =
            each_at (check_step s.policy) s.policy.steps s.progress.stage {x = step} (ground arith)
              at in
          let parts = check_step_parts s.policy step checked in
          let (us, is, covers) =
            stage_targets-Covers step [] s.policy.backends step.weights (ground arith)
              (maps s.progress.stage step at) parts.1 parts.0 (λ k there. refl) in
          (us, rw at is, covers.same_services, omega (arith, covers.same_total, parts.2))
    ]
