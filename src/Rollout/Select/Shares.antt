-- ===== src/Rollout/Select/Shares.antt =====
-- What a selection chooses: the shares of the targets, cohorts, and whether there is a choice.
use native.Mathlib.Nat.{mod-lt, mod-eq_of_lt, mul-add-mod_self_right}
use rgnix.Traffic
use rgnix.Base.{
  ltb, Bool-cases, Option-cases, is_some_and, is_some, any, sum_of-append, All, Text, text_eq,
  text_eq_iff, ok, ℕ, ◌+◌, ◌-◌, ◌*◌, ◌/◌, ◌%◌, ◌≤◌, ◌<◌, ◌≡◌, refl, ◌∙◌, ◌⊎◌, inl, inr, Bool, true,
  false, none, some, List, [], ◌∷◌, ◌++◌, arith,
}
use rgnix.Request.{Request}
use rgnix.Rollout.{Target, State, stage_weights, Latched}
use rgnix.Rollout.Select.{
  total_of, pick, backend_of, fallback_of, enforce, force_rollback, cohort_hash, place, choose,
  select_at, select,
}

-- Every place below the total picks a target, and place `i` of a target's share picks that target.
pick_share :
    (before after : List Target) (t : Target) (i : ℕ)
    → i < t.weight
    → pick (total_of before + i) (before ++ t ∷ after) ≡ some t
unfolding pick
pick_share [] after t i h = ground arith
pick_share (b ∷ before) after t i h = ground (arith, pick_share before after t i h, cancel)
  where
    cancel : b.weight + total_of before + i - b.weight ≡ total_of before + i
    cancel = omega arith

pick_total : (n : ℕ) (ts : List Target) → n < total_of ts → (t : Target) × (pick n ts ≡ some t)
unfolding pick
pick_total n [] h = absurd (omega arith)
pick_total n (t ∷ ts) h = elim (Bool-cases (ltb n t.weight)) [
  | inl mine ↦ rw mine (t, refl)
  | inr later ↦ rw later (pick_total (n - t.weight) ts (ground arith))
]

mod_cycle : (m total k : ℕ) → k < total → (m * total + k) % total ≡ k
mod_cycle m total k h = mul-add-mod_self_right m total k ∙ mod-eq_of_lt h

-- A hash scaled to the total weight stays below it.
scaled_lt : (h total : ℕ) → 0 < total → h % 10000 * total / 10000 < total
scaled_lt h total some_weight =
    let small : h % 10000 ≤ 9999 = omega arith in
    let product : h % 10000 * total ≤ 9999 * total = grind arith in omega (arith, product)

-- What holds of all targets holds of the one that is picked.
pick-All :
    (P : Target → Type 0) (n : ℕ) (ts : List Target) {t : Target}
    → All P ts
    → pick n ts ≡ some t
    → P t
unfolding pick
pick-All P n [] h e = cc
pick-All P n (x ∷ xs) {t} (p, ps) e = elim (Bool-cases (ltb n x.weight)) [
  | inl mine ↦ let same : x ≡ t = ground arith in rw (← same) p
  | inr later ↦ pick-All P (n - x.weight) xs ps (rw later at e)
]

pick-any :
    (p : Target → Bool) (n : ℕ) (ts : List Target) {t : Target}
    → pick n ts ≡ some t
    → p t ≡ true
    → any p ts ≡ true
unfolding pick
pick-any p n [] e h = cc
pick-any p n (x ∷ xs) {t} e h = ground (arith, pick-any p (n - x.weight) xs {t = t})

module _ (header_name : Text → Bool) (sha256 : Text → Text) (trim : Text → Text) where
  -- Without a cohort and while no rollback is latched, each cycle of as many requests as the total
  -- weight gives every target of the stage exactly the cursor values that its weight claims: in
  -- cycle `m` the `weight` values after the weights before it.
  pub select_at_share :
      (s : State) (q : Request) (before after : List Target) (t : Target) (m i : ℕ)
      → s.window.rolled_back ≡ false
      → s.policy.cohort ≡ none
      → stage_weights s ≡ some (before ++ t ∷ after)
      → i < t.weight
      → select_at header_name sha256 trim s q
          (m * total_of (before ++ t ∷ after) + (total_of before + i))
        ≡ backend_of s t.service
  unfolding select_at choose place
  select_at_share s q before after t m i calm alone staged h =
      let total = total_of (before ++ t ∷ after) in
      let sum = sum_of-append (λ (u : Target). u.weight) before (t ∷ after) in
      let cycle : (m * total + (total_of before + i)) % total ≡ total_of before + i =
        mod_cycle m total (total_of before + i) (omega (arith, sum)) in
      let picked = pick_share before after t i h in ground (arith, cycle, picked, sum)

  place_sticky :
      (s : State) (q : Request) (text : Text) (c d total : ℕ)
      → s.policy.cohort ≡ some text
      → place header_name sha256 trim s q c total ≡ place header_name sha256 trim s q d total
  unfolding place
  place_sticky s q text c d total e = ground arith

  choose_sticky :
      (s : State) (q : Request) (text : Text) (c d : ℕ) (weights : List Target)
      → s.policy.cohort ≡ some text
      → choose header_name sha256 trim s q c weights ≡ choose header_name sha256 trim s q d weights
  unfolding choose
  choose_sticky s q text c d weights e =
      ground (arith, place_sticky s q text c d (total_of weights) e)

  -- With a cohort the choice depends on the request and not on the cursor.
  pub select_at_sticky :
      (s : State) (q : Request) (text : Text) (c d : ℕ)
      → s.policy.cohort ≡ some text
      → select_at header_name sha256 trim s q c ≡ select_at header_name sha256 trim s q d
  unfolding select_at
  select_at_sticky s q text c d e = elim (Bool-cases s.window.rolled_back) [
    | inl back ↦ ground arith
    | inr calm ↦ elim (Option-cases (stage_weights s)) [
      | inl missing ↦ ground arith
      | inr (weights, staged) ↦ ground (arith, choose_sticky s q text c d weights e)
    ]
  ]

  -- What keeps the lookups of a selection from panicking.
  pub record IsServable (s : State) : Type 0 where
    pub weights : List Target
    pub staged : stage_weights s ≡ some weights
    pub positive : 0 < total_of weights
    pub known : All (λ t. is_some (backend_of s t.service) ≡ true) weights
    pub parsed :
        (text : Text)
        → s.policy.cohort ≡ some text
        → (key : Traffic.Key) × (Traffic.parse header_name text ≡ ok key)
    pub returns : s.window.rolled_back ≡ true → is_some (fallback_of s) ≡ true

  place_total :
      (s : State) (q : Request) (c total : ℕ) (v : IsServable s)
      → 0 < total
      → (n : ℕ) × (place header_name sha256 trim s q c total ≡ some n) × (n < total)
  unfolding place
  place_total s q c total v h = elim (Option-cases s.policy.cohort) [
    | inl alone ↦ (c % total, ground arith, mod-lt c h)
    | inr (text, named) ↦
        let (key, parsed) = v.parsed text named in
        (
          cohort_hash header_name sha256 trim s key q % 10000 * total / 10000,
          ground arith,
          scaled_lt _ total h,
        )
  ]

  -- A selection never panics: where the stage has weights with a positive total, each of its
  -- services has a backend, the cohort key parses, and a latched rollback has a fallback, some
  -- backend is chosen for every request and cursor, the one of a target of the stage unless a
  -- rollback is latched.
  pub select_at-total :
      (s : State) (q : Request) (c : ℕ)
      → (v : IsServable s)
      → (name : Text) × (select_at header_name sha256 trim s q c ≡ some name)
        × ((s.window.rolled_back ≡ true) × (fallback_of s ≡ some name)
            ⊎ (s.window.rolled_back ≡ false)
              × any (λ t. is_some_and (backend_of s t.service) (text_eq name)) v.weights ≡ true)
  unfolding select_at choose
  select_at-total s q c v = elim (Bool-cases s.window.rolled_back) [
    | inl back ↦ elim (Option-cases (fallback_of s)) [
      | inl missing ↦ absurd (ground (arith, v.returns back))
      | inr (name, found) ↦ (name, rw back found, inl (back, found))
    ]
    | inr calm ↦
        let (n, placed, low) = place_total s q c (total_of v.weights) v v.positive in
        let (t, picked) = pick_total n v.weights low in
        elim (Option-cases (backend_of s t.service)) [
          | inl missing ↦ absurd (
              ground (
                arith,
                pick-All (λ u. is_some (backend_of s u.service) ≡ true) n v.weights {t = t} v.known
                    picked,
              ))
          | inr (name, found) ↦ (
            name,
            ground (arith, v.staged, placed, picked, found),
            inr (
              calm,
              pick-any (λ u. is_some_and (backend_of s u.service) (text_eq name)) n v.weights picked
                  (ground (arith, text_eq_iff name name)),
            ),
          )
        ]
  ]

  pub select-Latched :
      (s : State) (q : Request)
      → s.window.rolled_back ≡ true
      → Latched s (select header_name sha256 trim s q).0
  unfolding select
  select-Latched s q h = record { back = h; policy = refl; backends = refl }

  pub select_at_latched :
      (s : State) (q : Request) (c : ℕ)
      → s.window.rolled_back ≡ true
      → select_at header_name sha256 trim s q c ≡ fallback_of s
  unfolding select_at
  select_at_latched s q c h = rw h

pub force_rollback-Latched :
    (s : State) → s.window.rolled_back ≡ true → Latched s (force_rollback s)
unfolding force_rollback
force_rollback-Latched s h = ground arith

pub enforce_latched :
    (s : State) (backend : Text) → s.window.rolled_back ≡ true → enforce s backend ≡ fallback_of s
unfolding enforce
enforce_latched s backend h = rw h
