-- ===== src/Gateway/Timeouts/Bounds.antt =====
-- src/gateway/timeouts.rs: the range of durations.
use rgnix.Base.{
  ltb, leb, ◌==◌, within, Bool-cases, Option-cases, length, Text, is_digit, u64_max, Result, ok,
  err, ℕ, zero, suc, ◌+◌, ◌*◌, ◌≤◌, ◌<◌, ◌≡◌, refl, ◌⊎◌, inl, inr, Bool, true, false, not, ◌||◌,
  Option, none, some, [], ◌∷◌, arith,
}
use rgnix.Gateway.Timeouts.{
  Error, invalid_duration, unit_expected, empty_duration, not_in_u64, backend_above_request,
  out_of_fuel, Timeouts, Budgets, digits_of, value_of, unit_of, components, duration, optional,
  positive, fits, budgets,
}

-- Four times 99999 hours in milliseconds.
abbrev pub longest : ℕ
longest = 1439985600000

-- An error of the text, not of the arithmetic or of the fuel.
abbrev pub is_source_error : Error → Bool
is_source_error invalid_duration = true
is_source_error unit_expected = true
is_source_error empty_duration = true
is_source_error not_in_u64 = false
is_source_error backend_above_request = true
is_source_error out_of_fuel = false

abbrev InRange : Result Error ℕ → Type 0
InRange (ok ms) = ms ≤ longest
InRange (err e) = is_source_error e ≡ true

abbrev AllDigits : Text → Type 0
AllDigits [] = Unit {0}
AllDigits (c ∷ s) = (c ≤ 57) × AllDigits s

digits_of-AllDigits : (s : Text) → AllDigits (digits_of s).0
digits_of-AllDigits [] = tt
digits_of-AllDigits (c ∷ s) = elim (Bool-cases (is_digit c)) [
  | inl digit ↦ rw digit (ground (digit, arith), digits_of-AllDigits s)
  | inr other ↦ rw other tt
]

value_of-le : (s : Text) → AllDigits s → length s ≤ 5 → value_of 0 s ≤ 99999
value_of-le [] d h = omega arith
value_of-le (a ∷ []) d h = omega (arith, d.0)
value_of-le (a ∷ b ∷ []) d h = omega (arith, d.0, d.1.0)
value_of-le (a ∷ b ∷ c ∷ []) d h = omega (arith, d.0, d.1.0, d.1.1.0)
value_of-le (a ∷ b ∷ c ∷ e ∷ []) d h = omega (arith, d.0, d.1.0, d.1.1.0, d.1.1.1.0)
value_of-le (a ∷ b ∷ c ∷ e ∷ f ∷ []) d h =
    omega (arith, d.0, d.1.0, d.1.1.0, d.1.1.1.0, d.1.1.1.1.0)
value_of-le (a ∷ b ∷ c ∷ e ∷ f ∷ g ∷ s) d h = absurd (omega arith)

unit_of-cases :
    (s : Text) (m : ℕ) (r : Text)
    → unit_of s ≡ some (m, r)
    → (m ≡ 1) ⊎ ((m ≡ 3600000) ⊎ ((m ≡ 60000) ⊎ (m ≡ 1000)))
unfolding unit_of
unit_of-cases s m r h = ground arith

step-le :
    (v m : ℕ)
    → v ≤ 99999
    → (m ≡ 1) ⊎ ((m ≡ 3600000) ⊎ ((m ≡ 60000) ⊎ (m ≡ 1000)))
    → v * m ≤ 359996400000
step-le v m h (inl e) = rw e (omega arith)
step-le v m h (inr (inl e)) = rw e (omega arith)
step-le v m h (inr (inr (inl e))) = rw e (omega arith)
step-le v m h (inr (inr (inr e))) = rw e (omega arith)

components-InRange :
    (fuel count millis : ℕ) (s : Text)
    → 5 ≤ fuel + count
    → count ≤ 4
    → millis ≤ count * 359996400000
    → InRange (components fuel count millis s)
unfolding components
components-InRange fuel count millis [] f c h = elim (Bool-cases (count == 0)) [
  | inl empty ↦ rw (empty, InRange) refl
  | inr some_read ↦ rw (some_read, InRange) (omega arith)
]
components-InRange zero count millis (x ∷ s) f c h = absurd (omega arith)
components-InRange (suc fuel) count millis (x ∷ s) f c h =
    let d = digits_of (x ∷ s) in
    elim (Bool-cases (not (within 1 5 (length d.0)) || not (ltb count 4))) [
      | inl bad ↦ rw (bad, InRange) refl
      | inr good ↦
          rw (good, InRange)
            (elim (Option-cases (unit_of d.1)) [
              | inl missing ↦ rw (missing, InRange) refl
              | inr ((m, rest), is) ↦
                  let less : count < 4 = ground (good, arith) in
                  let few : length d.0 ≤ 5 = ground (good, arith) in
                  let v : value_of 0 d.0 ≤ 99999 =
                    value_of-le d.0 (digits_of-AllDigits (x ∷ s)) few in
                  let step : value_of 0 d.0 * m ≤ 359996400000 =
                    step-le (value_of 0 d.0) m v (unit_of-cases d.1 m rest is) in
                  let small : ltb u64_max (millis + value_of 0 d.0 * m) ≡ false =
                    ground (step, h, less, arith) in
                  rw (is, InRange)
                    (rw (small, InRange)
                      (components-InRange fuel (count + 1) (millis + value_of 0 d.0 * m) rest
                        (omega arith) (omega arith) (omega arith)))
            ])
    ]

duration-InRange : (text : Text) → InRange (duration text)
unfolding duration
duration-InRange text = components-InRange 5 0 0 text (omega arith) (omega arith) (omega arith)

abbrev InLimits : Option ℕ → Type 0
InLimits none = Unit {0}
InLimits (some ms) = (1 ≤ ms) × (ms ≤ longest)

abbrev in_order : Option ℕ → Option ℕ → Bool
in_order (some request) (some backend) = leb backend request
in_order none backend = true
in_order (some request) none = true

-- The budgets that are given, or an error of the texts.
abbrev pub IsSafe : Result Error Budgets → Type 0
IsSafe (ok b) =
    InLimits b.request × InLimits b.backend_request × (in_order b.request b.backend_request ≡ true)
IsSafe (err e) = is_source_error e ≡ true

OptionInRange : Result Error (Option ℕ) → Type 0
OptionInRange (ok none) = Unit {0}
OptionInRange (ok (some ms)) = ms ≤ longest
OptionInRange (err e) = is_source_error e ≡ true

Result-cases {ℓ} :
    {A : Type ℓ} (r : Result Error A) → ((a : A) × (r ≡ ok a)) ⊎ ((e : Error) × (r ≡ err e))
Result-cases (ok a) = inl (a, refl)
Result-cases (err e) = inr (e, refl)

optional-InRange : (o : Option Text) → OptionInRange (optional o)
unfolding OptionInRange
optional-InRange none = tt
optional-InRange (some text) =
    let r : InRange (duration text) = duration-InRange text in
    elim (Result-cases (duration text)) [
      | inr (e, is) ↦ rw (is, OptionInRange) (rw (is, InRange) at r)
      | inl (ms, is) ↦ rw (is, OptionInRange) (rw (is, InRange) at r)
    ]

safe_lem :
    (request backend : Option ℕ)
    → OptionInRange (ok request)
    → OptionInRange (ok backend)
    → fits request backend ≡ true
    → IsSafe (ok (record { request = positive request; backend_request = positive backend }))
unfolding OptionInRange
safe_lem none none a b h = (tt, tt, refl)
safe_lem (some x) none a b h = elim (Bool-cases (x == 0)) [
  | inl zero_request ↦ rw zero_request (tt, tt, refl)
  | inr other ↦ rw other ((ground (other, arith), a), tt, refl)
]
safe_lem none (some y) a b h = elim (Bool-cases (y == 0)) [
  | inl zero_backend ↦ rw zero_backend (tt, tt, refl)
  | inr other ↦ rw other (tt, (ground (other, arith), b), refl)
]
safe_lem (some x) (some y) a b h = elim (Bool-cases (x == 0)) [
  | inl zero_request ↦ rw zero_request (elim (Bool-cases (y == 0)) [
    | inl zero_backend ↦ rw zero_backend (tt, tt, refl)
    | inr other ↦ rw other (tt, (ground (other, arith), b), refl)
  ])
  | inr some_request ↦ rw some_request (elim (Bool-cases (y == 0)) [
    | inl zero_backend ↦ absurd (ground (some_request, zero_backend, h, arith))
    | inr other ↦ rw other (
      (ground (some_request, arith), a),
      (ground (other, arith), b),
      ground (some_request, other, h, arith),
    )
  ])
]

error_lem :
    (r : Result Error (Option ℕ)) (e : Error)
    → r ≡ err e
    → OptionInRange r
    → is_source_error e ≡ true
unfolding OptionInRange
error_lem r e is h = rw is at h

-- The timeouts of a route are an error of their texts, or budgets from 1 millisecond to four times
-- 99999 hours of which the backend's is at most the request's; no sum passes the range of `u64`, and
-- the loop on components ends.
pub budgets-IsSafe : (t : Timeouts) → IsSafe (budgets t)
unfolding budgets
budgets-IsSafe t =
    let r : OptionInRange (optional t.request) = optional-InRange t.request in
    let b : OptionInRange (optional t.backend_request) = optional-InRange t.backend_request in
    elim (Result-cases (optional t.request)) [
      | inr (e, is) ↦ rw (is, IsSafe) (error_lem (optional t.request) e is r)
      | inl (request, is) ↦
          rw (is, IsSafe)
            (elim (Result-cases (optional t.backend_request)) [
              | inr (e, is_too) ↦
                  rw (is_too, IsSafe) (error_lem (optional t.backend_request) e is_too b)
              | inl (backend, is_too) ↦
                  rw (is_too, IsSafe)
                    (elim (Bool-cases (fits request backend)) [
                      | inl good ↦
                          rw (good, IsSafe)
                            (safe_lem request backend (rw is at r) (rw is_too at b) good)
                      | inr bad ↦ rw (bad, IsSafe) refl
                    ])
            ])
    ]
