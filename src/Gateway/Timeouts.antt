-- ===== src/Gateway/Timeouts.antt =====
-- src/gateway/timeouts.rs: the timeouts of a route. A duration is its milliseconds; the arithmetic of
-- `u64` is written without wrapping, and a duration that would not fit is an error of its own.
pub mod Bounds
pub mod Tests
use rgnix.Base.{
  ltb, leb, ◌==◌, if◌then◌else◌, within, length, Text, codes, strip_prefix, is_digit, Result, ok,
  err, ℕ, zero, suc, ◌+◌, ◌-◌, ◌*◌, Bool, true, false, not, ◌&&◌, ◌||◌, Option, none, some, [], ◌∷◌,
}

pub data Error : Type 0 where
  invalid_duration unit_expected empty_duration not_in_u64 : Error
  backend_above_request : Error
  out_of_fuel : Error

pub record Timeouts : Type 0 where
  pub request : Option Text
  pub backend_request : Option Text

pub record Budgets : Type 0 where
  pub request : Option ℕ
  pub backend_request : Option ℕ

-- `text.bytes().take_while(u8::is_ascii_digit)`, and what follows.
abbrev pub digits_of : Text → Text × Text
digits_of [] = ([], [])
digits_of (c ∷ s) = if is_digit c then (c ∷ (digits_of s).0, (digits_of s).1) else ([], c ∷ s)

abbrev pub value_of : ℕ → Text → ℕ
value_of n [] = n
value_of n (c ∷ s) = value_of (n * 10 + (c - 48)) s

-- The first unit that the text starts with, as its multiplier and what follows it.
unfoldable pub unit_of : Text → Option (ℕ × Text)
unfolding strip_prefix
unit_of s = elim (strip_prefix (codes "ms") s) [
  | some r ↦ some (1, r)
  | none ↦ elim (strip_prefix (codes "h") s) [
    | some r ↦ some (3600000, r)
    | none ↦ elim (strip_prefix (codes "m") s) [
      | some r ↦ some (60000, r)
      | none ↦ elim (strip_prefix (codes "s") s) [ some r ↦ some (1000, r) | none ↦ none ]
    ]
  ]
]

abbrev pub u64_max : ℕ
u64_max = 18446744073709551615

-- The loop on components; four are read at most, so `fuel` of five is enough.
unfoldable pub components : ℕ → ℕ → ℕ → Text → Result Error ℕ
unfolding unit_of
components fuel count millis [] = if count == 0 then err empty_duration else ok millis
components zero count millis (c ∷ s) = err out_of_fuel
components (suc fuel) count millis (c ∷ s) =
    let d = digits_of (c ∷ s) in
    if not (within 1 5 (length d.0)) || not (ltb count 4)
    then err invalid_duration
    else elim (unit_of d.1) [
      | none ↦ err unit_expected
      | some (multiplier, rest) ↦ elim (ltb u64_max (millis + value_of 0 d.0 * multiplier)) [
        | true ↦ err not_in_u64
        | false ↦ components fuel (count + 1) (millis + value_of 0 d.0 * multiplier) rest
      ]
    ]

unfoldable pub duration : Text → Result Error ℕ
unfolding components
duration text = components 5 0 0 text

-- `.map(duration).transpose()?`
abbrev pub optional : Option Text → Result Error (Option ℕ)
optional none = ok none
optional (some text) = elim (duration text) [ err e ↦ err e | ok ms ↦ ok (some ms) ]

-- `filter(|v| !v.is_zero())`
abbrev pub positive : Option ℕ → Option ℕ
positive none = none
positive (some ms) = if ms == 0 then none else some ms

-- The check of the two.
abbrev pub fits : Option ℕ → Option ℕ → Bool
fits (some request) (some backend) = (request == 0) || (not (backend == 0) && leb backend request)
fits none backend = true
fits (some request) none = true

-- `Timeouts::budgets`
unfoldable pub budgets : Timeouts → Result Error Budgets
unfolding duration
budgets t = elim (optional t.request) [
  | err e ↦ err e
  | ok request ↦ elim (optional t.backend_request) [
    | err e ↦ err e
    | ok backend ↦
        if fits request backend
        then ok (record { request = positive request; backend_request = positive backend })
        else err backend_above_request
  ]
]
