-- ===== src/Rollout/Select.antt =====
-- src/rollout.rs: which backend a request goes to, `State::select`, `State::select_at`,
-- `State::enforce` and `State::force_rollback`. `none` is a panic. SHA-256 and `str::trim` are
-- parameters, and so is `HeaderName::from_bytes`.
pub mod Shares
use rgnix.Base.{
  ltb, ◌==◌, if◌then◌else◌, is_some, length, take, sum_of, Text, codes, text_is_eq, lookup, ok, err,
  ℕ, ◌+◌, ◌-◌, ◌*◌, ◌/◌, ◌%◌, ◌^◌, Bool, true, Option, none, some, List, [], ◌∷◌, ◌++◌,
}
use rgnix.Request.{Request}
use rgnix.Traffic
use rgnix.Rollout.{Target, Policy, State, stage_weights}

abbrev total_of : List Target → ℕ
total_of = sum_of (λ t. t.weight)

-- The loop over the weights; `none` is `unreachable!()`.
pick : ℕ → List Target → Option Target
pick n [] = none
pick n (t ∷ ts) = if ltb n t.weight then some t else pick (n - t.weight) ts

-- `u64::from_be_bytes(hash[..8])`
be64_from : ℕ → List ℕ → ℕ
be64_from acc [] = acc
be64_from acc (b ∷ bs) = be64_from (acc * 256 + b) bs

abbrev pub backend_of : State → Text → Option Text
backend_of s service = lookup service s.backends

abbrev pub fallback_in : Policy → List (Text × Text) → Option Text
fallback_in p backends = elim p.rollback [ none ↦ none | some rule ↦ lookup rule.fallback backends ]

abbrev pub fallback_of : State → Option Text
fallback_of s = fallback_in s.policy s.backends

-- `State::enforce`
pub enforce : State → Text → Option Text
enforce s backend = if s.window.rolled_back then fallback_of s else some backend

-- `State::force_rollback`
pub force_rollback : State → State
force_rollback s =
    if is_some s.policy.rollback
    then record s {
      window = record s.window { rolled_back = true; reason = codes "persisted rollback" };
    }
    else s

module _ (header_name : Text → Bool) (sha256 : Text → Text) (trim : Text → Text) where
  -- What a cohort is told apart by: the key's value, or the address where that is empty.
  cohort_value : Traffic.Key → Request → Text
  cohort_value key q =
      let v = Traffic.value trim key q in if length v == 0 then q.remote_addr else v

  cohort_hash : State → Traffic.Key → Request → ℕ
  cohort_hash s key q = be64_from 0 (take 8 (sha256 (s.policy.revision ++ 0 ∷ cohort_value key q)))

  -- The place in the weights, of which there are `total`; a cohort that cannot be parsed panics.
  place : State → Request → ℕ → ℕ → Option ℕ
  place s q cursor total = elim s.policy.cohort [
    | none ↦ if total == 0 then none else some (cursor % total)
    | some text ↦ elim (Traffic.parse header_name text) [
      | err e ↦ none
      | ok key ↦ some (cohort_hash s key q % 10000 * total / 10000)
    ]
  ]

  choose : State → Request → ℕ → List Target → Option Text
  choose s q cursor weights = elim (place s q cursor (total_of weights)) [
    | none ↦ none
    | some n ↦ elim (pick n weights) [ none ↦ none | some t ↦ backend_of s t.service ]
  ]

  -- `State::select_at`
  pub select_at : State → Request → ℕ → Option Text
  select_at s q cursor =
      if s.window.rolled_back
      then fallback_of s
      else elim (stage_weights s) [ none ↦ none | some weights ↦ choose s q cursor weights ]

  -- `State::select`: the cursor is a `u64` that wraps.
  pub select : State → Request → State × Option Text
  select s q = (record s { cursor = (s.cursor + 1) % 2 ^ 64 }, select_at s q s.cursor)
