-- ===== src/Backend.antt =====
-- src/backend.rs: the state of a backend and the health of its endpoints. The states that the
-- program shares by `Arc` stand in one list, and an endpoint names its state by its place there.
-- Instants and durations are in nanoseconds.

pub mod Select
use rgnix.Base.{
  leb, ◌==◌, if◌then◌else◌, within, is_some, length, get_elem?, any, Text, codes, strip_prefix,
  starts_with, Result, ◌>>◌, ensure, ok, ℕ, zero, suc, ◌+◌, ◌-◌, ◌/◌, ◌%◌, min, String, Bool, true,
  false, not, ◌&&◌, ◌||◌, Option, none, some, List, [], ◌∷◌,
}
use rgnix.Net.{SocketAddr, socket_eq}
use rgnix.Traffic.{Key}

pub data Balance : Type 0 where
  round_robin least_connections : Balance
  hash : Key → Balance
  sticky : Text → Balance

pub record HealthCheck : Type 0 where
  pub path : Text
  pub interval : ℕ
  pub timeout : ℕ
  pub status : ℕ

pub record Options : Type 0 where
  pub balance : Balance
  pub max_inflight : ℕ
  pub health : Option HealthCheck

-- `Options::validate`
check_health : Option HealthCheck → Result String (Unit {0})
unfolding starts_with strip_prefix
check_health none = ok tt
check_health (some h) = do
  ensure
      (starts_with (codes "/") h.path
        && (leb (length h.path) 1024
            && (not (starts_with (codes "//") h.path)
                && not (any (λ c. (c == 13) || ((c == 10) || (c == b'#'))) h.path))))
      "invalid health check path"
  ensure
      (within 1 3600 (h.interval / 1000000000)
        && (not (h.timeout == 0) && leb h.timeout 30000000000))
      "health interval must be 1s..1h and timeout 1ms..30s"
  ensure (within 200 399 h.status) "health check expected status must be 200..399"

pub validate : Options → Result String (Unit {0})
unfolding check_health
validate o = do
  ensure (leb o.max_inflight 1000000) "backend concurrency must be 0..1000000"
  check_health o.health

pub record HealthState : Type 0 where
  pub failures : ℕ
  pub blocked_until : Option ℕ
  pub active_ok : Option Bool

-- `State`; `hash_address` is the endpoint's address as text.
pub record State : Type 0 where
  pub hash_address : Text
  pub active : ℕ
  pub has_failures : Bool
  pub health : HealthState

pub record Endpoint : Type 0 where
  pub address : SocketAddr
  pub weight : ℕ

-- An endpoint, and the place of its state.
abbrev pub Entry : Type 0
Entry = Endpoint × ℕ

pub record Selection : Type 0 where
  pub endpoints : List Entry
  pub cumulative_weights : List ℕ
  pub revision : ℕ
  pub expires : Option ℕ

pub record Backend : Type 0 where
  pub options : Options
  pub numeric : Bool
  pub configured : List Endpoint
  pub states : List State
  pub pool : List Entry
  pub selection : Option Selection
  pub fixed : Option (Option Entry)
  pub cursor : ℕ
  pub active : ℕ
  pub revision : ℕ

-- `State::new`
pub new_state : Text → State
new_state address = record {
  hash_address = address;
  active = 0;
  has_failures = false;
  health = record { failures = 0; blocked_until = none; active_ok = none };
}

abbrev pub usize_max : ℕ
usize_max = 18446744073709551615

-- `fetch_add(1)` on an `AtomicU64`
abbrev pub bump : ℕ → ℕ
bump n = (n + 1) % 18446744073709551616

-- `State::record_result`: the state, the revision and whether the endpoint was ejected.
pub record_result : ℕ → Bool → ℕ → ℕ → State → ℕ → State × ℕ × Bool
record_result now failed max_fails cooldown s revision =
    if (not failed && not s.has_failures) || (failed && (max_fails == 0))
    then (s, revision, false)
    else if not failed
    then (
      record s {
        has_failures = false;
        health = record s.health { failures = 0; blocked_until = none };
      },
      if is_some s.health.blocked_until then bump revision else revision,
      false,
    )
    else (let failures = min (s.health.failures + 1) usize_max in
        if leb max_fails failures && not (is_some s.health.blocked_until)
        then (
          record s {
            has_failures = true;
            health = record s.health { failures = failures; blocked_until = some (now + cooldown) };
          },
          bump revision,
          true,
        )
        else (
          record s { has_failures = true; health = record s.health { failures = failures } },
          revision,
          false,
        ))

abbrev pub is_answer : Bool → Option Bool → Bool
is_answer b none = false
is_answer true (some c) = c
is_answer false (some c) = not c

-- `State::set_active_health`
pub set_active_health : Bool → State → ℕ → State × ℕ
set_active_health good s revision =
    if is_answer good s.health.active_ok
    then (s, revision)
    else (record s { health = record s.health { active_ok = some good } }, bump revision)

-- One state of the list is replaced.
abbrev pub set_state : ℕ → State → List State → List State
set_state i s [] = []
set_state zero s (t ∷ ts) = s ∷ ts
set_state (suc i) s (t ∷ ts) = t ∷ set_state i s ts

at_address : SocketAddr → List Entry → Option ℕ
at_address address [] = none
at_address address ((e, i) ∷ es) =
    if socket_eq e.address address then some i else at_address address es

-- `Backend::record_result` and `Lease::record_result`, on the state that they find
pub record_at : ℕ → Bool → ℕ → ℕ → ℕ → Backend → Backend × Bool
unfolding record_result
record_at now failed max_fails cooldown i b = elim (get_elem? b.states i) [
  | none ↦ (b, false)
  | some s ↦
      let (s', revision, ejected) = record_result now failed max_fails cooldown s b.revision in
      (record b { states = set_state i s' b.states; revision = revision }, ejected)
]

pub record_address : ℕ → SocketAddr → Bool → ℕ → ℕ → Backend → Backend × Bool
unfolding at_address record_at
record_address now address failed max_fails cooldown b = elim (at_address address b.pool) [
  | none ↦ (b, false)
  | some i ↦ record_at now failed max_fails cooldown i b
]

-- The end of a probe.
pub probed : ℕ → Bool → Backend → Backend
unfolding set_active_health
probed i good b = elim (get_elem? b.states i) [
  | none ↦ b
  | some s ↦
      let (s', revision) = set_active_health good s b.revision in
      record b { states = set_state i s' b.states; revision = revision }
]

-- `Drop for Lease`
pub drop_lease : ℕ → Backend → Backend
drop_lease i b = elim (get_elem? b.states i) [
  | none ↦ b
  | some s ↦ record b {
    states = set_state i (record s { active = s.active - 1 }) b.states;
    active = b.active - 1;
  }
]
