-- ===== src/Backend/Select.antt =====
-- src/backend/selection.rs: the choice of an endpoint. `score` is `hash_score`, the cost of an
-- endpoint under a key by SHA-256 and `f64`, and `costs_less` is `total_cmp` on two costs; both
-- are parameters.
pub mod Health
mod Outcomes
pub mod Leases
mod Tests
use rgnix.Base.{
  ltb, leb, ◌==◌, if◌then◌else◌, is_some_and, is_some, length, get_elem?, take, drop, Text, ℕ, suc,
  ◌+◌, ◌*◌, ◌%◌, min, Bool, true, false, not, ◌&&◌, ◌||◌, Option, none, some, List, [], ◌∷◌, ◌++◌,
}
use rgnix.Backend.{
  round_robin, least_connections, hash, sticky, HealthCheck, State, Entry, Selection, Backend, bump,
  is_answer, set_state,
}

-- `expires.map_or(until, |current| current.min(until))`
abbrev pub earlier : Option ℕ → ℕ → ℕ
earlier none t = t
earlier (some s) t = min s t

-- The state once `ready` has seen the time of a cooldown.
thaw : ℕ → State → State
thaw now s = elim s.health.blocked_until [
  | none ↦ s
  | some t ↦
      if leb t now
      then record s {
        has_failures = false;
        health = record s.health { failures = 0; blocked_until = none };
      }
      else s
]

until_next : ℕ → State → Option ℕ → Option ℕ
until_next now s expires = elim s.health.blocked_until [
  | none ↦ expires
  | some t ↦ if leb t now then expires else some (earlier expires t)
]

-- `Backend::ready` on an endpoint's state: the state, the expiry and the answer.
pub ready_state : Option HealthCheck → ℕ → ℕ → State → Option ℕ → State × Option ℕ × Bool
unfolding thaw until_next
ready_state check now weight s expires =
    if weight == 0
    then (s, expires, false)
    else if not (is_some check) && not s.has_failures
    then (s, expires, true)
    else (let t = thaw now s in
        (
          t,
          until_next now s expires,
          not (is_some t.health.blocked_until)
              && (not (is_some check) || is_answer true t.health.active_ok),
        ))

pub ready : ℕ → Entry → Option ℕ → Backend → Backend × Option ℕ × Bool
unfolding ready_state
ready now (e, i) expires b = elim (get_elem? b.states i) [
  | none ↦ (b, expires, false)
  | some s ↦
      let (s', expires', answer) = ready_state b.options.health now e.weight s expires in
      (record b { states = set_state i s' b.states }, expires', answer)
]

-- `Selection::new`: the loop, with the total so far.
gather : ℕ → List Entry → ℕ → Option ℕ → Backend → Backend × Option ℕ × List Entry × List ℕ
unfolding ready
gather now [] total expires b = (b, expires, [], [])
gather now ((e, i) ∷ es) total expires b =
    let (b', expires', answer) = ready now (e, i) expires b in
    let total' = if answer then total + e.weight else total in
    let (c, last, entries, weights) = gather now es total' expires' b' in
    if answer then (c, last, (e, i) ∷ entries, total' ∷ weights) else (c, last, entries, weights)

pub new_selection : ℕ → ℕ → Backend → Backend × Selection
unfolding gather
new_selection now revision b =
    let (c, expires, entries, weights) = gather now b.pool 0 none b in
    (
      c,
      record {
        endpoints = entries;
        cumulative_weights = weights;
        revision = revision;
        expires = expires;
      },
    )

-- `Backend::lease`: the place of the state that the lease holds.
pub lease : Entry → Backend → Backend × Option ℕ
lease (e, i) b =
    if not (b.options.max_inflight == 0) && leb b.options.max_inflight b.active
    then (b, none)
    else elim (get_elem? b.states i) [
      | none ↦ (b, none)
      | some s ↦ (
        record b {
          states = set_state i (record s { active = s.active + 1 }) b.states;
          active = b.active + 1;
        },
        some i,
      )
    ]

abbrev last_of : List ℕ → Option ℕ
last_of [] = none
last_of (n ∷ []) = some n
last_of (n ∷ m ∷ ns) = last_of (m ∷ ns)

-- `partition_point(|end| *end <= n)`
pub partition_point : ℕ → List ℕ → ℕ
partition_point n [] = 0
partition_point n (m ∷ ms) = if leb m n then suc (partition_point n ms) else 0

-- `min_by`: the first of the least.
min_by : (Entry → Entry → Bool) → Entry → List Entry → Entry
min_by less best [] = best
min_by less best (e ∷ es) = if less e best then min_by less e es else min_by less best es

first_least : (Entry → Entry → Bool) → List Entry → Option Entry
unfolding min_by
first_least less [] = none
first_least less (e ∷ es) = some (min_by less e es)

-- The entries from a place on, then those before it.
abbrev rotate : ℕ → List Entry → List Entry
rotate n es = drop n es ++ take n es

abbrev active_of : List State → ℕ → ℕ
active_of states i = elim (get_elem? states i) [ none ↦ 0 | some s ↦ s.active ]

-- The order of `LeastConnections`, by cross products of counts and weights.
fewer : List State → Entry → Entry → Bool
fewer states (a, i) (b, j) = ltb (active_of states i * b.weight) (active_of states j * a.weight)

-- `get_or_init` of the fixed endpoint
fixed_entry : Backend → Option Entry
fixed_entry b = elim b.fixed [
  | some f ↦ f
  | none ↦ if not (length b.configured == 1) || not b.numeric then none else get_elem? b.pool 0
]

-- A single endpoint is leased when it is ready.
pub lease_ready : ℕ → Entry → Backend → Backend × Option ℕ
unfolding ready lease
lease_ready now e b =
    let (c, expires, answer) = ready now e none b in if answer then lease e c else (c, none)

is_stale : ℕ → ℕ → Selection → Bool
is_stale now revision sel =
    not (sel.revision == revision) || is_some_and sel.expires (λ t. leb t now)

renew : ℕ → Backend → Backend × Selection
unfolding new_selection
renew now b =
    let (c, sel) = new_selection now b.revision b in (record c { selection = some sel }, sel)

-- The snapshot that a call works with.
pub current : ℕ → Backend → Backend × Selection
unfolding is_stale renew
current now b = elim b.selection [
  | none ↦ renew now b
  | some sel ↦ if is_stale now b.revision sel then renew now b else (b, sel)
]

-- `if let [entry] = ..`
only : List Entry → Option Entry
only (e ∷ []) = some e
only [] = none
only (e ∷ f ∷ es) = none

module _ {Cost : Type 0} (score : Text → Text → ℕ → Cost) (costs_less : Cost → Cost → Bool) where
  cost : Text → List State → Entry → Option Cost
  cost key states (e, i) = elim (get_elem? states i) [
    | none ↦ none
    | some s ↦ some (score key s.hash_address e.weight)
  ]

  cheaper : Text → List State → Entry → Entry → Bool
  unfolding cost
  cheaper key states a b = elim (cost key states a) [
    | none ↦ false
    | some x ↦ elim (cost key states b) [ none ↦ false | some y ↦ costs_less x y ]
  ]

  -- The choice of `select_from`, with the cursor after it.
  pub choose : Selection → Text → ℕ → Backend → ℕ × Option Entry
  unfolding partition_point first_least fewer cheaper
  choose sel key total b = elim b.options.balance [
    | round_robin ↦ (
      bump b.cursor,
      get_elem? sel.endpoints (partition_point (b.cursor % total) sel.cumulative_weights),
    )
    | least_connections ↦ (
      bump b.cursor,
      first_least (fewer b.states) (rotate (b.cursor % length sel.endpoints) sel.endpoints),
    )
    | hash k ↦ (b.cursor, first_least (cheaper key b.states) sel.endpoints)
    | sticky name ↦ (b.cursor, first_least (cheaper key b.states) sel.endpoints)
  ]

  -- `Backend::select_from`
  pub select_from : Selection → Text → Backend → Backend × Option ℕ
  unfolding choose lease
  select_from sel key b = elim (last_of sel.cumulative_weights) [
    | none ↦ (b, none)
    | some total ↦
        let (cursor, chosen) = choose sel key total b in
        let c = record b { cursor = cursor } in
        elim chosen [ none ↦ (c, none) | some e ↦ lease e c ]
  ]

  -- The part of `select` under the pool's lock.
  select_pool : ℕ → Text → Backend → Backend × Option ℕ
  unfolding only lease_ready current select_from
  select_pool now key b =
      if ltb 0 b.options.max_inflight && leb b.options.max_inflight b.active
      then (b, none)
      else elim (only b.pool) [
        | some e ↦ lease_ready now e b
        | none ↦ (let (c, sel) = current now b in select_from sel key c)
      ]

  -- `Backend::select`: the place of the state that the lease holds.
  pub select : ℕ → Text → Backend → Backend × Option ℕ
  unfolding fixed_entry lease_ready select_pool
  select now key b =
      let f = fixed_entry b in
      let c = record b { fixed = some f } in
      elim f [ some e ↦ lease_ready now e c | none ↦ select_pool now key c ]
