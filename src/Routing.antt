-- ===== src/Routing.antt =====
-- src/routing.rs, and from src/model.rs `PathMatch` and `VirtualHost`: the compiled index of hosts
-- and paths. A map is an association list; of a `BTreeMap` only the order of the lengths is used,
-- and that is written out.
pub mod Build
use rgnix.Base.{
  leb, ◌==◌, if◌then◌else◌, within, is_some_and, length, get_elem?, take, drop, retain, Text,
  text_eq, text_is_eq, strip_prefix, starts_with, contains_byte, to_lower, trim_end, lookup, ℕ,
  zero, suc, Bool, true, false, not, ◌&&◌, ◌||◌, Option, none, some, List, [], ◌∷◌, ◌++◌,
}
use rgnix.Net.{SocketAddr, socket_is_eq}

pub data PathMatch : Type 0 where
  exact nginx_prefix ingress_prefix : Text → PathMatch
  ingress_default : PathMatch

-- `path.starts_with('/')` of what is left of a path
abbrev pub at_segment : Text → Bool
at_segment [] = true
at_segment (c ∷ s) = c == b'/'

abbrev starts_slash : Text → Bool
starts_slash [] = false
starts_slash (c ∷ s) = c == b'/'

-- `PathMatch::matches`
unfoldable pub matches : PathMatch → Text → Bool
unfolding starts_with trim_end strip_prefix
matches (exact p) path = text_eq path p
matches (nginx_prefix p) path = starts_with p path
matches (ingress_prefix p) path =
    let q = trim_end b'/' p in
    (length q == 0) || (text_eq path q || is_some_and (strip_prefix q path) starts_slash)
matches ingress_default path = true

pub record VirtualHost : Type 0 where
  pub listener : SocketAddr
  pub names : List Text
  pub default : Bool
  pub ingress : Bool
  pub routes : List PathMatch

pub record Hosts : Type 0 where
  pub exact : List (Text × ℕ)
  pub wildcard : List (Text × ℕ)
  pub default : Option ℕ

abbrev pub no_hosts : Hosts
no_hosts = record { exact = []; wildcard = []; default = none }

pub record Paths : Type 0 where
  pub exact : List (Text × ℕ)
  pub nginx : List (Text × ℕ)
  pub ingress : List (Text × ℕ)
  pub fallback : Option ℕ
  pub prefix_lengths : List ℕ

abbrev pub no_paths : Paths
no_paths = record { exact = []; nginx = []; ingress = []; fallback = none; prefix_lengths = [] }

pub record Index : Type 0 where
  pub listeners : List (SocketAddr × Hosts)
  pub paths : List Paths

-- `get_or_insert`
abbrev pub get_or_insert {ℓ} : {A : Type ℓ} → Option A → A → Option A
get_or_insert none a = some a
get_or_insert (some b) a = some b

-- `is_char_boundary`: no continuation byte stands at the place.
is_char_boundary : Text → ℕ → Bool
is_char_boundary s i = elim (get_elem? s i) [
  | none ↦ i == length s
  | some b ↦ not (within 128 191 b)
]

-- `n, n - 1, .., 0`
pub down : ℕ → List ℕ
down zero = 0 ∷ []
down (suc n) = suc n ∷ down n

-- Both ways to choose the ends of the prefixes that are tried: the configured lengths, or every
-- boundary of the path; each from the longest.
ends : List ℕ → Text → List ℕ
unfolding down is_char_boundary
ends lengths path =
    if leb (length lengths) (length path)
    then retain (λ n. leb n (length path) && is_char_boundary path n) lengths
    else retain (is_char_boundary path) (down (length path))

-- What the loop finds at one end.
try_end : Paths → Text → ℕ → Option ℕ
try_end p path n = elim (lookup (take n path) p.nginx) [
  | some route ↦ some route
  | none ↦ if at_segment (drop n path) then lookup (take n path) p.ingress else none
]

first_end : Paths → Text → List ℕ → Option ℕ
unfolding try_end
first_end p path [] = p.fallback
first_end p path (n ∷ ns) = elim (try_end p path n) [
  | some route ↦ some route
  | none ↦ first_end p path ns
]

-- `Paths::route`
pub route_path : Paths → Text → Option ℕ
unfolding ends first_end
route_path p path = elim (lookup path p.exact) [
  | some route ↦ some route
  | none ↦ first_end p path (ends p.prefix_lengths path)
]

abbrev ingress_at : List VirtualHost → ℕ → Bool
ingress_at hosts id = is_some_and (get_elem? hosts id) (λ h. h.ingress)

-- The wildcard that a dot of the host opens: `before` is the text before the dot, `rest` what
-- follows it.
wildcard_at : List VirtualHost → Hosts → Text → Text → Option ℕ
wildcard_at hosts names before rest = elim (lookup rest names.wildcard) [
  | none ↦ none
  | some id ↦
      if not (length before == 0) && (not (ingress_at hosts id) || not (contains_byte b'.' before))
      then some id
      else none
]

-- `host.match_indices('.').find_map(..)`
wildcard_from : List VirtualHost → Hosts → Text → Text → Option ℕ
unfolding wildcard_at
wildcard_from hosts names before [] = none
wildcard_from hosts names before (c ∷ rest) =
    let later = wildcard_from hosts names (before ++ c ∷ []) rest in
    if c == b'.'
    then elim (wildcard_at hosts names before rest) [ some id ↦ some id | none ↦ later ]
    else later

select_host : List VirtualHost → Hosts → Text → Option ℕ
unfolding wildcard_from
select_host hosts names host = elim (lookup host names.exact) [
  | some id ↦ some id
  | none ↦ elim (wildcard_from hosts names [] host) [ some id ↦ some id | none ↦ names.default ]
]

-- The route of a path within one host; a host without paths would panic.
route_in : Index → ℕ → Text → Option (ℕ × ℕ)
unfolding route_path
route_in index id path = elim (get_elem? index.paths id) [
  | none ↦ none
  | some p ↦ elim (route_path p path) [ none ↦ none | some route ↦ some (id, route) ]
]

-- `Index::route`
pub route : Index → List VirtualHost → SocketAddr → Text → Text → Option (ℕ × ℕ)
unfolding select_host route_in trim_end
route index hosts listener host path = elim (lookup listener index.listeners) [
  | none ↦ none
  | some names ↦ elim (select_host hosts names (to_lower (trim_end b'.' host))) [
    | none ↦ none
    | some selected ↦ elim (route_in index selected path) [
      | some found ↦ some found
      | none ↦
          if ingress_at hosts selected
          then elim names.default [ none ↦ none | some id ↦ route_in index id path ]
          else none
    ]
  ]
]

-- The host that a request without a name selects.
nameless : Hosts → Option ℕ
nameless names = elim (lookup [] names.exact) [ some id ↦ some id | none ↦ names.default ]

-- `Index::hostless_server_name`
pub hostless_server_name : Index → List VirtualHost → SocketAddr → Option Text
unfolding nameless
hostless_server_name index hosts listener = elim (lookup listener index.listeners) [
  | none ↦ none
  | some names ↦ elim (nameless names) [
    | none ↦ none
    | some selected ↦ elim (get_elem? hosts selected) [
      | none ↦ none
      | some host ↦ get_elem? host.names 0
    ]
  ]
]
