-- ===== src/Routing/Build/Sound.antt =====
-- src/routing.rs: the routes that the index finds, against `PathMatch::matches` of src/model.rs.
use rgnix.Base.{
  Bool-cases, Option-cases, get_elem?, take, drop, Text, text_eq, text_eq_iff, text_is_eq,
  strip_prefix, starts_with, trim_end, lookup, or_insert, lookup-or_insert, ℕ, zero, suc, ◌+◌, ◌≡◌,
  refl, sym, ap, ◌⊎◌, inl, inr, true, some, List, [], ◌∷◌, arith,
}
use rgnix.Routing.{
  PathMatch, exact, nginx_prefix, ingress_prefix, ingress_default, at_segment, starts_slash,
  matches, Paths, no_paths, ends, try_end, first_end, route_path,
}
use rgnix.Routing.Build.{add_route, add_routes, paths_of}

-- The entries of a map stand for routes of the list, from the place `n` on.
abbrev Entries : (Text → PathMatch → Type 0) → ℕ → List PathMatch → List (Text × ℕ) → Type 0
Entries R n routes m =
    (k : Text) (id : ℕ)
    → lookup k m ≡ some id
    → (r : PathMatch) × (get_elem? routes id ≡ some r) × R k r

abbrev IsExact : Text → PathMatch → Type 0
IsExact k r = r ≡ exact k

abbrev IsNginx : Text → PathMatch → Type 0
IsNginx k r = r ≡ nginx_prefix k

abbrev IsIngress : Text → PathMatch → Type 0
IsIngress k r = (p : Text) × (r ≡ ingress_prefix p) × (trim_end b'/' p ≡ k)

-- What an index built from the routes satisfies.
record IsSound (routes : List PathMatch) (p : Paths) : Type 0 where
  exacts : Entries IsExact 0 routes p.exact
  nginxes : Entries IsNginx 0 routes p.nginx
  ingresses : Entries IsIngress 0 routes p.ingress
  default : (id : ℕ) → p.fallback ≡ some id → get_elem? routes id ≡ some ingress_default

Entries-or_insert :
    (R : Text → PathMatch → Type 0) (routes : List PathMatch) (m : List (Text × ℕ)) (k : Text)
    (id : ℕ) (r : PathMatch)
    → Entries R 0 routes m
    → get_elem? routes id ≡ some r
    → R k r
    → Entries R 0 routes (or_insert k id m)
Entries-or_insert R routes m k id r es at holds j i found = elim (Bool-cases (text_eq k j)) [
  | inl same ↦ elim (Option-cases (lookup k m)) [
    | inl missing ↦
        let here : k ≡ j = (text_eq_iff k j).0 same in
        let value : id ≡ i = ground (arith, lookup-or_insert k j id m) in
        (r, rw (← value) at, rw (← here) holds)
    | inr (old, there) ↦ es j i (rw there at found)
  ]
  | inr other ↦ es j i (ground (arith, lookup-or_insert k j id m))
]

add_route-IsSound :
    (routes : List PathMatch) (r : PathMatch) (id : ℕ) (p : Paths)
    → get_elem? routes id ≡ some r
    → IsSound routes p
    → IsSound routes (add_route r id p)
unfolding add_route
add_route-IsSound routes (exact path) id p at s = record {
  exacts = Entries-or_insert IsExact routes p.exact path id (exact path) s.exacts at refl;
  nginxes = s.nginxes;
  ingresses = s.ingresses;
  default = s.default;
}
add_route-IsSound routes (nginx_prefix path) id p at s = record {
  exacts = s.exacts;
  nginxes = Entries-or_insert IsNginx routes p.nginx path id (nginx_prefix path) s.nginxes at refl;
  ingresses = s.ingresses;
  default = s.default;
}
add_route-IsSound routes (ingress_prefix path) id p at s = record {
  exacts = s.exacts;
  nginxes = s.nginxes;
  ingresses =
      Entries-or_insert IsIngress routes p.ingress (trim_end b'/' path) id (ingress_prefix path)
        s.ingresses at (path, refl, refl);
  default = s.default;
}
add_route-IsSound routes ingress_default id p at s = record {
  exacts = s.exacts;
  nginxes = s.nginxes;
  ingresses = s.ingresses;
  default = λ i e. elim (Option-cases p.fallback) [
    | inl missing ↦ let value : id ≡ i = ground arith in rw (← value) at
    | inr (old, there) ↦ s.default i (ground arith)
  ];
}

-- `rs` stands at the place `id` of the routes.
abbrev StandsAt : List PathMatch → ℕ → List PathMatch → Type 0
StandsAt routes id rs =
    (i : ℕ) (r : PathMatch) → get_elem? rs i ≡ some r → get_elem? routes (id + i) ≡ some r

add_routes-IsSound :
    (routes rs : List PathMatch) (id : ℕ) (p : Paths)
    → StandsAt routes id rs
    → IsSound routes p
    → IsSound routes (add_routes id rs p)
unfolding add_routes
add_routes-IsSound routes [] id p at s = s
add_routes-IsSound routes (r ∷ rs) id p at s =
    add_routes-IsSound routes rs (suc id) (add_route r id p)
      (λ i q h.
        let here : get_elem? routes (id + suc i) ≡ some q = at (suc i) q h in
        let same : suc id + i ≡ id + suc i = omega arith in rw same here)
      (let same : id + 0 ≡ id = omega arith in
        let here : get_elem? routes (id + 0) ≡ some r = at 0 r refl in
        add_route-IsSound routes r id p (rw same at here) s)

paths_of-IsSound : (routes : List PathMatch) → IsSound routes (paths_of routes)
unfolding paths_of
paths_of-IsSound routes =
    let start : IsSound routes no_paths = record {
      exacts = λ k id h. absurd (ground arith);
      nginxes = λ k id h. absurd (ground arith);
      ingresses = λ k id h. absurd (ground arith);
      default = λ id h. absurd (ground arith);
    } in
    let s =
      add_routes-IsSound routes routes 0 no_paths
        (λ i r h. let same : 0 + i ≡ i = omega arith in rw same h) start in
    record { exacts = s.exacts; nginxes = s.nginxes; ingresses = s.ingresses; default = s.default }

-- A prefix that is cut off a path leaves the rest of it.
strip_prefix-take : (n : ℕ) (path : Text) → strip_prefix (take n path) path ≡ some (drop n path)
unfolding strip_prefix
strip_prefix-take zero path = refl
strip_prefix-take (suc n) [] = refl
strip_prefix-take (suc n) (c ∷ path) = ground (arith, strip_prefix-take n path)

take-all : (n : ℕ) (path : Text) → drop n path ≡ [] → take n path ≡ path
take-all zero path h = ground arith
take-all (suc n) [] h = refl
take-all (suc n) (c ∷ path) h = ap (λ s. c ∷ s) (take-all n path h)

-- The route at a place matches the path.
abbrev pub IsMatch : List PathMatch → Text → ℕ → Type 0
IsMatch routes path id = (r : PathMatch) × (get_elem? routes id ≡ some r) × (matches r path ≡ true)

at_segment-cases : (s : Text) → at_segment s ≡ true → (s ≡ []) ⊎ (starts_slash s ≡ true)
at_segment-cases [] h = inl refl
at_segment-cases (c ∷ s) h = inr h

ingress-matches :
    (p path : Text) (n : ℕ)
    → trim_end b'/' p ≡ take n path
    → at_segment (drop n path) ≡ true
    → matches (ingress_prefix p) path ≡ true
unfolding matches
ingress-matches p path n trimmed boundary = elim (at_segment-cases (drop n path) boundary) [
  | inl over ↦
      let whole : text_eq path (take n path) ≡ true =
        (text_eq_iff path (take n path)).1 (sym (take-all n path over)) in
      rw trimmed (ground (arith, whole))
  | inr slash ↦ rw trimmed (ground (arith, strip_prefix-take n path, slash))
]

nginx-matches : (path : Text) (n : ℕ) → matches (nginx_prefix (take n path)) path ≡ true
unfolding matches starts_with
nginx-matches path n = rw (strip_prefix-take n path) refl

try_end-IsMatch :
    (routes : List PathMatch) (p : Paths) (path : Text) (n id : ℕ)
    → IsSound routes p
    → try_end p path n ≡ some id
    → IsMatch routes path id
unfolding try_end
try_end-IsMatch routes p path n id s found = elim (Option-cases (lookup (take n path) p.nginx)) [
  | inr (i, there) ↦
      let (r, at, is) = s.nginxes (take n path) id (ground arith) in
      (r, at, rw is (nginx-matches path n))
  | inl missing ↦ elim (Bool-cases (at_segment (drop n path))) [
    | inl boundary ↦
        let (r, at, (q, is, trimmed)) = s.ingresses (take n path) id (ground arith) in
        (r, at, rw is (ingress-matches q path n trimmed boundary))
    | inr other ↦ absurd (ground arith)
  ]
]

first_end-IsMatch :
    (routes : List PathMatch) (p : Paths) (path : Text) (ns : List ℕ) (id : ℕ)
    → IsSound routes p
    → first_end p path ns ≡ some id
    → IsMatch routes path id
unfolding first_end matches
first_end-IsMatch routes p path [] id s found = (ingress_default, s.default id found, refl)
first_end-IsMatch routes p path (n ∷ ns) id s found = elim (Option-cases (try_end p path n)) [
  | inl missing ↦ first_end-IsMatch routes p path ns id s (ground arith)
  | inr (i, there) ↦ try_end-IsMatch routes p path n id s (ground arith)
]

-- What the index of a host's routes finds for a path is the place of one of them, and that route
-- matches the path by its own test.
pub route_path-IsMatch :
    (routes : List PathMatch) (path : Text) (id : ℕ)
    → route_path (paths_of routes) path ≡ some id
    → IsMatch routes path id
unfolding route_path matches
route_path-IsMatch routes path id found =
    let s = paths_of-IsSound routes in
    elim (Option-cases (lookup path (paths_of routes).exact)) [
      | inl missing ↦
          first_end-IsMatch routes (paths_of routes) path
            (ends (paths_of routes).prefix_lengths path) id s (ground arith)
      | inr (i, there) ↦
          let (r, at, is) = s.exacts path id (ground arith) in
          (r, at, rw is ((text_eq_iff path path).1 refl))
    ]
