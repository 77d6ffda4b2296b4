-- ===== src/Routing/Build.antt =====
-- src/routing.rs: `Index::build`.
pub mod Sound
mod Tests
use rgnix.Base.{
  ltb, ◌==◌, if◌then◌else◌, unwrap_or, length, Text, codes, text_is_eq, strip_prefix, trim_end,
  lookup, insert, or_insert, ℕ, suc, ◌&&◌, none, some, List, [], ◌∷◌, ◌++◌,
}
use rgnix.Net.{socket_is_eq}
use rgnix.Routing.{
  PathMatch, exact, nginx_prefix, ingress_prefix, ingress_default, VirtualHost, Hosts, no_hosts,
  Paths, no_paths, Index, get_or_insert,
}

-- One name of a host.
add_name : VirtualHost → ℕ → Text → Hosts → Hosts
add_name host id name names =
    if (length name == 0) && host.ingress
    then record names { default = get_or_insert names.default id }
    else elim (strip_prefix (codes "*.") name) [
      | some suffix ↦ record names { wildcard = or_insert suffix id names.wildcard }
      | none ↦ record names { exact = or_insert name id names.exact }
    ]

add_names : VirtualHost → ℕ → List Text → Hosts → Hosts
unfolding add_name
add_names host id [] names = names
add_names host id (name ∷ rest) names = add_names host id rest (add_name host id name names)

add_host : VirtualHost → ℕ → Hosts → Hosts
unfolding add_names
add_host host id names =
    add_names host id host.names
      (if host.default then record names { default = get_or_insert names.default id } else names)

-- One route of a host.
pub add_route : PathMatch → ℕ → Paths → Paths
add_route (exact path) id p = record p { exact = or_insert path id p.exact }
add_route (nginx_prefix path) id p = record p { nginx = or_insert path id p.nginx }
add_route (ingress_prefix path) id p = record p {
  ingress = or_insert (trim_end b'/' path) id p.ingress;
}
add_route ingress_default id p = record p { fallback = get_or_insert p.fallback id }

pub add_routes : ℕ → List PathMatch → Paths → Paths
unfolding add_route
add_routes id [] p = p
add_routes id (r ∷ rs) p = add_routes (suc id) rs (add_route r id p)

-- A set of numbers in falling order: `collect::<BTreeSet<_>>().into_iter().rev()`.
pub insert_length : ℕ → List ℕ → List ℕ
insert_length n [] = n ∷ []
insert_length n (m ∷ ms) =
    if n == m then m ∷ ms else if ltb m n then n ∷ m ∷ ms else m ∷ insert_length n ms

pub lengths_of : List (Text × ℕ) → List ℕ → List ℕ
unfolding insert_length
lengths_of [] ns = ns
lengths_of ((k, id) ∷ m) ns = insert_length (length k) (lengths_of m ns)

pub paths_of : List PathMatch → Paths
unfolding add_routes lengths_of
paths_of routes =
    let p = add_routes 0 routes no_paths in
    record p { prefix_lengths = lengths_of p.nginx (lengths_of p.ingress []) }

pub build_from : ℕ → List VirtualHost → Index → Index
unfolding add_host paths_of
build_from id [] index = index
build_from id (host ∷ rest) index = build_from (suc id) rest (record {
  listeners =
      insert host.listener
        (add_host host id (unwrap_or (lookup host.listener index.listeners) no_hosts))
        index.listeners;
  paths = index.paths ++ paths_of host.routes ∷ [];
})

-- `Index::build`
pub build : List VirtualHost → Index
unfolding build_from
build hosts = build_from 0 hosts (record { listeners = []; paths = [] })
