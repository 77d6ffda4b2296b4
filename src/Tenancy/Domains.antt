-- ===== src/Tenancy/Domains.antt =====
-- src/tenancy/domains.rs: grants of domains to namespaces, and the domains that namespaces claim.
-- A set is a list; the grants stand in the order of the map, and of an `IngressSpec` there is what
-- `hosts` reads of it.
pub mod Exclusive
pub mod Agree
mod Tests
use rgnix.Base.{
  leb, ◌==◌, if◌then◌else◌, is_some_and, unwrap_or, length, get_elem?, all, any, Text, codes,
  text_eq, text_is_eq, strip_prefix, starts_with, strip_suffix, contains_byte, split_on, to_lower,
  is_digit, is_lowercase, or_insert, Result, ◌>>◌, ensure, each, ok, String, Bool, false, not, ◌&&◌,
  ◌||◌, Option, none, some, List, [], ◌∷◌, ◌++◌, map, reverse,
}

abbrev pub Grants : Type 0
Grants = List (Text × List Text)

ends_dash : Text → Bool
ends_dash s = is_some_and (get_elem? (reverse s) 0) (λ c. c == b'-')

pub namespace_name : Text → Bool
unfolding ends_dash
namespace_name value =
    not (length value == 0)
    && (leb (length value) 63
        && (not (is_some_and (get_elem? value 0) (λ c. c == b'-'))
            && (not (ends_dash value)
                && all (λ b. is_lowercase b || (is_digit b || (b == b'-'))) value)))

pub valid_host : Text → Bool
unfolding namespace_name strip_prefix split_on
valid_host host =
    let name = unwrap_or (strip_prefix (codes "*.") host) host in
    (length host == 0) || (leb (length name) 253 && all namespace_name (split_on b'.' name))

-- What stands before the suffix of a wildcard is one label and a dot.
one_label : Text → Text → Bool
unfolding strip_suffix
one_label suffix host = elim (strip_suffix suffix host) [
  | none ↦ false
  | some p ↦ elim (strip_suffix (b'.' ∷ []) p) [
    | none ↦ false
    | some label ↦ not (length label == 0) && not (contains_byte b'.' label)
  ]
]

pub covers : Text → Text → Bool
unfolding one_label starts_with strip_prefix
covers pattern host =
    text_eq pattern host
    || (not (starts_with (codes "*.") host)
        && is_some_and (strip_prefix (codes "*.") pattern) (λ suffix. one_label suffix host))

pub overlap : Text → Text → Bool
unfolding covers
overlap left right = covers left right || covers right left

-- Two sets of names are the same when each holds the other's names.
abbrev pub has_name : Text → List Text → Bool
has_name n = any (λ m. text_eq m n)

abbrev pub same_names : List Text → List Text → Bool
same_names a b = all (λ n. has_name n b) a && all (λ n. has_name n a) b

agrees : Text × List Text → Text × List Text → Result String (Unit {0})
unfolding overlap
agrees (host, namespaces) (other, owners) =
    ensure (not (overlap host other) || same_names namespaces owners)
      "overlapping domain grants must authorize the same namespaces"

-- A grant against those that stand before it.
check_grant : Text × List Text → Grants → Result String (Unit {0})
unfolding valid_host agrees
check_grant (host, namespaces) before = do
  ensure (valid_host host && (not (length namespaces == 0) && all namespace_name namespaces))
      "invalid domain grant"
  each (agrees (host, namespaces)) before

check_grants : Grants → Grants → Result String (Unit {0})
unfolding check_grant
check_grants before [] = ok tt
check_grants before (g ∷ gs) = check_grant g before >> check_grants (before ++ g ∷ []) gs

-- `Domains::validate`
pub validate_grants : Grants → Result String (Unit {0})
unfolding check_grants
validate_grants grants = do
  ensure (leb (length grants) 4096) "at most 4096 domain grants"
  check_grants [] grants

grants_host : Text → Text → Text × List Text → Bool
unfolding covers
grants_host namespace host (grant, owners) = covers grant host && has_name namespace owners

-- `Domains::authorize`, on the hosts of the ingress
pub authorize : Grants → Text → List Text → Result String (Unit {0})
unfolding grants_host
authorize grants namespace = each (λ host.
    ensure (any (grants_host namespace host) grants) "namespace is not authorized for domain")

-- The hosts of an ingress's rules and certificates, and whether it has a default backend.
pub record IngressSpec : Type 0 where
  pub rules : List (Option Text)
  pub tls : List (List Text)
  pub default_backend : Bool

abbrev add_host : Text → List Text → List Text
add_host name names = if has_name name names then names else name ∷ names

collect_hosts : List Text → List Text
collect_hosts [] = []
collect_hosts (n ∷ ns) = add_host n (collect_hosts ns)

tls_hosts : List (List Text) → List Text
tls_hosts [] = []
tls_hosts (t ∷ ts) = map to_lower t ++ tls_hosts ts

pub hosts : IngressSpec → List Text
unfolding tls_hosts collect_hosts
hosts spec =
    let names =
      collect_hosts (map (λ r. to_lower (unwrap_or r [])) spec.rules ++ tls_hosts spec.tls) in
    if spec.default_backend then add_host [] names else names

-- The owner of each host, by `entry(host).or_insert_with(..)`.
own : Text → List Text → List (Text × Text) → List (Text × Text)
own namespace [] owners = owners
own namespace (host ∷ rest) owners = own namespace rest (or_insert host namespace owners)

-- An owner that stands against a claim of the host.
is_foreign : Text → Text → Text × Text → Bool
unfolding overlap
is_foreign namespace host (other, owner) = not (text_eq owner namespace) && overlap host other

check_host : Text → List (Text × Text) → Text → Result String (Unit {0})
unfolding is_foreign
check_host namespace owners host =
    ensure (not (any (is_foreign namespace host) owners)) "domain belongs to another namespace"

claim_hosts : Text → List Text → List (Text × Text) → Result String (List (Text × Text))
unfolding own check_host
claim_hosts namespace names owners = do
  each (check_host namespace owners) names
  ok (own namespace names owners)

pub claim :
    Text → IngressSpec → Option Grants → List (Text × Text) → Result String (List (Text × Text))
unfolding claim_hosts hosts authorize
claim namespace spec (some grants) owners = authorize grants namespace (hosts spec) >> ok owners
claim namespace spec none owners = claim_hosts namespace (hosts spec) owners
