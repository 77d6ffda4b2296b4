-- ===== src/Tenancy/Domains/Exclusive.antt =====
-- src/tenancy/domains.rs: the owners that claims without grants leave.
use rgnix.Base.{
  Bool-cases, Option-cases, any, All, Text, text_eq, text_eq_iff, text_is_eq, lookup, or_insert,
  lookup-or_insert, each, >>-eq-ok, ok, ◌≡◌, sym, ap, ◌∙◌, ◌⊎◌, inl, inr, Bool, true, false, none,
  some, List, [], ◌∷◌, arith,
}
use rgnix.Tenancy.Domains.{
  overlap, IngressSpec, hosts, own, is_foreign, check_host, claim_hosts, claim,
}

-- Owners of domains that overlap are the same.
abbrev pub IsExclusive : List (Text × Text) → Type 0
IsExclusive owners =
    (h k n m : Text)
    → lookup h owners ≡ some n
    → lookup k owners ≡ some m
    → overlap h k ≡ true
    → n ≡ m

overlap_comm : (h k : Text) → overlap h k ≡ overlap k h
unfolding overlap
overlap_comm h k = ground arith

-- What no entry of a map satisfies, none that it holds at a key does.
any-lookup :
    (p : Text × Text → Bool) (owners : List (Text × Text)) (k m : Text)
    → any p owners ≡ false
    → lookup k owners ≡ some m
    → p (k, m) ≡ false
any-lookup p [] k m h at = absurd (ground arith)
any-lookup p ((j, o) ∷ owners) k m h at = elim (Bool-cases (text_eq j k)) [
  | inl same ↦
      let here : j ≡ k = (text_eq_iff j k).0 same in
      let owner : o ≡ m = ground arith in
      let refused : p (j, o) ≡ false = ground arith in rw (← here, ← owner) refused
  | inr other ↦ any-lookup p owners k m (ground arith) (ground arith)
]

-- A host that the namespace may claim overlaps with its own domains only.
abbrev IsFree : Text → List (Text × Text) → Text → Type 0
IsFree namespace owners host =
    (k m : Text) → lookup k owners ≡ some m → overlap host k ≡ true → m ≡ namespace

any-IsFree :
    (namespace host : Text) (owners : List (Text × Text))
    → any (is_foreign namespace host) owners ≡ false
    → IsFree namespace owners host
unfolding is_foreign
any-IsFree namespace host owners none_foreign k m at meets =
    let this : is_foreign namespace host (k, m) ≡ false =
      any-lookup (is_foreign namespace host) owners k m none_foreign at in
    (text_eq_iff m namespace).0 (ground arith)

-- An owner after a claim of a host is an old one, or the claimant at that host.
owner-cases :
    (namespace host k m : Text) (owners : List (Text × Text))
    → lookup k (or_insert host namespace owners) ≡ some m
    → (lookup k owners ≡ some m) ⊎ ((host ≡ k) × (m ≡ namespace))
owner-cases namespace host k m owners at = elim (Bool-cases (text_eq host k)) [
  | inl same ↦
      let here : host ≡ k = (text_eq_iff host k).0 same in
      elim (Option-cases (lookup host owners)) [
        | inl missing ↦ inr (here, ground (arith, lookup-or_insert host k namespace owners))
        | inr (o, there) ↦
            let owner : o ≡ m = ground (arith, lookup-or_insert host k namespace owners) in
            inl (rw (← here) (there ∙ ap some owner))
      ]
  | inr other ↦ inl (ground (arith, lookup-or_insert host k namespace owners))
]

or_insert-IsFree :
    (namespace host other : Text) (owners : List (Text × Text))
    → IsFree namespace owners host
    → IsFree namespace (or_insert other namespace owners) host
or_insert-IsFree namespace host other owners free k m at meets =
    elim (owner-cases namespace other k m owners at) [
      | inl old ↦ free k m old meets
      | inr claimed ↦ claimed.1
    ]

or_insert-All-IsFree :
    (namespace host : Text) (owners : List (Text × Text)) (names : List Text)
    → All (IsFree namespace owners) names
    → All (IsFree namespace (or_insert host namespace owners)) names
or_insert-All-IsFree namespace host owners [] free = tt
or_insert-All-IsFree namespace host owners (n ∷ names) free = (
  or_insert-IsFree namespace n host owners free.0,
  or_insert-All-IsFree namespace host owners names free.1,
)

or_insert-IsExclusive :
    (namespace host : Text) (owners : List (Text × Text))
    → IsFree namespace owners host
    → IsExclusive owners
    → IsExclusive (or_insert host namespace owners)
or_insert-IsExclusive namespace host owners free ex h k n m at_h at_k meets =
    elim (owner-cases namespace host h n owners at_h) [
      | inl old_h ↦ elim (owner-cases namespace host k m owners at_k) [
        | inl old_k ↦ ex h k n m old_h old_k meets
        | inr (is_k, by_k) ↦
            let other_way : overlap host h ≡ true = rw is_k (overlap_comm k h ∙ meets) in
            free h n old_h other_way ∙ sym by_k
      ]
      | inr (is_h, by_h) ↦ elim (owner-cases namespace host k m owners at_k) [
        | inl old_k ↦ by_h ∙ sym (free k m old_k (rw is_h meets))
        | inr (is_k, by_k) ↦ by_h ∙ sym by_k
      ]
    ]

own-IsExclusive :
    (namespace : Text) (names : List Text) (owners : List (Text × Text))
    → All (IsFree namespace owners) names
    → IsExclusive owners
    → IsExclusive (own namespace names owners)
unfolding own
own-IsExclusive namespace [] owners free ex = ex
own-IsExclusive namespace (host ∷ rest) owners free ex =
    own-IsExclusive namespace rest (or_insert host namespace owners)
      (or_insert-All-IsFree namespace host owners rest free.1)
      (or_insert-IsExclusive namespace host owners free.0 ex)

each-IsFree :
    (namespace : Text) (names : List Text) (owners : List (Text × Text))
    → each (check_host namespace owners) names ≡ ok tt
    → All (IsFree namespace owners) names
unfolding check_host
each-IsFree namespace [] owners h = tt
each-IsFree namespace (host ∷ rest) owners h =
    let (this, others) = >>-eq-ok (check_host namespace owners host) _ h in
    (any-IsFree namespace host owners (ground arith), each-IsFree namespace rest owners others)

-- A claim that is accepted without grants leaves the owners exclusive: any two owned domains that
-- overlap have the same owner, if that held before.
pub claim-IsExclusive :
    (namespace : Text) (spec : IngressSpec) (owners owners' : List (Text × Text))
    → IsExclusive owners
    → claim namespace spec none owners ≡ ok owners'
    → IsExclusive owners'
unfolding claim claim_hosts
claim-IsExclusive namespace spec owners owners' ex h =
    let (free, result) = >>-eq-ok (each (check_host namespace owners) (hosts spec)) _ h in
    let same : own namespace (hosts spec) owners ≡ owners' = ground arith in
    let done : IsExclusive (own namespace (hosts spec) owners) =
      own-IsExclusive namespace (hosts spec) owners (each-IsFree namespace (hosts spec) owners free)
        ex in
    rw same at done
