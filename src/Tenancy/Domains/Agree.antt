-- ===== src/Tenancy/Domains/Agree.antt =====
-- src/tenancy/domains.rs: the grants that `Domains::validate` accepts.
use rgnix.Base.{
  leb, length, get_elem?, take, Text, Result, ensure, each, >>-eq-ok, ok, ℕ, zero, suc, ◌<◌, String,
  ◌≡◌, refl, ◌∙◌, true, some, List, [], ◌∷◌, ◌++◌, append-nil, append_assoc, arith,
}
use rgnix.Tenancy.Domains.{
  Grants, overlap, same_names, agrees, check_grant, check_grants, validate_grants,
}

each-get_elem? :
    {A : Type 0} (f : A → Result String (Unit {0})) (xs : List A) (i : ℕ) {a : A}
    → each f xs ≡ ok tt
    → get_elem? xs i ≡ some a
    → f a ≡ ok tt
each-get_elem? f [] i h at = absurd (ground arith)
each-get_elem? f (x ∷ xs) zero h at =
    let here = (>>-eq-ok (f x) (each f xs) h).0 in
    let same : x ≡ _ = ground arith in rw same at here
each-get_elem? f (x ∷ xs) (suc i) h at = each-get_elem? f xs i (>>-eq-ok (f x) (each f xs) h).1 at

get_elem?-take : (xs : Grants) (i j : ℕ) → i < j → get_elem? (take j xs) i ≡ get_elem? xs i
get_elem?-take xs i zero h = absurd (omega arith)
get_elem?-take [] i (suc j) h = refl
get_elem?-take (x ∷ xs) zero (suc j) h = refl
get_elem?-take (x ∷ xs) (suc i) (suc j) h = get_elem?-take xs i j (omega arith)

check_grants-get_elem? :
    (before gs : Grants) (j : ℕ) {g : Text × List Text}
    → check_grants before gs ≡ ok tt
    → get_elem? gs j ≡ some g
    → check_grant g (before ++ take j gs) ≡ ok tt
unfolding check_grants
check_grants-get_elem? before [] j h at = absurd (ground arith)
check_grants-get_elem? before (x ∷ gs) zero {g} h at =
    let here : check_grant x before ≡ ok tt = (>>-eq-ok (check_grant x before) _ h).0 in
    let same : x ≡ g = ground arith in rw (append-nil before, ← same) here
check_grants-get_elem? before (x ∷ gs) (suc j) {g} h at =
    let later = (>>-eq-ok (check_grant x before) (check_grants (before ++ x ∷ []) gs) h).1 in
    let done : check_grant g ((before ++ x ∷ []) ++ take j gs) ≡ ok tt =
      check_grants-get_elem? (before ++ x ∷ []) gs j later at in
    rw (append_assoc before (x ∷ []) (take j gs)) at done

-- Of two grants of a list that `validate` accepts whose domains overlap, the later one names the
-- same namespaces as the earlier one.
pub validate_grants-agree :
    (grants : Grants) (i j : ℕ) (earlier later : Text × List Text)
    → validate_grants grants ≡ ok tt
    → i < j
    → get_elem? grants i ≡ some earlier
    → get_elem? grants j ≡ some later
    → overlap later.0 earlier.0 ≡ true
    → same_names later.1 earlier.1 ≡ true
unfolding validate_grants check_grant agrees
validate_grants-agree grants i j earlier later h order at_i at_j meets =
    let all_checked =
      (>>-eq-ok (ensure (leb (length grants) 4096) "at most 4096 domain grants")
        (check_grants [] grants) h).1 in
    let checked : check_grant later (take j grants) ≡ ok tt =
      check_grants-get_elem? [] grants j all_checked at_j in
    let loop : each (agrees later) (take j grants) ≡ ok tt =
      (>>-eq-ok _ (each (agrees later) (take j grants)) checked).1 in
    let one : agrees later earlier ≡ ok tt =
      each-get_elem? (agrees later) (take j grants) i loop
        (get_elem?-take grants i j order ∙ at_i) in
    ground arith
