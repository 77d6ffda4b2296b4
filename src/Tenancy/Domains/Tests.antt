-- ===== src/Tenancy/Domains/Tests.antt =====
-- Examples of claims and grants of domains.
use rgnix.Base.{
  Text, codes, strip_prefix, starts_with, strip_suffix, split_on, err, ◌≡◌, refl, true, false, none,
  some, List, [], ◌∷◌, arith,
}
use rgnix.Tenancy.Domains.{
  Grants, one_label, covers, same_names, validate_grants, IngressSpec, hosts, claim,
}
use rgnix.Tenancy.Domains.Agree.{validate_grants-agree}
use rgnix.Tenancy.Domains.Exclusive.{IsExclusive, claim-IsExclusive}

abbrev blue_shop : List (Text × Text)
blue_shop = (codes "shop.example", codes "blue") ∷ []

abbrev wildcard_spec : IngressSpec
wildcard_spec = record { rules = some (codes "*.Example") ∷ []; tls = []; default_backend = false }

cover_tests :
    (covers (codes "*.example") (codes "shop.example") ≡ true)
    × (covers (codes "*.example") (codes "a.shop.example") ≡ false)
    × (covers (codes "*.example") (codes ".example") ≡ false)
unfolding covers one_label starts_with strip_prefix strip_suffix
cover_tests = (refl, refl, refl)

claim_tests :
    claim (codes "green") wildcard_spec none blue_shop ≡ err "domain belongs to another namespace"
unfolding claim hosts covers one_label starts_with strip_prefix strip_suffix
claim_tests = refl

claim-IsExclusive_example :
    IsExclusive ((codes "shop.example", codes "blue") ∷ (codes "*.example", codes "blue") ∷ [])
unfolding claim hosts covers one_label starts_with strip_prefix strip_suffix
claim-IsExclusive_example =
    claim-IsExclusive (codes "blue") wildcard_spec blue_shop
      ((codes "shop.example", codes "blue") ∷ (codes "*.example", codes "blue") ∷ [])
      (λ h k n m at_h at_k meets. ground arith) refl

abbrev shared_grants : Grants
shared_grants =
    (codes "*.example", codes "blue" ∷ codes "green" ∷ [])
    ∷ (codes "shop.example", codes "green" ∷ codes "blue" ∷ [])
    ∷ []

validate_grants-agree_example :
    same_names (codes "green" ∷ codes "blue" ∷ []) (codes "blue" ∷ codes "green" ∷ []) ≡ true
unfolding validate_grants covers one_label starts_with strip_prefix strip_suffix split_on
validate_grants-agree_example =
    validate_grants-agree shared_grants 0 1 (codes "*.example", codes "blue" ∷ codes "green" ∷ [])
      (codes "shop.example", codes "green" ∷ codes "blue" ∷ []) refl (omega arith) refl refl refl
