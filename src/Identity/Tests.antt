-- ===== src/Identity/Tests.antt =====
-- A chain of one-byte addresses behind a trusted network.
use rgnix.Base.{
  Text, codes, text_eq, strip_prefix, strip_suffix, split_on, split_once, ◌≡◌, refl, ◌⊎◌, Bool,
  true, false, Option, none, some, List, [], ◌∷◌,
}
use rgnix.Net.{IpAddr, v4, v6}
use rgnix.Identity.{IdentityPolicy, Reader, resolve}
use rgnix.Identity.Forged.{resolve_forged}

-- A letter is the address of that byte.
abbrev one_letter : Text → Option IpAddr
one_letter [] = none
one_letter (c ∷ []) = some (v4 (c ∷ []))
one_letter (c ∷ d ∷ s) = none

abbrev letters : Reader
letters = record { trim = λ s. s; to_str = some; parse_ip = one_letter; parse_socket = λ s. none }

abbrev holds : Text → IpAddr → Bool
holds net (v4 o) = text_eq net o
holds net (v6 o) = false

abbrev behind : IdentityPolicy Text
behind = record {
  trusted = codes "p" ∷ codes "q" ∷ [];
  header = codes "x-forwarded-for";
  recursive = true;
  access = [];
}

abbrev chain_of : Text → List Text
chain_of name = codes "c,q" ∷ []

resolve_tests :
    (resolve letters holds behind (v4 (codes "p")) chain_of none ≡ v4 (codes "c"))
    × (resolve letters holds behind (v4 (codes "x")) chain_of none ≡ v4 (codes "x"))
    × (resolve letters holds behind (v4 (codes "p")) (λ name. codes "c,,q" ∷ []) none
        ≡ v4 (codes "p"))
    × (resolve letters holds
          (record behind { header = codes "forwarded" })
          (v4 (codes "p"))
          (λ name. codes "for=c;by=q" ∷ [])
          none
        ≡ v4 (codes "c"))
unfolding resolve split_on split_once strip_prefix strip_suffix
resolve_tests = (refl, refl, refl, refl)

resolve_forged_example :
    let with_forged =
      resolve letters holds behind (v4 (codes "p")) (λ name. codes "a" ∷ chain_of name) none in
    (with_forged ≡ resolve letters holds behind (v4 (codes "p")) chain_of none)
    ⊎ (with_forged ≡ v4 (codes "p"))
unfolding resolve split_on strip_prefix strip_suffix
resolve_forged_example =
    resolve_forged letters holds behind (v4 (codes "p")) chain_of none (codes "a" ∷ []) refl refl
      refl
