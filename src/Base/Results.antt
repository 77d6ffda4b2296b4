-- ===== src/Base/Results.antt =====
-- Fallible results. An `anyhow` error is its message, an HTTP error its status.
use mathlib.Core.Path.{◌≡◌, refl}
use mathlib.Core.Bool.{Bool, true, false}
use mathlib.Core.List.{List, [], ◌∷◌}
use mathlib.Core.Option.{Option, none, some}

pub data Result {ℓ} (E : Type 0) (A : Type ℓ) : Type ℓ where
  ok : A → Result E A
  err : E → Result E A

module _ {E : Type 0} where
  infixl 5 ◌>>◌
  abbrev pub ◌>>◌ {ℓ} : {B : Type ℓ} → Result E (Unit {0}) → Result E B → Result E B
  ok done >> next = next
  err why >> next = err why

  -- `?`: the chain goes on with a value and ends at an error.
  infixl 5 ◌>>=◌
  abbrev pub ◌>>=◌ {κ ℓ} : {B : Type κ} {A : Type ℓ} → Result E B → (B → Result E A) → Result E A
  ok value >>= next = next value
  err why >>= next = err why

  abbrev pub ensure : Bool → E → Result E (Unit {0})
  ensure true e = ok tt
  ensure false e = err e

  abbrev pub ok_or {ℓ} : {A : Type ℓ} → Option A → E → Result E A
  ok_or none e = err e
  ok_or (some a) e = ok a

  -- A loop of checks over a collection: the first failure ends it.
  abbrev pub each {ℓ} : {A : Type ℓ} → (A → Result E (Unit {0})) → List A → Result E (Unit {0})
  each f [] = ok tt
  each f (x ∷ xs) = f x >> each f xs

  -- A chain that succeeds has a first result, from which the rest succeeds.
  pub >>=-eq-ok {ℓ κ} :
      {First : Type ℓ} {Last : Type κ} (r : Result E First) (next : First → Result E Last)
      {last : Last}
      → (r >>= next) ≡ ok last
      → (first : First) × (r ≡ ok first) × (next first ≡ ok last)
  >>=-eq-ok (err why) next done = cc
  >>=-eq-ok (ok first) next done = (first, refl, done)

  pub >>-eq-ok {ℓ} :
      {B : Type ℓ} (m : Result E (Unit {0})) (k : Result E B) {b : B}
      → (m >> k) ≡ ok b
      → (m ≡ ok tt) × (k ≡ ok b)
  >>-eq-ok (ok tt) k h = (refl, h)
  >>-eq-ok (err e) k h = cc

  pub ensure-eq-ok : (t : Bool) (e : E) → ensure t e ≡ ok tt → t ≡ true
  ensure-eq-ok true e h = refl
  ensure-eq-ok false e h = cc
