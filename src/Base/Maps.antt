-- ===== src/Base/Maps.antt =====
-- Maps as association lists, in which a key stands at most once when all writes go by `insert`.
use Prim.Native.Nat.{suc, ◌≤◌}
use mathlib.Core.Path.{◌≡◌, refl}
use mathlib.Core.Logic.{inl, inr}
use mathlib.Core.Bool.{Bool}
use mathlib.Core.List.{List, [], ◌∷◌}
use mathlib.Core.Option.{Option, none, some}
use native.Mathlib.Omega.{arith}
use rgnix.Base.Tests.{if◌then◌else◌, Eq, is_some, Bool-cases, unwrap_or}
use rgnix.Base.Lists.{length}

-- What a retained map holds at a key.
abbrev pub kept_if {ℓ} : {V : Type ℓ} → Bool → V → Option V
kept_if b v = if b then some v else none

module _ {ℓ κ} {K : Type ℓ} {V : Type κ} ⦃e : Eq K⦄ where
  abbrev pub lookup : K → List (K × V) → Option V
  lookup k [] = none
  lookup k ((j, v) ∷ m) = if e.beq j k then some v else lookup k m

  abbrev pub insert : K → V → List (K × V) → List (K × V)
  insert k v [] = (k, v) ∷ []
  insert k v ((j, w) ∷ m) = if e.beq j k then (j, v) ∷ m else (j, w) ∷ insert k v m

  abbrev pub contains_key : K → List (K × V) → Bool
  contains_key k m = is_some (lookup k m)

  -- `entry(k).or_insert(v)`
  abbrev pub or_insert : K → V → List (K × V) → List (K × V)
  or_insert k v m = if is_some (lookup k m) then m else insert k v m

  pub lookup-insert :
      (k j : K) (v : V) (m : List (K × V))
      → lookup j (insert k v m) ≡ (if e.beq k j then some v else lookup j m)
  lookup-insert k j v [] = refl
  lookup-insert k j v ((i, w) ∷ m) =
      ground (arith, e.beq_iff k j, e.beq_iff i k, e.beq_iff i j, lookup-insert k j v m)

  pub lookup-insert_self : (k : K) (v : V) (m : List (K × V)) → lookup k (insert k v m) ≡ some v
  lookup-insert_self k v m = ground (arith, lookup-insert k k v m, e.beq_iff k k)

  pub lookup-or_insert :
      (k j : K) (v : V) (m : List (K × V))
      → lookup j (or_insert k v m)
        ≡ (if e.beq k j then some (unwrap_or (lookup k m) v) else lookup j m)
  lookup-or_insert k j v m = ground (arith, lookup-insert k j v m, e.beq_iff k j)

  pub length-insert :
      (k : K) (v : V) (m : List (K × V))
      → length (insert k v m) ≡ (if is_some (lookup k m) then length m else suc (length m))
  length-insert k v [] = refl
  length-insert k v ((j, w) ∷ m) = ground (arith, length-insert k v m)

  -- `retain(|k, v| ..)`
  abbrev pub retain_entries : (K → V → Bool) → List (K × V) → List (K × V)
  retain_entries p [] = []
  retain_entries p ((j, v) ∷ m) = if p j v then (j, v) ∷ retain_entries p m else retain_entries p m

  -- No key stands twice.
  abbrev pub IsUnique : List (K × V) → Type κ
  IsUnique [] = Unit
  IsUnique ((j, v) ∷ m) = (lookup j m ≡ none) × IsUnique m

  pub insert-IsUnique : (k : K) (v : V) (m : List (K × V)) → IsUnique m → IsUnique (insert k v m)
  insert-IsUnique k v [] u = (refl, tt)
  insert-IsUnique k v ((j, w) ∷ m) (fresh, u) = elim (Bool-cases (e.beq j k)) [
    | inl same ↦ rw same (fresh, u)
    | inr other ↦ rw other (
      ground (arith, lookup-insert k j v m, e.beq_iff k j, e.beq_iff j k),
      insert-IsUnique k v m u,
    )
  ]

  lookup-retain_entries-none :
      (p : K → V → Bool) (k : K) (m : List (K × V))
      → lookup k m ≡ none
      → lookup k (retain_entries p m) ≡ none
  lookup-retain_entries-none p k [] h = refl
  lookup-retain_entries-none p k ((j, w) ∷ m) h = ground (arith, lookup-retain_entries-none p k m)

  pub retain_entries-IsUnique :
      (p : K → V → Bool) (m : List (K × V)) → IsUnique m → IsUnique (retain_entries p m)
  retain_entries-IsUnique p [] u = tt
  retain_entries-IsUnique p ((j, w) ∷ m) (fresh, u) = elim (Bool-cases (p j w)) [
    | inl kept ↦ rw kept (lookup-retain_entries-none p j m fresh, retain_entries-IsUnique p m u)
    | inr gone ↦ rw gone (retain_entries-IsUnique p m u)
  ]

  pub lookup-retain_entries :
      (p : K → V → Bool) (k : K) (m : List (K × V))
      → IsUnique m
      → lookup k (retain_entries p m)
        ≡ elim (lookup k m) [ none ↦ none | some v ↦ kept_if (p k v) v ]
  lookup-retain_entries p k [] u = refl
  lookup-retain_entries p k ((j, w) ∷ m) (fresh, u) = elim (Bool-cases (e.beq j k)) [
    | inl same ↦
        let at : j ≡ k = (e.beq_iff j k).0 same in
        let missing : lookup k m ≡ none = rw at at fresh in
        rw same (elim (Bool-cases (p j w)) [
          | inl kept ↦ rw (kept, same) (rw (← at) (rw kept))
          | inr gone ↦ rw gone (rw (lookup-retain_entries-none p k m missing) (rw (← at) (rw gone)))
        ])
    | inr other ↦ rw other (ground (arith, lookup-retain_entries p k m u))
  ]

  pub length-retain_entries-le :
      (p : K → V → Bool) (m : List (K × V)) → length (retain_entries p m) ≤ length m
  length-retain_entries-le p [] = omega arith
  length-retain_entries-le p ((j, w) ∷ m) = ground (arith, length-retain_entries-le p m)
