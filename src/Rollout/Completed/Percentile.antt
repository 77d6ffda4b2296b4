-- ===== src/Rollout/Completed/Percentile.antt =====
-- The nearest-rank 95th percentile, by sorting, and its test by a count.
use rgnix.Base.{
  ltb, leb, if◌then◌else◌, ltb→lt, Bool-cases, unwrap_or, from_bool, length, get_elem?, sum_of, All,
  ℕ, zero, suc, ◌+◌, ◌-◌, ◌*◌, ◌/◌, ◌≤◌, ◌<◌, ◌≡◌, refl, ap, ◌∙◌, ◌↔◌, inl, inr, List, [], ◌∷◌,
  arith,
}

abbrev pub insert_sorted : ℕ → List ℕ → List ℕ
insert_sorted a [] = a ∷ []
insert_sorted a (x ∷ xs) = if leb a x then a ∷ x ∷ xs else x ∷ insert_sorted a xs

abbrev pub sort : List ℕ → List ℕ
sort [] = []
sort (x ∷ xs) = insert_sorted x (sort xs)

-- The value of rank ⌈19 n / 20⌉, counted from one, in the sorted list.
abbrev pub p95 : List ℕ → ℕ
p95 xs = unwrap_or (get_elem? (sort xs) ((19 * length xs + 19) / 20 - 1)) 0

-- How many values lie above a limit.
abbrev pub above : ℕ → List ℕ → ℕ
above limit = sum_of (λ x. from_bool (ltb limit x))

abbrev IsSorted : List ℕ → Type 0
IsSorted [] = Unit {0}
IsSorted (x ∷ xs) = All (λ y. x ≤ y) xs × IsSorted xs

All-insert_sorted :
    (b a : ℕ) (xs : List ℕ) → b ≤ a → All (λ y. b ≤ y) xs → All (λ y. b ≤ y) (insert_sorted a xs)
All-insert_sorted b a [] h k = (h, tt)
All-insert_sorted b a (x ∷ xs) h k = ground (arith, All-insert_sorted b a xs h k.1)

All-le : (a b : ℕ) (xs : List ℕ) → a ≤ b → All (λ y. b ≤ y) xs → All (λ y. a ≤ y) xs
All-le a b [] h k = tt
All-le a b (x ∷ xs) h k = (omega arith, All-le a b xs h k.1)

insert_sorted-IsSorted : (a : ℕ) (xs : List ℕ) → IsSorted xs → IsSorted (insert_sorted a xs)
insert_sorted-IsSorted a [] s = (tt, tt)
insert_sorted-IsSorted a (x ∷ xs) (low, s) = elim (Bool-cases (leb a x)) [
  | inl small ↦ let h : a ≤ x = ground arith in rw small ((h, All-le a x xs h low), (low, s))
  | inr large ↦
      rw large (All-insert_sorted x a xs (ground arith) low, insert_sorted-IsSorted a xs s)
]

sort-IsSorted : (xs : List ℕ) → IsSorted (sort xs)
sort-IsSorted [] = tt
sort-IsSorted (x ∷ xs) = insert_sorted-IsSorted x (sort xs) (sort-IsSorted xs)

above-insert_sorted :
    (limit a : ℕ) (xs : List ℕ)
    → above limit (insert_sorted a xs) ≡ from_bool (ltb limit a) + above limit xs
above-insert_sorted limit a [] = refl
above-insert_sorted limit a (x ∷ xs) = ground (arith, above-insert_sorted limit a xs)

above-sort : (limit : ℕ) (xs : List ℕ) → above limit (sort xs) ≡ above limit xs
above-sort limit [] = refl
above-sort limit (x ∷ xs) =
    above-insert_sorted limit x (sort xs) ∙ ap (◌+◌ (from_bool (ltb limit x))) (above-sort limit xs)

length-insert_sorted : (a : ℕ) (xs : List ℕ) → length (insert_sorted a xs) ≡ suc (length xs)
length-insert_sorted a [] = refl
length-insert_sorted a (x ∷ xs) = ground (arith, length-insert_sorted a xs)

length-sort : (xs : List ℕ) → length (sort xs) ≡ length xs
length-sort [] = refl
length-sort (x ∷ xs) = length-insert_sorted x (sort xs) ∙ ap suc (length-sort xs)

above-le-length : (limit : ℕ) (xs : List ℕ) → above limit xs ≤ length xs
above-le-length limit [] = omega arith
above-le-length limit (x ∷ xs) = ground (arith, above-le-length limit xs)

above-All :
    (limit b : ℕ) (xs : List ℕ) → limit < b → All (λ y. b ≤ y) xs → above limit xs ≡ length xs
above-All limit b [] h k = refl
above-All limit b (x ∷ xs) h k = ground (arith, above-All limit b xs h k.1)

-- In a sorted list the value at a place is above the limit when enough values are.
at_above :
    (limit k : ℕ) (xs : List ℕ)
    → IsSorted xs
    → k < length xs
    → (limit < unwrap_or (get_elem? xs k) 0) ↔ (length xs ≤ above limit xs + k)
at_above limit k [] s h = absurd (omega arith)
at_above limit zero (x ∷ xs) (low, s) h =
    ground (arith, above-All limit x xs, above-le-length limit xs)
at_above limit (suc k) (x ∷ xs) (low, s) h =
    let rest = at_above limit k xs s (omega arith) in
    elim (Bool-cases (ltb limit x)) [
      | inl over ↦
          let all_over = above-All limit x xs (ltb→lt limit x over) low in
          ground (arith, rest, all_over)
      | inr under ↦ ground (arith, rest)
    ]

-- The nearest-rank 95th percentile of a sample is above a limit exactly when more than a twentieth
-- of the values, rounded down, are: no sorting is needed to see it.
pub p95-above : (limit : ℕ) (xs : List ℕ) → (limit < p95 xs) ↔ (length xs / 20 < above limit xs)
p95-above limit [] = ground arith
p95-above limit (x ∷ xs) =
    let n = length (x ∷ xs) in
    let i = (19 * n + 19) / 20 - 1 in
    let size = length-sort (x ∷ xs) in
    let place = at_above limit i (sort (x ∷ xs)) (sort-IsSorted (x ∷ xs)) (omega arith) in
    let same = above-sort limit (x ∷ xs) in
    (λ h. omega (arith, place.0 h, size, same), λ h. place.1 (omega (arith, size, same)))
