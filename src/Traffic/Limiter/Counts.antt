-- ===== src/Traffic/Limiter/Counts.antt =====
-- The counts of the permits that are out, and the operations that leave them.
use rgnix.Base.{
  if◌then◌else◌, Option-cases, Text, text_eq, text_eq_iff, text_is_eq, lookup, insert, contains_key,
  lookup-insert, IsUnique, insert-IsUnique, Result, ok, err, ℕ, ◌+◌, ◌-◌, ◌≡◌, refl, ◌∙◌, inl, inr,
  true, Option, none, some, List, [], ◌∷◌, arith,
}
use rgnix.Traffic.Limiter.{Bucket, Limiter, Buckets, release}

abbrev pub count : Text → List Text → ℕ
count k [] = 0
count k (p ∷ ps) = (if text_eq p k then 1 else 0) + count k ps

-- The permits that are out after a call.
abbrev pub granted : Result ℕ (Option Text) → List Text → List Text
granted (err status) ps = ps
granted (ok none) ps = ps
granted (ok (some id)) ps = id ∷ ps

-- One permit of a key is returned.
abbrev pub give_back : Text → List Text → List Text
give_back k [] = []
give_back k (p ∷ ps) = if text_eq p k then ps else p ∷ give_back k ps

count-give_back :
    (k j : Text) (ps : List Text)
    → count j (give_back k ps) ≡ (if text_eq k j then count j ps - 1 else count j ps)
count-give_back k j [] = ground arith
count-give_back k j (p ∷ ps) =
    ground (arith, count-give_back k j ps, text_eq_iff p k, text_eq_iff p j, text_eq_iff k j)

module _ {Float : Type 0} where
  abbrev pub active_at : Text → Buckets Float → ℕ
  active_at k m = elim (lookup k m) [ none ↦ 0 | some b ↦ b.active ]

  -- Each bucket counts the permits of its key, and no key has two buckets.
  pub record Counted (l : Limiter Float) (ps : List Text) : Type 0 where
    pub unique : IsUnique l.buckets
    pub counts : (k : Text) → active_at k l.buckets ≡ count k ps

  -- A stage that leaves all counts as they were.
  pub record Keeps (m m' : Buckets Float) : Type 0 where
    pub unique : IsUnique m'
    pub same : (k : Text) → active_at k m' ≡ active_at k m

  pub active_at-insert :
      (id k : Text) (b : Bucket Float) (m : Buckets Float)
      → active_at k (insert id b m) ≡ (if text_eq id k then b.active else active_at k m)
  active_at-insert id k b m = ground (arith, lookup-insert id k b m)

  pub contains_key-insert :
      (id k : Text) (b : Bucket Float) (m : Buckets Float)
      → contains_key k m ≡ true
      → contains_key k (insert id b m) ≡ true
  contains_key-insert id k b m h = ground (arith, lookup-insert id k b m)

  pub Keeps-refl : {m : Buckets Float} → IsUnique m → Keeps m m
  Keeps-refl u = record { unique = u; same = λ k. refl }

  pub Keeps-trans : {m m' m'' : Buckets Float} → Keeps m m' → Keeps m' m'' → Keeps m m''
  Keeps-trans a b = record { unique = b.unique; same = λ k. b.same k ∙ a.same k }

  pub insert-Keeps :
      (id : Text) (b : Bucket Float) (m : Buckets Float)
      → IsUnique m
      → b.active ≡ active_at id m
      → Keeps m (insert id b m)
  insert-Keeps id b m u h = record {
    unique = insert-IsUnique id b m u;
    same = λ k. ground (arith, active_at-insert id k b m, text_eq_iff id k);
  }

  pub release-Counted :
      (now : ℕ) (id : Text) (l : Limiter Float) (ps : List Text)
      → Counted l ps
      → Counted (release now id l) (give_back id ps)
  unfolding release
  release-Counted now id l ps c = elim (Option-cases (lookup id l.buckets)) [
    | inl missing ↦
        rw (missing, release)
          (record {
            unique = c.unique;
            counts = λ k. ground (arith, c.counts k, count-give_back id k ps, text_eq_iff id k);
          })
    | inr (b, found) ↦
        rw (found, release)
          (record {
            unique = insert-IsUnique id _ l.buckets c.unique;
            counts = λ k. ground (
              arith,
              c.counts k,
              count-give_back id k ps,
              active_at-insert id k (record b { active = b.active - 1; touched = now }) l.buckets,
              text_eq_iff id k,
            );
          })
  ]
