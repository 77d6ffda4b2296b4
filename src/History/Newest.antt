-- ===== src/History/Newest.antt =====
-- src/history.rs: which revisions stay.
use rgnix.Base.{
  Bool-cases, Text, ok, ℕ, ◌≡◌, refl, sym, ap, ◌∙◌, subst, ◌⊎◌, inl, inr, true, false, some, List,
  [], ◌∷◌, ◌++◌, arith,
}
use rgnix.History.{Bundle, Revision, compiles, over, trim, last_is, record_snapshot}

module _ {Nodes : Type 0} (to_vec : Nodes → Text) where
  -- The last of the dropped revisions did not fit with those that stay.
  abbrev pub LastOver : List (Revision Nodes) → List (Revision Nodes) → Type 0
  LastOver [] kept = Unit {0}
  LastOver (r ∷ []) kept = over to_vec (r ∷ kept) ≡ true
  LastOver (r ∷ q ∷ rs) kept = LastOver (q ∷ rs) kept

  -- The old revisions without some of the oldest, and the new one.
  abbrev pub Keeps : List (Revision Nodes) → Revision Nodes → List (Revision Nodes) → Type 0
  Keeps old new after =
      (dropped : List (Revision Nodes)) × ((kept : List (Revision Nodes)) × ((old ≡ dropped ++ kept)
          × (after ≡ kept ++ new ∷ [])
          × (over to_vec after ≡ false)
          × LastOver dropped after))

  alone-over :
      (new : Revision Nodes) → compiles to_vec new.bundle ≡ true → over to_vec (new ∷ []) ≡ false
  alone-over new fits = ground (fits, arith)

  -- What no longer fitted before the next one went.
  last_lem :
      (r : Revision Nodes) (dropped kept : List (Revision Nodes))
      (old after : List (Revision Nodes)) (new : Revision Nodes)
      → over to_vec (r ∷ (old ++ new ∷ [])) ≡ true
      → old ≡ dropped ++ kept
      → after ≡ kept ++ new ∷ []
      → LastOver dropped after
      → LastOver (r ∷ dropped) after
  last_lem r [] kept old after new bad split is h =
      let same : old ++ new ∷ [] ≡ after = ap (λ z. z ++ new ∷ []) split ∙ sym is in
      subst (λ z. over to_vec (r ∷ z) ≡ true) same bad
  last_lem r (d ∷ dropped) kept old after new bad split is h = h

  trim-Keeps :
      (old : List (Revision Nodes)) (new : Revision Nodes)
      → compiles to_vec new.bundle ≡ true
      → Keeps old new (trim to_vec (old ++ new ∷ []))
  unfolding trim
  trim-Keeps [] new fits =
      rw (alone-over new fits) ([], ([], (refl, refl, alone-over new fits, tt)))
  trim-Keeps (r ∷ old) new fits = elim (Bool-cases (over to_vec (r ∷ (old ++ new ∷ [])))) [
    | inr good ↦ rw good ([], (r ∷ old, (refl, refl, good, tt)))
    | inl bad ↦
        let k : Keeps old new (trim to_vec (old ++ new ∷ [])) = trim-Keeps old new fits in
        rw bad (
          r ∷ k.0,
          (
            k.1.0,
            (
              ap (λ z. r ∷ z) k.1.1.0,
              k.1.1.1,
              k.1.1.2,
              last_lem r k.0 k.1.0 old _ new bad k.1.1.0 k.1.1.1 k.1.1.3,
            ),
          ),
        )
  ]

  -- Recording the snapshot of a bundle that compiles keeps it as the newest revision, drops only the
  -- oldest, stays within nine revisions, 32 MiB of assets and 8 MiB of configuration, and drops none
  -- that would fit; a snapshot of the newest version changes nothing.
  pub record_snapshot-Keeps :
      (version : ℕ) (bundle : Bundle Nodes) (old after : List (Revision Nodes))
      → compiles to_vec bundle ≡ true
      → record_snapshot to_vec version (some bundle) old ≡ ok after
      → ((last_is to_vec version old ≡ true) × (after ≡ old))
        ⊎ Keeps old (record { version = version; bundle = bundle }) after
  unfolding record_snapshot
  record_snapshot-Keeps version bundle old after fits done =
      elim (Bool-cases (last_is to_vec version old)) [
        | inl same ↦ let is : old ≡ after = ground (rw same at done, arith) in inl (same, sym is)
        | inr newer ↦
            let is : trim to_vec (old ++ record { version = version; bundle = bundle } ∷ [])
                ≡ after =
              ground (rw newer at done, arith) in
            inr (
              subst (λ z. Keeps old (record { version = version; bundle = bundle }) z) is
                (trim-Keeps old (record { version = version; bundle = bundle }) fits))
      ]
