-- ===== src/Compression/Refused.antt =====
-- src/compression.rs: encodings that a client refuses.
use rgnix.Base.{
  ltb, ◌==◌, Bool-cases, Option-cases, length, Text, codes, split_on, ℕ, ◌+◌, ◌≡◌, refl, ap, ◌≢◌,
  inl, inr, false, Option, none, some, List, [], ◌∷◌, ◌++◌, arith,
}
use rgnix.Compression.{
  Compression, Encoding, br, gzip, Qualities, no_qualities, Index, at_br, at_gzip, at_any,
  at_identity, index_of, lowest, note, choose, item_quality, name_and_rest, read_item, read_items,
  read_values, negotiated_encoding,
}

abbrev pub place : Encoding → Index
place br = at_br
place gzip = at_gzip

abbrev quality_in : Encoding → Qualities → Option ℕ
quality_in br s = s.q_br
quality_in gzip s = s.q_gzip

note-refused :
    (e : Encoding) (i : Index) (q : ℕ) (s : Qualities)
    → quality_in e s ≡ some 0
    → quality_in e (note i q s) ≡ some 0
note-refused br at_br q s h = rw h (ap some (omega arith))
note-refused br at_gzip q s h = h
note-refused br at_any q s h = h
note-refused br at_identity q s h = h
note-refused gzip at_br q s h = h
note-refused gzip at_gzip q s h = rw h (ap some (omega arith))
note-refused gzip at_any q s h = h
note-refused gzip at_identity q s h = h

lowest-zero : (o : Option ℕ) → some (lowest o 0) ≡ some 0
lowest-zero none = refl
lowest-zero (some old) = ap some (omega arith)

note-refuses : (e : Encoding) (s : Qualities) → quality_in e (note (place e) 0 s) ≡ some 0
note-refuses br s = lowest-zero s.q_br
note-refuses gzip s = lowest-zero s.q_gzip

choose-refused :
    (e : Encoding) (policy : Compression) (s : Qualities)
    → quality_in e s ≡ some 0
    → choose policy s ≢ some e
choose-refused br policy s h chosen = ground (h, chosen, arith)
choose-refused gzip policy s h chosen = ground (h, chosen, arith)

module _ (trim : Text → Text) (to_str : Text → Option Text) where
  -- An item with the name of an encoding and the quality 0.
  abbrev pub Refuses : Encoding → Text → Type 0
  Refuses e item =
      ((length (name_and_rest trim to_str item).0 == 0) ≡ false)
      × (index_of (name_and_rest trim to_str item).0 ≡ some (place e))
      × (item_quality trim to_str (name_and_rest trim to_str item).1 ≡ some 0)

  abbrev Refused : Encoding → Option Qualities → Type 0
  Refused e none = Unit {0}
  Refused e (some s) = quality_in e s ≡ some 0

  read_item-Refused :
      (e : Encoding) (item : Text) (s : Qualities)
      → quality_in e s ≡ some 0
      → Refused e (read_item trim to_str item s)
  unfolding read_item
  read_item-Refused e item s h =
      elim (Bool-cases (length (name_and_rest trim to_str item).0 == 0)) [
        | inl empty ↦ rw (empty, Refused) h
        | inr other ↦
            rw (other, Refused)
              (elim (Option-cases (item_quality trim to_str (name_and_rest trim to_str item).1)) [
                | inl bad ↦ rw (bad, Refused) tt
                | inr (q, good) ↦
                    rw (good, Refused)
                      (elim (Option-cases (index_of (name_and_rest trim to_str item).0)) [
                        | inl unknown ↦ rw (unknown, Refused) h
                        | inr (i, known) ↦ rw (known, Refused) (note-refused e i q s h)
                      ])
              ])
      ]

  read_item-Refuses :
      (e : Encoding) (item : Text) (s : Qualities)
      → Refuses e item
      → Refused e (read_item trim to_str item s)
  unfolding read_item
  read_item-Refuses e item s r = rw (r.0, r.2, r.1, Refused) (note-refuses e s)

  read_items-Refused :
      (e : Encoding) (items : List Text) (s : Qualities)
      → quality_in e s ≡ some 0
      → Refused e (read_items trim to_str items s)
  unfolding read_items
  read_items-Refused e [] s h = h
  read_items-Refused e (item ∷ items) s h =
      let k : Refused e (read_item trim to_str item s) = read_item-Refused e item s h in
      elim (Option-cases (read_item trim to_str item s)) [
        | inl bad ↦ rw (bad, Refused) tt
        | inr (t, good) ↦
            rw (good, Refused) (read_items-Refused e items t (rw (good, Refused) at k))
      ]

  read_items-Refuses :
      (e : Encoding) (xs : List Text) (item : Text) (ys : List Text) (s : Qualities)
      → Refuses e item
      → Refused e (read_items trim to_str (xs ++ item ∷ ys) s)
  unfolding read_items
  read_items-Refuses e [] item ys s r =
      let k : Refused e (read_item trim to_str item s) = read_item-Refuses e item s r in
      elim (Option-cases (read_item trim to_str item s)) [
        | inl bad ↦ rw (bad, Refused) tt
        | inr (t, good) ↦ rw (good, Refused) (read_items-Refused e ys t (rw (good, Refused) at k))
      ]
  read_items-Refuses e (x ∷ xs) item ys s r = elim (Option-cases (read_item trim to_str x s)) [
    | inl bad ↦ rw (bad, Refused) tt
    | inr (t, good) ↦ rw (good, Refused) (read_items-Refuses e xs item ys t r)
  ]

  read_values-Refused :
      (e : Encoding) (bytes : ℕ) (values : List Text) (s : Qualities)
      → quality_in e s ≡ some 0
      → Refused e (read_values trim to_str bytes values s)
  unfolding read_values
  read_values-Refused e bytes [] s h = h
  read_values-Refused e bytes (value ∷ values) s h =
      elim (Bool-cases (ltb 8192 (bytes + length value))) [
        | inl long ↦ rw (long, Refused) tt
        | inr fits ↦
            rw (fits, Refused)
              (elim (Option-cases (to_str value)) [
                | inl bad ↦ rw (bad, Refused) tt
                | inr (text, good) ↦
                    let k : Refused e (read_items trim to_str (split_on b',' text) s) =
                      read_items-Refused e (split_on b',' text) s h in
                    rw (good, Refused)
                      (elim (Option-cases (read_items trim to_str (split_on b',' text) s)) [
                        | inl stops ↦ rw (stops, Refused) tt
                        | inr (t, goes) ↦
                            rw (goes, Refused)
                              (read_values-Refused e (bytes + length value) values t
                                (rw (goes, Refused) at k))
                      ])
              ])
      ]

  read_values-Refuses :
      (e : Encoding) (bytes : ℕ) (before : List Text) (value : Text) (after : List Text)
      (text : Text) (xs : List Text) (item : Text) (ys : List Text) (s : Qualities)
      → to_str value ≡ some text
      → split_on b',' text ≡ xs ++ item ∷ ys
      → Refuses e item
      → Refused e (read_values trim to_str bytes (before ++ value ∷ after) s)
  unfolding read_values
  read_values-Refuses e bytes [] value after text xs item ys s reads splits r =
      elim (Bool-cases (ltb 8192 (bytes + length value))) [
        | inl long ↦ rw (long, Refused) tt
        | inr fits ↦
            let k : Refused e (read_items trim to_str (xs ++ item ∷ ys) s) =
              read_items-Refuses e xs item ys s r in
            rw (fits, reads, splits, Refused)
              (elim (Option-cases (read_items trim to_str (xs ++ item ∷ ys) s)) [
                | inl stops ↦ rw (stops, Refused) tt
                | inr (t, goes) ↦
                    rw (goes, Refused)
                      (read_values-Refused e (bytes + length value) after t
                        (rw (goes, Refused) at k))
              ])
      ]
  read_values-Refuses e bytes (v ∷ before) value after text xs item ys s reads splits r =
      elim (Bool-cases (ltb 8192 (bytes + length v))) [
        | inl long ↦ rw (long, Refused) tt
        | inr fits ↦
            rw (fits, Refused)
              (elim (Option-cases (to_str v)) [
                | inl bad ↦ rw (bad, Refused) tt
                | inr (w, good) ↦
                    rw (good, Refused)
                      (elim (Option-cases (read_items trim to_str (split_on b',' w) s)) [
                        | inl stops ↦ rw (stops, Refused) tt
                        | inr (t, goes) ↦
                            rw (goes, Refused)
                              (read_values-Refuses e (bytes + length v) before value after text xs
                                item ys t reads splits r)
                      ])
              ])
      ]

  -- A client that lists an encoding with the quality 0 is not sent it, whatever else it lists.
  pub negotiated_encoding-refused :
      (e : Encoding) (headers : Text → List Text) (policy : Compression) (before : List Text)
      (value : Text) (after : List Text) (text : Text) (xs : List Text) (item : Text)
      (ys : List Text)
      → headers (codes "accept-encoding") ≡ before ++ value ∷ after
      → to_str value ≡ some text
      → split_on b',' text ≡ xs ++ item ∷ ys
      → Refuses e item
      → negotiated_encoding trim to_str headers policy ≢ some e
  unfolding negotiated_encoding
  negotiated_encoding-refused e headers policy before value after text xs item ys has reads splits
        r =
      let k : Refused e (read_values trim to_str 0 (before ++ value ∷ after) no_qualities) =
        read_values-Refuses e 0 before value after text xs item ys no_qualities reads splits r in
      elim (Option-cases (read_values trim to_str 0 (before ++ value ∷ after) no_qualities)) [
        | inl stops ↦ rw (negotiated_encoding, has, stops) (λ chosen. ground (chosen, arith))
        | inr (t, goes) ↦
            rw (negotiated_encoding, has, goes)
              (choose-refused e policy t (rw (goes, Refused) at k))
      ]
