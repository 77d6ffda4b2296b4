-- ===== src/Script/Blocks/Total.antt =====
-- src/script/syntax.rs: the fuel of the parser of blocks, and the tokens it leaves.
use rgnix.Base.{
  ltb, Bool-cases, length, codes, ℕ, zero, suc, ◌+◌, ◌*◌, ◌≤◌, ◌≡◌, refl, inl, inr, true, List,
  arith,
}
use rgnix.Script.{Token}
use rgnix.Script.Parse.{next_is, tail, expect, expr}
use rgnix.Script.Parse.Reads.{
  ended, Shorter, Reads, then-Reads, longer-Reads, tail-Shorter, expect-Reads,
}
use rgnix.Script.Parse.Total.{expr-Reads}
use rgnix.Script.Blocks.Reads.{
  declaration-Reads, returned-Reads, plain_statement-Reads, skip-Shorter, start-Shorter,
  Start-cases,
}
use rgnix.Script.Blocks.{next_among, block_ends, skip, block, statements, statement, branches}

mutual
  unfolding block statements statement branches

  pub block-Reads :
      (n level : ℕ) (ts : List Token)
      → ended ts ≡ true
      → 3 * length ts + 6 ≤ n
      → Reads 0 ts (block n level ts)
  block-Reads zero level ts e h = absurd (omega arith)
  block-Reads (suc n) level ts e h = elim (Bool-cases (ltb 64 (level + 1))) [
    | inl deep ↦ rw (deep, block) refl
    | inr fits ↦ rw (fits, block) (statements-Reads n (level + 1) ts e (omega arith))
  ]

  statements-Reads :
      (n level : ℕ) (ts : List Token)
      → ended ts ≡ true
      → 3 * length ts + 5 ≤ n
      → Reads 0 ts (statements n level ts)
  statements-Reads zero level ts e h = absurd (omega arith)
  statements-Reads (suc n) level ts e h = elim (Bool-cases (next_among block_ends ts)) [
    | inl ends ↦ rw (ends, statements) (e, omega arith)
    | inr more ↦
        rw (more, statements)
          (then-Reads 0 1 ts (statement n level ts) _ (statement-Reads n level ts e (omega arith))
            (λ s rest r.
              let k : Shorter 0 rest (skip (codes ";") rest) = skip-Shorter rest r.0 in
              then-Reads 0 0 ts (statements n level (skip (codes ";") rest)) _
                (longer-Reads 0 0 ts (skip (codes ";") rest) _
                  (statements-Reads n level (skip (codes ";") rest) k.0 (omega arith))
                  (omega arith))
                (λ ss last l. l)))
  ]

  statement-Reads :
      (n level : ℕ) (ts : List Token)
      → ended ts ≡ true
      → 3 * length ts + 4 ≤ n
      → Reads 1 ts (statement n level ts)
  statement-Reads zero level ts e h = absurd (omega arith)
  statement-Reads (suc n) level ts e h = elim (Start-cases ts) [
    | inl a ↦
        let s : Shorter 1 ts (tail ts) = start-Shorter ts e (λ x. ground (a, x, arith)) in
        rw (a, statement)
          (longer-Reads 0 1 ts (tail ts) _ (declaration-Reads n level (tail ts) s.0 (omega arith))
            (omega arith))
    | inr (inl b) ↦
        let s : Shorter 1 ts (tail ts) = start-Shorter ts e (λ x. ground (b, x, arith)) in
        rw (b, statement)
          (longer-Reads 0 1 ts (tail ts) _ (returned-Reads n level (tail ts) s.0 (omega arith))
            (omega arith))
    | inr (inr (inl c)) ↦
        let s : Shorter 1 ts (tail ts) = start-Shorter ts e (λ x. ground (c, x, arith)) in
        rw (c, statement)
          (then-Reads 1 1 ts (branches n level 1 (tail ts)) _
            (longer-Reads 1 1 ts (tail ts) _ (branches-Reads n level 1 (tail ts) s.0 (omega arith))
              (omega arith))
            (λ bs rest r. elim (Bool-cases (next_is (codes "else") rest)) [
              | inr no_other ↦ rw no_other (
                  then-Reads 1 1 ts (expect (codes "end") rest) _
                    (longer-Reads 1 1 ts rest _ (expect-Reads (codes "end") rest refl r.0)
                      (omega arith))
                    (λ u last l. l))
              | inl other ↦
                  let k : Shorter 1 rest (tail rest) =
                    tail-Shorter (codes "else") rest refl r.0 other in
                  rw other (
                    then-Reads 1 1 ts (block n level (tail rest)) _
                      (longer-Reads 0 1 ts (tail rest) _
                        (block-Reads n level (tail rest) k.0 (omega arith)) (omega arith))
                      (λ b more m.
                        then-Reads 1 1 ts (expect (codes "end") more) _
                          (longer-Reads 1 1 ts more _ (expect-Reads (codes "end") more refl m.0)
                            (omega arith))
                          (λ u last l. l)))
            ]))
    | inr (inr (inr (inl d))) ↦
        let s : Shorter 1 ts (tail ts) = start-Shorter ts e (λ x. ground (d, x, arith)) in
        rw (d, statement)
          (then-Reads 1 1 ts (expr n level 0 (tail ts)) _
            (longer-Reads 1 1 ts (tail ts) _ (expr-Reads n level 0 (tail ts) s.0 (omega arith))
              (omega arith))
            (λ x rest r.
              then-Reads 1 1 ts (expect (codes "do") rest) _
                (longer-Reads 1 1 ts rest _ (expect-Reads (codes "do") rest refl r.0) (omega arith))
                (λ u inner i.
                  then-Reads 1 1 ts (block n level inner) _
                    (longer-Reads 0 1 ts inner _ (block-Reads n level inner i.0 (omega arith))
                      (omega arith))
                    (λ b more m.
                      then-Reads 1 1 ts (expect (codes "end") more) _
                        (longer-Reads 1 1 ts more _ (expect-Reads (codes "end") more refl m.0)
                          (omega arith))
                        (λ v last l. l)))))
    | inr (inr (inr (inr other))) ↦
        rw (other, statement) (plain_statement-Reads n level ts e (omega arith))
  ]

  branches-Reads :
      (n level count : ℕ) (ts : List Token)
      → ended ts ≡ true
      → 3 * length ts + 6 ≤ n
      → Reads 1 ts (branches n level count ts)
  branches-Reads zero level count ts e h = absurd (omega arith)
  branches-Reads (suc n) level count ts e h =
      then-Reads 1 1 ts (expr n level 0 ts) _ (expr-Reads n level 0 ts e (omega arith)) (λ x rest r.
        then-Reads 1 1 ts (expect (codes "then") rest) _
          (longer-Reads 1 1 ts rest _ (expect-Reads (codes "then") rest refl r.0) (omega arith))
          (λ u inner i.
            then-Reads 1 1 ts (block n level inner) _
              (longer-Reads 0 1 ts inner _ (block-Reads n level inner i.0 (omega arith))
                (omega arith))
              (λ b more m. elim (Bool-cases (ltb 64 count)) [
                | inl many ↦ rw many refl
                | inr few ↦ rw few (elim (Bool-cases (next_is (codes "elseif") more)) [
                  | inr last ↦ rw last m
                  | inl another ↦
                      let k : Shorter 1 more (tail more) =
                        tail-Shorter (codes "elseif") more refl m.0 another in
                      rw another (
                        then-Reads 1 1 ts (branches n level (count + 1) (tail more)) _
                          (longer-Reads 1 1 ts (tail more) _
                            (branches-Reads n level (count + 1) (tail more) k.0 (omega arith))
                            (omega arith))
                          (λ bs last l. l))
                ])
              ])))
