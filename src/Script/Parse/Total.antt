-- ===== src/Script/Parse/Total.antt =====
-- src/script/syntax.rs: the fuel of the parser of expressions, and the tokens it leaves.
use rgnix.Base.{
  ltb, ◌==◌, Bool-cases, length, Text, codes, ok, err, ℕ, zero, suc, ◌+◌, ◌*◌, ◌≤◌, ◌≡◌, refl, ◌⊎◌,
  inl, inr, true, false, ◌||◌, List, [], ◌∷◌, arith,
}
use rgnix.Script.{Token}
use rgnix.Script.Parse.{
  Expr, var, call, binary, no_more, next_is, tail, expect, dotted, prefix, paren, named, literal,
  head, next_precedence, next_value, too_deep, expr, operand, arguments, climb,
}
use rgnix.Script.Parse.Reads.{
  ended, Shorter, Reads, then-Reads, longer-Reads, tail-Shorter, expected-is_fuel, expect-Reads,
  dotted-Reads, operand-Shorter, operator-Shorter,
}

abbrev pub HeadIs : Token → Type 0
HeadIs t =
    ((op : Text) × (head t ≡ prefix op))
    ⊎ ((head t ≡ paren) ⊎ (((e : Expr) × (head t ≡ literal e)) ⊎ (head t ≡ named)))

pub Head-cases : (t : Token) → HeadIs t
Head-cases t =
    elim (head t) as (λ h. head t ≡ h → HeadIs t) [
      | prefix op ↦ λ e. inl (op, e)
      | paren ↦ λ e. inr (inl e)
      | named ↦ λ e. inr (inr (inr e))
      | literal x ↦ λ e. inr (inr (inl (x, e)))
    ]
      refl

-- After the name of a variable or of a called function.
after_name_lem :
    (n level : ℕ) (ts : List Token) (f : Text) (rest : List Token)
    → Shorter 1 ts rest
    → (Shorter 1 rest (tail rest) → Reads 1 (tail rest) (arguments n level (tail rest)))
    → Reads 1 ts (elim (next_is (codes "(") rest) [
      | false ↦ ok (var f, rest)
      | true ↦ elim (next_is (codes ")") (tail rest)) [
        | true ↦ ok (call f no_more, tail (tail rest))
        | false ↦ elim (arguments n level (tail rest)) [
          | err e ↦ err e
          | ok (args, more) ↦ elim (expect (codes ")") more) [
            | err x ↦ err x
            | ok (u, last) ↦ ok (call f args, last)
          ]
        ]
      ]
    ])
after_name_lem n level ts f rest r h = elim (Bool-cases (next_is (codes "(") rest)) [
  | inr variable ↦ rw variable r
  | inl opened ↦
      let s : Shorter 1 rest (tail rest) = tail-Shorter (codes "(") rest refl r.0 opened in
      rw opened (elim (Bool-cases (next_is (codes ")") (tail rest))) [
        | inl close ↦
            let q : Shorter 1 (tail rest) (tail (tail rest)) =
              tail-Shorter (codes ")") (tail rest) refl s.0 close in
            rw close (q.0, omega arith)
        | inr some_follow ↦ rw some_follow (
            then-Reads 1 1 ts (arguments n level (tail rest)) _
              (longer-Reads 1 1 ts (tail rest) _ (h s) (omega arith))
              (λ args more m.
                then-Reads 1 1 ts (expect (codes ")") more) _
                  (longer-Reads 1 1 ts more _ (expect-Reads (codes ")") more refl m.0)
                    (omega arith))
                  (λ u last l. l)))
      ])
]

mutual
  unfolding expr operand arguments climb

  pub expr-Reads :
      (n level lowest : ℕ) (ts : List Token)
      → ended ts ≡ true
      → 3 * length ts + 3 ≤ n
      → Reads 1 ts (expr n level lowest ts)
  expr-Reads zero level lowest ts e h = absurd (omega arith)
  expr-Reads (suc n) level lowest ts e h = elim (Bool-cases (ltb 128 (level + 1))) [
    | inl deep ↦ rw (deep, expr) refl
    | inr fits ↦
        rw (fits, expr)
          (then-Reads 1 1 ts (operand n (level + 1) ts) _
            (operand-Reads n (level + 1) ts e (omega arith))
            (λ left rest s.
              longer-Reads 0 1 ts rest _
                (climb-Reads n (level + 1) lowest left rest s.0 (omega arith)) (omega arith)))
  ]

  operand-Reads :
      (n level : ℕ) (ts : List Token)
      → ended ts ≡ true
      → 3 * length ts + 2 ≤ n
      → Reads 1 ts (operand n level ts)
  operand-Reads zero level ts e h = absurd (omega arith)
  operand-Reads (suc n) level [] e h = refl
  operand-Reads (suc n) level (t ∷ ts) e h = elim (Head-cases t) [
    | inl (op, is) ↦
        let s : Shorter 1 (t ∷ ts) ts =
          operand-Shorter t ts e (λ x. absurd (ground (is, x, arith))) in
        rw (is, operand)
          (then-Reads 1 1 (t ∷ ts) (expr n level 7 ts) _
            (longer-Reads 1 1 (t ∷ ts) ts _ (expr-Reads n level 7 ts s.0 (omega arith))
              (omega arith))
            (λ x rest r. r))
    | inr (inl is) ↦
        let s : Shorter 1 (t ∷ ts) ts =
          operand-Shorter t ts e (λ x. absurd (ground (is, x, arith))) in
        rw (is, operand)
          (then-Reads 1 1 (t ∷ ts) (expr n level 0 ts) _
            (longer-Reads 1 1 (t ∷ ts) ts _ (expr-Reads n level 0 ts s.0 (omega arith))
              (omega arith))
            (λ x rest r.
              then-Reads 1 1 (t ∷ ts) (expect (codes ")") rest) _
                (longer-Reads 1 1 (t ∷ ts) rest _ (expect-Reads (codes ")") rest refl r.0)
                  (omega arith))
                (λ u more m. m)))
    | inr (inr (inl (x, is))) ↦
        rw (is, operand) (operand-Shorter t ts e (λ y. absurd (ground (is, y, arith))))
    | inr (inr (inr is)) ↦
        rw (is, operand)
          (then-Reads 1 1 (t ∷ ts) (dotted (t ∷ ts)) _ (dotted-Reads (t ∷ ts) e) (λ f rest r.
            after_name_lem n level (t ∷ ts) f rest r
              (λ s. arguments-Reads n level (tail rest) s.0 (omega arith))))
  ]

  arguments-Reads :
      (n level : ℕ) (ts : List Token)
      → ended ts ≡ true
      → 3 * length ts + 4 ≤ n
      → Reads 1 ts (arguments n level ts)
  arguments-Reads zero level ts e h = absurd (omega arith)
  arguments-Reads (suc n) level ts e h =
      then-Reads 1 1 ts (expr n level 0 ts) _ (expr-Reads n level 0 ts e (omega arith)) (λ x rest r.
        elim (Bool-cases (next_is (codes ",") rest)) [
          | inr last ↦ rw last r
          | inl comma ↦
              let s : Shorter 1 rest (tail rest) = tail-Shorter (codes ",") rest refl r.0 comma in
              rw comma (
                then-Reads 1 1 ts (arguments n level (tail rest)) _
                  (longer-Reads 1 1 ts (tail rest) _
                    (arguments-Reads n level (tail rest) s.0 (omega arith)) (omega arith))
                  (λ xs more m. m))
        ])

  climb-Reads :
      (n level lowest : ℕ) (left : Expr) (ts : List Token)
      → ended ts ≡ true
      → 3 * length ts + 1 ≤ n
      → Reads 0 ts (climb n level lowest left ts)
  climb-Reads zero level lowest left ts e h = absurd (omega arith)
  climb-Reads (suc n) level lowest left ts e h = elim (Bool-cases (too_deep left)) [
    | inl deep ↦ rw (deep, climb) (expected-is_fuel "expression tree depth exceeds 128" ts)
    | inr fits ↦
        rw (fits, climb)
          (elim (Bool-cases ((next_precedence ts == 0) || ltb (next_precedence ts) lowest)) [
            | inl stops ↦ rw stops (e, omega arith)
            | inr goes ↦
                let s : Shorter 1 ts (tail ts) = operator-Shorter ts e (ground arith) in
                rw goes (
                  then-Reads 0 1 ts (expr n level (next_precedence ts + 1) (tail ts)) _
                    (longer-Reads 1 1 ts (tail ts) _
                      (expr-Reads n level (next_precedence ts + 1) (tail ts) s.0 (omega arith))
                      (omega arith))
                    (λ right rest r.
                      longer-Reads 0 0 ts rest _
                        (climb-Reads n level lowest (binary (next_value ts) left right) rest r.0
                          (omega arith))
                        (omega arith)))
          ])
  ]
