-- ===== src/Script/Parse/Refines.antt =====
-- src/script/syntax.rs: the parser of expressions and its grammar.
use rgnix.Base.{
  ltb, ◌==◌, Bool-cases, length, Text, codes, ok, err, ℕ, zero, suc, ◌+◌, ◌*◌, ◌≤◌, ◌≡◌, refl, ap,
  ◌∙◌, ◌≢◌, inl, inr, true, false, ◌||◌, List, [], ◌∷◌, ◌++◌, arith,
}
use rgnix.Script.{Token}
use rgnix.Script.Parse.{
  Expr, var, call, binary, Exprs, no_more, also, depth, is_bare, next_is, tail, expect, dotted,
  next_precedence, next_value, too_deep, expr, operand, arguments, climb,
}
use rgnix.Script.Parse.Total.{Head-cases}
use rgnix.Script.Parse.Grammar.{
  Writes, writes_literal, writes_prefix, writes_paren, writes_var, writes_call, WritesAll,
  writes_none, writes_last, writes_more,
}
use rgnix.Script.Parse.Derived.{ends, expr-Writes}
use rgnix.Script.Parse.Sound.{
  Gives, then-Gives, Weak, Operand, Derives, Arguments, NamesOf, expect-Gives, next_is-Gives,
  dotted-Gives, Writes-weaker,
}
use rgnix.Script.Parse.Operators.{split-append, Operator, operator_lem, binary_lem, Operator-split}
use rgnix.Script.Parse.Accepts.{next_precedence-le}

-- The rest of an operand that begins with a name, where the arguments parse as they should.
called-Gives :
    (n level h : ℕ) (ts : List Token) (f : Text) (rest : List Token)
    → NamesOf ts f rest
    → Gives (Arguments h (tail rest)) (arguments n level (tail rest))
    → Gives (Operand (suc h) ts) (elim (next_is (codes "(") rest) [
      | false ↦ ok (var f, rest)
      | true ↦ elim (next_is (codes ")") (tail rest)) [
        | true ↦ ok (call f no_more, tail (tail rest))
        | false ↦ elim (arguments n level (tail rest)) [
          | err e ↦ err e
          | ok (args, more) ↦ elim (expect (codes ")") more) [
            | err x ↦ err x
            | ok (u, last) ↦ ok (call f args, last)
          ]
        ]
      ]
    ])
called-Gives n level h ts f rest names args = elim (Bool-cases (next_is (codes "(") rest)) [
  | inr variable ↦ rw (variable, Gives) (names.0, (names.1.0, writes_var h 7 f names.0 names.1.1))
  | inl opens ↦
      let o : (t : Token) × ((rest ≡ t ∷ tail rest) × (is_bare (codes "(") t ≡ true)) =
        next_is-Gives (codes "(") rest opens in
      rw (opens, Gives)
        (elim (Bool-cases (next_is (codes ")") (tail rest))) [
          | inl closes ↦
              let c : (u : Token) × ((tail rest ≡ u ∷ tail (tail rest))
                    × (is_bare (codes ")") u ≡ true)) =
                next_is-Gives (codes ")") (tail rest) closes in
              rw (closes, Gives)
                (
                  names.0 ++ o.0 ∷ c.0 ∷ [],
                  (
                    split-append names.0 (o.0 ∷ c.0 ∷ []) (tail (tail rest)) names.1.0
                        (o.1.0 ∙ ap (λ z. o.0 ∷ z) c.1.0),
                    writes_call h 7 f o.0 c.0 names.0 [] no_more names.1.1 o.1.1 (writes_none h)
                        c.1.1,
                  ),
                )
          | inr some_follow ↦
              rw (some_follow, Gives)
                (then-Gives (Arguments h (tail rest)) (Operand (suc h) ts)
                  (arguments n level (tail rest)) _ args
                  (λ es more a.
                    then-Gives _ (Operand (suc h) ts) (expect (codes ")") more) _
                      (expect-Gives (codes ")") more)
                      (λ u last c. (
                        names.0 ++ o.0 ∷ (a.0 ++ c.0 ∷ []),
                        (
                          split-append names.0 (o.0 ∷ (a.0 ++ c.0 ∷ [])) last names.1.0 (
                              o.1.0
                              ∙ ap (λ z. o.0 ∷ z) (split-append a.0 (c.0 ∷ []) last a.1.0 c.1.0)),
                          writes_call h 7 f o.0 c.0 names.0 a.0 es names.1.1 o.1.1 a.1.1 c.1.1,
                        ),
                      ))))
        ])
]

more_lem :
    (h : ℕ) (c : Token) (e : Expr) (es : Exprs) (xs ys : List Token)
    → Writes h 0 e xs
    → is_bare (codes ",") c ≡ true
    → WritesAll h es ys
    → es ≢ no_more
    → WritesAll h (also e es) (xs ++ c ∷ ys)
more_lem h c e no_more xs ys w comma ws others = absurd (others refl)
more_lem h c e (also x es) xs ys w comma ws others = writes_more h c e x es xs ys w comma ws

mutual
  unfolding expr operand arguments climb next_precedence

  pub expr-Derives :
      (n level h lowest : ℕ) (ts : List Token)
      → level + h ≡ 128
      → lowest ≤ 7
      → Gives (Derives h lowest ts) (expr n level lowest ts)
  expr-Derives zero level h lowest ts fits le = tt
  expr-Derives (suc n) level zero lowest ts fits le =
      let deep : ltb 128 (level + 1) ≡ true = ground (fits, arith) in rw (deep, Gives) tt
  expr-Derives (suc n) level (suc h) lowest ts fits le =
      let shallow : ltb 128 (level + 1) ≡ false = ground (fits, arith) in
      rw (shallow, Gives)
        (then-Gives (Operand (suc h) ts) (Derives (suc h) lowest ts) (operand n (level + 1) ts) _
          (operand-Derives n (level + 1) h ts (omega arith))
          (λ left rest o.
            climb-Derives n (level + 1) h lowest 7 ts left o.0 rest (omega arith) o.1.0 o.1.1 le
              (let weak : next_precedence rest ≤ 6 = next_precedence-le rest in omega arith)))

  operand-Derives :
      (n level h : ℕ) (ts : List Token)
      → level + h ≡ 128
      → Gives (Operand (suc h) ts) (operand n level ts)
  operand-Derives zero level h ts fits = tt
  operand-Derives (suc n) level h [] fits = tt
  operand-Derives (suc n) level h (t ∷ ts) fits = elim (Head-cases t) [
    | inl (op, is) ↦
        rw (is, operand)
          (then-Gives (Derives h 7 ts) (Operand (suc h) (t ∷ ts)) (expr n level 7 ts) _
            (expr-Derives n level h 7 ts fits (omega arith))
            (λ e rest d. (t ∷ d.0, (ap (λ z. t ∷ z) d.1.0, writes_prefix h 7 t op e d.0 is d.1.1))))
    | inr (inl is) ↦
        rw (is, operand)
          (then-Gives (Derives h 0 ts) (Operand (suc h) (t ∷ ts)) (expr n level 0 ts) _
            (expr-Derives n level h 0 ts fits (omega arith))
            (λ e rest d.
              then-Gives _ (Operand (suc h) (t ∷ ts)) (expect (codes ")") rest) _
                (expect-Gives (codes ")") rest)
                (λ u more c. (
                  t ∷ (d.0 ++ c.0 ∷ []),
                  (
                    ap (λ z. t ∷ z) (split-append d.0 (c.0 ∷ []) more d.1.0 c.1.0),
                    writes_paren h 7 t c.0 e d.0 is d.1.1 c.1.1,
                  ),
                ))))
    | inr (inr (inl (e, is))) ↦ rw (is, operand) (t ∷ [], (refl, writes_literal h 7 t e is))
    | inr (inr (inr is)) ↦
        rw (is, operand)
          (then-Gives (NamesOf (t ∷ ts)) (Operand (suc h) (t ∷ ts)) (dotted (t ∷ ts)) _
            (dotted-Gives (t ∷ ts))
            (λ f rest names.
              called-Gives n level h (t ∷ ts) f rest names
                (arguments-Derives n level h (tail rest) fits)))
  ]

  arguments-Derives :
      (n level h : ℕ) (ts : List Token)
      → level + h ≡ 128
      → Gives (Arguments h ts) (arguments n level ts)
  arguments-Derives zero level h ts fits = tt
  arguments-Derives (suc n) level h ts fits =
      then-Gives (Derives h 0 ts) (Arguments h ts) (expr n level 0 ts) _
        (expr-Derives n level h 0 ts fits (omega arith))
        (λ e rest d. elim (Bool-cases (next_is (codes ",") rest)) [
          | inr last ↦
              rw (last, Gives)
                (d.0, (d.1.0, writes_last h e d.0 d.1.1, λ same. ground (same, arith)))
          | inl comma ↦
              let c : (t : Token) × ((rest ≡ t ∷ tail rest) × (is_bare (codes ",") t ≡ true)) =
                next_is-Gives (codes ",") rest comma in
              rw (comma, Gives)
                (then-Gives (Arguments h (tail rest)) (Arguments h ts)
                  (arguments n level (tail rest)) _ (arguments-Derives n level h (tail rest) fits)
                  (λ es more a. (
                    d.0 ++ c.0 ∷ a.0,
                    (
                      split-append d.0 (c.0 ∷ a.0) more d.1.0 (c.1.0 ∙ ap (λ z. c.0 ∷ z) a.1.0),
                      more_lem h c.0 e es d.0 a.0 d.1.1 c.1.1 a.1.1 a.1.2,
                      λ same. ground (same, arith),
                    ),
                  )))
        ])

  climb-Derives :
      (n level h lowest b : ℕ) (all_tokens : List Token) (left : Expr) (xs ts : List Token)
      → level + h ≡ 128
      → all_tokens ≡ xs ++ ts
      → Writes (suc h) b left xs
      → lowest ≤ b
      → next_precedence ts ≤ b
      → Gives (Derives (suc h) lowest all_tokens) (climb n level lowest left ts)
  climb-Derives zero level h lowest b all_tokens left xs ts fits split w le weak = tt
  climb-Derives (suc n) level h lowest b all_tokens left xs ts fits split w le weak =
      elim (Bool-cases (too_deep left)) [
        | inl deep ↦ rw (deep, climb) tt
        | inr shallow ↦
            rw (shallow, climb)
              (elim (Bool-cases ((next_precedence ts == 0) || ltb (next_precedence ts) lowest)) [
                | inl stops ↦
                    rw (stops, Gives)
                      (
                        xs,
                        (split, Writes-weaker (suc h) b lowest left xs w le, ground (stops, arith)),
                      )
                | inr goes ↦
                    let o : Operator ts = operator_lem ts (ground (goes, arith)) in
                    rw (goes, Gives)
                      (then-Gives (Derives h (next_precedence ts + 1) (tail ts))
                        (Derives (suc h) lowest all_tokens)
                        (expr n level (next_precedence ts + 1) (tail ts)) _
                        (expr-Derives n level h (next_precedence ts + 1) (tail ts) fits (
                          let most : next_precedence ts ≤ 6 = next_precedence-le ts in omega arith))
                        (λ right rest d.
                          climb-Derives n level h lowest (next_precedence ts) all_tokens
                            (binary (next_value ts) left right) (xs ++ o.0 ∷ d.0) rest fits
                            (Operator-split ts xs d.0 rest o split d.1.0)
                            (binary_lem h b ts left right xs d.0 o (ground (goes, arith)) weak w
                              d.1.1)
                            (ground (goes, arith)) (ground (d.1.2, arith))))
              ])
      ]

-- The parser of expressions accepts its grammar: on tokens that the grammar derives, followed by what
-- cannot continue the expression, it returns the expression of the derivation and leaves what
-- follows, where the nesting and the depth are within 128 and fuel is three times the number of
-- tokens and one more.
pub expr-accepts :
    (n level lowest h : ℕ) (e : Expr) (ts rest : List Token)
    → Writes h lowest e ts
    → level + h ≤ 128
    → depth e ≤ 128
    → Weak lowest rest
    → next_is (codes "(") rest ≡ false
    → next_is (codes ".") rest ≡ false
    → 3 * length ts + 1 ≤ n
    → expr n level lowest (ts ++ rest) ≡ ok (e, rest)
expr-accepts n level lowest h e ts rest w fits d weak no_call no_dot enough_fuel =
    expr-Writes n level lowest h lowest 1 e ts rest (ok (e, rest)) w (omega arith) fits d
      (ground (weak, arith), no_call, no_dot) enough_fuel (ends (level + 1) lowest e rest d weak)

-- What the parser of expressions returns is derived by its grammar: the tokens it has read are an
-- expression of operators of at least `lowest` with the returned tree, nested at most as deep as the
-- level leaves room, and no operator of at least `lowest` follows.
pub expr-refines :
    (n level h lowest : ℕ) (ts : List Token) (e : Expr) (rest : List Token)
    → level + h ≡ 128
    → lowest ≤ 7
    → expr n level lowest ts ≡ ok (e, rest)
    → Derives h lowest ts e rest
expr-refines n level h lowest ts e rest fits le is =
    let d : Gives (Derives h lowest ts) (expr n level lowest ts) =
      expr-Derives n level h lowest ts fits le in
    rw is at d
