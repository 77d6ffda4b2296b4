-- ===== src/Script/Parse/Derived.antt =====
-- src/script/syntax.rs: the parser of expressions on a derivation of the grammar.
use rgnix.Base.{
  length, length-append, Text, codes, Result, ok, ℕ, zero, suc, ◌+◌, ◌*◌, ◌≤◌, ◌<◌, ◌≡◌, ◌⊎◌, inl,
  inr, true, List, [], ◌∷◌, ◌++◌, append_assoc, arith,
}
use rgnix.Script.{Token, Error}
use rgnix.Script.Parse.{
  Expr, var, call, unary, binary, Exprs, no_more, also, depth, depths, is_bare, precedence,
  next_precedence, expr, arguments, climb,
}
use rgnix.Script.Parse.Grammar.{
  Writes, writes_literal, writes_prefix, writes_paren, writes_var, writes_call, writes_binary,
  WritesAll, writes_none, writes_last, writes_more, Stops, operator-Stops,
}
use rgnix.Script.Parse.Words.{close-comma, close-Stops, comma-Stops}
use rgnix.Script.Parse.Complete.{operand-var, operand-call, operand-call_none, climb_end, expr_lem}
use rgnix.Script.Parse.Accepts.{
  Writes-length, WritesAll-close, next_precedence-le, binary_step, operand-prefix, operand-paren,
  operand-literal, arguments-last, arguments-more,
}

depth-unary : (op : Text) (e : Expr) → depth (unary op e) ≤ 128 → depth e ≤ 128
unfolding depth
depth-unary op e d = omega arith

depth-binary :
    (op : Text) (l r : Expr) → depth (binary op l r) ≤ 128 → (depth l ≤ 128) × (depth r ≤ 128)
unfolding depth
depth-binary op l r d = (omega arith, omega arith)

depth-call : (f : Text) (es : Exprs) → depth (call f es) ≤ 128 → depths es ≤ 128
unfolding depth
depth-call f es d = omega arith

depths-also :
    (e : Expr) (es : Exprs) → depths (also e es) ≤ 128 → (depth e ≤ 128) × (depths es ≤ 128)
unfolding depth depths
depths-also e es d = (omega arith, omega arith)

-- The loop on operators goes on from the expression as it does with every fuel from `k`.
abbrev pub Next : ℕ → ℕ → ℕ → Expr → List Token → Result Error (Expr × List Token) → Type 0
Next k level lowest e rest out = (i : ℕ) → k ≤ i → climb i level lowest e rest ≡ out

abbrev pub ends :
    (level lowest : ℕ) (e : Expr) (rest : List Token)
    → depth e ≤ 128
    → next_precedence rest < lowest ⊎ (next_precedence rest ≡ 0)
    → Next 1 level lowest e rest (ok (e, rest))
ends level lowest e rest d stops i h = climb_end i level lowest e rest h d stops

mutual
  pub expr-Writes :
      (n level lowest h m k : ℕ) (e : Expr) (ts rest : List Token)
      (out : Result Error (Expr × List Token))
      → Writes h m e ts
      → lowest ≤ m
      → level + h ≤ 128
      → depth e ≤ 128
      → Stops m rest
      → 3 * length ts + k ≤ n
      → Next k (level + 1) lowest e rest out
      → expr n level lowest (ts ++ rest) ≡ out
  expr-Writes zero level lowest h m k e ts rest out w le fits d stops enough_fuel next =
      absurd (let some_token : 1 ≤ length ts = Writes-length h m e ts w in omega arith)
  expr-Writes (suc zero) level lowest h m k e ts rest out w le fits d stops enough_fuel next =
      absurd (let some_token : 1 ≤ length ts = Writes-length h m e ts w in omega arith)
  expr-Writes (suc (suc n)) level lowest _ _ k _ _ rest out (writes_literal h m t e is) le fits d
        stops enough_fuel next =
      expr_lem (suc n) level lowest e (t ∷ rest) rest out (omega arith)
        (operand-literal n (level + 1) t e rest is) (next (suc n) (omega arith))
  expr-Writes (suc (suc n)) level lowest _ _ k _ _ rest out (writes_prefix h m t op e ts is w) le
        fits d stops enough_fuel next =
      let shallow : depth e ≤ 128 = depth-unary op e d in
      let weaker : next_precedence rest ≤ 6 = next_precedence-le rest in
      expr_lem (suc n) level lowest (unary op e) (t ∷ (ts ++ rest)) rest out (omega arith)
        (operand-prefix n (level + 1) t op e (ts ++ rest) rest is (
          expr-Writes n (level + 1) 7 h 7 1 e ts rest (ok (e, rest)) w (omega arith) (omega arith)
            shallow (omega arith, stops.1, stops.2) (omega arith)
            (ends (level + 1 + 1) 7 e rest shallow (inl (omega arith)))))
        (next (suc n) (omega arith))
  expr-Writes (suc (suc n)) level lowest _ _ k _ _ rest out (writes_paren h m t u e ts is w close)
        le fits d stops enough_fuel next =
      let after : Stops 0 (u ∷ rest) = close-Stops u rest close in
      let size : length (ts ++ u ∷ []) ≡ length ts + 1 = omega (arith, length-append ts (u ∷ [])) in
      rw (append_assoc ts (u ∷ []) rest) (
        expr_lem (suc n) level lowest e (t ∷ (ts ++ u ∷ rest)) rest out (omega arith)
          (operand-paren n (level + 1) t u e (ts ++ u ∷ rest) rest is
            (expr-Writes n (level + 1) 0 h 0 1 e ts (u ∷ rest) (ok (e, u ∷ rest)) w (omega arith)
              (omega arith) d after (omega arith)
              (ends (level + 1 + 1) 0 e (u ∷ rest) d (inr (omega arith))))
            close)
          (next (suc n) (omega arith)))
  expr-Writes (suc (suc n)) level lowest _ _ k _ _ rest out (writes_var h m x ts names) le fits d
        stops enough_fuel next =
      let some_token : 1 ≤ length ts =
        Writes-length (suc h) m (var x) ts (writes_var h m x ts names) in
      expr_lem (suc n) level lowest (var x) (ts ++ rest) rest out (omega arith)
        (operand-var n (level + 1) x ts rest names stops.1 stops.2) (next (suc n) (omega arith))
  expr-Writes (suc (suc n)) level lowest _ _ k _ _ rest out
        (writes_call h m f t u xs _ _ names opens (writes_none _) close) le fits d stops enough_fuel
        next =
      let size : length (xs ++ t ∷ u ∷ []) ≡ length xs + 2 =
        omega (arith, length-append xs (t ∷ u ∷ [])) in
      rw (append_assoc xs (t ∷ u ∷ []) rest) (
        expr_lem (suc n) level lowest (call f no_more) (xs ++ t ∷ u ∷ rest) rest out (omega arith)
          (operand-call_none n (level + 1) f t u xs rest names opens close)
          (next (suc n) (omega arith)))
  expr-Writes (suc (suc n)) level lowest _ _ k _ _ rest out
        (writes_call h m f t u xs ys (also e es) names opens w close) le fits d stops enough_fuel
        next =
      let size : length (xs ++ t ∷ (ys ++ u ∷ [])) ≡ length xs + (1 + (length ys + 1)) =
        omega (arith, length-append xs (t ∷ (ys ++ u ∷ [])), length-append ys (u ∷ [])) in
      rw (append_assoc xs (t ∷ (ys ++ u ∷ [])) rest, append_assoc ys (u ∷ []) rest)
        (expr_lem (suc n) level lowest (call f (also e es)) (xs ++ t ∷ (ys ++ u ∷ rest)) rest out
          (omega arith)
          (operand-call n (level + 1) f t u xs (ys ++ u ∷ rest) rest (also e es) names opens
            (WritesAll-close h e es ys (u ∷ rest) w)
            (arguments-Writes n (level + 1) h e es u ys rest w (omega arith)
              (depth-call f (also e es) d) close (omega arith))
            close)
          (next (suc n) (omega arith)))
  expr-Writes (suc (suc n)) level lowest _ _ k _ _ rest out
        (writes_binary h m t l r xs ys s some_op strong wl wr) le fits d stops enough_fuel next =
      let parts : (depth l ≤ 128) × (depth r ≤ 128) = depth-binary t.value l r d in
      let size : length (xs ++ t ∷ ys) ≡ length xs + (1 + length ys) =
        omega (arith, length-append xs (t ∷ ys)) in
      rw (append_assoc xs (t ∷ ys) rest) (
        expr-Writes (suc (suc n)) level lowest (suc h) (precedence t.value) (k + 3 * length ys + 2)
          l xs (t ∷ (ys ++ rest)) out wl (omega arith) fits parts.0
          (operator-Stops t (ys ++ rest) s some_op) (omega arith)
          (λ i hi.
            binary_step i (level + 1) lowest k l r t ys rest out hi parts.0 s some_op (omega arith)
              (λ j hj.
                expr-Writes j (level + 1) (precedence t.value + 1) h (precedence t.value + 1) 1 r ys
                  rest (ok (r, rest)) wr (omega arith) (omega arith) parts.1
                  (omega arith, stops.1, stops.2) hj
                  (ends (level + 1 + 1) (precedence t.value + 1) r rest parts.1
                    (inl (omega arith))))
              next))

  arguments-Writes :
      (n level h : ℕ) (e : Expr) (es : Exprs) (u : Token) (ts rest : List Token)
      → WritesAll h (also e es) ts
      → level + h ≤ 128
      → depths (also e es) ≤ 128
      → is_bare (codes ")") u ≡ true
      → 3 * length ts + 2 ≤ n
      → arguments n level (ts ++ u ∷ rest) ≡ ok (also e es, u ∷ rest)
  arguments-Writes zero level h e es u ts rest w fits d close enough_fuel = absurd (omega arith)
  arguments-Writes (suc n) level _ _ _ u _ rest (writes_last h e ts w) fits d close enough_fuel =
      let parts : (depth e ≤ 128) × (depths no_more ≤ 128) = depths-also e no_more d in
      let after : Stops 0 (u ∷ rest) = close-Stops u rest close in
      arguments-last n level e (ts ++ u ∷ rest) (u ∷ rest)
        (expr-Writes n level 0 h 0 1 e ts (u ∷ rest) (ok (e, u ∷ rest)) w (omega arith) fits parts.0
          after (omega arith) (ends (level + 1) 0 e (u ∷ rest) parts.0 (inr (omega arith))))
        (close-comma u close)
  arguments-Writes (suc n) level _ _ _ u _ rest (writes_more h c e x es xs ys w comma ws) fits d
        close enough_fuel =
      let parts : (depth e ≤ 128) × (depths (also x es) ≤ 128) = depths-also e (also x es) d in
      let size : length (xs ++ c ∷ ys) ≡ length xs + (1 + length ys) =
        omega (arith, length-append xs (c ∷ ys)) in
      let after : Stops 0 (c ∷ (ys ++ u ∷ rest)) = comma-Stops c (ys ++ u ∷ rest) comma in
      rw (append_assoc xs (c ∷ ys) (u ∷ rest)) (
        arguments-more n level c e (also x es) (xs ++ c ∷ (ys ++ u ∷ rest)) (ys ++ u ∷ rest)
          (u ∷ rest)
          (expr-Writes n level 0 h 0 1 e xs (c ∷ (ys ++ u ∷ rest)) (ok (e, c ∷ (ys ++ u ∷ rest))) w
            (omega arith) fits parts.0 after (omega arith)
            (ends (level + 1) 0 e (c ∷ (ys ++ u ∷ rest)) parts.0 (inr (omega arith))))
          comma (arguments-Writes n level h x es u ys rest ws fits parts.1 close (omega arith)))
