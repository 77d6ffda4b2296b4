-- ===== src/Script/Parse/Accepts.antt =====
-- src/script/syntax.rs: the parser of expressions accepts its grammar.
use rgnix.Base.{
  Bool-cases, length, length-append, Text, codes, Result, ok, ℕ, zero, suc, ◌+◌, ◌*◌, ◌≤◌, ◌≡◌,
  refl, ◌≢◌, inl, inr, true, false, List, [], ◌∷◌, ◌++◌, append_assoc, arith,
}
use rgnix.Script.{Token, Error}
use rgnix.Script.Parse.{
  Expr, unary, binary, Exprs, no_more, also, depth, is_bare, next_is, prefix, paren, named, literal,
  head, precedence, next_precedence, expr, operand, arguments, climb,
}
use rgnix.Script.Parse.Grammar.{
  Names, one_name, two_names, Writes, writes_literal, writes_prefix, writes_paren, writes_var,
  writes_call, writes_binary, WritesAll, writes_last, writes_more,
}
use rgnix.Script.Parse.Words.{name_is_bare, close_head}
use rgnix.Script.Parse.Complete.{climb_step}

Names-length : (x : Text) (ts : List Token) → Names x ts → 1 ≤ length ts
Names-length _ _ (one_name t is) = omega arith
Names-length _ _ (two_names t d u a b c) = omega arith

pub Writes-length : (h m : ℕ) (e : Expr) (ts : List Token) → Writes h m e ts → 1 ≤ length ts
Writes-length _ _ _ _ (writes_literal h m t e is) = omega arith
Writes-length _ _ _ _ (writes_prefix h m t op e ts is d) = omega arith
Writes-length _ _ _ _ (writes_paren h m t u e ts is d close) = omega arith
Writes-length _ _ _ _ (writes_var h m x ts names) = Names-length x ts names
Writes-length _ _ _ _ (writes_call h m f t u xs ys es names opens d close) =
    rw (length-append xs (t ∷ (ys ++ u ∷ []))) (omega arith)
Writes-length _ _ _ _ (writes_binary h m t l r xs ys s p q dl dr) =
    rw (length-append xs (t ∷ ys)) (omega arith)

head-close : (t : Token) → head t ≢ named → is_bare (codes ")") t ≡ false
head-close t h = elim (Bool-cases (is_bare (codes ")") t)) [
  | inr other ↦ other
  | inl close ↦ absurd (h (close_head t close))
]

Names-close :
    (x : Text) (ts rest : List Token) → Names x ts → next_is (codes ")") (ts ++ rest) ≡ false
Names-close _ _ rest (one_name t is) = name_is_bare (codes ")") t is refl
Names-close _ _ rest (two_names t d u is dot is_too) = name_is_bare (codes ")") t is refl

-- No expression begins with a closing parenthesis.
Writes-close :
    (h m : ℕ) (e : Expr) (ts rest : List Token)
    → Writes h m e ts
    → next_is (codes ")") (ts ++ rest) ≡ false
Writes-close _ _ _ _ rest (writes_literal h m t e is) = head-close t (λ x. ground (is, x, arith))
Writes-close _ _ _ _ rest (writes_prefix h m t op e ts is d) =
    head-close t (λ x. ground (is, x, arith))
Writes-close _ _ _ _ rest (writes_paren h m t u e ts is d close) =
    head-close t (λ x. ground (is, x, arith))
Writes-close _ _ _ _ rest (writes_var h m x ts names) = Names-close x ts rest names
Writes-close _ _ _ _ rest (writes_call h m f t u xs ys es names opens d close) =
    rw (append_assoc xs (t ∷ (ys ++ u ∷ [])) rest)
      (Names-close f xs ((t ∷ (ys ++ u ∷ [])) ++ rest) names)
Writes-close _ _ _ _ rest (writes_binary h m t l r xs ys s p q dl dr) =
    rw (append_assoc xs (t ∷ ys) rest)
      (Writes-close (suc h) (precedence t.value) l xs ((t ∷ ys) ++ rest) dl)

pub WritesAll-close :
    (h : ℕ) (e : Expr) (es : Exprs) (ts rest : List Token)
    → WritesAll h (also e es) ts
    → next_is (codes ")") (ts ++ rest) ≡ false
WritesAll-close _ _ _ _ rest (writes_last h e ts d) = Writes-close h 0 e ts rest d
WritesAll-close _ _ _ _ rest (writes_more h c e x es xs ys d comma ds) =
    rw (append_assoc xs (c ∷ ys) rest) (Writes-close h 0 e xs ((c ∷ ys) ++ rest) d)

pub next_precedence-le : (ts : List Token) → next_precedence ts ≤ 6
unfolding next_precedence precedence
next_precedence-le [] = omega arith
next_precedence-le (t ∷ ts) = ground arith

-- A step of the loop on the tokens of a binary expression.
pub binary_step :
    (i level lowest k : ℕ) (l r : Expr) (t : Token) (ys rest : List Token)
    (out : Result Error (Expr × List Token))
    → k + 3 * length ys + 2 ≤ i
    → depth l ≤ 128
    → t.string ≡ false
    → 1 ≤ precedence t.value
    → lowest ≤ precedence t.value
    → ((j : ℕ)
        → 3 * length ys + 1 ≤ j
        → expr j level (precedence t.value + 1) (ys ++ rest) ≡ ok (r, rest))
    → ((j : ℕ) → k ≤ j → climb j level lowest (binary t.value l r) rest ≡ out)
    → climb i level lowest l (t ∷ (ys ++ rest)) ≡ out
binary_step zero level lowest k l r t ys rest out enough_fuel d s some_op fits right after =
    absurd (omega arith)
binary_step (suc i) level lowest k l r t ys rest out enough_fuel d s some_op fits right after =
    climb_step i level lowest l r t (ys ++ rest) rest out d some_op fits s (right i (omega arith))
      (after i (omega arith))

pub operand-prefix :
    (n level : ℕ) (t : Token) (op : Text) (e : Expr) (ts rest : List Token)
    → head t ≡ prefix op
    → expr n level 7 ts ≡ ok (e, rest)
    → operand (suc n) level (t ∷ ts) ≡ ok (unary op e, rest)
unfolding operand
operand-prefix n level t op e ts rest is reads = rw (operand, is, reads) refl

pub operand-paren :
    (n level : ℕ) (t u : Token) (e : Expr) (ts rest : List Token)
    → head t ≡ paren
    → expr n level 0 ts ≡ ok (e, u ∷ rest)
    → is_bare (codes ")") u ≡ true
    → operand (suc n) level (t ∷ ts) ≡ ok (e, rest)
unfolding operand
operand-paren n level t u e ts rest is reads close = rw (operand, is, reads, close) refl

pub operand-literal :
    (n level : ℕ) (t : Token) (e : Expr) (rest : List Token)
    → head t ≡ literal e
    → operand (suc n) level (t ∷ rest) ≡ ok (e, rest)
unfolding operand
operand-literal n level t e rest is = rw (operand, is) refl

pub arguments-last :
    (n level : ℕ) (e : Expr) (ts rest : List Token)
    → expr n level 0 ts ≡ ok (e, rest)
    → next_is (codes ",") rest ≡ false
    → arguments (suc n) level ts ≡ ok (also e no_more, rest)
unfolding arguments
arguments-last n level e ts rest reads no_comma = rw (arguments, reads, no_comma) refl

pub arguments-more :
    (n level : ℕ) (c : Token) (e : Expr) (es : Exprs) (ts more rest : List Token)
    → expr n level 0 ts ≡ ok (e, c ∷ more)
    → is_bare (codes ",") c ≡ true
    → arguments n level more ≡ ok (es, rest)
    → arguments (suc n) level ts ≡ ok (also e es, rest)
unfolding arguments
arguments-more n level c e es ts more rest reads comma others =
    rw (arguments, reads, comma, others) refl
