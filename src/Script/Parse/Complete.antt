-- ===== src/Script/Parse/Complete.antt =====
-- src/script/syntax.rs: the parser of expressions on the tokens of the grammar.
use rgnix.Base.{
  ltb, ◌==◌, Text, codes, text_eq_iff, Result, ok, err, ℕ, zero, suc, ◌+◌, ◌≤◌, ◌<◌, ◌≡◌, refl, ◌⊎◌,
  true, false, ◌||◌, List, [], ◌∷◌, ◌++◌, arith,
}
use rgnix.Script.{Token, Error}
use rgnix.Script.Parse.{
  Expr, var, call, binary, Exprs, no_more, depth, is_bare, next_is, tail, expect, dotted,
  precedence, next_precedence, too_deep, expr, operand, arguments, climb,
}
use rgnix.Script.Parse.Grammar.{Names, one_name, two_names}
use rgnix.Script.Parse.Words.{name_head, dotted-Names}

pub operand-var :
    (n level : ℕ) (x : Text) (ts rest : List Token)
    → Names x ts
    → next_is (codes "(") rest ≡ false
    → next_is (codes ".") rest ≡ false
    → operand (suc n) level (ts ++ rest) ≡ ok (var x, rest)
unfolding operand
operand-var n level _ _ rest (one_name t is) open_next dot_next =
    let k : dotted (t ∷ rest) ≡ ok (t.value, rest) =
      dotted-Names t.value (t ∷ []) rest (one_name t is) dot_next in
    rw (operand, name_head t is, k, open_next) refl
operand-var n level _ _ rest (two_names t d u is dot is_too) open_next dot_next =
    let k : dotted (t ∷ d ∷ u ∷ rest) ≡ ok (t.value ++ b'.' ∷ u.value, rest) =
      dotted-Names (t.value ++ b'.' ∷ u.value) (t ∷ d ∷ u ∷ []) rest (two_names t d u is dot is_too)
        dot_next in
    rw (operand, name_head t is, k, open_next) refl

open-dot : (t : Token) → is_bare (codes "(") t ≡ true → is_bare (codes ".") t ≡ false
open-dot t h =
    let same : t.value ≡ codes "(" = (text_eq_iff t.value (codes "(")).0 (ground (h, arith)) in
    let s : t.string ≡ false = ground (h, arith) in rw (s, same) refl

-- What an operand is once its name is read.
operand-Names :
    (n level : ℕ) (f : Text) (xs zs : List Token) (out : Result Error (Expr × List Token))
    → Names f xs
    → next_is (codes "(") zs ≡ true
    → next_is (codes ".") zs ≡ false
    → elim (next_is (codes ")") (tail zs)) [
      | true ↦ ok (call f no_more, tail (tail zs))
      | false ↦ elim (arguments n level (tail zs)) [
        | err e ↦ err e
        | ok (args, more) ↦ elim (expect (codes ")") more) [
          | err x ↦ err x
          | ok (u, last) ↦ ok (call f args, last)
        ]
      ]
    ]
      ≡ out
    → operand (suc n) level (xs ++ zs) ≡ out
unfolding operand
operand-Names n level _ _ zs out (one_name t is) opens dot_next h =
    let k : dotted (t ∷ zs) ≡ ok (t.value, zs) =
      dotted-Names t.value (t ∷ []) zs (one_name t is) dot_next in
    rw (operand, name_head t is, k, opens) h
operand-Names n level _ _ zs out (two_names t d u is dot is_too) opens dot_next h =
    let k : dotted (t ∷ d ∷ u ∷ zs) ≡ ok (t.value ++ b'.' ∷ u.value, zs) =
      dotted-Names (t.value ++ b'.' ∷ u.value) (t ∷ d ∷ u ∷ []) zs (two_names t d u is dot is_too)
        dot_next in
    rw (operand, name_head t is, k, opens) h

pub operand-call :
    (n level : ℕ) (f : Text) (t u : Token) (xs zs rest : List Token) (args : Exprs)
    → Names f xs
    → is_bare (codes "(") t ≡ true
    → next_is (codes ")") zs ≡ false
    → arguments n level zs ≡ ok (args, u ∷ rest)
    → is_bare (codes ")") u ≡ true
    → operand (suc n) level (xs ++ t ∷ zs) ≡ ok (call f args, rest)
operand-call n level f t u xs zs rest args names opens more reads closes =
    operand-Names n level f xs (t ∷ zs) (ok (call f args, rest)) names opens (open-dot t opens)
      (rw (more, reads, closes) refl)

pub operand-call_none :
    (n level : ℕ) (f : Text) (t u : Token) (xs rest : List Token)
    → Names f xs
    → is_bare (codes "(") t ≡ true
    → is_bare (codes ")") u ≡ true
    → operand (suc n) level (xs ++ t ∷ u ∷ rest) ≡ ok (call f no_more, rest)
operand-call_none n level f t u xs rest names opens closes =
    operand-Names n level f xs (t ∷ u ∷ rest) (ok (call f no_more, rest)) names opens
      (open-dot t opens) (rw closes refl)

-- The loop on operators ends where a weaker one or none follows.
pub climb_end :
    (n level lowest : ℕ) (e : Expr) (rest : List Token)
    → 1 ≤ n
    → depth e ≤ 128
    → next_precedence rest < lowest ⊎ (next_precedence rest ≡ 0)
    → climb n level lowest e rest ≡ ok (e, rest)
unfolding climb
climb_end zero level lowest e rest h d stops = absurd (omega arith)
climb_end (suc n) level lowest e rest h d stops =
    let shallow : too_deep e ≡ false = ground (d, arith) in
    let ends : (next_precedence rest == 0) || ltb (next_precedence rest) lowest ≡ true =
      ground (stops, arith) in
    rw (climb, shallow, ends) refl

next_precedence_lem :
    (t : Token) (ts : List Token) → t.string ≡ false → next_precedence (t ∷ ts) ≡ precedence t.value
unfolding next_precedence
next_precedence_lem t ts not_string = rw not_string refl

-- A step of the loop.
pub climb_step :
    (n level lowest : ℕ) (l r : Expr) (t : Token) (ts rest : List Token)
    (out : Result Error (Expr × List Token))
    → depth l ≤ 128
    → 1 ≤ precedence t.value
    → lowest ≤ precedence t.value
    → t.string ≡ false
    → expr n level (precedence t.value + 1) ts ≡ ok (r, rest)
    → climb n level lowest (binary t.value l r) rest ≡ out
    → climb (suc n) level lowest l (t ∷ ts) ≡ out
unfolding climb
climb_step n level lowest l r t ts rest out d some_op fits not_string right h =
    let shallow : too_deep l ≡ false = ground (d, arith) in
    let same : next_precedence (t ∷ ts) ≡ precedence t.value =
      next_precedence_lem t ts not_string in
    let goes : (next_precedence (t ∷ ts) == 0) || ltb (next_precedence (t ∷ ts)) lowest ≡ false =
      ground (same, some_op, fits, arith) in
    let reads : expr n level (next_precedence (t ∷ ts) + 1) ts ≡ ok (r, rest) = rw same right in
    rw (climb, shallow, goes, reads) h

-- An operand, then the loop.
pub expr_lem :
    (n level lowest : ℕ) (e : Expr) (ts rest : List Token) (out : Result Error (Expr × List Token))
    → level + 1 ≤ 128
    → operand n (level + 1) ts ≡ ok (e, rest)
    → climb n (level + 1) lowest e rest ≡ out
    → expr (suc n) level lowest ts ≡ out
unfolding expr
expr_lem n level lowest e ts rest out fits reads h =
    let shallow : ltb 128 (level + 1) ≡ false = ground (fits, arith) in rw (expr, shallow, reads) h
