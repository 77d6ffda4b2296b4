-- ===== src/Script/Parse/Grammar.antt =====
-- src/script/syntax.rs: the grammar of expressions that the parser of precedence climbing reads.
use rgnix.Base.{
  Bool-cases, Text, codes, text_eq_iff, ℕ, suc, ◌+◌, ◌≤◌, ◌≡◌, refl, inl, inr, true, false, not,
  ◌&&◌, List, [], ◌∷◌, ◌++◌, arith,
}
use rgnix.Script.{Token}
use rgnix.Script.Parse.{
  Expr, var, call, unary, binary, Exprs, no_more, also, is_bare, next_is, is_name, prefix, paren,
  literal, head, precedence, next_precedence,
}

-- An identifier, or two with a dot between.
pub data Names : Text → List Token → Type 0 where
  one_name : (t : Token) → not t.string && is_name t.value ≡ true → Names t.value (t ∷ [])
  two_names :
      (t d u : Token)
      → not t.string && is_name t.value ≡ true
      → is_bare (codes ".") d ≡ true
      → not u.string && is_name u.value ≡ true
      → Names (t.value ++ b'.' ∷ u.value) (t ∷ d ∷ u ∷ [])

-- `Writes h m e ts`: the tokens are an expression whose operators outside parentheses have at least
-- the precedence `m`, and in which at most `h` prefixes, parentheses, arguments and right operands
-- stand in one another. An operator of precedence `p` has on its left one of at least `p`, and on its
-- right one of at least `p + 1`.
mutual
  pub data Writes : ℕ → ℕ → Expr → List Token → Type 0 where
    writes_literal :
        (h m : ℕ) (t : Token) (e : Expr) → head t ≡ literal e → Writes (suc h) m e (t ∷ [])
    writes_prefix :
        (h m : ℕ) (t : Token) (op : Text) (e : Expr) (ts : List Token)
        → head t ≡ prefix op
        → Writes h 7 e ts
        → Writes (suc h) m (unary op e) (t ∷ ts)
    writes_paren :
        (h m : ℕ) (t u : Token) (e : Expr) (ts : List Token)
        → head t ≡ paren
        → Writes h 0 e ts
        → is_bare (codes ")") u ≡ true
        → Writes (suc h) m e (t ∷ (ts ++ u ∷ []))
    writes_var : (h m : ℕ) (x : Text) (ts : List Token) → Names x ts → Writes (suc h) m (var x) ts
    writes_call :
        (h m : ℕ) (f : Text) (t u : Token) (xs ys : List Token) (es : Exprs)
        → Names f xs
        → is_bare (codes "(") t ≡ true
        → WritesAll h es ys
        → is_bare (codes ")") u ≡ true
        → Writes (suc h) m (call f es) (xs ++ t ∷ (ys ++ u ∷ []))
    writes_binary :
        (h m : ℕ) (t : Token) (l r : Expr) (xs ys : List Token)
        → t.string ≡ false
        → 1 ≤ precedence t.value
        → m ≤ precedence t.value
        → Writes (suc h) (precedence t.value) l xs
        → Writes h (precedence t.value + 1) r ys
        → Writes (suc h) m (binary t.value l r) (xs ++ t ∷ ys)

  -- The arguments of a call.
  pub data WritesAll : ℕ → Exprs → List Token → Type 0 where
    writes_none : (h : ℕ) → WritesAll h no_more []
    writes_last :
        (h : ℕ) (e : Expr) (ts : List Token) → Writes h 0 e ts → WritesAll h (also e no_more) ts
    writes_more :
        (h : ℕ) (c : Token) (e x : Expr) (es : Exprs) (xs ys : List Token)
        → Writes h 0 e xs
        → is_bare (codes ",") c ≡ true
        → WritesAll h (also x es) ys
        → WritesAll h (also e (also x es)) (xs ++ c ∷ ys)

-- What follows an expression whose operators have at least the precedence `m`.
abbrev pub Stops : ℕ → List Token → Type 0
Stops m rest =
    (next_precedence rest ≤ m)
    × (next_is (codes "(") rest ≡ false)
    × (next_is (codes ".") rest ≡ false)

-- A token with a text of punctuation is no operator, and the other way round.
bare_precedence :
    (value : Text) (t : Token)
    → precedence value ≡ 0
    → is_bare value t ≡ true
    → precedence t.value ≡ 0
bare_precedence value t none_such h =
    let same : t.value ≡ value = (text_eq_iff t.value value).0 (ground arith) in rw same none_such

operator-is_bare :
    (value : Text) (t : Token)
    → precedence value ≡ 0
    → 1 ≤ precedence t.value
    → is_bare value t ≡ false
operator-is_bare value t none_such h = elim (Bool-cases (is_bare value t)) [
  | inr other ↦ other
  | inl same ↦
      absurd
        (let z : precedence t.value ≡ 0 = bare_precedence value t none_such same in omega arith)
]

pub operator-Stops :
    (t : Token) (ts : List Token)
    → t.string ≡ false
    → 1 ≤ precedence t.value
    → Stops (precedence t.value) (t ∷ ts)
unfolding next_precedence precedence
operator-Stops t ts not_string h = (
  rw not_string (omega arith),
  operator-is_bare (codes "(") t refl h,
  operator-is_bare (codes ".") t refl h,
)
