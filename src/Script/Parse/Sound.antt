-- ===== src/Script/Parse/Sound.antt =====
-- src/script/syntax.rs: what the parser of expressions returns, in the grammar.
use rgnix.Base.{
  Bool-cases, Text, codes, Result, ok, err, ℕ, ◌≤◌, ◌<◌, ◌≡◌, refl, sym, ap, ◌∙◌, subst, ◌≢◌, ◌⊎◌,
  inl, inr, true, not, ◌&&◌, List, [], ◌∷◌, ◌++◌, arith,
}
use rgnix.Script.{Token, Error}
use rgnix.Script.Parse.{
  Expr, Exprs, no_more, is_bare, next_is, tail, expect, is_name, ident, dotted, next_precedence,
}
use rgnix.Script.Parse.Grammar.{
  Names, one_name, two_names, Writes, writes_literal, writes_prefix, writes_paren, writes_var,
  writes_call, writes_binary, WritesAll,
}

-- What holds of a result and of what is left.
abbrev pub Gives {ℓ} :
    {A : Type ℓ} → (A → List Token → Type 0) → Result Error (A × List Token) → Type 0
Gives P (ok (a, rest)) = P a rest
Gives P (err e) = Unit {0}

pub then-Gives {ℓ ℓ'} :
    {A : Type ℓ} {B : Type ℓ'} (P : A → List Token → Type 0) (Q : B → List Token → Type 0)
    (r : Result Error (A × List Token)) (next : A → List Token → Result Error (B × List Token))
    → Gives P r
    → ((a : A) (rest : List Token) → P a rest → Gives Q (next a rest))
    → Gives Q (elim r [ err e ↦ err e | ok (a, rest) ↦ next a rest ])
then-Gives P Q (err e) next h f = tt
then-Gives P Q (ok (a, rest)) next h f = f a rest h

-- The loop on operators stopped here.
abbrev pub Weak : ℕ → List Token → Type 0
Weak lowest rest = next_precedence rest < lowest ⊎ (next_precedence rest ≡ 0)

abbrev pub Operand : ℕ → List Token → Expr → List Token → Type 0
Operand h ts e rest = (xs : List Token) × ((ts ≡ xs ++ rest) × Writes h 7 e xs)

abbrev pub Derives : ℕ → ℕ → List Token → Expr → List Token → Type 0
Derives h lowest ts e rest =
    (xs : List Token) × ((ts ≡ xs ++ rest) × Writes h lowest e xs × Weak lowest rest)

abbrev pub Arguments : ℕ → List Token → Exprs → List Token → Type 0
Arguments h ts es rest =
    (xs : List Token) × ((ts ≡ xs ++ rest) × WritesAll h es xs × (es ≢ no_more))

abbrev pub NamesOf : List Token → Text → List Token → Type 0
NamesOf ts x rest = (xs : List Token) × ((ts ≡ xs ++ rest) × Names x xs)

ident-Gives :
    (ts : List Token)
    → Gives
        (λ x rest.
          (t : Token) × ((ts ≡ t ∷ rest)
            × (not t.string && is_name t.value ≡ true)
            × (x ≡ t.value)))
        (ident ts)
unfolding ident
ident-Gives [] = tt
ident-Gives (t ∷ ts) = elim (Bool-cases (not t.string && is_name t.value)) [
  | inl fits ↦ rw (fits, Gives) (t, (refl, fits, refl))
  | inr other ↦ rw (other, Gives) tt
]

pub expect-Gives :
    (value : Text) (ts : List Token)
    → Gives (λ u rest. (t : Token) × ((ts ≡ t ∷ rest) × (is_bare value t ≡ true))) (expect value ts)
expect-Gives value [] = tt
expect-Gives value (t ∷ ts) = elim (Bool-cases (is_bare value t)) [
  | inl here ↦ rw (here, Gives) (t, (refl, here))
  | inr other ↦ rw (other, Gives) tt
]

pub next_is-Gives :
    (value : Text) (ts : List Token)
    → next_is value ts ≡ true
    → (t : Token) × ((ts ≡ t ∷ tail ts) × (is_bare value t ≡ true))
next_is-Gives value [] h = absurd (ground (h, arith))
next_is-Gives value (t ∷ ts) h = (t, (refl, h))

pub dotted-Gives : (ts : List Token) → Gives (NamesOf ts) (dotted ts)
unfolding dotted
dotted-Gives ts = then-Gives _ (NamesOf ts) (ident ts) _ (ident-Gives ts) λ x rest g.
    elim (Bool-cases (next_is (codes ".") rest)) [
      | inr single ↦
          rw (single, Gives)
            (g.0 ∷ [], (g.1.0, subst (λ z. Names z (g.0 ∷ [])) (sym g.1.2) (one_name g.0 g.1.1)))
      | inl dot ↦
          let d : (t : Token) × ((rest ≡ t ∷ tail rest) × (is_bare (codes ".") t ≡ true)) =
            next_is-Gives (codes ".") rest dot in
          rw (dot, Gives)
            (then-Gives _ (NamesOf ts) (ident (tail rest)) _ (ident-Gives (tail rest)) (λ y more k.
              let same : x ++ b'.' ∷ y ≡ g.0.value ++ b'.' ∷ k.0.value = rw (g.1.2, k.1.2) refl in
              (
                g.0 ∷ d.0 ∷ k.0 ∷ [],
                (
                  g.1.0 ∙ ap (λ z. g.0 ∷ z) (d.1.0 ∙ ap (λ z. d.0 ∷ z) k.1.0),
                  subst (λ z. Names z (g.0 ∷ d.0 ∷ k.0 ∷ [])) (sym same)
                      (two_names g.0 d.0 k.0 g.1.1 d.1.1 k.1.1),
                ),
              )))
    ]

-- An expression of stronger operators is one of weaker ones.
pub Writes-weaker :
    (h m m' : ℕ) (e : Expr) (ts : List Token) → Writes h m e ts → m' ≤ m → Writes h m' e ts
Writes-weaker _ _ m' _ _ (writes_literal h m t e is) le = writes_literal h m' t e is
Writes-weaker _ _ m' _ _ (writes_prefix h m t op e ts is d) le = writes_prefix h m' t op e ts is d
Writes-weaker _ _ m' _ _ (writes_paren h m t u e ts is d close) le =
    writes_paren h m' t u e ts is d close
Writes-weaker _ _ m' _ _ (writes_var h m x ts names) le = writes_var h m' x ts names
Writes-weaker _ _ m' _ _ (writes_call h m f t u xs ys es names opens d close) le =
    writes_call h m' f t u xs ys es names opens d close
Writes-weaker _ _ m' _ _ (writes_binary h m t l r xs ys s p q dl dr) le =
    writes_binary h m' t l r xs ys s p (omega arith) dl dr
