-- ===== src/Script/Parse/Shallow.antt =====
-- src/script/syntax.rs: the depth of the expressions that the parser returns.
use rgnix.Base.{
  ltb, ◌==◌, Bool-cases, Result, ok, err, ℕ, zero, suc, ◌+◌, ◌≤◌, inl, inr, ◌||◌, List, arith,
}
use rgnix.Script.{Token, Error}
use rgnix.Script.Parse.{
  Expr, binary, depth, tail, next_precedence, next_value, too_deep, expr, operand, climb,
}

abbrev pub Shallow : Expr → Type 0
Shallow e = depth e ≤ 128

-- What a parser returns when it succeeds.
abbrev pub Holds {ℓ} : {A : Type ℓ} → (A → Type 0) → Result Error (A × List Token) → Type 0
Holds P (ok (a, rest)) = P a
Holds P (err e) = Unit {0}

pub then-Holds {ℓ ℓ'} :
    {A : Type ℓ} {B : Type ℓ'} (P : A → Type 0) (Q : B → Type 0) (r : Result Error (A × List Token))
    (next : A → List Token → Result Error (B × List Token))
    → Holds P r
    → ((a : A) (rest : List Token) → P a → Holds Q (next a rest))
    → Holds Q (elim r [ err e ↦ err e | ok (a, rest) ↦ next a rest ])
then-Holds P Q (err e) next h f = tt
then-Holds P Q (ok (a, rest)) next h f = f a rest h

pub any-Holds {ℓ} : {A : Type ℓ} (r : Result Error (A × List Token)) → Holds (λ a. Unit {0}) r
any-Holds (err e) = tt
any-Holds (ok (a, rest)) = tt

pub map-Holds {ℓ} :
    {A : Type ℓ} (P Q : A → Type 0) (r : Result Error (A × List Token))
    → ((a : A) → P a → Q a)
    → Holds P r
    → Holds Q r
map-Holds P Q (err e) f h = tt
map-Holds P Q (ok (a, rest)) f h = f a h

climb-Shallow :
    (n level lowest : ℕ) (left : Expr) (ts : List Token)
    → Holds Shallow (climb n level lowest left ts)
unfolding climb
climb-Shallow zero level lowest left ts = tt
climb-Shallow (suc n) level lowest left ts = elim (Bool-cases (too_deep left)) [
  | inl deep ↦ rw (deep, Holds) tt
  | inr fits ↦
      rw (fits, Holds)
        (elim (Bool-cases ((next_precedence ts == 0) || ltb (next_precedence ts) lowest)) [
          | inl stops ↦ rw (stops, Holds) (ground arith)
          | inr goes ↦
              rw (goes, Holds)
                (then-Holds _ Shallow (expr n level (next_precedence ts + 1) (tail ts)) _
                  (any-Holds _)
                  (λ right rest u.
                    climb-Shallow n level lowest (binary (next_value ts) left right) rest))
        ])
]

pub expr-Shallow : (n level lowest : ℕ) (ts : List Token) → Holds Shallow (expr n level lowest ts)
unfolding expr
expr-Shallow zero level lowest ts = tt
expr-Shallow (suc n) level lowest ts = elim (Bool-cases (ltb 128 (level + 1))) [
  | inl deep ↦ rw (deep, Holds) tt
  | inr fits ↦
      rw (fits, Holds)
        (then-Holds _ Shallow (operand n (level + 1) ts) _ (any-Holds _)
          (λ left rest u. climb-Shallow n (level + 1) lowest left rest))
]
