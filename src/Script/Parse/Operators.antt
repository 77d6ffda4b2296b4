-- ===== src/Script/Parse/Operators.antt =====
-- src/script/syntax.rs: one operator of an expression, in the grammar.
use rgnix.Base.{
  Bool-cases, ℕ, suc, ◌+◌, ◌≤◌, ◌≡◌, refl, sym, ap, ◌∙◌, inl, inr, false, List, [], ◌∷◌, ◌++◌,
  append_assoc, arith,
}
use rgnix.Script.{Token}
use rgnix.Script.Parse.{Expr, binary, tail, precedence, next_precedence, next_value}
use rgnix.Script.Parse.Grammar.{Writes, writes_binary}
use rgnix.Script.Parse.Sound.{Writes-weaker}

pub split-append :
    (xs us more : List Token) {ts rest : List Token}
    → ts ≡ xs ++ rest
    → rest ≡ us ++ more
    → ts ≡ (xs ++ us) ++ more
split-append xs us more a b = a ∙ (ap (λ z. xs ++ z) b ∙ sym (append_assoc xs us more))

-- The operator that the loop has found.
abbrev pub Operator : List Token → Type 0
Operator ts =
    (t : Token) × ((ts ≡ t ∷ tail ts)
      × (t.string ≡ false)
      × (next_precedence ts ≡ precedence t.value)
      × (next_value ts ≡ t.value))

pub operator_lem : (ts : List Token) → 1 ≤ next_precedence ts → Operator ts
unfolding next_precedence
operator_lem [] h = absurd (omega (h, arith))
operator_lem (t ∷ ts) h = elim (Bool-cases t.string) [
  | inl quoted ↦ absurd (let bad : 1 ≤ 0 = rw quoted at h in omega arith)
  | inr not_quoted ↦ (t, (refl, not_quoted, rw not_quoted refl, refl))
]

pub binary_lem :
    (h b : ℕ) (ts : List Token) (l r : Expr) (xs ys : List Token) (o : Operator ts)
    → 1 ≤ next_precedence ts
    → next_precedence ts ≤ b
    → Writes (suc h) b l xs
    → Writes h (next_precedence ts + 1) r ys
    → Writes (suc h) (next_precedence ts) (binary (next_value ts) l r) (xs ++ o.0 ∷ ys)
binary_lem h b ts l r xs ys o some_op weak wl wr =
    let same : next_precedence ts ≡ precedence o.0.value = o.1.2 in
    let right : Writes h (precedence o.0.value + 1) r ys = rw same at wr in
    rw (o.1.3) (
      writes_binary h (next_precedence ts) o.0 l r xs ys o.1.1 (omega arith) (omega arith)
        (Writes-weaker (suc h) b (precedence o.0.value) l xs wl (omega arith)) right)

pub Operator-split :
    (ts xs ys rest : List Token) (o : Operator ts) {all_tokens : List Token}
    → all_tokens ≡ xs ++ ts
    → tail ts ≡ ys ++ rest
    → all_tokens ≡ (xs ++ o.0 ∷ ys) ++ rest
Operator-split ts xs ys rest o split after =
    split-append xs (o.0 ∷ ys) rest split (o.1.0 ∙ ap (λ z. o.0 ∷ z) after)
