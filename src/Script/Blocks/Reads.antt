-- ===== src/Script/Blocks/Reads.antt =====
-- src/script/syntax.rs: what the parsers of statements leave of the tokens.
use rgnix.Base.{
  Bool-cases, length, codes, ℕ, ◌+◌, ◌*◌, ◌≤◌, ◌≡◌, refl, ◌≢◌, ◌⊎◌, inl, inr, true, List, arith,
}
use rgnix.Script.{Token}
use rgnix.Script.Parse.{
  Expr, int, str, bool, nil, var, call, unary, binary, next_is, tail, expect, ident, expr,
}
use rgnix.Script.Parse.Reads.{
  ended, Shorter, Reads, then-Reads, longer-Reads, tail-Shorter, expect-Reads, ident-Reads,
}
use rgnix.Script.Parse.Total.{expr-Reads}
use rgnix.Script.Blocks.{
  next_among, return_ends, skip, on_local, on_return, on_if, on_while, on_other, start, declaration,
  returned, assignment, is_call, plain_statement,
}

pub declaration-Reads :
    (n level : ℕ) (ts : List Token)
    → ended ts ≡ true
    → 3 * length ts + 3 ≤ n
    → Reads 0 ts (declaration n level ts)
unfolding declaration
declaration-Reads n level ts e h = then-Reads 0 1 ts (ident ts) _ (ident-Reads ts e) λ x rest r.
    then-Reads 0 1 ts (expect (codes "=") rest) _
      (longer-Reads 1 1 ts rest _ (expect-Reads (codes "=") rest refl r.0) (omega arith))
      (λ u more m.
        then-Reads 0 1 ts (expr n level 0 more) _
          (longer-Reads 1 1 ts more _ (expr-Reads n level 0 more m.0 (omega arith)) (omega arith))
          (λ v last l. (l.0, omega arith)))

pub returned-Reads :
    (n level : ℕ) (ts : List Token)
    → ended ts ≡ true
    → 3 * length ts + 3 ≤ n
    → Reads 0 ts (returned n level ts)
unfolding returned
returned-Reads n level ts e h = elim (Bool-cases (next_among return_ends ts)) [
  | inl bare_return ↦ rw (bare_return, Reads) (e, omega arith)
  | inr value ↦
      rw (value, Reads)
        (then-Reads 0 1 ts (expr n level 0 ts) _ (expr-Reads n level 0 ts e h)
          (λ v last l. (l.0, omega arith)))
]

pub assignment-Reads :
    (n level : ℕ) (target : Expr) (ts : List Token)
    → ended ts ≡ true
    → 3 * length ts + 3 ≤ n
    → Reads 0 ts (assignment n level target ts)
unfolding assignment
assignment-Reads n level (var x) ts e h =
    then-Reads 0 1 ts (expr n level 0 ts) _ (expr-Reads n level 0 ts e h)
      (λ v last l. (l.0, omega arith))
assignment-Reads n level (int i) ts e h = refl
assignment-Reads n level (str s) ts e h = refl
assignment-Reads n level (bool b) ts e h = refl
assignment-Reads n level nil ts e h = refl
assignment-Reads n level (call f es) ts e h = refl
assignment-Reads n level (unary o x) ts e h = refl
assignment-Reads n level (binary o l r) ts e h = refl

pub plain_statement-Reads :
    (n level : ℕ) (ts : List Token)
    → ended ts ≡ true
    → 3 * length ts + 3 ≤ n
    → Reads 1 ts (plain_statement n level ts)
unfolding plain_statement
plain_statement-Reads n level ts e h =
    then-Reads 1 1 ts (expr n level 0 ts) _ (expr-Reads n level 0 ts e h) λ x rest r.
      elim (Bool-cases (next_is (codes "=") rest)) [
        | inl equals ↦
            let s : Shorter 1 rest (tail rest) = tail-Shorter (codes "=") rest refl r.0 equals in
            rw equals (
              longer-Reads 0 1 ts (tail rest) _
                (assignment-Reads n level x (tail rest) s.0 (omega arith)) (omega arith))
        | inr other ↦ rw other (elim (Bool-cases (is_call x)) [
          | inl calls ↦ rw calls r
          | inr not_call ↦ rw not_call refl
        ])
      ]

pub skip-Shorter : (ts : List Token) → ended ts ≡ true → Shorter 0 ts (skip (codes ";") ts)
skip-Shorter ts e = elim (Bool-cases (next_is (codes ";") ts)) [
  | inl semicolon ↦
      let s : Shorter 1 ts (tail ts) = tail-Shorter (codes ";") ts refl e semicolon in
      rw semicolon (s.0, omega arith)
  | inr other ↦ rw other (e, omega arith)
]

-- A loop is entered past its keyword.
pub start-Shorter :
    (ts : List Token) → ended ts ≡ true → start ts ≢ on_other → Shorter 1 ts (tail ts)
unfolding start
start-Shorter ts e h = elim (Bool-cases (next_is (codes "local") ts)) [
  | inl a ↦ tail-Shorter (codes "local") ts refl e a
  | inr not_a ↦ elim (Bool-cases (next_is (codes "return") ts)) [
    | inl b ↦ tail-Shorter (codes "return") ts refl e b
    | inr not_b ↦ elim (Bool-cases (next_is (codes "if") ts)) [
      | inl c ↦ tail-Shorter (codes "if") ts refl e c
      | inr not_c ↦ elim (Bool-cases (next_is (codes "while") ts)) [
        | inl d ↦ tail-Shorter (codes "while") ts refl e d
        | inr not_d ↦ absurd (h (rw (not_a, not_b, not_c, not_d) refl))
      ]
    ]
  ]
]

pub Start-cases :
    (ts : List Token)
    → (start ts ≡ on_local)
      ⊎ ((start ts ≡ on_return)
          ⊎ ((start ts ≡ on_if) ⊎ ((start ts ≡ on_while) ⊎ (start ts ≡ on_other))))
unfolding start
Start-cases ts = ground arith
