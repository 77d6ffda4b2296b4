-- ===== src/Script/Blocks/Nested.antt =====
-- src/script/syntax.rs: the limits on the size of what the parser returns.
use rgnix.Base.{
  ltb, Bool-cases, codes, ℕ, zero, suc, ◌+◌, ◌≤◌, ◌≡◌, refl, inl, inr, none, some, List, arith,
}
use rgnix.Script.{Token}
use rgnix.Script.Parse.{
  Expr, int, str, bool, nil, var, call, unary, binary, next_is, tail, expect, ident, expr,
}
use rgnix.Script.Parse.Shallow.{Shallow, Holds, then-Holds, any-Holds, map-Holds, expr-Shallow}
use rgnix.Script.Blocks.{
  Stmt, local, assign, call_only, return_value, if_chain, while_loop, Stmts, no_statement,
  then_statement, Branches, no_branch, branch, next_among, block_ends, return_ends, skip, on_local,
  on_return, on_if, on_while, on_other, start, declaration, returned, assignment, is_call,
  plain_statement, block, statements, statement, branches,
}

abbrev pub branch_count : Branches → ℕ
branch_count no_branch = 0
branch_count (branch e b bs) = 1 + branch_count bs

-- Statements that stand in a block at `level`: expressions are at most 128 deep, blocks at most 64,
-- and an `if` has at most 64 branches.
mutual
  pub Nests : ℕ → Stmts → Type 0
  Nests level no_statement = Unit {0}
  Nests level (then_statement s ss) = StmtNests level s × Nests level ss

  pub StmtNests : ℕ → Stmt → Type 0
  StmtNests level (local x e) = Shallow e
  StmtNests level (assign x e) = Shallow e
  StmtNests level (call_only e) = Shallow e
  StmtNests level (return_value none) = Unit {0}
  StmtNests level (return_value (some e)) = Shallow e
  StmtNests level (if_chain bs other) =
      BranchesNest level bs × (branch_count bs ≤ 64) × ElseNests level other
  StmtNests level (while_loop e b) = Shallow e × (level + 1 ≤ 64) × Nests (level + 1) b

  pub BranchesNest : ℕ → Branches → Type 0
  BranchesNest level no_branch = Unit {0}
  BranchesNest level (branch e b bs) =
      Shallow e × (level + 1 ≤ 64) × Nests (level + 1) b × BranchesNest level bs

  pub ElseNests : ℕ → Stmts → Type 0
  ElseNests level no_statement = Unit {0}
  ElseNests level (then_statement s ss) =
      (level + 1 ≤ 64) × StmtNests (level + 1) s × Nests (level + 1) ss

-- A block counts as what follows `else`.
else_lem : (level : ℕ) (b : Stmts) → (level + 1 ≤ 64) × Nests (level + 1) b → ElseNests level b
unfolding Nests ElseNests
else_lem level no_statement h = tt
else_lem level (then_statement s ss) h = (h.0, h.1.0, h.1.1)

declaration-Nests :
    (n level : ℕ) (ts : List Token) → Holds (StmtNests level) (declaration n level ts)
unfolding declaration StmtNests
declaration-Nests n level ts = then-Holds _ (StmtNests level) (ident ts) _ (any-Holds _) λ x rest u.
    then-Holds _ (StmtNests level) (expect (codes "=") rest) _ (any-Holds _) (λ v more w.
      then-Holds _ (StmtNests level) (expr n level 0 more) _ (expr-Shallow n level 0 more)
        (λ e last h. h))

returned-Nests : (n level : ℕ) (ts : List Token) → Holds (StmtNests level) (returned n level ts)
unfolding returned StmtNests
returned-Nests n level ts = elim (Bool-cases (next_among return_ends ts)) [
  | inl bare_return ↦ rw (bare_return, Holds) tt
  | inr value ↦
      rw (value, Holds)
        (then-Holds _ (StmtNests level) (expr n level 0 ts) _ (expr-Shallow n level 0 ts)
          (λ e last h. h))
]

assignment-Nests :
    (n level : ℕ) (target : Expr) (ts : List Token)
    → Holds (StmtNests level) (assignment n level target ts)
unfolding assignment StmtNests
assignment-Nests n level (var x) ts =
    then-Holds _ (StmtNests level) (expr n level 0 ts) _ (expr-Shallow n level 0 ts) (λ e last h. h)
assignment-Nests n level (int i) ts = tt
assignment-Nests n level (str s) ts = tt
assignment-Nests n level (bool b) ts = tt
assignment-Nests n level nil ts = tt
assignment-Nests n level (call f es) ts = tt
assignment-Nests n level (unary o x) ts = tt
assignment-Nests n level (binary o l r) ts = tt

plain_statement-Nests :
    (n level : ℕ) (ts : List Token) → Holds (StmtNests level) (plain_statement n level ts)
unfolding plain_statement StmtNests
plain_statement-Nests n level ts =
    then-Holds _ (StmtNests level) (expr n level 0 ts) _ (expr-Shallow n level 0 ts) λ x rest h.
      elim (Bool-cases (next_is (codes "=") rest)) [
        | inl equals ↦ rw (equals, Holds) (assignment-Nests n level x (tail rest))
        | inr other ↦
            rw (other, Holds)
              (elim (Bool-cases (is_call x)) [
                | inl calls ↦ rw (calls, Holds) h
                | inr not_call ↦ rw (not_call, Holds) tt
              ])
      ]

-- The branches from the one of number `count`.
abbrev FewNest : ℕ → ℕ → Branches → Type 0
FewNest level count bs = BranchesNest level bs × (branch_count bs + count ≤ 65)

mutual
  unfolding block statements statement branches Nests StmtNests BranchesNest ElseNests

  pub block-Nests :
      (n level : ℕ) (ts : List Token)
      → Holds (λ b. (level + 1 ≤ 64) × Nests (level + 1) b) (block n level ts)
  block-Nests zero level ts = tt
  block-Nests (suc n) level ts = elim (Bool-cases (ltb 64 (level + 1))) [
    | inl deep ↦ rw (deep, Holds) tt
    | inr fits ↦
        rw (fits, block)
          (map-Holds _ _ (statements n (level + 1) ts) (λ b h. (ground (fits, arith), h))
            (statements-Nests n (level + 1) ts))
  ]

  statements-Nests : (n level : ℕ) (ts : List Token) → Holds (Nests level) (statements n level ts)
  statements-Nests zero level ts = tt
  statements-Nests (suc n) level ts = elim (Bool-cases (next_among block_ends ts)) [
    | inl ends ↦ rw (ends, Holds) tt
    | inr more ↦
        rw (more, Holds)
          (then-Holds _ (Nests level) (statement n level ts) _ (statement-Nests n level ts)
            (λ s rest h.
              then-Holds _ (Nests level) (statements n level (skip (codes ";") rest)) _
                (statements-Nests n level (skip (codes ";") rest)) (λ ss last hs. (h, hs))))
  ]

  statement-Nests : (n level : ℕ) (ts : List Token) → Holds (StmtNests level) (statement n level ts)
  statement-Nests zero level ts = tt
  statement-Nests (suc n) level ts =
      elim (start ts)
          as (λ s. start ts ≡ s → Holds (StmtNests level) (statement (suc n) level ts)) [
            | on_local ↦ λ is. rw (is, statement) (declaration-Nests n level (tail ts))
            | on_return ↦ λ is. rw (is, statement) (returned-Nests n level (tail ts))
            | on_if ↦ λ is.
                rw (is, statement)
                  (then-Holds _ (StmtNests level) (branches n level 1 (tail ts)) _
                    (branches-Nest n level 1 (tail ts))
                    (λ bs rest h. elim (Bool-cases (next_is (codes "else") rest)) [
                      | inr no_other ↦ rw no_other (
                          then-Holds _ (StmtNests level) (expect (codes "end") rest) _ (any-Holds _)
                            (λ u last v. (h.0, omega arith, tt)))
                      | inl other ↦ rw other (
                          then-Holds _ (StmtNests level) (block n level (tail rest)) _
                            (block-Nests n level (tail rest))
                            (λ b more m.
                              then-Holds _ (StmtNests level) (expect (codes "end") more) _
                                (any-Holds _) (λ u last v. (h.0, omega arith, else_lem level b m))))
                    ]))
            | on_while ↦ λ is.
                rw (is, statement)
                  (then-Holds _ (StmtNests level) (expr n level 0 (tail ts)) _
                    (expr-Shallow n level 0 (tail ts))
                    (λ x rest h.
                      then-Holds _ (StmtNests level) (expect (codes "do") rest) _ (any-Holds _)
                        (λ u inner v.
                          then-Holds _ (StmtNests level) (block n level inner) _
                            (block-Nests n level inner)
                            (λ b more m.
                              then-Holds _ (StmtNests level) (expect (codes "end") more) _
                                (any-Holds _) (λ w last z. (h, m.0, m.1))))))
            | on_other ↦ λ is. rw (is, statement) (plain_statement-Nests n level ts)
          ]
        refl

  branches-Nest :
      (n level count : ℕ) (ts : List Token)
      → Holds (FewNest level count) (branches n level count ts)
  branches-Nest zero level count ts = tt
  branches-Nest (suc n) level count ts =
      then-Holds _ (FewNest level count) (expr n level 0 ts) _ (expr-Shallow n level 0 ts)
        (λ x rest h.
          then-Holds _ (FewNest level count) (expect (codes "then") rest) _ (any-Holds _)
            (λ u inner v.
              then-Holds _ (FewNest level count) (block n level inner) _ (block-Nests n level inner)
                (λ b more m. elim (Bool-cases (ltb 64 count)) [
                  | inl many ↦ rw (many, Holds) tt
                  | inr few ↦
                      rw (few, Holds)
                        (elim (Bool-cases (next_is (codes "elseif") more)) [
                          | inr last ↦ rw (last, Holds) ((h, m.0, m.1, tt), ground arith)
                          | inl another ↦
                              rw (another, Holds)
                                (then-Holds _ (FewNest level count)
                                  (branches n level (count + 1) (tail more)) _
                                  (branches-Nest n level (count + 1) (tail more))
                                  (λ bs last l. ((h, m.0, m.1, l.0), omega arith)))
                        ])
                ])))
