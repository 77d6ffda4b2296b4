-- ===== src/Script/Blocks.antt =====
-- src/script/syntax.rs: statements, blocks and functions of a script. `level` is the parser's counter
-- of nested blocks and expressions; a statement's place (`locations`) is not kept.
pub mod Nested
pub mod Reads
pub mod Total
use rgnix.Base.{
  ltb, if◌then◌else◌, any, Text, codes, ok, err, ℕ, zero, suc, ◌+◌, Bool, true, false, Option, none,
  some, List, [], ◌∷◌,
}
use rgnix.Script.{Token, plain, out_of_fuel}
use rgnix.Script.Parse.{
  Expr, int, str, bool, nil, var, call, unary, binary, Parser, next_is, tail, expect, ident, expr,
}

mutual
  pub data Stmt : Type 0 where
    local assign : Text → Expr → Stmt
    call_only : Expr → Stmt
    return_value : Option Expr → Stmt
    if_chain : Branches → Stmts → Stmt
    while_loop : Expr → Stmts → Stmt

  pub data Stmts : Type 0 where
    no_statement : Stmts
    then_statement : Stmt → Stmts → Stmts

  pub data Branches : Type 0 where
    no_branch : Branches
    branch : Expr → Stmts → Branches → Branches

pub record Function : Type 0 where
  pub name : Text
  pub params : List Text
  pub body : Stmts

unfoldable pub next_among : List Text → List Token → Bool
next_among values ts = any (λ value. next_is value ts) values

abbrev pub block_ends : List Text
block_ends = codes "end" ∷ codes "else" ∷ codes "elseif" ∷ codes "<eof>" ∷ []

abbrev pub return_ends : List Text
return_ends = codes "end" ∷ codes "else" ∷ codes "elseif" ∷ codes ";" ∷ codes "<eof>" ∷ []

-- `Parser::eat` where what it returns is not read.
abbrev pub skip : Text → List Token → List Token
skip value ts = if next_is value ts then tail ts else ts

-- What a statement begins with.
pub data Start : Type 0 where
  on_local on_return on_if on_while on_other : Start

unfoldable pub start : List Token → Start
start ts =
    if next_is (codes "local") ts
    then on_local
    else if next_is (codes "return") ts
    then on_return
    else if next_is (codes "if") ts
    then on_if
    else if next_is (codes "while") ts
    then on_while
    else on_other

-- `local NAME = EXPR`, after `local`
unfoldable pub declaration : ℕ → ℕ → Parser Stmt
declaration n level ts = elim (ident ts) [
  | err e ↦ err e
  | ok (name, rest) ↦ elim (expect (codes "=") rest) [
    | err e ↦ err e
    | ok (u, more) ↦ elim (expr n level 0 more) [
      | err e ↦ err e
      | ok (e, last) ↦ ok (local name e, last)
    ]
  ]
]

-- A `return`, after the word.
unfoldable pub returned : ℕ → ℕ → Parser Stmt
returned n level ts = elim (next_among return_ends ts) [
  | true ↦ ok (return_value none, ts)
  | false ↦ elim (expr n level 0 ts) [
    | err e ↦ err e
    | ok (e, rest) ↦ ok (return_value (some e), rest)
  ]
]

-- An assignment, after `=`.
unfoldable pub assignment : ℕ → ℕ → Expr → Parser Stmt
assignment n level (var name) ts = elim (expr n level 0 ts) [
  | err e ↦ err e
  | ok (e, rest) ↦ ok (assign name e, rest)
]
assignment n level (int i) ts = err (plain "assignment target must be a local variable")
assignment n level (str s) ts = err (plain "assignment target must be a local variable")
assignment n level (bool b) ts = err (plain "assignment target must be a local variable")
assignment n level nil ts = err (plain "assignment target must be a local variable")
assignment n level (call f es) ts = err (plain "assignment target must be a local variable")
assignment n level (unary o e) ts = err (plain "assignment target must be a local variable")
assignment n level (binary o l r) ts = err (plain "assignment target must be a local variable")

-- `matches!(e, Expr::Call(..))`
unfoldable pub is_call : Expr → Bool
is_call (call f es) = true
is_call (int i) = false
is_call (str s) = false
is_call (bool b) = false
is_call nil = false
is_call (var x) = false
is_call (unary o e) = false
is_call (binary o l r) = false

-- A statement that begins with an expression.
unfoldable pub plain_statement : ℕ → ℕ → Parser Stmt
unfolding assignment is_call
plain_statement n level ts = elim (expr n level 0 ts) [
  | err e ↦ err e
  | ok (e, rest) ↦ elim (next_is (codes "=") rest) [
    | true ↦ assignment n level e (tail rest)
    | false ↦ elim (is_call e) [
      | true ↦ ok (call_only e, rest)
      | false ↦ err (plain "only calls may be used as expression statements")
    ]
  ]
]

unfoldable mutual
  unfolding start declaration returned plain_statement

  -- `Parser::block`
  pub block : ℕ → ℕ → Parser Stmts
  block zero level ts = err out_of_fuel
  block (suc n) level ts = elim (ltb 64 (level + 1)) [
    | true ↦ err (plain "block nesting exceeds 64")
    | false ↦ statements n (level + 1) ts
  ]

  -- The loop of `block`.
  pub statements : ℕ → ℕ → Parser Stmts
  statements zero level ts = err out_of_fuel
  statements (suc n) level ts = elim (next_among block_ends ts) [
    | true ↦ ok (no_statement, ts)
    | false ↦ elim (statement n level ts) [
      | err e ↦ err e
      | ok (s, rest) ↦ elim (statements n level (skip (codes ";") rest)) [
        | err e ↦ err e
        | ok (more, last) ↦ ok (then_statement s more, last)
      ]
    ]
  ]

  -- `Parser::statement`
  pub statement : ℕ → ℕ → Parser Stmt
  statement zero level ts = err out_of_fuel
  statement (suc n) level ts = elim (start ts) [
    | on_local ↦ declaration n level (tail ts)
    | on_return ↦ returned n level (tail ts)
    | on_if ↦ elim (branches n level 1 (tail ts)) [
      | err e ↦ err e
      | ok (bs, rest) ↦ elim (next_is (codes "else") rest) [
        | false ↦ elim (expect (codes "end") rest) [
          | err e ↦ err e
          | ok (u, last) ↦ ok (if_chain bs no_statement, last)
        ]
        | true ↦ elim (block n level (tail rest)) [
          | err e ↦ err e
          | ok (other, more) ↦ elim (expect (codes "end") more) [
            | err e ↦ err e
            | ok (u, last) ↦ ok (if_chain bs other, last)
          ]
        ]
      ]
    ]
    | on_while ↦ elim (expr n level 0 (tail ts)) [
      | err e ↦ err e
      | ok (e, rest) ↦ elim (expect (codes "do") rest) [
        | err x ↦ err x
        | ok (u, inner) ↦ elim (block n level inner) [
          | err x ↦ err x
          | ok (b, more) ↦ elim (expect (codes "end") more) [
            | err x ↦ err x
            | ok (v, last) ↦ ok (while_loop e b, last)
          ]
        ]
      ]
    ]
    | on_other ↦ plain_statement n level ts
  ]

  -- The loop on the branches of an `if`; `count` is the number with the next one.
  pub branches : ℕ → ℕ → ℕ → Parser Branches
  branches zero level count ts = err out_of_fuel
  branches (suc n) level count ts = elim (expr n level 0 ts) [
    | err e ↦ err e
    | ok (e, rest) ↦ elim (expect (codes "then") rest) [
      | err x ↦ err x
      | ok (u, inner) ↦ elim (block n level inner) [
        | err x ↦ err x
        | ok (b, more) ↦ elim (ltb 64 count) [
          | true ↦ err (plain "if has more than 64 branches")
          | false ↦ elim (next_is (codes "elseif") more) [
            | false ↦ ok (branch e b no_branch, more)
            | true ↦ elim (branches n level (count + 1) (tail more)) [
              | err x ↦ err x
              | ok (bs, last) ↦ ok (branch e b bs, last)
            ]
          ]
        ]
      ]
    ]
  ]
