-- ===== src/Script/Parse.antt =====
-- src/script/syntax.rs: the parser of scripts. `depth` is the parser's counter of nested blocks and
-- expressions, which every call that succeeds leaves as it was. `fuel` bounds the depth of calls.
pub mod Accepts
pub mod Complete
pub mod Derived
pub mod Grammar
pub mod Operators
pub mod Reads
pub mod Refines
pub mod Sound
pub mod Shallow
pub mod Total
pub mod Words
use rgnix.Base.{
  ltb, ◌==◌, if◌then◌else◌, any, Text, codes, text_eq, parse_uint, Result, ok, err, ℕ, zero, suc,
  ◌+◌, max, String, Bool, true, false, not, ◌&&◌, ◌||◌, none, some, List, [], ◌∷◌, ◌++◌,
}
use rgnix.Script.{Token, Error, located, plain, out_of_fuel, is_letter}

mutual
  pub data Expr : Type 0 where
    int : ℕ → Expr
    str : Text → Expr
    bool : Bool → Expr
    nil : Expr
    var : Text → Expr
    call : Text → Exprs → Expr
    unary : Text → Expr → Expr
    binary : Text → Expr → Expr → Expr

  pub data Exprs : Type 0 where
    no_more : Exprs
    also : Expr → Exprs → Exprs

-- `Expr::depth`
unfoldable mutual
  pub depth : Expr → ℕ
  depth (int n) = 1
  depth (str s) = 1
  depth (bool b) = 1
  depth nil = 1
  depth (var x) = 1
  depth (call f args) = 1 + depths args
  depth (unary op e) = 1 + depth e
  depth (binary op l r) = 1 + max (depth l) (depth r)

  pub depths : Exprs → ℕ
  depths no_more = 0
  depths (also e es) = max (depth e) (depths es)

abbrev pub Parser : Type 0 → Type 0
Parser A = List Token → Result Error (A × List Token)

-- `Parser::at`
abbrev pub is_bare : Text → Token → Bool
is_bare value t = not t.string && text_eq t.value value

abbrev pub next_is : Text → List Token → Bool
next_is value [] = false
next_is value (t ∷ ts) = is_bare value t

abbrev pub tail : List Token → List Token
tail [] = []
tail (t ∷ ts) = ts

abbrev expected : String → List Token → Error
expected what [] = plain what
expected what (t ∷ ts) = located t.line t.col what

-- `Parser::expect`
abbrev pub expect : Text → Parser (Unit {0})
expect value ts = if next_is value ts then ok (tt, tail ts) else err (expected "expected token" ts)

abbrev pub keywords : List Text
keywords =
    codes "if"
    ∷ codes "then"
    ∷ codes "else"
    ∷ codes "elseif"
    ∷ codes "end"
    ∷ codes "while"
    ∷ codes "do"
    ∷ codes "return"
    ∷ codes "function"
    ∷ codes "local"
    ∷ codes "true"
    ∷ codes "false"
    ∷ codes "nil"
    ∷ codes "and"
    ∷ codes "or"
    ∷ codes "not"
    ∷ []

abbrev pub starts_name : Text → Bool
starts_name [] = false
starts_name (c ∷ s) = is_letter c || (c == b'_')

abbrev pub is_name : Text → Bool
is_name value = starts_name value && not (any (text_eq value) keywords)

-- `Parser::ident`
unfoldable pub ident : Parser Text
ident [] = err (plain "expected identifier")
ident (t ∷ ts) =
    if not t.string && is_name t.value
    then ok (t.value, ts)
    else err (located t.line t.col "expected identifier")

-- A name, or two with a dot between.
unfoldable pub dotted : Parser Text
unfolding ident
dotted ts = elim (ident ts) [
  | err e ↦ err e
  | ok (name, rest) ↦
      if next_is (codes ".") rest
      then elim (ident (tail rest)) [
        | err e ↦ err e
        | ok (second, more) ↦ ok (name ++ b'.' ∷ second, more)
      ]
      else ok (name, rest)
]

abbrev pub i64_max : ℕ
i64_max = 9223372036854775807

-- What an operand begins with.
pub data Head : Type 0 where
  prefix : Text → Head
  paren named : Head
  literal : Expr → Head

unfoldable pub head : Token → Head
unfolding parse_uint
head t =
    if is_bare (codes "not") t
    then prefix (codes "not")
    else if is_bare (codes "-") t
    then prefix (codes "-")
    else if is_bare (codes "(") t
    then paren
    else if t.string
    then literal (str t.value)
    else elim (parse_uint i64_max t.value) [
      | some n ↦ literal (int n)
      | none ↦
          if is_bare (codes "true") t
          then literal (bool true)
          else if is_bare (codes "false") t
          then literal (bool false)
          else if is_bare (codes "nil") t
          then literal nil
          else named
    ]

-- The precedence of an operator, 0 for other texts.
unfoldable pub precedence : Text → ℕ
precedence op =
    if text_eq op (codes "or")
    then 1
    else if text_eq op (codes "and")
    then 2
    else if any (text_eq op)
        (codes "==" ∷ codes "~=" ∷ codes "<" ∷ codes ">" ∷ codes "<=" ∷ codes ">=" ∷ [])
    then 3
    else if text_eq op (codes "..")
    then 4
    else if any (text_eq op) (codes "+" ∷ codes "-" ∷ [])
    then 5
    else if any (text_eq op) (codes "*" ∷ codes "/" ∷ codes "%" ∷ [])
    then 6
    else 0

-- The precedence of what comes next.
unfoldable pub next_precedence : List Token → ℕ
unfolding precedence
next_precedence [] = 0
next_precedence (t ∷ ts) = if t.string then 0 else precedence t.value

abbrev pub next_value : List Token → Text
next_value [] = []
next_value (t ∷ ts) = t.value

abbrev pub too_deep : Expr → Bool
too_deep e = ltb 128 (depth e)

unfoldable mutual
  unfolding dotted head next_precedence

  -- `Parser::expr`
  pub expr : ℕ → ℕ → ℕ → Parser Expr
  expr zero level lowest ts = err out_of_fuel
  expr (suc n) level lowest ts = elim (ltb 128 (level + 1)) [
    | true ↦ err (plain "expression nesting exceeds 128")
    | false ↦ elim (operand n (level + 1) ts) [
      | err e ↦ err e
      | ok (left, rest) ↦ climb n (level + 1) lowest left rest
    ]
  ]

  -- The operand before the loop on operators.
  pub operand : ℕ → ℕ → Parser Expr
  operand zero level ts = err out_of_fuel
  operand (suc n) level [] = err (plain "expected identifier")
  operand (suc n) level (t ∷ ts) = elim (head t) [
    | prefix op ↦ elim (expr n level 7 ts) [ err e ↦ err e | ok (e, rest) ↦ ok (unary op e, rest) ]
    | paren ↦ elim (expr n level 0 ts) [
      | err e ↦ err e
      | ok (e, rest) ↦ elim (expect (codes ")") rest) [
        | err x ↦ err x
        | ok (u, more) ↦ ok (e, more)
      ]
    ]
    | literal e ↦ ok (e, ts)
    | named ↦ elim (dotted (t ∷ ts)) [
      | err e ↦ err e
      | ok (f, rest) ↦ elim (next_is (codes "(") rest) [
        | false ↦ ok (var f, rest)
        | true ↦ elim (next_is (codes ")") (tail rest)) [
          | true ↦ ok (call f no_more, tail (tail rest))
          | false ↦ elim (arguments n level (tail rest)) [
            | err e ↦ err e
            | ok (args, more) ↦ elim (expect (codes ")") more) [
              | err x ↦ err x
              | ok (u, last) ↦ ok (call f args, last)
            ]
          ]
        ]
      ]
    ]
  ]

  -- The loop on the arguments of a call, of which there is one.
  pub arguments : ℕ → ℕ → Parser Exprs
  arguments zero level ts = err out_of_fuel
  arguments (suc n) level ts = elim (expr n level 0 ts) [
    | err e ↦ err e
    | ok (e, rest) ↦ elim (next_is (codes ",") rest) [
      | false ↦ ok (also e no_more, rest)
      | true ↦ elim (arguments n level (tail rest)) [
        | err x ↦ err x
        | ok (es, more) ↦ ok (also e es, more)
      ]
    ]
  ]

  -- The loop on operators, from a left operand.
  pub climb : ℕ → ℕ → ℕ → Expr → Parser Expr
  climb zero level lowest left ts = err out_of_fuel
  climb (suc n) level lowest left ts = elim (too_deep left) [
    | true ↦ err (expected "expression tree depth exceeds 128" ts)
    | false ↦ elim ((next_precedence ts == 0) || ltb (next_precedence ts) lowest) [
      | true ↦ ok (left, ts)
      | false ↦ elim (expr n level (next_precedence ts + 1) (tail ts)) [
        | err e ↦ err e
        | ok (right, rest) ↦ climb n level lowest (binary (next_value ts) left right) rest
      ]
    ]
  ]
