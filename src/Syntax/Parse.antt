-- ===== src/Syntax/Parse.antt =====
-- src/config/syntax.rs: the directives of a list of tokens. A source is the line and column of a
-- directive's name. `fuel` bounds the depth of the calls (see `Total`).
pub mod Total
pub mod Print
mod Tests
use rgnix.Base.{
  ltb, ◌==◌, if◌then◌else◌, Text, text_eq, Result, ok, err, ℕ, zero, suc, ◌+◌, Bool, true, false,
  ◌&&◌, Option, none, some, List, [], ◌∷◌,
}
use rgnix.Syntax.{
  Token, Error, unexpected_closing_brace, expected_directive, missing_semicolon_or_block,
  missing_semicolon, nesting, unclosed_block, out_of_fuel,
}

-- `Directive`: its children are `None` or a block.
mutual
  pub data Directive : Type 0 where
    simple : Text → List Text → ℕ × ℕ → Directive
    block : Text → List Text → ℕ × ℕ → Directives → Directive

  pub data Directives : Type 0 where
    nothing : Directives
    also : Directive → Directives → Directives

-- The arguments of a directive, and its children.
abbrev pub Rest : Type 0
Rest = List Text × Option Directives

abbrev pub directive : Text → ℕ × ℕ → Rest → Directive
directive name source (args, none) = simple name args source
directive name source (args, some children) = block name args source children

abbrev pub is_mark : ℕ → Token → Bool
is_mark c t = t.punctuation && text_eq t.text (c ∷ [])

-- What the token at the head of the outer loop does: whether it ends the block.
pub opening : ℕ → Token → Result Error Bool
opening depth t =
    if is_mark b'}' t
    then (if depth == 0 then err (unexpected_closing_brace t.line t.column) else ok true)
    else if t.punctuation
    then err (expected_directive t.line t.column)
    else ok false

pub data Ending : Type 0 where
  semicolon brace argument : Ending

-- What a token does in the inner loop.
pub ending : Token → Token → Result Error Ending
ending name t =
    if t.punctuation
    then (if is_mark b';' t
        then ok semicolon
        else if is_mark b'{' t
        then ok brace
        else err (missing_semicolon name.line name.column))
    else ok argument

mutual
  unfolding opening ending

  -- `parse`, with the tokens that are left
  pub parse : ℕ → ℕ → List Token → Result Error (Directives × List Token)
  parse zero depth tokens = err out_of_fuel
  parse (suc n) depth tokens = if ltb 32 depth then err nesting else nodes n depth tokens

  -- Its outer loop
  pub nodes : ℕ → ℕ → List Token → Result Error (Directives × List Token)
  nodes zero depth tokens = err out_of_fuel
  nodes (suc n) depth [] = if ltb 0 depth then err unclosed_block else ok (nothing, [])
  nodes (suc n) depth (t ∷ tokens) = elim (opening depth t) [
    | err e ↦ err e
    | ok true ↦ ok (nothing, tokens)
    | ok false ↦ elim (arguments n depth t tokens) [
      | err e ↦ err e
      | ok (r, after) ↦ elim (nodes n depth after) [
        | err e ↦ err e
        | ok (ds, left) ↦ ok (also (directive t.text (t.line, t.column) r) ds, left)
      ]
    ]
  ]

  -- Its inner loop, for the directive of a name
  pub arguments : ℕ → ℕ → Token → List Token → Result Error (Rest × List Token)
  arguments zero depth name tokens = err out_of_fuel
  arguments (suc n) depth name [] = err (missing_semicolon_or_block name.line name.column)
  arguments (suc n) depth name (t ∷ tokens) = elim (ending name t) [
    | err e ↦ err e
    | ok semicolon ↦ ok (([], none), tokens)
    | ok brace ↦ elim (parse n (depth + 1) tokens) [
      | err e ↦ err e
      | ok (children, left) ↦ ok (([], some children), left)
    ]
    | ok argument ↦ elim (arguments n depth name tokens) [
      | err e ↦ err e
      | ok ((args, children), left) ↦ ok ((t.text ∷ args, children), left)
    ]
  ]
