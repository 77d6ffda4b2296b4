-- ===== src/Script/Tests.antt =====
-- src/script/syntax.rs: examples of scripts.
use rgnix.Base.{
  Text, codes, parse_uint, ok, err, ◌≤◌, String, ◌≡◌, refl, ◌≢◌, inr, none, List, [], ◌∷◌, ◌++◌,
  arith,
}
use rgnix.Script.{
  Token, out_of_fuel, bare, outer, close_symbol, unescaped, in_string, char, at_end, scan, lex,
}
use rgnix.Syntax.{is_whitespace}
use rgnix.Script.Parse.{
  Expr, int, str, var, call, binary, no_more, also, depth, depths, ident, dotted, head, precedence,
  next_precedence, expr, operand, arguments, climb,
}
use rgnix.Script.Parse.Grammar.{one_name, Writes, writes_literal, writes_var, writes_binary}
use rgnix.Script.Parse.Refines.{expr-accepts, expr-refines}
use rgnix.Script.Parse.Sound.{Weak, Derives}
use rgnix.Script.Blocks.{
  call_only, return_value, if_chain, Stmts, no_statement, then_statement, no_branch, branch,
  Function, next_among, start, declaration, returned, assignment, is_call, plain_statement, block,
  statements, statement, branches,
}
use rgnix.Script.Program.{
  parameters, parameter_list, function_rest, function, functions, parse_tokens, parse_located,
}
use rgnix.Script.Program.Sound.{IsScript, parse_located-IsScript}
use rgnix.Script.Program.Total.{parse_located-total}

abbrev entry : Text
entry = codes "on_request"

abbrev source : Text
source = codes "function on_request(a) if a == 1 then log(a .. 'x') end return end"

abbrev word : String → Token
word s = bare (codes s) 1 1

-- `a + 2 * b`
abbrev sum_tokens : List Token
sum_tokens = word "a" ∷ word "+" ∷ word "2" ∷ word "*" ∷ word "b" ∷ []

abbrev sum : Expr
sum = binary (codes "+") (var (codes "a")) (binary (codes "*") (int 2) (var (codes "b")))

abbrev eof : Token
eof = word "<eof>"

abbrev body : Stmts
body =
    then_statement
      (if_chain
        (branch (binary (codes "==") (var (codes "a")) (int 1))
          (then_statement
            (call_only (
              call (codes "log")
                (also (binary (codes "..") (var (codes "a")) (str (codes "x"))) no_more)))
            no_statement)
          no_branch)
        no_statement)
      (then_statement (return_value none) no_statement)

abbrev program : List Function
program = record { name = entry; params = codes "a" ∷ []; body = body } ∷ []

program_lem : parse_located source entry ≡ ok program
unfolding parse_located parse_tokens functions function function_rest parameter_list parameters
    block statements statement branches start declaration returned plain_statement assignment
    is_call next_among expr operand arguments climb head precedence next_precedence ident dotted
    depth depths lex scan char at_end in_string unescaped close_symbol outer is_whitespace
    parse_uint
program_lem = refl

parse_located-total_example : parse_located source entry ≢ err out_of_fuel
parse_located-total_example = parse_located-total source entry

parse_located-IsScript_example : IsScript entry program
parse_located-IsScript_example = parse_located-IsScript source entry program program_lem

expr_lem : expr 30 0 0 (sum_tokens ++ eof ∷ []) ≡ ok (sum, eof ∷ [])
unfolding expr operand arguments climb head precedence next_precedence ident dotted depth depths
    parse_uint
expr_lem = refl

expr-refines_example : Derives 128 0 (sum_tokens ++ eof ∷ []) sum (eof ∷ [])
expr-refines_example =
    expr-refines 30 0 128 0 (sum_tokens ++ eof ∷ []) sum (eof ∷ []) (omega arith) (omega arith)
      expr_lem

sum-Writes : Writes 3 0 sum sum_tokens
unfolding head precedence parse_uint
sum-Writes =
    writes_binary 2 0 (word "+") (var (codes "a")) (binary (codes "*") (int 2) (var (codes "b")))
      (word "a" ∷ []) (word "2" ∷ word "*" ∷ word "b" ∷ []) refl (omega arith) (omega arith)
      (writes_var 2 5 (codes "a") (word "a" ∷ []) (one_name (word "a") refl))
      (writes_binary 1 6 (word "*") (int 2) (var (codes "b")) (word "2" ∷ []) (word "b" ∷ []) refl
        (omega arith) (omega arith) (writes_literal 1 6 (word "2") (int 2) refl)
        (writes_var 0 7 (codes "b") (word "b" ∷ []) (one_name (word "b") refl)))

eof-Weak : Weak 0 (eof ∷ [])
unfolding next_precedence precedence
eof-Weak = inr refl

sum-depth : depth sum ≤ 128
unfolding depth
sum-depth = omega arith

expr-accepts_example : expr 30 0 0 (sum_tokens ++ eof ∷ []) ≡ ok (sum, eof ∷ [])
expr-accepts_example =
    expr-accepts 30 0 0 3 sum sum_tokens (eof ∷ []) sum-Writes (omega arith) sum-depth eof-Weak refl
      refl (omega arith)
