-- ===== src/Script/Program.antt =====
-- src/script/syntax.rs: the functions of a script. The lists of names and functions read so far are
-- kept with the last one first, which only `any` reads.
pub mod Sound
pub mod Total
use rgnix.Base.{
  ltb, if◌then◌else◌, length, any, Text, codes, text_eq, Result, ok, err, ℕ, zero, suc, ◌+◌, ◌*◌,
  true, false, List, [], ◌∷◌,
}
use rgnix.Script.{Token, Error, plain, out_of_fuel, lex}
use rgnix.Script.Parse.{Parser, next_is, tail, expect, ident}
use rgnix.Script.Blocks.{Function, block}

-- The loop on the parameters of a function, of which there is one.
unfoldable pub parameters : ℕ → List Text → Parser (List Text)
parameters zero seen ts = err out_of_fuel
parameters (suc n) seen ts = elim (ident ts) [
  | err e ↦ err e
  | ok (p, rest) ↦ elim (any (text_eq p) seen) [
    | true ↦ err (plain "duplicate parameter")
    | false ↦ elim (next_is (codes ",") rest) [
      | false ↦ ok (p ∷ [], rest)
      | true ↦ elim (parameters n (p ∷ seen) (tail rest)) [
        | err e ↦ err e
        | ok (ps, last) ↦ ok (p ∷ ps, last)
      ]
    ]
  ]
]

-- `if !parser.at(")") {..}`
unfoldable pub parameter_list : ℕ → Parser (List Text)
unfolding parameters
parameter_list n ts = elim (next_is (codes ")") ts) [
  | true ↦ ok ([], ts)
  | false ↦ parameters n [] ts
]

-- A function, after its name.
unfoldable pub function_rest : ℕ → Text → Parser Function
unfolding parameter_list
function_rest n name ts = elim (expect (codes "(") ts) [
  | err e ↦ err e
  | ok (u, inner) ↦ elim (parameter_list n inner) [
    | err e ↦ err e
    | ok (params, rest) ↦ elim (expect (codes ")") rest) [
      | err e ↦ err e
      | ok (v, inside) ↦ elim (block n 0 inside) [
        | err e ↦ err e
        | ok (body, more) ↦ elim (expect (codes "end") more) [
          | err e ↦ err e
          | ok (w, last) ↦ ok (record { name = name; params = params; body = body }, last)
        ]
      ]
    ]
  ]
]

-- One function; `seen` are the names of those before it.
unfoldable pub function : ℕ → List Text → Parser Function
unfolding function_rest
function n seen ts = elim (expect (codes "function") ts) [
  | err e ↦ err e
  | ok (u, inner) ↦ elim (ident inner) [
    | err e ↦ err e
    | ok (name, rest) ↦ elim (any (text_eq name) seen) [
      | true ↦ err (plain "duplicate function")
      | false ↦ function_rest n name rest
    ]
  ]
]

-- The loop on functions.
unfoldable pub functions : ℕ → List Text → Parser (List Function)
unfolding function
functions zero seen ts = err out_of_fuel
functions (suc n) seen ts = elim (next_is (codes "<eof>") ts) [
  | true ↦ ok ([], ts)
  | false ↦ elim (function n seen ts) [
    | err e ↦ err e
    | ok (f, rest) ↦ elim (functions n (f.name ∷ seen) rest) [
      | err e ↦ err e
      | ok (fs, last) ↦ ok (f ∷ fs, last)
    ]
  ]
]

-- The bytes of a character in UTF-8, and of a text (`str::len`).
abbrev pub width : ℕ → ℕ
width c = if ltb c 128 then 1 else if ltb c 2048 then 2 else if ltb c 65536 then 3 else 4

abbrev pub bytes : Text → ℕ
bytes [] = 0
bytes (c ∷ s) = width c + bytes s

-- The fuel for a list of tokens.
abbrev pub enough : List Token → ℕ
enough ts = 3 * length ts + 9

unfoldable pub parse_tokens : Text → List Token → Result Error (List Function)
unfolding functions
parse_tokens entry ts = elim (functions (enough ts) [] ts) [
  | err e ↦ err e
  | ok (fs, rest) ↦
      if any (λ f. text_eq f.name entry) fs then ok fs else err (plain "the entry is required")
]

unfoldable pub parse_located : Text → Text → Result Error (List Function)
unfolding lex parse_tokens
parse_located source entry =
    if ltb 262144 (bytes source)
    then err (plain "RGL source exceeds 256 KiB")
    else elim (lex source) [ err e ↦ err e | ok ts ↦ parse_tokens entry ts ]
