-- ===== src/Syntax/Parse/Tests.antt =====
-- Examples of configuration texts.
use rgnix.Base.{
  length, Text, codes, Result, ok, err, ◌+◌, ◌*◌, ◌≡◌, refl, ◌≢◌, Option, none, some, List, [], ◌∷◌,
  arith,
}
use rgnix.Syntax.{Token, Error, unterminated_string, out_of_fuel, is_whitespace, tokenize}
use rgnix.Syntax.Parse.{simple, block, Directives, nothing, also, parse}
use rgnix.Syntax.Parse.Total.{parse-total}
use rgnix.Syntax.Parse.Print.{mark, put, height, parse-put}

abbrev server : Directives
server =
    also
      (block (codes "server") [] (1, 1)
        (also (simple (codes "listen") (codes "80" ∷ codes "default" ∷ []) (1, 10)) nothing))
      nothing

token_texts : List Token → List Text
token_texts [] = []
token_texts (t ∷ ts) = t.text ∷ token_texts ts

abbrev texts_of : Result Error (List Token) → Option (List Text)
texts_of (ok ts) = some (token_texts ts)
texts_of (err e) = none

tokenize_tests :
    (texts_of (tokenize (codes "a 'b c';#d")) ≡ some (codes "a" ∷ codes "b c" ∷ codes ";" ∷ []))
    × (tokenize (codes "a 'b") ≡ err (unterminated_string 1 3))
    × (texts_of (tokenize (codes "a\\ b{")) ≡ some (codes "a b" ∷ codes "{" ∷ []))
unfolding tokenize is_whitespace token_texts
tokenize_tests = (refl, refl, refl)

parse_tests : parse 12 0 (put server []) ≡ ok (server, [])
unfolding parse put
parse_tests = refl

parse-put_example : parse (2 * length (put server []) + 2) 0 (put server []) ≡ ok (server, [])
unfolding height
parse-put_example = parse-put server (omega arith)

parse-total_example : parse 4 0 (mark b'}' ∷ []) ≢ err out_of_fuel
parse-total_example = parse-total 4 0 (mark b'}' ∷ []) (omega arith)
