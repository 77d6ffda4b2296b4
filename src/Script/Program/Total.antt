-- ===== src/Script/Program/Total.antt =====
-- src/script/syntax.rs: the fuel of the parser of scripts.
use rgnix.Base.{
  ltb, Bool-cases, length, any, Text, codes, text_eq, err, ℕ, zero, suc, ◌+◌, ◌*◌, ◌≤◌, ◌≡◌, refl,
  ◌≢◌, inl, inr, true, false, List, [], ◌∷◌, arith,
}
use rgnix.Script.{Token, out_of_fuel, lex}
use rgnix.Script.Parse.{next_is, tail, expect, ident}
use rgnix.Script.Parse.Reads.{
  ended, Shorter, Reads, then-Reads, longer-Reads, tail-Shorter, expect-Reads, ident-Reads,
}
use rgnix.Script.Blocks.{block}
use rgnix.Script.Blocks.Total.{block-Reads}
use rgnix.Script.Lexed.{NotFuel, Lexed, Ok-cases, lex-Lexed}
use rgnix.Script.Program.{
  parameters, parameter_list, function_rest, function, functions, bytes, enough, parse_tokens,
  parse_located,
}

parameters-Reads :
    (n : ℕ) (seen : List Text) (ts : List Token)
    → ended ts ≡ true
    → 3 * length ts + 1 ≤ n
    → Reads 0 ts (parameters n seen ts)
unfolding parameters
parameters-Reads zero seen ts e h = absurd (omega arith)
parameters-Reads (suc n) seen ts e h = then-Reads 0 1 ts (ident ts) _ (ident-Reads ts e) λ p rest r.
    elim (Bool-cases (any (text_eq p) seen)) [
      | inl again ↦ rw again refl
      | inr fresh ↦ rw fresh (elim (Bool-cases (next_is (codes ",") rest)) [
        | inr last ↦ rw last (r.0, omega arith)
        | inl comma ↦
            let s : Shorter 1 rest (tail rest) = tail-Shorter (codes ",") rest refl r.0 comma in
            rw comma (
              then-Reads 0 0 ts (parameters n (p ∷ seen) (tail rest)) _
                (longer-Reads 0 0 ts (tail rest) _
                  (parameters-Reads n (p ∷ seen) (tail rest) s.0 (omega arith)) (omega arith))
                (λ ps more m. m))
      ])
    ]

parameter_list-Reads :
    (n : ℕ) (ts : List Token)
    → ended ts ≡ true
    → 3 * length ts + 1 ≤ n
    → Reads 0 ts (parameter_list n ts)
unfolding parameter_list
parameter_list-Reads n ts e h = elim (Bool-cases (next_is (codes ")") ts)) [
  | inl none_given ↦ rw (none_given, Reads) (e, omega arith)
  | inr given ↦ rw (given, Reads) (parameters-Reads n [] ts e h)
]

function_rest-Reads :
    (n : ℕ) (name : Text) (ts : List Token)
    → ended ts ≡ true
    → 3 * length ts + 6 ≤ n
    → Reads 1 ts (function_rest n name ts)
unfolding function_rest
function_rest-Reads n name ts e h =
    then-Reads 1 1 ts (expect (codes "(") ts) _ (expect-Reads (codes "(") ts refl e) λ u inner i.
      then-Reads 1 1 ts (parameter_list n inner) _
        (longer-Reads 0 1 ts inner _ (parameter_list-Reads n inner i.0 (omega arith)) (omega arith))
        (λ params rest r.
          then-Reads 1 1 ts (expect (codes ")") rest) _
            (longer-Reads 1 1 ts rest _ (expect-Reads (codes ")") rest refl r.0) (omega arith))
            (λ v inside s.
              then-Reads 1 1 ts (block n 0 inside) _
                (longer-Reads 0 1 ts inside _ (block-Reads n 0 inside s.0 (omega arith))
                  (omega arith))
                (λ body more m.
                  then-Reads 1 1 ts (expect (codes "end") more) _
                    (longer-Reads 1 1 ts more _ (expect-Reads (codes "end") more refl m.0)
                      (omega arith))
                    (λ w last l. l))))

function-Reads :
    (n : ℕ) (seen : List Text) (ts : List Token)
    → ended ts ≡ true
    → 3 * length ts + 6 ≤ n
    → Reads 1 ts (function n seen ts)
unfolding function
function-Reads n seen ts e h =
    then-Reads 1 1 ts (expect (codes "function") ts) _ (expect-Reads (codes "function") ts refl e)
      λ u inner i.
        then-Reads 1 1 ts (ident inner) _
          (longer-Reads 1 1 ts inner _ (ident-Reads inner i.0) (omega arith))
          (λ name rest r. elim (Bool-cases (any (text_eq name) seen)) [
            | inl again ↦ rw again refl
            | inr fresh ↦ rw fresh (
                longer-Reads 1 1 ts rest _ (function_rest-Reads n name rest r.0 (omega arith))
                  (omega arith))
          ])

functions-Reads :
    (n : ℕ) (seen : List Text) (ts : List Token)
    → ended ts ≡ true
    → 3 * length ts + 7 ≤ n
    → Reads 0 ts (functions n seen ts)
unfolding functions
functions-Reads zero seen ts e h = absurd (omega arith)
functions-Reads (suc n) seen ts e h = elim (Bool-cases (next_is (codes "<eof>") ts)) [
  | inl done ↦ rw (done, Reads) (e, omega arith)
  | inr more ↦
      rw (more, Reads)
        (then-Reads 0 1 ts (function n seen ts) _ (function-Reads n seen ts e (omega arith))
          (λ f rest r.
            then-Reads 0 0 ts (functions n (f.name ∷ seen) rest) _
              (longer-Reads 0 0 ts rest _ (functions-Reads n (f.name ∷ seen) rest r.0 (omega arith))
                (omega arith))
              (λ fs last l. l)))
]

parse_tokens-NotFuel :
    (entry : Text) (ts : List Token) → ended ts ≡ true → NotFuel (parse_tokens entry ts)
unfolding parse_tokens
parse_tokens-NotFuel entry ts e =
    let k : Reads 0 ts (functions (enough ts) [] ts) =
      functions-Reads (enough ts) [] ts e (omega arith) in
    elim (Ok-cases (functions (enough ts) [] ts)) [
      | inr (x, is) ↦ rw (is, NotFuel) (rw is at k)
      | inl ((fs, rest), is) ↦
          rw (is, NotFuel)
            (elim (Bool-cases (any (λ f. text_eq f.name entry) fs)) [
              | inl found ↦ rw (found, NotFuel) tt
              | inr missing ↦ rw (missing, NotFuel) refl
            ])
    ]

parse_located-NotFuel : (source entry : Text) → NotFuel (parse_located source entry)
unfolding parse_located
parse_located-NotFuel source entry = elim (Bool-cases (ltb 262144 (bytes source))) [
  | inl long ↦ rw (long, NotFuel) refl
  | inr fits ↦
      let k : Lexed (lex source) = lex-Lexed source in
      rw (fits, NotFuel)
        (elim (Ok-cases (lex source)) [
          | inr (x, is) ↦ rw (is, NotFuel) (rw is at k)
          | inl (ts, is) ↦ rw (is, NotFuel) (parse_tokens-NotFuel entry ts (rw is at k))
        ])
]

-- The parser of a script always has enough fuel: for every source text and every entry it returns
-- functions or an error of the source.
pub parse_located-total : (source entry : Text) → parse_located source entry ≢ err out_of_fuel
parse_located-total source entry out =
    let a : NotFuel (parse_located source entry) = parse_located-NotFuel source entry in
    let b : true ≡ false = rw out at a in ground arith
