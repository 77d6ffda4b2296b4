-- ===== src/Script/Program/Sound.antt =====
-- src/script/syntax.rs: what a script that parses is like.
use rgnix.Base.{
  ltb, Bool-cases, any, Text, codes, text_eq, Result, ok, err, ℕ, zero, suc, ◌≡◌, refl, inl, inr,
  true, false, List, [], ◌∷◌,
}
use rgnix.Script.{Token, Error, lex}
use rgnix.Script.Parse.{next_is, tail, expect, ident}
use rgnix.Script.Parse.Shallow.{Holds, then-Holds, any-Holds, map-Holds}
use rgnix.Script.Lexed.{Ok-cases}
use rgnix.Script.Blocks.{Function, block}
use rgnix.Script.Blocks.Nested.{Nests, block-Nests}
use rgnix.Script.Program.{
  parameters, parameter_list, function_rest, function, functions, bytes, enough, parse_tokens,
  parse_located,
}

-- No name stands among `seen` or twice in the list.
pub Distinct : List Text → List Text → Type 0
Distinct seen [] = Unit {0}
Distinct seen (x ∷ xs) = (any (text_eq x) seen ≡ false) × Distinct (x ∷ seen) xs

abbrev names : List Function → List Text
names [] = []
names (f ∷ fs) = f.name ∷ names fs

abbrev FunctionFits : Function → Type 0
FunctionFits f = Distinct [] f.params × Nests 1 f.body

abbrev EachFits : List Function → Type 0
EachFits [] = Unit {0}
EachFits (f ∷ fs) = FunctionFits f × EachFits fs

-- A program with an entry: its functions and the parameters of each have different names, and the
-- bodies keep the limits.
abbrev pub IsScript : Text → List Function → Type 0
IsScript entry fs =
    (any (λ f. text_eq f.name entry) fs ≡ true) × Distinct [] (names fs) × EachFits fs

parameters-Distinct :
    (n : ℕ) (seen : List Text) (ts : List Token) → Holds (Distinct seen) (parameters n seen ts)
unfolding parameters Distinct
parameters-Distinct zero seen ts = tt
parameters-Distinct (suc n) seen ts =
    then-Holds _ (Distinct seen) (ident ts) _ (any-Holds _) λ p rest u.
      elim (Bool-cases (any (text_eq p) seen)) [
        | inl again ↦ rw (again, Holds) tt
        | inr fresh ↦
            rw (fresh, Holds)
              (elim (Bool-cases (next_is (codes ",") rest)) [
                | inr last ↦ rw (last, Holds) (fresh, tt)
                | inl comma ↦
                    rw (comma, Holds)
                      (then-Holds _ (Distinct seen) (parameters n (p ∷ seen) (tail rest)) _
                        (parameters-Distinct n (p ∷ seen) (tail rest)) (λ ps more h. (fresh, h)))
              ])
      ]

parameter_list-Distinct : (n : ℕ) (ts : List Token) → Holds (Distinct []) (parameter_list n ts)
unfolding parameter_list Distinct
parameter_list-Distinct n ts = elim (Bool-cases (next_is (codes ")") ts)) [
  | inl none_given ↦ rw (none_given, Holds) tt
  | inr given ↦ rw (given, Holds) (parameters-Distinct n [] ts)
]

abbrev Named : Text → Function → Type 0
Named name f = (f.name ≡ name) × FunctionFits f

function_rest-Named :
    (n : ℕ) (name : Text) (ts : List Token) → Holds (Named name) (function_rest n name ts)
unfolding function_rest
function_rest-Named n name ts =
    then-Holds _ (Named name) (expect (codes "(") ts) _ (any-Holds _) λ u inner i.
      then-Holds _ (Named name) (parameter_list n inner) _ (parameter_list-Distinct n inner)
        (λ params rest d.
          then-Holds _ (Named name) (expect (codes ")") rest) _ (any-Holds _) (λ v inside s.
            then-Holds _ (Named name) (block n 0 inside) _ (block-Nests n 0 inside) (λ body more m.
              then-Holds _ (Named name) (expect (codes "end") more) _ (any-Holds _)
                (λ w last l. (refl, (d, m.1))))))

abbrev FreshFunction : List Text → Function → Type 0
FreshFunction seen f = (any (text_eq f.name) seen ≡ false) × FunctionFits f

function-Fresh :
    (n : ℕ) (seen : List Text) (ts : List Token) → Holds (FreshFunction seen) (function n seen ts)
unfolding function
function-Fresh n seen ts =
    then-Holds _ (FreshFunction seen) (expect (codes "function") ts) _ (any-Holds _) λ u inner i.
      then-Holds _ (FreshFunction seen) (ident inner) _ (any-Holds _) λ name rest r.
        elim (Bool-cases (any (text_eq name) seen)) [
          | inl again ↦ rw (again, Holds) tt
          | inr fresh ↦
              rw (fresh, Holds)
                (map-Holds (Named name) (FreshFunction seen) (function_rest n name rest)
                  (λ f h. (rw (h.0) fresh, h.1)) (function_rest-Named n name rest))
        ]

abbrev Functions : List Text → List Function → Type 0
Functions seen fs = Distinct seen (names fs) × EachFits fs

functions-Functions :
    (n : ℕ) (seen : List Text) (ts : List Token) → Holds (Functions seen) (functions n seen ts)
unfolding functions Distinct
functions-Functions zero seen ts = tt
functions-Functions (suc n) seen ts = elim (Bool-cases (next_is (codes "<eof>") ts)) [
  | inl done ↦ rw (done, Holds) (tt, tt)
  | inr more ↦
      rw (more, Holds)
        (then-Holds _ (Functions seen) (function n seen ts) _ (function-Fresh n seen ts)
          (λ f rest h.
            then-Holds _ (Functions seen) (functions n (f.name ∷ seen) rest) _
              (functions-Functions n (f.name ∷ seen) rest)
              (λ fs last hs. ((h.0, hs.0), (h.1, hs.1)))))
]

-- What a call returns when it succeeds.
abbrev Gives : Text → Result Error (List Function) → Type 0
Gives entry (ok fs) = IsScript entry fs
Gives entry (err e) = Unit {0}

parse_tokens-Gives : (entry : Text) (ts : List Token) → Gives entry (parse_tokens entry ts)
unfolding parse_tokens
parse_tokens-Gives entry ts =
    let k : Holds (Functions []) (functions (enough ts) [] ts) =
      functions-Functions (enough ts) [] ts in
    elim (Ok-cases (functions (enough ts) [] ts)) [
      | inr (x, bad) ↦ rw (bad, Gives) tt
      | inl ((gs, rest), good) ↦
          let both : Functions [] gs = rw (good, Holds) at k in
          rw (good, Gives)
            (elim (Bool-cases (any (λ f. text_eq f.name entry) gs)) [
              | inr missing ↦ rw (missing, Gives) tt
              | inl found ↦ rw (found, Gives) (found, both.0, both.1)
            ])
    ]

parse_located-Gives : (source entry : Text) → Gives entry (parse_located source entry)
unfolding parse_located
parse_located-Gives source entry = elim (Bool-cases (ltb 262144 (bytes source))) [
  | inl long ↦ rw (long, Gives) tt
  | inr fits ↦
      rw (fits, Gives)
        (elim (Ok-cases (lex source)) [
          | inr (x, is) ↦ rw (is, Gives) tt
          | inl (ts, is) ↦ rw (is, Gives) (parse_tokens-Gives entry ts)
        ])
]

-- A source that parses is a script with its entry: functions have different names, parameters of one
-- function too, an expression is at most 128 deep, blocks nest at most 64 deep, and an `if` has at
-- most 64 branches.
pub parse_located-IsScript :
    (source entry : Text) (fs : List Function)
    → parse_located source entry ≡ ok fs
    → IsScript entry fs
parse_located-IsScript source entry fs h =
    let k : Gives entry (parse_located source entry) = parse_located-Gives source entry in rw h at k
