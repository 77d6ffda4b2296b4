-- ===== src/Syntax/Parse/Total.antt =====
-- src/config/syntax.rs: the fuel of the parser.
use rgnix.Base.{
  ltb, Bool-cases, length, Result, ok, err, ℕ, zero, suc, ◌+◌, ◌*◌, ◌≤◌, ◌≡◌, refl, ◌≢◌, ◌⊎◌, inl,
  inr, Bool, true, false, List, [], ◌∷◌, arith,
}
use rgnix.Syntax.{
  Token, Error, incomplete_escape, unterminated_string, unexpected_closing_brace,
  expected_directive, missing_semicolon_or_block, missing_semicolon, nesting, unclosed_block,
  out_of_fuel,
}
use rgnix.Syntax.Parse.{opening, semicolon, brace, argument, ending, parse, nodes, arguments}

abbrev is_fuel : Error → Bool
is_fuel out_of_fuel = true
is_fuel (incomplete_escape l c) = false
is_fuel (unterminated_string l c) = false
is_fuel (unexpected_closing_brace l c) = false
is_fuel (expected_directive l c) = false
is_fuel (missing_semicolon_or_block l c) = false
is_fuel (missing_semicolon l c) = false
is_fuel nesting = false
is_fuel unclosed_block = false

-- A call that had enough fuel, and did not add tokens.
abbrev Fine {ℓ} : {A : Type ℓ} → List Token → Result Error (A × List Token) → Type 0
Fine tokens (ok (a, left)) = length left ≤ length tokens
Fine tokens (err e) = is_fuel e ≡ false

Result-cases {ℓ} :
    {A : Type ℓ} (r : Result Error A) → ((a : A) × (r ≡ ok a)) ⊎ ((e : Error) × (r ≡ err e))
Result-cases (ok a) = inl (a, refl)
Result-cases (err e) = inr (e, refl)

opening-is_fuel : (depth : ℕ) (t : Token) (e : Error) → opening depth t ≡ err e → is_fuel e ≡ false
unfolding opening
opening-is_fuel depth t e h = ground arith

ending-is_fuel : (name t : Token) (e : Error) → ending name t ≡ err e → is_fuel e ≡ false
unfolding ending
ending-is_fuel name t e h = ground arith

mutual
  unfolding parse nodes arguments

  parse-Fine :
      (n depth : ℕ) (tokens : List Token)
      → 2 * length tokens + 2 ≤ n
      → Fine tokens (parse n depth tokens)
  parse-Fine zero depth tokens h = absurd (omega arith)
  parse-Fine (suc n) depth tokens h = elim (Bool-cases (ltb 32 depth)) [
    | inl deep ↦ rw (deep, parse) refl
    | inr fits ↦ rw (fits, parse) (nodes-Fine n depth tokens (omega arith))
  ]

  nodes-Fine :
      (n depth : ℕ) (tokens : List Token)
      → 2 * length tokens + 1 ≤ n
      → Fine tokens (nodes n depth tokens)
  nodes-Fine zero depth tokens h = absurd (omega arith)
  nodes-Fine (suc n) depth [] h = elim (Bool-cases (ltb 0 depth)) [
    | inl inside ↦ rw (inside, nodes) refl
    | inr top ↦ rw (top, nodes) (omega arith)
  ]
  nodes-Fine (suc n) depth (t ∷ tokens) h = elim (Result-cases (opening depth t)) [
    | inr (e, is) ↦ rw (is, nodes) (opening-is_fuel depth t e is)
    | inl (true, is) ↦ rw (is, nodes) (omega arith)
    | inl (false, is) ↦
        rw (is, nodes)
          (elim (Result-cases (arguments n depth t tokens)) [
            | inr (e, bad) ↦
                let a : Fine tokens (arguments n depth t tokens) =
                  arguments-Fine n depth t tokens (omega arith) in
                rw bad (rw bad at a)
            | inl ((r, after), good) ↦
                let a : Fine tokens (arguments n depth t tokens) =
                  arguments-Fine n depth t tokens (omega arith) in
                let shorter : length after ≤ length tokens = rw good at a in
                let more : Fine after (nodes n depth after) =
                  nodes-Fine n depth after (omega arith) in
                rw good (elim (Result-cases (nodes n depth after)) [
                  | inr (e, bad) ↦ rw bad (rw bad at more)
                  | inl ((ds, left), done) ↦
                      let rest : length left ≤ length after = rw done at more in
                      rw done (omega arith)
                ])
          ])
  ]

  arguments-Fine :
      (n depth : ℕ) (name : Token) (tokens : List Token)
      → 2 * length tokens + 1 ≤ n
      → Fine tokens (arguments n depth name tokens)
  arguments-Fine zero depth name tokens h = absurd (omega arith)
  arguments-Fine (suc n) depth name [] h = refl
  arguments-Fine (suc n) depth name (t ∷ tokens) h = elim (Result-cases (ending name t)) [
    | inr (e, is) ↦ rw (is, arguments) (ending-is_fuel name t e is)
    | inl (semicolon, is) ↦ rw (is, arguments) (omega arith)
    | inl (brace, is) ↦
        let a : Fine tokens (parse n (depth + 1) tokens) =
          parse-Fine n (depth + 1) tokens (omega arith) in
        rw (is, arguments)
          (elim (Result-cases (parse n (depth + 1) tokens)) [
            | inr (e, bad) ↦ rw bad (rw bad at a)
            | inl ((ds, left), done) ↦
                let rest : length left ≤ length tokens = rw done at a in rw done (omega arith)
          ])
    | inl (argument, is) ↦
        let a : Fine tokens (arguments n depth name tokens) =
          arguments-Fine n depth name tokens (omega arith) in
        rw (is, arguments)
          (elim (Result-cases (arguments n depth name tokens)) [
            | inr (e, bad) ↦ rw bad (rw bad at a)
            | inl ((r, left), done) ↦
                let rest : length left ≤ length tokens = rw done at a in rw done (omega arith)
          ])
  ]

-- Fuel of twice the number of tokens and two more is always enough: the parser then returns
-- directives or an error of the source.
pub parse-total :
    (n depth : ℕ) (tokens : List Token)
    → 2 * length tokens + 2 ≤ n
    → parse n depth tokens ≢ err out_of_fuel
parse-total n depth tokens h out =
    let a : Fine tokens (parse n depth tokens) = parse-Fine n depth tokens h in
    let b : true ≡ false = rw out at a in ground arith
