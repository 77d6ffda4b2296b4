-- ===== src/Script/Lexed.antt =====
-- src/script/syntax.rs: the token of the end.
use rgnix.Base.{
  ltb, ◌==◌, Bool-cases, Option-cases, length, Text, codes, Result, ok, err, ℕ, ◌+◌, ◌≡◌, refl, ◌⊎◌,
  inl, inr, true, false, ◌&&◌, List, [], ◌∷◌, ◌++◌, arith,
}
use rgnix.Script.{
  Token, Error, is_word, is_symbol, is_pair, between, comment, word, symbol, string, escape, Scan,
  standing, bare, close_symbol, unescaped, in_string, char, at_end, scan, lex,
}
use rgnix.Script.Parse.Reads.{ended, is_fuel}

-- Errors other than the end of the fuel.
abbrev pub NotFuel {ℓ} : {A : Type ℓ} → Result Error A → Type 0
NotFuel (ok a) = Unit {0}
NotFuel (err e) = is_fuel e ≡ false

abbrev pub Lexed : Result Error (List Token) → Type 0
Lexed (ok ts) = ended ts ≡ true
Lexed (err e) = is_fuel e ≡ false

append-ended : (xs ts : List Token) → ended ts ≡ true → ended (xs ++ ts) ≡ true
unfolding ended
append-ended [] ts h = h
append-ended (x ∷ []) [] h = absurd (ground (h, arith))
append-ended (x ∷ []) (t ∷ ts) h = h
append-ended (x ∷ y ∷ xs) ts h = append-ended (y ∷ xs) ts h

close_symbol-NotFuel :
    (c start_line start_col line col : ℕ) → NotFuel (close_symbol c start_line start_col line col)
unfolding close_symbol
close_symbol-NotFuel c start_line start_col line col = elim (Bool-cases (is_symbol c)) [
  | inl known ↦ rw known tt
  | inr other ↦ rw other refl
]

in_string-NotFuel :
    (quote : ℕ) (value : Text) (l k line col c : ℕ) → NotFuel (in_string quote value l k line col c)
unfolding in_string
in_string-NotFuel quote value l k line col c = elim (Bool-cases (c == quote)) [
  | inl a ↦ rw a tt
  | inr not_a ↦ rw not_a (elim (Bool-cases (c == 10)) [
    | inl b ↦ rw b refl
    | inr not_b ↦
        rw not_b (elim (Bool-cases (c == 92)) [ inl d ↦ rw d tt | inr not_d ↦ rw not_d tt ])
  ])
]

pub Ok-cases {ℓ} :
    {A : Type ℓ} (r : Result Error A) → ((a : A) × (r ≡ ok a)) ⊎ ((e : Error) × (r ≡ err e))
Ok-cases (ok a) = inl (a, refl)
Ok-cases (err e) = inr (e, refl)

char-NotFuel : (s : Scan) (c : ℕ) → NotFuel (char s c)
unfolding char
char-NotFuel s c =
    elim s.mode as (λ m. s.mode ≡ m → NotFuel (char s c)) [
      | between ↦ λ e. rw e tt
      | comment ↦ λ e. rw e (elim (Bool-cases (c == 10)) [ inl a ↦ rw a tt | inr b ↦ rw b tt ])
      | word value line col ↦
          λ e. rw e (elim (Bool-cases (is_word c)) [ inl a ↦ rw a tt | inr b ↦ rw b tt ])
      | symbol d line col ↦ λ e. rw e (elim (Bool-cases ((d == b'-') && (c == b'-'))) [
        | inl a ↦ rw a tt
        | inr not_a ↦ rw not_a (elim (Bool-cases (is_pair d c)) [
          | inl b ↦ rw b tt
          | inr not_b ↦
              let k : NotFuel (close_symbol d line col s.line s.col) =
                close_symbol-NotFuel d line col s.line s.col in
              rw not_b (elim (Ok-cases (close_symbol d line col s.line s.col)) [
                | inl (ts, is) ↦ rw is tt
                | inr (x, is) ↦ rw is (rw is at k)
              ])
        ])
      ])
      | string quote value line col ↦
          λ e. rw e (in_string-NotFuel quote value line col s.line s.col c)
      | escape quote value line col ↦ λ e. rw e (elim (Option-cases (unescaped c)) [
        | inl is ↦ rw (is, NotFuel) refl
        | inr (d, is) ↦ rw (is, NotFuel) tt
      ])
    ]
      refl

at_end-Lexed : (s : Scan) → Lexed (at_end s)
unfolding at_end ended
at_end-Lexed s =
    elim s.mode as (λ m. s.mode ≡ m → Lexed (at_end s)) [
      | between ↦ λ e. rw e refl
      | comment ↦ λ e. rw e refl
      | word value line col ↦ λ e. rw e refl
      | symbol c line col ↦ λ e.
          let k : NotFuel (close_symbol c line col s.line s.col) =
            close_symbol-NotFuel c line col s.line s.col in
          rw e (elim (Ok-cases (close_symbol c line col s.line s.col)) [
            | inl (ts, is) ↦
                rw (is, Lexed) (append-ended ts (bare (codes "<eof>") s.line s.col ∷ []) refl)
            | inr (x, is) ↦ rw (is, Lexed) (rw is at k)
          ])
      | string quote value line col ↦ λ e. rw e refl
      | escape quote value line col ↦ λ e. rw e refl
    ]
      refl

scan-Lexed : (n : ℕ) (s : Scan) (cs : Text) → Lexed (scan n s cs)
unfolding scan
scan-Lexed n s [] =
    let k : Lexed (at_end s) = at_end-Lexed s in
    elim (Ok-cases (at_end s)) [
      | inr (x, is) ↦ rw (is, Lexed) (rw is at k)
      | inl (ts, is) ↦
          rw (is, Lexed)
            (elim (Bool-cases (ltb 65537 (n + length ts))) [
              | inl many ↦ rw many refl
              | inr few ↦ rw few (rw is at k)
            ])
    ]
scan-Lexed n s (c ∷ cs) =
    let k : NotFuel (char s c) = char-NotFuel s c in
    elim (Ok-cases (char s c)) [
      | inr (x, is) ↦ rw (is, Lexed) (rw is at k)
      | inl ((t, ts), is) ↦
          rw (is, Lexed)
            (elim (Bool-cases (ltb 65536 (n + length ts))) [
              | inl many ↦ rw many refl
              | inr few ↦
                  let ih : Lexed (scan (n + length ts) t cs) = scan-Lexed (n + length ts) t cs in
                  rw few (elim (Ok-cases (scan (n + length ts) t cs)) [
                    | inr (x, bad) ↦ rw (bad, Lexed) (rw bad at ih)
                    | inl (more, good) ↦ rw (good, Lexed) (append-ended ts more (rw good at ih))
                  ])
            ])
    ]

pub lex-Lexed : (source : Text) → Lexed (lex source)
unfolding lex
lex-Lexed source = scan-Lexed 0 (standing between 1 1) source
