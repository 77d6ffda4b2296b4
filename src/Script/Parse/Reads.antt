-- ===== src/Script/Parse/Reads.antt =====
-- src/script/syntax.rs: what a parser that succeeds leaves of the tokens.
use rgnix.Base.{
  ◌==◌, Bool-cases, length, Text, codes, text_eq, text_eq_iff, Result, ok, err, ℕ, ◌+◌, ◌≤◌, String,
  ◌≡◌, refl, ◌≢◌, inl, inr, Bool, true, false, not, ◌&&◌, List, [], ◌∷◌, arith,
}
use rgnix.Script.{Token, Error, located, plain, out_of_fuel}
use rgnix.Script.Parse.{
  is_bare, next_is, tail, expected, expect, is_name, ident, dotted, named, head, precedence,
  next_precedence,
}

abbrev pub is_end : Token → Bool
is_end t = is_bare (codes "<eof>") t

-- The last token is the one of the end.
unfoldable pub ended : List Token → Bool
ended [] = false
ended (t ∷ []) = is_end t
ended (t ∷ u ∷ ts) = ended (u ∷ ts)

abbrev pub is_fuel : Error → Bool
is_fuel out_of_fuel = true
is_fuel (located l c s) = false
is_fuel (plain s) = false

-- `rest` is at least `k` tokens shorter than `ts`, and has the token of the end.
abbrev pub Shorter : ℕ → List Token → List Token → Type 0
Shorter k ts rest = (ended rest ≡ true) × (length rest + k ≤ length ts)

-- A call that had enough fuel, and read at least `k` tokens when it succeeded.
abbrev pub Reads {ℓ} : {A : Type ℓ} → ℕ → List Token → Result Error (A × List Token) → Type 0
Reads k ts (ok (a, rest)) = Shorter k ts rest
Reads k ts (err e) = is_fuel e ≡ false

-- A call, then another on what it left.
pub then-Reads {ℓ ℓ'} :
    {A : Type ℓ} {B : Type ℓ'} (k m : ℕ) (ts : List Token) (r : Result Error (A × List Token))
    (next : A → List Token → Result Error (B × List Token))
    → Reads m ts r
    → ((a : A) (rest : List Token) → Shorter m ts rest → Reads k ts (next a rest))
    → Reads k ts (elim r [ err e ↦ err e | ok (a, rest) ↦ next a rest ])
then-Reads k m ts (err e) next h f = h
then-Reads k m ts (ok (a, rest)) next h f = f a rest h

pub longer-Reads {ℓ} :
    {A : Type ℓ} (k m : ℕ) (ts rest : List Token) (r : Result Error (A × List Token))
    → Reads k rest r
    → length rest + m ≤ length ts + k
    → Reads m ts r
longer-Reads k m ts rest (err e) h le = h
longer-Reads k m ts rest (ok (a, last)) h le = (h.0, omega arith)

pub tail-ended :
    (t : Token) (ts : List Token) → ended (t ∷ ts) ≡ true → is_end t ≡ false → ended ts ≡ true
unfolding ended
tail-ended t [] h no_end = ground arith
tail-ended t (u ∷ ts) h no_end = h

-- A token with the text of the end has no other text.
other-is_end :
    (value : Text) (t : Token)
    → text_eq value (codes "<eof>") ≡ false
    → is_bare value t ≡ true
    → is_end t ≡ false
other-is_end value t other h = elim (Bool-cases (text_eq t.value (codes "<eof>"))) [
  | inr differs ↦ ground (differs, arith)
  | inl end ↦
      let same : t.value ≡ codes "<eof>" = (text_eq_iff t.value (codes "<eof>")).0 end in
      let fits : text_eq t.value value ≡ true = ground arith in
      let value_is : t.value ≡ value = (text_eq_iff t.value value).0 fits in
      let both : text_eq value (codes "<eof>") ≡ true = rw value_is at end in ground arith
]

pub tail-Shorter :
    (value : Text) (ts : List Token)
    → text_eq value (codes "<eof>") ≡ false
    → ended ts ≡ true
    → next_is value ts ≡ true
    → Shorter 1 ts (tail ts)
tail-Shorter value [] other e h = absurd (ground arith)
tail-Shorter value (t ∷ ts) other e h =
    (tail-ended t ts e (other-is_end value t other h), omega arith)

pub expected-is_fuel : (what : String) (ts : List Token) → is_fuel (expected what ts) ≡ false
expected-is_fuel what [] = refl
expected-is_fuel what (t ∷ ts) = refl

pub expect-Reads :
    (value : Text) (ts : List Token)
    → text_eq value (codes "<eof>") ≡ false
    → ended ts ≡ true
    → Reads 1 ts (expect value ts)
expect-Reads value ts other e = elim (Bool-cases (next_is value ts)) [
  | inl here ↦ rw here (tail-Shorter value ts other e here)
  | inr not_here ↦ rw not_here (expected-is_fuel "expected token" ts)
]

is_name-not_end : (t : Token) → is_name t.value ≡ true → is_end t ≡ false
is_name-not_end t h = elim (Bool-cases (text_eq t.value (codes "<eof>"))) [
  | inr differs ↦ ground (differs, arith)
  | inl end ↦
      let same : t.value ≡ codes "<eof>" = (text_eq_iff t.value (codes "<eof>")).0 end in
      let bad : is_name (codes "<eof>") ≡ true = rw same at h in ground (bad, arith)
]

pub ident-Reads : (ts : List Token) → ended ts ≡ true → Reads 1 ts (ident ts)
unfolding ident
ident-Reads [] e = refl
ident-Reads (t ∷ ts) e = elim (Bool-cases (not t.string && is_name t.value)) [
  | inl fits ↦ rw fits (tail-ended t ts e (is_name-not_end t (ground arith)), omega arith)
  | inr other ↦ rw other refl
]

pub dotted-Reads : (ts : List Token) → ended ts ≡ true → Reads 1 ts (dotted ts)
unfolding dotted
dotted-Reads ts e = then-Reads 1 1 ts (ident ts) _ (ident-Reads ts e) λ name rest h.
    elim (Bool-cases (next_is (codes ".") rest)) [
      | inr none_follows ↦ rw none_follows h
      | inl dot ↦
          let after : Shorter 1 rest (tail rest) = tail-Shorter (codes ".") rest refl h.0 dot in
          rw dot (
            then-Reads 1 1 ts (ident (tail rest)) _
              (longer-Reads 1 1 ts (tail rest) _ (ident-Reads (tail rest) after.0) (omega arith))
              (λ second more m. m))
    ]

-- The token of the end begins no operand.
head-is_end : (t : Token) → is_end t ≡ true → head t ≡ named
unfolding head
head-is_end t h =
    let plain : t.string ≡ false = ground arith in
    let same : t.value ≡ codes "<eof>" = (text_eq_iff t.value (codes "<eof>")).0 (ground arith) in
    let not_true : is_bare (codes "true") t ≡ false = rw (plain, same) refl in
    let not_false : is_bare (codes "false") t ≡ false = rw (plain, same) refl in
    let not_nil : is_bare (codes "nil") t ≡ false = rw (plain, same) refl in
    rw (plain, same, not_true, not_false, not_nil) refl

pub operand-Shorter :
    (t : Token) (ts : List Token) → ended (t ∷ ts) ≡ true → head t ≢ named → Shorter 1 (t ∷ ts) ts
operand-Shorter t ts e h = elim (Bool-cases (is_end t)) [
  | inl end ↦ absurd (h (head-is_end t end))
  | inr other ↦ (tail-ended t ts e other, omega arith)
]

pub operator-Shorter :
    (ts : List Token) → ended ts ≡ true → (next_precedence ts == 0) ≡ false → Shorter 1 ts (tail ts)
unfolding next_precedence precedence
operator-Shorter [] e h = absurd (ground arith)
operator-Shorter (t ∷ ts) e h = elim (Bool-cases (is_end t)) [
  | inr other ↦ (tail-ended t ts e other, omega arith)
  | inl end ↦
      let plain : t.string ≡ false = ground arith in
      let same : t.value ≡ codes "<eof>" = (text_eq_iff t.value (codes "<eof>")).0 (ground arith) in
      let none_follows : next_precedence (t ∷ ts) ≡ 0 = rw (plain, same) refl in
      absurd (ground (none_follows, h, arith))
]
