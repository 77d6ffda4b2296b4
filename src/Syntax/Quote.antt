-- ===== src/Syntax/Quote.antt =====
-- Words in double quotes, and the tokens that are read from them.
mod Tests
use rgnix.Base.{
  ◌==◌, if◌then◌else◌, Bool-cases, Text, Result, ok, err, ℕ, ◌≡◌, refl, ap, ◌∙◌, inl, inr, true,
  false, ◌||◌, Option, none, some, List, [], ◌∷◌, ◌++◌, append-nil, append_assoc, arith,
}
use rgnix.Syntax.{
  Token, Error, is_whitespace, backslash, double_quote, between, word, escape, Scan, word_char,
  outer_char, word_token, char, at_end, scan, tokenize,
}

-- A word between quotes: a quote or a backslash in it stands after a backslash.
escaped : Text → Text
escaped [] = []
escaped (c ∷ w) =
    if (c == backslash) || (c == double_quote) then backslash ∷ c ∷ escaped w else c ∷ escaped w

-- Words in quotes, each before a space.
pub quoted : List Text → Text
unfolding escaped
quoted [] = []
quoted (w ∷ ws) = double_quote ∷ escaped w ++ double_quote ∷ 32 ∷ quoted ws

abbrev pub token_texts : List Token → List Text
token_texts [] = []
token_texts (t ∷ ts) = t.text ∷ token_texts ts

-- The texts of the tokens that a scan returns.
abbrev pub texts_of : Result Error (List Token) → Option (List Text)
texts_of (ok ts) = some (token_texts ts)
texts_of (err e) = none

-- A rest that is read as the words wherever it stands.
abbrev Reads : Text → List Text → Type 0
Reads rest ws = (s : Scan) → s.mode ≡ between → texts_of (scan s rest) ≡ some ws

token_texts-append :
    (ts us : List Token) → token_texts (ts ++ us) ≡ token_texts ts ++ token_texts us
token_texts-append [] us = refl
token_texts-append (t ∷ ts) us = ap (λ xs. t.text ∷ xs) (token_texts-append ts us)

texts_of-eq-some :
    (r : Result Error (List Token)) (ws : List Text)
    → texts_of r ≡ some ws
    → (us : List Token) × (r ≡ ok us) × (token_texts us ≡ ws)
texts_of-eq-some (ok us) ws h = (us, refl, ground arith)
texts_of-eq-some (err e) ws h = absurd (ground arith)

-- One character, with what it puts out.
texts_of-scan :
    (s : Scan) (c : ℕ) (rest : Text) (ws : List Text)
    → texts_of (scan (char s c).0 rest) ≡ some ws
    → texts_of (scan s (c ∷ rest)) ≡ some (token_texts (char s c).1 ++ ws)
unfolding scan
texts_of-scan s c rest ws h =
    let (us, is, texts) = texts_of-eq-some (scan (char s c).0 rest) ws h in
    rw (is, scan)
      (ap some
        (token_texts-append (char s c).1 us ∙ ap (λ xs. token_texts (char s c).1 ++ xs) texts))

-- A character that puts out nothing.
texts_of-silent :
    (s : Scan) (c : ℕ) (rest : Text) (ws : List Text)
    → (char s c).1 ≡ []
    → texts_of (scan (char s c).0 rest) ≡ some ws
    → texts_of (scan s (c ∷ rest)) ≡ some ws
texts_of-silent s c rest ws silent h = texts_of-scan s c rest ws h ∙ rw silent refl

-- The characters of a quoted word.
open_quote :
    (s : Scan)
    → s.mode ≡ between
    → ((char s double_quote).1 ≡ [])
      × ((char s double_quote).0.mode ≡ word [] (some double_quote) s.line s.column)
unfolding char outer_char word_char is_whitespace
open_quote s h = (ground arith, ground arith)

plain_char :
    (s : Scan) (value : Text) (a b c : ℕ)
    → s.mode ≡ word value (some double_quote) a b
    → (c == backslash) || (c == double_quote) ≡ false
    → ((char s c).1 ≡ []) × ((char s c).0.mode ≡ word (value ++ c ∷ []) (some double_quote) a b)
unfolding char outer_char word_char
plain_char s value a b c h plain = (ground arith, ground arith)

start_escape :
    (s : Scan) (value : Text) (a b : ℕ)
    → s.mode ≡ word value (some double_quote) a b
    → ((char s backslash).1 ≡ [])
      × ((char s backslash).0.mode ≡ escape value (some double_quote) a b)
unfolding char outer_char word_char
start_escape s value a b h = (ground arith, ground arith)

end_escape :
    (s : Scan) (value : Text) (a b c : ℕ)
    → s.mode ≡ escape value (some double_quote) a b
    → (c == backslash) || (c == double_quote) ≡ true
    → ((char s c).1 ≡ []) × ((char s c).0.mode ≡ word (value ++ c ∷ []) (some double_quote) a b)
unfolding char outer_char word_char
end_escape s value a b c h special = (ground arith, ground arith)

close_quote :
    (s : Scan) (value : Text) (a b : ℕ)
    → s.mode ≡ word value (some double_quote) a b
    → ((char s double_quote).1 ≡ []) × ((char s double_quote).0.mode ≡ word value none a b)
unfolding char outer_char word_char
close_quote s value a b h = (ground arith, ground arith)

space_after :
    (s : Scan) (value : Text) (a b : ℕ)
    → s.mode ≡ word value none a b
    → ((char s 32).1 ≡ word_token value a b ∷ []) × ((char s 32).0.mode ≡ between)
unfolding char outer_char word_char is_whitespace
space_after s value a b h = (ground arith, ground arith)

word-Reads :
    (w value rest : Text) (ws : List Text) (a b : ℕ) (s : Scan)
    → Reads rest ws
    → s.mode ≡ word value (some double_quote) a b
    → texts_of (scan s (escaped w ++ double_quote ∷ 32 ∷ rest)) ≡ some ((value ++ w) ∷ ws)
unfolding escaped
word-Reads [] value rest ws a b s h m =
    let closed = close_quote s value a b m in
    let t = (char s double_quote).0 in
    let spaced = space_after t value a b closed.1 in
    let last : texts_of (scan t (32 ∷ rest)) ≡ some ((value ++ []) ∷ ws) =
      texts_of-scan t 32 rest ws (h (char t 32).0 spaced.1)
      ∙ rw spaced.0 (rw (append-nil value) refl) in
    texts_of-silent s double_quote (32 ∷ rest) ((value ++ []) ∷ ws) closed.0 last
word-Reads (c ∷ w) value rest ws a b s h m =
    let whole : (value ++ c ∷ []) ++ w ≡ value ++ c ∷ w = append_assoc value (c ∷ []) w in
    let later = escaped w ++ double_quote ∷ 32 ∷ rest in
    elim (Bool-cases ((c == backslash) || (c == double_quote))) [
      | inl special ↦
          let opened = start_escape s value a b m in
          let t = (char s backslash).0 in
          let done = end_escape t value a b c opened.1 special in
          let more : texts_of (scan (char t c).0 later) ≡ some ((value ++ c ∷ w) ∷ ws) =
            rw (← whole) (word-Reads w (value ++ c ∷ []) rest ws a b (char t c).0 h done.1) in
          let here : texts_of (scan s (backslash ∷ c ∷ later)) ≡ some ((value ++ c ∷ w) ∷ ws) =
            texts_of-silent s backslash (c ∷ later) ((value ++ c ∷ w) ∷ ws) opened.0
              (texts_of-silent t c later ((value ++ c ∷ w) ∷ ws) done.0 more) in
          rw special here
      | inr plain ↦
          let done = plain_char s value a b c m plain in
          let more : texts_of (scan (char s c).0 later) ≡ some ((value ++ c ∷ w) ∷ ws) =
            rw (← whole) (word-Reads w (value ++ c ∷ []) rest ws a b (char s c).0 h done.1) in
          let here : texts_of (scan s (c ∷ later)) ≡ some ((value ++ c ∷ w) ∷ ws) =
            texts_of-silent s c later ((value ++ c ∷ w) ∷ ws) done.0 more in
          rw plain here
    ]

quoted-Reads : (ws : List Text) → Reads (quoted ws) ws
unfolding quoted scan at_end
quoted-Reads [] s h = ground arith
quoted-Reads (w ∷ ws) s h =
    let opened = open_quote s h in
    texts_of-silent s double_quote (escaped w ++ double_quote ∷ 32 ∷ quoted ws) (w ∷ ws) opened.0 (
      word-Reads w [] (quoted ws) ws s.line s.column (char s double_quote).0 (quoted-Reads ws)
        opened.1)

-- Words in quotes are read back, whatever characters they hold.
pub tokenize-quoted : (ws : List Text) → texts_of (tokenize (quoted ws)) ≡ some ws
unfolding tokenize
tokenize-quoted ws = quoted-Reads ws (record { mode = between; line = 1; column = 1 }) refl
