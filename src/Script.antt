-- ===== src/Script.antt =====
-- src/script/syntax.rs: the tokens of a script. A text is the list of its characters. The positions
-- of statements (`locations`) are not part of it.
pub mod Blocks
pub mod Lexed
pub mod Parse
pub mod Program
pub mod Queue
pub mod Tests
use rgnix.Base.{
  ltb, ◌==◌, if◌then◌else◌, within, length, any, Text, codes, is_digit, Result, ok, err, ℕ, ◌+◌,
  String, Bool, true, false, ◌&&◌, ◌||◌, Option, none, some, List, [], ◌∷◌, ◌++◌,
}
use rgnix.Syntax.{is_whitespace}

pub record Token : Type 0 where
  pub value : Text
  pub string : Bool
  pub line : ℕ
  pub col : ℕ

-- An error at a place, one without a place, and the end of the fuel.
pub data Error : Type 0 where
  located : ℕ → ℕ → String → Error
  plain : String → Error
  out_of_fuel : Error

abbrev pub is_letter : ℕ → Bool
is_letter c = within b'a' b'z' c || within b'A' b'Z' c

abbrev pub is_word : ℕ → Bool
is_word c = is_letter c || (is_digit c || (c == b'_'))

-- The characters that stand in operators and punctuation.
abbrev pub is_symbol : ℕ → Bool
is_symbol c = any (λ d. c == d) (codes "()+-*/%=~<>.,;")

-- `["==", "~=", "<=", ">=", ".."].contains(..)`
abbrev pub is_pair : ℕ → ℕ → Bool
is_pair c d =
    (d == b'=' && ((c == b'=') || ((c == b'~') || ((c == b'<') || (c == b'>')))))
    || ((c == b'.') && (d == b'.'))

-- Where the loops stand: between tokens, in a comment, in a word, after the first character of an
-- operator, in a string, or after a backslash in one. A token carries its start.
pub data Mode : Type 0 where
  between comment : Mode
  word : Text → ℕ → ℕ → Mode
  symbol : ℕ → ℕ → ℕ → Mode
  string escape : ℕ → Text → ℕ → ℕ → Mode

pub record Scan : Type 0 where
  pub mode : Mode
  pub line : ℕ
  pub col : ℕ

abbrev standing : Mode → ℕ → ℕ → Scan
standing mode line col = record { mode = mode; line = line; col = col }

abbrev pub bare : Text → ℕ → ℕ → Token
bare value line col = record { value = value; string = false; line = line; col = col }

-- A character between tokens.
outer : ℕ → ℕ → ℕ → Scan
unfolding is_whitespace
outer line col c =
    if c == 10
    then standing between (line + 1) 1
    else if is_whitespace c
    then standing between line (col + 1)
    else if (c == 39) || (c == 34)
    then standing (string c [] line col) line (col + 1)
    else if is_word c
    then standing (word (c ∷ []) line col) line (col + 1)
    else standing (symbol c line col) line (col + 1)

-- The end of an operator of one character.
close_symbol : ℕ → ℕ → ℕ → ℕ → ℕ → Result Error (List Token)
close_symbol c start_line start_col line col =
    if is_symbol c
    then ok (bare (c ∷ []) start_line start_col ∷ [])
    else err (located line col "unexpected character")

unescaped : ℕ → Option ℕ
unescaped c =
    if c == b'n'
    then some 10
    else if c == b'r'
    then some 13
    else if c == b't'
    then some 9
    else if (c == 92) || ((c == 39) || (c == 34))
    then some c
    else none

in_string : ℕ → Text → ℕ → ℕ → ℕ → ℕ → ℕ → Result Error (Scan × List Token)
in_string quote value start_line start_col line col c =
    if c == quote
    then ok (
      standing between line (col + 1),
      record { value = value; string = true; line = start_line; col = start_col } ∷ [],
    )
    else if c == 10
    then err (located start_line start_col "string must not span lines")
    else if c == 92
    then ok (standing (escape quote value start_line start_col) line (col + 1), [])
    else ok (standing (string quote (value ++ c ∷ []) start_line start_col) line (col + 1), [])

-- One character in any mode.
char : Scan → ℕ → Result Error (Scan × List Token)
unfolding outer close_symbol unescaped in_string
char s c = elim s.mode [
  | between ↦ ok (outer s.line s.col c, [])
  | comment ↦
      if c == 10
      then ok (outer s.line s.col c, [])
      else ok (standing comment s.line (s.col + 1), [])
  | word value line col ↦
      if is_word c
      then ok (standing (word (value ++ c ∷ []) line col) s.line (s.col + 1), [])
      else ok (outer s.line s.col c, bare value line col ∷ [])
  | symbol d line col ↦
      if (d == b'-') && (c == b'-')
      then ok (standing comment s.line (s.col + 1), [])
      else if is_pair d c
      then ok (standing between s.line (s.col + 1), bare (d ∷ c ∷ []) line col ∷ [])
      else elim (close_symbol d line col s.line s.col) [
        | err e ↦ err e
        | ok tokens ↦ ok (outer s.line s.col c, tokens)
      ]
  | string quote value line col ↦ in_string quote value line col s.line s.col c
  | escape quote value line col ↦ elim (unescaped c) [
    | none ↦ err (located s.line (s.col + 1) "unsupported escape")
    | some d ↦ ok (standing (string quote (value ++ d ∷ []) line col) s.line (s.col + 1), [])
  ]
]

-- The end of the source; its own token is the last.
at_end : Scan → Result Error (List Token)
unfolding close_symbol
at_end s = elim s.mode [
  | between ↦ ok (bare (codes "<eof>") s.line s.col ∷ [])
  | comment ↦ ok (bare (codes "<eof>") s.line s.col ∷ [])
  | word value line col ↦ ok (bare value line col ∷ bare (codes "<eof>") s.line s.col ∷ [])
  | symbol c line col ↦ elim (close_symbol c line col s.line s.col) [
    | err e ↦ err e
    | ok tokens ↦ ok (tokens ++ bare (codes "<eof>") s.line s.col ∷ [])
  ]
  | string quote value line col ↦ err (located line col "unterminated string")
  | escape quote value line col ↦ err (located s.line s.col "incomplete escape")
]

-- The loop, with the number of tokens read so far.
scan : ℕ → Scan → Text → Result Error (List Token)
unfolding char at_end
scan n s [] = elim (at_end s) [
  | err e ↦ err e
  | ok tokens ↦ if ltb 65537 (n + length tokens) then err (plain "too many tokens") else ok tokens
]
scan n s (c ∷ cs) = elim (char s c) [
  | err e ↦ err e
  | ok (t, tokens) ↦
      let rest = scan (n + length tokens) t cs in
      if ltb 65536 (n + length tokens)
      then err (plain "too many tokens")
      else elim rest [ err e ↦ err e | ok more ↦ ok (tokens ++ more) ]
]

unfoldable pub lex : Text → Result Error (List Token)
unfolding scan
lex source = scan 0 (standing between 1 1) source
