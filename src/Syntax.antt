-- ===== src/Syntax.antt =====
-- src/config/syntax.rs: the tokens of a configuration file. A text is the list of its characters.
-- Files, `include` and the path in an error are not part of it.
pub mod Parse
pub mod Quote
use rgnix.Base.{
  ◌==◌, if◌then◌else◌, within, is_some, Text, Result, ok, err, ℕ, ◌+◌, Bool, true, false, not, ◌&&◌,
  ◌||◌, Option, none, some, List, [], ◌∷◌, ◌++◌,
}

pub record Token : Type 0 where
  pub text : Text
  pub punctuation : Bool
  pub line : ℕ
  pub column : ℕ

pub data Error : Type 0 where
  incomplete_escape unterminated_string : ℕ → ℕ → Error
  unexpected_closing_brace expected_directive : ℕ → ℕ → Error
  missing_semicolon_or_block missing_semicolon : ℕ → ℕ → Error
  nesting unclosed_block : Error
  out_of_fuel : Error

-- `char::is_whitespace`: the property `White_Space`
unfoldable pub is_whitespace : ℕ → Bool
is_whitespace c =
    within 9 13 c
    || ((c == 32)
        || ((c == 133)
            || ((c == 160)
                || ((c == 5760)
                    || (within 8192 8202 c
                        || ((c == 8232)
                            || ((c == 8233) || ((c == 8239) || ((c == 8287) || (c == 12288))))))))))

abbrev pub newline : ℕ
newline = 10

abbrev pub backslash : ℕ
backslash = 92

abbrev pub double_quote : ℕ
double_quote = 34

abbrev pub single_quote : ℕ
single_quote = 39

-- `"{};".contains(c)`
abbrev pub is_punctuation : ℕ → Bool
is_punctuation c = (c == b'{') || ((c == b'}') || (c == b';'))

-- Where the loops stand: between tokens, in a comment, in a word with its quote and its start, or
-- after the backslash of an escape in it.
pub data Mode : Type 0 where
  between comment : Mode
  word escape : Text → Option ℕ → ℕ → ℕ → Mode

pub record Scan : Type 0 where
  pub mode : Mode
  pub line : ℕ
  pub column : ℕ

-- A character that is read on: `line` and `column` after it.
abbrev pub advance : Mode → ℕ → ℕ → ℕ → Scan
advance mode line column c =
    if c == newline
    then record { mode = mode; line = line + 1; column = 1 }
    else record { mode = mode; line = line; column = column + 1 }

abbrev pub is_quote : ℕ → Option ℕ → Bool
is_quote c none = false
is_quote c (some q) = q == c

-- The character of an escape.
abbrev pub unescape : ℕ → ℕ
unescape c = if c == b'n' then 10 else if c == b'r' then 13 else if c == b't' then 9 else c

-- The loop of a word, at one character that does not end it.
pub word_char : Text → Option ℕ → ℕ → ℕ → ℕ → ℕ → ℕ → Scan
word_char value quote start_line start_column line column c =
    if c == backslash
    then record {
      mode = escape value quote start_line start_column;
      line = line;
      column = column + 1;
    }
    else if is_quote c quote
    then advance (word value none start_line start_column) line column c
    else if not (is_some quote) && ((c == single_quote) || (c == double_quote))
    then advance (word value (some c) start_line start_column) line column c
    else advance (word (value ++ c ∷ []) quote start_line start_column) line column c

-- The outer loop, at one character.
pub outer_char : ℕ → ℕ → ℕ → Scan × List Token
unfolding is_whitespace word_char
outer_char line column c =
    if is_whitespace c
    then (advance between line column c, [])
    else if c == b'#'
    then (record { mode = comment; line = line; column = column + 1 }, [])
    else if is_punctuation c
    then (
      record { mode = between; line = line; column = column + 1 },
      record { text = c ∷ []; punctuation = true; line = line; column = column } ∷ [],
    )
    else (word_char [] none line column line column c, [])

abbrev pub word_token : Text → ℕ → ℕ → Token
word_token value line column = record {
  text = value;
  punctuation = false;
  line = line;
  column = column;
}

-- One character in any mode. An escaped line break does not count as one: the test of the source
-- is on the backslash.
pub char : Scan → ℕ → Scan × List Token
unfolding outer_char
char s c = elim s.mode [
  | between ↦ outer_char s.line s.column c
  | comment ↦
      if c == newline
      then outer_char s.line s.column c
      else (record s { column = s.column + 1 }, [])
  | word value quote start_line start_column ↦
      if not (is_some quote) && (is_whitespace c || (is_punctuation c || (c == b'#')))
      then (let (t, tokens) = outer_char s.line s.column c in
          (t, word_token value start_line start_column ∷ tokens))
      else (word_char value quote start_line start_column s.line s.column c, [])
  | escape value quote start_line start_column ↦ (
    record {
      mode = word (value ++ unescape c ∷ []) quote start_line start_column;
      line = s.line;
      column = s.column + 1;
    },
    [],
  )
]

-- The end of the input.
pub at_end : Scan → Result Error (List Token)
at_end s = elim s.mode [
  | between ↦ ok []
  | comment ↦ ok []
  | word value quote start_line start_column ↦
      if is_some quote
      then err (unterminated_string start_line start_column)
      else ok (word_token value start_line start_column ∷ [])
  | escape value quote start_line start_column ↦ err (incomplete_escape s.line s.column)
]

pub scan : Scan → Text → Result Error (List Token)
unfolding char at_end
scan s [] = at_end s
scan s (c ∷ cs) = elim (scan (char s c).0 cs) [
  | ok tokens ↦ ok ((char s c).1 ++ tokens)
  | err e ↦ err e
]

pub tokenize : Text → Result Error (List Token)
unfolding scan
tokenize input = scan (record { mode = between; line = 1; column = 1 }) input
