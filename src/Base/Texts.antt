-- ===== src/Base/Texts.antt =====
-- Texts as lists of numbers: the bytes of a `str`, `String` or `[u8]`.
use Prim.Native.Nat.{ℕ, zero, suc, ◌+◌, ◌-◌, ◌*◌, ◌≤◌}
use Prim.Native.Char.{code}
use Prim.Native.String.{String}
use mathlib.Core.Path.{◌≡◌}
use mathlib.Core.Logic.{◌↔◌, inl, inr}
use mathlib.Core.Bool.{Bool, true, false, ◌&&◌}
use mathlib.Core.List.{List, [], ◌∷◌, map, reverse}
use mathlib.Core.Option.{Option, none, some}
use native.Mathlib.Omega.{arith}
use rgnix.Base.Tests.{◌==◌, leb, if◌then◌else◌, Eq, within, is_some, Bool-cases}
use rgnix.Base.Lists.{any}

abbrev pub Text : Type 0
Text = List ℕ

-- The code points of a literal: its bytes, as each literal here is ASCII.
abbrev pub codes : String → Text
codes String.[] = []
codes (String.◌∷◌ c s) = code c ∷ codes s

abbrev pub text_eq : Text → Text → Bool
text_eq [] [] = true
text_eq (x ∷ xs) (y ∷ ys) = (x == y) && text_eq xs ys
text_eq [] (y ∷ ys) = false
text_eq (x ∷ xs) [] = false

pub text_eq_iff : (xs ys : Text) → (text_eq xs ys ≡ true) ↔ (xs ≡ ys)
text_eq_iff [] [] = ground arith
text_eq_iff (x ∷ xs) (y ∷ ys) = ground (arith, text_eq_iff xs ys)
text_eq_iff [] (y ∷ ys) = ground arith
text_eq_iff (x ∷ xs) [] = ground arith

instance abbrev pub text_is_eq : Eq Text
text_is_eq = record { beq = text_eq; beq_iff = text_eq_iff }

-- `strip_prefix`; what is left is the text after the prefix.
unfoldable pub strip_prefix : Text → Text → Option Text
strip_prefix [] s = some s
strip_prefix (p ∷ ps) [] = none
strip_prefix (p ∷ ps) (c ∷ s) = if p == c then strip_prefix ps s else none

unfoldable pub starts_with : Text → Text → Bool
unfolding strip_prefix
starts_with p s = is_some (strip_prefix p s)

-- `strip_suffix`: what stands before the suffix.
unfoldable pub strip_suffix : Text → Text → Option Text
strip_suffix p [] = if text_eq p [] then some [] else none
strip_suffix p (c ∷ s) =
    if text_eq p (c ∷ s)
    then some []
    else elim (strip_suffix p s) [ none ↦ none | some r ↦ some (c ∷ r) ]

abbrev pub contains_byte : ℕ → Text → Bool
contains_byte b = any (λ c. c == b)

-- `split(b)` for a one-byte separator: never empty.
unfoldable pub split_on : ℕ → Text → List Text
split_on b [] = [] ∷ []
split_on b (c ∷ s) = elim (split_on b s) [
  | [] ↦ [] ∷ []
  | part ∷ parts ↦ if c == b then [] ∷ part ∷ parts else (c ∷ part) ∷ parts
]

-- `split_once(b)`: at the first separator.
unfoldable pub split_once : ℕ → Text → Option (Text × Text)
split_once b [] = none
split_once b (c ∷ s) =
    if c == b
    then some ([], s)
    else elim (split_once b s) [ none ↦ none | some (l, r) ↦ some (c ∷ l, r) ]

-- `to_ascii_lowercase`
abbrev pub lower_byte : ℕ → ℕ
lower_byte c = if within b'A' b'Z' c then c + 32 else c

abbrev pub to_lower : Text → Text
to_lower = map lower_byte

abbrev pub is_digit : ℕ → Bool
is_digit = within b'0' b'9'

abbrev pub is_lowercase : ℕ → Bool
is_lowercase = within b'a' b'z'

-- `trim_start_matches(b)` and `trim_end_matches(b)`
unfoldable pub trim_start : ℕ → Text → Text
trim_start b [] = []
trim_start b (c ∷ s) = if c == b then trim_start b s else c ∷ s

unfoldable pub trim_end : ℕ → Text → Text
unfolding trim_start
trim_end b s = reverse (trim_start b (reverse s))

-- `from_utf8`: the bytes that a lead byte asks for, with the range of the first of them.
utf8_lead : ℕ → Option (ℕ × ℕ × ℕ)
utf8_lead b =
    if leb b 127
    then some (0, 128, 191)
    else if within 194 223 b
    then some (1, 128, 191)
    else if b == 224
    then some (2, 160, 191)
    else if b == 237
    then some (2, 128, 159)
    else if within 225 239 b
    then some (2, 128, 191)
    else if b == 240
    then some (3, 144, 191)
    else if within 241 243 b
    then some (3, 128, 191)
    else if b == 244
    then some (3, 128, 143)
    else none

utf8_next : ℕ → ℕ → ℕ → ℕ → Option (ℕ × ℕ × ℕ)
unfolding utf8_lead
utf8_next zero lo hi b = utf8_lead b
utf8_next (suc n) lo hi b = if within lo hi b then some (n, 128, 191) else none

utf8_from : ℕ → ℕ → ℕ → Text → Bool
unfolding utf8_next
utf8_from pending lo hi [] = pending == 0
utf8_from pending lo hi (b ∷ s) = elim (utf8_next pending lo hi b) [
  | none ↦ false
  | some (n, l, h) ↦ utf8_from n l h s
]

unfoldable pub valid_utf8 : Text → Bool
unfolding utf8_from
valid_utf8 s = utf8_from 0 128 191 s

-- `parse::<uN>()`: an optional plus sign, then digits whose value stays within the type.
parse_digits : ℕ → ℕ → Text → Option ℕ
parse_digits top n [] = some n
parse_digits top n (c ∷ s) =
    if is_digit c
    then (if leb (n * 10 + (c - 48)) top then parse_digits top (n * 10 + (c - 48)) s else none)
    else none

parse_nonempty : ℕ → Text → Option ℕ
unfolding parse_digits
parse_nonempty top [] = none
parse_nonempty top (c ∷ s) = parse_digits top 0 (c ∷ s)

unfoldable pub parse_uint : ℕ → Text → Option ℕ
unfolding parse_nonempty
parse_uint top [] = none
parse_uint top (c ∷ s) = if c == b'+' then parse_nonempty top s else parse_nonempty top (c ∷ s)

abbrev pub u16_max : ℕ
u16_max = 65535

abbrev pub u64_max : ℕ
u64_max = 18446744073709551615

-- What a parsed number does not exceed.
parse_digits-le : (top n : ℕ) (s : Text) {m : ℕ} → n ≤ top → parse_digits top n s ≡ some m → m ≤ top
unfolding parse_digits
parse_digits-le top n [] h e = ground arith
parse_digits-le top n (c ∷ s) {m} h e =
    ground (arith, parse_digits-le top (n * 10 + (c - 48)) s {m = m})

parse_nonempty-le : (top : ℕ) (s : Text) {m : ℕ} → parse_nonempty top s ≡ some m → m ≤ top
unfolding parse_nonempty
parse_nonempty-le top [] e = cc
parse_nonempty-le top (c ∷ s) e = parse_digits-le top 0 (c ∷ s) (omega arith) e

pub parse_uint-le : (top : ℕ) (s : Text) {m : ℕ} → parse_uint top s ≡ some m → m ≤ top
unfolding parse_uint
parse_uint-le top [] e = cc
parse_uint-le top (c ∷ s) {m} e = elim (Bool-cases (c == b'+')) [
  | inl h ↦ parse_nonempty-le top s (rw h at e)
  | inr h ↦ parse_nonempty-le top (c ∷ s) (rw h at e)
]
