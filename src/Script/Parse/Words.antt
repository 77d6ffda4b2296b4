-- ===== src/Script/Parse/Words.antt =====
-- src/script/syntax.rs: the tokens that begin and follow an expression.
use rgnix.Base.{
  ◌==◌, Bool-cases, Text, codes, text_eq, text_eq_iff, is_digit, parse_uint, ok, ◌≡◌, refl, inl,
  inr, Bool, true, false, not, ◌&&◌, ◌||◌, none, List, [], ◌∷◌, ◌++◌, arith,
}
use rgnix.Script.{Token, is_letter}
use rgnix.Script.Parse.{
  is_bare, next_is, is_name, ident, dotted, i64_max, named, head, precedence, next_precedence,
}
use rgnix.Script.Parse.Grammar.{Names, one_name, two_names, Stops}

abbrev IsIdent : Token → Type 0
IsIdent t = not t.string && is_name t.value ≡ true

abbrev is_start : Text → Bool
is_start [] = false
is_start (c ∷ s) = is_letter c || (c == b'_')

name_parse_uint : (s : Text) → is_start s ≡ true → parse_uint i64_max s ≡ none
unfolding parse_uint
name_parse_uint [] h = refl
name_parse_uint (c ∷ s) h = elim (Bool-cases (c == b'+')) [
  | inl plus ↦ absurd (ground (plus, h, arith))
  | inr other ↦ elim (Bool-cases (is_digit c)) [
    | inl digit ↦ absurd (ground (digit, h, arith))
    | inr not_digit ↦ rw (other, not_digit) refl
  ]
]

-- A name is none of the texts that an operand is compared with.
name_text_eq : (s value : Text) → is_name s ≡ true → is_name value ≡ false → text_eq s value ≡ false
name_text_eq s value h g = elim (Bool-cases (text_eq s value)) [
  | inr other ↦ other
  | inl same ↦
      let is : s ≡ value = (text_eq_iff s value).0 same in
      let both : is_name value ≡ true = rw is at h in absurd (ground (both, g, arith))
]

pub name_is_bare :
    (value : Text) (t : Token) → IsIdent t → is_name value ≡ false → is_bare value t ≡ false
name_is_bare value t h g =
    let k : text_eq t.value value ≡ false = name_text_eq t.value value (ground (h, arith)) g in
    ground (k, arith)

pub name_head : (t : Token) → IsIdent t → head t ≡ named
unfolding head
name_head t h =
    let a : is_bare (codes "not") t ≡ false = name_is_bare (codes "not") t h refl in
    let b : is_bare (codes "-") t ≡ false = name_is_bare (codes "-") t h refl in
    let c : is_bare (codes "(") t ≡ false = name_is_bare (codes "(") t h refl in
    let d : is_bare (codes "true") t ≡ false = name_is_bare (codes "true") t h refl in
    let e : is_bare (codes "false") t ≡ false = name_is_bare (codes "false") t h refl in
    let f : is_bare (codes "nil") t ≡ false = name_is_bare (codes "nil") t h refl in
    let s : t.string ≡ false = ground (h, arith) in
    let n : parse_uint i64_max t.value ≡ none = name_parse_uint t.value (ground (h, arith)) in
    rw (a, b, c, s, n, d, e, f) refl

-- A closing parenthesis begins no operand, nor does it go on with one.
pub close_head : (t : Token) → is_bare (codes ")") t ≡ true → head t ≡ named
unfolding head parse_uint
close_head t h =
    let s : t.string ≡ false = ground (h, arith) in
    let same : t.value ≡ codes ")" = (text_eq_iff t.value (codes ")")).0 (ground (h, arith)) in
    let a : is_bare (codes "true") t ≡ false = rw (s, same) refl in
    let b : is_bare (codes "false") t ≡ false = rw (s, same) refl in
    let c : is_bare (codes "nil") t ≡ false = rw (s, same) refl in rw (s, same, a, b, c) refl

pub bare-Stops :
    (value : Text) (t : Token) (ts : List Token)
    → is_bare value t ≡ true
    → precedence value ≡ 0
    → text_eq value (codes "(") ≡ false
    → text_eq value (codes ".") ≡ false
    → Stops 0 (t ∷ ts)
unfolding next_precedence
bare-Stops value t ts h p q r =
    let s : t.string ≡ false = ground (h, arith) in
    let same : t.value ≡ value = (text_eq_iff t.value value).0 (ground (h, arith)) in
    (rw (s, same) (omega arith), rw (s, same) q, rw (s, same) r)

ident_lem : (t : Token) (ts : List Token) → IsIdent t → ident (t ∷ ts) ≡ ok (t.value, ts)
unfolding ident
ident_lem t ts h = rw h refl

pub dotted-Names :
    (x : Text) (ts rest : List Token)
    → Names x ts
    → next_is (codes ".") rest ≡ false
    → dotted (ts ++ rest) ≡ ok (x, rest)
unfolding dotted
dotted-Names _ _ rest (one_name t is) h =
    let same : ident (t ∷ rest) ≡ ok (t.value, rest) = ident_lem t rest is in
    rw (dotted, same, h) refl
dotted-Names _ _ rest (two_names t d u is dot is_too) h =
    let same : ident (t ∷ d ∷ u ∷ rest) ≡ ok (t.value, d ∷ u ∷ rest) =
      ident_lem t (d ∷ u ∷ rest) is in
    let after : ident (u ∷ rest) ≡ ok (u.value, rest) = ident_lem u rest is_too in
    rw (dotted, same, dot, after) refl

pub close-comma : (t : Token) → is_bare (codes ")") t ≡ true → is_bare (codes ",") t ≡ false
close-comma t h =
    let same : t.value ≡ codes ")" = (text_eq_iff t.value (codes ")")).0 (ground (h, arith)) in
    let s : t.string ≡ false = ground (h, arith) in rw (s, same) refl

pub close-Stops : (t : Token) (ts : List Token) → is_bare (codes ")") t ≡ true → Stops 0 (t ∷ ts)
unfolding precedence
close-Stops t ts h = bare-Stops (codes ")") t ts h refl refl refl

pub comma-Stops : (t : Token) (ts : List Token) → is_bare (codes ",") t ≡ true → Stops 0 (t ∷ ts)
unfolding precedence
comma-Stops t ts h = bare-Stops (codes ",") t ts h refl refl refl
