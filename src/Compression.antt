-- ===== src/Compression.antt =====
-- src/compression.rs: the choice of a response's encoding. A text is the list of its bytes; `trim`
-- (`str::trim`) and `to_str` (`HeaderValue::to_str`) are parameters. The settings of pingora's own
-- filter (`configure`) are not part of it.
pub mod Refused
pub mod Tests
use rgnix.Base.{
  ltb, leb, ◌==◌, if◌then◌else◌, unwrap_or, length, take, all, any, Text, codes, text_eq, split_on,
  split_once, to_lower, is_digit, parse_uint, ℕ, ◌+◌, ◌-◌, ◌*◌, min, max, Bool, false, not, ◌&&◌,
  ◌||◌, Option, none, some, List, [], ◌∷◌, ◌++◌,
}

pub record Compression : Type 0 where
  pub gzip : ℕ
  pub brotli : ℕ
  pub min_length : ℕ
  pub types : List Text

pub data Encoding : Type 0 where
  br gzip : Encoding

-- The qualities of `br`, `gzip`, `*` and `identity`.
pub record Qualities : Type 0 where
  pub q_br : Option ℕ
  pub q_gzip : Option ℕ
  pub q_any : Option ℕ
  pub q_identity : Option ℕ

abbrev pub no_qualities : Qualities
no_qualities = record { q_br = none; q_gzip = none; q_any = none; q_identity = none }

abbrev pub caseless : Text → Text → Bool
caseless a b = text_eq (to_lower a) (to_lower b)

abbrev pub number_of : ℕ → Text → ℕ
number_of n [] = n
number_of n (c ∷ s) = number_of (n * 10 + (c - 48)) s

-- `10_u16.pow(3 - fraction.len())`
abbrev pub scale : Text → ℕ
scale [] = 1000
scale (a ∷ []) = 100
scale (a ∷ b ∷ []) = 10
scale (a ∷ b ∷ c ∷ s) = 1

abbrev pub is_zero_digit : ℕ → Bool
is_zero_digit c = c == b'0'

-- The part before the point and the part after it.
abbrev pub parts_of : Text → Text × Text
parts_of value = elim (split_once b'.' value) [ none ↦ (value, []) | some p ↦ p ]

-- `quality`, in thousandths
unfoldable pub quality : Text → Option ℕ
unfolding split_once
quality value =
    let p = parts_of value in
    if ltb 3 (length p.1) || not (all is_digit p.1)
    then none
    else if text_eq p.0 (codes "0")
    then some (number_of 0 p.1 * scale p.1)
    else if text_eq p.0 (codes "1") && all is_zero_digit p.1
    then some 1000
    else none

-- What an item names.
pub data Index : Type 0 where
  at_br at_gzip at_any at_identity : Index

abbrev pub index_of : Text → Option Index
index_of name =
    if caseless name (codes "br")
    then some at_br
    else if caseless name (codes "gzip")
    then some at_gzip
    else if text_eq name (codes "*")
    then some at_any
    else if caseless name (codes "identity")
    then some at_identity
    else none

-- `map_or(quality, |old| old.min(quality))`
abbrev pub lowest : Option ℕ → ℕ → ℕ
lowest none q = q
lowest (some old) q = min old q

abbrev pub note : Index → ℕ → Qualities → Qualities
note at_br q s = record s { q_br = some (lowest s.q_br q) }
note at_gzip q s = record s { q_gzip = some (lowest s.q_gzip q) }
note at_any q s = record s { q_any = some (lowest s.q_any q) }
note at_identity q s = record s { q_identity = some (lowest s.q_identity q) }

-- The end of `negotiated_encoding`.
abbrev pub choose : Compression → Qualities → Option Encoding
choose policy s =
    let wildcard = unwrap_or s.q_any 0 in
    let b = if ltb 0 policy.brotli then unwrap_or s.q_br wildcard else 0 in
    let g = if ltb 0 policy.gzip then unwrap_or s.q_gzip wildcard else 0 in
    if (max b g == 0) || ltb (max b g) (unwrap_or s.q_identity 0)
    then none
    else if leb g b
    then some br
    else some gzip

module _ (trim : Text → Text) (to_str : Text → Option Text) where
  -- The quality of an item, from what follows its name.
  abbrev pub item_quality : List Text → Option ℕ
  item_quality [] = some 1000
  item_quality (parameter ∷ rest) = elim (split_once b'=' (trim parameter)) [
    | none ↦ none
    | some (key, value) ↦
        if not (caseless key (codes "q")) || not (length rest == 0)
        then none
        else quality (trim value)
  ]

  abbrev pub name_and_rest : Text → Text × List Text
  name_and_rest item = elim (split_on b';' (trim item)) [
    | [] ↦ ([], [])
    | name ∷ rest ↦ (trim name, rest)
  ]

  -- One item of a value.
  unfoldable pub read_item : Text → Qualities → Option Qualities
  unfolding quality split_on split_once
  read_item item s =
      let p = name_and_rest item in
      if length p.0 == 0 then some s else elim (item_quality p.1) [
        | none ↦ none
        | some q ↦ elim (index_of p.0) [ none ↦ some s | some i ↦ some (note i q s) ]
      ]

  unfoldable pub read_items : List Text → Qualities → Option Qualities
  unfolding read_item
  read_items [] s = some s
  read_items (item ∷ items) s = elim (read_item item s) [
    | none ↦ none
    | some t ↦ read_items items t
  ]

  -- The loop on the values of `accept-encoding`; `bytes` are those of the values before.
  unfoldable pub read_values : ℕ → List Text → Qualities → Option Qualities
  unfolding read_items
  read_values bytes [] s = some s
  read_values bytes (value ∷ values) s =
      if ltb 8192 (bytes + length value) then none else elim (to_str value) [
        | none ↦ none
        | some text ↦ elim (read_items (split_on b',' text) s) [
          | none ↦ none
          | some t ↦ read_values (bytes + length value) values t
        ]
      ]

  unfoldable pub negotiated_encoding : (Text → List Text) → Compression → Option Encoding
  unfolding read_values
  negotiated_encoding headers policy =
      elim (read_values 0 (headers (codes "accept-encoding")) no_qualities) [
        | none ↦ none
        | some s ↦ choose policy s
      ]

  abbrev pub first_text : List Text → Option Text
  first_text [] = none
  first_text (value ∷ values) = to_str value

  abbrev pub first_part : List Text → Text
  first_part [] = []
  first_part (part ∷ parts) = part

  abbrev pub media_type : List Text → Text
  media_type values = trim (first_part (split_on b';' (unwrap_or (first_text values) [])))

  abbrev pub forbids_transform : Text → Bool
  forbids_transform value = elim (to_str value) [
    | none ↦ false
    | some text ↦ any (λ d. caseless (trim d) (codes "no-transform")) (split_on b',' text)
  ]

  abbrev pub is_small : ℕ → List Text → Bool
  is_small least values = elim (first_text values) [
    | none ↦ false
    | some text ↦ elim (parse_uint 18446744073709551615 text) [
      | none ↦ false
      | some n ↦ ltb n least
    ]
  ]

  abbrev pub present : List Text → Bool
  present values = not (length values == 0)

  -- The conditions under which a response is left as it is.
  abbrev pub excluded : Bool → (Text → List Text) → ℕ → (Text → List Text) → Compression → Bool
  excluded is_head headers status response policy =
      let content_type = media_type (response (codes "content-type")) in
      is_head
      || (present (headers (codes "range"))
          || (not (status == 200)
              || (present (response (codes "content-encoding"))
                  || (present (response (codes "content-range"))
                      || (any forbids_transform
                            (response (codes "cache-control") ++ headers (codes "cache-control"))
                          || (is_small policy.min_length (response (codes "content-length"))
                              || (caseless content_type (codes "text/event-stream")
                                  || (caseless (take 16 content_type) (codes "application/grpc")
                                      || not
                                          (any (λ t. caseless t content_type) policy.types)))))))))

  unfoldable pub selected_encoding :
      Bool → (Text → List Text) → ℕ → (Text → List Text) → Compression → Option Encoding
  unfolding negotiated_encoding split_on parse_uint
  selected_encoding is_head headers status response policy =
      if (policy.gzip == 0) && (policy.brotli == 0)
      then none
      else elim (negotiated_encoding headers policy) [
        | none ↦ none
        | some e ↦ if excluded is_head headers status response policy then none else some e
      ]
