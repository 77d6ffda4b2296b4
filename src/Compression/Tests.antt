-- ===== src/Compression/Tests.antt =====
-- src/compression.rs: examples of the choice.
use rgnix.Base.{
  if◌then◌else◌, Text, codes, text_eq, split_on, split_once, parse_uint, ◌≡◌, refl, ◌≢◌, false,
  Option, some, List, [], ◌∷◌,
}
use rgnix.Compression.{
  Compression, br, gzip, quality, read_item, read_items, read_values, negotiated_encoding,
  selected_encoding,
}
use rgnix.Compression.Refused.{Refuses, negotiated_encoding-refused}

abbrev trim : Text → Text
trim s = s

abbrev to_str : Text → Option Text
to_str s = some s

abbrev policy : Compression
policy = record { gzip = 5; brotli = 4; min_length = 20; types = [] }

abbrev headers : Text → List Text
headers name =
    if text_eq name (codes "accept-encoding")
    then codes "*;q=0.5" ∷ codes "gzip;q=0,br;q=0.8" ∷ []
    else []

brotli_chosen : negotiated_encoding trim to_str headers policy ≡ some br
unfolding negotiated_encoding read_values read_items read_item quality split_on split_once
brotli_chosen = refl

gzip-Refuses : Refuses trim to_str gzip (codes "gzip;q=0")
unfolding quality split_on split_once
gzip-Refuses = (refl, refl, refl)

items_lem : split_on b',' (codes "gzip;q=0,br;q=0.8") ≡ codes "gzip;q=0" ∷ codes "br;q=0.8" ∷ []
unfolding split_on
items_lem = refl

negotiated_encoding-refused_example : negotiated_encoding trim to_str headers policy ≢ some gzip
negotiated_encoding-refused_example =
    negotiated_encoding-refused trim to_str gzip headers policy (codes "*;q=0.5" ∷ [])
      (codes "gzip;q=0,br;q=0.8") [] (codes "gzip;q=0,br;q=0.8") [] (codes "gzip;q=0")
      (codes "br;q=0.8" ∷ []) refl refl items_lem gzip-Refuses

abbrev page : Text → List Text
page name = if text_eq name (codes "content-type") then codes "text/html;charset=utf-8" ∷ [] else []

abbrev html_only : Compression
html_only = record policy { types = codes "text/html" ∷ [] }

page_compressed : selected_encoding trim to_str false headers 200 page html_only ≡ some br
unfolding selected_encoding negotiated_encoding read_values read_items read_item quality split_on
    split_once parse_uint
page_compressed = refl
