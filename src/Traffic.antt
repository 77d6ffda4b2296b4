-- ===== src/Traffic.antt =====
-- src/traffic.rs: limit keys and the policy of a route. `HeaderName::from_bytes` of the http crate
-- is the parameter `header_name`.
pub mod Limiter
pub mod Keys
mod Tests
use rgnix.Base.{
  leb, ◌==◌, if◌then◌else◌, within, is_none_or, unwrap_or, length, Text, codes, text_eq, text_is_eq,
  split_on, split_once, to_lower, lookup, Result, ◌>>◌, ◌>>=◌, ensure, ok_or, ok, err, ℕ, String,
  Bool, true, false, not, ◌&&◌, Option, none, some, List, [], ◌∷◌,
}
use rgnix.Request.{Request}

pub data Key : Type 0 where
  route ip : Key
  header cookie claim : Text → Key

pub record Rate : Type 0 where
  pub per_second : ℕ
  pub burst : ℕ
  pub key : Key

pub record Concurrency : Type 0 where
  pub limit : ℕ
  pub key : Key

pub record Policy : Type 0 where
  pub rate : Option Rate
  pub concurrency : Option Concurrency

-- The `match` on the kind before the colon.
key_of_kind : (Text → Bool) → Text → Text → Result String Key
key_of_kind header_name kind value =
    if text_eq kind (codes "header")
    then (if header_name value
        then ok (header (to_lower value))
        else err "invalid HTTP header name")
    else if text_eq kind (codes "cookie")
    then ok (cookie value)
    else if text_eq kind (codes "jwt")
    then ok (claim value)
    else err "unsupported key kind"

-- `Key::parse`
unfoldable pub parse : (Text → Bool) → Text → Result String Key
unfolding key_of_kind
parse header_name value =
    if text_eq value (codes "route")
    then ok route
    else if text_eq value (codes "ip")
    then ok ip
    else do
      (kind, name) ←
          ok_or (split_once b':' value)
            "key expects route, ip, header:NAME, cookie:NAME or jwt:CLAIM"
      ensure (not (length name == 0) && leb (length name) 128) "invalid key name"
      key_of_kind header_name kind name

-- `split_once('=')` of each trimmed part of a cookie header; `trim` is Unicode-aware, and a part
-- is given as the list of its characters' bytes.
cookie_value : (Text → Text) → Text → List Text → Option Text
unfolding split_once
cookie_value trim name [] = none
cookie_value trim name (p ∷ ps) = elim (split_once b'=' (trim p)) [
  | none ↦ cookie_value trim name ps
  | some (k, v) ↦ if text_eq k name then some v else cookie_value trim name ps
]

-- `Key::value`, with `str::trim` as a parameter.
unfoldable pub value : (Text → Text) → Key → Request → Text
unfolding cookie_value split_on
value trim route q = []
value trim ip q = q.remote_addr
value trim (header name) q = unwrap_or (q.header name) []
value trim (claim name) q = unwrap_or (lookup name q.claims) []
value trim (cookie name) q = elim (q.header (codes "cookie")) [
  | none ↦ []
  | some v ↦ unwrap_or (cookie_value trim name (split_on b';' v)) []
]

-- `matches!(key, Key::Ip | Key::Route)`
abbrev pub before : Key → Bool
before route = true
before ip = true
before (header n) = false
before (cookie n) = false
before (claim n) = false

abbrev bool_eq : Bool → Bool → Bool
bool_eq true b = b
bool_eq false b = not b

-- `Option::filter`
abbrev filter_option {ℓ} : {A : Type ℓ} → (A → Bool) → Option A → Option A
filter_option p none = none
filter_option p (some a) = if p a then some a else none

unfoldable pub phase : Policy → Bool → Policy
phase p before_auth = record {
  rate = filter_option (λ r. bool_eq (before r.key) before_auth) p.rate;
  concurrency = filter_option (λ c. bool_eq (before c.key) before_auth) p.concurrency;
}

-- `Policy::validate`
unfoldable pub validate : Policy → Result String (Unit {0})
validate p = do
  ensure (is_none_or p.rate (λ r. within 1 1000000 r.per_second && within 1 1000000 r.burst))
      "rate and burst must be 1..1000000"
  ensure (is_none_or p.concurrency (λ c. within 1 1000000 c.limit)) "concurrency must be 1..1000000"
