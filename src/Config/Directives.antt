-- ===== src/Config/Directives.antt =====
-- src/config/mod.rs, `apply`: the directives of http, server and location blocks that take arguments
-- only. Those of src/config/security.rs, which `apply` also tries first, `types`, and the place in an
-- error are not part of it; the errors of `Readers` share a message. `Readers` are the parsers of
-- other packages and parts: paths, header names and values, URLs, protocols, bodies, rotation,
-- networks, and the files that are read.
pub mod Apply
pub mod FirstReturn
pub mod Kept
pub mod Tests
use rgnix.Base.{
  ◌==◌, if◌then◌else◌, within, any, Text, codes, text_eq, parse_uint, Result, ok, err, ℕ, String,
  Bool, true, false, not, ◌&&◌, ◌||◌, Option, none, some, List, [], ◌∷◌, ◌++◌,
}
use rgnix.Config.Policies.{Policies}
use rgnix.Config.Values.{duration, switch, variables_fit}

pub data Action : Type 0 where
  proxy : Text → Option Text → Action
  static : Action
  return : ℕ → Text → Action

pub data Context : Type 0 where
  in_http in_server in_location : Context

pub record Leaf : Type 0 where
  pub name : Text
  pub args : List Text

pub record AddedHeader : Type 0 where
  pub name : Text
  pub value : Text
  pub always : Bool

pub record Readers : Type 0 where
  pub join : Text → Text
  pub header_name : Text → Bool
  pub header_value : Text → Bool
  pub proxy_url : Text → Bool
  pub protocol : Text → Option Text
  pub inspection : List Text → Option Text
  pub body_timeout : Text → Option ℕ
  pub rotation : List Text → Option Text
  pub authority : Text → Option Text
  pub error_output : Text → Text → Option Text
  pub has_http3 : Bool
  pub network : Text → Result String Text

pub record Scope : Type 0 where
  pub root : Text
  pub alias : Option Text
  pub try_files : List Text
  pub index : List Text
  pub default_type : Text
  pub protocol : Option Text
  pub server_name : Option Text
  pub ca : Option Text
  pub request_headers : List (Text × Text)
  pub response_headers : List AddedHeader
  pub max_body : ℕ
  pub inspection : Option Text
  pub body_timeout : Option ℕ
  pub connect_timeout : ℕ
  pub read_timeout : ℕ
  pub write_timeout : ℕ
  pub keepalive : ℕ
  pub client_header_timeout : ℕ
  pub client_body_timeout : ℕ
  pub send_timeout : ℕ
  pub connect_tunnel : Bool
  pub http3 : Bool
  pub log_json : Bool
  pub access_log : Option Text
  pub action : Option Action
  pub script : Option Text
  pub cert : Option Text
  pub key : Option Text
  pub upstream_cert : Option Text
  pub upstream_key : Option Text
  pub http2 : Bool
  pub error_log : Option Text
  pub log_rotation : Option Text
  pub policies : Policies Text

abbrev pub Checked : Type 0
Checked = Result String Scope

abbrev pub has_byte : ℕ → Text → Bool
has_byte b s = any (λ c. c == b) s

abbrev pub is_location : Context → Bool
is_location in_location = true
is_location in_server = false
is_location in_http = false

abbrev pub is_http : Context → Bool
is_http in_http = true
is_http in_server = false
is_http in_location = false

-- `one(n)?`, then what the one argument does.
unfoldable pub with_one : List Text → (Text → Checked) → Checked
with_one [] f = err "expects one argument"
with_one (a ∷ []) f = f a
with_one (a ∷ b ∷ args) f = err "expects one argument"

unfoldable pub read_with {ℓ} : {A : Type ℓ} → Option A → (A → Checked) → Checked
read_with none f = err "invalid value"
read_with (some a) f = f a

unfoldable pub when : Bool → String → Checked → Checked
when true why r = r
when false why r = err why

-- An arm of the `match` on names, and the arms after it.
unfoldable pub on_name : Bool → Checked → Option Checked → Option Checked
on_name b done rest = if b then some done else rest

-- The last candidate may be a status.
abbrev pub is_fallback_status : Text → Bool
is_fallback_status [] = false
is_fallback_status (c ∷ s) =
    (c == b'=') && elim (parse_uint 65535 s) [ none ↦ false | some code ↦ within 400 599 code ]

abbrev pub is_literal_path : Text → Bool
is_literal_path [] = false
is_literal_path (c ∷ s) =
    (c == b'/') && not (has_byte b'$' s || (has_byte b'?' s || has_byte b'#' s))

abbrev pub is_candidate : Text → Bool
is_candidate v = text_eq v (codes "$uri") || (text_eq v (codes "$uri/") || is_literal_path v)

abbrev pub starts_as_status : Text → Bool
starts_as_status [] = false
starts_as_status (c ∷ s) = c == b'='

-- The checks of `try_files`, on at least one candidate.
unfoldable pub candidates_fit : List Text → Bool
unfolding parse_uint
candidates_fit [] = false
candidates_fit (v ∷ []) = if starts_as_status v then is_fallback_status v else is_literal_path v
candidates_fit (v ∷ w ∷ vs) = is_candidate v && candidates_fit (w ∷ vs)

abbrev pub is_return : Option Action → Bool
is_return (some (return status text)) = true
is_return (some (proxy backend uri)) = false
is_return (some static) = false
is_return none = false

-- An action gives way to a `return` that stands before it.
abbrev pub with_action : Action → Scope → Scope
with_action a s = if is_return s.action then s else record s { action = some a }

abbrev pub respond : Context → List Text → Scope → Checked
respond c [] s = err "return expects status [text] in server or location"
respond c (code ∷ []) s =
    when (not (is_http c)) "return expects status [text] in server or location" (
      read_with (parse_uint 65535 code) λ status.
        when (within 200 599 status) "return supports status 200..599"
          (ok (with_action (return status []) s)))
respond c (code ∷ text ∷ []) s =
    when (not (is_http c)) "return expects status [text] in server or location" (
      read_with (parse_uint 65535 code) λ status.
        when (within 200 599 status) "return supports status 200..599" (
          when (variables_fit none text) "unsupported variable"
            (ok (with_action (return status text) s))))
respond c (code ∷ text ∷ more ∷ args) s = err "return expects status [text] in server or location"

unfoldable pub seconds : List Text → (ℕ → Scope) → Checked
unfolding with_one
seconds args f = with_one args λ a. elim (duration a) [ err e ↦ err e | ok ms ↦ ok (f ms) ]

unfoldable pub switched : List Text → (Bool → Scope) → Checked
unfolding with_one
switched args f = with_one args λ a. elim (switch a) [ err e ↦ err e | ok on ↦ ok (f on) ]

abbrev pub is_name : String → Leaf → Bool
is_name s n = text_eq n.name (codes s)

abbrev pub log_formats : List Text
log_formats = codes "combined" ∷ codes "json" ∷ []

abbrev pub log_levels : List Text
log_levels = codes "error" ∷ codes "warn" ∷ codes "info" ∷ codes "debug" ∷ []

abbrev pub header_added : Readers → Text → Text → Bool → Scope → Checked
header_added r name value always s = when (r.header_name name) "invalid HTTP header name" (
    when (variables_fit none value) "unsupported variable" (
      ok (record s {
        response_headers =
            s.response_headers ++ record { name = name; value = value; always = always } ∷ [];
      })))

module _ (r : Readers) where
  abbrev pub add_header : List Text → Scope → Checked
  add_header [] s = err "add_header expects name value [always]"
  add_header (name ∷ []) s = err "add_header expects name value [always]"
  add_header (name ∷ value ∷ []) s = header_added r name value false s
  add_header (name ∷ value ∷ word ∷ []) s =
      when (text_eq word (codes "always")) "add_header expects name value [always]"
        (header_added r name value true s)
  add_header (name ∷ value ∷ word ∷ more ∷ args) s = err "add_header expects name value [always]"

  abbrev pub access_path : Text → Option Text
  access_path a = if text_eq a (codes "off") then none else some (r.join a)

  abbrev pub access_log : List Text → Scope → Checked
  access_log [] s = err "access_log expects path [combined|json] or off"
  access_log (a ∷ []) s = ok (record s { log_json = false; access_log = access_path a })
  access_log (a ∷ format ∷ []) s =
      when (any (text_eq format) log_formats) "access_log expects path [combined|json] or off"
        (ok (record s { log_json = text_eq format (codes "json"); access_log = access_path a }))
  access_log (a ∷ format ∷ more ∷ args) s = err "access_log expects path [combined|json] or off"

  abbrev pub error_path : Text → Text
  error_path a = if text_eq a (codes "stderr") then a else r.join a

  abbrev pub log_at : Text → Text → Scope → Checked
  log_at a level s =
      when (any (text_eq level) log_levels) "error_log level must be error/warn/info/debug"
        (read_with (r.error_output (error_path a) level) λ o. ok (record s { error_log = some o }))

  abbrev pub error_log : List Text → Scope → Checked
  error_log [] s = err "error_log expects path [level] in http"
  error_log (a ∷ []) s = log_at a (codes "error") s
  error_log (a ∷ level ∷ []) s = log_at a level s
  error_log (a ∷ level ∷ more ∷ args) s = err "error_log expects path [level] in http"
