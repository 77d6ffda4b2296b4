-- ===== src/Config/Values.antt =====
-- src/config/mod.rs, src/config/policy.rs: the values of directives. An error is its message.
use rgnix.Base.{
  ltb, leb, ◌==◌, if◌then◌else◌, within, is_some, unwrap_or, length, all, any, Text, codes, text_eq,
  strip_prefix, starts_with, strip_suffix, is_digit, parse_uint, Result, ok, err, ℕ, ◌*◌, String,
  Bool, true, false, not, ◌&&◌, ◌||◌, Option, none, some, List, [], ◌∷◌, ◌++◌,
}
use rgnix.Net.{v4, SocketAddr}
use rgnix.Config.Servers.{Listen}

abbrev pub u64_max : ℕ
u64_max = 18446744073709551615

-- `n.parse::<u64>()?.checked_mul(multiplier)`
abbrev pub scaled : String → Text → ℕ → Result String ℕ
scaled overflow n multiplier = elim (parse_uint u64_max n) [
  | none ↦ err "invalid digit found in string"
  | some v ↦ if leb (v * multiplier) u64_max then ok (v * multiplier) else err overflow
]

abbrev without : Text → Text → Text
without suffix s = unwrap_or (strip_suffix suffix s) s

abbrev ends : Text → Text → Bool
ends suffix s = is_some (strip_suffix suffix s)

unfoldable pub size : Text → Result String ℕ
unfolding strip_suffix parse_uint
size s =
    if ends (codes "k") s
    then scaled "size overflow" (without (codes "k") s) 1024
    else if ends (codes "K") s
    then scaled "size overflow" (without (codes "K") s) 1024
    else if ends (codes "m") s
    then scaled "size overflow" (without (codes "m") s) 1048576
    else if ends (codes "M") s
    then scaled "size overflow" (without (codes "M") s) 1048576
    else if ends (codes "g") s
    then scaled "size overflow" (without (codes "g") s) 1073741824
    else if ends (codes "G") s
    then scaled "size overflow" (without (codes "G") s) 1073741824
    else scaled "size overflow" s 1

-- `duration`, in milliseconds
unfoldable pub duration : Text → Result String ℕ
unfolding strip_suffix parse_uint
duration s =
    if ends (codes "ms") s
    then scaled "duration overflow" (without (codes "ms") s) 1
    else if ends (codes "s") s
    then scaled "duration overflow" (without (codes "s") s) 1000
    else if ends (codes "m") s
    then scaled "duration overflow" (without (codes "m") s) 60000
    else scaled "duration overflow" s 1000

-- `switch`
abbrev pub switch : Text → Result String Bool
switch s =
    if text_eq s (codes "on")
    then ok true
    else if text_eq s (codes "off")
    then ok false
    else err "expected on/off"

abbrev is_alphanumeric : ℕ → Bool
is_alphanumeric c = within b'a' b'z' c || (within b'A' b'Z' c || is_digit c)

abbrev is_host_byte : ℕ → Bool
is_host_byte c = is_alphanumeric c || ((c == b'-') || ((c == b'.') || (c == b'_')))

unfoldable pub validate_host : Text → Result String (Unit {0})
unfolding strip_prefix
validate_host host =
    let bare = unwrap_or (strip_prefix (codes "*.") host) host in
    if not (length bare == 0) && all is_host_byte bare then ok tt else err "unsupported server_name"

abbrev pub known_variables : List Text
known_variables =
    codes "host"
    ∷ codes "http_host"
    ∷ codes "scheme"
    ∷ codes "request_uri"
    ∷ codes "uri"
    ∷ codes "args"
    ∷ codes "request_method"
    ∷ codes "remote_addr"
    ∷ codes "realip_remote_addr"
    ∷ codes "proxy_host"
    ∷ codes "proxy_add_x_forwarded_for"
    ∷ []

unfoldable pub is_supported : Text → Bool
unfolding starts_with
is_supported v =
    any (text_eq v) known_variables || (starts_with (codes "http_") v && ltb 5 (length v))

abbrev check_variable : Text → Bool → Bool
check_variable v rest = is_supported v && rest

-- The loop: outside a variable, or in one with the name so far.
unfoldable pub variables_fit : Option Text → Text → Bool
unfolding is_supported
variables_fit none [] = true
variables_fit (some v) [] = is_supported v
variables_fit none (c ∷ s) = if c == b'$' then variables_fit (some []) s else variables_fit none s
variables_fit (some v) (c ∷ s) =
    if is_alphanumeric c || (c == b'_')
    then variables_fit (some (v ++ c ∷ [])) s
    else if c == b'$'
    then is_supported v && variables_fit (some []) s
    else is_supported v && variables_fit none s

abbrev pub validate_variables : Text → Result String (Unit {0})
validate_variables value = if variables_fit none value then ok tt else err "unsupported variable"

-- `parse_listen` of the arguments; `parse_address` reads a `SocketAddr`.
abbrev pub listen_option : Text → Bool
listen_option o =
    text_eq o (codes "ssl")
    || (text_eq o (codes "default_server") || text_eq o (codes "proxy_protocol"))

abbrev pub listen_address : (Text → Option SocketAddr) → Text → Option SocketAddr
listen_address parse_address s = elim (parse_uint 65535 s) [
  | some port ↦ some (record { ip = v4 (0 ∷ 0 ∷ 0 ∷ 0 ∷ []); port = port })
  | none ↦ parse_address s
]

unfoldable pub parse_listen : (Text → Option SocketAddr) → List Text → Result String Listen
unfolding parse_uint
parse_listen parse_address [] = err "missing listen address"
parse_listen parse_address (s ∷ options) = elim (listen_address parse_address s) [
  | none ↦ err "invalid socket address syntax"
  | some address ↦
      if not (all listen_option options)
      then err "unsupported listen option"
      else ok (record {
        address = address;
        tls = any (text_eq (codes "ssl")) (s ∷ options);
        default_server = any (text_eq (codes "default_server")) (s ∷ options);
        proxy_protocol = any (text_eq (codes "proxy_protocol")) (s ∷ options);
      })
]
