-- ===== src/Config/Policies.antt =====
-- src/config/policy.rs: the directives of logs, compression, client addresses and traffic limits, and
-- from src/logging/access.rs `validate_fields`. `network` of src/identity.rs is a parameter, as is
-- the http crate's `HeaderName::from_bytes`. Errors of parsed numbers are a message of their own.
use rgnix.Base.{
  leb, ◌==◌, if◌then◌else◌, within, length, all, any, Text, codes, text_eq, strip_prefix, to_lower,
  parse_uint, Result, ◌>>◌, ◌>>=◌, ensure, ok, err, ℕ, String, Bool, true, false, not, ◌&&◌, Option,
  none, some, List, [], ◌∷◌, ◌++◌,
}
use rgnix.Traffic.{Key, ip, Rate, Concurrency, Policy}
use rgnix.Identity.{IdentityPolicy}
use rgnix.Compression.{Compression}
use rgnix.Config.Values.{size, switch}

pub record LogPolicy : Type 0 where
  pub query : Bool
  pub client : Bool
  pub referer : Bool
  pub redact : List Text
  pub fields : List Text

pub record Policies (Network : Type 0) : Type 0 where
  pub log : LogPolicy
  pub compression : Compression
  pub identity : IdentityPolicy Network
  pub rate : Option Rate
  pub concurrency : Option Concurrency

abbrev pub log_fields : List Text
log_fields =
    codes "timestamp"
    ∷ codes "client"
    ∷ codes "method"
    ∷ codes "uri"
    ∷ codes "protocol"
    ∷ codes "status"
    ∷ codes "bytes"
    ∷ codes "referer"
    ∷ codes "user_agent"
    ∷ codes "route"
    ∷ codes "backend"
    ∷ codes "upstream"
    ∷ codes "config"
    ∷ codes "trace_id"
    ∷ codes "span_id"
    ∷ codes "parent_span_id"
    ∷ codes "upstream_span_id"
    ∷ codes "trace_sampled"
    ∷ codes "grpc_status"
    ∷ []

-- `validate_fields`
abbrev pub fields_fit : LogPolicy → Bool
fields_fit p =
    leb (length p.fields) 20
    && (all (λ f. any (text_eq f) log_fields) p.fields
        && (leb (length p.redact) 64
            && all (λ s. not (length s == 0) && leb (length s) 128) p.redact))

abbrev pub u32_max : ℕ
u32_max = 4294967295

abbrev pub number : Text → Result String ℕ
number s = elim (parse_uint u32_max s) [
  | none ↦ err "invalid digit found in string"
  | some n ↦ ok n
]

-- `vec![one]` of a directive's arguments.
abbrev pub only_one : List Text → Result String Text
only_one [] = err "expects one argument"
only_one (a ∷ []) = ok a
only_one (a ∷ b ∷ args) = err "expects one argument"

abbrev pub switch_of : List Text → Result String Bool
switch_of args = only_one args >>= switch

abbrev pub level_of : List Text → Result String ℕ
level_of args = do
  a ← only_one args
  level ← number a
  ensure (within 1 9 level) "compression level must be 1..9"
  ok level

-- `gzip_types`
abbrev pub with_html : List Text → List Text
with_html types =
    if any (text_eq (codes "text/html")) types then types else types ++ codes "text/html" ∷ []

abbrev pub is_off : List Text → Bool
is_off [] = false
is_off (a ∷ []) = text_eq a (codes "off")
is_off (a ∷ b ∷ args) = false

module _ {Network : Type 0} (network : Text → Result String Network)
    (header_name : Text → Bool) where
  abbrev pub State : Type 0
  State = Policies Network

  -- The options of a rate, in their order.
  unfoldable pub rate_options : List Text → Rate → Result String Rate
  unfolding strip_prefix
  rate_options [] r = ok r
  rate_options (arg ∷ args) r = elim (strip_prefix (codes "burst=") arg) [
    | some v ↦ number v >>= λ n. rate_options args (record r { burst = n })
    | none ↦ elim (strip_prefix (codes "key=") arg) [
      | some v ↦ rgnix.Traffic.parse header_name v >>= λ k. rate_options args (record r { key = k })
      | none ↦ err "unsupported rate option"
    ]
  ]

  unfoldable pub rate_of : List Text → Result String Rate
  unfolding rate_options
  rate_of [] = err "rgnix_limit_rate expects requests-per-second"
  rate_of (n ∷ options) =
      ensure (leb (length options) 2) "rgnix_limit_rate expects requests-per-second"
      >> (number n >>= λ per_second.
          rate_options options (record { per_second = per_second; burst = per_second; key = ip }))

  abbrev pub key_option : Text → Result String Key
  key_option v = elim (strip_prefix (codes "key=") v) [
    | none ↦ err "expected key=..."
    | some k ↦ rgnix.Traffic.parse header_name k
  ]

  unfoldable pub concurrency_of : List Text → Result String Concurrency
  unfolding strip_prefix
  concurrency_of [] = err "rgnix_limit_conn expects maximum [key=...]"
  concurrency_of (n ∷ []) = number n >>= λ limit. ok (record { limit = limit; key = ip })
  concurrency_of (n ∷ v ∷ []) =
      key_option v >>= λ k. (number n >>= λ limit. ok (record { limit = limit; key = k }))
  concurrency_of (n ∷ v ∷ w ∷ args) = err "rgnix_limit_conn expects maximum [key=...]"

  -- The network of an access rule, none for `all`.
  abbrev pub rule_network : Text → Result String (Option Network)
  rule_network a = if text_eq a (codes "all") then ok none else (network a >>= λ n. ok (some n))

  abbrev pub add_rule : Bool → List Text → State → Result String State
  add_rule allow args s = do
    a ← only_one args
    n ← rule_network a
    ok (record s {
      identity = record (s.identity) {
        access = s.identity.access ++ record { network = n; allow = allow } ∷ [];
      };
    })

  abbrev pub checked_log : LogPolicy → State → Result String State
  checked_log p s =
      ensure (fields_fit p) "unsupported access log field" >> ok (record s { log = p })

  -- The `match` on the name.
  unfoldable pub set_policy : Text → List Text → State → Option (Result String State)
  unfolding size rate_of concurrency_of
  set_policy name args s =
      if text_eq name (codes "rgnix_log_query")
      then some (switch_of args >>= λ b. ok (record s { log = record (s.log) { query = b } }))
      else if text_eq name (codes "rgnix_log_client")
      then some (switch_of args >>= λ b. ok (record s { log = record (s.log) { client = b } }))
      else if text_eq name (codes "rgnix_log_referer")
      then some (switch_of args >>= λ b. ok (record s { log = record (s.log) { referer = b } }))
      else if text_eq name (codes "rgnix_log_redact")
      then some (checked_log (record (s.log) { redact = args }) s)
      else if text_eq name (codes "rgnix_log_fields")
      then some (checked_log (record (s.log) { fields = args }) s)
      else if text_eq name (codes "gzip")
      then some (
          switch_of args >>= λ on.
          ok (record s { compression = record (s.compression) { gzip = if on then 1 else 0 } }))
      else if text_eq name (codes "brotli")
      then some (
          switch_of args >>= λ on.
          ok (record s { compression = record (s.compression) { brotli = if on then 4 else 0 } }))
      else if text_eq name (codes "gzip_comp_level")
      then some (
          level_of args >>= λ n.
          ok (record s { compression = record (s.compression) { gzip = n } }))
      else if text_eq name (codes "brotli_comp_level")
      then some (
          level_of args >>= λ n.
          ok (record s { compression = record (s.compression) { brotli = n } }))
      else if text_eq name (codes "gzip_min_length")
      then some (
          only_one args >>= λ a.
          size a >>= λ n. ok (record s { compression = record (s.compression) { min_length = n } }))
      else if text_eq name (codes "gzip_types")
      then some (
          ensure (not (length args == 0)) "gzip_types expects MIME types"
          >> ok (record s { compression = record (s.compression) { types = with_html args } }))
      else if text_eq name (codes "set_real_ip_from")
      then some (
          only_one args >>= λ a. network a >>= λ n.
          ok (record s {
            identity = record (s.identity) { trusted = s.identity.trusted ++ n ∷ [] };
          }))
      else if text_eq name (codes "real_ip_header")
      then some (
          only_one args >>= λ a.
          ensure (header_name a) "invalid HTTP header name"
          >> ok (record s { identity = record (s.identity) { header = to_lower a } }))
      else if text_eq name (codes "real_ip_recursive")
      then some (
          switch_of args >>= λ b.
          ok (record s { identity = record (s.identity) { recursive = b } }))
      else if text_eq name (codes "allow")
      then some (add_rule true args s)
      else if text_eq name (codes "deny")
      then some (add_rule false args s)
      else if text_eq name (codes "rgnix_limit_rate")
      then some (
          if is_off args
          then ok (record s { rate = none })
          else (rate_of args >>= λ r. ok (record s { rate = some r })))
      else if text_eq name (codes "rgnix_limit_conn")
      then some (
          if is_off args
          then ok (record s { concurrency = none })
          else (concurrency_of args >>= λ c. ok (record s { concurrency = some c })))
      else none

  abbrev pub traffic_of : State → Policy
  traffic_of s = record { rate = s.rate; concurrency = s.concurrency }

  -- `traffic.validate()?; identity.validate()?`
  abbrev pub checked_state : State → Result String State
  checked_state s =
      rgnix.Traffic.validate (traffic_of s)
      >> (rgnix.Identity.validate header_name s.identity >> ok s)

  -- `policy::apply`: none where the name is another's.
  unfoldable pub apply_policy : Text → List Text → State → Option (Result String State)
  unfolding set_policy
  apply_policy name args s = elim (set_policy name args s) [
    | none ↦ none
    | some done ↦ some (done >>= λ t. checked_state t)
  ]
