-- ===== src/Identity.antt =====
-- src/identity.rs: the address a request is taken to come from. The networks of the ipnet crate
-- are a type with `contains`; the standard library's address parsers, `str::trim` and the http
-- crate's `HeaderValue::to_str` and `HeaderName::from_bytes` are parameters. A header map is what
-- its `get_all` returns of each name.
pub mod Forged
mod Tests
use rgnix.Base.{
  ltb, leb, ◌==◌, if◌then◌else◌, is_none_or, unwrap_or, length, get_elem?, any, find?, Text, codes,
  text_eq, strip_prefix, strip_suffix, split_on, split_once, to_lower, Result, ◌>>◌, ensure, ok, ℕ,
  ◌+◌, String, Bool, false, not, ◌&&◌, ◌||◌, Option, none, some, List, [], ◌∷◌, ◌++◌, reverse,
}
use rgnix.Net.{IpAddr, SocketAddr}

pub record AccessRule (Network : Type 0) : Type 0 where
  pub network : Option Network
  pub allow : Bool

pub record IdentityPolicy (Network : Type 0) : Type 0 where
  pub trusted : List Network
  pub header : Text
  pub recursive : Bool
  pub access : List (AccessRule Network)

-- `IdentityPolicy::default`
pub default_policy : (Network : Type 0) → IdentityPolicy Network
default_policy Network = record {
  trusted = [];
  header = codes "x-real-ip";
  recursive = false;
  access = [];
}

-- `IdentityPolicy::validate`
pub validate :
    {Network : Type 0} → (Text → Bool) → IdentityPolicy Network → Result String (Unit {0})
validate header_name p = do
  ensure (leb (length p.trusted) 256 && leb (length p.access) 256)
      "too many trusted proxies or access rules (maximum 256)"
  ensure (header_name p.header) "invalid HTTP header name"

pub record Forwarding (Network : Type 0) : Type 0 where
  pub trusted_proxy : List Network
  pub real_ip_header : Text
  pub real_ip_recursive : Bool
  pub proxy_protocol : Bool

-- `Forwarding::policy`
pub policy :
    {Network : Type 0} → (Text → Bool) → Forwarding Network → Result String (IdentityPolicy Network)
unfolding validate
policy header_name f =
    let p : IdentityPolicy _ = record {
      trusted = f.trusted_proxy;
      header = to_lower f.real_ip_header;
      recursive = f.real_ip_recursive;
      access = [];
    } in
    validate header_name p
    >> (ensure (not f.proxy_protocol || not (length f.trusted_proxy == 0))
          "PROXY protocol requires at least one --trusted-proxy CIDR"
        >> ok p)

-- `eq_ignore_ascii_case`
abbrev pub same_caseless : Text → Text → Bool
same_caseless a b = text_eq (to_lower a) (to_lower b)

-- The value between quotes, where both stand.
unquoted : Text → Text
unfolding strip_prefix strip_suffix
unquoted value = elim (strip_prefix (34 ∷ []) value) [
  | none ↦ value
  | some v ↦ unwrap_or (strip_suffix (34 ∷ []) v) value
]

-- What the reading of addresses takes from other packages.
pub record Reader : Type 0 where
  pub trim : Text → Text
  pub to_str : Text → Option Text
  pub parse_ip : Text → Option IpAddr
  pub parse_socket : Text → Option SocketAddr

module _ (reader : Reader) where
  open reader use {trim, to_str, parse_ip, parse_socket}

  -- The address between brackets.
  bracketed : Text → Option IpAddr
  unfolding strip_prefix strip_suffix
  bracketed value = elim (strip_prefix (b'[' ∷ []) value) [
    | none ↦ none
    | some v ↦ elim (strip_suffix (b']' ∷ []) v) [ none ↦ none | some inner ↦ parse_ip inner ]
  ]

  pub parse_address : Text → Option IpAddr
  unfolding bracketed
  parse_address value = elim (parse_ip value) [
    | some ip ↦ some ip
    | none ↦ elim (parse_socket value) [ some s ↦ some s.ip | none ↦ bracketed value ]
  ]

  -- The values of the `for` fields of one hop of a `Forwarded` header.
  for_fields : List Text → List Text
  unfolding split_once
  for_fields [] = []
  for_fields (p ∷ ps) = elim (split_once b'=' (trim p)) [
    | none ↦ for_fields ps
    | some (k, v) ↦ if same_caseless k (codes "for") then v ∷ for_fields ps else for_fields ps
  ]

  -- The only element of a list.
  only : List Text → Option Text
  only [] = none
  only (v ∷ []) = some v
  only (v ∷ w ∷ vs) = none

  -- The text of a hop's address.
  hop_value : Text → Text → Option Text
  unfolding for_fields only split_on
  hop_value header hop =
      if text_eq header (codes "forwarded")
      then elim (only (for_fields (split_on b';' hop))) [ none ↦ none | some v ↦ some (trim v) ]
      else some (trim hop)

  pub read_hop : Text → Text → Option IpAddr
  unfolding hop_value unquoted parse_address
  read_hop header hop = elim (hop_value header hop) [
    | none ↦ none
    | some v ↦ parse_address (unquoted v)
  ]

  -- The inner loop: the hops of one value join the chain.
  pub read_hops : Text → List Text → List IpAddr → Option (List IpAddr)
  unfolding read_hop
  read_hops header [] chain = some chain
  read_hops header (hop ∷ hops) chain = elim (read_hop header hop) [
    | none ↦ none
    | some ip ↦
        let rest = read_hops header hops (chain ++ ip ∷ []) in
        if ltb 64 (length (chain ++ ip ∷ [])) then none else rest
  ]

  -- The outer loop, with the bytes read so far.
  pub read_values : Text → List Text → ℕ → List IpAddr → Option (List IpAddr)
  unfolding read_hops split_on
  read_values header [] bytes chain = some chain
  read_values header (v ∷ vs) bytes chain =
      if ltb 8192 (bytes + length v) then none else elim (to_str v) [
        | none ↦ none
        | some s ↦ elim (read_hops header (split_on b',' s) chain) [
          | none ↦ none
          | some longer ↦ read_values header vs (bytes + length v) longer
        ]
      ]

  module _ {Network : Type 0} (contains : Network → IpAddr → Bool) where
    -- `IdentityPolicy::trusts`
    abbrev pub trusts : IdentityPolicy Network → IpAddr → Bool
    trusts p ip = any (λ net. contains net ip) p.trusted

    -- `IdentityPolicy::allows`
    pub allows : IdentityPolicy Network → IpAddr → Bool
    allows p ip =
        is_none_or (find? (λ r. is_none_or r.network (λ net. contains net ip)) p.access)
          (λ r. r.allow)

    -- The last loop, over the chain from its end.
    pub climb : IdentityPolicy Network → IpAddr → List IpAddr → IpAddr
    climb p selected [] = selected
    climb p selected (ip ∷ ips) = if trusts p selected then climb p ip ips else selected

    -- What the chain of a trusted peer says.
    pub from_chain : IdentityPolicy Network → IpAddr → List IpAddr → IpAddr
    unfolding climb
    from_chain p peer chain =
        if p.recursive
        then climb p peer (reverse chain)
        else unwrap_or (get_elem? (reverse chain) 0) peer

    -- `IdentityPolicy::resolve`
    pub resolve : IdentityPolicy Network → IpAddr → (Text → List Text) → Option IpAddr → IpAddr
    unfolding read_values from_chain
    resolve p peer headers proxy =
        if not (trusts p peer)
        then peer
        else if text_eq p.header (codes "proxy_protocol")
        then unwrap_or proxy peer
        else elim (read_values p.header (headers p.header) 0 []) [
          | none ↦ peer
          | some chain ↦ from_chain p peer chain
        ]

    asserted_scheme : List Text → Option Text
    asserted_scheme [] = none
    asserted_scheme (v ∷ w ∷ vs) = none
    asserted_scheme (v ∷ []) = elim (to_str v) [
      | none ↦ none
      | some s ↦ if text_eq s (codes "http") || text_eq s (codes "https") then some s else none
    ]

    -- `IdentityPolicy::scheme`
    pub scheme : IdentityPolicy Network → IpAddr → (Text → List Text) → Bool → Text
    unfolding asserted_scheme
    scheme p peer headers tls =
        let own = if tls then codes "https" else codes "http" in
        if trusts p peer
        then unwrap_or (asserted_scheme (headers (codes "x-forwarded-proto"))) own
        else own
