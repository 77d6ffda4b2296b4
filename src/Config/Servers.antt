-- ===== src/Config/Servers.antt =====
-- src/config/mod.rs, `load_nodes`: the listeners, hosts and certificates of the servers, which come in
-- the order of the file with their directives read. Networks, certificates and their check of a name
-- are parameters; what only passes through (client certificates, routes beyond their matchers) is not
-- kept.
pub mod OneDefault
pub mod Tests
use rgnix.Base.{
  if◌then◌else◌, any, Text, text_is_eq, lookup, insert, Result, ◌>>=◌, ok, err, String, Bool, true,
  false, not, ◌&&◌, ◌||◌, Option, none, some, List, [], ◌∷◌, ◌++◌,
}
use rgnix.Net.{SocketAddr, socket_eq, socket_is_eq}
use rgnix.Routing.{PathMatch, VirtualHost}

-- What `parse_listen` returns.
pub record Listen : Type 0 where
  pub address : SocketAddr
  pub tls : Bool
  pub default_server : Bool
  pub proxy_protocol : Bool

pub record Listener (Network : Type 0) : Type 0 where
  pub tls : Bool
  pub http2 : Bool
  pub proxy_protocol : Bool
  pub proxy_trusted : List Network

pub record TlsHost (Cert : Type 0) : Type 0 where
  pub listener : SocketAddr
  pub name : Text
  pub default : Bool
  pub certificate : Cert

pub record Server (Network Cert : Type 0) : Type 0 where
  pub names : List Text
  pub listens : List Listen
  pub http2 : Bool
  pub trusted : List Network
  pub certificate : Option Cert
  pub routes : List PathMatch

pub record Loaded (Network Cert : Type 0) : Type 0 where
  pub listeners : List (SocketAddr × Listener Network)
  pub defaults : List SocketAddr
  pub certificates : List (TlsHost Cert)
  pub hosts : List VirtualHost

abbrev pub is_at : SocketAddr → VirtualHost → Bool
is_at address h = socket_eq h.listener address

-- The hosts of an address stop being its default.
abbrev pub clear_hosts : SocketAddr → List VirtualHost → List VirtualHost
clear_hosts address [] = []
clear_hosts address (h ∷ hs) =
    (if is_at address h then record h { default = false } else h) ∷ clear_hosts address hs

abbrev pub clear_certificates :
    {Cert : Type 0} → SocketAddr → List (TlsHost Cert) → List (TlsHost Cert)
clear_certificates address [] = []
clear_certificates address (c ∷ cs) =
    (if socket_eq c.listener address then record c { default = false } else c)
    ∷ clear_certificates address cs

-- `defaults.insert(address)`
abbrev pub note_default : Listen → List SocketAddr → Result String (List SocketAddr)
note_default l defaults =
    if not l.default_server
    then ok defaults
    else if any (socket_eq l.address) defaults
    then err "duplicate default_server"
    else ok (l.address ∷ defaults)

abbrev pub bool_eq : Bool → Bool → Bool
bool_eq true b = b
bool_eq false b = not b

abbrev pub is_nonempty : {Network : Type 0} → List Network → Bool
is_nonempty [] = false
is_nonempty (x ∷ xs) = true

abbrev pub becomes_default : Listen → List VirtualHost → Bool
becomes_default l hosts = l.default_server || not (any (is_at l.address) hosts)

module _ {Network Cert : Type 0} where
  abbrev pub listener_of : Server Network Cert → Listen → Listener Network
  listener_of server l = record {
    tls = l.tls;
    http2 = server.http2;
    proxy_protocol = l.proxy_protocol;
    proxy_trusted = if l.proxy_protocol then server.trusted else [];
  }

  abbrev pub host_of : Server Network Cert → Listen → Bool → VirtualHost
  host_of server l default = record {
    listener = l.address;
    names = server.names;
    default = default;
    ingress = false;
    routes = server.routes;
  }

  abbrev pub nothing_loaded : Loaded Network Cert
  nothing_loaded = record { listeners = []; defaults = []; certificates = []; hosts = [] }

  -- `!result.hosts.is_empty()`
  abbrev pub check_hosts : Loaded Network Cert → Result String (Loaded Network Cert)
  check_hosts s = elim s.hosts [ [] ↦ err "http requires at least one server" | h ∷ hs ↦ ok s ]

module _ {Network Cert : Type 0} (network_eq : Network → Network → Bool)
    (validate_name : Cert → Text → Bool) where
  abbrev same_trusted : List Network → List Network → Bool
  same_trusted [] [] = true
  same_trusted (x ∷ xs) (y ∷ ys) = network_eq x y && same_trusted xs ys
  same_trusted [] (y ∷ ys) = false
  same_trusted (x ∷ xs) [] = false

  -- `existing == &listener`
  abbrev pub same_listener : Listener Network → Listener Network → Bool
  same_listener a b =
      bool_eq a.tls b.tls
      && (bool_eq a.http2 b.http2
          && (bool_eq a.proxy_protocol b.proxy_protocol
              && same_trusted a.proxy_trusted b.proxy_trusted))

  -- The listener's checks, and the map with it.
  unfoldable pub bind :
      Server Network Cert
      → Listen
      → List (SocketAddr × Listener Network)
      → Result String (List (SocketAddr × Listener Network))
  bind server l listeners =
      let listener = listener_of server l in
      if l.proxy_protocol && not (is_nonempty server.trusted)
      then err "PROXY protocol requires set_real_ip_from"
      else elim (lookup l.address listeners) [
        | none ↦ ok (insert l.address listener listeners)
        | some existing ↦
            if same_listener existing listener
            then ok (insert l.address listener listeners)
            else err "conflicting TLS/http2 options on listener"
      ]

  -- The certificates of a TLS listener, one of each name.
  unfoldable pub certify :
      SocketAddr
      → Bool
      → Cert
      → List Text
      → List (TlsHost Cert)
      → Result String (List (TlsHost Cert))
  certify address default cert [] cs = ok cs
  certify address default cert (name ∷ names) cs =
      let rest = certify address default cert names (
        cs
        ++ record { listener = address; name = name; default = default; certificate = cert }
          ∷ []) in
      if validate_name cert name then rest else err "certificate does not cover the name"

  unfoldable pub certificates_for :
      Server Network Cert
      → Listen
      → Bool
      → List (TlsHost Cert)
      → Result String (List (TlsHost Cert))
  unfolding certify
  certificates_for server l default cs = if not l.tls then ok cs else elim server.certificate [
    | none ↦ err "TLS listener requires a certificate"
    | some cert ↦ certify l.address default cert server.names cs
  ]

  -- One turn of the loop on a server's addresses.
  unfoldable pub listen_on :
      Server Network Cert → Listen → Loaded Network Cert → Result String (Loaded Network Cert)
  unfolding bind certificates_for
  listen_on server l s = do
    defaults ← note_default l s.defaults
    listeners ← bind server l s.listeners
    certificates ←
        certificates_for server l (becomes_default l s.hosts)
          (if l.default_server then clear_certificates l.address s.certificates else s.certificates)
    ok (record {
      listeners = listeners;
      defaults = defaults;
      certificates = certificates;
      hosts =
          (if l.default_server then clear_hosts l.address s.hosts else s.hosts)
          ++ host_of server l (becomes_default l s.hosts) ∷ [];
    })

  unfoldable pub listen_all :
      Server Network Cert → List Listen → Loaded Network Cert → Result String (Loaded Network Cert)
  unfolding listen_on
  listen_all server [] s = ok s
  listen_all server (l ∷ ls) s = listen_on server l s >>= λ t. listen_all server ls t

  unfoldable pub load_servers :
      List (Server Network Cert) → Loaded Network Cert → Result String (Loaded Network Cert)
  unfolding listen_all
  load_servers [] s = ok s
  load_servers (server ∷ servers) s =
      listen_all server server.listens s >>= λ t. load_servers servers t

  unfoldable pub load : List (Server Network Cert) → Result String (Loaded Network Cert)
  unfolding load_servers
  load servers = load_servers servers nothing_loaded >>= λ s. check_hosts s
