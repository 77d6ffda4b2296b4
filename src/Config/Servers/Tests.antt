-- ===== src/Config/Servers/Tests.antt =====
-- src/config/mod.rs: examples of servers.
use rgnix.Base.{
  ◌==◌, Text, codes, ok, ℕ, String, ◌≡◌, refl, ◌≢◌, Bool, true, false, none, List, [], ◌∷◌,
}
use rgnix.Net.{v4, SocketAddr}
use rgnix.Routing.{VirtualHost}
use rgnix.Config.Servers.{
  Listen, Listener, Server, Loaded, bind, certificates_for, listen_on, listen_all, load_servers,
  load,
}
use rgnix.Config.Servers.OneDefault.{OneDefault, load-OneDefault}

abbrev any_address : ℕ → SocketAddr
any_address port = record { ip = v4 (0 ∷ 0 ∷ 0 ∷ 0 ∷ []); port = port }

abbrev listen : ℕ → Bool → Listen
listen port default = record {
  address = any_address port;
  tls = false;
  default_server = default;
  proxy_protocol = false;
}

abbrev server : String → List Listen → Server ℕ ℕ
server name listens = record {
  names = codes name ∷ [];
  listens = listens;
  http2 = false;
  trusted = [];
  certificate = none;
  routes = [];
}

-- The third server takes the default of port 80 from the first.
abbrev servers : List (Server ℕ ℕ)
servers =
    server "a" (listen 80 false ∷ [])
    ∷ server "b" (listen 81 false ∷ listen 80 false ∷ [])
    ∷ server "c" (listen 80 true ∷ [])
    ∷ []

abbrev host : String → ℕ → Bool → VirtualHost
host name port default = record {
  listener = any_address port;
  names = codes name ∷ [];
  default = default;
  ingress = false;
  routes = [];
}

abbrev plain_listener : Listener ℕ
plain_listener = record { tls = false; http2 = false; proxy_protocol = false; proxy_trusted = [] }

abbrev loaded : Loaded ℕ ℕ
loaded = record {
  listeners = (any_address 80, plain_listener) ∷ (any_address 81, plain_listener) ∷ [];
  defaults = any_address 80 ∷ [];
  certificates = [];
  hosts = host "a" 80 false ∷ host "b" 81 true ∷ host "b" 80 false ∷ host "c" 80 true ∷ [];
}

abbrev same_number : ℕ → ℕ → Bool
same_number a b = a == b

abbrev covers_all : ℕ → Text → Bool
covers_all c name = true

load_lem : load same_number covers_all servers ≡ ok loaded
unfolding load load_servers listen_all listen_on bind certificates_for
load_lem = refl

load-OneDefault_example : OneDefault loaded.hosts × (loaded.hosts ≢ [])
load-OneDefault_example = load-OneDefault same_number covers_all servers loaded load_lem
