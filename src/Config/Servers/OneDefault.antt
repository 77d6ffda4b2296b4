-- ===== src/Config/Servers/OneDefault.antt =====
-- src/config/mod.rs: the default host of each address.
use rgnix.Base.{
  ◌==◌, if◌then◌else◌, any, Text, Result, >>=-eq-ok, ok, err, ℕ, ◌+◌, min, String, ◌≡◌, refl, ap,
  ◌∙◌, subst, ◌≢◌, Bool, true, false, not, ◌&&◌, ◌||◌, List, [], ◌∷◌, ◌++◌, arith,
}
use rgnix.Net.{SocketAddr, socket_eq, socket_eq_iff}
use rgnix.Routing.{VirtualHost}
use rgnix.Config.Servers.{
  Listen, Server, Loaded, is_at, clear_hosts, clear_certificates, note_default, becomes_default,
  host_of, nothing_loaded, check_hosts, bind, certificates_for, listen_on, listen_all, load_servers,
  load,
}

-- The hosts of an address, and those of them that are its default.
abbrev pub hosts_at : SocketAddr → List VirtualHost → ℕ
hosts_at a [] = 0
hosts_at a (h ∷ hs) = (if is_at a h then 1 else 0) + hosts_at a hs

abbrev pub defaults_at : SocketAddr → List VirtualHost → ℕ
defaults_at a [] = 0
defaults_at a (h ∷ hs) = (if is_at a h && h.default then 1 else 0) + defaults_at a hs

-- An address with hosts has one default among them.
abbrev pub OneDefault : List VirtualHost → Type 0
OneDefault hs = (a : SocketAddr) → defaults_at a hs ≡ min 1 (hosts_at a hs)

hosts_at-clear_hosts :
    (a b : SocketAddr) (hs : List VirtualHost) → hosts_at b (clear_hosts a hs) ≡ hosts_at b hs
hosts_at-clear_hosts a b [] = refl
hosts_at-clear_hosts a b (h ∷ hs) = ground (arith, hosts_at-clear_hosts a b hs)

defaults_at-clear_hosts :
    (a b : SocketAddr) (hs : List VirtualHost)
    → defaults_at b (clear_hosts a hs) ≡ (if socket_eq a b then 0 else defaults_at b hs)
defaults_at-clear_hosts a b [] = ground arith
defaults_at-clear_hosts a b (h ∷ hs) = ground (
  arith,
  defaults_at-clear_hosts a b hs,
  socket_eq_iff a b,
  socket_eq_iff h.listener a,
  socket_eq_iff h.listener b,
)

hosts_at-append :
    (a : SocketAddr) (hs gs : List VirtualHost)
    → hosts_at a (hs ++ gs) ≡ hosts_at a hs + hosts_at a gs
hosts_at-append a [] gs = omega arith
hosts_at-append a (h ∷ hs) gs = ground (arith, hosts_at-append a hs gs)

defaults_at-append :
    (a : SocketAddr) (hs gs : List VirtualHost)
    → defaults_at a (hs ++ gs) ≡ defaults_at a hs + defaults_at a gs
defaults_at-append a [] gs = omega arith
defaults_at-append a (h ∷ hs) gs = ground (arith, defaults_at-append a hs gs)

any-hosts_at :
    (a : SocketAddr) (hs : List VirtualHost)
    → any (is_at a) hs ≡ (if hosts_at a hs == 0 then false else true)
any-hosts_at a [] = refl
any-hosts_at a (h ∷ hs) = ground (arith, any-hosts_at a hs)

-- One more host of an address, after the others of it were cleared where it asks to be the default.
add_host-OneDefault :
    (a : SocketAddr) (asks : Bool) (h : VirtualHost) (hs : List VirtualHost)
    → h.listener ≡ a
    → h.default ≡ (asks || not (any (is_at a) hs))
    → OneDefault hs
    → OneDefault ((if asks then clear_hosts a hs else hs) ++ h ∷ [])
add_host-OneDefault a asks h hs here set one b = ground (
  arith,
  set,
  ap (λ z. socket_eq z b) here,
  socket_eq_iff a b,
  one a,
  one b,
  any-hosts_at a hs,
  hosts_at-append b (if asks then clear_hosts a hs else hs) (h ∷ []),
  defaults_at-append b (if asks then clear_hosts a hs else hs) (h ∷ []),
  hosts_at-clear_hosts a b hs,
  defaults_at-clear_hosts a b hs,
)

abbrev fine : {Network Cert : Type 0} → Loaded Network Cert → Result String (Loaded Network Cert)
fine s = ok s

ok_hosts : {Network Cert : Type 0} {s t : Loaded Network Cert} → fine s ≡ ok t → s.hosts ≡ t.hosts
ok_hosts e = ap (λ r. elim r [ ok u ↦ u.hosts | err w ↦ [] ]) e

check_lem :
    {Network Cert : Type 0} (s t : Loaded Network Cert)
    → check_hosts s ≡ ok t
    → (t.hosts ≢ []) × (s.hosts ≡ t.hosts)
check_lem s t done =
    elim s.hosts as (λ hs. s.hosts ≡ hs → (t.hosts ≢ []) × (s.hosts ≡ t.hosts)) [
      | [] ↦ λ e. absurd (ground (rw e at done, arith))
      | h ∷ hs ↦ λ e.
          let same : h ∷ hs ≡ t.hosts =
            ap (λ r. elim r [ ok u ↦ u.hosts | err w ↦ [] ]) (rw e at done) in
          (λ none_there. ground (none_there, same, arith), e ∙ same)
    ]
      refl

module _ {Network Cert : Type 0} (network_eq : Network → Network → Bool)
    (validate_name : Cert → Text → Bool) where
  listen_on-OneDefault :
      (server : Server Network Cert) (l : Listen) (s t : Loaded Network Cert)
      → listen_on network_eq validate_name server l s ≡ ok t
      → OneDefault s.hosts
      → OneDefault t.hosts
  unfolding listen_on
  listen_on-OneDefault server l s t done one =
      let a = >>=-eq-ok (note_default l s.defaults) _ done in
      let b = >>=-eq-ok (bind network_eq validate_name server l s.listeners) _ a.2 in
      let c =
        >>=-eq-ok
          (certificates_for network_eq validate_name server l (becomes_default l s.hosts) (
            if l.default_server
            then clear_certificates l.address s.certificates
            else s.certificates))
          _ b.2 in
      let same : (if l.default_server then clear_hosts l.address s.hosts else s.hosts)
            ++ host_of server l (becomes_default l s.hosts) ∷ []
          ≡ t.hosts =
        ok_hosts c.2 in
      subst OneDefault same (
        add_host-OneDefault l.address l.default_server
          (host_of server l (becomes_default l s.hosts)) s.hosts refl refl one)

  listen_all-OneDefault :
      (server : Server Network Cert) (ls : List Listen) (s t : Loaded Network Cert)
      → listen_all network_eq validate_name server ls s ≡ ok t
      → OneDefault s.hosts
      → OneDefault t.hosts
  unfolding listen_all
  listen_all-OneDefault server [] s t done one = subst OneDefault (ok_hosts done) one
  listen_all-OneDefault server (l ∷ ls) s t done one =
      let a = >>=-eq-ok (listen_on network_eq validate_name server l s) _ done in
      listen_all-OneDefault server ls a.0 t a.2 (listen_on-OneDefault server l s a.0 a.1 one)

  load_servers-OneDefault :
      (servers : List (Server Network Cert)) (s t : Loaded Network Cert)
      → load_servers network_eq validate_name servers s ≡ ok t
      → OneDefault s.hosts
      → OneDefault t.hosts
  unfolding load_servers
  load_servers-OneDefault [] s t done one = subst OneDefault (ok_hosts done) one
  load_servers-OneDefault (server ∷ servers) s t done one =
      let a = >>=-eq-ok (listen_all network_eq validate_name server server.listens s) _ done in
      load_servers-OneDefault servers a.0 t a.2
        (listen_all-OneDefault server server.listens s a.0 a.1 one)

  -- A configuration that loads has hosts, and of the hosts of each address exactly one is its default,
  -- however servers ask for that.
  pub load-OneDefault :
      (servers : List (Server Network Cert)) (t : Loaded Network Cert)
      → load network_eq validate_name servers ≡ ok t
      → OneDefault t.hosts × (t.hosts ≢ [])
  unfolding load
  load-OneDefault servers t done =
      let a = >>=-eq-ok (load_servers network_eq validate_name servers nothing_loaded) _ done in
      let same : (t.hosts ≢ []) × (a.0.hosts ≡ t.hosts) = check_lem a.0 t a.2 in
      let one : OneDefault a.0.hosts = load_servers-OneDefault servers _ a.0 a.1 (λ x. refl) in
      (subst OneDefault same.1 one, same.0)
