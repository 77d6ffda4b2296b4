-- ===== src/Net.antt =====
-- Addresses as the standard library's types: `IpAddr`, `SocketAddr`.
use rgnix.Base.{◌==◌, Eq, Text, text_eq, text_eq_iff, ℕ, ◌≡◌, ◌↔◌, Bool, true, false, ◌&&◌, arith}

-- The octets, four or sixteen.
pub data IpAddr : Type 0 where
  v4 : Text → IpAddr
  v6 : Text → IpAddr

pub record SocketAddr : Type 0 where
  pub ip : IpAddr
  pub port : ℕ

abbrev pub is_ipv4 : IpAddr → Bool
is_ipv4 (v4 o) = true
is_ipv4 (v6 o) = false

abbrev pub is_ipv6 : IpAddr → Bool
is_ipv6 (v4 o) = false
is_ipv6 (v6 o) = true

abbrev pub ip_eq : IpAddr → IpAddr → Bool
ip_eq (v4 a) (v4 b) = text_eq a b
ip_eq (v6 a) (v6 b) = text_eq a b
ip_eq (v4 a) (v6 b) = false
ip_eq (v6 a) (v4 b) = false

abbrev pub socket_eq : SocketAddr → SocketAddr → Bool
socket_eq a b = ip_eq a.ip b.ip && (a.port == b.port)

ip_eq_iff : (a b : IpAddr) → (ip_eq a b ≡ true) ↔ (a ≡ b)
ip_eq_iff (v4 a) (v4 b) = ground (arith, text_eq_iff a b)
ip_eq_iff (v6 a) (v6 b) = ground (arith, text_eq_iff a b)
ip_eq_iff (v4 a) (v6 b) = ground arith
ip_eq_iff (v6 a) (v4 b) = ground arith

pub socket_eq_iff : (a b : SocketAddr) → (socket_eq a b ≡ true) ↔ (a ≡ b)
socket_eq_iff a b = ground (arith, ip_eq_iff a.ip b.ip)

instance abbrev pub socket_is_eq : Eq SocketAddr
socket_is_eq = record { beq = socket_eq; beq_iff = socket_eq_iff }
