-- ===== src/ProxyProtocol/Tests.antt =====
-- Runs of the header reader, and its theorems at concrete headers.
use rgnix.Base.{
  if◌then◌else◌, Text, codes, text_eq, starts_with, strip_suffix, split_on, valid_utf8, parse_uint,
  ok, err, ◌≡◌, refl, Option, none, some, [], ◌∷◌, ◌++◌, arith,
}
use rgnix.Net.{IpAddr, v4}
use rgnix.ProxyProtocol.{
  unexpected_eof, invalid_data, read_exact, v2_family, v2_command, read_v2, read_line, v1_fields,
  read_v1, read,
}
use rgnix.ProxyProtocol.Consumed.{IsTaken, read-IsTaken}
use rgnix.ProxyProtocol.Roundtrip.{encode_v2, addresses, read-encode_tcp4}

reader : Unit {0}
unfolding read read_exact read_v2 v2_command v2_family read_v1 read_line v1_fields starts_with
    valid_utf8 split_on strip_suffix parse_uint
reader = tt

-- A parser that knows two addresses.
abbrev two_addresses : Text → Option IpAddr
two_addresses s =
    if text_eq s (codes "10.0.0.1")
    then some (v4 (10 ∷ 0 ∷ 0 ∷ 1 ∷ []))
    else if text_eq s (codes "10.0.0.2")
    then some (v4 (10 ∷ 0 ∷ 0 ∷ 2 ∷ []))
    else none

abbrev line : Text
line = codes "PROXY TCP4 10.0.0.1 10.0.0.2 4000 80" ++ (13 ∷ 10 ∷ codes "GET")

read_tests :
    (read two_addresses line
      ≡ ok (some (record { ip = v4 (10 ∷ 0 ∷ 0 ∷ 1 ∷ []); port = 4000 }), codes "GET"))
    × (read two_addresses (codes "PROXY UNKNOWN" ++ (13 ∷ 10 ∷ [])) ≡ ok (none, []))
    × (read two_addresses (codes "PROXY TCP6 10.0.0.1 10.0.0.2 1 2" ++ (13 ∷ 10 ∷ []))
        ≡ err invalid_data)
    × (read two_addresses (codes "PROXY") ≡ err unexpected_eof)
    × (read two_addresses (codes "GET / HTTP/1.1 ") ≡ err invalid_data)
unfolding reader
read_tests = (refl, refl, refl, refl, refl)

read-IsTaken_example : IsTaken 528 line (codes "GET")
unfolding reader
read-IsTaken_example = read-IsTaken two_addresses line refl

read-encode_tcp4_example :
    read two_addresses (
      encode_v2 0x21 0x11
        (addresses (10 ∷ 0 ∷ 0 ∷ 1 ∷ []) (10 ∷ 0 ∷ 0 ∷ 2 ∷ []) 4000 80 (3 ∷ 0 ∷ 0 ∷ []))
      ++ codes "GET")
    ≡ ok (some (record { ip = v4 (10 ∷ 0 ∷ 0 ∷ 1 ∷ []); port = 4000 }), codes "GET")
read-encode_tcp4_example =
    read-encode_tcp4 two_addresses (10 ∷ 0 ∷ 0 ∷ 1 ∷ []) (10 ∷ 0 ∷ 0 ∷ 2 ∷ []) 4000 80
      (3 ∷ 0 ∷ 0 ∷ []) (codes "GET") refl refl (omega arith)

abbrev loopback : Text
loopback = 0 ∷ 0 ∷ 0 ∷ 0 ∷ 0 ∷ 0 ∷ 0 ∷ 0 ∷ 0 ∷ 0 ∷ 0 ∷ 0 ∷ 0 ∷ 0 ∷ 0 ∷ 1 ∷ []
