-- ===== src/ProxyProtocol/Roundtrip.antt =====
-- Version 2 headers as a sender lays them out, read back.
use rgnix.Base.{
  length, get_elem?, take, drop, length-append, Text, ◌>>=◌, ok, ℕ, zero, suc, ◌+◌, ◌/◌, ◌%◌, ◌≤◌,
  ◌≡◌, refl, ap, ◌∙◌, Option, some, [], ◌∷◌, ◌++◌, arith,
}
use rgnix.Net.{IpAddr, v4, v6}
use rgnix.ProxyProtocol.{read_exact, byte_at, be16, signature, v2_family, v2_command, read_v2, read}

abbrev pub port_bytes : ℕ → Text
port_bytes p = (p / 256) ∷ (p % 256) ∷ []

-- Signature, version and command, family, length and payload.
pub encode_v2 : ℕ → ℕ → Text → Text
encode_v2 command family payload =
    signature ++ (command ∷ family ∷ (port_bytes (length payload) ++ payload))

-- The payload of a connection: the two addresses, the two ports, and the sender's optional fields.
abbrev pub addresses : Text → Text → ℕ → ℕ → Text → Text
addresses src dst sport dport tlvs =
    src ++ (dst ++ (port_bytes sport ++ (port_bytes dport ++ tlvs)))

take-append : (xs ys : Text) → take (length xs) (xs ++ ys) ≡ xs
take-append [] ys = refl
take-append (x ∷ xs) ys = ap (◌∷◌ x) (take-append xs ys)

drop-append : (xs ys : Text) → drop (length xs) (xs ++ ys) ≡ ys
drop-append [] ys = refl
drop-append (x ∷ xs) ys = drop-append xs ys

read_exact-append : (n : ℕ) (xs ys : Text) → length xs ≡ n → read_exact n (xs ++ ys) ≡ ok (xs, ys)
unfolding read_exact
read_exact-append n xs ys h =
    rw (← h) (ground (arith, length-append xs ys, take-append xs ys, drop-append xs ys))

size_bytes : (n : ℕ) → be16 (n / 256) (n % 256) ≡ n
size_bytes n = omega arith

-- The reader of version 2, on a header whose payload has the announced length.
read_v2-frame :
    (command family : ℕ) (payload rest : Text)
    → command / 16 ≡ 2
    → length payload ≤ 512
    → read_v2 (command ∷ family ∷ (length payload / 256) ∷ (length payload % 256) ∷ payload ++ rest)
      ≡ (v2_command (command ∷ family ∷ port_bytes (length payload)) (length payload) payload
          >>= λ a. ok (a, rest))
unfolding read_v2
read_v2-frame command family payload rest h l =
    rw (read_exact-append 4 (command ∷ family ∷ port_bytes (length payload)) (payload ++ rest) refl)
      (rw (size_bytes (length payload))
        (rw (read_exact-append (length payload) payload rest refl) (ground arith)))

read-encode_v2 :
    (parse_ip : Text → Option IpAddr) (command family : ℕ) (payload rest : Text)
    → command / 16 ≡ 2
    → length payload ≤ 512
    → read parse_ip (encode_v2 command family payload ++ rest) ≡ (
        v2_command (command ∷ family ∷ port_bytes (length payload)) (length payload) payload
        >>= λ a. ok (a, rest))
unfolding read encode_v2
read-encode_v2 parse_ip command family payload rest h l =
    rw
      (read_exact-append 12 signature
        (command ∷ family ∷ (length payload / 256) ∷ (length payload % 256) ∷ payload ++ rest) refl)
      (read_v2-frame command family payload rest h l)

get_elem?-append :
    (xs ys : Text) (i k : ℕ) → k ≡ length xs + i → get_elem? (xs ++ ys) k ≡ get_elem? ys i
get_elem?-append [] ys i k h = let e : k ≡ i = omega arith in rw e
get_elem?-append (x ∷ xs) ys i zero h = absurd (omega arith)
get_elem?-append (x ∷ xs) ys i (suc k) h = get_elem?-append xs ys i k (omega arith)

-- Where the source address and port stand in the payload.
module _ (n : ℕ) (src dst : Text) (sport dport : ℕ) (tlvs : Text) (source : length src ≡ n)
    (destination : length dst ≡ n) where
  payload_byte :
      (i : ℕ)
      → byte_at (addresses src dst sport dport tlvs) (n + (n + i))
        ≡ byte_at (port_bytes sport ++ (port_bytes dport ++ tlvs)) i
  payload_byte i =
      let rest : Text = port_bytes sport ++ (port_bytes dport ++ tlvs) in
      rw (get_elem?-append src (dst ++ rest) (n + i) (n + (n + i)) (omega arith))
        (rw (get_elem?-append dst rest i (n + i) (omega arith)))

  payload_source : take n (addresses src dst sport dport tlvs) ≡ src
  payload_source = rw (← source) (take-append src _)

  length-addresses : length (addresses src dst sport dport tlvs) ≡ n + n + 4 + length tlvs
  length-addresses = omega (
    arith,
    length-append src (dst ++ (port_bytes sport ++ (port_bytes dport ++ tlvs))),
    length-append dst (port_bytes sport ++ (port_bytes dport ++ tlvs)),
  )

-- A header of a TCP connection over IPv4 is read back as the source address and port, whatever
-- optional fields follow the addresses (up to 500 bytes) and whatever follows the header.
pub read-encode_tcp4 :
    (parse_ip : Text → Option IpAddr) (src dst : Text) (sport dport : ℕ) (tlvs rest : Text)
    → length src ≡ 4
    → length dst ≡ 4
    → length tlvs ≤ 500
    → read parse_ip (encode_v2 0x21 0x11 (addresses src dst sport dport tlvs) ++ rest)
      ≡ ok (some (record { ip = v4 src; port = sport }), rest)
unfolding v2_command v2_family
read-encode_tcp4 parse_ip src dst sport dport tlvs rest p q r =
    let size = length-addresses 4 src dst sport dport tlvs p q in
    read-encode_v2 parse_ip 0x21 0x11 (addresses src dst sport dport tlvs) rest refl
      (omega (arith, size))
    ∙ ground (
      arith,
      size,
      payload_source 4 src dst sport dport tlvs p q,
      payload_byte 4 src dst sport dport tlvs p q 0,
      payload_byte 4 src dst sport dport tlvs p q 1,
      size_bytes sport,
    )

-- The same over IPv6, with up to 476 bytes of optional fields.
pub read-encode_tcp6 :
    (parse_ip : Text → Option IpAddr) (src dst : Text) (sport dport : ℕ) (tlvs rest : Text)
    → length src ≡ 16
    → length dst ≡ 16
    → length tlvs ≤ 476
    → read parse_ip (encode_v2 0x21 0x21 (addresses src dst sport dport tlvs) ++ rest)
      ≡ ok (some (record { ip = v6 src; port = sport }), rest)
unfolding v2_command v2_family
read-encode_tcp6 parse_ip src dst sport dport tlvs rest p q r =
    let size = length-addresses 16 src dst sport dport tlvs p q in
    read-encode_v2 parse_ip 0x21 0x21 (addresses src dst sport dport tlvs) rest refl
      (omega (arith, size))
    ∙ ground (
      arith,
      size,
      payload_source 16 src dst sport dport tlvs p q,
      payload_byte 16 src dst sport dport tlvs p q 0,
      payload_byte 16 src dst sport dport tlvs p q 1,
      size_bytes sport,
    )
