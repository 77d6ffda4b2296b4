-- ===== src/ProxyProtocol.antt =====
-- src/proxy_protocol.rs: the PROXY protocol header, versions 1 and 2. A stream is the list of the
-- bytes still to be read; a read returns what it got and the rest. The textual address parser of
-- the standard library is the parameter `parse_ip`.
pub mod Consumed
pub mod Roundtrip
mod Tests
use rgnix.Base.{
  leb, ◌==◌, if◌then◌else◌, is_some_and, is_some, unwrap_or, length, get_elem?, take, drop, Text,
  codes, text_eq, starts_with, strip_suffix, split_on, valid_utf8, parse_uint, u16_max, Result,
  ◌>>◌, ◌>>=◌, ensure, ok_or, ok, err, ℕ, ◌+◌, ◌-◌, ◌*◌, ◌/◌, ◌%◌, Bool, not, ◌&&◌, ◌||◌, Option,
  none, some, List, [], ◌∷◌, ◌++◌,
}
use rgnix.Net.{IpAddr, v4, v6, SocketAddr, is_ipv4, is_ipv6}

pub data IoError : Type 0 where
  unexpected_eof invalid_data : IoError

abbrev pub Read : Type 0 → Type 0
Read A = Text → Result IoError (A × Text)

pub read_exact : ℕ → Read Text
read_exact n s = if leb n (length s) then ok (take n s, drop n s) else err unexpected_eof

abbrev pub byte_at : Text → ℕ → ℕ
byte_at s i = unwrap_or (get_elem? s i) 0

-- `u16::from_be_bytes`
abbrev pub be16 : ℕ → ℕ → ℕ
be16 hi lo = hi * 256 + lo

abbrev pub signature : Text
signature = 13 ∷ 10 ∷ 13 ∷ 10 ∷ 0 ∷ 13 ∷ 10 ∷ 81 ∷ 85 ∷ 73 ∷ 84 ∷ 10 ∷ []

-- The `match` on the address family once the command is PROXY.
v2_family : ℕ → ℕ → Text → Result IoError (Option SocketAddr)
v2_family family size payload =
    if (family == 0x11) && leb 12 size
    then ok (
        some (record {
          ip = v4 (take 4 payload);
          port = be16 (byte_at payload 8) (byte_at payload 9);
        }))
    else if (family == 0x21) && leb 36 size
    then ok (
        some (record {
          ip = v6 (take 16 payload);
          port = be16 (byte_at payload 32) (byte_at payload 33);
        }))
    else if family == 0
    then ok none
    else err invalid_data

v2_command : Text → ℕ → Text → Result IoError (Option SocketAddr)
unfolding v2_family
v2_command tail size payload =
    if (byte_at tail 0 % 16) == 0
    then ok none
    else if not ((byte_at tail 0 % 16) == 1)
    then err invalid_data
    else v2_family (byte_at tail 1) size payload

-- The length that the second part of a version 2 header announces.
abbrev pub v2_size : Text → ℕ
v2_size tail = be16 (byte_at tail 2) (byte_at tail 3)

abbrev v2_allowed : Text → Bool
v2_allowed tail = ((byte_at tail 0 / 16) == 2) && leb (v2_size tail) 512

-- The branch for the version 2 signature.
read_v2 : Read (Option SocketAddr)
read_v2 s = do
  (tail, s1) ← read_exact 4 s
  ensure (v2_allowed tail) invalid_data
  (payload, s2) ← read_exact (v2_size tail) s1
  address ← v2_command tail (v2_size tail) payload
  ok (address, s2)

abbrev pub crlf : Text
crlf = 13 ∷ 10 ∷ []

abbrev pub ends_with : Text → Text → Bool
ends_with p s = is_some (strip_suffix p s)

-- The loop that reads a version 1 line, byte by byte.
read_line : Text → Read Text
unfolding strip_suffix
read_line line [] =
    if ends_with crlf line
    then ok (line, [])
    else if leb 108 (length line)
    then err invalid_data
    else err unexpected_eof
read_line line (b ∷ s) =
    if ends_with crlf line
    then ok (line, b ∷ s)
    else if leb 108 (length line)
    then err invalid_data
    else read_line (line ++ b ∷ []) s

-- The line without its ending.
abbrev v1_text : Text → Text
v1_text line = take (length line - 2) line

module _ (parse_ip : Text → Option IpAddr) where
  -- What follows the split of the line into fields.
  v1_fields : List Text → Result IoError (Option SocketAddr)
  unfolding parse_uint
  v1_fields fields =
      if is_some_and (get_elem? fields 1) (text_eq (codes "UNKNOWN")) then ok none else do
        ensure (length fields == 6) invalid_data
        source ← ok_or (parse_ip (field 2)) invalid_data
        destination ← ok_or (parse_ip (field 3)) invalid_data
        port ← ok_or (parse_uint u16_max (field 4)) invalid_data
        other ← ok_or (parse_uint u16_max (field 5)) invalid_data
        ensure
            ((text_eq (field 1) (codes "TCP4") && (is_ipv4 source && is_ipv4 destination))
              || (text_eq (field 1) (codes "TCP6") && (is_ipv6 source && is_ipv6 destination)))
            invalid_data
        ok (some (record { ip = source; port = port }))
    where
      field : ℕ → Text
      field i = unwrap_or (get_elem? fields i) []

  read_v1 : Text → Read (Option SocketAddr)
  read_v1 first s = do
    ensure (starts_with (codes "PROXY ") first) invalid_data
    (line, s1) ← read_line first s
    ensure (valid_utf8 (v1_text line)) invalid_data
    address ← v1_fields (split_on 32 (v1_text line))
    ok (address, s1)

  pub read : Read (Option SocketAddr)
  read s = do
    (first, s1) ← read_exact 12 s
    if text_eq first signature then read_v2 s1 else read_v1 first s1
