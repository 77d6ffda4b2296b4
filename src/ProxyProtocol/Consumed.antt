-- ===== src/ProxyProtocol/Consumed.antt =====
-- How much of a stream the header reader takes: a prefix, of bounded length.
use rgnix.Base.{
  leb, Bool-cases, length, take, drop, length-append, Text, codes, text_eq, starts_with, split_on,
  valid_utf8, ensure, >>=-eq-ok, >>-eq-ok, ensure-eq-ok, ok, ℕ, zero, suc, ◌+◌, ◌-◌, ◌≤◌, ◌≡◌, refl,
  sym, ap, ◌∙◌, inl, inr, Option, [], ◌∷◌, ◌++◌, append_assoc, arith,
}
use rgnix.Net.{IpAddr, SocketAddr}
use rgnix.ProxyProtocol.{
  invalid_data, read_exact, signature, v2_command, v2_size, v2_allowed, read_v2, crlf, ends_with,
  read_line, v1_text, v1_fields, read_v1, read,
}

-- `rest` is what is left of `s` after a header of at most `n` bytes.
pub record IsTaken (n : ℕ) (s rest : Text) : Type 0 where
  pub header : Text
  pub split : s ≡ header ++ rest
  pub bounded : length header ≤ n

IsTaken-trans : {m n : ℕ} {s t u : Text} → IsTaken m s t → IsTaken n t u → IsTaken (m + n) s u
IsTaken-trans {m} {n} {s} {t} {u} a b = record {
  header = a.header ++ b.header;
  split = a.split ∙ ap (◌++◌ a.header) b.split ∙ sym (append_assoc a.header b.header u);
  bounded = omega (arith, length-append a.header b.header, a.bounded, b.bounded);
}

take-append-drop : (n : ℕ) (s : Text) → take n s ++ drop n s ≡ s
take-append-drop zero s = refl
take-append-drop (suc n) [] = refl
take-append-drop (suc n) (c ∷ s) = ap (◌∷◌ c) (take-append-drop n s)

length-take-le : (n : ℕ) (s : Text) → length (take n s) ≤ n
length-take-le zero s = omega arith
length-take-le (suc n) [] = omega arith
length-take-le (suc n) (c ∷ s) = omega (arith, length-take-le n s)

pub read_exact-IsTaken :
    (n : ℕ) (s : Text) {a rest : Text} → read_exact n s ≡ ok (a, rest) → IsTaken n s rest
unfolding read_exact
read_exact-IsTaken n s {a} {rest} h = record {
  header = take n s;
  split = sym (take-append-drop n s) ∙ ap (◌++◌ (take n s)) (ground arith);
  bounded = length-take-le n s;
}

IsTaken-mono : {m n : ℕ} {s t : Text} → m ≤ n → IsTaken m s t → IsTaken n s t
IsTaken-mono h a = record { header = a.header; split = a.split; bounded = omega (arith, a.bounded) }

read_v2-IsTaken :
    (s : Text) {a : Option SocketAddr} {rest : Text} → read_v2 s ≡ ok (a, rest) → IsTaken 516 s rest
unfolding read_v2
read_v2-IsTaken s {a} {rest} h =
    let (r1, e1, h1) = >>=-eq-ok (read_exact 4 s) _ h in
    let (e2, h2) = >>-eq-ok (ensure (v2_allowed r1.0) invalid_data) _ h1 in
    let (r2, e3, h3) = >>=-eq-ok (read_exact (v2_size r1.0) r1.1) _ h2 in
    let (r3, e4, h4) = >>=-eq-ok (v2_command r1.0 (v2_size r1.0) r2.0) _ h3 in
    let same : r2.1 ≡ rest = ground arith in
    let small : v2_size r1.0 ≤ 512 =
      ground (arith, ensure-eq-ok (v2_allowed r1.0) invalid_data e2) in
    rw (← same) (
      IsTaken-trans {m = 4} {n = 512} (read_exact-IsTaken 4 s e1)
        (IsTaken-mono small (read_exact-IsTaken _ r1.1 e3)))

IsTaken-nothing : {n : ℕ} {s t : Text} → s ≡ t → IsTaken n s t
IsTaken-nothing h = record { header = []; split = h; bounded = omega arith }

IsTaken-byte : {n k : ℕ} {b : ℕ} {s t : Text} → suc n ≤ k → IsTaken n s t → IsTaken k (b ∷ s) t
IsTaken-byte {b} h a = record {
  header = b ∷ a.header;
  split = ap (◌∷◌ b) a.split;
  bounded = omega (arith, a.bounded);
}

read_line-IsTaken :
    (line s : Text) {a rest : Text}
    → length line ≤ 108
    → read_line line s ≡ ok (a, rest)
    → IsTaken (108 - length line) s rest
unfolding read_line
read_line-IsTaken line [] h e = IsTaken-nothing (ground arith)
read_line-IsTaken line (b ∷ s) {a} {rest} h e = elim (Bool-cases (ends_with crlf line)) [
  | inl done ↦ IsTaken-nothing (ground arith)
  | inr more ↦ elim (Bool-cases (leb 108 (length line))) [
    | inl full ↦ absurd (ground arith)
    | inr room ↦
        let size : length (line ++ b ∷ []) ≡ length line + 1 = length-append line (b ∷ []) in
        IsTaken-byte (ground (arith, size)) (
          read_line-IsTaken (line ++ b ∷ []) s {a = a} {rest = rest} (ground (arith, size))
            (ground arith))
  ]
]

read_v1-IsTaken :
    (parse_ip : Text → Option IpAddr) (first s : Text) {a : Option SocketAddr} {rest : Text}
    → length first ≤ 108
    → read_v1 parse_ip first s ≡ ok (a, rest)
    → IsTaken 516 s rest
unfolding read_v1
read_v1-IsTaken parse_ip first s {a} {rest} l h =
    let (e1, h1) = >>-eq-ok (ensure (starts_with (codes "PROXY ") first) invalid_data) _ h in
    let (r2, e2, h2) = >>=-eq-ok (read_line first s) _ h1 in
    let (e3, h3) = >>-eq-ok (ensure (valid_utf8 (v1_text r2.0)) invalid_data) _ h2 in
    let (r4, e4, h4) = >>=-eq-ok (v1_fields parse_ip (split_on 32 (v1_text r2.0))) _ h3 in
    let same : r2.1 ≡ rest = ground arith in
    rw (← same) (IsTaken-mono (omega arith) (read_line-IsTaken first s l e2))

-- Whatever the stream holds, a successful read of the header has taken a prefix of it of at most
-- 528 bytes, and the rest is left untouched for the protocol above.
pub read-IsTaken :
    (parse_ip : Text → Option IpAddr) (s : Text) {a : Option SocketAddr} {rest : Text}
    → read parse_ip s ≡ ok (a, rest)
    → IsTaken 528 s rest
unfolding read read_exact
read-IsTaken parse_ip s {a} {rest} h =
    let (r1, e1, h1) = >>=-eq-ok (read_exact 12 s) _ h in
    let twelve : length r1.0 ≤ 108 = ground (arith, length-take-le 12 s) in
    IsTaken-trans {m = 12} {n = 516} (read_exact-IsTaken 12 s e1)
      (elim (Bool-cases (text_eq r1.0 signature)) [
        | inl two ↦ read_v2-IsTaken r1.1 (rw two at h1)
        | inr one ↦ read_v1-IsTaken parse_ip r1.0 r1.1 twelve (rw one at h1)
      ])
