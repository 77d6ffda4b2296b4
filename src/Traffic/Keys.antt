-- ===== src/Traffic/Keys.antt =====
-- Limit keys as they are written and read, and the two phases of a policy.
use rgnix.Base.{
  leb, ◌==◌, Bool-cases, Option-cases, is_none_or, length, Text, codes, text_eq, split_once,
  lower_byte, to_lower, ok, ℕ, suc, ◌≤◌, ◌≡◌, refl, ap, ◌⊎◌, inl, inr, Bool, true, false, not, ◌&&◌,
  none, [], ◌∷◌, ◌++◌, arith,
}
use rgnix.Traffic.{Key, route, ip, header, cookie, claim, Policy, key_of_kind, parse, before, phase}

-- A key as a configuration writes it.
unfoldable pub print : Key → Text
print route = codes "route"
print ip = codes "ip"
print (header n) = codes "header:" ++ n
print (cookie n) = codes "cookie:" ++ n
print (claim n) = codes "jwt:" ++ n

abbrev IsName : Text → Type 0
IsName n = (1 ≤ length n) × (length n ≤ 128)

-- The names that `parse` accepts: of 1 to 128 bytes, a header's in lower case.
abbrev pub IsWritable : (Text → Bool) → Key → Type 0
IsWritable header_name route = Unit {0}
IsWritable header_name ip = Unit {0}
IsWritable header_name (header n) = IsName n × (header_name n ≡ true) × (to_lower n ≡ n)
IsWritable header_name (cookie n) = IsName n
IsWritable header_name (claim n) = IsName n

-- Every key that can be written is read back as itself.
pub parse-print :
    (header_name : Text → Bool) (k : Key)
    → IsWritable header_name k
    → parse header_name (print k) ≡ ok k
unfolding parse print split_once
parse-print header_name route h = refl
parse-print header_name ip h = refl
parse-print header_name (header n) h = ground arith
parse-print header_name (cookie n) h = ground arith
parse-print header_name (claim n) h = ground arith

lower_byte_twice : (c : ℕ) → lower_byte (lower_byte c) ≡ lower_byte c
lower_byte_twice c = ground arith

to_lower_twice : (n : Text) → to_lower (to_lower n) ≡ to_lower n
to_lower_twice [] = refl
to_lower_twice (c ∷ n) = rw (lower_byte_twice c, to_lower_twice n)

length-to_lower : (n : Text) → length (to_lower n) ≡ length n
length-to_lower [] = refl
length-to_lower (c ∷ n) = ap suc (length-to_lower n)

module _ (header_name : Text → Bool)
    (lower : (n : Text) → header_name n ≡ true → header_name (to_lower n) ≡ true) where
  key_of_kind-IsWritable :
      (kind n : Text) {k : Key}
      → IsName n
      → key_of_kind header_name kind n ≡ ok k
      → IsWritable header_name k
  unfolding key_of_kind
  key_of_kind-IsWritable kind n {k} size h = elim (Bool-cases (text_eq kind (codes "header"))) [
    | inl is_header ↦ elim (Bool-cases (header_name n)) [
      | inl valid ↦
          let e : header (to_lower n) ≡ k = ground arith in
          rw (← e) (
            (omega (arith, length-to_lower n), omega (arith, length-to_lower n)),
            lower n valid,
            to_lower_twice n,
          )
      | inr invalid ↦ absurd (ground arith)
    ]
    | inr other ↦ elim (Bool-cases (text_eq kind (codes "cookie"))) [
      | inl is_cookie ↦ let e : cookie n ≡ k = ground arith in rw (← e) size
      | inr neither ↦ elim (Bool-cases (text_eq kind (codes "jwt"))) [
        | inl is_claim ↦ let e : claim n ≡ k = ground arith in rw (← e) size
        | inr none_of ↦ absurd (ground arith)
      ]
    ]
  ]

  -- What is read is a key that can be written, where `HeaderName::from_bytes` accepts the lower
  -- case of each name that it accepts.
  pub parse-IsWritable :
      (s : Text) {k : Key} → parse header_name s ≡ ok k → IsWritable header_name k
  unfolding parse
  parse-IsWritable s {k} h = elim (Bool-cases (text_eq s (codes "route"))) [
    | inl is_route ↦ let e : route ≡ k = ground arith in rw (← e) tt
    | inr other ↦ elim (Bool-cases (text_eq s (codes "ip"))) [
      | inl is_ip ↦ let e : ip ≡ k = ground arith in rw (← e) tt
      | inr neither ↦ elim (Option-cases (split_once b':' s)) [
        | inl missing ↦ absurd (ground arith)
        | inr ((kind, n), found) ↦
            let sized : (not (length n == 0) && leb (length n) 128) ≡ true = ground arith in
            let kinded : key_of_kind header_name kind n ≡ ok k = ground arith in
            key_of_kind-IsWritable kind n (ground arith) kinded
      ]
    ]
  ]

-- Each limit of a policy is checked in exactly one of the two phases and is unchanged there: before
-- authentication when its key is the route or the address, and after it otherwise.
pub phase_partition :
    (p : Policy)
    → (((phase p true).rate ≡ p.rate) × ((phase p false).rate ≡ none)
        ⊎ ((phase p true).rate ≡ none) × ((phase p false).rate ≡ p.rate))
      × (((phase p true).concurrency ≡ p.concurrency) × ((phase p false).concurrency ≡ none)
          ⊎ ((phase p true).concurrency ≡ none) × ((phase p false).concurrency ≡ p.concurrency))
      × (is_none_or (phase p true).rate (λ r. before r.key) ≡ true)
      × (is_none_or (phase p false).rate (λ r. not (before r.key)) ≡ true)
      × (is_none_or (phase p true).concurrency (λ c. before c.key) ≡ true)
      × (is_none_or (phase p false).concurrency (λ c. not (before c.key)) ≡ true)
unfolding phase
phase_partition p = ground arith
