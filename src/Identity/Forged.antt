-- ===== src/Identity/Forged.antt =====
-- src/identity.rs: what a client that sends its own header values can make of the address.
use mathlib.Core.List.{reverse-append}
use rgnix.Base.{
  ltb, Bool-cases, Option-cases, length, length-append, Text, codes, text_eq, split_on, ℕ, ◌+◌, ◌≤◌,
  ◌≡◌, refl, sym, ap, ◌∙◌, ◌⊎◌, inl, inr, Bool, true, false, Option, some, List, [], ◌∷◌, ◌++◌,
  reverse, append-nil, append_assoc, arith,
}
use rgnix.Net.{IpAddr}
use rgnix.Identity.{
  IdentityPolicy, Reader, read_hop, read_hops, read_values, trusts, climb, from_chain, resolve,
}

module _ (reader : Reader) where
  -- What a list of hops adds to a chain, it adds to every chain that is not longer.
  abbrev AddsHops : Text → List Text → List IpAddr → ℕ → Type 0
  AddsHops header hops own n =
      (base : List IpAddr)
      → length base ≤ n
      → read_hops reader header hops base ≡ some (base ++ own)

  read_hops-adds :
      (header : Text) (hops : List Text) (chain : List IpAddr) {full : List IpAddr}
      → read_hops reader header hops chain ≡ some full
      → (own : List IpAddr) × (full ≡ chain ++ own) × AddsHops header hops own (length chain)
  unfolding read_hops
  read_hops-adds header [] chain h =
      ([], ground (arith, append-nil chain), λ base low. ground (arith, append-nil base))
  read_hops-adds header (hop ∷ hops) chain {full} h =
      elim (Option-cases (read_hop reader header hop)) [
        | inl bad ↦ absurd (ground arith)
        | inr (ip, good) ↦
            let more : read_hops reader header hops (chain ++ ip ∷ []) ≡ some full = ground arith in
            let room : ltb 64 (length (chain ++ ip ∷ [])) ≡ false = ground arith in
            let (own, whole, adds) = read_hops-adds header hops (chain ++ ip ∷ []) more in
            (
              ip ∷ own,
              whole ∙ append_assoc chain (ip ∷ []) own,
              λ base low.
                  let short : length (base ++ ip ∷ []) ≤ length (chain ++ ip ∷ []) =
                    omega (arith, length-append base (ip ∷ []), length-append chain (ip ∷ [])) in
                  let step : read_hops reader header hops (base ++ ip ∷ [])
                      ≡ some ((base ++ ip ∷ []) ++ own) =
                    adds (base ++ ip ∷ []) short in
                  ground (arith, step, append_assoc base (ip ∷ []) own),
            )
      ]

  -- The same of values, which have a budget of bytes too.
  abbrev AddsValues : Text → List Text → List IpAddr → ℕ → ℕ → Type 0
  AddsValues header values own bytes n =
      (base : List IpAddr) (spent : ℕ)
      → spent ≤ bytes
      → length base ≤ n
      → read_values reader header values spent base ≡ some (base ++ own)

  read_values-adds :
      (header : Text) (values : List Text) (bytes : ℕ) (chain : List IpAddr) {full : List IpAddr}
      → read_values reader header values bytes chain ≡ some full
      → (own : List IpAddr) × (full ≡ chain ++ own)
        × AddsValues header values own bytes (length chain)
  unfolding read_values
  read_values-adds header [] bytes chain h =
      ([], ground (arith, append-nil chain), λ base spent less low. ground (arith, append-nil base))
  read_values-adds header (v ∷ vs) bytes chain {full} h = elim (Option-cases (reader.to_str v)) [
    | inl bad ↦ absurd (ground arith)
    | inr (s, text) ↦ elim (Option-cases (read_hops reader header (split_on b',' s) chain)) [
      | inl bad ↦ absurd (ground arith)
      | inr (longer, hops) ↦
          let room : ltb 8192 (bytes + length v) ≡ false = ground arith in
          let more : read_values reader header vs (bytes + length v) longer ≡ some full =
            ground arith in
          let (first, here, adds) = read_hops-adds header (split_on b',' s) chain hops in
          let (own, whole, later) = read_values-adds header vs (bytes + length v) longer more in
          (
            first ++ own,
            whole ∙ (ap (λ c. c ++ own) here ∙ append_assoc chain first own),
            λ base spent less low.
                let size : length longer ≡ length chain + length first =
                  ap length here ∙ length-append chain first in
                let one : read_hops reader header (split_on b',' s) base ≡ some (base ++ first) =
                  adds base low in
                let two : read_values reader header vs (spent + length v) (base ++ first)
                    ≡ some ((base ++ first) ++ own) =
                  later (base ++ first) (spent + length v) (omega arith)
                    (omega (arith, length-append base first)) in
                ground (arith, one, two, append_assoc base first own),
          )
    ]
  ]

  -- Values after others are read once those are.
  read_values-append :
      (header : Text) (vs ws : List Text) (bytes : ℕ) (chain : List IpAddr) {full : List IpAddr}
      → read_values reader header (vs ++ ws) bytes chain ≡ some full
      → (spent : ℕ) × (mid : List IpAddr) × (read_values reader header ws spent mid ≡ some full)
  unfolding read_values
  read_values-append header [] ws bytes chain h = (bytes, chain, h)
  read_values-append header (v ∷ vs) ws bytes chain {full} h =
      elim (Option-cases (reader.to_str v)) [
        | inl bad ↦ absurd (ground arith)
        | inr (s, text) ↦ elim (Option-cases (read_hops reader header (split_on b',' s) chain)) [
          | inl bad ↦ absurd (ground arith)
          | inr (longer, hops) ↦
              read_values-append header vs ws (bytes + length v) longer (ground arith)
        ]
      ]

  module _ {Network : Type 0} (contains : Network → IpAddr → Bool) where
    -- The climb ends at an address that is not trusted, whatever stands beyond it.
    climb-append :
        (p : IdentityPolicy Network) (selected : IpAddr) (xs ys : List IpAddr)
        → trusts reader contains p (climb reader contains p selected xs) ≡ false
        → climb reader contains p selected (xs ++ ys) ≡ climb reader contains p selected xs
    unfolding climb
    climb-append p selected [] [] h = refl
    climb-append p selected [] (y ∷ ys) h = ground arith
    climb-append p selected (x ∷ xs) ys h = elim (Bool-cases (trusts reader contains p selected)) [
      | inl on ↦ ground (arith, climb-append p x xs ys)
      | inr off ↦ ground arith
    ]

    -- A recursive policy that finds an address it does not trust finds the same address, or gives
    -- up and takes the peer, when other values are put before those of the header: a client cannot
    -- choose its own address by sending values of its own.
    pub resolve_forged :
        (p : IdentityPolicy Network) (peer : IpAddr) (headers : Text → List Text)
        (proxy : Option IpAddr) (forged : List Text)
        → p.recursive ≡ true
        → text_eq p.header (codes "proxy_protocol") ≡ false
        → trusts reader contains p (resolve reader contains p peer headers proxy) ≡ false
        → let with_forged = resolve reader contains p peer (λ name. forged ++ headers name) proxy in
          (with_forged ≡ resolve reader contains p peer headers proxy) ⊎ (with_forged ≡ peer)
    unfolding resolve from_chain
    resolve_forged p peer headers proxy forged deep other stop =
        elim (Bool-cases (trusts reader contains p peer)) [
          | inr off ↦ inr (ground arith)
          | inl on ↦
              elim (Option-cases (read_values reader p.header (forged ++ headers p.header) 0 [])) [
                | inl bad ↦ inr (ground arith)
                | inr (full, all_read) ↦
                    let (spent, mid, later) =
                      read_values-append p.header forged (headers p.header) 0 [] all_read in
                    let (own, whole, adds) =
                      read_values-adds p.header (headers p.header) spent mid later in
                    let alone : read_values reader p.header (headers p.header) 0 [] ≡ some own =
                      adds [] 0 (omega arith) (omega arith) in
                    let plain : resolve reader contains p peer headers proxy
                        ≡ climb reader contains p peer (reverse own) =
                      ground arith in
                    let longer : resolve reader contains p peer (λ name. forged ++ headers name)
                          proxy
                        ≡ climb reader contains p peer (reverse full) =
                      ground arith in
                    let turned : reverse full ≡ reverse own ++ reverse mid =
                      ap reverse whole ∙ reverse-append mid own in
                    let ends : trusts reader contains p (climb reader contains p peer (reverse own))
                        ≡ false =
                      rw plain at stop in
                    inl (
                      longer
                      ∙ (ap (climb reader contains p peer) turned
                          ∙ (climb-append p peer (reverse own) (reverse mid) ends ∙ sym plain)))
              ]
        ]
