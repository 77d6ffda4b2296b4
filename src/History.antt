-- ===== src/History.antt =====
-- src/history.rs: the journal of configurations, and from src/config/bundle.rs the sizes of a bundle.
-- The file and the lock of the directory are not part of it. `to_vec` (serde_json) is a parameter.
pub mod Newest
pub mod Tests
use rgnix.Base.{
  ltb, leb, ◌==◌, if◌then◌else◌, length, sum_of, Text, Result, ok, err, ℕ, ◌*◌, String, Bool, false,
  ◌&&◌, ◌||◌, Option, none, some, List, [], ◌∷◌, ◌++◌, map,
}

pub record Bundle (Nodes : Type 0) : Type 0 where
  pub nodes : Nodes
  pub assets : List (Text × Text)

pub record Revision (Nodes : Type 0) : Type 0 where
  pub version : ℕ
  pub bundle : Bundle Nodes

abbrev pub mebibyte : ℕ
mebibyte = 1048576

module _ {Nodes : Type 0} (to_vec : Nodes → Text) where
  -- `assets.values().map(Vec::len).sum()`
  abbrev pub asset_bytes : Bundle Nodes → ℕ
  asset_bytes b = sum_of (λ a. length a.1) b.assets

  -- `Bundle::config_bytes`
  abbrev pub config_bytes : Bundle Nodes → ℕ
  config_bytes b = length (to_vec b.nodes)

  -- The limits of `Bundle::compile`.
  abbrev pub compiles : Bundle Nodes → Bool
  compiles b = leb (config_bytes b) (4 * mebibyte) && leb (asset_bytes b) (16 * mebibyte)

  -- The condition of the loop.
  abbrev pub over : List (Revision Nodes) → Bool
  over rs =
      ltb 9 (length rs)
      || (ltb (32 * mebibyte) (sum_of (λ r. asset_bytes r.bundle) rs)
          || ltb (8 * mebibyte) (sum_of (λ r. config_bytes r.bundle) rs))

  unfoldable pub trim : List (Revision Nodes) → List (Revision Nodes)
  trim [] = []
  trim (r ∷ rs) = if over (r ∷ rs) then trim rs else r ∷ rs

  -- `last().is_some_and(|r| r.version == version)`
  abbrev pub last_is : ℕ → List (Revision Nodes) → Bool
  last_is version [] = false
  last_is version (r ∷ []) = r.version == version
  last_is version (r ∷ q ∷ rs) = last_is version (q ∷ rs)

  -- `History::record`, as the revisions of the new journal.
  unfoldable pub record_snapshot :
      ℕ → Option (Bundle Nodes) → List (Revision Nodes) → Result String (List (Revision Nodes))
  unfolding trim
  record_snapshot version none rs = err "snapshot has no source bundle"
  record_snapshot version (some bundle) rs =
      if last_is version rs
      then ok rs
      else ok (trim (rs ++ record { version = version; bundle = bundle } ∷ []))

  -- `History::versions`
  abbrev pub versions : List (Revision Nodes) → List ℕ
  versions rs = map (λ r. r.version) rs

  -- What `History::restore` compiles.
  abbrev pub restored : ℕ → List (Revision Nodes) → Option (Bundle Nodes)
  restored version [] = none
  restored version (r ∷ rs) = if r.version == version then some r.bundle else restored version rs
