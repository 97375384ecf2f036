-- ===== src/Vault/Merkle.antt =====
-- programs/hybrid_vault/src/merkle.rs and the leaf check of asset_source.rs: the commitment to the
-- collection's art. `hashv`, the SHA-256 of a list of buffers, is a parameter. A string is its bytes.
pub mod Binding
pub mod Tree
use launchpad.Prelude.{
  ℕ, zero, suc, ◌+◌, ◌*◌, ◌/◌, ◌%◌, ◌^◌, List, [], ◌∷◌, ◌++◌, Bool, true, false, ◌&&◌, ◌||◌, ok,
  require, ◌>>=◌, ◌>>◌, ltb, leb, ◌==◌, if◌then◌else◌, length, take,
}
use launchpad.Bytes.{Bytes, to_le_bytes, bytes_eq}
use launchpad.Vault.Error.{
  Outcome, index_out_of_range, metadata_too_long, uri_not_content_addressed, invalid_merkle_proof,
}

-- "mintmark-leaf-v2"
abbrev pub leaf_domain : Bytes
leaf_domain =
    b'm' ∷ b'i' ∷ b'n' ∷ b't' ∷ b'm' ∷ b'a' ∷ b'r' ∷ b'k' ∷ b'-' ∷ b'l' ∷ b'e' ∷ b'a' ∷ b'f' ∷ b'-'
    ∷ b'v' ∷ b'2' ∷ []

-- The trait values, 16 bits each in little endian.
unfoldable pub trait_bytes : List ℕ → Bytes
trait_bytes [] = []
trait_bytes (v ∷ vs) = to_le_bytes 2 v ++ trait_bytes vs

-- The loop of `depth_for`; sizes of 32 bits need at most 32 rounds.
unfoldable pub depth_loop : ℕ → ℕ → ℕ → ℕ
depth_loop zero d size = d
depth_loop (suc rounds) d size =
    let rest = depth_loop rounds (d + 1) size in if ltb (2 ^ d) size then rest else d

unfoldable pub depth_for : ℕ → ℕ
unfolding depth_loop
depth_for size = depth_loop 32 0 size

module _ (hashv : List Bytes → Bytes) where
  unfoldable pub traits_hash : Bytes → List ℕ → Bytes
  traits_hash schema_hash trait_values = hashv (schema_hash ∷ trait_bytes trait_values ∷ [])

  unfoldable pub art_hash : Bytes → Bytes → Bytes → Bytes → Bytes
  art_hash salt image_sha256 json_sha256 uri = hashv (salt ∷ image_sha256 ∷ json_sha256 ∷ uri ∷ [])

  unfoldable pub leaf_hash : Bytes → ℕ → Bytes → Bytes → Bytes
  leaf_hash launch_config index traits art =
      hashv ((0 ∷ []) ∷ leaf_domain ∷ launch_config ∷ to_le_bytes 4 index ∷ traits ∷ art ∷ [])

  unfoldable pub node_hash : Bytes → Bytes → Bytes
  node_hash left right = hashv ((1 ∷ []) ∷ left ∷ right ∷ [])

  -- One round of the loop of `verify`.
  unfoldable pub step : Bytes → ℕ → Bytes → Bytes
  step node i sib = if i % 2 == 0 then node_hash node sib else node_hash sib node

  -- The loop of `verify`, over the siblings left.
  unfoldable pub climb : Bytes → ℕ → List Bytes → Bytes
  climb node i [] = node
  climb node i (sib ∷ proof) = climb (step node i sib) (i / 2) proof

  unfoldable pub verify : Bytes → ℕ → ℕ → List Bytes → Bytes → Bool
  verify leaf index size proof root =
      (ltb index size && (length proof == depth_for size)) && bytes_eq (climb leaf index proof) root

-- The leaf preimage that the settler supplies.
pub record LeafPreimage : Type 0 where
  pub trait_values : List ℕ
  pub salt : Bytes
  pub image_sha256 : Bytes
  pub json_sha256 : Bytes
  pub uri : Bytes

abbrev pub max_uri_len : ℕ
max_uri_len = 200

abbrev pub max_merkle_depth : ℕ
max_merkle_depth = 17

-- "ipfs://" and "ar://"
abbrev pub allowed_uri_prefixes : List Bytes
allowed_uri_prefixes =
    (b'i' ∷ b'p' ∷ b'f' ∷ b's' ∷ b':' ∷ b'/' ∷ b'/' ∷ [])
    ∷ (b'a' ∷ b'r' ∷ b':' ∷ b'/' ∷ b'/' ∷ [])
    ∷ []

-- `prefixes.iter().any(|p| uri.len() > p.len() && uri.starts_with(p))`
unfoldable pub any_prefix : List Bytes → Bytes → Bool
any_prefix [] uri = false
any_prefix (p ∷ ps) uri =
    (ltb (length p) (length uri) && bytes_eq (take (length p) uri) p) || any_prefix ps uri

unfoldable pub is_content_addressed : Bytes → Bool
is_content_addressed uri = any_prefix allowed_uri_prefixes uri

module _ (hashv : List Bytes → Bytes) where
  -- The leaf of a preimage, as `check_leaf` recomputes it.
  abbrev pub leaf_of : Bytes → Bytes → ℕ → LeafPreimage → Bytes
  leaf_of trait_schema_hash launch_config index leaf =
      leaf_hash hashv launch_config index (traits_hash hashv trait_schema_hash leaf.trait_values)
        (art_hash hashv leaf.salt leaf.image_sha256 leaf.json_sha256 leaf.uri)

  unfoldable pub check_leaf :
      Bytes → Bytes → Bytes → ℕ → ℕ → LeafPreimage → List Bytes → Outcome (Unit {0})
  check_leaf trait_root trait_schema_hash launch_config collection_size index leaf proof = do
    require (ltb index collection_size) index_out_of_range
    require (leb (length leaf.uri) max_uri_len) metadata_too_long
    require (is_content_addressed leaf.uri) uri_not_content_addressed
    require (leb (length proof) max_merkle_depth) invalid_merkle_proof
    require
        (verify hashv (leaf_of trait_schema_hash launch_config index leaf) index collection_size
          proof trait_root)
        invalid_merkle_proof
