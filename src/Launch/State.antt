-- ===== src/Launch/State.antt =====
-- programs/hybrid_launch/src/state.rs: the configuration of a launch, and its serialisation. Borsh
-- writes the fields in order, an integer in little endian and a `Pubkey` as its 32 bytes; the account
-- begins with Anchor's discriminator.
use launchpad.Prelude.{ℕ, ℤ, i64_bits, List, [], ◌∷◌, ◌++◌, concat}
use launchpad.Bytes.{Bytes, to_le_bytes}

pub record LaunchConfig : Type 0 where
  pub version : ℕ
  pub bump : ℕ
  pub mint_authority_bump : ℕ
  pub creator : Bytes
  pub mint : Bytes
  pub launch_destination : Bytes
  pub launch_vault : Bytes
  pub launch_vault_bump : ℕ
  pub decimals : ℕ
  pub total_supply_base : ℕ
  pub ratio_whole_tokens : ℕ
  pub ratio_base : ℕ
  pub collection_size : ℕ
  pub max_tokens_in_nft_form : ℕ
  pub fee_lamports : ℕ
  pub fee_recipient : Bytes
  pub graduation_threshold_lamports : ℕ
  pub graduation_slice_pct : ℕ
  pub launched_at : ℤ
  pub dbc_config : Bytes
  pub dbc_pool : Bytes

-- The bytes of each field, in the order of the struct.
unfoldable pub fields : LaunchConfig → List Bytes
fields c =
    to_le_bytes 1 c.version
    ∷ to_le_bytes 1 c.bump
    ∷ to_le_bytes 1 c.mint_authority_bump
    ∷ c.creator
    ∷ c.mint
    ∷ c.launch_destination
    ∷ c.launch_vault
    ∷ to_le_bytes 1 c.launch_vault_bump
    ∷ to_le_bytes 1 c.decimals
    ∷ to_le_bytes 8 c.total_supply_base
    ∷ to_le_bytes 8 c.ratio_whole_tokens
    ∷ to_le_bytes 8 c.ratio_base
    ∷ to_le_bytes 8 c.collection_size
    ∷ to_le_bytes 8 c.max_tokens_in_nft_form
    ∷ to_le_bytes 8 c.fee_lamports
    ∷ c.fee_recipient
    ∷ to_le_bytes 8 c.graduation_threshold_lamports
    ∷ to_le_bytes 1 c.graduation_slice_pct
    ∷ to_le_bytes 8 (i64_bits c.launched_at)
    ∷ c.dbc_config
    ∷ c.dbc_pool
    ∷ []

-- The data of the account: the discriminator, the fields, and those that a later version may append.
unfoldable pub account_data : Bytes → LaunchConfig → List Bytes → Bytes
account_data discriminator c later = discriminator ++ concat (fields c ++ later)
