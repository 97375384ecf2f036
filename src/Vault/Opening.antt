-- ===== src/Vault/Opening.antt =====
-- programs/hybrid_vault/src/graduation.rs (the build without the test verifier) and
-- instructions/open_vault.rs: the one-way opening of a vault.
pub mod Graduated
use launchpad.Prelude.{
  ℕ, List, [], ◌∷◌, Bool, true, not, ◌&&◌, Option, replicate, ok, require, ok_or, ◌>>=◌, ◌>>◌, ◌==◌,
}
use launchpad.Bytes.{Bytes, bytes_eq}
use launchpad.Launch.State.{LaunchConfig}
use launchpad.Launch.Dbc.{dbc_program_id, DbcPool, load_pool, graduated}
use launchpad.Launch.Constants.{platform_fee_recipient}
use launchpad.Vault.Error.{
  Outcome, graduation_check_unavailable, graduation_not_verified, vault_already_open,
  asset_state_mismatch, asset_accounting_broken, invalid_pool_account,
}
use launchpad.Vault.Config.{Econ, econ}
use launchpad.Vault.Invariants.{check}
use launchpad.Vault.Pool.{PoolView, load, capacity}
use launchpad.Vault.Accounts.{vault_authority_seed, check_vault, check_vault_tokens}
use launchpad.Vault.Chain.{Runtime, constraint}
use launchpad.Vault.Release.{Ledger}

-- `Pubkey::default()`
abbrev pub default_key : Bytes
default_key = replicate 32 0

-- What the instruction reads of mpl_core's `BaseCollectionV1`.
pub record BaseCollection : Type 0 where
  pub update_authority : Bytes
  pub num_minted : ℕ
  pub current_size : ℕ

-- The keys of the accounts, with the deserialised configuration, and what is not in the sources: the
-- curve program's id, the platform's wallet, the collection's parser and the authority's address.
pub record OpenVault : Type 0 where
  pub vault_key : Bytes
  pub launch_config : Bytes
  pub config : LaunchConfig
  pub pool_key : Bytes
  pub vault_tokens : Bytes
  pub collection : Bytes
  pub graduation_proof : Bytes
  pub parse_collection : Bytes → Option BaseCollection

module _ {W : Type 0} (rt : Runtime W) where
  unfoldable pub verify_dbc : W → OpenVault → Outcome (Unit {0})
  verify_dbc w a = do
    require (not (bytes_eq a.config.dbc_pool default_key)) graduation_check_unavailable
    require (bytes_eq a.graduation_proof a.config.dbc_pool) graduation_not_verified
    pool ←
        ok_or
          (load_pool dbc_program_id (rt.owner_of w a.graduation_proof)
            (rt.data_of w a.graduation_proof))
          graduation_not_verified
    require (bytes_eq pool.base_mint a.config.mint) graduation_not_verified
    require (bytes_eq pool.config a.config.dbc_config) graduation_not_verified
    require (graduated pool) graduation_not_verified

  -- The collection is the vault's, and Core agrees with the number of minted assets.
  unfoldable pub check_collection : Ledger W → OpenVault → Outcome (Unit {0})
  check_collection s a = do
    require (bytes_eq (rt.owner_of s.world a.collection) rt.mpl_core_id) asset_state_mismatch
    col ← ok_or (a.parse_collection (rt.data_of s.world a.collection)) asset_state_mismatch
    let va = rt.find_program_address (vault_authority_seed ∷ a.vault_key ∷ [])
    require (bytes_eq col.update_authority va) asset_state_mismatch
    require ((col.num_minted == s.vault.minted_count) && (col.current_size == s.vault.minted_count))
        asset_accounting_broken

  unfoldable pub handle_open_vault : OpenVault → Ledger W → Outcome (Ledger W)
  handle_open_vault a s = do
    check_vault rt s.world a.vault_key a.launch_config a.pool_key s.vault
    check_vault_tokens rt a.vault_key a.vault_tokens s.vault
    constraint (bytes_eq a.collection s.vault.collection)
    e ← econ platform_fee_recipient a.config
    require (not s.vault.is_open) vault_already_open
    check_collection s a
    verify_dbc s.world a
    let v = record s.vault { is_open = true; opened_at_slot = rt.slot s.world }
    view ← load s.pool a.vault_key
    require (capacity view == e.collection_size) invalid_pool_account
    check v e.ratio_base e.collection_size view (rt.token_amount s.world a.vault_tokens)
    ok (record s { vault = v })
