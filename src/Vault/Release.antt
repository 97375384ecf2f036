-- ===== src/Vault/Release.antt =====
-- programs/hybrid_vault/src/instructions/unwrap.rs: the release of an asset for its tokens.
pub mod Effect
use launchpad.Prelude.{
  ℕ, ◌+◌, Bool, not, ◌&&◌, Result, ok, require, ok_or, ◌>>=◌, ◌>>◌, ltb, checked_add, checked_sub,
}
use launchpad.Bytes.{Bytes, bytes_eq}
use launchpad.Vault.Error.{
  Outcome, index_out_of_range, unsupported_launch_config, math_overflow, asset_accounting_broken,
  mint_mismatch, aliased_token_account,
}
use launchpad.Vault.State.{Vault}
use launchpad.Vault.Pool.{PoolView, load, incoming_push}
use launchpad.Vault.Config.{ExitView, exit_view_in}
use launchpad.Vault.Invariants.{check}
use launchpad.Vault.Chain.{Runtime, constraint}
use launchpad.Vault.Accounts.{check_vault, check_vault_authority, check_vault_tokens}
use launchpad.Vault.Assets.{take_back, pay_out, asset_address}

-- What an instruction of the vault program changes: the vault account, the bytes of its pool account,
-- and everything outside the program.
pub record Ledger (W : Type 0) : Type 0 where
  pub vault : Vault
  pub pool : Bytes
  pub world : W

-- The keys of the accounts that the instruction names.
pub record Unwrap : Type 0 where
  pub user : Bytes
  pub vault_key : Bytes
  pub launch_config : Bytes
  pub pool_key : Bytes
  pub mint : Bytes
  pub vault_authority : Bytes
  pub vault_tokens : Bytes
  pub user_token : Bytes
  pub asset : Bytes
  pub collection : Bytes
  pub mpl_core_program : Bytes

-- The counters of `handle_unwrap`.
unfoldable pub count_unwrap : Vault → Outcome Vault
count_unwrap v = do
  out ← ok_or (checked_sub v.assets_outside 1) asset_accounting_broken
  unwraps ← ok_or (checked_add 64 v.total_unwraps 1) math_overflow
  ok (record v { assets_outside = out; total_unwraps = unwraps })

module _ {W : Type 0} (rt : Runtime W) where
  -- `config::exit_view`
  unfoldable pub exit_view : W → Bytes → Outcome ExitView
  exit_view w acc = do
    require (bytes_eq (rt.owner_of w acc) rt.hybrid_launch_id) unsupported_launch_config
    exit_view_in rt.launch_config_discriminator (rt.data_of w acc)

  -- The constraints of `Unwrap` on the accounts it can name freely; the vault, its authority and its
  -- token account are at addresses that the bumps stored in the vault fix.
  unfoldable pub unwrap_constraints : Unwrap → Ledger W → ℕ → Outcome (Unit {0})
  unwrap_constraints a s index = do
    check_vault rt s.world a.vault_key a.launch_config a.pool_key s.vault
    require (bytes_eq a.mint s.vault.mint) mint_mismatch
    check_vault_authority rt a.vault_key a.vault_authority s.vault
    check_vault_tokens rt a.vault_key a.vault_tokens s.vault
    constraint (bytes_eq (rt.token_mint s.world a.user_token) a.mint)
    constraint (bytes_eq (rt.token_authority s.world a.user_token) a.user)
    require (not (bytes_eq a.user_token s.vault.vault_tokens)) aliased_token_account
    constraint (bytes_eq a.asset (asset_address rt a.vault_key index))
    constraint (bytes_eq a.collection s.vault.collection)
    constraint (bytes_eq a.mpl_core_program rt.mpl_core_id)

  -- The part of the handler on the program's own accounts, after the two transfers.
  unfoldable pub finish_unwrap : Unwrap → Vault → Bytes → W → ExitView → ℕ → Outcome (Ledger W)
  finish_unwrap a vault pool w econ index = do
    view ← load pool a.vault_key
    pushed ← incoming_push view index vault.next_seq
    v ← count_unwrap vault
    again ← load pushed.d a.vault_key
    check v econ.ratio_base econ.collection_size again (rt.token_amount w a.vault_tokens)
    ok (record { vault = v; pool = again.d; world = w })

  unfoldable pub handle_unwrap : Unwrap → Ledger W → ℕ → Outcome (Ledger W)
  handle_unwrap a s index = do
    unwrap_constraints a s index
    econ ← exit_view s.world a.launch_config
    require (ltb index econ.collection_size) index_out_of_range
    w1 ← take_back rt s.world a.mpl_core_program a.asset a.collection a.user a.vault_authority
    w2 ← pay_out rt w1 a.vault_tokens a.user_token a.vault_authority econ.ratio_base
    finish_unwrap a s.vault s.pool w2 econ index
