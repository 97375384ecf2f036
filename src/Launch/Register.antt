-- ===== src/Launch/Register.antt =====
-- programs/hybrid_launch/src/instructions/register_dbc.rs: the registration of a mint that a bonding curve
-- has created.
pub mod Effect
use launchpad.Prelude.{
  ℕ, List, [], ◌∷◌, Bool, true, false, not, ◌&&◌, Option, none, some, ok, require, ok_or, ◌>>=◌,
  ◌>>◌, ◌==◌,
}
use launchpad.Bytes.{Bytes, bytes_eq}
use launchpad.Launch.Constants.{
  launch_config_version, platform_fee_recipient, is_approved_dbc_config,
}
use launchpad.Launch.Error.{
  Outcome, fee_recipient_invalid, dbc_config_not_approved, dbc_account_invalid,
  dbc_creator_mismatch, dbc_already_graduated, dbc_config_rejected, dbc_mint_rejected, fee_not_tier,
}
use launchpad.Launch.Fees.{is_exact_tier_fee}
use launchpad.Launch.Validation.{LaunchParams, DerivedAmounts, validate}
use launchpad.Launch.State.{LaunchConfig}
use launchpad.Launch.Dbc.{
  DbcConfig, DbcPool, load_config, load_pool, graduated, dbc_program_id, dbc_pool_authority,
  wrapped_sol_mint, dbc_token_type_spl, dbc_token_authority_immutable,
}
use launchpad.Launch.Chain.{LaunchRuntime, Mint, invoke, constraint}
use launchpad.Launch.Create.{is_none, check_platform}

pub record RegisterDbcParams : Type 0 where
  pub ratio_whole_tokens : ℕ
  pub collection_size : ℕ

-- The keys of the accounts, with the deserialised mint, and the bump that Anchor found.
pub record RegisterDbcLaunch : Type 0 where
  pub creator : Bytes
  pub mint_key : Bytes
  pub mint : Mint
  pub dbc_config : Bytes
  pub dbc_pool : Bytes
  pub buffer_authority : Bytes
  pub buffer_tokens : Bytes
  pub fee_recipient : Bytes
  pub token_program : Bytes
  pub config_bump : ℕ

-- The launch's parameters: the decimals are the mint's, and the threshold is the curve's.
abbrev pub launch_params : Mint → RegisterDbcParams → DbcConfig → LaunchParams
launch_params mint params cfg = record {
  decimals = mint.decimals;
  ratio_whole_tokens = params.ratio_whole_tokens;
  collection_size = params.collection_size;
  graduation_threshold_lamports = cfg.migration_quote_threshold;
}

unfoldable pub check_dbc_config : DbcConfig → Mint → DerivedAmounts → Bytes → Outcome (Unit {0})
check_dbc_config cfg mint amounts buffer =
    require
      (((((((bytes_eq cfg.quote_mint wrapped_sol_mint && (cfg.token_type == dbc_token_type_spl))
                  && (cfg.token_decimal == mint.decimals))
                && cfg.fixed_token_supply)
              && (cfg.pre_migration_token_supply == amounts.total_supply_base))
            && (cfg.post_migration_token_supply == amounts.total_supply_base))
          && (cfg.token_update_authority == dbc_token_authority_immutable))
        && bytes_eq cfg.leftover_receiver buffer)
      dbc_config_rejected

unfoldable pub check_dbc_mint : Mint → DerivedAmounts → Outcome (Unit {0})
check_dbc_mint mint amounts =
    require
      ((is_none mint.mint_authority && is_none mint.freeze_authority)
        && (mint.supply == amounts.total_supply_base))
      dbc_mint_rejected

-- The pool belongs to the mint, to the approved configuration and to the creator, and is before its
-- migration.
unfoldable pub check_dbc_pool : DbcPool → RegisterDbcLaunch → Outcome (Unit {0})
check_dbc_pool pool a = do
  require (bytes_eq pool.base_mint a.mint_key) dbc_account_invalid
  require (bytes_eq pool.config a.dbc_config) dbc_account_invalid
  require (pool.pool_type == dbc_token_type_spl) dbc_account_invalid
  require (bytes_eq pool.creator a.creator) dbc_creator_mismatch
  require (not pool.is_migrated && not (graduated pool)) dbc_already_graduated

module _ {W : Type 0} (rt : LaunchRuntime W) where
  abbrev pub registered_config_of :
      RegisterDbcLaunch
      → RegisterDbcParams
      → DbcPool
      → DbcConfig
      → DerivedAmounts
      → W
      → LaunchConfig
  registered_config_of a params pool cfg amounts w = record {
    version = launch_config_version;
    bump = a.config_bump;
    mint_authority_bump = 0;
    creator = a.creator;
    mint = a.mint_key;
    launch_destination = pool.base_vault;
    launch_vault = dbc_pool_authority;
    launch_vault_bump = 0;
    decimals = a.mint.decimals;
    total_supply_base = amounts.total_supply_base;
    ratio_whole_tokens = params.ratio_whole_tokens;
    ratio_base = amounts.ratio_base;
    collection_size = params.collection_size;
    max_tokens_in_nft_form = amounts.max_tokens_in_nft_form;
    fee_lamports = amounts.fee_lamports;
    fee_recipient = platform_fee_recipient;
    graduation_threshold_lamports = cfg.migration_quote_threshold;
    graduation_slice_pct = amounts.graduation_slice_pct;
    launched_at = rt.unix_timestamp w;
    dbc_config = a.dbc_config;
    dbc_pool = a.dbc_pool;
  }

  -- The account of the curve, and its configuration's.
  unfoldable pub read_pool : W → Bytes → Outcome DbcPool
  read_pool w acc =
      ok_or (load_pool dbc_program_id (rt.owner_of w acc) (rt.data_of w acc)) dbc_account_invalid

  unfoldable pub read_config : W → Bytes → Outcome DbcConfig
  read_config w acc =
      ok_or (load_config dbc_program_id (rt.owner_of w acc) (rt.data_of w acc)) dbc_account_invalid

  unfoldable pub handle_register_dbc_launch :
      RegisterDbcLaunch → RegisterDbcParams → W → Outcome (LaunchConfig × W)
  handle_register_dbc_launch a params w = do
    require (bytes_eq a.fee_recipient platform_fee_recipient) fee_recipient_invalid
    constraint (bytes_eq a.token_program rt.spl_token_program_id)
    check_platform rt w a.fee_recipient
    require (is_approved_dbc_config a.dbc_config) dbc_config_not_approved
    pool ← read_pool w a.dbc_pool
    cfg ← read_config w a.dbc_config
    check_dbc_pool pool a
    amounts ← validate (launch_params a.mint params cfg)
    require (bytes_eq rt.buffer_authority a.buffer_authority) dbc_config_rejected
    check_dbc_config cfg a.mint amounts rt.buffer_authority
    check_dbc_mint a.mint amounts
    require
        (bytes_eq a.buffer_tokens
          (rt.associated_token_address rt.buffer_authority a.mint_key a.token_program))
        dbc_config_rejected
    w1 ←
        invoke (
          rt.create_associated_idempotent w a.creator a.buffer_tokens a.buffer_authority a.mint_key)
    require (is_exact_tier_fee amounts.fee_lamports params.ratio_whole_tokens) fee_not_tier
    ok (registered_config_of a params pool cfg amounts w1, w1)
