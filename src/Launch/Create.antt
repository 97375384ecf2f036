-- ===== src/Launch/Create.antt =====
-- programs/hybrid_launch/src/instructions/launch.rs: the creation of a mint with a fixed supply.
pub mod Effect
use launchpad.Prelude.{
  ℕ, ◌+◌, ◌-◌, List, [], ◌∷◌, Bool, true, false, not, ◌&&◌, Option, none, some, ok, require, ok_or,
  ◌>>=◌, ◌>>◌, ltb, leb, ◌==◌, length, replicate, if◌then◌else◌,
}
use launchpad.Bytes.{Bytes, bytes_eq}
use launchpad.Launch.Constants.{
  core_asset_space_bytes, core_asset_rent_lamports, launch_config_version, platform_fee_recipient,
}
use launchpad.Launch.Error.{
  Outcome, fee_recipient_invalid, mint_cost_constant_stale, invalid_launch_destination,
  mint_account_in_use, post_launch_check_failed, fee_not_tier,
}
use launchpad.Launch.Fees.{is_exact_tier_fee}
use launchpad.Launch.Validation.{LaunchParams, DerivedAmounts, validate}
use launchpad.Launch.State.{LaunchConfig}
use launchpad.Launch.Chain.{LaunchRuntime, Mint, TokenAccount, invoke, constraint}

abbrev pub is_none {ℓ} : {A : Type ℓ} → Option A → Bool
is_none none = true
is_none (some a) = false

-- The keys of the accounts, and the bumps that Anchor found.
pub record Launch : Type 0 where
  pub creator : Bytes
  pub mint : Bytes
  pub mint_authority : Bytes
  pub launch_vault : Bytes
  pub launch_destination : Bytes
  pub fee_recipient : Bytes
  pub token_program : Bytes
  pub config_bump : ℕ
  pub mint_authority_bump : ℕ
  pub launch_vault_bump : ℕ

module _ {W : Type 0} (rt : LaunchRuntime W) where
  -- The checks that both ways of a launch begin with.
  unfoldable pub check_platform : W → Bytes → Outcome (Unit {0})
  check_platform w fee_recipient = do
    require (bytes_eq (rt.owner_of w fee_recipient) rt.system_program_id) fee_recipient_invalid
    require (not (rt.is_executable w fee_recipient) && length (rt.data_of w fee_recipient) == 0)
        fee_recipient_invalid
    require (leb (rt.minimum_balance w core_asset_space_bytes) core_asset_rent_lamports)
        mint_cost_constant_stale

  unfoldable pub top_up_account : W → Launch → ℕ → Outcome W
  top_up_account w a top_up =
      if ltb 0 top_up then invoke (rt.system_transfer w a.creator a.mint top_up) else ok w

  unfoldable pub create_mint_account : W → Launch → ℕ → Bytes → Outcome W
  create_mint_account w a space token_program_id =
      let rent_min = rt.minimum_balance w space in
      let current = rt.lamports_of w a.mint in
      if current == 0
      then invoke (rt.create_account w a.creator a.mint rent_min space token_program_id)
      else (require (bytes_eq (rt.owner_of w a.mint) rt.system_program_id) mint_account_in_use
          >> (require (length (rt.data_of w a.mint) == 0 && not (rt.is_executable w a.mint))
                mint_account_in_use
              >> (top_up_account w a (rent_min - current) >>= λ w1.
                  invoke (rt.allocate w1 a.mint space) >>= λ w2.
                  invoke (rt.assign w2 a.mint token_program_id))))

  -- The defensive post-conditions.
  unfoldable pub check_mint : W → Launch → LaunchParams → DerivedAmounts → Outcome (Unit {0})
  check_mint w a params amounts = do
    require (bytes_eq (rt.owner_of w a.mint) rt.spl_token_program_id) post_launch_check_failed
    mint ← invoke (rt.parse_mint (rt.data_of w a.mint))
    require
        ((((mint.supply == amounts.total_supply_base) && (mint.decimals == params.decimals))
            && is_none mint.mint_authority)
          && is_none mint.freeze_authority)
        post_launch_check_failed

  unfoldable pub check_destination : W → Launch → DerivedAmounts → Outcome (Unit {0})
  check_destination w a amounts = do
    require (bytes_eq (rt.owner_of w a.launch_destination) rt.spl_token_program_id)
        post_launch_check_failed
    d ← invoke (rt.parse_token_account (rt.data_of w a.launch_destination))
    require
        ((((bytes_eq d.owner a.launch_vault && bytes_eq d.mint a.mint)
              && (d.amount == amounts.total_supply_base))
            && is_none d.delegate)
          && is_none d.close_authority)
        post_launch_check_failed

  -- The supply is minted once, and the authority to mint is given up.
  unfoldable pub mint_supply : W → Launch → LaunchParams → DerivedAmounts → Outcome W
  mint_supply w a params amounts = do
    w1 ← create_mint_account w a rt.mint_space a.token_program
    w2 ← invoke (rt.initialize_mint2 w1 a.mint params.decimals a.mint_authority)
    w3 ← invoke (rt.create_associated w2 a.creator a.launch_destination a.launch_vault a.mint)
    w4 ←
        invoke
          (rt.mint_to w3 a.mint a.launch_destination a.mint_authority amounts.total_supply_base)
    invoke (rt.revoke_mint_authority w4 a.mint a.mint_authority)

  -- The configuration that is written, at a time.
  abbrev pub launch_config_of : Launch → LaunchParams → DerivedAmounts → W → LaunchConfig
  launch_config_of a params amounts w = record {
    version = launch_config_version;
    bump = a.config_bump;
    mint_authority_bump = a.mint_authority_bump;
    creator = a.creator;
    mint = a.mint;
    launch_destination = a.launch_destination;
    launch_vault = a.launch_vault;
    launch_vault_bump = a.launch_vault_bump;
    decimals = params.decimals;
    total_supply_base = amounts.total_supply_base;
    ratio_whole_tokens = params.ratio_whole_tokens;
    ratio_base = amounts.ratio_base;
    collection_size = params.collection_size;
    max_tokens_in_nft_form = amounts.max_tokens_in_nft_form;
    fee_lamports = amounts.fee_lamports;
    fee_recipient = platform_fee_recipient;
    graduation_threshold_lamports = params.graduation_threshold_lamports;
    graduation_slice_pct = amounts.graduation_slice_pct;
    launched_at = rt.unix_timestamp w;
    dbc_config = replicate 32 0;
    dbc_pool = replicate 32 0;
  }

  unfoldable pub handle_launch : Launch → LaunchParams → W → Outcome (LaunchConfig × W)
  handle_launch a params w = do
    require (bytes_eq a.fee_recipient platform_fee_recipient) fee_recipient_invalid
    constraint (bytes_eq a.token_program rt.spl_token_program_id)
    amounts ← validate params
    check_platform w a.fee_recipient
    require
        (bytes_eq a.launch_destination
          (rt.associated_token_address a.launch_vault a.mint a.token_program))
        invalid_launch_destination
    w1 ← mint_supply w a params amounts
    check_mint w1 a params amounts
    check_destination w1 a amounts
    require (is_exact_tier_fee amounts.fee_lamports params.ratio_whole_tokens) fee_not_tier
    ok (launch_config_of a params amounts w1, w1)
