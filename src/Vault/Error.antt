-- ===== src/Vault/Error.antt =====
-- programs/hybrid_vault/src/error.rs: the program's errors, in the order of their codes.
use launchpad.Prelude.{Result}

pub data VaultError : Type 0 where
  not_creator : VaultError
  invalid_pool_account : VaultError
  pool_mismatch : VaultError
  metadata_too_long : VaultError
  index_out_of_range : VaultError
  invalid_merkle_proof : VaultError
  reserved_asset_already_deposited : VaultError
  reserved_vault_sealed : VaultError
  reserved_vault_not_sealed : VaultError
  reserved_paused : VaultError
  no_asset_available : VaultError
  aliased_token_account : VaultError
  invalid_randomness_account : VaultError
  randomness_not_fresh : VaultError
  randomness_mismatch : VaultError
  randomness_not_revealed : VaultError
  randomness_already_revealed : VaultError
  out_of_order : VaultError
  wrong_request_kind : VaultError
  merge_backlog : VaultError
  wrong_asset : VaultError
  deadline_not_reached : VaultError
  reserved_missing_asset : VaultError
  asset_state_mismatch : VaultError
  reserved_not_guardian : VaultError
  reserved_invalid_pause_duration : VaultError
  reserved_pause_not_allowed : VaultError
  insolvent_vault : VaultError
  reserved_fee_escrow_short : VaultError
  asset_accounting_broken : VaultError
  reserved_fee_destination_not_burn : VaultError
  math_overflow : VaultError
  uri_not_content_addressed : VaultError
  vault_not_open : VaultError
  vault_already_open : VaultError
  reserved_collection_not_fully_minted : VaultError
  graduation_not_verified : VaultError
  graduation_check_unavailable : VaultError
  randomness_authority_mismatch : VaultError
  wrong_queue : VaultError
  oracle_reused : VaultError
  recommits_exhausted : VaultError
  recommits_remaining : VaultError
  expiry_not_reached : VaultError
  unsupported_launch_config : VaultError
  mint_mismatch : VaultError
  fee_recipient_mismatch : VaultError
  fee_recipient_not_platform : VaultError
  fee_above_hard_cap : VaultError
  reserved_nothing_to_sweep : VaultError
  wrong_oracle : VaultError
  no_fresh_oracle : VaultError
  reserved_graduation_fund_shortfall : VaultError
  oracle_stale : VaultError
  collection_above_cap : VaultError
  mint_args_missing : VaultError
  mint_escrow_short : VaultError
  already_minted : VaultError
  mint_cost_constant_stale : VaultError
  expire_batch_invalid : VaultError
  expire_batch_account_mismatch : VaultError
  fee_not_tier : VaultError

-- What an instruction returns.
abbrev pub Outcome {ℓ} : Type ℓ → Type ℓ
Outcome A = Result VaultError A
