-- ===== src/Launch/Error.antt =====
-- programs/hybrid_launch/src/error.rs: the program's errors, in the order of their codes.
use launchpad.Prelude.{Result}

pub data LaunchError : Type 0 where
  invalid_decimals : LaunchError
  ratio_not_allowed : LaunchError
  zero_collection_size : LaunchError
  collection_too_large_for_supply : LaunchError
  reserved_fee_above_cap : LaunchError
  reserved_capture_fee_below_reroll_fee : LaunchError
  reserved_fee_destination_not_burn : LaunchError
  invalid_launch_destination : LaunchError
  math_overflow : LaunchError
  post_launch_check_failed : LaunchError
  collection_below_minimum : LaunchError
  mint_account_in_use : LaunchError
  sol_fee_out_of_range : LaunchError
  collection_above_cap : LaunchError
  graduation_threshold_out_of_range : LaunchError
  reserved_graduation_unfundable : LaunchError
  mint_cost_constant_stale : LaunchError
  fee_recipient_invalid : LaunchError
  dbc_account_invalid : LaunchError
  dbc_config_rejected : LaunchError
  dbc_mint_rejected : LaunchError
  dbc_creator_mismatch : LaunchError
  dbc_already_graduated : LaunchError
  dbc_config_not_approved : LaunchError
  fee_not_tier : LaunchError

-- What an instruction returns.
abbrev pub Outcome {ℓ} : Type ℓ → Type ℓ
Outcome A = Result LaunchError A
