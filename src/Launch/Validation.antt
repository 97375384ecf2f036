-- ===== src/Launch/Validation.antt =====
-- programs/hybrid_launch/src/validation.rs: the check of a launch's parameters, and the amounts that
-- follow from them.
pub mod Accepts
use launchpad.Prelude.{
  ℕ, ◌+◌, ◌*◌, ◌/◌, ◌%◌, ◌^◌, Bool, ◌&&◌, Option, none, some, min, ok, require, ok_or, ◌>>=◌, ◌>>◌,
  leb, ◌==◌, if◌then◌else◌, checked_mul, checked_pow, contains,
}
use launchpad.Launch.Constants.{
  total_supply_whole_tokens, max_decimals, allowed_ratios, min_collection_size,
  max_collection_size_cap, min_graduation_threshold_lamports, max_graduation_threshold_lamports,
}
use launchpad.Launch.Error.{
  Outcome, graduation_threshold_out_of_range, invalid_decimals, ratio_not_allowed,
  zero_collection_size, collection_below_minimum, collection_above_cap, math_overflow,
  collection_too_large_for_supply,
}
use launchpad.Launch.Fees.{checked_fee_for_ratio}

-- Creator-chosen launch parameters.
pub record LaunchParams : Type 0 where
  pub decimals : ℕ
  pub ratio_whole_tokens : ℕ
  pub collection_size : ℕ
  pub graduation_threshold_lamports : ℕ

-- Values derived from validated params.
pub record DerivedAmounts : Type 0 where
  pub total_supply_base : ℕ
  pub ratio_base : ℕ
  pub max_tokens_in_nft_form : ℕ
  pub fee_lamports : ℕ
  pub graduation_slice_pct : ℕ

unfoldable pub check_graduation_threshold : ℕ → Outcome (Unit {0})
check_graduation_threshold threshold_lamports =
    require
      (leb min_graduation_threshold_lamports threshold_lamports
        && leb threshold_lamports max_graduation_threshold_lamports)
      graduation_threshold_out_of_range

unfoldable pub validate : LaunchParams → Outcome DerivedAmounts
unfolding check_graduation_threshold
validate p = do
  require (leb p.decimals max_decimals) invalid_decimals
  require (contains allowed_ratios p.ratio_whole_tokens) ratio_not_allowed
  require (leb 1 p.collection_size) zero_collection_size
  require (leb min_collection_size p.collection_size) collection_below_minimum
  require (leb p.collection_size max_collection_size_cap) collection_above_cap
  fee ← checked_fee_for_ratio p.ratio_whole_tokens
  check_graduation_threshold p.graduation_threshold_lamports
  scale ← ok_or (checked_pow 64 10 p.decimals) math_overflow
  total ← ok_or (checked_mul 64 total_supply_whole_tokens scale) math_overflow
  base ← ok_or (checked_mul 64 p.ratio_whole_tokens scale) math_overflow
  require (total % base == 0) ratio_not_allowed
  most ← ok_or (checked_mul 64 p.collection_size base) collection_too_large_for_supply
  require (leb most total) collection_too_large_for_supply
  ok (record {
    total_supply_base = total;
    ratio_base = base;
    max_tokens_in_nft_form = most;
    fee_lamports = fee;
    graduation_slice_pct = 0;
  })

-- Largest allowed collection size for a ratio.
unfoldable pub max_collection_size : ℕ → Option ℕ
unfolding contains
max_collection_size ratio_whole_tokens =
    if contains allowed_ratios ratio_whole_tokens
    then some (min (total_supply_whole_tokens / ratio_whole_tokens) max_collection_size_cap)
    else none
