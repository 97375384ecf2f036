-- ===== src/Launch/Tests.antt =====
-- programs/hybrid_launch/src: a launch on which the theorems about the parameters are tried.
use launchpad.Prelude.{ℕ, ◌≡◌, ◌↔◌, true, some, ok}
use launchpad.Launch.Fees.{is_exact_tier_fee, is_exact_tier_fee_iff, fee_for_ratio}
use launchpad.Launch.Validation.{LaunchParams, validate}
use launchpad.Launch.Validation.Accepts.{Acceptable, amounts_of, validate_iff}

is_exact_tier_fee_iff_example :
    (is_exact_tier_fee 10_000_000 500_000 ≡ true) ↔ (fee_for_ratio 500_000 ≡ some 10_000_000)
is_exact_tier_fee_iff_example = is_exact_tier_fee_iff 10_000_000 500_000

abbrev sample_params : LaunchParams
sample_params = record {
  decimals = 6;
  ratio_whole_tokens = 500_000;
  collection_size = 1_000;
  graduation_threshold_lamports = 20_000_000_000;
}

validate_iff_example : (validate sample_params ≡ ok (amounts_of sample_params 10_000_000)) ↔ (
    Acceptable sample_params
    × ((f : ℕ) × (fee_for_ratio 500_000 ≡ some f)
        × (amounts_of sample_params 10_000_000 ≡ amounts_of sample_params f)))
validate_iff_example = validate_iff sample_params (amounts_of sample_params 10_000_000)
