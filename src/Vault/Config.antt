-- ===== src/Vault/Config.antt =====
-- programs/hybrid_vault/src/config.rs, with hybrid_launch/src/stable_layout.rs: the two readers of the
-- launch's configuration. The account's discriminator, which Anchor generates, is a parameter.
pub mod Exit
use launchpad.Prelude.{
  ℕ, ◌+◌, ◌^◌, Bool, true, ◌&&◌, ok, require, ok_or, ◌>>=◌, ◌>>◌, leb, ltb, ◌==◌, length, take,
  some, none, Option, if◌then◌else◌,
}
use launchpad.Bytes.{Bytes, slice, from_le_bytes, bytes_eq}
use launchpad.Vault.Error.{Outcome, fee_not_tier, unsupported_launch_config, collection_above_cap}
use launchpad.Launch.Fees.{is_exact_tier_fee}
use launchpad.Launch.State.{LaunchConfig}
use launchpad.Launch.Constants.{max_collection_size_cap}

abbrev pub lc_discriminator_len : ℕ
lc_discriminator_len = 8

abbrev pub lc_off_ratio_base : ℕ
lc_off_ratio_base = 157

abbrev pub lc_off_collection_size : ℕ
lc_off_collection_size = 165

abbrev pub lc_stable_prefix_len : ℕ
lc_stable_prefix_len = 221

abbrev pub supported_launch_config_version : ℕ
supported_launch_config_version = 4

pub record Econ : Type 0 where
  pub ratio_base : ℕ
  pub collection_size : ℕ
  pub stored_fee_lamports : ℕ
  pub ratio_whole_tokens : ℕ
  pub fee_recipient : Bytes

unfoldable pub request_fee : ℕ → ℕ → Outcome ℕ
request_fee stored ratio_whole_tokens = do
  require (is_exact_tier_fee stored ratio_whole_tokens) fee_not_tier
  ok stored

-- `u32::try_from(x)`
abbrev pub try_u32 : ℕ → Option ℕ
try_u32 x = if ltb x (2 ^ 32) then some x else none

-- `platform` is the platform's wallet of today, a constant of hybrid_launch that the handlers pass.
unfoldable pub econ : Bytes → LaunchConfig → Outcome Econ
econ platform_fee_recipient cfg = do
  require (cfg.version == supported_launch_config_version) unsupported_launch_config
  require (leb cfg.collection_size max_collection_size_cap) collection_above_cap
  collection_size ← ok_or (try_u32 cfg.collection_size) unsupported_launch_config
  require (ltb 0 collection_size && ltb 0 cfg.ratio_base) unsupported_launch_config
  ok (record {
    ratio_base = cfg.ratio_base;
    collection_size = collection_size;
    stored_fee_lamports = cfg.fee_lamports;
    ratio_whole_tokens = cfg.ratio_whole_tokens;
    fee_recipient = platform_fee_recipient;
  })

pub record ExitView : Type 0 where
  pub ratio_base : ℕ
  pub collection_size : ℕ

abbrev u64_at : Bytes → ℕ → ℕ
u64_at d o = from_le_bytes (slice d o 8)

unfoldable pub exit_view_in : Bytes → Bytes → Outcome ExitView
exit_view_in discriminator d = do
  require
      (leb lc_stable_prefix_len (length d) && bytes_eq (take lc_discriminator_len d) discriminator)
      unsupported_launch_config
  let ratio_base = u64_at d lc_off_ratio_base
  collection_size ← ok_or (try_u32 (u64_at d lc_off_collection_size)) unsupported_launch_config
  require (ltb 0 ratio_base && ltb 0 collection_size) unsupported_launch_config
  ok (record { ratio_base = ratio_base; collection_size = collection_size })
