-- ===== src/Launch/Constants.antt =====
-- programs/hybrid_launch/src/constants.rs and needs_barton.rs: the numbers of the protocol.
use launchpad.Prelude.{ℕ, List, [], ◌∷◌, Bool}
use launchpad.Bytes.{Bytes, has_key}

abbrev pub total_supply_whole_tokens : ℕ
total_supply_whole_tokens = 1_000_000_000

abbrev pub max_decimals : ℕ
max_decimals = 9

-- Whole tokens per NFT.
abbrev pub allowed_ratios : List ℕ
allowed_ratios = 50_000 ∷ 100_000 ∷ 200_000 ∷ 500_000 ∷ 1_000_000 ∷ 2_500_000 ∷ 5_000_000 ∷ []

abbrev pub min_collection_size : ℕ
min_collection_size = 100

abbrev pub max_collection_size_cap : ℕ
max_collection_size_cap = 10_000

abbrev pub launch_config_version : ℕ
launch_config_version = 4

-- (ratio in whole tokens, flat SOL fee in lamports)
abbrev pub fee_tiers : List (ℕ × ℕ)
fee_tiers =
    (50_000, 2_000_000)
    ∷ (100_000, 5_000_000)
    ∷ (200_000, 5_000_000)
    ∷ (500_000, 10_000_000)
    ∷ (1_000_000, 10_000_000)
    ∷ (2_500_000, 10_000_000)
    ∷ (5_000_000, 10_000_000)
    ∷ []

abbrev pub max_fee_lamports : ℕ
max_fee_lamports = 10_000_000

abbrev pub min_fee_lamports : ℕ
min_fee_lamports = 2_000_000

abbrev pub core_asset_rent_lamports : ℕ
core_asset_rent_lamports = 3_570_480

abbrev pub core_asset_space_bytes : ℕ
core_asset_space_bytes = 385

abbrev pub core_create_fee_lamports : ℕ
core_create_fee_lamports = 1_500_000

-- 10 SOL, the floor of every build but `devnet-e2e`.
abbrev pub min_graduation_threshold_lamports : ℕ
min_graduation_threshold_lamports = 10_000_000_000

abbrev pub max_graduation_threshold_lamports : ℕ
max_graduation_threshold_lamports = 100_000_000_000_000

-- The one fee recipient, 7J3AajxfajAMgGmmwzfZeYGNieRtHRCuEgNTfd4gTjDN in every build but `mainnet`.
abbrev pub platform_fee_recipient : Bytes
platform_fee_recipient =
    93 ∷ 131 ∷ 113 ∷ 138 ∷ 42 ∷ 81 ∷ 194 ∷ 154 ∷ 89 ∷ 59 ∷ 244 ∷ 178 ∷ 33 ∷ 140 ∷ 222 ∷ 112 ∷ 68
    ∷ 108 ∷ 83 ∷ 149 ∷ 111 ∷ 244 ∷ 115 ∷ 68 ∷ 78 ∷ 147 ∷ 17 ∷ 199 ∷ 46 ∷ 245 ∷ 193 ∷ 21 ∷ []

-- DuQYHUCToW6uHkWngXFiU4uGVSjcVKKCTJwViEb87Em9, in every build but `mainnet`.
abbrev pub approved_dbc_configs : List Bytes
approved_dbc_configs =
    (191 ∷ 185 ∷ 15 ∷ 173 ∷ 245 ∷ 55 ∷ 69 ∷ 30 ∷ 114 ∷ 152 ∷ 69 ∷ 146 ∷ 255 ∷ 189 ∷ 134 ∷ 221 ∷ 166
      ∷ 229 ∷ 250 ∷ 16 ∷ 197 ∷ 19 ∷ 129 ∷ 236 ∷ 223 ∷ 246 ∷ 83 ∷ 160 ∷ 183 ∷ 91 ∷ 104 ∷ 52 ∷ [])
    ∷ []

unfoldable pub is_approved_dbc_config : Bytes → Bool
is_approved_dbc_config k = has_key approved_dbc_configs k
