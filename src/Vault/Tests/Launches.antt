-- ===== src/Vault/Tests/Launches.antt =====
-- programs/hybrid_launch/src/instructions and hybrid_vault: a launch of each kind, and what the vault
-- program reads of it.
use launchpad.Prelude.{
  ℕ, ◌+◌, ◌≡◌, refl, pos, [], ◌∷◌, ◌++◌, false, some, none, ok, err, abort, replicate, get_or,
  contains, if◌then◌else◌,
}
use launchpad.Bytes.{Bytes, bytes_eq, from_le_bytes, has_key}
use launchpad.Launch.State.{LaunchConfig}
use launchpad.Launch.Constants.{
  platform_fee_recipient, approved_dbc_configs, is_approved_dbc_config,
}
use launchpad.Launch.Fees.{
  checked_fee_for_ratio, is_exact_tier_fee, fee_for_ratio, tier_fee_lamports,
}
use launchpad.Launch.Validation.{LaunchParams, check_graduation_threshold, validate}
use launchpad.Launch.Dbc.{
  dbc_config_discriminator, dbc_pool_discriminator, dbc_program_id, wrapped_sol_mint, load_config,
  load_pool, parse_config, parse_pool, graduated,
}
use launchpad.Launch.Chain.{LaunchRuntime, Mint}
use launchpad.Launch.Create.{
  Launch, check_platform, create_mint_account, top_up_account, mint_supply, check_mint,
  check_destination, launch_config_of, handle_launch,
}
use launchpad.Launch.Create.Effect.{Launched, handle_launch-Launched}
use launchpad.Launch.Register.{
  RegisterDbcLaunch, RegisterDbcParams, read_pool, read_config, check_dbc_config, check_dbc_mint,
  check_dbc_pool, handle_register_dbc_launch,
}
use launchpad.Launch.Register.Effect.{Registered, handle_register_dbc_launch-Registered}
use launchpad.Launch.Error.{Outcome}
use launchpad.Vault.Chain.{Runtime}
use launchpad.Vault.Release.{Ledger}
use launchpad.Vault.Opening.{OpenVault, handle_open_vault}
use launchpad.Vault.FromLaunch.{Accepts, handle_launch-vault, handle_register_dbc_launch-vault}

abbrev sample_params : LaunchParams
sample_params = record {
  decimals = 6;
  ratio_whole_tokens = 500_000;
  collection_size = 1_000;
  graduation_threshold_lamports = 20_000_000_000;
}

abbrev sample_mint : Mint
sample_mint = record {
  supply = 1_000_000_000_000_000;
  decimals = 6;
  mint_authority = none;
  freeze_authority = none;
}

-- The state counts the calls.
abbrev launch_runtime : LaunchRuntime ℕ
launch_runtime = record {
  unix_timestamp = λ w. pos 5_000;
  minimum_balance = λ w size. 3_570_480;
  owner_of = λ w k. [];
  data_of = λ w k. [];
  is_executable = λ w k. false;
  lamports_of = λ w k. 0;
  system_program_id = [];
  spl_token_program_id = [];
  associated_token_address = λ owner mint program. replicate 32 40;
  buffer_authority = replicate 32 41;
  mint_space = 82;
  parse_mint = λ d. some sample_mint;
  parse_token_account = λ d. some (record {
    owner = replicate 32 42;
    mint = replicate 32 2;
    amount = 1_000_000_000_000_000;
    delegate = none;
    close_authority = none;
  });
  create_account = λ w from to lamports space owner. some (w + 1);
  system_transfer = λ w from to lamports. some (w + 1);
  allocate = λ w account space. some (w + 1);
  assign = λ w account owner. some (w + 1);
  initialize_mint2 = λ w mint decimals authority. some (w + 1);
  create_associated = λ w payer address owner mint. some (w + 1);
  create_associated_idempotent = λ w payer address owner mint. some (w + 1);
  mint_to = λ w mint to authority amount. some (w + 1);
  revoke_mint_authority = λ w mint authority. some (w + 1);
}

abbrev sample_launch : Launch
sample_launch = record {
  creator = replicate 32 3;
  mint = replicate 32 2;
  mint_authority = replicate 32 43;
  launch_vault = replicate 32 42;
  launch_destination = replicate 32 40;
  fee_recipient = platform_fee_recipient;
  token_program = [];
  config_bump = 255;
  mint_authority_bump = 254;
  launch_vault_bump = 253;
}

abbrev result_or : Outcome (LaunchConfig × ℕ) → LaunchConfig × ℕ → LaunchConfig × ℕ
result_or (ok s) d = s
result_or (err e) d = d
result_or abort d = d

abbrev nothing_launched : LaunchConfig × ℕ
nothing_launched = (
  launch_config_of launch_runtime sample_launch sample_params
      (record {
        total_supply_base = 0;
        ratio_base = 0;
        max_tokens_in_nft_form = 0;
        fee_lamports = 0;
        graduation_slice_pct = 0;
      })
      0,
  0,
)

abbrev launched : LaunchConfig × ℕ
launched = result_or (handle_launch launch_runtime sample_launch sample_params 0) nothing_launched

launches : handle_launch launch_runtime sample_launch sample_params 0 ≡ ok launched
unfolding handle_launch validate contains check_graduation_threshold check_platform mint_supply
    create_mint_account top_up_account check_mint check_destination checked_fee_for_ratio
    is_exact_tier_fee fee_for_ratio tier_fee_lamports bytes_eq
launches = refl

handle_launch-Launched_example :
    Launched launch_runtime sample_launch sample_params launched.0 launched.1
handle_launch-Launched_example =
    handle_launch-Launched launch_runtime sample_launch sample_params 0 launched launches

handle_launch-vault_example :
    ((fee : ℕ) × Accepts (replicate 32 15) launched.0 sample_params fee)
    × ((rt : Runtime ℕ) (o : OpenVault) (s s' : Ledger ℕ)
        → o.config ≡ launched.0
        → handle_open_vault rt o s ≡ ok s'
        → ⊥)
handle_launch-vault_example =
    handle_launch-vault launch_runtime sample_launch sample_params 0 launched launches
      (replicate 32 15)

abbrev approved : Bytes
approved = get_or approved_dbc_configs 0 []

-- A configuration of the curve for the same launch, and a pool under it.
abbrev config_bytes : Bytes
config_bytes =
    dbc_config_discriminator
    ++ (wrapped_sol_mint
        ++ (replicate 32 0
            ++ (replicate 32 41
                ++ (replicate 131 0
                    ++ ((6 ∷ 0 ∷ 0 ∷ 0 ∷ 0 ∷ 0 ∷ 0 ∷ 0 ∷ 0 ∷ 1 ∷ 0 ∷ 1 ∷ [])
                        ++ (replicate 17 0
                            ++ ((0 ∷ 200 ∷ 23 ∷ 168 ∷ 4 ∷ 0 ∷ 0 ∷ 0 ∷ [])
                                ++ (replicate 72 0
                                    ++ ((0 ∷ 128 ∷ 198 ∷ 164 ∷ 126 ∷ 141 ∷ 3 ∷ 0 ∷ [])
                                        ++ ((0 ∷ 128 ∷ 198 ∷ 164 ∷ 126 ∷ 141 ∷ 3 ∷ 0 ∷ [])
                                            ++ replicate 688 0))))))))))

abbrev pool_bytes : Bytes
pool_bytes =
    dbc_pool_discriminator
    ++ (replicate 64 0
        ++ (approved
            ++ (replicate 32 3 ++ (replicate 32 2 ++ (replicate 32 44 ++ replicate 224 0)))))

abbrev curve_runtime : LaunchRuntime ℕ
curve_runtime = record launch_runtime {
  owner_of = λ w k. if bytes_eq k platform_fee_recipient then [] else dbc_program_id;
  data_of = λ w k.
      if bytes_eq k approved
      then config_bytes
      else if bytes_eq k (replicate 32 45)
      then pool_bytes
      else [];
}

abbrev sample_register : RegisterDbcLaunch
sample_register = record {
  creator = replicate 32 3;
  mint_key = replicate 32 2;
  mint = sample_mint;
  dbc_config = approved;
  dbc_pool = replicate 32 45;
  buffer_authority = replicate 32 41;
  buffer_tokens = replicate 32 40;
  fee_recipient = platform_fee_recipient;
  token_program = [];
  config_bump = 255;
}

abbrev register_params : RegisterDbcParams
register_params = record { ratio_whole_tokens = 500_000; collection_size = 1_000 }

abbrev registered : LaunchConfig × ℕ
registered =
    result_or (handle_register_dbc_launch curve_runtime sample_register register_params 0)
      nothing_launched

registers :
    handle_register_dbc_launch curve_runtime sample_register register_params 0 ≡ ok registered
unfolding handle_register_dbc_launch validate contains check_graduation_threshold check_platform
    is_approved_dbc_config read_pool read_config load_pool load_config parse_pool parse_config
    graduated check_dbc_pool check_dbc_config check_dbc_mint checked_fee_for_ratio is_exact_tier_fee
    fee_for_ratio tier_fee_lamports has_key bytes_eq from_le_bytes
registers = refl

handle_register_dbc_launch-Registered_example :
    Registered curve_runtime sample_register register_params 0 registered.0 registered.1
handle_register_dbc_launch-Registered_example =
    handle_register_dbc_launch-Registered curve_runtime sample_register register_params 0 registered
      registers

handle_register_dbc_launch-vault_example :
    (p : LaunchParams) × (fee : ℕ) × (p.ratio_whole_tokens ≡ 500_000)
    × (p.collection_size ≡ 1_000)
    × (p.decimals ≡ 6)
    × Accepts (replicate 32 15) registered.0 p fee
handle_register_dbc_launch-vault_example =
    handle_register_dbc_launch-vault curve_runtime sample_register register_params 0 registered
      registers (replicate 32 15)
