-- ===== src/Vault/Tests/Life.antt =====
-- programs/hybrid_vault/src: the life of a vault tried on a collection of three.
use launchpad.Prelude.{
  ℕ, ◌+◌, ◌^◌, ◌≤◌, ◌<◌, ◌≡◌, refl, sym, subst, ◌∙◌, List, [], ◌∷◌, true, false, some, ok,
  replicate, ltb, if◌then◌else◌, length, ok-injective, arith,
}
use launchpad.Bytes.{bytes_eq, from_le_bytes, to_le_bytes, splice}
use launchpad.Vault.State.{Request}
use launchpad.Launch.State.{LaunchConfig}
use launchpad.Vault.Config.{ExitView, exit_view_in, econ}
use launchpad.Vault.Chain.{Runtime}
use launchpad.Vault.Pool.{
  PoolView, pool_account_size, init, load, merge, merge_loop, pool_len, incoming_len, incoming_head,
  incoming_front_tag,
}
use launchpad.Vault.Pool.Words.{rd_u32, wr_u32}
use launchpad.Vault.Pool.View.{incoming}
use launchpad.Vault.Pool.Merge.{Merged, eligible, left_waiting}
use launchpad.Vault.Assets.{pay_out, refund_escrow, drain_prefunded_pda, create_collection}
use launchpad.Vault.Merkle.{is_content_addressed, any_prefix}
use launchpad.Vault.Invariants.{Holds, check, check_accounting, required_vault_tokens, sum3}
use launchpad.Vault.Randomness.{read, is_revealed}
use launchpad.Vault.Release.{Ledger, exit_view}
use launchpad.Vault.Expire.{expire_one, check_expirable, return_principal, count_expire}
use launchpad.Vault.Expire.Batch.{
  AccountInfo, OwnAccounts, chunks, all_writable, check_group, expire_group, expire_groups,
  expire_batch_constraints, handle_expire_batch,
}
use launchpad.Vault.Expire.BatchEffect.{Expiring, ExpiredRun, handle_expire_batch_lem}
use launchpad.Vault.Setup.{
  InitVault, InitVaultParams, new_vault, init_vault_constraints, check_params, handle_init_vault,
  SetUp, handle_init_vault_lem,
}
use launchpad.Vault.Merging.{handle_merge_incoming, handle_merge_incoming-Sound}
use launchpad.Vault.Sound.{Sound}
use launchpad.Vault.Lifecycle.{Setting, tokens, Live, outside, merged, stay, and_then}
use launchpad.Vault.Lifecycle.Quiet.{Quiet}
use launchpad.Vault.Lifecycle.Always.{handle_init_vault-Live}
use launchpad.Vault.Tests.{
  key_bytes, sample_data, sample_key, sample_hash, sample_vault, sample_runtime, sample_ledger,
  sample_config, sample-Sound,
}
use launchpad.Vault.Tests.Handlers.{
  pending_vault, pending_ledger, sample_expire, sample_shared, result_or,
}
use launchpad.Vault.Tests.Randomness.{sample_switchboard}

-- The vault has as many tokens as the state says, if these are fewer than a million.
abbrev life_runtime : Runtime ℕ
life_runtime = record sample_runtime { token_amount = λ w k. if ltb w 1_000_000 then w else 0 }

abbrev sample_own : OwnAccounts ℕ
sample_own = record {
  request_at = λ w k. some (sample_expire.request);
  rand_lock_at = λ w k. some (record { bump = 249; vault = sample_key; seq = 6 });
  is_token_account = λ w k. true;
  close = λ w account user. some w;
}

abbrev small_config : LaunchConfig
small_config = record sample_config { ratio_base = 7; collection_size = 3 }

abbrev sample_setting : Setting ℕ
sample_setting = record {
  rt = life_runtime;
  sb = sample_switchboard;
  own = sample_own;
  hashv = sample_hash;
  fuel = 1;
  vault_key = sample_key;
  vault_tokens = replicate 32 6;
  launch_config = replicate 32 1;
  config = small_config;
}

below_million : (w : ℕ) → (if ltb w 1_000_000 then w else 0) < 2 ^ 64
below_million w = ground arith

life_exit :
    (w : ℕ)
    → exit_view life_runtime w (replicate 32 1)
      ≡ ok (record { ratio_base = 7; collection_size = 3 })
unfolding exit_view exit_view_in bytes_eq from_le_bytes
life_exit w = refl

life_frozen :
    (w : ℕ) (e : ExitView)
    → exit_view life_runtime w (replicate 32 1) ≡ ok e
    → e ≡ record { ratio_base = 7; collection_size = 3 }
life_frozen w e h = ok-injective (sym h ∙ life_exit w)

-- No call of the sample's runtime but a transfer of tokens changes the state.
life_amount :
    (w w' : ℕ)
    → some w ≡ some w'
    → (if ltb w 1_000_000 then w else 0) ≤ (if ltb w' 1_000_000 then w' else 0)
life_amount w w' e =
    let same : w ≡ w' = cc in
    subst (λ n. (if ltb w 1_000_000 then w else 0) ≤ (if ltb n 1_000_000 then n else 0)) same
      (omega arith)

life-Quiet : Quiet life_runtime sample_switchboard (replicate 32 6)
life-Quiet = record {
  core_transfer = λ w w' asset collection payer authority new_owner e. life_amount w w' e;
  core_create = λ w w' asset collection authority payer owner name uri e. life_amount w w' e;
  system_transfer = λ w w' from to lamports e. life_amount w w' e;
  randomness_commit = λ w w' a e. life_amount w w' e;
}

abbrev sample_init : InitVault
sample_init = record {
  creator = replicate 32 3;
  launch_config = replicate 32 1;
  config = small_config;
  mint = replicate 32 2;
  vault_key = sample_key;
  vault_authority = replicate 32 13;
  vault_tokens = replicate 32 6;
  pool_key = replicate 32 5;
  collection = replicate 32 4;
  mpl_core_program = [];
  vault_bump = 255;
  authority_bump = 254;
  randomness_authority_bump = 253;
  vault_tokens_bump = 252;
  collection_bump = 251;
}

abbrev sample_params : InitVaultParams
sample_params = record {
  trait_root = replicate 32 9;
  trait_schema_hash = replicate 32 10;
  collection_name = replicate 5 97;
  collection_uri = b'i' ∷ b'p' ∷ b'f' ∷ b's' ∷ b':' ∷ b'/' ∷ b'/' ∷ b'x' ∷ [];
  sb_queue = replicate 32 8;
}

abbrev first_ledger : Ledger ℕ
first_ledger =
    result_or
      (handle_init_vault life_runtime sample_init sample_params (replicate (pool_account_size 3) 0)
        0)
      sample_ledger

inits :
    handle_init_vault life_runtime sample_init sample_params (replicate (pool_account_size 3) 0) 0
    ≡ ok first_ledger
unfolding handle_init_vault init_vault_constraints check_params new_vault econ init
    drain_prefunded_pda create_collection is_content_addressed any_prefix wr_u32 splice bytes_eq
    to_le_bytes
inits = refl

handle_init_vault_example : SetUp sample_init sample_params first_ledger
handle_init_vault_example =
    handle_init_vault_lem life_runtime sample_init sample_params 0 first_ledger refl key_bytes inits

-- The vault receives 21 tokens.
abbrev funded_ledger : Ledger ℕ
funded_ledger = record first_ledger { world = 21 }

first_world : first_ledger.world ≡ 0
unfolding handle_init_vault init_vault_constraints check_params new_vault econ init
    drain_prefunded_pda create_collection is_content_addressed any_prefix wr_u32 splice bytes_eq
    to_le_bytes
first_world = refl

funding : tokens sample_setting first_ledger.world ≤ 21
funding = rw first_world (omega arith)

abbrev merged_ledger : Ledger ℕ
merged_ledger =
    result_or (handle_merge_incoming sample_key (replicate 32 5) funded_ledger 2) sample_ledger

merges : handle_merge_incoming sample_key (replicate 32 5) funded_ledger 2 ≡ ok merged_ledger
unfolding handle_init_vault init_vault_constraints check_params new_vault econ init
    drain_prefunded_pda create_collection is_content_addressed any_prefix wr_u32 splice bytes_eq
    to_le_bytes handle_merge_incoming load merge merge_loop incoming_front_tag pool_len incoming_len
    incoming_head rd_u32 from_le_bytes
merges = refl

handle_init_vault-Live_example : Live sample_setting merged_ledger
handle_init_vault-Live_example =
    handle_init_vault-Live sample_setting below_million life_frozen life-Quiet sample_init
      sample_params 0 first_ledger merged_ledger refl refl refl key_bytes inits
      (and_then (and_then stay (outside 21 funding refl)) (merged (replicate 32 5) 2 merges))

-- The vault of the sample, with 14 tokens.
abbrev rich_ledger : Ledger ℕ
rich_ledger = record sample_ledger { world = 14 }

open_pool : bytes_eq (replicate 32 5) (replicate 32 5) ≡ true
unfolding bytes_eq
open_pool = refl

handle_merge_incoming-Sound_example :
    (s' : Ledger ℕ) × (handle_merge_incoming sample_key (replicate 32 5) sample_ledger 2_000
      ≡ ok s')
    × (s'.vault ≡ sample_vault)
    × (s'.world ≡ 7)
    × ((after : Sound s'.vault s'.pool sample_key 7 3 7) × Merged sample-Sound.view
          (eligible 1_024 6 (incoming sample-Sound.view))
          (left_waiting 1_024 6 (incoming sample-Sound.view))
          after.view
        × (pool_len after.view + incoming_len after.view
            ≡ pool_len sample-Sound.view + incoming_len sample-Sound.view))
handle_merge_incoming-Sound_example =
    handle_merge_incoming-Sound sample_key (replicate 32 5) sample_ledger 7 3 7 2_000 sample-Sound
      open_pool

-- The accounts of request 6.
abbrev batch_accounts : List AccountInfo
batch_accounts =
    (record { key = replicate 32 50; is_writable = true })
    ∷ (record { key = replicate 32 51; is_writable = true })
    ∷ (record { key = replicate 32 19; is_writable = false })
    ∷ (record { key = replicate 32 11; is_writable = true })
    ∷ (record { key = replicate 32 14; is_writable = true })
    ∷ (record { key = replicate 32 12; is_writable = true })
    ∷ (record { key = replicate 32 12; is_writable = true })
    ∷ []

abbrev batch_ledger : Ledger ℕ
batch_ledger = record {
  vault = record pending_vault { pending_captures = 0; next_settle_seq = 7; total_expired = 1 };
  pool = sample_data;
  world = 7;
}

batch_expires :
    handle_expire_batch life_runtime sample_own
      (replicate 32 1)
      (replicate 32 5)
      (replicate 32 2)
      sample_shared
      batch_accounts
      pending_ledger
      1
    ≡ ok batch_ledger
unfolding handle_expire_batch expire_batch_constraints chunks expire_groups expire_group check_group
    all_writable exit_view exit_view_in expire_one check_expirable read is_revealed return_principal
    pay_out refund_escrow drain_prefunded_pda count_expire load pool_len incoming_len check
    check_accounting required_vault_tokens sum3 rd_u32 bytes_eq from_le_bytes to_le_bytes
batch_expires = refl

handle_expire_batch_example :
    (1 ≤ 1)
    × (1 ≤ 7)
    × ((econ : ExitView) × (view : PoolView) × (rs : List Request) × (exit_view life_runtime 14
            (replicate 32 1)
          ≡ ok econ)
        × (length rs ≡ 1)
        × Expiring life_runtime sample_own
            (record sample_shared { ratio_base = econ.ratio_base })
            (replicate 32 2)
            (chunks batch_accounts)
            pending_vault
            14
            rs
            batch_ledger.vault
            7
        × ExpiredRun pending_vault rs batch_ledger.vault
        × (load sample_data sample_key ≡ ok view)
        × Holds batch_ledger.vault econ.ratio_base econ.collection_size view 7)
handle_expire_batch_example =
    handle_expire_batch_lem life_runtime sample_own (replicate 32 1) (replicate 32 5)
      (replicate 32 2) sample_shared batch_accounts pending_ledger batch_ledger 1 (omega arith)
      batch_expires
