-- ===== src/Vault/Tests.antt =====
-- programs/hybrid_vault/src: a pool of three assets on which the theorems about the vault are tried.
mod Handlers
mod Randomness
mod Requests
mod Life
mod Launches
mod Tree
use launchpad.Prelude.{
  pos, none, ℕ, zero, suc, ◌+◌, ◌*◌, ◌^◌, ◌≤◌, ◌<◌, ◌≡◌, ◌↔◌, refl, List, [], ◌∷◌, ◌++◌, All,
  replicate, length, Bool, true, false, ok, some, arith, ltb, ◌&&◌, ◌==◌, if◌then◌else◌,
  checked_sub,
}
use launchpad.Bytes.{Bytes, from_le_bytes, slice, bytes_eq}
use launchpad.Bytes.Laws.{AreBytes}
use launchpad.Vault.State.{Vault}
use launchpad.Vault.Pool.{
  PoolView, pool_discriminator, pool_account_size, load, init, pool_len, incoming_len,
  incoming_head, pool_get, pool_push, pool_swap_remove, incoming_push, merge, mark_minted,
  is_minted,
}
use launchpad.Vault.Pool.View.{IsValid, ring_get, incoming}
use launchpad.Vault.Pool.Words.{rd_u32, rd_u64}
use launchpad.Vault.Pool.Draw.{Pushed, Removed, pool_push_lem, pool_swap_remove_lem}
use launchpad.Vault.Pool.Wait.{Queued, incoming_push_lem}
use launchpad.Vault.Pool.Merge.{Merged, eligible, left_waiting, merge_lem}
use launchpad.Vault.Pool.Bitmap.{Marked, mark_minted_lem}
use launchpad.Vault.Pool.Init.{Fresh, init_lem}
use launchpad.Vault.Selection.{uniform_below, sample_loop, first_accepted, zone}
use launchpad.Vault.Selection.Uniform.{
  uniform_below-lt, first_accepted_uniform, uniform_below_returns, quota, block_at,
}
use launchpad.Vault.Invariants.{check, check_iff, Holds}
use launchpad.Vault.Sound.{Sound}
use launchpad.Launch.State.{LaunchConfig, account_data}
use launchpad.Vault.Config.{exit_view_in, Econ, econ}
use launchpad.Vault.Config.Exit.{HasWidths, exit_view-econ}
use launchpad.Vault.Chain.{Runtime, of_collection}
use launchpad.Vault.Assets.{take_back, transfer_asset, assert_asset_state, is_of, pay_out}
use launchpad.Vault.Release.{Unwrap, Ledger, unwrap_constraints, exit_view, handle_unwrap}
use launchpad.Vault.Release.Effect.{Released, handle_unwrap_lem}

abbrev pub sample_key : Bytes
sample_key = replicate 32 7

-- Asset 2 can be drawn, asset 0 came back at request 5, and asset 1 is out.
abbrev pub sample_data : Bytes
sample_data =
    pool_discriminator
    ++ (sample_key
        ++ ((3 ∷ 0 ∷ 0 ∷ 0 ∷ 1 ∷ 0 ∷ 0 ∷ 0 ∷ 2 ∷ 0 ∷ 0 ∷ 0 ∷ 1 ∷ 0 ∷ 0 ∷ 0 ∷ [])
            ++ (replicate 8 0
                ++ ((3 ∷ 0 ∷ 0 ∷ 0 ∷ [])
                    ++ (replicate 32 0
                        ++ ((0 ∷ 0 ∷ 0 ∷ 0 ∷ 5 ∷ 0 ∷ 0 ∷ 0 ∷ 0 ∷ 0 ∷ 0 ∷ 0 ∷ []) ++ (3 ∷ [])))))))

abbrev pub sample : PoolView
sample = record { d = sample_data; cap = 3 }

are_bytes : Bytes → Bool
are_bytes [] = true
are_bytes (x ∷ xs) = ltb x 256 && are_bytes xs

are_bytes-AreBytes : (d : Bytes) → are_bytes d ≡ true → AreBytes d
unfolding are_bytes
are_bytes-AreBytes [] h = tt
are_bytes-AreBytes (x ∷ xs) h =
    let t : (x < 256) × (are_bytes xs ≡ true) = ground arith in (t.0, are_bytes-AreBytes xs t.1)

sample_bytes : are_bytes sample_data ≡ true
unfolding are_bytes
sample_bytes = refl

sample_len : pool_len sample ≡ 1
unfolding pool_len rd_u32 from_le_bytes
sample_len = refl

sample-incoming_len : incoming_len sample ≡ 1
unfolding incoming_len rd_u32 from_le_bytes
sample-incoming_len = refl

sample_head : incoming_head sample ≡ 2
unfolding incoming_head rd_u32 from_le_bytes
sample_head = refl

sample_slot : pool_get sample 0 ≡ 2
unfolding pool_get rd_u32 from_le_bytes
sample_slot = refl

sample-incoming : incoming sample ≡ (0, 5) ∷ []
unfolding incoming_len incoming_head ring_get rd_u32 rd_u64 from_le_bytes
sample-incoming = refl

pub sample-IsValid : IsValid sample
sample-IsValid = record {
  size = refl;
  bytes = are_bytes-AreBytes sample_data sample_bytes;
  positive = omega arith;
  small = omega arith;
  counted = omega (arith, sample_len, sample-incoming_len);
  head_in = omega (arith, sample_head);
  slots_in = λ i h. only i h;
  ring_in = rw sample-incoming (omega arith, tt);
}
  where
    only : (i : ℕ) → i < pool_len sample → pool_get sample i < 3
    only zero h = omega (arith, sample_slot)
    only (suc i) h = absurd (omega (arith, sample_len))

sample_room : pool_len sample + incoming_len sample < 3
sample_room = omega (arith, sample_len, sample-incoming_len)

pool_push_example : (p' : PoolView) × (pool_push sample 1 ≡ ok p') × Pushed sample 1 p'
pool_push_example = pool_push_lem sample sample-IsValid 1 sample_room (omega arith)

pool_swap_remove_example :
    (p' : PoolView) × (pool_swap_remove sample 0 ≡ ok (pool_get sample 0, p'))
    × Removed sample (pool_get sample 0) p'
pool_swap_remove_example = pool_swap_remove_lem sample 0 sample-IsValid (omega (arith, sample_len))

sample_tags : (tag : ℕ) → 5 ≤ tag → All (λ (e : ℕ × ℕ). e.1 ≤ tag) (incoming sample)
sample_tags tag h = rw sample-incoming (h, tt)

incoming_push_example :
    (p' : PoolView) × (incoming_push sample 1 9 ≡ ok p') × Queued sample (1, 9) p'
incoming_push_example =
    incoming_push_lem sample 1 9 sample-IsValid sample_room (omega arith) (omega arith)
      (sample_tags 9 (omega arith))

merge_example :
    (p' : PoolView) × (merge sample 5 32 ≡ ok (length (eligible 32 5 (incoming sample)), p'))
    × Merged sample (eligible 32 5 (incoming sample)) (left_waiting 32 5 (incoming sample)) p'
merge_example = merge_lem sample 5 32 sample-IsValid

sample_unminted : is_minted sample 2 ≡ false
unfolding is_minted
sample_unminted = refl

mark_minted_example : (p' : PoolView) × (mark_minted sample 2 ≡ ok p') × Marked sample 2 p'
mark_minted_example = mark_minted_lem sample 2 sample-IsValid (omega arith) sample_unminted

key_test : are_bytes sample_key ≡ true
unfolding are_bytes
key_test = refl

pub key_bytes : AreBytes sample_key
key_bytes = are_bytes-AreBytes sample_key key_test

init_example :
    (d : Bytes) × (p : PoolView) × (init (replicate (pool_account_size 3) 0) sample_key 3 ≡ ok d)
    × Fresh sample_key 3 d p
init_example = init_lem sample_key 3 refl key_bytes (omega arith) (omega arith)

-- A hash that returns a block of four words, the first of which is 10.
abbrev pub sample_hash : List Bytes → Bytes
sample_hash parts = 10 ∷ replicate 31 0

sample_draw : uniform_below sample_hash 1 (10 ∷ replicate 31 0) 4 ≡ ok 2
unfolding uniform_below sample_loop first_accepted zone from_le_bytes
sample_draw = refl

uniform_below-lt_example : 2 < 4
uniform_below-lt_example = uniform_below-lt sample_hash 1 (10 ∷ replicate 31 0) 4 2 sample_draw

sample_word : from_le_bytes (slice (10 ∷ replicate 31 0) 0 8) ≡ 2 * 4 + 2
unfolding from_le_bytes
sample_word = refl

first_accepted_uniform_example :
    (2 < quota 4 → first_accepted 4 (10 ∷ replicate 31 0) 4 0 ≡ some 2)
    × (quota 4 ≤ 2
        → first_accepted 4 (10 ∷ replicate 31 0) 4 0 ≡ first_accepted 4 (10 ∷ replicate 31 0) 3 8)
    × (2 ^ 64 < quota 4 * 4 + 4)
first_accepted_uniform_example =
    first_accepted_uniform 4 2 2 (10 ∷ replicate 31 0) 3 0 (omega arith) (omega arith) sample_word

sample_block : from_le_bytes (slice (block_at sample_hash 0 (10 ∷ replicate 31 0)) 0 8) ≤ zone 4
unfolding from_le_bytes zone block_at
sample_block = omega arith

uniform_below_returns_example :
    (x : ℕ) × (uniform_below sample_hash 1 (10 ∷ replicate 31 0) 4 ≡ ok x) × (x < 4)
unfolding block_at
uniform_below_returns_example =
    uniform_below_returns sample_hash 1 (10 ∷ replicate 31 0) 4 0 0 (omega arith) (omega arith)
      (omega arith) sample_block

-- One asset is out and owed 7 tokens.
abbrev pub sample_vault : Vault
sample_vault = record {
  version = 2;
  bump = 255;
  authority_bump = 254;
  randomness_authority_bump = 253;
  vault_tokens_bump = 252;
  collection_bump = 251;
  is_open = false;
  launch_config = replicate 32 1;
  mint = replicate 32 2;
  creator = replicate 32 3;
  collection = replicate 32 4;
  pool = replicate 32 5;
  vault_tokens = replicate 32 6;
  sb_queue = replicate 32 8;
  trait_root = replicate 32 9;
  trait_schema_hash = replicate 32 10;
  minted_count = 2;
  assets_outside = 1;
  pending_captures = 0;
  pending_rerolls = 0;
  next_seq = 6;
  next_settle_seq = 6;
  opened_at_slot = 100;
  total_fee_lamports = 10_000_000;
  total_captures = 1;
  total_rerolls = 0;
  total_unwraps = 1;
  total_recommits = 0;
  total_expired = 0;
}

check_iff_example : (check sample_vault 7 3 sample 7 ≡ ok tt) ↔ Holds sample_vault 7 3 sample 7
check_iff_example = check_iff sample_vault 7 3 sample 7 (omega arith) (omega arith) (omega arith)

-- The account of a launch of three assets at 7 tokens each.
abbrev launch_account : Bytes
launch_account =
    replicate 8 1
    ++ (replicate 149 0 ++ ((7 ∷ replicate 7 0) ++ ((3 ∷ replicate 7 0) ++ replicate 48 0)))

-- The sample's bumps tell its addresses apart.
abbrev pub sample_address : ℕ → Bytes
sample_address bump =
    if bump == 255
    then sample_key
    else if bump == 254
    then replicate 32 13
    else if bump == 253
    then replicate 32 18
    else if bump == 252
    then replicate 32 6
    else if bump == 250
    then replicate 32 50
    else replicate 32 51

-- A runtime whose only state is the vault's amount of tokens. Every account is owned by the program of
-- the empty key, and every asset belongs to the vault of the key 4.
abbrev pub sample_runtime : Runtime ℕ
sample_runtime = record {
  slot = λ w. 1_000_000;
  unix_timestamp = λ w. pos 5_000;
  minimum_balance = λ w size. 3_570_480;
  owner_of = λ w k. [];
  data_of = λ w k. launch_account;
  is_executable = λ w k. true;
  lamports_of = λ w k. 0;
  token_amount = λ w k. w;
  token_mint = λ w k. replicate 32 2;
  token_authority = λ w k. replicate 32 11;
  launch_config_discriminator = replicate 8 1;
  hybrid_launch_id = [];
  mpl_core_id = [];
  system_program_id = [];
  switchboard_program_id = [];
  parse_randomness = λ d. some (record {
    authority = replicate 32 18;
    queue = replicate 32 8;
    seed_slot = 500;
    reveal_slot = 0;
    value = replicate 32 0;
  });
  core_create_collection = λ w collection update_authority payer name uri. some w;
  core_create = λ w asset collection authority payer owner name uri. some w;
  program_id = [];
  find_program_address = λ seeds. replicate 32 12;
  create_program_address = λ seeds bump. some (sample_address bump);
  parse_asset = λ d.
      some (record { owner = replicate 32 13; update_authority = of_collection (replicate 32 4) });
  transfer_checked = λ w from to authority amount. checked_sub w amount;
  system_transfer = λ w from to amount. some w;
  core_transfer = λ w asset collection payer authority new_owner. some w;
}

abbrev pub sample_unwrap : Unwrap
sample_unwrap = record {
  user = replicate 32 11;
  vault_key = sample_key;
  launch_config = replicate 32 1;
  pool_key = replicate 32 5;
  mint = replicate 32 2;
  vault_authority = replicate 32 13;
  vault_tokens = replicate 32 6;
  user_token = replicate 32 14;
  asset = replicate 32 12;
  collection = replicate 32 4;
  mpl_core_program = [];
}

abbrev pub sample_ledger : Ledger ℕ
sample_ledger = record { vault = sample_vault; pool = sample_data; world = 7 }

sample_loads : load sample_data sample_key ≡ ok sample
unfolding load rd_u32 from_le_bytes bytes_eq
sample_loads = refl

sample-Holds : Holds sample_vault 7 3 sample 7
sample-Holds = record {
  solvent = omega arith;
  accounted = omega (arith, sample_len, sample-incoming_len);
  sized = refl;
  minted = omega arith;
  minted_out = omega arith;
}

pub sample-Sound : Sound sample_vault sample_data sample_key 7 3 7
sample-Sound = record {
  view = sample;
  loads = sample_loads;
  valid = sample-IsValid;
  holds = sample-Holds;
  ordered = sample_tags 6 (omega arith);
  seq_fits = omega arith;
}

sample_constraints : unwrap_constraints sample_runtime sample_unwrap sample_ledger 1 ≡ ok tt
unfolding unwrap_constraints bytes_eq
sample_constraints = refl

sample_exit :
    exit_view sample_runtime 7 (replicate 32 1)
    ≡ ok (record { ratio_base = 7; collection_size = 3 })
unfolding exit_view exit_view_in bytes_eq from_le_bytes
sample_exit = refl

sample_back :
    take_back sample_runtime 7 []
      (replicate 32 12)
      (replicate 32 4)
      (replicate 32 11)
      (replicate 32 13)
    ≡ ok 7
unfolding take_back transfer_asset assert_asset_state is_of bytes_eq
sample_back = refl

sample_paid : pay_out sample_runtime 7 (replicate 32 6) (replicate 32 14) (replicate 32 13) 7 ≡ ok 0
unfolding pay_out
sample_paid = refl

handle_unwrap_example :
    (st' : Ledger ℕ) × (s' : Sound st'.vault st'.pool sample_key 7 3 0) × (handle_unwrap
        sample_runtime sample_unwrap sample_ledger 1
      ≡ ok st')
    × (st'.world ≡ 0)
    × Released sample_vault sample-Sound.view 1 st'.vault s'.view
handle_unwrap_example =
    handle_unwrap_lem sample_runtime sample_unwrap sample_ledger 7 3 7 0 1 7 0 sample-Sound
      (omega arith) (omega arith) (omega arith) (omega arith) (omega arith) (omega arith)
      sample_constraints sample_exit sample_back sample_paid refl refl

abbrev pub sample_config : LaunchConfig
sample_config = record {
  version = 4;
  bump = 255;
  mint_authority_bump = 254;
  creator = replicate 32 3;
  mint = replicate 32 2;
  launch_destination = replicate 32 0;
  launch_vault = replicate 32 0;
  launch_vault_bump = 253;
  decimals = 0;
  total_supply_base = 1_000_000_000;
  ratio_whole_tokens = 500_000;
  ratio_base = 500_000;
  collection_size = 100;
  max_tokens_in_nft_form = 50_000_000;
  fee_lamports = 10_000_000;
  fee_recipient = replicate 32 15;
  graduation_threshold_lamports = 20_000_000_000;
  graduation_slice_pct = 0;
  launched_at = pos 0;
  dbc_config = replicate 32 16;
  dbc_pool = replicate 32 17;
}

abbrev sample_econ : Econ
sample_econ = record {
  ratio_base = 500_000;
  collection_size = 100;
  stored_fee_lamports = 10_000_000;
  ratio_whole_tokens = 500_000;
  fee_recipient = replicate 32 15;
}

sample_econ_ok : econ (replicate 32 15) sample_config ≡ ok sample_econ
unfolding econ
sample_econ_ok = refl

sample_widths : HasWidths sample_config
sample_widths = record {
  creator = refl;
  mint = refl;
  launch_destination = refl;
  launch_vault = refl;
  fee_recipient = refl;
  ratio = omega arith;
}

exit_view-econ_example :
    exit_view_in (replicate 8 1) (account_data (replicate 8 1) sample_config (replicate 32 9 ∷ []))
    ≡ ok (record { ratio_base = 500_000; collection_size = 100 })
exit_view-econ_example =
    exit_view-econ (replicate 32 15) (replicate 8 1) (replicate 32 9 ∷ []) sample_config sample_econ
      refl sample_widths sample_econ_ok
