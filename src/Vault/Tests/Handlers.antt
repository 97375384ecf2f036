-- ===== src/Vault/Tests/Handlers.antt =====
-- programs/hybrid_vault/src/instructions: the instructions tried on the sample pool.
use launchpad.Prelude.{
  ℕ, ◌+◌, ◌*◌, ◌^◌, ◌≤◌, ◌<◌, ◌≡◌, ◌↔◌, ◌⊎◌, refl, List, [], ◌∷◌, ◌++◌, true, false, All, none,
  some, ok, err, abort, arith, length, replicate, leb, ◌&&◌, if◌then◌else◌, take,
}
use launchpad.Bytes.{Bytes, bytes_eq, from_le_bytes, to_le_bytes, splice, has_key}
use launchpad.Vault.Error.{Outcome}
use launchpad.Vault.State.{Vault, Request}
use launchpad.Vault.Config.{Econ, ExitView, exit_view_in, econ}
use launchpad.Vault.Invariants.{Holds, check, check_accounting, required_vault_tokens, sum3}
use launchpad.Vault.Chain.{Runtime}
use launchpad.Vault.Pool.{
  PoolView, load, total, pool_len, incoming_len, incoming_head, pool_get, is_minted, merge,
  merge_loop, merge_one, incoming_front_tag, pool_push, pool_swap_remove,
}
use launchpad.Vault.Pool.Words.{rd_u32, rd_u64, wr_u32}
use launchpad.Vault.Pool.View.{ring_get, incoming}
use launchpad.Vault.Pool.Merge.{eligible, left_waiting}
use launchpad.Vault.Selection.{request_randomness, uniform_below, sample_loop, first_accepted, zone}
use launchpad.Vault.Draws.{pick, check_backlog, return_hand_in}
use launchpad.Vault.Draws.Picks.{Picked, candidates, pick_lem}
use launchpad.Vault.Requests.{NewRequest, Taken, finish_request, pool_floor, check_can_request}
use launchpad.Vault.Requests.Floor.{pool_floor_least, check_can_request_iff}
use launchpad.Vault.Requests.Finish.{Requested, finish_request_lem}
use launchpad.Vault.Assets.{
  deliver, transfer_asset, assert_asset_state, is_of, pay_out, refund_escrow, drain_prefunded_pda,
}
use launchpad.Vault.Release.{Ledger, exit_view}
use launchpad.Vault.Settle.{
  Settle, handle_settle, settle_constraints, check_head, hand_over, count_settle,
}
use launchpad.Vault.Settle.Counts.{SettledVault, handle_settle_lem}
use launchpad.Vault.Randomness.{read, is_revealed}
use launchpad.Vault.Accounts.{Held}
use launchpad.Vault.Expire.{
  ExpireOne, ExpireShared, handle_expire, expire_constraints, expire_one, check_expirable,
  return_principal, count_expire,
}
use launchpad.Vault.Expire.Effect.{Expirable, ExpiredVault, handle_expire_lem}
use launchpad.Vault.Merkle.{verify, climb, step, node_hash, depth_for}
use launchpad.Vault.Merkle.Binding.{Collision, verify_binding, depth_for_least}
use launchpad.Vault.Tests.{
  sample, sample-IsValid, sample_key, sample_data, sample_hash, sample_vault, sample_runtime,
  sample_ledger, sample_config,
}
use launchpad.Launch.Dbc.{dbc_program_id, dbc_pool_discriminator, load_pool, parse_pool, graduated}
use launchpad.Vault.Oracles.{QueueLayout, queue_len, oracle_key, is_candidate, select_oracle_in}
use launchpad.Vault.Oracles.Choice.{select_oracle_in_lem}
use launchpad.Vault.Opening.{OpenVault, handle_open_vault, check_collection, verify_dbc}
use launchpad.Vault.Opening.Graduated.{Graduation, handle_open_vault_lem}

-- A hash whose first word is odd, so that the second of two candidates is drawn.
abbrev odd_hash : List Bytes → Bytes
odd_hash parts = 11 ∷ replicate 31 0

pick_candidate : 0 < length (candidates sample 5)
unfolding pool_len incoming_len incoming_head ring_get rd_u32 rd_u64 from_le_bytes eligible
pick_candidate = omega arith

pick_later : All (λ (e : ℕ × ℕ). 5 < e.1) (left_waiting 32 5 (incoming sample))
unfolding pool_len incoming_len incoming_head ring_get rd_u32 rd_u64 from_le_bytes left_waiting
pick_later = tt

pick_draw :
    uniform_below odd_hash 1
      (request_randomness odd_hash (replicate 32 9) sample_key 5)
      (length (candidates sample 5))
    ≡ ok 1
unfolding pool_len incoming_len incoming_head ring_get rd_u32 rd_u64 from_le_bytes eligible
    uniform_below sample_loop first_accepted zone request_randomness
pick_draw = refl

pick_example :
    (picked : ℕ) × (p' : PoolView) × (pick odd_hash 1 sample (replicate 32 9) sample_key 5 1 1
      ≡ ok (picked, p'))
    × Picked sample 5 1 1 picked p'
pick_example =
    pick_lem odd_hash 1 sample (replicate 32 9) sample_key 5 1 1 1 sample-IsValid (λ r. omega arith)
      pick_candidate pick_later pick_draw

abbrev new_request : NewRequest
new_request = record {
  request_bump = 250;
  lock_bump = 249;
  kind = 1;
  user = replicate 32 11;
  randomness = replicate 32 19;
  seed_slot = 499;
  handed_in_index = 1;
  vault_key = sample_key;
  oracle = replicate 32 20;
  sol_fee_lamports = 10_000_000;
}

finish_request_example :
    (t : Taken) × (finish_request sample_vault new_request 500 6_338_100 ≡ ok t)
    × Requested sample_vault new_request 500 t
finish_request_example =
    finish_request_lem sample_vault new_request 500 6_338_100 (omega arith) (omega arith)
      (omega arith) (omega arith) (omega arith) (λ e. omega arith)

pool_floor_least_example : (pool_floor 1_000 ≤ 20) ↔ ((5 ≤ 20) × (1_000 * 200 ≤ 20 * 10_000))
pool_floor_least_example = pool_floor_least 1_000 20

abbrev small_econ : Econ
small_econ = record {
  ratio_base = 7;
  collection_size = 3;
  stored_fee_lamports = 10_000_000;
  ratio_whole_tokens = 500_000;
  fee_recipient = replicate 32 15;
}

sample_counts : (pool_len sample < 2 ^ 32) × (incoming_len sample < 2 ^ 32)
unfolding pool_len incoming_len rd_u32 from_le_bytes
sample_counts = (omega arith, omega arith)

check_can_request_iff_example :
    (check_can_request sample_vault small_econ sample ≡ ok tt)
    ↔ ((false ≡ true) × (pool_floor 3 + 0 + 0 + 1 ≤ pool_len sample + incoming_len sample))
check_can_request_iff_example =
    check_can_request_iff sample_vault small_econ sample sample_counts.0 sample_counts.1
      (omega arith)

sample_proof : verify sample_hash (1 ∷ []) 0 2 ((5 ∷ []) ∷ []) (10 ∷ replicate 31 0) ≡ true
unfolding verify climb step node_hash bytes_eq depth_for
sample_proof = refl

other_proof : verify sample_hash (2 ∷ []) 0 2 ((6 ∷ []) ∷ []) (10 ∷ replicate 31 0) ≡ true
unfolding verify climb step node_hash bytes_eq depth_for
other_proof = refl

verify_binding_example : ◌⊎◌ (◌≡◌ {A = Bytes} (1 ∷ []) (2 ∷ [])) (Collision sample_hash)
verify_binding_example =
    verify_binding sample_hash (1 ∷ []) (2 ∷ []) 0 2 ((5 ∷ []) ∷ []) ((6 ∷ []) ∷ [])
      (10 ∷ replicate 31 0) sample_proof other_proof

depth_for_least_example : (depth_for 1_000 ≤ 10) ↔ (1_000 ≤ 2 ^ 10)
depth_for_least_example = depth_for_least 1_000 10 (omega arith)

-- The vault with one capture pending, as request 6, and its request.
abbrev pub pending_vault : Vault
pending_vault = record sample_vault { pending_captures = 1; next_seq = 7 }

abbrev pub pending_ledger : Ledger ℕ
pending_ledger = record sample_ledger { vault = pending_vault; world = 14 }

abbrev pub pending_request : Request
pending_request = record {
  bump = 250;
  kind = 0;
  vault = sample_key;
  seq = 6;
  user = replicate 32 13;
  randomness = replicate 32 19;
  seed_slot = 500;
  deadline_slot = 9_501;
  commits = 4;
  oracles = [];
  revealed = true;
  value = replicate 32 9;
  handed_in_index = 4_294_967_295;
  mint_escrow_lamports = 6_338_100;
}

abbrev sample_settle : Settle
sample_settle = record {
  settler = replicate 32 21;
  vault_key = sample_key;
  launch_config = replicate 32 1;
  pool_key = replicate 32 5;
  request_key = replicate 32 50;
  request = pending_request;
  rand_lock_key = replicate 32 51;
  rand_lock = record { bump = 249; vault = sample_key; seq = 6 };
  randomness = replicate 32 19;
  vault_authority = replicate 32 13;
  mint_escrow = replicate 32 12;
  vault_tokens = replicate 32 6;
  asset = replicate 32 12;
  collection = replicate 32 4;
  user = replicate 32 13;
  mpl_core_program = [];
}

abbrev pub result_or : Outcome (Ledger ℕ) → Ledger ℕ → Ledger ℕ
result_or (ok s) d = s
result_or (err e) d = d
result_or abort d = d

abbrev settled_ledger : Ledger ℕ
settled_ledger =
    result_or (handle_settle sample_runtime odd_hash 1 sample_settle pending_ledger 0 none)
      pending_ledger

settles :
    handle_settle sample_runtime odd_hash 1 sample_settle pending_ledger 0 none ≡ ok settled_ledger
unfolding handle_settle settle_constraints check_head exit_view exit_view_in load pick merge
    merge_loop merge_one total incoming_front_tag check_backlog return_hand_in pool_push
    pool_swap_remove pool_get pool_len incoming_len incoming_head is_minted uniform_below
    sample_loop first_accepted zone request_randomness hand_over deliver transfer_asset
    assert_asset_state is_of refund_escrow drain_prefunded_pda count_settle check check_accounting
    required_vault_tokens sum3 rd_u32 rd_u64 wr_u32 splice bytes_eq from_le_bytes to_le_bytes
settles = refl

handle_settle_example :
    SettledVault pending_vault sample_settle settled_ledger.vault
    × ((econ : ExitView) × (view : PoolView) × (exit_view sample_runtime 14 (replicate 32 1)
          ≡ ok econ)
        × (load settled_ledger.pool sample_key ≡ ok view)
        × Holds settled_ledger.vault econ.ratio_base econ.collection_size view 14)
handle_settle_example =
    handle_settle_lem sample_runtime odd_hash 1 sample_settle pending_ledger 0 none settled_ledger
      (omega arith) settles

abbrev pub sample_expire : ExpireOne
sample_expire = record {
  request = record pending_request { revealed = false; user = replicate 32 11 };
  randomness = replicate 32 19;
  user = replicate 32 11;
  user_token = replicate 32 14;
  mint_escrow = replicate 32 12;
  asset = replicate 32 12;
}

abbrev sample_held : Held
sample_held = record {
  request_key = replicate 32 50;
  rand_lock_key = replicate 32 51;
  rand_lock = record { bump = 249; vault = sample_key; seq = 6 };
}

abbrev pub sample_shared : ExpireShared
sample_shared = record {
  caller = replicate 32 21;
  vault_key = sample_key;
  vault_authority = replicate 32 13;
  vault_tokens = replicate 32 6;
  collection = replicate 32 4;
  mpl_core_program = [];
  ratio_base = 0;
}

abbrev expired_ledger : Ledger ℕ
expired_ledger = record {
  vault = record pending_vault { pending_captures = 0; next_settle_seq = 7; total_expired = 1 };
  pool = sample_data;
  world = 7;
}

expires :
    handle_expire sample_runtime
      (replicate 32 1)
      (replicate 32 5)
      (replicate 32 2)
      sample_held
      sample_shared
      sample_expire
      pending_ledger
    ≡ ok expired_ledger
unfolding handle_expire expire_constraints exit_view exit_view_in expire_one check_expirable read
    is_revealed return_principal pay_out refund_escrow drain_prefunded_pda count_expire load
    pool_len incoming_len check check_accounting required_vault_tokens sum3 rd_u32 bytes_eq
    from_le_bytes
expires = refl

handle_expire_example :
    Expirable sample_runtime 14 sample_expire pending_vault
    × ExpiredVault pending_vault 0 expired_ledger.vault
    × ((econ : ExitView) × (view : PoolView) × (exit_view sample_runtime 14 (replicate 32 1)
          ≡ ok econ)
        × (load sample_data sample_key ≡ ok view)
        × Holds expired_ledger.vault econ.ratio_base econ.collection_size view 7)
handle_expire_example =
    handle_expire_lem sample_runtime (replicate 32 1) (replicate 32 5) (replicate 32 2) sample_held
      sample_shared sample_expire pending_ledger expired_ledger (omega arith) expires

-- A migrated pool of the curve.
abbrev curve_pool : Bytes
curve_pool =
    dbc_pool_discriminator
    ++ (replicate 64 0
        ++ (replicate 32 16
            ++ (replicate 32 0
                ++ (replicate 32 2
                    ++ (replicate 136 0 ++ ((0 ∷ 1 ∷ 0 ∷ 0 ∷ 3 ∷ []) ++ replicate 115 0))))))

abbrev opening_runtime : Runtime ℕ
opening_runtime = record sample_runtime {
  owner_of = λ w k. if bytes_eq k (replicate 32 17) then dbc_program_id else [];
  data_of = λ w k. curve_pool;
}

abbrev sample_opening : OpenVault
sample_opening = record {
  vault_key = sample_key;
  launch_config = replicate 32 1;
  config = record sample_config { ratio_base = 7; collection_size = 3 };
  pool_key = replicate 32 5;
  vault_tokens = replicate 32 6;
  collection = replicate 32 4;
  graduation_proof = replicate 32 17;
  parse_collection =
      λ d. some (record { update_authority = replicate 32 12; num_minted = 2; current_size = 2 });
}

abbrev opened_ledger : Ledger ℕ
opened_ledger = record sample_ledger {
  vault = record sample_vault { is_open = true; opened_at_slot = 1_000_000 };
}

opens : handle_open_vault opening_runtime sample_opening sample_ledger ≡ ok opened_ledger
unfolding handle_open_vault econ check_collection verify_dbc load_pool parse_pool graduated load
    pool_len incoming_len check check_accounting required_vault_tokens sum3 rd_u32 bytes_eq
    from_le_bytes
opens = refl

handle_open_vault_example : (false ≡ false) × Graduation opening_runtime 7 sample_opening
handle_open_vault_example =
    handle_open_vault_lem opening_runtime sample_opening sample_ledger opened_ledger opens

-- A queue of two oracles, the first of which the request has used.
abbrev small_layout : QueueLayout
small_layout = record { size = 72; keys_off = 8; len_off = 0; curr_off = 4 }

abbrev queue_account : Bytes
queue_account =
    replicate 8 1 ++ ((2 ∷ 0 ∷ 0 ∷ 0 ∷ 0 ∷ 0 ∷ 0 ∷ 0 ∷ []) ++ (replicate 32 20 ++ replicate 32 21))

queue_shape :
    (leb (8 + 72) (length queue_account) && bytes_eq (take 8 queue_account) (replicate 8 1)) ≡ true
unfolding bytes_eq
queue_shape = refl

queue_size : queue_len sample_hash small_layout (replicate 8 1) queue_account ≡ 2
unfolding from_le_bytes
queue_size = refl

second_oracle :
    is_candidate
      (replicate 32 20 ∷ [])
      []
      (oracle_key sample_hash small_layout (replicate 8 1) queue_account 1)
    ≡ true
unfolding is_candidate has_key bytes_eq
second_oracle = refl

select_oracle_in_example :
    (k : Bytes) × (select_oracle_in sample_hash small_layout
        (replicate 8 1)
        queue_account
        sample_key
        6
        (replicate 32 20 ∷ [])
        []
      ≡ ok k)
    × (is_candidate (replicate 32 20 ∷ []) [] k ≡ true)
    × ((j : ℕ) × (j < queue_len sample_hash small_layout (replicate 8 1) queue_account)
        × (k ≡ oracle_key sample_hash small_layout (replicate 8 1) queue_account j))
select_oracle_in_example =
    select_oracle_in_lem sample_hash small_layout (replicate 8 1) queue_account sample_key 6
      (replicate 32 20 ∷ []) [] queue_shape (omega (arith, queue_size)) (omega (arith, queue_size))
      1 (omega (arith, queue_size)) second_oracle
