-- ===== src/Vault/Tests/Requests.antt =====
-- programs/hybrid_vault/src/instructions/request.rs: a capture and a re-roll tried on a collection of eight.
use launchpad.Prelude.{
  ℕ, ◌+◌, ◌-◌, ◌^◌, ◌<◌, ◌≡◌, refl, [], ◌∷◌, ◌++◌, true, false, some, ok, err, abort, replicate,
  if◌then◌else◌, arith,
}
use launchpad.Bytes.{Bytes, bytes_eq, from_le_bytes, to_le_bytes, has_key}
use launchpad.Launch.Constants.{platform_fee_recipient}
use launchpad.Launch.Fees.{is_exact_tier_fee, fee_for_ratio, tier_fee_lamports}
use launchpad.Vault.Error.{Outcome}
use launchpad.Vault.State.{Vault, request_kind_capture, request_kind_reroll, no_handed_in}
use launchpad.Vault.Chain.{Runtime}
use launchpad.Vault.Config.{Econ, econ, request_fee}
use launchpad.Vault.Pool.{pool_discriminator, pool_account_size, load, pool_len, incoming_len}
use launchpad.Vault.Pool.Words.{rd_u32}
use launchpad.Vault.Invariants.{check, check_accounting, required_vault_tokens, sum3}
use launchpad.Vault.State.{pending_draws}
use launchpad.Vault.Assets.{
  take_back, transfer_asset, assert_asset_state, is_of, user_pays, sol_fee,
}
use launchpad.Vault.Oracles.{scan, is_candidate, start_of, select_oracle_in}
use launchpad.Vault.Randomness.{
  read, require_sb_program, oracle_last_heartbeat, heartbeat_is_fresh, stale_keys, select_oracle,
  check_commit, commit_for_request,
}
use launchpad.Vault.Release.{Ledger}
use launchpad.Vault.Requests.{
  pool_floor, check_can_request, count_request, finish_request, escrow_mint_cost,
}
use launchpad.Vault.Requests.Handlers.{
  RequestAccounts, CaptureAccounts, RerollAccounts, Requesting, request_constraints,
  capture_constraints, reroll_constraints, take_request, handle_request_capture,
  handle_request_reroll,
}
use launchpad.Vault.Requests.Effect.{
  Accepted, handle_request_capture_lem, handle_request_reroll_lem,
}
use launchpad.Vault.Tests.{sample_key, sample_vault, sample_runtime, sample_config}
use launchpad.Vault.Tests.Randomness.{small_queue, live_oracle, sample_switchboard, sample_commit}

-- The state is the vault's amount of tokens, and a transfer is one to the vault. The escrow's address is
-- also the asset's.
abbrev request_runtime : Runtime ℕ
request_runtime = record sample_runtime {
  data_of = λ w k.
      if bytes_eq k (replicate 32 8)
      then small_queue
      else if bytes_eq k (replicate 32 12)
      then []
      else live_oracle;
  parse_randomness = λ d. some (record {
    authority = replicate 32 18;
    queue = replicate 32 8;
    seed_slot = 999_999;
    reveal_slot = 0;
    value = replicate 32 0;
  });
  transfer_checked = λ w from to authority amount. some (w + amount);
}

-- A pool of eight, of which the first `len` slots are drawable.
abbrev eight : ℕ → Bytes
eight len =
    pool_discriminator
    ++ (sample_key
        ++ ((8 ∷ 0 ∷ 0 ∷ 0 ∷ len ∷ 0 ∷ 0 ∷ 0 ∷ []) ++ replicate (pool_account_size 8 - 48) 0))

abbrev open_vault : Vault
open_vault = record sample_vault { is_open = true; minted_count = 0; assets_outside = 0 }

abbrev full_ledger : Ledger ℕ
full_ledger = record { vault = open_vault; pool = eight 8; world = 0 }

abbrev out_ledger : Ledger ℕ
out_ledger = record {
  vault = record open_vault { minted_count = 1; assets_outside = 1 };
  pool = eight 7;
  world = 7;
}

abbrev sample_request : RequestAccounts
sample_request = record {
  user = replicate 32 11;
  vault_key = sample_key;
  launch_config = replicate 32 1;
  config = record sample_config { ratio_base = 7; collection_size = 8 };
  pool_key = replicate 32 5;
  vault_tokens = replicate 32 6;
  fee_recipient = platform_fee_recipient;
  mint_escrow = replicate 32 12;
  commit = record sample_commit { oracle = replicate 32 20 };
  request_bump = 250;
  lock_bump = 249;
}

abbrev sample_capture : CaptureAccounts
sample_capture = record { mint = replicate 32 2; user_token = replicate 32 14 }

abbrev sample_reroll : RerollAccounts
sample_reroll = record {
  vault_authority = replicate 32 13;
  asset = replicate 32 12;
  collection = replicate 32 4;
  mpl_core_program = [];
}

abbrev requesting_or : Outcome (Requesting ℕ) → Requesting ℕ → Requesting ℕ
requesting_or (ok s) d = s
requesting_or (err e) d = d
requesting_or abort d = d

abbrev nothing_done : Requesting ℕ
nothing_done = record {
  ledger = full_ledger;
  request = record {
    bump = 0;
    kind = 0;
    vault = [];
    seq = 0;
    user = [];
    randomness = [];
    seed_slot = 0;
    deadline_slot = 0;
    commits = 0;
    oracles = [];
    revealed = false;
    value = [];
    handed_in_index = 0;
    mint_escrow_lamports = 0;
  };
  rand_lock = record { bump = 0; vault = []; seq = 0 };
}

abbrev captured : Requesting ℕ
captured =
    requesting_or
      (handle_request_capture request_runtime sample_switchboard sample_request sample_capture
        full_ledger)
      nothing_done

captures :
    handle_request_capture request_runtime sample_switchboard sample_request sample_capture
      full_ledger
    ≡ ok captured
unfolding handle_request_capture capture_constraints request_constraints econ load check_can_request
    pool_floor pending_draws request_fee is_exact_tier_fee fee_for_ratio tier_fee_lamports user_pays
    take_request sol_fee escrow_mint_cost commit_for_request check_commit require_sb_program
    select_oracle stale_keys select_oracle_in scan is_candidate start_of has_key
    oracle_last_heartbeat heartbeat_is_fresh read finish_request count_request check
    check_accounting required_vault_tokens sum3 pool_len incoming_len rd_u32 bytes_eq from_le_bytes
    to_le_bytes
captures = refl

captured_fits : captured.ledger.world < 2 ^ 64
unfolding handle_request_capture capture_constraints request_constraints econ load check_can_request
    pool_floor pending_draws request_fee is_exact_tier_fee fee_for_ratio tier_fee_lamports user_pays
    take_request sol_fee escrow_mint_cost commit_for_request check_commit require_sb_program
    select_oracle stale_keys select_oracle_in scan is_candidate start_of has_key
    oracle_last_heartbeat heartbeat_is_fresh read finish_request count_request check
    check_accounting required_vault_tokens sum3 pool_len incoming_len rd_u32 bytes_eq from_le_bytes
    to_le_bytes
captured_fits = omega arith

handle_request_capture_example :
    (w : ℕ) × (e : Econ) × (econ platform_fee_recipient sample_request.config ≡ ok e)
    × (user_pays request_runtime 0 (replicate 32 14) (replicate 32 6) (replicate 32 11) e.ratio_base
        ≡ ok w)
    × Accepted request_runtime sample_switchboard sample_request request_kind_capture no_handed_in
        captured.ledger.world full_ledger w captured
handle_request_capture_example =
    handle_request_capture_lem request_runtime sample_switchboard sample_request full_ledger
      sample_capture captured captured_fits captures

abbrev rerolled : Requesting ℕ
rerolled =
    requesting_or
      (handle_request_reroll request_runtime sample_switchboard sample_request sample_reroll
        out_ledger 5)
      nothing_done

rerolls :
    handle_request_reroll request_runtime sample_switchboard sample_request sample_reroll out_ledger
      5
    ≡ ok rerolled
unfolding handle_request_reroll reroll_constraints request_constraints econ load check_can_request
    pool_floor pending_draws request_fee is_exact_tier_fee fee_for_ratio tier_fee_lamports take_back
    transfer_asset assert_asset_state is_of take_request sol_fee escrow_mint_cost commit_for_request
    check_commit require_sb_program select_oracle stale_keys select_oracle_in scan is_candidate
    start_of has_key oracle_last_heartbeat heartbeat_is_fresh read finish_request count_request
    check check_accounting required_vault_tokens sum3 pool_len incoming_len rd_u32 bytes_eq
    from_le_bytes to_le_bytes
rerolls = refl

handle_request_reroll_example :
    (w : ℕ) × (take_back request_runtime 7 []
        (replicate 32 12)
        (replicate 32 4)
        (replicate 32 11)
        (replicate 32 13)
      ≡ ok w)
    × (accepted : Accepted request_runtime sample_switchboard sample_request request_kind_reroll 5 7
        out_ledger w rerolled)
    × (5 < accepted.econ_read.collection_size)
handle_request_reroll_example =
    handle_request_reroll_lem request_runtime sample_switchboard sample_request out_ledger
      sample_reroll 5 rerolled (omega arith) rerolls
