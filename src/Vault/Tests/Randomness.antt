-- ===== src/Vault/Tests/Randomness.antt =====
-- programs/hybrid_vault/src/randomness.rs and instructions/randomness_ix.rs: the life of a request's
-- randomness, tried on a small queue.
use launchpad.Prelude.{
  ℕ, ◌+◌, ◌*◌, ◌≤◌, ◌<◌, ◌≡◌, ◌↔◌, refl, pos, [], ◌∷◌, ◌++◌, true, false, some, ok, replicate,
  get_or, if◌then◌else◌, arith,
}
use launchpad.Bytes.{Bytes, bytes_eq, from_le_bytes, to_le_bytes, has_key}
use launchpad.Vault.State.{Request, RandLock}
use launchpad.Vault.Chain.{Runtime}
use launchpad.Vault.Oracles.{scan, is_candidate, start_of, select_oracle_in}
use launchpad.Vault.Randomness.{
  CommitAccounts, Switchboard, RevealArgs, serialize_args, is_revealed, heartbeat_is_fresh, read,
  require_sb_program, oracle_last_heartbeat, stale_keys, select_oracle, check_commit,
  commit_for_request, reveal,
}
use launchpad.Vault.Randomness.Heartbeat.{heartbeat_is_fresh_iff}
use launchpad.Vault.Randomness.Commit.{Committed, commit_for_request-Committed}
use launchpad.Vault.RandomnessIx.{
  RevealRandomness, Retried, reveal_constraints, recommit_constraints, check_pending, check_retry,
  record_commit, handle_reveal_randomness, handle_recommit_randomness,
}
use launchpad.Vault.RandomnessIx.Reveal.{Revealed, handle_reveal_randomness_lem}
use launchpad.Vault.RandomnessIx.Attempts.{
  no_attempt, and_next, recommitted, revealed_by, Final, Attempts-Final,
}
use launchpad.Vault.RandomnessIx.Retry.{Tried, Recommitted, handle_recommit_randomness-Tried}
use launchpad.Vault.Tests.{sample_key, sample_hash, sample_vault, sample_runtime}

-- The queue has the oracles 20 and 21.
abbrev pub small_queue : Bytes
small_queue =
    replicate 8 1 ++ ((2 ∷ 0 ∷ 0 ∷ 0 ∷ 0 ∷ 0 ∷ 0 ∷ 0 ∷ []) ++ (replicate 32 20 ++ replicate 32 21))

-- An oracle that was heard of at the time 4096.
abbrev pub live_oracle : Bytes
live_oracle = (128 ∷ 30 ∷ 16 ∷ 241 ∷ 170 ∷ 73 ∷ 55 ∷ 54 ∷ []) ++ (0 ∷ 16 ∷ replicate 6 0)

abbrev pub sample_switchboard : Switchboard ℕ
sample_switchboard = record {
  hashv = sample_hash;
  queue_layout = record { size = 72; keys_off = 8; len_off = 0; curr_off = 4 };
  queue_discriminator = replicate 8 1;
  oracle_size = 8;
  oracle_heartbeat = 0;
  slot_hashes_id = replicate 32 30;
  token_program_id = replicate 32 31;
  associated_token_program_id = replicate 32 32;
  wrapped_sol_mint = replicate 32 33;
  address_lookup_table_program_id = replicate 32 34;
  randomness_commit = λ w a. some w;
  randomness_reveal = λ w accounts args. some (w + 1);
  randomness_init = λ w accounts args. some w;
}

-- The state is the number of reveals so far; the slot of the last commit is the one before now.
abbrev pub oracle_runtime : Runtime ℕ
oracle_runtime = record sample_runtime {
  data_of = λ w k.
      if bytes_eq k (replicate 32 8)
      then small_queue
      else if bytes_eq k (replicate 32 19)
      then w ∷ []
      else live_oracle;
  parse_randomness = λ d. some (record {
    authority = replicate 32 18;
    queue = replicate 32 8;
    seed_slot = 999_999;
    reveal_slot = 1_000_000 * get_or d 0 0;
    value = replicate 32 42;
  });
}

abbrev pub sample_commit : CommitAccounts
sample_commit = record {
  randomness = replicate 32 19;
  queue = replicate 32 8;
  oracle = replicate 32 21;
  slot_hashes = replicate 32 30;
  randomness_authority = replicate 32 18;
  switchboard_program = [];
  stale_proofs = [];
}

commits :
    commit_for_request oracle_runtime sample_switchboard 0 sample_commit
      (replicate 32 8)
      sample_key
      6
      (replicate 32 20 ∷ [])
    ≡ ok (999_999, 0)
unfolding commit_for_request check_commit require_sb_program select_oracle stale_keys
    select_oracle_in scan is_candidate start_of has_key oracle_last_heartbeat heartbeat_is_fresh
    read bytes_eq from_le_bytes to_le_bytes
commits = refl

commit_for_request-Committed_example :
    Committed oracle_runtime sample_switchboard sample_commit
      (replicate 32 8)
      (replicate 32 20 ∷ [])
      0
      999_999
      0
commit_for_request-Committed_example =
    commit_for_request-Committed oracle_runtime sample_switchboard 0 sample_commit (replicate 32 8)
      sample_key 6 (replicate 32 20 ∷ []) (999_999, 0) commits

heartbeat_is_fresh_iff_example :
    (heartbeat_is_fresh (pos 4_096) (pos 5_000) ≡ true) ↔ (5_000 + 0 ≤ 4_096 + 0 + 3_600)
heartbeat_is_fresh_iff_example = heartbeat_is_fresh_iff (pos 4_096) (pos 5_000)

abbrev tried_request : Request
tried_request = record {
  bump = 250;
  kind = 0;
  vault = sample_key;
  seq = 6;
  user = replicate 32 11;
  randomness = replicate 32 19;
  seed_slot = 999_999;
  deadline_slot = 9_501;
  commits = 1;
  oracles = replicate 32 20 ∷ replicate 3 (replicate 32 0);
  revealed = false;
  value = replicate 32 0;
  handed_in_index = 4_294_967_295;
  mint_escrow_lamports = 6_338_100;
}

abbrev retried : Retried ℕ
retried = record {
  vault = record sample_vault { total_recommits = 1 };
  request = record tried_request {
    deadline_slot = 1_009_000;
    commits = 2;
    oracles = replicate 32 20 ∷ replicate 32 21 ∷ replicate 2 (replicate 32 0);
  };
  world = 0;
}

retries :
    handle_recommit_randomness oracle_runtime sample_switchboard sample_commit sample_key
      sample_vault tried_request 0
    ≡ ok retried
unfolding handle_recommit_randomness recommit_constraints check_retry check_pending record_commit
    is_revealed commit_for_request check_commit require_sb_program select_oracle stale_keys
    select_oracle_in scan is_candidate start_of has_key oracle_last_heartbeat heartbeat_is_fresh
    read bytes_eq from_le_bytes to_le_bytes
retries = refl

tried : Tried tried_request
unfolding has_key
tried = record { room = refl; some_commit = omega arith; few = omega arith; distinct = (refl, tt) }

handle_recommit_randomness-Tried_example :
    Tried retried.request
    × (false ≡ false)
    × (9_501 < 1_000_000)
    × (1 ≤ 3)
    × ((seed_slot : ℕ) × Recommitted sample_vault tried_request 1_000_000 seed_slot
          (replicate 32 21)
          retried.vault
          retried.request
        × Committed oracle_runtime sample_switchboard sample_commit
            (replicate 32 8)
            (replicate 32 20 ∷ [])
            0
            seed_slot
            0)
handle_recommit_randomness-Tried_example =
    handle_recommit_randomness-Tried oracle_runtime sample_switchboard sample_commit sample_key
      sample_vault tried_request 0 retried tried retries

abbrev sample_reveal : RevealRandomness
sample_reveal = record {
  payer = replicate 32 11;
  vault_key = sample_key;
  randomness = replicate 32 19;
  randomness_authority = replicate 32 18;
  sb_oracle = replicate 32 20;
  sb_queue = replicate 32 8;
  sb_stats = replicate 32 35;
  slot_hashes = replicate 32 30;
  system_program = [];
  sb_reward_escrow = replicate 32 36;
  token_program = replicate 32 31;
  wrapped_sol_mint = replicate 32 33;
  sb_program_state = replicate 32 37;
  switchboard_program = [];
}

abbrev sample_lock : RandLock
sample_lock = record { bump = 249; vault = sample_key; seq = 6 }

abbrev sample_args : RevealArgs
sample_args = record { signature = replicate 64 7; recovery_id = 1; value = replicate 32 42 }

abbrev revealed_request : Request
revealed_request = record tried_request { revealed = true; value = replicate 32 42 }

reveals :
    handle_reveal_randomness oracle_runtime sample_switchboard sample_reveal sample_vault
      sample_lock tried_request 0 sample_args
    ≡ ok (revealed_request, 1)
unfolding handle_reveal_randomness reveal_constraints check_pending is_revealed reveal
    require_sb_program serialize_args read bytes_eq
reveals = refl

handle_reveal_randomness_example :
    Revealed oracle_runtime (replicate 32 19) tried_request revealed_request 1
handle_reveal_randomness_example =
    handle_reveal_randomness_lem oracle_runtime sample_switchboard sample_reveal sample_vault
      sample_lock tried_request 0 sample_args (revealed_request, 1) reveals

-- The request of one commit is committed again, and then revealed.
abbrev second_lock : RandLock
second_lock = record { bump = 249; vault = sample_key; seq = 6 }

abbrev twice_request : Request
twice_request = record retried.request { revealed = true; value = replicate 32 42 }

second_reveals :
    handle_reveal_randomness oracle_runtime sample_switchboard sample_reveal sample_vault
      second_lock retried.request 0 sample_args
    ≡ ok (twice_request, 1)
unfolding handle_reveal_randomness reveal_constraints check_pending is_revealed reveal
    require_sb_program serialize_args read bytes_eq
second_reveals = refl

Attempts-Final_example : Final oracle_runtime tried_request twice_request (1 ∷ 0 ∷ [])
Attempts-Final_example =
    Attempts-Final oracle_runtime sample_switchboard
      (and_next
        (and_next no_attempt
          (recommitted sample_commit sample_key sample_vault retried retries refl refl))
        (revealed_by sample_reveal sample_vault second_lock sample_args (twice_request, 1)
          second_reveals refl refl))
      tried
