-- ===== src/Vault/RandomnessIx.antt =====
-- programs/hybrid_vault/src/instructions/randomness_ix.rs: the life of a request's randomness.
pub mod Retry
pub mod Attempts
pub mod Reveal
use launchpad.Prelude.{
  ℕ, ◌+◌, List, [], ◌∷◌, Bool, true, not, ok, require, ok_or, ◌>>=◌, ◌>>◌, ltb, leb, ◌==◌, take,
  set, checked_add,
}
use launchpad.Bytes.{Bytes, bytes_eq, has_key}
use launchpad.Vault.Error.{
  Outcome, math_overflow, wrong_queue, randomness_mismatch, randomness_already_revealed,
  randomness_not_revealed, deadline_not_reached, recommits_exhausted, oracle_reused,
}
use launchpad.Vault.State.{Vault, Request, RandLock, max_recommits, reveal_timeout_slots}
use launchpad.Vault.Chain.{Runtime, constraint}
use launchpad.Vault.Randomness.{
  CommitAccounts, Switchboard, RevealArgs, is_revealed, read, commit_for_request, reveal,
  init_account,
}

-- The keys of the accounts of `init_randomness`; the authority is at the address that a bump stored
-- in the vault fixes.
pub record InitRandomness : Type 0 where
  pub payer : Bytes
  pub randomness : Bytes
  pub randomness_authority : Bytes
  pub sb_reward_escrow : Bytes
  pub sb_queue : Bytes
  pub system_program : Bytes
  pub token_program : Bytes
  pub associated_token_program : Bytes
  pub wrapped_sol_mint : Bytes
  pub sb_program_state : Bytes
  pub sb_lut_signer : Bytes
  pub sb_lut : Bytes
  pub address_lookup_table_program : Bytes
  pub switchboard_program : Bytes

pub record RevealRandomness : Type 0 where
  pub payer : Bytes
  pub vault_key : Bytes
  pub randomness : Bytes
  pub randomness_authority : Bytes
  pub sb_oracle : Bytes
  pub sb_queue : Bytes
  pub sb_stats : Bytes
  pub slot_hashes : Bytes
  pub system_program : Bytes
  pub sb_reward_escrow : Bytes
  pub token_program : Bytes
  pub wrapped_sol_mint : Bytes
  pub sb_program_state : Bytes
  pub switchboard_program : Bytes

-- What a new commit changes.
pub record Retried (W : Type 0) : Type 0 where
  pub vault : Vault
  pub request : Request
  pub world : W

-- The writes of `handle_recommit_randomness`, after the commit.
unfoldable pub record_commit : Vault → Request → ℕ → ℕ → Bytes → Outcome (Vault × Request)
record_commit vault req slot seed_slot oracle = do
  deadline ← ok_or (checked_add 64 slot reveal_timeout_slots) math_overflow
  commits ← ok_or (checked_add 8 req.commits 1) math_overflow
  total ← ok_or (checked_add 64 vault.total_recommits 1) math_overflow
  ok (
    record vault { total_recommits = total },
    record req {
      seed_slot = seed_slot;
      deadline_slot = deadline;
      oracles = set req.oracles req.commits oracle;
      commits = commits;
    },
  )

module _ {W : Type 0} (rt : Runtime W) (sb : Switchboard W) where
  unfoldable pub init_constraints : InitRandomness → Vault → Outcome (Unit {0})
  init_constraints a vault = do
    require (bytes_eq a.sb_queue vault.sb_queue) wrong_queue
    constraint (bytes_eq a.system_program rt.system_program_id)
    constraint (bytes_eq a.token_program sb.token_program_id)
    constraint (bytes_eq a.associated_token_program sb.associated_token_program_id)
    constraint (bytes_eq a.wrapped_sol_mint sb.wrapped_sol_mint)
    constraint (bytes_eq a.address_lookup_table_program sb.address_lookup_table_program_id)
    constraint (bytes_eq a.switchboard_program rt.switchboard_program_id)

  unfoldable pub handle_init_randomness : InitRandomness → Vault → W → ℕ → Outcome W
  handle_init_randomness a vault w recent_slot = do
    init_constraints a vault
    init_account rt sb w a.randomness a.randomness_authority
        (a.randomness ∷ a.sb_reward_escrow ∷ a.randomness_authority ∷ a.sb_queue ∷ a.payer
          ∷ a.system_program ∷ a.token_program ∷ a.associated_token_program ∷ a.wrapped_sol_mint
          ∷ a.sb_program_state ∷ a.sb_lut_signer ∷ a.sb_lut ∷ a.address_lookup_table_program ∷ [])
        recent_slot a.switchboard_program

  unfoldable pub reveal_constraints :
      RevealRandomness → Vault → RandLock → Request → Outcome (Unit {0})
  reveal_constraints a vault rand_lock request = do
    constraint (bytes_eq request.vault a.vault_key)
    constraint (bytes_eq request.randomness a.randomness)
    require (bytes_eq rand_lock.vault a.vault_key) randomness_mismatch
    require (bytes_eq a.sb_queue vault.sb_queue) wrong_queue
    constraint (bytes_eq a.slot_hashes sb.slot_hashes_id)
    constraint (bytes_eq a.system_program rt.system_program_id)
    constraint (bytes_eq a.token_program sb.token_program_id)
    constraint (bytes_eq a.wrapped_sol_mint sb.wrapped_sol_mint)
    constraint (bytes_eq a.switchboard_program rt.switchboard_program_id)

  -- The request's last commit stands in its randomness account, not revealed.
  unfoldable pub check_pending : W → Bytes → ℕ → Outcome (Unit {0})
  check_pending w randomness seed_slot = do
    snap ← read rt w randomness
    require (snap.seed_slot == seed_slot) randomness_mismatch
    require (not (is_revealed snap seed_slot)) randomness_already_revealed

  -- The request as the handler leaves it, and the rest of the world.
  unfoldable pub handle_reveal_randomness :
      RevealRandomness → Vault → RandLock → Request → W → RevealArgs → Outcome (Request × W)
  handle_reveal_randomness a vault rand_lock request w args = do
    reveal_constraints a vault rand_lock request
    require (not request.revealed) randomness_already_revealed
    check_pending w a.randomness request.seed_slot
    w1 ←
        reveal rt sb w
          (a.randomness ∷ a.sb_oracle ∷ a.sb_queue ∷ a.sb_stats ∷ a.randomness_authority ∷ a.payer
            ∷ a.slot_hashes ∷ a.system_program ∷ a.sb_reward_escrow ∷ a.token_program
            ∷ a.wrapped_sol_mint ∷ a.sb_program_state ∷ [])
          args a.switchboard_program
    snap ← read rt w1 a.randomness
    require (is_revealed snap request.seed_slot) randomness_not_revealed
    ok (record request { revealed = true; value = snap.value }, w1)

  unfoldable pub recommit_constraints : CommitAccounts → Bytes → Request → Outcome (Unit {0})
  recommit_constraints a vault_key request = do
    constraint (bytes_eq request.vault vault_key)
    constraint (bytes_eq request.randomness a.randomness)
    constraint (bytes_eq a.slot_hashes sb.slot_hashes_id)
    constraint (bytes_eq a.switchboard_program rt.switchboard_program_id)

  -- The guards of `handle_recommit_randomness`.
  unfoldable pub check_retry : CommitAccounts → Request → W → Outcome (Unit {0})
  check_retry a req w = do
    require (not req.revealed) randomness_already_revealed
    require (ltb req.deadline_slot (rt.slot w)) deadline_not_reached
    require (leb req.commits max_recommits) recommits_exhausted
    require (not (has_key (take req.commits req.oracles) a.oracle)) oracle_reused
    check_pending w a.randomness req.seed_slot

  unfoldable pub handle_recommit_randomness :
      CommitAccounts → Bytes → Vault → Request → W → Outcome (Retried W)
  handle_recommit_randomness a vault_key vault req w = do
    recommit_constraints a vault_key req
    check_retry a req w
    let used = take req.commits req.oracles
    committed ← commit_for_request rt sb w a vault.sb_queue vault_key req.seq used
    written ← record_commit vault req (rt.slot w) committed.0 a.oracle
    ok (record { vault = written.0; request = written.1; world = committed.1 })
