-- ===== src/Vault/Randomness.antt =====
-- programs/hybrid_vault/src/randomness.rs: the interface to Switchboard. Its account layouts, its calls
-- and SHA-256 are the parameter `sb`.
pub mod Heartbeat
pub mod Commit
use launchpad.Prelude.{
  ℕ, ◌+◌, ℤ, pos, to_i64, saturating_sub, leb_ℤ, List, [], ◌∷◌, ◌++◌, Bool, true, false, not, ◌&&◌,
  ◌||◌, Option, none, some, ok, require, ok_or, ◌>>=◌, ◌>>◌, leb, ltb, ◌==◌, length, take,
  if◌then◌else◌, checked_add,
}
use launchpad.Bytes.{Bytes, slice, from_le_bytes, to_le_bytes, bytes_eq}
use launchpad.Vault.Error.{
  Outcome, invalid_randomness_account, wrong_queue, wrong_oracle, oracle_stale,
  randomness_authority_mismatch, randomness_not_fresh,
}
use launchpad.Vault.Chain.{Runtime, RandomnessSnapshot, invoke}
use launchpad.Vault.Oracles.{QueueLayout, select_oracle_in}

abbrev pub max_oracle_heartbeat_age_secs : ℕ
max_oracle_heartbeat_age_secs = 3_600

abbrev pub oracle_account_discriminator : Bytes
oracle_account_discriminator = 128 ∷ 30 ∷ 16 ∷ 241 ∷ 170 ∷ 73 ∷ 55 ∷ 54 ∷ []

-- The keys of the accounts of a commit.
pub record CommitAccounts : Type 0 where
  pub randomness : Bytes
  pub queue : Bytes
  pub oracle : Bytes
  pub slot_hashes : Bytes
  pub randomness_authority : Bytes
  pub switchboard_program : Bytes
  pub stale_proofs : List Bytes

-- What the program uses of Switchboard, and of SHA-256.
pub record Switchboard (W : Type 0) : Type 0 where
  pub hashv : List Bytes → Bytes
  pub queue_layout : QueueLayout
  pub queue_discriminator : Bytes
  -- body size, offset of `last_heartbeat`
  pub oracle_size : ℕ
  pub oracle_heartbeat : ℕ
  pub slot_hashes_id : Bytes
  pub token_program_id : Bytes
  pub associated_token_program_id : Bytes
  pub wrapped_sol_mint : Bytes
  pub address_lookup_table_program_id : Bytes
  pub randomness_commit : W → CommitAccounts → Option W
  -- the accounts in Switchboard's order, and the serialised arguments
  pub randomness_reveal : W → List Bytes → Bytes → Option W
  pub randomness_init : W → List Bytes → Bytes → Option W

pub record RevealArgs : Type 0 where
  pub signature : Bytes
  pub recovery_id : ℕ
  pub value : Bytes

-- `args.serialize(..)`
unfoldable pub serialize_args : RevealArgs → Bytes
serialize_args args = args.signature ++ (args.recovery_id ∷ args.value)

unfoldable pub is_revealed : RandomnessSnapshot → ℕ → Bool
is_revealed snap expected_seed_slot =
    (snap.seed_slot == expected_seed_slot) && ltb snap.seed_slot snap.reveal_slot

unfoldable pub heartbeat_is_fresh : ℤ → ℤ → Bool
heartbeat_is_fresh last_heartbeat now =
    leb_ℤ (saturating_sub now last_heartbeat) (pos max_oracle_heartbeat_age_secs)

module _ {W : Type 0} (rt : Runtime W) where
  unfoldable pub read : W → Bytes → Outcome RandomnessSnapshot
  read w account = do
    require (bytes_eq (rt.owner_of w account) rt.switchboard_program_id) invalid_randomness_account
    ok_or (rt.parse_randomness (rt.data_of w account)) invalid_randomness_account

  unfoldable pub require_sb_program : W → Bytes → Outcome (Unit {0})
  require_sb_program w program = do
    require (bytes_eq program rt.switchboard_program_id) invalid_randomness_account
    require (rt.is_executable w program) invalid_randomness_account

module _ {W : Type 0} (rt : Runtime W) (sb : Switchboard W) where
  unfoldable pub oracle_last_heartbeat : W → Bytes → Option ℤ
  oracle_last_heartbeat w acc =
      let d = rt.data_of w acc in
      if not (bytes_eq (rt.owner_of w acc) rt.switchboard_program_id)
      then none
      else (if ltb (length d) (8 + sb.oracle_size)
            || not (bytes_eq (take 8 d) oracle_account_discriminator)
          then none
          else some (to_i64 (from_le_bytes (slice d (8 + sb.oracle_heartbeat) 8))))

  -- `oracle_last_heartbeat(a).is_some_and(|hb| !heartbeat_is_fresh(hb, now))`
  unfoldable pub is_proven_stale : W → ℤ → Bytes → Bool
  is_proven_stale w now acc = elim (oracle_last_heartbeat w acc) [
    | none ↦ false
    | some hb ↦ not (heartbeat_is_fresh hb now)
  ]

  -- `stale_proofs.iter().filter(..).collect()`
  unfoldable pub stale_keys : W → ℤ → List Bytes → List Bytes
  stale_keys w now [] = []
  stale_keys w now (a ∷ proofs) =
      let rest = stale_keys w now proofs in if is_proven_stale w now a then a ∷ rest else rest

  unfoldable pub select_oracle : W → Bytes → Bytes → ℕ → List Bytes → List Bytes → ℤ → Outcome Bytes
  select_oracle w queue vault_key seq used stale_proofs now = do
    require (bytes_eq (rt.owner_of w queue) rt.switchboard_program_id) wrong_queue
    select_oracle_in sb.hashv sb.queue_layout sb.queue_discriminator (rt.data_of w queue) vault_key
        seq used (stale_keys w now stale_proofs)

  -- The checks before the commit.
  unfoldable pub check_commit :
      W → CommitAccounts → Bytes → Bytes → ℕ → List Bytes → Outcome (Unit {0})
  check_commit w a pinned_queue vault_key seq used = do
    require_sb_program rt w a.switchboard_program
    require (bytes_eq a.slot_hashes sb.slot_hashes_id) invalid_randomness_account
    require (bytes_eq a.queue pinned_queue) wrong_queue
    let now = rt.unix_timestamp w
    chosen ← select_oracle w a.queue vault_key seq used a.stale_proofs now
    require (bytes_eq a.oracle chosen) wrong_oracle
    hb ← ok_or (oracle_last_heartbeat w a.oracle) wrong_oracle
    require (heartbeat_is_fresh hb now) oracle_stale
    before ← read rt w a.randomness
    require (bytes_eq before.authority a.randomness_authority) randomness_authority_mismatch
    require (bytes_eq before.queue pinned_queue) wrong_queue

  unfoldable pub commit_for_request :
      W → CommitAccounts → Bytes → Bytes → ℕ → List Bytes → Outcome (ℕ × W)
  commit_for_request w a pinned_queue vault_key seq used = do
    check_commit w a pinned_queue vault_key seq used
    w1 ← invoke (sb.randomness_commit w a)
    after ← read rt w1 a.randomness
    require (after.seed_slot + 1 == rt.slot w1) randomness_not_fresh
    require (leb after.reveal_slot after.seed_slot) randomness_not_fresh
    ok (after.seed_slot, w1)

  unfoldable pub reveal : W → List Bytes → RevealArgs → Bytes → Outcome W
  reveal w accounts args switchboard_program = do
    require_sb_program rt w switchboard_program
    invoke (sb.randomness_reveal w accounts (serialize_args args))

  -- The account, its authority, the rest of the accounts, and the recent slot.
  unfoldable pub init_account : W → Bytes → Bytes → List Bytes → ℕ → Bytes → Outcome W
  init_account w account authority accounts recent_slot switchboard_program = do
    require_sb_program rt w switchboard_program
    w1 ← invoke (sb.randomness_init w accounts (to_le_bytes 8 recent_slot))
    snap ← read rt w1 account
    require (bytes_eq snap.authority authority) randomness_authority_mismatch
    ok w1
