-- ===== src/Vault/Randomness/Commit.antt =====
-- programs/hybrid_vault/src/randomness.rs: what a successful commit has checked.
use launchpad.Prelude.{
  ℕ, ◌+◌, ◌≡◌, ap, subst, ◌∙◌, refl, ℤ, List, true, false, ok, ok_or, >>=-eq-ok, ok-injective,
  require-eq-ok, require_last, ok_or-eq-ok, leb, ◌==◌, arith, some,
}
use launchpad.Bytes.{Bytes, bytes_eq, has_key}
use launchpad.Bytes.Laws.{bytes_eq_sound}
use launchpad.Vault.Error.{
  invalid_randomness_account, wrong_queue, wrong_oracle, oracle_stale,
  randomness_authority_mismatch, randomness_not_fresh,
}
use launchpad.Vault.Chain.{Runtime, RandomnessSnapshot, invoke}
use launchpad.Vault.Oracles.{is_candidate}
use launchpad.Vault.Oracles.Choice.{select_oracle_in-candidate}
use launchpad.Vault.Randomness.{
  CommitAccounts, Switchboard, is_revealed, heartbeat_is_fresh, read, require_sb_program,
  oracle_last_heartbeat, stale_keys, select_oracle, check_commit, commit_for_request,
}

-- An oracle that the queue's rotation can choose.
is_candidate-parts :
    (used stale : List Bytes) (k : Bytes)
    → is_candidate used stale k ≡ true
    → (has_key used k ≡ false) × (has_key stale k ≡ false)
unfolding is_candidate
is_candidate-parts used stale k h = ground arith

-- What stands before a commit that succeeds.
pub record Checked {W : Type 0} (rt : Runtime W) (sb : Switchboard W) (a : CommitAccounts)
    (pinned_queue : Bytes) (used : List Bytes) (w : W) : Type 0 where
  pub pinned : a.queue ≡ pinned_queue
  pub unused : has_key used a.oracle ≡ false
  pub not_stale : has_key (stale_keys rt sb w (rt.unix_timestamp w) a.stale_proofs) a.oracle ≡ false
  pub heartbeat : ℤ
  pub beats : oracle_last_heartbeat rt sb w a.oracle ≡ some heartbeat
  pub fresh : heartbeat_is_fresh heartbeat (rt.unix_timestamp w) ≡ true
  pub before : RandomnessSnapshot
  pub reads_before : read rt w a.randomness ≡ ok before
  pub owned : before.authority ≡ a.randomness_authority
  pub same_queue : before.queue ≡ pinned_queue

-- What stands when a commit has succeeded: `w` is the state before, and `w'` after.
pub record Committed {W : Type 0} (rt : Runtime W) (sb : Switchboard W) (a : CommitAccounts)
    (pinned_queue : Bytes) (used : List Bytes) (w : W) (seed_slot : ℕ) (w' : W) : Type 0 where
  pub checked : Checked rt sb a pinned_queue used w
  pub after : RandomnessSnapshot
  pub reads_after : read rt w' a.randomness ≡ ok after
  pub seeded : after.seed_slot ≡ seed_slot
  pub last_slot : seed_slot + 1 ≡ rt.slot w'
  pub unrevealed : is_revealed after seed_slot ≡ false

module _ {W : Type 0} (rt : Runtime W) (sb : Switchboard W) where
  select_oracle-candidate :
      (w : W) (queue vault_key : Bytes) (seq : ℕ) (used proofs : List Bytes) (now : ℤ) (k : Bytes)
      → select_oracle rt sb w queue vault_key seq used proofs now ≡ ok k
      → (has_key used k ≡ false) × (has_key (stale_keys rt sb w now proofs) k ≡ false)
  unfolding select_oracle
  select_oracle-candidate w queue vault_key seq used proofs now k h =
      let (owned, h1) =
        require-eq-ok (bytes_eq (rt.owner_of w queue) rt.switchboard_program_id) wrong_queue _ h in
      is_candidate-parts used (stale_keys rt sb w now proofs) k (
        select_oracle_in-candidate sb.hashv sb.queue_layout sb.queue_discriminator
          (rt.data_of w queue) vault_key seq used (stale_keys rt sb w now proofs) k h1)

  check_commit-Checked :
      (w : W) (a : CommitAccounts) (pinned_queue vault_key : Bytes) (seq : ℕ) (used : List Bytes)
      → check_commit rt sb w a pinned_queue vault_key seq used ≡ ok tt
      → Checked rt sb a pinned_queue used w
  unfolding check_commit
  check_commit-Checked w a pinned_queue vault_key seq used h0 =
      let now = rt.unix_timestamp w in
      let (u1, e1, h1) = >>=-eq-ok (require_sb_program rt w a.switchboard_program) _ h0 in
      let (slot_hashes, h2) = require-eq-ok _ invalid_randomness_account _ h1 in
      let (queue, h3) = require-eq-ok (bytes_eq a.queue pinned_queue) wrong_queue _ h2 in
      let (chosen, e4, h4) =
        >>=-eq-ok (select_oracle rt sb w a.queue vault_key seq used a.stale_proofs now) _ h3 in
      let (is_chosen, h5) = require-eq-ok (bytes_eq a.oracle chosen) wrong_oracle _ h4 in
      let (hb, e6, h6) =
        >>=-eq-ok (ok_or (oracle_last_heartbeat rt sb w a.oracle) wrong_oracle) _ h5 in
      let (fresh, h7) = require-eq-ok (heartbeat_is_fresh hb now) oracle_stale _ h6 in
      let (before, e8, h8) = >>=-eq-ok (read rt w a.randomness) _ h7 in
      let (owned, h9) =
        require-eq-ok (bytes_eq before.authority a.randomness_authority)
          randomness_authority_mismatch _ h8 in
      let same : a.oracle ≡ chosen = bytes_eq_sound a.oracle chosen is_chosen in
      let c = select_oracle-candidate w a.queue vault_key seq used a.stale_proofs now chosen e4 in
      record {
        pinned = bytes_eq_sound a.queue pinned_queue queue;
        unused = ap (has_key used) same ∙ c.0;
        not_stale = ap (has_key (stale_keys rt sb w now a.stale_proofs)) same ∙ c.1;
        heartbeat = hb;
        beats = ok_or-eq-ok (oracle_last_heartbeat rt sb w a.oracle) wrong_oracle e6;
        fresh = fresh;
        before = before;
        reads_before = e8;
        owned = bytes_eq_sound before.authority a.randomness_authority owned;
        same_queue = bytes_eq_sound before.queue pinned_queue (require_last _ wrong_queue h9);
      }

  not-is_revealed :
      (after : RandomnessSnapshot) (seed_slot : ℕ)
      → after.seed_slot ≡ seed_slot
      → leb after.reveal_slot after.seed_slot ≡ true
      → is_revealed after seed_slot ≡ false
  unfolding is_revealed
  not-is_revealed after seed_slot e h = ground arith

  -- A commit that succeeds has used the pinned queue, and an oracle that the request has not used
  -- before, that is not proven stale, and whose own account shows a fresh heartbeat. The randomness
  -- account was one of Switchboard's, under the vault's authority and the pinned queue. Whatever the
  -- call did, the account then holds the returned seed slot, which is the slot before the clock's, and
  -- is not revealed for it.
  pub commit_for_request-Committed :
      (w : W) (a : CommitAccounts) (pinned_queue vault_key : Bytes) (seq : ℕ) (used : List Bytes)
      (out : ℕ × W)
      → commit_for_request rt sb w a pinned_queue vault_key seq used ≡ ok out
      → Committed rt sb a pinned_queue used w out.0 out.1
  unfolding commit_for_request
  commit_for_request-Committed w a pinned_queue vault_key seq used out h0 =
      let (u1, e1, h1) = >>=-eq-ok (check_commit rt sb w a pinned_queue vault_key seq used) _ h0 in
      let (w1, e2, h2) = >>=-eq-ok (invoke (sb.randomness_commit w a)) _ h1 in
      let (after, e3, h3) = >>=-eq-ok (read rt w1 a.randomness) _ h2 in
      let (last, h4) =
        require-eq-ok (after.seed_slot + 1 == rt.slot w1) randomness_not_fresh _ h3 in
      let (quiet, h5) =
        require-eq-ok (leb after.reveal_slot after.seed_slot) randomness_not_fresh _ h4 in
      subst (λ (o : ℕ × W). Committed rt sb a pinned_queue used w o.0 o.1) (ok-injective h5)
        (record {
          checked = check_commit-Checked w a pinned_queue vault_key seq used e1;
          after = after;
          reads_after = e3;
          seeded = refl;
          last_slot = ground arith;
          unrevealed = not-is_revealed after after.seed_slot refl quiet;
        })
