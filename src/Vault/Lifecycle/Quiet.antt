-- ===== src/Vault/Lifecycle/Quiet.antt =====
-- programs/hybrid_vault/src: the instructions that move no token of the vault's account.
use launchpad.Prelude.{
  ℕ, ◌+◌, ◌-◌, ◌^◌, min, leb, ◌≤◌, ◌≡◌, ap, subst, List, [], take, some, Option, ok, ok_or,
  checked_add, ◌>>◌, >>=-eq-ok, ok-injective, require-eq-ok, unwrap_option-eq-ok, ltb, ◌==◌,
  Bool-cases, inl, inr, arith,
}
use launchpad.Bytes.{Bytes, bytes_eq}
use launchpad.Launch.Constants.{core_asset_space_bytes, core_create_fee_lamports}
use launchpad.Launch.Constants.{platform_fee_recipient}
use launchpad.Vault.Error.{
  asset_state_mismatch, wrong_asset, mint_escrow_short, mint_args_missing, math_overflow,
  index_out_of_range, randomness_not_fresh, mint_cost_constant_stale,
}
use launchpad.Vault.State.{Vault, Request, request_kind_reroll}
use launchpad.Vault.Config.{econ, request_fee}
use launchpad.Vault.Pool.{load, is_minted, mark_minted}
use launchpad.Vault.Invariants.{check}
use launchpad.Vault.Chain.{Runtime, invoke}
use launchpad.Vault.Merkle.{check_leaf}
use launchpad.Vault.Assets.{
  take_back, transfer_asset, assert_asset_state, sol_fee, deliver, drain_prefunded_pda,
  refund_escrow, asset_address, create_asset, mint_to_user, asset_name,
}
use launchpad.Vault.Settle.{Settle, MintArgs, hand_over, handle_settle}
use launchpad.Vault.Settle.Counts.{Settled, handle_settle-Settled}
use launchpad.Vault.Randomness.{CommitAccounts, Switchboard, check_commit, commit_for_request, read}
use launchpad.Vault.RandomnessIx.{
  Retried, recommit_constraints, check_retry, record_commit, handle_recommit_randomness,
}
use launchpad.Vault.Release.{Ledger}
use launchpad.Vault.Requests.{
  Taken, check_can_request, escrow_mint_cost, finish_request, mint_escrow_lamports_const,
}
use launchpad.Vault.Requests.Handlers.{
  RequestAccounts, RerollAccounts, Requesting, new_request, reroll_constraints, take_request,
  handle_request_reroll,
}

-- What the programs of Core, System and Switchboard promise: the transfer and the creation of an asset,
-- a transfer of lamports and a commit of randomness do not take tokens out of the vault's account.
pub record Quiet {W : Type 0} (rt : Runtime W) (sb : Switchboard W) (account : Bytes) : Type 0 where
  pub core_transfer :
      (w w' : W) (asset collection payer authority new_owner : Bytes)
      → rt.core_transfer w asset collection payer authority new_owner ≡ some w'
      → rt.token_amount w account ≤ rt.token_amount w' account
  pub core_create :
      (w w' : W) (asset collection authority payer owner name uri : Bytes)
      → rt.core_create w asset collection authority payer owner name uri ≡ some w'
      → rt.token_amount w account ≤ rt.token_amount w' account
  pub system_transfer :
      (w w' : W) (from to : Bytes) (lamports : ℕ)
      → rt.system_transfer w from to lamports ≡ some w'
      → rt.token_amount w account ≤ rt.token_amount w' account
  pub randomness_commit :
      (w w' : W) (a : CommitAccounts)
      → sb.randomness_commit w a ≡ some w'
      → rt.token_amount w account ≤ rt.token_amount w' account

module _ {W : Type 0} (rt : Runtime W) (sb : Switchboard W) (account : Bytes)
    (quiet : Quiet rt sb account) where
  abbrev amount : W → ℕ
  amount w = rt.token_amount w account

  reaches : {w w' : W} (v : W) → amount v ≤ amount w → w ≡ w' → amount v ≤ amount w'
  reaches v le e = subst (λ z. amount v ≤ amount z) e le

  transfer_asset-amount :
      (w w' : W) (core asset collection payer authority new_owner : Bytes)
      → transfer_asset rt w core asset collection payer authority new_owner ≡ ok w'
      → amount w ≤ amount w'
  unfolding transfer_asset
  transfer_asset-amount w w' core asset collection payer authority new_owner h =
      let (same, moved) = require-eq-ok (bytes_eq core rt.mpl_core_id) asset_state_mismatch _ h in
      quiet.core_transfer w w' asset collection payer authority new_owner
        (unwrap_option-eq-ok (rt.core_transfer w asset collection payer authority new_owner) moved)

  take_back-amount :
      (w w' : W) (core asset collection user authority : Bytes)
      → take_back rt w core asset collection user authority ≡ ok w'
      → amount w ≤ amount w'
  unfolding take_back
  take_back-amount w w' core asset collection user authority h0 =
      let (w1, e1, h1) =
        >>=-eq-ok (transfer_asset rt w core asset collection user user authority) _ h0 in
      let (u2, e2, h2) = >>=-eq-ok (assert_asset_state rt w1 asset collection authority) _ h1 in
      reaches w (transfer_asset-amount w w1 core asset collection user user authority e1)
        (ok-injective h2)

  deliver-amount :
      (w w' : W) (core asset collection payer authority user : Bytes)
      → deliver rt w core asset collection payer authority user ≡ ok w'
      → amount w ≤ amount w'
  unfolding deliver
  deliver-amount w w' core asset collection payer authority user h0 =
      let (w1, e1, h1) =
        >>=-eq-ok (transfer_asset rt w core asset collection payer authority user) _ h0 in
      let (u2, e2, h2) = >>=-eq-ok (assert_asset_state rt w1 asset collection user) _ h1 in
      reaches w (transfer_asset-amount w w1 core asset collection payer authority user e1)
        (ok-injective h2)

  drain_prefunded_pda-amount :
      (w w' : W) (pda to : Bytes) → drain_prefunded_pda rt w pda to ≡ ok w' → amount w ≤ amount w'
  unfolding drain_prefunded_pda
  drain_prefunded_pda-amount w w' pda to h = elim (Bool-cases (rt.lamports_of w pda == 0)) [
    | inl empty ↦ reaches w (omega arith) (ok-injective (rw empty at h))
    | inr some_lamports ↦
        let (fresh, moved) = require-eq-ok _ asset_state_mismatch _ (rw some_lamports at h) in
        quiet.system_transfer w w' pda to (rt.lamports_of w pda)
          (unwrap_option-eq-ok (rt.system_transfer w pda to (rt.lamports_of w pda)) moved)
  ]

  mint_to_user-amount :
      (w w' : W) (core asset collection authority escrow user vault_key : Bytes) (index : ℕ)
      (name uri : Bytes)
      → mint_to_user rt w core asset collection authority escrow user vault_key index name uri
        ≡ ok w'
      → amount w ≤ amount w'
  unfolding mint_to_user create_asset
  mint_to_user-amount w w' core asset collection authority escrow user vault_key index name uri h0 =
      let (right, h1) =
        require-eq-ok (bytes_eq asset (asset_address rt vault_key index)) wrong_asset _ h0 in
      let need =
        min (rt.minimum_balance w core_asset_space_bytes + core_create_fee_lamports) (2 ^ 64 - 1) in
      let (covered, h2) =
        require-eq-ok (leb need (rt.lamports_of w escrow)) mint_escrow_short _ h1 in
      let (w1, e3, h3) = >>=-eq-ok (drain_prefunded_pda rt w asset escrow) _ h2 in
      let (w2, e4, h4) =
        >>=-eq-ok (create_asset rt w1 core asset collection authority escrow user name uri) _ h3 in
      let (u5, e5, h5) = >>=-eq-ok (assert_asset_state rt w2 asset collection user) _ h4 in
      let (same, made) = require-eq-ok (bytes_eq core rt.mpl_core_id) asset_state_mismatch _ e4 in
      let drained = drain_prefunded_pda-amount w w1 asset escrow e3 in
      let created = quiet.core_create w1 w2 asset collection authority escrow user name uri (
        unwrap_option-eq-ok (rt.core_create w1 asset collection authority escrow user name uri)
          made) in
      reaches {w = w2} w (omega (arith, drained, created)) (ok-injective h5)

  sol_fee-amount :
      (w w' : W) (user to : Bytes) (lamports : ℕ)
      → sol_fee rt w user to lamports ≡ ok w'
      → amount w ≤ amount w'
  unfolding sol_fee
  sol_fee-amount w w' user to lamports h = elim (Bool-cases (lamports == 0)) [
    | inl free ↦ reaches w (omega arith) (ok-injective (rw free at h))
    | inr paid ↦
        quiet.system_transfer w w' user to lamports
          (unwrap_option-eq-ok (rt.system_transfer w user to lamports) (rw paid at h))
  ]

  escrow_mint_cost-amount :
      (w w' : W) (user escrow : Bytes)
      → escrow_mint_cost rt w user escrow ≡ ok w'
      → amount w ≤ amount w'
  unfolding escrow_mint_cost
  escrow_mint_cost-amount w w' user escrow h0 =
      let (fresh, h1) = require-eq-ok _ asset_state_mismatch _ h0 in
      let (covered, h2) = require-eq-ok _ mint_cost_constant_stale _ h1 in
      quiet.system_transfer w w' user escrow mint_escrow_lamports_const
        (unwrap_option-eq-ok (rt.system_transfer w user escrow mint_escrow_lamports_const) h2)

  commit_for_request-amount :
      (w : W) (a : CommitAccounts) (queue key : Bytes) (seq : ℕ) (used : List Bytes) (c : ℕ × W)
      → commit_for_request rt sb w a queue key seq used ≡ ok c
      → amount w ≤ amount c.1
  unfolding commit_for_request
  commit_for_request-amount w a queue key seq used c h0 =
      let (u1, e1, h1) = >>=-eq-ok (check_commit rt sb w a queue key seq used) _ h0 in
      let (w1, e2, h2) = >>=-eq-ok (invoke (sb.randomness_commit w a)) _ h1 in
      let (after, e3, h3) = >>=-eq-ok (read rt w1 a.randomness) _ h2 in
      let (t4, h4) = require-eq-ok _ randomness_not_fresh _ h3 in
      let (t5, h5) = require-eq-ok _ randomness_not_fresh _ h4 in
      reaches w (quiet.randomness_commit w w1 a (unwrap_option-eq-ok (sb.randomness_commit w a) e2))
        (ap (λ (x : ℕ × W). x.1) (ok-injective h5))

  take_request-amount :
      (a : RequestAccounts) (v : Vault) (w : W) (sol kind handed_in : ℕ) (t : Taken × W)
      → take_request rt sb a v w sol kind handed_in ≡ ok t
      → amount w ≤ amount t.1
  unfolding take_request
  take_request-amount a v w sol kind handed_in t h0 =
      let (w1, e1, h1) = >>=-eq-ok (sol_fee rt w a.user a.fee_recipient sol) _ h0 in
      let (w2, e2, h2) = >>=-eq-ok (escrow_mint_cost rt w1 a.user a.mint_escrow) _ h1 in
      let (c, e3, h3) =
        >>=-eq-ok (commit_for_request rt sb w2 a.commit v.sb_queue a.vault_key v.next_seq []) _
          h2 in
      let (x, e4, h4) =
        >>=-eq-ok
          (finish_request v (new_request a kind handed_in c.0 sol) (rt.slot c.1)
            mint_escrow_lamports_const)
          _ h3 in
      let fee = sol_fee-amount w w1 a.user a.fee_recipient sol e1 in
      let escrow = escrow_mint_cost-amount w1 w2 a.user a.mint_escrow e2 in
      let commit =
        commit_for_request-amount w2 a.commit v.sb_queue a.vault_key v.next_seq [] c e3 in
      reaches w (omega (arith, fee, escrow, commit)) (ap (λ (z : Taken × W). z.1) (ok-injective h4))

  -- A re-roll takes no token out of the vault's account.
  pub handle_request_reroll-amount :
      (a : RequestAccounts) (c : RerollAccounts) (s : Ledger W) (index : ℕ) (out : Requesting W)
      → handle_request_reroll rt sb a c s index ≡ ok out
      → amount s.world ≤ amount out.ledger.world
  unfolding handle_request_reroll
  handle_request_reroll-amount a c s index out h0 =
      let (u1, e1, h1) = >>=-eq-ok (reroll_constraints rt sb a c s index) _ h0 in
      let (e, e2, h2) = >>=-eq-ok (econ platform_fee_recipient a.config) _ h1 in
      let (view, e3, h3) = >>=-eq-ok (load s.pool a.vault_key) _ h2 in
      let (u4, e4, h4) = >>=-eq-ok (check_can_request s.vault e view) _ h3 in
      let (small, h5) = require-eq-ok (ltb index e.collection_size) index_out_of_range _ h4 in
      let (sol, e5, h6) = >>=-eq-ok (request_fee e.stored_fee_lamports e.ratio_whole_tokens) _ h5 in
      let (w1, e6, h7) =
        >>=-eq-ok
          (take_back rt s.world c.mpl_core_program c.asset c.collection a.user c.vault_authority) _
          h6 in
      let (taken, e7, h8) =
        >>=-eq-ok (take_request rt sb a s.vault w1 sol request_kind_reroll index) _ h7 in
      let (again, e8, h9) = >>=-eq-ok (load s.pool a.vault_key) _ h8 in
      let (u10, e10, h10) =
        >>=-eq-ok
          (check taken.0.vault e.ratio_base e.collection_size again
            (rt.token_amount s.world a.vault_tokens))
          _ h9 in
      let back =
        take_back-amount s.world w1 c.mpl_core_program c.asset c.collection a.user c.vault_authority
          e6 in
      let took = take_request-amount a s.vault w1 sol request_kind_reroll index taken e7 in
      reaches s.world (omega (arith, back, took))
        (ap (λ (z : Requesting W). z.ledger.world) (ok-injective h10))

  -- Nor does a new commit.
  pub handle_recommit_randomness-amount :
      (a : CommitAccounts) (key : Bytes) (v : Vault) (r : Request) (w : W) (out : Retried W)
      → handle_recommit_randomness rt sb a key v r w ≡ ok out
      → amount w ≤ amount out.world
  unfolding handle_recommit_randomness
  handle_recommit_randomness-amount a key v r w out h0 =
      let used = take r.commits r.oracles in
      let (u1, e1, h1) = >>=-eq-ok (recommit_constraints rt sb a key r) _ h0 in
      let (u2, e2, h2) = >>=-eq-ok (check_retry rt sb a r w) _ h1 in
      let (c, e3, h3) = >>=-eq-ok (commit_for_request rt sb w a v.sb_queue key r.seq used) _ h2 in
      let (x, e4, h4) = >>=-eq-ok (record_commit v r (rt.slot w) c.0 a.oracle) _ h3 in
      reaches w (commit_for_request-amount w a v.sb_queue key r.seq used c e3)
        (ap (λ (z : Retried W). z.world) (ok-injective h4))

  hand_over-amount :
      (hashv : List Bytes → Bytes) (fuel : ℕ) (a : Settle) (s : Ledger W) (n picked : ℕ)
      (mint : Option MintArgs) (s' : Ledger W)
      → hand_over rt hashv fuel a s n picked mint ≡ ok s'
      → amount s.world ≤ amount s'.world
  unfolding hand_over
  hand_over-amount hashv fuel a s n picked mint s' h0 =
      let (view, e1, h1) = >>=-eq-ok (load s.pool a.vault_key) _ h0 in
      elim (Bool-cases (is_minted view picked)) [
        | inl minted ↦
            let (w, e2, h2) =
              >>=-eq-ok
                (deliver rt s.world a.mpl_core_program a.asset a.collection a.settler
                  a.vault_authority a.user)
                _ (rw minted at h1) in
            reaches s.world
              (deliver-amount s.world w a.mpl_core_program a.asset a.collection a.settler
                a.vault_authority a.user e2)
              (ap (λ (z : Ledger W). z.world) (ok-injective h2))
        | inr unminted ↦
            let (m, e2, h2) = >>=-eq-ok (ok_or mint mint_args_missing) _ (rw unminted at h1) in
            let (w, e4, h4) =
              >>=-eq-ok
                (check_leaf hashv s.vault.trait_root s.vault.trait_schema_hash s.vault.launch_config
                    n picked m.leaf m.proof
                  >> mint_to_user rt s.world a.mpl_core_program a.asset a.collection
                      a.vault_authority a.mint_escrow a.user a.vault_key picked (asset_name picked)
                      m.leaf.uri)
                _ h2 in
            let (u5, e5, minting) =
              >>=-eq-ok
                (check_leaf hashv s.vault.trait_root s.vault.trait_schema_hash s.vault.launch_config
                  n picked m.leaf m.proof)
                _ e4 in
            let (again, e6, h6) = >>=-eq-ok (load s.pool a.vault_key) _ h4 in
            let (marked, e7, h7) = >>=-eq-ok (mark_minted again picked) _ h6 in
            let (count, e8, h8) =
              >>=-eq-ok (ok_or (checked_add 32 s.vault.minted_count 1) math_overflow) _ h7 in
            reaches s.world
              (mint_to_user-amount s.world w a.mpl_core_program a.asset a.collection
                a.vault_authority a.mint_escrow a.user a.vault_key picked (asset_name picked)
                m.leaf.uri minting)
              (ap (λ (z : Ledger W). z.world) (ok-injective h8))
      ]

  -- Nor does a settlement, so that the amount that it tested is still there when it ends.
  pub handle_settle-amount :
      (hashv : List Bytes → Bytes) (fuel : ℕ) (a : Settle) (s : Ledger W) (kind : ℕ)
      (mint : Option MintArgs) (s' : Ledger W)
      → handle_settle rt hashv fuel a s kind mint ≡ ok s'
      → amount s.world ≤ amount s'.world
  unfolding refund_escrow
  handle_settle-amount hashv fuel a s kind mint s' h =
      let t : Settled rt hashv fuel a s kind mint s' =
        handle_settle-Settled rt hashv fuel a s kind mint s' h in
      let handed =
        hand_over-amount hashv fuel a (record s { pool = t.pool.d }) t.econ.collection_size t.picked
          mint t.handed t.hands in
      let refunded =
        drain_prefunded_pda-amount t.handed.world s'.world a.mint_escrow a.user t.refunds in
      omega (arith, handed, refunded)
