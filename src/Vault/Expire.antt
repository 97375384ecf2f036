-- ===== src/Vault/Expire.antt =====
-- programs/hybrid_vault/src/instructions/expire.rs: the last-resort recovery of a request that was never revealed.
pub mod Effect
pub mod Batch
pub mod BatchEffect
use launchpad.Prelude.{
  ℕ, ◌+◌, Bool, not, ok, require, ok_or, ◌>>=◌, ◌>>◌, ltb, ◌==◌, ◌&&◌, if◌then◌else◌, checked_add,
  checked_sub,
}
use launchpad.Bytes.{Bytes, bytes_eq}
use launchpad.Vault.Error.{
  Outcome, out_of_order, randomness_already_revealed, recommits_remaining, math_overflow,
  expiry_not_reached, wrong_asset, invalid_randomness_account, mint_mismatch,
}
use launchpad.Vault.State.{Vault, Request, max_recommits, expire_grace_slots, request_kind_capture}
use launchpad.Vault.Pool.{PoolView, load}
use launchpad.Vault.Invariants.{check}
use launchpad.Vault.Chain.{Runtime, RandomnessSnapshot, constraint}
use launchpad.Vault.Accounts.{
  Held, check_vault, check_vault_authority, check_vault_tokens, check_request, check_mint_escrow,
}
use launchpad.Vault.Assets.{asset_address, deliver, pay_out, refund_escrow}
use launchpad.Vault.Randomness.{read, is_revealed}
use launchpad.Vault.Release.{Ledger, exit_view}

-- The keys of one request's accounts, and the request.
pub record ExpireOne : Type 0 where
  pub request : Request
  pub randomness : Bytes
  pub user : Bytes
  pub user_token : Bytes
  pub mint_escrow : Bytes
  pub asset : Bytes

-- The accounts that all requests of a call share.
pub record ExpireShared : Type 0 where
  pub caller : Bytes
  pub vault_key : Bytes
  pub vault_authority : Bytes
  pub vault_tokens : Bytes
  pub collection : Bytes
  pub mpl_core_program : Bytes
  pub ratio_base : ℕ

-- The counters of `expire_one`.
unfoldable pub count_expire : Vault → ℕ → ℕ → Outcome Vault
count_expire v seq kind = do
  next ← ok_or (checked_add 64 seq 1) math_overflow
  expired ← ok_or (checked_add 64 v.total_expired 1) math_overflow
  let w = record v { next_settle_seq = next; total_expired = expired }
  if kind == request_kind_capture
      then (ok_or (checked_sub v.pending_captures 1) math_overflow >>= λ pending.
          ok (record w { pending_captures = pending }))
      else (ok_or (checked_sub v.pending_rerolls 1) math_overflow >>= λ pending.
          ok_or (checked_add 64 v.assets_outside 1) math_overflow >>= λ out.
          ok (record w { pending_rerolls = pending; assets_outside = out }))

module _ {W : Type 0} (rt : Runtime W) where
  -- The guards of `expire_one`.
  unfoldable pub check_expirable : W → ExpireOne → Vault → Outcome (Unit {0})
  check_expirable w r vault = do
    require (r.request.seq == vault.next_settle_seq) out_of_order
    require (not r.request.revealed) randomness_already_revealed
    snap ← read rt w r.randomness
    require (not (is_revealed snap r.request.seed_slot)) randomness_already_revealed
    require (ltb max_recommits r.request.commits) recommits_remaining
    earliest ← ok_or (checked_add 64 r.request.deadline_slot expire_grace_slots) math_overflow
    require (ltb earliest (rt.slot w)) expiry_not_reached

  -- The principal: tokens for a capture, the hand-in for a re-roll.
  unfoldable pub return_principal : W → ExpireShared → ExpireOne → Outcome W
  return_principal w sh r =
      if r.request.kind == request_kind_capture
      then pay_out rt w sh.vault_tokens r.user_token sh.vault_authority sh.ratio_base
      else (require (bytes_eq r.asset (asset_address rt sh.vault_key r.request.handed_in_index))
            wrong_asset
          >> deliver rt w sh.mpl_core_program r.asset sh.collection sh.caller sh.vault_authority
              r.user)

  unfoldable pub expire_one : W → ExpireShared → ExpireOne → Vault → Outcome (Vault × W)
  expire_one w sh r vault = do
    check_expirable w r vault
    w1 ← return_principal w sh r
    w2 ← refund_escrow rt w1 r.mint_escrow r.user
    v ← count_expire vault r.request.seq r.request.kind
    ok (v, w2)

  -- The constraints of `ExpireRequest`.
  unfoldable pub expire_constraints :
      Bytes → Bytes → Bytes → Held → ExpireShared → ExpireOne → Ledger W → Outcome (Unit {0})
  expire_constraints launch_config pool_key mint held sh r s = do
    check_vault rt s.world sh.vault_key launch_config pool_key s.vault
    check_request rt sh.vault_key r.user r.randomness r.request held.request_key held.rand_lock_key
        held.rand_lock
    constraint (bytes_eq (rt.token_mint s.world r.user_token) mint)
    constraint (bytes_eq (rt.token_authority s.world r.user_token) r.user)
    require (bytes_eq mint s.vault.mint) mint_mismatch
    check_vault_authority rt sh.vault_key sh.vault_authority s.vault
    check_vault_tokens rt sh.vault_key sh.vault_tokens s.vault
    check_mint_escrow rt sh.vault_key r.mint_escrow r.request.seq
    constraint (bytes_eq sh.collection s.vault.collection)
    constraint (bytes_eq sh.mpl_core_program rt.mpl_core_id)

  -- The `ratio_base` of the shared accounts is what the exit reader reads.
  unfoldable pub handle_expire :
      Bytes → Bytes → Bytes → Held → ExpireShared → ExpireOne → Ledger W → Outcome (Ledger W)
  handle_expire launch_config pool_key mint held accounts r s = do
    expire_constraints launch_config pool_key mint held accounts r s
    econ ← exit_view rt s.world launch_config
    expired ← expire_one s.world (record accounts { ratio_base = econ.ratio_base }) r s.vault
    view ← load s.pool accounts.vault_key
    check expired.0 econ.ratio_base econ.collection_size view
        (rt.token_amount expired.1 accounts.vault_tokens)
    ok (record { vault = expired.0; pool = s.pool; world = expired.1 })
