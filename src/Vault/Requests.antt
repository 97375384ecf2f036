-- ===== src/Vault/Requests.antt =====
-- programs/hybrid_vault/src/instructions/request.rs: taking a request for a draw.
pub mod Floor
pub mod Finish
pub mod Handlers
pub mod Took
pub mod Effect
use launchpad.Prelude.{
  ℕ, ◌+◌, ◌-◌, ◌*◌, ◌/◌, max, List, [], ◌∷◌, Bool, true, false, ◌&&◌, replicate, ok, require, ok_or,
  ◌>>=◌, ◌>>◌, ltb, leb, ◌==◌, length, if◌then◌else◌, checked_add, checked_sub,
}
use launchpad.Bytes.{Bytes, bytes_eq}
use launchpad.Launch.Constants.{
  core_asset_rent_lamports, core_asset_space_bytes, core_create_fee_lamports,
}
use launchpad.Vault.Error.{
  Outcome, math_overflow, vault_not_open, no_asset_available, asset_accounting_broken,
  asset_state_mismatch, mint_cost_constant_stale,
}
use launchpad.Vault.State.{
  Vault, Request, RandLock, pending_draws, min_pool_floor, pool_floor_bps, reveal_timeout_slots,
  request_kind_capture,
}
use launchpad.Vault.Config.{Econ}
use launchpad.Vault.Pool.{PoolView, pool_len, incoming_len}
use launchpad.Vault.Chain.{Runtime, invoke}

abbrev pub mint_escrow_margin_pct : ℕ
mint_escrow_margin_pct = 125

abbrev pub mint_escrow_lamports_const : ℕ
mint_escrow_lamports_const =
    (core_asset_rent_lamports + core_create_fee_lamports) * mint_escrow_margin_pct / 100

-- `(a * b).div_ceil(10_000).max(MIN_POOL_FLOOR)`, in 128 bits.
unfoldable pub pool_floor : ℕ → ℕ
pool_floor collection_size =
    max ((collection_size * pool_floor_bps + 9_999) / 10_000) min_pool_floor

unfoldable pub check_can_request : Vault → Econ → PoolView → Outcome (Unit {0})
check_can_request vault econ pool = do
  require vault.is_open vault_not_open
  available ← ok_or (checked_add 64 (pool_len pool) (incoming_len pool)) math_overflow
  pending ← pending_draws vault
  let free = available - pending
  require (ltb (pool_floor econ.collection_size) free) no_asset_available

-- The counter that `finish_request` changes for a request of a kind.
unfoldable pub count_request : Vault → ℕ → Outcome Vault
count_request vault kind =
    if kind == request_kind_capture
    then (ok_or (checked_add 64 vault.pending_captures 1) math_overflow >>= λ captures.
        ok (record vault { pending_captures = captures }))
    else (ok_or (checked_add 64 vault.pending_rerolls 1) math_overflow >>= λ rerolls.
        ok_or (checked_sub vault.assets_outside 1) asset_accounting_broken >>= λ out.
        ok (record vault { pending_rerolls = rerolls; assets_outside = out }))

-- What `finish_request` is told of the request; `slot` is the clock's.
pub record NewRequest : Type 0 where
  pub request_bump : ℕ
  pub lock_bump : ℕ
  pub kind : ℕ
  pub user : Bytes
  pub randomness : Bytes
  pub seed_slot : ℕ
  pub handed_in_index : ℕ
  pub vault_key : Bytes
  pub oracle : Bytes
  pub sol_fee_lamports : ℕ

-- The accounts that a request writes.
pub record Taken : Type 0 where
  pub vault : Vault
  pub request : Request
  pub rand_lock : RandLock

-- The request account is fresh: `escrow` is the amount that the handler records after.
unfoldable pub finish_request : Vault → NewRequest → ℕ → ℕ → Outcome Taken
finish_request vault r slot escrow = do
  let seq = vault.next_seq
  deadline ← ok_or (checked_add 64 slot reveal_timeout_slots) math_overflow
  next ← ok_or (checked_add 64 seq 1) math_overflow
  fees ← ok_or (checked_add 64 vault.total_fee_lamports r.sol_fee_lamports) math_overflow
  counted ← count_request (record vault { next_seq = next; total_fee_lamports = fees }) r.kind
  ok (record {
    vault = counted;
    request = record {
      bump = r.request_bump;
      kind = r.kind;
      vault = r.vault_key;
      seq = seq;
      user = r.user;
      randomness = r.randomness;
      seed_slot = r.seed_slot;
      deadline_slot = deadline;
      commits = 1;
      oracles = r.oracle ∷ replicate 3 (replicate 32 0);
      revealed = false;
      value = replicate 32 0;
      handed_in_index = r.handed_in_index;
      mint_escrow_lamports = escrow;
    };
    rand_lock = record { bump = r.lock_bump; vault = r.vault_key; seq = seq };
  })

module _ {W : Type 0} (rt : Runtime W) where
  -- Rust saturates the sum at 2^64 - 1, which the test on it refuses like the sum itself.
  unfoldable pub escrow_mint_cost : W → Bytes → Bytes → Outcome W
  escrow_mint_cost w user escrow = do
    require
        (length (rt.data_of w escrow) == 0 && bytes_eq (rt.owner_of w escrow) rt.system_program_id)
        asset_state_mismatch
    let live = rt.minimum_balance w core_asset_space_bytes + core_create_fee_lamports
    require (leb live mint_escrow_lamports_const) mint_cost_constant_stale
    invoke (rt.system_transfer w user escrow mint_escrow_lamports_const)
