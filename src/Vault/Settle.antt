-- ===== src/Vault/Settle.antt =====
-- programs/hybrid_vault/src/instructions/settle.rs: the settlement of the oldest request. `hashv` and
-- the fuel are those of the sampling. The closing of the request and of its lock is Anchor's.
pub mod Counts
use launchpad.Prelude.{
  ℕ, ◌+◌, List, Bool, Option, ok, require, ok_or, ◌>>=◌, ◌>>◌, ◌==◌, ◌&&◌, if◌then◌else◌,
  checked_add, checked_sub,
}
use launchpad.Bytes.{Bytes, bytes_eq}
use launchpad.Vault.Error.{
  Outcome, wrong_request_kind, out_of_order, randomness_mismatch, randomness_not_revealed,
  wrong_asset, mint_args_missing, math_overflow,
}
use launchpad.Vault.State.{Vault, Request, RandLock, request_kind_capture}
use launchpad.Vault.Pool.{PoolView, load, is_minted, mark_minted}
use launchpad.Vault.Draws.{pick}
use launchpad.Vault.Merkle.{LeafPreimage, check_leaf}
use launchpad.Vault.Invariants.{check}
use launchpad.Vault.Chain.{Runtime, constraint}
use launchpad.Vault.Accounts.{
  check_vault, check_vault_authority, check_vault_tokens, check_request, check_mint_escrow,
}
use launchpad.Vault.Assets.{asset_address, deliver, mint_to_user, asset_name, refund_escrow}
use launchpad.Vault.Release.{Ledger, exit_view}

-- The settler's arguments of a lazy mint.
pub record MintArgs : Type 0 where
  pub leaf : LeafPreimage
  pub proof : List Bytes

-- The keys of the accounts that the instruction names, and the two accounts that it reads.
pub record Settle : Type 0 where
  pub settler : Bytes
  pub vault_key : Bytes
  pub launch_config : Bytes
  pub pool_key : Bytes
  pub request_key : Bytes
  pub request : Request
  pub rand_lock_key : Bytes
  pub rand_lock : RandLock
  pub randomness : Bytes
  pub vault_authority : Bytes
  pub mint_escrow : Bytes
  pub vault_tokens : Bytes
  pub asset : Bytes
  pub collection : Bytes
  pub user : Bytes
  pub mpl_core_program : Bytes

-- The counters of `handle_settle`.
unfoldable pub count_settle : Vault → ℕ → ℕ → Outcome Vault
count_settle v seq kind = do
  next ← ok_or (checked_add 64 seq 1) math_overflow
  out ← ok_or (checked_add 64 v.assets_outside 1) math_overflow
  let w = record v { next_settle_seq = next; assets_outside = out }
  if kind == request_kind_capture
      then (ok_or (checked_sub v.pending_captures 1) math_overflow >>= λ pending.
          ok_or (checked_add 64 v.total_captures 1) math_overflow >>= λ total.
          ok (record w { pending_captures = pending; total_captures = total }))
      else (ok_or (checked_sub v.pending_rerolls 1) math_overflow >>= λ pending.
          ok_or (checked_add 64 v.total_rerolls 1) math_overflow >>= λ total.
          ok (record w { pending_rerolls = pending; total_rerolls = total }))

-- The guards of the handler on the request and its lock.
unfoldable pub check_head : Vault → Settle → ℕ → Outcome (Unit {0})
check_head vault a expected_kind = do
  require (a.request.kind == expected_kind) wrong_request_kind
  require (a.request.seq == vault.next_settle_seq) out_of_order
  require ((a.rand_lock.seq == a.request.seq) && bytes_eq a.rand_lock.vault a.vault_key)
      randomness_mismatch
  require a.request.revealed randomness_not_revealed

module _ {W : Type 0} (rt : Runtime W) (hashv : List Bytes → Bytes) (fuel : ℕ) where
  unfoldable pub settle_constraints : Settle → Ledger W → Outcome (Unit {0})
  settle_constraints a s = do
    check_vault rt s.world a.vault_key a.launch_config a.pool_key s.vault
    check_request rt a.vault_key a.user a.randomness a.request a.request_key a.rand_lock_key
        a.rand_lock
    check_vault_authority rt a.vault_key a.vault_authority s.vault
    check_mint_escrow rt a.vault_key a.mint_escrow a.request.seq
    check_vault_tokens rt a.vault_key a.vault_tokens s.vault
    constraint (bytes_eq a.collection s.vault.collection)
    constraint (bytes_eq a.mpl_core_program rt.mpl_core_id)

  -- A first pick is minted to the user against its committed leaf; a later one is transferred.
  unfoldable pub hand_over : Settle → Ledger W → ℕ → ℕ → Option MintArgs → Outcome (Ledger W)
  hand_over a s collection_size picked_index mint = do
    view ← load s.pool a.vault_key
    if is_minted view picked_index
        then (deliver rt s.world a.mpl_core_program a.asset a.collection a.settler a.vault_authority
              a.user
            >>= λ w. ok (record s { world = w }))
        else (ok_or mint mint_args_missing >>= λ m.
            check_leaf hashv s.vault.trait_root s.vault.trait_schema_hash s.vault.launch_config
              collection_size picked_index m.leaf m.proof
            >> mint_to_user rt s.world a.mpl_core_program a.asset a.collection a.vault_authority
                a.mint_escrow a.user a.vault_key picked_index (asset_name picked_index) m.leaf.uri
            >>= λ w. load s.pool a.vault_key >>= λ again.
                mark_minted again picked_index >>= λ marked.
                ok_or (checked_add 32 s.vault.minted_count 1) math_overflow >>= λ count.
                ok (record {
                  vault = record s.vault { minted_count = count };
                  pool = marked.d;
                  world = w;
                }))

  -- The token account is not read again: the amount is that of the instruction's beginning.
  unfoldable pub handle_settle : Settle → Ledger W → ℕ → Option MintArgs → Outcome (Ledger W)
  handle_settle a s expected_kind mint = do
    settle_constraints a s
    check_head s.vault a expected_kind
    econ ← exit_view rt s.world a.launch_config
    view ← load s.pool a.vault_key
    picked ←
        pick hashv fuel view a.request.value a.vault_key a.request.seq expected_kind
          a.request.handed_in_index
    require (bytes_eq a.asset (asset_address rt a.vault_key picked.0)) wrong_asset
    handed ← hand_over a (record s { pool = picked.1.d }) econ.collection_size picked.0 mint
    w ← refund_escrow rt handed.world a.mint_escrow a.user
    v ← count_settle handed.vault a.request.seq expected_kind
    again ← load handed.pool a.vault_key
    check v econ.ratio_base econ.collection_size again (rt.token_amount s.world a.vault_tokens)
    ok (record { vault = v; pool = handed.pool; world = w })
