-- ===== src/Vault/Expire/Batch.antt =====
-- programs/hybrid_vault/src/instructions/expire.rs: the expiry of several requests in one instruction.
use launchpad.Prelude.{
  ℕ, ◌*◌, List, [], ◌∷◌, Bool, ◌&&◌, Option, ok, require, ok_or, ◌>>=◌, ◌>>◌, leb, ◌==◌, length,
}
use launchpad.Bytes.{Bytes, bytes_eq, to_le_bytes}
use launchpad.Vault.Error.{
  Outcome, expire_batch_invalid, expire_batch_account_mismatch, mint_mismatch,
}
use launchpad.Vault.State.{Vault, Request, RandLock}
use launchpad.Vault.Pool.{load}
use launchpad.Vault.Invariants.{check}
use launchpad.Vault.Chain.{Runtime, constraint, invoke}
use launchpad.Vault.Accounts.{
  request_seed, rand_lock_seed, mint_escrow_seed, check_vault, check_vault_authority,
  check_vault_tokens,
}
use launchpad.Vault.Release.{Ledger, exit_view}
use launchpad.Vault.Expire.{ExpireOne, ExpireShared, expire_one}

abbrev pub max_expire_per_call : ℕ
max_expire_per_call = 7

abbrev pub expire_batch_stride : ℕ
expire_batch_stride = 7

-- An account of `remaining_accounts`.
pub record AccountInfo : Type 0 where
  pub key : Bytes
  pub is_writable : Bool

-- The seven accounts of one request.
pub record Group : Type 0 where
  pub request : AccountInfo
  pub lock : AccountInfo
  pub randomness : AccountInfo
  pub user : AccountInfo
  pub user_token : AccountInfo
  pub mint_escrow : AccountInfo
  pub asset : AccountInfo

-- `remaining_accounts.chunks(7)`: the last chunk can be shorter, and then an index into it panics; the
-- test of the length excludes it.
unfoldable pub chunks : List AccountInfo → List Group
chunks (a ∷ b ∷ c ∷ d ∷ e ∷ f ∷ g ∷ rest) =
    (record {
      request = a;
      lock = b;
      randomness = c;
      user = d;
      user_token = e;
      mint_escrow = f;
      asset = g;
    })
    ∷ chunks rest
chunks _ = []

-- What the instruction uses beside the runtime: the program's own accounts as Anchor reads them, the
-- test for a token account, and the closing of an account to a user.
pub record OwnAccounts (W : Type 0) : Type 0 where
  pub request_at : W → Bytes → Option Request
  pub rand_lock_at : W → Bytes → Option RandLock
  pub is_token_account : W → Bytes → Bool
  pub close : W → Bytes → Bytes → Option W

-- `require_keys_eq!(a, b, ExpireBatchAccountMismatch)`
abbrev same_key : Bytes → Bytes → Outcome (Unit {0})
same_key a b = require (bytes_eq a b) expire_batch_account_mismatch

unfoldable pub all_writable : Group → Bool
all_writable g =
    ((((g.request.is_writable && g.lock.is_writable) && g.user.is_writable)
        && g.user_token.is_writable)
      && g.mint_escrow.is_writable)
    && g.asset.is_writable

module _ {W : Type 0} (rt : Runtime W) (own : OwnAccounts W) where
  -- The accounts of one request, checked by hand; `v` has the current head of the queue.
  unfoldable pub check_group : W → ExpireShared → Bytes → Vault → Group → Outcome Request
  check_group w sh mint v g = do
    require (all_writable g) expire_batch_account_mismatch
    request ← ok_or (own.request_at w g.request.key) expire_batch_account_mismatch
    want ←
        ok_or
          (rt.create_program_address
            (request_seed ∷ sh.vault_key ∷ to_le_bytes 8 v.next_settle_seq ∷ []) request.bump)
          expire_batch_account_mismatch
    same_key g.request.key want
    same_key request.vault sh.vault_key
    same_key request.user g.user.key
    same_key request.randomness g.randomness.key
    lock ← ok_or (own.rand_lock_at w g.lock.key) expire_batch_account_mismatch
    want_lock ←
        ok_or (rt.create_program_address (rand_lock_seed ∷ g.randomness.key ∷ []) lock.bump)
          expire_batch_account_mismatch
    same_key g.lock.key want_lock
    require (own.is_token_account w g.user_token.key) expire_batch_account_mismatch
    same_key (rt.token_mint w g.user_token.key) mint
    same_key (rt.token_authority w g.user_token.key) g.user.key
    same_key g.mint_escrow.key
        (rt.find_program_address (mint_escrow_seed ∷ sh.vault_key ∷ to_le_bytes 8 request.seq ∷ []))
    ok request

  abbrev pub one_of : Request → Group → ExpireOne
  one_of request g = record {
    request = request;
    randomness = g.randomness.key;
    user = g.user.key;
    user_token = g.user_token.key;
    mint_escrow = g.mint_escrow.key;
    asset = g.asset.key;
  }

  -- One round of the loop.
  unfoldable pub expire_group : W → ExpireShared → Bytes → Vault → Group → Outcome (Vault × W)
  expire_group w sh mint v g = do
    request ← check_group w sh mint v g
    expired ← expire_one rt w sh (one_of request g) v
    w1 ← invoke (own.close expired.1 g.request.key g.user.key)
    w2 ← invoke (own.close w1 g.lock.key g.user.key)
    ok (expired.0, w2)

  unfoldable pub expire_groups : List Group → ExpireShared → Bytes → Vault → W → Outcome (Vault × W)
  expire_groups [] sh mint v w = ok (v, w)
  expire_groups (g ∷ gs) sh mint v w =
      expire_group w sh mint v g >>= λ s. expire_groups gs sh mint s.0 s.1

  unfoldable pub expire_batch_constraints :
      Bytes → Bytes → Bytes → ExpireShared → Ledger W → Outcome (Unit {0})
  expire_batch_constraints launch_config pool_key mint sh s = do
    check_vault rt s.world sh.vault_key launch_config pool_key s.vault
    require (bytes_eq mint s.vault.mint) mint_mismatch
    check_vault_authority rt sh.vault_key sh.vault_authority s.vault
    check_vault_tokens rt sh.vault_key sh.vault_tokens s.vault
    constraint (bytes_eq sh.collection s.vault.collection)
    constraint (bytes_eq sh.mpl_core_program rt.mpl_core_id)

  -- All or nothing: the vault is written once, after the loop.
  unfoldable pub handle_expire_batch :
      Bytes → Bytes → Bytes → ExpireShared → List AccountInfo → Ledger W → ℕ → Outcome (Ledger W)
  handle_expire_batch launch_config pool_key mint accounts remaining s count = do
    expire_batch_constraints launch_config pool_key mint accounts s
    require (leb 1 count && leb count max_expire_per_call) expire_batch_invalid
    require (length remaining == count * expire_batch_stride) expire_batch_invalid
    econ ← exit_view rt s.world launch_config
    expired ←
        expire_groups (chunks remaining) (record accounts { ratio_base = econ.ratio_base }) mint
          s.vault s.world
    view ← load s.pool accounts.vault_key
    check expired.0 econ.ratio_base econ.collection_size view
        (rt.token_amount expired.1 accounts.vault_tokens)
    ok (record { vault = expired.0; pool = s.pool; world = expired.1 })
