-- ===== src/Vault/Requests/Handlers.antt =====
-- programs/hybrid_vault/src/instructions/request.rs: the two instructions that take a request. Anchor has
-- created the request and the lock of its randomness account, both fresh, before the handler runs.
use launchpad.Prelude.{ℕ, [], ◌∷◌, not, ok, require, ◌>>=◌, ◌>>◌, ltb}
use launchpad.Bytes.{Bytes, bytes_eq}
use launchpad.Launch.State.{LaunchConfig}
use launchpad.Launch.Constants.{platform_fee_recipient}
use launchpad.Vault.Error.{
  Outcome, mint_mismatch, aliased_token_account, fee_recipient_mismatch, index_out_of_range,
}
use launchpad.Vault.State.{
  Vault, Request, RandLock, request_kind_capture, request_kind_reroll, no_handed_in,
}
use launchpad.Vault.Config.{econ, request_fee}
use launchpad.Vault.Pool.{load}
use launchpad.Vault.Invariants.{check}
use launchpad.Vault.Chain.{Runtime, constraint}
use launchpad.Vault.Accounts.{
  randomness_authority_seed, at_seeds, check_vault_authority, check_vault, check_vault_tokens,
  check_mint_escrow,
}
use launchpad.Vault.Assets.{asset_address, take_back, user_pays, sol_fee}
use launchpad.Vault.Randomness.{CommitAccounts, Switchboard, commit_for_request}
use launchpad.Vault.Release.{Ledger}
use launchpad.Vault.Requests.{
  NewRequest, Taken, check_can_request, finish_request, escrow_mint_cost,
  mint_escrow_lamports_const,
}

-- The accounts of a request of either kind, and the bumps that Anchor found.
pub record RequestAccounts : Type 0 where
  pub user : Bytes
  pub vault_key : Bytes
  pub launch_config : Bytes
  pub config : LaunchConfig
  pub pool_key : Bytes
  pub vault_tokens : Bytes
  pub fee_recipient : Bytes
  pub mint_escrow : Bytes
  pub commit : CommitAccounts
  pub request_bump : ℕ
  pub lock_bump : ℕ

-- What only a capture names: the token account that pays.
pub record CaptureAccounts : Type 0 where
  pub mint : Bytes
  pub user_token : Bytes

-- What only a re-roll names: the asset that is handed in.
pub record RerollAccounts : Type 0 where
  pub vault_authority : Bytes
  pub asset : Bytes
  pub collection : Bytes
  pub mpl_core_program : Bytes

-- The program's accounts after a request, with the new ones.
pub record Requesting (W : Type 0) : Type 0 where
  pub ledger : Ledger W
  pub request : Request
  pub rand_lock : RandLock

-- What the handlers tell `finish_request` of the request.
abbrev pub new_request : RequestAccounts → ℕ → ℕ → ℕ → ℕ → NewRequest
new_request a kind handed_in_index seed_slot sol = record {
  request_bump = a.request_bump;
  lock_bump = a.lock_bump;
  kind = kind;
  user = a.user;
  randomness = a.commit.randomness;
  seed_slot = seed_slot;
  handed_in_index = handed_in_index;
  vault_key = a.vault_key;
  oracle = a.commit.oracle;
  sol_fee_lamports = sol;
}

module _ {W : Type 0} (rt : Runtime W) (sb : Switchboard W) where
  -- The constraints that both instructions share.
  unfoldable pub request_constraints : RequestAccounts → Ledger W → Outcome (Unit {0})
  request_constraints a s = do
    check_vault rt s.world a.vault_key a.launch_config a.pool_key s.vault
    require (bytes_eq a.fee_recipient platform_fee_recipient) fee_recipient_mismatch
    check_vault_tokens rt a.vault_key a.vault_tokens s.vault
    check_mint_escrow rt a.vault_key a.mint_escrow s.vault.next_seq
    at_seeds rt a.commit.randomness_authority (randomness_authority_seed ∷ a.vault_key ∷ [])
        s.vault.randomness_authority_bump
    constraint (bytes_eq a.commit.slot_hashes sb.slot_hashes_id)
    constraint (bytes_eq a.commit.switchboard_program rt.switchboard_program_id)

  unfoldable pub capture_constraints :
      RequestAccounts → CaptureAccounts → Ledger W → Outcome (Unit {0})
  capture_constraints a c s = do
    request_constraints a s
    require (bytes_eq c.mint a.config.mint) mint_mismatch
    constraint (bytes_eq (rt.token_mint s.world c.user_token) c.mint)
    constraint (bytes_eq (rt.token_authority s.world c.user_token) a.user)
    require (not (bytes_eq c.user_token s.vault.vault_tokens)) aliased_token_account

  unfoldable pub reroll_constraints :
      RequestAccounts → RerollAccounts → Ledger W → ℕ → Outcome (Unit {0})
  reroll_constraints a c s index = do
    request_constraints a s
    check_vault_authority rt a.vault_key c.vault_authority s.vault
    constraint (bytes_eq c.asset (asset_address rt a.vault_key index))
    constraint (bytes_eq c.collection s.vault.collection)
    constraint (bytes_eq c.mpl_core_program rt.mpl_core_id)

  -- What both handlers do after the principal has been taken: the fee, the escrow of the mint, the
  -- commit, and the new request.
  unfoldable pub take_request : RequestAccounts → Vault → W → ℕ → ℕ → ℕ → Outcome (Taken × W)
  take_request a vault w sol kind handed_in_index = do
    w1 ← sol_fee rt w a.user a.fee_recipient sol
    w2 ← escrow_mint_cost rt w1 a.user a.mint_escrow
    committed ← commit_for_request rt sb w2 a.commit vault.sb_queue a.vault_key vault.next_seq []
    taken ←
        finish_request vault (new_request a kind handed_in_index committed.0 sol)
          (rt.slot committed.1) mint_escrow_lamports_const
    ok (taken, committed.1)

  -- The token account is read again before the check.
  unfoldable pub handle_request_capture :
      RequestAccounts → CaptureAccounts → Ledger W → Outcome (Requesting W)
  handle_request_capture a c s = do
    capture_constraints a c s
    e ← econ platform_fee_recipient a.config
    view ← load s.pool a.vault_key
    check_can_request s.vault e view
    sol ← request_fee e.stored_fee_lamports e.ratio_whole_tokens
    w1 ← user_pays rt s.world c.user_token a.vault_tokens a.user e.ratio_base
    taken ← take_request a s.vault w1 sol request_kind_capture no_handed_in
    again ← load s.pool a.vault_key
    check taken.0.vault e.ratio_base e.collection_size again
        (rt.token_amount taken.1 a.vault_tokens)
    ok (record {
      ledger = record { vault = taken.0.vault; pool = s.pool; world = taken.1 };
      request = taken.0.request;
      rand_lock = taken.0.rand_lock;
    })

  -- The token account is not read again: the amount is that of the instruction's beginning.
  unfoldable pub handle_request_reroll :
      RequestAccounts → RerollAccounts → Ledger W → ℕ → Outcome (Requesting W)
  handle_request_reroll a c s index = do
    reroll_constraints a c s index
    e ← econ platform_fee_recipient a.config
    view ← load s.pool a.vault_key
    check_can_request s.vault e view
    require (ltb index e.collection_size) index_out_of_range
    sol ← request_fee e.stored_fee_lamports e.ratio_whole_tokens
    w1 ← take_back rt s.world c.mpl_core_program c.asset c.collection a.user c.vault_authority
    taken ← take_request a s.vault w1 sol request_kind_reroll index
    again ← load s.pool a.vault_key
    check taken.0.vault e.ratio_base e.collection_size again
        (rt.token_amount s.world a.vault_tokens)
    ok (record {
      ledger = record { vault = taken.0.vault; pool = s.pool; world = taken.1 };
      request = taken.0.request;
      rand_lock = taken.0.rand_lock;
    })
