-- ===== src/Vault/Assets.antt =====
-- programs/hybrid_vault/src/asset_source.rs, core_cpi.rs and instructions/vault_token_ops.rs: the moves
-- of assets, tokens and lamports.
use launchpad.Prelude.{
  ℕ, [], ◌∷◌, Bool, false, ◌&&◌, ◌==◌, zero, suc, ◌+◌, ◌-◌, ◌/◌, ◌%◌, ◌^◌, min, leb, length, ok,
  require, ok_or, ◌>>=◌, ◌>>◌, if◌then◌else◌,
}
use launchpad.Bytes.{Bytes, to_le_bytes, bytes_eq}
use launchpad.Launch.Constants.{core_asset_space_bytes, core_create_fee_lamports}
use launchpad.Vault.Error.{Outcome, asset_state_mismatch, wrong_asset, mint_escrow_short}
use launchpad.Vault.Chain.{Runtime, UpdateAuthority, no_authority, address, of_collection, invoke}

-- The seed "asset"
abbrev pub asset_seed : Bytes
asset_seed = b'a' ∷ b's' ∷ b's' ∷ b'e' ∷ b't' ∷ []

-- `matches!(u, UpdateAuthority::Collection(c) if c == collection)`
unfoldable pub is_of : Bytes → UpdateAuthority → Bool
is_of collection no_authority = false
is_of collection (address a) = false
is_of collection (of_collection c) = bytes_eq c collection

module _ {W : Type 0} (rt : Runtime W) where
  abbrev pub asset_address : Bytes → ℕ → Bytes
  asset_address vault index =
      rt.find_program_address (asset_seed ∷ vault ∷ to_le_bytes 4 index ∷ [])

  unfoldable pub transfer_asset : W → Bytes → Bytes → Bytes → Bytes → Bytes → Bytes → Outcome W
  transfer_asset w core asset collection payer owner_authority new_owner = do
    require (bytes_eq core rt.mpl_core_id) asset_state_mismatch
    invoke (rt.core_transfer w asset collection payer owner_authority new_owner)

  unfoldable pub assert_asset_state : W → Bytes → Bytes → Bytes → Outcome (Unit {0})
  assert_asset_state w asset collection owner = do
    require (bytes_eq (rt.owner_of w asset) rt.mpl_core_id) asset_state_mismatch
    base ← ok_or (rt.parse_asset (rt.data_of w asset)) asset_state_mismatch
    require (bytes_eq base.owner owner) asset_state_mismatch
    require (is_of collection base.update_authority) asset_state_mismatch

  -- Vault -> user.
  unfoldable pub deliver : W → Bytes → Bytes → Bytes → Bytes → Bytes → Bytes → Outcome W
  deliver w core asset collection payer vault_authority user = do
    w1 ← transfer_asset w core asset collection payer vault_authority user
    assert_asset_state w1 asset collection user
    ok w1

  -- User -> vault.
  unfoldable pub take_back : W → Bytes → Bytes → Bytes → Bytes → Bytes → Outcome W
  take_back w core asset collection user vault_authority = do
    w1 ← transfer_asset w core asset collection user user vault_authority
    assert_asset_state w1 asset collection vault_authority
    ok w1

  unfoldable pub drain_prefunded_pda : W → Bytes → Bytes → Outcome W
  drain_prefunded_pda w pda to =
      if rt.lamports_of w pda == 0
      then ok w
      else (require
            (length (rt.data_of w pda) == 0 && bytes_eq (rt.owner_of w pda) rt.system_program_id)
            asset_state_mismatch
          >> invoke (rt.system_transfer w pda to (rt.lamports_of w pda)))

  unfoldable pub refund_escrow : W → Bytes → Bytes → Outcome W
  refund_escrow w escrow to = drain_prefunded_pda w escrow to

  -- vault_tokens -> `to`, signed by the vault's authority.
  unfoldable pub pay_out : W → Bytes → Bytes → Bytes → ℕ → Outcome W
  pay_out w from to vault_authority amount =
      invoke (rt.transfer_checked w from to vault_authority amount)

  -- user -> `to`
  unfoldable pub user_pays : W → Bytes → Bytes → Bytes → ℕ → Outcome W
  user_pays w from to user amount =
      if amount == 0 then ok w else invoke (rt.transfer_checked w from to user amount)

  unfoldable pub sol_fee : W → Bytes → Bytes → ℕ → Outcome W
  sol_fee w user to lamports =
      if lamports == 0 then ok w else invoke (rt.system_transfer w user to lamports)

  unfoldable pub create_asset :
      W → Bytes → Bytes → Bytes → Bytes → Bytes → Bytes → Bytes → Bytes → Outcome W
  create_asset w core asset collection vault_authority payer owner name uri = do
    require (bytes_eq core rt.mpl_core_id) asset_state_mismatch
    invoke (rt.core_create w asset collection vault_authority payer owner name uri)

  unfoldable pub create_collection : W → Bytes → Bytes → Bytes → Bytes → Bytes → Bytes → Outcome W
  create_collection w core collection update_authority payer name uri = do
    require (bytes_eq core rt.mpl_core_id) asset_state_mismatch
    invoke (rt.core_create_collection w collection update_authority payer name uri)

  -- Rust saturates the sum `need` at 2^64 - 1; an escrow never holds more.
  unfoldable pub mint_to_user :
      W → Bytes → Bytes → Bytes → Bytes → Bytes → Bytes → Bytes → ℕ → Bytes → Bytes → Outcome W
  mint_to_user w core asset collection vault_authority escrow user vault_key index name uri = do
    require (bytes_eq asset (asset_address vault_key index)) wrong_asset
    let need =
        min (rt.minimum_balance w core_asset_space_bytes + core_create_fee_lamports) (2 ^ 64 - 1)
    require (leb need (rt.lamports_of w escrow)) mint_escrow_short
    w1 ← drain_prefunded_pda w asset escrow
    w2 ← create_asset w1 core asset collection vault_authority escrow user name uri
    assert_asset_state w2 asset collection user
    ok w2

-- The decimal digits of a number of at most `rounds` digits, in front of `rest`.
unfoldable pub decimal : ℕ → ℕ → Bytes → Bytes
decimal zero n rest = rest
decimal (suc rounds) n rest =
    let digits = (48 + n % 10) ∷ rest in
    let more = decimal rounds (n / 10) digits in if n / 10 == 0 then digits else more

-- `format!("#{index}")`; an index of 32 bits has at most ten digits.
unfoldable pub asset_name : ℕ → Bytes
asset_name index = b'#' ∷ decimal 10 index []
