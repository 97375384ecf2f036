-- ===== src/Vault/Chain.antt =====
-- What the vault program uses of the chain it runs on. A runtime is a parameter: the clock, the rent,
-- the accounts' owners, data and lamports, the fields of token accounts, program-derived addresses, and
-- the calls of the token, system, Core and Switchboard programs. `W` is the state of everything outside
-- the vault program's own accounts. A call that fails aborts the transaction.
use launchpad.Prelude.{ℕ, ℤ, List, Bool, Option, ok, abort, unwrap_option, if◌then◌else◌}
use launchpad.Bytes.{Bytes}
use launchpad.Vault.Error.{Outcome}

-- mpl_core's `UpdateAuthority`, and what the program reads of a `BaseAssetV1`.
pub data UpdateAuthority : Type 0 where
  no_authority : UpdateAuthority
  address : Bytes → UpdateAuthority
  of_collection : Bytes → UpdateAuthority

pub record BaseAsset : Type 0 where
  pub owner : Bytes
  pub update_authority : UpdateAuthority

-- What the program reads of a Switchboard randomness account.
pub record RandomnessSnapshot : Type 0 where
  pub authority : Bytes
  pub queue : Bytes
  pub seed_slot : ℕ
  pub reveal_slot : ℕ
  pub value : Bytes

pub record Runtime (W : Type 0) : Type 0 where
  pub slot : W → ℕ
  pub unix_timestamp : W → ℤ
  pub minimum_balance : W → ℕ → ℕ
  pub owner_of : W → Bytes → Bytes
  pub data_of : W → Bytes → Bytes
  pub is_executable : W → Bytes → Bool
  pub lamports_of : W → Bytes → ℕ
  pub token_amount : W → Bytes → ℕ
  pub token_mint : W → Bytes → Bytes
  pub token_authority : W → Bytes → Bytes
  pub launch_config_discriminator : Bytes
  pub hybrid_launch_id : Bytes
  pub mpl_core_id : Bytes
  pub system_program_id : Bytes
  pub switchboard_program_id : Bytes
  -- `crate::ID`
  pub program_id : Bytes
  pub find_program_address : List Bytes → Bytes
  -- seeds, bump
  pub create_program_address : List Bytes → ℕ → Option Bytes
  pub parse_asset : Bytes → Option BaseAsset
  pub parse_randomness : Bytes → Option RandomnessSnapshot
  -- from, to, authority, amount
  pub transfer_checked : W → Bytes → Bytes → Bytes → ℕ → Option W
  -- from, to, lamports
  pub system_transfer : W → Bytes → Bytes → ℕ → Option W
  -- asset, collection, payer, authority, new owner
  pub core_transfer : W → Bytes → Bytes → Bytes → Bytes → Bytes → Option W
  -- asset, collection, authority, payer, owner, name, uri
  pub core_create : W → Bytes → Bytes → Bytes → Bytes → Bytes → Bytes → Bytes → Option W
  -- collection, update authority, payer, name, uri
  pub core_create_collection : W → Bytes → Bytes → Bytes → Bytes → Bytes → Option W

-- The result of a call, propagated with `?`.
abbrev pub invoke : {W : Type 0} → Option W → Outcome W
invoke = unwrap_option

-- A constraint of an accounts struct that has no error of the program's own.
abbrev pub constraint : Bool → Outcome (Unit {0})
constraint b = if b then ok tt else abort
