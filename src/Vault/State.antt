-- ===== src/Vault/State.antt =====
-- programs/hybrid_vault/src/state.rs and constants.rs: the accounts that the vault program keeps. A
-- `Pubkey` is its 32 bytes; an integer is a natural number, whose width is that of the source's field.
use launchpad.Prelude.{ℕ, Bool, List, ok_or, checked_add}
use launchpad.Bytes.{Bytes}
use launchpad.Vault.Error.{Outcome, math_overflow}

abbrev pub reveal_timeout_slots : ℕ
reveal_timeout_slots = 9_000

abbrev pub max_merge_per_ix : ℕ
max_merge_per_ix = 32

abbrev pub request_kind_capture : ℕ
request_kind_capture = 0

abbrev pub request_kind_reroll : ℕ
request_kind_reroll = 1

abbrev pub no_handed_in : ℕ
no_handed_in = 4_294_967_295

abbrev pub max_recommits : ℕ
max_recommits = 3

abbrev pub expire_grace_slots : ℕ
expire_grace_slots = 216_000

abbrev pub min_pool_floor : ℕ
min_pool_floor = 5

abbrev pub pool_floor_bps : ℕ
pool_floor_bps = 200

pub record Vault : Type 0 where
  pub version : ℕ
  pub bump : ℕ
  pub authority_bump : ℕ
  pub randomness_authority_bump : ℕ
  pub vault_tokens_bump : ℕ
  pub collection_bump : ℕ
  pub is_open : Bool
  pub launch_config : Bytes
  pub mint : Bytes
  pub creator : Bytes
  pub collection : Bytes
  pub pool : Bytes
  pub vault_tokens : Bytes
  pub sb_queue : Bytes
  pub trait_root : Bytes
  pub trait_schema_hash : Bytes
  pub minted_count : ℕ
  pub assets_outside : ℕ
  pub pending_captures : ℕ
  pub pending_rerolls : ℕ
  pub next_seq : ℕ
  pub next_settle_seq : ℕ
  pub opened_at_slot : ℕ
  pub total_fee_lamports : ℕ
  pub total_captures : ℕ
  pub total_rerolls : ℕ
  pub total_unwraps : ℕ
  pub total_recommits : ℕ
  pub total_expired : ℕ

unfoldable pub pending_draws : Vault → Outcome ℕ
pending_draws v = ok_or (checked_add 64 v.pending_captures v.pending_rerolls) math_overflow

pub record Request : Type 0 where
  pub bump : ℕ
  pub kind : ℕ
  pub vault : Bytes
  pub seq : ℕ
  pub user : Bytes
  pub randomness : Bytes
  pub seed_slot : ℕ
  pub deadline_slot : ℕ
  pub commits : ℕ
  pub oracles : List Bytes
  pub revealed : Bool
  pub value : Bytes
  pub handed_in_index : ℕ
  pub mint_escrow_lamports : ℕ

pub record RandLock : Type 0 where
  pub bump : ℕ
  pub vault : Bytes
  pub seq : ℕ
