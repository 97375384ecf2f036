-- ===== src/Vault/Draws.antt =====
-- programs/hybrid_vault/src/instructions/settle.rs: the selection of `handle_settle`, on the pool.
-- `hashv` and the fuel are those of the sampling.
pub mod Picks
pub mod Keeps
use launchpad.Prelude.{
  ℕ, List, Bool, Option, none, some, ok, require, ◌>>=◌, ◌>>◌, ltb, ◌==◌, if◌then◌else◌,
}
use launchpad.Bytes.{Bytes}
use launchpad.Vault.Error.{Outcome, merge_backlog, no_asset_available}
use launchpad.Vault.State.{max_merge_per_ix, request_kind_reroll}
use launchpad.Vault.Pool.{
  PoolView, merge, incoming_front_tag, pool_len, pool_swap_remove, pool_push,
}
use launchpad.Vault.Selection.{request_randomness, uniform_below}

-- `if let Some(t) = pool.incoming_front_tag() { require!(t > seq, MergeBacklog) }`
unfoldable pub check_backlog : PoolView → ℕ → Outcome (Unit {0})
check_backlog p seq = elim (incoming_front_tag p) [
  | none ↦ ok tt
  | some t ↦ require (ltb seq t) merge_backlog
]

-- The hand-in of a re-roll becomes drawable, for later requests only.
unfoldable pub return_hand_in : PoolView → ℕ → ℕ → Outcome PoolView
return_hand_in p kind handed_in =
    if kind == request_kind_reroll then pool_push p handed_in else ok p

module _ (hashv : List Bytes → Bytes) (fuel : ℕ) where
  unfoldable pub pick : PoolView → Bytes → Bytes → ℕ → ℕ → ℕ → Outcome (ℕ × PoolView)
  pick pool value vault_key seq expected_kind handed_in = do
    merged ← merge pool seq max_merge_per_ix
    check_backlog merged.1 seq
    let n = pool_len merged.1
    require (ltb 0 n) no_asset_available
    pos ← uniform_below hashv fuel (request_randomness hashv value vault_key seq) n
    removed ← pool_swap_remove merged.1 pos
    returned ← return_hand_in removed.1 expected_kind handed_in
    ok (removed.0, returned)
