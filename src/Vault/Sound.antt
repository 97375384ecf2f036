-- ===== src/Vault/Sound.antt =====
-- programs/hybrid_vault/src: the states of a vault and its pool between two instructions.
use launchpad.Prelude.{ℕ, ◌^◌, ◌≤◌, ◌<◌, ◌≡◌, All, ok}
use launchpad.Bytes.{Bytes}
use launchpad.Vault.State.{Vault}
use launchpad.Vault.Pool.{PoolView, load}
use launchpad.Vault.Pool.View.{IsValid, incoming}
use launchpad.Vault.Invariants.{Holds}

-- The pool account loads as a valid pool, the invariants hold for the tokens in the vault, and no
-- waiting asset came back after the next request to be made.
pub record Sound (v : Vault) (pool vault_key : Bytes) (ratio n tokens : ℕ) : Type 0 where
  pub view : PoolView
  pub loads : load pool vault_key ≡ ok view
  pub valid : IsValid view
  pub holds : Holds v ratio n view tokens
  pub ordered : All (λ (e : ℕ × ℕ). e.1 ≤ v.next_seq) (incoming view)
  pub seq_fits : v.next_seq < 2 ^ 64
