-- ===== src/Vault/Requests/Floor.antt =====
-- programs/hybrid_vault/src/instructions/request.rs: the pool floor, and what it guarantees to the
-- pending draws.
use launchpad.Prelude.{ℕ, ◌+◌, ◌*◌, ◌^◌, ◌≤◌, ◌<◌, ◌≡◌, ◌↔◌, true, ok, arith}
use launchpad.Vault.State.{Vault, pending_draws}
use launchpad.Vault.Config.{Econ}
use launchpad.Vault.Pool.{PoolView, pool_len, incoming_len}
use launchpad.Vault.Requests.{pool_floor, check_can_request}

-- The floor is the least number that is at least five and at least two percent of the collection.
pub pool_floor_least : (n k : ℕ) → (pool_floor n ≤ k) ↔ ((5 ≤ k) × (n * 200 ≤ k * 10_000))
unfolding pool_floor
pool_floor_least n k = (λ h. omega arith, λ h. omega arith)

-- For counts of 32 bits, and pending draws whose number fits 64 bits, a request is allowed exactly when
-- the vault is open and more assets than the floor would remain after every pending draw, so that at
-- least the floor remains after this draw too.
pub check_can_request_iff :
    (v : Vault) (e : Econ) (p : PoolView)
    → pool_len p < 2 ^ 32
    → incoming_len p < 2 ^ 32
    → v.pending_captures + v.pending_rerolls < 2 ^ 64
    → (check_can_request v e p ≡ ok tt) ↔ (
        (v.is_open ≡ true)
        × (pool_floor e.collection_size + v.pending_captures + v.pending_rerolls + 1
            ≤ pool_len p + incoming_len p))
unfolding check_can_request pending_draws
check_can_request_iff v e p a b c = (λ h. ground arith, λ h. ground arith)
