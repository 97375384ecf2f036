-- ===== src/Vault.antt =====
-- programs/hybrid_vault.
pub mod Error
pub mod Pool
pub mod Selection
pub mod State
pub mod Invariants
pub mod Config
pub mod Chain
pub mod Assets
pub mod Accounts
pub mod Release
pub mod Sound
pub mod Requests
pub mod Draws
pub mod Merkle
pub mod Settle
pub mod Expire
pub mod Opening
pub mod Oracles
pub mod Randomness
pub mod RandomnessIx
pub mod Setup
pub mod Merging
pub mod FromLaunch
pub mod Lifecycle
mod Tests
