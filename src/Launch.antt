-- ===== src/Launch.antt =====
-- programs/hybrid_launch.
pub mod Error
pub mod Constants
pub mod Fees
pub mod Validation
pub mod State
pub mod Dbc
pub mod Chain
pub mod Create
pub mod Register
mod Tests
