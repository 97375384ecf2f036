-- ===== src/Vault/Randomness/Heartbeat.antt =====
-- programs/hybrid_vault/src/randomness.rs: freshness of a heartbeat, over all signed time stamps.
use launchpad.Prelude.{◌+◌, ◌≤◌, ◌≡◌, ◌↔◌, ℤ, above, below, true, arith}
use launchpad.Vault.Randomness.{heartbeat_is_fresh}

-- A heartbeat is fresh exactly when the present is at most an hour after it, as integers: the
-- saturation of the difference never matters, and a heartbeat of the future is fresh.
pub heartbeat_is_fresh_iff :
    (hb now : ℤ)
    → (heartbeat_is_fresh hb now ≡ true) ↔ (above now + below hb ≤ above hb + below now + 3_600)
unfolding heartbeat_is_fresh
heartbeat_is_fresh_iff hb now = ground arith
