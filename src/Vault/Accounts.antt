-- ===== src/Vault/Accounts.antt =====
-- programs/hybrid_vault/src/instructions: the constraints that the accounts structs share, with the seeds of
-- constants.rs.
use launchpad.Prelude.{ℕ, unwrap_option, List, [], ◌∷◌, ◌>>=◌, ◌>>◌}
use launchpad.Bytes.{Bytes, bytes_eq, to_le_bytes}
use launchpad.Vault.Error.{Outcome}
use launchpad.Vault.State.{Vault, Request, RandLock}
use launchpad.Vault.Chain.{Runtime, constraint}

-- "vault", "vault_authority", "vault_tokens", "randomness_authority", "request", "rand_lock" and "mint_escrow"
abbrev pub vault_seed : Bytes
vault_seed = b'v' ∷ b'a' ∷ b'u' ∷ b'l' ∷ b't' ∷ []

abbrev pub vault_authority_seed : Bytes
vault_authority_seed =
    b'v' ∷ b'a' ∷ b'u' ∷ b'l' ∷ b't' ∷ b'_' ∷ b'a' ∷ b'u' ∷ b't' ∷ b'h' ∷ b'o' ∷ b'r' ∷ b'i' ∷ b't'
    ∷ b'y' ∷ []

abbrev pub vault_tokens_seed : Bytes
vault_tokens_seed =
    b'v' ∷ b'a' ∷ b'u' ∷ b'l' ∷ b't' ∷ b'_' ∷ b't' ∷ b'o' ∷ b'k' ∷ b'e' ∷ b'n' ∷ b's' ∷ []

abbrev pub randomness_authority_seed : Bytes
randomness_authority_seed =
    b'r' ∷ b'a' ∷ b'n' ∷ b'd' ∷ b'o' ∷ b'm' ∷ b'n' ∷ b'e' ∷ b's' ∷ b's' ∷ b'_' ∷ b'a' ∷ b'u' ∷ b't'
    ∷ b'h' ∷ b'o' ∷ b'r' ∷ b'i' ∷ b't' ∷ b'y' ∷ []

abbrev pub request_seed : Bytes
request_seed = b'r' ∷ b'e' ∷ b'q' ∷ b'u' ∷ b'e' ∷ b's' ∷ b't' ∷ []

abbrev pub rand_lock_seed : Bytes
rand_lock_seed = b'r' ∷ b'a' ∷ b'n' ∷ b'd' ∷ b'_' ∷ b'l' ∷ b'o' ∷ b'c' ∷ b'k' ∷ []

abbrev pub mint_escrow_seed : Bytes
mint_escrow_seed = b'm' ∷ b'i' ∷ b'n' ∷ b't' ∷ b'_' ∷ b'e' ∷ b's' ∷ b'c' ∷ b'r' ∷ b'o' ∷ b'w' ∷ []

-- The addresses of a request and of its lock, with the lock.
pub record Held : Type 0 where
  pub request_key : Bytes
  pub rand_lock_key : Bytes
  pub rand_lock : RandLock

module _ {W : Type 0} (rt : Runtime W) where
  -- `seeds = [..], bump = ..`
  abbrev pub at_seeds : Bytes → List Bytes → ℕ → Outcome (Unit {0})
  at_seeds key seeds bump = unwrap_option (rt.create_program_address seeds bump) >>= λ want.
      constraint (bytes_eq key want)

  -- `vault`, `launch_config` and `pool`
  abbrev pub check_vault : W → Bytes → Bytes → Bytes → Vault → Outcome (Unit {0})
  check_vault w vault_key launch_config pool_key v = do
    at_seeds vault_key (vault_seed ∷ v.launch_config ∷ []) v.bump
    constraint (bytes_eq launch_config v.launch_config)
    constraint (bytes_eq pool_key v.pool)
    constraint (bytes_eq (rt.owner_of w pool_key) rt.program_id)

  abbrev pub check_vault_authority : Bytes → Bytes → Vault → Outcome (Unit {0})
  check_vault_authority vault_key vault_authority v =
      at_seeds vault_authority (vault_authority_seed ∷ vault_key ∷ []) v.authority_bump

  abbrev pub check_vault_tokens : Bytes → Bytes → Vault → Outcome (Unit {0})
  check_vault_tokens vault_key vault_tokens v =
      at_seeds vault_tokens (vault_tokens_seed ∷ vault_key ∷ []) v.vault_tokens_bump

  -- `request` with its `has_one`s, and `rand_lock`
  abbrev pub check_request :
      Bytes → Bytes → Bytes → Request → Bytes → Bytes → RandLock → Outcome (Unit {0})
  check_request vault_key user randomness request request_key lock_key lock = do
    at_seeds request_key (request_seed ∷ vault_key ∷ to_le_bytes 8 request.seq ∷ []) request.bump
    constraint (bytes_eq request.vault vault_key)
    constraint (bytes_eq request.user user)
    constraint (bytes_eq request.randomness randomness)
    at_seeds lock_key (rand_lock_seed ∷ randomness ∷ []) lock.bump

  abbrev pub check_mint_escrow : Bytes → Bytes → ℕ → Outcome (Unit {0})
  check_mint_escrow vault_key mint_escrow seq = constraint (
      bytes_eq mint_escrow
        (rt.find_program_address (mint_escrow_seed ∷ vault_key ∷ to_le_bytes 8 seq ∷ [])))
