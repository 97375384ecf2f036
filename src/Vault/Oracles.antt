-- ===== src/Vault/Oracles.antt =====
-- programs/hybrid_vault/src/randomness.rs: the program's choice of the oracle of a commit. The layout and
-- the discriminator of Switchboard's queue account, and SHA-256, are parameters.
pub mod Choice
use launchpad.Prelude.{
  ℕ, zero, suc, ◌+◌, ◌*◌, ◌%◌, List, [], ◌∷◌, Bool, true, false, not, ◌&&◌, ◌||◌, Option, none,
  some, ok, require, ok_or, ◌>>=◌, ◌>>◌, leb, ltb, if◌then◌else◌, length, take, replicate,
}
use launchpad.Bytes.{Bytes, slice, to_le_bytes, from_le_bytes, bytes_eq, has_key}
use launchpad.Vault.Error.{Outcome, wrong_queue, no_fresh_oracle}

-- "hybrid_vault/oracle"
abbrev pub oracle_domain : Bytes
oracle_domain =
    b'h' ∷ b'y' ∷ b'b' ∷ b'r' ∷ b'i' ∷ b'd' ∷ b'_' ∷ b'v' ∷ b'a' ∷ b'u' ∷ b'l' ∷ b't' ∷ b'/' ∷ b'o'
    ∷ b'r' ∷ b'a' ∷ b'c' ∷ b'l' ∷ b'e' ∷ []

-- `k != Pubkey::default() && !used.contains(&k) && !stale.contains(&k)`
unfoldable pub is_candidate : List Bytes → List Bytes → Bytes → Bool
is_candidate used stale k =
    (not (bytes_eq k (replicate 32 0)) && not (has_key used k)) && not (has_key stale k)

-- The loop of `select_oracle_in`, with the steps left: the first candidate of a rotation.
unfoldable pub scan : (ℕ → Bytes) → (Bytes → Bool) → ℕ → ℕ → ℕ → ℕ → Option Bytes
scan key candidate start len zero step = none
scan key candidate start len (suc left) step =
    let k = key ((start + step) % len) in
    let rest = scan key candidate start len left (step + 1) in if candidate k then some k else rest

-- The offsets of `queue_layout`, after the discriminator.
pub record QueueLayout : Type 0 where
  pub size : ℕ
  pub keys_off : ℕ
  pub len_off : ℕ
  pub curr_off : ℕ

module _ (hashv : List Bytes → Bytes) (layout : QueueLayout) (queue_discriminator : Bytes) where
  abbrev pub body : Bytes → Bytes
  body d = slice d 8 layout.size

  abbrev pub queue_len : Bytes → ℕ
  queue_len d = from_le_bytes (slice (body d) layout.len_off 4)

  abbrev pub oracle_key : Bytes → ℕ → Bytes
  oracle_key d i = slice (body d) (layout.keys_off + 32 * i) 32

  -- Where the rotation begins.
  unfoldable pub start_of : Bytes → Bytes → ℕ → List Bytes → ℕ
  start_of d vault_key seq used =
      let len = queue_len d in
      let curr = from_le_bytes (slice (body d) layout.curr_off 4) in
      let h = hashv (oracle_domain ∷ vault_key ∷ to_le_bytes 8 seq ∷ []) in
      let spread = from_le_bytes (take 8 h) in (curr % len + spread % len + length used) % len

  unfoldable pub select_oracle_in : Bytes → Bytes → ℕ → List Bytes → List Bytes → Outcome Bytes
  select_oracle_in d vault_key seq used stale = do
    require (leb (8 + layout.size) (length d) && bytes_eq (take 8 d) queue_discriminator)
        wrong_queue
    let len = queue_len d
    require (ltb 0 len && leb len 78) no_fresh_oracle
    ok_or (scan (oracle_key d) (is_candidate used stale) (start_of d vault_key seq used) len len 0)
        no_fresh_oracle
