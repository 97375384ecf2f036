-- ===== src/Vault/Selection.antt =====
-- programs/hybrid_vault/src/selection.rs: the draw of a pool position from a VRF value. `hashv`, the
-- SHA-256 of a list of buffers, is a parameter. The resampling loop runs on fuel: a transaction's
-- compute budget; an exhausted budget aborts it.
pub mod Uniform
use launchpad.Prelude.{
  ℕ, zero, suc, ◌+◌, ◌-◌, ◌/◌, ◌%◌, ◌^◌, List, [], ◌∷◌, Bool, true, false, Option, none, some, leb,
  ltb, if◌then◌else◌, length, ok, abort, unwrap_option,
}
use launchpad.Bytes.{Bytes, slice, to_le_bytes, from_le_bytes}
use launchpad.Vault.Error.{Outcome}

-- The byte strings "hybrid_vault:select" and "hybrid_vault:resample".
abbrev pub select_domain : Bytes
select_domain =
    b'h' ∷ b'y' ∷ b'b' ∷ b'r' ∷ b'i' ∷ b'd' ∷ b'_' ∷ b'v' ∷ b'a' ∷ b'u' ∷ b'l' ∷ b't' ∷ b':' ∷ b's'
    ∷ b'e' ∷ b'l' ∷ b'e' ∷ b'c' ∷ b't' ∷ []

abbrev pub resample_domain : Bytes
resample_domain =
    b'h' ∷ b'y' ∷ b'b' ∷ b'r' ∷ b'i' ∷ b'd' ∷ b'_' ∷ b'v' ∷ b'a' ∷ b'u' ∷ b'l' ∷ b't' ∷ b':' ∷ b'r'
    ∷ b'e' ∷ b's' ∷ b'a' ∷ b'm' ∷ b'p' ∷ b'l' ∷ b'e' ∷ []

-- `u64::MAX - (u64::MAX % n + 1) % n`: a word is accepted if it is at most this.
unfoldable pub zone : ℕ → ℕ
zone n = 2 ^ 64 - 1 - ((2 ^ 64 - 1) % n + 1) % n

-- The `for` over the words of a block, with the words left and the offset of the next.
unfoldable pub first_accepted : ℕ → Bytes → ℕ → ℕ → Option ℕ
first_accepted n block zero o = none
first_accepted n block (suc words) o =
    let x = from_le_bytes (slice block o 8) in
    let rest = first_accepted n block words (o + 8) in if leb x (zone n) then some (x % n) else rest

module _ (hashv : List Bytes → Bytes) where
  -- Domain-separated randomness of a request.
  unfoldable pub request_randomness : Bytes → Bytes → ℕ → Bytes
  request_randomness vrf_value vault seq =
      hashv (select_domain ∷ vrf_value ∷ vault ∷ to_le_bytes 8 seq ∷ [])

  -- The next block, `hashv(&[b"hybrid_vault:resample", &block])`.
  abbrev pub resample : Bytes → Bytes
  resample block = hashv (resample_domain ∷ block ∷ [])

  -- The `loop`.
  unfoldable pub sample_loop : ℕ → Bytes → ℕ → Option ℕ
  sample_loop zero block n = none
  sample_loop (suc fuel) block n = elim (first_accepted n block (length block / 8) 0) [
    | some k ↦ some k
    | none ↦ sample_loop fuel (resample block) n
  ]

  -- Uniform index in [0, n), with the `assert!(n > 0)`.
  unfoldable pub uniform_below : ℕ → Bytes → ℕ → Outcome ℕ
  uniform_below fuel r n = if ltb 0 n then unwrap_option (sample_loop fuel r n) else abort
