-- ===== src/Vault/Pool/Words.antt =====
-- programs/hybrid_vault/src/pool.rs: the integers of the account, and their laws.
use launchpad.Prelude.{ℕ, ◌+◌, ◌^◌, ◌≤◌, ◌<◌, ◌≡◌, ◌⊎◌, inl, inr, ap, ◌∙◌, length, arith}
use launchpad.Bytes.{Bytes, slice, splice, to_le_bytes, from_le_bytes}
use launchpad.Bytes.Laws.{
  length-splice, slice-splice_self, slice-splice_before, slice-splice_after, length-to_le_bytes,
  from_le_bytes-to_le_bytes, AreBytes, splice-AreBytes, to_le_bytes-AreBytes,
}

unfoldable pub rd_u32 : Bytes → ℕ → ℕ
rd_u32 d o = from_le_bytes (slice d o 4)

unfoldable pub wr_u32 : Bytes → ℕ → ℕ → Bytes
wr_u32 d o v = splice d o (to_le_bytes 4 v)

unfoldable pub rd_u64 : Bytes → ℕ → ℕ
rd_u64 d o = from_le_bytes (slice d o 8)

unfoldable pub wr_u64 : Bytes → ℕ → ℕ → Bytes
wr_u64 d o v = splice d o (to_le_bytes 8 v)

-- A slice of `n` bytes at `o` lies apart from one of `m` bytes at `p`.
abbrev pub Apart : ℕ → ℕ → ℕ → ℕ → Type 0
Apart o n p m = (o + n ≤ p) ⊎ (p + m ≤ o)

-- A write leaves a slice apart from it as it was.
pub slice-splice-Apart :
    (d : Bytes) (o n p m : ℕ) (bs : Bytes)
    → length bs ≡ m
    → Apart o n p m
    → slice (splice d p bs) o n ≡ slice d o n
slice-splice-Apart d o n p m bs e (inl h) = slice-splice_before d o n p bs h
slice-splice-Apart d o n p m bs e (inr h) = slice-splice_after d o n p bs (omega arith)

pub length-wr_u32 : (d : Bytes) (o v : ℕ) → length (wr_u32 d o v) ≡ length d
unfolding wr_u32
length-wr_u32 d o v = length-splice d o (to_le_bytes 4 v)

pub length-wr_u64 : (d : Bytes) (o v : ℕ) → length (wr_u64 d o v) ≡ length d
unfolding wr_u64
length-wr_u64 d o v = length-splice d o (to_le_bytes 8 v)

pub slice-wr_u32 :
    (d : Bytes) (o n p v : ℕ) → Apart o n p 4 → slice (wr_u32 d p v) o n ≡ slice d o n
unfolding wr_u32
slice-wr_u32 d o n p v h = slice-splice-Apart d o n p 4 (to_le_bytes 4 v) (length-to_le_bytes 4 v) h

pub slice-wr_u64 :
    (d : Bytes) (o n p v : ℕ) → Apart o n p 8 → slice (wr_u64 d p v) o n ≡ slice d o n
unfolding wr_u64
slice-wr_u64 d o n p v h = slice-splice-Apart d o n p 8 (to_le_bytes 8 v) (length-to_le_bytes 8 v) h

pub rd_u32-wr_u32_self :
    (d : Bytes) (o v : ℕ) → o + 4 ≤ length d → v < 2 ^ 32 → rd_u32 (wr_u32 d o v) o ≡ v
unfolding rd_u32 wr_u32
rd_u32-wr_u32_self d o v h lt =
    ap from_le_bytes
      (slice-splice_self d o (to_le_bytes 4 v) 4 h (omega (arith, length-to_le_bytes 4 v)))
    ∙ from_le_bytes-to_le_bytes 4 v lt

pub rd_u64-wr_u64_self :
    (d : Bytes) (o v : ℕ) → o + 8 ≤ length d → v < 2 ^ 64 → rd_u64 (wr_u64 d o v) o ≡ v
unfolding rd_u64 wr_u64
rd_u64-wr_u64_self d o v h lt =
    ap from_le_bytes
      (slice-splice_self d o (to_le_bytes 8 v) 8 h (omega (arith, length-to_le_bytes 8 v)))
    ∙ from_le_bytes-to_le_bytes 8 v lt

pub rd_u32-wr_u32 : (d : Bytes) (o p v : ℕ) → Apart o 4 p 4 → rd_u32 (wr_u32 d p v) o ≡ rd_u32 d o
unfolding rd_u32
rd_u32-wr_u32 d o p v h = ap from_le_bytes (slice-wr_u32 d o 4 p v h)

pub rd_u64-wr_u32 : (d : Bytes) (o p v : ℕ) → Apart o 8 p 4 → rd_u64 (wr_u32 d p v) o ≡ rd_u64 d o
unfolding rd_u64
rd_u64-wr_u32 d o p v h = ap from_le_bytes (slice-wr_u32 d o 8 p v h)

pub rd_u32-wr_u64 : (d : Bytes) (o p v : ℕ) → Apart o 4 p 8 → rd_u32 (wr_u64 d p v) o ≡ rd_u32 d o
unfolding rd_u32
rd_u32-wr_u64 d o p v h = ap from_le_bytes (slice-wr_u64 d o 4 p v h)

pub rd_u64-wr_u64 : (d : Bytes) (o p v : ℕ) → Apart o 8 p 8 → rd_u64 (wr_u64 d p v) o ≡ rd_u64 d o
unfolding rd_u64
rd_u64-wr_u64 d o p v h = ap from_le_bytes (slice-wr_u64 d o 8 p v h)

pub wr_u32-AreBytes : (d : Bytes) (o v : ℕ) → AreBytes d → AreBytes (wr_u32 d o v)
unfolding wr_u32
wr_u32-AreBytes d o v h = splice-AreBytes d o (to_le_bytes 4 v) h (to_le_bytes-AreBytes 4 v)

pub wr_u64-AreBytes : (d : Bytes) (o v : ℕ) → AreBytes d → AreBytes (wr_u64 d o v)
unfolding wr_u64
wr_u64-AreBytes d o v h = splice-AreBytes d o (to_le_bytes 8 v) h (to_le_bytes-AreBytes 8 v)
