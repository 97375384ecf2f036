-- ===== src/Bytes.antt =====
-- Byte buffers, as `[u8]` and `Vec<u8>`: slices, `copy_from_slice`, and little-endian integers
-- (`u32::from_le_bytes`, `u64::to_le_bytes`). A read or write out of range panics in Rust. Here it
-- reads less, or changes nothing; the modules that use a buffer prove that they stay inside it.
pub mod Laws
use launchpad.Prelude.{
  ℕ, zero, suc, ◌+◌, ◌*◌, ◌/◌, ◌%◌, List, [], ◌∷◌, Bool, true, false, ◌&&◌, ◌||◌, take, drop, ◌==◌,
}

-- A byte is a number below 256.
abbrev pub Bytes : Type 0
Bytes = List ℕ

-- `&d[o..o + n]`
abbrev pub slice : Bytes → ℕ → ℕ → Bytes
slice d o n = take n (drop o d)

-- `d[o..o + bs.len()].copy_from_slice(&bs)`
unfoldable pub splice : Bytes → ℕ → Bytes → Bytes
splice [] o bs = []
splice (x ∷ d) zero [] = x ∷ d
splice (x ∷ d) zero (b ∷ bs) = b ∷ splice d zero bs
splice (x ∷ d) (suc o) bs = x ∷ splice d o bs

-- `v.to_le_bytes()` of an integer of `w` bytes
unfoldable pub to_le_bytes : ℕ → ℕ → Bytes
to_le_bytes zero v = []
to_le_bytes (suc w) v = (v % 256) ∷ to_le_bytes w (v / 256)

-- `from_le_bytes(bs)`
unfoldable pub from_le_bytes : Bytes → ℕ
from_le_bytes [] = 0
from_le_bytes (b ∷ bs) = b + 256 * from_le_bytes bs

-- `a == b`
unfoldable pub bytes_eq : Bytes → Bytes → Bool
bytes_eq [] [] = true
bytes_eq [] (b ∷ bs) = false
bytes_eq (a ∷ as') [] = false
bytes_eq (a ∷ as') (b ∷ bs) = a == b && bytes_eq as' bs

-- `keys.contains(&k)`
unfoldable pub has_key : List Bytes → Bytes → Bool
has_key [] k = false
has_key (x ∷ keys) k = bytes_eq x k || has_key keys k
