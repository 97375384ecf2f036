-- ===== src/Vault/Pool.antt =====
-- programs/hybrid_vault/src/pool.rs: the pool account, byte by byte. `PoolView` is the struct of that
-- name: the account's bytes `d` and the capacity read when the pool was loaded. A method that takes
-- `&mut self` returns the new view. The offsets are those of the source.
-- Rust's `usize` and `u32` arithmetic does not overflow here for a capacity of at most 2^31, nor is
-- any byte outside the account touched.
pub mod Bits
pub mod Words
pub mod View
pub mod Draw
pub mod Wait
pub mod Load
pub mod Merge
pub mod Bitmap
pub mod Init
use Prim.Native.Nat.{bit_and, bit_or}
use launchpad.Prelude.{
  ℕ, zero, suc, ◌+◌, ◌-◌, ◌*◌, ◌/◌, ◌%◌, ◌^◌, List, [], ◌∷◌, Bool, true, false, not, ◌&&◌, Option,
  none, some, ◌==◌, ltb, leb, if◌then◌else◌, take, get_or, length, replicate, ok, err, require,
  ok_or, ◌>>=◌, ◌>>◌, checked_add,
}
use launchpad.Bytes.{Bytes, slice, splice, bytes_eq}
use launchpad.Vault.Error.{
  VaultError, Outcome, invalid_pool_account, pool_mismatch, math_overflow, index_out_of_range,
  already_minted, asset_accounting_broken, no_asset_available,
}
use Words.{rd_u32, wr_u32, rd_u64, wr_u64}

abbrev pub pool_discriminator : Bytes
pool_discriminator = b'h' ∷ b'v' ∷ b'p' ∷ b'o' ∷ b'o' ∷ b'l' ∷ b'0' ∷ b'2' ∷ []

abbrev pub pool_header : ℕ
pool_header = 64

abbrev pub incoming_entry : ℕ
incoming_entry = 12

abbrev pub pool_account_size : ℕ → ℕ
pool_account_size capacity = pool_header + 16 * capacity + (capacity + 7) / 8

-- Initialise a zeroed, correctly-sized buffer.
unfoldable pub init : Bytes → Bytes → ℕ → Outcome Bytes
init d vault capacity = do
  require (length d == pool_account_size capacity) invalid_pool_account
  require (bytes_eq (take 8 d) (replicate 8 0)) invalid_pool_account
  let d1 = splice d 0 pool_discriminator
  let d2 = splice d1 8 vault
  let d3 = wr_u32 d2 40 capacity
  let d4 = wr_u32 d3 44 capacity
  let d5 = wr_u32 d4 48 0
  ok (wr_u32 d5 52 0)

pub record PoolView : Type 0 where
  pub d : Bytes
  pub cap : ℕ

-- `PoolView::load`: validate discriminator, owning vault and size.
unfoldable pub load : Bytes → Bytes → Outcome PoolView
load d vault = do
  require (leb pool_header (length d)) invalid_pool_account
  require (bytes_eq (take 8 d) pool_discriminator) invalid_pool_account
  require (bytes_eq (slice d 8 32) vault) pool_mismatch
  let cap = rd_u32 d 40
  require (length d == pool_account_size cap) invalid_pool_account
  ok (record { d = d; cap = cap })

abbrev pub capacity : PoolView → ℕ
capacity p = p.cap

unfoldable pub pool_len : PoolView → ℕ
pool_len p = rd_u32 p.d 44

unfoldable pub incoming_len : PoolView → ℕ
incoming_len p = rd_u32 p.d 52

unfoldable pub incoming_head : PoolView → ℕ
incoming_head p = rd_u32 p.d 48

abbrev pub pool_off : PoolView → ℕ → ℕ
pool_off p i = pool_header + 4 * i

abbrev pub inc_off : PoolView → ℕ → ℕ
inc_off p ring_i = pool_header + 4 * p.cap + incoming_entry * ring_i

-- `wr_u32(self.d, o, v)`
abbrev pub write_u32 : PoolView → ℕ → ℕ → PoolView
write_u32 p o v = record p { d = wr_u32 p.d o v }

unfoldable pub total : PoolView → Outcome ℕ
total p = ok_or (checked_add 32 (pool_len p) (incoming_len p)) math_overflow

unfoldable pub pool_get : PoolView → ℕ → ℕ
pool_get p i = let v = rd_u32 p.d (pool_off p i) in if v == 0 then i else v - 1

abbrev pub pool_set : PoolView → ℕ → ℕ → PoolView
pool_set p i asset_index = write_u32 p (pool_off p i) (asset_index + 1)

abbrev pub bitmap_off : PoolView → ℕ
bitmap_off p = pool_header + 16 * p.cap

unfoldable pub is_minted : PoolView → ℕ → Bool
is_minted p index =
    ltb index p.cap
    && not (bit_and (get_or p.d (bitmap_off p + index / 8) 0) (2 ^ (index % 8)) == 0)

-- Set the minted bit; an index is minted at most once.
unfoldable pub mark_minted : PoolView → ℕ → Outcome PoolView
mark_minted p index = do
  require (ltb index p.cap) index_out_of_range
  require (not (is_minted p index)) already_minted
  let o = bitmap_off p + index / 8
  ok (record p { d = splice p.d o (bit_or (get_or p.d o 0) (2 ^ (index % 8)) ∷ []) })

unfoldable pub pool_push : PoolView → ℕ → Outcome PoolView
pool_push p asset_index = do
  require (ltb (← total p) p.cap) asset_accounting_broken
  require (ltb asset_index p.cap) index_out_of_range
  let len = pool_len p
  ok (write_u32 (pool_set p len asset_index) 44 (len + 1))

-- Remove and return the entry at position `i` (swap with last).
unfoldable pub pool_swap_remove : PoolView → ℕ → Outcome (ℕ × PoolView)
pool_swap_remove p i = do
  let len = pool_len p
  require (ltb i len) no_asset_available
  let picked = pool_get p i
  let last = pool_get p (len - 1)
  ok (picked, write_u32 (pool_set p i last) 44 (len - 1))

-- The test on the newest entry's tag, made if there is an entry.
unfoldable pub check_back_tag : PoolView → ℕ → Outcome (Unit {0})
check_back_tag p tag =
    let len = incoming_len p in
    if ltb 0 len
    then (let back = (incoming_head p + len - 1) % p.cap in
        let back_tag = rd_u64 p.d (inc_off p back + 4) in
        require (leb back_tag tag) asset_accounting_broken)
    else ok tt

-- Append to the incoming FIFO. Tags must be non-decreasing.
unfoldable pub incoming_push : PoolView → ℕ → ℕ → Outcome PoolView
incoming_push p asset_index tag = do
  require (ltb (← total p) p.cap) asset_accounting_broken
  let len = incoming_len p
  check_back_tag p tag
  let slot = (incoming_head p + len) % p.cap
  let o = inc_off p slot
  let p1 = write_u32 p o asset_index
  let p2 = record p1 { d = wr_u64 p1.d (o + 4) tag }
  ok (write_u32 p2 52 (len + 1))

-- Tag of the oldest incoming entry, if any.
unfoldable pub incoming_front_tag : PoolView → Option ℕ
incoming_front_tag p =
    if incoming_len p == 0 then none else some (rd_u64 p.d (inc_off p (incoming_head p) + 4))

-- One round of `merge`: the oldest incoming entry goes to the pool.
unfoldable pub merge_one : PoolView → Outcome PoolView
merge_one p =
    let head = incoming_head p in
    let idx = rd_u32 p.d (inc_off p head) in
    let len = incoming_len p in
    let p1 = write_u32 p 48 ((head + 1) % p.cap) in
    let p2 = write_u32 p1 52 (len - 1) in pool_push p2 idx

-- The loop of `merge`, with the rounds left (`max - moved`) and the count `moved`.
unfoldable pub merge_loop : ℕ → ℕ → ℕ → PoolView → Outcome (ℕ × PoolView)
merge_loop zero moved max_tag p = ok (moved, p)
merge_loop (suc rounds) moved max_tag p = elim (incoming_front_tag p) [
  | none ↦ ok (moved, p)
  | some t ↦ elim (leb t max_tag) [
    | true ↦ merge_one p >>= λ p'. merge_loop rounds (moved + 1) max_tag p'
    | false ↦ ok (moved, p)
  ]
]

-- Move up to `max` incoming entries with `tag <= max_tag` into the pool.
unfoldable pub merge : PoolView → ℕ → ℕ → Outcome (ℕ × PoolView)
merge p max_tag max = merge_loop max 0 max_tag p
