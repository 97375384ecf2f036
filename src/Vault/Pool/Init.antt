-- ===== src/Vault/Pool/Init.antt =====
-- programs/hybrid_vault/src/pool.rs: `init` and `load`.
use Prim.Native.Nat.{bit_and, bit_and-bitwise}
use launchpad.Prelude.{
  ℕ, zero, suc, ◌+◌, ◌*◌, ◌/◌, ◌%◌, ◌^◌, ◌≤◌, ◌<◌, ◌≡◌, ◌⊎◌, inl, inr, refl, ap, sym, ◌∙◌, [], ◌∷◌,
  take, get_or, replicate, length, length-replicate, tabulate, tabulate-congr, arith, Bool, false,
  ◌&&◌, ok, ==_iff, leb-true, ltb,
}
use launchpad.Bytes.{Bytes, slice, splice, from_le_bytes}
use launchpad.Bytes.Laws.{
  length-splice, slice-splice_self, bytes_eq_refl, AreBytes, splice-AreBytes, get_or-slice,
}
use launchpad.Vault.Pool.Words.{
  wr_u32, rd_u32, length-wr_u32, rd_u32-wr_u32, rd_u32-wr_u32_self, wr_u32-AreBytes,
}
use launchpad.Vault.Pool.View.{IsValid, Agrees, Agrees-splice, Agrees-trans, drawable, incoming}
use launchpad.Vault.Pool.Draw.{Agrees-wr_u32}
use launchpad.Vault.Pool.{
  PoolView, pool_account_size, pool_discriminator, init, load, pool_len, incoming_len,
  incoming_head, pool_get, is_minted,
}

replicate-AreBytes : (n : ℕ) → AreBytes (replicate n 0)
replicate-AreBytes zero = tt
replicate-AreBytes (suc n) = (omega arith, replicate-AreBytes n)

take-replicate : (w n : ℕ) → from_le_bytes (take w (replicate n 0)) ≡ 0
unfolding from_le_bytes
take-replicate zero n = refl
take-replicate (suc w) zero = refl
take-replicate (suc w) (suc n) = omega (arith, take-replicate w n)

-- A zeroed buffer holds the number 0 everywhere.
zeroed : (n o w : ℕ) → from_le_bytes (slice (replicate n 0) o w) ≡ 0
unfolding from_le_bytes
zeroed n zero w = take-replicate w n
zeroed zero (suc o) w = take-replicate w 0
zeroed (suc n) (suc o) w = zeroed n o w

zeroed_byte : (n o : ℕ) → get_or {A = ℕ} (replicate n 0) o 0 ≡ 0
zeroed_byte zero o = refl
zeroed_byte (suc n) zero = refl
zeroed_byte (suc n) (suc o) = zeroed_byte n o

zero-bit_and : (b : ℕ) → bit_and 0 b ≡ 0
zero-bit_and b = bit_and-bitwise 0 b

take_zeros : (w n : ℕ) → w ≤ n → take {A = ℕ} w (replicate n 0) ≡ replicate w 0
take_zeros zero n h = refl
take_zeros (suc w) zero h = absurd (omega arith)
take_zeros (suc w) (suc n) h = ap (λ t. 0 ∷ t) (take_zeros w n (omega arith))

and_false : (b : Bool) → (b && false) ≡ false
and_false b = ground arith

discriminator_bytes : AreBytes pool_discriminator
discriminator_bytes = omega arith

module _ (vault : Bytes) (c : ℕ) (hv : length vault ≡ 32) (bv : AreBytes vault) (pos : 0 < c)
    (small : c ≤ 2 ^ 31) where
  abbrev size : ℕ
  size = pool_account_size c

  zeros : Bytes
  zeros = replicate size 0

  length-zeros : length zeros ≡ 64 + 16 * c + (c + 7) / 8
  unfolding zeros
  length-zeros = length-replicate size 0

  d1 : Bytes
  d1 = splice zeros 0 pool_discriminator

  d2 : Bytes
  d2 = splice d1 8 vault

  d3 : Bytes
  d3 = wr_u32 d2 40 c

  d4 : Bytes
  d4 = wr_u32 d3 44 c

  d5 : Bytes
  d5 = wr_u32 d4 48 0

  d6 : Bytes
  d6 = wr_u32 d5 52 0

  len1 : length d1 ≡ length zeros
  unfolding d1
  len1 = length-splice zeros 0 pool_discriminator

  len2 : length d2 ≡ length zeros
  unfolding d2
  len2 = length-splice d1 8 vault ∙ len1

  len3 : length d3 ≡ length zeros
  unfolding d3
  len3 = length-wr_u32 d2 40 c ∙ len2

  len4 : length d4 ≡ length zeros
  unfolding d4
  len4 = length-wr_u32 d3 44 c ∙ len3

  len5 : length d5 ≡ length zeros
  unfolding d5
  len5 = length-wr_u32 d4 48 0 ∙ len4

  len6 : length d6 ≡ length zeros
  unfolding d6
  len6 = length-wr_u32 d5 52 0 ∙ len5

  -- The later writes are those of the four numbers.
  numbers : (lo h : ℕ) → (h ≤ 40) ⊎ (56 ≤ lo) → Agrees lo h d2 d6
  unfolding d6 d5 d4 d3
  numbers lo h x = Agrees-trans lo h d2 d3 d6 (Agrees-wr_u32 lo h d2 40 c (upto x)) (
      Agrees-trans lo h d3 d4 d6 (Agrees-wr_u32 lo h d3 44 c (upto44 x)) (
        Agrees-trans lo h d4 d5 d6 (Agrees-wr_u32 lo h d4 48 0 (upto48 x))
          (Agrees-wr_u32 lo h d5 52 0 (upto52 x))))
    where
      upto : (h ≤ 40) ⊎ (56 ≤ lo) → (h ≤ 40) ⊎ (40 + 4 ≤ lo)
      upto (inl q) = inl q
      upto (inr q) = inr (omega arith)

      upto44 : (h ≤ 40) ⊎ (56 ≤ lo) → (h ≤ 44) ⊎ (44 + 4 ≤ lo)
      upto44 (inl q) = inl (omega arith)
      upto44 (inr q) = inr (omega arith)

      upto48 : (h ≤ 40) ⊎ (56 ≤ lo) → (h ≤ 48) ⊎ (48 + 4 ≤ lo)
      upto48 (inl q) = inl (omega arith)
      upto48 (inr q) = inr (omega arith)

      upto52 : (h ≤ 40) ⊎ (56 ≤ lo) → (h ≤ 52) ⊎ (52 + 4 ≤ lo)
      upto52 (inl q) = inl (omega arith)
      upto52 (inr q) = inr (omega arith)

  -- The bytes behind the header are still zero.
  body : (h : ℕ) → Agrees 64 h zeros d6
  unfolding d2 d1
  body h =
      Agrees-trans 64 h zeros d2 d6
        (Agrees-trans 64 h zeros d1 d2
          (Agrees-splice 64 h zeros 0 pool_discriminator (inr (omega arith)))
          (Agrees-splice 64 h d1 8 vault (inr (omega (arith, hv)))))
        (numbers 64 h (inr (omega arith)))

  abbrev view : PoolView
  view = record { d = d6; cap = c }

  init_eq : init zeros vault c ≡ ok d6
  unfolding init zeros d6 d5 d4 d3 d2 d1
  init_eq = rw (
    (==_iff (length zeros) size).1 (length-replicate {A = ℕ} size 0),
    take_zeros 8 size (omega arith),
    bytes_eq_refl (replicate 8 0),
  )

  slice_early : (o w : ℕ) → o + w ≤ 40 → slice d6 o w ≡ slice d2 o w
  slice_early o w h = numbers 0 40 (inl (omega arith)) o w (omega arith) h

  tag_read : slice d6 0 8 ≡ pool_discriminator
  unfolding d2 d1
  tag_read =
      slice_early 0 8 (omega arith)
      ∙ Agrees-splice 0 8 d1 8 vault (inl (omega arith)) 0 8 (omega arith) (omega arith)
      ∙ slice-splice_self zeros 0 pool_discriminator 8 (omega (arith, length-zeros)) refl

  vault_read : slice d6 8 32 ≡ vault
  unfolding d2
  vault_read =
      slice_early 8 32 (omega arith)
      ∙ slice-splice_self d1 8 vault 32 (omega (arith, len1, length-zeros)) (sym hv)

  cap_read : rd_u32 d6 40 ≡ c
  unfolding d6 d5 d4 d3
  cap_read =
      rd_u32-wr_u32 d5 40 52 0 (inl (omega arith))
      ∙ rd_u32-wr_u32 d4 40 48 0 (inl (omega arith))
      ∙ rd_u32-wr_u32 d3 40 44 c (inl (omega arith))
      ∙ rd_u32-wr_u32_self d2 40 c (omega (arith, len2, length-zeros)) (omega arith)

  len_read : pool_len view ≡ c
  unfolding pool_len d6 d5 d4
  len_read =
      rd_u32-wr_u32 d5 44 52 0 (inl (omega arith))
      ∙ rd_u32-wr_u32 d4 44 48 0 (inl (omega arith))
      ∙ rd_u32-wr_u32_self d3 44 c (omega (arith, len3, length-zeros)) (omega arith)

  head_read : incoming_head view ≡ 0
  unfolding incoming_head d6 d5
  head_read =
      rd_u32-wr_u32 d5 48 52 0 (inl (omega arith))
      ∙ rd_u32-wr_u32_self d4 48 0 (omega (arith, len4, length-zeros)) (omega arith)

  incoming_read : incoming_len view ≡ 0
  unfolding incoming_len d6
  incoming_read = rd_u32-wr_u32_self d5 52 0 (omega (arith, len5, length-zeros)) (omega arith)

  size_read : length d6 ≡ pool_account_size c
  size_read = len6 ∙ length-zeros

  load_eq : load d6 vault ≡ ok view
  unfolding load
  load_eq = rw (
    leb-true 64 (length d6) (omega (arith, size_read)),
    tag_read,
    vault_read,
    bytes_eq_refl pool_discriminator,
    bytes_eq_refl vault,
    cap_read,
    (==_iff (length d6) (pool_account_size c)).1 size_read,
  )

  slot_read : (i : ℕ) → pool_get view i ≡ i
  unfolding pool_get rd_u32 zeros
  slot_read i = ground (arith, slot_zero)
    where
      slot_zero : from_le_bytes (slice d6 (64 + 4 * i) 4) ≡ 0
      slot_zero =
          ap from_le_bytes (body (64 + 4 * i + 4) (64 + 4 * i) 4 (omega arith) (omega arith))
          ∙ zeroed size (64 + 4 * i) 4

  unminted : (k : ℕ) → is_minted view k ≡ false
  unfolding is_minted zeros
  unminted k = rw (byte_zero, zero-bit_and (2 ^ (k % 8))) (and_false (ltb k c))
    where
      o : ℕ
      o = 64 + 16 * c + k / 8

      byte_zero : get_or d6 (64 + 16 * c + k / 8) 0 ≡ 0
      byte_zero =
          get_or-slice d6 o
          ∙ ap (λ (b : Bytes). get_or b 0 0) (body (o + 1) o 1 (omega arith) (omega arith))
          ∙ sym (get_or-slice zeros o)
          ∙ zeroed_byte size o

  drawable-view : drawable view ≡ tabulate (λ i. i) c
  drawable-view =
      ap (tabulate (pool_get view)) len_read
      ∙ tabulate-congr (pool_get view) (λ i. i) c (λ i _. slot_read i)

  incoming-view : incoming view ≡ []
  incoming-view = rw incoming_read

  bytes-view : AreBytes d6
  unfolding zeros d6 d5 d4 d3 d2 d1
  bytes-view = wr_u32-AreBytes d5 52 0 (
      wr_u32-AreBytes d4 48 0 (
        wr_u32-AreBytes d3 44 c (
          wr_u32-AreBytes d2 40 c (
            splice-AreBytes d1 8 vault
              (splice-AreBytes zeros 0 pool_discriminator (replicate-AreBytes size)
                discriminator_bytes)
              bv))))

  view-IsValid : IsValid view
  view-IsValid = record {
    size = size_read;
    bytes = bytes-view;
    positive = pos;
    small = small;
    counted = omega (arith, len_read, incoming_read);
    head_in = omega (arith, head_read);
    slots_in = λ i lt. rw (slot_read i) (omega (arith, len_read));
    ring_in = rw incoming_read tt;
  }

-- A fresh pool: every index is drawable, in order, none waits, and none is minted.
pub record Fresh (vault : Bytes) (c : ℕ) (d : Bytes) (p : PoolView) : Type 0 where
  pub loads : load d vault ≡ ok p
  pub valid : IsValid p
  pub cap_is : p.cap ≡ c
  pub drawn : drawable p ≡ tabulate (λ i. i) c
  pub waiting : incoming p ≡ []
  pub unminted_all : (k : ℕ) → is_minted p k ≡ false

-- `init` on a zeroed account of the right size succeeds. What it writes loads for the same vault, as
-- a fresh pool of the capacity.
pub init_lem :
    (vault : Bytes) (c : ℕ)
    → length vault ≡ 32
    → AreBytes vault
    → 0 < c
    → c ≤ 2 ^ 31
    → (d : Bytes) × (p : PoolView) × (init (replicate (pool_account_size c) 0) vault c ≡ ok d)
      × Fresh vault c d p
unfolding zeros
init_lem vault c hv bv pos small = (
  d6 vault c hv bv pos small,
  view vault c hv bv pos small,
  init_eq vault c hv bv pos small,
  record {
    loads = load_eq vault c hv bv pos small;
    valid = view-IsValid vault c hv bv pos small;
    cap_is = refl;
    drawn = drawable-view vault c hv bv pos small;
    waiting = incoming-view vault c hv bv pos small;
    unminted_all = unminted vault c hv bv pos small;
  },
)
