-- ===== src/Vault/Pool/Bitmap.antt =====
-- programs/hybrid_vault/src/pool.rs: `mark_minted` and the minted bitmap.
use Prim.Native.Nat.{bit_or}
use launchpad.Prelude.{
  ℕ, ◌+◌, ◌*◌, ◌/◌, ◌%◌, ◌^◌, ◌≤◌, ◌<◌, ◌≡◌, ◌≢◌, ◌⊎◌, inl, inr, refl, ap, sym, subst, ◌∙◌, [], ◌∷◌,
  get_or, length, All, arith, Bool, true, false, ◌&&◌, ◌||◌, ok, err, lt→ltb, ltb, ◌==◌, dec_lt,
  ℕ_discrete,
}
use launchpad.Bytes.{splice}
use launchpad.Bytes.Laws.{
  length-splice, slice-splice_self, get_or-slice, splice-AreBytes, get_or-AreBytes,
}
use launchpad.Vault.Error.{already_minted}
use launchpad.Vault.Pool.Bits.{bit, bit-bit_or, bit_or-lt}
use launchpad.Vault.Pool.View.{
  IsValid, Agrees, Agrees-splice, drawable, incoming, pool_len-Agrees, incoming_len-Agrees,
  incoming_head-Agrees, pool_get-Agrees, is_minted-Agrees, drawable-Agrees, incoming-Agrees,
}
use launchpad.Vault.Pool.{
  PoolView, pool_len, incoming_len, incoming_head, bitmap_off, mark_minted, is_minted,
}

-- What `mark_minted` does: it sets the bit of `index`, and nothing else changes.
pub record Marked (p : PoolView) (index : ℕ) (p' : PoolView) : Type 0 where
  pub valid : IsValid p'
  pub cap_same : p'.cap ≡ p.cap
  pub drawn : drawable p' ≡ drawable p
  pub waiting : incoming p' ≡ incoming p
  pub set : is_minted p' index ≡ true
  pub others : (k : ℕ) → k ≢ index → is_minted p' k ≡ is_minted p k

own_bit : (k : ℕ) (b : Bool) → ((k == k) || b) ≡ true
own_bit k b = ground arith

other_bit : (k j : ℕ) (b : Bool) → j ≢ k → ((k == j) || b) ≡ b
other_bit k j b ne = ground arith

module _ (p : PoolView) (index : ℕ) (w : IsValid p) (h : index < p.cap) where
  abbrev at : ℕ
  at = bitmap_off p + index / 8

  abbrev byte : ℕ
  byte = get_or p.d at 0

  abbrev new_byte : ℕ
  new_byte = bit_or byte (2 ^ (index % 8))

  abbrev marked : PoolView
  marked = record p { d = splice p.d at (new_byte ∷ []) }

  in_bounds : at < length p.d
  in_bounds = omega (arith, w.size)

  byte-lt : byte < 256
  byte-lt = get_or-AreBytes p.d at w.bytes

  new_byte-lt : new_byte < 256
  new_byte-lt = bit_or-lt byte (index % 8) byte-lt (omega arith)

  untouched : (lo hi : ℕ) → (hi ≤ at) ⊎ (at + 1 ≤ lo) → Agrees lo hi p.d marked.d
  untouched lo hi x = Agrees-splice lo hi p.d at (new_byte ∷ []) x

  read_back : get_or marked.d at 0 ≡ new_byte
  read_back =
      get_or-slice (splice p.d at (new_byte ∷ [])) at
      ∙ ap (λ s. get_or s 0 0)
          (slice-splice_self p.d at (new_byte ∷ []) 1 (omega (arith, in_bounds)) refl)

  elsewhere : (q : ℕ) → q ≢ index / 8 → (bitmap_off p + q + 1 ≤ at) ⊎ (at + 1 ≤ bitmap_off p + q)
  elsewhere q ne = elim (dec_lt q (index / 8)) [
    | yes l ↦ inl (omega arith)
    | no l ↦ inr (omega arith)
  ]

  -- A bit of the byte written, that is of the indices `8 * (index / 8) + j`.
  bits : (j : ℕ) → j < 8 → bit (get_or marked.d at 0) j ≡ ((index % 8 == j) || bit byte j)
  bits j hj = ap (λ b. bit b j) read_back ∙ bit-bit_or byte (index % 8) j byte-lt (omega arith) hj

  is_minted-marked_self : is_minted marked index ≡ true
  unfolding is_minted
  is_minted-marked_self =
      ap (λ b. b && bit (get_or marked.d at 0) (index % 8)) (lt→ltb index p.cap h)
      ∙ bits (index % 8) (omega arith)
      ∙ own_bit (index % 8) (bit byte (index % 8))

  -- Another bit of the byte written.
  same_byte :
      (k : ℕ)
      → k ≢ index
      → k / 8 ≡ index / 8
      → bit (get_or marked.d (bitmap_off p + k / 8) 0) (k % 8)
        ≡ bit (get_or p.d (bitmap_off p + k / 8) 0) (k % 8)
  same_byte k ne e =
      ap (λ q. bit (get_or marked.d (bitmap_off p + q) 0) (k % 8)) e
      ∙ bits (k % 8) (omega arith)
      ∙ other_bit (index % 8) (k % 8) (bit byte (k % 8)) (omega arith)
      ∙ ap (λ q. bit (get_or p.d (bitmap_off p + q) 0) (k % 8)) (sym e)

  is_minted-marked_ne : (k : ℕ) → k ≢ index → is_minted marked k ≡ is_minted p k
  unfolding is_minted
  is_minted-marked_ne k ne = elim (ℕ_discrete (k / 8) (index / 8)) [
    | yes e ↦ ap (λ b. ltb k p.cap && b) (same_byte k ne e)
    | no other ↦ is_minted-Agrees p.cap p.d marked.d k (untouched _ _ (elsewhere (k / 8) other))
  ]

  header : (lo hi : ℕ) → hi ≤ bitmap_off p → Agrees lo hi p.d marked.d
  header lo hi l = untouched lo hi (inl (omega arith))

  drawable-marked : drawable marked ≡ drawable p
  drawable-marked =
      drawable-Agrees p.cap p.d marked.d (header 44 48 (omega arith))
        (header 64 (64 + 4 * p.cap) (omega arith)) (omega (arith, w.counted))

  incoming-marked : incoming marked ≡ incoming p
  incoming-marked =
      incoming-Agrees p.cap p.d marked.d (header 48 56 (omega arith))
        (header (64 + 4 * p.cap) (64 + 16 * p.cap) (omega arith)) w.positive

  pool_len-marked : pool_len marked ≡ pool_len p
  pool_len-marked = pool_len-Agrees p.cap p.d marked.d (header 44 48 (omega arith))

  incoming_len-marked : incoming_len marked ≡ incoming_len p
  incoming_len-marked = incoming_len-Agrees p.cap p.d marked.d (header 52 56 (omega arith))

  incoming_head-marked : incoming_head marked ≡ incoming_head p
  incoming_head-marked = incoming_head-Agrees p.cap p.d marked.d (header 48 52 (omega arith))

  marked-IsValid : IsValid marked
  marked-IsValid = record {
    size = length-splice p.d at (new_byte ∷ []) ∙ w.size;
    bytes = splice-AreBytes p.d at (new_byte ∷ []) w.bytes (new_byte-lt, tt);
    positive = w.positive;
    small = w.small;
    counted = omega (arith, pool_len-marked, incoming_len-marked, w.counted);
    head_in = omega (arith, incoming_head-marked, w.head_in);
    slots_in = λ i lt.
        rw
          (pool_get-Agrees p.cap p.d marked.d i
            (header _ _ (omega (arith, pool_len-marked, w.counted))))
          (w.slots_in i (omega (arith, pool_len-marked)));
    ring_in = subst (All (λ (e : ℕ × ℕ). e.0 < p.cap)) (sym incoming-marked) w.ring_in;
  }

  -- On a valid pool, marking an index below the capacity that was never minted succeeds. It sets the
  -- bit of that index; the other bits, the drawable and the waiting assets are the same.
  pub mark_minted_lem :
      is_minted p index ≡ false
      → (p' : PoolView) × (mark_minted p index ≡ ok p') × Marked p index p'
  unfolding mark_minted
  mark_minted_lem never = (
    marked,
    rw (lt→ltb index p.cap h, never),
    record {
      valid = marked-IsValid;
      cap_same = refl;
      drawn = drawable-marked;
      waiting = incoming-marked;
      set = is_minted-marked_self;
      others = is_minted-marked_ne;
    },
  )

-- A second mint of an index is refused.
pub mark_minted_twice :
    (p : PoolView) (index : ℕ)
    → index < p.cap
    → is_minted p index ≡ true
    → mark_minted p index ≡ err already_minted
unfolding mark_minted
mark_minted_twice p index h e = rw (lt→ltb index p.cap h, e)
