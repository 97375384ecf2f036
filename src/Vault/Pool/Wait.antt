-- ===== src/Vault/Pool/Wait.antt =====
-- programs/hybrid_vault/src/pool.rs: `incoming_push` and the ring of returned assets.
use mathlib.Core.Path.{ap₂}
use native.Mathlib.Nat.{mod-lt, mod-eq_of_lt, mod-eq-sub-mod}
use native.Mathlib.Numerals.{add-one}
use launchpad.Prelude.{
  ℕ, ◌+◌, ◌-◌, ◌*◌, ◌%◌, ◌^◌, ◌≤◌, ◌<◌, ◌≡◌, ◌≢◌, ◌⊎◌, inl, inr, refl, ap, sym, subst, ◌∙◌, List,
  [], ◌∷◌, ◌++◌, length, tabulate, tabulate-congr, tabulate-All, All, All-append, arith, true, ok,
  lt→ltb, ltb→lt, leb-true, Bool-cases, ltb, dec_lt, ◌>>=◌,
}
use launchpad.Bytes.{Bytes}
use launchpad.Vault.Pool.Words.{
  wr_u32-AreBytes, wr_u64-AreBytes, wr_u32, wr_u64, length-wr_u32, length-wr_u64, slice-wr_u64,
  rd_u32-wr_u32, rd_u64-wr_u32, rd_u32-wr_u64, rd_u32-wr_u32_self, rd_u64-wr_u64_self,
}
use launchpad.Vault.Pool.View.{
  IsValid, Agrees, Agrees-trans, drawable, incoming, ring_get, pool_len-Agrees,
  incoming_head-Agrees, pool_get-Agrees, ring_get-Agrees, is_minted-Agrees, drawable-Agrees,
}
use launchpad.Vault.Pool.Draw.{Agrees-wr_u32, total-IsValid}
use launchpad.Vault.Pool.{
  PoolView, pool_len, incoming_len, incoming_head, pool_get, inc_off, incoming_push, check_back_tag,
  is_minted, write_u32,
}

Agrees-wr_u64 :
    (lo hi : ℕ) (d : Bytes) (p v : ℕ) → (hi ≤ p) ⊎ (p + 8 ≤ lo) → Agrees lo hi d (wr_u64 d p v)
Agrees-wr_u64 lo hi d p v (inl h) o n l m = slice-wr_u64 d o n p v (inl (omega arith))
Agrees-wr_u64 lo hi d p v (inr h) o n l m = slice-wr_u64 d o n p v (inr (omega arith))

-- Two positions of the ring do not overlap.
entries_apart :
    (c i j : ℕ)
    → j ≢ i
    → (64 + 4 * c + 12 * j + 12 ≤ 64 + 4 * c + 12 * i)
      ⊎ (64 + 4 * c + 12 * i + 12 ≤ 64 + 4 * c + 12 * j)
entries_apart c i j ne = elim (dec_lt j i) [ yes h ↦ inl (omega arith) | no h ↦ inr (omega arith) ]

round_cases :
    (c h k : ℕ)
    → h < c
    → k < c
    → ((h + k < c) × ((h + k) % c ≡ h + k)) ⊎ ((c ≤ h + k) × ((h + k) % c ≡ h + k - c))
round_cases c h k hc kc = elim (dec_lt (h + k) c) [
  | yes y ↦ inl (y, mod-eq_of_lt y)
  | no n ↦
      inr
        (omega arith, mod-eq-sub-mod {n = h + k} {m = c} (omega arith) ∙ mod-eq_of_lt (omega arith))
]

-- Fewer than `c` steps round the ring come to different positions.
round_ne : (c h k n : ℕ) → h < c → k < n → n < c → (h + k) % c ≢ (h + n) % c
round_ne c h k n hc kn nc e =
    ground (arith, round_cases c h k hc (omega arith), round_cases c h n hc nc)

-- A write of an entry of the ring, and then of the number of entries.
abbrev with_entry : PoolView → ℕ → ℕ → ℕ → ℕ → PoolView
with_entry p s a tag v =
    let p1 = write_u32 p (inc_off p s) a in
    write_u32 (record p1 { d = wr_u64 p1.d (inc_off p s + 4) tag }) 52 v

module _ (p : PoolView) (s a tag v : ℕ) (w : IsValid p) (hs : s < p.cap) (ha : a < p.cap)
    (ht : tag < 2 ^ 64) (hv : v ≤ p.cap) where
  at : ℕ
  at = inc_off p s

  d1 : Bytes
  unfolding at
  d1 = wr_u32 p.d at a

  d2 : Bytes
  unfolding d1
  d2 = wr_u64 d1 (at + 4) tag

  d3 : Bytes
  unfolding d2
  d3 = wr_u32 d2 52 v

  untouched : (lo h : ℕ) → (h ≤ 52) ⊎ (56 ≤ lo) → (h ≤ at) ⊎ (at + 12 ≤ lo) → Agrees lo h p.d d3
  unfolding d3
  untouched lo h x y =
      Agrees-trans lo h p.d d2 d3
        (Agrees-trans lo h p.d d1 d2 (Agrees-wr_u32 lo h p.d at a (narrow y))
          (Agrees-wr_u64 lo h d1 (at + 4) tag (narrow' y)))
        (Agrees-wr_u32 lo h d2 52 v x)
    where
      narrow : (h ≤ at) ⊎ (at + 12 ≤ lo) → (h ≤ at) ⊎ (at + 4 ≤ lo)
      narrow (inl q) = inl q
      narrow (inr q) = inr (omega arith)

      narrow' : (h ≤ at) ⊎ (at + 12 ≤ lo) → (h ≤ at + 4) ⊎ (at + 4 + 8 ≤ lo)
      narrow' (inl q) = inl (omega arith)
      narrow' (inr q) = inr (omega arith)

  header-with_entry : Agrees 0 44 p.d (with_entry p s a tag v).d
  unfolding d3 at
  header-with_entry = untouched 0 44 (inl (omega arith)) (inl (omega arith))

  length-with_entry : length (with_entry p s a tag v).d ≡ length p.d
  unfolding d3
  length-with_entry = length-wr_u32 d2 52 v ∙ length-wr_u64 d1 (at + 4) tag ∙ length-wr_u32 p.d at a

  incoming_len-with_entry : incoming_len (with_entry p s a tag v) ≡ v
  unfolding incoming_len d3
  incoming_len-with_entry =
      rd_u32-wr_u32_self d2 52 v
        (omega (arith, length-wr_u64 d1 (at + 4) tag, length-wr_u32 p.d at a, w.size))
        (omega (arith, w.small))

  ring_get-with_entry_self : ring_get (with_entry p s a tag v) s ≡ (a, tag)
  unfolding ring_get d3
  ring_get-with_entry_self =
      ap₂ (λ (x y : ℕ). (x, y))
        (rd_u32-wr_u32 d2 at 52 v (inr (omega arith))
          ∙ rd_u32-wr_u64 d1 at (at + 4) tag (inl (omega arith))
          ∙ rd_u32-wr_u32_self p.d at a (omega (arith, w.size)) (omega (arith, w.small)))
        (rd_u64-wr_u32 d2 (at + 4) 52 v (inr (omega arith))
          ∙ rd_u64-wr_u64_self d1 (at + 4) tag (omega (arith, length-wr_u32 p.d at a, w.size)) ht)

  ring_get-with_entry_ne :
      (j : ℕ) → j < p.cap → j ≢ s → ring_get (with_entry p s a tag v) j ≡ ring_get p j
  unfolding d3
  ring_get-with_entry_ne j hj ne =
      ring_get-Agrees p.cap p.d d3 j
        (untouched _ _ (inr (omega arith)) (entries_apart p.cap s j ne))

  pool_len-with_entry : pool_len (with_entry p s a tag v) ≡ pool_len p
  unfolding d3
  pool_len-with_entry =
      pool_len-Agrees p.cap p.d d3 (untouched 44 48 (inl (omega arith)) (inl (omega arith)))

  incoming_head-with_entry : incoming_head (with_entry p s a tag v) ≡ incoming_head p
  unfolding d3
  incoming_head-with_entry =
      incoming_head-Agrees p.cap p.d d3 (untouched 48 52 (inl (omega arith)) (inl (omega arith)))

  pub drawable-with_entry : drawable (with_entry p s a tag v) ≡ drawable p
  unfolding d3
  drawable-with_entry =
      drawable-Agrees p.cap p.d d3 (untouched 44 48 (inl (omega arith)) (inl (omega arith)))
        (untouched 64 (64 + 4 * p.cap) (inr (omega arith)) (inl (omega arith)))
        (omega (arith, w.counted))

  pool_get-with_entry : (i : ℕ) → i < p.cap → pool_get (with_entry p s a tag v) i ≡ pool_get p i
  unfolding d3
  pool_get-with_entry i hi =
      pool_get-Agrees p.cap p.d d3 i (untouched _ _ (inr (omega arith)) (inl (omega arith)))

  pub is_minted-with_entry : (k : ℕ) → is_minted (with_entry p s a tag v) k ≡ is_minted p k
  unfolding d3
  is_minted-with_entry k =
      is_minted-Agrees p.cap p.d d3 k (untouched _ _ (inr (omega arith)) (inr (omega arith)))

-- What `incoming_push` does: the entry waits behind the others, and nothing else changes.
pub record Queued (p : PoolView) (e : ℕ × ℕ) (p' : PoolView) : Type 0 where
  pub header : Agrees 0 44 p.d p'.d
  pub valid : IsValid p'
  pub cap_same : p'.cap ≡ p.cap
  pub drawn : drawable p' ≡ drawable p
  pub waiting : incoming p' ≡ incoming p ++ (e ∷ [])
  pub minted : (k : ℕ) → is_minted p' k ≡ is_minted p k

module _ (p : PoolView) (a tag : ℕ) (w : IsValid p) (room : pool_len p + incoming_len p < p.cap)
    (ha : a < p.cap) (ht : tag < 2 ^ 64) where
  abbrev slot : ℕ
  slot = (incoming_head p + incoming_len p) % p.cap

  abbrev queued : PoolView
  queued = with_entry p slot a tag (incoming_len p + 1)

  slot_in : slot < p.cap
  slot_in = mod-lt _ w.positive

  fits : incoming_len p + 1 ≤ p.cap
  fits = omega arith

  len : incoming_len queued ≡ incoming_len p + 1
  len = incoming_len-with_entry p slot a tag (incoming_len p + 1) w slot_in ha ht fits

  head : incoming_head queued ≡ incoming_head p
  head = incoming_head-with_entry p slot a tag (incoming_len p + 1) w slot_in ha ht fits

  old_entry :
      (k : ℕ)
      → k < incoming_len p
      → ring_get queued ((incoming_head queued + k) % p.cap)
        ≡ ring_get p ((incoming_head p + k) % p.cap)
  old_entry k lt =
      ap (λ h. ring_get queued ((h + k) % p.cap)) head
      ∙ ring_get-with_entry_ne p slot a tag (incoming_len p + 1) w slot_in ha ht fits
          ((incoming_head p + k) % p.cap) (mod-lt _ w.positive)
          (round_ne p.cap (incoming_head p) k (incoming_len p) w.head_in lt fits')
    where
      fits' : incoming_len p < p.cap
      fits' = omega arith

  new_entry : ring_get queued ((incoming_head queued + incoming_len p) % p.cap) ≡ (a, tag)
  new_entry =
      ap (λ h. ring_get queued ((h + incoming_len p) % p.cap)) head
      ∙ ring_get-with_entry_self p slot a tag (incoming_len p + 1) w slot_in ha ht fits

  incoming-queued : incoming queued ≡ incoming p ++ ((a, tag) ∷ [])
  incoming-queued =
      ap (tabulate (λ k. ring_get queued ((incoming_head queued + k) % p.cap)))
        (len ∙ add-one (incoming_len p))
      ∙ ap₂ (λ (xs : List (ℕ × ℕ)) x. xs ++ (x ∷ []))
          (tabulate-congr _ (λ k. ring_get p ((incoming_head p + k) % p.cap)) (incoming_len p)
            old_entry)
          new_entry

  pool_len-queued : pool_len queued ≡ pool_len p
  pool_len-queued = pool_len-with_entry p slot a tag (incoming_len p + 1) w slot_in ha ht fits

  queued-IsValid : IsValid queued
  queued-IsValid = record {
    size = length-with_entry p slot a tag (incoming_len p + 1) w slot_in ha ht fits ∙ w.size;
    bytes = wr_u32-AreBytes _ 52 _ (wr_u64-AreBytes _ _ tag (wr_u32-AreBytes p.d _ a w.bytes));
    positive = w.positive;
    small = w.small;
    counted = omega (arith, len, pool_len-queued);
    head_in = omega (arith, head, w.head_in);
    slots_in = λ i lt.
        rw
          (pool_get-with_entry p slot a tag (incoming_len p + 1) w slot_in ha ht fits i
            (omega (arith, pool_len-queued)))
          (w.slots_in i (omega (arith, pool_len-queued)));
    ring_in =
        subst (All (λ (e : ℕ × ℕ). e.0 < p.cap)) (sym incoming-queued)
          (All-append _ (incoming p) ((a, tag) ∷ []) w.ring_in (ha, tt));
  }

  -- The newest waiting entry is among the waiting ones.
  back_le :
      All (λ (e : ℕ × ℕ). e.1 ≤ tag) (incoming p)
      → ltb 0 (incoming_len p) ≡ true
      → (ring_get p ((incoming_head p + incoming_len p - 1) % p.cap)).1 ≤ tag
  back_le old h =
      subst (λ k. (ring_get p (k % p.cap)).1 ≤ tag) (last_eq (ltb→lt 0 (incoming_len p) h))
        (tabulate-All (λ (e : ℕ × ℕ). e.1 ≤ tag) (λ k. ring_get p ((incoming_head p + k) % p.cap))
          (incoming_len p) (incoming_len p - 1) (omega (arith, ltb→lt 0 (incoming_len p) h)) old)
    where
      last_eq :
          0 < incoming_len p
          → incoming_head p + (incoming_len p - 1) ≡ incoming_head p + incoming_len p - 1
      last_eq q = omega arith

  check_back_tag-All : All (λ (e : ℕ × ℕ). e.1 ≤ tag) (incoming p) → check_back_tag p tag ≡ ok tt
  unfolding check_back_tag ring_get
  check_back_tag-All old = elim (Bool-cases (ltb 0 (incoming_len p))) [
    | inl some_wait ↦ rw (some_wait, leb-true _ tag (back_le old some_wait))
    | inr none_wait ↦ rw none_wait
  ]

  -- A push of an entry into a valid pool that has room succeeds, if its index is below the capacity
  -- and its tag fits 64 bits and is at least those of the waiting entries. The entry waits behind
  -- the others; the drawable assets and the minted bits are the same.
  pub incoming_push_lem :
      All (λ (e : ℕ × ℕ). e.1 ≤ tag) (incoming p)
      → (p' : PoolView) × (incoming_push p a tag ≡ ok p') × Queued p (a, tag) p'
  unfolding incoming_push
  incoming_push_lem old = (
    queued,
    rw (
      incoming_push,
      total-IsValid p w,
      ◌>>=◌,
      lt→ltb (pool_len p + incoming_len p) p.cap room,
      check_back_tag-All old,
    ),
    record {
      header = header-with_entry p slot a tag (incoming_len p + 1) w slot_in ha ht fits;
      valid = queued-IsValid;
      cap_same = refl;
      drawn = drawable-with_entry p slot a tag (incoming_len p + 1) w slot_in ha ht fits;
      waiting = incoming-queued;
      minted = is_minted-with_entry p slot a tag (incoming_len p + 1) w slot_in ha ht fits;
    },
  )
