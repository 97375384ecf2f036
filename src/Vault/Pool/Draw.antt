-- ===== src/Vault/Pool/Draw.antt =====
-- programs/hybrid_vault/src/pool.rs: `pool_push` and `pool_swap_remove` on the drawable assets.
use mathlib.Core.List.{Perm}
use mathlib.Core.Path.{ap₂}
use native.Mathlib.Numerals.{add-one}
use launchpad.Prelude.{
  ℕ, suc, ◌+◌, ◌-◌, ◌*◌, ◌^◌, ◌≤◌, ◌<◌, ◌≡◌, ◌≢◌, ◌⊎◌, inl, inr, refl, ap, sym, subst, ◌∙◌, List,
  [], ◌∷◌, ◌++◌, length, tabulate, tabulate-congr, tabulate_swap_remove, arith, ok, lt→ltb, dec_lt,
  ℕ_discrete, All, ◌>>=◌,
}
use launchpad.Bytes.{Bytes}
use launchpad.Vault.Pool.Words.{
  wr_u32-AreBytes, wr_u32, length-wr_u32, slice-wr_u32, rd_u32-wr_u32, rd_u32-wr_u32_self,
}
use launchpad.Vault.Pool.View.{
  IsValid, Agrees, Agrees-trans, drawable, incoming, incoming_head-Agrees, incoming_len-Agrees,
  pool_get-Agrees, is_minted-Agrees, incoming-Agrees,
}
use launchpad.Vault.Pool.{
  PoolView, pool_len, incoming_len, incoming_head, pool_get, pool_set, pool_push, total,
  pool_swap_remove, is_minted, write_u32,
}

pub Agrees-wr_u32 :
    (lo hi : ℕ) (d : Bytes) (p v : ℕ) → (hi ≤ p) ⊎ (p + 4 ≤ lo) → Agrees lo hi d (wr_u32 d p v)
Agrees-wr_u32 lo hi d p v (inl h) o n l m = slice-wr_u32 d o n p v (inl (omega arith))
Agrees-wr_u32 lo hi d p v (inr h) o n l m = slice-wr_u32 d o n p v (inr (omega arith))

-- Two slots of the pool do not overlap.
slots_apart : (i j : ℕ) → j ≢ i → (64 + 4 * j + 4 ≤ 64 + 4 * i) ⊎ (64 + 4 * i + 4 ≤ 64 + 4 * j)
slots_apart i j ne = elim (dec_lt j i) [ yes h ↦ inl (omega arith) | no h ↦ inr (omega arith) ]

suc-sub_one : (m : ℕ) → suc m - 1 ≡ m
suc-sub_one m = omega arith

-- A write of a slot, and then of the length.
abbrev with_slot : PoolView → ℕ → ℕ → ℕ → PoolView
with_slot p i a v = write_u32 (pool_set p i a) 44 v

module _ (p : PoolView) (i a v : ℕ) (w : IsValid p) (hi : i < p.cap) (ha : a < p.cap)
    (hv : v ≤ p.cap) where
  d' : Bytes
  d' = (with_slot p i a v).d

  untouched :
      (lo h : ℕ)
      → (h ≤ 44) ⊎ (48 ≤ lo)
      → (h ≤ 64 + 4 * i) ⊎ (64 + 4 * i + 4 ≤ lo)
      → Agrees lo h p.d d'
  unfolding d'
  untouched lo h x y =
      Agrees-trans lo h p.d (wr_u32 p.d (64 + 4 * i) (a + 1)) d'
        (Agrees-wr_u32 lo h p.d (64 + 4 * i) (a + 1) y)
        (Agrees-wr_u32 lo h (wr_u32 p.d (64 + 4 * i) (a + 1)) 44 v x)

  length-with_slot : length d' ≡ length p.d
  unfolding d'
  length-with_slot = length-wr_u32 _ 44 v ∙ length-wr_u32 p.d _ _

  pool_len-with_slot : pool_len (with_slot p i a v) ≡ v
  unfolding pool_len
  pool_len-with_slot =
      rd_u32-wr_u32_self _ 44 v (omega (arith, length-wr_u32 p.d (64 + 4 * i) (a + 1), w.size))
        (omega (arith, w.small))

  pool_get-with_slot_self : pool_get (with_slot p i a v) i ≡ a
  unfolding pool_get
  pool_get-with_slot_self = ground (
    arith,
    rd_u32-wr_u32 (wr_u32 p.d (64 + 4 * i) (a + 1)) (64 + 4 * i) 44 v (inr (omega arith)),
    rd_u32-wr_u32_self p.d (64 + 4 * i) (a + 1) (omega (arith, w.size)) (omega (arith, w.small)),
  )

  pool_get-with_slot_ne : (j : ℕ) → j ≢ i → pool_get (with_slot p i a v) j ≡ pool_get p j
  unfolding d'
  pool_get-with_slot_ne j ne =
      pool_get-Agrees p.cap p.d d' j (untouched _ _ (inr (omega arith)) (slots_apart i j ne))

  incoming_len-with_slot : incoming_len (with_slot p i a v) ≡ incoming_len p
  unfolding d'
  incoming_len-with_slot =
      incoming_len-Agrees p.cap p.d d' (untouched 52 56 (inr (omega arith)) (inl (omega arith)))

  incoming_head-with_slot : incoming_head (with_slot p i a v) ≡ incoming_head p
  unfolding d'
  incoming_head-with_slot =
      incoming_head-Agrees p.cap p.d d' (untouched 48 52 (inr (omega arith)) (inl (omega arith)))

  pub incoming-with_slot : incoming (with_slot p i a v) ≡ incoming p
  unfolding d'
  incoming-with_slot =
      incoming-Agrees p.cap p.d d' (untouched 48 56 (inr (omega arith)) (inl (omega arith)))
        (untouched (64 + 4 * p.cap) (64 + 16 * p.cap) (inr (omega arith)) (inr (omega arith)))
        w.positive

  pub is_minted-with_slot : (k : ℕ) → is_minted (with_slot p i a v) k ≡ is_minted p k
  unfolding d'
  is_minted-with_slot k =
      is_minted-Agrees p.cap p.d d' k (untouched _ _ (inr (omega arith)) (inr (omega arith)))

  pub slots_in-with_slot :
      ((j : ℕ) → j < v → j ≢ i → j < pool_len p)
      → (j : ℕ) → j < v
      → pool_get (with_slot p i a v) j < p.cap
  slots_in-with_slot old j h = elim (ℕ_discrete j i) [
    | yes e ↦ rw (e, pool_get-with_slot_self) ha
    | no ne ↦ rw (pool_get-with_slot_ne j ne) (w.slots_in j (old j h ne))
  ]

  pub with_slot-IsValid :
      ((j : ℕ) → j < v → j ≢ i → j < pool_len p)
      → v + incoming_len p ≤ p.cap
      → IsValid (with_slot p i a v)
  unfolding d'
  with_slot-IsValid old h = record {
    size = length-with_slot ∙ w.size;
    bytes = wr_u32-AreBytes _ 44 v (wr_u32-AreBytes p.d _ _ w.bytes);
    positive = w.positive;
    small = w.small;
    counted = omega (arith, pool_len-with_slot, incoming_len-with_slot);
    head_in = omega (arith, incoming_head-with_slot, w.head_in);
    slots_in = λ j lt. slots_in-with_slot old j (omega (arith, pool_len-with_slot));
    ring_in = subst (All (λ (e : ℕ × ℕ). e.0 < p.cap)) (sym incoming-with_slot) w.ring_in;
  }

-- What `pool_push` does to a valid pool that has room: the asset becomes drawable, behind the
-- others, and nothing else changes.
pub record Pushed (p : PoolView) (a : ℕ) (p' : PoolView) : Type 0 where
  pub valid : IsValid p'
  pub cap_same : p'.cap ≡ p.cap
  pub drawn : drawable p' ≡ drawable p ++ (a ∷ [])
  pub waiting : incoming p' ≡ incoming p
  pub minted : (k : ℕ) → is_minted p' k ≡ is_minted p k
  pub header : Agrees 0 44 p.d p'.d

-- What `pool_swap_remove` does: the drawable assets are the picked one and those of the new pool.
pub record Removed (p : PoolView) (picked : ℕ) (p' : PoolView) : Type 0 where
  pub valid : IsValid p'
  pub cap_same : p'.cap ≡ p.cap
  pub drawn : Perm (drawable p) (picked ∷ drawable p')
  pub count : suc (pool_len p') ≡ pool_len p
  pub waiting : incoming p' ≡ incoming p
  pub minted : (k : ℕ) → is_minted p' k ≡ is_minted p k

module _ (p : PoolView) (w : IsValid p) where
  pub total-IsValid : total p ≡ ok (pool_len p + incoming_len p)
  unfolding total
  total-IsValid =
      rw (lt→ltb (pool_len p + incoming_len p) (2 ^ 32) (omega (arith, w.small, w.counted)))

  push_eq :
      (a : ℕ)
      → pool_len p + incoming_len p < p.cap
      → a < p.cap
      → pool_push p a ≡ ok (with_slot p (pool_len p) a (pool_len p + 1))
  unfolding pool_push
  push_eq a h ha =
      rw (total-IsValid, ◌>>=◌, lt→ltb (pool_len p + incoming_len p) p.cap h, lt→ltb a p.cap ha)

  drawable-push :
      (a : ℕ)
      → pool_len p + incoming_len p < p.cap
      → a < p.cap
      → drawable (with_slot p (pool_len p) a (pool_len p + 1)) ≡ drawable p ++ (a ∷ [])
  drawable-push a h ha =
      ap (tabulate (pool_get (with_slot p n a (n + 1))))
        (pool_len-with_slot p n a (n + 1) w (omega arith) ha (omega arith) ∙ add-one n)
      ∙ ap₂ (λ (xs : List ℕ) x. xs ++ (x ∷ []))
          (tabulate-congr _ (pool_get p) n (λ j lt.
            pool_get-with_slot_ne p n a (n + 1) w (omega arith) ha (omega arith) j (omega arith)))
          (pool_get-with_slot_self p n a (n + 1) w (omega arith) ha (omega arith))
    where
      n : ℕ
      n = pool_len p

  -- A push of an index below the capacity into a valid pool that has room succeeds. The asset
  -- becomes drawable behind the others, and the waiting assets and the minted bits are the same.
  pub pool_push_lem :
      (a : ℕ)
      → pool_len p + incoming_len p < p.cap
      → a < p.cap
      → (p' : PoolView) × (pool_push p a ≡ ok p') × Pushed p a p'
  unfolding d'
  pool_push_lem a h ha = (
    with_slot p (pool_len p) a (pool_len p + 1),
    push_eq a h ha,
    record {
      valid =
          with_slot-IsValid p (pool_len p) a (pool_len p + 1) w (omega arith) ha (omega arith)
            (λ j lt ne. omega arith) (omega arith);
      cap_same = refl;
      drawn = drawable-push a h ha;
      waiting =
          incoming-with_slot p (pool_len p) a (pool_len p + 1) w (omega arith) ha (omega arith);
      minted =
          is_minted-with_slot p (pool_len p) a (pool_len p + 1) w (omega arith) ha (omega arith);
      header =
          untouched p (pool_len p) a (pool_len p + 1) w (omega arith) ha (omega arith) 0 44
            (inl (omega arith)) (inl (omega arith));
    },
  )

-- `m` is the last position, whose entry is moved to `i`.
module _ (p : PoolView) (w : IsValid p) (i m : ℕ) (e : pool_len p ≡ suc m) (hi : i ≤ m) where
  abbrev removed : PoolView
  removed = with_slot p i (pool_get p m) m

  swap_remove_eq : pool_swap_remove p i ≡ ok (pool_get p i, removed)
  unfolding pool_swap_remove
  swap_remove_eq = rw (e, lt→ltb i (suc m) (omega arith), suc-sub_one m)

  last_in : pool_get p m < p.cap
  last_in = w.slots_in m (omega arith)

  drawable-removed : Perm (drawable p) (pool_get p i ∷ drawable removed)
  drawable-removed =
      rw (e, pool_len-with_slot p i (pool_get p m) m w (omega arith) last_in (omega arith))
        (tabulate_swap_remove (pool_get p) (pool_get removed) i m hi
          (pool_get-with_slot_self p i (pool_get p m) m w (omega arith) last_in (omega arith))
          (λ j _ ne.
            pool_get-with_slot_ne p i (pool_get p m) m w (omega arith) last_in (omega arith) j ne))

  removed-Removed : Removed p (pool_get p i) removed
  removed-Removed = record {
    valid =
        with_slot-IsValid p i (pool_get p m) m w (omega arith) last_in (omega arith)
          (λ j lt ne. omega arith) (omega arith);
    cap_same = refl;
    drawn = drawable-removed;
    count =
        omega
          (arith, pool_len-with_slot p i (pool_get p m) m w (omega arith) last_in (omega arith));
    waiting = incoming-with_slot p i (pool_get p m) m w (omega arith) last_in (omega arith);
    minted = is_minted-with_slot p i (pool_get p m) m w (omega arith) last_in (omega arith);
  }

-- Removing at a position inside a valid pool succeeds, and returns the entry of that position. The
-- drawable assets are then the others in some order, and the waiting assets and the minted bits are
-- the same.
pub pool_swap_remove_lem :
    (p : PoolView) (i : ℕ)
    → IsValid p
    → i < pool_len p
    → (p' : PoolView) × (pool_swap_remove p i ≡ ok (pool_get p i, p')) × Removed p (pool_get p i) p'
pool_swap_remove_lem p i w h =
    let e : pool_len p ≡ suc (pool_len p - 1) = omega arith in
    let hi : i ≤ pool_len p - 1 = omega arith in
    (
      removed p w i (pool_len p - 1) e hi,
      swap_remove_eq p w i (pool_len p - 1) e hi,
      removed-Removed p w i (pool_len p - 1) e hi,
    )
