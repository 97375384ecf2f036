-- ===== src/Vault/Pool/View.antt =====
-- programs/hybrid_vault/src/pool.rs: what a pool account holds, and which bytes each part depends on.
use launchpad.Prelude.{
  ℕ, ◌+◌, ◌-◌, ◌*◌, ◌/◌, ◌%◌, ◌^◌, ◌≤◌, ◌<◌, ◌≡◌, ◌⊎◌, inl, inr, refl, ap, sym, ◌∙◌, List, length,
  length-tabulate, tabulate, tabulate-congr, arith, All, ltb, not, ◌&&◌, get_or, ◌==◌,
  if◌then◌else◌,
}
use Prim.Native.Nat.{bit_and}
use mathlib.Core.Path.{ap₂}
use launchpad.Bytes.{Bytes, slice, splice, from_le_bytes}
use launchpad.Bytes.Laws.{get_or-slice, AreBytes}
use launchpad.Vault.Pool.Words.{slice-splice-Apart, rd_u32, rd_u64}
use launchpad.Vault.Pool.{
  PoolView, pool_account_size, pool_len, incoming_len, incoming_head, pool_get, inc_off, is_minted,
}

-- The entry of the incoming ring at a position: the asset index and its tag.
unfoldable pub ring_get : PoolView → ℕ → ℕ × ℕ
ring_get p j = (rd_u32 p.d (inc_off p j), rd_u64 p.d (inc_off p j + 4))

-- The asset indices that can be drawn, by position.
abbrev pub drawable : PoolView → List ℕ
drawable p = tabulate (pool_get p) (pool_len p)

-- The returned assets that wait to be merged, oldest first.
abbrev pub incoming : PoolView → List (ℕ × ℕ)
incoming p = tabulate (λ k. ring_get p ((incoming_head p + k) % p.cap)) (incoming_len p)

-- The representation invariant of a pool account.
pub record IsValid (p : PoolView) : Type 0 where
  pub size : length p.d ≡ pool_account_size p.cap
  pub bytes : AreBytes p.d
  pub positive : 0 < p.cap
  pub small : p.cap ≤ 2 ^ 31
  pub counted : pool_len p + incoming_len p ≤ p.cap
  pub head_in : incoming_head p < p.cap
  pub slots_in : (i : ℕ) → i < pool_len p → pool_get p i < p.cap
  pub ring_in : All (λ (e : ℕ × ℕ). e.0 < p.cap) (incoming p)

-- The bytes from `lo` to `hi` are the same in both buffers.
abbrev pub Agrees : ℕ → ℕ → Bytes → Bytes → Type 0
Agrees lo hi d d' = (o n : ℕ) → lo ≤ o → o + n ≤ hi → slice d' o n ≡ slice d o n

pub Agrees-splice :
    (lo hi : ℕ) (d : Bytes) (p : ℕ) (bs : Bytes)
    → (hi ≤ p) ⊎ (p + length bs ≤ lo)
    → Agrees lo hi d (splice d p bs)
Agrees-splice lo hi d p bs (inl h) o n l m =
    slice-splice-Apart d o n p (length bs) bs refl (inl (omega arith))
Agrees-splice lo hi d p bs (inr h) o n l m =
    slice-splice-Apart d o n p (length bs) bs refl (inr (omega arith))

pub Agrees-trans :
    (lo hi : ℕ) (d d' d'' : Bytes) → Agrees lo hi d d' → Agrees lo hi d' d'' → Agrees lo hi d d''
Agrees-trans lo hi d d' d'' a b o n l h = b o n l h ∙ a o n l h

-- A smaller range.
pub Agrees-mono :
    (lo hi l h : ℕ) (d d' : Bytes) → lo ≤ l → h ≤ hi → Agrees lo hi d d' → Agrees l h d d'
Agrees-mono lo hi l h d d' p q a o n x y = a o n (omega arith) (omega arith)

module _ (c : ℕ) (d d' : Bytes) where
  abbrev pub before : PoolView
  before = record { d = d; cap = c }

  abbrev pub after : PoolView
  after = record { d = d'; cap = c }

  pub pool_len-Agrees : Agrees 44 48 d d' → pool_len after ≡ pool_len before
  unfolding pool_len rd_u32
  pool_len-Agrees a = ap from_le_bytes (a 44 4 (omega arith) (omega arith))

  pub incoming_head-Agrees : Agrees 48 52 d d' → incoming_head after ≡ incoming_head before
  unfolding incoming_head rd_u32
  incoming_head-Agrees a = ap from_le_bytes (a 48 4 (omega arith) (omega arith))

  pub incoming_len-Agrees : Agrees 52 56 d d' → incoming_len after ≡ incoming_len before
  unfolding incoming_len rd_u32
  incoming_len-Agrees a = ap from_le_bytes (a 52 4 (omega arith) (omega arith))

  pub pool_get-Agrees :
      (i : ℕ) → Agrees (64 + 4 * i) (64 + 4 * i + 4) d d' → pool_get after i ≡ pool_get before i
  unfolding pool_get rd_u32
  pool_get-Agrees i a =
      ap (λ (s : Bytes). let v = from_le_bytes s in if v == 0 then i else v - 1)
        (a (64 + 4 * i) 4 (omega arith) (omega arith))

  pub ring_get-Agrees :
      (j : ℕ)
      → Agrees (64 + 4 * c + 12 * j) (64 + 4 * c + 12 * j + 12) d d'
      → ring_get after j ≡ ring_get before j
  unfolding ring_get rd_u32 rd_u64
  ring_get-Agrees j a =
      ap₂ (λ (s t : Bytes). (from_le_bytes s, from_le_bytes t))
        (a (64 + 4 * c + 12 * j) 4 (omega arith) (omega arith))
        (a (64 + 4 * c + 12 * j + 4) 8 (omega arith) (omega arith))

  pub is_minted-Agrees :
      (i : ℕ)
      → Agrees (64 + 16 * c + i / 8) (64 + 16 * c + i / 8 + 1) d d'
      → is_minted after i ≡ is_minted before i
  unfolding is_minted
  is_minted-Agrees i a =
      ap (λ (b : ℕ). ltb i c && not (bit_and b (2 ^ (i % 8)) == 0))
        (get_or-slice d' (64 + 16 * c + i / 8)
          ∙ ap (λ (s : Bytes). get_or s 0 0) (a (64 + 16 * c + i / 8) 1 (omega arith) (omega arith))
          ∙ sym (get_or-slice d (64 + 16 * c + i / 8)))

  -- The slots below the capacity.
  pub drawable-Agrees :
      Agrees 44 48 d d'
      → Agrees 64 (64 + 4 * c) d d'
      → pool_len before ≤ c
      → drawable after ≡ drawable before
  drawable-Agrees l s h =
      ap (tabulate (pool_get after)) (pool_len-Agrees l)
      ∙ tabulate-congr (pool_get after) (pool_get before) (pool_len before) (λ i lt.
        pool_get-Agrees i (Agrees-mono 64 (64 + 4 * c) _ _ d d' (omega arith) (omega arith) s))

  pub incoming-Agrees :
      Agrees 48 56 d d'
      → Agrees (64 + 4 * c) (64 + 16 * c) d d'
      → 0 < c
      → incoming after ≡ incoming before
  incoming-Agrees l s h =
      ap (tabulate (λ k. ring_get after ((incoming_head after + k) % c))) same_len
      ∙ tabulate-congr _ (λ k. ring_get before ((incoming_head before + k) % c))
          (incoming_len before)
          (λ k _.
            ring_get-Agrees ((incoming_head after + k) % c)
              (Agrees-mono _ _ _ _ d d' (omega arith) (omega arith) s)
            ∙ ap (λ h. ring_get before ((h + k) % c)) same_head)
    where
      same_head : incoming_head after ≡ incoming_head before
      same_head = incoming_head-Agrees (Agrees-mono 48 56 _ _ d d' (omega arith) (omega arith) l)

      same_len : incoming_len after ≡ incoming_len before
      same_len = incoming_len-Agrees (Agrees-mono 48 56 _ _ d d' (omega arith) (omega arith) l)

-- The lengths of the parts of a pool are those of the lists.
pub pool_len-drawable : (p : PoolView) → pool_len p ≡ length (drawable p)
pool_len-drawable p = sym (length-tabulate _ (pool_len p))

pub incoming_len-incoming : (p : PoolView) → incoming_len p ≡ length (incoming p)
incoming_len-incoming p = sym (length-tabulate _ (incoming_len p))
