-- ===== src/Vault/Pool/Load.antt =====
-- programs/hybrid_vault/src/pool.rs: `load` after a write that keeps the header.
use launchpad.Prelude.{ℕ, ◌≡◌, subst, ap, sym, ◌∙◌, take, length, ok, true, ==_iff, leb-true, arith}
use launchpad.Bytes.{Bytes, slice, bytes_eq, from_le_bytes}
use launchpad.Vault.Pool.{PoolView, load, pool_account_size, pool_discriminator}
use launchpad.Vault.Pool.Words.{rd_u32}
use launchpad.Vault.Pool.View.{IsValid, Agrees}

-- What `load` checked.
loaded :
    (d vault : Bytes) (p : PoolView)
    → load d vault ≡ ok p
    → (bytes_eq (take 8 d) pool_discriminator ≡ true)
      × (bytes_eq (slice d 8 32) vault ≡ true)
      × (p ≡ record { d = d; cap = rd_u32 d 40 })
unfolding load
loaded d vault p h = ground arith

pub loaded_bytes : (d vault : Bytes) (p : PoolView) → load d vault ≡ ok p → d ≡ p.d
loaded_bytes d vault p h = sym (ap (λ (q : PoolView). q.d) (loaded d vault p h).2)

-- The bytes of a loaded view are those it was loaded from.
pub load_self : (d vault : Bytes) (p : PoolView) → load d vault ≡ ok p → load p.d vault ≡ ok p
load_self d vault p h =
    subst (λ e. load e vault ≡ ok p) (sym (ap (λ (q : PoolView). q.d) (loaded d vault p h).2)) h

module _ (p p' : PoolView) (vault : Bytes) (w' : IsValid p') (same : p'.cap ≡ p.cap)
    (a : Agrees 0 44 p.d p'.d) where
  read_cap : rd_u32 p'.d 40 ≡ rd_u32 p.d 40
  unfolding rd_u32
  read_cap = ap from_le_bytes (a 40 4 (omega arith) (omega arith))

  -- A valid pool with the header of a loaded one loads as itself.
  pub load_header : load p.d vault ≡ ok p → load p'.d vault ≡ ok p'
  unfolding load
  load_header h =
      let t = loaded p.d vault p h in
      let cap_eq : rd_u32 p'.d 40 ≡ p'.cap =
        read_cap ∙ sym (ap (λ (q : PoolView). q.cap) t.2) ∙ sym same in
      rw (
        leb-true 64 (length p'.d) (omega (arith, w'.size)),
        a 0 8 (omega arith) (omega arith),
        t.0,
        a 8 32 (omega arith) (omega arith),
        t.1,
        cap_eq,
        (==_iff (length p'.d) (pool_account_size p'.cap)).1 w'.size,
      )

-- The size of an account tells its capacity.
size_injective : (c c' : ℕ) → pool_account_size c ≡ pool_account_size c' → c ≡ c'
size_injective c c' h = omega arith

loaded_size :
    (d vault : Bytes) (p : PoolView) → load d vault ≡ ok p → length d ≡ pool_account_size p.cap
unfolding load
loaded_size d vault p h = ground arith

-- A valid pool whose bytes load is what they load as.
pub load-IsValid : (p q : PoolView) (vault : Bytes) → IsValid p → load p.d vault ≡ ok q → q ≡ p
load-IsValid p q vault w h =
    let same_cap : q.cap ≡ p.cap =
      size_injective q.cap p.cap (sym (loaded_size p.d vault q h) ∙ w.size) in
    loaded_as q (ap (λ (x : PoolView). x.d) (loaded p.d vault q h).2) same_cap
  where
    loaded_as : (r : PoolView) → r.d ≡ p.d → r.cap ≡ p.cap → r ≡ p
    loaded_as r a b = cc
