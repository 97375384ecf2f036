-- ===== src/Vault/Invariants.antt =====
-- programs/hybrid_vault/src/invariants.rs: the checks that end every instruction which changes state.
use launchpad.Prelude.{
  ℕ, ◌+◌, ◌*◌, ◌^◌, ◌≤◌, ◌<◌, ◌≡◌, ◌↔◌, ok, ok_or, require, ◌>>=◌, ◌>>◌, leb, ◌==◌, arith,
  checked_add, checked_mul, >>=-eq-ok, ap, ◌∙◌, lt→ltb, leb-true, ==_iff,
}
use launchpad.Vault.Error.{Outcome, math_overflow, insolvent_vault, asset_accounting_broken}
use launchpad.Vault.State.{Vault}
use launchpad.Vault.Pool.{PoolView, pool_len, incoming_len, capacity}

-- `a.checked_add(b).and_then(|x| x.checked_add(c))`
unfoldable pub sum3 : ℕ → ℕ → ℕ → Outcome ℕ
sum3 a b c = do
  x ← ok_or (checked_add 64 a b) math_overflow
  ok_or (checked_add 64 x c) math_overflow

unfoldable pub required_vault_tokens : Vault → ℕ → Outcome ℕ
required_vault_tokens vault ratio_base = do
  owed_units ← sum3 vault.assets_outside vault.pending_captures vault.pending_rerolls
  ok_or (checked_mul 64 ratio_base owed_units) math_overflow

-- The checks of `check` after the solvency.
unfoldable pub check_accounting : Vault → ℕ → PoolView → Outcome (Unit {0})
check_accounting vault collection_size pool = do
  x ← sum3 (pool_len pool) (incoming_len pool) vault.pending_rerolls
  accounted ← ok_or (checked_add 64 x vault.assets_outside) math_overflow
  require (accounted == collection_size) asset_accounting_broken
  require (capacity pool == collection_size) asset_accounting_broken
  require (leb vault.minted_count collection_size) asset_accounting_broken
  held_or_out ← ok_or (checked_add 64 vault.assets_outside vault.pending_rerolls) math_overflow
  require (leb held_or_out vault.minted_count) asset_accounting_broken

unfoldable pub check : Vault → ℕ → ℕ → PoolView → ℕ → Outcome (Unit {0})
check vault ratio_base collection_size pool vault_tokens_amount = do
  required ← required_vault_tokens vault ratio_base
  require (leb required vault_tokens_amount) insolvent_vault
  check_accounting vault collection_size pool

-- The documented invariants: the tokens cover all that users are owed, every index is accounted for,
-- and what is out or held is minted.
pub record Holds (v : Vault) (ratio_base collection_size : ℕ) (p : PoolView) (tokens : ℕ)
    : Type 0 where
  pub solvent : ratio_base * (v.assets_outside + v.pending_captures + v.pending_rerolls) ≤ tokens
  pub accounted :
      pool_len p + incoming_len p + v.pending_rerolls + v.assets_outside ≡ collection_size
  pub sized : p.cap ≡ collection_size
  pub minted : v.minted_count ≤ collection_size
  pub minted_out : v.assets_outside + v.pending_rerolls ≤ v.minted_count

sum3-lt : (a b c : ℕ) → a + b + c < 2 ^ 64 → sum3 a b c ≡ ok (a + b + c)
unfolding sum3
sum3-lt a b c h = ground arith

sum3-ok : (a b c s : ℕ) → sum3 a b c ≡ ok s → (s ≡ a + b + c) × (s < 2 ^ 64)
unfolding sum3
sum3-ok a b c s h = ground arith

required-ok :
    (v : Vault) (r t : ℕ)
    → required_vault_tokens v r ≡ ok t
    → t ≡ r * (v.assets_outside + v.pending_captures + v.pending_rerolls)
unfolding required_vault_tokens
required-ok v r t h =
    let (s, e, k) = >>=-eq-ok (sum3 v.assets_outside v.pending_captures v.pending_rerolls) _ h in
    checked_product r s t k ∙ ap (λ x. r * x) (sum3-ok _ _ _ s e).0
  where
    checked_product : (a b t : ℕ) → ok_or (checked_mul 64 a b) math_overflow ≡ ok t → t ≡ a * b
    checked_product a b t h = ground arith

pub factor_le : (r s t : ℕ) → 0 < r → r * s ≤ t → s ≤ t
factor_le r s t h k = grind arith

required-runs :
    (v : Vault) (r tokens : ℕ)
    → 0 < r
    → tokens < 2 ^ 64
    → r * (v.assets_outside + v.pending_captures + v.pending_rerolls) ≤ tokens
    → required_vault_tokens v r
      ≡ ok (r * (v.assets_outside + v.pending_captures + v.pending_rerolls))
unfolding required_vault_tokens
required-runs v r tokens pos small h =
    let s : ℕ = v.assets_outside + v.pending_captures + v.pending_rerolls in
    let hs : s ≤ tokens = factor_le r s tokens pos h in
    rw (
      sum3-lt v.assets_outside v.pending_captures v.pending_rerolls (omega arith),
      lt→ltb (r * s) (2 ^ 64) (omega arith),
    )

accounting-ok :
    (v : Vault) (n : ℕ) (p : PoolView)
    → check_accounting v n p ≡ ok tt
    → (pool_len p + incoming_len p + v.pending_rerolls + v.assets_outside ≡ n)
      × (p.cap ≡ n)
      × (v.minted_count ≤ n)
      × (v.assets_outside + v.pending_rerolls ≤ v.minted_count)
unfolding check_accounting
accounting-ok v n p h =
    let (x, e, k) = >>=-eq-ok (sum3 (pool_len p) (incoming_len p) v.pending_rerolls) _ h in
    let total = sum3-ok _ _ _ x e in ground arith

solvent-ok :
    (v : Vault) (r n : ℕ) (p : PoolView) (tokens t : ℕ)
    → (require (leb t tokens) insolvent_vault >> check_accounting v n p) ≡ ok tt
    → (t ≤ tokens) × (check_accounting v n p ≡ ok tt)
solvent-ok v r n p tokens t h = ground arith

module _ (v : Vault) (r n : ℕ) (p : PoolView) (tokens : ℕ) (pos : 0 < r) (small : n < 2 ^ 32)
    (fits : tokens < 2 ^ 64) where
  check_sound : check v r n p tokens ≡ ok tt → Holds v r n p tokens
  unfolding check
  check_sound h =
      let (t, e, k) = >>=-eq-ok (required_vault_tokens v r) _ h in
      let (le, later) = solvent-ok v r n p tokens t k in
      let f = accounting-ok v n p later in
      record {
        solvent = omega (arith, le, required-ok v r t e);
        accounted = f.0;
        sized = f.1;
        minted = f.2;
        minted_out = f.3;
      }

  check_runs : Holds v r n p tokens → check v r n p tokens ≡ ok tt
  unfolding check check_accounting
  check_runs h = rw (
    required-runs v r tokens pos fits h.solvent,
    leb-true (r * (v.assets_outside + v.pending_captures + v.pending_rerolls)) tokens h.solvent,
    sum3-lt (pool_len p) (incoming_len p) v.pending_rerolls (omega (arith, h.accounted)),
    lt→ltb (pool_len p + incoming_len p + v.pending_rerolls + v.assets_outside) (2 ^ 64)
        (omega (arith, h.accounted)),
    (==_iff (pool_len p + incoming_len p + v.pending_rerolls + v.assets_outside) n).1 h.accounted,
    (==_iff p.cap n).1 h.sized,
    leb-true v.minted_count n h.minted,
    lt→ltb (v.assets_outside + v.pending_rerolls) (2 ^ 64) (omega (arith, h.minted_out, h.minted)),
    leb-true (v.assets_outside + v.pending_rerolls) v.minted_count h.minted_out,
  )

  -- For a positive ratio, at most 2^32 assets and an amount of 64 bits, `check` passes exactly when the
  -- documented invariants hold: its sums overflow only where one of them fails.
  pub check_iff : (check v r n p tokens ≡ ok tt) ↔ Holds v r n p tokens
  check_iff = (check_sound, check_runs)
