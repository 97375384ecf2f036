-- ===== src/Vault/Merkle/Tree/Least.antt =====
-- programs/hybrid_vault/src/merkle.rs: the number of levels below the root, which is the depth of the size.
use launchpad.Prelude.{ℕ, zero, suc, ◌+◌, ◌/◌, ◌^◌, ◌≤◌, ◌<◌, ◌≡◌, dec_lt, arith}
use launchpad.Vault.Merkle.{depth_for}
use launchpad.Vault.Merkle.Binding.{depth_for_least}

-- The least exponent whose power of two reaches a size.
pub record Least (size depth : ℕ) : Type 0 where
  pub reaches : size ≤ 2 ^ depth
  pub least : (k : ℕ) → k < depth → 2 ^ k < size

pub Least-up : (n depth : ℕ) → 1 < n → Least ((n + 1) / 2) depth → Least n (suc depth)
Least-up n depth big l = record { reaches = omega (arith, l.reaches); least = λ k lt. below k lt }
  where
    below : (k : ℕ) → k < suc depth → 2 ^ k < n
    below zero lt = omega arith
    below (suc k) lt = omega (arith, l.least k (omega arith))

pub Least-depth_for : (n depth : ℕ) → n ≤ 2 ^ 32 → Least n depth → depth_for n ≡ depth
Least-depth_for n depth small l =
    let high : depth_for n ≤ depth = (depth_for_least n depth small).1 l.reaches in
    let reached : n ≤ 2 ^ depth_for n = (depth_for_least n (depth_for n) small).0 (omega arith) in
    elim (dec_lt (depth_for n) depth) [
      | yes lt ↦ absurd (omega (arith, l.least (depth_for n) lt, reached))
      | no ge ↦ omega arith
    ]
