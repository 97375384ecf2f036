-- ===== src/Vault/Merkle/Tree.antt =====
-- programs/hybrid_vault/src/merkle.rs: the tree that the tests and the off-chain tools build.
pub mod Least
pub mod Verifies
use launchpad.Prelude.{
  ℕ, zero, suc, ◌+◌, ◌-◌, ◌/◌, ◌%◌, List, [], ◌∷◌, Option, none, some, ok, unwrap_option, ◌>>=◌,
  ltb, ◌==◌, if◌then◌else◌, length, get_elem?,
}
use launchpad.Bytes.{Bytes}
use launchpad.Vault.Error.{Outcome}
use launchpad.Vault.Merkle.{node_hash}

-- `i ^ 1`
abbrev pub flip_last : ℕ → ℕ
flip_last i = if i % 2 == 0 then i + 1 else i - 1

-- `o.unwrap_or(a)`
abbrev pub unwrap_or {ℓ} : {A : Type ℓ} → Option A → A → A
unwrap_or none a = a
unwrap_or (some b) a = b

-- One round of the inner loop of the proofs.
unfoldable pub sibling : List Bytes → ℕ → Outcome Bytes
sibling level i = do
  here ← unwrap_option (get_elem? level i)
  ok (unwrap_or (get_elem? level (flip_last i)) here)

unfoldable pub proof_from : List (List Bytes) → ℕ → Outcome (List Bytes)
proof_from [] i = ok []
proof_from (level ∷ levels) i = do
  sib ← sibling level i
  rest ← proof_from levels (i / 2)
  ok (sib ∷ rest)

-- The proofs of `count` leaves from the index `i` on.
unfoldable pub proofs_from : List (List Bytes) → ℕ → ℕ → Outcome (List (List Bytes))
proofs_from levels i zero = ok []
proofs_from levels i (suc count) = do
  proof ← proof_from levels i
  rest ← proofs_from levels (i + 1) count
  ok (proof ∷ rest)

-- `levels.last().unwrap()`; there is always a level.
unfoldable pub last_level : List (List Bytes) → List Bytes
last_level [] = []
last_level (c ∷ []) = c
last_level (c ∷ d ∷ levels) = last_level (d ∷ levels)

-- `levels.iter().take(levels.len() - 1)`
unfoldable pub below_last : List (List Bytes) → List (List Bytes)
below_last [] = []
below_last (c ∷ []) = []
below_last (c ∷ d ∷ levels) = c ∷ below_last (d ∷ levels)

module _ (hashv : List Bytes → Bytes) where
  -- A last node without a sibling is hashed with itself.
  unfoldable pub next_level : List Bytes → List Bytes
  next_level [] = []
  next_level (a ∷ []) = node_hash hashv a a ∷ []
  next_level (a ∷ b ∷ rest) = node_hash hashv a b ∷ next_level rest

  -- The loop that pushes levels, from the level `c` on. Each level is shorter than the one before,
  -- so that as many rounds as there are leaves are enough.
  unfoldable pub levels_from : ℕ → List Bytes → List (List Bytes)
  levels_from zero c = c ∷ []
  levels_from (suc rounds) c =
      let rest = levels_from rounds (next_level c) in if ltb 1 (length c) then c ∷ rest else c ∷ []

  -- Without a leaf the index into the last level panics.
  unfoldable pub build : List Bytes → Outcome (Bytes × List (List Bytes))
  build leaves = do
    let levels = levels_from (length leaves) leaves
    root ← unwrap_option (get_elem? (last_level levels) 0)
    proofs ← proofs_from (below_last levels) 0 (length leaves)
    ok (root, proofs)
