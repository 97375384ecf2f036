-- ===== src/Vault/Tests/Tree.antt =====
-- programs/hybrid_vault/src/merkle.rs: a tree over three leaves, the last of which has no sibling.
use launchpad.Prelude.{ℕ, ◌<◌, ◌≡◌, List, [], ◌∷◌, ok, true, length, get_or, arith}
use launchpad.Bytes.{Bytes}
use launchpad.Vault.Merkle.{verify}
use launchpad.Vault.Merkle.Tree.{build}
use launchpad.Vault.Merkle.Tree.Verifies.{build-verify}

-- The first bytes of the buffers.
abbrev heads : List Bytes → Bytes
heads [] = []
heads (b ∷ bs) = get_or b 0 0 ∷ heads bs

abbrev three_leaves : List Bytes
three_leaves = (4 ∷ []) ∷ (5 ∷ []) ∷ (6 ∷ []) ∷ []

build-verify_example :
    (root : Bytes) × (proofs : List (List Bytes)) × (build heads three_leaves ≡ ok (root, proofs))
    × (length proofs ≡ 3)
    × ((i : ℕ)
        → i < 3
        → verify heads (get_or three_leaves i []) i 3 (get_or proofs i []) root ≡ true)
build-verify_example = build-verify heads three_leaves (omega arith) (omega arith)
