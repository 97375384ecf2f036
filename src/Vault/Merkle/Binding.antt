-- ===== src/Vault/Merkle/Binding.antt =====
-- programs/hybrid_vault/src/merkle.rs: a root commits to one leaf at each index.
use launchpad.Prelude.{
  ℕ, zero, suc, ◌+◌, ◌/◌, ◌%◌, ◌^◌, ◌≤◌, ◌<◌, ◌≡◌, ◌⊎◌, inl, inr, sym, subst, ℕ_discrete, dec_lt,
  ◌↔◌, ◌∙◌, List, [], ◌∷◌, Bool, true, false, ◌&&◌, ◌==◌, length, Bool-cases, ltb, ltb→lt, arith,
  ==_iff,
}
use native.Mathlib.Nat.{pow-le-pow_right}
use launchpad.Bytes.{Bytes, bytes_eq}
use launchpad.Bytes.Laws.{bytes_eq_sound}
use launchpad.Vault.Merkle.{node_hash, step, climb, verify, depth_for, depth_loop}

-- Two different pairs of nodes with the same hash.
pub record Collision (hashv : List Bytes → Bytes) : Type 0 where
  pub left : Bytes
  pub right : Bytes
  pub other_left : Bytes
  pub other_right : Bytes
  pub same_hash : node_hash hashv left right ≡ node_hash hashv other_left other_right
  pub differ : (bytes_eq left other_left && bytes_eq right other_right) ≡ false

module _ (hashv : List Bytes → Bytes) where
  both : (a b : Bool) → (a && b) ≡ true → (a ≡ true) × (b ≡ true)
  both a b h = ground arith

  pair_or_Collision :
      (a b c d : Bytes)
      → node_hash hashv a b ≡ node_hash hashv c d
      → ((a ≡ c) × (b ≡ d)) ⊎ Collision hashv
  pair_or_Collision a b c d e = elim (Bool-cases (bytes_eq a c && bytes_eq b d)) [
    | inl same ↦
        let t = both (bytes_eq a c) (bytes_eq b d) same in
        inl (bytes_eq_sound a c t.0, bytes_eq_sound b d t.1)
    | inr other ↦ inr (record {
      left = a;
      right = b;
      other_left = c;
      other_right = d;
      same_hash = e;
      differ = other;
    })
  ]

  first_same : (a b c d : Bytes) → ((a ≡ c) × (b ≡ d)) ⊎ Collision hashv → (a ≡ c) ⊎ Collision hashv
  first_same a b c d (inl t) = inl t.0
  first_same a b c d (inr k) = inr k

  second_same :
      (a b c d : Bytes) → ((a ≡ c) × (b ≡ d)) ⊎ Collision hashv → (b ≡ d) ⊎ Collision hashv
  second_same a b c d (inl t) = inl t.1
  second_same a b c d (inr k) = inr k

  step_or_Collision :
      (l l' s s' : Bytes) (i : ℕ)
      → step hashv l i s ≡ step hashv l' i s'
      → (l ≡ l') ⊎ Collision hashv
  unfolding step
  step_or_Collision l l' s s' i e = elim (Bool-cases (i % 2 == 0)) [
    | inl even ↦ first_same l s l' s' (pair_or_Collision l s l' s' (rw even at e))
    | inr odd ↦ second_same s l s' l' (pair_or_Collision s l s' l' (rw odd at e))
  ]

  climb_or_Collision :
      (l l' : Bytes) (i : ℕ) (proof proof' : List Bytes)
      → length proof ≡ length proof'
      → climb hashv l i proof ≡ climb hashv l' i proof'
      → (l ≡ l') ⊎ Collision hashv
  unfolding climb
  climb_or_Collision l l' i [] [] n e = inl e
  climb_or_Collision l l' i [] (s' ∷ proof') n e = absurd (omega arith)
  climb_or_Collision l l' i (s ∷ proof) [] n e = absurd (omega arith)
  climb_or_Collision l l' i (s ∷ proof) (s' ∷ proof') n e =
      elim (climb_or_Collision (step hashv l i s) (step hashv l' i s') (i / 2) proof proof'
        (omega arith) e) [ inl same ↦ step_or_Collision l l' s s' i same | inr k ↦ inr k ]

  verified :
      (leaf : Bytes) (index size : ℕ) (proof : List Bytes) (root : Bytes)
      → verify hashv leaf index size proof root ≡ true
      → (length proof ≡ depth_for size) × (climb hashv leaf index proof ≡ root)
  unfolding verify
  verified leaf index size proof root h =
      let t = both _ _ h in
      (
        (==_iff (length proof) (depth_for size)).0 (both _ _ t.0).1,
        bytes_eq_sound (climb hashv leaf index proof) root t.1,
      )

  -- If two leaves have proofs for the same index, size and root, then they are the same leaf, or the
  -- two proofs yield a collision of the node hash.
  pub verify_binding :
      (leaf leaf' : Bytes) (index size : ℕ) (proof proof' : List Bytes) (root : Bytes)
      → verify hashv leaf index size proof root ≡ true
      → verify hashv leaf' index size proof' root ≡ true
      → (leaf ≡ leaf') ⊎ Collision hashv
  verify_binding leaf leaf' index size proof proof' root h h' =
      let t = verified leaf index size proof root h in
      let t' = verified leaf' index size proof' root h' in
      climb_or_Collision leaf leaf' index proof proof' (t.0 ∙ sym t'.0) (t.1 ∙ sym t'.1)

-- The loop stops at the first exponent whose power of two reaches the size.
depth_loop_lem :
    (rounds d size : ℕ)
    → size ≤ 2 ^ (d + rounds)
    → ((k : ℕ) → k < d → 2 ^ k < size)
    → (size ≤ 2 ^ depth_loop rounds d size)
      × ((k : ℕ) → k < depth_loop rounds d size → 2 ^ k < size)
unfolding depth_loop
depth_loop_lem zero d size h small = (subst (λ k. size ≤ 2 ^ k) (omega arith) h, small)
depth_loop_lem (suc rounds) d size h small = elim (Bool-cases (ltb (2 ^ d) size)) [
  | inl more ↦ rw more (
      depth_loop_lem rounds (d + 1) size (subst (λ k. size ≤ 2 ^ k) (omega arith) h)
        (λ k lt. up_to k lt (ltb→lt (2 ^ d) size more)))
  | inr done ↦ rw done (reached (2 ^ d) size done, small)
]
  where
    reached : (a b : ℕ) → ltb a b ≡ false → b ≤ a
    reached a b e = ground arith

    up_to : (k : ℕ) → k < d + 1 → 2 ^ d < size → 2 ^ k < size
    up_to k lt now = elim (ℕ_discrete k d) [
      | yes e ↦ subst (λ j. 2 ^ j < size) (sym e) now
      | no ne ↦ small k (omega arith)
    ]

-- For a size of at most 2^32, the depth is the least exponent whose power of two reaches the size.
pub depth_for_least : (size k : ℕ) → size ≤ 2 ^ 32 → (depth_for size ≤ k) ↔ (size ≤ 2 ^ k)
unfolding depth_for
depth_for_least size k h = (
  λ le. omega (arith, t.0, pow-le-pow_right {n = 2} (omega arith) {i = depth_for size} {j = k} le),
  λ fits. elim (dec_lt k (depth_for size)) [
    | yes lt ↦ absurd (omega (arith, t.1 k lt, fits))
    | no ge ↦ omega arith
  ],
)
  where
    t : (size ≤ 2 ^ depth_loop 32 0 size) × ((j : ℕ) → j < depth_loop 32 0 size → 2 ^ j < size)
    t = depth_loop_lem 32 0 size h (λ j lt. absurd (omega arith))
