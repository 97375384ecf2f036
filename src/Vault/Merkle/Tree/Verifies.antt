-- ===== src/Vault/Merkle/Tree/Verifies.antt =====
-- programs/hybrid_vault/src/merkle.rs: the proofs of a tree verify against its root.
use launchpad.Prelude.{
  ℕ, zero, suc, ◌+◌, ◌/◌, ◌%◌, ◌^◌, ◌≤◌, ◌<◌, ◌≡◌, refl, sym, ap, subst, ◌∙◌, inl, inr, List, [],
  ◌∷◌, true, false, ◌&&◌, some, ok, ltb, ltb→lt, lt→ltb, ◌==◌, ==_iff, length, get_elem?, get_or,
  ok-injective, Bool-cases, arith,
}
use launchpad.Bytes.{Bytes, bytes_eq}
use launchpad.Bytes.Laws.{bytes_eq_refl}
use launchpad.Vault.Merkle.{node_hash, step, climb, verify, depth_for}
use launchpad.Vault.Merkle.Tree.Least.{Least, Least-up, Least-depth_for}
use launchpad.Vault.Merkle.Tree.{
  flip_last, sibling, proof_from, proofs_from, last_level, below_last, next_level, levels_from,
  build,
}

half_two : (i : ℕ) → suc (suc i) / 2 ≡ suc (i / 2)
half_two i = omega arith

odd_two : (i : ℕ) → (suc (suc i) % 2 == 0) ≡ (i % 2 == 0)
odd_two i = ap (λ r. r == 0) (omega arith)

flip_two : (i : ℕ) → flip_last (suc (suc i)) ≡ suc (suc (flip_last i))
flip_two i = ground arith

sibling_two :
    (a b : Bytes) (c : List Bytes) (i : ℕ) → sibling (a ∷ b ∷ c) (suc (suc i)) ≡ sibling c i
unfolding sibling
sibling_two a b c i = rw (flip_two i) refl

module _ (hashv : List Bytes → Bytes) where
  step_two : (n : Bytes) (i : ℕ) (s : Bytes) → step hashv n (suc (suc i)) s ≡ step hashv n i s
  unfolding step
  step_two n i s = rw (odd_two i) refl

  length-next_level : (c : List Bytes) → length (next_level hashv c) ≡ (length c + 1) / 2
  unfolding next_level
  length-next_level [] = omega arith
  length-next_level (a ∷ []) = omega arith
  length-next_level (a ∷ b ∷ c) = omega (arith, length-next_level c)

  -- A node's sibling is there, and their hash is the node above.
  next_level-step :
      (c : List Bytes) (i : ℕ)
      → i < length c
      → (sib : Bytes) × (sibling c i ≡ ok sib)
        × (get_or (next_level hashv c) (i / 2) [] ≡ step hashv (get_or c i []) i sib)
  unfolding next_level sibling step
  next_level-step [] i h = absurd (omega arith)
  next_level-step (a ∷ []) zero h = (a, refl, refl)
  next_level-step (a ∷ []) (suc i) h = absurd (omega arith)
  next_level-step (a ∷ b ∷ c) zero h = (b, refl, refl)
  next_level-step (a ∷ b ∷ c) (suc zero) h = (a, refl, refl)
  next_level-step (a ∷ b ∷ c) (suc (suc i)) h =
      let (sib, there, up) = next_level-step c i (omega arith) in
      (
        sib,
        sibling_two a b c i ∙ there,
        ap (λ k. get_or (node_hash hashv a b ∷ next_level hashv c) k []) (half_two i)
            ∙ up
            ∙ sym (step_two (get_or c i []) i sib),
      )

  below_last-cons :
      (c : List Bytes) (rounds : ℕ) (d : List Bytes)
      → (below_last (c ∷ levels_from hashv rounds d) ≡ c ∷ below_last (levels_from hashv rounds d))
        × (last_level (c ∷ levels_from hashv rounds d) ≡ last_level (levels_from hashv rounds d))
  unfolding below_last last_level levels_from
  below_last-cons c zero d = (refl, refl)
  below_last-cons c (suc rounds) d = elim (Bool-cases (ltb 1 (length d))) [
    | inl more ↦ rw more (refl, refl)
    | inr done ↦ rw done (refl, refl)
  ]

  -- The root over a level.
  abbrev top : ℕ → List Bytes → Bytes
  top rounds c = get_or (last_level (levels_from hashv rounds c)) 0 []

  -- The proof of one node of a level, with the root that it leads to.
  record Proven (rounds : ℕ) (c : List Bytes) (i : ℕ) : Type 0 where
    proof : List Bytes
    runs : proof_from (below_last (levels_from hashv rounds c)) i ≡ ok proof
    climbs : climb hashv (get_or c i []) i proof ≡ top rounds c
    depth : Least (length c) (length proof)
    has_top : get_elem? (last_level (levels_from hashv rounds c)) 0 ≡ some (top rounds c)

  single :
      (rounds : ℕ) (c : List Bytes) (i : ℕ)
      → i < length c
      → length c ≤ 1
      → levels_from hashv rounds c ≡ c ∷ []
      → Proven rounds c i
  unfolding below_last last_level proof_from climb
  single rounds [] i h small e = absurd (omega arith)
  single rounds (a ∷ b ∷ c) i h small e = absurd (omega arith)
  single rounds (a ∷ []) (suc i) h small e = absurd (omega arith)
  single rounds (a ∷ []) zero h small e = record {
    proof = [];
    runs = rw e refl;
    climbs = rw e refl;
    depth = record { reaches = omega arith; least = λ k lt. absurd (omega arith) };
    has_top = rw e refl;
  }

  levels_more :
      (rounds : ℕ) (c : List Bytes)
      → ltb 1 (length c) ≡ true
      → levels_from hashv (suc rounds) c ≡ c ∷ levels_from hashv rounds (next_level hashv c)
  unfolding levels_from
  levels_more rounds c h = rw h refl

  levels_done :
      (rounds : ℕ) (c : List Bytes)
      → ltb 1 (length c) ≡ false
      → levels_from hashv (suc rounds) c ≡ c ∷ []
  unfolding levels_from
  levels_done rounds c h = rw h refl

  not_more : (n : ℕ) → ltb 1 n ≡ false → n ≤ 1
  not_more n h = ground arith

  -- A proof for the node above is one for this node after its sibling.
  below :
      (rounds : ℕ) (c : List Bytes) (i : ℕ)
      → i < length c
      → ltb 1 (length c) ≡ true
      → Proven rounds (next_level hashv c) (i / 2)
      → Proven (suc rounds) c i
  unfolding proof_from climb
  below rounds c i h more above =
      let (sib, there, up) = next_level-step c i h in
      let e = levels_more rounds c more in
      let cons = below_last-cons c rounds (next_level hashv c) in
      record {
        proof = sib ∷ above.proof;
        runs = rw (e, cons.0, there, above.runs) refl;
        climbs =
            ap (λ n. climb hashv n (i / 2) above.proof) (sym up)
            ∙ above.climbs
            ∙ sym (ap (λ l. get_or l 0 []) (ap last_level e ∙ cons.1));
        depth =
            Least-up (length c) (length above.proof) (ltb→lt 1 (length c) more)
              (subst (λ n. Least n (length above.proof)) (length-next_level c) above.depth);
        has_top =
            subst (λ l. get_elem? l 0 ≡ some (get_or l 0 [])) (sym (ap last_level e ∙ cons.1))
              above.has_top;
      }

  levels_from-Proven :
      (rounds : ℕ) (c : List Bytes) (i : ℕ)
      → i < length c
      → length c ≤ suc rounds
      → Proven rounds c i
  unfolding levels_from
  levels_from-Proven zero c i h enough = single zero c i h (omega arith) refl
  levels_from-Proven (suc rounds) c i h enough = elim (Bool-cases (ltb 1 (length c))) [
    | inl more ↦ below rounds c i h more (
        levels_from-Proven rounds (next_level hashv c) (i / 2) (omega (arith, length-next_level c))
          (omega (arith, length-next_level c, ltb→lt 1 (length c) more)))
    | inr done ↦ single (suc rounds) c i h (not_more (length c) done) (levels_done rounds c done)
  ]

-- When each index has a proof, the proofs are those.
proofs_from-get_or :
    (levels : List (List Bytes)) (from count : ℕ)
    → ((i : ℕ) → i < count → (proof : List Bytes) × (proof_from levels (from + i) ≡ ok proof))
    → (proofs : List (List Bytes)) × (proofs_from levels from count ≡ ok proofs)
      × (length proofs ≡ count)
      × ((i : ℕ) → i < count → proof_from levels (from + i) ≡ ok (get_or proofs i []))
unfolding proofs_from
proofs_from-get_or levels from zero each = ([], refl, refl, λ i lt. absurd (omega arith))
proofs_from-get_or levels from (suc count) each =
    let (first, first_runs) = each 0 (omega arith) in
    let here : proof_from levels from ≡ ok first =
      subst (λ k. proof_from levels k ≡ ok first) (omega arith) first_runs in
    let (proofs, runs, n, all) = proofs_from-get_or levels (from + 1) count (λ i lt.
      let (proof, e) = each (suc i) (omega arith) in
      (proof, subst (λ k. proof_from levels k ≡ ok proof) (omega arith) e)) in
    (first ∷ proofs, rw (here, runs) refl, ap suc n, λ i lt. at first proofs i lt first_runs all)
  where
    at :
        (first : List Bytes) (proofs : List (List Bytes)) (i : ℕ)
        → i < suc count
        → proof_from levels (from + 0) ≡ ok first
        → ((j : ℕ) → j < count → proof_from levels (from + 1 + j) ≡ ok (get_or proofs j []))
        → proof_from levels (from + i) ≡ ok (get_or (first ∷ proofs) i [])
    at first proofs zero lt e all = e
    at first proofs (suc i) lt e all =
        subst (λ k. proof_from levels k ≡ ok (get_or proofs i [])) (omega arith)
          (all i (omega arith))

-- For every list of leaves, at least one and at most 2^32, the tree is built, with one proof for each
-- leaf, and each proof verifies its leaf, at the leaf's index, against the root. Nothing is assumed of
-- the hash.
pub build-verify :
    (hashv : List Bytes → Bytes) (leaves : List Bytes)
    → 0 < length leaves
    → length leaves ≤ 2 ^ 32
    → (root : Bytes) × (proofs : List (List Bytes)) × (build hashv leaves ≡ ok (root, proofs))
      × (length proofs ≡ length leaves)
      × ((i : ℕ)
          → i < length leaves
          → verify hashv (get_or leaves i []) i (length leaves) (get_or proofs i []) root ≡ true)
unfolding build verify
build-verify hashv leaves some_leaf small =
    let n = length leaves in
    let p = λ (i : ℕ) (lt : i < n). levels_from-Proven hashv n leaves i lt (omega arith) in
    let root = top hashv n leaves in
    let levels = below_last (levels_from hashv n leaves) in
    let found : (i : ℕ) → (lt : i < n) → proof_from levels (0 + i) ≡ ok ((p i lt).proof) = λ i lt.
      subst (λ j. proof_from levels j ≡ ok ((p i lt).proof)) (omega arith) ((p i lt).runs) in
    let (proofs, runs, count, each) =
      proofs_from-get_or levels 0 n (λ i lt. ((p i lt).proof, found i lt)) in
    (
      root,
      proofs,
      rw ((p 0 some_leaf).has_top, runs) refl,
      count,
      λ i lt.
          accepted i lt (p i lt) (get_or proofs i []) (ok-injective (sym (each i lt) ∙ found i lt)),
    )
  where
    accepted :
        (i : ℕ)
        → (lt : i < length leaves) → (k : Proven hashv (length leaves) leaves i)
        → (proof : List Bytes) → proof ≡ k.proof
        → ((ltb i (length leaves) && (length proof == depth_for (length leaves)))
            && bytes_eq
                (climb hashv (get_or leaves i []) i proof)
                (top hashv (length leaves) leaves))
          ≡ true
    accepted i lt k proof e =
        rw
          (
            e,
            k.climbs,
            lt→ltb i (length leaves) lt,
            Least-depth_for (length leaves) (length k.proof) small k.depth,
            (==_iff (length k.proof) (length k.proof)).1 refl,
            bytes_eq_refl (top hashv (length leaves) leaves),
          )
          refl
