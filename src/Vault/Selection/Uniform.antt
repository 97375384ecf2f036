-- ===== src/Vault/Selection/Uniform.antt =====
-- programs/hybrid_vault/src/selection.rs: `uniform_below` stays in range, is free of bias, and returns.
use native.Mathlib.Nat.{
  div-add-mod', mod-lt, mod-eq_of_lt, mod-add-mod, mul-add-mod_self_right, lt-div-mul-add,
}
use launchpad.Prelude.{
  ℕ, zero, suc, ◌+◌, ◌-◌, ◌*◌, ◌/◌, ◌%◌, ◌^◌, ◌≤◌, ◌<◌, ◌≡◌, List, some, leb, leb-true, leb-false,
  lt→ltb, arith, length, ok, subst, ◌∙◌, Option-cases, inl, inr, Bool-cases,
}
use launchpad.Bytes.{Bytes, slice, from_le_bytes}
use launchpad.Vault.Selection.{zone, first_accepted, resample, sample_loop, uniform_below}

first_accepted-lt :
    (n : ℕ) (block : Bytes) (words o k : ℕ)
    → 0 < n
    → first_accepted n block words o ≡ some k
    → k < n
unfolding first_accepted
first_accepted-lt n block zero o k pos h = cc
first_accepted-lt n block (suc words) o k pos h = ground (
  arith,
  first_accepted-lt n block words (o + 8) k pos,
  mod-lt (from_le_bytes (slice block o 8)) pos,
)

sample_loop-lt :
    (hashv : List Bytes → Bytes) (fuel : ℕ) (block : Bytes) (n k : ℕ)
    → 0 < n
    → sample_loop hashv fuel block n ≡ some k
    → k < n
unfolding sample_loop
sample_loop-lt hashv zero block n k pos h = cc
sample_loop-lt hashv (suc fuel) block n k pos h = ground (
  arith,
  first_accepted-lt n block (length block / 8) 0 k pos,
  sample_loop-lt hashv fuel (resample hashv block) n k pos,
)

-- Whatever `uniform_below` returns is below `n`, and it aborts at 0.
pub uniform_below-lt :
    (hashv : List Bytes → Bytes) (fuel : ℕ) (r : Bytes) (n k : ℕ)
    → uniform_below hashv fuel r n ≡ ok k
    → k < n
unfolding uniform_below
uniform_below-lt hashv fuel r n k h = ground (arith, sample_loop-lt hashv fuel r n k)

-- How many of the 2^64 words each index has.
abbrev pub quota : ℕ → ℕ
quota n = 2 ^ 64 / n

zone-mod : (n : ℕ) → 0 < n → n ≤ 2 ^ 32 → zone n + 1 ≡ 2 ^ 64 - 2 ^ 64 % n
unfolding zone
zone-mod n pos small = omega (arith, mod-add-mod (2 ^ 64 - 1) n 1, mod-lt (2 ^ 64) pos)

-- The accepted words are those below a multiple of `n`.
pub zone-quota : (n : ℕ) → 0 < n → n ≤ 2 ^ 32 → zone n + 1 ≡ quota n * n
zone-quota n pos small = omega (arith, zone-mod n pos small, div-add-mod' (2 ^ 64) n)

below_quota : (n q r m : ℕ) → r < n → q < m → q * n + r < m * n
below_quota n q r m hr hq = grind arith

above_quota : (n q r m : ℕ) → m ≤ q → m * n ≤ q * n + r
above_quota n q r m hq = grind arith

accepted_iff :
    (n q r : ℕ)
    → n ≤ 2 ^ 32
    → r < n
    → ((q < quota n → q * n + r ≤ zone n) × (quota n ≤ q → zone n < q * n + r))
accepted_iff n q r small hr = (
  λ h. omega (arith, zone-quota n (omega arith) small, below_quota n q r (quota n) hr h),
  λ h. omega (arith, zone-quota n (omega arith) small, above_quota n q r (quota n) h),
)

remainder : (n q r : ℕ) → r < n → (q * n + r) % n ≡ r
remainder n q r h = mul-add-mod_self_right q n r ∙ mod-eq_of_lt h

-- No bias. Write a word as `q * n + r` with `r < n`. The draw is `r` if `q` is below `quota n`, and
-- otherwise the word is skipped: each of the `n` results stands for the same number of words, and
-- fewer than `n` words of the 2^64 are skipped.
pub first_accepted_uniform :
    (n q r : ℕ) (block : Bytes) (words o : ℕ)
    → n ≤ 2 ^ 32
    → r < n
    → from_le_bytes (slice block o 8) ≡ q * n + r
    → (q < quota n → first_accepted n block (suc words) o ≡ some r)
      × (quota n ≤ q → first_accepted n block (suc words) o ≡ first_accepted n block words (o + 8))
      × (2 ^ 64 < quota n * n + n)
unfolding first_accepted
first_accepted_uniform n q r block words o small hr e = (
  λ h. rw (e, leb-true _ _ ((accepted_iff n q r small hr).0 h), remainder n q r hr),
  λ h. rw (e, leb-false _ _ ((accepted_iff n q r small hr).1 h)),
  lt-div-mul-add (omega arith),
)

first_offset : (o : ℕ) → o + 8 * 0 ≡ o
first_offset o = omega arith

next_offset : (o j : ℕ) → o + 8 * suc j ≡ o + 8 + 8 * j
next_offset o j = omega arith

-- A block with an accepted word yields a draw.
first_accepted-some :
    (n : ℕ) (block : Bytes) (words o j : ℕ)
    → j < words
    → from_le_bytes (slice block (o + 8 * j) 8) ≤ zone n
    → (k : ℕ) × (first_accepted n block words o ≡ some k)
unfolding first_accepted
first_accepted-some n block zero o j h le = absurd (omega arith)
first_accepted-some n block (suc words) o zero h le =
    (from_le_bytes (slice block o 8) % n, rw (leb-true _ _ first_le))
  where
    first_le : from_le_bytes (slice block o 8) ≤ zone n
    first_le = subst (λ p. from_le_bytes (slice block p 8) ≤ zone n) (first_offset o) le
first_accepted-some n block (suc words) o (suc j) h le =
    elim (Bool-cases (leb (from_le_bytes (slice block o 8)) (zone n))) [
      | inl hit ↦ (from_le_bytes (slice block o 8) % n, rw hit)
      | inr miss ↦ rw miss (
          first_accepted-some n block words (o + 8) j (omega arith)
            (subst (λ p. from_le_bytes (slice block p 8) ≤ zone n) (next_offset o j) le))
    ]

zero_offset : (j : ℕ) → 8 * j ≡ 0 + 8 * j
zero_offset j = omega arith

-- The block after `k` resamplings.
unfoldable pub block_at : (List Bytes → Bytes) → ℕ → Bytes → Bytes
block_at hashv zero block = block
block_at hashv (suc k) block = block_at hashv k (resample hashv block)

sample_loop-some :
    (hashv : List Bytes → Bytes) (fuel : ℕ) (block : Bytes) (n k j : ℕ)
    → k < fuel
    → j < length (block_at hashv k block) / 8
    → from_le_bytes (slice (block_at hashv k block) (8 * j) 8) ≤ zone n
    → (x : ℕ) × (sample_loop hashv fuel block n ≡ some x)
unfolding sample_loop block_at
sample_loop-some hashv zero block n k j h hj le = absurd (omega arith)
sample_loop-some hashv (suc fuel) block n zero j h hj le =
    let r =
      first_accepted-some n block (length block / 8) 0 j hj
        (subst (λ p. from_le_bytes (slice block p 8) ≤ zone n) (zero_offset j) le) in
    (r.0, rw (r.1, sample_loop))
sample_loop-some hashv (suc fuel) block n (suc k) j h hj le =
    elim (Option-cases (first_accepted n block (length block / 8) 0)) [
      | inl miss ↦
          rw (miss, sample_loop)
            (sample_loop-some hashv fuel (resample hashv block) n k j (omega arith) hj le)
      | inr (x, hit) ↦ (x, rw (hit, sample_loop))
    ]

-- If one of the first `fuel` blocks has an accepted word, then `uniform_below` returns an index below
-- `n`.
pub uniform_below_returns :
    (hashv : List Bytes → Bytes) (fuel : ℕ) (r : Bytes) (n k j : ℕ)
    → 0 < n
    → k < fuel
    → j < length (block_at hashv k r) / 8
    → from_le_bytes (slice (block_at hashv k r) (8 * j) 8) ≤ zone n
    → (x : ℕ) × (uniform_below hashv fuel r n ≡ ok x) × (x < n)
unfolding uniform_below
uniform_below_returns hashv fuel r n k j pos h hj le =
    let s = sample_loop-some hashv fuel r n k j h hj le in
    (s.0, rw (lt→ltb 0 n pos, s.1), sample_loop-lt hashv fuel r n s.0 pos s.1)
