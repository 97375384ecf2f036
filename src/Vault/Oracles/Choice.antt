-- ===== src/Vault/Oracles/Choice.antt =====
-- programs/hybrid_vault/src/randomness.rs: the rotation over the queue reaches every oracle.
use launchpad.Prelude.{
  ℕ, zero, suc, ◌+◌, ◌-◌, ◌%◌, ◌≤◌, ◌<◌, ◌≡◌, sym, ap, subst, ◌∙◌, List, Bool, true, false,
  Bool-cases, inl, inr, none, some, Option-cases, ok, leb, lt→ltb, leb-true, dec_lt, arith, ◌&&◌,
  length, take, require-eq-ok, ok_or-eq-ok, ltb,
}
use launchpad.Vault.Error.{wrong_queue, no_fresh_oracle}
use native.Mathlib.Nat.{mod-eq_of_lt, mod-lt, add-mod_right}
use launchpad.Bytes.{Bytes, bytes_eq}
use launchpad.Vault.Oracles.{
  scan, is_candidate, QueueLayout, queue_len, oracle_key, start_of, select_oracle_in,
}

module _ (key : ℕ → Bytes) (candidate : Bytes → Bool) (start len : ℕ) where
  -- Whatever the rotation finds is a candidate of the queue.
  scan-some :
      (left step : ℕ) (k : Bytes)
      → 0 < len
      → scan key candidate start len left step ≡ some k
      → (candidate k ≡ true) × ((i : ℕ) × (i < len) × (k ≡ key i))
  unfolding scan
  scan-some zero step k pos h = cc
  scan-some (suc left) step k pos h = elim (Bool-cases (candidate (key ((start + step) % len)))) [
    | inl hit ↦
        let e : key ((start + step) % len) ≡ k = found _ _ (rw hit at h) in
        (
          subst (λ x. candidate x ≡ true) e hit,
          ((start + step) % len, mod-lt (start + step) pos, sym e),
        )
    | inr miss ↦ scan-some left (step + 1) k pos (rw miss at h)
  ]
    where
      found : (x y : Bytes) → some x ≡ some y → x ≡ y
      found x y e = cc

  -- If it finds nothing, then no step of it met a candidate.
  scan-none :
      (left step j : ℕ)
      → scan key candidate start len left step ≡ none
      → step ≤ j
      → j < step + left
      → candidate (key ((start + j) % len)) ≡ false
  unfolding scan
  scan-none zero step j h a b = absurd (omega arith)
  scan-none (suc left) step j h a b = elim (Bool-cases (candidate (key ((start + step) % len)))) [
    | inl hit ↦ clash (rw hit at h)
    | inr miss ↦ elim (dec_lt step j) [
      | yes lt ↦ scan-none left (step + 1) j (rw miss at h) (omega arith) (omega arith)
      | no ge ↦ subst (λ i. candidate (key ((start + i) % len)) ≡ false) (omega arith) miss
    ]
  ]
    where
      clash : {x : Bytes} → some x ≡ none → candidate (key ((start + j) % len)) ≡ false
      clash e = cc

-- Some step of the rotation comes to the position `i`.
reaches : (start len i : ℕ) → start < len → i < len → (j : ℕ) × (j < len) × ((start + j) % len ≡ i)
reaches start len i hs hi = elim (dec_lt i start) [
  | yes lt ↦ (
    i + len - start,
    omega arith,
    ap (λ x. x % len) (omega arith) ∙ add-mod_right i len ∙ mod-eq_of_lt hi,
  )
  | no ge ↦ (i - start, omega arith, ap (λ x. x % len) (omega arith) ∙ mod-eq_of_lt hi)
]

module _ (hashv : List Bytes → Bytes) (layout : QueueLayout) (discriminator : Bytes)
    (d vault_key : Bytes) (seq : ℕ) (used stale : List Bytes)
    (shape : (leb (8 + layout.size) (length d) && bytes_eq (take 8 d) discriminator) ≡ true)
    (pos : 0 < queue_len hashv layout discriminator d)
    (small : queue_len hashv layout discriminator d ≤ 78) where
  abbrev len : ℕ
  len = queue_len hashv layout discriminator d

  abbrev key : ℕ → Bytes
  key = oracle_key hashv layout discriminator d

  start : ℕ
  start = start_of hashv layout discriminator d vault_key seq used

  start-lt : start < len
  unfolding start start_of
  start-lt = mod-lt _ pos

  runs :
      (k : Bytes)
      → scan key (is_candidate used stale) start len len 0 ≡ some k
      → select_oracle_in hashv layout discriminator d vault_key seq used stale ≡ ok k
  unfolding select_oracle_in start
  runs k e = rw (shape, lt→ltb 0 len pos, leb-true len 78 small, e)

  -- On a queue account of the right shape that holds a candidate, the choice succeeds, and returns a key
  -- of the queue that is not the default key, that the request has not used and that is not proven
  -- stale.
  pub select_oracle_in_lem :
      (i : ℕ)
      → i < len
      → is_candidate used stale (key i) ≡ true
      → (k : Bytes) × (select_oracle_in hashv layout discriminator d vault_key seq used stale
          ≡ ok k)
        × (is_candidate used stale k ≡ true)
        × ((j : ℕ) × (j < len) × (k ≡ key j))
  select_oracle_in_lem i hi good =
      elim (Option-cases (scan key (is_candidate used stale) start len len 0)) [
        | inl nothing ↦
            let r = reaches start len i start-lt hi in
            absurd (
              differ (
                sym (
                  subst (λ x. is_candidate used stale (key x) ≡ false) r.2
                    (scan-none key (is_candidate used stale) start len len 0 r.0 nothing
                      (omega arith) (omega (arith, r.1))))
                ∙ good))
        | inr (k, e) ↦
            let f = scan-some key (is_candidate used stale) start len len 0 k pos e in
            (k, runs k e, f.0, f.1)
      ]
    where
      differ : false ≡ true → ⊥
      differ e = cc

-- A choice that succeeds is a candidate.
pub select_oracle_in-candidate :
    (hashv : List Bytes → Bytes) (layout : QueueLayout) (discriminator d vault_key : Bytes)
    (seq : ℕ) (used stale : List Bytes) (k : Bytes)
    → select_oracle_in hashv layout discriminator d vault_key seq used stale ≡ ok k
    → is_candidate used stale k ≡ true
unfolding select_oracle_in
select_oracle_in-candidate hashv layout discriminator d vault_key seq used stale k h =
    let (shape, h1) = require-eq-ok _ wrong_queue _ h in
    let len = queue_len hashv layout discriminator d in
    let (sized, h2) = require-eq-ok (ltb 0 len && leb len 78) no_fresh_oracle _ h1 in
    let key = oracle_key hashv layout discriminator d in
    let start = start_of hashv layout discriminator d vault_key seq used in
    (scan-some key (is_candidate used stale) start len len 0 k (nonempty len sized)
      (ok_or-eq-ok (scan key (is_candidate used stale) start len len 0) no_fresh_oracle h2)).0
  where
    nonempty : (n : ℕ) → (ltb 0 n && leb n 78) ≡ true → 0 < n
    nonempty n e = ground arith
