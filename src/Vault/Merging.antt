-- ===== src/Vault/Merging.antt =====
-- programs/hybrid_vault/src/instructions/admin.rs: the crank that makes returned assets drawable.
use launchpad.Prelude.{
  ℕ, true, zero, suc, ◌+◌, ◌≤◌, ◌≡◌, refl, sym, ap, subst, ◌∙◌, List, [], ◌∷◌, map, length,
  length-append, length-map, All, Bool-cases, inl, inr, min, ok, ◌>>=◌, ◌>>◌, leb, arith,
}
use launchpad.Bytes.{Bytes, bytes_eq}
use launchpad.Vault.Error.{Outcome}
use launchpad.Vault.Pool.{PoolView, load, merge, pool_len, incoming_len}
use launchpad.Vault.Pool.View.{drawable, incoming, pool_len-drawable, incoming_len-incoming}
use launchpad.Vault.Pool.Load.{load_self, load_header}
use launchpad.Vault.Pool.Merge.{eligible, left_waiting, left_waiting-All, Merged, merge_lem}
use launchpad.Vault.Chain.{constraint}
use launchpad.Vault.Release.{Ledger}
use launchpad.Vault.Sound.{Sound}

unfoldable pub handle_merge_incoming :
    {W : Type 0} → Bytes → Bytes → Ledger W → ℕ → Outcome (Ledger W)
handle_merge_incoming vault_key pool_key s max = do
  constraint (bytes_eq pool_key s.vault.pool)
  pool ← load s.pool vault_key
  merged ← merge pool s.vault.next_settle_seq (min max 1_024)
  ok (record s { pool = merged.1.d })

-- A merge moves entries: none is lost.
eligible-length :
    (rounds max_tag : ℕ) (xs : List (ℕ × ℕ))
    → length (eligible rounds max_tag xs) + length (left_waiting rounds max_tag xs) ≡ length xs
unfolding eligible left_waiting
eligible-length zero max_tag xs = omega arith
eligible-length (suc rounds) max_tag [] = refl
eligible-length (suc rounds) max_tag (x ∷ xs) = elim (Bool-cases (leb x.1 max_tag)) [
  | inl e ↦ rw e (omega (arith, eligible-length rounds max_tag xs))
  | inr e ↦ rw e (omega arith)
]

Merged-counts :
    (p p' : PoolView) (rounds max_tag : ℕ)
    → Merged p (eligible rounds max_tag (incoming p)) (left_waiting rounds max_tag (incoming p)) p'
    → pool_len p' + incoming_len p' ≡ pool_len p + incoming_len p
Merged-counts p p' rounds max_tag m =
    let moved = eligible rounds max_tag (incoming p) in
    omega (
      arith,
      pool_len-drawable p' ∙ ap length m.drawn,
      incoming_len-incoming p' ∙ ap length m.waiting,
      pool_len-drawable p,
      incoming_len-incoming p,
      length-append (drawable p) (map (λ (x : ℕ × ℕ). x.0) moved),
      length-map {A = ℕ × ℕ} {B = ℕ} moved (λ (x : ℕ × ℕ). x.0),
      eligible-length rounds max_tag (incoming p),
    )

-- From a sound state a merge goes through, for anyone and for every number of entries. It makes
-- drawable the waiting assets that every later draw may have, oldest first and at most 1024, and leaves
-- the others waiting in order; the vault, the tokens and the number of assets in the pool are the same,
-- and the state is sound again.
pub handle_merge_incoming-Sound :
    {W : Type 0} (vault_key pool_key : Bytes) (s : Ledger W) (ratio n tokens max : ℕ)
    → (before : Sound s.vault s.pool vault_key ratio n tokens)
    → bytes_eq pool_key s.vault.pool ≡ true
    → (s' : Ledger W) × (handle_merge_incoming vault_key pool_key s max ≡ ok s')
      × (s'.vault ≡ s.vault)
      × (s'.world ≡ s.world)
      × ((after : Sound s'.vault s'.pool vault_key ratio n tokens) × Merged before.view
            (eligible (min max 1_024) s.vault.next_settle_seq (incoming before.view))
            (left_waiting (min max 1_024) s.vault.next_settle_seq (incoming before.view))
            after.view
          × (pool_len after.view + incoming_len after.view
              ≡ pool_len before.view + incoming_len before.view))
unfolding handle_merge_incoming
handle_merge_incoming-Sound vault_key pool_key s ratio n tokens max before here =
    let p = before.view in
    let (p', runs, m) = merge_lem p s.vault.next_settle_seq (min max 1_024) before.valid in
    let counts = Merged-counts p p' (min max 1_024) s.vault.next_settle_seq m in
    (
      record s { pool = p'.d },
      rw (here, before.loads, runs),
      refl,
      refl,
      (
        record {
          view = p';
          loads =
              load_header p p' vault_key m.valid m.cap_same m.header
                (load_self s.pool vault_key p before.loads);
          valid = m.valid;
          holds = record {
            solvent = before.holds.solvent;
            accounted = omega (arith, counts, before.holds.accounted);
            sized = m.cap_same ∙ before.holds.sized;
            minted = before.holds.minted;
            minted_out = before.holds.minted_out;
          };
          ordered = subst (All (λ (e : ℕ × ℕ). e.1 ≤ s.vault.next_seq)) (sym m.waiting) (
              left_waiting-All _ (min max 1_024) s.vault.next_settle_seq (incoming p)
                before.ordered);
          seq_fits = before.seq_fits;
        },
        m,
        counts,
      ),
    )
