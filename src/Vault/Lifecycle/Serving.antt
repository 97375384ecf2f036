-- ===== src/Vault/Lifecycle/Serving.antt =====
-- programs/hybrid_vault/src: settlements, expiries and releases keep a vault sound.
use launchpad.Prelude.{
  ℕ, ◌+◌, ◌^◌, ◌≤◌, ◌<◌, ◌≡◌, refl, sym, ap, subst, ◌∙◌, List, All, Bool-cases, inl, inr, Option,
  ok, ok_or, ◌>>◌, >>=-eq-ok, ok-injective, require-eq-ok, length, arith, checked_add,
}
use launchpad.Bytes.{Bytes}
use launchpad.Vault.Error.{expire_batch_invalid, math_overflow, mint_args_missing}
use launchpad.Vault.State.{Vault}
use launchpad.Vault.Config.{ExitView}
use launchpad.Vault.Pool.{PoolView, load, is_minted, mark_minted}
use launchpad.Vault.Pool.View.{IsValid, incoming}
use launchpad.Vault.Pool.Load.{load-IsValid, loaded_bytes}
use launchpad.Vault.Invariants.{check, Holds}
use launchpad.Vault.Chain.{Runtime}
use launchpad.Vault.Assets.{asset_name, deliver, mint_to_user}
use launchpad.Vault.Merkle.{check_leaf}
use launchpad.Vault.Draws.Keeps.{Kept, Kept-trans, pick-Kept, mark_minted-Kept}
use launchpad.Vault.Release.{Ledger, exit_view}
use launchpad.Vault.Settle.{Settle, MintArgs, hand_over, handle_settle}
use launchpad.Vault.Lifecycle.Taking.{more_tokens}
use launchpad.Vault.Settle.Counts.{Settled, handle_settle-Settled, handle_settle_lem}
use launchpad.Vault.Accounts.{Held}
use launchpad.Vault.Expire.{ExpireOne, ExpireShared, expire_constraints, expire_one, handle_expire}
use launchpad.Vault.Expire.Effect.{handle_expire_lem}
use launchpad.Vault.Expire.Batch.{
  AccountInfo, chunks, expire_groups, expire_batch_constraints, handle_expire_batch,
}
use launchpad.Vault.Expire.BatchEffect.{handle_expire_batch_lem}
use launchpad.Vault.Sound.{Sound}
use launchpad.Vault.Lifecycle.{Setting, tokens, settle_here, expire_here, Live}

module _ {W : Type 0} (rt : Runtime W) (hashv : List Bytes → Bytes) (fuel : ℕ) where
  -- Handing an asset over keeps a valid pool valid.
  hand_over-Kept :
      (a : Settle) (v : Vault) (p : PoolView) (w : W) (n picked : ℕ) (mint : Option MintArgs)
      (s' : Ledger W)
      → IsValid p
      → hand_over rt hashv fuel a (record { vault = v; pool = p.d; world = w }) n picked mint
        ≡ ok s'
      → (q : PoolView) × (s'.pool ≡ q.d) × Kept p q
  unfolding hand_over
  hand_over-Kept a v p w n picked mint s' valid h0 =
      let (view, e1, h1) = >>=-eq-ok (load p.d a.vault_key) _ h0 in
      elim (Bool-cases (is_minted view picked)) [
        | inl minted ↦
            let (w1, e2, h2) =
              >>=-eq-ok
                (deliver rt w a.mpl_core_program a.asset a.collection a.settler a.vault_authority
                  a.user)
                _ (rw minted at h1) in
            (
              p,
              sym (ap (λ (z : Ledger W). z.pool) (ok-injective h2)),
              record { valid = valid; cap_same = refl; waiting = λ P k. k },
            )
        | inr unminted ↦
            let (m, e2, h2) = >>=-eq-ok (ok_or mint mint_args_missing) _ (rw unminted at h1) in
            let (w1, e4, h4) =
              >>=-eq-ok
                (check_leaf hashv v.trait_root v.trait_schema_hash v.launch_config n picked m.leaf
                    m.proof
                  >> mint_to_user rt w a.mpl_core_program a.asset a.collection a.vault_authority
                      a.mint_escrow a.user a.vault_key picked (asset_name picked) m.leaf.uri)
                _ h2 in
            let (again, e5, h5) = >>=-eq-ok (load p.d a.vault_key) _ h4 in
            let (marked, e6, h6) = >>=-eq-ok (mark_minted again picked) _ h5 in
            let (count, e7, h7) =
              >>=-eq-ok (ok_or (checked_add 32 v.minted_count 1) math_overflow) _ h6 in
            let same : again ≡ p = load-IsValid p again a.vault_key valid e5 in
            (
              marked,
              sym (ap (λ (z : Ledger W). z.pool) (ok-injective h7)),
              mark_minted-Kept p picked marked valid
                  (subst (λ x. mark_minted x picked ≡ ok marked) same e6),
            )
      ]

-- The pool may have changed, but not for the worse.
served :
    (v v' : Vault) (pool pool' key : Bytes) (ratio n t t' : ℕ) (b : Sound v pool key ratio n t)
    (q view : PoolView)
    → Kept b.view q
    → pool' ≡ q.d
    → load pool' key ≡ ok view
    → Holds v' ratio n view t'
    → v'.next_seq ≡ v.next_seq
    → Sound v' pool' key ratio n t'
served v v' pool pool' key ratio n t t' b q view k same loads holds next =
    let one : view ≡ q =
      load-IsValid q view key k.valid (subst (λ x. load x key ≡ ok view) same loads) in
    record {
      view = view;
      loads = loads;
      valid = subst IsValid (sym one) k.valid;
      holds = holds;
      ordered =
          subst (λ m. All (λ (e : ℕ × ℕ). e.1 ≤ m) (incoming view)) (sym next)
            (subst (λ x. All (λ (e : ℕ × ℕ). e.1 ≤ v.next_seq) (incoming x)) (sym one)
              (k.waiting (λ (e : ℕ × ℕ). e.1 ≤ v.next_seq) b.ordered));
      seq_fits = subst (λ m. m < 2 ^ 64) (sym next) b.seq_fits;
    }

module _ {W : Type 0} (here : Setting W) (fits : (w : W) → tokens here w < 2 ^ 64)
    (frozen : (w : W) (e : ExitView)
      → exit_view here.rt w here.launch_config ≡ ok e
      → e ≡ record {
        ratio_base = here.config.ratio_base;
        collection_size = here.config.collection_size;
      }) where
  -- The invariants for the numbers that were read are those for the launch's.
  Holds-here :
      (w : W) (v : Vault) (e : ExitView) (view : PoolView) (t : ℕ)
      → exit_view here.rt w here.launch_config ≡ ok e
      → Holds v e.ratio_base e.collection_size view t
      → Holds v here.config.ratio_base here.config.collection_size view t
  Holds-here w v e view t reads h =
      subst (λ (x : ExitView). Holds v x.ratio_base x.collection_size view t) (frozen w e reads) h

  pub settled-Live :
      (a : Settle) (kind : ℕ) (mint : Option MintArgs) (s s' : Ledger W)
      → Live here s
      → tokens here s.world ≤ tokens here s'.world
      → handle_settle here.rt here.hashv here.fuel (settle_here here a) s kind mint ≡ ok s'
      → Live here s'
  settled-Live a kind mint s s' live le h =
      let at = settle_here here a in
      let t : Settled here.rt here.hashv here.fuel at s kind mint s' =
        handle_settle-Settled here.rt here.hashv here.fuel at s kind mint s' h in
      let (x, (econ, view, reads, loads, holds)) =
        handle_settle_lem here.rt here.hashv here.fuel at s kind mint s' (fits s.world) h in
      let b = live.sound in
      let one : t.before ≡ b.view = ok-injective (sym t.loads ∙ b.loads) in
      let picks : Kept t.before t.pool =
        pick-Kept here.hashv here.fuel t.before at.request.value here.vault_key at.request.seq kind
          at.request.handed_in_index (t.picked, t.pool) (subst IsValid (sym one) b.valid) t.picks in
      let (q, same, kept) =
        hand_over-Kept here.rt here.hashv here.fuel at s.vault t.pool s.world t.econ.collection_size
          t.picked mint t.handed picks.valid t.hands in
      let after =
        served s.vault s'.vault s.pool s'.pool here.vault_key here.config.ratio_base
          here.config.collection_size (tokens here s.world) (tokens here s.world) b q view
          (Kept-trans b.view t.pool q (subst (λ p. Kept p t.pool) one picks) kept) (t.stored ∙ same)
          loads (Holds-here s.world s'.vault econ view (tokens here s.world) reads holds)
          x.same_queue_end in
      record {
        sound =
            more_tokens s'.vault s'.pool here.vault_key here.config.ratio_base
              here.config.collection_size (tokens here s.world) (tokens here s'.world) le after;
        queue = omega (arith, x.next, x.one_less_pending, x.same_queue_end, live.queue);
      }

  -- What an expiry leaves of the pool and of the queue.
  expired-Live :
      (s s' : Ledger W) (done : ℕ) (w : W) (econ : ExitView) (view : PoolView)
      → Live here s
      → s'.pool ≡ s.pool
      → s'.vault.next_seq ≡ s.vault.next_seq
      → s'.vault.next_settle_seq ≡ s.vault.next_settle_seq + done
      → s'.vault.pending_captures + s'.vault.pending_rerolls + done
        ≡ s.vault.pending_captures + s.vault.pending_rerolls
      → exit_view here.rt w here.launch_config ≡ ok econ
      → load s'.pool here.vault_key ≡ ok view
      → Holds s'.vault econ.ratio_base econ.collection_size view (tokens here s'.world)
      → Live here s'
  expired-Live s s' done w econ view live same_pool end next less reads loads holds =
      let b = live.sound in
      record {
        sound =
            served s.vault s'.vault s.pool s'.pool here.vault_key here.config.ratio_base
              here.config.collection_size (tokens here s.world) (tokens here s'.world) b b.view view
              (record { valid = b.valid; cap_same = refl; waiting = λ P k. k })
              (same_pool ∙ loaded_bytes s.pool here.vault_key b.view b.loads) loads
              (Holds-here w s'.vault econ view (tokens here s'.world) reads holds) end;
        queue = omega (arith, next, less, end, live.queue);
      }

  handle_expire-pool :
      (pool_key mint : Bytes) (held : Held) (sh : ExpireShared) (r : ExpireOne) (s s' : Ledger W)
      → handle_expire here.rt here.launch_config pool_key mint held sh r s ≡ ok s'
      → s'.pool ≡ s.pool
  unfolding handle_expire
  handle_expire-pool pool_key mint held sh r s s' h0 =
      let (u1, e1, h1) =
        >>=-eq-ok (expire_constraints here.rt here.launch_config pool_key mint held sh r s) _ h0 in
      let (econ, e2, h2) = >>=-eq-ok (exit_view here.rt s.world here.launch_config) _ h1 in
      let (x, e3, h3) =
        >>=-eq-ok
          (expire_one here.rt s.world (record sh { ratio_base = econ.ratio_base }) r s.vault) _
          h2 in
      let (view, e4, h4) = >>=-eq-ok (load s.pool sh.vault_key) _ h3 in
      let (u5, e5, h5) =
        >>=-eq-ok
          (check x.0 econ.ratio_base econ.collection_size view
            (here.rt.token_amount x.1 sh.vault_tokens))
          _ h4 in
      sym (ap (λ (z : Ledger W). z.pool) (ok-injective h5))

  pub expired_one-Live :
      (pool_key mint : Bytes) (held : Held) (sh : ExpireShared) (r : ExpireOne) (s s' : Ledger W)
      → Live here s
      → handle_expire here.rt here.launch_config pool_key mint held (expire_here here sh) r s
        ≡ ok s'
      → Live here s'
  expired_one-Live pool_key mint held sh r s s' live h =
      let at = expire_here here sh in
      let (can, x, (econ, view, reads, loads, holds)) =
        handle_expire_lem here.rt here.launch_config pool_key mint held at r s s' (fits s'.world)
          h in
      expired-Live s s' 1 s.world econ view live (handle_expire-pool pool_key mint held at r s s' h)
        x.same_queue_end x.next x.one_less_pending reads loads holds

  handle_expire_batch-pool :
      (pool_key mint : Bytes) (sh : ExpireShared) (remaining : List AccountInfo) (count : ℕ)
      (s s' : Ledger W)
      → handle_expire_batch here.rt here.own here.launch_config pool_key mint sh remaining s count
        ≡ ok s'
      → s'.pool ≡ s.pool
  unfolding handle_expire_batch
  handle_expire_batch-pool pool_key mint sh remaining count s s' h0 =
      let (u1, e1, h1) =
        >>=-eq-ok (expire_batch_constraints here.rt here.own here.launch_config pool_key mint sh s)
          _ h0 in
      let (u2, h2) = require-eq-ok _ expire_batch_invalid _ h1 in
      let (u3, h3) = require-eq-ok _ expire_batch_invalid _ h2 in
      let (econ, e4, h4) = >>=-eq-ok (exit_view here.rt s.world here.launch_config) _ h3 in
      let (x, e5, h5) =
        >>=-eq-ok
          (expire_groups here.rt here.own (chunks remaining)
            (record sh { ratio_base = econ.ratio_base }) mint s.vault s.world)
          _ h4 in
      let (view, e6, h6) = >>=-eq-ok (load s.pool sh.vault_key) _ h5 in
      let (u7, e7, h7) =
        >>=-eq-ok
          (check x.0 econ.ratio_base econ.collection_size view
            (here.rt.token_amount x.1 sh.vault_tokens))
          _ h6 in
      sym (ap (λ (z : Ledger W). z.pool) (ok-injective h7))

  pub expired_batch-Live :
      (pool_key mint : Bytes) (sh : ExpireShared) (remaining : List AccountInfo) (count : ℕ)
      (s s' : Ledger W)
      → Live here s
      → handle_expire_batch here.rt here.own here.launch_config pool_key mint
          (expire_here here sh)
          remaining
          s
          count
        ≡ ok s'
      → Live here s'
  expired_batch-Live pool_key mint sh remaining count s s' live h =
      let at = expire_here here sh in
      let (low, high, (econ, view, rs, reads, n, run, x, loads, holds)) =
        handle_expire_batch_lem here.rt here.own here.launch_config pool_key mint at remaining s s'
          count (fits s'.world) h in
      expired-Live s s' (length rs) s.world econ view live
        (handle_expire_batch-pool pool_key mint at remaining count s s' h) x.same_queue_end x.next
        x.less_pending reads loads holds
