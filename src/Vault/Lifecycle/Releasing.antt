-- ===== src/Vault/Lifecycle/Releasing.antt =====
-- programs/hybrid_vault/src/instructions/unwrap.rs: a release keeps a vault sound.
use launchpad.Prelude.{
  ℕ, ◌+◌, ◌^◌, ◌≤◌, ◌<◌, ◌≡◌, sym, ap, subst, ◌∙◌, [], ◌∷◌, All, All-append, ok, >>=-eq-ok,
  ok-injective, require-eq-ok, ltb, ltb→lt, arith,
}
use native.Mathlib.Nat.{le_refl}
use launchpad.Vault.Error.{index_out_of_range}
use launchpad.Vault.State.{Vault}
use launchpad.Vault.Config.{ExitView}
use launchpad.Vault.Pool.{PoolView, load, incoming_push, pool_len, incoming_len}
use launchpad.Vault.Pool.View.{incoming}
use launchpad.Vault.Pool.Load.{load-IsValid}
use launchpad.Vault.Pool.Wait.{incoming_push_lem}
use launchpad.Vault.Invariants.{check, Holds}
use launchpad.Vault.Assets.{take_back, pay_out}
use launchpad.Vault.Release.{
  Ledger, Unwrap, exit_view, unwrap_constraints, count_unwrap, finish_unwrap, handle_unwrap,
}
use launchpad.Vault.Settle.Counts.{passed-Holds}
use launchpad.Vault.Sound.{Sound}
use launchpad.Vault.Lifecycle.{Setting, tokens, unwrap_here, Live}

count_unwrap-facts :
    (v v' : Vault)
    → count_unwrap v ≡ ok v'
    → (1 ≤ v.assets_outside)
      × (v'.next_seq ≡ v.next_seq)
      × (v'.next_settle_seq ≡ v.next_settle_seq)
      × (v'.pending_captures ≡ v.pending_captures)
      × (v'.pending_rerolls ≡ v.pending_rerolls)
unfolding count_unwrap
count_unwrap-facts v v' h = ground arith

module _ {W : Type 0} (here : Setting W) (fits : (w : W) → tokens here w < 2 ^ 64)
    (frozen : (w : W) (e : ExitView)
      → exit_view here.rt w here.launch_config ≡ ok e
      → e ≡ record {
        ratio_base = here.config.ratio_base;
        collection_size = here.config.collection_size;
      }) where
  finish_unwrap-Live :
      (a : Unwrap) (s s' : Ledger W) (w : W) (econ : ExitView) (index : ℕ)
      → Live here s
      → exit_view here.rt s.world here.launch_config ≡ ok econ
      → index < econ.collection_size
      → finish_unwrap here.rt (unwrap_here here a) s.vault s.pool w econ index ≡ ok s'
      → Live here s'
  unfolding finish_unwrap
  finish_unwrap-Live a s s' w econ index live reads small h0 =
      let ratio = here.config.ratio_base in
      let n = here.config.collection_size in
      let b = live.sound in
      let p = b.view in
      let same_econ = frozen s.world econ reads in
      let small' : index < n =
        subst (λ (e : ExitView). index < e.collection_size) same_econ small in
      let (view, e1, h1) = >>=-eq-ok (load s.pool here.vault_key) _ h0 in
      let (pushed, e2, h2) = >>=-eq-ok (incoming_push view index s.vault.next_seq) _ h1 in
      let (v, e3, h3) = >>=-eq-ok (count_unwrap s.vault) _ h2 in
      let (again, e4, h4) = >>=-eq-ok (load pushed.d here.vault_key) _ h3 in
      let (u5, e5, h5) =
        >>=-eq-ok
          (check v econ.ratio_base econ.collection_size again
            (here.rt.token_amount w here.vault_tokens))
          _ h4 in
      let c = count_unwrap-facts s.vault v e3 in
      let (p', runs, q) =
        incoming_push_lem p index s.vault.next_seq b.valid
          (room p s.vault n b.holds.accounted b.holds.sized c.0)
          (in_cap p index n b.holds.sized small') b.seq_fits b.ordered in
      let one : view ≡ p = ok-injective (sym e1 ∙ b.loads) in
      let same_push : pushed ≡ p' =
        ok-injective (sym e2 ∙ ap (λ x. incoming_push x index s.vault.next_seq) one ∙ runs) in
      let reload : load p'.d here.vault_key ≡ ok again =
        subst (λ (x : PoolView). load x.d here.vault_key ≡ ok again) same_push e4 in
      let same : again ≡ p' = load-IsValid p' again here.vault_key q.valid reload in
      let holds : Holds v ratio n p' (tokens here w) =
        subst (λ x. Holds v ratio n x (tokens here w)) same
          (subst (λ (e : ExitView). Holds v e.ratio_base e.collection_size again (tokens here w))
            same_econ
            (passed-Holds here.rt s.world w here.launch_config here.vault_tokens v econ again
              (fits w) reads e5)) in
      subst (Live here) (ok-injective h5) (record {
        sound =
            subst (λ (x : PoolView). Sound v x.d here.vault_key ratio n (tokens here w)) (sym same)
              (record {
                view = p';
                loads = subst (λ x. load p'.d here.vault_key ≡ ok x) same reload;
                valid = q.valid;
                holds = holds;
                ordered =
                    subst (λ m. All (λ (e : ℕ × ℕ). e.1 ≤ m) (incoming p')) (sym c.1)
                      (subst (All (λ (e : ℕ × ℕ). e.1 ≤ s.vault.next_seq)) (sym q.waiting) (
                        All-append _ (incoming p) ((index, s.vault.next_seq) ∷ []) b.ordered
                          (le_refl s.vault.next_seq, tt)));
                seq_fits = subst (λ m. m < 2 ^ 64) (sym c.1) b.seq_fits;
              });
        queue = omega (arith, c.1, c.2, c.3, c.4, live.queue);
      })
    where
      room :
          (p : PoolView) (v : Vault) (n : ℕ)
          → pool_len p + incoming_len p + v.pending_rerolls + v.assets_outside ≡ n
          → p.cap ≡ n
          → 1 ≤ v.assets_outside
          → pool_len p + incoming_len p < p.cap
      room p v n a b c = omega arith

      in_cap : (p : PoolView) (i n : ℕ) → p.cap ≡ n → i < n → i < p.cap
      in_cap p i n a b = omega arith

  pub released-Live :
      (a : Unwrap) (index : ℕ) (s s' : Ledger W)
      → Live here s
      → handle_unwrap here.rt (unwrap_here here a) s index ≡ ok s'
      → Live here s'
  unfolding handle_unwrap
  released-Live a index s s' live h0 =
      let at = unwrap_here here a in
      let (u1, e1, h1) = >>=-eq-ok (unwrap_constraints here.rt at s index) _ h0 in
      let (econ, e2, h2) = >>=-eq-ok (exit_view here.rt s.world here.launch_config) _ h1 in
      let (small, h3) = require-eq-ok (ltb index econ.collection_size) index_out_of_range _ h2 in
      let (w1, e4, h4) =
        >>=-eq-ok
          (take_back here.rt s.world at.mpl_core_program at.asset at.collection at.user
            at.vault_authority)
          _ h3 in
      let (w2, e5, h5) =
        >>=-eq-ok
          (pay_out here.rt w1 here.vault_tokens at.user_token at.vault_authority econ.ratio_base) _
          h4 in
      finish_unwrap-Live a s s' w2 econ index live e2 (ltb→lt index econ.collection_size small) h5
