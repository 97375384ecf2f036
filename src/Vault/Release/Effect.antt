-- ===== src/Vault/Release/Effect.antt =====
-- programs/hybrid_vault/src/instructions/unwrap.rs: what a release does, and that it goes through.
use launchpad.Prelude.{
  ℕ, ◌+◌, ◌-◌, ◌*◌, ◌^◌, ◌≤◌, ◌<◌, ◌≡◌, refl, ap, sym, ◌∙◌, subst, [], ◌∷◌, ◌++◌, All, All-append,
  ok, lt→ltb, leb-true, arith, length, length-tabulate, length-append,
}
use launchpad.Bytes.{Bytes}
use launchpad.Vault.State.{Vault}
use launchpad.Vault.Pool.{PoolView, load, incoming_push, pool_len, incoming_len}
use launchpad.Vault.Pool.View.{incoming, drawable}
use launchpad.Vault.Pool.Wait.{Queued, incoming_push_lem}
use launchpad.Vault.Pool.Load.{load_header, load_self}
use native.Mathlib.Nat.{le_refl}
use launchpad.Vault.Invariants.{check_iff, Holds}
use launchpad.Vault.Chain.{Runtime}
use launchpad.Vault.Assets.{take_back, pay_out}
use launchpad.Vault.Release.{
  Unwrap, Ledger, unwrap_constraints, exit_view, count_unwrap, finish_unwrap, handle_unwrap,
}
use launchpad.Vault.Sound.{Sound}

-- The lengths of the two parts of a pool, after a push to the waiting ones.
Queued-counts :
    (p p' : PoolView) (e : ℕ × ℕ)
    → Queued p e p'
    → (pool_len p' ≡ pool_len p) × (incoming_len p' ≡ incoming_len p + 1)
Queued-counts p p' e q = (
  sym (length-tabulate _ (pool_len p')) ∙ ap length q.drawn ∙ length-tabulate _ (pool_len p),
  sym (length-tabulate _ (incoming_len p'))
      ∙ ap length q.waiting
      ∙ length-append (incoming p) (e ∷ [])
      ∙ ap (λ t. t + 1) (length-tabulate _ (incoming_len p)),
)

-- One asset less is owed, and its tokens are gone.
still_solvent :
    (ratio out rest tokens left : ℕ)
    → 0 < out
    → left + ratio ≡ tokens
    → ratio * (out + rest) ≤ tokens
    → ratio * (out - 1 + rest) ≤ left
still_solvent ratio out rest tokens left pos paid h =
    let e : ratio * (out - 1 + rest) + ratio ≡ ratio * (out + rest) =
      one_more (out - 1) (omega arith) in
    omega arith
  where
    one_more : (m : ℕ) → out ≡ m + 1 → ratio * (m + rest) + ratio ≡ ratio * (out + rest)
    one_more m e = rw e (omega arith)

-- What a release does to the program's accounts.
pub record Released (v : Vault) (p : PoolView) (index : ℕ) (v' : Vault) (p' : PoolView)
    : Type 0 where
  pub one_less : v'.assets_outside + 1 ≡ v.assets_outside
  pub returned : incoming p' ≡ incoming p ++ ((index, v.next_seq) ∷ [])
  pub drawn : drawable p' ≡ drawable p
  pub same_vault :
      v' ≡ record v { assets_outside = v.assets_outside - 1; total_unwraps = v.total_unwraps + 1 }

module _ (v : Vault) (total : v.total_unwraps + 1 < 2 ^ 64) (out : 0 < v.assets_outside) where
  abbrev counted : Vault
  counted = record v { assets_outside = v.assets_outside - 1; total_unwraps = v.total_unwraps + 1 }

  count_unwrap_lem : count_unwrap v ≡ ok counted
  unfolding count_unwrap
  count_unwrap_lem =
      rw (leb-true 1 v.assets_outside (omega arith), lt→ltb (v.total_unwraps + 1) (2 ^ 64) total)

module _ (v : Vault) (pool key : Bytes) (ratio n tokens left index : ℕ)
    (s : Sound v pool key ratio n tokens) (total : v.total_unwraps + 1 < 2 ^ 64)
    (out : 0 < v.assets_outside) (hi : index < n) (hn : n < 2 ^ 32) (hr : 0 < ratio)
    (ht : tokens < 2 ^ 64) (paid : left + ratio ≡ tokens) where
  abbrev p : PoolView
  p = s.view

  push :
      (p' : PoolView) × (incoming_push p index v.next_seq ≡ ok p') × Queued p (index, v.next_seq) p'
  push =
      incoming_push_lem p index v.next_seq s.valid (omega (arith, s.holds.accounted, s.holds.sized))
        (omega (arith, s.holds.sized)) s.seq_fits s.ordered

  abbrev p' : PoolView
  p' = push.0

  holds' : Holds (counted v total out) ratio n p' left
  holds' =
      let c = Queued-counts p p' (index, v.next_seq) push.2 in
      record {
        solvent =
            subst (λ t. ratio * t ≤ left) (omega arith)
              (still_solvent ratio v.assets_outside (v.pending_captures + v.pending_rerolls) tokens
                left out paid (subst (λ t. ratio * t ≤ tokens) (omega arith) s.holds.solvent));
        accounted = omega (arith, s.holds.accounted, c);
        sized = push.2.cap_same ∙ s.holds.sized;
        minted = s.holds.minted;
        minted_out = omega (arith, s.holds.minted_out);
      }

  reloads : load p'.d key ≡ ok p'
  reloads =
      load_header p p' key push.2.valid push.2.cap_same push.2.header (load_self pool key p s.loads)

  sound' : Sound (counted v total out) p'.d key ratio n left
  sound' = record {
    view = p';
    loads = reloads;
    valid = push.2.valid;
    holds = holds';
    ordered =
        subst (All (λ (e : ℕ × ℕ). e.1 ≤ v.next_seq)) (sym push.2.waiting)
          (All-append _ (incoming p) ((index, v.next_seq) ∷ []) s.ordered (le_refl v.next_seq, tt));
    seq_fits = s.seq_fits;
  }

  finish_runs :
      {W : Type 0} (rt : Runtime W) (a : Unwrap) (w : W)
      → a.vault_key ≡ key
      → rt.token_amount w a.vault_tokens ≡ left
      → finish_unwrap rt a v pool w (record { ratio_base = ratio; collection_size = n }) index
        ≡ ok (record { vault = counted v total out; pool = p'.d; world = w })
  unfolding finish_unwrap
  finish_runs rt a w ek et = rw (
    ek,
    et,
    s.loads,
    push.1,
    count_unwrap_lem v total out,
    reloads,
    (check_iff (counted v total out) ratio n p' left hr hn (omega arith)).1 holds',
  )

-- From a sound state with an asset out and the count of releases below its end, a release of an
-- index of the collection goes through whenever the account constraints hold, the configuration is
-- read, the two transfers succeed, and the token transfer takes exactly the ratio out of the vault's
-- tokens: no further check of the program refuses it. The vault need not be open. It then owes one
-- asset less, the asset waits behind the others with the next request's number as its tag, and the
-- state is sound again.
pub handle_unwrap_lem :
    {W : Type 0} (rt : Runtime W) (a : Unwrap) (st : Ledger W) (ratio n tokens left index : ℕ)
    (w1 w2 : W)
    → (s : Sound st.vault st.pool a.vault_key ratio n tokens) → st.vault.total_unwraps + 1 < 2 ^ 64
    → 0 < st.vault.assets_outside
    → index < n
    → n < 2 ^ 32
    → 0 < ratio
    → tokens < 2 ^ 64
    → unwrap_constraints rt a st index ≡ ok tt
    → exit_view rt st.world a.launch_config
      ≡ ok (record { ratio_base = ratio; collection_size = n })
    → take_back rt st.world a.mpl_core_program a.asset a.collection a.user a.vault_authority ≡ ok w1
    → pay_out rt w1 a.vault_tokens a.user_token a.vault_authority ratio ≡ ok w2
    → rt.token_amount w2 a.vault_tokens ≡ left
    → left + ratio ≡ tokens
    → (st' : Ledger W) × (s' : Sound st'.vault st'.pool a.vault_key ratio n left) × (handle_unwrap
          rt a st index
        ≡ ok st')
      × (st'.world ≡ w2)
      × Released st.vault s.view index st'.vault s'.view
unfolding handle_unwrap sound'
handle_unwrap_lem rt a st ratio n tokens left index w1 w2 s total out hi hn hr ht con view back pay
      amount paid =
    let v = st.vault in
    let q = push v st.pool a.vault_key ratio n tokens left index s total out hi hn hr ht paid in
    (
      record { vault = counted v total out; pool = q.0.d; world = w2 },
      sound' v st.pool a.vault_key ratio n tokens left index s total out hi hn hr ht paid,
      rw (con, view, lt→ltb index n hi, back, pay)
          (finish_runs v st.pool a.vault_key ratio n tokens left index s total out hi hn hr ht paid
            rt a w2 refl amount),
      refl,
      record {
        one_less = omega arith;
        returned = q.2.waiting;
        drawn = q.2.drawn;
        same_vault = refl;
      },
    )
