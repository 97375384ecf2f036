-- ===== src/Vault/Settle/Counts.antt =====
-- programs/hybrid_vault/src/instructions/settle.rs: what a successful settlement has checked and done.
use launchpad.Prelude.{
  ℕ, ◌+◌, ◌^◌, ◌<◌, ◌≡◌, refl, ap, subst, ◌∙◌, List, true, Option, ok, require, ok_or, ◌>>◌,
  >>=-eq-ok, ok-injective, arith, checked_add, Bool-cases, inl, inr,
}
use launchpad.Bytes.{Bytes, bytes_eq}
use launchpad.Vault.Error.{wrong_asset, mint_args_missing, math_overflow, unsupported_launch_config}
use launchpad.Vault.Assets.{asset_address, refund_escrow, deliver, mint_to_user, asset_name}
use launchpad.Vault.Merkle.{check_leaf}
use launchpad.Vault.State.{Vault}
use launchpad.Vault.Pool.{PoolView, load, is_minted, mark_minted}
use launchpad.Vault.Draws.{pick}
use launchpad.Vault.Invariants.{check, check_iff, Holds}
use launchpad.Vault.Config.{ExitView}
use launchpad.Vault.Config.Exit.{exit_view_in-bounds}
use launchpad.Vault.Chain.{Runtime}
use launchpad.Vault.Release.{Ledger, exit_view}
use launchpad.Vault.Settle.{
  Settle, MintArgs, check_head, count_settle, settle_constraints, hand_over, handle_settle,
}

-- The parts of a settlement that succeeded.
pub record Settled {W : Type 0} (rt : Runtime W) (hashv : List Bytes → Bytes) (fuel : ℕ)
    (a : Settle) (s : Ledger W) (kind : ℕ) (mint : Option MintArgs) (s' : Ledger W) : Type 0 where
  pub econ : ExitView
  pub reads : exit_view rt s.world a.launch_config ≡ ok econ
  pub head : check_head s.vault a kind ≡ ok tt
  pub before : PoolView
  pub loads : load s.pool a.vault_key ≡ ok before
  pub picked : ℕ
  pub pool : PoolView
  pub picks :
      pick hashv fuel before a.request.value a.vault_key a.request.seq kind
        a.request.handed_in_index
      ≡ ok (picked, pool)
  pub handed : Ledger W
  pub hands :
      hand_over rt hashv fuel a (record s { pool = pool.d }) econ.collection_size picked mint
      ≡ ok handed
  pub refunds : refund_escrow rt handed.world a.mint_escrow a.user ≡ ok s'.world
  pub counts : count_settle handed.vault a.request.seq kind ≡ ok s'.vault
  pub stored : s'.pool ≡ handed.pool
  pub view : PoolView
  pub reloads : load s'.pool a.vault_key ≡ ok view
  pub passes :
      check s'.vault econ.ratio_base econ.collection_size view
        (rt.token_amount s.world a.vault_tokens)
      ≡ ok tt

pub handle_settle-Settled :
    {W : Type 0} (rt : Runtime W) (hashv : List Bytes → Bytes) (fuel : ℕ) (a : Settle)
    (s : Ledger W) (kind : ℕ) (mint : Option MintArgs) (s' : Ledger W)
    → handle_settle rt hashv fuel a s kind mint ≡ ok s'
    → Settled rt hashv fuel a s kind mint s'
unfolding handle_settle
handle_settle-Settled rt hashv fuel a s kind mint s' h0 =
    let (u1, e1, h1) = >>=-eq-ok (settle_constraints rt hashv fuel a s) _ h0 in
    let (u2, e2, h2) = >>=-eq-ok (check_head s.vault a kind) _ h1 in
    let (econ, e3, h3) = >>=-eq-ok (exit_view rt s.world a.launch_config) _ h2 in
    let (before, e4, h4) = >>=-eq-ok (load s.pool a.vault_key) _ h3 in
    let (picked, e5, h5) =
      >>=-eq-ok
        (pick hashv fuel before a.request.value a.vault_key a.request.seq kind
          a.request.handed_in_index)
        _ h4 in
    let (u6, e6, h6) =
      >>=-eq-ok (require (bytes_eq a.asset (asset_address rt a.vault_key picked.0)) wrong_asset) _
        h5 in
    let (handed, e7, h7) =
      >>=-eq-ok
        (hand_over rt hashv fuel a (record s { pool = picked.1.d }) econ.collection_size picked.0
          mint)
        _ h6 in
    let (w, e8, h8) = >>=-eq-ok (refund_escrow rt handed.world a.mint_escrow a.user) _ h7 in
    let (v, e9, h9) = >>=-eq-ok (count_settle handed.vault a.request.seq kind) _ h8 in
    let (view, e10, h10) = >>=-eq-ok (load handed.pool a.vault_key) _ h9 in
    let (u11, e11, h11) =
      >>=-eq-ok
        (check v econ.ratio_base econ.collection_size view (rt.token_amount s.world a.vault_tokens))
        _ h10 in
    subst (λ z. Settled rt hashv fuel a s kind mint z) (ok-injective h11)
      (record {
        econ = econ;
        reads = e3;
        head = e2;
        before = before;
        loads = e4;
        picked = picked.0;
        pool = picked.1;
        picks = e5;
        handed = handed;
        hands = e7;
        refunds = e8;
        counts = e9;
        stored = refl;
        view = view;
        reloads = e10;
        passes = e11;
      })

-- Handing an asset over changes no counter of the vault but the number of minted assets.
hand_over-vault :
    {W : Type 0} (rt : Runtime W) (hashv : List Bytes → Bytes) (fuel : ℕ) (a : Settle)
    (s : Ledger W) (n picked : ℕ) (mint : Option MintArgs) (s' : Ledger W)
    → hand_over rt hashv fuel a s n picked mint ≡ ok s'
    → s'.vault ≡ record s.vault { minted_count = s'.vault.minted_count }
unfolding hand_over
hand_over-vault {W = W} rt hashv fuel a s n picked mint s' h0 =
    let (view, e1, h1) = >>=-eq-ok (load s.pool a.vault_key) _ h0 in
    elim (Bool-cases (is_minted view picked)) [
      | inl minted ↦
          let (w, e2, h2) =
            >>=-eq-ok
              (deliver rt s.world a.mpl_core_program a.asset a.collection a.settler
                a.vault_authority a.user)
              _ (rw minted at h1) in
          keeps (ok-injective h2) refl
      | inr unminted ↦
          let (m, e2, h2) = >>=-eq-ok (ok_or mint mint_args_missing) _ (rw unminted at h1) in
          let (w, e4, h4) =
            >>=-eq-ok
              (check_leaf hashv s.vault.trait_root s.vault.trait_schema_hash s.vault.launch_config n
                  picked m.leaf m.proof
                >> mint_to_user rt s.world a.mpl_core_program a.asset a.collection a.vault_authority
                    a.mint_escrow a.user a.vault_key picked (asset_name picked) m.leaf.uri)
              _ h2 in
          let (again, e5, h5) = >>=-eq-ok (load s.pool a.vault_key) _ h4 in
          let (marked, e6, h6) = >>=-eq-ok (mark_minted again picked) _ h5 in
          let (count, e7, h7) =
            >>=-eq-ok (ok_or (checked_add 32 s.vault.minted_count 1) math_overflow) _ h6 in
          keeps (ok-injective h7) refl
    ]
  where
    keeps :
        {z : Ledger W}
        → z ≡ s'
        → z.vault ≡ record s.vault { minted_count = z.vault.minted_count }
        → s'.vault ≡ record s.vault { minted_count = s'.vault.minted_count }
    keeps same k =
        subst (λ (z : Ledger W). z.vault ≡ record s.vault { minted_count = z.vault.minted_count })
          same k

-- The NFTs and tokens that users are owed, in units of one asset.
abbrev pub owed_units : Vault → ℕ
owed_units v = v.assets_outside + v.pending_captures + v.pending_rerolls

count_settle_lem :
    (v v' : Vault) (seq kind : ℕ)
    → count_settle v seq kind ≡ ok v'
    → (owed_units v' ≡ owed_units v)
      × (v'.pending_captures + v'.pending_rerolls + 1 ≡ v.pending_captures + v.pending_rerolls)
      × (v'.next_settle_seq ≡ seq + 1)
      × (v'.next_seq ≡ v.next_seq)
unfolding count_settle
count_settle_lem v v' seq kind h = ground arith

head_lem :
    (v : Vault) (a : Settle) (kind : ℕ)
    → check_head v a kind ≡ ok tt
    → (a.request.seq ≡ v.next_settle_seq) × (a.request.revealed ≡ true)
unfolding check_head
head_lem v a kind h = ground arith

pub exit_view-bounds :
    {W : Type 0} (rt : Runtime W) (w : W) (acc : Bytes) (e : ExitView)
    → exit_view rt w acc ≡ ok e
    → (0 < e.ratio_base) × (0 < e.collection_size) × (e.collection_size < 2 ^ 32)
unfolding exit_view
exit_view-bounds rt w acc e h =
    let (u, e1, h1) =
      >>=-eq-ok
        (require (bytes_eq (rt.owner_of w acc) rt.hybrid_launch_id) unsupported_launch_config) _
        h in
    exit_view_in-bounds rt.launch_config_discriminator (rt.data_of w acc) e h1

-- A final check that passed gives the invariants, whatever the runtime.
pub passed-Holds :
    {W : Type 0} (rt : Runtime W) (before after : W) (acc tokens : Bytes) (v : Vault) (e : ExitView)
    (p : PoolView)
    → rt.token_amount after tokens < 2 ^ 64
    → exit_view rt before acc ≡ ok e
    → check v e.ratio_base e.collection_size p (rt.token_amount after tokens) ≡ ok tt
    → Holds v e.ratio_base e.collection_size p (rt.token_amount after tokens)
passed-Holds rt before after acc tokens v e p fits reads passes =
    let b = exit_view-bounds rt before acc e reads in
    (check_iff v e.ratio_base e.collection_size p (rt.token_amount after tokens) b.0 b.2 fits).0
      passes

-- What a settlement has done to the vault.
pub record SettledVault (v : Vault) (a : Settle) (v' : Vault) : Type 0 where
  pub oldest : a.request.seq ≡ v.next_settle_seq
  pub was_revealed : a.request.revealed ≡ true
  pub next : v'.next_settle_seq ≡ v.next_settle_seq + 1
  pub same_queue_end : v'.next_seq ≡ v.next_seq
  pub one_less_pending :
      v'.pending_captures + v'.pending_rerolls + 1 ≡ v.pending_captures + v.pending_rerolls
  pub same_owed : owed_units v' ≡ owed_units v

-- A settlement that succeeds has served the oldest request, whose randomness was revealed; it takes one
-- pending draw off, and owes users as many units as before. The new vault and pool satisfy the
-- invariants for the ratio and size that the exit reader reads, and for the amount of tokens that the
-- vault had when the settlement began, if that amount is below 2^64.
pub handle_settle_lem :
    {W : Type 0} (rt : Runtime W) (hashv : List Bytes → Bytes) (fuel : ℕ) (a : Settle)
    (s : Ledger W) (kind : ℕ) (mint : Option MintArgs) (s' : Ledger W)
    → rt.token_amount s.world a.vault_tokens < 2 ^ 64
    → handle_settle rt hashv fuel a s kind mint ≡ ok s'
    → SettledVault s.vault a s'.vault
      × ((econ : ExitView) × (view : PoolView) × (exit_view rt s.world a.launch_config ≡ ok econ)
          × (load s'.pool a.vault_key ≡ ok view)
          × Holds s'.vault econ.ratio_base econ.collection_size view
              (rt.token_amount s.world a.vault_tokens))
handle_settle_lem rt hashv fuel a s kind mint s' fits h =
    let t : Settled rt hashv fuel a s kind mint s' =
      handle_settle-Settled rt hashv fuel a s kind mint s' h in
    let k =
      hand_over-vault rt hashv fuel a (record s { pool = t.pool.d }) t.econ.collection_size t.picked
        mint t.handed t.hands in
    (
      settled_vault s.vault a s'.vault t.handed.vault kind k t.counts t.head,
      (
        t.econ,
        t.view,
        t.reads,
        t.reloads,
        passed-Holds rt s.world s.world a.launch_config a.vault_tokens s'.vault t.econ t.view fits
            t.reads t.passes,
      ),
    )
  where
    settled_vault :
        (v : Vault) (a : Settle) (v' m : Vault) (kind : ℕ)
        → m ≡ record v { minted_count = m.minted_count }
        → count_settle m a.request.seq kind ≡ ok v'
        → check_head v a kind ≡ ok tt
        → SettledVault v a v'
    settled_vault v a v' m kind k counts head =
        let c = count_settle_lem m v' a.request.seq kind counts in
        let q = head_lem v a kind head in
        record {
          oldest = q.0;
          was_revealed = q.1;
          next = c.2 ∙ ap (λ x. x + 1) q.0;
          same_queue_end = c.3 ∙ ap (λ (x : Vault). x.next_seq) k;
          one_less_pending = c.1 ∙ ap (λ (x : Vault). x.pending_captures + x.pending_rerolls) k;
          same_owed = c.0 ∙ ap owed_units k;
        }
