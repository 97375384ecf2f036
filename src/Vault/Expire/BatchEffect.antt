-- ===== src/Vault/Expire/BatchEffect.antt =====
-- programs/hybrid_vault/src/instructions/expire.rs: a batch of expiries is a run of single ones.
use launchpad.Prelude.{
  ℕ, zero, suc, ◌+◌, ◌*◌, ◌^◌, ◌≤◌, ◌<◌, ◌≡◌, refl, sym, ap, subst, ◌∙◌, List, [], ◌∷◌, map, true,
  ◌&&◌, ok, >>=-eq-ok, ok-injective, require-eq-ok, ok_or, ok_or-eq-ok, unwrap_option-eq-ok, some,
  leb, ◌==◌, ==_iff, length, tabulate, tabulate-congr, tabulate-cons, arith, if◌then◌else◌,
}
use launchpad.Bytes.{Bytes, bytes_eq, to_le_bytes}
use launchpad.Bytes.Laws.{bytes_eq_sound}
use launchpad.Vault.Accounts.{request_seed, rand_lock_seed, mint_escrow_seed}
use launchpad.Vault.Error.{expire_batch_invalid, expire_batch_account_mismatch}
use launchpad.Vault.State.{Vault, Request, RandLock, request_kind_capture}
use launchpad.Vault.Pool.{PoolView, load}
use launchpad.Vault.Invariants.{check, Holds}
use launchpad.Vault.Config.{ExitView}
use launchpad.Vault.Chain.{Runtime, invoke}
use launchpad.Vault.Release.{Ledger, exit_view}
use launchpad.Vault.Settle.Counts.{owed_units, passed-Holds}
use launchpad.Vault.Expire.{ExpireShared, expire_one}
use launchpad.Vault.Expire.Effect.{Expirable, ExpiredVault, expire_one_lem}
use launchpad.Vault.Expire.Batch.{
  AccountInfo, Group, OwnAccounts, chunks, all_writable, check_group, one_of, expire_group,
  expire_groups, expire_batch_constraints, handle_expire_batch, max_expire_per_call,
  expire_batch_stride,
}

module _ {W : Type 0} (rt : Runtime W) (own : OwnAccounts W) (sh : ExpireShared)
    (mint : Bytes) where
  -- The seven accounts are those of the request at the head of the queue.
  pub record BelongTo (w : W) (v : Vault) (g : Group) (r : Request) : Type 0 where
    pub found : own.request_at w g.request.key ≡ some r
    pub derived :
        rt.create_program_address
          (request_seed ∷ sh.vault_key ∷ to_le_bytes 8 v.next_settle_seq ∷ [])
          r.bump
        ≡ some g.request.key
    pub same_vault : r.vault ≡ sh.vault_key
    pub same_user : r.user ≡ g.user.key
    pub same_randomness : r.randomness ≡ g.randomness.key
    pub lock : RandLock
    pub lock_found : own.rand_lock_at w g.lock.key ≡ some lock
    pub lock_derived :
        rt.create_program_address (rand_lock_seed ∷ g.randomness.key ∷ []) lock.bump
        ≡ some g.lock.key
    pub right_mint : rt.token_mint w g.user_token.key ≡ mint
    pub paid_to_user : rt.token_authority w g.user_token.key ≡ g.user.key
    pub right_escrow :
        g.mint_escrow.key
        ≡ rt.find_program_address (mint_escrow_seed ∷ sh.vault_key ∷ to_le_bytes 8 r.seq ∷ [])

  -- A run of single expiries over the groups in order, each from the vault and the world that the one
  -- before has left, and followed by the closing of the request and of its lock. The list has the
  -- requests that the accounts held.
  pub data Expiring : List Group → Vault → W → List Request → Vault → W → Type 0 where
    finished : {v : Vault} {w : W} → Expiring [] v w [] v w
    then_next :
        {g : Group} {gs : List Group} {v v' : Vault} {w w1 w2 w' : W} {r : Request}
        {rs : List Request} (x : Vault × W)
        → BelongTo w v g r
        → expire_one rt w sh (one_of rt own r g) v ≡ ok x
        → own.close x.1 g.request.key g.user.key ≡ some w1
        → own.close w1 g.lock.key g.user.key ≡ some w2
        → Expirable rt w (one_of rt own r g) v
        → ExpiredVault v r.kind x.0
        → Expiring gs x.0 w2 rs v' w'
        → Expiring (g ∷ gs) v w (r ∷ rs) v' w'

-- What a run adds up to.
pub record ExpiredRun (v : Vault) (rs : List Request) (v' : Vault) : Type 0 where
  pub next : v'.next_settle_seq ≡ v.next_settle_seq + length rs
  pub same_queue_end : v'.next_seq ≡ v.next_seq
  pub less_pending :
      v'.pending_captures + v'.pending_rerolls + length rs ≡ v.pending_captures + v.pending_rerolls
  pub owed : owed_units v' ≤ owed_units v
  pub in_order : map (λ (r : Request). r.seq) rs ≡ tabulate (λ i. v.next_settle_seq + i) (length rs)

one_owed : (kind a b : ℕ) → a + (if kind == request_kind_capture then 1 else 0) ≡ b → a ≤ b
one_owed kind a b h = ground arith

-- Numbers in a row, the first one apart.
from_next : (n m k : ℕ) → m ≡ n + 1 → n ∷ tabulate (λ i. m + i) k ≡ tabulate (λ i. n + i) (suc k)
from_next n m k e =
    ap (λ xs. n ∷ xs) (tabulate-congr (λ i. m + i) (λ i. n + suc i) k (λ i lt. omega arith))
    ∙ ap (λ a. a ∷ tabulate (λ i. n + suc i) k) (omega arith)
    ∙ sym (tabulate-cons (λ i. n + i) k)

module _ {W : Type 0} (rt : Runtime W) (own : OwnAccounts W) (sh : ExpireShared)
    (mint : Bytes) where
  Expiring-run :
      {gs : List Group} {v v' : Vault} {w w' : W} {rs : List Request}
      → Expiring rt own sh mint gs v w rs v' w'
      → ExpiredRun v rs v'
  Expiring-run finished = record {
    next = omega arith;
    same_queue_end = refl;
    less_pending = omega arith;
    owed = omega arith;
    in_order = refl;
  }
  Expiring-run {v} (then_next {r} {rs} x belongs runs closes unlocks can z more) =
      let k = Expiring-run more in
      let v1 = x.0 in
      record {
        next = omega (arith, k.next, z.next);
        same_queue_end = k.same_queue_end ∙ z.same_queue_end;
        less_pending = omega (arith, k.less_pending, z.one_less_pending);
        owed = omega (arith, k.owed, one_owed r.kind (owed_units v1) (owed_units v) z.owed);
        in_order =
            ap (λ xs. r.seq ∷ xs) k.in_order
            ∙ ap (λ a. a ∷ tabulate (λ i. v1.next_settle_seq + i) (length rs)) can.oldest
            ∙ from_next v.next_settle_seq v1.next_settle_seq (length rs) z.next;
      }

  check_group-BelongTo :
      (w : W) (v : Vault) (g : Group) (r : Request)
      → check_group rt own w sh mint v g ≡ ok r
      → BelongTo rt own sh mint w v g r
  unfolding check_group
  check_group-BelongTo w v g r h0 =
      let bad = expire_batch_account_mismatch in
      let head =
        rt.create_program_address
          (request_seed ∷ sh.vault_key ∷ to_le_bytes 8 v.next_settle_seq ∷ []) in
      let lock_of = rt.create_program_address (rand_lock_seed ∷ g.randomness.key ∷ []) in
      let (t1, h1) = require-eq-ok (all_writable g) bad _ h0 in
      let (x, e2, h2) = >>=-eq-ok (ok_or (own.request_at w g.request.key) bad) _ h1 in
      let (want, e3, h3) = >>=-eq-ok (ok_or (head x.bump) bad) _ h2 in
      let (t4, h4) = require-eq-ok (bytes_eq g.request.key want) bad _ h3 in
      let (t5, h5) = require-eq-ok (bytes_eq x.vault sh.vault_key) bad _ h4 in
      let (t6, h6) = require-eq-ok (bytes_eq x.user g.user.key) bad _ h5 in
      let (t7, h7) = require-eq-ok (bytes_eq x.randomness g.randomness.key) bad _ h6 in
      let (lock, e8, h8) = >>=-eq-ok (ok_or (own.rand_lock_at w g.lock.key) bad) _ h7 in
      let (want_lock, e9, h9) = >>=-eq-ok (ok_or (lock_of lock.bump) bad) _ h8 in
      let (t10, h10) = require-eq-ok (bytes_eq g.lock.key want_lock) bad _ h9 in
      let (t11, h11) = require-eq-ok (own.is_token_account w g.user_token.key) bad _ h10 in
      let (t12, h12) = require-eq-ok (bytes_eq (rt.token_mint w g.user_token.key) mint) bad _ h11 in
      let (t13, h13) =
        require-eq-ok (bytes_eq (rt.token_authority w g.user_token.key) g.user.key) bad _ h12 in
      let escrow =
        rt.find_program_address (mint_escrow_seed ∷ sh.vault_key ∷ to_le_bytes 8 x.seq ∷ []) in
      let (t14, h14) = require-eq-ok (bytes_eq g.mint_escrow.key escrow) bad _ h13 in
      subst (BelongTo rt own sh mint w v g) (ok-injective h14) (record {
        found = ok_or-eq-ok (own.request_at w g.request.key) bad e2;
        derived =
            ok_or-eq-ok (head x.bump) bad e3 ∙ ap some (sym (bytes_eq_sound g.request.key want t4));
        same_vault = bytes_eq_sound x.vault sh.vault_key t5;
        same_user = bytes_eq_sound x.user g.user.key t6;
        same_randomness = bytes_eq_sound x.randomness g.randomness.key t7;
        lock = lock;
        lock_found = ok_or-eq-ok (own.rand_lock_at w g.lock.key) bad e8;
        lock_derived =
            ok_or-eq-ok (lock_of lock.bump) bad e9
            ∙ ap some (sym (bytes_eq_sound g.lock.key want_lock t10));
        right_mint = bytes_eq_sound (rt.token_mint w g.user_token.key) mint t12;
        paid_to_user = bytes_eq_sound (rt.token_authority w g.user_token.key) g.user.key t13;
        right_escrow = bytes_eq_sound g.mint_escrow.key escrow t14;
      })

  expire_groups-Expiring :
      (gs : List Group) (w : W) (v : Vault) (out : Vault × W)
      → expire_groups rt own gs sh mint v w ≡ ok out
      → (rs : List Request) × (length rs ≡ length gs)
        × Expiring rt own sh mint gs v w rs out.0 out.1
  unfolding expire_groups expire_group
  expire_groups-Expiring [] w v out h = (
    [],
    refl,
    subst (λ (o : Vault × W). Expiring rt own sh mint [] v w [] o.0 o.1) (ok-injective h) finished,
  )
  expire_groups-Expiring (g ∷ gs) w v out h0 =
      let (s, one, h) = >>=-eq-ok (expire_group rt own w sh mint v g) _ h0 in
      let (r, e1, h1) = >>=-eq-ok (check_group rt own w sh mint v g) _ one in
      let (x, e2, h2) = >>=-eq-ok (expire_one rt w sh (one_of rt own r g) v) _ h1 in
      let (w1, e3, h3) = >>=-eq-ok (invoke (own.close x.1 g.request.key g.user.key)) _ h2 in
      let (w2, e4, h4) = >>=-eq-ok (invoke (own.close w1 g.lock.key g.user.key)) _ h3 in
      let left : expire_groups rt own gs sh mint x.0 w2 ≡ ok out =
        subst (λ (o : Vault × W). expire_groups rt own gs sh mint o.0 o.1 ≡ ok out)
          (sym (ok-injective h4)) h in
      let (rs, n, more) = expire_groups-Expiring gs w2 x.0 out left in
      let k = expire_one_lem rt w sh (one_of rt own r g) v x e2 in
      (
        r ∷ rs,
        ap suc n,
        then_next x (check_group-BelongTo w v g r e1) e2
            (unwrap_option-eq-ok (own.close x.1 g.request.key g.user.key) e3)
            (unwrap_option-eq-ok (own.close w1 g.lock.key g.user.key) e4) k.0 k.1 more,
      )

length-chunks :
    (count : ℕ) (xs : List AccountInfo)
    → length xs ≡ count * expire_batch_stride
    → length (chunks xs) ≡ count
unfolding chunks
length-chunks zero [] h = refl
length-chunks zero (a ∷ xs) h = absurd (omega arith)
length-chunks (suc count) (a ∷ b ∷ c ∷ d ∷ e ∷ f ∷ g ∷ xs) h =
    ap suc (length-chunks count xs (omega arith))
length-chunks (suc count) [] h = absurd (omega arith)
length-chunks (suc count) (a ∷ []) h = absurd (omega arith)
length-chunks (suc count) (a ∷ b ∷ []) h = absurd (omega arith)
length-chunks (suc count) (a ∷ b ∷ c ∷ []) h = absurd (omega arith)
length-chunks (suc count) (a ∷ b ∷ c ∷ d ∷ []) h = absurd (omega arith)
length-chunks (suc count) (a ∷ b ∷ c ∷ d ∷ e ∷ []) h = absurd (omega arith)
length-chunks (suc count) (a ∷ b ∷ c ∷ d ∷ e ∷ f ∷ []) h = absurd (omega arith)

-- A batch that succeeds is a run of exactly as many single expiries as it was told, at least one and at
-- most seven, over the groups of seven accounts that it was given, in order. Each starts from the vault
-- and the world that the one before left, and is of the request that its group's account holds, at the
-- address of the queue's head of that moment; the group's other accounts are that request's. So the
-- expired requests are consecutive from the head, which moves past all of them, and the vault owes no
-- more units than before. The run ends in the new vault and world, and the invariants hold there,
-- whatever the runtime does, if the vault's amount of tokens is below 2^64.
pub handle_expire_batch_lem :
    {W : Type 0} (rt : Runtime W) (own : OwnAccounts W) (launch_config pool_key mint : Bytes)
    (sh : ExpireShared) (remaining : List AccountInfo) (s s' : Ledger W) (count : ℕ)
    → rt.token_amount s'.world sh.vault_tokens < 2 ^ 64
    → handle_expire_batch rt own launch_config pool_key mint sh remaining s count ≡ ok s'
    → (1 ≤ count)
      × (count ≤ 7)
      × ((econ : ExitView) × (view : PoolView) × (rs : List Request) × (exit_view rt s.world
              launch_config
            ≡ ok econ)
          × (length rs ≡ count)
          × Expiring rt own
              (record sh { ratio_base = econ.ratio_base })
              mint
              (chunks remaining)
              s.vault
              s.world
              rs
              s'.vault
              s'.world
          × ExpiredRun s.vault rs s'.vault
          × (load s'.pool sh.vault_key ≡ ok view)
          × Holds s'.vault econ.ratio_base econ.collection_size view
              (rt.token_amount s'.world sh.vault_tokens))
unfolding handle_expire_batch
handle_expire_batch_lem {W} rt own launch_config pool_key mint sh remaining s s' count fits h0 =
    let (u1, e1, h1) =
      >>=-eq-ok (expire_batch_constraints rt own launch_config pool_key mint sh s) _ h0 in
    let (in_range, h2) =
      require-eq-ok (leb 1 count && leb count max_expire_per_call) expire_batch_invalid _ h1 in
    let (whole, h3) =
      require-eq-ok (length remaining == count * expire_batch_stride) expire_batch_invalid _ h2 in
    let (econ, e4, h4) = >>=-eq-ok (exit_view rt s.world launch_config) _ h3 in
    let shared = record sh { ratio_base = econ.ratio_base } in
    let (x, e5, h5) =
      >>=-eq-ok (expire_groups rt own (chunks remaining) shared mint s.vault s.world) _ h4 in
    let (view, e6, h6) = >>=-eq-ok (load s.pool sh.vault_key) _ h5 in
    let (u7, e7, h7) =
      >>=-eq-ok
        (check x.0 econ.ratio_base econ.collection_size view (rt.token_amount x.1 sh.vault_tokens))
        _ h6 in
    let same : record { vault = x.0; pool = s.pool; world = x.1 } ≡ s' = ok-injective h7 in
    let (rs, n, run) =
      expire_groups-Expiring rt own shared mint (chunks remaining) s.world s.vault x e5 in
    let run' : Expiring rt own shared mint (chunks remaining) s.vault s.world rs s'.vault s'.world =
      subst
        (λ (z : Ledger W).
          Expiring rt own shared mint (chunks remaining) s.vault s.world rs z.vault z.world)
        same run in
    let (low, high) = bounds count in_range in
    (
      low,
      high,
      (
        econ,
        view,
        rs,
        e4,
        n ∙ length-chunks count remaining ((==_iff _ _).0 whole),
        run',
        Expiring-run rt own shared mint run',
        subst (λ (z : Ledger W). load z.pool sh.vault_key ≡ ok view) same e6,
        passed-Holds rt s.world s'.world launch_config sh.vault_tokens s'.vault econ view fits e4 (
            subst
              (λ (z : Ledger W).
                check z.vault econ.ratio_base econ.collection_size view
                  (rt.token_amount z.world sh.vault_tokens)
                ≡ ok tt)
              same e7),
      ),
    )
  where
    bounds : (n : ℕ) → (leb 1 n && leb n max_expire_per_call) ≡ true → (1 ≤ n) × (n ≤ 7)
    bounds n h = ground arith
