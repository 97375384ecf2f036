-- ===== src/Vault/Expire/Effect.antt =====
-- programs/hybrid_vault/src/instructions/expire.rs: which requests expire, and what that does.
use launchpad.Prelude.{
  ℕ, ◌+◌, ◌^◌, ◌<◌, ◌≡◌, ap, subst, ◌∙◌, Bool, false, not, ok, require, ok_or, ◌>>=◌, ◌>>◌,
  >>=-eq-ok, ok-injective, ◌==◌, ltb, arith, if◌then◌else◌, checked_add,
}
use launchpad.Bytes.{Bytes}
use launchpad.Vault.Error.{
  Outcome, out_of_order, randomness_already_revealed, recommits_remaining, math_overflow,
  expiry_not_reached,
}
use launchpad.Vault.State.{Vault, request_kind_capture, max_recommits, expire_grace_slots}
use launchpad.Vault.Pool.{PoolView, load}
use launchpad.Vault.Assets.{refund_escrow}
use launchpad.Vault.Invariants.{check, Holds}
use launchpad.Vault.Config.{ExitView}
use launchpad.Vault.Chain.{Runtime, RandomnessSnapshot}
use launchpad.Vault.Release.{Ledger, exit_view}
use launchpad.Vault.Settle.Counts.{owed_units, passed-Holds}
use launchpad.Vault.Randomness.{read, is_revealed}
use launchpad.Vault.Accounts.{Held}
use launchpad.Vault.Expire.{
  ExpireOne, ExpireShared, count_expire, check_expirable, return_principal, expire_one,
  expire_constraints, handle_expire,
}

count_expire_lem :
    (v v' : Vault) (seq kind : ℕ)
    → count_expire v seq kind ≡ ok v'
    → (owed_units v' + (if kind == request_kind_capture then 1 else 0) ≡ owed_units v)
      × (v'.pending_captures + v'.pending_rerolls + 1 ≡ v.pending_captures + v.pending_rerolls)
      × (v'.next_settle_seq ≡ seq + 1)
      × (v'.next_seq ≡ v.next_seq)
unfolding count_expire
count_expire_lem v v' seq kind h = ground arith

-- When a request can be expired.
pub record Expirable {W : Type 0} (rt : Runtime W) (w : W) (r : ExpireOne) (v : Vault)
    : Type 0 where
  pub oldest : r.request.seq ≡ v.next_settle_seq
  pub unrevealed : r.request.revealed ≡ false
  pub snap : RandomnessSnapshot
  pub reads : read rt w r.randomness ≡ ok snap
  pub unrevealed_there : is_revealed snap r.request.seed_slot ≡ false
  pub tried : max_recommits < r.request.commits
  pub late : r.request.deadline_slot + expire_grace_slots < rt.slot w

first_guards :
    (seq next : ℕ) (revealed : Bool) (later : Outcome (Unit {0}))
    → (require (seq == next) out_of_order
        >> (require (not revealed) randomness_already_revealed >> later))
      ≡ ok tt
    → (seq ≡ next) × (revealed ≡ false) × (later ≡ ok tt)
first_guards seq next revealed later h = ground arith

last_guards :
    (revealed : Bool) (commits deadline slot : ℕ)
    → (require (not revealed) randomness_already_revealed
        >> (require (ltb max_recommits commits) recommits_remaining
            >> (ok_or (checked_add 64 deadline expire_grace_slots) math_overflow >>= λ earliest.
                require (ltb earliest slot) expiry_not_reached)))
      ≡ ok tt
    → (revealed ≡ false) × (max_recommits < commits) × (deadline + expire_grace_slots < slot)
last_guards revealed commits deadline slot h = ground arith

check_expirable-Expirable :
    {W : Type 0} (rt : Runtime W) (w : W) (r : ExpireOne) (v : Vault)
    → check_expirable rt w r v ≡ ok tt
    → Expirable rt w r v
unfolding check_expirable
check_expirable-Expirable rt w r v h =
    let (seq_eq, unrevealed, h1) =
      first_guards r.request.seq v.next_settle_seq r.request.revealed _ h in
    let (snap, e2, h2) = >>=-eq-ok (read rt w r.randomness) _ h1 in
    let (quiet, tried, late) =
      last_guards (is_revealed snap r.request.seed_slot) r.request.commits r.request.deadline_slot
        (rt.slot w) h2 in
    record {
      oldest = seq_eq;
      unrevealed = unrevealed;
      snap = snap;
      reads = e2;
      unrevealed_there = quiet;
      tried = tried;
      late = late;
    }

-- What an expiry has done to the vault.
pub record ExpiredVault (v : Vault) (kind : ℕ) (v' : Vault) : Type 0 where
  pub next : v'.next_settle_seq ≡ v.next_settle_seq + 1
  pub same_queue_end : v'.next_seq ≡ v.next_seq
  pub one_less_pending :
      v'.pending_captures + v'.pending_rerolls + 1 ≡ v.pending_captures + v.pending_rerolls
  pub owed : owed_units v' + (if kind == request_kind_capture then 1 else 0) ≡ owed_units v

pub expire_one_lem :
    {W : Type 0} (rt : Runtime W) (w : W) (sh : ExpireShared) (r : ExpireOne) (v : Vault)
    (out : Vault × W)
    → expire_one rt w sh r v ≡ ok out
    → Expirable rt w r v × ExpiredVault v r.request.kind out.0
unfolding expire_one
expire_one_lem rt w sh r v out h0 =
    let (u1, e1, h1) = >>=-eq-ok (check_expirable rt w r v) _ h0 in
    let (w1, e2, h2) = >>=-eq-ok (return_principal rt w sh r) _ h1 in
    let (w2, e3, h3) = >>=-eq-ok (refund_escrow rt w1 r.mint_escrow r.user) _ h2 in
    let (v', e4, h4) = >>=-eq-ok (count_expire v r.request.seq r.request.kind) _ h3 in
    let x = check_expirable-Expirable rt w r v e1 in
    let c = count_expire_lem v v' r.request.seq r.request.kind e4 in
    (
      x,
      subst (λ (o : Vault × _). ExpiredVault v r.request.kind o.0) (ok-injective h4)
          (record {
            next = c.2 ∙ ap (λ k. k + 1) x.oldest;
            same_queue_end = c.3;
            one_less_pending = c.1;
            owed = c.0;
          }),
    )

-- A request that has expired was the oldest one; its value was recorded neither in the request nor
-- by Switchboard for its last commit; it had more than three commits, and its grace period was over.
-- The expiry takes one pending draw off, and one owed unit for a capture; a re-roll's unit stays
-- owed. The invariants hold after it, whatever the runtime does, if the vault's amount of tokens is
-- below 2^64.
pub handle_expire_lem :
    {W : Type 0} (rt : Runtime W) (launch_config pool_key mint : Bytes) (held : Held)
    (sh : ExpireShared) (r : ExpireOne) (s s' : Ledger W)
    → rt.token_amount s'.world sh.vault_tokens < 2 ^ 64
    → handle_expire rt launch_config pool_key mint held sh r s ≡ ok s'
    → Expirable rt s.world r s.vault
      × ExpiredVault s.vault r.request.kind s'.vault
      × ((econ : ExitView) × (view : PoolView) × (exit_view rt s.world launch_config ≡ ok econ)
          × (load s'.pool sh.vault_key ≡ ok view)
          × Holds s'.vault econ.ratio_base econ.collection_size view
              (rt.token_amount s'.world sh.vault_tokens))
unfolding handle_expire
handle_expire_lem {W = W} rt launch_config pool_key mint held sh r s s' fits h0 =
    let (u1, e1, h1) =
      >>=-eq-ok (expire_constraints rt launch_config pool_key mint held sh r s) _ h0 in
    let (econ, e2, h2) = >>=-eq-ok (exit_view rt s.world launch_config) _ h1 in
    let (out, e3, h3) =
      >>=-eq-ok (expire_one rt s.world (record sh { ratio_base = econ.ratio_base }) r s.vault) _
        h2 in
    let (view, e4, h4) = >>=-eq-ok (load s.pool sh.vault_key) _ h3 in
    let (u5, e5, h5) =
      >>=-eq-ok
        (check out.0 econ.ratio_base econ.collection_size view
          (rt.token_amount out.1 sh.vault_tokens))
        _ h4 in
    let x =
      expire_one_lem rt s.world (record sh { ratio_base = econ.ratio_base }) r s.vault out e3 in
    let same : record { vault = out.0; pool = s.pool; world = out.1 } ≡ s' = ok-injective h5 in
    (
      x.0,
      subst (λ (z : Ledger W). ExpiredVault s.vault r.request.kind z.vault) same x.1,
      (
        econ,
        view,
        e2,
        subst (λ (z : Ledger W). load z.pool sh.vault_key ≡ ok view) same e4,
        passed-Holds rt s.world s'.world launch_config sh.vault_tokens s'.vault econ view fits e2 (
            subst
              (λ (z : Ledger W).
                check z.vault econ.ratio_base econ.collection_size view
                  (rt.token_amount z.world sh.vault_tokens)
                ≡ ok tt)
              same e5),
      ),
    )
