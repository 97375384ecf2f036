-- ===== src/Vault/Requests/Took.antt =====
-- programs/hybrid_vault/src/instructions/request.rs: the part that both instructions share.
use launchpad.Prelude.{ℕ, ◌≡◌, ◌^◌, ◌<◌, sym, subst, [], ok, >>=-eq-ok, ok-injective, arith}
use launchpad.Vault.State.{Vault}
use launchpad.Vault.Chain.{Runtime}
use launchpad.Vault.Assets.{sol_fee}
use launchpad.Vault.Randomness.{Switchboard, commit_for_request}
use launchpad.Vault.Randomness.Commit.{Committed, commit_for_request-Committed}
use launchpad.Vault.Requests.{
  NewRequest, Taken, count_request, finish_request, escrow_mint_cost, mint_escrow_lamports_const,
}
use launchpad.Vault.Requests.Finish.{Requested}
use launchpad.Vault.Requests.Handlers.{RequestAccounts, new_request, take_request}

-- Where a request is taken, its fields and the counters are those of `Requested`.
finish_request-Requested :
    (v : Vault) (r : NewRequest) (slot escrow : ℕ) (t : Taken)
    → finish_request v r slot escrow ≡ ok t
    → Requested v r slot t
unfolding finish_request count_request
finish_request-Requested v r slot escrow t h = ground arith

finish_request-next :
    (v : Vault) (r : NewRequest) (slot escrow : ℕ) (t : Taken)
    → finish_request v r slot escrow ≡ ok t
    → t.vault.next_seq < 2 ^ 64
unfolding finish_request count_request
finish_request-next v r slot escrow t h = ground arith

finish_request-fields :
    (v : Vault) (r : NewRequest) (slot escrow : ℕ) (t : Taken)
    → finish_request v r slot escrow ≡ ok t
    → (t.request.kind ≡ r.kind)
      × (t.request.user ≡ r.user)
      × (t.request.randomness ≡ r.randomness)
      × (t.request.seed_slot ≡ r.seed_slot)
      × (t.request.handed_in_index ≡ r.handed_in_index)
unfolding finish_request count_request
finish_request-fields v r slot escrow t h = ground arith

-- What `take_request` has paid, committed and written, from the state `w` on.
pub record TookRequest {W : Type 0} (rt : Runtime W) (sb : Switchboard W) (a : RequestAccounts)
    (v : Vault) (kind handed_in sol : ℕ) (w : W) (t : Taken) (w' : W) : Type 0 where
  pub after_fee : W
  pub fee_paid : sol_fee rt w a.user a.fee_recipient sol ≡ ok after_fee
  pub after_escrow : W
  pub escrow_paid : escrow_mint_cost rt after_fee a.user a.mint_escrow ≡ ok after_escrow
  pub committed : Committed rt sb a.commit v.sb_queue [] after_escrow t.request.seed_slot w'
  pub queued : Requested v (new_request a kind handed_in t.request.seed_slot sol) (rt.slot w') t
  pub next_fits : t.vault.next_seq < 2 ^ 64
  pub same_kind : t.request.kind ≡ kind
  pub same_user : t.request.user ≡ a.user
  pub same_randomness : t.request.randomness ≡ a.commit.randomness
  pub same_hand_in : t.request.handed_in_index ≡ handed_in

pub take_request-TookRequest :
    {W : Type 0} (rt : Runtime W) (sb : Switchboard W) (a : RequestAccounts) (v : Vault) (w : W)
    (sol kind handed_in : ℕ) (out : Taken × W)
    → take_request rt sb a v w sol kind handed_in ≡ ok out
    → TookRequest rt sb a v kind handed_in sol w out.0 out.1
unfolding take_request
take_request-TookRequest rt sb a v w sol kind handed_in out h0 =
    let (w1, e1, h1) = >>=-eq-ok (sol_fee rt w a.user a.fee_recipient sol) _ h0 in
    let (w2, e2, h2) = >>=-eq-ok (escrow_mint_cost rt w1 a.user a.mint_escrow) _ h1 in
    let (c, e3, h3) =
      >>=-eq-ok (commit_for_request rt sb w2 a.commit v.sb_queue a.vault_key v.next_seq []) _ h2 in
    let new = new_request a kind handed_in c.0 sol in
    let (t, e4, h4) =
      >>=-eq-ok (finish_request v new (rt.slot c.1) mint_escrow_lamports_const) _ h3 in
    let f = finish_request-fields v new (rt.slot c.1) mint_escrow_lamports_const t e4 in
    subst (λ (o : Taken × _). TookRequest rt sb a v kind handed_in sol w o.0 o.1) (ok-injective h4)
      (record {
        after_fee = w1;
        fee_paid = e1;
        after_escrow = w2;
        escrow_paid = e2;
        committed =
            subst (λ k. Committed rt sb a.commit v.sb_queue [] w2 k c.1) (sym f.3)
              (commit_for_request-Committed rt sb w2 a.commit v.sb_queue a.vault_key v.next_seq [] c
                e3);
        queued =
            subst (λ k. Requested v (new_request a kind handed_in k sol) (rt.slot c.1) t) (sym f.3)
              (finish_request-Requested v new (rt.slot c.1) mint_escrow_lamports_const t e4);
        next_fits = finish_request-next v new (rt.slot c.1) mint_escrow_lamports_const t e4;
        same_kind = f.0;
        same_user = f.1;
        same_randomness = f.2;
        same_hand_in = f.4;
      })
