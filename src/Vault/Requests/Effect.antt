-- ===== src/Vault/Requests/Effect.antt =====
-- programs/hybrid_vault/src/instructions/request.rs: what a request that was accepted has paid and done.
use launchpad.Prelude.{
  ℕ, ◌+◌, ◌^◌, ◌≤◌, ◌<◌, ◌≡◌, refl, ap, sym, subst, ◌∙◌, true, ok, >>=-eq-ok, ok-injective,
  require-eq-ok, ltb, ltb→lt, arith,
}
use launchpad.Bytes.{Bytes}
use launchpad.Launch.State.{LaunchConfig}
use launchpad.Launch.Fees.{is_exact_tier_fee}
use launchpad.Launch.Constants.{platform_fee_recipient}
use launchpad.Vault.Error.{index_out_of_range, fee_not_tier}
use launchpad.Vault.State.{Vault, request_kind_capture, request_kind_reroll, no_handed_in}
use launchpad.Vault.Config.{Econ, econ, request_fee}
use launchpad.Vault.Pool.{PoolView, load, pool_len, incoming_len}
use launchpad.Vault.Invariants.{factor_le, check, check_iff, Holds}
use launchpad.Vault.Chain.{Runtime}
use launchpad.Vault.Assets.{take_back, user_pays}
use launchpad.Vault.Randomness.{Switchboard}
use launchpad.Vault.Release.{Ledger}
use launchpad.Vault.Requests.{Taken, pool_floor, check_can_request}
use launchpad.Vault.Requests.Floor.{check_can_request_iff}
use launchpad.Vault.Requests.Took.{TookRequest, take_request-TookRequest}
use launchpad.Vault.Requests.Handlers.{
  RequestAccounts, CaptureAccounts, RerollAccounts, Requesting, capture_constraints,
  reroll_constraints, take_request, handle_request_capture, handle_request_reroll,
}

-- What a request that was accepted leaves: `w` is the state after the principal was taken.
pub record Accepted {W : Type 0} (rt : Runtime W) (sb : Switchboard W) (a : RequestAccounts)
    (kind handed_in tokens : ℕ) (s : Ledger W) (w : W) (out : Requesting W) : Type 0 where
  pub econ_read : Econ
  pub reads : econ platform_fee_recipient a.config ≡ ok econ_read
  pub exact_fee :
      is_exact_tier_fee econ_read.stored_fee_lamports econ_read.ratio_whole_tokens ≡ true
  pub took :
      TookRequest rt sb a s.vault kind handed_in econ_read.stored_fee_lamports w
        (record { vault = out.ledger.vault; request = out.request; rand_lock = out.rand_lock })
        out.ledger.world
  pub opened : s.vault.is_open ≡ true
  pub view : PoolView
  pub loads : load s.pool a.vault_key ≡ ok view
  pub same_pool : out.ledger.pool ≡ s.pool
  pub floor_left :
      pool_floor econ_read.collection_size + s.vault.pending_captures + s.vault.pending_rerolls + 1
      ≤ pool_len view + incoming_len view
  pub holds : Holds out.ledger.vault econ_read.ratio_base econ_read.collection_size view tokens

request_fee-ok :
    (stored whole sol : ℕ)
    → request_fee stored whole ≡ ok sol
    → (is_exact_tier_fee stored whole ≡ true) × (sol ≡ stored)
unfolding request_fee
request_fee-ok stored whole sol h =
    let (exact, h1) = require-eq-ok (is_exact_tier_fee stored whole) fee_not_tier _ h in
    (exact, sym (ok-injective h1))

econ-range :
    (w : Bytes) (cfg : LaunchConfig) (e : Econ)
    → econ w cfg ≡ ok e
    → (0 < e.ratio_base) × (e.collection_size ≤ 10_000)
unfolding econ
econ-range w cfg e h = ground arith

-- The final check also tells that the sums of the first one were in range.
can_request :
    (v v' : Vault) (e : Econ) (p : PoolView) (tokens : ℕ)
    → (0 < e.ratio_base) × (e.collection_size ≤ 10_000)
    → tokens < 2 ^ 64
    → v'.pending_captures + v'.pending_rerolls ≡ v.pending_captures + v.pending_rerolls + 1
    → check_can_request v e p ≡ ok tt
    → check v' e.ratio_base e.collection_size p tokens ≡ ok tt
    → Holds v' e.ratio_base e.collection_size p tokens
      × (v.is_open ≡ true)
      × (pool_floor e.collection_size + v.pending_captures + v.pending_rerolls + 1
          ≤ pool_len p + incoming_len p)
can_request v v' e p tokens range fits one can passes =
    let h : Holds v' e.ratio_base e.collection_size p tokens =
      (check_iff v' e.ratio_base e.collection_size p tokens range.0 (omega (arith, range)) fits).0
        passes in
    let owed : ℕ = v'.assets_outside + v'.pending_captures + v'.pending_rerolls in
    let small : owed ≤ tokens = factor_le e.ratio_base owed tokens range.0 h.solvent in
    let c =
      (check_can_request_iff v e p (omega (arith, h.accounted, range))
          (omega (arith, h.accounted, range)) (omega (arith, small, one))).0
        can in
    (h, c.0, c.1)

module _ {W : Type 0} (rt : Runtime W) (sb : Switchboard W) (a : RequestAccounts)
    (s : Ledger W) where
  accepted :
      (kind handed_in tokens sol : ℕ) (w : W) (e : Econ) (view again : PoolView) (taken : Taken × W)
      (out : Requesting W)
      → tokens < 2 ^ 64
      → econ platform_fee_recipient a.config ≡ ok e
      → load s.pool a.vault_key ≡ ok view
      → check_can_request s.vault e view ≡ ok tt
      → request_fee e.stored_fee_lamports e.ratio_whole_tokens ≡ ok sol
      → take_request rt sb a s.vault w sol kind handed_in ≡ ok taken
      → load s.pool a.vault_key ≡ ok again
      → check taken.0.vault e.ratio_base e.collection_size again tokens ≡ ok tt
      → record {
        ledger = record { vault = taken.0.vault; pool = s.pool; world = taken.1 };
        request = taken.0.request;
        rand_lock = taken.0.rand_lock;
      }
        ≡ out
      → Accepted rt sb a kind handed_in tokens s w out
  accepted kind handed_in tokens sol w e view again taken out fits e1 e2 e3 e4 e5 e6 e7 same =
      let f = request_fee-ok e.stored_fee_lamports e.ratio_whole_tokens sol e4 in
      let t : TookRequest rt sb a s.vault kind handed_in sol w taken.0 taken.1 =
        take_request-TookRequest rt sb a s.vault w sol kind handed_in taken e5 in
      let one_view : again ≡ view = ok-injective (sym e6 ∙ e2) in
      let k =
        can_request s.vault taken.0.vault e view tokens
          (econ-range platform_fee_recipient a.config e e1) fits t.queued.one_more_pending e3
          (subst (λ p. check taken.0.vault e.ratio_base e.collection_size p tokens ≡ ok tt) one_view
            e7) in
      subst (λ o. Accepted rt sb a kind handed_in tokens s w o) same
        (record {
          econ_read = e;
          reads = e1;
          exact_fee = f.0;
          took = subst (λ x. TookRequest rt sb a s.vault kind handed_in x w taken.0 taken.1) f.1 t;
          opened = k.1;
          view = view;
          loads = e2;
          same_pool = refl;
          floor_left = k.2;
          holds = k.0;
        })

  -- A capture that is accepted has paid exactly the ratio into the vault's tokens, then the exact fee of
  -- the launch's tier, then the escrow of the mint, and has committed its randomness under the vault's
  -- queue, with an oracle whose heartbeat is fresh. The vault was open, and at least one asset more than
  -- the floor was left after every pending draw. The request stands last in the queue, for its user and
  -- this randomness, not revealed; the pool is unchanged, and the invariants hold with the new request,
  -- whatever the runtime does, if the vault's amount of tokens is below 2^64.
  pub handle_request_capture_lem :
      (c : CaptureAccounts) (out : Requesting W)
      → rt.token_amount out.ledger.world a.vault_tokens < 2 ^ 64
      → handle_request_capture rt sb a c s ≡ ok out
      → (w : W) × (e : Econ) × (econ platform_fee_recipient a.config ≡ ok e)
        × (user_pays rt s.world c.user_token a.vault_tokens a.user e.ratio_base ≡ ok w)
        × Accepted rt sb a request_kind_capture no_handed_in
            (rt.token_amount out.ledger.world a.vault_tokens)
            s
            w
            out
  unfolding handle_request_capture
  handle_request_capture_lem c out fits h0 =
      let (u1, e1, h1) = >>=-eq-ok (capture_constraints rt sb a c s) _ h0 in
      let (e, e2, h2) = >>=-eq-ok (econ platform_fee_recipient a.config) _ h1 in
      let (view, e3, h3) = >>=-eq-ok (load s.pool a.vault_key) _ h2 in
      let (u4, e4, h4) = >>=-eq-ok (check_can_request s.vault e view) _ h3 in
      let (sol, e5, h5) = >>=-eq-ok (request_fee e.stored_fee_lamports e.ratio_whole_tokens) _ h4 in
      let (w1, e6, h6) =
        >>=-eq-ok (user_pays rt s.world c.user_token a.vault_tokens a.user e.ratio_base) _ h5 in
      let (taken, e7, h7) =
        >>=-eq-ok (take_request rt sb a s.vault w1 sol request_kind_capture no_handed_in) _ h6 in
      let (again, e8, h8) = >>=-eq-ok (load s.pool a.vault_key) _ h7 in
      let (u9, e9, h9) =
        >>=-eq-ok
          (check taken.0.vault e.ratio_base e.collection_size again
            (rt.token_amount taken.1 a.vault_tokens))
          _ h8 in
      let same = ok-injective h9 in
      let amount : rt.token_amount taken.1 a.vault_tokens
          ≡ rt.token_amount out.ledger.world a.vault_tokens =
        ap (λ (o : Requesting W). rt.token_amount o.ledger.world a.vault_tokens) same in
      (
        w1,
        e,
        e2,
        e6,
        accepted request_kind_capture no_handed_in (rt.token_amount out.ledger.world a.vault_tokens)
            sol w1 e view again taken out fits e2 e3 e4 e5 e7 e8
            (subst (λ n. check taken.0.vault e.ratio_base e.collection_size again n ≡ ok tt) amount
              e9)
            same,
      )

  -- A re-roll that is accepted has handed an asset of the collection in to the vault, and has otherwise
  -- paid, committed and done what a capture has; its user is owed the asset handed in until it is settled
  -- or expires, so that the number of units owed is the same. The invariants hold for the tokens that
  -- the vault held at its beginning, if these are below 2^64.
  pub handle_request_reroll_lem :
      (c : RerollAccounts) (index : ℕ) (out : Requesting W)
      → rt.token_amount s.world a.vault_tokens < 2 ^ 64
      → handle_request_reroll rt sb a c s index ≡ ok out
      → (w : W) × (take_back rt s.world c.mpl_core_program c.asset c.collection a.user
            c.vault_authority
          ≡ ok w)
        × (accepted : Accepted rt sb a request_kind_reroll index
            (rt.token_amount s.world a.vault_tokens)
            s
            w
            out)
        × (index < accepted.econ_read.collection_size)
  unfolding handle_request_reroll accepted
  handle_request_reroll_lem c index out fits h0 =
      let (u1, e1, h1) = >>=-eq-ok (reroll_constraints rt sb a c s index) _ h0 in
      let (e, e2, h2) = >>=-eq-ok (econ platform_fee_recipient a.config) _ h1 in
      let (view, e3, h3) = >>=-eq-ok (load s.pool a.vault_key) _ h2 in
      let (u4, e4, h4) = >>=-eq-ok (check_can_request s.vault e view) _ h3 in
      let (small, h5) = require-eq-ok (ltb index e.collection_size) index_out_of_range _ h4 in
      let (sol, e5, h6) = >>=-eq-ok (request_fee e.stored_fee_lamports e.ratio_whole_tokens) _ h5 in
      let (w1, e6, h7) =
        >>=-eq-ok
          (take_back rt s.world c.mpl_core_program c.asset c.collection a.user c.vault_authority) _
          h6 in
      let (taken, e7, h8) =
        >>=-eq-ok (take_request rt sb a s.vault w1 sol request_kind_reroll index) _ h7 in
      let (again, e8, h9) = >>=-eq-ok (load s.pool a.vault_key) _ h8 in
      let (u10, e10, h10) =
        >>=-eq-ok
          (check taken.0.vault e.ratio_base e.collection_size again
            (rt.token_amount s.world a.vault_tokens))
          _ h9 in
      let x =
        accepted request_kind_reroll index (rt.token_amount s.world a.vault_tokens) sol w1 e view
          again taken out fits e2 e3 e4 e5 e7 e8 e10 (ok-injective h10) in
      let y : x.econ_read ≡ e = ok-injective (sym x.reads ∙ e2) in
      (
        w1,
        e6,
        x,
        subst (λ (z : Econ). index < z.collection_size) (sym y)
            (ltb→lt index e.collection_size small),
      )
