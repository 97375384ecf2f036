-- ===== src/Vault/Lifecycle/Taking.antt =====
-- programs/hybrid_vault/src: the instructions that keep the pool, or only merge it, keep a vault sound.
use launchpad.Prelude.{
  ℕ, ◌+◌, ◌^◌, ◌≤◌, ◌<◌, ◌≡◌, refl, sym, subst, ◌∙◌, List, [], ◌∷◌, All, Bool, true, false, not, ok,
  ◌>>◌, >>=-eq-ok, ok-injective, require-eq-ok, ◌==◌, arith,
}
use launchpad.Bytes.{Bytes, bytes_eq}
use launchpad.Launch.Constants.{platform_fee_recipient}
use launchpad.Vault.Error.{Outcome, vault_already_open, invalid_pool_account}
use launchpad.Vault.State.{Vault, request_kind_capture, request_kind_reroll, no_handed_in}
use launchpad.Vault.Config.{ExitView, econ}
use launchpad.Vault.Config.Exit.{econ-ok}
use launchpad.Vault.Pool.{load, capacity}
use launchpad.Vault.Pool.View.{incoming}
use launchpad.Vault.Invariants.{check, Holds}
use launchpad.Vault.Accounts.{check_vault, check_vault_tokens}
use launchpad.Vault.Chain.{constraint}
use launchpad.Vault.Release.{Ledger}
use launchpad.Vault.Requests.Handlers.{
  RequestAccounts, CaptureAccounts, RerollAccounts, Requesting, handle_request_capture,
  handle_request_reroll,
}
use launchpad.Vault.Requests.Effect.{
  Accepted, handle_request_capture_lem, handle_request_reroll_lem,
}
use launchpad.Vault.Opening.{OpenVault, check_collection, verify_dbc, handle_open_vault}
use launchpad.Vault.Merging.{handle_merge_incoming, handle_merge_incoming-Sound}
use launchpad.Vault.Sound.{Sound}
use launchpad.Vault.Lifecycle.{Setting, tokens, request_here, Live}

-- A later bound.
All-le :
    (a b : ℕ) (xs : List (ℕ × ℕ))
    → a ≤ b
    → All (λ (e : ℕ × ℕ). e.1 ≤ a) xs
    → All (λ (e : ℕ × ℕ). e.1 ≤ b) xs
All-le a b [] h k = tt
All-le a b (x ∷ xs) h k = (omega (arith, k.0), All-le a b xs h k.1)

-- The same pool under a vault whose queue may have grown.
grown :
    (v v' : Vault) (pool key : Bytes) (ratio n t t' : ℕ) (b : Sound v pool key ratio n t)
    → Holds v' ratio n b.view t'
    → v.next_seq ≤ v'.next_seq
    → v'.next_seq < 2 ^ 64
    → Sound v' pool key ratio n t'
grown v v' pool key ratio n t t' b holds le fits = record {
  view = b.view;
  loads = b.loads;
  valid = b.valid;
  holds = holds;
  ordered = All-le v.next_seq v'.next_seq (incoming b.view) le b.ordered;
  seq_fits = fits;
}

-- More tokens do no harm.
pub more_tokens :
    (v : Vault) (pool key : Bytes) (ratio n t t' : ℕ)
    → t ≤ t'
    → Sound v pool key ratio n t
    → Sound v pool key ratio n t'
more_tokens v pool key ratio n t t' le b =
    grown v v pool key ratio n t t' b
      (record {
        solvent = omega (arith, b.holds.solvent);
        accounted = b.holds.accounted;
        sized = b.holds.sized;
        minted = b.holds.minted;
        minted_out = b.holds.minted_out;
      })
      (omega arith) b.seq_fits

constrained :
    {A : Type 0} (b : Bool) (k : Outcome A) {x : A} → (constraint b >> k) ≡ ok x → b ≡ true
constrained true k h = refl
constrained false k h = cc

module _ {W : Type 0} (here : Setting W) where
  -- A request that was accepted, of either kind.
  accepted-Live :
      (a : RequestAccounts) (kind handed_in t : ℕ) (s : Ledger W) (w : W) (out : Requesting W)
      → Live here s
      → t ≤ tokens here out.ledger.world
      → Accepted here.rt here.sb (request_here here a) kind handed_in t s w out
      → Live here out.ledger
  accepted-Live a kind handed_in t s w out live le x =
      let ratio = here.config.ratio_base in
      let n = here.config.collection_size in
      let b = live.sound in
      let q = x.took.queued in
      let k = econ-ok platform_fee_recipient here.config x.econ_read x.reads in
      let one_view : x.view ≡ b.view = ok-injective (sym x.loads ∙ b.loads) in
      let holds : Holds out.ledger.vault ratio n b.view t =
        subst (λ p. Holds out.ledger.vault ratio n p t) one_view
          (subst (λ (e : ExitView). Holds out.ledger.vault e.ratio_base e.collection_size x.view t)
            k.3 x.holds) in
      let after : Sound out.ledger.vault s.pool here.vault_key ratio n t =
        grown s.vault out.ledger.vault s.pool here.vault_key ratio n (tokens here s.world) t b holds
          (omega (arith, q.next)) x.took.next_fits in
      record {
        sound =
            subst
              (λ p. Sound out.ledger.vault p here.vault_key ratio n (tokens here out.ledger.world))
              (sym x.same_pool)
              (more_tokens out.ledger.vault s.pool here.vault_key ratio n t
                (tokens here out.ledger.world) le after);
        queue = omega (arith, q.next, q.same_queue_front, q.one_more_pending, live.queue);
      }

  pub captured-Live :
      (a : RequestAccounts) (c : CaptureAccounts) (s : Ledger W) (out : Requesting W)
      → ((w : W) → tokens here w < 2 ^ 64)
      → Live here s
      → handle_request_capture here.rt here.sb (request_here here a) c s ≡ ok out
      → Live here out.ledger
  captured-Live a c s out fits live h =
      let x =
        handle_request_capture_lem here.rt here.sb (request_here here a) s c out
          (fits out.ledger.world) h in
      accepted-Live a request_kind_capture no_handed_in (tokens here out.ledger.world) s x.0 out
        live (omega arith) x.4

  pub rerolled-Live :
      (a : RequestAccounts) (c : RerollAccounts) (index : ℕ) (s : Ledger W) (out : Requesting W)
      → ((w : W) → tokens here w < 2 ^ 64)
      → Live here s
      → tokens here s.world ≤ tokens here out.ledger.world
      → handle_request_reroll here.rt here.sb (request_here here a) c s index ≡ ok out
      → Live here out.ledger
  rerolled-Live a c index s out fits live le h =
      let x =
        handle_request_reroll_lem here.rt here.sb (request_here here a) s c index out (fits s.world)
          h in
      accepted-Live a request_kind_reroll index (tokens here s.world) s x.0 out live le x.2

  right_pool :
      (pool_key : Bytes) (max : ℕ) (s s' : Ledger W)
      → handle_merge_incoming here.vault_key pool_key s max ≡ ok s'
      → bytes_eq pool_key s.vault.pool ≡ true
  unfolding handle_merge_incoming
  right_pool pool_key max s s' h = constrained (bytes_eq pool_key s.vault.pool) _ h

  pub merged-Live :
      (pool_key : Bytes) (max : ℕ) (s s' : Ledger W)
      → Live here s
      → handle_merge_incoming here.vault_key pool_key s max ≡ ok s'
      → Live here s'
  merged-Live pool_key max s s' live h =
      let (z, runs, same_vault, same_world, (after, how, counts)) =
        handle_merge_incoming-Sound here.vault_key pool_key s here.config.ratio_base
          here.config.collection_size (tokens here s.world) max live.sound
          (right_pool pool_key max s s' h) in
      subst (Live here) (ok-injective (sym runs ∙ h)) (record {
        sound =
            subst
              (λ w.
                Sound z.vault z.pool here.vault_key here.config.ratio_base
                  here.config.collection_size (tokens here w))
              (sym same_world) after;
        queue =
            subst
              (λ (v : Vault).
                v.next_settle_seq + v.pending_captures + v.pending_rerolls ≡ v.next_seq)
              (sym same_vault) live.queue;
      })

  -- Opening writes two fields that no invariant reads.
  handle_open_vault-writes :
      (o : OpenVault) (s s' : Ledger W)
      → handle_open_vault here.rt o s ≡ ok s'
      → record s {
        vault = record s.vault { is_open = true; opened_at_slot = here.rt.slot s.world };
      }
        ≡ s'
  unfolding handle_open_vault
  handle_open_vault-writes o s s' h0 =
      let (u1, e1, h1) =
        >>=-eq-ok (check_vault here.rt s.world o.vault_key o.launch_config o.pool_key s.vault) _
          h0 in
      let (u2, e2, h2) =
        >>=-eq-ok (check_vault_tokens here.rt o.vault_key o.vault_tokens s.vault) _ h1 in
      let (u3, e3, h3) = >>=-eq-ok (constraint (bytes_eq o.collection s.vault.collection)) _ h2 in
      let (e, e4, h4) = >>=-eq-ok (econ platform_fee_recipient o.config) _ h3 in
      let (u5, h5) = require-eq-ok (not s.vault.is_open) vault_already_open _ h4 in
      let (u6, e6, h6) = >>=-eq-ok (check_collection here.rt s o) _ h5 in
      let (u7, e7, h7) = >>=-eq-ok (verify_dbc here.rt s.world o) _ h6 in
      let (view, e8, h8) = >>=-eq-ok (load s.pool o.vault_key) _ h7 in
      let (u9, h9) = require-eq-ok (capacity view == e.collection_size) invalid_pool_account _ h8 in
      let (u10, e10, h10) =
        >>=-eq-ok
          (check (record s.vault { is_open = true; opened_at_slot = here.rt.slot s.world })
            e.ratio_base e.collection_size view (here.rt.token_amount s.world o.vault_tokens))
          _ h9 in
      ok-injective h10

  -- A vault with the same counters.
  pub same_counters :
      (s : Ledger W) (v : Vault) (w : W)
      → Live here s
      → tokens here s.world ≤ tokens here w
      → v ≡ record s.vault {
        is_open = v.is_open;
        opened_at_slot = v.opened_at_slot;
        total_recommits = v.total_recommits;
      }
      → Live here (record s { vault = v; world = w })
  same_counters s v w live le same =
      let b =
        more_tokens s.vault s.pool here.vault_key here.config.ratio_base here.config.collection_size
          (tokens here s.world) (tokens here w) le live.sound in
      record {
        sound =
            subst
              (λ x.
                Sound x s.pool here.vault_key here.config.ratio_base here.config.collection_size
                  (tokens here w))
              (sym same)
              (record {
                view = b.view;
                loads = b.loads;
                valid = b.valid;
                holds = record {
                  solvent = b.holds.solvent;
                  accounted = b.holds.accounted;
                  sized = b.holds.sized;
                  minted = b.holds.minted;
                  minted_out = b.holds.minted_out;
                };
                ordered = b.ordered;
                seq_fits = b.seq_fits;
              });
        queue =
            subst
              (λ (x : Vault).
                x.next_settle_seq + x.pending_captures + x.pending_rerolls ≡ x.next_seq)
              (sym same) live.queue;
      }

  pub opened-Live :
      (o : OpenVault) (s s' : Ledger W)
      → Live here s
      → handle_open_vault here.rt o s ≡ ok s'
      → Live here s'
  opened-Live o s s' live h = subst (Live here) (handle_open_vault-writes o s s' h) (
      same_counters s (record s.vault { is_open = true; opened_at_slot = here.rt.slot s.world })
        s.world live (omega arith) refl)
