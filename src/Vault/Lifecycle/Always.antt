-- ===== src/Vault/Lifecycle/Always.antt =====
-- programs/hybrid_vault/src: what holds in every state that instructions can reach.
use launchpad.Prelude.{
  ℕ, ◌+◌, ◌^◌, ◌<◌, ◌≡◌, refl, sym, ap, subst, ◌∙◌, length, replicate, ok, take, >>=-eq-ok,
  ok-injective, arith,
}
use launchpad.Bytes.{Bytes}
use launchpad.Bytes.Laws.{AreBytes}
use launchpad.Vault.State.{Vault, Request}
use launchpad.Vault.Config.{ExitView}
use launchpad.Vault.Pool.{pool_account_size}
use launchpad.Vault.Chain.{Runtime}
use launchpad.Vault.Release.{Ledger, exit_view}
use launchpad.Vault.Randomness.{CommitAccounts, Switchboard, commit_for_request}
use launchpad.Vault.RandomnessIx.{
  Retried, recommit_constraints, check_retry, record_commit, handle_recommit_randomness,
}
use launchpad.Vault.RandomnessIx.Retry.{record_commit-Recommitted}
use launchpad.Vault.Setup.{
  InitVault, InitVaultParams, handle_init_vault, SetUp, handle_init_vault_lem,
}
use launchpad.Vault.Sound.{Sound}
use launchpad.Vault.Lifecycle.{
  Setting, tokens, settle_here, request_here, Live, Step, captured, rerolled, settled, expired,
  expired_batch, released, merged, recommitted, opened, outside, Reach, stay, and_then,
}
use launchpad.Vault.Lifecycle.Taking.{
  captured-Live, rerolled-Live, merged-Live, opened-Live, same_counters,
}
use launchpad.Vault.Lifecycle.Quiet.{
  Quiet, handle_settle-amount, handle_request_reroll-amount, handle_recommit_randomness-amount,
}
use launchpad.Vault.Lifecycle.Serving.{settled-Live, expired_one-Live, expired_batch-Live}
use launchpad.Vault.Lifecycle.Releasing.{released-Live}

-- A new commit writes one counter of the vault.
handle_recommit_randomness-vault :
    {W : Type 0} (rt : Runtime W) (sb : Switchboard W) (a : CommitAccounts) (key : Bytes)
    (v : Vault) (r : Request) (w : W) (out : Retried W)
    → handle_recommit_randomness rt sb a key v r w ≡ ok out
    → out.vault ≡ record v { total_recommits = v.total_recommits + 1 }
unfolding handle_recommit_randomness
handle_recommit_randomness-vault rt sb a key v r w out h0 =
    let (u1, e1, h1) = >>=-eq-ok (recommit_constraints rt sb a key r) _ h0 in
    let (u2, e2, h2) = >>=-eq-ok (check_retry rt sb a r w) _ h1 in
    let (c, e3, h3) =
      >>=-eq-ok (commit_for_request rt sb w a v.sb_queue key r.seq (take r.commits r.oracles)) _
        h2 in
    let (x, e4, h4) = >>=-eq-ok (record_commit v r (rt.slot w) c.0 a.oracle) _ h3 in
    sym (ap (λ (o : Retried _). o.vault) (ok-injective h4))
    ∙ (record_commit-Recommitted v r (rt.slot w) c.0 a.oracle x e4).same_vault

-- A vault in which only that counter is another.
recounted :
    (v v' : Vault) (k : ℕ)
    → v' ≡ record v { total_recommits = k }
    → v' ≡ record v {
      is_open = v'.is_open;
      opened_at_slot = v'.opened_at_slot;
      total_recommits = v'.total_recommits;
    }
recounted v v' k e =
    subst
      (λ (x : Vault). x ≡ record v {
        is_open = x.is_open;
        opened_at_slot = x.opened_at_slot;
        total_recommits = x.total_recommits;
      })
      (sym e) refl

module _ {W : Type 0} (here : Setting W) (fits : (w : W) → tokens here w < 2 ^ 64)
    (frozen : (w : W) (e : ExitView)
      → exit_view here.rt w here.launch_config ≡ ok e
      → e ≡ record {
        ratio_base = here.config.ratio_base;
        collection_size = here.config.collection_size;
      })
    (quiet : Quiet here.rt here.sb here.vault_tokens) where
  -- Every step keeps a vault live.
  pub Step-Live : {s s' : Ledger W} → Step here s s' → Live here s → Live here s'
  Step-Live {s} {s'} (captured a c out h e) live =
      subst (Live here) e (captured-Live here a c s out fits live h)
  Step-Live {s} {s'} (rerolled a c index out h e) live = subst (Live here) e (
      rerolled-Live here a c index s out fits live
        (handle_request_reroll-amount here.rt here.sb here.vault_tokens quiet (request_here here a)
          c s index out h)
        h)
  Step-Live {s} {s'} (settled a kind mint h) live =
      settled-Live here fits frozen a kind mint s s' live
        (handle_settle-amount here.rt here.sb here.vault_tokens quiet here.hashv here.fuel
          (settle_here here a) s kind mint s' h)
        h
  Step-Live {s} {s'} (expired pool_key mint held sh r h) live =
      expired_one-Live here fits frozen pool_key mint held sh r s s' live h
  Step-Live {s} {s'} (expired_batch pool_key mint sh remaining count h) live =
      expired_batch-Live here fits frozen pool_key mint sh remaining count s s' live h
  Step-Live {s} {s'} (released a index h) live = released-Live here fits frozen a index s s' live h
  Step-Live {s} {s'} (merged pool_key max h) live = merged-Live here pool_key max s s' live h
  Step-Live {s} {s'} (recommitted a r out h e) live = subst (Live here) (sym e) (
      same_counters here s out.vault out.world live
        (handle_recommit_randomness-amount here.rt here.sb here.vault_tokens quiet a here.vault_key
          s.vault r s.world out h)
        (recounted s.vault out.vault (s.vault.total_recommits + 1) (
          handle_recommit_randomness-vault here.rt here.sb a here.vault_key s.vault r s.world out
            h)))
  Step-Live {s} {s'} (opened o h) live = opened-Live here o s s' live h
  Step-Live {s} {s'} (outside w le e) live =
      subst (Live here) (sym e) (same_counters here s s.vault w live le refl)

  pub Reach-Live : {s s' : Ledger W} → Reach here s s' → Live here s → Live here s'
  Reach-Live stay live = live
  Reach-Live (and_then before last) live = Step-Live last (Reach-Live before live)

  fresh-Live :
      (a : InitVault) (params : InitVaultParams) (s : Ledger W)
      → a.vault_key ≡ here.vault_key
      → a.config ≡ here.config
      → SetUp a params s
      → Live here s
  fresh-Live a params s key config x = record {
    sound =
        subst
          (λ k.
            Sound s.vault s.pool k here.config.ratio_base here.config.collection_size
              (tokens here s.world))
          key
          (subst
            (λ c.
              Sound s.vault s.pool a.vault_key c.ratio_base c.collection_size (tokens here s.world))
            config (x.sound (tokens here s.world)));
    queue = omega (arith, x.none_asked, x.none_pending);
  }

  -- From the moment a vault is set up, and after any number of instructions of any kind, with any
  -- accounts, and of events outside the program, the vault is live: its pool account loads as a valid
  -- pool; its tokens cover every asset out and every pending request; every index of the collection is
  -- in the pool, waiting, handed in or out, by count; and the pending requests are exactly those from the
  -- queue's head to its end. This asks that every amount of tokens fits 64 bits, that the launch's account
  -- always reads as its configuration, that events outside the program take no tokens out of the vault's
  -- account, and that the transfer and the creation of an asset, a transfer of lamports and a commit of
  -- randomness do not either.
  pub handle_init_vault-Live :
      (a : InitVault) (params : InitVaultParams) (w : W) (s s' : Ledger W)
      → a.vault_key ≡ here.vault_key
      → a.config ≡ here.config
      → length a.vault_key ≡ 32
      → AreBytes a.vault_key
      → handle_init_vault here.rt a params
          (replicate (pool_account_size a.config.collection_size) 0)
          w
        ≡ ok s
      → Reach here s s'
      → Live here s'
  handle_init_vault-Live a params w s s' key config key_len key_bytes h path = Reach-Live path (
      fresh-Live a params s key config
        (handle_init_vault_lem here.rt a params w s key_len key_bytes h))
