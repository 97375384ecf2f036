-- ===== src/Vault/Lifecycle.antt =====
-- programs/hybrid_vault/src: the life of a vault as a sequence of instructions. A step is one instruction
-- that succeeded, with any accounts for this vault, or something that happened outside the program.
pub mod Taking
pub mod Serving
pub mod Releasing
pub mod Quiet
pub mod Always
use launchpad.Prelude.{ℕ, ◌+◌, ◌≤◌, ◌≡◌, List, Option, ok, take}
use launchpad.Bytes.{Bytes}
use launchpad.Launch.State.{LaunchConfig}
use launchpad.Vault.State.{Vault, Request}
use launchpad.Vault.Chain.{Runtime}
use launchpad.Vault.Randomness.{CommitAccounts, Switchboard}
use launchpad.Vault.RandomnessIx.{Retried, handle_recommit_randomness}
use launchpad.Vault.Release.{Ledger, Unwrap, handle_unwrap}
use launchpad.Vault.Requests.Handlers.{
  RequestAccounts, CaptureAccounts, RerollAccounts, Requesting, handle_request_capture,
  handle_request_reroll,
}
use launchpad.Vault.Settle.{Settle, MintArgs, handle_settle}
use launchpad.Vault.Accounts.{Held}
use launchpad.Vault.Expire.{ExpireOne, ExpireShared, handle_expire}
use launchpad.Vault.Expire.Batch.{AccountInfo, OwnAccounts, handle_expire_batch}
use launchpad.Vault.Opening.{OpenVault, handle_open_vault}
use launchpad.Vault.Merging.{handle_merge_incoming}
use launchpad.Vault.Sound.{Sound}

-- The parts of the environment that no step changes: the other programs, this vault's key and token
-- account, and the launch's configuration with its key.
pub record Setting (W : Type 0) : Type 0 where
  pub rt : Runtime W
  pub sb : Switchboard W
  pub own : OwnAccounts W
  pub hashv : List Bytes → Bytes
  pub fuel : ℕ
  pub vault_key : Bytes
  pub vault_tokens : Bytes
  pub launch_config : Bytes
  pub config : LaunchConfig

module _ {W : Type 0} (here : Setting W) where
  abbrev pub tokens : W → ℕ
  tokens w = here.rt.token_amount w here.vault_tokens

  -- The accounts of an instruction on this vault.
  abbrev pub request_here : RequestAccounts → RequestAccounts
  request_here a = record a {
    vault_key = here.vault_key;
    vault_tokens = here.vault_tokens;
    launch_config = here.launch_config;
    config = here.config;
  }

  abbrev pub settle_here : Settle → Settle
  settle_here a = record a {
    vault_key = here.vault_key;
    vault_tokens = here.vault_tokens;
    launch_config = here.launch_config;
  }

  abbrev pub expire_here : ExpireShared → ExpireShared
  expire_here sh = record sh { vault_key = here.vault_key; vault_tokens = here.vault_tokens }

  abbrev pub unwrap_here : Unwrap → Unwrap
  unwrap_here a = record a {
    vault_key = here.vault_key;
    vault_tokens = here.vault_tokens;
    launch_config = here.launch_config;
  }

  -- Whatever else happens, a reveal included, moves no token out of the account of the vault, since only
  -- the vault signs for it.
  pub data Step : Ledger W → Ledger W → Type 0 where
    captured :
        {s s' : Ledger W} (a : RequestAccounts) (c : CaptureAccounts) (out : Requesting W)
        → handle_request_capture here.rt here.sb (request_here a) c s ≡ ok out
        → out.ledger ≡ s'
        → Step s s'
    rerolled :
        {s s' : Ledger W} (a : RequestAccounts) (c : RerollAccounts) (index : ℕ)
        (out : Requesting W)
        → handle_request_reroll here.rt here.sb (request_here a) c s index ≡ ok out
        → out.ledger ≡ s'
        → Step s s'
    settled :
        {s s' : Ledger W} (a : Settle) (kind : ℕ) (mint : Option MintArgs)
        → handle_settle here.rt here.hashv here.fuel (settle_here a) s kind mint ≡ ok s'
        → Step s s'
    expired :
        {s s' : Ledger W} (pool_key mint : Bytes) (held : Held) (sh : ExpireShared) (r : ExpireOne)
        → handle_expire here.rt here.launch_config pool_key mint held (expire_here sh) r s ≡ ok s'
        → Step s s'
    expired_batch :
        {s s' : Ledger W} (pool_key mint : Bytes) (sh : ExpireShared) (remaining : List AccountInfo)
        (count : ℕ)
        → handle_expire_batch here.rt here.own here.launch_config pool_key mint
            (expire_here sh)
            remaining
            s
            count
          ≡ ok s'
        → Step s s'
    released :
        {s s' : Ledger W} (a : Unwrap) (index : ℕ)
        → handle_unwrap here.rt (unwrap_here a) s index ≡ ok s'
        → Step s s'
    merged :
        {s s' : Ledger W} (pool_key : Bytes) (max : ℕ)
        → handle_merge_incoming here.vault_key pool_key s max ≡ ok s'
        → Step s s'
    recommitted :
        {s s' : Ledger W} (a : CommitAccounts) (r : Request) (out : Retried W)
        → handle_recommit_randomness here.rt here.sb a here.vault_key s.vault r s.world ≡ ok out
        → s' ≡ record s { vault = out.vault; world = out.world }
        → Step s s'
    opened : {s s' : Ledger W} (o : OpenVault) → handle_open_vault here.rt o s ≡ ok s' → Step s s'
    outside :
        {s s' : Ledger W} (w : W)
        → tokens s.world ≤ tokens w
        → s' ≡ record s { world = w }
        → Step s s'

  -- Any number of steps.
  pub data Reach : Ledger W → Ledger W → Type 0 where
    stay : {s : Ledger W} → Reach s s
    and_then : {s m s' : Ledger W} → Reach s m → Step m s' → Reach s s'

  -- The state is sound for the tokens that the vault has, and the pending requests are those from the
  -- queue's head to its end.
  pub record Live (s : Ledger W) : Type 0 where
    pub sound :
        Sound s.vault s.pool here.vault_key here.config.ratio_base here.config.collection_size
          (tokens s.world)
    pub queue :
        s.vault.next_settle_seq + s.vault.pending_captures + s.vault.pending_rerolls
        ≡ s.vault.next_seq
