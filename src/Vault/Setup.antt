-- ===== src/Vault/Setup.antt =====
-- programs/hybrid_vault/src/instructions/init_vault.rs: the binding of a vault to a launch.
use launchpad.Prelude.{
  ℕ, ◌^◌, ◌≤◌, ◌≡◌, refl, sym, ap, subst, ◌∙◌, Bool, true, false, not, ok, require, ◌>>=◌, ◌>>◌,
  >>=-eq-ok, ok-injective, require-eq-ok, leb, length, length-tabulate, replicate, All, arith,
}
use launchpad.Bytes.{Bytes, bytes_eq}
use launchpad.Bytes.Laws.{AreBytes}
use launchpad.Launch.State.{LaunchConfig}
use launchpad.Launch.Constants.{platform_fee_recipient}
use launchpad.Vault.Error.{
  Outcome, not_creator, metadata_too_long, uri_not_content_addressed, wrong_queue,
}
use launchpad.Vault.State.{Vault}
use launchpad.Vault.Config.{ExitView, econ}
use launchpad.Vault.Config.Exit.{econ-ok}
use launchpad.Vault.Pool.{PoolView, pool_account_size, init, pool_len, incoming_len}
use launchpad.Vault.Pool.View.{pool_len-drawable, incoming_len-incoming}
use launchpad.Vault.Pool.Init.{Fresh, init_lem}
use launchpad.Vault.Merkle.{max_uri_len, is_content_addressed}
use launchpad.Vault.Chain.{Runtime, constraint}
use launchpad.Vault.Assets.{drain_prefunded_pda, create_collection}
use launchpad.Vault.Release.{Ledger}
use launchpad.Vault.Sound.{Sound}

abbrev pub max_name_len : ℕ
max_name_len = 32

abbrev pub vault_version : ℕ
vault_version = 2

pub record InitVaultParams : Type 0 where
  pub trait_root : Bytes
  pub trait_schema_hash : Bytes
  pub collection_name : Bytes
  pub collection_uri : Bytes
  pub sb_queue : Bytes

-- The keys of the accounts, with the deserialised configuration, and the bumps that Anchor found.
pub record InitVault : Type 0 where
  pub creator : Bytes
  pub launch_config : Bytes
  pub config : LaunchConfig
  pub mint : Bytes
  pub vault_key : Bytes
  pub vault_authority : Bytes
  pub vault_tokens : Bytes
  pub pool_key : Bytes
  pub collection : Bytes
  pub mpl_core_program : Bytes
  pub vault_bump : ℕ
  pub authority_bump : ℕ
  pub randomness_authority_bump : ℕ
  pub vault_tokens_bump : ℕ
  pub collection_bump : ℕ

-- The account that Anchor creates is zeroed: a field that the handler does not set is zero.
unfoldable pub new_vault : InitVault → InitVaultParams → Vault
new_vault a params = record {
  version = vault_version;
  bump = a.vault_bump;
  authority_bump = a.authority_bump;
  randomness_authority_bump = a.randomness_authority_bump;
  vault_tokens_bump = a.vault_tokens_bump;
  collection_bump = a.collection_bump;
  is_open = false;
  launch_config = a.launch_config;
  mint = a.config.mint;
  creator = a.config.creator;
  collection = a.collection;
  pool = a.pool_key;
  vault_tokens = a.vault_tokens;
  sb_queue = params.sb_queue;
  trait_root = params.trait_root;
  trait_schema_hash = params.trait_schema_hash;
  minted_count = 0;
  assets_outside = 0;
  pending_captures = 0;
  pending_rerolls = 0;
  next_seq = 0;
  next_settle_seq = 0;
  opened_at_slot = 0;
  total_fee_lamports = 0;
  total_captures = 0;
  total_rerolls = 0;
  total_unwraps = 0;
  total_recommits = 0;
  total_expired = 0;
}

unfoldable pub check_params : InitVaultParams → Outcome (Unit {0})
check_params params = do
  require (leb (length params.collection_name) max_name_len) metadata_too_long
  require (leb (length params.collection_uri) max_uri_len) metadata_too_long
  require (is_content_addressed params.collection_uri) uri_not_content_addressed
  require (not (bytes_eq params.sb_queue (replicate 32 0))) wrong_queue

module _ {W : Type 0} (rt : Runtime W) where
  unfoldable pub init_vault_constraints : InitVault → W → Outcome (Unit {0})
  init_vault_constraints a w = do
    constraint (bytes_eq a.config.mint a.mint)
    require (bytes_eq a.config.creator a.creator) not_creator
    constraint (bytes_eq (rt.owner_of w a.pool_key) rt.program_id)
    constraint (bytes_eq a.mpl_core_program rt.mpl_core_id)

  -- `pool` is the data of the pool account, and `w` the world after Anchor has created the vault and
  -- its token account.
  unfoldable pub handle_init_vault : InitVault → InitVaultParams → Bytes → W → Outcome (Ledger W)
  handle_init_vault a params pool w = do
    init_vault_constraints a w
    check_params params
    e ← econ platform_fee_recipient a.config
    d ← init pool a.vault_key e.collection_size
    w1 ← drain_prefunded_pda rt w a.collection a.vault_authority
    w2 ←
        create_collection rt w1 a.mpl_core_program a.collection a.vault_authority a.creator
          params.collection_name params.collection_uri
    ok (record { vault = new_vault a params; pool = d; world = w2 })

-- A fresh pool and a new vault are sound, for every amount of tokens.
fresh-Sound :
    (a : InitVault) (params : InitVaultParams) (key d : Bytes) (p : PoolView) (ratio n tokens : ℕ)
    → Fresh key n d p
    → Sound (new_vault a params) d key ratio n tokens
unfolding new_vault
fresh-Sound a params key d p ratio n tokens f =
    let drawn : pool_len p ≡ n =
      pool_len-drawable p ∙ ap length f.drawn ∙ length-tabulate (λ (i : ℕ). i) n in
    let waits : incoming_len p ≡ 0 = incoming_len-incoming p ∙ ap length f.waiting in
    record {
      view = p;
      loads = f.loads;
      valid = f.valid;
      holds = record {
        solvent = omega arith;
        accounted = omega (arith, drawn, waits);
        sized = f.cap_is;
        minted = omega arith;
        minted_out = omega arith;
      };
      ordered = subst (All (λ (e : ℕ × ℕ). e.1 ≤ 0)) (sym f.waiting) tt;
      seq_fits = omega arith;
    }

-- What `init_vault` has set up.
pub record SetUp {W : Type 0} (a : InitVault) (params : InitVaultParams) (s : Ledger W)
    : Type 0 where
  pub pool_view : PoolView
  pub fresh : Fresh a.vault_key a.config.collection_size s.pool pool_view
  pub sound :
      (tokens : ℕ)
      → Sound s.vault s.pool a.vault_key a.config.ratio_base a.config.collection_size tokens
  pub shut : s.vault.is_open ≡ false
  pub bound : (s.vault.launch_config ≡ a.launch_config) × (s.vault.pool ≡ a.pool_key)
  pub made_by : bytes_eq s.vault.creator a.creator ≡ true
  pub queue_set : bytes_eq s.vault.sb_queue (replicate 32 0) ≡ false
  pub none_asked : (s.vault.next_seq ≡ 0) × (s.vault.next_settle_seq ≡ 0)
  pub none_pending : (s.vault.pending_captures ≡ 0) × (s.vault.pending_rerolls ≡ 0)

check_params-queue :
    (params : InitVaultParams)
    → check_params params ≡ ok tt
    → bytes_eq params.sb_queue (replicate 32 0) ≡ false
unfolding check_params
check_params-queue params h = ground arith

in_u31 : (n : ℕ) → n ≤ 10_000 → n ≤ 2 ^ 31
in_u31 n h = omega arith

-- On a pool account of zeros, an `init_vault` that succeeds has set up a vault whose state is sound,
-- with whatever tokens its account holds: the pool holds every index of the collection, in order, none
-- waits, and none is minted. The vault is bound to this configuration and to this pool, was made by the
-- creator of the launch, has a queue, and is shut; no request has been made. What the calls of other
-- programs do plays no part.
pub handle_init_vault_lem :
    {W : Type 0} (rt : Runtime W) (a : InitVault) (params : InitVaultParams) (w : W) (s : Ledger W)
    → length a.vault_key ≡ 32
    → AreBytes a.vault_key
    → handle_init_vault rt a params (replicate (pool_account_size a.config.collection_size) 0) w
      ≡ ok s
    → SetUp a params s
unfolding handle_init_vault init_vault_constraints new_vault fresh-Sound
handle_init_vault_lem rt a params w s key_len key_bytes h0 =
    let zeros = replicate (pool_account_size a.config.collection_size) 0 in
    let (u1, e1, h1) = >>=-eq-ok (init_vault_constraints rt a w) _ h0 in
    let (u2, e2, h2) = >>=-eq-ok (check_params params) _ h1 in
    let (e, e3, h3) = >>=-eq-ok (econ platform_fee_recipient a.config) _ h2 in
    let (d, e4, h4) = >>=-eq-ok (init zeros a.vault_key e.collection_size) _ h3 in
    let (w1, e5, h5) = >>=-eq-ok (drain_prefunded_pda rt w a.collection a.vault_authority) _ h4 in
    let (w2, e6, h6) =
      >>=-eq-ok
        (create_collection rt w1 a.mpl_core_program a.collection a.vault_authority a.creator
          params.collection_name params.collection_uri)
        _ h5 in
    let k = econ-ok platform_fee_recipient a.config e e3 in
    let size : e.collection_size ≡ a.config.collection_size =
      ap (λ (x : ExitView). x.collection_size) k.3 in
    let (d', p, runs, f) =
      init_lem a.vault_key a.config.collection_size key_len key_bytes k.1
        (in_u31 a.config.collection_size k.2) in
    let same : d' ≡ d = ok-injective (sym runs ∙ sym (ap (init zeros a.vault_key) size) ∙ e4) in
    let (c1, g1) = constraint-eq-ok (bytes_eq a.config.mint a.mint) _ e1 in
    let (c2, g2) = require-eq-ok (bytes_eq a.config.creator a.creator) not_creator _ g1 in
    let f' : Fresh a.vault_key a.config.collection_size d p =
      subst (λ x. Fresh a.vault_key a.config.collection_size x p) same f in
    subst (SetUp a params) (ok-injective h6) (record {
      pool_view = p;
      fresh = f';
      sound = λ tokens.
          fresh-Sound a params a.vault_key d p a.config.ratio_base a.config.collection_size tokens
            f';
      shut = refl;
      bound = (refl, refl);
      made_by = c2;
      queue_set = check_params-queue params e2;
      none_asked = (refl, refl);
      none_pending = (refl, refl);
    })
  where
    constraint-eq-ok :
        (b : Bool) (k : Outcome (Unit {0})) → (constraint b >> k) ≡ ok tt → (b ≡ true) × (k ≡ ok tt)
    constraint-eq-ok b k h = ground arith
