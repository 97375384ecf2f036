-- ===== src/Vault/Opening/Graduated.antt =====
-- programs/hybrid_vault/src/graduation.rs and instructions/open_vault.rs: what an opening has checked.
use launchpad.Prelude.{
  ℕ, ◌≡◌, refl, subst, ap, sym, ◌∙◌, Bool, true, false, not, ◌&&◌, ◌||◌, Option, none, some, ok,
  require, ok_or, ◌>>◌, >>=-eq-ok, ◌==◌, ==_iff, length, take, get_or, arith, if◌then◌else◌,
}
use launchpad.Bytes.{Bytes, bytes_eq, slice}
use launchpad.Bytes.Laws.{bytes_eq_sound}
use launchpad.Launch.Dbc.{
  dbc_program_id, DbcPool, load_pool, parse_pool, graduated, dbc_pool_discriminator,
}
use launchpad.Launch.Constants.{platform_fee_recipient}
use launchpad.Vault.Accounts.{check_vault, check_vault_tokens}
use launchpad.Vault.Error.{
  Outcome, VaultError, graduation_check_unavailable, graduation_not_verified, vault_already_open,
}
use launchpad.Vault.Config.{econ}
use launchpad.Vault.Chain.{Runtime, constraint}
use launchpad.Vault.Release.{Ledger}
use launchpad.Vault.Opening.{
  OpenVault, default_key, verify_dbc, check_collection, handle_open_vault,
}

-- The proof account is the recorded pool of the curve's program, and its bytes say that it has migrated.
pub record Graduation {W : Type 0} (rt : Runtime W) (w : W) (a : OpenVault) : Type 0 where
  pub recorded : bytes_eq a.config.dbc_pool default_key ≡ false
  pub same_account : a.graduation_proof ≡ a.config.dbc_pool
  pub owner : rt.owner_of w a.graduation_proof ≡ dbc_program_id
  pub size : length (rt.data_of w a.graduation_proof) ≡ 424
  pub tag : take 8 (rt.data_of w a.graduation_proof) ≡ dbc_pool_discriminator
  pub mint : slice (rt.data_of w a.graduation_proof) 136 32 ≡ a.config.mint
  pub config : slice (rt.data_of w a.graduation_proof) 72 32 ≡ a.config.dbc_config
  pub migrated : get_or (rt.data_of w a.graduation_proof) 305 0 ≡ 1
  pub progress : get_or (rt.data_of w a.graduation_proof) 308 0 ≡ 3

pool_tests :
    (owner_ok size_ok tag_ok : Bool) (x p : DbcPool)
    → (if not owner_ok then none else if not size_ok || not tag_ok then none else some x) ≡ some p
    → (owner_ok ≡ true) × (size_ok ≡ true) × (tag_ok ≡ true) × (x ≡ p)
pool_tests true true true x p h = ground arith
pool_tests false size_ok tag_ok x p h = cc
pool_tests true false tag_ok x p h = cc
pool_tests true true false x p h = cc

-- The pool that the bytes of an account hold.
abbrev pool_at : Bytes → DbcPool
pool_at d = record {
  config = slice d 72 32;
  creator = slice d 104 32;
  base_mint = slice d 136 32;
  base_vault = slice d 168 32;
  pool_type = get_or d 304 0;
  is_migrated = get_or d 305 0 == 1;
  migration_progress = get_or d 308 0;
}

load_pool-ok :
    (id owner d : Bytes) (p : DbcPool)
    → load_pool id owner d ≡ some p
    → (bytes_eq owner id ≡ true)
      × ((length d == 424) ≡ true)
      × (bytes_eq (take 8 d) dbc_pool_discriminator ≡ true)
      × (pool_at d ≡ p)
unfolding load_pool parse_pool
load_pool-ok id owner d p h =
    pool_tests (bytes_eq owner id) (length d == 424) (bytes_eq (take 8 d) dbc_pool_discriminator)
      (pool_at d) p h

pool_guards :
    (mint_ok config_ok migrated : Bool)
    → (require mint_ok graduation_not_verified
        >> (require config_ok graduation_not_verified >> require migrated graduation_not_verified))
      ≡ ok tt
    → (mint_ok ≡ true) × (config_ok ≡ true) × (migrated ≡ true)
pool_guards mint_ok config_ok migrated h = ground arith

graduated-ok :
    (d : Bytes) → graduated (pool_at d) ≡ true → (get_or d 305 0 ≡ 1) × (get_or d 308 0 ≡ 3)
unfolding graduated
graduated-ok d h = both (get_or d 305 0) (get_or d 308 0) h
  where
    both : (a b : ℕ) → ((a == 1) && (b == 3)) ≡ true → (a ≡ 1) × (b ≡ 3)
    both a b h = ground arith

ok_or-some : {A : Type 0} (o : Option A) (e : VaultError) (x : A) → ok_or o e ≡ ok x → o ≡ some x
ok_or-some none e x h = cc
ok_or-some (some y) e x h = cc

key_guards :
    (recorded same : Bool) (later : Outcome (Unit {0}))
    → (require (not recorded) graduation_check_unavailable
        >> (require same graduation_not_verified >> later))
      ≡ ok tt
    → (recorded ≡ false) × (same ≡ true) × (later ≡ ok tt)
key_guards recorded same later h = ground arith

verify_dbc-Graduation :
    {W : Type 0} (rt : Runtime W) (w : W) (a : OpenVault)
    → verify_dbc rt w a ≡ ok tt
    → Graduation rt w a
unfolding verify_dbc
verify_dbc-Graduation rt w a h =
    let (recorded, same, h1) =
      key_guards (bytes_eq a.config.dbc_pool default_key)
        (bytes_eq a.graduation_proof a.config.dbc_pool) _ h in
    let (pool, e2, h2) =
      >>=-eq-ok
        (ok_or
          (load_pool dbc_program_id (rt.owner_of w a.graduation_proof)
            (rt.data_of w a.graduation_proof))
          graduation_not_verified)
        _ h1 in
    let t =
      load_pool-ok dbc_program_id (rt.owner_of w a.graduation_proof)
        (rt.data_of w a.graduation_proof) pool (ok_or-some _ graduation_not_verified pool e2) in
    let g =
      pool_guards (bytes_eq pool.base_mint a.config.mint) (bytes_eq pool.config a.config.dbc_config)
        (graduated pool) h2 in
    let m =
      graduated-ok (rt.data_of w a.graduation_proof)
        (subst (λ (p : DbcPool). graduated p ≡ true) (sym t.3) g.2) in
    record {
      recorded = recorded;
      same_account = bytes_eq_sound a.graduation_proof a.config.dbc_pool same;
      owner = bytes_eq_sound (rt.owner_of w a.graduation_proof) dbc_program_id t.0;
      size = (==_iff (length (rt.data_of w a.graduation_proof)) 424).0 t.1;
      tag = bytes_eq_sound (take 8 (rt.data_of w a.graduation_proof)) dbc_pool_discriminator t.2;
      mint =
          ap (λ (p : DbcPool). p.base_mint) t.3 ∙ bytes_eq_sound pool.base_mint a.config.mint g.0;
      config =
          ap (λ (p : DbcPool). p.config) t.3 ∙ bytes_eq_sound pool.config a.config.dbc_config g.1;
      migrated = m.0;
      progress = m.1;
    }

closed_guard :
    (b : Bool)
    → ◌≡◌ {A = Outcome (Unit {0})} (require (not b) vault_already_open) (ok tt)
    → b ≡ false
closed_guard true h = cc
closed_guard false h = refl

-- A vault is opened only if it was closed and the launch has graduated: the proof is the curve's pool
-- recorded in the configuration, owned by the curve's program, with the mint and configuration of the
-- launch, migrated to its last step. A launch with no recorded pool never opens.
pub handle_open_vault_lem :
    {W : Type 0} (rt : Runtime W) (a : OpenVault) (s s' : Ledger W)
    → handle_open_vault rt a s ≡ ok s'
    → (s.vault.is_open ≡ false) × Graduation rt s.world a
unfolding handle_open_vault
handle_open_vault_lem rt a s s' h0 =
    let (u1, e1, h1) =
      >>=-eq-ok (check_vault rt s.world a.vault_key a.launch_config a.pool_key s.vault) _ h0 in
    let (u2, e2, h2) = >>=-eq-ok (check_vault_tokens rt a.vault_key a.vault_tokens s.vault) _ h1 in
    let (u3, e3, h3) = >>=-eq-ok (constraint (bytes_eq a.collection s.vault.collection)) _ h2 in
    let (e, e4, h4) = >>=-eq-ok (econ platform_fee_recipient a.config) _ h3 in
    let (u5, e5, h5) = >>=-eq-ok (require (not s.vault.is_open) vault_already_open) _ h4 in
    let (u6, e6, h6) = >>=-eq-ok (check_collection rt s a) _ h5 in
    let (u7, e7, h7) = >>=-eq-ok (verify_dbc rt s.world a) _ h6 in
    (closed_guard s.vault.is_open e5, verify_dbc-Graduation rt s.world a e7)
