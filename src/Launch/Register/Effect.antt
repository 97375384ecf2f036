-- ===== src/Launch/Register/Effect.antt =====
-- programs/hybrid_launch/src/instructions/register_dbc.rs: what a registration that succeeds has verified.
use launchpad.Prelude.{
  ℕ, ◌*◌, ◌^◌, ◌≡◌, refl, ap, subst, Bool, true, false, not, ◌&&◌, some, ok, >>=-eq-ok,
  ok-injective, require-eq-ok, require_last, ok_or-eq-ok, not-true, ◌==◌, ==_iff, arith,
}
use launchpad.Bytes.{Bytes, bytes_eq}
use launchpad.Bytes.Laws.{bytes_eq_sound}
use launchpad.Launch.Constants.{total_supply_whole_tokens, is_approved_dbc_config}
use launchpad.Launch.Error.{
  fee_recipient_invalid, dbc_config_not_approved, dbc_account_invalid, dbc_creator_mismatch,
  dbc_already_graduated, dbc_config_rejected, dbc_mint_rejected, fee_not_tier,
}
use launchpad.Launch.Fees.{fee_for_ratio, is_exact_tier_fee}
use launchpad.Launch.Validation.{DerivedAmounts, validate}
use launchpad.Launch.Validation.Accepts.{Acceptable, amounts_of, validate_iff}
use launchpad.Launch.State.{LaunchConfig}
use launchpad.Launch.Dbc.{
  DbcConfig, DbcPool, load_config, load_pool, graduated, dbc_program_id, wrapped_sol_mint,
  dbc_token_type_spl, dbc_token_authority_immutable,
}
use launchpad.Launch.Chain.{LaunchRuntime, Mint, invoke, constraint}
use launchpad.Launch.Create.{is_none, check_platform}
use launchpad.Launch.Create.Effect.{is_none-none, Fixed}
use launchpad.Launch.Register.{
  RegisterDbcParams, RegisterDbcLaunch, launch_params, check_dbc_config, check_dbc_mint,
  check_dbc_pool, registered_config_of, read_pool, read_config, handle_register_dbc_launch,
}

-- A curve's configuration that mints a fixed supply of the token, and nothing else.
pub record Suitable (cfg : DbcConfig) (supply decimals : ℕ) (buffer : Bytes) : Type 0 where
  pub quote : cfg.quote_mint ≡ wrapped_sol_mint
  pub spl_token : cfg.token_type ≡ dbc_token_type_spl
  pub immutable : cfg.token_update_authority ≡ dbc_token_authority_immutable
  pub same_decimals : cfg.token_decimal ≡ decimals
  pub fixed_supply : cfg.fixed_token_supply ≡ true
  pub before : cfg.pre_migration_token_supply ≡ supply
  pub after : cfg.post_migration_token_supply ≡ supply
  pub leftover : cfg.leftover_receiver ≡ buffer

-- What a registration that succeeds has verified, and written.
pub record Registered {W : Type 0} (rt : LaunchRuntime W) (a : RegisterDbcLaunch)
    (params : RegisterDbcParams) (w : W) (cfg : LaunchConfig) (w' : W) : Type 0 where
  pub approved : is_approved_dbc_config a.dbc_config ≡ true
  pub pool : DbcPool
  pub pool_reads :
      load_pool dbc_program_id (rt.owner_of w a.dbc_pool) (rt.data_of w a.dbc_pool) ≡ some pool
  pub of_mint : pool.base_mint ≡ a.mint_key
  pub of_config : pool.config ≡ a.dbc_config
  pub by_creator : pool.creator ≡ a.creator
  pub before_migration : (pool.is_migrated ≡ false) × (graduated pool ≡ false)
  pub curve : DbcConfig
  pub curve_reads :
      load_config dbc_program_id (rt.owner_of w a.dbc_config) (rt.data_of w a.dbc_config)
      ≡ some curve
  pub acceptable : Acceptable (launch_params a.mint params curve)
  pub suitable :
      Suitable curve
        (total_supply_whole_tokens * 10 ^ a.mint.decimals)
        a.mint.decimals
        rt.buffer_authority
  pub fixed : Fixed a.mint (total_supply_whole_tokens * 10 ^ a.mint.decimals) a.mint.decimals
  pub fee : ℕ
  pub tier : fee_for_ratio params.ratio_whole_tokens ≡ some fee
  pub written :
      cfg
      ≡ registered_config_of rt a params pool curve
          (amounts_of (launch_params a.mint params curve) fee)
          w'

both : (a b : Bool) → (a && b) ≡ true → (a ≡ true) × (b ≡ true)
both a b h = ground arith

check_dbc_config-Suitable :
    (cfg : DbcConfig) (mint : Mint) (amounts : DerivedAmounts) (buffer : Bytes)
    → check_dbc_config cfg mint amounts buffer ≡ ok tt
    → Suitable cfg amounts.total_supply_base mint.decimals buffer
unfolding check_dbc_config
check_dbc_config-Suitable cfg mint amounts buffer h =
    let t =
      tests (bytes_eq cfg.quote_mint wrapped_sol_mint) (cfg.token_type == dbc_token_type_spl)
        (cfg.token_decimal == mint.decimals) cfg.fixed_token_supply
        (cfg.pre_migration_token_supply == amounts.total_supply_base)
        (cfg.post_migration_token_supply == amounts.total_supply_base)
        (cfg.token_update_authority == dbc_token_authority_immutable)
        (bytes_eq cfg.leftover_receiver buffer) (require_last _ dbc_config_rejected h) in
    record {
      quote = bytes_eq_sound cfg.quote_mint wrapped_sol_mint t.0;
      spl_token = (==_iff cfg.token_type dbc_token_type_spl).0 t.6;
      immutable = (==_iff cfg.token_update_authority dbc_token_authority_immutable).0 t.7;
      same_decimals = (==_iff cfg.token_decimal mint.decimals).0 t.1;
      fixed_supply = t.2;
      before = (==_iff cfg.pre_migration_token_supply amounts.total_supply_base).0 t.3;
      after = (==_iff cfg.post_migration_token_supply amounts.total_supply_base).0 t.4;
      leftover = bytes_eq_sound cfg.leftover_receiver buffer t.5;
    }
  where
    tests :
        (a b c d e f g h : Bool)
        → (((((((a && b) && c) && d) && e) && f) && g) && h) ≡ true
        → (a ≡ true)
          × (c ≡ true)
          × (d ≡ true)
          × (e ≡ true)
          × (f ≡ true)
          × (h ≡ true)
          × (b ≡ true)
          × (g ≡ true)
    tests a b c d e f g h q = ground arith

check_dbc_mint-Fixed :
    (mint : Mint) (amounts : DerivedAmounts)
    → check_dbc_mint mint amounts ≡ ok tt
    → Fixed mint amounts.total_supply_base mint.decimals
unfolding check_dbc_mint
check_dbc_mint-Fixed mint amounts h =
    let t =
      both (is_none mint.mint_authority && is_none mint.freeze_authority)
        (mint.supply == amounts.total_supply_base) (require_last _ dbc_mint_rejected h) in
    let s = both (is_none mint.mint_authority) (is_none mint.freeze_authority) t.0 in
    record {
      supplied = (==_iff mint.supply amounts.total_supply_base).0 t.1;
      scaled = refl;
      no_minter = is_none-none mint.mint_authority s.0;
      no_freezer = is_none-none mint.freeze_authority s.1;
    }

check_dbc_pool-tests :
    (pool : DbcPool) (a : RegisterDbcLaunch)
    → check_dbc_pool pool a ≡ ok tt
    → (pool.base_mint ≡ a.mint_key)
      × (pool.config ≡ a.dbc_config)
      × (pool.creator ≡ a.creator)
      × (pool.is_migrated ≡ false)
      × (graduated pool ≡ false)
unfolding check_dbc_pool
check_dbc_pool-tests pool a h0 =
    let (mint, h1) = require-eq-ok (bytes_eq pool.base_mint a.mint_key) dbc_account_invalid _ h0 in
    let (config, h2) = require-eq-ok (bytes_eq pool.config a.dbc_config) dbc_account_invalid _ h1 in
    let (u3, h3) = require-eq-ok (pool.pool_type == dbc_token_type_spl) dbc_account_invalid _ h2 in
    let (creator, h4) = require-eq-ok (bytes_eq pool.creator a.creator) dbc_creator_mismatch _ h3 in
    let t =
      both (not pool.is_migrated) (not (graduated pool))
        (require_last _ dbc_already_graduated h4) in
    (
      bytes_eq_sound pool.base_mint a.mint_key mint,
      bytes_eq_sound pool.config a.dbc_config config,
      bytes_eq_sound pool.creator a.creator creator,
      not-true pool.is_migrated t.0,
      not-true (graduated pool) t.1,
    )

module _ {W : Type 0} (rt : LaunchRuntime W) (a : RegisterDbcLaunch)
    (params : RegisterDbcParams) where
  read_pool-loads :
      (w : W) (acc : Bytes) (pool : DbcPool)
      → read_pool rt w acc ≡ ok pool
      → load_pool dbc_program_id (rt.owner_of w acc) (rt.data_of w acc) ≡ some pool
  unfolding read_pool
  read_pool-loads w acc pool h = ok_or-eq-ok _ dbc_account_invalid h

  read_config-loads :
      (w : W) (acc : Bytes) (cfg : DbcConfig)
      → read_config rt w acc ≡ ok cfg
      → load_config dbc_program_id (rt.owner_of w acc) (rt.data_of w acc) ≡ some cfg
  unfolding read_config
  read_config-loads w acc cfg h = ok_or-eq-ok _ dbc_account_invalid h

  -- A registration that succeeds has verified that the curve's configuration is approved by the
  -- platform, and that the pool is the curve's, for this mint and configuration, by this creator and
  -- before its migration. The parameters are acceptable, with the mint's decimals and the curve's
  -- threshold; the mint has the fixed supply and no authority, and the curve keeps that supply through
  -- its migration and sends what is left over to the program's buffer. What is written records the
  -- pool and the configuration, with the amounts and the tier's fee that follow from the parameters.
  pub handle_register_dbc_launch-Registered :
      (w : W) (out : LaunchConfig × W)
      → handle_register_dbc_launch rt a params w ≡ ok out
      → Registered rt a params w out.0 out.1
  unfolding handle_register_dbc_launch
  handle_register_dbc_launch-Registered w out h0 =
      let (u1, h1) = require-eq-ok _ fee_recipient_invalid _ h0 in
      let (u2, e2, h2) =
        >>=-eq-ok (constraint (bytes_eq a.token_program rt.spl_token_program_id)) _ h1 in
      let (u3, e3, h3) = >>=-eq-ok (check_platform rt w a.fee_recipient) _ h2 in
      let (approved, h4) =
        require-eq-ok (is_approved_dbc_config a.dbc_config) dbc_config_not_approved _ h3 in
      let (pool, e5, h5) = >>=-eq-ok (read_pool rt w a.dbc_pool) _ h4 in
      let (cfg, e6, h6) = >>=-eq-ok (read_config rt w a.dbc_config) _ h5 in
      let (u7, e7, h7) = >>=-eq-ok (check_dbc_pool pool a) _ h6 in
      let (amounts, e8, h8) = >>=-eq-ok (validate (launch_params a.mint params cfg)) _ h7 in
      let (u9, h9) = require-eq-ok _ dbc_config_rejected _ h8 in
      let (u10, e10, h10) =
        >>=-eq-ok (check_dbc_config cfg a.mint amounts rt.buffer_authority) _ h9 in
      let (u11, e11, h11) = >>=-eq-ok (check_dbc_mint a.mint amounts) _ h10 in
      let (u12, h12) = require-eq-ok _ dbc_config_rejected _ h11 in
      let (w1, e13, h13) =
        >>=-eq-ok
          (invoke (
            rt.create_associated_idempotent w a.creator a.buffer_tokens a.buffer_authority
              a.mint_key))
          _ h12 in
      let (exact, h14) =
        require-eq-ok (is_exact_tier_fee amounts.fee_lamports params.ratio_whole_tokens)
          fee_not_tier _ h13 in
      let v = (validate_iff (launch_params a.mint params cfg) amounts).0 e8 in
      let (f, tier, same) = v.1 in
      let p = check_dbc_pool-tests pool a e7 in
      let total = ap (λ (x : DerivedAmounts). x.total_supply_base) same in
      subst (λ (o : LaunchConfig × W). Registered rt a params w o.0 o.1) (ok-injective h14)
        (record {
          approved = approved;
          pool = pool;
          pool_reads = read_pool-loads w a.dbc_pool pool e5;
          of_mint = p.0;
          of_config = p.1;
          by_creator = p.2;
          before_migration = (p.3, p.4);
          curve = cfg;
          curve_reads = read_config-loads w a.dbc_config cfg e6;
          acceptable = v.0;
          suitable =
              subst (λ n. Suitable cfg n a.mint.decimals rt.buffer_authority) total
                (check_dbc_config-Suitable cfg a.mint amounts rt.buffer_authority e10);
          fixed =
              subst (λ n. Fixed a.mint n a.mint.decimals) total
                (check_dbc_mint-Fixed a.mint amounts e11);
          fee = f;
          tier = tier;
          written =
              ap (λ (x : DerivedAmounts). registered_config_of rt a params pool cfg x w1) same;
        })
