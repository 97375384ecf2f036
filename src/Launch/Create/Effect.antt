-- ===== src/Launch/Create/Effect.antt =====
-- programs/hybrid_launch/src/instructions/launch.rs: what a launch that succeeds has made.
use launchpad.Prelude.{
  ℕ, ◌*◌, ◌^◌, ◌≡◌, refl, ap, subst, Bool, true, ◌&&◌, Option, none, some, ok, >>=-eq-ok,
  ok-injective, require-eq-ok, require_last, unwrap_option-eq-ok, ◌==◌, arith,
}
use launchpad.Bytes.{Bytes, bytes_eq}
use launchpad.Bytes.Laws.{bytes_eq_sound}
use launchpad.Launch.Constants.{total_supply_whole_tokens}
use launchpad.Launch.Error.{
  fee_recipient_invalid, invalid_launch_destination, post_launch_check_failed, fee_not_tier,
}
use launchpad.Launch.Fees.{fee_for_ratio, is_exact_tier_fee}
use launchpad.Launch.Validation.{LaunchParams, DerivedAmounts, validate}
use launchpad.Launch.Validation.Accepts.{Acceptable, amounts_of, validate_iff}
use launchpad.Launch.State.{LaunchConfig}
use launchpad.Launch.Chain.{LaunchRuntime, Mint, TokenAccount, invoke, constraint}
use launchpad.Launch.Create.{
  Launch, is_none, check_platform, check_mint, check_destination, mint_supply, launch_config_of,
  handle_launch,
}

pub is_none-none : {A : Type 0} (o : Option A) → is_none o ≡ true → o ≡ none
is_none-none none h = refl
is_none-none (some a) h = cc

-- A mint of a fixed supply that nobody can add to, or freeze.
pub record Fixed (m : Mint) (supply decimals : ℕ) : Type 0 where
  pub supplied : m.supply ≡ supply
  pub scaled : m.decimals ≡ decimals
  pub no_minter : m.mint_authority ≡ none
  pub no_freezer : m.freeze_authority ≡ none

-- A token account that holds an amount for an owner, and for nobody else.
pub record HeldBy (d : TokenAccount) (owner mint : Bytes) (amount : ℕ) : Type 0 where
  pub owned : d.owner ≡ owner
  pub of_mint : d.mint ≡ mint
  pub held : d.amount ≡ amount
  pub no_delegate : d.delegate ≡ none
  pub no_closer : d.close_authority ≡ none

-- What a launch that succeeds leaves.
pub record Launched {W : Type 0} (rt : LaunchRuntime W) (a : Launch) (params : LaunchParams)
    (cfg : LaunchConfig) (w' : W) : Type 0 where
  pub acceptable : Acceptable params
  pub fee : ℕ
  pub tier : fee_for_ratio params.ratio_whole_tokens ≡ some fee
  pub written : cfg ≡ launch_config_of rt a params (amounts_of params fee) w'
  pub mint : Mint
  pub mint_reads : rt.parse_mint (rt.data_of w' a.mint) ≡ some mint
  pub fixed : Fixed mint (total_supply_whole_tokens * 10 ^ params.decimals) params.decimals
  pub destination : TokenAccount
  pub destination_reads :
      rt.parse_token_account (rt.data_of w' a.launch_destination) ≡ some destination
  pub whole_supply :
      HeldBy destination a.launch_vault a.mint (total_supply_whole_tokens * 10 ^ params.decimals)

mint_tests :
    (m : Mint) (supply decimals : ℕ)
    → ((((m.supply == supply) && (m.decimals == decimals)) && is_none m.mint_authority)
        && is_none m.freeze_authority)
      ≡ true
    → Fixed m supply decimals
mint_tests m supply decimals h =
    let t =
      parts (m.supply == supply) (m.decimals == decimals) (is_none m.mint_authority)
        (is_none m.freeze_authority) h in
    record {
      supplied = ground arith;
      scaled = ground arith;
      no_minter = is_none-none m.mint_authority t.2;
      no_freezer = is_none-none m.freeze_authority t.3;
    }
  where
    parts :
        (a b c d : Bool)
        → (((a && b) && c) && d) ≡ true
        → (a ≡ true) × (b ≡ true) × (c ≡ true) × (d ≡ true)
    parts a b c d h = ground arith

held_tests :
    (d : TokenAccount) (owner mint : Bytes) (amount : ℕ)
    → ((((bytes_eq d.owner owner && bytes_eq d.mint mint) && (d.amount == amount))
          && is_none d.delegate)
        && is_none d.close_authority)
      ≡ true
    → HeldBy d owner mint amount
held_tests d owner mint amount h =
    let t =
      parts (bytes_eq d.owner owner) (bytes_eq d.mint mint) (d.amount == amount)
        (is_none d.delegate) (is_none d.close_authority) h in
    record {
      owned = bytes_eq_sound d.owner owner t.0;
      of_mint = bytes_eq_sound d.mint mint t.1;
      held = ground arith;
      no_delegate = is_none-none d.delegate t.3;
      no_closer = is_none-none d.close_authority t.4;
    }
  where
    parts :
        (a b c d e : Bool)
        → ((((a && b) && c) && d) && e) ≡ true
        → (a ≡ true) × (b ≡ true) × (c ≡ true) × (d ≡ true) × (e ≡ true)
    parts a b c d e h = ground arith

module _ {W : Type 0} (rt : LaunchRuntime W) (a : Launch) (params : LaunchParams) where
  check_mint-Fixed :
      (w : W) (amounts : DerivedAmounts)
      → check_mint rt w a params amounts ≡ ok tt
      → (m : Mint) × (rt.parse_mint (rt.data_of w a.mint) ≡ some m)
        × Fixed m amounts.total_supply_base params.decimals
  unfolding check_mint
  check_mint-Fixed w amounts h0 =
      let (owned, h1) = require-eq-ok _ post_launch_check_failed _ h0 in
      let (m, e2, h2) = >>=-eq-ok (invoke (rt.parse_mint (rt.data_of w a.mint))) _ h1 in
      (
        m,
        unwrap_option-eq-ok (rt.parse_mint (rt.data_of w a.mint)) e2,
        mint_tests m amounts.total_supply_base params.decimals
            (require_last _ post_launch_check_failed h2),
      )

  check_destination-HeldBy :
      (w : W) (amounts : DerivedAmounts)
      → check_destination rt w a amounts ≡ ok tt
      → (d : TokenAccount) × (rt.parse_token_account (rt.data_of w a.launch_destination) ≡ some d)
        × HeldBy d a.launch_vault a.mint amounts.total_supply_base
  unfolding check_destination
  check_destination-HeldBy w amounts h0 =
      let (owned, h1) = require-eq-ok _ post_launch_check_failed _ h0 in
      let (d, e2, h2) =
        >>=-eq-ok (invoke (rt.parse_token_account (rt.data_of w a.launch_destination))) _ h1 in
      (
        d,
        unwrap_option-eq-ok (rt.parse_token_account (rt.data_of w a.launch_destination)) e2,
        held_tests d a.launch_vault a.mint amounts.total_supply_base
            (require_last _ post_launch_check_failed h2),
      )

  -- A launch that succeeds was given acceptable parameters. Whatever the other programs did, the mint
  -- then has the fixed supply of a billion whole tokens and the decimals asked for, and nobody can mint
  -- more or freeze it; the whole supply stands in the account of the launch's vault, which nobody else
  -- can move or close. The configuration that is written has the amounts that follow from the
  -- parameters, and the fee of the ratio's tier.
  pub handle_launch-Launched :
      (w : W) (out : LaunchConfig × W)
      → handle_launch rt a params w ≡ ok out
      → Launched rt a params out.0 out.1
  unfolding handle_launch
  handle_launch-Launched w out h0 =
      let (u1, h1) = require-eq-ok _ fee_recipient_invalid _ h0 in
      let (u2, e2, h2) =
        >>=-eq-ok (constraint (bytes_eq a.token_program rt.spl_token_program_id)) _ h1 in
      let (amounts, e3, h3) = >>=-eq-ok (validate params) _ h2 in
      let (u4, e4, h4) = >>=-eq-ok (check_platform rt w a.fee_recipient) _ h3 in
      let (u5, h5) = require-eq-ok _ invalid_launch_destination _ h4 in
      let (w1, e6, h6) = >>=-eq-ok (mint_supply rt w a params amounts) _ h5 in
      let (u7, e7, h7) = >>=-eq-ok (check_mint rt w1 a params amounts) _ h6 in
      let (u8, e8, h8) = >>=-eq-ok (check_destination rt w1 a amounts) _ h7 in
      let (exact, h9) =
        require-eq-ok (is_exact_tier_fee amounts.fee_lamports params.ratio_whole_tokens)
          fee_not_tier _ h8 in
      let v = (validate_iff params amounts).0 e3 in
      let (f, tier, same) = v.1 in
      let (m, reads, fixed) = check_mint-Fixed w1 amounts e7 in
      let (d, holds, held) = check_destination-HeldBy w1 amounts e8 in
      let total = ap (λ (x : DerivedAmounts). x.total_supply_base) same in
      subst (λ (o : LaunchConfig × W). Launched rt a params o.0 o.1) (ok-injective h9)
        (record {
          acceptable = v.0;
          fee = f;
          tier = tier;
          written = ap (λ (x : DerivedAmounts). launch_config_of rt a params x w1) same;
          mint = m;
          mint_reads = reads;
          fixed = subst (λ n. Fixed m n params.decimals) total fixed;
          destination = d;
          destination_reads = holds;
          whole_supply = subst (λ n. HeldBy d a.launch_vault a.mint n) total held;
        })
