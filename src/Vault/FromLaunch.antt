-- ===== src/Vault/FromLaunch.antt =====
-- programs/hybrid_vault against programs/hybrid_launch: what the vault program does with the
-- configurations that the launch program writes.
use launchpad.Prelude.{
  ℕ, ◌*◌, ◌^◌, ◌≤◌, ◌<◌, ◌≡◌, refl, sym, ap, subst, ◌∙◌, true, false, some, ok, leb-true, lt→ltb,
  arith,
}
use native.Mathlib.Nat.{one-le-pow}
use launchpad.Bytes.{Bytes, bytes_eq}
use launchpad.Bytes.Laws.{bytes_eq_refl}
use launchpad.Launch.Constants.{launch_config_version}
use launchpad.Launch.Fees.{fee_for_ratio, is_exact_tier_fee_iff}
use launchpad.Launch.Validation.{LaunchParams}
use launchpad.Launch.Validation.Accepts.{Acceptable, ratio_facts}
use launchpad.Launch.State.{LaunchConfig}
use launchpad.Launch.Chain.{LaunchRuntime}
use launchpad.Launch.Create.{Launch, handle_launch}
use launchpad.Launch.Create.Effect.{handle_launch-Launched}
use launchpad.Launch.Register.{
  RegisterDbcLaunch, RegisterDbcParams, handle_register_dbc_launch, launch_params,
}
use launchpad.Launch.Register.Effect.{handle_register_dbc_launch-Registered}
use launchpad.Vault.Config.{Econ, econ, request_fee}
use launchpad.Vault.Chain.{Runtime}
use launchpad.Vault.Opening.{OpenVault, handle_open_vault, default_key}
use launchpad.Vault.Opening.Graduated.{handle_open_vault_lem}
use launchpad.Vault.Release.{Ledger}

-- A configuration with the numbers of an acceptable launch.
pub record HasNumbers (cfg : LaunchConfig) (params : LaunchParams) (fee : ℕ) : Type 0 where
  pub version : cfg.version ≡ launch_config_version
  pub size : cfg.collection_size ≡ params.collection_size
  pub ratio : cfg.ratio_base ≡ params.ratio_whole_tokens * 10 ^ params.decimals
  pub whole : cfg.ratio_whole_tokens ≡ params.ratio_whole_tokens
  pub flat : cfg.fee_lamports ≡ fee

-- What the vault program reads of a configuration, with the fee that it charges.
pub record Accepts (w : Bytes) (cfg : LaunchConfig) (params : LaunchParams) (fee : ℕ) : Type 0 where
  pub read : Econ
  pub reads : econ w cfg ≡ ok read
  pub same_ratio : read.ratio_base ≡ params.ratio_whole_tokens * 10 ^ params.decimals
  pub same_size : read.collection_size ≡ params.collection_size
  pub charges : request_fee read.stored_fee_lamports read.ratio_whole_tokens ≡ ok fee
  pub tier : fee_for_ratio params.ratio_whole_tokens ≡ some fee

product_pos : (a b : ℕ) → 0 < a → 0 < b → 0 < a * b
product_pos a b h k = grind arith

differ : true ≡ false → ⊥
differ x = cc

econ-numbers :
    (w : Bytes) (cfg : LaunchConfig) (params : LaunchParams) (fee : ℕ)
    → Acceptable params
    → fee_for_ratio params.ratio_whole_tokens ≡ some fee
    → HasNumbers cfg params fee
    → Accepts w cfg params fee
unfolding econ request_fee
econ-numbers w cfg params fee a tier n =
    let facts = ratio_facts params.ratio_whole_tokens a.ratio_in in
    let scale : 1 ≤ 10 ^ params.decimals = one-le-pow params.decimals 10 (omega arith) in
    let pos : 0 < params.ratio_whole_tokens * 10 ^ params.decimals =
      product_pos params.ratio_whole_tokens (10 ^ params.decimals) facts.3 scale in
    record {
      read = record {
        ratio_base = cfg.ratio_base;
        collection_size = cfg.collection_size;
        stored_fee_lamports = cfg.fee_lamports;
        ratio_whole_tokens = cfg.ratio_whole_tokens;
        fee_recipient = w;
      };
      reads = rw (
        n.version,
        leb-true cfg.collection_size 10_000 (omega (arith, n.size, a.size_high)),
        lt→ltb cfg.collection_size (2 ^ 32) (omega (arith, n.size, a.size_high)),
        lt→ltb 0 cfg.collection_size (omega (arith, n.size, a.size_low)),
        lt→ltb 0 cfg.ratio_base (omega (arith, n.ratio, pos)),
      );
      same_ratio = n.ratio;
      same_size = n.size;
      charges = rw (n.flat, n.whole, (is_exact_tier_fee_iff fee params.ratio_whole_tokens).1 tier);
      tier = tier;
    }

-- Whatever a launch writes, the vault program accepts: its reader gets the ratio and the size that were
-- asked for, and the fee is never refused, and is the tier's. Yet a vault of this configuration is never
-- opened, by any instruction's accounts and in no state of the world, since the launch has no curve.
pub handle_launch-vault :
    {L W : Type 0} (lrt : LaunchRuntime L) (a : Launch) (params : LaunchParams) (w : L)
    (out : LaunchConfig × L)
    → handle_launch lrt a params w ≡ ok out
    → (wallet : Bytes)
    → ((fee : ℕ) × Accepts wallet out.0 params fee)
      × ((rt : Runtime W) (o : OpenVault) (s s' : Ledger W)
          → o.config ≡ out.0
          → handle_open_vault rt o s ≡ ok s'
          → ⊥)
handle_launch-vault {W = W} lrt a params w out h wallet =
    let l = handle_launch-Launched lrt a params w out h in
    (
      (
        l.fee,
        econ-numbers wallet out.0 params l.fee l.acceptable l.tier (
            subst (λ c. HasNumbers c params l.fee) (sym l.written)
              (record { version = refl; size = refl; ratio = refl; whole = refl; flat = refl })),
      ),
      λ rt o s s' same opens.
          no_curve rt o s s' (ap (λ (c : LaunchConfig). c.dbc_pool) (same ∙ l.written)) opens,
    )
  where
    no_curve :
        (rt : Runtime W) (o : OpenVault) (s s' : Ledger W)
        → o.config.dbc_pool ≡ default_key
        → handle_open_vault rt o s ≡ ok s'
        → ⊥
    no_curve rt o s s' e opens =
        let g = (handle_open_vault_lem rt o s s' opens).1 in
        differ
          (sym (bytes_eq_refl default_key) ∙ sym (ap (λ k. bytes_eq k default_key) e) ∙ g.recorded)

-- Whatever a registration writes, the vault program accepts in the same way.
pub handle_register_dbc_launch-vault :
    {L : Type 0} (lrt : LaunchRuntime L) (a : RegisterDbcLaunch) (params : RegisterDbcParams)
    (w : L) (out : LaunchConfig × L)
    → handle_register_dbc_launch lrt a params w ≡ ok out
    → (wallet : Bytes)
    → (p : LaunchParams) × (fee : ℕ) × (p.ratio_whole_tokens ≡ params.ratio_whole_tokens)
      × (p.collection_size ≡ params.collection_size)
      × (p.decimals ≡ a.mint.decimals)
      × Accepts wallet out.0 p fee
handle_register_dbc_launch-vault lrt a params w out h wallet =
    let l = handle_register_dbc_launch-Registered lrt a params w out h in
    let p = launch_params a.mint params l.curve in
    (
      p,
      l.fee,
      refl,
      refl,
      refl,
      econ-numbers wallet out.0 p l.fee l.acceptable l.tier (
          subst (λ c. HasNumbers c p l.fee) (sym l.written)
            (record { version = refl; size = refl; ratio = refl; whole = refl; flat = refl })),
    )
