-- ===== src/Launch/Validation/Accepts.antt =====
-- programs/hybrid_launch/src/validation.rs: exactly which parameters `validate` accepts.
use native.Mathlib.Nat.{pow-le-pow_right, mul-mod_right, one-le-pow, le_refl}
use mathlib.Core.Option.{some-injective}
use launchpad.Prelude.{
  dec_lt, ℕ, suc, ◌*◌, ◌%◌, ◌^◌, ◌≤◌, ◌<◌, ◌≡◌, ◌↔◌, true, ok, ◌==◌, ==_iff, contains, some,
  leb-true, lt→ltb, Bool-cases, inl, inr, ap, sym, subst, ◌∙◌, List, [], ◌∷◌, arith, refl,
}
use launchpad.Launch.Constants.{
  total_supply_whole_tokens, allowed_ratios, min_collection_size, max_collection_size_cap,
  min_graduation_threshold_lamports, max_graduation_threshold_lamports,
}
use launchpad.Launch.Error.{Outcome}
use launchpad.Launch.Fees.{fee_for_ratio, checked_fee_for_ratio_lem}
use launchpad.Launch.Validation.{LaunchParams, DerivedAmounts, validate}

-- The documented conditions on a launch.
pub record Acceptable (p : LaunchParams) : Type 0 where
  pub decimals_in : p.decimals ≤ 9
  pub ratio_in : contains allowed_ratios p.ratio_whole_tokens ≡ true
  pub size_low : min_collection_size ≤ p.collection_size
  pub size_high : p.collection_size ≤ max_collection_size_cap
  pub threshold_low : min_graduation_threshold_lamports ≤ p.graduation_threshold_lamports
  pub threshold_high : p.graduation_threshold_lamports ≤ max_graduation_threshold_lamports
  pub supply : p.collection_size * p.ratio_whole_tokens ≤ total_supply_whole_tokens

-- A ratio of the table divides the supply, is bounded, and has a fee.
abbrev pub RatioFacts : ℕ → Type 0
RatioFacts r =
    (q : ℕ) × (f : ℕ) × (r * q ≡ total_supply_whole_tokens)
    × (0 < r)
    × (r ≤ 5_000_000)
    × (fee_for_ratio r ≡ some f)

-- The same for all ratios of a list.
abbrev AllFacts : List ℕ → Type 0
AllFacts [] = Unit
AllFacts (r ∷ rs) = RatioFacts r × AllFacts rs

contains-AllFacts : (rs : List ℕ) (r : ℕ) → AllFacts rs → contains rs r ≡ true → RatioFacts r
unfolding contains
contains-AllFacts [] r h e = cc
contains-AllFacts (x ∷ rs) r h e = elim (Bool-cases (x == r)) [
  | inl same ↦ subst RatioFacts ((==_iff x r).0 same) h.0
  | inr other ↦ contains-AllFacts rs r h.1 (rw other at e)
]

table_facts : AllFacts allowed_ratios
unfolding fee_for_ratio
table_facts = (
  (20_000, 2_000_000, refl, omega arith, omega arith, refl),
  (
    (10_000, 5_000_000, refl, omega arith, omega arith, refl),
    (
      (5_000, 5_000_000, refl, omega arith, omega arith, refl),
      (
        (2_000, 10_000_000, refl, omega arith, omega arith, refl),
        (
          (1_000, 10_000_000, refl, omega arith, omega arith, refl),
          (
            (400, 10_000_000, refl, omega arith, omega arith, refl),
            ((200, 10_000_000, refl, omega arith, omega arith, refl), tt),
          ),
        ),
      ),
    ),
  ),
)

pub ratio_facts : (r : ℕ) → contains allowed_ratios r ≡ true → RatioFacts r
ratio_facts r e = contains-AllFacts allowed_ratios r table_facts e

ok-injective : {m : Outcome DerivedAmounts} {x y : DerivedAmounts} → m ≡ ok x → m ≡ ok y → x ≡ y
ok-injective e f = cc

mul_le : (a b c d : ℕ) → a ≤ b → c ≤ d → a * c ≤ b * d
mul_le a b c d h k = grind arith

regroup :
    (r q s : ℕ) → r * q ≡ total_supply_whole_tokens → total_supply_whole_tokens * s ≡ r * s * q
regroup r q s e = omega (arith, ap (λ t. t * s) e)

scale_bounds : (d : ℕ) → d ≤ 9 → (1 ≤ 10 ^ d) × (10 ^ d ≤ 10 ^ 9)
scale_bounds d h = (one-le-pow d 10 (omega arith), pow-le-pow_right {n = 10} (omega arith) h)

-- The amounts of an acceptable launch with fee `f`.
abbrev pub amounts_of : LaunchParams → ℕ → DerivedAmounts
amounts_of p f = record {
  total_supply_base = total_supply_whole_tokens * 10 ^ p.decimals;
  ratio_base = p.ratio_whole_tokens * 10 ^ p.decimals;
  max_tokens_in_nft_form = p.collection_size * (p.ratio_whole_tokens * 10 ^ p.decimals);
  fee_lamports = f;
  graduation_slice_pct = 0;
}

module _ (p : LaunchParams) (a : Acceptable p) where
  abbrev s : ℕ
  s = 10 ^ p.decimals

  facts : RatioFacts p.ratio_whole_tokens
  facts = ratio_facts p.ratio_whole_tokens a.ratio_in

  sb : (1 ≤ s) × (s ≤ 10 ^ 9)
  sb = scale_bounds p.decimals a.decimals_in

  base-lt : p.ratio_whole_tokens * s < 2 ^ 64
  base-lt = omega (arith, mul_le p.ratio_whole_tokens 5_000_000 s (10 ^ 9) facts.4 sb.1)

  divides : (total_supply_whole_tokens * s) % (p.ratio_whole_tokens * s) ≡ 0
  divides =
      ap (λ t. t % (p.ratio_whole_tokens * s)) (regroup p.ratio_whole_tokens facts.0 s facts.2)
      ∙ mul-mod_right (p.ratio_whole_tokens * s) facts.0

  most-le : p.collection_size * (p.ratio_whole_tokens * s) ≤ total_supply_whole_tokens * s
  most-le = omega (
    arith,
    mul_le (p.collection_size * p.ratio_whole_tokens) total_supply_whole_tokens s s a.supply
        (le_refl s),
  )

  accepts : validate p ≡ ok (amounts_of p facts.1)
  unfolding validate
  accepts = rw (
    leb-true p.decimals 9 a.decimals_in,
    a.ratio_in,
    leb-true 1 p.collection_size (omega (arith, a.size_low)),
    leb-true 100 p.collection_size a.size_low,
    leb-true p.collection_size 10_000 a.size_high,
    checked_fee_for_ratio_lem p.ratio_whole_tokens,
    facts.5,
    leb-true min_graduation_threshold_lamports p.graduation_threshold_lamports a.threshold_low,
    leb-true p.graduation_threshold_lamports max_graduation_threshold_lamports a.threshold_high,
    lt→ltb (10 ^ p.decimals) (2 ^ 64) (omega (arith, sb)),
    lt→ltb (total_supply_whole_tokens * s) (2 ^ 64) (omega (arith, sb)),
    lt→ltb (p.ratio_whole_tokens * s) (2 ^ 64) base-lt,
    divides,
    lt→ltb (p.collection_size * (p.ratio_whole_tokens * s)) (2 ^ 64) (omega (arith, most-le, sb)),
    leb-true (p.collection_size * (p.ratio_whole_tokens * s)) (total_supply_whole_tokens * s)
        most-le,
  )

le_of_mul_le : (a b c : ℕ) → 1 ≤ c → a * c ≤ b * c → a ≤ b
le_of_mul_le a b c h k = elim (dec_lt b a) [
  | yes l ↦ absurd (omega (arith, mul_le (suc b) a c c l (le_refl c), h, k))
  | no l ↦ omega arith
]

-- What each test of `validate` said, when all passed.
passed :
    (p : LaunchParams) (d : DerivedAmounts)
    → validate p ≡ ok d
    → (p.decimals ≤ 9)
      × (contains allowed_ratios p.ratio_whole_tokens ≡ true)
      × (min_collection_size ≤ p.collection_size)
      × (p.collection_size ≤ max_collection_size_cap)
      × (min_graduation_threshold_lamports ≤ p.graduation_threshold_lamports)
      × (p.graduation_threshold_lamports ≤ max_graduation_threshold_lamports)
      × (p.collection_size * (p.ratio_whole_tokens * 10 ^ p.decimals)
          ≤ total_supply_whole_tokens * 10 ^ p.decimals)
unfolding validate
passed p d h = ground arith

rejects : (p : LaunchParams) (d : DerivedAmounts) → validate p ≡ ok d → Acceptable p
rejects p d h =
    let t = passed p d h in
    record {
      decimals_in = t.0;
      ratio_in = t.1;
      size_low = t.2;
      size_high = t.3;
      threshold_low = t.4;
      threshold_high = t.5;
      supply =
          le_of_mul_le (p.collection_size * p.ratio_whole_tokens) total_supply_whole_tokens
            (10 ^ p.decimals) (scale_bounds p.decimals t.0).0 (omega (arith, t.6));
    }

-- `validate` accepts exactly the acceptable parameters. Its amounts are then the supply, the ratio
-- and the collection's tokens in base units, with the fee of the ratio's tier; nothing overflows.
pub validate_iff :
    (p : LaunchParams) (d : DerivedAmounts)
    → (validate p ≡ ok d) ↔ (
        Acceptable p
        × ((f : ℕ) × (fee_for_ratio p.ratio_whole_tokens ≡ some f) × (d ≡ amounts_of p f)))
validate_iff p d = (
  λ h. let a = rejects p d h in (a, ((facts p a).1, (facts p a).5, ok-injective h (accepts p a))),
  λ h. accepts p h.0 ∙ ap ok (same_fee h.0 h.1),
)
  where
    same_fee :
        (a : Acceptable p)
        → ((f : ℕ) × (fee_for_ratio p.ratio_whole_tokens ≡ some f) × (d ≡ amounts_of p f))
        → amounts_of p (facts p a).1 ≡ d
    same_fee a (f, e, ed) =
        ap (amounts_of p) (some-injective (facts p a).1 f (sym (facts p a).5 ∙ e)) ∙ sym ed
