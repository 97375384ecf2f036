-- ===== src/Launch/Fees.antt =====
-- programs/hybrid_launch/src/needs_barton.rs and validation.rs: the flat SOL fee of a ratio.
use launchpad.Prelude.{
  ℕ, ◌≤◌, ◌≡◌, ◌↔◌, refl, List, [], ◌∷◌, Bool, true, false, not, ◌&&◌, Option, none, some, leb,
  ◌==◌, if◌then◌else◌, arith, ok_or, ◌>>◌, Option-cases, inl, inr,
}
use launchpad.Launch.Constants.{fee_tiers, min_fee_lamports, max_fee_lamports}
use launchpad.Launch.Error.{Outcome, ratio_not_allowed, sol_fee_out_of_range}

-- The loop of `fee_for_ratio`, over the tiers left.
unfoldable pub find_tier : List (ℕ × ℕ) → ℕ → Option ℕ
find_tier [] ratio_whole_tokens = none
find_tier ((ratio, fee) ∷ tiers) ratio_whole_tokens =
    if ratio == ratio_whole_tokens then some fee else find_tier tiers ratio_whole_tokens

unfoldable pub fee_for_ratio : ℕ → Option ℕ
unfolding find_tier
fee_for_ratio ratio_whole_tokens = find_tier fee_tiers ratio_whole_tokens

-- The guard of `tier_fee_lamports` on a fee of the table.
abbrev pub in_fee_range : ℕ → Bool
in_fee_range f = not (f == 0) && leb min_fee_lamports f && leb f max_fee_lamports

unfoldable pub tier_fee_lamports : ℕ → Option ℕ
tier_fee_lamports ratio_whole_tokens = elim (fee_for_ratio ratio_whole_tokens) [
  | some f ↦ if in_fee_range f then some f else none
  | none ↦ none
]

unfoldable pub checked_fee_for_ratio : ℕ → Outcome ℕ
checked_fee_for_ratio ratio_whole_tokens = do
  ok_or (fee_for_ratio ratio_whole_tokens) ratio_not_allowed
  ok_or (tier_fee_lamports ratio_whole_tokens) sol_fee_out_of_range

-- `tier == Some(stored)`
abbrev is_some_of : Option ℕ → ℕ → Bool
is_some_of none stored = false
is_some_of (some f) stored = f == stored

unfoldable pub is_exact_tier_fee : ℕ → ℕ → Bool
is_exact_tier_fee stored_fee_lamports ratio_whole_tokens =
    not (stored_fee_lamports == 0)
    && is_some_of (tier_fee_lamports ratio_whole_tokens) stored_fee_lamports

-- A fee of the table lies between the floor and the hard cap.
pub fee_for_ratio_bounds :
    (ratio f : ℕ) → fee_for_ratio ratio ≡ some f → (min_fee_lamports ≤ f) × (f ≤ max_fee_lamports)
unfolding fee_for_ratio
fee_for_ratio_bounds ratio f h = ground arith

-- The guard of `tier_fee_lamports` holds of every fee of the table.
pub tier_fee_lamports_lem : (ratio : ℕ) → tier_fee_lamports ratio ≡ fee_for_ratio ratio
unfolding tier_fee_lamports
tier_fee_lamports_lem ratio = elim (Option-cases (fee_for_ratio ratio)) [
  | inl e ↦ rw (e, tier_fee_lamports)
  | inr (f, e) ↦ rw (e, tier_fee_lamports, in_range f (fee_for_ratio_bounds ratio f e))
]
  where
    in_range : (f : ℕ) → (min_fee_lamports ≤ f) × (f ≤ max_fee_lamports) → in_fee_range f ≡ true
    in_range f h = ground arith

-- A stored fee passes the test exactly if the table has it for the ratio.
pub is_exact_tier_fee_iff :
    (stored ratio : ℕ)
    → (is_exact_tier_fee stored ratio ≡ true) ↔ (fee_for_ratio ratio ≡ some stored)
unfolding is_exact_tier_fee
is_exact_tier_fee_iff stored ratio = rw (tier_fee_lamports_lem ratio) (
  λ h. exact_some (fee_for_ratio ratio) stored h,
  λ h. rw h (nonzero stored (fee_for_ratio_bounds ratio stored h)),
)
  where
    exact_some : (o : Option ℕ) (s : ℕ) → (not (s == 0) && is_some_of o s) ≡ true → o ≡ some s
    exact_some none s h = ground arith
    exact_some (some f) s h = ground arith

    nonzero :
        (s : ℕ)
        → (min_fee_lamports ≤ s) × (s ≤ max_fee_lamports)
        → (not (s == 0) && (s == s)) ≡ true
    nonzero s h = ground arith

-- A launch takes exactly the fee that the table has for its ratio.
pub checked_fee_for_ratio_lem :
    (ratio : ℕ) → checked_fee_for_ratio ratio ≡ ok_or (fee_for_ratio ratio) ratio_not_allowed
unfolding checked_fee_for_ratio
checked_fee_for_ratio_lem ratio = rw (tier_fee_lamports_lem ratio) (twice (fee_for_ratio ratio))
  where
    twice :
        (o : Option ℕ)
        → (ok_or o ratio_not_allowed >> ok_or o sol_fee_out_of_range) ≡ ok_or o ratio_not_allowed
    twice none = refl
    twice (some f) = refl
