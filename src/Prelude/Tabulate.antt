-- ===== src/Prelude/Tabulate.antt =====
-- The list of a function's values below a bound, and how it changes with the function.
use mathlib.Core.List.{List, [], ◌∷◌, ◌++◌, perm_append_singleton}
use mathlib.Core.List.{Perm}
use mathlib.Core.List.Perm
use mathlib.Core.Path.{◌≡◌, refl, ap, sym, ap₂, subst}
use mathlib.Core.Logic.{◌≢◌}
use Prim.Native.Nat.{ℕ, zero, suc, ◌<◌, ◌≤◌}
use native.Mathlib.Decide.{ℕ_discrete}
use native.Mathlib.Omega.{arith}
use launchpad.Prelude.Lists.{length, length-append, All, All-append}

module _ {ℓ} {A : Type ℓ} where
  -- [f 0, …, f (n - 1)]
  abbrev pub tabulate : (ℕ → A) → ℕ → List A
  tabulate f zero = []
  tabulate f (suc n) = tabulate f n ++ (f n ∷ [])

  pub length-tabulate : (f : ℕ → A) (n : ℕ) → length (tabulate f n) ≡ n
  length-tabulate f zero = refl
  length-tabulate f (suc n) =
      omega (arith, length-append (tabulate f n) (f n ∷ []), length-tabulate f n)

  -- Only the values below the bound matter.
  pub tabulate-congr :
      (f g : ℕ → A) (n : ℕ) → ((i : ℕ) → i < n → f i ≡ g i) → tabulate f n ≡ tabulate g n
  tabulate-congr f g zero h = refl
  tabulate-congr f g (suc n) h =
      ap₂ (λ xs x. xs ++ (x ∷ [])) (tabulate-congr f g n (λ i lt. h i (omega arith)))
        (h n (omega arith))

  -- The first value apart from the rest.
  pub tabulate-cons : (f : ℕ → A) (n : ℕ) → tabulate f (suc n) ≡ f 0 ∷ tabulate (λ k. f (suc k)) n
  tabulate-cons f zero = refl
  tabulate-cons f (suc n) = ap (λ xs. xs ++ (f (suc n) ∷ [])) (tabulate-cons f n)

  -- Two lists with the same beginning and swapped ends.
  swap_ends :
      (f g : ℕ → A) (i n : ℕ)
      → i ≡ n
      → tabulate f n ≡ tabulate g n
      → Perm (g i ∷ tabulate f (suc n)) (f i ∷ tabulate g (suc n))
  swap_ends f g i n e t =
      rw (e, ← t)
        (Perm.trans (Perm.cons (g n) (perm_append_singleton (f n) (tabulate f n))) (
          Perm.trans (Perm.swap (f n) (g n) (tabulate f n))
            (Perm.cons (f n) (Perm.symm (perm_append_singleton (g n) (tabulate f n))))))

  -- A value put in the place of another one below the bound.
  pub tabulate_replace :
      (f g : ℕ → A) (i n : ℕ)
      → i < n
      → ((j : ℕ) → j < n → j ≢ i → g j ≡ f j)
      → Perm (g i ∷ tabulate f n) (f i ∷ tabulate g n)
  tabulate_replace f g i zero h same = absurd (omega arith)
  tabulate_replace f g i (suc n) h same = elim (ℕ_discrete i n) [
    | yes e ↦
        swap_ends f g i n e
          (tabulate-congr f g n (λ j lt. sym (same j (omega arith) (omega arith))))
    | no ne ↦
        subst (λ x. Perm (g i ∷ (tabulate f n ++ (f n ∷ []))) (f i ∷ (tabulate g n ++ (x ∷ []))))
          (sym (same n (omega arith) (λ e. ne (sym e))))
          (Perm.append_right (f n ∷ [])
            (tabulate_replace f g i n (omega arith) (λ j lt. same j (omega arith))))
  ]

  -- `swap_remove`: the last value takes the place of the one removed.
  pub tabulate_swap_remove :
      (f g : ℕ → A) (i n : ℕ)
      → i ≤ n
      → g i ≡ f n
      → ((j : ℕ) → j < n → j ≢ i → g j ≡ f j)
      → Perm (tabulate f (suc n)) (f i ∷ tabulate g n)
  tabulate_swap_remove f g i n h last same = elim (ℕ_discrete i n) [
    | yes e ↦
        rw (e, ← tabulate-congr f g n (λ j lt. sym (same j lt (omega arith))))
          (perm_append_singleton (f n) (tabulate f n))
    | no ne ↦ Perm.trans (perm_append_singleton (f n) (tabulate f n)) (
        subst (λ x. Perm (x ∷ tabulate f n) (f i ∷ tabulate g n)) last
          (tabulate_replace f g i n (omega arith) same))
  ]

  -- A predicate of all the values, point by point.
  pub All-tabulate {κ} :
      (P : A → Type κ) (f : ℕ → A) (n : ℕ) → ((i : ℕ) → i < n → P (f i)) → All P (tabulate f n)
  All-tabulate P f zero h = tt
  All-tabulate P f (suc n) h =
      All-append P (tabulate f n) (f n ∷ []) (All-tabulate P f n (λ i lt. h i (omega arith)))
        (h n (omega arith), tt)

  All-left {κ} : (P : A → Type κ) (xs ys : List A) → All P (xs ++ ys) → All P xs
  All-left P [] ys h = tt
  All-left P (x ∷ xs) ys h = (h.0, All-left P xs ys h.1)

  All-right {κ} : (P : A → Type κ) (xs ys : List A) → All P (xs ++ ys) → All P ys
  All-right P [] ys h = h
  All-right P (x ∷ xs) ys h = All-right P xs ys h.1

  pub tabulate-All {κ} :
      (P : A → Type κ) (f : ℕ → A) (n i : ℕ) → i < n → All P (tabulate f n) → P (f i)
  tabulate-All P f zero i lt h = absurd (omega arith)
  tabulate-All P f (suc n) i lt h = elim (ℕ_discrete i n) [
    | yes e ↦ subst (λ j. P (f j)) (sym e) (All-right P (tabulate f n) (f n ∷ []) h).0
    | no ne ↦ tabulate-All P f n i (omega arith) (All-left P (tabulate f n) (f n ∷ []) h)
  ]
