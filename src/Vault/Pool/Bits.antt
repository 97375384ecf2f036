-- ===== src/Vault/Pool/Bits.antt =====
-- The bits of a byte, under `&` and `|` with a single bit: all bytes are checked.
use Prim.Native.Nat.{bit_and, bit_or}
use launchpad.Prelude.{
  ℕ, zero, suc, ◌^◌, ◌<◌, ◌≡◌, refl, Bool, true, false, not, ◌&&◌, ◌||◌, ◌==◌, arith, ltb, ltb→lt,
}

-- Whether a test passes on every number below a bound.
passes_below : (ℕ → Bool) → ℕ → Bool
passes_below test zero = true
passes_below test (suc bound) = passes_below test bound && test bound

passes_below-lt :
    (test : ℕ → Bool) (bound k : ℕ) → k < bound → passes_below test bound ≡ true → test k ≡ true
unfolding passes_below
passes_below-lt test zero k below all = absurd (omega arith)
passes_below-lt test (suc bound) k below all = ground (arith, passes_below-lt test bound k)

-- Whether bit `j` is set.
abbrev pub bit : ℕ → ℕ → Bool
bit b j = not (bit_and b (2 ^ j) == 0)

same : Bool → Bool → Bool
same true b = b
same false b = not b

same_sound : (a b : Bool) → same a b ≡ true → a ≡ b
unfolding same
same_sound true b h = ground arith
same_sound false b h = ground arith

abbrev set_bit_at : ℕ → ℕ → ℕ → Bool
set_bit_at b k j =
    same (bit (bit_or b (2 ^ k)) j) ((k == j) || bit b j) && ltb (bit_or b (2 ^ k)) 256

set_bit_table :
    passes_below (λ k. passes_below (λ j. passes_below (λ b. set_bit_at b k j) 256) 8) 8 ≡ true
unfolding passes_below same
set_bit_table = refl

-- Both facts of the table at one byte and two bit numbers.
set_bit : (b k j : ℕ) → b < 256 → k < 8 → j < 8 → set_bit_at b k j ≡ true
set_bit b k j hb hk hj =
    passes_below-lt (λ b. set_bit_at b k j) 256 b hb
      (passes_below-lt (λ j. passes_below (λ b. set_bit_at b k j) 256) 8 j hj
        (passes_below-lt (λ k. passes_below (λ j. passes_below (λ b. set_bit_at b k j) 256) 8) 8 k
          hk set_bit_table))

and_true : (a b : Bool) → (a && b) ≡ true → (a ≡ true) × (b ≡ true)
and_true a b h = ground arith

-- `b |= 1 << k` sets bit `k` and keeps the other bits.
pub bit-bit_or :
    (b k j : ℕ) → b < 256 → k < 8 → j < 8 → bit (bit_or b (2 ^ k)) j ≡ ((k == j) || bit b j)
bit-bit_or b k j hb hk hj = same_sound _ _ (and_true _ _ (set_bit b k j hb hk hj)).0

-- It stays a byte.
pub bit_or-lt : (b k : ℕ) → b < 256 → k < 8 → bit_or b (2 ^ k) < 256
bit_or-lt b k hb hk =
    ltb→lt (bit_or b (2 ^ k)) 256 (and_true _ _ (set_bit b k 0 hb hk (omega arith))).1
