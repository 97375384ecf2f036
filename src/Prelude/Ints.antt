-- ===== src/Prelude/Ints.antt =====
-- The signed integers of Rust's `i64`, over the native numbers.
use Prim.Native.Nat.{ℕ, suc, ◌+◌, ◌-◌, ◌^◌}
use mathlib.Core.Bool.{Bool}
use launchpad.Prelude.Tests.{ltb, leb, if◌then◌else◌}

-- `negsuc n` is -(n + 1).
pub data ℤ : Type 0 where
  pos : ℕ → ℤ
  negsuc : ℕ → ℤ

-- An integer is the difference of these two numbers.
abbrev pub above : ℤ → ℕ
above (pos n) = n
above (negsuc n) = 0

abbrev pub below : ℤ → ℕ
below (pos n) = 0
below (negsuc n) = suc n

-- The bits of a word as an `i64`.
abbrev pub to_i64 : ℕ → ℤ
to_i64 u = if ltb u (2 ^ 63) then pos u else negsuc (2 ^ 64 - 1 - u)

-- The bits of an `i64`, as a word.
abbrev pub i64_bits : ℤ → ℕ
i64_bits (pos n) = n
i64_bits (negsuc n) = 2 ^ 64 - 1 - n

-- `a.saturating_sub(b)`
abbrev pub saturating_sub : ℤ → ℤ → ℤ
saturating_sub a b =
    let up = above a + below b in
    let down = below a + above b in
    if leb down up
    then (if ltb (up - down) (2 ^ 63) then pos (up - down) else pos (2 ^ 63 - 1))
    else (if leb (down - up) (2 ^ 63) then negsuc (down - up - 1) else negsuc (2 ^ 63 - 1))

-- `a <= b`
abbrev pub leb_ℤ : ℤ → ℤ → Bool
leb_ℤ a b = leb (above a + below b) (above b + below a)
