-- ===== src/Prelude/Words.antt =====
-- Machine words: the checked operations of Rust's unsigned integers.
use Prim.Native.Nat.{ℕ, ◌+◌, ◌-◌, ◌*◌, ◌^◌}
use mathlib.Core.Bool.{Bool, false, ◌||◌}
use mathlib.Core.List.{List, [], ◌∷◌}
use mathlib.Core.Option.{Option, none, some}
use launchpad.Prelude.Tests.{ltb, leb, ◌==◌, if◌then◌else◌}

-- `a.checked_add(b)` of a `u<w>`
abbrev pub checked_add : ℕ → ℕ → ℕ → Option ℕ
checked_add w a b = if ltb (a + b) (2 ^ w) then some (a + b) else none

-- `a.checked_sub(b)`
abbrev pub checked_sub : ℕ → ℕ → Option ℕ
checked_sub a b = if leb b a then some (a - b) else none

-- `a.checked_mul(b)` of a `u<w>`
abbrev pub checked_mul : ℕ → ℕ → ℕ → Option ℕ
checked_mul w a b = if ltb (a * b) (2 ^ w) then some (a * b) else none

-- `a.checked_pow(n)` of a `u<w>`
abbrev pub checked_pow : ℕ → ℕ → ℕ → Option ℕ
checked_pow w a n = if ltb (a ^ n) (2 ^ w) then some (a ^ n) else none

-- `l.contains(&x)` on numbers
unfoldable pub contains : List ℕ → ℕ → Bool
contains [] x = false
contains (y ∷ l) x = y == x || contains l x
