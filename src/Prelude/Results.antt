-- ===== src/Prelude/Results.antt =====
-- `Result` of the programs. A transaction either succeeds, fails with one of a program's errors, or
-- is aborted: a panic (`assert!`, `unwrap`, an index out of range), or an exhausted compute budget.
use mathlib.Core.Path.{◌≡◌, refl}
use mathlib.Core.Bool.{Bool, true, false}
use mathlib.Core.Option.{Option, none, some}

pub data Result {ℓ} (E : Type 0) (A : Type ℓ) : Type ℓ where
  ok : A → Result E A
  err : E → Result E A
  abort : Result E A

infixl 5 ◌>>=◌ ◌>>◌
-- The operator `?`.
abbrev pub ◌>>=◌ {ℓ κ} :
    {E : Type 0} {A : Type ℓ} {B : Type κ} → Result E A → (A → Result E B) → Result E B
ok a >>= f = f a
err e >>= f = err e
abort >>= f = abort

abbrev pub ◌>>◌ {ℓ κ} :
    {E : Type 0} {A : Type ℓ} {B : Type κ} → Result E A → Result E B → Result E B
m >> k = m >>= λ _. k

-- `require!(b, e)`
abbrev pub require : {E : Type 0} → Bool → E → Result E (Unit {0})
require true e = ok tt
require false e = err e

-- `o.ok_or(e)?`
abbrev pub ok_or {ℓ} : {E : Type 0} {A : Type ℓ} → Option A → E → Result E A
ok_or (some a) e = ok a
ok_or none e = err e

-- `o.unwrap()`
abbrev pub unwrap_option {ℓ} : {E : Type 0} {A : Type ℓ} → Option A → Result E A
unwrap_option (some a) = ok a
unwrap_option none = abort

-- What a successful chain of steps says of its first step.
pub >>=-eq-ok {ℓ κ} :
    {E : Type 0} {X : Type ℓ} {Y : Type κ} (step : Result E X) (next : X → Result E Y) {y : Y}
    → (step >>= next) ≡ ok y
    → (x : X) × (step ≡ ok x) × (next x ≡ ok y)
>>=-eq-ok abort next done = cc
>>=-eq-ok (err why) next done = cc
>>=-eq-ok (ok x) next done = (x, refl, done)

pub ok-injective : {E A : Type 0} {x y : A} → ◌≡◌ {A = Result E A} (ok x) (ok y) → x ≡ y
ok-injective e = cc

-- Inversion of the two small steps, under what follows them.
pub require-eq-ok {κ} :
    {E : Type 0} {B : Type κ} (b : Bool) (e : E) (k : Result E B) {y : B}
    → (require b e >> k) ≡ ok y
    → (b ≡ true) × (k ≡ ok y)
require-eq-ok true e k h = (refl, h)
require-eq-ok false e k h = cc

pub ok_or-eq-ok {ℓ} :
    {E : Type 0} {A : Type ℓ} (o : Option A) (e : E) {a : A} → ok_or o e ≡ ok a → o ≡ some a
ok_or-eq-ok (some x) e h = cc
ok_or-eq-ok none e h = cc

-- The same for a test that comes last.
pub require_last : {E : Type 0} (b : Bool) (e : E) → require b e ≡ ok tt → b ≡ true
require_last true e h = refl
require_last false e h = cc

pub unwrap_option-eq-ok :
    {E A : Type 0} (o : Option A) {a : A}
    → ◌≡◌ {A = Result E A} (unwrap_option o) (ok a)
    → o ≡ some a
unwrap_option-eq-ok (some x) h = cc
unwrap_option-eq-ok none h = cc
