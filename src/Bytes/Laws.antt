-- ===== src/Bytes/Laws.antt =====
-- Laws of byte buffers: a slice that was written reads back, and others stay as they were.
use native.Mathlib.Nat.{pow-suc}
use launchpad.Prelude.{
  ℕ, zero, suc, ◌+◌, ◌/◌, ◌^◌, ◌≤◌, ◌<◌, ◌≡◌, refl, ap, [], ◌∷◌, true, take, length, get_or, All,
  arith,
}
use launchpad.Bytes.{Bytes, slice, splice, to_le_bytes, from_le_bytes, bytes_eq}

pub length-splice : (d : Bytes) (o : ℕ) (bs : Bytes) → length (splice d o bs) ≡ length d
unfolding splice
length-splice [] o bs = refl
length-splice (x ∷ d) zero [] = refl
length-splice (x ∷ d) zero (b ∷ bs) = ap suc (length-splice d zero bs)
length-splice (x ∷ d) (suc o) bs = ap suc (length-splice d o bs)

-- What was written reads back, if it lies inside the buffer.
pub slice-splice_self :
    (d : Bytes) (o : ℕ) (bs : Bytes) (n : ℕ)
    → o + n ≤ length d
    → n ≡ length bs
    → slice (splice d o bs) o n ≡ bs
unfolding splice
slice-splice_self [] zero [] zero h e = refl
slice-splice_self [] zero [] (suc n) h e = absurd (omega arith)
slice-splice_self [] zero (b ∷ bs) n h e = absurd (omega arith)
slice-splice_self [] (suc o) bs n h e = absurd (omega arith)
slice-splice_self (x ∷ d) zero [] zero h e = refl
slice-splice_self (x ∷ d) zero [] (suc n) h e = absurd (omega arith)
slice-splice_self (x ∷ d) zero (b ∷ bs) zero h e = absurd (omega arith)
slice-splice_self (x ∷ d) zero (b ∷ bs) (suc n) h e =
    ap (λ t. b ∷ t) (slice-splice_self d zero bs n (omega arith) (omega arith))
slice-splice_self (x ∷ d) (suc o) bs n h e = slice-splice_self d o bs n (omega arith) e

take-splice : (d : Bytes) (p : ℕ) (bs : Bytes) (n : ℕ) → n ≤ p → take n (splice d p bs) ≡ take n d
unfolding splice
take-splice d p bs zero h = refl
take-splice [] p bs (suc n) h = refl
take-splice (x ∷ d) zero bs (suc n) h = absurd (omega arith)
take-splice (x ∷ d) (suc p) bs (suc n) h = ap (λ t. x ∷ t) (take-splice d p bs n (omega arith))

-- A slice before the written part is unchanged.
pub slice-splice_before :
    (d : Bytes) (o n p : ℕ) (bs : Bytes) → o + n ≤ p → slice (splice d p bs) o n ≡ slice d o n
unfolding splice
slice-splice_before d zero n p bs h = take-splice d p bs n (omega arith)
slice-splice_before [] (suc o) n p bs h = refl
slice-splice_before (x ∷ d) (suc o) n zero bs h = absurd (omega arith)
slice-splice_before (x ∷ d) (suc o) n (suc p) bs h = slice-splice_before d o n p bs (omega arith)

-- A slice behind the written part is unchanged.
pub slice-splice_after :
    (d : Bytes) (o n p : ℕ) (bs : Bytes)
    → p + length bs ≤ o
    → slice (splice d p bs) o n ≡ slice d o n
unfolding splice
slice-splice_after [] o n p bs h = refl
slice-splice_after (x ∷ d) o n zero [] h = refl
slice-splice_after (x ∷ d) zero n zero (b ∷ bs) h = absurd (omega arith)
slice-splice_after (x ∷ d) (suc o) n zero (b ∷ bs) h =
    slice-splice_after d o n zero bs (omega arith)
slice-splice_after (x ∷ d) zero n (suc p) bs h = absurd (omega arith)
slice-splice_after (x ∷ d) (suc o) n (suc p) bs h = slice-splice_after d o n p bs (omega arith)

pub length-to_le_bytes : (w v : ℕ) → length (to_le_bytes w v) ≡ w
unfolding to_le_bytes
length-to_le_bytes zero v = refl
length-to_le_bytes (suc w) v = ap suc (length-to_le_bytes w (v / 256))

-- An integer that fits in `w` bytes is read back from them.
pub from_le_bytes-to_le_bytes : (w v : ℕ) → v < 256 ^ w → from_le_bytes (to_le_bytes w v) ≡ v
unfolding to_le_bytes from_le_bytes
from_le_bytes-to_le_bytes zero v h = omega arith
from_le_bytes-to_le_bytes (suc w) v h =
    omega
      (arith, pow-suc 256 w, from_le_bytes-to_le_bytes w (v / 256) (omega (arith, pow-suc 256 w)))

-- `==` on buffers decides equality.
pub bytes_eq_sound : (a b : Bytes) → bytes_eq a b ≡ true → a ≡ b
unfolding bytes_eq
bytes_eq_sound [] [] h = refl
bytes_eq_sound [] (b ∷ bs) h = cc
bytes_eq_sound (a ∷ as') [] h = cc
bytes_eq_sound (a ∷ as') (b ∷ bs) h = ground (arith, bytes_eq_sound as' bs)

pub bytes_eq_refl : (a : Bytes) → bytes_eq a a ≡ true
unfolding bytes_eq
bytes_eq_refl [] = refl
bytes_eq_refl (a ∷ as') = ground (arith, bytes_eq_refl as')

-- A single byte is a slice of one.
pub get_or-slice : (d : Bytes) (o : ℕ) → get_or d o 0 ≡ get_or (slice d o 1) 0 0
get_or-slice [] zero = refl
get_or-slice [] (suc o) = refl
get_or-slice (x ∷ d) zero = refl
get_or-slice (x ∷ d) (suc o) = get_or-slice d o

-- Every item is a byte.
abbrev pub AreBytes : Bytes → Type 0
AreBytes = All (λ b. b < 256)

pub to_le_bytes-AreBytes : (w v : ℕ) → AreBytes (to_le_bytes w v)
unfolding to_le_bytes
to_le_bytes-AreBytes zero v = tt
to_le_bytes-AreBytes (suc w) v = (omega arith, to_le_bytes-AreBytes w (v / 256))

pub splice-AreBytes :
    (d : Bytes) (o : ℕ) (bs : Bytes) → AreBytes d → AreBytes bs → AreBytes (splice d o bs)
unfolding splice
splice-AreBytes [] o bs hd hb = tt
splice-AreBytes (x ∷ d) zero [] hd hb = hd
splice-AreBytes (x ∷ d) zero (b ∷ bs) hd hb = (hb.0, splice-AreBytes d zero bs hd.1 hb.1)
splice-AreBytes (x ∷ d) (suc o) bs hd hb = (hd.0, splice-AreBytes d o bs hd.1 hb)

pub get_or-AreBytes : (d : Bytes) (o : ℕ) → AreBytes d → get_or d o 0 < 256
get_or-AreBytes [] o h = omega arith
get_or-AreBytes (x ∷ d) zero h = h.0
get_or-AreBytes (x ∷ d) (suc o) h = get_or-AreBytes d o h.1
