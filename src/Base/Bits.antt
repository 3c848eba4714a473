-- ===== src/Base/Bits.antt =====
-- `|` and `&` of words, by their digits: what is set stays set.
use Prim.Native.Nat.{
  ℕ, zero, suc, ◌+◌, ◌*◌, ◌/◌, ◌%◌, ◌≤◌, min, max, bit_and, bit_or, digits, bit_and-bitwise,
  bit_or-bitwise,
}
use mathlib.Core.Path.{◌≡◌, refl}
use native.Mathlib.Omega.{arith}

-- An operation on words by one, `f`, on digits; `z` gives the result where the first word is used up.
module _ (z : ℕ → ℕ) (f : ℕ → ℕ → ℕ) (at_end : (b : ℕ) → z b ≡ z (b / 2) * 2 + f 0 (b % 2)) where
  -- Digits left over by the fuel are zeros.
  digits_more :
      (fuel extra a b : ℕ) → a ≤ fuel → fuel ≤ extra → digits z f extra a b ≡ digits z f fuel a b
  digits_more zero zero zero b le more = refl
  digits_more zero (suc extra) zero b le more = refl
  digits_more (suc fuel) (suc extra) zero b le more = refl
  digits_more (suc fuel) (suc extra) (suc a) b le more =
      let rest = digits_more fuel extra (suc a / 2) (b / 2) (omega arith) (omega arith) in
      omega arith
  digits_more zero extra (suc a) b le more = absurd (omega arith)
  digits_more (suc fuel) zero a b le more = absurd (omega arith)

  digits_halves :
      (a b : ℕ) → digits z f a a b ≡ digits z f (a / 2) (a / 2) (b / 2) * 2 + f (a % 2) (b % 2)
  digits_halves zero b = at_end b
  digits_halves (suc a) b =
      let half = suc a / 2 in
      let spare = digits_more half a half (b / 2) (omega arith) (omega arith) in omega arith

bit_and_step : (a b : ℕ) → bit_and a b ≡ bit_and (a / 2) (b / 2) * 2 + min (a % 2) (b % 2)
bit_and_step a b = omega (
  arith,
  digits_halves (λ _. 0) min (λ c. omega arith) a b,
  bit_and-bitwise a b,
  bit_and-bitwise (a / 2) (b / 2),
)

bit_or_step : (a b : ℕ) → bit_or a b ≡ bit_or (a / 2) (b / 2) * 2 + max (a % 2) (b % 2)
bit_or_step a b = omega (
  arith,
  digits_halves (λ c. c) max (λ c. omega arith) a b,
  bit_or-bitwise a b,
  bit_or-bitwise (a / 2) (b / 2),
)

-- Nothing is in an empty mask.
empty_mask : (bound w : ℕ) → w ≤ bound → bit_and w 0 ≡ 0
empty_mask bound zero le = refl
empty_mask zero (suc w) le = absurd (omega arith)
empty_mask (suc bound) (suc w) le =
    let above = empty_mask bound (suc w / 2) (omega arith) in omega (arith, bit_and_step (suc w) 0)

half-bit_or : (a b : ℕ) → bit_or a b / 2 ≡ bit_or (a / 2) (b / 2)
half-bit_or a b = omega (arith, bit_or_step a b)

low-bit_or : (a b : ℕ) → bit_or a b % 2 ≡ max (a % 2) (b % 2)
low-bit_or a b = omega (arith, bit_or_step a b)

mask_fuel : (n w m : ℕ) → m ≤ n → bit_and (bit_or w m) m ≡ m
mask_fuel n w zero h = empty_mask (bit_or w 0) (bit_or w 0) (omega arith)
mask_fuel zero w (suc m) h = absurd (omega arith)
mask_fuel (suc n) w (suc m) h =
    rw (bit_and_step (bit_or w (suc m)) (suc m), half-bit_or w (suc m), low-bit_or w (suc m))
      (omega (arith, mask_fuel n (w / 2) (suc m / 2) (omega arith)))

mono_fuel : (n w x m : ℕ) → m ≤ n → bit_and w m ≤ bit_and (bit_or w x) m
mono_fuel n w x zero h =
    omega (arith, empty_mask w w (omega arith), empty_mask (bit_or w x) (bit_or w x) (omega arith))
mono_fuel zero w x (suc m) h = absurd (omega arith)
mono_fuel (suc n) w x (suc m) h =
    rw (bit_and_step w (suc m), bit_and_step (bit_or w x) (suc m), half-bit_or w x, low-bit_or w x)
      (omega (arith, mono_fuel n (w / 2) (x / 2) (suc m / 2) (omega arith)))

-- The bits of a mask are set by `|`.
pub bit_and-bit_or : (w m : ℕ) → bit_and (bit_or w m) m ≡ m
bit_and-bit_or w m = mask_fuel m w m (omega arith)

-- And `|` clears none.
pub bit_and-bit_or-le : (w x m : ℕ) → bit_and w m ≤ bit_and (bit_or w x) m
bit_and-bit_or-le w x m = mono_fuel m w x m (omega arith)
