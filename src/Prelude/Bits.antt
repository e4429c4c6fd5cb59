-- ===== src/Prelude/Bits.antt =====
-- The lowest bit of a word: what `|`, `&` and `& ~` with 1 make of it and of the others.
use Prim.Native.Nat.{
  ℕ, zero, suc, ◌+◌, ◌-◌, ◌*◌, ◌/◌, ◌%◌, ◌^◌, ◌≤◌, ◌<◌, min, max, bit_and, bit_or, digits,
  bit_and-bitwise, bit_or-bitwise,
}
use mathlib.Core.Path.{◌≡◌, refl}
use native.Mathlib.Omega.{arith}

or_digits-zero : (n a : ℕ) → a ≤ n → digits (λ b. b) max n a 0 ≡ a
or_digits-zero zero zero h = refl
or_digits-zero zero (suc a) h = absurd (omega arith)
or_digits-zero (suc n) zero h = refl
or_digits-zero (suc n) (suc a) h = ground (arith, or_digits-zero n (suc a / 2) (omega arith))

-- `w | 1`.
pub bit_or-one : (w : ℕ) → (bit_or w 1 % 2 ≡ 1) × (bit_or w 1 / 2 ≡ w / 2)
bit_or-one zero = (refl, refl)
bit_or-one (suc w) =
    ground (arith, bit_or-bitwise (suc w) 1, or_digits-zero w (suc w / 2) (omega arith))

and_digits-zero : (n a : ℕ) → digits (λ b. zero) min n a 0 ≡ 0
and_digits-zero zero a = refl
and_digits-zero (suc n) zero = refl
and_digits-zero (suc n) (suc a) = ground (arith, and_digits-zero n (suc a / 2))

-- `w & 1`.
pub bit_and-one : (w : ℕ) → bit_and w 1 ≡ w % 2
bit_and-one zero = refl
bit_and-one (suc w) = ground (arith, bit_and-bitwise (suc w) 1, and_digits-zero w (suc w / 2))

-- A mask of so many ones.
abbrev ones : ℕ → ℕ
ones zero = 0
ones (suc m) = ones m * 2 + 1

and_digits-ones : (n a m : ℕ) → a ≤ n → a ≤ ones m → digits (λ b. zero) min n a (ones m) ≡ a
and_digits-ones zero zero m h k = refl
and_digits-ones zero (suc a) m h k = absurd (omega arith)
and_digits-ones (suc n) zero m h k = refl
and_digits-ones (suc n) (suc a) zero h k = absurd (omega arith)
and_digits-ones (suc n) (suc a) (suc m) h k =
    let half : (ones m * 2 + 1) / 2 ≡ ones m = omega arith in
    let low : (ones m * 2 + 1) % 2 ≡ 1 = omega arith in
    rw (half, low) (ground (arith, and_digits-ones n (suc a / 2) m (omega arith) (omega arith)))

-- `w & ~1` of a uint16_t.
pub bit_and-not_one : (w : ℕ) → w < 2 ^ 16 → bit_and w (2 ^ 16 - 1 - 1) ≡ w / 2 * 2
bit_and-not_one zero h = refl
bit_and-not_one (suc w) h = ground (
  arith,
  bit_and-bitwise (suc w) 65534,
  and_digits-ones w (suc w / 2) 15 (omega arith) (omega arith),
)
