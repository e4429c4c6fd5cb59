-- ===== src/Text/Digits.antt =====
-- The hexadecimal digits of a number: reading them, how many there are, and where they end.
use libstreetpass.Prelude.{
  ℕ, zero, suc, ◌+◌, ◌-◌, ◌*◌, ◌/◌, ◌%◌, ◌^◌, ◌≤◌, ◌<◌, ◌≡◌, refl, List, [], ◌∷◌, ◌++◌, Bool, true,
  ◌&&◌, ◌||◌, ltb, leb, length, length-append, All, All-append, if◌then◌else◌, ltb-false, lt→ltb,
  arith,
}
use libstreetpass.Text.{digit, digits}
use native.Mathlib.Decide.{dec_lt}

abbrev pub digit_value : ℕ → ℕ
digit_value c = if ltb c b'a' then c - b'0' else c - b'a' + 10

-- The number that some digits stand for, after those that stand for `n`.
abbrev pub read_after : ℕ → List ℕ → ℕ
read_after n [] = n
read_after n (c ∷ cs) = read_after (n * 16 + digit_value c) cs

abbrev pub read_hex : List ℕ → ℕ
read_hex = read_after 0

abbrev pub is_digit : ℕ → Bool
is_digit c = leb b'0' c && leb c b'9' || leb b'a' c && leb c b'f'

digit_value-digit : (k : ℕ) → k < 16 → digit_value (digit k) ≡ k
digit_value-digit k h = ground arith

digit-is_digit : (k : ℕ) → k < 16 → is_digit (digit k) ≡ true
digit-is_digit k h = ground arith

read_after-append :
    (n : ℕ) (xs ys : List ℕ) → read_after n (xs ++ ys) ≡ read_after (read_after n xs) ys
read_after-append n [] ys = refl
read_after-append n (x ∷ xs) ys = read_after-append (n * 16 + digit_value x) xs ys

digits_small : (fuel n : ℕ) → n < 16 → digits (suc fuel) 16 n ≡ digit n ∷ []
unfolding digits
digits_small fuel n h = rw (lt→ltb n 16 h, digits) refl

digits_more :
    (fuel n : ℕ) → 16 ≤ n → digits (suc fuel) 16 n ≡ digits fuel 16 (n / 16) ++ digit (n % 16) ∷ []
unfolding digits
digits_more fuel n h = rw (ltb-false n 16 h, digits) refl

-- The digits of a number stand for it.
pub read_hex-digits : (fuel n : ℕ) → n < 16 ^ fuel → read_hex (digits fuel 16 n) ≡ n
read_hex-digits zero n h = unfold digits in omega arith
read_hex-digits (suc fuel) n h = elim (dec_lt n 16) [
  | yes small ↦ rw (digits_small fuel n small) (omega (arith, digit_value-digit n small))
  | no big ↦
      let low = digit_value-digit (n % 16) (omega arith) in
      let high = read_hex-digits fuel (n / 16) (omega arith) in
      rw
        (
          digits_more fuel n (omega arith),
          read_after-append 0 (digits fuel 16 (n / 16)) (digit (n % 16) ∷ []),
          high,
          low,
        )
        (omega arith)
]

pub digits-is_digit : (fuel n : ℕ) → All (λ c. is_digit c ≡ true) (digits fuel 16 n)
digits-is_digit zero n = unfold digits in tt
digits-is_digit (suc fuel) n = elim (dec_lt n 16) [
  | yes small ↦ rw (digits_small fuel n small) (digit-is_digit n small, tt)
  | no big ↦ rw (digits_more fuel n (omega arith)) (
      All-append _ (digits fuel 16 (n / 16)) _ (digits-is_digit fuel (n / 16))
        (digit-is_digit (n % 16) (omega arith), tt))
]

pub length-digits : (w fuel n : ℕ) → n < 16 ^ suc w → length (digits fuel 16 n) ≤ suc w
length-digits w zero n h = unfold digits in omega arith
length-digits zero (suc fuel) n h = rw (digits_small fuel n (omega arith)) (omega arith)
length-digits (suc w) (suc fuel) n h = elim (dec_lt n 16) [
  | yes small ↦ rw (digits_small fuel n small) (omega arith)
  | no big ↦ rw (digits_more fuel n (omega arith)) (
      omega (
        arith,
        length-append (digits fuel 16 (n / 16)) (digit (n % 16) ∷ []),
        length-digits w fuel (n / 16) (omega arith),
      ))
]
