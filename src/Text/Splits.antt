-- ===== src/Text/Splits.antt =====
-- Where a piece of a text ends: two texts that start with a number of the same form are the same
-- only if the numbers are, and the rests.
use libstreetpass.Prelude.{
  ℕ, zero, suc, ◌-◌, ◌^◌, ◌<◌, ◌≡◌, refl, sym, ap, ◌∙◌, List, [], ◌∷◌, ◌++◌, true, false, length,
  length-append, length-replicate, get_or, replicate, All, arith,
}
use libstreetpass.Text.{digits}
use libstreetpass.Text.Digits.{is_digit, read_hex, read_hex-digits, digits-is_digit, length-digits}

-- A number filled up with zeros to some width.
abbrev pub padded : ℕ → ℕ → List ℕ
padded w n = replicate (w - length (digits 10 16 n)) b'0' ++ digits 10 16 n

-- The next character is no digit.
abbrev pub Stops : List ℕ → Type 0
Stops cs = is_digit (get_or cs 0 0) ≡ false

length-padded : (w n : ℕ) → n < 16 ^ suc w → length (padded (suc w) n) ≡ suc w
length-padded w n h =
    let zeros = suc w - length (digits 10 16 n) in
    omega (
      arith,
      length-digits w 10 n h,
      length-append (replicate zeros b'0') (digits 10 16 n),
      length-replicate {A = ℕ} zeros b'0',
    )

read_hex-zeros : (k : ℕ) (cs : List ℕ) → read_hex (replicate k b'0' ++ cs) ≡ read_hex cs
read_hex-zeros zero cs = refl
read_hex-zeros (suc k) cs = read_hex-zeros k cs

-- The digits of a number of 32 bits are read back, with zeros before them or not.
pub read_hex-padded : (w n : ℕ) → n < 2 ^ 32 → read_hex (padded w n) ≡ n
read_hex-padded w n h =
    read_hex-zeros (w - length (digits 10 16 n)) _ ∙ read_hex-digits 10 n (omega arith)

pub same_length :
    (xs ys r r' : List ℕ) → length xs ≡ length ys → xs ++ r ≡ ys ++ r' → (xs ≡ ys) × (r ≡ r')
same_length [] [] r r' h e = (refl, e)
same_length [] (y ∷ ys) r r' h e = absurd (omega arith)
same_length (x ∷ xs) [] r r' h e = absurd (omega arith)
same_length (x ∷ xs) (y ∷ ys) r r' h e =
    let (same, rest) = same_length xs ys r r' (omega arith) (cc e) in (cc (same, e), rest)

both_stop :
    (xs ys r r' : List ℕ)
    → All (λ c. is_digit c ≡ true) xs
    → All (λ c. is_digit c ≡ true) ys
    → Stops r
    → Stops r'
    → xs ++ r ≡ ys ++ r'
    → (xs ≡ ys) × (r ≡ r')
both_stop [] [] r r' v w s s' e = (refl, e)
both_stop [] (y ∷ ys) r r' v w s s' e =
    let first : get_or r 0 0 ≡ y = ap (λ (x : List ℕ). get_or x 0 0) e in
    absurd (cc (ap is_digit first, w.0, s))
both_stop (x ∷ xs) [] r r' v w s s' e =
    let first : x ≡ get_or r' 0 0 = ap (λ (x : List ℕ). get_or x 0 0) e in
    absurd (cc (ap is_digit first, v.0, s'))
both_stop (x ∷ xs) (y ∷ ys) r r' v w s s' e =
    let (same, rest) = both_stop xs ys r r' v.1 w.1 s s' (cc e) in (cc (same, e), rest)

pub padded_splits :
    (w n m : ℕ) (r r' : List ℕ)
    → n < 16 ^ suc w
    → m < 16 ^ suc w
    → n < 2 ^ 32
    → m < 2 ^ 32
    → padded (suc w) n ++ r ≡ padded (suc w) m ++ r'
    → (n ≡ m) × (r ≡ r')
padded_splits w n m r r' hn hm vn vm e =
    let (same, rest) =
      same_length (padded (suc w) n) (padded (suc w) m) r r'
        (length-padded w n hn ∙ sym (length-padded w m hm)) e in
    (sym (read_hex-padded (suc w) n vn) ∙ ap read_hex same ∙ read_hex-padded (suc w) m vm, rest)

pub digits_splits :
    (n m : ℕ) (r r' : List ℕ)
    → n < 2 ^ 32
    → m < 2 ^ 32
    → Stops r
    → Stops r'
    → digits 10 16 n ++ r ≡ digits 10 16 m ++ r'
    → (n ≡ m) × (r ≡ r')
digits_splits n m r r' hn hm s s' e =
    let (same, rest) =
      both_stop (digits 10 16 n) (digits 10 16 m) r r' (digits-is_digit 10 n) (digits-is_digit 10 m)
        s s' e in
    (
      sym (read_hex-digits 10 n (omega arith))
          ∙ ap read_hex same
          ∙ read_hex-digits 10 m (omega arith),
      rest,
    )
