-- ===== src/Cec/RawBytes/Matching.antt =====
-- When two raw bytes filters match, and what the constructor leaves to chance.
use libstreetpass.Prelude.{
  ℕ, zero, suc, ◌≤◌, ◌<◌, ◌≡◌, ◌≢◌, ◌↔◌, ◌⊎◌, inl, inr, refl, sym, ap, ◌∙◌, List, [], ◌∷◌, length,
  take, Bool, Bool-cases, ◌==◌, true, false, ==_iff, ==_refl, arith,
}
use libstreetpass.Prelude.Result.{Result, ok, undefined}
use libstreetpass.Cec.RawBytes.{RawBytesFilter, equal, match, new_raw_bytes_filter, set_raw_bytes}

-- How a comparison of `n` bytes ends.
abbrev Ends : ℕ → List ℕ → List ℕ → Result Bool → Type 0
Ends n xs ys r =
    ((take n xs ≡ take n ys) × (n ≤ length xs) × (r ≡ ok true))
    ⊎ ((take n xs ≡ take n ys) × (length xs < n) × (r ≡ undefined))
    ⊎ ((take n xs ≢ take n ys) × (r ≡ ok false))

abbrev tail_of : List ℕ → List ℕ
tail_of [] = []
tail_of (x ∷ xs) = xs

Ends-cons :
    (n x y : ℕ) (xs ys : List ℕ) (r : Result Bool)
    → x ≡ y
    → Ends n xs ys r
    → Ends (suc n) (x ∷ xs) (y ∷ ys) r
Ends-cons n x y xs ys r e (inl (same, h, q)) = inl (rw (e, same) refl, omega arith, q)
Ends-cons n x y xs ys r e (inr (inl (same, h, q))) = inr (inl (rw (e, same) refl, omega arith, q))
Ends-cons n x y xs ys r e (inr (inr (other, q))) = inr (inr ((λ p. other (ap tail_of p)), q))

heads_differ :
    (n x y : ℕ) (xs ys : List ℕ) → (x == y) ≡ false → take (suc n) (x ∷ xs) ≢ take (suc n) (y ∷ ys)
heads_differ n x y xs ys h q = cc (h, ==_refl x, q)

equal-Ends : (n : ℕ) (xs ys : List ℕ) → length xs ≡ length ys → Ends n xs ys (equal n xs ys)
unfolding equal
equal-Ends zero xs ys e = inl (refl, omega arith, refl)
equal-Ends (suc n) [] [] e = inr (inl (refl, omega arith, refl))
equal-Ends (suc n) [] (y ∷ ys) e = absurd (omega arith)
equal-Ends (suc n) (x ∷ xs) [] e = absurd (omega arith)
equal-Ends (suc n) (x ∷ xs) (y ∷ ys) e = elim (Bool-cases (x == y)) [
  | inl same ↦
      rw same (Ends-cons n x y xs ys _ ((==_iff x y).0 same) (equal-Ends n xs ys (omega arith)))
  | inr differ ↦ inr (inr ((λ q. heads_differ n x y xs ys differ q), rw differ refl))
]

take_all : (n : ℕ) (xs : List ℕ) → length xs ≤ n → take n xs ≡ xs
take_all zero [] h = refl
take_all zero (x ∷ xs) h = absurd (omega arith)
take_all (suc n) [] h = refl
take_all (suc n) (x ∷ xs) h = ap (◌∷◌ x) (take_all n xs (omega arith))

-- What each answer says of two compared lengths and two arrays.
abbrev Answers : ℕ → ℕ → List ℕ → List ℕ → Result Bool → Type 0
Answers n m xs ys r =
    ((r ≡ ok true) ↔ ((n ≡ m) × (n ≤ 16) × (take n xs ≡ take n ys)))
    × ((r ≡ ok false) ↔ ((n ≢ m) ⊎ (take n xs ≢ take n ys)))
    × ((r ≡ undefined) ↔ ((n ≡ m) × (16 < n) × (xs ≡ ys)))

Ends-Answers :
    (n m : ℕ) (xs ys : List ℕ) (r : Result Bool)
    → length xs ≡ 16
    → length ys ≡ 16
    → n ≡ m
    → Ends n xs ys r
    → Answers n m xs ys r
Ends-Answers n m xs ys r hx hy e (inl (same, h, q)) = (
  ((λ a. (e, omega arith, same)), λ a. q),
  ((λ a. cc), λ a. elim a [ inl o ↦ absurd (o e) | inr o ↦ absurd (o same) ]),
  ((λ a. cc), λ a. absurd (omega arith)),
)
Ends-Answers n m xs ys r hx hy e (inr (inl (same, h, q))) =
    let whole : xs ≡ ys = sym (take_all n xs (omega arith)) ∙ same ∙ take_all n ys (omega arith) in
    (
      ((λ a. cc), λ a. absurd (omega arith)),
      ((λ a. cc), λ a. elim a [ inl o ↦ absurd (o e) | inr o ↦ absurd (o same) ]),
      ((λ a. (e, omega arith, whole)), λ a. q),
    )
Ends-Answers n m xs ys r hx hy e (inr (inr (other, q))) = (
  ((λ a. cc), λ (p, le, same). absurd (other same)),
  ((λ a. inr other), λ a. q),
  ((λ a. cc), λ (p, lt, same). absurd (other (ap (take n) same))),
)

-- For two filters with arrays of 16 bytes and any compared lengths, each answer of `match`: it is
-- true exactly where the lengths are one and the same, of at most 16 bytes, and the compared bytes
-- are equal; it is false exactly where the lengths or the bytes up to this length differ; and it is
-- undefined, since the comparison goes past the arrays, exactly where the lengths are the same
-- above 16 and the arrays are equal.
pub match_iff :
    (own other : RawBytesFilter)
    → length own.raw_bytes ≡ 16
    → length other.raw_bytes ≡ 16
    → ((match own other ≡ ok true) ↔ (
        (own.cmp_length ≡ other.cmp_length)
        × (own.cmp_length ≤ 16)
        × (take own.cmp_length own.raw_bytes ≡ take own.cmp_length other.raw_bytes)))
      × ((match own other ≡ ok false) ↔ (
          (own.cmp_length ≢ other.cmp_length)
          ⊎ (take own.cmp_length own.raw_bytes ≢ take own.cmp_length other.raw_bytes)))
      × ((match own other ≡ undefined) ↔ (
          (own.cmp_length ≡ other.cmp_length)
          × (16 < own.cmp_length)
          × (own.raw_bytes ≡ other.raw_bytes)))
unfolding match
match_iff own other ho ht = elim (Bool-cases (own.cmp_length == other.cmp_length)) [
  | inl same ↦
      let n = own.cmp_length in
      rw same (
        Ends-Answers n other.cmp_length own.raw_bytes other.raw_bytes _ ho ht
          ((==_iff n other.cmp_length).0 same)
          (equal-Ends n own.raw_bytes other.raw_bytes (ho ∙ sym ht)))
  | inr differ ↦
      let apart : own.cmp_length ≢ other.cmp_length = λ e. ground arith in
      rw differ (
        ((λ a. cc), λ a. absurd (apart a.0)),
        ((λ a. inl apart), λ a. refl),
        ((λ a. cc), λ a. absurd (apart a.0)),
      )
]

-- The constructor leaves `cmp_length` as the memory held it: two filters that it makes of the same
-- bytes do not match where the memory differed.
pub new_raw_bytes_filter-match :
    (m m' f g : RawBytesFilter) (rb : List ℕ)
    → new_raw_bytes_filter m rb ≡ ok f
    → new_raw_bytes_filter m' rb ≡ ok g
    → m.cmp_length ≢ m'.cmp_length
    → match f g ≡ ok false
unfolding new_raw_bytes_filter set_raw_bytes match
new_raw_bytes_filter-match m m' f g rb e e' h = ground arith
