-- ===== src/Cec/Title/Matching.antt =====
-- When two title filters match.
use libstreetpass.Prelude.{
  ℕ, zero, suc, ◌+◌, ◌≤◌, ◌≡◌, refl, ◌∙◌, List, [], ◌∷◌, length, nth, drop_none, drop, Bool, true,
  false, ◌&&◌, ◌==◌, Bool-cases, inl, inr, ==_iff, arith,
}
use libstreetpass.Prelude.Result.{ok}
use libstreetpass.Tins.{Tins}
use libstreetpass.Cec.Mve.{Mve}
use libstreetpass.Cec.Mve
use libstreetpass.Cec.SendMode
use libstreetpass.Cec.SendMode.Compatible.{match_comm}
use libstreetpass.Cec.Title.{TitleFilter, match_mves, match, title_id}
use Prim.Native.Nat.{bit_and}

-- All pairs of MVEs at one position match.
unfoldable pub all_match : List Mve → List Mve → Bool
all_match [] ys = true
all_match (x ∷ xs) [] = true
all_match (x ∷ xs) (y ∷ ys) = Mve.match x y && all_match xs ys

-- The loop with `n` rounds left stands at index `i`; it reads inside both lists.
match_mves-all_match :
    (n i : ℕ) (own other : List Mve)
    → i + n ≡ length own
    → length own ≡ length other
    → (m : Bool) → match_mves n i own other m ≡ ok (m && all_match (drop i own) (drop i other))
unfolding match_mves all_match
match_mves-all_match zero i own other e l true = rw (drop_none own i (omega arith)) refl
match_mves-all_match zero i own other e l false = refl
match_mves-all_match (suc n) i own other e l false = refl
match_mves-all_match (suc n) i own other e l true =
    let (a, ea, da) = nth own i (omega arith) in
    let (b, eb, db) = nth other i (omega arith) in
    rw (ea, eb, da, db) (match_mves-all_match n (i + 1) own other (omega arith) l (Mve.match a b))

module _ (t : Tins) where
  -- `match` reads inside the lists, and answers whether titles and lengths are equal and the modes
  -- and all pairs of MVEs match.
  pub match_lem :
      (own other : TitleFilter)
      → match t own other
        ≡ ok (
            (title_id t own == title_id t other)
            && (SendMode.match own.send_mode other.send_mode
                && ((length own.mves == length other.mves) && all_match own.mves other.mves)))
  unfolding match
  match_lem own other = elim (Bool-cases (length own.mves == length other.mves)) [
    | inr e ↦ rw e (ground arith)
    | inl e ↦
        rw
          (
            e,
            match_mves-all_match (length own.mves) 0 own.mves other.mves (omega arith)
                ((==_iff (length own.mves) (length other.mves)).0 e) true,
          )
          (ground arith)
  ]

  ==_comm : (a b : ℕ) → (a == b) ≡ (b == a)
  ==_comm a b = ground arith

  mve_match_comm : (a b : Mve) → Mve.match a b ≡ Mve.match b a
  unfolding Mve.match
  mve_match_comm a b =
      &&_comm (bit_and a.mask a.expectation == bit_and a.mask b.value)
        (bit_and b.mask b.expectation == bit_and b.mask a.value)
    where
      &&_comm : (x y : Bool) → (x && y) ≡ (y && x)
      &&_comm true true = refl
      &&_comm true false = refl
      &&_comm false true = refl
      &&_comm false false = refl

  all_match_comm : (xs ys : List Mve) → length xs ≡ length ys → all_match xs ys ≡ all_match ys xs
  unfolding all_match
  all_match_comm [] [] e = refl
  all_match_comm [] (y ∷ ys) e = refl
  all_match_comm (x ∷ xs) [] e = refl
  all_match_comm (x ∷ xs) (y ∷ ys) e =
      rw (mve_match_comm x y, all_match_comm xs ys (omega arith)) refl

  -- Two title filters with valid modes match one way if they match the other way.
  pub match-symmetric :
      (own other : TitleFilter)
      → own.send_mode ≤ 3
      → other.send_mode ≤ 3
      → match t own other ≡ match t other own
  match-symmetric own other ho ht = elim (Bool-cases (length own.mves == length other.mves)) [
    | inr e ↦
        let e' : (length other.mves == length own.mves) ≡ false =
          ==_comm (length other.mves) (length own.mves) ∙ e in
        rw
          (
            match_lem own other,
            match_lem other own,
            e,
            e',
            ==_comm (title_id t own) _,
            match_comm own.send_mode other.send_mode ho ht,
          )
          refl
    | inl e ↦
        let e' : (length other.mves == length own.mves) ≡ true =
          ==_comm (length other.mves) (length own.mves) ∙ e in
        rw
          (
            match_lem own other,
            match_lem other own,
            e,
            e',
            ==_comm (title_id t own) _,
            match_comm own.send_mode other.send_mode ho ht,
            all_match_comm own.mves other.mves ((==_iff (length own.mves) (length other.mves)).0 e),
          )
          refl
  ]
