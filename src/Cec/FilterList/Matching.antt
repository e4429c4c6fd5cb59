-- ===== src/Cec/FilterList/Matching.antt =====
-- What FilterList<T>::match does. Its loops test the counts of the lists and never the indices.
use libstreetpass.Prelude.{
  ℕ, zero, suc, ◌+◌, ◌^◌, ◌≤◌, ◌<◌, ◌≡◌, ◌↔◌, refl, sym, ap, ◌∙◌, List, [], ◌∷◌, length, get_elem?,
  drop, drop_none, some, nth, Bool, true, false, ◌==◌, ◌%◌, Bool-cases, inl, inr, none, some, arith,
}
use libstreetpass.Prelude.Result.{Result, ok, throws, undefined, stuck, ◌>>=◌}
use libstreetpass.Tins.{Tins}
use native.Mathlib.Decide.{dec_lt}
use libstreetpass.Cec.Filter.{Filter}
use libstreetpass.Cec.FilterList.{FilterList, count, match_inner, match_outer, match}

no_elements : {A : Type 0} (xs : List A) → (length xs == 0) ≡ true → xs ≡ []
no_elements [] e = refl
no_elements (x ∷ xs) e = ground arith

get_elem?-none : {A : Type 0} (xs : List A) (i : ℕ) → length xs ≤ i → get_elem? xs i ≡ none
get_elem?-none [] i h = refl
get_elem?-none (x ∷ xs) zero h = elim h [ ]
get_elem?-none (x ∷ xs) (suc i) h = get_elem?-none xs i (omega arith)

module _ {t : Tins} {A : Type 0} (F : Filter t A) where
  -- A search of one filter among some: past the last one the code reads outside the vector.
  unfoldable pub search_first : A → List A → Result Bool
  search_first x [] = undefined
  search_first x (y ∷ ys) =
      F.match x y >>= λ m. elim m [ true ↦ ok true | false ↦ search_first x ys ]

  inner_step :
      (fuel j : ℕ) (own other : FilterList A) (x y : A) (xs : List A)
      → own.filters ≡ x ∷ xs
      → (length other.filters == 0) ≡ false
      → j + 1 < 2 ^ 32
      → get_elem? other.filters j ≡ some y
      → match_inner F (suc fuel) 0 j own other ≡ (
          F.match x y >>= λ m. elim m [
            | true ↦ ok true
            | false ↦ match_inner F fuel 0 (j + 1) own other
          ])
  unfolding match_inner count
  inner_step fuel j own other x y xs eo more small ey =
      let wrap : (j + 1) % 2 ^ 32 ≡ j + 1 = omega arith in
      let step : match_inner F (suc fuel) 0 j own other ≡ go ((j + 1) % 2 ^ 32) =
        rw (more, match_inner, ap (λ (ys : List A). get_elem? ys 0) eo, ey) refl in
      step ∙ ap go wrap
    where
      go : ℕ → Result Bool
      go k =
          F.match x y >>= λ m. elim m [ true ↦ ok true | false ↦ match_inner F fuel 0 k own other ]

  inner-search_first :
      (fuel j : ℕ) (own other : FilterList A) (x : A) (xs : List A)
      → own.filters ≡ x ∷ xs
      → 0 < length other.filters
      → length other.filters < 2 ^ 32
      → j ≤ length other.filters
      → length other.filters < fuel + j
      → match_inner F fuel 0 j own other ≡ search_first x (drop j other.filters)
  unfolding match_inner search_first count
  inner-search_first zero j own other x xs eo pos small hj hf = absurd (omega arith)
  inner-search_first (suc fuel) j own other x xs eo pos small hj hf =
      let more : (length other.filters == 0) ≡ false = ground arith in
      elim (dec_lt j (length other.filters)) [
        | no past ↦
            rw
              (
                more,
                match_inner,
                ap (λ (ys : List A). get_elem? ys 0) eo,
                get_elem?-none other.filters j (omega arith),
                drop_none other.filters j (omega arith),
              )
              refl
        | yes inside ↦
            let (y, ey, dy) = nth other.filters j inside in
            let next =
              inner-search_first fuel (j + 1) own other x xs eo pos small (omega arith)
                (omega arith) in
            inner_step fuel j own other x y xs eo more (omega arith) ey
            ∙ ap (λ (r : Result Bool). F.match x y >>= λ m. elim m [ true ↦ ok true | false ↦ r ])
                next
            ∙ sym (ap (search_first x) dy)
      ]

  -- The outer loop returns what the inner one found, and goes on if that ended by its test.
  outer_more : ℕ → FilterList A → FilterList A → Result Bool → Result Bool
  outer_more fuel own other r = r >>= λ found. elim found [
    | true ↦ ok true
    | false ↦ match_outer F fuel ((0 + 1) % 2 ^ 32) own other
  ]

  search_first-outer_more :
      (fuel : ℕ) (own other : FilterList A) (x : A) (ys : List A)
      → outer_more fuel own other (search_first x ys) ≡ search_first x ys
  unfolding search_first outer_more
  search_first-outer_more fuel own other x [] = refl
  search_first-outer_more fuel own other x (y ∷ ys) =
      split (F.match x y) (search_first-outer_more fuel own other x ys)
    where
      split :
          (r : Result Bool)
          → outer_more fuel own other (search_first x ys) ≡ search_first x ys
          → outer_more fuel own other
              (r >>= λ m. elim m [ true ↦ ok true | false ↦ search_first x ys ])
            ≡ (r >>= λ m. elim m [ true ↦ ok true | false ↦ search_first x ys ])
      split (ok true) h = refl
      split (ok false) h = h
      split (throws e) h = refl
      split undefined h = refl
      split stuck h = refl

  -- Two lists with filters, the other of less than 2^32, and fuel for more rounds than it has
  -- filters: only the first filter of this list is tried, against each of the other list from the
  -- first on, and if none matches the code reads past the end of the other list.
  pub match-search_first :
      (fuel : ℕ) (own other : FilterList A) (x : A) (xs : List A)
      → own.filters ≡ x ∷ xs
      → 0 < length other.filters
      → length other.filters < fuel
      → length other.filters < 2 ^ 32
      → match F fuel own other ≡ search_first x other.filters
  unfolding match match_outer count outer_more
  match-search_first zero own other x xs eo pos hf small = absurd (omega arith)
  match-search_first (suc fuel) own other x xs eo pos hf small =
      let some_own : (length own.filters == 0) ≡ false = ground (arith, ap length eo) in
      rw
        (
          some_own,
          match_outer,
          inner-search_first (suc fuel) 0 own other x xs eo pos small (omega arith) (omega arith),
        )
        (search_first-outer_more fuel own other x other.filters)

  -- Against an empty list the inner loop ends at once, so the outer loop never does.
  match_outer_endless :
      (fuel i : ℕ) (own other : FilterList A)
      → 0 < length own.filters
      → other.filters ≡ []
      → match_outer F fuel i own other ≡ stuck
  unfolding match_outer match_inner count
  match_outer_endless zero i own other h e = refl
  match_outer_endless (suc fuel) i own other h e =
      let some_own : (length own.filters == 0) ≡ false = ground arith in
      let none_other : (length other.filters == 0) ≡ true = ground (arith, ap length e) in
      rw (some_own, match_outer, none_other, match_inner)
        (match_outer_endless fuel ((i + 1) % 2 ^ 32) own other h e)

  -- A list with filters against an empty one: the code does not return, whatever the fuel.
  pub match_endless :
      (fuel : ℕ) (own other : FilterList A)
      → 0 < length own.filters
      → other.filters ≡ []
      → match F fuel own other ≡ stuck
  unfolding match
  match_endless fuel own other = match_outer_endless fuel 0 own other

  match_outer-eq-false :
      (fuel i : ℕ) (own other : FilterList A)
      → match_outer F fuel i own other ≡ ok false
      → own.filters ≡ []
  unfolding match_outer count
  match_outer-eq-false zero i own other h = cc
  match_outer-eq-false (suc fuel) i own other h = elim (Bool-cases (length own.filters == 0)) [
    | inl e ↦ no_elements own.filters e
    | inr e ↦
        found (match_inner F (suc fuel) i i own other)
          (match_outer-eq-false fuel ((i + 1) % 2 ^ 32) own other) (rw (e, match_outer) at h)
  ]
    where
      found :
          (r : Result Bool)
          → (match_outer F fuel ((i + 1) % 2 ^ 32) own other ≡ ok false → own.filters ≡ [])
          → (r >>= λ b. elim b [
            | true ↦ ok true
            | false ↦ match_outer F fuel ((i + 1) % 2 ^ 32) own other
          ])
            ≡ ok false
          → own.filters ≡ []
      found (ok true) k h = cc
      found (ok false) k h = k h
      found (throws e) k h = cc
      found undefined k h = cc
      found stuck k h = cc

  -- With fuel for a round, a list answers no exactly if it is empty, whatever the other list holds.
  pub match-eq-false :
      (fuel : ℕ) (own other : FilterList A)
      → (match F (suc fuel) own other ≡ ok false) ↔ (own.filters ≡ [])
  unfolding match match_outer count
  match-eq-false fuel own other = (
    match_outer-eq-false (suc fuel) 0 own other,
    λ e.
        let none_own : (length own.filters == 0) ≡ true = ground (arith, ap length e) in
        rw (none_own, match_outer) refl,
  )
