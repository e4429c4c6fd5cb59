-- ===== src/Cec/FilterList/Setter.antt =====
-- The setter of the filters: the sum of the sizes in a uint8_t does not wrap.
use libstreetpass.Prelude.{
  ℕ, ◌+◌, ◌%◌, ◌≤◌, ◌<◌, ◌≡◌, refl, ap, ◌∙◌, List, [], ◌∷◌, length, length-append, All, false, ltb,
  lt→ltb, ltb-false, arith,
}
use libstreetpass.Prelude.Result.{ok, throws, length_error}
use libstreetpass.Tins.{Tins}
use libstreetpass.Cec.Filter.{Filter, Codec, encode_all}
use libstreetpass.Cec.FilterList.{FilterList, checked_size, set_filters}
use libstreetpass.Cec.FilterList.Encoding.{IsFilterList}
use native.Mathlib.Decide.{dec_le}

module _ {t : Tins} {A : Type 0} (F : Filter t A) (IsValid : A → Type 0) (encode : A → List ℕ)
    (c : Codec F.format IsValid encode) where
  checked_size_fits :
      (es : List A) (total : ℕ)
      → All IsValid es
      → total + length (encode_all encode es) ≤ 255
      → checked_size F total es ≡ ok (total + length (encode_all encode es))
  unfolding checked_size
  checked_size_fits [] total v h = ap ok (omega arith)
  checked_size_fits (e ∷ es) total v h =
      let more = length-append (encode e) (encode_all encode es) in
      let size_lem = c.byte_size-encode e v.0 in
      let fits : ltb 255 (F.byte_size e + total) ≡ false = ltb-false 255 _ (omega arith) in
      let wrap : (total + F.byte_size e) % 256 ≡ total + length (encode e) = omega arith in
      rw (fits, wrap)
        (checked_size_fits es (total + length (encode e)) v.1 (omega arith) ∙ ap ok (omega arith))

  checked_size_too_long :
      (es : List A) (total : ℕ)
      → All IsValid es
      → total ≤ 255
      → 255 < total + length (encode_all encode es)
      → checked_size F total es
        ≡ throws (length_error "Byte size of filter list cannot exceed 0xFF")
  unfolding checked_size
  checked_size_too_long [] total v ht h = absurd (omega arith)
  checked_size_too_long (e ∷ es) total v ht h =
      let more = length-append (encode e) (encode_all encode es) in
      let size_lem = c.byte_size-encode e v.0 in
      elim (dec_le (F.byte_size e + total) 255) [
        | no big ↦ rw (lt→ltb 255 (F.byte_size e + total) (omega arith)) refl
        | yes small ↦
            let wrap : (total + F.byte_size e) % 256 ≡ total + length (encode e) = omega arith in
            rw (ltb-false 255 (F.byte_size e + total) small, wrap)
              (checked_size_too_long es (total + length (encode e)) v.1 (omega arith) (omega arith))
      ]

  -- The setter takes valid filters of 255 bytes together or less, and the list is valid again: its
  -- header holds the size of its filters.
  pub set_filters-IsFilterList :
      (l : FilterList A) (fs : List A)
      → IsFilterList F IsValid encode c l
      → All IsValid fs
      → length (encode_all encode fs) ≤ 255
      → (l' : FilterList A) × (set_filters F l fs ≡ ok l')
        × (l'.filters ≡ fs)
        × IsFilterList F IsValid encode c l'
  unfolding set_filters
  set_filters-IsFilterList l fs (vh, marker, len, vs) v h = (
    record l { header = record l.header { length = length (encode_all encode fs) }; filters = fs },
    rw (checked_size_fits fs 0 v (omega arith)) (ground arith),
    refl,
    ((vh.0, vh.1, omega arith), marker, refl, v),
  )

  -- The setter refuses valid filters of more than 255 bytes together, also where the sum in a
  -- uint8_t would have wrapped.
  pub set_filters_too_long :
      (l : FilterList A) (fs : List A)
      → All IsValid fs
      → 255 < length (encode_all encode fs)
      → set_filters F l fs ≡ throws (length_error "Byte size of filter list cannot exceed 0xFF")
  unfolding set_filters
  set_filters_too_long l fs v h = rw (checked_size_too_long fs 0 v (omega arith) (omega arith)) refl
