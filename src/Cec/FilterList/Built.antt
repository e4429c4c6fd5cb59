-- ===== src/Cec/FilterList/Built.antt =====
-- The lists that a program can build: the public operations of FilterList<T>, each a rule.
use libstreetpass.Prelude.{ℕ, ◌<◌, ◌≡◌, refl, subst, List, length, All, All-mono, arith}
use libstreetpass.Prelude.Result.{ok}
use libstreetpass.Tins.{Tins}
use libstreetpass.Cec.Filter.{IsByte, Filter, Codec, encode_all}
use libstreetpass.Cec.FilterList.{FilterList, new_filter_list, from_stream, set_flags, set_filters}
use libstreetpass.Cec.FilterList.Encoding.{IsFilterList, filter_list_format-Codec}
use libstreetpass.Cec.FilterList.Setter.{set_filters-IsFilterList, set_filters_too_long}
use native.Mathlib.Decide.{dec_le}

-- `Made` says which filters the program has. A setter that throws leaves the list as it was.
pub data Built {t : Tins} {A : Type 0} (F : Filter t A) (Made : A → Type 0)
    : FilterList A → Type 0 where
  new : Built F Made (new_filter_list F)
  parsed :
      (s s' : t.Input) {l : FilterList A}
      → All IsByte (t.pointer s)
      → from_stream F s ≡ ok (l, s')
      → Built F Made l
  flagged : (l : FilterList A) (flags : ℕ) → Built F Made l → Built F Made (set_flags l flags)
  filled :
      (l : FilterList A) (fs : List A) {l' : FilterList A}
      → All Made fs
      → set_filters F l fs ≡ ok l'
      → Built F Made l
      → Built F Made l'

module _ {t : Tins} {A : Type 0} (F : Filter t A) (IsValid : A → Type 0) (encode : A → List ℕ)
    (c : Codec F.format IsValid encode) where
  -- What the setter returns without an exception.
  pub set_filters-eq-ok :
      (l l' : FilterList A) (fs : List A)
      → IsFilterList F IsValid encode c l
      → All IsValid fs
      → set_filters F l fs ≡ ok l'
      → (l'.filters ≡ fs) × IsFilterList F IsValid encode c l'
  set_filters-eq-ok l l' fs w v e = elim (dec_le (length (encode_all encode fs)) 255) [
    | no long ↦ absurd (cc (e, set_filters_too_long F IsValid encode c l fs v (omega arith)))
    | yes fits ↦
        let (l₁, e₁, same, valid) = set_filters-IsFilterList F IsValid encode c l fs w v fits in
        (cc (same, e, e₁), subst (IsFilterList F IsValid encode c) (cc (e, e₁)) valid)
  ]

  -- Every list that can be built is valid, for any filters that are.
  pub Built-IsFilterList :
      {Made : A → Type 0} {l : FilterList A}
      → ((a : A) → Made a → IsValid a)
      → F.marker < 16
      → Built F Made l
      → IsFilterList F IsValid encode c l
  unfolding new_filter_list set_flags
  Built-IsFilterList valid small new = ((omega arith, small, omega arith), refl, refl, tt)
  Built-IsFilterList valid small (parsed s s' {l = l} v e) =
      ((filter_list_format-Codec F IsValid encode c).sound s s' l v e).0
  Built-IsFilterList valid small (flagged l flags b) =
      let (h, marker, len, vs) = Built-IsFilterList valid small b in
      ((omega arith, h.1, h.2), marker, len, vs)
  Built-IsFilterList valid small (filled l fs {l' = l'} made e b) =
      (set_filters-eq-ok l l' fs (Built-IsFilterList valid small b) (All-mono valid fs made) e).1
