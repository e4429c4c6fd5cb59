-- ===== src/Cec/ModuleFilter/Reached.antt =====
-- The module filters that a program can reach: the public operations of ModuleFilter, each a rule.
-- Its default constructor is private, so every filter comes from a key or from bytes.
use libstreetpass.Prelude.{ℕ, ◌≡◌, refl, ap, subst, List, [], ◌∷◌, length, All, arith}
use libstreetpass.Prelude.Result.{ok, ◌>>=◌, >>=-eq-ok}
use libstreetpass.Tins.{Tins}
use libstreetpass.Cec.Filter.{IsByte}
use libstreetpass.Cec.FilterList.{FilterList, new_filter_list, set_filters}
use libstreetpass.Cec.FilterList.Built.{Built, Built-IsFilterList, set_filters-eq-ok}
use libstreetpass.Cec.Key.{key_filter, new_key_filter}
use libstreetpass.Cec.Key.Wire.{IsKey, key_bytes, key_filter-Codec}
use libstreetpass.Cec.ModuleFilter.{
  ModuleFilter, new_module_filter, empty_module_filter, from_stream, set_key, key, to_bytes,
  from_bytes, put_raw_bytes_filters, put_title_filters,
}
use libstreetpass.Cec.ModuleFilter.Encoding.{IsModuleFilter, normal}
use libstreetpass.Cec.ModuleFilter.Lists.{IsRawBytesList, IsTitleList, IsKeyList}
use libstreetpass.Cec.ModuleFilter.RoundTrip.{from_bytes-to_bytes}
use libstreetpass.Cec.ModuleFilter.Safety.{from_stream-IsModuleFilter, key-IsModuleFilter}
use libstreetpass.Cec.RawBytes.{RawBytesFilter, raw_bytes_filter}
use libstreetpass.Cec.RawBytes
use libstreetpass.Cec.RawBytes.Made.{MadeRawBytes, MadeRawBytes-IsRawBytes}
use libstreetpass.Cec.RawBytes.Wire.{IsRawBytes, raw_bytes_filter-Codec}
use libstreetpass.Cec.Title.{TitleFilter, title_filter}
use libstreetpass.Cec.Title.Encoding.{title_filter-Codec}
use libstreetpass.Cec.Title.Made.{MadeTitle, MadeTitle-IsTitle}
use libstreetpass.Cec.Title.Wire.{IsTitle, title_bytes}

-- A std::array<u8, 8>.
abbrev pub IsKeyType : List ℕ → Type 0
IsKeyType k = (length k ≡ 8) × All IsByte k

pub data Reached (t : Tins) : ModuleFilter → Type 0 where
  constructed :
      (k : List ℕ) {f : ModuleFilter} → IsKeyType k → new_module_filter t k ≡ ok f → Reached t f
  parsed :
      (s s' : t.Input) {f : ModuleFilter}
      → All IsByte (t.pointer s)
      → from_stream t s ≡ ok (f, s')
      → Reached t f
  keyed :
      (f : ModuleFilter) (k : List ℕ) {f' : ModuleFilter}
      → IsKeyType k
      → set_key t f k ≡ ok f'
      → Reached t f
      → Reached t f'
  raw_bytes_changed :
      (f : ModuleFilter) (l : FilterList RawBytesFilter)
      → Built (raw_bytes_filter t) (MadeRawBytes t) l
      → Reached t f
      → Reached t (put_raw_bytes_filters f l)
  titles_changed :
      (f : ModuleFilter) (l : FilterList TitleFilter)
      → Built (title_filter t) (MadeTitle t) l
      → Reached t f
      → Reached t (put_title_filters f l)

module _ (t : Tins) where
  -- The setter of the key, on a list of keys of any length.
  set_key-IsModuleFilter :
      (f f' : ModuleFilter) (k : List ℕ)
      → IsRawBytesList t f.raw_bytes_list
      → IsTitleList t f.title_list
      → IsKeyList t f.key_list
      → IsKeyType k
      → set_key t f k ≡ ok f'
      → IsModuleFilter t f'
  unfolding set_key new_key_filter
  set_key-IsModuleFilter f f' k vr vt vk v e =
      let (l, e₁, h) =
        >>=-eq-ok (set_filters (key_filter t) f.key_list (new_key_filter k ∷ [])) _ e in
      let (same, valid) =
        set_filters-eq-ok (key_filter t) IsKey key_bytes (key_filter-Codec t) f.key_list l
          (new_key_filter k ∷ []) vk (v, tt) e₁ in
      let next : ModuleFilter = record f { key_list = l } in
      let done : next ≡ f' = cc h in subst (IsModuleFilter t) done (vr, vt, valid, ap length same)

  pub Reached-IsModuleFilter : {f : ModuleFilter} → Reached t f → IsModuleFilter t f
  unfolding new_module_filter empty_module_filter new_filter_list put_raw_bytes_filters
      put_title_filters
  Reached-IsModuleFilter (constructed k {f = f} v e) =
      set_key-IsModuleFilter (empty_module_filter t) f k (omega arith, refl, refl, tt)
        (omega arith, refl, refl, tt) (omega arith, refl, refl, tt) v e
  Reached-IsModuleFilter (parsed s s' {f = f} v e) = (from_stream-IsModuleFilter t s s' f v e).0
  Reached-IsModuleFilter (keyed f k {f' = f'} v e r) =
      let (vr, vt, vk, one) = Reached-IsModuleFilter r in set_key-IsModuleFilter f f' k vr vt vk v e
  Reached-IsModuleFilter (raw_bytes_changed f l b r) =
      let (vr, vt, vk, one) = Reached-IsModuleFilter r in
      unfold put_raw_bytes_filters in
      (
        Built-IsFilterList (raw_bytes_filter t) IsRawBytes RawBytes.struct_bytes
            (raw_bytes_filter-Codec t) (λ a m. MadeRawBytes-IsRawBytes t m) (omega arith) b,
        vt,
        vk,
        one,
      )
  Reached-IsModuleFilter (titles_changed f l b r) =
      let (vr, vt, vk, one) = Reached-IsModuleFilter r in
      unfold put_title_filters in
      (
        vr,
        Built-IsFilterList (title_filter t) IsTitle (title_bytes t.host) (title_filter-Codec t)
            (λ a m. MadeTitle-IsTitle t m) (omega arith) b,
        vk,
        one,
      )

  -- Whatever a program builds, it is valid: its key can be read and has eight bytes, and its bytes
  -- are read back as the filter, except that a list without filters comes back as a new list.
  pub Reached-readable :
      (f : ModuleFilter)
      → Reached t f
      → IsModuleFilter t f
        × ((k : List ℕ) × (key f ≡ ok k) × (length k ≡ 8))
        × ((to_bytes t f >>= λ bs. from_bytes t bs) ≡ ok (normal t f))
  Reached-readable f r =
      let v = Reached-IsModuleFilter r in (v, key-IsModuleFilter t f v, from_bytes-to_bytes t f v)
