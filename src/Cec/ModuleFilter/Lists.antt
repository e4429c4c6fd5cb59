-- ===== src/Cec/ModuleFilter/Lists.antt =====
-- The loop of ModuleFilter::from_stream, one list at a time.
use libstreetpass.Prelude.{
  ℕ, suc, ◌≡◌, refl, sym, ap, ◌∙◌, List, ◌++◌, append_assoc, length, length-append, true, false,
  take, take-length_append, arith,
}
use libstreetpass.Prelude.Result.{ok, ◌>>=◌}
use libstreetpass.Tins.{Tins}
use libstreetpass.Tins.Streams.{can_read_true}
use libstreetpass.Cec.FilterList.{FilterList}
use libstreetpass.Cec.FilterList.Encoding.{IsFilterList, list_bytes, filter_list_format-Codec}
use libstreetpass.Cec.Key.{KeyFilter, key_filter}
use libstreetpass.Cec.Key.Wire.{IsKey, key_bytes, key_filter-Codec}
use libstreetpass.Cec.Layout.{ListHeader, to_list_header, list_header_bytes}
use libstreetpass.Cec.Layout.RoundTrip.{
  IsListHeader, to_list_header-bytes, length-list_header_bytes,
}
use libstreetpass.Cec.ModuleFilter.{
  ModuleFilter, Found, read_raw_bytes_list, read_title_list, read_key_list, read_list, read_lists,
}
use libstreetpass.Cec.RawBytes.{RawBytesFilter, raw_bytes_filter}
use libstreetpass.Cec.RawBytes
use libstreetpass.Cec.RawBytes.Wire.{IsRawBytes, raw_bytes_filter-Codec}
use libstreetpass.Cec.Title.{TitleFilter, title_filter}
use libstreetpass.Cec.Title.Encoding.{title_filter-Codec}
use libstreetpass.Cec.Title.Wire.{IsTitle, title_bytes}

module _ (t : Tins) where
  open t use {Input, host, pointer, can_read}

  abbrev pub IsRawBytesList : FilterList RawBytesFilter → Type 0
  IsRawBytesList =
      IsFilterList (raw_bytes_filter t) IsRawBytes RawBytes.struct_bytes (raw_bytes_filter-Codec t)

  abbrev pub raw_bytes_list_bytes : FilterList RawBytesFilter → List ℕ
  raw_bytes_list_bytes =
      list_bytes (raw_bytes_filter t) IsRawBytes RawBytes.struct_bytes (raw_bytes_filter-Codec t)

  abbrev pub IsTitleList : FilterList TitleFilter → Type 0
  IsTitleList = IsFilterList (title_filter t) IsTitle (title_bytes host) (title_filter-Codec t)

  abbrev pub title_list_bytes : FilterList TitleFilter → List ℕ
  title_list_bytes = list_bytes (title_filter t) IsTitle (title_bytes host) (title_filter-Codec t)

  abbrev pub IsKeyList : FilterList KeyFilter → Type 0
  IsKeyList = IsFilterList (key_filter t) IsKey key_bytes (key_filter-Codec t)

  abbrev pub key_list_bytes : FilterList KeyFilter → List ℕ
  key_list_bytes = list_bytes (key_filter t) IsKey key_bytes (key_filter-Codec t)

  -- The marker that the loop looks at.
  abbrev pub marker_of : Input → ℕ
  marker_of s = (to_list_header host (take 2 (pointer s))).marker

  marker_of-header :
      (s : Input) (h : ListHeader) (m : ℕ) (elements rest : List ℕ)
      → IsListHeader h
      → h.marker ≡ m
      → pointer s ≡ (list_header_bytes host h ++ elements) ++ rest
      → marker_of s ≡ m
  marker_of-header s h m elements rest v em e =
      ap (λ (x : List ℕ). (to_list_header host (take 2 x)).marker)
        (e ∙ append_assoc (list_header_bytes host h) elements rest)
      ∙ ap (λ (x : List ℕ). (to_list_header host x).marker)
          (take-length_append 2 (list_header_bytes host h) (elements ++ rest)
            (sym (length-list_header_bytes host h)))
      ∙ ap (λ (x : ListHeader). x.marker) (to_list_header-bytes host h v)
      ∙ em

  pub read_list_raw_bytes :
      (s : Input) (f : ModuleFilter) (found : Found) (l : FilterList RawBytesFilter) (rest : List ℕ)
      → found.raw_bytes ≡ false
      → IsRawBytesList l
      → pointer s ≡ raw_bytes_list_bytes l ++ rest
      → (s' : Input) × (read_list t s f found
          ≡ ok (record f { raw_bytes_list = l }, record found { raw_bytes = true }, s'))
        × (pointer s' ≡ rest)
  unfolding read_list read_raw_bytes_list
  read_list_raw_bytes s f found l rest h v e =
      let c =
        filter_list_format-Codec (raw_bytes_filter t) IsRawBytes RawBytes.struct_bytes
          (raw_bytes_filter-Codec t) in
      let (s', e₁, p) = c.complete s l rest v e in
      (s', rw (marker_of-header s l.header 0 _ rest v.0 v.1 e, h, e₁) refl, p)

  pub read_list_title :
      (s : Input) (f : ModuleFilter) (found : Found) (l : FilterList TitleFilter) (rest : List ℕ)
      → found.title ≡ false
      → IsTitleList l
      → pointer s ≡ title_list_bytes l ++ rest
      → (s' : Input) × (read_list t s f found
          ≡ ok (record f { title_list = l }, record found { title = true }, s'))
        × (pointer s' ≡ rest)
  unfolding read_list read_title_list
  read_list_title s f found l rest h v e =
      let c =
        filter_list_format-Codec (title_filter t) IsTitle (title_bytes host)
          (title_filter-Codec t) in
      let (s', e₁, p) = c.complete s l rest v e in
      (s', rw (marker_of-header s l.header 1 _ rest v.0 v.1 e, h, e₁) refl, p)

  pub read_list_key :
      (s : Input) (f : ModuleFilter) (found : Found) (l : FilterList KeyFilter) (rest : List ℕ)
      → found.key ≡ false
      → IsKeyList l
      → pointer s ≡ key_list_bytes l ++ rest
      → (s' : Input) × (read_list t s f found
          ≡ ok (record f { key_list = l }, record found { key = true }, s'))
        × (pointer s' ≡ rest)
  unfolding read_list read_key_list
  read_list_key s f found l rest h v e =
      let c = filter_list_format-Codec (key_filter t) IsKey key_bytes (key_filter-Codec t) in
      let (s', e₁, p) = c.complete s l rest v e in
      (s', rw (marker_of-header s l.header 15 _ rest v.0 v.1 e, h, e₁) refl, p)

  -- The two cases of the loop's test.
  pub read_lists_end :
      (fuel : ℕ) (s : Input) (f : ModuleFilter) (found : Found)
      → can_read s 2 ≡ false
      → read_lists t (suc fuel) s f found ≡ ok (f, s)
  unfolding read_lists
  read_lists_end fuel s f found h = rw (h, read_lists)

  pub read_lists_more :
      (fuel : ℕ) (s : Input) (f : ModuleFilter) (found : Found)
      → can_read s 2 ≡ true
      → read_lists t (suc fuel) s f found
        ≡ (read_list t s f found >>= λ (f', found', s'). read_lists t fuel s' f' found')
  unfolding read_lists
  read_lists_more fuel s f found h = rw (h, read_lists)

  pub can_read_list :
      (s : Input) (h : ListHeader) (elements rest : List ℕ)
      → pointer s ≡ (list_header_bytes host h ++ elements) ++ rest
      → can_read s 2 ≡ true
  can_read_list s h elements rest e = can_read_true t s 2 (
      omega (
        arith,
        ap length e,
        length-append (list_header_bytes host h ++ elements) rest,
        length-append (list_header_bytes host h) elements,
        length-list_header_bytes host h,
      ))
