-- ===== src/Cec/ModuleFilter/Encoding.antt =====
-- A module filter against its bytes: what `operator bytes` writes and what `from_stream` reads back.
use libstreetpass.Prelude.{
  ℕ, ◌+◌, ◌≡◌, ◌==◌, refl, sym, ap, ◌∙◌, List, [], ◌++◌, append-nil, length, length-append, Bool,
  true, false, Bool-cases, inl, inr, if◌then◌else◌, replicate, arith,
}
use libstreetpass.Prelude.Result.{Result, ok}
use libstreetpass.Tins.{Tins}
use libstreetpass.Tins.Streams.{write_fits, room_fresh, buffer_full}
use libstreetpass.Cec.FilterList.{FilterList, count, new_filter_list}
use libstreetpass.Cec.FilterList
use libstreetpass.Cec.FilterList.Encoding.{filter_list_format-Codec, byte_size-length}
use libstreetpass.Cec.Key.{key_filter}
use libstreetpass.Cec.Key.Wire.{IsKey, key_bytes, key_filter-Codec}
use libstreetpass.Cec.ModuleFilter.{ModuleFilter, to_bytes, byte_size, write_unless_empty}
use libstreetpass.Cec.ModuleFilter.Lists.{
  IsRawBytesList, raw_bytes_list_bytes, IsTitleList, title_list_bytes, IsKeyList, key_list_bytes,
}
use libstreetpass.Cec.RawBytes.{RawBytesFilter, raw_bytes_filter}
use libstreetpass.Cec.RawBytes
use libstreetpass.Cec.RawBytes.Wire.{IsRawBytes, raw_bytes_filter-Codec}
use libstreetpass.Cec.Title.{title_filter}
use libstreetpass.Cec.Title.Encoding.{title_filter-Codec}
use libstreetpass.Cec.Title.Wire.{IsTitle, title_bytes}

-- A list that is written only if it holds filters.
abbrev pub unless_empty : {A : Type 0} → FilterList A → List ℕ → List ℕ
unless_empty l bytes = if count l == 0 then [] else bytes

module _ (t : Tins) where
  open t use {
    Input, Output, host, pointer, input, written, room, output, written-output, pointer-input,
  }

  -- Each list fits its header and holds valid filters, and there is one key.
  abbrev pub IsModuleFilter : ModuleFilter → Type 0
  IsModuleFilter f =
      IsRawBytesList t f.raw_bytes_list
      × IsTitleList t f.title_list
      × IsKeyList t f.key_list
      × (length f.key_list.filters ≡ 1)

  abbrev pub module_bytes : ModuleFilter → List ℕ
  module_bytes f =
      unless_empty f.raw_bytes_list (raw_bytes_list_bytes t f.raw_bytes_list)
      ++ unless_empty f.title_list (title_list_bytes t f.title_list)
      ++ key_list_bytes t f.key_list

  -- An empty list loses its header, and with it the flags.
  abbrev pub normal : ModuleFilter → ModuleFilter
  normal f = record f {
    raw_bytes_list =
        if count f.raw_bytes_list == 0
        then new_filter_list (raw_bytes_filter t)
        else f.raw_bytes_list;
    title_list = if count f.title_list == 0 then new_filter_list (title_filter t) else f.title_list;
  }

  write_unless_empty_fits :
      {A : Type 0} (o : Output) (l : FilterList A) (bytes : FilterList A → Result (List ℕ))
      (bs : List ℕ) (k : ℕ)
      → bytes l ≡ ok bs
      → length (room o) ≡ length (unless_empty l bs) + k
      → (o' : Output) × (write_unless_empty t o l bytes ≡ ok o')
        × (written o' ≡ written o ++ unless_empty l bs)
        × (length (room o') ≡ k)
  unfolding write_unless_empty
  write_unless_empty_fits o l bytes bs k e h = elim (Bool-cases (count l == 0)) [
    | inl z ↦ let h' = rw z at h in rw z (o, refl, sym (append-nil (written o)), omega arith)
    | inr z ↦ let h' = rw z at h in rw (z, e) (write_fits t o bs k h')
  ]

  byte_size-module_bytes :
      (f : ModuleFilter) → IsModuleFilter f → byte_size t f ≡ length (module_bytes f)
  unfolding byte_size
  byte_size-module_bytes f (vr, vt, vk, one) =
      let raw =
        byte_size-length (raw_bytes_filter t) IsRawBytes RawBytes.struct_bytes
          (raw_bytes_filter-Codec t) f.raw_bytes_list vr in
      let titles =
        byte_size-length (title_filter t) IsTitle (title_bytes host) (title_filter-Codec t)
          f.title_list vt in
      let keys =
        byte_size-length (key_filter t) IsKey key_bytes (key_filter-Codec t) f.key_list vk in
      lengths (count f.raw_bytes_list == 0) (count f.title_list == 0) _ _ _ _ _ _ raw titles keys
    where
      lengths :
          (a b : Bool) (r u k : ℕ) (rs us ks : List ℕ)
          → r ≡ length rs
          → u ≡ length us
          → k ≡ length ks
          → k + (if a then 0 else r) + (if b then 0 else u)
            ≡ length ((if a then [] else rs) ++ (if b then [] else us) ++ ks)
      lengths a b r u k rs us ks er eu ek = omega (
        arith,
        length-append ((if a then [] else rs) ++ (if b then [] else us)) ks,
        length-append (if a then [] else rs) (if b then [] else us),
        pick a r rs er,
        pick b u us eu,
      )
        where
          pick :
              (c : Bool) (n : ℕ) (ns : List ℕ)
              → n ≡ length ns
              → (if c then 0 else n) ≡ length (if c then [] else ns)
          pick true n ns e = refl
          pick false n ns e = e

  -- For a valid module filter `operator bytes` never overruns or underruns its buffer: it returns
  -- the lists that hold filters, in the order raw bytes, titles, key.
  pub to_bytes-module_bytes :
      (f : ModuleFilter) → IsModuleFilter f → to_bytes t f ≡ ok (module_bytes f)
  unfolding to_bytes
  to_bytes-module_bytes f (vr, vt, vk, one) =
      let raw =
        filter_list_format-Codec (raw_bytes_filter t) IsRawBytes RawBytes.struct_bytes
          (raw_bytes_filter-Codec t) in
      let titles =
        filter_list_format-Codec (title_filter t) IsTitle (title_bytes host)
          (title_filter-Codec t) in
      let keys = filter_list_format-Codec (key_filter t) IsKey key_bytes (key_filter-Codec t) in
      let rb : List ℕ = unless_empty f.raw_bytes_list (raw_bytes_list_bytes t f.raw_bytes_list) in
      let tb : List ℕ = unless_empty f.title_list (title_list_bytes t f.title_list) in
      let kb : List ℕ = key_list_bytes t f.key_list in
      let fresh : Output = output (replicate (byte_size t f) 0) in
      let (o₁, e₁, w₁, r₁) =
        write_unless_empty_fits fresh f.raw_bytes_list (FilterList.to_bytes (raw_bytes_filter t)) _
          (length tb + length kb) (raw.to_bytes-encode f.raw_bytes_list vr)
          (omega (
            arith,
            room_fresh t (byte_size t f),
            byte_size-module_bytes f (vr, vt, vk, one),
            length-append (rb ++ tb) kb,
            length-append rb tb,
          )) in
      let (o₂, e₂, w₂, r₂) =
        write_unless_empty_fits o₁ f.title_list (FilterList.to_bytes (title_filter t)) _ (length kb)
          (titles.to_bytes-encode f.title_list vt) (omega arith) in
      let (o₃, e₃, w₃, r₃) = write_fits t o₂ kb 0 (omega arith) in
      let all : written o₃ ≡ (rb ++ tb) ++ kb =
        w₃
        ∙ ap (λ (x : List ℕ). x ++ kb)
            (w₂
              ∙ ap (λ (x : List ℕ). x ++ tb)
                  (w₁ ∙ ap (λ (x : List ℕ). x ++ rb) (written-output _))) in
      rw (e₁, e₂, keys.to_bytes-encode f.key_list vk, e₃) (ap ok (buffer_full t o₃ r₃ ∙ all))
