-- ===== src/Cec/ModuleFilter/Rounds.antt =====
-- A round of the loop of ModuleFilter::from_stream, on any input.
use libstreetpass.Prelude.{
  ℕ, suc, ◌+◌, ◌≡◌, ◌==◌, subst, List, take, All, All-append_right, Bool, true, false,
  if◌then◌else◌, arith,
}
use libstreetpass.Prelude.Result.{Result, ok, throws, message, >>=-eq-ok, throw_if, throw_if-eq-ok}
use libstreetpass.Tins.{Tins}
use libstreetpass.Tins.Streams.{IsReported}
use libstreetpass.Cec.Filter.{IsByte, Filter, Codec}
use libstreetpass.Cec.Filter.Struct.{IsReported-bind}
use libstreetpass.Cec.FilterList.{FilterList, count}
use libstreetpass.Cec.FilterList
use libstreetpass.Cec.Layout
use libstreetpass.Cec.FilterList.Encoding.{
  IsFilterList, list_bytes, filter_list_format-Codec, throw_if-IsReported,
}
use libstreetpass.Cec.Key.{key_filter}
use libstreetpass.Cec.Key.Wire.{IsKey, key_bytes, key_filter-Codec}
use libstreetpass.Cec.ModuleFilter.{
  ModuleFilter, Found, read_raw_bytes_list, read_title_list, read_key_list, read_list,
}
use libstreetpass.Cec.ModuleFilter.Lists.{IsRawBytesList, IsTitleList, IsKeyList}
use libstreetpass.Cec.RawBytes.{RawBytesFilter, raw_bytes_filter}
use libstreetpass.Cec.RawBytes
use libstreetpass.Cec.RawBytes.Wire.{IsRawBytes, raw_bytes_filter-Codec}
use libstreetpass.Cec.Title.{title_filter}
use libstreetpass.Cec.Title.Encoding.{title_filter-Codec}
use libstreetpass.Cec.Title.Wire.{IsTitle, title_bytes}

-- The kinds of list that the loop may still read.
abbrev pub unread : Bool → ℕ
unread b = if b then 0 else 1

abbrev pub left : Found → ℕ
left found = unread found.raw_bytes + unread found.title + unread found.key

module _ (t : Tins) where
  open t use {Input, host, pointer, can_read}

  abbrev pub HasLists : ModuleFilter → Type 0
  HasLists f =
      IsRawBytesList t f.raw_bytes_list × IsTitleList t f.title_list × IsKeyList t f.key_list

  -- A list that a codec reads leaves bytes behind it.
  list_sound :
      {A : Type 0} (F : Filter t A) (IsValid : A → Type 0) (encode : A → List ℕ)
      (c : Codec F.format IsValid encode) (s s' : Input) (l : FilterList A)
      → All IsByte (pointer s)
      → FilterList.from_stream F s ≡ ok (l, s')
      → IsFilterList F IsValid encode c l × All IsByte (pointer s')
  list_sound F IsValid encode c s s' l v h =
      let (valid, split) = (filter_list_format-Codec F IsValid encode c).sound s s' l v h in
      (
        valid,
        All-append_right IsByte (list_bytes F IsValid encode c l) (pointer s')
            (subst (All IsByte) split v),
      )

  -- What a round keeps: the lists are valid, the rest of the stream is bytes, and a kind of list
  -- is used up.
  abbrev pub Keeps : ModuleFilter → Found → ModuleFilter → Found → Input → Type 0
  Keeps f found f' found' s' =
      (HasLists f → HasLists f') × All IsByte (pointer s') × (left found ≡ suc (left found'))

  read_raw_bytes_list-Keeps :
      (s s' : Input) (f f' : ModuleFilter) (found found' : Found)
      → All IsByte (pointer s)
      → read_raw_bytes_list t s f found ≡ ok (f', found', s')
      → Keeps f found f' found' s'
  unfolding read_raw_bytes_list
  read_raw_bytes_list-Keeps s s' f f' found found' v h =
      let (_, e₁, h₁) = >>=-eq-ok (throw_if found.raw_bytes _) _ h in
      let ((l, s₁), e₂, h₂) = >>=-eq-ok (FilterList.from_stream (raw_bytes_filter t) s) _ h₁ in
      let fresh = throw_if-eq-ok found.raw_bytes _ e₁ in
      let (valid, bytes) =
        list_sound (raw_bytes_filter t) IsRawBytes RawBytes.struct_bytes (raw_bytes_filter-Codec t)
          s s₁ l v e₂ in
      let ef : record f { raw_bytes_list = l } ≡ f' = cc h₂ in
      let eg : record found { raw_bytes = true } ≡ found' = cc h₂ in
      let es : s₁ ≡ s' = cc h₂ in
      (
        λ (vr, vt, vk). subst HasLists ef (valid, vt, vk),
        subst (λ x. All IsByte (pointer x)) es bytes,
        subst (λ x. left found ≡ suc (left x)) eg (rw fresh (omega arith)),
      )

  read_title_list-Keeps :
      (s s' : Input) (f f' : ModuleFilter) (found found' : Found)
      → All IsByte (pointer s)
      → read_title_list t s f found ≡ ok (f', found', s')
      → Keeps f found f' found' s'
  unfolding read_title_list
  read_title_list-Keeps s s' f f' found found' v h =
      let (_, e₁, h₁) = >>=-eq-ok (throw_if found.title _) _ h in
      let ((l, s₁), e₂, h₂) = >>=-eq-ok (FilterList.from_stream (title_filter t) s) _ h₁ in
      let fresh = throw_if-eq-ok found.title _ e₁ in
      let (valid, bytes) =
        list_sound (title_filter t) IsTitle (title_bytes host) (title_filter-Codec t) s s₁ l v e₂ in
      let ef : record f { title_list = l } ≡ f' = cc h₂ in
      let eg : record found { title = true } ≡ found' = cc h₂ in
      let es : s₁ ≡ s' = cc h₂ in
      (
        λ (vr, vt, vk). subst HasLists ef (vr, valid, vk),
        subst (λ x. All IsByte (pointer x)) es bytes,
        subst (λ x. left found ≡ suc (left x)) eg (rw fresh (omega arith)),
      )

  read_key_list-Keeps :
      (s s' : Input) (f f' : ModuleFilter) (found found' : Found)
      → All IsByte (pointer s)
      → read_key_list t s f found ≡ ok (f', found', s')
      → Keeps f found f' found' s'
  unfolding read_key_list
  read_key_list-Keeps s s' f f' found found' v h =
      let (_, e₁, h₁) = >>=-eq-ok (throw_if found.key _) _ h in
      let ((l, s₁), e₂, h₂) = >>=-eq-ok (FilterList.from_stream (key_filter t) s) _ h₁ in
      let fresh = throw_if-eq-ok found.key _ e₁ in
      let (valid, bytes) =
        list_sound (key_filter t) IsKey key_bytes (key_filter-Codec t) s s₁ l v e₂ in
      let ef : record f { key_list = l } ≡ f' = cc h₂ in
      let eg : record found { key = true } ≡ found' = cc h₂ in
      let es : s₁ ≡ s' = cc h₂ in
      (
        λ (vr, vt, vk). subst HasLists ef (vr, vt, valid),
        subst (λ x. All IsByte (pointer x)) es bytes,
        subst (λ x. left found ≡ suc (left x)) eg (rw fresh (omega arith)),
      )

  -- A property of the round, from the three branches and the refusal of a bad marker.
  read_list_cases {ℓ} :
      (P : Result (ModuleFilter × Found × Input) → Type ℓ) (s : Input) (f : ModuleFilter)
      (found : Found)
      → P (read_raw_bytes_list t s f found)
      → P (read_title_list t s f found)
      → P (read_key_list t s f found)
      → P (throws (message "bad marker"))
      → P (read_list t s f found)
  unfolding read_list
  read_list_cases P s f found pr pt pk bad = go (m == 0) (m == 1) (m == 15)
    where
      m : ℕ
      m = (Layout.to_list_header host (take 2 (pointer s))).marker

      go :
          (a b c : Bool)
          → P (
              if a
              then read_raw_bytes_list t s f found
              else if b
              then read_title_list t s f found
              else if c
              then read_key_list t s f found
              else throws (message "bad marker"))
      go true b c = pr
      go false true c = pt
      go false false true = pk
      go false false false = bad

  pub read_list-Keeps :
      (s s' : Input) (f f' : ModuleFilter) (found found' : Found)
      → All IsByte (pointer s)
      → read_list t s f found ≡ ok (f', found', s')
      → Keeps f found f' found' s'
  read_list-Keeps s s' f f' found found' v =
      read_list_cases (λ r. r ≡ ok (f', found', s') → Keeps f found f' found' s') s f found
        (read_raw_bytes_list-Keeps s s' f f' found found' v)
        (read_title_list-Keeps s s' f f' found found' v)
        (read_key_list-Keeps s s' f f' found found' v) (λ h. cc)

  pub read_list-IsReported :
      (s : Input) (f : ModuleFilter) (found : Found)
      → All IsByte (pointer s)
      → IsReported (read_list t s f found)
  unfolding read_raw_bytes_list read_title_list read_key_list
  read_list-IsReported s f found v =
      read_list_cases IsReported s f found
        (IsReported-bind (throw_if found.raw_bytes _) _ (throw_if-IsReported _ _) λ _ _.
          IsReported-bind (FilterList.from_stream (raw_bytes_filter t) s) _
            ((filter_list_format-Codec (raw_bytes_filter t) IsRawBytes RawBytes.struct_bytes
                (raw_bytes_filter-Codec t)).reported
              s v)
            λ _ _. tt)
        (IsReported-bind (throw_if found.title _) _ (throw_if-IsReported _ _) λ _ _.
          IsReported-bind (FilterList.from_stream (title_filter t) s) _
            ((filter_list_format-Codec (title_filter t) IsTitle (title_bytes host)
                (title_filter-Codec t)).reported
              s v)
            λ _ _. tt)
        (IsReported-bind (throw_if found.key _) _ (throw_if-IsReported _ _) λ _ _.
          IsReported-bind (FilterList.from_stream (key_filter t) s) _
            ((filter_list_format-Codec (key_filter t) IsKey key_bytes (key_filter-Codec t)).reported
              s v)
            λ _ _. tt)
        tt
