-- ===== src/Cec/FilterList/Encoding.antt =====
-- A filter list against its bytes, over any filter with a codec.
use libstreetpass.Prelude.{
  ℕ, suc, ◌+◌, ◌≤◌, ◌≡◌, ◌==◌, refl, sym, ap, ◌∙◌, subst, List, [], ◌∷◌, ◌++◌, append_assoc, length,
  length-append, All, All-append_left, All-append_right, Bool, true, false, not, replicate, take,
  drop, take-append-drop, length-take_of_le, take-length_append, ==_iff, arith,
}
use libstreetpass.Prelude.Result.{ok, message, >>=-eq-ok, throw_if, throw_if-eq-ok}
use libstreetpass.Tins.{Tins}
use libstreetpass.Tins.Streams.{
  IsReported, read_or_throw, read_or_throw_sound, read_or_throw_complete, read_or_throw-IsReported,
  can_read→le, can_read_true, write_fits, room_fresh, buffer_full,
}
use libstreetpass.Cec.Filter.{IsByte, Filter, Codec, encode_all}
use libstreetpass.Cec.Filter.Struct.{IsReported-bind}
use libstreetpass.Cec.Filter.Write.{write_all_fits}
use libstreetpass.Cec.FilterList.{
  FilterList, filter_list_format, from_stream, read_filters, to_bytes, byte_size, sum_sizes,
}
use libstreetpass.Cec.FilterList.Elements.{
  length-le_bytes, read_filters_complete, read_filters_sound, read_filters-IsReported,
}
use libstreetpass.Cec.Layout.{ListHeader, to_list_header, list_header_bytes}
use libstreetpass.Cec.Layout.RoundTrip.{
  IsListHeader, list_header_bytes-to, to_list_header-bytes, length-list_header_bytes,
}
use Prim.Native.String.{String}

not-false : (b : Bool) → not b ≡ false → b ≡ true
not-false true h = refl
not-false false h = cc

pub throw_if-IsReported : (b : Bool) (text : String) → IsReported (throw_if b (message text))
throw_if-IsReported true text = tt
throw_if-IsReported false text = tt

module _ {t : Tins} {A : Type 0} (F : Filter t A) (IsValid : A → Type 0) (encode : A → List ℕ)
    (c : Codec F.format IsValid encode) where
  open t use {
    Input, pointer, host, input, size, can_read, pointer-input, size-pointer, Output, output,
    written, room, written-output,
  }

  abbrev pub IsFilterList : FilterList A → Type 0
  IsFilterList l =
      IsListHeader l.header
      × (l.header.marker ≡ F.marker)
      × (l.header.length ≡ length (encode_all encode l.filters))
      × All IsValid l.filters

  abbrev pub list_bytes : FilterList A → List ℕ
  list_bytes l = list_header_bytes host l.header ++ encode_all encode l.filters

  -- The streams after the header: the elements' own and the whole one.
  split_elements :
      (s : Input) (n : ℕ)
      → n ≤ length (pointer s)
      → (pointer (input (pointer s) n) ≡ take n (pointer s))
        × (pointer s ≡ pointer (input (pointer s) n) ++ drop n (pointer s))
  split_elements s n h =
      let e = pointer-input (pointer s) n h in
      (
        e,
        sym (take-append-drop n (pointer s)) ∙ ap (λ (x : List ℕ). x ++ drop n (pointer s)) (sym e),
      )

  from_stream_sound :
      (s s' : Input) (l : FilterList A)
      → All IsByte (pointer s)
      → from_stream F s ≡ ok (l, s')
      → IsFilterList l × (pointer s ≡ list_bytes l ++ pointer s')
  unfolding from_stream
  from_stream_sound s s' l v h =
      let ((bs, s₁), e₁, h₁) = >>=-eq-ok (read_or_throw t "bad list header" 2 s) _ h in
      let hd : ListHeader = to_list_header host bs in
      let (_, e₂, h₂) =
        >>=-eq-ok (throw_if (not (hd.marker == F.marker)) (message "type mismatch")) _ h₁ in
      let (_, e₃, h₃) =
        >>=-eq-ok (throw_if (not (can_read s₁ hd.length)) (message "bad length")) _ h₂ in
      let elt = input (pointer s₁) hd.length in
      let ((fs, s₂), e₄, h₄) = >>=-eq-ok (read_filters F (suc (size elt)) elt s₁ []) _ h₃ in
      let (split, len) = read_or_throw_sound t "bad list header" 2 s s₁ bs e₁ in
      let bytes : All IsByte (bs ++ pointer s₁) = subst (All IsByte) split v in
      let (valid, same) =
        list_header_bytes-to host bs len (All-append_left IsByte bs (pointer s₁) bytes) in
      let marker = (==_iff hd.marker F.marker).0 (not-false _ (throw_if-eq-ok _ _ e₂)) in
      let fits = can_read→le t s₁ hd.length (not-false _ (throw_if-eq-ok _ _ e₃)) in
      let (front, both) = split_elements s₁ hd.length fits in
      let bytes₁ : All IsByte (pointer s₁) = All-append_right IsByte bs (pointer s₁) bytes in
      let (es, er, vs, pe, pr) =
        read_filters_sound F IsValid encode c (suc (size elt)) elt s₁ s₂ [] fs
          (drop hd.length (pointer s₁))
          (All-append_left IsByte (pointer elt) _ (subst (All IsByte) both bytes₁)) both e₄ in
      let size_lem : hd.length ≡ length (encode_all encode es) =
        omega
          (arith, ap length front, ap length pe, length-take_of_le hd.length (pointer s₁) fits) in
      let result : IsFilterList (record { header = hd; filters = es }) =
        (valid, marker, size_lem, vs) in
      let el : record { header = hd; filters = es } ≡ l = cc (er, h₄) in
      let whole : pointer s ≡ (list_header_bytes host hd ++ encode_all encode es) ++ pointer s₂ =
        split
        ∙ ap (λ (x : List ℕ). x ++ pointer s₁) (sym same)
        ∙ ap (◌++◌ (list_header_bytes host hd)) (
            both
            ∙ ap (λ (x : List ℕ). x ++ drop hd.length (pointer s₁)) pe
            ∙ ap (◌++◌ (encode_all encode es)) (sym pr))
        ∙ sym (append_assoc (list_header_bytes host hd) (encode_all encode es) (pointer s₂)) in
      (
        subst IsFilterList el result,
        whole
            ∙ ap (λ (x : FilterList A). list_bytes x ++ pointer s₂) el
            ∙ ap (λ (x : Input). list_bytes l ++ pointer x) (cc h₄),
      )

  from_stream_complete :
      (s : Input) (l : FilterList A) (rest : List ℕ)
      → IsFilterList l
      → pointer s ≡ list_bytes l ++ rest
      → (s' : Input) × (from_stream F s ≡ ok (l, s')) × (pointer s' ≡ rest)
  unfolding from_stream
  from_stream_complete s l rest (vh, marker, len, vs) e =
      let hb : List ℕ = list_header_bytes host l.header in
      let eb : List ℕ = encode_all encode l.filters in
      let (s₁, e₁, p₁) =
        read_or_throw_complete t "bad list header" 2 s hb (eb ++ rest) (e ∙ append_assoc hb eb rest)
          (sym (length-list_header_bytes host l.header)) in
      let fits : l.header.length ≤ length (pointer s₁) =
        omega (arith, ap length p₁, length-append eb rest) in
      let elt = input (pointer s₁) l.header.length in
      let pe : pointer elt ≡ eb =
        pointer-input (pointer s₁) l.header.length fits
        ∙ ap (take l.header.length) p₁
        ∙ take-length_append l.header.length eb rest len in
      let guard = (==_iff l.header.marker F.marker).1 marker in
      let (s₂, e₂, p₂) =
        read_filters_complete F IsValid encode c l.filters (suc (size elt)) elt s₁ [] rest vs
          (omega (
            arith,
            size-pointer elt,
            ap length pe,
            length-le_bytes F IsValid encode c l.filters vs,
          ))
          pe p₁ in
      (
        s₂,
        rw (
          e₁,
          to_list_header-bytes host l.header vh,
          guard,
          can_read_true t s₁ l.header.length fits,
          e₂,
        ),
        p₂,
      )

  from_stream-IsReported : (s : Input) → All IsByte (pointer s) → IsReported (from_stream F s)
  unfolding from_stream
  from_stream-IsReported s v =
      IsReported-bind (read_or_throw t "bad list header" 2 s) _
        (read_or_throw-IsReported t "bad list header" 2 s)
        λ (bs, s₁) e₁.
          let hd = to_list_header host bs in
          IsReported-bind (throw_if (not (hd.marker == F.marker)) _) _ (throw_if-IsReported _ _)
            λ _ _.
              IsReported-bind (throw_if (not (can_read s₁ hd.length)) _) _ (throw_if-IsReported _ _)
                λ _ e₃.
                  let (split, len) = read_or_throw_sound t "bad list header" 2 s s₁ bs e₁ in
                  let fits = can_read→le t s₁ hd.length (not-false _ (throw_if-eq-ok _ _ e₃)) in
                  let (front, both) = split_elements s₁ hd.length fits in
                  let elt = input (pointer s₁) hd.length in
                  let bytes₁ : All IsByte (pointer s₁) =
                    All-append_right IsByte bs (pointer s₁) (subst (All IsByte) split v) in
                  IsReported-bind (read_filters F (suc (size elt)) elt s₁ []) _
                    (read_filters-IsReported F IsValid encode c (suc (size elt)) elt s₁ []
                      (drop hd.length (pointer s₁)) (omega (arith, size-pointer elt))
                      (All-append_left IsByte (pointer elt) _ (subst (All IsByte) both bytes₁))
                      both)
                    λ _ _. tt

  sum_sizes-length :
      (es : List A) (total : ℕ)
      → All IsValid es
      → sum_sizes F total es ≡ total + length (encode_all encode es)
  unfolding sum_sizes
  sum_sizes-length [] total v = omega arith
  sum_sizes-length (e ∷ es) total v = omega (
    arith,
    sum_sizes-length es (total + F.byte_size e) v.1,
    c.byte_size-encode e v.0,
    length-append (encode e) (encode_all encode es),
  )

  pub byte_size-length : (l : FilterList A) → IsFilterList l → byte_size F l ≡ length (list_bytes l)
  unfolding byte_size
  byte_size-length l v = omega (
    arith,
    sum_sizes-length l.filters 2 v.3,
    length-list_header_bytes host l.header,
    length-append (list_header_bytes host l.header) (encode_all encode l.filters),
  )

  to_bytes-list_bytes : (l : FilterList A) → IsFilterList l → to_bytes F l ≡ ok (list_bytes l)
  unfolding to_bytes
  to_bytes-list_bytes l (vh, marker, len, vs) =
      let fresh : Output = output (replicate (2 + l.header.length) 0) in
      let hb : List ℕ = list_header_bytes host l.header in
      let eb : List ℕ = encode_all encode l.filters in
      let (o₁, e₁, w₁, r₁) = write_fits t fresh hb l.header.length (
        omega
          (arith, room_fresh t (2 + l.header.length), length-list_header_bytes host l.header)) in
      let (o₂, e₂, w₂, r₂) =
        write_all_fits F.format IsValid encode c l.filters o₁ 0 vs (omega arith) in
      let all : written o₂ ≡ list_bytes l =
        w₂ ∙ ap (λ (x : List ℕ). x ++ eb) (w₁ ∙ ap (λ (x : List ℕ). x ++ hb) (written-output _)) in
      rw (e₁, e₂) (ap ok (buffer_full t o₂ r₂ ∙ all))

  -- Parsing a list takes exactly its bytes, every other input is reported by a message, and writing
  -- the list returns the bytes.
  pub filter_list_format-Codec : Codec (filter_list_format F) IsFilterList list_bytes
  filter_list_format-Codec = record {
    sound = from_stream_sound;
    complete = from_stream_complete;
    reported = from_stream-IsReported;
    to_bytes-encode = to_bytes-list_bytes;
    byte_size-encode = byte_size-length;
    encode-pos = λ l v. omega (
      arith,
      length-list_header_bytes host l.header,
      length-append (list_header_bytes host l.header) (encode_all encode l.filters),
    );
  }
