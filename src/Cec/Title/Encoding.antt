-- ===== src/Cec/Title/Encoding.antt =====
-- A title filter against its bytes.
use libstreetpass.Prelude.{
  ℕ, ◌+◌, ◌*◌, ◌≤◌, ◌≡◌, sym, ap, ◌∙◌, subst, List, [], ◌++◌, append_assoc, length, length-append,
  All, All-append_left, All-append_right, ltb, ltb-false, Bool, true, false, replicate, arith,
}
use libstreetpass.Prelude.Result.{ok, message, >>=-eq-ok, throw_if, throw_if-eq-ok}
use libstreetpass.Tins.{Tins}
use libstreetpass.Tins.Streams.{
  IsReported, read_or_throw, read_or_throw_sound, read_or_throw_complete, read_or_throw-IsReported,
  write_fits, room_fresh, buffer_full,
}
use libstreetpass.Cec.Filter.{IsByte, Codec}
use libstreetpass.Cec.Filter.Struct.{IsReported-bind}
use libstreetpass.Cec.Filter.Write.{write_all_fits}
use libstreetpass.Cec.Layout.{TitleHeader, to_title_header, title_header_bytes}
use libstreetpass.Cec.Layout.RoundTrip.{
  title_header_bytes-to, to_title_header-bytes, length-title_header_bytes,
}
use libstreetpass.Cec.Mve.{struct_bytes, mve_format}
use libstreetpass.Cec.Mve.Wire.{IsMve, mve_format-Codec}
use libstreetpass.Cec.Title.{TitleFilter, from_stream, read_mves, to_bytes, byte_size, title_filter}
use libstreetpass.Cec.Title.Wire.{
  IsTitle, mves_bytes, title_bytes, length-mves_bytes, read_mves_sound, read_mves_complete,
  read_mves-IsReported,
}

ltb_false→le : (a b : ℕ) → ltb a b ≡ false → b ≤ a
ltb_false→le a b h = ground arith

module _ (t : Tins) where
  open t use {Input, pointer, host, Output, output, written, room, written-output}

  from_stream_sound :
      (s s' : Input) (f : TitleFilter)
      → All IsByte (pointer s)
      → from_stream t s ≡ ok (f, s')
      → IsTitle f × (pointer s ≡ title_bytes host f ++ pointer s')
  unfolding from_stream
  from_stream_sound s s' f v h =
      let ((bs, s₁), e₁, h₁) = >>=-eq-ok (read_or_throw t "bad title filter" 5 s) _ h in
      let hd : TitleHeader = to_title_header host bs in
      let (_, e₂, h₂) = >>=-eq-ok (throw_if (ltb 3 hd.send_mode) (message "bad send mode")) _ h₁ in
      let ((ms, s₂), e₃, h₃) = >>=-eq-ok (read_mves t hd.number_mve s₁ []) _ h₂ in
      let (split, len) = read_or_throw_sound t "bad title filter" 5 s s₁ bs e₁ in
      let bytes : All IsByte (bs ++ pointer s₁) = subst (All IsByte) split v in
      let (valid, same) =
        title_header_bytes-to host bs len (All-append_left IsByte bs (pointer s₁) bytes) in
      let (ms', em, n, vs, rest) =
        read_mves_sound t hd.number_mve s₁ s₂ [] ms (All-append_right IsByte bs (pointer s₁) bytes)
          e₃ in
      let whole : pointer s ≡ (title_header_bytes host hd ++ mves_bytes ms') ++ pointer s₂ =
        split
        ∙ ap (λ (x : List ℕ). x ++ pointer s₁) (sym same)
        ∙ ap (◌++◌ (title_header_bytes host hd)) rest
        ∙ sym (append_assoc (title_header_bytes host hd) (mves_bytes ms') (pointer s₂)) in
      let result : IsTitle (record { header = hd; mves = ms' }) =
        (valid, ltb_false→le 3 hd.send_mode (throw_if-eq-ok _ _ e₂), n, vs) in
      let ef : record { header = hd; mves = ms' } ≡ f = cc (em, h₃) in
      (
        subst IsTitle ef result,
        whole
            ∙ ap (λ (x : TitleFilter). title_bytes host x ++ pointer s₂) ef
            ∙ ap (λ (x : Input). title_bytes host f ++ pointer x) (cc h₃),
      )

  from_stream_complete :
      (s : Input) (f : TitleFilter) (rest : List ℕ)
      → IsTitle f
      → pointer s ≡ title_bytes host f ++ rest
      → (s' : Input) × (from_stream t s ≡ ok (f, s')) × (pointer s' ≡ rest)
  unfolding from_stream
  from_stream_complete s f rest (vh, mode, n, vs) e =
      let hb : List ℕ = title_header_bytes host f.header in
      let (s₁, e₁, p₁) =
        read_or_throw_complete t "bad title filter" 5 s hb (mves_bytes f.mves ++ rest)
          (e ∙ append_assoc hb (mves_bytes f.mves) rest)
          (sym (length-title_header_bytes host f.header)) in
      let (s₂, e₂, p₂) = read_mves_complete t f.mves f.number_mve s₁ [] rest vs n p₁ in
      (s₂, rw (e₁, to_title_header-bytes host f.header vh, ltb-false 3 f.send_mode mode, e₂), p₂)

  from_stream-IsReported : (s : Input) → IsReported (from_stream t s)
  unfolding from_stream
  from_stream-IsReported s =
      IsReported-bind (read_or_throw t "bad title filter" 5 s) _
        (read_or_throw-IsReported t "bad title filter" 5 s)
        λ (bs, s₁) _.
          IsReported-bind (throw_if (ltb 3 (to_title_header host bs).send_mode) _) _
            (guard_reported (ltb 3 (to_title_header host bs).send_mode))
            λ _ _.
              IsReported-bind (read_mves t _ s₁ []) _ (read_mves-IsReported t _ s₁ []) λ _ _. tt
    where
      guard_reported : (b : Bool) → IsReported (throw_if b (message "bad send mode"))
      guard_reported true = tt
      guard_reported false = tt

  length-title_bytes : (f : TitleFilter) → length (title_bytes host f) ≡ byte_size f
  unfolding byte_size
  length-title_bytes f = omega (
    arith,
    length-append (title_header_bytes host f.header) (mves_bytes f.mves),
    length-title_header_bytes host f.header,
    length-mves_bytes f.mves,
  )

  to_bytes-title_bytes : (f : TitleFilter) → IsTitle f → to_bytes t f ≡ ok (title_bytes host f)
  unfolding to_bytes byte_size
  to_bytes-title_bytes f (vh, mode, n, vs) =
      let fresh : Output = output (replicate (5 + length f.mves * 3) 0) in
      let hb : List ℕ = title_header_bytes host f.header in
      let (o₁, e₁, w₁, r₁) = write_fits t fresh hb (length f.mves * 3) (
        omega
          (arith, room_fresh t (5 + length f.mves * 3), length-title_header_bytes host f.header)) in
      let (o₂, e₂, w₂, r₂) =
        write_all_fits (mve_format t) IsMve struct_bytes (mve_format-Codec t) f.mves o₁ 0 vs
          (omega (arith, length-mves_bytes f.mves)) in
      let all : written o₂ ≡ title_bytes host f =
        w₂
        ∙ ap (λ (x : List ℕ). x ++ mves_bytes f.mves)
            (w₁ ∙ ap (λ (x : List ℕ). x ++ hb) (written-output _)) in
      rw (e₁, e₂) (ap ok (buffer_full t o₂ r₂ ∙ all))

  -- Parsing a title filter takes exactly its bytes, every other input is reported by a message, and
  -- writing it returns the bytes.
  pub title_filter-Codec : Codec (title_filter t).format IsTitle (title_bytes host)
  title_filter-Codec = record {
    sound = from_stream_sound;
    complete = from_stream_complete;
    reported = λ s v. from_stream-IsReported s;
    to_bytes-encode = to_bytes-title_bytes;
    byte_size-encode = λ f v. sym (length-title_bytes f);
    encode-pos = λ f v. unfold byte_size in omega (arith, length-title_bytes f);
  }
