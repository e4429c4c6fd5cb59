-- ===== src/Cec/Title/Wire.antt =====
-- The bytes of a title filter: a header of five bytes and three for each MVE.
use libstreetpass.Prelude.{
  ℕ, zero, suc, ◌*◌, ◌≤◌, ◌≡◌, refl, sym, ap, ◌∙◌, subst, List, [], ◌∷◌, ◌++◌, append_assoc,
  append-nil, length, All, All-append_right, arith,
}
use libstreetpass.Prelude.Result.{ok, >>=-eq-ok}
use libstreetpass.Tins.{Tins, Endianness}
use libstreetpass.Tins.Streams.{IsReported}
use libstreetpass.Cec.Filter.{IsByte, encode_all}
use libstreetpass.Cec.Filter.Struct.{IsReported-bind}
use libstreetpass.Cec.Mve.{Mve, struct_bytes, mve_format}
use libstreetpass.Cec.Mve.Wire.{IsMve, mve_format-Codec, from_stream-IsReported}
use libstreetpass.Cec.Mve
use libstreetpass.Cec.Layout.{title_header_bytes}
use libstreetpass.Cec.Layout.RoundTrip.{IsTitleHeader}
use libstreetpass.Cec.Title.{TitleFilter, read_mves}

abbrev pub IsTitle : TitleFilter → Type 0
IsTitle f =
    IsTitleHeader f.header × (f.send_mode ≤ 3) × (f.number_mve ≡ length f.mves) × All IsMve f.mves

abbrev pub mves_bytes : List Mve → List ℕ
mves_bytes = encode_all struct_bytes

abbrev pub title_bytes : Endianness → TitleFilter → List ℕ
title_bytes host f = title_header_bytes host f.header ++ mves_bytes f.mves

pub length-mves_bytes : (ms : List Mve) → length (mves_bytes ms) ≡ length ms * 3
unfolding struct_bytes
length-mves_bytes [] = refl
length-mves_bytes (m ∷ ms) = omega (arith, length-mves_bytes ms)

module _ (t : Tins) where
  open t use {Input, pointer}

  pub read_mves-IsReported : (n : ℕ) (s : Input) (acc : List Mve) → IsReported (read_mves t n s acc)
  unfolding read_mves
  read_mves-IsReported zero s acc = tt
  read_mves-IsReported (suc n) s acc =
      IsReported-bind (Mve.from_stream t s) _ (from_stream-IsReported t s)
        λ (m, s') e. read_mves-IsReported n s' (acc ++ m ∷ [])

  pub read_mves_complete :
      (ms : List Mve) (n : ℕ) (s : Input) (acc : List Mve) (rest : List ℕ)
      → All IsMve ms
      → n ≡ length ms
      → pointer s ≡ mves_bytes ms ++ rest
      → (s' : Input) × (read_mves t n s acc ≡ ok (acc ++ ms, s')) × (pointer s' ≡ rest)
  unfolding read_mves
  read_mves_complete [] zero s acc rest v n e =
      (s, ap (λ (x : List Mve). ok (x, s)) (sym (append-nil acc)), e)
  read_mves_complete [] (suc n) s acc rest v h e = absurd (omega arith)
  read_mves_complete (m ∷ ms) zero s acc rest v h e = absurd (omega arith)
  read_mves_complete (m ∷ ms) (suc n) s acc rest v h e =
      let (s₁, e₁, p₁) =
        (mve_format-Codec t).complete s m (mves_bytes ms ++ rest) v.0
          (e ∙ append_assoc (struct_bytes m) (mves_bytes ms) rest) in
      let (s₂, e₂, p₂) = read_mves_complete ms n s₁ (acc ++ m ∷ []) rest v.1 (omega arith) p₁ in
      (s₂, rw e₁ (e₂ ∙ ap (λ (x : List Mve). ok (x, s₂)) (append_assoc acc (m ∷ []) ms)), p₂)

  pub read_mves_sound :
      (n : ℕ) (s s' : Input) (acc r : List Mve)
      → All IsByte (pointer s)
      → read_mves t n s acc ≡ ok (r, s')
      → (ms : List Mve) × (r ≡ acc ++ ms)
        × (n ≡ length ms)
        × All IsMve ms
        × (pointer s ≡ mves_bytes ms ++ pointer s')
  unfolding read_mves
  read_mves_sound zero s s' acc r v h = ([], cc (append-nil acc), refl, tt, ap pointer (cc h))
  read_mves_sound (suc n) s s' acc r v h =
      let ((m, s₁), e₁, h₁) = >>=-eq-ok (Mve.from_stream t s) _ h in
      let (valid, split) = (mve_format-Codec t).sound s s₁ m v e₁ in
      let left : All IsByte (pointer s₁) =
        All-append_right IsByte (struct_bytes m) (pointer s₁) (subst (All IsByte) split v) in
      let (ms, er, len, vs, rest) = read_mves_sound n s₁ s' (acc ++ m ∷ []) r left h₁ in
      (
        m ∷ ms,
        er ∙ append_assoc acc (m ∷ []) ms,
        ap suc len,
        (valid, vs),
        split
            ∙ ap (◌++◌ (struct_bytes m)) rest
            ∙ sym (append_assoc (struct_bytes m) (mves_bytes ms) (pointer s')),
      )
