-- ===== src/Cec/Print/Raw.antt =====
-- The text of a raw bytes filter.
use libstreetpass.Prelude.{
  ℕ, ◌≡◌, ◌==◌, ◌↔◌, refl, sym, ap, ◌∙◌, List, [], ◌∷◌, ◌++◌, append_assoc, append-nil, length,
  get_or, encode_all, All, arith,
}
use libstreetpass.Text.{Stream, codes, put_text, put_number, digits, new_stream}
use libstreetpass.Text.Determines.{
  Determines, literal-Determines, digits-Determines, encode_all-Determines,
}
use libstreetpass.Text.Splits.{Stops}
use libstreetpass.Cec.Filter.{IsByte}
use libstreetpass.Cec.Print.{print_raw, print_raw_bytes}
use libstreetpass.Cec.Print.Layout.{no_fill}
use libstreetpass.Cec.RawBytes.{RawBytesFilter, raw_bytes}
use libstreetpass.Cec.RawBytes.Wire.{IsRawBytes}

abbrev raw_text : List ℕ → List ℕ
raw_text = encode_all λ b. b' ' ∷ digits 10 16 b

print_raw_text :
    (bs x : List ℕ) (fill : ℕ)
    → (print_raw bs (record { text = x; base = 16; fill = fill; width = 0 })).text
      ≡ x ++ raw_text bs
unfolding print_raw put_number put_text
print_raw_text [] x fill = sym (append-nil x)
print_raw_text (b ∷ bs) x fill = simp (no_fill, print_raw_text bs, append_assoc)

-- A size of sixteen is shown as 10: the stream is in hexadecimal.
abbrev raw_bytes_text : RawBytesFilter → List ℕ
raw_bytes_text f = codes "RawBytes: size=10, bytes=" ++ raw_text f.raw_bytes

print_raw_bytes_lem :
    (f : RawBytesFilter) (s : Stream)
    → length f.raw_bytes ≡ 16
    → print_raw_bytes f s ≡ put_text (raw_bytes_text f) s
unfolding print_raw_bytes raw_bytes put_number put_text digits
print_raw_bytes_lem f s h = simp (h, print_raw_text, append_assoc)

raw_text-Determines : Determines (All IsByte) (λ r. r ≡ []) raw_text (λ bs. bs)
raw_text-Determines =
    encode_all-Determines IsByte (λ r. r ≡ []) Stops (λ b. b' ' ∷ digits 10 16 b)
      (λ cs. get_or cs 0 0 == b' ')
      (literal-Determines IsByte Stops (b' ' ∷ []) (λ b. digits 10 16 b) (λ b. b)
        (digits-Determines IsByte (λ b. b) λ b v. omega arith))
      (λ b r. refl) (λ r h. rw h refl) (λ r h. rw h refl) λ b r. refl

plain : (cs : List ℕ) → (put_text cs new_stream).text ≡ cs
unfolding put_text
plain cs = rw (no_fill cs b' ') refl

shown_text :
    (h : RawBytesFilter) → IsRawBytes h → (print_raw_bytes h new_stream).text ≡ raw_bytes_text h
shown_text h u =
    ap (λ (x : Stream). x.text) (print_raw_bytes_lem h new_stream u.1) ∙ plain (raw_bytes_text h)

-- Two valid raw bytes filters are printed alike exactly if they have the same bytes: the number of
-- bytes that are compared is not shown.
pub print_raw_bytes_iff :
    (f g : RawBytesFilter)
    → IsRawBytes f
    → IsRawBytes g
    → ((print_raw_bytes f new_stream).text ≡ (print_raw_bytes g new_stream).text)
      ↔ (f.raw_bytes ≡ g.raw_bytes)
print_raw_bytes_iff f g v w =
    let shown = shown_text f v in
    let shown' = shown_text g w in
    (
      λ e.
          let same : raw_bytes_text f ++ [] ≡ raw_bytes_text g ++ [] =
            ap (λ (x : List ℕ). x ++ []) (sym shown ∙ e ∙ shown') in
          (literal-Determines (λ (h : RawBytesFilter). All IsByte h.raw_bytes) (λ r. r ≡ [])
            (codes "RawBytes: size=10, bytes=") (λ h. raw_text h.raw_bytes) (λ h. h.raw_bytes)
            (λ a b r r' va vb h h' e. raw_text-Determines a.raw_bytes b.raw_bytes r r' va vb h h' e)
            f g [] [] v.2 w.2 refl refl same).0,
      λ e.
          shown
          ∙ ap (λ (x : List ℕ). codes "RawBytes: size=10, bytes=" ++ raw_text x) e
          ∙ sym shown',
    )
