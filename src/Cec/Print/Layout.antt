-- ===== src/Cec/Print/Layout.antt =====
-- The text that each operator << adds to its stream, which it fills up to the width like one string.
use libstreetpass.Prelude.{
  ℕ, ◌-◌, ◌≡◌, ◌==◌, refl, sym, ap, ◌∙◌, List, [], ◌∷◌, ◌++◌, append_assoc, append-nil, Bool, true,
  false, length, length-append, if◌then◌else◌, replicate, arith,
}
use libstreetpass.Text.{
  Stream, codes, put, put_text, put_number, digits, new_stream, set_hex, set_fill, set_width,
}
use libstreetpass.Text.Splits.{padded}
use libstreetpass.Tins.{Tins}
use libstreetpass.Cec.Filter.{Filter, encode_all}
use libstreetpass.Cec.FilterList.{FilterList, flags}
use libstreetpass.Cec.Key.{KeyFilter}
use libstreetpass.Cec.Mve.{Mve}
use libstreetpass.Cec.Mve.Getters.{mask, value, expectation}
use libstreetpass.Cec.Print.{
  marker_to_string, print_mve, print_pairs, print_key, print_mves, put_enumerator, print_send_mode,
  print_marker, print_title, print_filters, print_filter_list,
}
use libstreetpass.Cec.SendMode.{to_string}
use libstreetpass.Cec.Title.{TitleFilter, title_id, send_mode}

pub no_fill : (cs : List ℕ) (c : ℕ) → replicate (0 - length cs) c ≡ []
no_fill cs c = let none : 0 - length cs ≡ 0 = omega arith in rw none refl

abbrev pub mve_text : Mve → List ℕ
mve_text e =
    codes "MVE[mask="
    ++ (digits 10 16 e.mask
        ++ (codes ", value="
            ++ (digits 10 16 e.value
                ++ (codes ", expectation=" ++ (digits 10 16 e.expectation ++ codes "]")))))

pub print_mve_lem : (e : Mve) (s : Stream) → print_mve e s ≡ put_text (mve_text e) s
unfolding print_mve mask value expectation put_number put_text
print_mve_lem e s = simp (append_assoc, no_fill)

abbrev pub enumerator_text : Bool → ℕ → List ℕ
enumerator_text as_character m = if as_character then b'0' ∷ m ∷ [] else padded 2 m

abbrev pub labelled_text : Bool → List ℕ → ℕ → List ℕ
labelled_text as_character label m =
    label ++ (codes "(" ++ (enumerator_text as_character m ++ codes ")"))

wide_label :
    (as_character : Bool) (label : List ℕ) (m c : ℕ)
    → replicate (2 - length (labelled_text as_character label m)) c ≡ []
wide_label as_character label m c =
    let inner = length-append (enumerator_text as_character m) (codes ")") in
    let outer = length-append label (codes "(" ++ (enumerator_text as_character m ++ codes ")")) in
    let none : 2 - length (labelled_text as_character label m) ≡ 0 = omega arith in rw none refl

pub print_send_mode_lem :
    (as_character : Bool) (m : ℕ) (s : Stream)
    → print_send_mode as_character m s
      ≡ put_text (labelled_text as_character (codes (to_string m)) m) s
unfolding print_send_mode put_enumerator put_number put_text
print_send_mode_lem true m s = simp (append_assoc, no_fill)
print_send_mode_lem false m s = simp (append_assoc, no_fill)

pub print_marker_lem :
    (as_character : Bool) (m : ℕ) (s : Stream)
    → print_marker as_character m s
      ≡ put_text (labelled_text as_character (codes (marker_to_string m)) m) s
unfolding print_marker put_enumerator put_number put_text
print_marker_lem true m s = simp (append_assoc, no_fill)
print_marker_lem false m s = simp (append_assoc, no_fill)

abbrev pub pairs_text : List ℕ → List ℕ
pairs_text = encode_all (padded 2)

print_pairs_text :
    (bs x : List ℕ) (w : ℕ)
    → (print_pairs bs (record { text = x; base = 16; fill = b'0'; width = w })).text
      ≡ x ++ pairs_text bs
unfolding print_pairs put_number put_text
print_pairs_text [] x w = sym (append-nil x)
print_pairs_text (b ∷ bs) x w =
    print_pairs_text bs (x ++ padded 2 b) 0 ∙ append_assoc x (padded 2 b) (pairs_text bs)

abbrev pub key_text : KeyFilter → List ℕ
key_text e = codes "key=" ++ pairs_text e.key

pub print_key_lem : (e : KeyFilter) (s : Stream) → print_key e s ≡ put_text (key_text e) s
unfolding print_key
print_key_lem e s = unfold put_text in rw (print_pairs_text e.key (codes "key=") 2) refl

abbrev pub spaced_text : List Mve → List ℕ
spaced_text = encode_all λ m. b' ' ∷ mve_text m

print_mves_text :
    (ms : List Mve) (x : List ℕ) (base fill : ℕ)
    → (print_mves ms (record { text = x; base = base; fill = fill; width = 0 })).text
      ≡ x ++ spaced_text ms
unfolding print_mves put_text
print_mves_text [] x base fill = sym (append-nil x)
print_mves_text (m ∷ ms) x base fill =
    let one : print_mves (m ∷ ms) (record { text = x; base = base; fill = fill; width = 0 })
        ≡ print_mves ms (record {
          text = (x ++ b' ' ∷ []) ++ mve_text m;
          base = base;
          fill = fill;
          width = 0;
        }) =
      rw (print_mve_lem, no_fill) refl in
    rw one (print_mves_text ms _ base fill ∙ simp append_assoc)

abbrev pub list_text : List Mve → List ℕ
list_text [] = []
list_text (m ∷ ms) = codes ", mve_list=" ++ spaced_text (m ∷ ms)

print_list_text :
    (ms : List Mve) (x : List ℕ) (base fill : ℕ)
    → (let ss : Stream = record { text = x; base = base; fill = fill; width = 0 } in
        if length ms == 0 then ss else print_mves ms (put ", mve_list=" ss)).text
      ≡ x ++ list_text ms
unfolding put_text
print_list_text [] x base fill = sym (append-nil x)
print_list_text (m ∷ ms) x base fill =
    let some_mves : (length (m ∷ ms) == 0) ≡ false = ground arith in
    rw some_mves
      (print_mves_text (m ∷ ms) (x ++ codes ", mve_list=") base fill ∙ append_assoc x _ _)

module _ (as_character : Bool) (t : Tins) where
  abbrev pub title_text : TitleFilter → List ℕ
  title_text e =
      codes "Title: id="
      ++ (padded 8 (title_id t e)
          ++ (codes ", send_mode="
              ++ (labelled_text as_character (codes (to_string (send_mode e))) (send_mode e)
                  ++ list_text e.mves)))

  -- The stream before the list of MVEs.
  print_title_head :
      (e : TitleFilter)
      → print_send_mode as_character (send_mode e) (
          put ", send_mode=" (
            put_number
              (title_id t e)
              (set_width 8 (set_fill b'0' (set_hex (put "id=" (put "Title: " new_stream)))))))
        ≡ record {
          text =
              codes "Title: id="
              ++ (padded 8 (title_id t e)
                  ++ (codes ", send_mode="
                      ++ labelled_text as_character
                          (codes (to_string (send_mode e)))
                          (send_mode e)));
          base = 16;
          fill = b'0';
          width = 0;
        }
  unfolding put_number put_text
  print_title_head e = simp (print_send_mode_lem, append_assoc, no_fill)

  pub print_title_lem :
      (e : TitleFilter) (s : Stream) → print_title as_character t e s ≡ put_text (title_text e) s
  unfolding print_title
  print_title_lem e s =
      rw (print_title_head e, print_list_text e.mves) (ap (λ x. put_text x s) (simp append_assoc))

module _ {t : Tins} {A : Type 0} (as_character : Bool) (F : Filter t A)
    (print : A → Stream → Stream) (text_of : A → List ℕ)
    (print_lem : (e : A) (s : Stream) → print e s ≡ put_text (text_of e) s) where
  abbrev pub lines_text : List A → List ℕ
  lines_text = encode_all λ e. b'\n' ∷ text_of e

  print_filters_text :
      (es : List A) (x : List ℕ) (base fill : ℕ)
      → (print_filters as_character F print es
          (record { text = x; base = base; fill = fill; width = 0 })).text
        ≡ x ++ lines_text es
  unfolding print_filters put_text
  print_filters_text [] x base fill = sym (append-nil x)
  print_filters_text (e ∷ es) x base fill =
      simp (print_lem, print_filters_text es, append_assoc, no_fill)

  abbrev pub filter_list_text : FilterList A → List ℕ
  filter_list_text l =
      codes "FilterList: marker="
      ++ (labelled_text as_character (codes (marker_to_string F.marker)) F.marker
          ++ (codes ", flags="
              ++ (padded 2 (flags l)
                  ++ (codes ", length="
                      ++ (padded 2 l.header.length
                          ++ (codes "\nContent:" ++ lines_text l.filters))))))

  pub print_filter_list_lem :
      (l : FilterList A) (s : Stream)
      → print_filter_list as_character F print l s ≡ put_text (filter_list_text l) s
  unfolding print_filter_list put_number put_text
  print_filter_list_lem l s = simp (print_marker_lem, wide_label, print_filters_text, append_assoc)
