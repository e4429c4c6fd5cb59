-- ===== src/Cec/Print/Lists.antt =====
-- The text of a filter list determines the list.
use libstreetpass.Prelude.{
  ℕ, ◌≡◌, refl, sym, ap, ◌∙◌, List, [], ◌∷◌, ◌++◌, Bool, true, false, arith,
}
use libstreetpass.Text.{Stream, codes, put_text}
use libstreetpass.Text.Determines.{
  Determines, Any, literal-Determines, append-Determines, padded-Determines, encode_all-Determines,
}
use libstreetpass.Text.Splits.{padded}
use libstreetpass.Tins.{Tins}
use libstreetpass.Cec.Filter.{Filter, Codec}
use libstreetpass.Cec.FilterList.{FilterList, flags}
use libstreetpass.Cec.FilterList.Encoding.{IsFilterList}
use libstreetpass.Cec.Print.{marker_to_string}
use libstreetpass.Cec.Print.Elements.{EndsLine}
use libstreetpass.Cec.Print.Layout.{labelled_text, lines_text, filter_list_text}

module _ {t : Tins} {A : Type 0} (as_character : Bool) (F : Filter t A)
    (print : A → Stream → Stream) (text_of : A → List ℕ)
    (print_lem : (e : A) (s : Stream) → print e s ≡ put_text (text_of e) s) (IsValid : A → Type 0)
    (encode : A → List ℕ) (c : Codec F.format IsValid encode) (Q : List ℕ → Type 0) where
  -- What a list prints after its marker, and after its flags.
  abbrev after_flags : FilterList A → List ℕ
  after_flags l =
      codes ", length="
      ++ (padded 2 l.header.length
          ++ (codes "\nContent:" ++ lines_text as_character F print text_of print_lem l.filters))

  abbrev after_marker : FilterList A → List ℕ
  after_marker l = codes ", flags=" ++ (padded 2 (flags l) ++ after_flags l)

  abbrev Listed : FilterList A → Type 0
  Listed = IsFilterList F IsValid encode c

  after_flags-Determines :
      (more : List ℕ → Bool)
      → Determines IsValid EndsLine text_of (λ e. e)
      → ((e : A) (r : List ℕ) → more (b'\n' ∷ text_of e ++ r) ≡ true)
      → ((r : List ℕ) → Q r → more r ≡ false)
      → ((r : List ℕ) → Q r → EndsLine r)
      → Determines {B = ℕ × List A} Listed Q after_flags (λ l. (l.header.length, l.filters))
  after_flags-Determines more d starts ends line =
      let lines =
        encode_all-Determines IsValid Q EndsLine (λ e. b'\n' ∷ text_of e) more
          (literal-Determines IsValid EndsLine (b'\n' ∷ []) text_of (λ e. e) d) starts ends line
          λ e r. refl in
      literal-Determines Listed Q (codes ", length=") _ _ (
        append-Determines Listed Q Any (λ l. padded 2 l.header.length)
          (λ l. codes "\nContent:" ++ lines_text as_character F print text_of print_lem l.filters)
          (λ l. l.header.length) (λ l. l.filters)
          (padded-Determines Listed Any 1 (λ l. l.header.length)
            λ l v. (v.0.2, omega (arith, v.0.2)))
          (literal-Determines Listed Q (codes "\nContent:") _ (λ l. l.filters)
            λ a b r r' v w h h' e. lines a.filters b.filters r r' v.3 w.3 h h' e)
          λ a r v h. tt)

  -- The text of a list determines the list, where the text of a filter determines the filter and no
  -- line of a filter can follow the list.
  pub filter_list_text-Determines :
      (more : List ℕ → Bool)
      → Determines IsValid EndsLine text_of (λ e. e)
      → ((e : A) (r : List ℕ) → more (b'\n' ∷ text_of e ++ r) ≡ true)
      → ((r : List ℕ) → Q r → more r ≡ false)
      → ((r : List ℕ) → Q r → EndsLine r)
      → Determines Listed Q (filter_list_text as_character F print text_of print_lem) (λ l. l)
  unfolding flags
  filter_list_text-Determines more d starts ends line a b r r' v w h h' e =
      let marked = literal-Determines Listed Q (codes ", flags=") _ _ (
        append-Determines Listed Q Any (λ l. padded 2 l.header.flags) after_flags
          (λ l. l.header.flags) (λ l. (l.header.length, l.filters))
          (padded-Determines Listed Any 1 (λ l. l.header.flags)
            λ l v. (omega (arith, v.0.0), omega (arith, v.0.0)))
          (after_flags-Determines more d starts ends line) λ a r v h. tt) in
      let whole = literal-Determines Listed Q (codes "FilterList: marker=") _ _ (
        literal-Determines Listed Q
          (labelled_text as_character (codes (marker_to_string F.marker)) F.marker) after_marker _
          marked) in
      let (same, rest) = whole a b r r' v w h h' e in
      let flags_lem : a.header.flags ≡ b.header.flags = ap (λ x. x.0) same in
      let length_lem : a.header.length ≡ b.header.length = ap (λ x. x.1.0) same in
      let filters_lem : a.filters ≡ b.filters = ap (λ x. x.1.1) same in
      let marker_lem : a.header.marker ≡ b.header.marker = v.1 ∙ sym w.1 in
      (cc (flags_lem, length_lem, filters_lem, marker_lem), rest)
