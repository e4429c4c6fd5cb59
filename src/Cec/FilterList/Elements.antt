-- ===== src/Cec/FilterList/Elements.antt =====
-- The loop that reads the filters of a list, over any filter with a codec.
use libstreetpass.Prelude.{
  ℕ, zero, suc, ◌≤◌, ◌<◌, ◌≡◌, refl, sym, ap, ◌∙◌, subst, List, [], ◌∷◌, ◌++◌, append_assoc,
  append-nil, length, length-append, All, All-append_right, ltb, lt→ltb, ltb-false, true, false,
  Bool-cases, inl, inr, arith,
}
use libstreetpass.Prelude.Result.{Result, ok, >>=-eq-ok, ◌>>=◌}
use libstreetpass.Tins.{Tins}
use libstreetpass.Tins.Streams.{IsReported, skip_append}
use libstreetpass.Cec.Filter.{IsByte, Filter, Codec, encode_all}
use libstreetpass.Cec.Filter.Struct.{IsReported-bind}
use libstreetpass.Cec.FilterList.{read_filters}

no_bytes : (bs : List ℕ) → length bs ≡ 0 → bs ≡ []
no_bytes [] e = refl
no_bytes (b ∷ bs) e = absurd (omega arith)

module _ {t : Tins} {A : Type 0} (F : Filter t A) (IsValid : A → Type 0) (encode : A → List ℕ)
    (c : Codec F.format IsValid encode) where
  open t use {Input, pointer, size, skip, size-pointer}

  abbrev pub filters_bytes : List A → List ℕ
  filters_bytes = encode_all encode

  pub length-le_bytes : (es : List A) → All IsValid es → length es ≤ length (filters_bytes es)
  length-le_bytes [] v = omega arith
  length-le_bytes (e ∷ es) v = omega (
    arith,
    length-append (encode e) (filters_bytes es),
    c.encode-pos e v.0,
    length-le_bytes es v.1,
  )

  -- The two cases of the loop's test.
  read_filters_end :
      (fuel : ℕ) (elt s : Input) (acc : List A)
      → ltb 0 (size elt) ≡ false
      → read_filters F (suc fuel) elt s acc ≡ ok (acc, s)
  unfolding read_filters
  read_filters_end fuel elt s acc h = rw (h, read_filters)

  read_filters_more :
      (fuel : ℕ) (elt s : Input) (acc : List A)
      → ltb 0 (size elt) ≡ true
      → read_filters F (suc fuel) elt s acc ≡ (
          F.from_stream elt >>= λ (e, elt').
          skip s (F.byte_size e) >>= λ s'. read_filters F fuel elt' s' (acc ++ e ∷ []))
  unfolding read_filters
  read_filters_more fuel elt s acc h = rw (h, read_filters)

  pub read_filters_complete :
      (es : List A) (fuel : ℕ) (elt s : Input) (acc : List A) (rest : List ℕ)
      → All IsValid es
      → length es < fuel
      → pointer elt ≡ filters_bytes es
      → pointer s ≡ filters_bytes es ++ rest
      → (s' : Input) × (read_filters F fuel elt s acc ≡ ok (acc ++ es, s')) × (pointer s' ≡ rest)
  read_filters_complete es zero elt s acc rest v h pe ps = absurd (omega arith)
  read_filters_complete [] (suc fuel) elt s acc rest v h pe ps =
      let none = ltb-false 0 (size elt) (omega (arith, size-pointer elt, ap length pe)) in
      (
        s,
        read_filters_end fuel elt s acc none
            ∙ ap (λ (x : List A). ok (x, s)) (sym (append-nil acc)),
        ps,
      )
  read_filters_complete (e ∷ es) (suc fuel) elt s acc rest v h pe ps =
      let pos : 0 < size elt = omega (
        arith,
        size-pointer elt,
        ap length pe,
        c.encode-pos e v.0,
        length-append (encode e) (filters_bytes es),
      ) in
      let (elt', e₁, p₁) = c.complete elt e (filters_bytes es) v.0 pe in
      let (s₁, e₂, p₂) =
        skip_append t s (encode e) (filters_bytes es ++ rest) (F.byte_size e)
          (ps ∙ append_assoc (encode e) (filters_bytes es) rest) (c.byte_size-encode e v.0) in
      let (s₂, e₃, p₃) =
        read_filters_complete es fuel elt' s₁ (acc ++ e ∷ []) rest v.1 (omega arith) p₁ p₂ in
      let last = ap (λ (x : List A). ok (x, s₂)) (append_assoc acc (e ∷ []) es) in
      (s₂, rw (read_filters_more fuel elt s acc (lt→ltb 0 (size elt) pos), e₁, e₂) (e₃ ∙ last), p₃)

  -- The element that a round reads, and the streams behind it.
  pub round :
      (elt elt' s : Input) (rest : List ℕ) (e : A)
      → All IsByte (pointer elt)
      → pointer s ≡ pointer elt ++ rest
      → F.from_stream elt ≡ ok (e, elt')
      → (s' : Input) × (skip s (F.byte_size e) ≡ ok s')
        × (pointer s' ≡ pointer elt' ++ rest)
        × IsValid e
        × (pointer elt ≡ encode e ++ pointer elt')
        × All IsByte (pointer elt')
  round elt elt' s rest e v ps he =
      let (valid, split) = c.sound elt elt' e v he in
      let (s', es, p) =
        skip_append t s (encode e) (pointer elt' ++ rest) (F.byte_size e)
          (ps ∙ ap (λ (x : List ℕ). x ++ rest) split ∙ append_assoc (encode e) (pointer elt') rest)
          (c.byte_size-encode e valid) in
      (
        s',
        es,
        p,
        valid,
        split,
        All-append_right IsByte (encode e) (pointer elt') (subst (All IsByte) split v),
      )

  read_none :
      (elt s s' : Input) (acc r : List A) (rest : List ℕ)
      → pointer s ≡ pointer elt ++ rest
      → ltb 0 (size elt) ≡ false
      → ◌≡◌ {A = Result (List A × Input)} (ok (acc, s)) (ok (r, s'))
      → (es : List A) × (r ≡ acc ++ es)
        × All IsValid es
        × (pointer elt ≡ filters_bytes es)
        × (pointer s' ≡ rest)
  read_none elt s s' acc r rest ps e h =
      let none : pointer elt ≡ [] = no_bytes (pointer elt) (ground (arith, size-pointer elt)) in
      ([], cc (append-nil acc), tt, none, sym (ap pointer (cc h)) ∙ ps ∙ rw none)

  pub read_filters_sound :
      (fuel : ℕ) (elt s s' : Input) (acc r : List A) (rest : List ℕ)
      → All IsByte (pointer elt)
      → pointer s ≡ pointer elt ++ rest
      → read_filters F fuel elt s acc ≡ ok (r, s')
      → (es : List A) × (r ≡ acc ++ es)
        × All IsValid es
        × (pointer elt ≡ filters_bytes es)
        × (pointer s' ≡ rest)
  read_filters_sound zero elt s s' acc r rest v ps h = unfold read_filters in cc h
  read_filters_sound (suc fuel) elt s s' acc r rest v ps h = elim (Bool-cases (ltb 0 (size elt))) [
    | inr e ↦ read_none elt s s' acc r rest ps e (sym (read_filters_end fuel elt s acc e) ∙ h)
    | inl e ↦
        let ((x, elt'), e₁, h₁) =
          >>=-eq-ok (F.from_stream elt) _ (sym (read_filters_more fuel elt s acc e) ∙ h) in
        let (s₁, e₂, h₂) = >>=-eq-ok (skip s (F.byte_size x)) _ h₁ in
        let (s₁', e₃, p, valid, split, bytes) = round elt elt' s rest x v ps e₁ in
        let p₁ : pointer s₁ ≡ pointer elt' ++ rest = sym (ap pointer (cc (e₃, e₂))) ∙ p in
        let (es, er, vs, pe, pr) =
          read_filters_sound fuel elt' s₁ s' (acc ++ x ∷ []) r rest bytes p₁ h₂ in
        (
          x ∷ es,
          er ∙ append_assoc acc (x ∷ []) es,
          (valid, vs),
          split ∙ ap (◌++◌ (encode x)) pe,
          pr,
        )
  ]

  -- With a round for each byte the loop ends, and reports what it cannot read.
  pub read_filters-IsReported :
      (fuel : ℕ) (elt s : Input) (acc : List A) (rest : List ℕ)
      → length (pointer elt) < fuel
      → All IsByte (pointer elt)
      → pointer s ≡ pointer elt ++ rest
      → IsReported (read_filters F fuel elt s acc)
  read_filters-IsReported zero elt s acc rest h v ps = absurd (omega arith)
  read_filters-IsReported (suc fuel) elt s acc rest h v ps = elim (Bool-cases (ltb 0 (size elt))) [
    | inr e ↦ rw (read_filters_end fuel elt s acc e) tt
    | inl e ↦ rw (read_filters_more fuel elt s acc e) (
        IsReported-bind (F.from_stream elt) _ (c.reported elt v) λ (x, elt') e₁.
          let (s₁, e₂, p, valid, split, bytes) = round elt elt' s rest x v ps e₁ in
          rw e₂ (
            read_filters-IsReported fuel elt' s₁ (acc ++ x ∷ []) rest
              (omega (
                arith,
                ap length split,
                c.encode-pos x valid,
                length-append (encode x) (pointer elt'),
              ))
              bytes p))
  ]
