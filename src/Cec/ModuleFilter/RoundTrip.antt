-- ===== src/Cec/ModuleFilter/RoundTrip.antt =====
-- Reading back what a module filter writes.
use libstreetpass.Prelude.{
  ℕ, suc, ◌≡◌, ◌==◌, refl, sym, ap, ◌∙◌, List, [], ◌++◌, append_assoc, append-nil, length, take,
  true, false, Bool-cases, inl, inr, if◌then◌else◌, take-length_append, arith,
}
use libstreetpass.Prelude.Result.{ok, ◌>>=◌}
use libstreetpass.Tins.{Tins}
use libstreetpass.Tins.Streams.{can_read_false}
use libstreetpass.Cec.FilterList.{FilterList, count}
use libstreetpass.Cec.Key.{KeyFilter}
use libstreetpass.Cec.Title.{TitleFilter}
use libstreetpass.Cec.ModuleFilter.{
  ModuleFilter, Found, none_found, empty_module_filter, read_lists, from_stream, from_bytes,
  to_bytes,
}
use libstreetpass.Cec.ModuleFilter.Encoding.{
  IsModuleFilter, module_bytes, normal, unless_empty, to_bytes-module_bytes,
}
use libstreetpass.Cec.ModuleFilter.Lists.{
  raw_bytes_list_bytes, IsTitleList, title_list_bytes, IsKeyList, key_list_bytes,
  read_list_raw_bytes, read_list_title, read_list_key, read_lists_end, read_lists_more,
  can_read_list,
}

module _ (t : Tins) where
  open t use {Input, host, pointer, input, pointer-input}

  -- The list that the parser ends with.
  abbrev after : {A : Type 0} → FilterList A → FilterList A → FilterList A
  after old l = if count l == 0 then old else l

  read_keys :
      (n : ℕ) (s : Input) (f : ModuleFilter) (found : Found) (l : FilterList KeyFilter)
      → found.key ≡ false
      → IsKeyList t l
      → pointer s ≡ key_list_bytes t l
      → (s' : Input) × (read_lists t (suc (suc n)) s f found ≡ ok (record f { key_list = l }, s'))
  read_keys n s f found l h v e =
      let e' : pointer s ≡ key_list_bytes t l ++ [] = e ∙ sym (append-nil _) in
      let (s', e₁, p) = read_list_key t s f found l [] h v e' in
      let last = can_read_false t s' 2 (omega (arith, ap length p)) in
      (
        s',
        read_lists_more t (suc n) s f found (can_read_list t s l.header _ [] e')
            ∙ rw e₁ (read_lists_end t n s' _ _ last),
      )

  read_titles :
      (n : ℕ) (s : Input) (f : ModuleFilter) (found : Found) (l : FilterList TitleFilter)
      (k : FilterList KeyFilter)
      → found.title ≡ false
      → found.key ≡ false
      → IsTitleList t l
      → IsKeyList t k
      → pointer s ≡ unless_empty l (title_list_bytes t l) ++ key_list_bytes t k
      → (s' : Input) × (read_lists t (suc (suc (suc n))) s f found
          ≡ ok (record f { title_list = after f.title_list l; key_list = k }, s'))
  read_titles n s f found l k ht hk v w e = elim (Bool-cases (count l == 0)) [
    | inl z ↦ rw z (read_keys (suc n) s f found k hk w (e ∙ rw z))
    | inr z ↦
        let e' : pointer s ≡ title_list_bytes t l ++ key_list_bytes t k = e ∙ rw z in
        let (s₁, e₁, p₁) = read_list_title t s f found l (key_list_bytes t k) ht v e' in
        let (s₂, e₂) =
          read_keys n s₁ (record f { title_list = l }) (record found { title = true }) k hk w p₁ in
        (
          s₂,
          rw z (
              read_lists_more t (suc (suc n)) s f found (can_read_list t s l.header _ _ e')
              ∙ rw e₁ e₂),
        )
  ]

  read_all :
      (s : Input) (f : ModuleFilter)
      → IsModuleFilter t f
      → pointer s ≡ module_bytes t f
      → (s' : Input) × (read_lists t 4 s (empty_module_filter t) none_found ≡ ok (normal t f, s'))
  unfolding empty_module_filter
  read_all s f (vr, vt, vk, one) e = elim (Bool-cases (count f.raw_bytes_list == 0)) [
    | inl z ↦ rw z (
        read_titles 1 s (empty_module_filter t) none_found f.title_list f.key_list refl refl vt vk
          (e ∙ rw z))
    | inr z ↦
        let tail =
          unless_empty f.title_list (title_list_bytes t f.title_list)
          ++ key_list_bytes t f.key_list in
        let e' : pointer s ≡ raw_bytes_list_bytes t f.raw_bytes_list ++ tail =
          e ∙ rw z (append_assoc (raw_bytes_list_bytes t f.raw_bytes_list) _ _) in
        let (s₁, e₁, p₁) =
          read_list_raw_bytes t s (empty_module_filter t) none_found f.raw_bytes_list tail refl vr
            e' in
        let (s₂, e₂) =
          read_titles 0 s₁ (record (empty_module_filter t) { raw_bytes_list = f.raw_bytes_list })
            (record none_found { raw_bytes = true }) f.title_list f.key_list refl refl vt vk p₁ in
        (
          s₂,
          rw z (
              read_lists_more t 3 s (empty_module_filter t) none_found
                (can_read_list t s f.raw_bytes_list.header _ tail e')
              ∙ rw e₁ e₂),
        )
  ]

  -- Parsing the bytes of a valid module filter returns the filter, except that a list without
  -- filters comes back with the header of a new list.
  pub from_bytes-to_bytes :
      (f : ModuleFilter)
      → IsModuleFilter t f
      → (to_bytes t f >>= λ bs. from_bytes t bs) ≡ ok (normal t f)
  unfolding from_bytes from_stream count
  from_bytes-to_bytes f v =
      let bs : List ℕ = module_bytes t f in
      let whole : pointer (input bs (length bs)) ≡ bs =
        pointer-input bs (length bs) (omega arith) ∙ take_all bs in
      let (s', e) = read_all (input bs (length bs)) f v whole in
      rw (to_bytes-module_bytes t f v, e, v.3) refl
    where
      take_all : (xs : List ℕ) → take (length xs) xs ≡ xs
      take_all xs =
          ap (take (length xs)) (sym (append-nil xs)) ∙ take-length_append (length xs) xs [] refl
