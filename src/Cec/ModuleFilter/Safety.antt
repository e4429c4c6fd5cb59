-- ===== src/Cec/ModuleFilter/Safety.antt =====
-- What ModuleFilter::from_stream does on any input.
use libstreetpass.Prelude.{
  ℕ, zero, suc, ◌≤◌, ◌<◌, ◌≡◌, ◌==◌, refl, sym, ap, ◌∙◌, subst, List, [], ◌∷◌, length, All, Bool,
  true, false, Bool-cases, inl, inr, if◌then◌else◌, arith, ==_iff,
}
use libstreetpass.Prelude.Result.{Result, ok, throws, message, >>=-eq-ok, ◌>>=◌, at}
use libstreetpass.Tins.{Tins}
use libstreetpass.Tins.Streams.{IsReported, can_read_false→lt}
use libstreetpass.Cec.Filter.{IsByte}
use libstreetpass.Cec.Filter.Struct.{IsReported-bind}
use libstreetpass.Cec.FilterList.{FilterList, count}
use libstreetpass.Cec.FilterList
use libstreetpass.Cec.Key.{KeyFilter}
use libstreetpass.Cec.Key.Wire.{IsKey}
use libstreetpass.Cec.ModuleFilter.{
  ModuleFilter, Found, none_found, empty_module_filter, read_list, read_lists, from_stream, key,
}
use libstreetpass.Cec.ModuleFilter.Encoding.{IsModuleFilter}
use libstreetpass.Cec.ModuleFilter.Lists.{read_lists_end, read_lists_more}
use libstreetpass.Cec.ModuleFilter.Rounds.{left, HasLists, read_list-Keeps, read_list-IsReported}

module _ (t : Tins) where
  open t use {Input, host, pointer, can_read}

  -- Each round uses up a kind of list, so the loop ends before its fuel.
  read_lists-IsReported :
      (fuel : ℕ) (s : Input) (f : ModuleFilter) (found : Found)
      → left found < fuel
      → All IsByte (pointer s)
      → IsReported (read_lists t fuel s f found)
  read_lists-IsReported zero s f found h v = absurd (omega arith)
  read_lists-IsReported (suc fuel) s f found h v = elim (Bool-cases (can_read s 2)) [
    | inr e ↦ rw (read_lists_end t fuel s f found e) tt
    | inl e ↦ rw (read_lists_more t fuel s f found e) (
        IsReported-bind (read_list t s f found) _ (read_list-IsReported t s f found v)
          λ (f', found', s') e₁.
            let (keep, bytes, less) = read_list-Keeps t s s' f f' found found' v e₁ in
            read_lists-IsReported fuel s' f' found' (omega arith) bytes)
  ]

  read_lists-HasLists :
      (fuel : ℕ) (s s' : Input) (f f' : ModuleFilter) (found : Found)
      → HasLists t f
      → All IsByte (pointer s)
      → read_lists t fuel s f found ≡ ok (f', s')
      → HasLists t f' × (length (pointer s') < 2)
  read_lists-HasLists zero s s' f f' found w v h = unfold read_lists in cc h
  read_lists-HasLists (suc fuel) s s' f f' found w v h = elim (Bool-cases (can_read s 2)) [
    | inr e ↦
        let done : ◌≡◌ {A = Result (ModuleFilter × Input)} (ok (f, s)) (ok (f', s')) =
          sym (read_lists_end t fuel s f found e) ∙ h in
        (
          subst (HasLists t) (cc done) w,
          subst (λ x. length (pointer x) < 2) (cc done) (can_read_false→lt t s 2 e),
        )
    | inl e ↦
        let ((f₁, found₁, s₁), e₁, h₁) =
          >>=-eq-ok (read_list t s f found) _ (sym (read_lists_more t fuel s f found e) ∙ h) in
        let (keep, bytes, less) = read_list-Keeps t s s₁ f f₁ found found₁ v e₁ in
        read_lists-HasLists fuel s₁ s' f₁ f' found₁ (keep w) bytes h₁
  ]

  empty-HasLists : HasLists t (empty_module_filter t)
  unfolding empty_module_filter FilterList.new_filter_list
  empty-HasLists =
      ((omega arith, refl, refl, tt), (omega arith, refl, refl, tt), (omega arith, refl, refl, tt))

  -- On any bytes the parser returns or throws one of its messages: no read goes past the stream, no
  -- exception of libtins comes through, and the loops end.
  pub module_from_stream-IsReported :
      (s : Input) → All IsByte (pointer s) → IsReported (from_stream t s)
  unfolding from_stream
  module_from_stream-IsReported s v =
      IsReported-bind (read_lists t 4 s (empty_module_filter t) none_found) _
        (read_lists-IsReported 4 s (empty_module_filter t) none_found (omega arith) v)
        λ (f, s') e. one_key (count f.key_list == 1) f s'
    where
      one_key :
          (b : Bool) (f : ModuleFilter) (s' : Input)
          → IsReported {A = ModuleFilter × Input}
              (if b then ok (f, s') else throws (message "bad - key list count != 1"))
      one_key true f s' = tt
      one_key false f s' = tt

  -- What the parser accepts is a valid module filter, and at most one byte is left unread.
  pub from_stream-IsModuleFilter :
      (s s' : Input) (f : ModuleFilter)
      → All IsByte (pointer s)
      → from_stream t s ≡ ok (f, s')
      → IsModuleFilter t f × (length (pointer s') ≤ 1)
  unfolding from_stream count
  from_stream-IsModuleFilter s s' f v h =
      let ((f₁, s₁), e₁, h₁) =
        >>=-eq-ok (read_lists t 4 s (empty_module_filter t) none_found) _ h in
      let ((vr, vt, vk), rest) =
        read_lists-HasLists 4 s s₁ (empty_module_filter t) f₁ none_found empty-HasLists v e₁ in
      let (one, same) = one_key (length f₁.key_list.filters == 1) (f₁, s₁) (f, s') h₁ in
      (
        subst (IsModuleFilter t) (ap (λ (x : ModuleFilter × Input). x.0) same)
            (vr, vt, vk, (==_iff (length f₁.key_list.filters) 1).0 one),
        subst (λ x. length (pointer x) ≤ 1) (ap (λ (x : ModuleFilter × Input). x.1) same)
            (omega arith),
      )
    where
      one_key :
          (b : Bool) (x y : ModuleFilter × Input)
          → (if b then ok x else throws (message "bad - key list count != 1")) ≡ ok y
          → (b ≡ true) × (x ≡ y)
      one_key true x y e = (refl, cc e)
      one_key false x y e = cc e

  -- A valid module filter has a key of 8 bytes: `key` never throws.
  pub key-IsModuleFilter :
      (f : ModuleFilter) → IsModuleFilter t f → (k : List ℕ) × (key f ≡ ok k) × (length k ≡ 8)
  unfolding key
  key-IsModuleFilter f (vr, vt, (vh, marker, len, keys), one) = first f.key_list.filters keys one
    where
      first :
          (fs : List KeyFilter)
          → All IsKey fs
          → length fs ≡ 1
          → (k : List ℕ) × ((at fs 0 >>= λ x. ok x.key) ≡ ok k) × (length k ≡ 8)
      first [] w e = absurd (omega arith)
      first (x ∷ fs) w e = (x.key, refl, w.0.0)
