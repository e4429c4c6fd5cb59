-- ===== src/Nl80211/Commands/Listing.antt =====
-- The handlers of get_wiphy_list and get_interface_list.
use libstreetpass.Prelude.{
  ℕ, ◌≡◌, ◌≢◌, refl, sym, ap, ◌∙◌, subst, List, [], ◌∷◌, ◌++◌, ==_iff, Bool, true, false,
  Bool-cases, inl, inr,
}
use libstreetpass.Prelude.Result.{Result, ok, throws, undefined, stuck, >>=-eq-ok}
use libstreetpass.Libnl.{Libnl}
use libstreetpass.Nl80211.Attributes.{Attributes, get_u32, get_string, get_nested, get_u32s}
use libstreetpass.Nl80211.Commands.Parse
use libstreetpass.Nl80211.Commands.Parse.{
  Wiphy, last_is, no_wiphy, insert_values, parse_bands, parse_wiphy_message, on_wiphy,
}

-- No two neighbours in the list have one index.
abbrev pub Distinct : {A : Type 0} → (A → ℕ) → List A → Type 0
Distinct index [] = Unit {0}
Distinct index (x ∷ []) = Unit {0}
Distinct index (x ∷ y ∷ ys) = (index x ≢ index y) × Distinct index (y ∷ ys)

Distinct-append :
    {A : Type 0} (index : A → ℕ) (xs : List A) (x : A)
    → Distinct index xs
    → last_is index (index x) xs ≡ false
    → Distinct index (xs ++ x ∷ [])
Distinct-append index [] x d h = tt
Distinct-append index (y ∷ []) x d h =
    ((λ e. absurd (cc (sym h, (==_iff (index y) (index x)).1 e))), tt)
Distinct-append index (y ∷ z ∷ zs) x d h = (d.0, Distinct-append index (z ∷ zs) x d.1 h)

module _ (nl : Libnl) where
  pub parse_wiphy-index :
      (attrs : Attributes nl) (w w' : Wiphy) (more : Bool)
      → parse_wiphy_message nl attrs w ≡ ok (more, w')
      → (more ≡ true) × (get_u32 nl attrs nl.attr_wiphy ≡ ok w'.index)
  unfolding parse_wiphy_message
  parse_wiphy-index attrs w w' more h =
      let (index, e₀, h₁) = >>=-eq-ok (get_u32 nl attrs nl.attr_wiphy) _ h in
      let (name, e₁, h₂) = >>=-eq-ok (get_string nl attrs nl.attr_wiphy_name) _ h₁ in
      let (cmd_attrs, e₂, h₃) = >>=-eq-ok (get_nested nl attrs nl.attr_supported_commands) _ h₂ in
      let (cmds, e₃, h₄) =
        >>=-eq-ok (insert_values nl cmd_attrs cmd_attrs.types w.supported_cmds) _ h₃ in
      let (types, e₄, h₅) = >>=-eq-ok (get_nested nl attrs nl.attr_supported_iftypes) _ h₄ in
      let (ciphers, e₅, h₆) = >>=-eq-ok (get_u32s nl attrs nl.attr_cipher_suites) _ h₅ in
      let (bands, e₆, h₇) = >>=-eq-ok (get_nested nl attrs nl.attr_wiphy_bands) _ h₆ in
      let (bs, e₇, h₈) = >>=-eq-ok (parse_bands nl bands bands.types w.bands) _ h₇ in
      (sym (ap (first more) h₈), e₀ ∙ ap (second index) h₈)
    where
      first : Bool → Result (Bool × Wiphy) → Bool
      first b (ok (x, y)) = x
      first b (throws e) = b
      first b undefined = b
      first b stuck = b

      second : ℕ → Result (Bool × Wiphy) → Result ℕ
      second n (ok (x, y)) = ok y.index
      second n (throws e) = ok n
      second n undefined = ok n
      second n stuck = ok n

  -- Where it returns, the handler of get_wiphy_list goes on with the dump, and a list without two
  -- neighbours of one index stays so.
  pub on_wiphy-Distinct :
      (attrs : Attributes nl) (v v' : List Wiphy) (more : Bool)
      → Distinct (λ (w : Wiphy). w.index) v
      → on_wiphy nl attrs v ≡ ok (more, v')
      → (more ≡ true) × Distinct (λ (w : Wiphy). w.index) v'
  unfolding on_wiphy Parse.after_wiphy_index
  on_wiphy-Distinct attrs v v' more d h = cases (get_u32 nl attrs nl.attr_wiphy) refl h
    where
      cases :
          (r : Result ℕ)
          → get_u32 nl attrs nl.attr_wiphy ≡ r
          → Parse.after_wiphy_index nl attrs v r ≡ ok (more, v')
          → (more ≡ true) × Distinct (λ (w : Wiphy). w.index) v'
      cases (throws e) er h = (cc, subst (Distinct (λ (w : Wiphy). w.index)) (cc h) d)
      cases undefined er h = cc
      cases stuck er h = cc
      cases (ok index) er h = elim (Bool-cases (last_is (λ (w : Wiphy). w.index) index v)) [
        | inl old ↦
            let h' : ◌≡◌ {A = Result (Bool × List Wiphy)} (ok (true, v)) (ok (more, v')) =
              rw old at h in
            (cc h', subst (Distinct (λ (w : Wiphy). w.index)) (cc h') d)
        | inr new ↦
            let h' = rw new at h in
            let ((b, w), ew, h₁) = >>=-eq-ok (parse_wiphy_message nl attrs no_wiphy) _ h' in
            let (eb, ei) = parse_wiphy-index attrs no_wiphy w b ew in
            let same : index ≡ w.index = cc (er, ei) in
            let new' : last_is (λ (x : Wiphy). x.index) w.index v ≡ false = rw (← same) new in
            (
              cc h₁,
              subst (Distinct (λ (x : Wiphy). x.index)) (cc h₁)
                  (Distinct-append (λ (x : Wiphy). x.index) v w d new'),
            )
      ]
