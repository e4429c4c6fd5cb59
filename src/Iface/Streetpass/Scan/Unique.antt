-- ===== src/Iface/Streetpass/Scan/Unique.antt =====
-- The addresses of the results of a scan in src/iface/streetpass.cpp.
use libstreetpass.Prelude.{
  ℕ, ◌≡◌, refl, ap, ◌∙◌, subst, List, [], ◌∷◌, ◌++◌, All, All-mono, Bool, Bool-cases, true, false,
  inl, inr, Option, none, some, same, same→eq, same_refl, if◌then◌else◌,
}
use libstreetpass.Prelude.Result.{ok, >>=-eq-ok}
use libstreetpass.Libnl.{Libnl}
use libstreetpass.Os.{Os}
use libstreetpass.Tins.{Tins}
use libstreetpass.Tins.Dot11.{Dot11}
use libstreetpass.Cec.ModuleFilter.{ModuleFilter}
use libstreetpass.Iface.Streetpass.Scan.{Results, get, is_present, emplace, Callback, collect, scan}
use libstreetpass.Iface.Streetpass.Scan.Sound.{scan-keeps}
use libstreetpass.Iface.Virtual.{VirtualInterface}
use libstreetpass.Iface.World.{World}

abbrev pub Unique : Results → Type 0
Unique [] = Unit
Unique ((a, f) ∷ rest) = (get a rest ≡ none) × Unique rest

-- What an entry before them changes of the others: nothing, at another address.
get_rest :
    (a b : List ℕ) (f : ModuleFilter) (rest : Results)
    → same a b ≡ false
    → get b ((a, f) ∷ rest) ≡ get b rest
unfolding get
get_rest a b f rest e = rw e refl

get-none :
    (a b : List ℕ) (f : ModuleFilter) (rest : Results)
    → get b ((a, f) ∷ rest) ≡ none
    → (same a b ≡ false) × (get b rest ≡ none)
unfolding get
get-none a b f rest h = of (same a b) refl h
  where
    of :
        (c : Bool)
        → same a b ≡ c
        → (if c then some f else get b rest) ≡ none
        → (same a b ≡ false) × (get b rest ≡ none)
    of true e q = cc q
    of false e q = (e, q)

append_none :
    (a b : List ℕ) (f : ModuleFilter) (rest : Results)
    → get b rest ≡ none
    → same a b ≡ false
    → get b (rest ++ (a, f) ∷ []) ≡ none
append_none a b f [] h e = get_rest a b f [] e ∙ h
append_none a b f ((c, g) ∷ rest) h e =
    let (other, none_left) = get-none c b g rest h in
    get_rest c b g (rest ++ (a, f) ∷ []) other ∙ append_none a b f rest none_left e

same-false : (a b : List ℕ) → same a b ≡ false → same b a ≡ false
same-false a b h = elim (Bool-cases (same b a)) [
  | inl e ↦ absurd (cc (h, ap (λ x. same x b) (same→eq b a e), same_refl b))
  | inr e ↦ e
]

append-Unique :
    (a : List ℕ) (f : ModuleFilter) (rest : Results)
    → get a rest ≡ none
    → Unique rest
    → Unique (rest ++ (a, f) ∷ [])
append-Unique a f [] h u = (h, tt)
append-Unique a f ((b, g) ∷ rest) h u =
    let (other, none_left) = get-none b a g rest h in
    (append_none a b f rest u.0 (same-false b a other), append-Unique a f rest none_left u.1)

emplace-Unique :
    (results : Results) (a : List ℕ) (f : ModuleFilter)
    → Unique results
    → Unique (emplace results a f)
unfolding emplace is_present
emplace-Unique results a f u = of (get a results) refl
  where
    of :
        (o : Option ModuleFilter)
        → get a results ≡ o
        → Unique (if is_present o then results else results ++ (a, f) ∷ [])
    of (some g) e = u
    of none e = append-Unique a f results e u

-- Each entry is what is found at its address.
pub Unique-get :
    (res : Results) → Unique res → All (λ (e : List ℕ × ModuleFilter). get e.0 res ≡ some e.1) res
Unique-get [] u = tt
Unique-get ((a, f) ∷ rest) u = (
  here,
  All-mono
      (λ (b, g) h. elim (Bool-cases (same a b)) [
        | inl e ↦ absurd (cc (ap (λ x. get x rest) (same→eq a b e), u.0, h))
        | inr e ↦ get_rest a b f rest e ∙ h
      ])
      rest (Unique-get rest u.1),
)
  where
    here : get a ((a, f) ∷ rest) ≡ some f
    here = unfold get in rw (same_refl a) refl

module _ (nl : Libnl) (os : Os) (t : Tins) (d : Dot11) {S : Type 0} (filter : Callback S) where
  -- A scan that returns has found each address once.
  pub scan-Unique :
      (v : VirtualInterface) (timeout : ℕ) (s s' : S) (res : Results) (w w' : World nl os)
      → scan nl os t d v timeout filter s w ≡ (ok (res, s'), w')
      → Unique res
  unfolding collect
  scan-Unique v timeout s s' res w w' h =
      scan-keeps nl os t d filter (λ y. Unique y.0) v timeout s (res, s') w w'
        (λ m addr f (results, s₁) y₂ b heard a u q.
          let ((accepted, s₂), e, q₁) = >>=-eq-ok (filter addr f s₁) _ q in
          kept results addr f accepted u y₂ s₂ (cc q₁))
        tt h
    where
      kept :
          (results : Results) (addr : List ℕ) (f : ModuleFilter) (accepted : Bool)
          → Unique results
          → (y : Results × S) (s₂ : S)
          → ((if accepted then emplace results addr f else results), s₂) ≡ y
          → Unique y.0
      kept results addr f true u y s₂ e =
          subst (λ (x : Results × S). Unique x.0) e (emplace-Unique results addr f u)
      kept results addr f false u y s₂ e = subst (λ (x : Results × S). Unique x.0) e u
