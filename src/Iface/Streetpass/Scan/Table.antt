-- ===== src/Iface/Streetpass/Scan/Table.antt =====
-- The results of a scan in src/iface/streetpass.cpp as a map: `emplace` keeps the first filter of
-- each address.
use mathlib.Core.Option.{or_else}
use libstreetpass.Prelude.{
  ℕ, ◌≡◌, refl, sym, ap, ◌∙◌, List, [], ◌∷◌, ◌++◌, Bool-cases, inl, inr, Option, none, some, same,
  same→eq, if◌then◌else◌,
}
use libstreetpass.Cec.ModuleFilter.{ModuleFilter}
use libstreetpass.Iface.Streetpass.Scan.{Results, get, is_present, emplace}

abbrev pub only : List ℕ → ModuleFilter → List ℕ → Option ModuleFilter
only a f addr = if same a addr then some f else none

pub or_else-none : (o : Option ModuleFilter) → or_else o none ≡ o
unfolding or_else
or_else-none none = refl
or_else-none (some f) = refl

pub get-append :
    (results : Results) (a : List ℕ) (f : ModuleFilter) (addr : List ℕ)
    → get addr (results ++ (a, f) ∷ []) ≡ or_else (get addr results) (only a f addr)
unfolding get or_else
get-append [] a f addr = refl
get-append ((b, g) ∷ rest) a f addr = elim (Bool-cases (same b addr)) [
  | inl q ↦ rw q refl
  | inr q ↦ rw q (get-append rest a f addr)
]

-- What is at an address is what was there, or else the new filter, at its address.
pub get-emplace :
    (results : Results) (a : List ℕ) (f : ModuleFilter) (addr : List ℕ)
    → get addr (emplace results a f) ≡ or_else (get addr results) (only a f addr)
unfolding emplace is_present or_else
get-emplace results a f addr = of (get a results) refl
  where
    of :
        (o : Option ModuleFilter)
        → get a results ≡ o
        → get addr (if is_present o then results else results ++ (a, f) ∷ [])
          ≡ or_else (get addr results) (only a f addr)
    of none e = get-append results a f addr
    of (some g) e = elim (Bool-cases (same a addr)) [
      | inl q ↦
          let here : get addr results ≡ some g =
            ap (λ (x : List ℕ). get x results) (sym (same→eq a addr q)) ∙ e in
          rw here refl
      | inr q ↦ rw q (sym (or_else-none (get addr results)))
    ]
