-- ===== src/Demo/Output.antt =====
-- What src/main.cpp prints of the results of its scan.
use mathlib.Core.List.{Perm}
use mathlib.Core.List.Perm
use libstreetpass.Prelude.{
  ℕ, ◌≡◌, refl, sym, ap, List, [], ◌∷◌, ◌++◌, append_assoc, append-nil, encode_all, Bool,
  Bool-cases, inl, inr, true, if◌then◌else◌, false, All,
}
use libstreetpass.Text.{put_text}
use libstreetpass.Tins.{Tins}
use libstreetpass.Cec.ModuleFilter.{ModuleFilter}
use libstreetpass.Cec.Print.Layout.{no_fill}
use libstreetpass.Cec.Print.Whole.{module_text, plain, print_module_filter_lem}
use libstreetpass.Iface.Streetpass.Scan.{Results}
use libstreetpass.Demo.{Addresses, insert, in_order, print_results}

module _ (h : Addresses) where
  insert-Perm : (e : List ℕ × ModuleFilter) (es : Results) → Perm (insert h e es) (e ∷ es)
  unfolding insert
  insert-Perm e [] = Perm.refl _
  insert-Perm e (f ∷ fs) = elim (Bool-cases (h.before e.0 f.0)) [
    | inl q ↦ rw q (Perm.refl _)
    | inr q ↦ rw q (Perm.trans (Perm.cons f (insert-Perm e fs)) (Perm.swap e f fs))
  ]

  -- Visiting the map leaves nothing out and repeats nothing.
  pub in_order-Perm : (res : Results) → Perm (in_order h res) res
  unfolding in_order
  in_order-Perm [] = Perm.refl _
  in_order-Perm (e ∷ es) =
      Perm.trans (insert-Perm e (in_order h es)) (Perm.cons e (in_order-Perm es))

  -- No entry belongs before its predecessor.
  abbrev pub Ordered : Results → Type 0
  Ordered [] = Unit {0}
  Ordered (e ∷ []) = Unit {0}
  Ordered (e ∷ f ∷ es) = (h.before f.0 e.0 ≡ false) × Ordered (f ∷ es)

  -- An entry before one of two, the first of which may follow it as well as the second.
  follows :
      (e f g : List ℕ × ModuleFilter) (es rest : Results) (first : Bool)
      → h.before e.0 f.0 ≡ false
      → h.before g.0 f.0 ≡ false
      → Ordered (if first then e ∷ g ∷ es else g ∷ rest)
      → Ordered (f ∷ (if first then e ∷ g ∷ es else g ∷ rest))
  follows e f g es rest true q q' o = (q, o)
  follows e f g es rest false q q' o = (q', o)

  insert-Ordered : (e : List ℕ × ModuleFilter) (es : Results) → Ordered es → Ordered (insert h e es)
  unfolding insert
  insert-Ordered e [] o = tt
  insert-Ordered e (f ∷ []) o = elim (Bool-cases (h.before e.0 f.0)) [
    | inl q ↦ rw q (h.before_asymmetric e.0 f.0 q, tt)
    | inr q ↦ rw q (q, tt)
  ]
  insert-Ordered e (f ∷ g ∷ es) o = elim (Bool-cases (h.before e.0 f.0)) [
    | inl q ↦ rw q (h.before_asymmetric e.0 f.0 q, o)
    | inr q ↦ rw q (follows e f g es _ (h.before e.0 g.0) q o.0 (insert-Ordered e (g ∷ es) o.1))
  ]

  pub in_order-Ordered : (res : Results) → Ordered (in_order h res)
  unfolding in_order
  in_order-Ordered [] = tt
  in_order-Ordered (e ∷ es) = insert-Ordered e (in_order h es) (in_order-Ordered es)

  insert-All :
      (P : List ℕ × ModuleFilter → Type 0) (e : List ℕ × ModuleFilter) (es : Results)
      → P e
      → All P es
      → All P (insert h e es)
  unfolding insert
  insert-All P e [] p v = (p, tt)
  insert-All P e (f ∷ fs) p v = elim (Bool-cases (h.before e.0 f.0)) [
    | inl q ↦ rw q (p, v)
    | inr q ↦ rw q (v.0, insert-All P e fs p v.1)
  ]

  pub in_order-All :
      (P : List ℕ × ModuleFilter → Type 0) (res : Results) → All P res → All P (in_order h res)
  unfolding in_order
  in_order-All P [] v = tt
  in_order-All P (e ∷ es) v = insert-All P e (in_order h es) v.0 (in_order-All P es v.1)

  module _ (as_character : Bool) (t : Tins) where
    -- The lines of a result: its address and its module filter.
    abbrev pub result_text : List ℕ × ModuleFilter → List ℕ
    result_text (a, f) = h.to_string a ++ (b'\n' ∷ (module_text as_character t f ++ b'\n' ∷ []))

    put_plain :
        (cs x : List ℕ) (base fill : ℕ)
        → put_text cs (plain x base fill) ≡ plain (x ++ cs) base fill
    unfolding put_text
    put_plain cs x base fill = rw (no_fill cs fill) refl

    pub print_results_lem :
        (res : Results) (x : List ℕ) (base fill : ℕ)
        → print_results as_character t h res (plain x base fill)
          ≡ plain (x ++ encode_all result_text res) base fill
    unfolding print_results
    print_results_lem [] x base fill = ap (λ y. plain y base fill) (sym (append-nil x))
    print_results_lem ((a, f) ∷ res) x base fill =
        rw
          (
            put_plain,
            print_module_filter_lem as_character t f ((x ++ h.to_string a) ++ b'\n' ∷ []) base fill,
            print_results_lem res,
          )
          (ap (λ y. plain y base fill) (simp append_assoc))
