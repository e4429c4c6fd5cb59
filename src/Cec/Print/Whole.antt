-- ===== src/Cec/Print/Whole.antt =====
-- The text of a module filter, and what it says of the filter.
use libstreetpass.Prelude.{
  ℕ, ◌≡◌, ◌==◌, ◌↔◌, refl, sym, ap, ◌∙◌, List, [], ◌∷◌, ◌++◌, append_assoc, Bool, get_or,
}
use libstreetpass.Text.{Stream, codes, put_text, end_line, new_stream}
use libstreetpass.Text.Determines.{Determines, Any, literal-Determines, append-Determines}
use libstreetpass.Text.Splits.{same_length}
use libstreetpass.Tins.{Tins}
use libstreetpass.Cec.FilterList.{FilterList}
use libstreetpass.Cec.Key.{KeyFilter, key_filter}
use libstreetpass.Cec.ModuleFilter.{ModuleFilter}
use libstreetpass.Cec.ModuleFilter.Encoding.{IsModuleFilter}
use libstreetpass.Cec.Print.{print_key, print_title, print_module_filter}
use libstreetpass.Cec.Print.Elements.{EndsLine, title_text-Determines, key_text-Determines}
use libstreetpass.Cec.Print.Layout.{
  key_text, print_key_lem, title_text, print_title_lem, filter_list_text, print_filter_list_lem,
  no_fill,
}
use libstreetpass.Cec.Key.Wire.{IsKey, key_bytes, key_filter-Codec}
use libstreetpass.Cec.Print.Lists.{filter_list_text-Determines}
use libstreetpass.Cec.Title.{TitleFilter, title_filter}
use libstreetpass.Cec.Title.Encoding.{title_filter-Codec}
use libstreetpass.Cec.Title.Wire.{IsTitle, title_bytes}

-- A stream without a width.
abbrev pub plain : List ℕ → ℕ → ℕ → Stream
plain x base fill = record { text = x; base = base; fill = fill; width = 0 }

-- Five texts on lines of their own.
lines_apart :
    (a b c d e x : List ℕ) (base fill : ℕ)
    → put_text e (
        end_line (
          put_text d (
            end_line (
              put_text c (
                end_line (
                  put_text b (
                    end_line
                      (put_text a (record { text = x; base = base; fill = fill; width = 0 })))))))))
      ≡ plain
          (x ++ ((a ++ b'\n' ∷ []) ++ (b ++ ((b'\n' ∷ c ++ b'\n' ∷ []) ++ (d ++ b'\n' ∷ e)))))
          base
          fill
unfolding put_text
lines_apart a b c d e x base fill = simp (no_fill, append_assoc)

-- What follows a list in the text of a module filter: a line of one character.
abbrev Ruled : ℕ → List ℕ → Type 0
Ruled c r = EndsLine r × (get_or r 1 0 ≡ c)

abbrev top : List ℕ
top = codes "================================ Module Filter =================================\n"

abbrev rule : List ℕ
rule = codes "\n--------------------------------------------------------------------------------\n"

abbrev bottom : List ℕ
bottom = codes "\n================================================================================"

module _ (as_character : Bool) (t : Tins) where
  abbrev pub titles_text : FilterList TitleFilter → List ℕ
  titles_text =
      filter_list_text as_character (title_filter t) (print_title as_character t)
        (title_text as_character t) (print_title_lem as_character t)

  abbrev pub keys_text : FilterList KeyFilter → List ℕ
  keys_text = filter_list_text as_character (key_filter t) print_key key_text print_key_lem

  abbrev after_titles : ModuleFilter → List ℕ
  after_titles f = rule ++ (keys_text f.key_list ++ bottom)

  abbrev pub module_text : ModuleFilter → List ℕ
  module_text f = top ++ (titles_text f.title_list ++ after_titles f)

  pub print_module_filter_lem :
      (f : ModuleFilter) (x : List ℕ) (base fill : ℕ)
      → print_module_filter as_character t f (plain x base fill)
        ≡ plain (x ++ module_text f) base fill
  unfolding print_module_filter
  print_module_filter_lem f x base fill =
      let titles =
        print_filter_list_lem as_character (title_filter t) (print_title as_character t)
          (title_text as_character t) (print_title_lem as_character t) in
      let keys =
        print_filter_list_lem as_character (key_filter t) print_key key_text print_key_lem in
      rw (titles f.title_list, keys f.key_list)
        (lines_apart
          (codes "================================ Module Filter =================================")
          (titles_text f.title_list)
          (codes "--------------------------------------------------------------------------------")
          (keys_text f.key_list)
          (codes "================================================================================")
          x base fill)

  after_titles-Determines : Determines (IsModuleFilter t) Any after_titles (λ f. f.key_list)
  after_titles-Determines =
      let keys =
        filter_list_text-Determines as_character (key_filter t) print_key key_text print_key_lem
          IsKey key_bytes (key_filter-Codec t) (Ruled b'=') (λ r. get_or r 1 0 == b'k')
          (λ a b r r' v w h h' e. key_text-Determines a b r r' v w tt tt e) (λ e r. refl)
          (λ r h. rw h.1 refl) (λ r h. h.0) in
      literal-Determines (IsModuleFilter t) Any rule (λ f. keys_text f.key_list ++ bottom)
        (λ f. f.key_list)
        λ a b r r' v w h h' e.
          let (same, rest) =
            keys a.key_list b.key_list (bottom ++ r) (bottom ++ r') v.2 w.2 (refl, refl)
              (refl, refl)
              (sym (append_assoc (keys_text a.key_list) bottom r)
                ∙ e
                ∙ append_assoc (keys_text b.key_list) bottom r') in
          (same, (same_length bottom bottom r r' refl rest).1)

  module_text-parts :
      Determines {B = FilterList TitleFilter × FilterList KeyFilter}
        (IsModuleFilter t)
        Any
        module_text
        (λ f. (f.title_list, f.key_list))
  module_text-parts =
      let titles =
        filter_list_text-Determines as_character (title_filter t) (print_title as_character t)
          (title_text as_character t) (print_title_lem as_character t) IsTitle (title_bytes t.host)
          (title_filter-Codec t) (Ruled b'-') (λ r. get_or r 1 0 == b'T')
          (title_text-Determines as_character t) (λ e r. refl) (λ r h. rw h.1 refl) (λ r h. h.0) in
      literal-Determines (IsModuleFilter t) Any top
        (λ f. titles_text f.title_list ++ after_titles f) (λ f. (f.title_list, f.key_list))
        (append-Determines (IsModuleFilter t) Any (Ruled b'-') (λ f. titles_text f.title_list)
          after_titles (λ f. f.title_list) (λ f. f.key_list)
          (λ a b r r' v w h h' e. titles a.title_list b.title_list r r' v.1 w.1 h h' e)
          after_titles-Determines λ f r v h. (refl, refl))

  -- Two valid module filters are printed alike exactly if they have the same list of titles and the
  -- same key: the text shows all of both, headers included, and nothing of the raw bytes filters.
  pub print_module_filter_iff :
      (f g : ModuleFilter)
      → IsModuleFilter t f
      → IsModuleFilter t g
      → ((print_module_filter as_character t f new_stream).text
          ≡ (print_module_filter as_character t g new_stream).text)
        ↔ ((f.title_list ≡ g.title_list) × (f.key_list ≡ g.key_list))
  print_module_filter_iff f g v w =
      let shown = ap (λ (s : Stream). s.text) (print_module_filter_lem f [] 10 b' ') in
      let shown' = ap (λ (s : Stream). s.text) (print_module_filter_lem g [] 10 b' ') in
      (
        λ e.
            let same : module_text f ++ [] ≡ module_text g ++ [] =
              ap (λ (x : List ℕ). x ++ []) (sym shown ∙ e ∙ shown') in
            let (parts, rest) = module_text-parts f g [] [] v w tt tt same in
            (ap (λ x. x.0) parts, ap (λ x. x.1) parts),
        λ (titles, keys). shown ∙ rw (titles, keys) refl ∙ sym shown',
      )
