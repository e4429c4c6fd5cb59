-- ===== src/Cec/Print/Elements.antt =====
-- The texts of MVEs, send modes, titles and keys determine the values.
use libstreetpass.Prelude.{
  ℕ, zero, suc, ◌≤◌, ◌<◌, ◌≡◌, ◌==◌, refl, sym, ap, ◌∙◌, List, [], ◌∷◌, ◌++◌, append_assoc, Bool,
  length, get_or, All, if◌then◌else◌, arith,
}
use libstreetpass.Text.{codes, digits}
use libstreetpass.Text.Determines.{
  Determines, Any, literal-Determines, last-Determines, append-Determines, padded-Determines,
  digits-Determines, encode_all-Determines,
}
use libstreetpass.Text.Splits.{Stops, padded, padded_splits, same_length}
use libstreetpass.Tins.{Tins}
use libstreetpass.Cec.Endian.Injective.{endian_value-lt, endian_value-injective}
use libstreetpass.Cec.Filter.{IsByte}
use libstreetpass.Cec.Key.Wire.{IsKey}
use libstreetpass.Cec.Mve.{Mve}
use libstreetpass.Cec.Mve.Wire.{IsMve}
use libstreetpass.Cec.Print.Layout.{
  mve_text, labelled_text, pairs_text, key_text, spaced_text, list_text, title_text,
}
use libstreetpass.Cec.SendMode.{to_string}
use libstreetpass.Cec.Title.{TitleFilter, title_id, send_mode}
use libstreetpass.Cec.Title.Wire.{IsTitle}

number :
    (Q : List ℕ → Type 0) (n : Mve → ℕ) (after : Mve → List ℕ) {B : Type 0} (g : Mve → B)
    → ((a : Mve) → IsMve a → n a < 256)
    → Determines IsMve Q after g
    → ((a : Mve) (r : List ℕ) → Stops (after a ++ r))
    → Determines {B = ℕ × B} IsMve Q (λ a. digits 10 16 (n a) ++ after a) (λ a. (n a, g a))
number Q n after g small d stops =
    append-Determines IsMve Q Stops (λ a. digits 10 16 (n a)) after n g
      (digits-Determines IsMve n λ a v. omega (arith, small a v)) d λ a r v h. stops a r

-- What an MVE prints after its mask, and after its value.
abbrev after_value : Mve → List ℕ
after_value e = codes ", expectation=" ++ (digits 10 16 e.expectation ++ codes "]")

abbrev after_mask : Mve → List ℕ
after_mask e = codes ", value=" ++ (digits 10 16 e.value ++ after_value e)

pub mve_text-Determines : (Q : List ℕ → Type 0) → Determines IsMve Q mve_text (λ e. e)
mve_text-Determines Q a b r r' v w h h' e =
    let last = literal-Determines IsMve Q (codes ", expectation=") _ _ (
      number Q (λ m. m.expectation) (λ m. codes "]") (λ m. tt {0}) (λ m v. v.2)
        (last-Determines IsMve Q (codes "]")) λ m r. refl) in
    let middle =
      literal-Determines IsMve Q (codes ", value=") _ _
        (number Q (λ m. m.value) after_value _ (λ m v. v.1) last λ m r. refl) in
    let whole =
      literal-Determines IsMve Q (codes "MVE[mask=") _ _
        (number Q (λ m. m.mask) after_mask _ (λ m v. v.0) middle λ m r. refl) in
    let (same, rest) = whole a b r r' v w h h' e in (cc same, rest)

-- The mode that a text names, by its first and its sixth character.
abbrev named_mode : List ℕ → ℕ
named_mode cs =
    if get_or cs 0 0 == b'E'
    then 0
    else if get_or cs 0 0 == b'R'
    then 1
    else if get_or cs 5 0 == b'O'
    then 2
    else 3

module _ (as_character : Bool) where
  abbrev pub mode_text : ℕ → List ℕ
  mode_text m = labelled_text as_character (codes (to_string m)) m

  named_mode-text : (m : ℕ) (r : List ℕ) → m ≤ 3 → named_mode (mode_text m ++ r) ≡ m
  unfolding to_string
  named_mode-text zero r h = refl
  named_mode-text (suc zero) r h = refl
  named_mode-text (suc (suc zero)) r h = refl
  named_mode-text (suc (suc (suc zero))) r h = refl
  named_mode-text (suc (suc (suc (suc m)))) r h = absurd (omega arith)

  mode_text-Determines : (Q : List ℕ → Type 0) → Determines (λ m. m ≤ 3) Q mode_text (λ m. m)
  mode_text-Determines Q a b r r' v w h h' e =
      let same : a ≡ b = sym (named_mode-text a r v) ∙ ap named_mode e ∙ named_mode-text b r' w in
      (
        same,
        (same_length (mode_text a) (mode_text b) r r' (ap (λ m. length (mode_text m)) same) e).1,
      )

-- A list of MVEs ends where the line does.
abbrev pub EndsLine : List ℕ → Type 0
EndsLine r = get_or r 0 0 ≡ b'\n'

spaced_text-Determines : Determines (All IsMve) EndsLine spaced_text (λ ms. ms)
spaced_text-Determines =
    encode_all-Determines IsMve EndsLine Any (λ m. b' ' ∷ mve_text m) (λ cs. get_or cs 0 0 == b' ')
      (literal-Determines IsMve Any (b' ' ∷ []) mve_text (λ m. m) (mve_text-Determines Any))
      (λ m r. refl) (λ r h. rw h refl) (λ r h. tt) λ m r. tt

list_text-Determines : Determines (All IsMve) EndsLine list_text (λ ms. ms)
list_text-Determines [] [] r r' v w h h' e = (refl, e)
list_text-Determines [] (m ∷ ms) r r' v w h h' e =
    absurd (omega (arith, h, ap (λ (x : List ℕ). get_or x 0 0) e))
list_text-Determines (m ∷ ms) [] r r' v w h h' e =
    absurd (omega (arith, h', ap (λ (x : List ℕ). get_or x 0 0) e))
list_text-Determines (m ∷ ms) (n ∷ ns) r r' v w h h' e =
    literal-Determines (All IsMve) EndsLine (codes ", mve_list=") spaced_text (λ ms. ms)
      spaced_text-Determines (m ∷ ms) (n ∷ ns) r r' v w h h' e

module _ (as_character : Bool) (t : Tins) where
  -- What a title filter prints after its id.
  abbrev after_id : TitleFilter → List ℕ
  after_id e = codes ", send_mode=" ++ (mode_text as_character (send_mode e) ++ list_text e.mves)

  after_id-Determines :
      Determines {B = ℕ × List Mve} IsTitle EndsLine after_id (λ e. (e.send_mode, e.mves))
  unfolding send_mode
  after_id-Determines = literal-Determines IsTitle EndsLine (codes ", send_mode=") _ _ (
      append-Determines IsTitle EndsLine Any (λ e. mode_text as_character e.send_mode)
        (λ e. list_text e.mves) (λ e. e.send_mode) (λ e. e.mves)
        (λ a b r r' v w h h' e.
          mode_text-Determines as_character Any a.send_mode b.send_mode r r' v.1 w.1 h h' e)
        (λ a b r r' v w h h' e. list_text-Determines a.mves b.mves r r' v.3 w.3 h h' e)
        λ a r v h. tt)

  title_text-parts :
      Determines {B = ℕ × (ℕ × List Mve)} IsTitle EndsLine
        (title_text as_character t)
        (λ e. (title_id t e, (e.send_mode, e.mves)))
  unfolding title_id
  title_text-parts = literal-Determines IsTitle EndsLine (codes "Title: id=") _ _ (
      append-Determines IsTitle EndsLine Any (λ e. padded 8 (title_id t e)) after_id
        (λ e. title_id t e) (λ e. (e.send_mode, e.mves))
        (padded-Determines IsTitle Any 7 (λ e. title_id t e)
          λ e v. (endian_value-lt t e.title_id v.0.0, endian_value-lt t e.title_id v.0.0))
        after_id-Determines λ a r v h. tt)

  pub title_text-Determines : Determines IsTitle EndsLine (title_text as_character t) (λ e. e)
  unfolding title_id
  title_text-Determines a b r r' v w h h' e =
      let (same, rest) = title_text-parts a b r r' v w h h' e in
      let id : a.title_id ≡ b.title_id =
        endian_value-injective t a.title_id b.title_id v.0.0 w.0.0 (ap (λ x. x.0) same) in
      let mode : a.send_mode ≡ b.send_mode = ap (λ x. x.1.0) same in
      let mves : a.mves ≡ b.mves = ap (λ x. x.1.1) same in
      let count : a.number_mve ≡ b.number_mve = v.2 ∙ ap length mves ∙ sym w.2 in
      (cc (id, mode, mves, count), rest)

pairs_text_same :
    (xs ys r r' : List ℕ)
    → length xs ≡ length ys
    → All IsByte xs
    → All IsByte ys
    → pairs_text xs ++ r ≡ pairs_text ys ++ r'
    → (xs ≡ ys) × (r ≡ r')
pairs_text_same [] [] r r' h v w e = (refl, e)
pairs_text_same [] (y ∷ ys) r r' h v w e = absurd (omega arith)
pairs_text_same (x ∷ xs) [] r r' h v w e = absurd (omega arith)
pairs_text_same (x ∷ xs) (y ∷ ys) r r' h v w e =
    let (same, rest) =
      padded_splits 1 x y _ _ (omega arith) (omega arith) (omega arith) (omega arith) (
        sym (append_assoc (padded 2 x) (pairs_text xs) r)
        ∙ e
        ∙ append_assoc (padded 2 y) (pairs_text ys) r') in
    let (same', rest') = pairs_text_same xs ys r r' (omega arith) v.1 w.1 rest in
    (cc (same, same'), rest')

pub key_text-Determines : Determines IsKey Any key_text (λ e. e)
key_text-Determines =
    literal-Determines IsKey Any (codes "key=") (λ e. pairs_text e.key) (λ e. e)
      λ a b r r' v w h h' e.
        let (same, rest) = pairs_text_same a.key b.key r r' (v.0 ∙ sym w.0) v.1 w.1 e in
        (cc same, rest)
