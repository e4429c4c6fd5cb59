-- ===== src/Text/Determines.antt =====
-- Texts that determine what they were printed from, also with more text after them: what is needed
-- to put such texts one after the other.
use libstreetpass.Prelude.{
  ℕ, suc, ◌^◌, ◌<◌, ◌≡◌, refl, sym, ap, subst, ◌∙◌, List, [], ◌∷◌, ◌++◌, append_assoc, Bool, true,
  false, encode_all, All,
}
use libstreetpass.Text.{digits}
use libstreetpass.Text.Splits.{padded, Stops, padded_splits, digits_splits, same_length}

-- The text `p a`, with a rest that `Q` allows after it, determines `f a` and the rest.
abbrev pub Determines :
    {A B : Type 0} → (A → Type 0) → (List ℕ → Type 0) → (A → List ℕ) → (A → B) → Type 0
Determines {A} P Q p f =
    (a b : A) (r r' : List ℕ)
    → P a
    → P b
    → Q r
    → Q r'
    → p a ++ r ≡ p b ++ r'
    → (f a ≡ f b) × (r ≡ r')

abbrev pub Any : List ℕ → Type 0
Any cs = Unit {0}

module _ {A : Type 0} (P : A → Type 0) (Q : List ℕ → Type 0) where
  pub literal-Determines :
      {B : Type 0} (cs : List ℕ) (q : A → List ℕ) (g : A → B)
      → Determines P Q q g
      → Determines P Q (λ a. cs ++ q a) g
  literal-Determines cs q g d a b r r' v w h h' e =
      d a b r r' v w h h'
        (same_length cs cs (q a ++ r) (q b ++ r') refl
          (sym (append_assoc cs (q a) r) ∙ e ∙ append_assoc cs (q b) r')).1

  pub last-Determines : (cs : List ℕ) → Determines P Q (λ a. cs) (λ a. tt {0})
  last-Determines cs a b r r' v w h h' e = (refl, (same_length cs cs r r' refl e).1)

  pub append-Determines :
      {B C : Type 0} (Q₁ : List ℕ → Type 0) (p q : A → List ℕ) (f : A → B) (g : A → C)
      → Determines P Q₁ p f
      → Determines P Q q g
      → ((a : A) (r : List ℕ) → P a → Q r → Q₁ (q a ++ r))
      → Determines {B = B × C} P Q (λ a. p a ++ q a) (λ a. (f a, g a))
  append-Determines Q₁ p q f g first second allowed a b r r' v w h h' e =
      let (same, rest) =
        first a b (q a ++ r) (q b ++ r') v w (allowed a r v h) (allowed b r' w h')
          (sym (append_assoc (p a) (q a) r) ∙ e ∙ append_assoc (p b) (q b) r') in
      let (same', rest') = second a b r r' v w h h' rest in (cc (same, same'), rest')

  pub padded-Determines :
      (w : ℕ) (n : A → ℕ)
      → ((a : A) → P a → (n a < 16 ^ suc w) × (n a < 2 ^ 32))
      → Determines P Q (λ a. padded (suc w) (n a)) n
  padded-Determines w n small a b r r' v v' h h' e =
      padded_splits w (n a) (n b) r r' (small a v).0 (small b v').0 (small a v).1 (small b v').1 e

  pub encode_all-Determines :
      (Q₁ : List ℕ → Type 0) (q : A → List ℕ) (more : List ℕ → Bool)
      → Determines P Q₁ q (λ a. a)
      → ((a : A) (r : List ℕ) → more (q a ++ r) ≡ true)
      → ((r : List ℕ) → Q r → more r ≡ false)
      → ((r : List ℕ) → Q r → Q₁ r)
      → ((a : A) (r : List ℕ) → Q₁ (q a ++ r))
      → Determines (All P) Q (encode_all q) (λ xs. xs)
  encode_all-Determines Q₁ q more d starts ends last next = go
    where
      allowed : (xs : List A) (r : List ℕ) → Q r → Q₁ (encode_all q xs ++ r)
      allowed [] r h = last r h
      allowed (a ∷ xs) r h =
          subst Q₁ (sym (append_assoc (q a) (encode_all q xs) r)) (next a (encode_all q xs ++ r))

      first : (a : A) (xs : List A) (r r' : List ℕ) → Q r' → ¬ (r' ≡ encode_all q (a ∷ xs) ++ r)
      first a xs r r' h e = absurd (
          cc (
            starts a (encode_all q xs ++ r),
            ends r' h,
            ap more (e ∙ append_assoc (q a) (encode_all q xs) r),
          ))

      go : Determines (All P) Q (encode_all q) (λ xs. xs)
      go [] [] r r' v w h h' e = (refl, e)
      go [] (b ∷ bs) r r' v w h h' e = absurd (first b bs r' r h e)
      go (a ∷ xs) [] r r' v w h h' e = absurd (first a xs r r' h' (sym e))
      go (a ∷ xs) (b ∷ bs) r r' v w h h' e =
          let (same, rest) =
            d a b (encode_all q xs ++ r) (encode_all q bs ++ r') v.0 w.0 (allowed xs r h)
              (allowed bs r' h')
              (sym (append_assoc (q a) (encode_all q xs) r)
                ∙ e
                ∙ append_assoc (q b) (encode_all q bs) r') in
          let (same', rest') = go xs bs r r' v.1 w.1 h h' rest in (cc (same, same'), rest')

pub digits-Determines :
    {A : Type 0} (P : A → Type 0) (n : A → ℕ)
    → ((a : A) → P a → n a < 2 ^ 32)
    → Determines P Stops (λ a. digits 10 16 (n a)) n
digits-Determines P n small a b r r' v v' h h' e =
    digits_splits (n a) (n b) r r' (small a v) (small b v') h h' e
