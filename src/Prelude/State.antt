-- ===== src/Prelude/State.antt =====
-- Calls that change a state and may throw. The state stays changed where a call throws.
use libstreetpass.Prelude.Result.{Result, ok, throws, undefined, stuck}
use mathlib.Core.Path.{◌≡◌, refl, ap}

module _ {S : Type 0} where
  abbrev pub pure : {A : Type 0} → A → S → Result A × S
  pure a s = (ok a, s)

  -- A call that does not look at the state.
  abbrev pub lift : {A : Type 0} → Result A → S → Result A × S
  lift r s = (r, s)

  unfoldable pub continue_with :
      {A B : Type 0} → (A → S → Result B × S) → Result A → S → Result B × S
  continue_with f (ok a) s = f a s
  continue_with f (throws e) s = (throws e, s)
  continue_with f undefined s = (undefined, s)
  continue_with f stuck s = (stuck, s)

  infixl 5 ◌>>=◌ ◌>>◌
  unfoldable pub ◌>>=◌ :
      {A B : Type 0} → (S → Result A × S) → (A → S → Result B × S) → S → Result B × S
  unfolding continue_with
  ◌>>=◌ call next s = let (r, s') = call s in continue_with next r s'

  unfoldable pub ◌>>◌ : {A B : Type 0} → (S → Result A × S) → (S → Result B × S) → S → Result B × S
  unfolding ◌>>=◌
  call >> next = call >>= λ _. next

  pub continue_with-eq-ok :
      {A B : Type 0} (k : A → S → Result B × S) (r : Result A) (s s' : S) (b : B)
      → continue_with k r s ≡ (ok b, s')
      → (a : A) × (r ≡ ok a) × (k a s ≡ (ok b, s'))
  unfolding continue_with
  continue_with-eq-ok k (ok a) s s' b h = (a, refl, h)
  continue_with-eq-ok k (throws e) s s' b h = cc
  continue_with-eq-ok k undefined s s' b h = cc
  continue_with-eq-ok k stuck s s' b h = cc

  -- Inversion of a sequence that returns.
  pub >>=-eq-ok :
      {A B : Type 0} (call : S → Result A × S) (next : A → S → Result B × S) (s s' : S) (b : B)
      → (call >>= next) s ≡ (ok b, s')
      → (a : A) × (t : S) × (call s ≡ (ok a, t)) × (next a t ≡ (ok b, s'))
  unfolding ◌>>=◌
  >>=-eq-ok {A} call next s s' b h =
      let (a, e, rest) = continue_with-eq-ok next (call s).0 (call s).1 s' b h in
      (a, (call s).1, ap (λ (r : Result A). (r, (call s).1)) e, rest)

  pub >>-eq-ok :
      {A B : Type 0} (call : S → Result A × S) (next : S → Result B × S) (s s' : S) (b : B)
      → (call >> next) s ≡ (ok b, s')
      → (a : A) × (t : S) × (call s ≡ (ok a, t)) × (next t ≡ (ok b, s'))
  unfolding ◌>>◌
  >>-eq-ok call next s s' b h = >>=-eq-ok call (λ _. next) s s' b h

  -- A sequence whose first call returns.
  pub >>-ok :
      {A B : Type 0} (call : S → Result A × S) (next : S → Result B × S) (s t : S) (a : A)
      → call s ≡ (ok a, t)
      → (call >> next) s ≡ next t
  unfolding ◌>>◌ ◌>>=◌ continue_with
  >>-ok call next s t a e = rw e refl

  pub pure-eq-ok : {A : Type 0} (a b : A) (s s' : S) → pure a s ≡ (ok b, s') → (a ≡ b) × (s ≡ s')
  pure-eq-ok {A} a b s s' h =
      let same : ok a ≡ ok b = ap (λ (x : Result A × S). x.0) h in
      (cc same, ap (λ (x : Result A × S). x.1) h)
