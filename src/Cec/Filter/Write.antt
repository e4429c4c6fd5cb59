-- ===== src/Cec/Filter/Write.antt =====
-- Writing values one after the other, by the codec of each.
use libstreetpass.Prelude.{
  ℕ, ◌+◌, ◌≡◌, refl, sym, ap, ◌∙◌, List, [], ◌∷◌, ◌++◌, append-nil, append_assoc, length, All,
  length-append, arith,
}
use libstreetpass.Prelude.Result.{ok}
use libstreetpass.Tins.{Tins}
use libstreetpass.Tins.Streams.{write_fits}
use libstreetpass.Cec.Filter.{Format, Codec, write_all, encode_all}

module _ {t : Tins} {A : Type 0} (F : Format t A) (IsValid : A → Type 0) (encode : A → List ℕ)
    (c : Codec F IsValid encode) where
  open t use {Output, written, room, write}

  -- The buffer has room for the values and for `k` bytes more.
  pub write_all_fits :
      (xs : List A) (o : Output) (k : ℕ)
      → All IsValid xs
      → length (room o) ≡ length (encode_all encode xs) + k
      → (o' : Output) × (write_all F o xs ≡ ok o')
        × (written o' ≡ written o ++ encode_all encode xs)
        × (length (room o') ≡ k)
  unfolding write_all
  write_all_fits [] o k v h = (o, refl, sym (append-nil (written o)), omega arith)
  write_all_fits (x ∷ xs) o k v h =
      let more : List ℕ = encode_all encode xs in
      let (o₁, e₁, w₁, r₁) =
        write_fits t o (encode x) (length more + k)
          (omega (arith, length-append (encode x) more)) in
      let (o₂, e₂, w₂, r₂) = write_all_fits xs o₁ k v.1 r₁ in
      (
        o₂,
        rw (c.to_bytes-encode x v.0, e₁) e₂,
        w₂ ∙ ap (λ (ys : List ℕ). ys ++ more) w₁ ∙ append_assoc (written o) (encode x) more,
        r₂,
      )
