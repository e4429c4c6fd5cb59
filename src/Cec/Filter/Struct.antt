-- ===== src/Cec/Filter/Struct.antt =====
-- The formats that are one struct of a fixed size: a guarded read of it, and a write of it.
use libstreetpass.Prelude.{
  ℕ, ◌≡◌, refl, sym, ap, ◌∙◌, List, ◌++◌, subst, length, All, All-append_left,
}
use libstreetpass.Prelude.Result.{Result, ok, >>=-eq-ok, ◌>>=◌, throws, undefined, stuck, message}
use libstreetpass.Tins.{Tins}
use libstreetpass.Tins.Streams.{
  IsReported, read_or_throw, read_or_throw_sound, read_or_throw_complete, read_or_throw-IsReported,
}
use libstreetpass.Cec.Filter.{IsByte}
use Prim.Native.String.{String}
use mathlib.Core.Path.{ap₂}

-- A step that cannot fail keeps the outcome reported.
pub IsReported-bind {ℓ κ} :
    {A : Type ℓ} {B : Type κ} (m : Result A) (f : A → Result B)
    → IsReported m
    → ((a : A) → m ≡ ok a → IsReported (f a))
    → IsReported (m >>= f)
IsReported-bind (ok a) f h k = k a refl
IsReported-bind (throws (message text)) f h k = tt
IsReported-bind (throws e) f h k = h
IsReported-bind undefined f h k = h
IsReported-bind stuck f h k = h

module _ (t : Tins) {A : Type 0} (text : String) (n : ℕ) (to_struct : List ℕ → A)
    (struct_bytes : A → List ℕ) (IsValid : A → Type 0)
    (length-struct_bytes : (a : A) → IsValid a → length (struct_bytes a) ≡ n)
    (to_struct-bytes : (a : A) → IsValid a → to_struct (struct_bytes a) ≡ a)
    (struct_bytes-to : (bs : List ℕ)
      → length bs ≡ n
      → All IsByte bs
      → IsValid (to_struct bs) × (struct_bytes (to_struct bs) ≡ bs)) where
  open t use {Input, pointer}

  abbrev pub read_struct : Input → Result (A × Input)
  read_struct s = read_or_throw t text n s >>= λ (bs, s'). ok (to_struct bs, s')

  pub read_struct_sound :
      (s s' : Input) (a : A)
      → All IsByte (pointer s)
      → read_struct s ≡ ok (a, s')
      → IsValid a × (pointer s ≡ struct_bytes a ++ pointer s')
  read_struct_sound s s' a v h =
      let ((bs, s''), e, r) = >>=-eq-ok (read_or_throw t text n s) _ h in
      let (split, len) = read_or_throw_sound t text n s s'' bs e in
      let bytes : All IsByte bs =
        All-append_left IsByte bs (pointer s'') (subst (All IsByte) split v) in
      let (valid, same) = struct_bytes-to bs len bytes in
      let ea : to_struct bs ≡ a = cc r in
      let es : s'' ≡ s' = cc r in
      (
        subst IsValid ea valid,
        split ∙ ap₂ (λ (x y : List ℕ). x ++ y) (sym same ∙ ap struct_bytes ea) (ap pointer es),
      )

  pub read_struct_complete :
      (s : Input) (a : A) (rest : List ℕ)
      → IsValid a
      → pointer s ≡ struct_bytes a ++ rest
      → (s' : Input) × (read_struct s ≡ ok (a, s')) × (pointer s' ≡ rest)
  read_struct_complete s a rest v h =
      let (s', e, p) =
        read_or_throw_complete t text n s (struct_bytes a) rest h (sym (length-struct_bytes a v)) in
      (s', rw e (ap (λ (x : A). ok (x, s')) (to_struct-bytes a v)), p)

  pub read_struct-IsReported : (s : Input) → IsReported (read_struct s)
  read_struct-IsReported s =
      IsReported-bind (read_or_throw t text n s) _ (read_or_throw-IsReported t text n s) λ a e. tt
