-- ===== src/Prelude/Result.antt =====
-- What a C++ call does: it returns, throws, or leaves the language's guarantees.
use Prim.Native.String.{String}
use Prim.Native.Nat.{ℕ, zero, suc}
use mathlib.Core.List.{List}
use mathlib.Core.Bool.{Bool, true, false}
use mathlib.Core.Option.{Option, none, some}
use libstreetpass.Prelude.Lists.{get_elem?}
use mathlib.Core.Path.{◌≡◌, refl}

-- An `int` of the code. `negsuc n` is -(n + 1).
pub data ℤ : Type 0 where
  pos : ℕ → ℤ
  negsuc : ℕ → ℤ

abbrev pub neg : ℕ → ℤ
neg zero = pos 0
neg (suc n) = negsuc n

-- The values that the code throws: a string literal, a standard exception, one of libtins or one of
-- the code's own classes NlError and UnsupportedPhysicalInterface.
pub data Exception : Type 0 where
  message : String → Exception
  length_error : String → Exception
  invalid_argument : String → Exception
  out_of_range : Exception
  bad_alloc : Exception
  nl_error : ℤ → String → Exception
  unsupported : String → Exception
  system_error : ℕ → Exception
  option_not_found : Exception
  malformed_packet : Exception
  serialization_error : Exception

-- `undefined` is undefined behaviour, such as a read past the end of an array. `stuck` is no
-- result of the code: the fuel of a loop ran out, or a receive waits for input that does not come.
pub data Result {ℓ} (A : Type ℓ) : Type ℓ where
  ok : A → Result A
  throws : Exception → Result A
  undefined : Result A
  stuck : Result A

infixl 5 ◌>>=◌
abbrev pub ◌>>=◌ {ℓ μ} : {S : Type ℓ} {T : Type μ} → Result S → (S → Result T) → Result T
throws e >>= next = throws e
undefined >>= next = undefined
stuck >>= next = stuck
ok x >>= next = next x

-- `if (test) throw e;`
abbrev pub throw_if : Bool → Exception → Result (Unit {0})
throw_if test e = elim test [ false ↦ ok tt | true ↦ throws e ]

-- A statement, and what comes after it.
infixl 5 ◌>>◌
abbrev pub ◌>>◌ {μ} : {T : Type μ} → Result (Unit {0}) → Result T → Result T
statement >> after = statement >>= λ _. after

-- `v[i]` of a std::vector, which is undefined out of range.
abbrev pub or_undefined {ℓ} : {A : Type ℓ} → Option A → Result A
or_undefined none = undefined
or_undefined (some a) = ok a

abbrev pub fetch {ℓ} : {A : Type ℓ} → List A → ℕ → Result A
fetch xs i = or_undefined (get_elem? xs i)

-- `v.at(i)`.
abbrev pub or_out_of_range {ℓ} : {A : Type ℓ} → Option A → Result A
or_out_of_range none = throws out_of_range
or_out_of_range (some a) = ok a

abbrev pub at {ℓ} : {A : Type ℓ} → List A → ℕ → Result A
at xs i = or_out_of_range (get_elem? xs i)

-- Inversion of a successful bind.
pub >>=-eq-ok {ℓ μ} :
    {S : Type ℓ} {T : Type μ} (r : Result S) (next : S → Result T) {y : T}
    → (r >>= next) ≡ ok y
    → (x : S) × (r ≡ ok x) × (next x ≡ ok y)
>>=-eq-ok undefined next done = cc
>>=-eq-ok stuck next done = cc
>>=-eq-ok (throws e) next done = cc
>>=-eq-ok (ok x) next done = (x, refl, done)

pub throw_if-eq-ok : (b : Bool) (e : Exception) {u : Unit {0}} → throw_if b e ≡ ok u → b ≡ false
throw_if-eq-ok true e h = cc
throw_if-eq-ok false e h = refl

-- The call came to an end: it returned or threw.
abbrev pub Settled {ℓ} : {A : Type ℓ} → Result A → Type 0
Settled (ok a) = Unit {0}
Settled (throws e) = Unit {0}
Settled undefined = ⊥
Settled stuck = ⊥

pub >>=-Settled {ℓ μ} :
    {S : Type ℓ} {T : Type μ} (r : Result S) (next : S → Result T)
    → Settled r
    → ((x : S) → r ≡ ok x → Settled (next x))
    → Settled (r >>= next)
>>=-Settled (ok x) next h k = k x refl
>>=-Settled (throws e) next h k = tt
>>=-Settled undefined next h k = h
>>=-Settled stuck next h k = h
