-- ===== src/Cec/Filter.antt =====
-- ICecFormat and ModuleFilter::Filter<T>: what a filter list asks of its filters, and the laws that
-- make a format sound. A class implements the record; the laws are proved in its child modules.
pub mod Struct
pub mod Write
pub mod RoundTrip
pub use libstreetpass.Prelude.{encode_all}
use libstreetpass.Prelude.{ℕ, ◌<◌, ◌≡◌, List, [], ◌∷◌, ◌++◌, Bool, length, All}
use libstreetpass.Prelude.Result.{Result, ok, ◌>>=◌}
use libstreetpass.Tins.{Tins}
use libstreetpass.Tins.Streams.{IsReported}

abbrev pub IsByte : ℕ → Type 0
IsByte b = b < 256

-- ICecFormat, with the static from_stream of each class.
pub record Format (t : Tins) (A : Type 0) : Type 0 where
  pub from_stream : t.Input → Result (A × t.Input)
  pub byte_size : A → ℕ
  pub to_bytes : A → Result (List ℕ)

-- Filter<T>, with FilterList<T>::MARKER.
pub record Filter (t : Tins) (A : Type 0) : Type 0 where
  pub format : Format t A
  pub open format use *
  pub marker : ℕ
  pub match : A → A → Result Bool

-- `for (e : list) { bytes b = bytes(e); stream.write(b.data(), b.size()); }`
module _ {t : Tins} {A : Type 0} (F : Format t A) where
  unfoldable pub write_all : t.Output → List A → Result t.Output
  write_all o [] = ok o
  write_all o (e ∷ es) = do elt_bytes ← F.to_bytes e; o' ← t.write o elt_bytes; write_all o' es

-- A wire format: which values it can hold, and the bytes of each. Parsing takes exactly the bytes of
-- the value that it returns, and every other input is reported.
pub record Codec {t : Tins} {A : Type 0} (F : Format t A) (IsValid : A → Type 0)
    (encode : A → List ℕ) : Type 0 where
  pub sound :
      (s s' : t.Input) (a : A)
      → All IsByte (t.pointer s)
      → F.from_stream s ≡ ok (a, s')
      → IsValid a × (t.pointer s ≡ encode a ++ t.pointer s')
  pub complete :
      (s : t.Input) (a : A) (rest : List ℕ)
      → IsValid a
      → t.pointer s ≡ encode a ++ rest
      → (s' : t.Input) × (F.from_stream s ≡ ok (a, s')) × (t.pointer s' ≡ rest)
  pub reported : (s : t.Input) → All IsByte (t.pointer s) → IsReported (F.from_stream s)
  pub to_bytes-encode : (a : A) → IsValid a → F.to_bytes a ≡ ok (encode a)
  pub byte_size-encode : (a : A) → IsValid a → F.byte_size a ≡ length (encode a)
  pub encode-pos : (a : A) → IsValid a → 0 < length (encode a)
