-- ===== src/Nl80211/Attributes/Typed.antt =====
-- The typed readers against the numbers that the kernel has put into an attribute.
use libstreetpass.Prelude.{
  ℕ, ◌*◌, ◌/◌, ◌^◌, ◌<◌, ◌≡◌, ◌≢◌, refl, sym, List, [], ◌∷◌, ◌++◌, append_assoc, length,
  length-append, take-length_append, drop-length_append, ltb-false, encode_all, All, arith,
}
use libstreetpass.Prelude.Result.{ok}
use libstreetpass.Libnl.{Libnl}
use libstreetpass.Tins.{Endianness, little, big, memory}
use libstreetpass.Cec.Layout.{from_memory}
use libstreetpass.Nl80211.Attributes.{new_attributes, words, get_u32, get_u32s}
use libstreetpass.Nl80211.Attributes.Lookup.{find-new_attributes}

from_memory-memory : (o : Endianness) (v : ℕ) → v < 2 ^ 32 → from_memory o (memory o v) ≡ v
from_memory-memory little v h = omega arith
from_memory-memory big v h = omega arith

length-memory : (o : Endianness) (v : ℕ) → length (memory o v) ≡ 4
length-memory little v = refl
length-memory big v = refl

module _ (nl : Libnl) where
  open nl use {Nlattr, host, nla_type, nla_data}

  abbrev pub IsWord : ℕ → Type 0
  IsWord v = v < 2 ^ 32

  -- Numbers in the host's memory, one after the other.
  abbrev pub memories : List ℕ → List ℕ
  memories = encode_all (memory host)

  length-memories : (vs : List ℕ) → length (memories vs) ≡ 4 * length vs
  length-memories [] = refl
  length-memories (v ∷ vs) =
      omega (
        arith,
        length-append (memory host v) (memories vs),
        length-memory host v,
        length-memories vs,
      )

  words-memories :
      (vs rest : List ℕ) → All IsWord vs → words nl (length vs) (memories vs ++ rest) ≡ vs
  unfolding words
  words-memories [] rest h = refl
  words-memories (v ∷ vs) rest h =
      let split = append_assoc (memory host v) (memories vs) rest in
      let four = sym (length-memory host v) in
      let first = take-length_append 4 (memory host v) (memories vs ++ rest) four in
      let others = drop-length_append 4 (memory host v) (memories vs ++ rest) four in
      rw (split, first, others, from_memory-memory host v h.0, words-memories vs rest h.1) refl

  -- Of several attributes of one type the last is read. Where it holds numbers in the host's order,
  -- and less than four bytes after them, the reader of an array returns the numbers.
  pub get_u32s-memories :
      (earlier later : List Nlattr) (x : Nlattr) (vs rest : List ℕ)
      → All (λ (y : Nlattr). nla_type y ≢ nla_type x) later
      → nla_data x ≡ memories vs ++ rest
      → length rest < 4
      → All IsWord vs
      → get_u32s nl (new_attributes nl (earlier ++ x ∷ later)) (nla_type x) ≡ ok vs
  unfolding get_u32s
  get_u32s-memories earlier later x vs rest others held short small =
      let count : length (memories vs ++ rest) / 4 ≡ length vs =
        omega (arith, length-append (memories vs) rest, length-memories vs) in
      rw (find-new_attributes nl earlier later x others, held, count, words-memories vs rest small)
        refl

  -- The same of the reader of one number, whatever comes after it.
  pub get_u32-memory :
      (earlier later : List Nlattr) (x : Nlattr) (v : ℕ) (rest : List ℕ)
      → All (λ (y : Nlattr). nla_type y ≢ nla_type x) later
      → nla_data x ≡ memory host v ++ rest
      → v < 2 ^ 32
      → get_u32 nl (new_attributes nl (earlier ++ x ∷ later)) (nla_type x) ≡ ok v
  unfolding get_u32
  get_u32-memory earlier later x v rest others held small =
      let size = length-append (memory host v) rest in
      let fits =
        ltb-false (length (memory host v ++ rest)) 4 (omega (arith, length-memory host v)) in
      let first = take-length_append 4 (memory host v) rest (sym (length-memory host v)) in
      rw
        (
          find-new_attributes nl earlier later x others,
          held,
          fits,
          first,
          from_memory-memory host v small,
        )
        refl
