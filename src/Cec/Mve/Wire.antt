-- ===== src/Cec/Mve/Wire.antt =====
-- The three bytes of an MVE: parsing and writing them.
use libstreetpass.Prelude.{ℕ, ◌<◌, ◌≡◌, refl, List, [], ◌∷◌, length, All, arith}
use libstreetpass.Tins.{Tins}
use libstreetpass.Tins.Streams.{write_struct, IsReported}
use libstreetpass.Cec.Filter.{IsByte, Codec}
use libstreetpass.Cec.Filter.Struct.{
  read_struct_sound, read_struct_complete, read_struct-IsReported,
}
use libstreetpass.Cec.Mve.{
  Mve, struct_bytes, to_struct, from_stream, to_bytes, byte_size, mve_format,
}

abbrev pub IsMve : Mve → Type 0
IsMve m = (m.mask < 256) × (m.value < 256) × (m.expectation < 256)

length-struct_bytes : (m : Mve) → IsMve m → length (struct_bytes m) ≡ 3
unfolding struct_bytes
length-struct_bytes m v = refl

to_struct-bytes : (m : Mve) → IsMve m → to_struct (struct_bytes m) ≡ m
unfolding struct_bytes to_struct
to_struct-bytes m v = refl

struct_bytes-to :
    (bs : List ℕ)
    → length bs ≡ 3
    → All IsByte bs
    → IsMve (to_struct bs) × (struct_bytes (to_struct bs) ≡ bs)
unfolding struct_bytes to_struct
struct_bytes-to [] e v = absurd (omega arith)
struct_bytes-to (a ∷ []) e v = absurd (omega arith)
struct_bytes-to (a ∷ b ∷ []) e v = absurd (omega arith)
struct_bytes-to (a ∷ b ∷ c ∷ []) e v = (omega arith, refl)
struct_bytes-to (a ∷ b ∷ c ∷ d ∷ bs) e v = absurd (omega arith)

module _ (t : Tins) where
  pub from_stream-IsReported : (s : t.Input) → IsReported (from_stream t s)
  unfolding from_stream
  from_stream-IsReported =
      read_struct-IsReported t "bad mve" 3 to_struct struct_bytes IsMve length-struct_bytes
        to_struct-bytes struct_bytes-to

  pub mve_format-Codec : Codec (mve_format t) IsMve struct_bytes
  unfolding from_stream to_bytes byte_size
  mve_format-Codec = record {
    sound =
        read_struct_sound t "bad mve" 3 to_struct struct_bytes IsMve length-struct_bytes
          to_struct-bytes struct_bytes-to;
    complete =
        read_struct_complete t "bad mve" 3 to_struct struct_bytes IsMve length-struct_bytes
          to_struct-bytes struct_bytes-to;
    reported = λ s v. from_stream-IsReported s;
    to_bytes-encode = λ m v. write_struct t 3 (struct_bytes m) (length-struct_bytes m v);
    byte_size-encode = λ m v. unfold struct_bytes in refl;
    encode-pos = λ m v. unfold struct_bytes in omega arith;
  }
