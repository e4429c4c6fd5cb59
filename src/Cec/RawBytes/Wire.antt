-- ===== src/Cec/RawBytes/Wire.antt =====
-- The seventeen bytes of a raw bytes filter: parsing and writing them.
use libstreetpass.Prelude.{ℕ, ◌<◌, ◌≡◌, refl, List, [], ◌∷◌, length, All, arith}
use libstreetpass.Tins.{Tins}
use libstreetpass.Tins.Streams.{write_struct}
use libstreetpass.Cec.Filter.{IsByte, Codec}
use libstreetpass.Cec.Filter.Struct.{
  read_struct_sound, read_struct_complete, read_struct-IsReported,
}
use libstreetpass.Cec.RawBytes.{
  RawBytesFilter, struct_bytes, to_struct, from_stream, to_bytes, byte_size, raw_bytes_filter,
}

abbrev pub IsRawBytes : RawBytesFilter → Type 0
IsRawBytes f = (f.cmp_length < 256) × (length f.raw_bytes ≡ 16) × All IsByte f.raw_bytes

length-struct_bytes : (f : RawBytesFilter) → IsRawBytes f → length (struct_bytes f) ≡ 17
unfolding struct_bytes
length-struct_bytes f v = omega arith

to_struct-bytes : (f : RawBytesFilter) → IsRawBytes f → to_struct (struct_bytes f) ≡ f
unfolding struct_bytes to_struct
to_struct-bytes f v = refl

struct_bytes-to :
    (bs : List ℕ)
    → length bs ≡ 17
    → All IsByte bs
    → IsRawBytes (to_struct bs) × (struct_bytes (to_struct bs) ≡ bs)
unfolding struct_bytes to_struct
struct_bytes-to [] e v = absurd (omega arith)
struct_bytes-to (b ∷ bs) e v = ((v.0, omega arith, v.1), refl)

-- Parsing takes the seventeen bytes of the filter that it returns, and writing returns them.
pub raw_bytes_filter-Codec : (t : Tins) → Codec (raw_bytes_filter t).format IsRawBytes struct_bytes
unfolding from_stream to_bytes byte_size
raw_bytes_filter-Codec t = record {
  sound =
      read_struct_sound t "bad mve" 17 to_struct struct_bytes IsRawBytes length-struct_bytes
        to_struct-bytes struct_bytes-to;
  complete =
      read_struct_complete t "bad mve" 17 to_struct struct_bytes IsRawBytes length-struct_bytes
        to_struct-bytes struct_bytes-to;
  reported = λ s v.
      read_struct-IsReported t "bad mve" 17 to_struct struct_bytes IsRawBytes length-struct_bytes
        to_struct-bytes struct_bytes-to s;
  to_bytes-encode = λ f v. write_struct t 17 (struct_bytes f) (length-struct_bytes f v);
  byte_size-encode = λ f v. omega (arith, length-struct_bytes f v);
  encode-pos = λ f v. omega (arith, length-struct_bytes f v);
}
