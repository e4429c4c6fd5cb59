-- ===== src/Cec/Key/Wire.antt =====
-- The eight bytes of a key filter: parsing and writing them.
use libstreetpass.Prelude.{ℕ, ◌≡◌, refl, List, length, All, arith}
use libstreetpass.Tins.{Tins}
use libstreetpass.Tins.Streams.{write_struct}
use libstreetpass.Cec.Filter.{IsByte, Codec}
use libstreetpass.Cec.Filter.Struct.{
  read_struct_sound, read_struct_complete, read_struct-IsReported,
}
use libstreetpass.Cec.Key.{KeyFilter, from_stream, to_bytes, byte_size, key_filter}

abbrev pub IsKey : KeyFilter → Type 0
IsKey f = (length f.key ≡ 8) × All IsByte f.key

abbrev pub key_bytes : KeyFilter → List ℕ
key_bytes f = f.key

abbrev of_bytes : List ℕ → KeyFilter
of_bytes bs = record { key = bs }

-- Parsing takes the eight bytes of the key that it returns, and writing returns them.
pub key_filter-Codec : (t : Tins) → Codec (key_filter t).format IsKey key_bytes
unfolding from_stream to_bytes byte_size
key_filter-Codec t = record {
  sound =
      read_struct_sound t "bad key filter" 8 of_bytes key_bytes IsKey (λ f v. v.0) (λ f v. refl)
        (λ bs e v. ((e, v), refl));
  complete =
      read_struct_complete t "bad key filter" 8 of_bytes key_bytes IsKey (λ f v. v.0) (λ f v. refl)
        (λ bs e v. ((e, v), refl));
  reported = λ s v.
      read_struct-IsReported t "bad key filter" 8 of_bytes key_bytes IsKey (λ f v. v.0)
        (λ f v. refl) (λ bs e v. ((e, v), refl)) s;
  to_bytes-encode = λ f v. write_struct t 8 f.key v.0;
  byte_size-encode = λ f v. omega arith;
  encode-pos = λ f v. omega arith;
}
