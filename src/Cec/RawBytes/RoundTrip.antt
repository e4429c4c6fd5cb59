-- ===== src/Cec/RawBytes/RoundTrip.antt =====
-- RawBytesFilter::from_stream and `operator bytes` undo each other.
use libstreetpass.Prelude.{◌≡◌, ℕ, List, ◌++◌, length, All}
use libstreetpass.Prelude.Result.{ok}
use libstreetpass.Tins.{Tins}
use libstreetpass.Cec.Filter.{IsByte}
use libstreetpass.Cec.Filter.RoundTrip.{write_read}
use libstreetpass.Cec.RawBytes.{
  RawBytesFilter, struct_bytes, from_stream, to_bytes, byte_size, raw_bytes_filter,
}
use libstreetpass.Cec.RawBytes.Wire.{IsRawBytes, raw_bytes_filter-Codec}

-- A raw bytes filter that is read from a stream of bytes is written as the bytes that were taken
-- from the stream, and `byte_size` is their number.
pub raw_bytes_to_bytes-from_stream :
    (t : Tins) (s s' : t.Input) (f : RawBytesFilter)
    → All IsByte (t.pointer s)
    → from_stream t s ≡ ok (f, s')
    → (bs : List ℕ) × (to_bytes t f ≡ ok bs)
      × (byte_size f ≡ length bs)
      × (t.pointer s ≡ bs ++ t.pointer s')
raw_bytes_to_bytes-from_stream t =
    write_read (raw_bytes_filter t).format IsRawBytes struct_bytes (raw_bytes_filter-Codec t)
