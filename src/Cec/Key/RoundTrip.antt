-- ===== src/Cec/Key/RoundTrip.antt =====
-- KeyFilter::from_stream and `operator bytes` undo each other.
use libstreetpass.Prelude.{◌≡◌, ℕ, List, ◌++◌, length, All}
use libstreetpass.Prelude.Result.{ok}
use libstreetpass.Tins.{Tins}
use libstreetpass.Cec.Filter.{IsByte}
use libstreetpass.Cec.Filter.RoundTrip.{write_read}
use libstreetpass.Cec.Key.{KeyFilter, from_stream, to_bytes, byte_size, key_filter}
use libstreetpass.Cec.Key.Wire.{IsKey, key_bytes, key_filter-Codec}

-- A key filter that is read from a stream of bytes is written as the bytes that were taken from the
-- stream, and `byte_size` is their number.
pub key_to_bytes-from_stream :
    (t : Tins) (s s' : t.Input) (f : KeyFilter)
    → All IsByte (t.pointer s)
    → from_stream t s ≡ ok (f, s')
    → (bs : List ℕ) × (to_bytes t f ≡ ok bs)
      × (byte_size f ≡ length bs)
      × (t.pointer s ≡ bs ++ t.pointer s')
key_to_bytes-from_stream t = write_read (key_filter t).format IsKey key_bytes (key_filter-Codec t)
