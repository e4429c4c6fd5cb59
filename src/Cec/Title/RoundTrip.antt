-- ===== src/Cec/Title/RoundTrip.antt =====
-- TitleFilter::from_stream and `operator bytes` undo each other.
use libstreetpass.Prelude.{◌≡◌, ℕ, List, ◌++◌, length, All}
use libstreetpass.Prelude.Result.{ok}
use libstreetpass.Tins.{Tins}
use libstreetpass.Cec.Filter.{IsByte}
use libstreetpass.Cec.Filter.RoundTrip.{read_written, write_read}
use libstreetpass.Cec.Title.{TitleFilter, from_stream, to_bytes, byte_size, title_filter}
use libstreetpass.Cec.Title.Encoding.{title_filter-Codec}
use libstreetpass.Cec.Title.Wire.{IsTitle, title_bytes}

module _ (t : Tins) where
  open t use {Input, host, pointer}

  -- A valid title filter is written as its bytes, the header and those of all its MVEs, and read
  -- back whole from a stream that starts with them, which is left after these bytes.
  pub read_title-to_bytes :
      (f : TitleFilter) (rest : List ℕ) (s : Input)
      → IsTitle f
      → pointer s ≡ title_bytes host f ++ rest
      → (to_bytes t f ≡ ok (title_bytes host f))
        × (s' : Input) × (from_stream t s ≡ ok (f, s'))
        × (pointer s' ≡ rest)
  read_title-to_bytes =
      read_written (title_filter t).format IsTitle (title_bytes host) (title_filter-Codec t)

  -- A title filter that is read from a stream of bytes is written as the bytes that were taken from
  -- the stream, and `byte_size` is their number.
  pub title_to_bytes-from_stream :
      (s s' : Input) (f : TitleFilter)
      → All IsByte (pointer s)
      → from_stream t s ≡ ok (f, s')
      → (bs : List ℕ) × (to_bytes t f ≡ ok bs)
        × (byte_size f ≡ length bs)
        × (pointer s ≡ bs ++ pointer s')
  title_to_bytes-from_stream =
      write_read (title_filter t).format IsTitle (title_bytes host) (title_filter-Codec t)
