-- ===== src/Cec/FilterList/RoundTrip.antt =====
-- FilterList<T>::from_stream and `operator bytes` undo each other, over any filter with a codec.
use libstreetpass.Prelude.{◌≡◌, ℕ, List, ◌++◌, length, All}
use libstreetpass.Prelude.Result.{ok}
use libstreetpass.Tins.{Tins}
use libstreetpass.Tins.Streams.{IsReported}
use libstreetpass.Cec.Filter.{IsByte, Filter, Codec}
use libstreetpass.Cec.Filter.RoundTrip.{read_written, write_read}
use libstreetpass.Cec.FilterList.{FilterList, from_stream, to_bytes, byte_size, filter_list_format}
use libstreetpass.Cec.FilterList.Encoding.{IsFilterList, list_bytes, filter_list_format-Codec}

module _ {t : Tins} {A : Type 0} (F : Filter t A) (IsValid : A → Type 0) (encode : A → List ℕ)
    (c : Codec F.format IsValid encode) where
  open t use {Input, pointer}

  -- A valid list is written as its bytes, the header and those of all its filters, and read back
  -- whole from a stream that starts with them, which is left after these bytes.
  pub read_list-to_bytes :
      (l : FilterList A) (rest : List ℕ) (s : Input)
      → IsFilterList F IsValid encode c l
      → pointer s ≡ list_bytes F IsValid encode c l ++ rest
      → (to_bytes F l ≡ ok (list_bytes F IsValid encode c l))
        × (s' : Input) × (from_stream F s ≡ ok (l, s'))
        × (pointer s' ≡ rest)
  read_list-to_bytes =
      read_written (filter_list_format F) (IsFilterList F IsValid encode c)
        (list_bytes F IsValid encode c) (filter_list_format-Codec F IsValid encode c)

  -- A list that is read from a stream of bytes is written as the bytes that were taken from the
  -- stream, and `byte_size` is their number.
  pub list_to_bytes-from_stream :
      (s s' : Input) (l : FilterList A)
      → All IsByte (pointer s)
      → from_stream F s ≡ ok (l, s')
      → (bs : List ℕ) × (to_bytes F l ≡ ok bs)
        × (byte_size F l ≡ length bs)
        × (pointer s ≡ bs ++ pointer s')
  list_to_bytes-from_stream =
      write_read (filter_list_format F) (IsFilterList F IsValid encode c)
        (list_bytes F IsValid encode c) (filter_list_format-Codec F IsValid encode c)

  -- Whatever the bytes are, a list is returned or one of the code's own messages is thrown: the two
  -- loops end, and no read goes past the stream.
  pub list_from_stream-IsReported :
      (s : Input) → All IsByte (pointer s) → IsReported (from_stream F s)
  list_from_stream-IsReported = (filter_list_format-Codec F IsValid encode c).reported
