-- ===== src/Cec/Filter/RoundTrip.antt =====
-- What a codec makes of a format: the two round trips between values and bytes.
use libstreetpass.Prelude.{◌≡◌, ℕ, List, ◌++◌, length, All}
use libstreetpass.Prelude.Result.{ok}
use libstreetpass.Tins.{Tins}
use libstreetpass.Cec.Filter.{IsByte, Format, Codec}

module _ {t : Tins} {A : Type 0} (F : Format t A) (IsValid : A → Type 0) (encode : A → List ℕ)
    (c : Codec F IsValid encode) where
  open t use {Input, pointer}

  -- A valid value is written as its bytes, and read back from a stream that starts with them.
  pub read_written :
      (a : A) (rest : List ℕ) (s : Input)
      → IsValid a
      → pointer s ≡ encode a ++ rest
      → (F.to_bytes a ≡ ok (encode a))
        × (s' : Input) × (F.from_stream s ≡ ok (a, s'))
        × (pointer s' ≡ rest)
  read_written a rest s v p =
      let (s', e, left) = c.complete s a rest v p in (c.to_bytes-encode a v, s', e, left)

  -- The value that is read is written as the bytes that the parser took.
  pub write_read :
      (s s' : Input) (a : A)
      → All IsByte (pointer s)
      → F.from_stream s ≡ ok (a, s')
      → (bs : List ℕ) × (F.to_bytes a ≡ ok bs)
        × (F.byte_size a ≡ length bs)
        × (pointer s ≡ bs ++ pointer s')
  write_read s s' a v e =
      let (valid, split) = c.sound s s' a v e in
      (encode a, c.to_bytes-encode a valid, c.byte_size-encode a valid, split)
