-- ===== src/Cec/RawBytes/Made.antt =====
-- The raw bytes filters that a program can make: the public operations of RawBytesFilter, each a
-- rule.
use libstreetpass.Prelude.{
  ℕ, ◌≡◌, refl, sym, subst, List, ◌++◌, length, drop, length-drop, length-append, take-append-drop,
  take, All, All-append, All-append_right, arith, ltb-false, lt→ltb,
}
use libstreetpass.Prelude.Result.{ok}
use libstreetpass.Tins.{Tins}
use libstreetpass.Cec.Filter.{IsByte}
use libstreetpass.Cec.RawBytes.{RawBytesFilter, from_stream, new_raw_bytes_filter, set_raw_bytes}
use libstreetpass.Cec.RawBytes.Wire.{IsRawBytes, raw_bytes_filter-Codec}
use native.Mathlib.Decide.{dec_le}

-- The constructor starts from `memory`, whatever bytes it holds. A setter that throws leaves the
-- filter as it was.
pub data MadeRawBytes (t : Tins) : RawBytesFilter → Type 0 where
  parsed :
      (s s' : t.Input) {f : RawBytesFilter}
      → All IsByte (t.pointer s)
      → from_stream t s ≡ ok (f, s')
      → MadeRawBytes t f
  constructed :
      (memory : RawBytesFilter) (rb : List ℕ) {f : RawBytesFilter}
      → IsRawBytes memory
      → All IsByte rb
      → new_raw_bytes_filter memory rb ≡ ok f
      → MadeRawBytes t f
  filled :
      (f : RawBytesFilter) (rb : List ℕ) {f' : RawBytesFilter}
      → All IsByte rb
      → set_raw_bytes f rb ≡ ok f'
      → MadeRawBytes t f
      → MadeRawBytes t f'

set_raw_bytes-IsRawBytes :
    (f f' : RawBytesFilter) (rb : List ℕ)
    → IsRawBytes f
    → All IsByte rb
    → set_raw_bytes f rb ≡ ok f'
    → IsRawBytes f'
unfolding set_raw_bytes
set_raw_bytes-IsRawBytes f f' rb (cmp, len, vs) v e = elim (dec_le (length rb) 16) [
  | no long ↦ absurd (cc (e, lt→ltb 16 (length rb) (omega arith)))
  | yes fits ↦
      let tail : All IsByte (drop (length rb) f.raw_bytes) =
        All-append_right IsByte (take (length rb) f.raw_bytes) _
          (subst (All IsByte) (sym (take-append-drop (length rb) f.raw_bytes)) vs) in
      let sizes = length-append rb (drop (length rb) f.raw_bytes) in
      let dropped = length-drop (length rb) f.raw_bytes in
      let done : set_raw_bytes f rb
          ≡ ok (record f { raw_bytes = rb ++ drop (length rb) f.raw_bytes }) =
        rw (ltb-false 16 (length rb) fits) refl in
      subst IsRawBytes (cc (done, e)) (cmp, omega arith, All-append IsByte rb _ v tail)
]

pub MadeRawBytes-IsRawBytes : (t : Tins) {f : RawBytesFilter} → MadeRawBytes t f → IsRawBytes f
MadeRawBytes-IsRawBytes t (parsed s s' {f = f} v e) =
    ((raw_bytes_filter-Codec t).sound s s' f v e).0
MadeRawBytes-IsRawBytes t (constructed memory rb {f = f} w v e) =
    unfold new_raw_bytes_filter in set_raw_bytes-IsRawBytes memory f rb w v e
MadeRawBytes-IsRawBytes t (filled f rb {f' = f'} v e m) =
    set_raw_bytes-IsRawBytes f f' rb (MadeRawBytes-IsRawBytes t m) v e
