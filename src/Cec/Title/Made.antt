-- ===== src/Cec/Title/Made.antt =====
-- The title filters that a program can make: the public operations of TitleFilter, each a rule.
use libstreetpass.Prelude.{
  ℕ, ◌^◌, ◌≤◌, ◌<◌, ◌%◌, ◌≡◌, refl, subst, List, length, All, arith, ltb-false, lt→ltb,
}
use libstreetpass.Prelude.Result.{ok}
use libstreetpass.Tins.{Tins, big}
use libstreetpass.Cec.Endian.{endian_type}
use libstreetpass.Cec.Filter.{IsByte}
use libstreetpass.Cec.Mve.{Mve}
use libstreetpass.Cec.Mve.Wire.{IsMve}
use libstreetpass.Cec.Title.{
  TitleFilter, from_stream, new_title_filter, set_title_id, set_send_mode, set_mve_list,
}
use libstreetpass.Cec.Title.Encoding.{title_filter-Codec}
use libstreetpass.Cec.Title.Wire.{IsTitle}
use native.Mathlib.Decide.{dec_le}

-- A mode is one of the four of the enumeration. A setter that throws leaves the filter as it was.
pub data MadeTitle (t : Tins) : TitleFilter → Type 0 where
  parsed :
      (s s' : t.Input) {f : TitleFilter}
      → All IsByte (t.pointer s)
      → from_stream t s ≡ ok (f, s')
      → MadeTitle t f
  constructed :
      (memory : TitleFilter) (tid mode : ℕ) (list : List Mve) {f : TitleFilter}
      → tid < 2 ^ 32
      → mode ≤ 3
      → All IsMve list
      → new_title_filter t memory tid mode list ≡ ok f
      → MadeTitle t f
  identified :
      (f : TitleFilter) (tid : ℕ)
      → tid < 2 ^ 32
      → MadeTitle t f
      → MadeTitle t (set_title_id t f tid)
  moded :
      (f : TitleFilter) (mode : ℕ) → mode ≤ 3 → MadeTitle t f → MadeTitle t (set_send_mode f mode)
  listed :
      (f : TitleFilter) (list : List Mve) {f' : TitleFilter}
      → All IsMve list
      → set_mve_list f list ≡ ok f'
      → MadeTitle t f
      → MadeTitle t f'

-- The setter of the MVE list sets the rest of a title filter.
set_mve_list-IsTitle :
    (f f' : TitleFilter) (list : List Mve)
    → f.title_id < 2 ^ 32
    → f.send_mode ≤ 3
    → All IsMve list
    → set_mve_list f list ≡ ok f'
    → IsTitle f'
unfolding set_mve_list
set_mve_list-IsTitle f f' list id mode v e = elim (dec_le (length list) 15) [
  | no long ↦ absurd (cc (e, lt→ltb 15 (length list) (omega arith)))
  | yes fits ↦
      let next : TitleFilter = record f {
        header = record f.header { number_mve = length list % 16 };
        mves = list;
      } in
      let done : set_mve_list f list ≡ ok next = rw (ltb-false 15 (length list) fits) refl in
      let same : next ≡ f' = cc (done, e) in
      subst IsTitle same ((id, omega arith, omega arith), mode, omega arith, v)
]

endian_type-lt : (t : Tins) (tid : ℕ) → endian_type t big tid < 2 ^ 32
unfolding endian_type
endian_type-lt t tid = t.host_to_be-lt tid

pub MadeTitle-IsTitle : (t : Tins) {f : TitleFilter} → MadeTitle t f → IsTitle f
unfolding new_title_filter set_send_mode set_title_id
MadeTitle-IsTitle t (parsed s s' {f = f} v e) = ((title_filter-Codec t).sound s s' f v e).0
MadeTitle-IsTitle t (constructed memory tid mode list {f = f} id small v e) =
    set_mve_list-IsTitle (set_send_mode (set_title_id t memory tid) mode) f list
      (endian_type-lt t tid) (omega arith) v e
MadeTitle-IsTitle t (identified f tid id m) =
    let (h, mode, len, vs) = MadeTitle-IsTitle t m in
    ((endian_type-lt t tid, h.1, h.2), mode, len, vs)
MadeTitle-IsTitle t (moded f mode small m) =
    let (h, old, len, vs) = MadeTitle-IsTitle t m in ((h.0, h.1, omega arith), omega arith, len, vs)
MadeTitle-IsTitle t (listed f list {f' = f'} v e m) =
    let (h, mode, len, vs) = MadeTitle-IsTitle t m in set_mve_list-IsTitle f f' list h.0 mode v e
