-- ===== src/Cec/Title.antt =====
-- ModuleFilter::TitleFilter of include/cec/module_filter.hpp and src/cec/module_filter.cpp.
pub mod Wire
pub mod Encoding
pub mod Matching
pub mod RoundTrip
pub mod Made
use libstreetpass.Prelude.{
  ℕ, zero, suc, ◌+◌, ◌*◌, ◌%◌, List, [], ◌∷◌, ◌++◌, Bool, true, false, ◌==◌, ltb, length, replicate,
  if◌then◌else◌,
}
use libstreetpass.Prelude.Result.{
  Result, ok, throws, message, length_error, fetch, throw_if, ◌>>=◌, ◌>>◌,
}
use libstreetpass.Tins.{Tins, big}
use libstreetpass.Tins.Streams.{read_or_throw, buffer}
use libstreetpass.Cec.Endian.{endian_type, endian_value}
use libstreetpass.Cec.Filter.{Filter, write_all}
use libstreetpass.Cec.Layout.{TitleHeader, title_header_bytes, to_title_header}
use libstreetpass.Cec.Mve.{Mve, mve_format}
use libstreetpass.Cec.Mve
use libstreetpass.Cec.SendMode

pub record TitleFilter : Type 0 where
  pub header : TitleHeader
  pub open header use *
  pub mves : List Mve

-- The setter of the MVE list. `number_mve` is a bit-field of four bits.
unfoldable pub set_mve_list : TitleFilter → List Mve → Result TitleFilter
set_mve_list f list =
    if ltb 0xF (length list)
    then throws (length_error "MVE list size cannot exceed 15")
    else ok (record f { header = record f.header { number_mve = length list % 16 }; mves = list })

unfoldable pub send_mode : TitleFilter → ℕ
send_mode f = f.send_mode

unfoldable pub mve_list : TitleFilter → List Mve
mve_list f = f.mves

unfoldable pub set_send_mode : TitleFilter → ℕ → TitleFilter
set_send_mode f mode = record f { header = record f.header { send_mode = mode % 16 } }

unfoldable pub byte_size : TitleFilter → ℕ
byte_size f = 5 + length f.mves * Mve.fixed_byte_size

-- `for (i = 0; match && i < own.size(); i++) match &= own[i].match(other[i])`, with the count of
-- the rounds that `i` leaves.
unfoldable pub match_mves : ℕ → ℕ → List Mve → List Mve → Bool → Result Bool
match_mves zero i own other matched = ok matched
match_mves (suc n) i own other matched = elim matched [
  | false ↦ ok false
  | true ↦ do a ← fetch own i; b ← fetch other i; match_mves n (i + 1) own other (Mve.match a b)
]

module _ (t : Tins) where
  open t use {Input, Output, host, output, write}

  unfoldable pub title_id : TitleFilter → ℕ
  title_id f = endian_value t big f.title_id

  unfoldable pub set_title_id : TitleFilter → ℕ → TitleFilter
  set_title_id f tid = record f { header = record f.header { title_id = endian_type t big tid } }

  -- The constructor. `memory` is what the members held before; all of them are set.
  unfoldable pub new_title_filter : TitleFilter → ℕ → ℕ → List Mve → Result TitleFilter
  unfolding set_title_id set_send_mode set_mve_list
  new_title_filter memory tid mode list =
      set_mve_list (set_send_mode (set_title_id memory tid) mode) list

  -- `while (mve_count) { m_mve_list.push_back(MVE::from_stream(stream)); mve_count--; }`
  unfoldable pub read_mves : ℕ → Input → List Mve → Result (List Mve × Input)
  read_mves zero s mves = ok (mves, s)
  read_mves (suc mve_count) s mves = do
    (m, s') ← Mve.from_stream t s
    read_mves mve_count s' (mves ++ m ∷ [])

  unfoldable pub from_stream : Input → Result (TitleFilter × Input)
  from_stream s = do
    (bs, s') ← read_or_throw t "bad title filter" 5 s
    let h = to_title_header host bs
    throw_if (ltb SendMode.send_recv h.send_mode) (message "bad send mode")
    (mves, s'') ← read_mves h.number_mve s' []
    ok (record { header = h; mves = mves }, s'')

  unfoldable pub match : TitleFilter → TitleFilter → Result Bool
  match own other =
      if title_id own == title_id other
      then if SendMode.match own.send_mode other.send_mode
        then if length own.mves == length other.mves
          then match_mves (length own.mves) 0 own.mves other.mves true
          else ok false
        else ok false
      else ok false

  unfoldable pub to_bytes : TitleFilter → Result (List ℕ)
  to_bytes f = do
    o ←
        write (output (replicate (5 + length f.mves * Mve.fixed_byte_size) 0))
          (title_header_bytes host f.header)
    o' ← write_all (mve_format t) o f.mves
    ok (buffer t o')

  abbrev pub title_filter : Filter t TitleFilter
  title_filter = record {
    format = record { from_stream = from_stream; byte_size = byte_size; to_bytes = to_bytes };
    marker = 0x1;
    match = match;
  }
