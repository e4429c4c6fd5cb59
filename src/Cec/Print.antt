-- ===== src/Cec/Print.antt =====
-- The operators << of src/cec/module_filter.cpp and src/cec/send_mode.cpp.
pub mod Layout
pub mod Elements
pub mod Lists
pub mod Whole
pub mod Raw
pub mod Tests
use libstreetpass.Prelude.{ℕ, List, [], ◌∷◌, Bool, ◌==◌, length, if◌then◌else◌}
use libstreetpass.Text.{
  Stream, new_stream, codes, put, put_text, put_number, set_hex, set_fill, set_width, end_line,
}
use libstreetpass.Tins.{Tins}
use libstreetpass.Cec.Filter.{Filter}
use libstreetpass.Cec.FilterList.{FilterList, flags}
use libstreetpass.Cec.Key.{KeyFilter, key_filter}
use libstreetpass.Cec.ModuleFilter.{ModuleFilter}
use libstreetpass.Cec.Mve.{Mve}
use libstreetpass.Cec.Mve.Getters.{mask, value, expectation}
use libstreetpass.Cec.RawBytes.{RawBytesFilter, raw_bytes}
use libstreetpass.Cec.SendMode.{to_string}
use libstreetpass.Cec.Title.{TitleFilter, title_filter, title_id, send_mode}
use Prim.Native.String.{String}

-- FilterListMarker::operator std::string.
unfoldable pub marker_to_string : ℕ → String
marker_to_string m =
    if m == 0x0
    then "RAW_BYTES_FILTER"
    else if m == 0x1
    then "TITLE_FILTER"
    else if m == 0xF
    then "KEY_FILTER"
    else "invalid"

unfoldable pub print_mve : Mve → Stream → Stream
print_mve e s =
    let ss = set_hex new_stream in
    let ss₁ = put_number (mask e) (put "MVE[mask=" ss) in
    let ss₂ = put_number (value e) (put ", value=" ss₁) in
    let ss₃ = put_number (expectation e) (put ", expectation=" ss₂) in put_text (put "]" ss₃).text s

-- `for (u8 b : raw_bytes) ss << " " << (int)b`
unfoldable pub print_raw : List ℕ → Stream → Stream
print_raw [] ss = ss
print_raw (b ∷ bs) ss = print_raw bs (put_number b (put " " ss))

unfoldable pub print_raw_bytes : RawBytesFilter → Stream → Stream
print_raw_bytes f s =
    let rb = raw_bytes f in
    let ss = put "RawBytes: " (set_hex new_stream) in
    let ss₁ = put ", " (put_number (length rb) (put "size=" ss)) in
    put_text (print_raw rb (put "bytes=" ss₁)).text s

-- `for (unsigned b : e.m_internal.key) ss << std::setw(2) << b`
unfoldable pub print_pairs : List ℕ → Stream → Stream
print_pairs [] ss = ss
print_pairs (b ∷ bs) ss = print_pairs bs (put_number b (set_width 2 ss))

unfoldable pub print_key : KeyFilter → Stream → Stream
print_key e s =
    let ss = put "key=" new_stream in
    let ss₁ = set_width 2 (set_fill b'0' (set_hex ss)) in put_text (print_pairs e.key ss₁).text s

-- `for (MVE const& mve : e.m_mve_list) ss << " " << mve`
unfoldable pub print_mves : List Mve → Stream → Stream
print_mves [] ss = ss
print_mves (m ∷ ms) ss = print_mves ms (print_mve m (put " " ss))

-- Whether the enumerations over uint8_t are printed as characters or as numbers. It depends on the
-- overload that the compiler takes: the two conversions are both promotions, of which a compiler
-- ranks the one to unsigned char before the other from the resolution of CWG issue 1601 on.
module _ (as_character : Bool) where
  unfoldable pub put_enumerator : ℕ → Stream → Stream
  unfolding put_text put_number
  put_enumerator m_value ss =
      if as_character then put_text (m_value ∷ []) ss else put_number m_value ss

  unfoldable pub print_send_mode : ℕ → Stream → Stream
  print_send_mode m s =
      let ss = set_hex (set_fill b'0' new_stream) in
      let ss₁ = put_enumerator m (set_width 2 (put "(" (put (to_string m) ss))) in
      put_text (put ")" ss₁).text s

  unfoldable pub print_marker : ℕ → Stream → Stream
  print_marker m s =
      let ss = set_hex (set_fill b'0' new_stream) in
      let ss₁ = put_enumerator m (set_width 2 (put "(" (put (marker_to_string m) ss))) in
      put_text (put ")" ss₁).text s

  unfoldable pub print_title : Tins → TitleFilter → Stream → Stream
  print_title t e s =
      let ss = put "id=" (put "Title: " new_stream) in
      let ss₁ = put_number (title_id t e) (set_width 8 (set_fill b'0' (set_hex ss))) in
      let ss₂ = print_send_mode (send_mode e) (put ", send_mode=" ss₁) in
      let ss₃ = if length e.mves == 0 then ss₂ else print_mves e.mves (put ", mve_list=" ss₂) in
      put_text ss₃.text s

  module _ {t : Tins} {A : Type 0} (F : Filter t A) (print : A → Stream → Stream) where
    -- `for (auto const& e : l.m_list) ss << std::endl << e`
    unfoldable pub print_filters : List A → Stream → Stream
    print_filters [] ss = ss
    print_filters (e ∷ es) ss = print_filters es (print e (end_line ss))

    unfoldable pub print_filter_list : FilterList A → Stream → Stream
    print_filter_list l s =
        let ss = set_fill b'0' (set_hex (put "FilterList: " new_stream)) in
        let ss₁ = put ", " (print_marker F.marker (set_width 2 (put "marker=" ss))) in
        let ss₂ = put ", " (put_number (flags l) (set_width 2 (put "flags=" ss₁))) in
        let ss₃ = end_line (put_number l.header.length (set_width 2 (put "length=" ss₂))) in
        put_text (print_filters l.filters (put "Content:" ss₃)).text s

  unfoldable pub print_module_filter : Tins → ModuleFilter → Stream → Stream
  print_module_filter t e s =
      let s₁ = end_line (
        put "================================ Module Filter =================================" s) in
      let s₂ = end_line (print_filter_list (title_filter t) (print_title t) e.title_list s₁) in
      let s₃ = end_line (
        put "--------------------------------------------------------------------------------"
          s₂) in
      let s₄ = end_line (print_filter_list (key_filter t) print_key e.key_list s₃) in
      put "================================================================================" s₄
