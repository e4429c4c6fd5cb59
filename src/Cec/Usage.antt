-- ===== src/Cec/Usage.antt =====
-- Building and printing filters, at concrete ones.
use libstreetpass.Prelude.{ℕ, ◌≡◌, ◌↔◌, refl, List, [], ◌∷◌, length, false, arith}
use libstreetpass.Prelude.Result.{ok, ◌>>=◌}
use libstreetpass.Text.{new_stream}
use libstreetpass.Tins.Sample.{sample}
use libstreetpass.Cec.FilterList.{FilterList, new_filter_list}
use libstreetpass.Cec.FilterList
use libstreetpass.Cec.FilterList.Built.{new, flagged, filled}
use libstreetpass.Cec.ModuleFilter.{
  ModuleFilter, key, set_key, to_bytes, from_bytes, raw_bytes_filters, title_filters,
}
use libstreetpass.Cec.ModuleFilter
use libstreetpass.Cec.ModuleFilter.Encoding.{IsModuleFilter, normal}
use libstreetpass.Cec.ModuleFilter.Keyed.{key-set_key}
use libstreetpass.Cec.ModuleFilter.Reached.{Reached, constructed, titles_changed, Reached-readable}
use libstreetpass.Cec.Print.{print_module_filter, print_raw_bytes}
use libstreetpass.Cec.Print.Raw.{print_raw_bytes_iff}
use libstreetpass.Cec.Print.Whole.{print_module_filter_iff}
use libstreetpass.Cec.RawBytes.{RawBytesFilter}
use libstreetpass.Cec.RawBytes
use libstreetpass.Cec.RawBytes.Wire.{IsRawBytes}
use libstreetpass.Cec.Samples.{
  bytes_8, bytes_16, bytes_8-IsByte, bytes_16-IsByte, a_mve, a_raw, a_title, no_raw, title_list,
  key_list, a_module, a_module-IsModuleFilter,
}
use libstreetpass.Cec.Tests.{run}
use libstreetpass.Cec.Title.{TitleFilter, title_filter}
use libstreetpass.Cec.Title.Made

-- A title list without flags.
abbrev unflagged : FilterList TitleFilter
unflagged = record { header = record { flags = 0; marker = 1; length = 8 }; filters = a_title ∷ [] }

abbrev keyed_module : ModuleFilter
keyed_module = record {
  raw_bytes_list = no_raw;
  title_list = record { header = record { flags = 0; marker = 1; length = 0 }; filters = [] };
  key_list = key_list;
}

-- The sample is built from its key: a title is made and put into the list, which gets a flag.
a_module-Reached : Reached sample a_module
unfolding run FilterList.set_flags ModuleFilter.put_title_filters
a_module-Reached =
    titles_changed keyed_module (title_list (a_title ∷ []))
      (flagged unflagged 1 (
        filled (new_filter_list (title_filter sample)) (a_title ∷ [])
          (
            Made.constructed a_title 0x00310500 3 (a_mve ∷ []) (omega arith) (omega arith)
                (omega arith, tt) refl,
            tt,
          )
          refl new))
      (constructed bytes_8 (refl, bytes_8-IsByte) refl)

Reached-readable_example :
    IsModuleFilter sample a_module
    × ((k : List ℕ) × (key a_module ≡ ok k) × (length k ≡ 8))
    × ((to_bytes sample a_module >>= λ bs. from_bytes sample bs) ≡ ok (normal sample a_module))
Reached-readable_example = Reached-readable sample a_module a_module-Reached

abbrev other_key : List ℕ
other_key = 1 ∷ 2 ∷ 3 ∷ 4 ∷ 5 ∷ 6 ∷ 7 ∷ 8 ∷ []

key-set_key_example :
    (f : ModuleFilter) × (set_key sample a_module other_key ≡ ok f)
    × (key f ≡ ok other_key)
    × (raw_bytes_filters f ≡ raw_bytes_filters a_module)
    × (title_filters f ≡ title_filters a_module)
key-set_key_example = key-set_key sample a_module other_key

-- The sample with a raw bytes filter.
abbrev with_raw : ModuleFilter
with_raw = record a_module {
  raw_bytes_list = record {
    header = record { flags = 0; marker = 0; length = 17 };
    filters = a_raw ∷ [];
  };
}

a_raw-IsRawBytes : IsRawBytes a_raw
a_raw-IsRawBytes = (omega arith, refl, bytes_16-IsByte)

with_raw-IsModuleFilter : IsModuleFilter sample with_raw
unfolding run RawBytes.struct_bytes
with_raw-IsModuleFilter = (
  (omega arith, refl, refl, (a_raw-IsRawBytes, tt)),
  a_module-IsModuleFilter.1,
  a_module-IsModuleFilter.2,
  refl,
)

print_module_filter_iff_example :
    ((print_module_filter false sample a_module new_stream).text
      ≡ (print_module_filter false sample with_raw new_stream).text)
    ↔ ((title_list (a_title ∷ []) ≡ title_list (a_title ∷ [])) × (key_list ≡ key_list))
print_module_filter_iff_example =
    print_module_filter_iff false sample a_module with_raw a_module-IsModuleFilter
      with_raw-IsModuleFilter

-- The same bytes, of which three are compared.
abbrev longer_raw : RawBytesFilter
longer_raw = record a_raw { cmp_length = 3 }

print_raw_bytes_iff_example :
    ((print_raw_bytes a_raw new_stream).text ≡ (print_raw_bytes longer_raw new_stream).text)
    ↔ (bytes_16 ≡ bytes_16)
print_raw_bytes_iff_example =
    print_raw_bytes_iff a_raw longer_raw a_raw-IsRawBytes (omega arith, refl, bytes_16-IsByte)
