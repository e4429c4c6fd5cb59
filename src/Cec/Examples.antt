-- ===== src/Cec/Examples.antt =====
-- The parsers and writers of the module filter at concrete filters and packets.
use libstreetpass.Prelude.{ℕ, ◌≡◌, ◌≤◌, refl, List, [], ◌∷◌, ◌++◌, length, arith}
use libstreetpass.Prelude.Result.{ok, ◌>>=◌}
use libstreetpass.Tins.{little}
use libstreetpass.Tins.Sample.{sample}
use libstreetpass.Tins.Streams.{IsReported}
use libstreetpass.Cec.FilterList.{FilterList}
use libstreetpass.Cec.FilterList
use libstreetpass.Cec.FilterList.RoundTrip.{read_list-to_bytes, list_to_bytes-from_stream}
use libstreetpass.Cec.ModuleFilter.{from_stream, from_bytes, to_bytes}
use libstreetpass.Cec.ModuleFilter.Encoding.{
  IsModuleFilter, module_bytes, normal, to_bytes-module_bytes,
}
use libstreetpass.Cec.ModuleFilter.RoundTrip.{from_bytes-to_bytes}
use libstreetpass.Cec.ModuleFilter.Safety.{
  module_from_stream-IsReported, from_stream-IsModuleFilter,
}
use libstreetpass.Cec.Tests.{packet, run}
use libstreetpass.Cec.Title.{TitleFilter, title_filter, title_id}
use libstreetpass.Cec.Title
use libstreetpass.Cec.Title.Encoding.{title_filter-Codec}
use libstreetpass.Cec.Title.RoundTrip.{read_title-to_bytes}
use libstreetpass.Cec.Title.Wire.{IsTitle, title_bytes}
use libstreetpass.Cec.Samples.{
  a_title, title_list, a_module, a_title_bytes, a_title_list_bytes, packet-IsByte, a_title-IsTitle,
  a_title_list-IsFilterList, a_module-IsModuleFilter, packet_module,
}

from_bytes-to_bytes_example :
    (to_bytes sample a_module >>= λ bs. from_bytes sample bs) ≡ ok (normal sample a_module)
from_bytes-to_bytes_example = from_bytes-to_bytes sample a_module a_module-IsModuleFilter

to_bytes-module_bytes_example : to_bytes sample a_module ≡ ok (module_bytes sample a_module)
to_bytes-module_bytes_example = to_bytes-module_bytes sample a_module a_module-IsModuleFilter

module_from_stream-IsReported_example : IsReported (from_stream sample packet)
module_from_stream-IsReported_example = module_from_stream-IsReported sample packet packet-IsByte

from_stream-IsModuleFilter_example : IsModuleFilter sample packet_module × (length {A = ℕ} [] ≤ 1)
unfolding run
from_stream-IsModuleFilter_example =
    from_stream-IsModuleFilter sample packet [] packet_module packet-IsByte refl

read_list-to_bytes_example :
    (FilterList.to_bytes (title_filter sample) (title_list (a_title ∷ [])) ≡ ok a_title_list_bytes)
    × (s' : List ℕ) × (FilterList.from_stream (title_filter sample) a_title_list_bytes
        ≡ ok (title_list (a_title ∷ []), s'))
    × (s' ≡ [])
unfolding run
read_list-to_bytes_example =
    read_list-to_bytes (title_filter sample) IsTitle (title_bytes little)
      (title_filter-Codec sample) (title_list (a_title ∷ [])) [] a_title_list_bytes
      a_title_list-IsFilterList refl

list_to_bytes-from_stream_example :
    (bs : List ℕ) × (FilterList.to_bytes (title_filter sample) (title_list (a_title ∷ [])) ≡ ok bs)
    × (FilterList.byte_size (title_filter sample) (title_list (a_title ∷ [])) ≡ length bs)
    × (a_title_list_bytes ≡ bs ++ [])
unfolding run
list_to_bytes-from_stream_example =
    list_to_bytes-from_stream (title_filter sample) IsTitle (title_bytes little)
      (title_filter-Codec sample) a_title_list_bytes [] (title_list (a_title ∷ [])) (ground arith)
      refl

read_title-to_bytes_example :
    (Title.to_bytes sample a_title ≡ ok a_title_bytes)
    × (s' : List ℕ) × (Title.from_stream sample a_title_bytes ≡ ok (a_title, s'))
    × (s' ≡ [])
unfolding run
read_title-to_bytes_example =
    read_title-to_bytes sample a_title [] a_title_bytes a_title-IsTitle refl
