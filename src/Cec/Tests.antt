-- ===== src/Cec/Tests.antt =====
-- Runs of the module filter: a packet, its parse and its bytes.
use libstreetpass.Prelude.{ℕ, ◌≡◌, refl, List, [], ◌∷◌}
use libstreetpass.Prelude.Result.{ok, undefined, ◌>>=◌}
use libstreetpass.Tins.Sample.{sample}
use libstreetpass.Tins.Streams.{read_or_throw}
use libstreetpass.Cec.Endian
use libstreetpass.Cec.Filter
use libstreetpass.Cec.FilterList
use libstreetpass.Cec.Key
use libstreetpass.Cec.Layout
use libstreetpass.Cec.ModuleFilter
use libstreetpass.Cec.Mve
use libstreetpass.Cec.RawBytes
use libstreetpass.Cec.SendMode
use libstreetpass.Cec.Title

-- Opens the definitions that the runs compute with.
unfoldable pub run : Unit {0}
unfolding read_or_throw Endian.endian_type Endian.endian_value Layout.list_header_bytes
    Layout.to_list_header Layout.title_header_bytes Layout.to_title_header Mve.from_stream
    Mve.to_bytes Mve.match RawBytes.from_stream RawBytes.to_bytes RawBytes.byte_size RawBytes.match
    RawBytes.equal Key.from_stream Key.to_bytes Key.byte_size Key.match Key.new_key_filter
    SendMode.match Title.title_id Title.set_title_id Title.set_send_mode Title.set_mve_list
    Title.new_title_filter Title.byte_size Title.read_mves Title.from_stream Title.match_mves
    Title.match Filter.write_all Title.to_bytes FilterList.count FilterList.new_filter_list
    FilterList.sum_sizes FilterList.byte_size FilterList.checked_size FilterList.set_filters
    FilterList.read_filters FilterList.from_stream FilterList.match_inner FilterList.match_outer
    FilterList.match FilterList.to_bytes ModuleFilter.empty_module_filter
    ModuleFilter.read_raw_bytes_list ModuleFilter.read_title_list ModuleFilter.read_key_list
    ModuleFilter.read_list ModuleFilter.read_lists ModuleFilter.from_stream ModuleFilter.from_bytes
    ModuleFilter.key ModuleFilter.set_key ModuleFilter.new_module_filter ModuleFilter.match
    ModuleFilter.byte_size ModuleFilter.write_unless_empty ModuleFilter.to_bytes
run = tt

-- The bytes that src/main.cpp holds in a comment.
abbrev pub packet : List ℕ
packet =
    0x11 ∷ 0x0D ∷ 0x00 ∷ 0x05 ∷ 0x16 ∷ 0x00 ∷ 0x31 ∷ 0xFF ∷ 0xEE ∷ 0xDD ∷ 0x00 ∷ 0x02 ∷ 0x08 ∷ 0x00
    ∷ 0x00 ∷ 0xf0 ∷ 0x08 ∷ 0x68 ∷ 0xc7 ∷ 0x27 ∷ 0x39 ∷ 0x0e ∷ 0x2f ∷ 0xbb ∷ 0x04 ∷ []

packet_again :
    (ModuleFilter.from_bytes sample packet >>= λ f. ModuleFilter.to_bytes sample f) ≡ ok packet
unfolding run
packet_again = refl

packet_key :
    (ModuleFilter.from_bytes sample packet >>= λ f. ModuleFilter.key f)
    ≡ ok (0x68 ∷ 0xc7 ∷ 0x27 ∷ 0x39 ∷ 0x0e ∷ 0x2f ∷ 0xbb ∷ 0x04 ∷ [])
unfolding run
packet_key = refl

-- The second title of the packet matches itself, and the loop never tries it.
packet_match :
    (ModuleFilter.from_bytes sample packet >>= λ f. ModuleFilter.match sample 9 f f) ≡ undefined
unfolding run
packet_match = refl
