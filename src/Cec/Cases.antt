-- ===== src/Cec/Cases.antt =====
-- The tests of which filters match, and the setters, at concrete filters.
use libstreetpass.Prelude.{
  ℕ, ◌≤◌, ◌<◌, ◌≢◌, ◌⊎◌, ◌≡◌, ◌↔◌, refl, List, [], ◌∷◌, take, drop, true, false, ◌&&◌, ◌||◌, ◌==◌,
  arith,
}
use libstreetpass.Prelude.Result.{ok, throws, undefined, stuck, length_error}
use libstreetpass.Tins.{little}
use libstreetpass.Tins.Sample.{sample}
use libstreetpass.Cec.FilterList.{FilterList}
use libstreetpass.Cec.FilterList
use libstreetpass.Cec.FilterList.Encoding.{IsFilterList}
use libstreetpass.Cec.FilterList.Matching.{match-search_first, match_endless, search_first}
use libstreetpass.Cec.FilterList.Setter.{set_filters-IsFilterList, set_filters_too_long}
use libstreetpass.Cec.Key.{key_filter}
use libstreetpass.Cec.Key.Wire.{IsKey, key_bytes, key_filter-Codec}
use libstreetpass.Cec.ModuleFilter.{match}
use libstreetpass.Cec.ModuleFilter.Matching.{module_match-eq-false}
use libstreetpass.Cec.RawBytes.{RawBytesFilter, new_raw_bytes_filter}
use libstreetpass.Cec.RawBytes
use libstreetpass.Cec.RawBytes.Matching.{match_iff, new_raw_bytes_filter-match}
use libstreetpass.Cec.SendMode
use libstreetpass.Cec.SendMode.Compatible.{match-compatible, can_recv, can_send}
use libstreetpass.Cec.Tests.{run}
use libstreetpass.Cec.Title.{TitleFilter, title_filter, title_id}
use libstreetpass.Cec.Title
use libstreetpass.Cec.Title.Encoding.{title_filter-Codec}
use libstreetpass.Cec.Title.Matching.{match_lem, match-symmetric, all_match}
use libstreetpass.Cec.Title.Wire.{IsTitle, title_bytes}
use libstreetpass.Cec.Samples.{
  bytes_16, a_mve, a_title, a_raw, title_list, key_list, a_module, a_title-IsTitle,
  a_title_list-IsFilterList, packet_module, many_keys, many_keys-IsKey,
}

match-search_first_example :
    FilterList.match (title_filter sample) 3 (title_list (a_title ∷ [])) (title_list (a_title ∷ []))
    ≡ search_first (title_filter sample) a_title (a_title ∷ [])
match-search_first_example =
    match-search_first (title_filter sample) 3 (title_list (a_title ∷ []))
      (title_list (a_title ∷ [])) a_title [] refl (omega arith) (omega arith) (omega arith)

match_endless_example :
    FilterList.match (title_filter sample) 100 (title_list (a_title ∷ [])) (title_list []) ≡ stuck
match_endless_example =
    match_endless (title_filter sample) 100 (title_list (a_title ∷ [])) (title_list [])
      (omega arith) refl

module_match-eq-false_example :
    (match sample 4 a_module packet_module ≡ ok false)
    ↔ ((a_title ∷ [] ≡ []) × (◌≡◌ {A = List RawBytesFilter} [] []))
module_match-eq-false_example = module_match-eq-false sample 3 a_module packet_module

set_filters-IsFilterList_example :
    (l' : FilterList TitleFilter) × (FilterList.set_filters
        (title_filter sample)
        (title_list (a_title ∷ []))
        (a_title ∷ a_title ∷ [])
      ≡ ok l')
    × (l'.filters ≡ a_title ∷ a_title ∷ [])
    × IsFilterList (title_filter sample) IsTitle (title_bytes little) (title_filter-Codec sample) l'
unfolding run
set_filters-IsFilterList_example =
    set_filters-IsFilterList (title_filter sample) IsTitle (title_bytes little)
      (title_filter-Codec sample) (title_list (a_title ∷ [])) (a_title ∷ a_title ∷ [])
      a_title_list-IsFilterList (a_title-IsTitle, (a_title-IsTitle, tt)) (omega arith)

set_filters_too_long_example :
    FilterList.set_filters (key_filter sample) key_list many_keys
    ≡ throws (length_error "Byte size of filter list cannot exceed 0xFF")
set_filters_too_long_example =
    set_filters_too_long (key_filter sample) IsKey key_bytes (key_filter-Codec sample) key_list
      many_keys (many_keys-IsKey 32) (omega arith)

match_lem_example :
    Title.match sample a_title a_title
    ≡ ok (
        (title_id sample a_title == title_id sample a_title)
        && (SendMode.match 3 3 && (true && all_match (a_mve ∷ []) (a_mve ∷ []))))
match_lem_example = match_lem sample a_title a_title

match-symmetric_example :
    Title.match sample a_title (record a_title { mves = [] })
    ≡ Title.match sample (record a_title { mves = [] }) a_title
match-symmetric_example =
    match-symmetric sample a_title (record a_title { mves = [] }) (omega arith) (omega arith)

match_iff_example :
    ((RawBytes.match a_raw a_raw ≡ ok true)
      ↔ ((◌≡◌ {A = ℕ} 2 2) × (2 ≤ 16) × (take 2 bytes_16 ≡ take 2 bytes_16)))
    × ((RawBytes.match a_raw a_raw ≡ ok false)
        ↔ ((◌≢◌ {A = ℕ} 2 2) ⊎ (take 2 bytes_16 ≢ take 2 bytes_16)))
    × ((RawBytes.match a_raw a_raw ≡ undefined)
        ↔ ((◌≡◌ {A = ℕ} 2 2) × (16 < 2) × (bytes_16 ≡ bytes_16)))
match_iff_example = match_iff a_raw a_raw refl refl

-- A filter with a compared length of 17, and its bytes.
abbrev long_raw : RawBytesFilter
long_raw = record a_raw { cmp_length = 17 }

new_raw_bytes_filter-match_example :
    RawBytes.match
      (record { cmp_length = 2; raw_bytes = 1 ∷ drop 1 bytes_16 })
      (record { cmp_length = 3; raw_bytes = 1 ∷ drop 1 bytes_16 })
    ≡ ok false
unfolding run RawBytes.new_raw_bytes_filter RawBytes.set_raw_bytes
new_raw_bytes_filter-match_example =
    new_raw_bytes_filter-match a_raw (record a_raw { cmp_length = 3 })
      (record { cmp_length = 2; raw_bytes = 1 ∷ drop 1 bytes_16 })
      (record { cmp_length = 3; raw_bytes = 1 ∷ drop 1 bytes_16 }) (1 ∷ []) refl refl
      (λ e. omega (arith, e))

match-compatible_example :
    SendMode.match 1 2
    ≡ ((1 == 0) && (2 == 0) || can_send 1 && can_recv 2 || can_recv 1 && can_send 2)
match-compatible_example = match-compatible 1 2 (omega arith) (omega arith)
