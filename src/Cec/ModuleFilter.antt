-- ===== src/Cec/ModuleFilter.antt =====
-- ModuleFilter of include/cec/module_filter.hpp and src/cec/module_filter.cpp, and the parser of
-- include/cec/cec.hpp.
pub mod Lists
pub mod Encoding
pub mod RoundTrip
pub mod Rounds
pub mod Safety
pub mod Reached
pub mod Keyed
pub mod Matching
use libstreetpass.Prelude.{
  ℕ, zero, suc, ◌+◌, List, [], ◌∷◌, Bool, true, false, ◌==◌, length, take, replicate, if◌then◌else◌,
}
use libstreetpass.Prelude.Result.{Result, ok, throws, stuck, message, at, throw_if, ◌>>=◌, ◌>>◌}
use libstreetpass.Tins.{Tins}
use libstreetpass.Tins.Streams.{buffer}
use libstreetpass.Cec.FilterList
use libstreetpass.Cec.FilterList.{FilterList, count}
use libstreetpass.Cec.Key.{KeyFilter, key_filter, new_key_filter}
use libstreetpass.Cec.Layout.{to_list_header}
use libstreetpass.Cec.RawBytes.{RawBytesFilter, raw_bytes_filter}
use libstreetpass.Cec.Title.{TitleFilter, title_filter}

pub record ModuleFilter : Type 0 where
  pub raw_bytes_list : FilterList RawBytesFilter
  pub title_list : FilterList TitleFilter
  pub key_list : FilterList KeyFilter

-- The three flags of `from_stream`.
pub record Found : Type 0 where
  pub raw_bytes : Bool
  pub title : Bool
  pub key : Bool

abbrev pub none_found : Found
none_found = record { raw_bytes = false; title = false; key = false }

unfoldable pub key : ModuleFilter → Result (List ℕ)
key f = do k ← at f.key_list.filters 0; ok k.key

-- raw_bytes_filters() and title_filters() return references: the caller reads the list, or changes it
-- in place.
unfoldable pub raw_bytes_filters : ModuleFilter → FilterList RawBytesFilter
raw_bytes_filters f = f.raw_bytes_list

unfoldable pub put_raw_bytes_filters : ModuleFilter → FilterList RawBytesFilter → ModuleFilter
put_raw_bytes_filters f l = record f { raw_bytes_list = l }

unfoldable pub title_filters : ModuleFilter → FilterList TitleFilter
title_filters f = f.title_list

unfoldable pub put_title_filters : ModuleFilter → FilterList TitleFilter → ModuleFilter
put_title_filters f l = record f { title_list = l }

module _ (t : Tins) where
  open t use {Input, Output, host, input, pointer, can_read, output, write}

  unfoldable pub empty_module_filter : ModuleFilter
  empty_module_filter = record {
    raw_bytes_list = FilterList.new_filter_list (raw_bytes_filter t);
    title_list = FilterList.new_filter_list (title_filter t);
    key_list = FilterList.new_filter_list (key_filter t);
  }

  -- The three branches of the loop, by the marker of the next header.
  unfoldable pub read_raw_bytes_list :
      Input → ModuleFilter → Found → Result (ModuleFilter × Found × Input)
  read_raw_bytes_list s f found = do
    throw_if found.raw_bytes (message "bad - already found raw bytes list")
    (l, s') ← FilterList.from_stream (raw_bytes_filter t) s
    ok (record f { raw_bytes_list = l }, record found { raw_bytes = true }, s')

  unfoldable pub read_title_list :
      Input → ModuleFilter → Found → Result (ModuleFilter × Found × Input)
  read_title_list s f found = do
    throw_if found.title (message "bad - already found title list")
    (l, s') ← FilterList.from_stream (title_filter t) s
    ok (record f { title_list = l }, record found { title = true }, s')

  unfoldable pub read_key_list :
      Input → ModuleFilter → Found → Result (ModuleFilter × Found × Input)
  read_key_list s f found = do
    throw_if found.key (message "bad - already found key list")
    (l, s') ← FilterList.from_stream (key_filter t) s
    ok (record f { key_list = l }, record found { key = true }, s')

  unfoldable pub read_list : Input → ModuleFilter → Found → Result (ModuleFilter × Found × Input)
  read_list s f found =
      let marker = (to_list_header host (take 2 (pointer s))).marker in
      if marker == 0x0
      then read_raw_bytes_list s f found
      else if marker == 0x1
      then read_title_list s f found
      else if marker == 0xF
      then read_key_list s f found
      else throws (message "bad marker")

  -- `while (stream.can_read(sizeof(filter_list_header)))`
  unfoldable pub read_lists : ℕ → Input → ModuleFilter → Found → Result (ModuleFilter × Input)
  read_lists zero s f found = stuck
  read_lists (suc fuel) s f found = elim (can_read s 2) [
    | false ↦ ok (f, s)
    | true ↦ do (f', found', s') ← read_list s f found; read_lists fuel s' f' found'
  ]

  -- There are three kinds of list and none is read twice, so four rounds are enough.
  unfoldable pub from_stream : Input → Result (ModuleFilter × Input)
  unfolding count
  from_stream s = do
    (f, s') ← read_lists 4 s empty_module_filter none_found
    if count f.key_list == 1 then ok (f, s') else throws (message "bad - key list count != 1")

  -- Parser<ModuleFilter>::from_bytes.
  unfoldable pub from_bytes : List ℕ → Result ModuleFilter
  from_bytes bs = do (f, s) ← from_stream (input bs (length bs)); ok f

  unfoldable pub set_key : ModuleFilter → List ℕ → Result ModuleFilter
  set_key f k = do
    l ← FilterList.set_filters (key_filter t) f.key_list (new_key_filter k ∷ [])
    ok (record f { key_list = l })

  unfoldable pub new_module_filter : List ℕ → Result ModuleFilter
  new_module_filter k = set_key empty_module_filter k

  unfoldable pub match : ℕ → ModuleFilter → ModuleFilter → Result Bool
  match fuel own other = do
    titles ← FilterList.match (title_filter t) fuel own.title_list other.title_list
    elim titles [
      | true ↦ ok true
      | false ↦ FilterList.match (raw_bytes_filter t) fuel own.raw_bytes_list other.raw_bytes_list
    ]

  unfoldable pub byte_size : ModuleFilter → ℕ
  unfolding count
  byte_size f =
      FilterList.byte_size (key_filter t) f.key_list
      + (if count f.raw_bytes_list == 0
          then 0
          else FilterList.byte_size (raw_bytes_filter t) f.raw_bytes_list)
      + (if count f.title_list == 0 then 0 else FilterList.byte_size (title_filter t) f.title_list)

  -- `if (list.count()) { bytes b = bytes(list); stream.write(b.data(), b.size()); }`
  unfoldable pub write_unless_empty :
      {A : Type 0} → Output → FilterList A → (FilterList A → Result (List ℕ)) → Result Output
  unfolding count
  write_unless_empty o l bytes =
      if count l == 0 then ok o else bytes l >>= λ list_bytes. write o list_bytes

  unfoldable pub to_bytes : ModuleFilter → Result (List ℕ)
  to_bytes f = do
    let o = output (replicate (byte_size f) 0)
    o₁ ← write_unless_empty o f.raw_bytes_list (FilterList.to_bytes (raw_bytes_filter t))
    o₂ ← write_unless_empty o₁ f.title_list (FilterList.to_bytes (title_filter t))
    cl_bytes ← FilterList.to_bytes (key_filter t) f.key_list
    o₃ ← write o₂ cl_bytes
    ok (buffer t o₃)
