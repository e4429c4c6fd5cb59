-- ===== src/Cec/FilterList.antt =====
-- ModuleFilter::FilterList<T> of include/cec/module_filter.hpp and src/cec/module_filter.cpp, over
-- any implementation of Filter<T>.
pub mod Elements
pub mod Encoding
pub mod Matching
pub mod Setter
pub mod Built
pub mod RoundTrip
use libstreetpass.Prelude.{
  ℕ, zero, suc, ◌+◌, ◌%◌, ◌^◌, List, [], ◌∷◌, ◌++◌, Bool, true, false, ◌==◌, not, ltb, length,
  replicate, if◌then◌else◌,
}
use libstreetpass.Prelude.Result.{
  Result, ok, throws, stuck, message, length_error, fetch, throw_if, ◌>>=◌, ◌>>◌,
}
use libstreetpass.Tins.{Tins}
use libstreetpass.Tins.Streams.{read_or_throw, buffer}
use libstreetpass.Cec.Filter.{Format, Filter, write_all}
use libstreetpass.Cec.Layout.{ListHeader, list_header_bytes, to_list_header}

pub record FilterList (A : Type 0) : Type 0 where
  pub header : ListHeader
  pub filters : List A

unfoldable pub count : {A : Type 0} → FilterList A → ℕ
count l = length l.filters

unfoldable pub flags : {A : Type 0} → FilterList A → ℕ
flags l = l.header.flags

unfoldable pub set_flags : {A : Type 0} → FilterList A → ℕ → FilterList A
set_flags l flags = record l { header = record l.header { flags = flags % 16 } }

module _ {t : Tins} {A : Type 0} (F : Filter t A) where
  open t use {Input, Output, host, input, pointer, size, can_read, skip, output, write}

  -- The constructor: a header of zeros, then the marker.
  unfoldable pub new_filter_list : FilterList A
  new_filter_list = record {
    header = record { flags = 0; marker = F.marker; length = 0 };
    filters = [];
  }

  unfoldable pub sum_sizes : ℕ → List A → ℕ
  sum_sizes total [] = total
  sum_sizes total (e ∷ es) = sum_sizes (total + F.byte_size e) es

  unfoldable pub byte_size : FilterList A → ℕ
  byte_size l = sum_sizes 2 l.filters

  -- The loop of the setter: the sum of the sizes, which is kept in a uint8_t.
  unfoldable pub checked_size : ℕ → List A → Result ℕ
  checked_size total [] = ok total
  checked_size total (e ∷ es) =
      if ltb 0xFF (F.byte_size e + total)
      then throws (length_error "Byte size of filter list cannot exceed 0xFF")
      else checked_size ((total + F.byte_size e) % 256) es

  unfoldable pub set_filters : FilterList A → List A → Result (FilterList A)
  set_filters l filters = do
    total ← checked_size 0 filters
    ok (record l { header = record l.header { length = total }; filters = filters })

  -- `while (elt_stream.size() > 0)`: each element is read from `elt`, a stream of its own over the
  -- same memory, and then skipped in `s`.
  unfoldable pub read_filters : ℕ → Input → Input → List A → Result (List A × Input)
  read_filters zero elt s list = stuck
  read_filters (suc fuel) elt s list = elim (ltb 0 (size elt)) [
    | false ↦ ok (list, s)
    | true ↦ do
      (e, elt') ← F.from_stream elt
      s' ← skip s (F.byte_size e)
      read_filters fuel elt' s' (list ++ e ∷ [])
  ]

  -- Each round takes a byte at least, so a round for each byte of the list is enough.
  unfoldable pub from_stream : Input → Result (FilterList A × Input)
  from_stream s = do
    (bs, s') ← read_or_throw t "bad list header" 2 s
    let h = to_list_header host bs
    throw_if (not (h.marker == F.marker)) (message "type mismatch")
    throw_if (not (can_read s' h.length)) (message "bad length")
    let elt = input (pointer s') h.length
    (filters, s'') ← read_filters (suc (size elt)) elt s' []
    ok (record { header = h; filters = filters }, s'')

  -- `for (j = i; other.count(); j++)`: it ends by its test only where `other` is empty.
  unfoldable pub match_inner : ℕ → ℕ → ℕ → FilterList A → FilterList A → Result Bool
  unfolding count
  match_inner zero i j own other = stuck
  match_inner (suc fuel) i j own other = elim (count other == 0) [
    | true ↦ ok false
    | false ↦ do
      a ← fetch own.filters i
      b ← fetch other.filters j
      m ← F.match a b
      elim m [ true ↦ ok true | false ↦ match_inner fuel i ((j + 1) % 2 ^ 32) own other ]
  ]

  -- `for (i = 0; this->count(); i++)`: it ends by its test only where this list is empty.
  unfoldable pub match_outer : ℕ → ℕ → FilterList A → FilterList A → Result Bool
  unfolding count
  match_outer zero i own other = stuck
  match_outer (suc fuel) i own other = elim (count own == 0) [
    | true ↦ ok false
    | false ↦ do
      found ← match_inner (suc fuel) i i own other
      elim found [ true ↦ ok true | false ↦ match_outer fuel ((i + 1) % 2 ^ 32) own other ]
  ]

  unfoldable pub match : ℕ → FilterList A → FilterList A → Result Bool
  match fuel own other = match_outer fuel 0 own other

  unfoldable pub to_bytes : FilterList A → Result (List ℕ)
  to_bytes l = do
    o ← write (output (replicate (2 + l.header.length) 0)) (list_header_bytes host l.header)
    o' ← write_all F.format o l.filters
    ok (buffer t o')

  abbrev pub filter_list_format : Format t (FilterList A)
  filter_list_format = record {
    from_stream = from_stream;
    byte_size = byte_size;
    to_bytes = to_bytes;
  }
