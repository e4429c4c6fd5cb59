-- ===== src/Cec/RawBytes.antt =====
-- ModuleFilter::RawBytesFilter of include/cec/module_filter.hpp and src/cec/module_filter.cpp.
pub mod Wire
pub mod Matching
pub mod RoundTrip
pub mod Made
pub mod Parsed
use libstreetpass.Prelude.{
  ℕ, zero, suc, List, [], ◌∷◌, ◌++◌, Bool, true, false, ◌==◌, ltb, length, get_or, drop, replicate,
  if◌then◌else◌,
}
use libstreetpass.Prelude.Result.{Result, ok, throws, undefined, length_error, ◌>>=◌}
use libstreetpass.Tins.{Tins}
use libstreetpass.Tins.Streams.{read_or_throw, buffer}
use libstreetpass.Cec.Filter.{Filter}

-- The struct raw_filter: a length and an array of 16 bytes.
pub record RawBytesFilter : Type 0 where
  pub cmp_length : ℕ
  pub raw_bytes : List ℕ

unfoldable pub struct_bytes : RawBytesFilter → List ℕ
struct_bytes f = f.cmp_length ∷ f.raw_bytes

unfoldable pub to_struct : List ℕ → RawBytesFilter
to_struct bs = record { cmp_length = get_or bs 0 0; raw_bytes = drop 1 bs }

-- The getter copies the array.
unfoldable pub raw_bytes : RawBytesFilter → List ℕ
raw_bytes f = f.raw_bytes

-- The setter: it copies `rb` over the front of the array and leaves the rest.
unfoldable pub set_raw_bytes : RawBytesFilter → List ℕ → Result RawBytesFilter
set_raw_bytes f rb =
    if ltb 16 (length rb)
    then throws (length_error "raw bytes filter length cannot exceed 16 bytes")
    else ok (record f { raw_bytes = rb ++ drop (length rb) f.raw_bytes })

-- The constructor initialises nothing else: `memory` is what the members held before.
unfoldable pub new_raw_bytes_filter : RawBytesFilter → List ℕ → Result RawBytesFilter
unfolding set_raw_bytes
new_raw_bytes_filter memory rb = set_raw_bytes memory rb

unfoldable pub byte_size : RawBytesFilter → ℕ
byte_size f = 17

-- std::equal over two arrays, of which the first range has `n` bytes: it stops at a difference, and
-- it may go past an end.
unfoldable pub equal : ℕ → List ℕ → List ℕ → Result Bool
equal zero xs ys = ok true
equal (suc n) [] ys = undefined
equal (suc n) (x ∷ xs) [] = undefined
equal (suc n) (x ∷ xs) (y ∷ ys) = let rest = equal n xs ys in if x == y then rest else ok false

unfoldable pub match : RawBytesFilter → RawBytesFilter → Result Bool
unfolding equal
match own other =
    let compared = equal own.cmp_length own.raw_bytes other.raw_bytes in
    if own.cmp_length == other.cmp_length then compared else ok false

module _ (t : Tins) where
  open t use {Input, output, write}

  unfoldable pub from_stream : Input → Result (RawBytesFilter × Input)
  unfolding to_struct
  from_stream s = do (bs, s') ← read_or_throw t "bad mve" 17 s; ok (to_struct bs, s')

  unfoldable pub to_bytes : RawBytesFilter → Result (List ℕ)
  unfolding struct_bytes
  to_bytes f = do o ← write (output (replicate 17 0)) (struct_bytes f); ok (buffer t o)

  abbrev pub raw_bytes_filter : Filter t RawBytesFilter
  raw_bytes_filter = record {
    format = record { from_stream = from_stream; byte_size = byte_size; to_bytes = to_bytes };
    marker = 0x0;
    match = match;
  }
