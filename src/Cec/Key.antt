-- ===== src/Cec/Key.antt =====
-- ModuleFilter::KeyFilter of include/cec/module_filter.hpp and src/cec/module_filter.cpp.
pub mod Wire
pub mod RoundTrip
use libstreetpass.Prelude.{ℕ, List, Bool, true, replicate}
use libstreetpass.Prelude.Result.{Result, ok, ◌>>=◌}
use libstreetpass.Tins.{Tins}
use libstreetpass.Tins.Streams.{read_or_throw, buffer}
use libstreetpass.Cec.Filter.{Filter}

-- The packed struct key_filter, an array of 8 bytes.
pub record KeyFilter : Type 0 where
  pub key : List ℕ

-- The constructor and the setter: memcpy of the 8 bytes of the std::array `k`.
unfoldable pub new_key_filter : List ℕ → KeyFilter
new_key_filter k = record { key = k }

unfoldable pub byte_size : KeyFilter → ℕ
byte_size f = 8

unfoldable pub match : KeyFilter → KeyFilter → Result Bool
match own other = ok true

module _ (t : Tins) where
  open t use {Input, output, write}

  unfoldable pub from_stream : Input → Result (KeyFilter × Input)
  from_stream s = do (bs, s') ← read_or_throw t "bad key filter" 8 s; ok (record { key = bs }, s')

  unfoldable pub to_bytes : KeyFilter → Result (List ℕ)
  to_bytes f = do o ← write (output (replicate 8 0)) f.key; ok (buffer t o)

  abbrev pub key_filter : Filter t KeyFilter
  key_filter = record {
    format = record { from_stream = from_stream; byte_size = byte_size; to_bytes = to_bytes };
    marker = 0xF;
    match = match;
  }
