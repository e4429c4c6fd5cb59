-- ===== src/Cec/Mve.antt =====
-- ModuleFilter::TitleFilter::MVE of include/cec/module_filter.hpp and src/cec/module_filter.cpp.
pub mod Getters
pub mod Wire
use libstreetpass.Prelude.{ℕ, List, [], ◌∷◌, Bool, ◌&&◌, ◌==◌, get_or, replicate}
use libstreetpass.Prelude.Result.{Result, ok, ◌>>=◌}
use libstreetpass.Tins.{Tins}
use libstreetpass.Tins.Streams.{read_or_throw, buffer}
use libstreetpass.Cec.Filter.{Format}
use Prim.Native.Nat.{bit_and}

pub record Mve : Type 0 where
  pub mask : ℕ
  pub value : ℕ
  pub expectation : ℕ

-- The packed struct title_filter_mve.
unfoldable pub struct_bytes : Mve → List ℕ
struct_bytes m = m.mask ∷ m.value ∷ m.expectation ∷ []

unfoldable pub to_struct : List ℕ → Mve
to_struct bs = record { mask = get_or bs 0 0; value = get_or bs 1 0; expectation = get_or bs 2 0 }

abbrev pub fixed_byte_size : ℕ
fixed_byte_size = 3

unfoldable pub byte_size : Mve → ℕ
byte_size m = fixed_byte_size

unfoldable pub set_mask : Mve → ℕ → Mve
set_mask mve m = record mve { mask = m }

unfoldable pub set_value : Mve → ℕ → Mve
set_value mve v = record mve { value = v }

unfoldable pub set_expectation : Mve → ℕ → Mve
set_expectation mve e = record mve { expectation = e }

-- The constructor. `memory` is what the members held before; all of them are set.
unfoldable pub new_mve : Mve → ℕ → ℕ → ℕ → Mve
unfolding set_mask set_value set_expectation
new_mve memory m v e = set_expectation (set_value (set_mask memory m) v) e

unfoldable pub match : Mve → Mve → Bool
match own other =
    (bit_and own.mask own.expectation == bit_and own.mask other.value)
    && (bit_and other.mask other.expectation == bit_and other.mask own.value)

module _ (t : Tins) where
  open t use {Input, output, write}

  unfoldable pub from_stream : Input → Result (Mve × Input)
  unfolding to_struct
  from_stream s = do (bs, s') ← read_or_throw t "bad mve" 3 s; ok (to_struct bs, s')

  unfoldable pub to_bytes : Mve → Result (List ℕ)
  unfolding struct_bytes
  to_bytes m = do o ← write (output (replicate 3 0)) (struct_bytes m); ok (buffer t o)

  abbrev pub mve_format : Format t Mve
  mve_format = record { from_stream = from_stream; byte_size = byte_size; to_bytes = to_bytes }
