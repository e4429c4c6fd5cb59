-- ===== src/Cec/RawBytes/Parsed.antt =====
-- Matching raw bytes filters that RawBytesFilter::from_stream of src/cec/module_filter.cpp returned.
use libstreetpass.Prelude.{ℕ, List, []}
use libstreetpass.Prelude.Result.{Result, ok}
use libstreetpass.Tins.{Tins}

abbrev bytes_of : Result (List ℕ) → List ℕ
bytes_of (ok bs) = bs
bytes_of r = []
