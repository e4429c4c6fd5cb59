-- ===== src/Cec/Mve/Getters.antt =====
-- The getters of MVE in src/cec/module_filter.cpp.
use libstreetpass.Prelude.{ℕ}
use libstreetpass.Cec.Mve.{Mve}

unfoldable pub mask : Mve → ℕ
mask mve = mve.mask

unfoldable pub value : Mve → ℕ
value mve = mve.value

unfoldable pub expectation : Mve → ℕ
expectation mve = mve.expectation
