-- ===== src/Iface/Streetpass.antt =====
-- StreetpassInterface of include/iface/streetpass.hpp and src/iface/streetpass.cpp: its constants
-- and what it makes of frames.
pub mod Scan
pub mod Response
pub mod Create
mod Examples
use libstreetpass.Prelude.{
  ℕ, List, [], ◌∷◌, ◌==◌, Bool, true, false, Option, none, some, same, if◌then◌else◌,
}
use libstreetpass.Prelude.Result.{Result, ok, throws, option_not_found, ◌>>=◌}
use libstreetpass.Tins.{Tins}
use libstreetpass.Tins.Dot11.{Dot11, ProbeRequest}
use libstreetpass.Cec.ModuleFilter.{ModuleFilter}
use libstreetpass.Cec.ModuleFilter

-- "Nintendo_3DS_continuous_scan_000".
abbrev pub ssid : List ℕ
ssid =
    78 ∷ 105 ∷ 110 ∷ 116 ∷ 101 ∷ 110 ∷ 100 ∷ 111 ∷ 95 ∷ 51 ∷ 68 ∷ 83 ∷ 95 ∷ 99 ∷ 111 ∷ 110 ∷ 116
    ∷ 105 ∷ 110 ∷ 117 ∷ 111 ∷ 117 ∷ 115 ∷ 95 ∷ 115 ∷ 99 ∷ 97 ∷ 110 ∷ 95 ∷ 48 ∷ 48 ∷ 48 ∷ []

-- 00:1f:32.
abbrev pub oui : List ℕ
oui = 0x00 ∷ 0x1F ∷ 0x32 ∷ []

-- 1, 2, 5.5, 6, 9, 11, 12 and 18 Mb/s; 24, 36, 48 and 54 Mb/s.
abbrev pub supported_rates : List ℕ
supported_rates = 2 ∷ 4 ∷ 11 ∷ 12 ∷ 18 ∷ 22 ∷ 24 ∷ 36 ∷ []

abbrev pub ext_supported_rates : List ℕ
ext_supported_rates = 48 ∷ 72 ∷ 96 ∷ 108 ∷ []

abbrev pub channel_freq : ℕ
channel_freq = 2412

-- `catch (Tins::option_not_found&) { return false; }`
unfoldable pub catch_not_found : Result Bool → Result Bool
catch_not_found (throws option_not_found) = ok false
catch_not_found r = r

-- The contents of a vendor element after its first byte, which has to be 0x01. Where nothing
-- follows it, the code takes the address of the end by operator[], and nothing is read there.
unfoldable pub module_filter_bytes : List ℕ → Option (List ℕ)
module_filter_bytes [] = none
module_filter_bytes (b ∷ bs) = if b == 0x01 then some bs else none

-- `bytes(module_filter)` with 0x01 put in front.
unfoldable pub vendor_specific_data : Tins → ModuleFilter → Result (List ℕ)
vendor_specific_data t f = do bs ← ModuleFilter.to_bytes t f; ok (0x01 ∷ bs)

module _ (d : Dot11) where
  unfoldable pub is_streetpass_scan_probereq : ProbeRequest → Result Bool
  unfolding catch_not_found
  is_streetpass_scan_probereq probereq = catch_not_found (do
    (vendor_oui, contents) ← probereq.vendor_specific
    if same vendor_oui oui
        then if d.is_broadcast probereq.addr1
          then (probereq.ssid >>= λ probed. ok (same probed ssid))
          else ok false
        else ok false)
