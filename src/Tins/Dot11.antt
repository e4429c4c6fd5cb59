-- ===== src/Tins/Dot11.antt =====
-- What the code calls of the 802.11 frames of libtins (tins/dot11). They are parameters of the
-- models. An HWAddress is the list of its bytes, a rate is counted in steps of 500 kb/s.
pub mod Sample
use libstreetpass.Prelude.{ℕ, List, Bool}
use libstreetpass.Prelude.Result.{Result}

-- What the members of a Dot11ProbeRequest answer: two addresses, the SSID and the first vendor
-- element, its OUI and its contents. The last two throw where the frame has no such element.
pub record ProbeRequest : Type 0 where
  pub addr1 : List ℕ
  pub addr2 : List ℕ
  pub ssid : Result (List ℕ)
  pub vendor_specific : Result (List ℕ × List ℕ)

pub record Dot11 : Type 1 where
  -- The constructor that parses a frame.
  pub parse_probereq : List ℕ → Result ProbeRequest
  pub is_broadcast : List ℕ → Bool
  -- Dot11::MANAGEMENT and Dot11::PROBE_REQ.
  pub management : ℕ
  pub probe_req : ℕ
  -- Dot11ProbeResponse: its constructor, from the addresses of the peer and of the sender, and its
  -- setters.
  pub ProbeResponse : Type 0
  pub new_proberesp : List ℕ → List ℕ → ProbeResponse
  pub set_ssid : ProbeResponse → List ℕ → ProbeResponse
  pub set_supported_rates : ProbeResponse → List ℕ → ProbeResponse
  pub set_extended_supported_rates : ProbeResponse → List ℕ → ProbeResponse
  pub set_ds_parameter_set : ProbeResponse → ℕ → ProbeResponse
  pub set_ibss_parameter_set : ProbeResponse → ℕ → ProbeResponse
  pub set_vendor_specific : ProbeResponse → List ℕ × List ℕ → ProbeResponse
