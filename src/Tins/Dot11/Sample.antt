-- ===== src/Tins/Dot11/Sample.antt =====
-- Frames for runs: a request is the address of its sender and the contents of a vendor element.
use libstreetpass.Prelude.{ℕ, List, [], ◌∷◌, same, take, drop}
use libstreetpass.Prelude.Result.{ok}
use libstreetpass.Tins.Dot11.{Dot11, ProbeRequest}

abbrev broadcast : List ℕ
broadcast = 255 ∷ 255 ∷ 255 ∷ 255 ∷ 255 ∷ 255 ∷ []

-- With the given SSID and OUI.
abbrev pub sample_probereq : List ℕ → List ℕ → List ℕ → ProbeRequest
sample_probereq ssid oui frame = record {
  addr1 = broadcast;
  addr2 = take 6 frame;
  ssid = ok ssid;
  vendor_specific = ok (oui, drop 6 frame);
}

abbrev pub sample_dot11 : List ℕ → List ℕ → Dot11
sample_dot11 ssid oui = record {
  parse_probereq = λ frame. ok (sample_probereq ssid oui frame);
  is_broadcast = same broadcast;
  management = 0;
  probe_req = 4;
  ProbeResponse = Unit {0};
  new_proberesp = λ peer own. tt;
  set_ssid = λ r x. r;
  set_supported_rates = λ r x. r;
  set_extended_supported_rates = λ r x. r;
  set_ds_parameter_set = λ r x. r;
  set_ibss_parameter_set = λ r x. r;
  set_vendor_specific = λ r x. r;
}
