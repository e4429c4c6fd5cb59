-- ===== src/Iface/Streetpass/Response.antt =====
-- make_initial_proberesp of src/iface/streetpass.cpp.
use libstreetpass.Prelude.{ℕ, List}
use libstreetpass.Prelude.State.{pure, lift, ◌>>=◌}
use libstreetpass.Libnl.{Libnl}
use libstreetpass.Os.{Os}
use libstreetpass.Tins.{Tins}
use libstreetpass.Tins.Dot11.{Dot11}
use libstreetpass.Cec.ModuleFilter.{ModuleFilter}
use libstreetpass.Iface.Streetpass.{
  ssid, oui, supported_rates, ext_supported_rates, vendor_specific_data,
}
use libstreetpass.Iface.Virtual.{VirtualInterface, get_mac_addr}
use libstreetpass.Iface.World.{W}

module _ (nl : Libnl) (os : Os) (t : Tins) (d : Dot11) where
  -- The setters, from the constructor to the parameter sets.
  unfoldable pub proberesp_to : List ℕ → List ℕ → d.ProbeResponse
  proberesp_to peer_addr own_addr =
      let r = d.set_ssid (d.new_proberesp peer_addr own_addr) ssid in
      let r₁ = d.set_supported_rates r supported_rates in
      let r₂ = d.set_extended_supported_rates r₁ ext_supported_rates in
      d.set_ibss_parameter_set (d.set_ds_parameter_set r₂ 1) 0

  unfoldable pub make_initial_proberesp :
      VirtualInterface → List ℕ → ModuleFilter → W nl os d.ProbeResponse
  make_initial_proberesp v peer_addr f = do
    own_addr ← get_mac_addr nl os v
    contents ← lift (vendor_specific_data t f)
    pure (d.set_vendor_specific (proberesp_to peer_addr own_addr) (oui, contents))
