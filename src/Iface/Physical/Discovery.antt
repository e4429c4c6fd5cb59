-- ===== src/Iface/Physical/Discovery.antt =====
-- The operations of PhysicalInterface in src/iface/physical.cpp that ask the kernel.
use libstreetpass.Prelude.{ℕ, List, [], ◌∷◌, map, if◌then◌else◌}
use libstreetpass.Prelude.Result.{Result, ok}
use libstreetpass.Prelude.Result
use libstreetpass.Prelude.State.{pure, lift, ◌>>=◌}
use libstreetpass.Libnl.{Libnl}
use libstreetpass.Nl80211.Commands.{get_wiphy, get_wiphy_list, get_interface_list}
use libstreetpass.Nl80211.Commands.Parse.{Wiface, Wiphy}
use libstreetpass.Os.{Os}
use libstreetpass.Iface.Physical.{PhysicalInterface, new_physical_interface, is_supported}
use libstreetpass.Iface.Virtual.{VirtualInterface, new_virtual_interface}
use libstreetpass.Iface.World.{W, with_socket}

-- remove_if and erase, over `!x.is_supported()`.
unfoldable pub keep_supported : Libnl → List PhysicalInterface → Result (List PhysicalInterface)
keep_supported nl [] = ok []
keep_supported nl (p ∷ ps) = Result.◌>>=◌ (is_supported nl p) λ supported.
    Result.◌>>=◌ (keep_supported nl ps) λ rest. ok (if supported then p ∷ rest else rest)

module _ (nl : Libnl) (os : Os) where
  unfoldable pub get_all_info : ℕ → W nl os Wiphy
  get_all_info index = with_socket nl os (get_wiphy nl index)

  -- The constructor from an index.
  unfoldable pub physical_interface_at : ℕ → W nl os PhysicalInterface
  physical_interface_at index = do info ← get_all_info index; pure (new_physical_interface info)

  unfoldable pub get_name : PhysicalInterface → W nl os (List ℕ)
  get_name p = do info ← get_all_info p.index; pure info.name

  -- `memory` is what the `wiface` of each answer held.
  unfoldable pub find_all_virtual : Wiface → PhysicalInterface → W nl os (List VirtualInterface)
  find_all_virtual memory p = do
    wifaces ← with_socket nl os (get_interface_list nl memory p.index)
    pure (map (λ (x : Wiface). new_virtual_interface x.index) wifaces)

  unfoldable pub find_all : W nl os (List PhysicalInterface)
  find_all = do
    wiphys ← with_socket nl os (get_wiphy_list nl)
    pure (map new_physical_interface wiphys)

  unfoldable pub find_all_supported : W nl os (List PhysicalInterface)
  unfolding keep_supported
  find_all_supported = do found ← find_all; lift (keep_supported nl found)
