-- ===== src/Iface/Virtual.antt =====
-- VirtualInterface of include/iface/virtual.hpp and src/iface/virtual.cpp.
pub mod Power
use libstreetpass.Prelude.{ℕ, ◌-◌, ◌^◌, List, Bool, take}
use libstreetpass.Prelude.State.{pure, ◌>>=◌, ◌>>◌}
use libstreetpass.Libnl.{Libnl}
use libstreetpass.Nl80211.Commands.{get_interface}
use libstreetpass.Nl80211.Commands.Parse.{Wiface}
use libstreetpass.Os.{Os}
use libstreetpass.Ioctl
use libstreetpass.Iface.World.{W, with_socket, on_kernel}

pub record VirtualInterface : Type 0 where
  pub index : ℕ

-- `m_index(-1)`, in a uint32_t.
unfoldable pub no_interface : VirtualInterface
no_interface = record { index = 2 ^ 32 - 1 }

unfoldable pub new_virtual_interface : ℕ → VirtualInterface
new_virtual_interface index = record { index = index }

module _ (nl : Libnl) (os : Os) where
  unfoldable pub get_all_info : ℕ → W nl os Wiface
  get_all_info index = with_socket nl os (get_interface nl index)

  -- An HWAddress<6> takes the six bytes of the array.
  unfoldable pub get_mac_addr : VirtualInterface → W nl os (List ℕ)
  get_mac_addr v = do info ← get_all_info v.index; pure (take 6 info.mac)

  unfoldable pub get_name : VirtualInterface → W nl os (List ℕ)
  get_name v = do info ← get_all_info v.index; pure info.name

  unfoldable pub is_up : VirtualInterface → W nl os Bool
  is_up v = do
    on_kernel nl os (Ioctl.new_socket os)
    name ← get_name v
    on_kernel nl os (Ioctl.is_interface_up os name)

  unfoldable pub up : VirtualInterface → W nl os (Unit {0})
  up v = do
    on_kernel nl os (Ioctl.new_socket os)
    name ← get_name v
    on_kernel nl os (Ioctl.set_interface_up os name)

  unfoldable pub down : VirtualInterface → W nl os (Unit {0})
  down v = do
    on_kernel nl os (Ioctl.new_socket os)
    name ← get_name v
    on_kernel nl os (Ioctl.set_interface_down os name)
