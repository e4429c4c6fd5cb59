-- ===== src/Ioctl/Examples.antt =====
-- The calls of ioctl on a device.
use libstreetpass.Prelude.{ℕ, List, [], ◌∷◌, replicate}
use libstreetpass.Prelude.State
use libstreetpass.Os.Sample.{Device}
use libstreetpass.Ioctl.{ifr_name, get_interface_flags, is_interface_up, get_interface_hwaddr}
use libstreetpass.Ioctl

-- Opens the definitions that the runs compute with.
run : Unit {0}
unfolding State.continue_with State.◌>>=◌ Ioctl.or_system_error Ioctl.changed Ioctl.ifr_name
    Ioctl.get_interface_flags Ioctl.set_interface_flags Ioctl.is_interface_up Ioctl.set_interface_up
    Ioctl.set_interface_down Ioctl.get_interface_hwaddr Ioctl.set_interface_hwaddr
run = tt

-- "wlan0"
abbrev wlan : List ℕ
wlan = 119 ∷ 108 ∷ 97 ∷ 110 ∷ 48 ∷ []

abbrev device : ℕ → Device
device flags = record { flags = flags; address = replicate 14 0 }

abbrev mac : List ℕ
mac = 2 ∷ 0 ∷ 0 ∷ 0 ∷ 0 ∷ 1 ∷ []
