-- ===== src/Os.antt =====
-- What the code calls of Linux besides libnl, as parameters with the behaviour that netdevice(7)
-- documents. `Kernel` is the state of the network devices; a device is named by the 16 bytes of an
-- ifr_name. A flag word is a uint16_t, the bits of the `short` of the code.
pub mod Sample
use libstreetpass.Prelude.{ℕ, ◌%◌, ◌^◌, ◌<◌, ◌≡◌, List, Option, length, take}

-- What a call of ioctl returns: its answer, or -1 with this errno.
pub data Reply (A : Type 0) : Type 0 where
  done : A → Reply A
  failed : ℕ → Reply A

pub record Os : Type 1 where
  pub Kernel : Type 0
  -- The errno of socket(PF_INET, SOCK_DGRAM, 0), if it fails.
  pub socket_failure : Kernel → Option ℕ
  -- SIOCGIFFLAGS, SIOCSIFFLAGS, SIOCGIFHWADDR, SIOCSIFHWADDR (with a family) and SIOCGIFINDEX.
  pub get_flags : Kernel → List ℕ → Reply ℕ
  pub set_flags : Kernel → List ℕ → ℕ → Reply Kernel
  pub get_hwaddr : Kernel → List ℕ → Reply (List ℕ)
  pub set_hwaddr : Kernel → List ℕ → ℕ → List ℕ → Reply Kernel
  pub get_index : Kernel → List ℕ → Reply ℕ
  -- Constants of net/if.h and net/if_arp.h.
  pub iff_up : ℕ
  pub iff_up-eq-one : iff_up ≡ 1
  pub ifnamsiz : ℕ
  pub arphrd_ether : ℕ
  pub get_flags-lt :
      (k : Kernel) (name : List ℕ) (flags : ℕ) → get_flags k name ≡ done flags → flags < 2 ^ 16
  -- The flag word that is set decides whether the device is up.
  pub get_flags-set_flags :
      (k k' : Kernel) (name : List ℕ) (flags : ℕ)
      → set_flags k name flags ≡ done k'
      → (flags' : ℕ) × (get_flags k' name ≡ done flags') × (flags' % 2 ≡ flags % 2)
  -- sa_data has fourteen bytes, of which an Ethernet address takes six.
  pub length-get_hwaddr :
      (k : Kernel) (name address : List ℕ) → get_hwaddr k name ≡ done address → length address ≡ 14
  pub get_hwaddr-set_hwaddr :
      (k k' : Kernel) (name address : List ℕ)
      → length address ≡ 14
      → set_hwaddr k name arphrd_ether address ≡ done k'
      → (address' : List ℕ) × (get_hwaddr k' name ≡ done address')
        × (take 6 address' ≡ take 6 address)
