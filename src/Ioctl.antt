-- ===== src/Ioctl.antt =====
-- include/iface/ioctl.hpp and src/iface/ioctl.cpp: flags and addresses of a device by ioctl. The
-- descriptor of the socket is not followed: it only reaches the kernel.
pub mod Device
mod Examples
use Prim.Native.Nat.{bit_and, bit_or}
use libstreetpass.Prelude.{
  ℕ, ◌-◌, ◌^◌, List, ◌++◌, ◌==◌, Bool, not, Option, none, some, length, take, replicate,
}
use libstreetpass.Prelude.Result.{Result, ok, throws, system_error}
use libstreetpass.Prelude.State.{pure, lift, ◌>>=◌}
use libstreetpass.Os.{Os, Reply, done, failed}

module _ (os : Os) where
  open os use {Kernel, ifnamsiz, iff_up}

  -- A call that the kernel answers.
  abbrev pub K : Type 0 → Type 0
  K A = Kernel → Result A × Kernel

  -- `if (ret < 0) throw std::system_error(errno, std::generic_category());`
  unfoldable pub or_system_error : {A : Type 0} → Reply A → Result A
  or_system_error (done a) = ok a
  or_system_error (failed errno) = throws (system_error errno)

  -- The same, for a call that changes the kernel's state.
  unfoldable pub changed : Kernel → Reply Kernel → Result (Unit {0}) × Kernel
  changed k (done k') = (ok tt, k')
  changed k (failed errno) = (throws (system_error errno), k)

  -- The constructor of the socket.
  unfoldable pub new_socket : K (Unit {0})
  new_socket k = elim (os.socket_failure k) [
    | none ↦ (ok tt, k)
    | some errno ↦ (throws (system_error errno), k)
  ]

  -- `if_name.copy(ifr.ifr_name, IFNAMSIZ - 1)` over an array of zeros.
  unfoldable pub ifr_name : List ℕ → List ℕ
  ifr_name if_name =
      let copied = take (ifnamsiz - 1) if_name in copied ++ replicate (ifnamsiz - length copied) 0

  unfoldable pub get_interface_flags : List ℕ → K ℕ
  unfolding or_system_error
  get_interface_flags if_name k = (or_system_error (os.get_flags k (ifr_name if_name)), k)

  unfoldable pub set_interface_flags : List ℕ → ℕ → K (Unit {0})
  unfolding changed
  set_interface_flags if_name flags k = changed k (os.set_flags k (ifr_name if_name) flags)

  unfoldable pub is_interface_up : List ℕ → K Bool
  is_interface_up if_name = do
    flags ← get_interface_flags if_name
    pure (not (bit_and flags iff_up == 0))

  unfoldable pub set_interface_up : List ℕ → K (Unit {0})
  set_interface_up if_name = do
    flags ← get_interface_flags if_name
    set_interface_flags if_name (bit_or flags iff_up)

  -- `~IFF_UP`, in the sixteen bits of the flags.
  unfoldable pub set_interface_down : List ℕ → K (Unit {0})
  set_interface_down if_name = do
    flags ← get_interface_flags if_name
    set_interface_flags if_name (bit_and flags (2 ^ 16 - 1 - iff_up))

  -- The first six of the fourteen bytes of sa_data.
  unfoldable pub get_interface_hwaddr : List ℕ → K (List ℕ)
  unfolding or_system_error
  get_interface_hwaddr if_name = do
    sa_data ← λ k. (or_system_error (os.get_hwaddr k (ifr_name if_name)), k)
    pure (take 6 sa_data)

  unfoldable pub set_interface_hwaddr : List ℕ → List ℕ → K (Unit {0})
  unfolding changed
  set_interface_hwaddr if_name addr k =
      changed k (
        os.set_hwaddr k (ifr_name if_name) os.arphrd_ether (addr ++ replicate (14 - length addr) 0))

  unfoldable pub get_interface_index : List ℕ → K ℕ
  unfolding or_system_error
  get_interface_index if_name k = (or_system_error (os.get_index k (ifr_name if_name)), k)
