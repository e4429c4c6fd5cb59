-- ===== src/Iface/Virtual/Power.antt =====
-- VirtualInterface::up and down of src/iface/virtual.cpp switch the device on and off.
use libstreetpass.Prelude.{◌≡◌, sym, ap, subst, ℕ, List, true, false, Option, none, some}
use libstreetpass.Prelude.Result.{Result, ok, throws, system_error}
use libstreetpass.Prelude.State.{>>=-eq-ok, >>-eq-ok}
use libstreetpass.Prelude.State
use libstreetpass.Libnl.{Libnl}
use libstreetpass.Os.{Os}
use libstreetpass.Ioctl.{K, is_interface_up, set_interface_up, set_interface_down}
use libstreetpass.Ioctl
use libstreetpass.Ioctl.Device.{set_interface_up_lem, set_interface_down_lem}
use libstreetpass.Iface.World.{World, on_kernel}
use libstreetpass.Iface.Virtual.{VirtualInterface, get_name, up, down}

module _ (nl : Libnl) (os : Os) where
  open os use {Kernel}

  on_kernel-eq-ok :
      {A : Type 0} (call : K os A) (w w' : World nl os) (a : A)
      → on_kernel nl os call w ≡ (ok a, w')
      → call w.kernel ≡ (ok a, w'.kernel)
  unfolding on_kernel
  on_kernel-eq-ok {A = A} call w w' a h = ap (λ (x : Result A × World nl os). (x.0, x.1.kernel)) h

  new_socket-eq-ok :
      (w w' : World nl os) (u : Unit {0})
      → on_kernel nl os (Ioctl.new_socket os) w ≡ (ok u, w')
      → w' ≡ w
  unfolding on_kernel Ioctl.new_socket
  new_socket-eq-ok w w' u h = of (os.socket_failure w.kernel) h
    where
      answer : Option ℕ → Result (Unit {0}) × Kernel
      answer o = elim o [
        | none ↦ (ok tt, w.kernel)
        | some errno ↦ (throws (system_error errno), w.kernel)
      ]

      of :
          (o : Option ℕ)
          → ◌≡◌ {A = Result (Unit {0}) × World nl os}
              ((answer o).0, record w { kernel = (answer o).1 })
              (ok u, w')
          → w' ≡ w
      of none e = sym (ap (λ (x : Result (Unit {0}) × World nl os). x.1) e)
      of (some errno) e = cc

  -- A change of the device of an interface that returns has asked for its name, and has made the
  -- change to the device of that name.
  changed_by_name :
      (call : List ℕ → K os (Unit {0})) (v : VirtualInterface) (w w' : World nl os)
      → (State.◌>>◌
            (on_kernel nl os (Ioctl.new_socket os))
            (State.◌>>=◌ (get_name nl os v) λ name. on_kernel nl os (call name)))
          w
        ≡ (ok tt, w')
      → (name : List ℕ) × (w₁ : World nl os) × (get_name nl os v w ≡ (ok name, w₁))
        × (call name w₁.kernel ≡ (ok tt, w'.kernel))
  changed_by_name call v w w' h =
      let (u, w₀, e, h₁) = >>-eq-ok (on_kernel nl os (Ioctl.new_socket os)) _ w w' tt h in
      let (name, w₁, e₁, h₂) =
        >>=-eq-ok (get_name nl os v) (λ name. on_kernel nl os (call name)) w₀ w' tt h₁ in
      (
        name,
        w₁,
        subst (λ (x : World nl os). get_name nl os v x ≡ (ok name, w₁)) (new_socket-eq-ok w w₀ u e)
            e₁,
        on_kernel-eq-ok (call name) w₁ w' tt h₂,
      )

  -- Where it returns, the kernel has told the name of the interface, and the device of that name is
  -- up.
  pub up_lem :
      (v : VirtualInterface) (w w' : World nl os)
      → up nl os v w ≡ (ok tt, w')
      → (name : List ℕ) × (w₁ : World nl os) × (get_name nl os v w ≡ (ok name, w₁))
        × (is_interface_up os name w'.kernel ≡ (ok true, w'.kernel))
  unfolding up
  up_lem v w w' h =
      let (name, w₁, e, h₁) = changed_by_name (set_interface_up os) v w w' h in
      (name, w₁, e, (set_interface_up_lem os name w₁.kernel w'.kernel h₁).0)

  -- Where it returns, the kernel has told the name of the interface, and the device of that name is
  -- down.
  pub down_lem :
      (v : VirtualInterface) (w w' : World nl os)
      → down nl os v w ≡ (ok tt, w')
      → (name : List ℕ) × (w₁ : World nl os) × (get_name nl os v w ≡ (ok name, w₁))
        × (is_interface_up os name w'.kernel ≡ (ok false, w'.kernel))
  unfolding down
  down_lem v w w' h =
      let (name, w₁, e, h₁) = changed_by_name (set_interface_down os) v w w' h in
      (name, w₁, e, (set_interface_down_lem os name w₁.kernel w'.kernel h₁).0)
