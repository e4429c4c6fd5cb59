-- ===== src/Ioctl/Device.antt =====
-- What the calls of ioctl leave of a device: whether it is up, its other flags, its address.
use Prim.Native.Nat.{bit_and, bit_or}
use libstreetpass.Prelude.{
  ℕ, ◌-◌, ◌/◌, ◌%◌, ◌^◌, ◌*◌, ◌<◌, ◌≡◌, refl, sym, ap, ◌∙◌, List, ◌++◌, ◌==◌, true, false, not,
  length, replicate, take-length_append, length-append, length-replicate, arith,
}
use libstreetpass.Prelude.Bits.{bit_or-one, bit_and-one, bit_and-not_one}
use libstreetpass.Prelude.Result.{Result, ok}
use libstreetpass.Prelude.State.{pure, >>=-eq-ok}
use libstreetpass.Prelude.State
use libstreetpass.Os.{Os, Reply, done, failed}
use libstreetpass.Ioctl
use libstreetpass.Ioctl.{
  ifr_name, get_interface_flags, set_interface_flags, is_interface_up, set_interface_up,
  set_interface_down, get_interface_hwaddr, set_interface_hwaddr,
}

module _ (os : Os) where
  open os use {Kernel}

  or_system_error-eq-ok :
      {A : Type 0} (r : Reply A) (a : A) → Ioctl.or_system_error os r ≡ ok a → r ≡ done a
  unfolding Ioctl.or_system_error
  or_system_error-eq-ok (done x) a h = cc
  or_system_error-eq-ok (failed e) a h = cc

  changed-eq-ok :
      (r : Reply Kernel) (k k' : Kernel) → Ioctl.changed os k r ≡ (ok tt, k') → r ≡ done k'
  unfolding Ioctl.changed
  changed-eq-ok (done x) k k' h = cc
  changed-eq-ok (failed e) k k' h = cc

  -- A change of the flags that returns has read a word, written what `f` makes of it, and left the
  -- device as up as that word says.
  flags_changed :
      (f : ℕ → ℕ) (name : List ℕ) (k k' : Kernel)
      → (State.◌>>=◌ (get_interface_flags os name) λ flags. set_interface_flags os name (f flags)) k
        ≡ (ok tt, k')
      → (flags : ℕ) × (flags' : ℕ) × (flags < 2 ^ 16)
        × (get_interface_flags os name k ≡ (ok flags, k))
        × (os.set_flags k (ifr_name os name) (f flags) ≡ done k')
        × (get_interface_flags os name k' ≡ (ok flags', k'))
        × (flags' % 2 ≡ f flags % 2)
  unfolding get_interface_flags set_interface_flags Ioctl.or_system_error
  flags_changed f name k k' h =
      let (flags, t, e, h₁) =
        >>=-eq-ok (get_interface_flags os name) (λ flags. set_interface_flags os name (f flags)) k
          k' tt h in
      let same : k ≡ t = ap (λ (x : Result ℕ × Kernel). x.1) e in
      let got =
        or_system_error-eq-ok (os.get_flags k (ifr_name os name)) flags
          (ap (λ (x : Result ℕ × Kernel). x.0) e) in
      let put =
        changed-eq-ok (os.set_flags k (ifr_name os name) (f flags)) k k' (rw (← same) at h₁) in
      let (flags', e', low) = os.get_flags-set_flags k k' (ifr_name os name) (f flags) put in
      (
        flags,
        flags',
        os.get_flags-lt k (ifr_name os name) flags got,
        rw got refl,
        put,
        rw e' refl,
        low,
      )

  is_up_of_flags :
      (name : List ℕ) (k : Kernel) (flags : ℕ)
      → get_interface_flags os name k ≡ (ok flags, k)
      → is_interface_up os name k ≡ (ok (not (flags % 2 == 0)), k)
  unfolding is_interface_up State.◌>>=◌ State.continue_with
  is_up_of_flags name k flags e = rw (e, os.iff_up-eq-one, bit_and-one flags) refl

  -- Where it returns, a device is up, and the word that was set has all the other flags as they
  -- were read.
  pub set_interface_up_lem :
      (name : List ℕ) (k k' : Kernel)
      → set_interface_up os name k ≡ (ok tt, k')
      → (is_interface_up os name k' ≡ (ok true, k'))
        × (flags : ℕ) × (word : ℕ) × (get_interface_flags os name k ≡ (ok flags, k))
        × (os.set_flags k (ifr_name os name) word ≡ done k')
        × (word / 2 ≡ flags / 2)
  unfolding set_interface_up
  set_interface_up_lem name k k' h =
      let (flags, flags', small, read, put, read', low) =
        flags_changed (λ flags. bit_or flags os.iff_up) name k k' h in
      let word : bit_or flags os.iff_up ≡ bit_or flags 1 = ap (bit_or flags) os.iff_up-eq-one in
      let (set, kept) = bit_or-one flags in
      let up : flags' % 2 ≡ 1 = low ∙ ap (λ (w : ℕ). w % 2) word ∙ set in
      (
        is_up_of_flags name k' flags' read' ∙ rw up refl,
        flags,
        bit_or flags os.iff_up,
        read,
        put,
        ap (λ (w : ℕ). w / 2) word ∙ kept,
      )

  -- Where it returns, a device is down, and the word that was set has all the other flags as they
  -- were read.
  pub set_interface_down_lem :
      (name : List ℕ) (k k' : Kernel)
      → set_interface_down os name k ≡ (ok tt, k')
      → (is_interface_up os name k' ≡ (ok false, k'))
        × (flags : ℕ) × (word : ℕ) × (get_interface_flags os name k ≡ (ok flags, k))
        × (os.set_flags k (ifr_name os name) word ≡ done k')
        × (word / 2 ≡ flags / 2)
  unfolding set_interface_down
  set_interface_down_lem name k k' h =
      let (flags, flags', small, read, put, read', low) =
        flags_changed (λ flags. bit_and flags (2 ^ 16 - 1 - os.iff_up)) name k k' h in
      let word : bit_and flags (2 ^ 16 - 1 - os.iff_up) ≡ flags / 2 * 2 =
        ap (λ (up : ℕ). bit_and flags (2 ^ 16 - 1 - up)) os.iff_up-eq-one
        ∙ bit_and-not_one flags small in
      let down : flags' % 2 ≡ 0 = low ∙ ap (λ (w : ℕ). w % 2) word ∙ omega arith in
      (
        is_up_of_flags name k' flags' read' ∙ rw down refl,
        flags,
        bit_and flags (2 ^ 16 - 1 - os.iff_up),
        read,
        put,
        ap (λ (w : ℕ). w / 2) word ∙ omega arith,
      )

  -- An address of six bytes that was set is the one that is read.
  pub get_interface_hwaddr-set :
      (name addr : List ℕ) (k k' : Kernel)
      → length addr ≡ 6
      → set_interface_hwaddr os name addr k ≡ (ok tt, k')
      → get_interface_hwaddr os name k' ≡ (ok addr, k')
  unfolding set_interface_hwaddr get_interface_hwaddr Ioctl.or_system_error State.◌>>=◌
      State.continue_with
  get_interface_hwaddr-set name addr k k' six h =
      let sa_data : List ℕ = addr ++ replicate (14 - length addr) 0 in
      let put = changed-eq-ok (os.set_hwaddr k (ifr_name os name) os.arphrd_ether sa_data) k k' h in
      let fourteen : length sa_data ≡ 14 = omega (
        arith,
        length-append addr (replicate (14 - length addr) 0),
        length-replicate {A = ℕ} (14 - length addr) 0,
      ) in
      let (address', e, same) =
        os.get_hwaddr-set_hwaddr k k' (ifr_name os name) sa_data fourteen put in
      let front = take-length_append 6 addr (replicate (14 - length addr) 0) (sym six) in
      rw e (ap (λ (a : List ℕ). (ok a, k')) (same ∙ front))
