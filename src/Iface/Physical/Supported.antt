-- ===== src/Iface/Physical/Supported.antt =====
-- What PhysicalInterface::find_all_supported of src/iface/physical.cpp keeps of find_all.
use libstreetpass.Prelude.{◌≡◌, refl, List, [], ◌∷◌, Bool, ◌&&◌, if◌then◌else◌}
use libstreetpass.Prelude.Result.{Result, ok, throws, undefined, stuck, ◌>>=◌}
use libstreetpass.Prelude.State
use libstreetpass.Libnl.{Libnl}
use libstreetpass.Nl80211.Commands.Parse.{contains}
use libstreetpass.Os.{Os}
use libstreetpass.Iface.Physical.{PhysicalInterface, cipher_ccmp_128}
use libstreetpass.Iface.Physical.Discovery.{keep_supported, find_all, find_all_supported}
use libstreetpass.Iface.Physical.Support.{is_supported_lem}
use libstreetpass.Iface.World.{World}

-- The ad-hoc mode, the four commands and the cipher.
abbrev pub able : Libnl → PhysicalInterface → Bool
able nl p =
    contains nl.iftype_adhoc p.supported_iftypes
    && (contains nl.cmd_new_interface p.supported_cmds
        && (contains nl.cmd_new_key p.supported_cmds
            && (contains nl.cmd_join_ibss p.supported_cmds
                && (contains nl.cmd_frame p.supported_cmds
                    && contains cipher_ccmp_128 p.supported_ciphers))))

abbrev pub able_only : Libnl → List PhysicalInterface → List PhysicalInterface
able_only nl [] = []
able_only nl (p ∷ ps) = if able nl p then p ∷ able_only nl ps else able_only nl ps

keep_supported_lem :
    (nl : Libnl) (ps : List PhysicalInterface) → keep_supported nl ps ≡ ok (able_only nl ps)
unfolding keep_supported
keep_supported_lem nl [] = refl
keep_supported_lem nl (p ∷ ps) = rw (is_supported_lem nl p, keep_supported_lem nl ps) refl

-- It fails only where find_all does, and gives what find_all gives less the interfaces without the
-- ad-hoc mode, one of the four commands or the cipher, in the same order.
pub find_all_supported_lem :
    (nl : Libnl) (os : Os) (w : World nl os)
    → find_all_supported nl os w
      ≡ ((find_all nl os w).0 >>= λ ps. ok (able_only nl ps), (find_all nl os w).1)
unfolding find_all_supported State.◌>>=◌ State.continue_with
find_all_supported_lem nl os w = of (find_all nl os w).0 (find_all nl os w).1
  where
    of :
        (r : Result (List PhysicalInterface)) (w' : World nl os)
        → State.continue_with (λ found. State.lift (keep_supported nl found)) r w'
          ≡ (r >>= λ ps. ok (able_only nl ps), w')
    of (ok ps) w' = rw (keep_supported_lem nl ps) refl
    of (throws e) w' = refl
    of undefined w' = refl
    of stuck w' = refl
