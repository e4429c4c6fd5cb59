-- ===== src/Iface/Streetpass/Create/Refused.antt =====
-- PhysicalInterface::setup_streetpass_interface of src/iface/physical.cpp on an interface that is
-- not supported.
use Prim.Native.String.{String}
use libstreetpass.Prelude.{◌≡◌, refl, List, ℕ, Bool, true, false, not, ◌&&◌}
use libstreetpass.Prelude.Result.{unsupported, throws, ok, throw_if, ◌>>◌}
use libstreetpass.Prelude.State
use libstreetpass.Libnl.{Libnl}
use libstreetpass.Nl80211.Commands.Parse.{Wiface, contains}
use libstreetpass.Os.{Os}
use libstreetpass.Iface.Physical.{
  PhysicalInterface, cipher_ccmp_128, check_supported, check_cmds, required_cmds,
}
use libstreetpass.Iface.Physical.Supported.{able}
use libstreetpass.Iface.Streetpass.Create.{setup_streetpass_interface}
use libstreetpass.Iface.World.{World}

-- A chain of six checks, one of which fails.
chain_throws :
    (a b c d e f : Bool) (x₁ x₂ x₃ x₄ x₅ x₆ : String)
    → (a && (b && (c && (d && (e && f))))) ≡ false
    → (text : String) × ((throw_if (not a) (unsupported x₁)
          >> (throw_if (not b) (unsupported x₂)
              >> (throw_if (not c) (unsupported x₃)
                  >> (throw_if (not d) (unsupported x₄)
                      >> (throw_if (not e) (unsupported x₅) >> ok tt))))
          >> throw_if (not f) (unsupported x₆))
        ≡ throws (unsupported text))
chain_throws false b c d e f x₁ x₂ x₃ x₄ x₅ x₆ h = (x₁, refl)
chain_throws true false c d e f x₁ x₂ x₃ x₄ x₅ x₆ h = (x₂, refl)
chain_throws true true false d e f x₁ x₂ x₃ x₄ x₅ x₆ h = (x₃, refl)
chain_throws true true true false e f x₁ x₂ x₃ x₄ x₅ x₆ h = (x₄, refl)
chain_throws true true true true false f x₁ x₂ x₃ x₄ x₅ x₆ h = (x₅, refl)
chain_throws true true true true true false x₁ x₂ x₃ x₄ x₅ x₆ h = (x₆, refl)
chain_throws true true true true true true x₁ x₂ x₃ x₄ x₅ x₆ h = cc

pub check_supported-throws :
    (nl : Libnl) (p : PhysicalInterface)
    → able nl p ≡ false
    → (text : String) × (check_supported nl p ≡ throws (unsupported text))
unfolding check_supported check_cmds required_cmds
check_supported-throws nl p h =
    chain_throws (contains nl.iftype_adhoc p.supported_iftypes)
      (contains nl.cmd_new_interface p.supported_cmds) (contains nl.cmd_new_key p.supported_cmds)
      (contains nl.cmd_join_ibss p.supported_cmds) (contains nl.cmd_frame p.supported_cmds)
      (contains cipher_ccmp_128 p.supported_ciphers) "Interface does not support adhoc mode"
      "Interface does not support creating new virtual interfaces"
      "Interface does not support adding new crypto keys" "Interface does not support joining IBSS"
      "Interface does not support sending custom frames"
      "Interface does not support AES-CCMP-128 cipher" h

-- An interface without the ad-hoc mode, one of the four commands or the cipher is refused with the
-- code's own exception before anything is done: no socket is opened, nothing is sent and no device
-- is switched off.
pub setup_streetpass_interface-unsupported :
    (nl : Libnl) (os : Os) (memory : Wiface) (p : PhysicalInterface) (name : List ℕ)
    (w : World nl os)
    → able nl p ≡ false
    → (text : String) × (setup_streetpass_interface nl os memory p name w
        ≡ (throws (unsupported text), w))
unfolding setup_streetpass_interface State.◌>>◌ State.◌>>=◌ State.continue_with
setup_streetpass_interface-unsupported nl os memory p name w h =
    let (text, e) = check_supported-throws nl p h in (text, rw e refl)
