-- ===== src/Iface/Physical/Support.antt =====
-- Which interfaces PhysicalInterface::is_supported accepts.
use libstreetpass.Prelude.{◌≡◌, ◌&&◌, refl, Bool, true, false, not}
use libstreetpass.Prelude.Result.{Exception, ok, unsupported, throw_if, ◌>>◌}
use libstreetpass.Libnl.{Libnl}
use libstreetpass.Nl80211.Commands.Parse.{contains}
use libstreetpass.Iface.Physical
use libstreetpass.Iface.Physical.{
  PhysicalInterface, cipher_ccmp_128, check_supported, is_supported, check_cmds, required_cmds,
}

-- A chain of six checks, of which the first that fails is caught.
caught_chain :
    (nl : Libnl) (a b c d e f : Bool) (x₁ x₂ x₃ x₄ x₅ x₆ : Exception)
    → Physical.caught nl (
        throw_if (not a) x₁
        >> (throw_if (not b) x₂
            >> (throw_if (not c) x₃ >> (throw_if (not d) x₄ >> (throw_if (not e) x₅ >> ok tt))))
        >> throw_if (not f) x₆)
      ≡ ok (a && (b && (c && (d && (e && f)))))
unfolding Physical.caught
caught_chain nl false b c d e f x₁ x₂ x₃ x₄ x₅ x₆ = refl
caught_chain nl true false c d e f x₁ x₂ x₃ x₄ x₅ x₆ = refl
caught_chain nl true true false d e f x₁ x₂ x₃ x₄ x₅ x₆ = refl
caught_chain nl true true true false e f x₁ x₂ x₃ x₄ x₅ x₆ = refl
caught_chain nl true true true true false f x₁ x₂ x₃ x₄ x₅ x₆ = refl
caught_chain nl true true true true true false x₁ x₂ x₃ x₄ x₅ x₆ = refl
caught_chain nl true true true true true true x₁ x₂ x₃ x₄ x₅ x₆ = refl

-- The question never throws: its answer is whether the interface has the ad-hoc mode, the four
-- commands and the CCMP-128 cipher.
pub is_supported_lem :
    (nl : Libnl) (p : PhysicalInterface)
    → is_supported nl p
      ≡ ok (
          contains nl.iftype_adhoc p.supported_iftypes
          && (contains nl.cmd_new_interface p.supported_cmds
              && (contains nl.cmd_new_key p.supported_cmds
                  && (contains nl.cmd_join_ibss p.supported_cmds
                      && (contains nl.cmd_frame p.supported_cmds
                          && contains cipher_ccmp_128 p.supported_ciphers)))))
unfolding is_supported check_supported check_cmds required_cmds
is_supported_lem nl p =
    caught_chain nl (contains nl.iftype_adhoc p.supported_iftypes)
      (contains nl.cmd_new_interface p.supported_cmds) (contains nl.cmd_new_key p.supported_cmds)
      (contains nl.cmd_join_ibss p.supported_cmds) (contains nl.cmd_frame p.supported_cmds)
      (contains cipher_ccmp_128 p.supported_ciphers)
      (unsupported "Interface does not support adhoc mode")
      (unsupported "Interface does not support creating new virtual interfaces")
      (unsupported "Interface does not support adding new crypto keys")
      (unsupported "Interface does not support joining IBSS")
      (unsupported "Interface does not support sending custom frames")
      (unsupported "Interface does not support AES-CCMP-128 cipher")
