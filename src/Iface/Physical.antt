-- ===== src/Iface/Physical.antt =====
-- PhysicalInterface of include/iface/physical.hpp and src/iface/physical.cpp.
pub mod Support
pub mod Discovery
pub mod Supported
pub mod Found
mod Examples
use Prim.Native.String.{String}
use libstreetpass.Prelude.{ℕ, List, [], ◌∷◌, ◌++◌, Bool, true, false, not, if◌then◌else◌}
use libstreetpass.Prelude.Result.{Result, ok, throws, undefined, stuck, unsupported, throw_if, ◌>>◌}
use libstreetpass.Libnl.{Libnl}
use libstreetpass.Nl80211.Commands.Parse.{Wiphy, contains}

pub record PhysicalInterface : Type 0 where
  pub index : ℕ
  pub supported_cmds : List ℕ
  pub supported_iftypes : List ℕ
  pub supported_ciphers : List ℕ

unfoldable pub new_physical_interface : Wiphy → PhysicalInterface
new_physical_interface w = record {
  index = w.index;
  supported_cmds = w.supported_cmds;
  supported_iftypes = w.supported_iftypes;
  supported_ciphers = w.supported_ciphers;
}

pub record CommandRequirement : Type 0 where
  pub cmd : ℕ
  pub error_msg : String

abbrev pub cipher_ccmp_128 : ℕ
cipher_ccmp_128 = 0x000fac04

-- The loop over `required_cmds`.
unfoldable pub check_cmds : List ℕ → List CommandRequirement → Result (Unit {0})
check_cmds supported [] = ok tt
check_cmds supported (req ∷ reqs) =
    throw_if (not (contains req.cmd supported)) (unsupported req.error_msg)
    >> check_cmds supported reqs

module _ (nl : Libnl) where
  unfoldable pub required_cmds : List CommandRequirement
  required_cmds =
      (record {
        cmd = nl.cmd_new_interface;
        error_msg = "Interface does not support creating new virtual interfaces";
      })
      ∷ (record {
        cmd = nl.cmd_new_key;
        error_msg = "Interface does not support adding new crypto keys";
      })
      ∷ (record { cmd = nl.cmd_join_ibss; error_msg = "Interface does not support joining IBSS" })
      ∷ (record {
        cmd = nl.cmd_frame;
        error_msg = "Interface does not support sending custom frames";
      })
      ∷ []

  unfoldable pub check_supported : PhysicalInterface → Result (Unit {0})
  unfolding required_cmds
  check_supported p =
      throw_if (not (contains nl.iftype_adhoc p.supported_iftypes))
        (unsupported "Interface does not support adhoc mode")
      >> check_cmds p.supported_cmds required_cmds
      >> throw_if (not (contains cipher_ccmp_128 p.supported_ciphers))
          (unsupported "Interface does not support AES-CCMP-128 cipher")

  -- `try { … } catch (...) { return false; } return true;`
  unfoldable pub caught : Result (Unit {0}) → Result Bool
  caught (ok u) = ok true
  caught (throws e) = ok false
  caught undefined = undefined
  caught stuck = stuck

  unfoldable pub is_supported : PhysicalInterface → Result Bool
  unfolding caught
  is_supported p = caught (check_supported p)
