-- ===== src/Iface/Examples.antt =====
-- The properties of the interfaces at concrete ones.
use Prim.Native.String.{String}
use libstreetpass.Prelude.{ℕ, ◌≡◌, refl, List, [], ◌∷◌, true, map}
use libstreetpass.Prelude.Result.{ok, throws, unsupported, pos}
use libstreetpass.Libnl.{Header, u32, flag, bytes, text}
use libstreetpass.Libnl.Sample.{sample_nl, SampleAttr}
use libstreetpass.Nl80211.Commands.Parse.{Wiface, no_wiface}
use libstreetpass.Nl80211.Socket.{Socket, Opening, Batch, new_socket, valid, ack}
use libstreetpass.Nl80211.Socket
use libstreetpass.Os.Sample.{sample_os}
use libstreetpass.Ioctl.{is_interface_up}
use libstreetpass.Iface.Runs.{run}
use libstreetpass.Iface.Physical.{PhysicalInterface}
use libstreetpass.Iface.Streetpass.{ssid}
use libstreetpass.Iface.Streetpass.Create.{StreetpassInterface, setup_streetpass_interface}
use libstreetpass.Iface.Streetpass.Create.Sending.{asked}
use libstreetpass.Iface.Streetpass.Create.Joined.{
  Answers, setup_requests, new_streetpass_interface-setup_requests,
}
use libstreetpass.Iface.Streetpass.Create.Refused.{setup_streetpass_interface-unsupported}
use libstreetpass.Iface.Virtual.{VirtualInterface, new_virtual_interface, get_name}
use libstreetpass.Iface.Virtual.Power.{up_lem}
use libstreetpass.Iface.World.{World}

-- A card without the CCMP-128 cipher.
abbrev weak_card : PhysicalInterface
weak_card = record {
  index = 0;
  supported_cmds = 7 ∷ 11 ∷ 43 ∷ 59 ∷ [];
  supported_iftypes = 1 ∷ 2 ∷ [];
  supported_ciphers = [];
}

-- What the kernel tells of the interface 5 of the device 0, "w", in this mode.
abbrev about : ℕ → List SampleAttr
about type =
    (3, 5 ∷ 0 ∷ 0 ∷ 0 ∷ [])
    ∷ (1, 0 ∷ 0 ∷ 0 ∷ 0 ∷ [])
    ∷ (4, 119 ∷ 0 ∷ [])
    ∷ (5, type ∷ 0 ∷ 0 ∷ 0 ∷ [])
    ∷ (6, 2 ∷ 0 ∷ 0 ∷ 0 ∷ 0 ∷ 1 ∷ [])
    ∷ []

abbrev batch : List (Socket.Event sample_nl) → Batch sample_nl
batch es = record { events = es; elapsed_ms = 1 }

abbrev opening : List (Batch sample_nl) → Opening sample_nl
opening bs = record { allocated = true; connected = pos 0; resolved = pos 28; incoming = bs }

abbrev asks : Opening sample_nl
asks = opening (batch (valid (about 1) ∷ ack ∷ []) ∷ [])

abbrev world : ℕ → List (Opening sample_nl) → World sample_nl sample_os
world flags os = record {
  kernel = record { flags = flags; address = [] };
  openings = os;
  closed = [];
}

abbrev interface : VirtualInterface
interface = record { index = 5 }

-- The device has these flags, and the interface was asked for.
abbrev asked_once : ℕ → World sample_nl sample_os
asked_once flags = record {
  kernel = record { flags = flags; address = [] };
  openings = [];
  closed = ((record { command = 5; driver_id = 28; flags = 0 }, (3, u32 5) ∷ []) ∷ []) ∷ [];
}

up_lem_example :
    (name : List ℕ) × (w₁ : World sample_nl sample_os) × (get_name sample_nl sample_os interface
        (world 0x1002 (asks ∷ []))
      ≡ (ok name, w₁))
    × (is_interface_up sample_os name (asked_once 0x1003).kernel
        ≡ (ok true, (asked_once 0x1003).kernel))
unfolding run
up_lem_example =
    up_lem sample_nl sample_os interface (world 0x1002 (asks ∷ [])) (asked_once 0x1003) refl

setup_streetpass_interface-unsupported_example :
    (text : String) × (setup_streetpass_interface sample_nl sample_os no_wiface weak_card
        (119 ∷ [])
        (world 0 [])
      ≡ (throws (unsupported text), world 0 []))
unfolding run
setup_streetpass_interface-unsupported_example =
    setup_streetpass_interface-unsupported sample_nl sample_os no_wiface weak_card (119 ∷ [])
      (world 0 []) refl

-- The kernel makes a station, which is switched off, put into the ad-hoc mode, switched on and
-- joined.
abbrev setting_up : World sample_nl sample_os
setting_up = world 0x1003 (
    opening (
      batch (valid (about 2) ∷ ack ∷ [])
      ∷ batch (valid (about 2) ∷ ack ∷ [])
      ∷ batch (ack ∷ [])
      ∷ batch (ack ∷ [])
      ∷ [])
    ∷ asks
    ∷ asks
    ∷ asks
    ∷ [])

abbrev command : ℕ → Header
command cmd = record { command = cmd; driver_id = 28; flags = 0 }

abbrev station : StreetpassInterface sample_nl sample_os
station = record {
  base = interface;
  nlsock = record {
    driver_id = 28;
    sent =
        (command 7, (1, u32 0) ∷ (5, u32 1) ∷ (4, text (119 ∷ [])) ∷ (204, flag) ∷ [])
        ∷ (command 5, (3, u32 5) ∷ [])
        ∷ (command 6, (3, u32 5) ∷ (5, u32 1) ∷ [])
        ∷ (
          command 43,
          (3, u32 5)
              ∷ (52, bytes ssid)
              ∷ (38, u32 2412)
              ∷ (6, bytes (2 ∷ 0 ∷ 0 ∷ 0 ∷ 0 ∷ 1 ∷ []))
              ∷ (60, flag)
              ∷ [],
        )
        ∷ [];
    incoming = [];
  };
}

abbrev joined : World sample_nl sample_os
joined = record {
  kernel = record { flags = 0x1003; address = [] };
  openings = [];
  closed =
      ((command 5, (3, u32 5) ∷ []) ∷ [])
      ∷ ((command 5, (3, u32 5) ∷ []) ∷ [])
      ∷ ((command 5, (3, u32 5) ∷ []) ∷ [])
      ∷ [];
}

new_streetpass_interface-setup_requests_example :
    (o : Opening sample_nl) × (rest : List (Opening sample_nl)) × (s : Socket sample_nl)
    × (made : Wiface) × (answer : Wiface) × (setting_up.openings ≡ o ∷ rest)
    × (new_socket sample_nl o ≡ ok s)
    × Answers sample_nl sample_os no_wiface 0 (119 ∷ []) s made answer
    × (station.base ≡ new_virtual_interface made.index)
    × (map (asked sample_nl sample_os) station.nlsock.sent
        ≡ setup_requests sample_nl sample_os 0 (119 ∷ []) interface answer)
unfolding run
new_streetpass_interface-setup_requests_example =
    new_streetpass_interface-setup_requests sample_nl sample_os no_wiface weak_card (119 ∷ [])
      station setting_up joined refl
