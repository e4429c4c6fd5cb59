-- ===== src/Iface/Physical/Examples.antt =====
-- The searches on a kernel that answers with a dump.
use libstreetpass.Prelude.{ℕ, ◌≡◌, refl, List, [], ◌∷◌, map, true}
use libstreetpass.Prelude.Result.{ok, throws, undefined, stuck, pos}
use libstreetpass.Libnl.{u32}
use libstreetpass.Libnl.Sample.{nested_nl, SampleAttr}
use libstreetpass.Nl80211.Attributes.{new_attributes}
use libstreetpass.Nl80211.Commands.Parse.{
  Wiface, Wiphy, no_wiface, no_wiphy, parse_interface_message, parse_wiphy_message,
}
use libstreetpass.Nl80211.Socket.{Opening, Batch, Socket, valid, finish}
use libstreetpass.Os.Sample.{sample_os}
use libstreetpass.Iface.Physical.{PhysicalInterface}
use libstreetpass.Iface.Physical.Discovery.{find_all_supported, find_all_virtual}
use libstreetpass.Iface.Physical.Found.{find_all_supported-firsts, find_all_virtual-firsts}
use libstreetpass.Iface.Runs.{run}
use libstreetpass.Iface.World.{World}

-- A card with four commands and the ad-hoc mode, and with these ciphers.
abbrev card : ℕ → List ℕ → List SampleAttr
card index ciphers =
    (1, index ∷ 0 ∷ 0 ∷ 0 ∷ [])
    ∷ (2, 119 ∷ 0 ∷ [])
    ∷ (50, 7 ∷ 11 ∷ 43 ∷ 59 ∷ [])
    ∷ (32, 1 ∷ [])
    ∷ (57, ciphers)
    ∷ (22, [])
    ∷ []

abbrev ccmp : List ℕ
ccmp = 0x04 ∷ 0xAC ∷ 0x0F ∷ 0x00 ∷ []

abbrev interface : ℕ → List SampleAttr
interface index =
    (3, index ∷ 0 ∷ 0 ∷ 0 ∷ [])
    ∷ (1, 6 ∷ 0 ∷ 0 ∷ 0 ∷ [])
    ∷ (4, 119 ∷ 0 ∷ [])
    ∷ (5, 1 ∷ 0 ∷ 0 ∷ 0 ∷ [])
    ∷ (6, 2 ∷ 0 ∷ 0 ∷ 0 ∷ 0 ∷ 1 ∷ [])
    ∷ []

-- Two readings, the second of which is finished.
abbrev answers : List (List SampleAttr) → List SampleAttr → List (Batch nested_nl)
answers first last =
    record { events = map valid first; elapsed_ms = 1 }
    ∷ record { events = valid last ∷ finish ∷ []; elapsed_ms = 2 }
    ∷ []

abbrev opening : List (Batch nested_nl) → Opening nested_nl
opening bs = record { allocated = true; connected = pos 0; resolved = pos 28; incoming = bs }

abbrev world : List (Batch nested_nl) → World nested_nl sample_os
world bs = record {
  kernel = record { flags = 0; address = [] };
  openings = opening bs ∷ [];
  closed = [];
}

abbrev cards : List (Batch nested_nl)
cards = answers (card 6 ccmp ∷ card 6 ccmp ∷ []) (card 7 [])

abbrev wiphy : List SampleAttr → Wiphy
wiphy m = elim (parse_wiphy_message nested_nl (new_attributes nested_nl m) no_wiphy) [
  | ok (more, w) ↦ w
  | throws e ↦ no_wiphy
  | undefined ↦ no_wiphy
  | stuck ↦ no_wiphy
]

abbrev before : List (Batch nested_nl) → Socket nested_nl
before bs = record { driver_id = 28; sent = []; incoming = bs }

abbrev asked_for_cards : Socket nested_nl
asked_for_cards = record {
  driver_id = 28;
  sent = (record { command = 1; driver_id = 28; flags = 0x300 }, []) ∷ [];
  incoming = cards;
}

-- The card 6 is listed twice in a row, and the card 7 has no cipher.
find_all_supported-firsts_example : find_all_supported nested_nl sample_os (world cards) ≡ (
  ok (
      record {
        index = 6;
        supported_cmds = 7 ∷ 11 ∷ 43 ∷ 59 ∷ [];
        supported_iftypes = 1 ∷ [];
        supported_ciphers = 0x000FAC04 ∷ [];
      }
      ∷ []),
  record {
    kernel = record { flags = 0; address = [] };
    openings = [];
    closed = asked_for_cards.sent ∷ [];
  },
)
unfolding run
find_all_supported-firsts_example =
    find_all_supported-firsts nested_nl sample_os (world cards) (opening cards) [] (before cards)
      asked_for_cards ((card 6 ccmp ∷ card 6 ccmp ∷ [], 1) ∷ []) (card 7 [] ∷ []) 2 [] wiphy refl
      refl refl refl refl (refl, (refl, (refl, tt)))

abbrev interfaces : List (Batch nested_nl)
interfaces = answers (interface 5 ∷ interface 5 ∷ []) (interface 8)

abbrev wiface : List SampleAttr → Wiface
wiface m = elim (parse_interface_message nested_nl (new_attributes nested_nl m) no_wiface) [
  | ok (more, w) ↦ w
  | throws e ↦ no_wiface
  | undefined ↦ no_wiface
  | stuck ↦ no_wiface
]

abbrev asked_for_interfaces : Socket nested_nl
asked_for_interfaces = record {
  driver_id = 28;
  sent = (record { command = 5; driver_id = 28; flags = 0x300 }, (1, u32 6) ∷ []) ∷ [];
  incoming = interfaces;
}

abbrev card_6 : PhysicalInterface
card_6 = record { index = 6; supported_cmds = []; supported_iftypes = []; supported_ciphers = [] }

find_all_virtual-firsts_example :
    find_all_virtual nested_nl sample_os no_wiface card_6 (world interfaces) ≡ (
      ok (record { index = 5 } ∷ record { index = 8 } ∷ []),
      record {
        kernel = record { flags = 0; address = [] };
        openings = [];
        closed = asked_for_interfaces.sent ∷ [];
      },
    )
unfolding run
find_all_virtual-firsts_example =
    find_all_virtual-firsts nested_nl sample_os (world interfaces) (opening interfaces) []
      (before interfaces) asked_for_interfaces ((interface 5 ∷ interface 5 ∷ [], 1) ∷ [])
      (interface 8 ∷ []) 2 [] no_wiface card_6 wiface refl refl refl refl refl
      (refl, (refl, (refl, tt)))
