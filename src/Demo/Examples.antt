-- ===== src/Demo/Examples.antt =====
-- A run of the program on a kernel with one card and a peer.
use libstreetpass.Prelude.{
  ℕ, ◌≡◌, refl, List, [], ◌∷◌, ◌++◌, Bool, true, false, ◌||◌, ◌&&◌, ◌==◌, ltb, arith,
}
use libstreetpass.Prelude.Result.{Result, ok, pos}
use libstreetpass.Libnl.Sample.{nested_nl, SampleAttr}
use libstreetpass.Nl80211.Commands.Parse.{no_wiface}
use libstreetpass.Nl80211.Socket.{Opening, Batch, Event, valid, ack, finish}
use libstreetpass.Os.Sample.{sample_os}
use libstreetpass.Tins.Sample.{sample}
use libstreetpass.Tins.Dot11.{Dot11}
use libstreetpass.Tins.Dot11.Sample.{sample_dot11}
use libstreetpass.Cec.ModuleFilter.Encoding.{module_bytes}
use libstreetpass.Cec.Samples.{a_module}
use libstreetpass.Iface.Physical.{PhysicalInterface}
use libstreetpass.Iface.Physical.Discovery.{physical_interface_at}
use libstreetpass.Iface.Runs.{run}
use libstreetpass.Iface.Streetpass.{ssid, oui}
use libstreetpass.Iface.Streetpass.Create.{StreetpassInterface}
use libstreetpass.Iface.Streetpass.Scan.{Results, scan_all}
use libstreetpass.Iface.World.{World}
use libstreetpass.Demo
use libstreetpass.Demo.{Addresses, in_order, main, print_results}
use libstreetpass.Text.{Stream, new_stream, codes}
use libstreetpass.Text.Splits.{padded}
use libstreetpass.Cec.Print.Tests.{shown}
use libstreetpass.Demo.Composed.{SetUp, Printed, main_lem}

abbrev dot11 : Dot11
dot11 = sample_dot11 ssid oui

-- The card 6, "w", with four commands, the ad-hoc mode and the cipher.
abbrev card : List SampleAttr
card =
    (1, 6 ∷ 0 ∷ 0 ∷ 0 ∷ [])
    ∷ (2, 119 ∷ 0 ∷ [])
    ∷ (50, 7 ∷ 11 ∷ 43 ∷ 59 ∷ [])
    ∷ (32, 1 ∷ [])
    ∷ (57, 0x04 ∷ 0xAC ∷ 0x0F ∷ 0x00 ∷ [])
    ∷ (22, [])
    ∷ []

-- Its interface 5, in the ad-hoc mode.
abbrev interface : List SampleAttr
interface =
    (3, 5 ∷ 0 ∷ 0 ∷ 0 ∷ [])
    ∷ (1, 6 ∷ 0 ∷ 0 ∷ 0 ∷ [])
    ∷ (4, 119 ∷ 0 ∷ [])
    ∷ (5, 1 ∷ 0 ∷ 0 ∷ 0 ∷ [])
    ∷ (6, 2 ∷ 0 ∷ 0 ∷ 0 ∷ 0 ∷ 1 ∷ [])
    ∷ []

abbrev peer : List ℕ
peer = 2 ∷ 0 ∷ 0 ∷ 0 ∷ 0 ∷ 7 ∷ []

abbrev heard_peer : List SampleAttr
heard_peer = (51, peer ++ 0x01 ∷ module_bytes sample a_module) ∷ []

abbrev batch : ℕ → List (Event nested_nl) → Batch nested_nl
batch ms es = record { events = es; elapsed_ms = ms }

abbrev opening : List (Batch nested_nl) → Opening nested_nl
opening bs = record { allocated = true; connected = pos 0; resolved = pos 28; incoming = bs }

-- The question for the card, the list of its interfaces, and the name of the one that is switched
-- off; the socket of the new interface, and the two questions for its name; the scan.
abbrev world : World nested_nl sample_os
world = record {
  kernel = record { flags = 0x1003; address = [] };
  openings =
      opening (batch 1 (valid card ∷ ack ∷ []) ∷ [])
      ∷ opening (batch 1 (valid interface ∷ finish ∷ []) ∷ [])
      ∷ opening (batch 1 (valid interface ∷ ack ∷ []) ∷ [])
      ∷ opening (
          batch 1 (valid interface ∷ ack ∷ [])
          ∷ batch 1 (valid interface ∷ ack ∷ [])
          ∷ batch 1 (ack ∷ [])
          ∷ [])
      ∷ opening (batch 1 (valid interface ∷ ack ∷ []) ∷ [])
      ∷ opening (batch 1 (valid interface ∷ ack ∷ []) ∷ [])
      ∷ opening
          (batch 1 (ack ∷ []) ∷ batch 20 (valid heard_peer ∷ []) ∷ batch 5000 (valid [] ∷ []) ∷ [])
      ∷ [];
  closed = [];
}

-- Addresses in the order of their bytes, printed with colons.
abbrev earlier : List ℕ → List ℕ → Bool
earlier [] ys = false
earlier (x ∷ xs) [] = false
earlier (x ∷ xs) (y ∷ ys) = ltb x y || (x == y && earlier xs ys)

abbrev with_colons : List ℕ → List ℕ
with_colons [] = []
with_colons (b ∷ []) = padded 2 b
with_colons (b ∷ c ∷ bs) = padded 2 b ++ b':' ∷ with_colons (c ∷ bs)

earlier_asymmetric : (xs ys : List ℕ) → earlier xs ys ≡ true → earlier ys xs ≡ false
earlier_asymmetric [] ys h = cc h
earlier_asymmetric (x ∷ xs) [] h = cc
earlier_asymmetric (x ∷ xs) (y ∷ ys) h = ground (arith, earlier_asymmetric xs ys)

abbrev order : Addresses
order = record { before = earlier; to_string = with_colons; before_asymmetric = earlier_asymmetric }

abbrev ran : Result Stream × World nested_nl sample_os
ran = main nested_nl sample_os sample dot11 false order no_wiface world

abbrev printed : Stream
printed = print_results false sample order ((peer, a_module) ∷ []) new_stream

found_peer : ran ≡ (ok printed, ran.1)
unfolding run Demo.main Demo.in_order Demo.insert
found_peer = refl

printed_lines :
    printed.text
    ≡ codes "02:00:00:00:00:07\n"
      ++ codes "================================ Module Filter =================================\n"
      ++ codes "FilterList: marker=TITLE_FILTER(01), flags=01, length=08\nContent:\n"
      ++ codes "Title: id=00310500, send_mode=SEND_RECV(03), mve_list= "
      ++ codes "MVE[mask=f, value=3, expectation=3]\n"
      ++ codes "--------------------------------------------------------------------------------\n"
      ++ codes "FilterList: marker=KEY_FILTER(0f), flags=00, length=08\nContent:\n"
      ++ codes "key=68c727390e2fbb04\n"
      ++ codes "================================================================================\n"
unfolding shown Demo.print_results
printed_lines = refl

main_lem_example :
    (phys : PhysicalInterface) × (i : StreetpassInterface nested_nl sample_os) × (w₀ : World
      nested_nl sample_os)
    × (w₁ : World nested_nl sample_os) × (w₂ : World nested_nl sample_os) × (res : Results)
    × (physical_interface_at nested_nl sample_os 6 world ≡ (ok phys, w₀))
    × SetUp nested_nl sample_os sample dot11 no_wiface phys i w₀ w₁
    × (scan_all nested_nl sample_os sample dot11 i.base 5000 w₁ ≡ (ok (res, tt), w₂))
    × Printed nested_nl sample_os sample dot11 false order w₁ res printed
main_lem_example =
    main_lem nested_nl sample_os sample dot11 false order no_wiface printed world ran.1 found_peer
