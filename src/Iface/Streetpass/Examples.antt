-- ===== src/Iface/Streetpass/Examples.antt =====
-- The properties of the scans at a concrete peer.
use libstreetpass.Prelude.{
  ℕ, ◌≡◌, refl, subst, List, [], ◌∷◌, ◌++◌, true, Option, none, some, arith, inl, inr, ◌⊎◌,
}
use libstreetpass.Prelude.Result.{ok, pos}
use libstreetpass.Libnl.{u32, u16, bytes}
use libstreetpass.Libnl.Sample.{sample_nl, SampleAttr}
use libstreetpass.Nl80211.Attributes.{new_attributes}
use libstreetpass.Nl80211.Commands.Parse.{catch_all}
use libstreetpass.Nl80211.Socket.{Opening, Socket, valid, ack}
use libstreetpass.Nl80211.Socket.Loop.{Brings}
use libstreetpass.Nl80211.Socket.Timed.{readings}
use libstreetpass.Os.Sample.{sample_os}
use libstreetpass.Text.{Stream, new_stream, put, end_line}
use libstreetpass.Tins.Sample.{sample}
use libstreetpass.Tins.Dot11.{Dot11}
use libstreetpass.Tins.Dot11.Sample.{sample_dot11, sample_probereq}
use libstreetpass.Cec.ModuleFilter.{ModuleFilter, to_bytes, from_bytes}
use libstreetpass.Cec.ModuleFilter
use libstreetpass.Cec.ModuleFilter.Encoding.{module_bytes, normal}
use libstreetpass.Cec.Samples.{a_module, a_module-IsModuleFilter}
use libstreetpass.Iface.Runs.{run}
use libstreetpass.Iface.Streetpass.{ssid, oui, vendor_specific_data}
use libstreetpass.Iface.Streetpass.Scan.{
  Results, get, no_filter, scan, scan_matching, associate, handler,
}
use libstreetpass.Iface.Streetpass.Scan.Handler.{Announces}
use libstreetpass.Iface.Streetpass.Scan.Sound.{scan_matching_sound}
use libstreetpass.Iface.Streetpass.Scan.Associate.{Heard, associate_sound}
use libstreetpass.Iface.Streetpass.Scan.Own.{handler-vendor_specific_data}
use libstreetpass.Iface.Streetpass.Scan.Announcements.{Says, announces, no_frame}
use libstreetpass.Iface.Streetpass.Scan.Complete.{scan_complete}
use libstreetpass.Iface.World.Opened.{Hears}
use libstreetpass.Iface.Virtual.{VirtualInterface}
use libstreetpass.Iface.World.{World}

abbrev dot11 : Dot11
dot11 = sample_dot11 ssid oui

abbrev peer : List ℕ
peer = 2 ∷ 0 ∷ 0 ∷ 0 ∷ 0 ∷ 7 ∷ []

abbrev element : List ℕ
element = 0x01 ∷ module_bytes sample a_module

abbrev frame : List ℕ
frame = peer ++ element

-- A message with the frame, and one without.
abbrev heard_peer : List SampleAttr
heard_peer = (51, frame) ∷ []

abbrev interface : VirtualInterface
interface = record { index = 5 }

-- The request is acknowledged, and then the messages come in.
abbrev opening : Opening sample_nl
opening = record {
  allocated = true;
  connected = pos 0;
  resolved = pos 28;
  incoming =
      record { events = ack ∷ []; elapsed_ms = 1 }
      ∷ record { events = valid [] ∷ valid heard_peer ∷ []; elapsed_ms = 20 }
      ∷ record { events = valid heard_peer ∷ []; elapsed_ms = 500 }
      ∷ [];
}

abbrev world : World sample_nl sample_os
world = record {
  kernel = record { flags = 0x1003; address = [] };
  openings = opening ∷ [];
  closed = [];
}

-- What is left when the scan is over: the request that was sent.
abbrev after : World sample_nl sample_os
after = record world {
  openings = [];
  closed =
      ((
        record { command = 58; driver_id = 28; flags = 0 },
        (3, u32 5) ∷ (101, u16 64) ∷ (91, bytes []) ∷ [],
      )
        ∷ [])
      ∷ [];
}

abbrev found : Results
found = (peer, a_module) ∷ []

matching :
    scan_matching sample_nl sample_os sample dot11 9 interface 500 a_module world
    ≡ (ok (found, tt), after)
unfolding run
matching = refl

scan_matching_sound_example :
    (ModuleFilter.match sample 9 a_module a_module ≡ ok true)
    × (m : List SampleAttr) × Hears sample_nl (opening ∷ []) m
    × Announces sample_nl sample dot11 (new_attributes sample_nl m) peer a_module
unfolding run
scan_matching_sound_example =
    scan_matching_sound sample_nl sample_os sample dot11 9 interface 500 a_module a_module found
      world after peer matching refl

abbrev told : Stream
told = end_line (put "-- Found peer streetpass probe request --" new_stream)

associated :
    associate sample_nl sample_os sample dot11 interface 500 peer a_module new_stream world
    ≡ (ok told, after)
unfolding run
associated = refl

associate_sound_example :
    (told ≡ end_line (put "-- Could not find peer --" new_stream))
    ⊎ ((told ≡ end_line (put "-- Found peer streetpass probe request --" new_stream))
        × Heard sample_nl sample_os sample dot11 world peer)
associate_sound_example =
    associate_sound sample_nl sample_os sample dot11 interface 500 peer a_module new_stream told
      world after associated

encoded : vendor_specific_data sample a_module ≡ ok element
unfolding run
encoded = refl

handler-vendor_specific_data_example :
    handler sample_nl sample_os sample dot11
      (no_filter sample_nl sample_os sample dot11)
      (new_attributes sample_nl heard_peer)
      tt
    ≡ catch_all
        (no_filter sample_nl sample_os sample dot11 peer (normal sample a_module) tt)
        (ok (true, tt))
unfolding run
handler-vendor_specific_data_example =
    handler-vendor_specific_data sample_nl sample_os sample dot11
      (no_filter sample_nl sample_os sample dot11) (new_attributes sample_nl heard_peer) frame
      element (sample_probereq ssid oui frame) a_module tt a_module-IsModuleFilter encoded refl refl
      refl refl refl

abbrev said : List SampleAttr → Option (List ℕ × ModuleFilter)
said [] = none
said (a ∷ m) = some (peer, a_module)

announced_peer :
    Announces sample_nl sample dot11 (new_attributes sample_nl heard_peer) peer a_module
unfolding run
announced_peer = record {
  frame = frame;
  probereq = sample_probereq ssid oui frame;
  contents = module_bytes sample a_module;
  frame_lem = refl;
  probereq_lem = refl;
  request_lem = record { vendor_specific_lem = refl; addr1_lem = refl; ssid_lem = refl };
  addr_lem = refl;
  filter_lem = refl;
}

abbrev opened : Socket sample_nl
opened = record { driver_id = 28; sent = []; incoming = opening.incoming }

abbrev in_time : List (List (List SampleAttr) × ℕ)
in_time = ([] ∷ heard_peer ∷ [], 20) ∷ []

abbrev at_the_end : List (List SampleAttr)
at_the_end = heard_peer ∷ []

abbrev registered : Socket sample_nl
registered = record {
  driver_id = 28;
  sent =
      (
        record { command = 58; driver_id = 28; flags = 0 },
        (3, u32 5) ∷ (101, u16 64) ∷ (91, bytes []) ∷ [],
      )
      ∷ [];
  incoming = readings sample_nl in_time at_the_end 500 [];
}

Says-nothing : Says sample_nl sample dot11 [] none
unfolding run
Says-nothing = no_frame refl

heard_all :
    (m : List SampleAttr)
    → Brings sample_nl (readings sample_nl in_time at_the_end 500 []) m
    → Says sample_nl sample dot11 m (said m)
heard_all m (inl (inl q)) =
    subst (λ (x : List SampleAttr). Says sample_nl sample dot11 x (said x)) q Says-nothing
heard_all m (inl (inr (inl q))) =
    subst (λ (x : List SampleAttr). Says sample_nl sample dot11 x (said x)) q
      (announces announced_peer)
heard_all m (inl (inr (inr q))) = absurd q
heard_all m (inr (inl (inl q))) =
    subst (λ (x : List SampleAttr). Says sample_nl sample dot11 x (said x)) q
      (announces announced_peer)
heard_all m (inr (inl (inr q))) = absurd q
heard_all m (inr (inr q)) = absurd q

scan_complete_example :
    (results : Results) × (w' : World sample_nl sample_os) × (scan sample_nl sample_os sample dot11
        interface 500
        (no_filter sample_nl sample_os sample dot11)
        tt
        world
      ≡ (ok (results, tt), w'))
    × ((addr : List ℕ) → get addr results ≡ get addr ((peer, a_module) ∷ (peer, a_module) ∷ []))
unfolding run
scan_complete_example =
    scan_complete sample_nl sample dot11 said (λ addr f. true) sample_os
      (no_filter sample_nl sample_os sample dot11) (λ addr f s. refl) interface 500 tt world opening
      [] opened registered in_time at_the_end 500 [] refl refl refl refl refl (omega arith)
      (omega arith, tt) (omega arith) (λ m b. heard_all m b)
