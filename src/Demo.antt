-- ===== src/Demo.antt =====
-- src/main.cpp: it sets up a StreetPass interface on a card, scans for five seconds and prints
-- the results. The closing of the interface's socket at the end is left out.
pub mod Output
pub mod Composed
mod Examples
use libstreetpass.Prelude.{ℕ, ◌≡◌, true, false, List, [], ◌∷◌, Bool, if◌then◌else◌}
use libstreetpass.Prelude.State.{pure, ◌>>=◌}
use libstreetpass.Libnl.{Libnl}
use libstreetpass.Nl80211.Commands.Parse.{Wiface}
use libstreetpass.Os.{Os}
use libstreetpass.Tins.{Tins}
use libstreetpass.Tins.Dot11.{Dot11}
use libstreetpass.Text.{Stream, new_stream, put_text, end_line}
use libstreetpass.Cec.ModuleFilter.{ModuleFilter}
use libstreetpass.Cec.Print.{print_module_filter}
use libstreetpass.Iface.Physical.Discovery.{physical_interface_at}
use libstreetpass.Iface.Streetpass.Create.{setup_streetpass_interface}
use libstreetpass.Iface.Streetpass.Scan.{Results, scan_all}
use libstreetpass.Iface.World.{W}

-- "streetpass", the default name of setup_streetpass_interface.
abbrev pub default_name : List ℕ
default_name = 115 ∷ 116 ∷ 114 ∷ 101 ∷ 101 ∷ 116 ∷ 112 ∷ 97 ∷ 115 ∷ 115 ∷ []

-- How libtins orders addresses, and what it prints of one.
pub record Addresses : Type 0 where
  pub before : List ℕ → List ℕ → Bool
  pub to_string : List ℕ → List ℕ
  pub before_asymmetric : (a b : List ℕ) → before a b ≡ true → before b a ≡ false

-- A std::map is visited in the order of its keys.
unfoldable pub insert : Addresses → List ℕ × ModuleFilter → Results → Results
insert h entry [] = entry ∷ []
insert h entry (e ∷ es) =
    let rest = insert h entry es in if h.before entry.0 e.0 then entry ∷ e ∷ es else e ∷ rest

unfoldable pub in_order : Addresses → Results → Results
in_order h [] = []
in_order h (e ∷ es) = insert h e (in_order h es)

-- `for (auto [hwaddr, module_filter] : res)`
unfoldable pub print_results : Bool → Tins → Addresses → Results → Stream → Stream
print_results as_character t h [] s = s
print_results as_character t h ((hwaddr, module_filter) ∷ res) s =
    print_results as_character t h res (
      end_line (
        print_module_filter as_character t module_filter
          (end_line (put_text (h.to_string hwaddr) s))))

module _ (nl : Libnl) (os : Os) (t : Tins) (d : Dot11) (as_character : Bool) (h : Addresses) where
  -- What std::cout holds at the end. `memory` is what each `wiface` of the code held.
  unfoldable pub main : Wiface → W nl os Stream
  main memory = do
    phys ← physical_interface_at nl os 6
    siface ← setup_streetpass_interface nl os memory phys default_name
    (res, u) ← scan_all nl os t d siface.base 5000
    pure (print_results as_character t h (in_order h res) new_stream)
