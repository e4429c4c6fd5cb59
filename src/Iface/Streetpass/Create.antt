-- ===== src/Iface/Streetpass/Create.antt =====
-- The constructor of StreetpassInterface in src/iface/streetpass.cpp, and
-- PhysicalInterface::setup_streetpass_interface, which calls it. The pauses are left out.
pub mod Sending
pub mod Joined
pub mod Refused
use libstreetpass.Prelude.{ℕ, List, [], ◌∷◌, ◌++◌, ◌==◌, Bool, true, false}
use libstreetpass.Prelude.Result.{Result, ok, throws, undefined, stuck}
use libstreetpass.Prelude.State.{pure, lift, ◌>>=◌, ◌>>◌}
use libstreetpass.Libnl.{Libnl}
use libstreetpass.Nl80211.Commands.{new_interface, get_interface, set_interface_mode, join_ibss}
use libstreetpass.Nl80211.Commands.Parse.{Wiface}
use libstreetpass.Nl80211.Socket.{Socket, M}
use libstreetpass.Os.{Os}
use libstreetpass.Iface.Physical.{PhysicalInterface, check_supported}
use libstreetpass.Iface.Physical.Discovery.{find_all_virtual}
use libstreetpass.Iface.Streetpass.{ssid, channel_freq}
use libstreetpass.Iface.Virtual.{VirtualInterface, new_virtual_interface, is_up, up, down}
use libstreetpass.Iface.World.{World, W, open_socket}

module _ (nl : Libnl) (os : Os) where
  -- The base class with the member nlsock, which stays open.
  pub record StreetpassInterface : Type 0 where
    pub base : VirtualInterface
    pub nlsock : Socket nl

  -- The constructor at work: the world, and its own socket.
  pub record Building : Type 0 where
    pub world : World nl os
    pub nlsock : Socket nl

  abbrev pub B : Type 0 → Type 0
  B A = Building → Result A × Building

  unfoldable pub on_nlsock : {A : Type 0} → M nl A → B A
  on_nlsock call b = let (r, s) = call b.nlsock in (r, record b { nlsock = s })

  unfoldable pub on_world : {A : Type 0} → W nl os A → B A
  on_world call b = let (r, w) = call b.world in (r, record b { world = w })

  -- `if (w.type != NL80211_IFTYPE_ADHOC) { … }`
  unfoldable pub ensure_adhoc : VirtualInterface → Bool → B (Unit {0})
  ensure_adhoc v true = pure tt
  ensure_adhoc v false = do
    on_world (down nl os v)
    on_nlsock (set_interface_mode nl v.index nl.iftype_adhoc)

  -- `if (!is_up()) up();`
  unfoldable pub ensure_up : VirtualInterface → Bool → B (Unit {0})
  ensure_up v true = pure tt
  ensure_up v false = on_world (up nl os v)

  -- The body from `if (w.type != NL80211_IFTYPE_ADHOC)` on.
  unfoldable pub configure : VirtualInterface → Wiface → B (Unit {0})
  unfolding ensure_adhoc ensure_up
  configure v w = do
    ensure_adhoc v (w.type == nl.iftype_adhoc)
    is_running ← on_world (is_up nl os v)
    ensure_up v is_running
    on_nlsock (join_ibss nl v.index ssid channel_freq true w.mac)

  -- The body. `memory` is what the first `wiface` held.
  unfoldable pub build : Wiface → ℕ → List ℕ → B VirtualInterface
  unfolding configure
  build memory wiphy name = do
    w ← on_nlsock (new_interface nl memory wiphy nl.iftype_adhoc name true)
    let v = new_virtual_interface w.index
    w' ← on_nlsock (get_interface nl v.index)
    configure v w'
    pure v

  -- Where the body throws, the socket is closed.
  unfoldable pub built :
      Result VirtualInterface × Building → Result StreetpassInterface × World nl os
  built (ok v, b) = (ok (record { base = v; nlsock = b.nlsock }), b.world)
  built (throws e, b) = (throws e, record b.world { closed = b.world.closed ++ b.nlsock.sent ∷ [] })
  built (undefined, b) = (undefined, b.world)
  built (stuck, b) = (stuck, b.world)

  unfoldable pub new_streetpass_interface :
      Wiface → PhysicalInterface → List ℕ → W nl os StreetpassInterface
  unfolding built
  new_streetpass_interface memory phys name w =
      open_socket nl os
        (λ s w'. built (build memory phys.index name (record { world = w'; nlsock = s })))
        w.openings w

  -- `for (auto virt : virt_list) virt.down();`
  unfoldable pub down_all : List VirtualInterface → W nl os (Unit {0})
  down_all [] = pure tt
  down_all (v ∷ vs) = do down nl os v; down_all vs

  -- `memory` is what each `wiface` of the code held.
  unfoldable pub setup_streetpass_interface :
      Wiface → PhysicalInterface → List ℕ → W nl os StreetpassInterface
  setup_streetpass_interface memory p name = do
    lift (check_supported nl p)
    virt_list ← find_all_virtual nl os memory p
    down_all virt_list
    new_streetpass_interface memory p name
