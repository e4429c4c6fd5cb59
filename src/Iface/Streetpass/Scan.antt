-- ===== src/Iface/Streetpass/Scan.antt =====
-- The scans of StreetpassInterface in src/iface/streetpass.cpp. A callback that changes captured
-- variables takes them as a state and returns them.
pub mod Request
pub mod Handler
pub mod Sound
pub mod Unique
pub mod Associate
pub mod Announcements
pub mod Complete
pub mod Own
pub mod Table
use Prim.Native.Nat.{bit_or}
use libstreetpass.Prelude.{
  ℕ, ◌*◌, ◌^◌, List, [], ◌∷◌, ◌++◌, ◌==◌, Bool, true, false, Option, none, some, same,
  if◌then◌else◌,
}
use libstreetpass.Prelude.Result.{Result, ok, throws, undefined, stuck, ◌>>=◌}
use libstreetpass.Prelude.State
use libstreetpass.Libnl.{Libnl}
use libstreetpass.Nl80211.Attributes.{Attributes, get_bytes}
use libstreetpass.Nl80211.Commands.{register_frame}
use libstreetpass.Nl80211.Commands.Parse.{catch_all}
use libstreetpass.Nl80211.Socket.{recv_messages_with}
use libstreetpass.Os.{Os}
use libstreetpass.Text.{Stream, put, end_line}
use libstreetpass.Tins.{Tins}
use libstreetpass.Tins.Dot11.{Dot11, ProbeRequest}
use libstreetpass.Cec.ModuleFilter.{ModuleFilter, from_bytes}
use libstreetpass.Cec.ModuleFilter
use libstreetpass.Iface.Streetpass.{is_streetpass_scan_probereq, module_filter_bytes}
use libstreetpass.Iface.Virtual.{VirtualInterface}
use libstreetpass.Iface.World.{W, with_socket}

-- `std::map<Tins::HWAddress<6>, cec::ModuleFilter>`, in the order of insertion.
abbrev pub Results : Type 0
Results = List (List ℕ × ModuleFilter)

unfoldable pub get : List ℕ → Results → Option ModuleFilter
get addr [] = none
get addr ((a, f) ∷ rest) = if same a addr then some f else get addr rest

unfoldable pub is_present : Option ModuleFilter → Bool
is_present none = false
is_present (some f) = true

-- An address that is there keeps its filter.
unfoldable pub emplace : Results → List ℕ → ModuleFilter → Results
unfolding is_present
emplace results addr f =
    if is_present (get addr results) then results else results ++ (addr, f) ∷ []

-- A callback with a state, or a filter with one.
abbrev pub Callback : Type 0 → Type 0
Callback S = List ℕ → ModuleFilter → S → Result (Bool × S)

module _ (nl : Libnl) (os : Os) (t : Tins) (d : Dot11) {S : Type 0} where
  -- The second `try` of the handler: whatever is thrown in it, the scan goes on.
  unfoldable pub on_module_filter : Callback S → List ℕ → List ℕ → S → Result (Bool × S)
  on_module_filter callback peer_addr bytes s =
      catch_all (from_bytes t bytes >>= λ f. callback peer_addr f s) (ok (true, s))

  unfoldable pub on_contents : Callback S → List ℕ → Option (List ℕ) → S → Result (Bool × S)
  unfolding on_module_filter
  on_contents callback peer_addr none s = ok (true, s)
  on_contents callback peer_addr (some bytes) s = on_module_filter callback peer_addr bytes s

  unfoldable pub on_probereq : Callback S → ProbeRequest → S → Result (Bool × S)
  unfolding on_contents
  on_probereq callback probereq s = is_streetpass_scan_probereq d probereq >>= λ is_scan.
      elim is_scan [
        | false ↦ ok (true, s)
        | true ↦ probereq.vendor_specific >>= λ (oui, contents).
            on_contents callback probereq.addr2 (module_filter_bytes contents) s
      ]

  -- A frame that cannot be parsed is not caught here.
  unfoldable pub on_frame : Callback S → S → Result (List ℕ) → Result (Bool × S)
  unfolding on_probereq
  on_frame callback s (ok frame) =
      d.parse_probereq frame >>= λ probereq. on_probereq callback probereq s
  on_frame callback s (throws e) = ok (true, s)
  on_frame callback s undefined = undefined
  on_frame callback s stuck = stuck

  -- The handler of scan_with_cb.
  unfoldable pub handler : Callback S → Attributes nl → S → Result (Bool × S)
  unfolding on_frame
  handler callback msg_attrs s = on_frame callback s (get_bytes nl msg_attrs nl.attr_frame)

  unfoldable pub scan_with_cb : VirtualInterface → ℕ → Callback S → S → W nl os S
  scan_with_cb v timeout callback s = with_socket nl os (
      State.◌>>◌ (register_frame nl v.index (bit_or d.management (d.probe_req * 2 ^ 4)) [])
        (recv_messages_with nl (handler callback) s timeout))

  -- The callback of `scan`: it always goes on, whatever the filter answers.
  unfoldable pub collect : Callback S → Callback (Results × S)
  collect filter peer_addr f (results, s) = do
    (accepted, s') ← filter peer_addr f s
    ok (true, (if accepted then emplace results peer_addr f else results, s'))

-- `if (!found_peer)`, and what follows.
unfoldable pub print_found : Bool → Stream → Stream
print_found true out = end_line (put "-- Found peer streetpass probe request --" out)
print_found false out = end_line (put "-- Could not find peer --" out)

module _ (nl : Libnl) (os : Os) (t : Tins) (d : Dot11) where
  unfoldable pub scan : {S : Type 0} → VirtualInterface → ℕ → Callback S → S → W nl os (Results × S)
  scan v timeout filter s w =
      if timeout == 0
      then (ok ([], s), w)
      else scan_with_cb nl os t d v timeout (collect nl os t d filter) ([], s) w

  unfoldable pub no_filter : Callback (Unit {0})
  no_filter peer_addr f u = ok (true, u)

  unfoldable pub scan_all : VirtualInterface → ℕ → W nl os (Results × Unit {0})
  unfolding no_filter
  scan_all v timeout = scan v timeout no_filter tt

  -- The fuel is that of ModuleFilter::match.
  unfoldable pub filter_match : ℕ → ModuleFilter → Callback (Unit {0})
  filter_match fuel own peer_addr other u = do
    matched ← ModuleFilter.match t fuel own other
    ok (matched, u)

  unfoldable pub scan_matching :
      ℕ → VirtualInterface → ℕ → ModuleFilter → W nl os (Results × Unit {0})
  unfolding filter_match
  scan_matching fuel v timeout own = scan v timeout (filter_match fuel own) tt

  -- The captured `found_peer` is the state.
  unfoldable pub is_peer : List ℕ → Callback Bool
  is_peer peer_addr other_addr other found_peer =
      if same other_addr peer_addr then ok (false, true) else ok (true, found_peer)

  -- The code takes the filter and does nothing with it.
  unfoldable pub associate : VirtualInterface → ℕ → List ℕ → ModuleFilter → Stream → W nl os Stream
  unfolding is_peer print_found
  associate v timeout peer_addr f out =
      State.◌>>=◌ (scan v timeout (is_peer peer_addr) false)
        λ (results, found_peer). State.pure (print_found found_peer out)
