-- ===== src/Iface/Physical/Found.antt =====
-- What the searches of src/iface/physical.cpp find where the kernel answers with a dump.
use libstreetpass.Prelude.{ℕ, ◌≡◌, refl, ◌∙◌, List, [], ◌∷◌, ◌++◌, map, All, true, some}
use libstreetpass.Prelude.Result.{ok}
use libstreetpass.Prelude.State
use libstreetpass.Libnl.{Libnl, u32}
use libstreetpass.Nl80211.Attributes.{new_attributes}
use libstreetpass.Nl80211.Commands.{send_request, get_wiphy_list, get_interface_list}
use libstreetpass.Nl80211.Commands.Dumped.{
  firsts, messages, get_interface_list-firsts, get_wiphy_list-firsts,
}
use libstreetpass.Nl80211.Commands.Parse.{
  Wiface, Wiphy, no_wiphy, parse_interface_message, parse_wiphy_message, on_interface, on_wiphy,
}
use libstreetpass.Nl80211.Socket.{Socket, Batch, Opening, new_socket}
use libstreetpass.Nl80211.Socket.Receiving.{dump}
use libstreetpass.Os.{Os}
use libstreetpass.Iface.Physical.{PhysicalInterface, new_physical_interface}
use libstreetpass.Iface.Physical.Discovery.{find_all, find_all_supported, find_all_virtual}
use libstreetpass.Iface.Physical.Supported.{able_only, find_all_supported_lem}
use libstreetpass.Iface.Virtual.{new_virtual_interface}
use libstreetpass.Iface.World.{World}
use libstreetpass.Iface.World.Opened.{with_socket-ok}

module _ (nl : Libnl) (os : Os) (w : World nl os) (o : Opening nl) (others : List (Opening nl))
    (s s₁ : Socket nl) (more : List (List (List nl.Nlattr) × ℕ)) (last : List (List nl.Nlattr))
    (ms : ℕ) (rest : List (Batch nl)) where
  -- The world after a call on a socket that sent what `s₁` has sent.
  abbrev pub closed_after : World nl os
  closed_after = record w { openings = others; closed = w.closed ++ s₁.sent ∷ [] }

  find_all-firsts :
      (answer : List nl.Nlattr → Wiphy)
      → w.openings ≡ o ∷ others
      → new_socket nl o ≡ ok s
      → nl.nl_cb_alloc ≡ some tt
      → send_request nl nl.cmd_get_wiphy nl.nlm_f_dump [] s ≡ (ok tt, s₁)
      → s₁.incoming ≡ dump nl (on_wiphy nl) more last ms rest
      → All
          (λ m. parse_wiphy_message nl (new_attributes nl m) no_wiphy ≡ ok (true, answer m))
          (messages more last)
      → find_all nl os w ≡ (
        ok (
            map new_physical_interface
              (firsts (λ (x : Wiphy). x.index) (map answer (messages more last)))),
        closed_after,
      )
  unfolding find_all State.◌>>=◌ State.continue_with
  find_all-firsts answer first opened alloc sent inc parsed =
      let (asked, listed) =
        get_wiphy_list-firsts nl s s₁ more last ms rest answer alloc sent inc parsed in
      rw (with_socket-ok nl os (get_wiphy_list nl) w o others s _ _ first opened listed) refl

  -- The kernel lists its devices and each message is read as one: the search for usable devices
  -- returns those with the ad-hoc mode, the four commands and the cipher, in the kernel's order, and
  -- of neighbours with one index only the first.
  pub find_all_supported-firsts :
      (answer : List nl.Nlattr → Wiphy)
      → w.openings ≡ o ∷ others
      → new_socket nl o ≡ ok s
      → nl.nl_cb_alloc ≡ some tt
      → send_request nl nl.cmd_get_wiphy nl.nlm_f_dump [] s ≡ (ok tt, s₁)
      → s₁.incoming ≡ dump nl (on_wiphy nl) more last ms rest
      → All
          (λ m. parse_wiphy_message nl (new_attributes nl m) no_wiphy ≡ ok (true, answer m))
          (messages more last)
      → find_all_supported nl os w ≡ (
        ok (
            able_only nl (
              map new_physical_interface
                (firsts (λ (x : Wiphy). x.index) (map answer (messages more last))))),
        closed_after,
      )
  find_all_supported-firsts answer first opened alloc sent inc parsed =
      find_all_supported_lem nl os w
      ∙ rw (find_all-firsts answer first opened alloc sent inc parsed) refl

  -- The kernel lists the interfaces of a device and each message is read as one: the search for
  -- virtual interfaces returns an interface for the index of each, in the kernel's order, and for
  -- neighbours with one index only one.
  pub find_all_virtual-firsts :
      (memory : Wiface) (p : PhysicalInterface) (answer : List nl.Nlattr → Wiface)
      → w.openings ≡ o ∷ others
      → new_socket nl o ≡ ok s
      → nl.nl_cb_alloc ≡ some tt
      → send_request nl nl.cmd_get_interface nl.nlm_f_dump ((nl.attr_wiphy, u32 p.index) ∷ []) s
        ≡ (ok tt, s₁)
      → s₁.incoming ≡ dump nl (on_interface nl memory) more last ms rest
      → All
          (λ m. parse_interface_message nl (new_attributes nl m) memory ≡ ok (true, answer m))
          (messages more last)
      → find_all_virtual nl os memory p w ≡ (
        ok (
            map
              (λ (x : Wiface). new_virtual_interface x.index)
              (firsts (λ (x : Wiface). x.index) (map answer (messages more last)))),
        closed_after,
      )
  unfolding find_all_virtual State.◌>>=◌ State.continue_with
  find_all_virtual-firsts memory p answer first opened alloc sent inc parsed =
      let (asked, listed) =
        get_interface_list-firsts nl s s₁ more last ms rest memory p.index answer alloc sent inc
          parsed in
      rw
        (with_socket-ok nl os (get_interface_list nl memory p.index) w o others s _ _ first opened
          listed)
        refl
