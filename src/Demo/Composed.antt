-- ===== src/Demo/Composed.antt =====
-- What the program of src/main.cpp has done when it has printed its results, and what it prints.
use libstreetpass.Prelude.{
  ℕ, ◌≡◌, sym, ap, ◌∙◌, List, [], map, encode_all, All, All-mono, Bool, true, Bool-cases, inl, inr,
  some,
}
use libstreetpass.Prelude.Result.{Result, ok, throws, unsupported}
use libstreetpass.Prelude.State.{lift, >>=-eq-ok, >>-eq-ok}
use libstreetpass.Prelude.State
use libstreetpass.Libnl.{Libnl}
use libstreetpass.Nl80211.Attributes.{new_attributes}
use libstreetpass.Nl80211.Commands.Parse.{Wiface}
use libstreetpass.Os.{Os}
use libstreetpass.Tins.{Tins}
use libstreetpass.Tins.Dot11.{Dot11}
use libstreetpass.Cec.ModuleFilter.{ModuleFilter}
use libstreetpass.Iface.Physical.{PhysicalInterface, check_supported}
use libstreetpass.Iface.Physical.Discovery.{physical_interface_at, find_all_virtual}
use libstreetpass.Iface.Physical.Supported.{able}
use libstreetpass.Iface.Streetpass.Create.{
  StreetpassInterface, down_all, setup_streetpass_interface,
}
use libstreetpass.Iface.Streetpass.Create.Sending.{asked}
use libstreetpass.Iface.Streetpass.Create.Joined.{
  setup_requests, new_streetpass_interface-setup_requests,
}
use libstreetpass.Iface.Streetpass.Create.Refused.{check_supported-throws}
use libstreetpass.Iface.Streetpass.Scan.{Results, get, no_filter, scan, scan_all}
use libstreetpass.Iface.Streetpass.Scan.Unique.{Unique-get, scan-Unique}
use libstreetpass.Iface.Streetpass.Scan.Handler.{Announces}
use libstreetpass.Iface.Streetpass.Scan.Sound.{scan_sound}
use libstreetpass.Iface.World.{World}
use libstreetpass.Iface.World.Opened.{Hears}
use libstreetpass.Demo.{Addresses, in_order, main, default_name}
use libstreetpass.Demo.Output.{
  result_text, print_results_lem, in_order-Perm, Ordered, in_order-Ordered, in_order-All,
}
use libstreetpass.Text.{Stream}
use mathlib.Core.List.{Perm}

module _ (nl : Libnl) (os : Os) where
  check_supported-eq-ok :
      (p : PhysicalInterface) (u : Unit {0}) → check_supported nl p ≡ ok u → able nl p ≡ true
  check_supported-eq-ok p u h = elim (Bool-cases (able nl p)) [
    | inl has ↦ has
    | inr lacks ↦
        let (text, e) = check_supported-throws nl p lacks in
        let wrong : ◌≡◌ {A = Result (Unit {0})} (throws (unsupported text)) (ok u) = sym e ∙ h in cc
  ]

  -- An interface that was set up is on a card that is able, and has made its requests.
  setup_lem :
      (memory : Wiface) (p : PhysicalInterface) (name : List ℕ) (i : StreetpassInterface nl os)
      (w w' : World nl os)
      → setup_streetpass_interface nl os memory p name w ≡ (ok i, w')
      → (able nl p ≡ true)
        × (answer : Wiface) × (map (asked nl os) i.nlsock.sent
            ≡ setup_requests nl os p.index name i.base answer)
  unfolding setup_streetpass_interface
  setup_lem memory p name i w w' h =
      let (u, w₀, e, h₁) = >>-eq-ok (lift (check_supported nl p)) _ w w' i h in
      let (vs, w₁, e₁, h₂) = >>=-eq-ok (find_all_virtual nl os memory p) _ w₀ w' i h₁ in
      let (u', w₂, e₂, h₃) = >>-eq-ok (down_all nl os vs) _ w₁ w' i h₂ in
      let (o, rest, s, created, answer, first, opened, answers, base, made) =
        new_streetpass_interface-setup_requests nl os memory p name i w₂ w' h₃ in
      (
        check_supported-eq-ok p u (ap (λ (x : Result (Unit {0}) × World nl os). x.0) e),
        answer,
        made,
      )

module _ (nl : Libnl) (os : Os) (t : Tins) (d : Dot11) where
  -- A set-up that leads from one world to another, on a card that has what StreetPass needs, and
  -- the requests of the interface.
  abbrev pub SetUp :
      Wiface → PhysicalInterface → StreetpassInterface nl os → World nl os → World nl os → Type 0
  SetUp memory phys i w w' =
      (setup_streetpass_interface nl os memory phys default_name w ≡ (ok i, w'))
      × (able nl phys ≡ true)
      × (answer : Wiface) × (map (asked nl os) i.nlsock.sent
          ≡ setup_requests nl os phys.index default_name i.base answer)

  -- The result was announced from its address by a message on the next socket of this world.
  abbrev pub Heard : World nl os → List ℕ × ModuleFilter → Type 0
  Heard w (addr, f) =
      (m : List nl.Nlattr) × Hears nl w.openings m × Announces nl t d (new_attributes nl m) addr f

  -- What is printed of the results of a scan: each of them once, in the order of the addresses.
  abbrev pub Printed : Bool → Addresses → World nl os → Results → Stream → Type 0
  Printed as_character order w res out =
      (out.text ≡ encode_all (result_text order as_character t) (in_order order res))
      × Perm (in_order order res) res
      × Ordered order (in_order order res)
      × All (Heard w) (in_order order res)

  -- Where the program ends without an exception, it has set up an interface on the card 6, which has
  -- what StreetPass needs, the interface was made and joined to the network by the requests of its
  -- constructor, and a scan of five seconds has returned results. What is printed is, for each of
  -- the results, in the order of the addresses, the address and the text of the module filter; and
  -- each was announced, from this address, by a message that came in on the socket of the scan.
  pub main_lem :
      (as_character : Bool) (order : Addresses) (memory : Wiface) (out : Stream)
      (w w' : World nl os)
      → main nl os t d as_character order memory w ≡ (ok out, w')
      → (phys : PhysicalInterface) × (i : StreetpassInterface nl os) × (w₀ : World nl os)
        × (w₁ : World nl os) × (w₂ : World nl os) × (res : Results) × (physical_interface_at nl os 6
              w
            ≡ (ok phys, w₀))
        × SetUp memory phys i w₀ w₁
        × (scan_all nl os t d i.base 5000 w₁ ≡ (ok (res, tt), w₂))
        × Printed as_character order w₁ res out
  unfolding main scan_all
  main_lem as_character order memory out w w' h =
      let (phys, w₀, e, h₁) = >>=-eq-ok (physical_interface_at nl os 6) _ w w' out h in
      let (i, w₁, e₁, h₂) =
        >>=-eq-ok (setup_streetpass_interface nl os memory phys default_name) _ w₀ w' out h₁ in
      let ((res, u), w₂, e₂, h₃) = >>=-eq-ok (scan_all nl os t d i.base 5000) _ w₁ w' out h₂ in
      let (same, end) = State.pure-eq-ok _ out w₂ w' h₃ in
      let shown = print_results_lem order as_character t (in_order order res) [] 10 b' ' in
      let (has, answer, made) = setup_lem nl os memory phys default_name i w₀ w₁ e₁ in
      let filter = no_filter nl os t d in
      let once = Unique-get res (scan-Unique nl os t d filter i.base 5000 tt tt res w₁ w₂ e₂) in
      let heard = All-mono (λ (addr, f) q. heard_lem i res w₁ w₂ addr f e₂ q) res once in
      (
        phys,
        i,
        w₀,
        w₁,
        w₂,
        res,
        e,
        (e₁, has, answer, made),
        e₂,
        (
          ap (λ (s : Stream). s.text) (sym same ∙ shown),
          in_order-Perm order res,
          in_order-Ordered order res,
          in_order-All order (Heard w₁) res heard,
        ),
      )
    where
      heard_lem :
          (i : StreetpassInterface nl os) (res : Results) (w₁ w₂ : World nl os) (addr : List ℕ)
          (f : ModuleFilter)
          → scan nl os t d i.base 5000 (no_filter nl os t d) tt w₁ ≡ (ok (res, tt), w₂)
          → get addr res ≡ some f
          → Heard w₁ (addr, f)
      heard_lem i res w₁ w₂ addr f e₂ q =
          let (m, came, a, s, s', accepted) =
            scan_sound nl os t d (no_filter nl os t d) i.base 5000 tt tt res w₁ w₂ addr f e₂ q in
          (m, came, a)
