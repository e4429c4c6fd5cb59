-- ===== src/Iface/Streetpass/Scan/Associate.antt =====
-- What StreetpassInterface::associate of src/iface/streetpass.cpp prints of a peer.
use libstreetpass.Prelude.{
  ℕ, ◌≡◌, refl, ap, ◌∙◌, subst, List, Bool, Bool-cases, true, false, inl, inr, sym, ◌⊎◌, same,
  same→eq, if◌then◌else◌,
}
use libstreetpass.Prelude.Result.{Result, ok, ◌>>=◌}
use libstreetpass.Prelude.State
use libstreetpass.Libnl.{Libnl}
use libstreetpass.Nl80211.Attributes.{new_attributes}
use libstreetpass.Os.{Os}
use libstreetpass.Text.{Stream, put, end_line}
use libstreetpass.Tins.{Tins}
use libstreetpass.Tins.Dot11.{Dot11}
use libstreetpass.Cec.ModuleFilter.{ModuleFilter}
use libstreetpass.Iface.Streetpass.Scan.{
  Results, emplace, collect, scan, is_peer, print_found, associate,
}
use libstreetpass.Iface.Streetpass.Scan.Handler.{Announces}
use libstreetpass.Iface.Virtual.{VirtualInterface}
use libstreetpass.Iface.World.{World}
use libstreetpass.Iface.World.Opened.{Hears}
use libstreetpass.Iface.Streetpass.Scan.Sound.{scan-keeps}

module _ (nl : Libnl) (os : Os) (t : Tins) (d : Dot11) where
  open nl use {Nlattr}

  -- The peer was heard: a message of the next socket announces some filter from its address.
  abbrev pub Heard : World nl os → List ℕ → Type 0
  Heard w peer =
      (m : List Nlattr) × (f : ModuleFilter) × Hears nl w.openings m
      × Announces nl t d (new_attributes nl m) peer f

  is_peer-Heard :
      (w : World nl os) (peer : List ℕ) (m : List Nlattr) (addr : List ℕ) (f : ModuleFilter)
      (y₁ y₂ : Results × Bool) (b : Bool)
      → Hears nl w.openings m
      → Announces nl t d (new_attributes nl m) addr f
      → (y₁.1 ≡ true → Heard w peer)
      → collect nl os t d (is_peer nl os t d peer) addr f y₁ ≡ ok (b, y₂)
      → y₂.1 ≡ true
      → Heard w peer
  unfolding collect is_peer
  is_peer-Heard w peer m addr f (results, found) y₂ b heard a before h = of (same addr peer) refl h
    where
      of :
          (here : Bool)
          → same addr peer ≡ here
          → ◌≡◌ {A = Result (Bool × (Results × Bool))}
              ((if here then ok (false, true) else ok (true, found)) >>= λ (accepted, s').
                ok (true, (if accepted then emplace results addr f else results, s')))
              (ok (b, y₂))
          → y₂.1 ≡ true
          → Heard w peer
      of true e q r =
          let at = same→eq addr peer e in
          (m, f, heard, subst (λ (x : List ℕ). Announces nl t d (new_attributes nl m) x f) at a)
      of false e q r =
          let same_y : (emplace results addr f, found) ≡ y₂ = cc q in
          before (ap (λ (x : Results × Bool). x.1) same_y ∙ r)

  -- Where associate ends without an exception, it has printed that the peer could not be found, or
  -- that it was found, and then the peer has been heard with some filter during the scan.
  pub associate_sound :
      (v : VirtualInterface) (timeout : ℕ) (peer : List ℕ) (f : ModuleFilter) (out out' : Stream)
      (w w' : World nl os)
      → associate nl os t d v timeout peer f out w ≡ (ok out', w')
      → (out' ≡ end_line (put "-- Could not find peer --" out))
        ⊎ ((out' ≡ end_line (put "-- Found peer streetpass probe request --" out)) × Heard w peer)
  unfolding associate print_found
  associate_sound v timeout peer f out out' w w' h =
      let ((results, found), w₁, q, q₁) =
        State.>>=-eq-ok (scan nl os t d v timeout (is_peer nl os t d peer) false) _ w w' out' h in
      let (printed, e) = State.pure-eq-ok (print_found found out) out' w₁ w' q₁ in
      let heard =
        scan-keeps nl os t d (is_peer nl os t d peer) (λ y. y.1 ≡ true → Heard w peer) v timeout
          false (results, found) w w₁
          (λ m addr f y₁ y₂ b heard a before q.
            is_peer-Heard w peer m addr f y₁ y₂ b heard a before q)
          (λ q. cc q) q in
      elim (Bool-cases found) [
        | inl e₁ ↦ inr (sym printed ∙ ap (λ x. print_found x out) e₁, heard e₁)
        | inr e₀ ↦ inl (sym printed ∙ ap (λ x. print_found x out) e₀)
      ]
