-- ===== src/Iface/Streetpass/Create/Joined.antt =====
-- What the constructor of StreetpassInterface in src/iface/streetpass.cpp sends on its own socket.
use libstreetpass.Prelude.{
  ℕ, ◌≡◌, sym, ap, ◌∙◌, subst, List, [], ◌∷◌, ◌++◌, ◌==◌, Bool, true, false, map,
}
use libstreetpass.Prelude.Result.{Result, ok, throws, undefined, stuck}
use libstreetpass.Prelude.State
use libstreetpass.Prelude.State.{>>=-eq-ok, >>-eq-ok}
use libstreetpass.Libnl.{Libnl, u32, text, bytes, flag}
use libstreetpass.Nl80211.Commands.{new_interface, get_interface, set_interface_mode, join_ibss}
use libstreetpass.Nl80211.Commands.Parse.{Wiface}
use libstreetpass.Nl80211.Commands.Requests.{request-Sent, join_ibss-Sent}
use libstreetpass.Nl80211.Socket.{Socket, Opening, new_socket}
use libstreetpass.Os.{Os}
use libstreetpass.Iface.Physical.{PhysicalInterface}
use libstreetpass.Iface.Streetpass.{ssid, channel_freq}
use libstreetpass.Iface.Streetpass.Create.{
  StreetpassInterface, Building, new_streetpass_interface, built, configure, on_nlsock, on_world,
  build, ensure_adhoc, ensure_up,
}
use libstreetpass.Iface.Virtual.{VirtualInterface, new_virtual_interface, is_up, up, down}
use libstreetpass.Iface.World.{World}
use libstreetpass.Iface.World.Opened.{open_socket-eq-ok}
use libstreetpass.Iface.Streetpass.Create.Sending.{
  new_interface-Sent, get_interface-Sent, on_nlsock-eq-ok, on_world-nlsock, Asked, asked, Sends,
  Sends-none, Sends-one, Sends-append,
}

module _ (nl : Libnl) (os : Os) where
  -- Only an interface that is not in the ad-hoc mode is put into it.
  abbrev pub mode_requests : VirtualInterface → Bool → Asked nl os
  mode_requests v true = []
  mode_requests v false =
      (
        nl.cmd_set_interface,
        (nl.attr_ifindex, u32 v.index) ∷ (nl.attr_iftype, u32 nl.iftype_adhoc) ∷ [],
      )
      ∷ []

  ensure_adhoc-Sends :
      (v : VirtualInterface) (adhoc : Bool) (b b' : Building nl os)
      → ensure_adhoc nl os v adhoc b ≡ (ok tt, b')
      → Sends nl os (mode_requests v adhoc) b.nlsock b'.nlsock
  unfolding ensure_adhoc set_interface_mode
  ensure_adhoc-Sends v true b b' h =
      Sends-none nl os b.nlsock b'.nlsock
        (ap (λ (x : Result (Unit {0}) × Building nl os). x.1.nlsock) (sym h))
  ensure_adhoc-Sends v false b b' h =
      let (u, b₁, e, h₁) = >>-eq-ok (on_world nl os (down nl os v)) _ b b' tt h in
      let sent = request-Sent nl _ _ b₁.nlsock b'.nlsock (on_nlsock-eq-ok nl os _ b₁ b' tt h₁) in
      Sends-append nl os [] _ b.nlsock b₁.nlsock b'.nlsock
        (Sends-none nl os b.nlsock b₁.nlsock (on_world-nlsock nl os (down nl os v) b b₁ u e))
        (Sends-one nl os _ _ b₁.nlsock b'.nlsock sent)

  ensure_up-nlsock :
      (v : VirtualInterface) (running : Bool) (b b' : Building nl os)
      → ensure_up nl os v running b ≡ (ok tt, b')
      → b'.nlsock ≡ b.nlsock
  unfolding ensure_up
  ensure_up-nlsock v true b b' h =
      ap (λ (x : Result (Unit {0}) × Building nl os). x.1.nlsock) (sym h)
  ensure_up-nlsock v false b b' h = on_world-nlsock nl os (up nl os v) b b' tt h

  -- The mode, and the join.
  abbrev pub configure_requests : VirtualInterface → Wiface → Asked nl os
  configure_requests v w =
      mode_requests v (w.type == nl.iftype_adhoc)
      ++ (
        nl.cmd_join_ibss,
        (nl.attr_ifindex, u32 v.index)
            ∷ (nl.attr_ssid, bytes ssid)
            ∷ (nl.attr_wiphy_freq, u32 channel_freq)
            ∷ (nl.attr_mac, bytes w.mac)
            ∷ (nl.attr_freq_fixed, flag)
            ∷ [],
      )
        ∷ []

  configure-Sends :
      (v : VirtualInterface) (w : Wiface) (b b' : Building nl os)
      → configure nl os v w b ≡ (ok tt, b')
      → Sends nl os (configure_requests v w) b.nlsock b'.nlsock
  unfolding configure
  configure-Sends v w b b' h =
      let adhoc = w.type == nl.iftype_adhoc in
      let join = join_ibss nl v.index ssid channel_freq true w.mac in
      let (u, b₁, e₁, h₁) = >>-eq-ok (ensure_adhoc nl os v adhoc) _ b b' tt h in
      let (running, b₂, e₂, h₂) = >>=-eq-ok (on_world nl os (is_up nl os v)) _ b₁ b' tt h₁ in
      let (u', b₃, e₃, h₃) =
        >>-eq-ok (ensure_up nl os v running) (on_nlsock nl os join) b₂ b' tt h₂ in
      let kept : b₃.nlsock ≡ b₁.nlsock =
        ensure_up-nlsock v running b₂ b₃ e₃
        ∙ on_world-nlsock nl os (is_up nl os v) b₁ b₂ running e₂ in
      let (short, joined) =
        join_ibss-Sent nl v.index channel_freq ssid w.mac true b₃.nlsock b'.nlsock
          (on_nlsock-eq-ok nl os join b₃ b' tt h₃) in
      Sends-append nl os _ _ b.nlsock b₁.nlsock b'.nlsock (ensure_adhoc-Sends v adhoc b b₁ e₁) (
        Sends-append nl os [] _ b₁.nlsock b₃.nlsock b'.nlsock
          (Sends-none nl os b₁.nlsock b₃.nlsock kept)
          (Sends-one nl os _ _ b₃.nlsock b'.nlsock joined))

  -- All of them: the new interface, the question for it, and the above.
  abbrev pub setup_requests : ℕ → List ℕ → VirtualInterface → Wiface → Asked nl os
  setup_requests wiphy name v w =
      (
        nl.cmd_new_interface,
        (nl.attr_wiphy, u32 wiphy)
            ∷ (nl.attr_iftype, u32 nl.iftype_adhoc)
            ∷ (nl.attr_ifname, text name)
            ∷ (nl.attr_socket_owner, flag)
            ∷ [],
      )
      ∷ (nl.cmd_get_interface, (nl.attr_ifindex, u32 v.index) ∷ [])
      ∷ configure_requests v w

  -- What new_interface and then get_interface, for the index of the interface it made, return on a
  -- socket.
  abbrev pub Answers : Wiface → ℕ → List ℕ → Socket nl → Wiface → Wiface → Type 0
  Answers memory wiphy name s made answer =
      (s₁ : Socket nl) × (s₂ : Socket nl) × (new_interface nl memory wiphy nl.iftype_adhoc name true
          s
        ≡ (ok made, s₁))
      × (get_interface nl made.index s₁ ≡ (ok answer, s₂))

  build-Sends :
      (memory : Wiface) (wiphy : ℕ) (name : List ℕ) (v : VirtualInterface) (b b' : Building nl os)
      → build nl os memory wiphy name b ≡ (ok v, b')
      → (made : Wiface) × (answer : Wiface) × Answers memory wiphy name b.nlsock made answer
        × (v ≡ new_virtual_interface made.index)
        × Sends nl os (setup_requests wiphy name v answer) b.nlsock b'.nlsock
  unfolding build new_virtual_interface
  build-Sends memory wiphy name v b b' h =
      let new = new_interface nl memory wiphy nl.iftype_adhoc name true in
      let (w, b₁, e₁, h₁) = >>=-eq-ok (on_nlsock nl os new) _ b b' v h in
      let v₀ = new_virtual_interface w.index in
      let ask = get_interface nl v₀.index in
      let (w', b₂, e₂, h₂) = >>=-eq-ok (on_nlsock nl os ask) _ b₁ b' v h₁ in
      let (u, b₃, e₃, h₃) = >>-eq-ok (configure nl os v₀ w') (State.pure v₀) b₂ b' v h₂ in
      let (same_v, same_b) = State.pure-eq-ok v₀ v b₃ b' h₃ in
      let made = on_nlsock-eq-ok nl os new b b₁ w e₁ in
      let answered = on_nlsock-eq-ok nl os ask b₁ b₂ w' e₂ in
      let created =
        new_interface-Sent nl memory w wiphy nl.iftype_adhoc name b.nlsock b₁.nlsock made in
      let got = get_interface-Sent nl v₀.index w' b₁.nlsock b₂.nlsock answered in
      let whole : Sends nl os (setup_requests wiphy name v₀ w') b.nlsock b₃.nlsock =
        Sends-append nl os _ _ b.nlsock b₁.nlsock b₃.nlsock
          (Sends-one nl os _ _ b.nlsock b₁.nlsock created)
          (Sends-append nl os _ _ b₁.nlsock b₂.nlsock b₃.nlsock
            (Sends-one nl os _ _ b₁.nlsock b₂.nlsock got) (configure-Sends v₀ w' b₂ b₃ e₃)) in
      (
        w,
        w',
        (b₁.nlsock, b₂.nlsock, made, answered),
        sym same_v,
        subst
            (λ (x : VirtualInterface).
              Sends nl os (setup_requests wiphy name x w') b.nlsock b'.nlsock)
            same_v
            (subst
              (λ (x : Building nl os).
                Sends nl os (setup_requests wiphy name v₀ w') b.nlsock x.nlsock)
              same_b whole),
      )

  built-eq-ok :
      (x : Result VirtualInterface × Building nl os) (i : StreetpassInterface nl os)
      (w' : World nl os)
      → built nl os x ≡ (ok i, w')
      → (b : Building nl os) × (x ≡ (ok i.base, b)) × (b.nlsock ≡ i.nlsock)
  unfolding built
  built-eq-ok (ok v, b) i w' h =
      let same : record { base = v; nlsock = b.nlsock } ≡ i = cc h in
      (
        b,
        ap (λ (y : StreetpassInterface nl os). (ok y.base, b)) same,
        ap (λ (y : StreetpassInterface nl os). y.nlsock) same,
      )
  built-eq-ok (throws e, b) i w' h = cc
  built-eq-ok (undefined, b) i w' h = cc
  built-eq-ok (stuck, b) i w' h = cc

  -- A StreetPass interface whose constructor returns was made on the socket of the next opening.
  -- new_interface returned its index on this socket, and get_interface then an answer for it. What
  -- has been sent on the socket, which the interface keeps, is the new ad-hoc interface of the
  -- physical one, the question for it, the ad-hoc mode if the type in this answer is another, and
  -- the join of the StreetPass network at its frequency with the address in this answer, in this
  -- order and nothing else.
  pub new_streetpass_interface-setup_requests :
      (memory : Wiface) (phys : PhysicalInterface) (name : List ℕ) (i : StreetpassInterface nl os)
      (w w' : World nl os)
      → new_streetpass_interface nl os memory phys name w ≡ (ok i, w')
      → (o : Opening nl) × (rest : List (Opening nl)) × (s : Socket nl) × (made : Wiface)
        × (answer : Wiface) × (w.openings ≡ o ∷ rest)
        × (new_socket nl o ≡ ok s)
        × Answers memory phys.index name s made answer
        × (i.base ≡ new_virtual_interface made.index)
        × (map (asked nl os) i.nlsock.sent ≡ setup_requests phys.index name i.base answer)
  unfolding new_streetpass_interface
  new_streetpass_interface-setup_requests memory phys name i w w' h =
      let (s, rest, heard, fresh, (o, first, opened), h₁) =
        open_socket-eq-ok nl os _ w.openings w w' i h in
      let (b, e, kept) = built-eq-ok _ i w' h₁ in
      let (made, answer, answers, base, (ms, sent, same)) =
        build-Sends memory phys.index name i.base _ b e in
      let all : i.nlsock.sent ≡ ms =
        ap (λ (x : Socket nl). x.sent) (sym kept)
        ∙ sent
        ∙ ap (λ (x : List nl.Msg). x ++ ms) fresh in
      (o, rest, s, made, answer, first, opened, answers, base, ap (map (asked nl os)) all ∙ same)
