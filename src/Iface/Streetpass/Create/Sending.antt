-- ===== src/Iface/Streetpass/Create/Sending.antt =====
-- What the steps of the constructor of StreetpassInterface in src/iface/streetpass.cpp leave sent.
use mathlib.Core.List.{map-append}
use libstreetpass.Prelude.{
  ℕ, ◌-◌, ◌≡◌, refl, sym, ap, ◌∙◌, List, [], ◌∷◌, ◌++◌, length, ltb, true, Bool-cases, inl, inr,
  map, append-nil, append_assoc,
}
use libstreetpass.Prelude.Result.{Result, ok, throws, invalid_argument}
use libstreetpass.Libnl.{Libnl, Payload, u32, text, flag}
use libstreetpass.Nl80211.Commands.{new_interface, get_interface}
use libstreetpass.Nl80211.Commands.Parse.{Wiface, no_wiface, parse_interface_message}
use libstreetpass.Nl80211.Commands.Requests.{Sent, answered-Sent}
use libstreetpass.Nl80211.Socket.{Socket, M}
use libstreetpass.Os.{Os}
use libstreetpass.Iface.Streetpass.Create.{Building, on_nlsock, on_world}
use libstreetpass.Iface.World.{W}

module _ (nl : Libnl) where
  pub new_interface-Sent :
      (memory x : Wiface) (wiphy type : ℕ) (name : List ℕ) (s s' : Socket nl)
      → new_interface nl memory wiphy type name true s ≡ (ok x, s')
      → Sent nl nl.cmd_new_interface 0
          ((nl.attr_wiphy, u32 wiphy)
            ∷ (nl.attr_iftype, u32 type)
            ∷ (nl.attr_ifname, text name)
            ∷ (nl.attr_socket_owner, flag)
            ∷ [])
          s
          s'
  unfolding new_interface
  new_interface-Sent memory x wiphy type name s s' h =
      elim (Bool-cases (ltb (nl.ifnamsiz - 1) (length name))) [
        | inl long ↦
            let h' : ◌≡◌ {A = Result Wiface × Socket nl}
                (throws (invalid_argument "Interface name is too long"), s) (ok x, s') =
              rw long at h in
            cc
        | inr short ↦
            answered-Sent nl (parse_interface_message nl) memory x 0 _ 0 _ s s' (rw short at h)
      ]

  pub get_interface-Sent :
      (if_idx : ℕ) (x : Wiface) (s s' : Socket nl)
      → get_interface nl if_idx s ≡ (ok x, s')
      → Sent nl nl.cmd_get_interface 0 ((nl.attr_ifindex, u32 if_idx) ∷ []) s s'
  unfolding get_interface
  get_interface-Sent if_idx x s s' h =
      answered-Sent nl (parse_interface_message nl) no_wiface x 0 _ 0 _ s s' h

module _ (nl : Libnl) (os : Os) where
  pub on_nlsock-eq-ok :
      {A : Type 0} (call : M nl A) (b b' : Building nl os) (a : A)
      → on_nlsock nl os call b ≡ (ok a, b')
      → call b.nlsock ≡ (ok a, b'.nlsock)
  unfolding on_nlsock
  on_nlsock-eq-ok {A = A} call b b' a h =
      ap (λ (x : Result A × Building nl os). (x.0, x.1.nlsock)) h

  pub on_world-nlsock :
      {A : Type 0} (call : W nl os A) (b b' : Building nl os) (a : A)
      → on_world nl os call b ≡ (ok a, b')
      → b'.nlsock ≡ b.nlsock
  unfolding on_world
  on_world-nlsock {A = A} call b b' a h = ap (λ (x : Result A × Building nl os). x.1.nlsock) (sym h)

  -- What a socket has been made to send: commands with their attributes, in order.
  abbrev pub Asked : Type 0
  Asked = List (ℕ × List (ℕ × Payload))

  abbrev pub asked : nl.Msg → ℕ × List (ℕ × Payload)
  asked m = ((nl.header m).command, nl.attributes m)

  abbrev pub Sends : Asked → Socket nl → Socket nl → Type 0
  Sends ops s s' = (ms : List nl.Msg) × (s'.sent ≡ s.sent ++ ms) × (map asked ms ≡ ops)

  pub Sends-none : (s s' : Socket nl) → s' ≡ s → Sends [] s s'
  Sends-none s s' e = ([], ap (λ (x : Socket nl). x.sent) e ∙ sym (append-nil _), refl)

  pub Sends-one :
      (cmd : ℕ) (attrs : List (ℕ × Payload)) (s s' : Socket nl)
      → Sent nl cmd 0 attrs s s'
      → Sends ((cmd, attrs) ∷ []) s s'
  Sends-one cmd attrs s s' (m, sent, id, hd, at) = (m ∷ [], sent, rw (hd, at) refl)

  pub Sends-append :
      (ops ops' : Asked) (s t u : Socket nl)
      → Sends ops s t
      → Sends ops' t u
      → Sends (ops ++ ops') s u
  Sends-append ops ops' s t u (ms, e, q) (ms', e', q') = (
    ms ++ ms',
    e' ∙ ap (λ (x : List nl.Msg). x ++ ms') e ∙ append_assoc s.sent ms ms',
    map-append asked ms ms' ∙ rw (q, q') refl,
  )
