-- ===== src/Nl80211/Commands/Requests.antt =====
-- What a command leaves on the socket: Message::put, Socket::send_message and the requests of
-- src/nl80211/commands.cpp.
use libstreetpass.Prelude.{
  ℕ, ◌≤◌, ◌≡◌, refl, sym, ap, ◌∙◌, List, [], ◌∷◌, ◌++◌, append_assoc, append-nil, length, ltb, Bool,
  true, Bool-cases, inl, inr, Option, none, some, if◌then◌else◌, arith,
}
use libstreetpass.Prelude.Result.{
  Result, ok, throws, undefined, stuck, invalid_argument, nl_error, neg, >>=-eq-ok,
}
use libstreetpass.Prelude.State.{continue_with-eq-ok}
use libstreetpass.Prelude.State
use libstreetpass.Libnl.{Libnl, Header, Payload, Put, put_ok, put_failed, u32, bytes, flag}
use libstreetpass.Nl80211.Message
use libstreetpass.Nl80211.Message.{new_message, put, put_all}
use libstreetpass.Nl80211.Attributes.{Attributes}
use libstreetpass.Nl80211.Socket.{
  Socket, Progress, Batch, send_message, received, recv_messages, recv_messages_with,
}
use libstreetpass.Nl80211.Commands.{build, send_request, request, join_ibss}

module _ (nl : Libnl) where
  open nl use {Msg, header, attributes, nlmsg_alloc, genlmsg_put, genlmsg_put_lem, nla_put}

  put_lem :
      (m m' : Msg) (attr : ℕ) (p : Payload) → put nl m attr p ≡ ok m' → nla_put m attr p ≡ put_ok m'
  unfolding put Message.or_nl_error
  put_lem m m' attr p h = of (nla_put m attr p) h
    where
      of : (r : Put Msg) → Message.or_nl_error nl r ≡ ok m' → r ≡ put_ok m'
      of (put_ok x) e = cc
      of (put_failed n) e = cc

  put_all_lem :
      (attrs : List (ℕ × Payload)) (m m' : Msg)
      → put_all nl m attrs ≡ ok m'
      → (header m' ≡ header m) × (attributes m' ≡ attributes m ++ attrs)
  unfolding put_all
  put_all_lem [] m m' h = (ap header (sym (cc h)), ap attributes (sym (cc h)) ∙ sym (append-nil _))
  put_all_lem ((attr, p) ∷ rest) m m' h =
      let (m₁, e₁, h₁) = >>=-eq-ok (put nl m attr p) _ h in
      let (hd, at) = nl.nla_put_lem m m₁ attr p (put_lem m m₁ attr p e₁) in
      let (hd', at') = put_all_lem rest m₁ m' h₁ in
      (
        hd' ∙ hd,
        at'
            ∙ ap (λ (x : List (ℕ × Payload)). x ++ rest) at
            ∙ append_assoc (attributes m) ((attr, p) ∷ []) rest,
      )

  build_lem :
      (cmd id flags : ℕ) (attrs : List (ℕ × Payload)) (m : Msg)
      → build nl cmd id flags attrs ≡ ok m
      → (header m ≡ record { command = cmd; driver_id = id; flags = flags })
        × (attributes m ≡ attrs)
  unfolding build new_message Message.or_bad_alloc
  build_lem cmd id flags attrs m h =
      let h₀ : Header = record { command = cmd; driver_id = id; flags = flags } in
      let (m₁, e₁, h₁) = >>=-eq-ok (new_message nl cmd id flags) _ h in
      let (m₀, e₀, h₂) = >>=-eq-ok (Message.or_bad_alloc nl nlmsg_alloc) _ e₁ in
      let (hd, at) = genlmsg_put_lem m₀ m₁ h₀ (alloc (genlmsg_put m₀ h₀) m₁ h₂) in
      let (hd', at') = put_all_lem attrs m₁ m h₁ in
      (hd' ∙ hd, at' ∙ ap (λ (x : List (ℕ × Payload)). x ++ attrs) at)
    where
      alloc : (o : Option Msg) (x : Msg) → Message.or_bad_alloc nl o ≡ ok x → o ≡ some x
      alloc none x e = cc
      alloc (some y) x e = cc

  -- One message with this header and these attributes has been sent, and nothing else.
  abbrev pub Sent : ℕ → ℕ → List (ℕ × Payload) → Socket nl → Socket nl → Type 0
  Sent cmd flags attrs s s' =
      (m : Msg) × (s'.sent ≡ s.sent ++ m ∷ [])
      × (s'.driver_id ≡ s.driver_id)
      × (header m ≡ record { command = cmd; driver_id = s.driver_id; flags = flags })
      × (attributes m ≡ attrs)

  pub send_message_sent :
      (m : Msg) (s s' : Socket nl)
      → send_message nl m s ≡ (ok tt, s')
      → s' ≡ record s { sent = s.sent ++ m ∷ [] }
  unfolding send_message
  send_message_sent m s s' h = of (nl.nl_send_auto m) h
    where
      of :
          (o : Option ℕ)
          → ◌≡◌ {A = Result (Unit {0}) × Socket nl}
              (elim o [
                | some n ↦ (throws (nl_error (neg n) "Failed to send message"), s)
                | none ↦ (ok tt, record s { sent = s.sent ++ m ∷ [] })
              ])
              (ok tt, s')
          → s' ≡ record s { sent = s.sent ++ m ∷ [] }
      of none e = sym (ap (λ (x : Result (Unit {0}) × Socket nl). x.1) e)
      of (some n) e = cc

  pub send_request-Sent :
      (cmd flags : ℕ) (attrs : List (ℕ × Payload)) (s s' : Socket nl)
      → send_request nl cmd flags attrs s ≡ (ok tt, s')
      → Sent cmd flags attrs s s'
  unfolding send_request
  send_request-Sent cmd flags attrs s s' h =
      let (m, e, h₁) =
        continue_with-eq-ok (λ (x : Msg). send_message nl x) (build nl cmd s.driver_id flags attrs)
          s s' tt h in
      let eq = send_message_sent m s s' h₁ in
      let (hd, at) = build_lem cmd s.driver_id flags attrs m e in
      (m, ap (λ (x : Socket nl). x.sent) eq, ap (λ (x : Socket nl). x.driver_id) eq, hd, at)

  recv_keeps :
      {S : Type 0} (callback : Attributes nl → S → Result (Bool × S)) (arg : S) (timeout : ℕ)
      (s : Socket nl)
      → ((recv_messages_with nl callback arg timeout s).1.sent ≡ s.sent)
        × ((recv_messages_with nl callback arg timeout s).1.driver_id ≡ s.driver_id)
  unfolding recv_messages_with received
  recv_keeps {S = S} callback arg timeout s = keeps nl.nl_cb_alloc _
    where
      keeps :
          (o : Option (Unit {0})) (r : Result (Progress nl S × List (Batch nl)))
          → ((received nl callback s o r).1.sent ≡ s.sent)
            × ((received nl callback s o r).1.driver_id ≡ s.driver_id)
      keeps none r = (refl, refl)
      keeps (some u) (ok (p, rest)) = (refl, refl)
      keeps (some u) (throws e) = (refl, refl)
      keeps (some u) undefined = (refl, refl)
      keeps (some u) stuck = (refl, refl)

  -- A request whose answer is received, by whatever callback, has sent one message.
  pub answered-Sent :
      {S : Type 0} (callback : Attributes nl → S → Result (Bool × S)) (arg x : S) (timeout : ℕ)
      (cmd flags : ℕ) (attrs : List (ℕ × Payload)) (s s' : Socket nl)
      → (State.◌>>◌ (send_request nl cmd flags attrs) (recv_messages_with nl callback arg timeout))
          s
        ≡ (ok x, s')
      → Sent cmd flags attrs s s'
  answered-Sent {S} callback arg x timeout cmd flags attrs s s' h =
      let (u, t, e, h₁) =
        State.>>-eq-ok (send_request nl cmd flags attrs)
          (recv_messages_with nl callback arg timeout) s s' x h in
      let (m, sent, id, hd, at) = send_request-Sent cmd flags attrs s t e in
      let (same, same_id) = recv_keeps callback arg timeout t in
      let after = ap (λ (y : Result S × Socket nl). y.1) (sym h₁) in
      (
        m,
        ap (λ (y : Socket nl). y.sent) after ∙ same ∙ sent,
        ap (λ (y : Socket nl). y.driver_id) after ∙ same_id ∙ id,
        hd,
        at,
      )

  -- A command that is answered without an error has sent one message: its command, the driver of
  -- the socket, no flags, and its attributes in the order of the calls of `put`.
  pub request-Sent :
      (cmd : ℕ) (attrs : List (ℕ × Payload)) (s s' : Socket nl)
      → request nl cmd attrs s ≡ (ok tt, s')
      → Sent cmd 0 attrs s s'
  unfolding request recv_messages
  request-Sent cmd attrs s s' h = answered-Sent (λ attrs u. ok (true, u)) tt tt 0 cmd 0 attrs s s' h

  -- Joining an IBSS is answered without an error only for an SSID of 32 bytes or less, and then the
  -- one message of the command has been sent, with the fixed-frequency flag only where it is asked
  -- for.
  pub join_ibss-Sent :
      (if_idx freq : ℕ) (ssid bssid : List ℕ) (fixed : Bool) (s s' : Socket nl)
      → join_ibss nl if_idx ssid freq fixed bssid s ≡ (ok tt, s')
      → (length ssid ≤ 32)
        × Sent nl.cmd_join_ibss 0
            ((nl.attr_ifindex, u32 if_idx)
              ∷ (nl.attr_ssid, bytes ssid)
              ∷ (nl.attr_wiphy_freq, u32 freq)
              ∷ (nl.attr_mac, bytes bssid)
              ∷ (if fixed then (nl.attr_freq_fixed, flag) ∷ [] else []))
            s
            s'
  unfolding join_ibss
  join_ibss-Sent if_idx freq ssid bssid fixed s s' h = elim (Bool-cases (ltb 32 (length ssid))) [
    | inl long ↦
        let h' : ◌≡◌ {A = Result (Unit {0}) × Socket nl}
            (throws (invalid_argument "SSID is too long"), s) (ok tt, s') =
          rw long at h in
        cc
    | inr short ↦ (ground arith, request-Sent _ _ s s' (rw short at h))
  ]
