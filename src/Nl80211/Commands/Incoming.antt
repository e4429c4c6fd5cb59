-- ===== src/Nl80211/Commands/Incoming.antt =====
-- What a request of src/nl80211/commands.cpp leaves of what comes in.
use libstreetpass.Prelude.{ℕ, ◌≡◌, sym, ap, subst, List, true}
use libstreetpass.Prelude.Result.{Result, ok}
use libstreetpass.Prelude.State.{continue_with-eq-ok, >>-eq-ok}
use libstreetpass.Libnl.{Libnl, Payload}
use libstreetpass.Nl80211.Socket.{Socket, Batch, send_message, recv_messages}
use libstreetpass.Nl80211.Socket.Loop.{Brings}
use libstreetpass.Nl80211.Socket.Incoming.{recv_messages_with-Brings}
use libstreetpass.Nl80211.Commands.{build, send_request, request, register_frame}
use libstreetpass.Nl80211.Commands.Requests.{send_message_sent}

module _ (nl : Libnl) where
  open nl use {Msg, Nlattr}

  send_request-incoming :
      (cmd flags : ℕ) (attrs : List (ℕ × Payload)) (s s' : Socket nl)
      → send_request nl cmd flags attrs s ≡ (ok tt, s')
      → s'.incoming ≡ s.incoming
  unfolding send_request
  send_request-incoming cmd flags attrs s s' h =
      let (m, e, h₁) =
        continue_with-eq-ok (λ (x : Msg). send_message nl x) (build nl cmd s.driver_id flags attrs)
          s s' tt h in
      ap (λ (x : Socket nl). x.incoming) (send_message_sent nl m s s' h₁)

  pub request-Brings :
      (cmd : ℕ) (attrs : List (ℕ × Payload)) (s s' : Socket nl) (m : List Nlattr)
      → request nl cmd attrs s ≡ (ok tt, s')
      → Brings nl s'.incoming m
      → Brings nl s.incoming m
  unfolding request recv_messages
  request-Brings cmd attrs s s' m h b =
      let (u, t, e, h₁) = >>-eq-ok (send_request nl cmd 0 attrs) (recv_messages nl) s s' tt h in
      let b' = subst (λ (x : Result (Unit {0}) × Socket nl). Brings nl x.1.incoming m) (sym h₁) b in
      subst (λ (x : List (Batch nl)). Brings nl x m) (send_request-incoming cmd 0 attrs s t e)
        (recv_messages_with-Brings nl (λ attrs u. ok (true, u)) 0 tt t m b')

  pub register_frame-Brings :
      (if_idx type : ℕ) (match : List ℕ) (s s' : Socket nl) (m : List Nlattr)
      → register_frame nl if_idx type match s ≡ (ok tt, s')
      → Brings nl s'.incoming m
      → Brings nl s.incoming m
  unfolding register_frame
  register_frame-Brings if_idx type match s s' m h b = request-Brings _ _ s s' m h b
