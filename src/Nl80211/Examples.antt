-- ===== src/Nl80211/Examples.antt =====
-- The properties of the nl80211 client at concrete messages.
use libstreetpass.Prelude.{ℕ, ◌+◌, ◌≡◌, ◌≤◌, refl, List, [], ◌∷◌, Bool, true, arith, inl, inr}
use libstreetpass.Prelude.Result.{Result, ok, throws, nl_error, negsuc, Settled}
use libstreetpass.Prelude.State
use libstreetpass.Libnl.{u32, bytes, flag}
use libstreetpass.Libnl.Sample.{sample_nl, SampleAttr}
use libstreetpass.Nl80211.Attributes.{Attributes, new_attributes, find}
use libstreetpass.Nl80211.Attributes
use libstreetpass.Nl80211.Attributes.Typed.{get_u32s-memories}
use libstreetpass.Nl80211.Commands.{join_ibss, request}
use libstreetpass.Nl80211.Commands
use libstreetpass.Nl80211.Commands.Parse.{Wiphy, no_wiphy}
use libstreetpass.Nl80211.Commands.Parse
use libstreetpass.Nl80211.Commands.Listing.{Distinct, on_wiphy-Distinct}
use libstreetpass.Nl80211.Commands.Requests.{Sent, request-Sent, join_ibss-Sent}
use libstreetpass.Nl80211.Message
use libstreetpass.Nl80211.Socket.{
  Socket, Batch, Event, valid, ack, finish, error, recv_messages_with,
}
use libstreetpass.Nl80211.Socket
use libstreetpass.Nl80211.Socket.Receiving.{recv_error, recv_dump}
use libstreetpass.Nl80211.Socket.Termination.{recv_messages_with-Settled}

-- Opens the definitions that the runs compute with.
run : Unit {0}
unfolding Message.or_bad_alloc Message.new_message Message.or_nl_error Message.put Message.put_all
    Attributes.add_attribute Attributes.add_attributes Attributes.new_attributes Attributes.lookup
    Attributes.or_not_found Attributes.find Socket.send_message Socket.on_valid Socket.on_event
    Socket.deliver Socket.recv_loop Socket.finish_recv Socket.recv_messages_with
    Socket.recv_messages State.continue_with State.◌>>=◌ State.◌>>◌ Commands.build
    Commands.send_request Commands.request Commands.join_ibss
run = tt

-- A socket on which an acknowledgement comes in.
abbrev acked : Socket sample_nl
acked = record {
  driver_id = 28;
  sent = [];
  incoming = record { events = ack ∷ []; elapsed_ms = 1 } ∷ [];
}

abbrev delete : Socket sample_nl
delete = record {
  driver_id = 28;
  sent = (record { command = 8; driver_id = 28; flags = 0 }, (3, u32 5) ∷ []) ∷ [];
  incoming = [];
}

request-Sent_example : Sent sample_nl 8 0 ((3, u32 5) ∷ []) acked delete
unfolding run
request-Sent_example = request-Sent sample_nl 8 ((3, u32 5) ∷ []) acked delete refl

abbrev ssid : List ℕ
ssid = 78 ∷ 105 ∷ 110 ∷ []

abbrev mac : List ℕ
mac = 2 ∷ 0 ∷ 0 ∷ 0 ∷ 0 ∷ 1 ∷ []

abbrev joined : Socket sample_nl
joined = record {
  driver_id = 28;
  sent =
      (
        record { command = 43; driver_id = 28; flags = 0 },
        (3, u32 5) ∷ (52, bytes ssid) ∷ (38, u32 2412) ∷ (6, bytes mac) ∷ (60, flag) ∷ [],
      )
      ∷ [];
  incoming = [];
}

join_ibss-Sent_example :
    (3 ≤ 32)
    × Sent sample_nl 43 0
        ((3, u32 5) ∷ (52, bytes ssid) ∷ (38, u32 2412) ∷ (6, bytes mac) ∷ (60, flag) ∷ [])
        acked
        joined
unfolding run
join_ibss-Sent_example = join_ibss-Sent sample_nl 5 2412 ssid mac true acked joined refl

-- A callback that counts the messages.
abbrev counting : Attributes sample_nl → ℕ → Result (Bool × ℕ)
counting a n = ok (true, 1 + n)

-- The kernel reports error 16, and a message follows it.
abbrev refused : Socket sample_nl
refused = record {
  driver_id = 28;
  sent = [];
  incoming =
      record { events = error 16 ∷ ack ∷ []; elapsed_ms = 1 }
      ∷ record { events = ack ∷ []; elapsed_ms = 2 }
      ∷ [];
}

recv_error_example : recv_messages_with sample_nl counting 0 500 refused ≡ (
  throws (nl_error (negsuc 16) "An error occured while receiving messages"),
  record refused { incoming = record { events = ack ∷ []; elapsed_ms = 2 } ∷ [] },
)
recv_error_example =
    recv_error sample_nl counting refused 0 500 16 1 (ack ∷ [])
      (record { events = ack ∷ []; elapsed_ms = 2 } ∷ []) refl refl

abbrev answer : List SampleAttr
answer = (1, 5 ∷ []) ∷ []

-- Two readings with three messages.
abbrev dumped : Socket sample_nl
dumped = record {
  driver_id = 28;
  sent = [];
  incoming =
      record { events = valid answer ∷ valid answer ∷ []; elapsed_ms = 1 }
      ∷ record { events = valid answer ∷ finish ∷ []; elapsed_ms = 2 }
      ∷ [];
}

recv_dump_example :
    recv_messages_with sample_nl counting 0 0 dumped ≡ (ok 3, record dumped { incoming = [] })
recv_dump_example =
    recv_dump sample_nl counting (λ a n. 1 + n) (λ a n. refl) dumped
      ((answer ∷ answer ∷ [], 1) ∷ []) (answer ∷ []) 2 [] 0 refl refl

-- Two attributes of type 57, of which the second is read: two numbers and a byte.
get_u32s-memories_example :
    Attributes.get_u32s sample_nl
      (new_attributes sample_nl
        ((57, []) ∷ (57, 4 ∷ 172 ∷ 15 ∷ 0 ∷ 1 ∷ 1 ∷ 0 ∷ 0 ∷ 9 ∷ []) ∷ (3, 5 ∷ []) ∷ []))
      57
    ≡ ok (0x000FAC04 ∷ 257 ∷ [])
get_u32s-memories_example =
    get_u32s-memories sample_nl ((57, []) ∷ []) ((3, 5 ∷ []) ∷ [])
      (57, 4 ∷ 172 ∷ 15 ∷ 0 ∷ 1 ∷ 1 ∷ 0 ∷ 0 ∷ 9 ∷ []) (0x000FAC04 ∷ 257 ∷ []) (9 ∷ [])
      ((λ e. omega (arith, e)), tt) refl (omega arith) (omega arith, (omega arith, tt))

abbrev wiphy_0 : Wiphy
wiphy_0 = record no_wiphy { index = 0; name = 112 ∷ [] }

abbrev wiphy_1 : Wiphy
wiphy_1 = record no_wiphy { index = 1; name = 113 ∷ [] }

-- A device without commands, modes, ciphers and bands.
abbrev wiphy_1_attrs : Attributes sample_nl
wiphy_1_attrs =
    new_attributes sample_nl
      ((1, 1 ∷ 0 ∷ 0 ∷ 0 ∷ []) ∷ (2, 113 ∷ []) ∷ (50, []) ∷ (32, []) ∷ (57, []) ∷ (22, []) ∷ [])

on_wiphy-Distinct_example :
    (true ≡ true) × Distinct (λ (w : Wiphy). w.index) (wiphy_0 ∷ wiphy_1 ∷ [])
unfolding run Parse.on_wiphy Parse.after_wiphy_index Parse.parse_wiphy_message Parse.parse_bands
    Parse.insert_values Parse.insert_all Attributes.get_u32 Attributes.get_string
    Attributes.get_nested Attributes.get_u32s Attributes.words
on_wiphy-Distinct_example =
    on_wiphy-Distinct sample_nl wiphy_1_attrs (wiphy_0 ∷ []) (wiphy_0 ∷ wiphy_1 ∷ []) true tt refl

-- No message ends the receive, and the second reading ends after the time.
abbrev silent : Socket sample_nl
silent = record {
  driver_id = 28;
  sent = [];
  incoming =
      record { events = valid answer ∷ []; elapsed_ms = 20 }
      ∷ record { events = []; elapsed_ms = 500 }
      ∷ [];
}

recv_messages_with-Settled_example : Settled (recv_messages_with sample_nl counting 0 500 silent).0
recv_messages_with-Settled_example =
    recv_messages_with-Settled sample_nl counting (λ a n. tt) 500 0 silent (omega arith)
      (inr (inl (omega arith)))
