-- ===== src/Nl80211/Socket.antt =====
-- Socket of include/nl80211/socket.hpp and src/nl80211/socket.cpp. What the kernel sends comes as a
-- schedule: for each call of nl_recvmsgs the messages that it hands to the callbacks, in order, and
-- the value that the code's unsigned elapsed_ms has after it. The code takes it from the system's
-- clock, which may be set, so it need not grow from one call to the next.
pub mod Receiving
pub mod Loop
pub mod Incoming
pub mod Timed
pub mod Termination
use Prim.Native.String.{String}
use libstreetpass.Prelude.{
  not, ℕ, zero, suc, List, [], ◌∷◌, ◌++◌, ◌==◌, Bool, true, false, ◌&&◌, ◌||◌, ltb, Option, none,
  some, if◌then◌else◌,
}
use libstreetpass.Prelude.Result.{
  Result, Exception, ℤ, pos, negsuc, neg, ok, throws, undefined, stuck, bad_alloc, nl_error,
  throw_if, ◌>>=◌, ◌>>◌,
}
use libstreetpass.Libnl.{Libnl}
use libstreetpass.Nl80211.Attributes.{Attributes, new_attributes}

-- What a callback tells libnl: go on with the next message (NL_OK, NL_SKIP) or stop (NL_STOP).
pub data Action : Type 0 where
  next stop : Action

-- `err > 0`.
abbrev pub is_pos : ℤ → Bool
is_pos (pos zero) = false
is_pos (pos (suc n)) = true
is_pos (negsuc n) = false

module _ (nl : Libnl) where
  open nl use {Msg, Nlattr, nl_send_auto, nl_cb_alloc, nl_syserr2nlerr}

  pub data Event : Type 0 where
    valid : List Nlattr → Event
    ack : Event
    finish : Event
    error : ℕ → Event

  pub record Batch : Type 0 where
    pub events : List Event
    pub elapsed_ms : ℕ

  pub record Socket : Type 0 where
    pub driver_id : ℕ
    pub sent : List Msg
    pub incoming : List Batch

  -- What the constructor of a socket meets: whether nl_socket_alloc had memory, the results of
  -- genl_connect and of genl_ctrl_resolve, and what comes in later.
  pub record Opening : Type 0 where
    pub allocated : Bool
    pub connected : ℤ
    pub resolved : ℤ
    pub incoming : List Batch

  -- `if (res < 0) throw NlError(code, text);`
  unfoldable pub non_negative : ℤ → ℤ → String → Result ℕ
  non_negative (pos n) code text = ok n
  non_negative (negsuc n) code text = throws (nl_error code text)

  -- The constructor. Where the driver is not found it throws with the code of the connection.
  unfoldable pub new_socket : Opening → Result Socket
  unfolding non_negative
  new_socket o = do
    throw_if (not o.allocated) bad_alloc
    res ← non_negative o.connected o.connected "Failed to connect socket"
    id ← non_negative o.resolved o.connected "Failed to resolve nl80211 family"
    ok (record { driver_id = id; sent = []; incoming = o.incoming })

  -- An operation on the socket that may throw; the socket stays changed then.
  abbrev pub M : Type 0 → Type 0
  M A = Socket → Result A × Socket

  unfoldable pub send_message : Msg → M (Unit {0})
  send_message m s = elim (nl_send_auto m) [
    | some n ↦ (throws (nl_error (neg n) "Failed to send message"), s)
    | none ↦ (ok tt, record s { sent = s.sent ++ m ∷ [] })
  ]

  -- The variables `err`, `ex` and `*arg` that the handlers change.
  pub record Progress (S : Type 0) : Type 0 where
    pub err : ℤ
    pub ex : Option Exception
    pub arg : S

  -- The handler of a valid message: `callback` returns whether to go on and the new `*arg`.
  unfoldable pub on_valid :
      {S : Type 0} → Result (Bool × S) → Progress S → Result (Action × Progress S)
  on_valid (ok (true, arg)) p = ok (next, record p { arg = arg })
  on_valid (ok (false, arg)) p = ok (stop, record p { arg = arg; err = pos 0 })
  on_valid (throws e) p = ok (stop, record p { ex = some e; err = negsuc 0 })
  on_valid undefined p = undefined
  on_valid stuck p = stuck

  module _ {S : Type 0} (callback : Attributes nl → S → Result (Bool × S)) where
    -- The four handlers.
    unfoldable pub on_event : Event → Progress S → Result (Action × Progress S)
    on_event (valid attrs) p = on_valid (callback (new_attributes nl attrs) p.arg) p
    on_event ack p = ok (stop, record p { err = pos 0 })
    on_event finish p = ok (next, record p { err = pos 0 })
    on_event (error e) p = ok (stop, record p { err = neg (nl_syserr2nlerr e) })

    -- One call of nl_recvmsgs.
    unfoldable pub deliver : List Event → Progress S → Result (Progress S)
    deliver [] p = ok p
    deliver (e ∷ es) p = on_event e p >>= λ (a, p'). elim a [ stop ↦ ok p' | next ↦ deliver es p' ]

    -- `do { … } while (err > 0 && (elapsed_ms < timeout || !timeout));`
    unfoldable pub recv_loop : ℕ → List Batch → Progress S → Result (Progress S × List Batch)
    recv_loop timeout [] p = stuck
    recv_loop timeout (b ∷ bs) p = deliver b.events p >>= λ p'.
        elim (is_pos p'.err && (ltb b.elapsed_ms timeout || timeout == 0)) [
          | true ↦ recv_loop timeout bs p'
          | false ↦ ok (p', bs)
        ]

    -- `if (ex) rethrow; if (err < 0) throw NlError(err, …);`
    unfoldable pub finish_recv : Progress S → Result S
    finish_recv p = elim p.ex [
      | some e ↦ throws e
      | none ↦ elim p.err [
        | pos n ↦ ok p.arg
        | negsuc n ↦ throws (nl_error (negsuc n) "An error occured while receiving messages")
      ]
    ]

    -- What is returned, given whether the callbacks could be allocated, and what the loop gave.
    unfoldable pub received :
        Socket → Option (Unit {0}) → Result (Progress S × List Batch) → Result S × Socket
    received s none r = (throws bad_alloc, s)
    received s (some u) (ok (p, rest)) = (finish_recv p, record s { incoming = rest })
    received s (some u) (throws e) = (throws e, s)
    received s (some u) undefined = (undefined, s)
    received s (some u) stuck = (stuck, s)

    -- Without disable_seq_check: the schedule has the messages that libnl let through.
    unfoldable pub recv_messages_with : S → ℕ → M S
    unfolding received
    recv_messages_with arg timeout s =
        received s nl_cb_alloc
          (recv_loop timeout s.incoming (record { err = pos 1; ex = none; arg = arg }))

  -- The overload without a callback: a valid message is skipped, and there is no timeout.
  unfoldable pub recv_messages : M (Unit {0})
  recv_messages = recv_messages_with (λ attrs u. ok (true, u)) tt 0
