-- ===== src/Nl80211/Socket/Termination.antt =====
-- A receive with a timeout ends.
use libstreetpass.Prelude.{
  ℕ, ◌≤◌, ◌<◌, ◌≡◌, refl, List, [], ◌∷◌, Bool, true, false, ◌&&◌, ◌||◌, ◌==◌, ltb, ◌⊎◌, inl, inr,
  Option, none, some, arith,
}
use libstreetpass.Prelude.Result.{
  Result, Exception, ℤ, pos, negsuc, ok, throws, undefined, stuck, Settled, >>=-Settled, nl_error,
}
use libstreetpass.Libnl.{Libnl}
use libstreetpass.Nl80211.Attributes.{Attributes, new_attributes}
use libstreetpass.Nl80211.Socket.{
  Action, next, stop, is_pos, Event, valid, ack, finish, error, Batch, Socket, Progress, on_valid,
  on_event, deliver, recv_loop, finish_recv, received, recv_messages_with,
}
use libstreetpass.Nl80211.Socket.Loop.{RunsOut}

module _ (nl : Libnl) {S : Type 0} (callback : Attributes nl → S → Result (Bool × S))
    (settles : (a : Attributes nl) (x : S) → Settled (callback a x)) where
  on_valid-Settled :
      (r : Result (Bool × S)) (p : Progress nl S) → Settled r → Settled (on_valid nl r p)
  unfolding on_valid
  on_valid-Settled (ok (true, x)) p h = tt
  on_valid-Settled (ok (false, x)) p h = tt
  on_valid-Settled (throws e) p h = tt
  on_valid-Settled undefined p h = h
  on_valid-Settled stuck p h = h

  on_event-Settled : (e : Event nl) (p : Progress nl S) → Settled (on_event nl callback e p)
  unfolding on_event
  on_event-Settled (valid m) p = on_valid-Settled _ p (settles (new_attributes nl m) p.arg)
  on_event-Settled ack p = tt
  on_event-Settled finish p = tt
  on_event-Settled (error n) p = tt

  deliver-Settled : (es : List (Event nl)) (p : Progress nl S) → Settled (deliver nl callback es p)
  unfolding deliver
  deliver-Settled [] p = tt
  deliver-Settled (e ∷ es) p =
      >>=-Settled (on_event nl callback e p) _ (on_event-Settled e p)
        λ (a, p') q. after a p' (deliver-Settled es p')
    where
      after :
          (a : Action) (p' : Progress nl S)
          → Settled (deliver nl callback es p')
          → Settled (elim a [ stop ↦ ok p' | next ↦ deliver nl callback es p' ])
      after stop p' h = tt
      after next p' h = h

  recv_loop-Settled :
      (timeout : ℕ) (bs : List (Batch nl)) (p : Progress nl S)
      → 0 < timeout
      → RunsOut nl timeout bs
      → Settled (recv_loop nl callback timeout bs p)
  unfolding recv_loop
  recv_loop-Settled timeout [] p pos_timeout out = absurd out
  recv_loop-Settled timeout (b ∷ bs) p pos_timeout out =
      >>=-Settled (deliver nl callback b.events p) _ (deliver-Settled b.events p)
        λ p' q. after p' (is_pos p'.err) out (recv_loop-Settled timeout bs p' pos_timeout)
    where
      again : ℕ → Bool
      again ms = ltb ms timeout || timeout == 0

      late : (ms : ℕ) → timeout ≤ ms → again ms ≡ false
      late ms h = ground arith

      choose :
          (p' : Progress nl S) (go : Bool)
          → (go ≡ true → Settled (recv_loop nl callback timeout bs p'))
          → Settled {A = Progress nl S × List (Batch nl)}
              (elim go [ true ↦ recv_loop nl callback timeout bs p' | false ↦ ok (p', bs) ])
      choose p' true h = h refl
      choose p' false h = tt

      after :
          (p' : Progress nl S) (live : Bool)
          → (timeout ≤ b.elapsed_ms) ⊎ RunsOut nl timeout bs
          → (RunsOut nl timeout bs → Settled (recv_loop nl callback timeout bs p'))
          → Settled {A = Progress nl S × List (Batch nl)} (elim (live && again b.elapsed_ms) [
            | true ↦ recv_loop nl callback timeout bs p'
            | false ↦ ok (p', bs)
          ])
      after p' false o h = tt
      after p' true (inl o) h =
          choose p' (again b.elapsed_ms) (λ q. absurd (cc (q, late b.elapsed_ms o)))
      after p' true (inr o) h = choose p' (again b.elapsed_ms) (λ q. h o)

  finish_recv-Settled : (p : Progress nl S) → Settled (finish_recv nl callback p)
  unfolding finish_recv
  finish_recv-Settled p = of p.ex p.err
    where
      of :
          (ex : Option Exception) (err : ℤ)
          → Settled {A = S} (elim ex [
            | some e ↦ throws e
            | none ↦ elim err [
              | pos n ↦ ok p.arg
              | negsuc n ↦ throws (nl_error (negsuc n) "An error occured while receiving messages")
            ]
          ])
      of (some e) err = tt
      of none (pos n) = tt
      of none (negsuc n) = tt

  -- With a timeout, and a callback that returns or throws, a receive returns or throws if some
  -- reading ends when the time is up, whatever messages come in.
  pub recv_messages_with-Settled :
      (timeout : ℕ) (x : S) (s : Socket nl)
      → 0 < timeout
      → RunsOut nl timeout s.incoming
      → Settled (recv_messages_with nl callback x timeout s).0
  unfolding recv_messages_with received
  recv_messages_with-Settled timeout x s pos_timeout out =
      of nl.nl_cb_alloc _ (recv_loop-Settled timeout s.incoming _ pos_timeout out)
    where
      of :
          (o : Option (Unit {0})) (r : Result (Progress nl S × List (Batch nl)))
          → Settled r
          → Settled (received nl callback s o r).0
      of none r h = tt
      of (some u) (ok (p, rest)) h = finish_recv-Settled p
      of (some u) (throws e) h = tt
      of (some u) undefined h = h
      of (some u) stuck h = h
