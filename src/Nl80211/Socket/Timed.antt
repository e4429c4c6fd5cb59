-- ===== src/Nl80211/Socket/Timed.antt =====
-- A receive of Socket::recv_messages that goes on until its time is up.
use libstreetpass.Prelude.{
  ℕ, ◌≤◌, ◌<◌, ◌≡◌, refl, ap, ◌∙◌, List, [], ◌∷◌, ◌++◌, Bool, true, false, ◌==◌, inl, inr, Option,
  none, some, lt→ltb, ltb-false, arith,
}
use libstreetpass.Prelude.Result.{Result, pos, ok, ◌>>=◌}
use libstreetpass.Libnl.{Libnl}
use libstreetpass.Nl80211.Attributes.{Attributes, new_attributes}
use libstreetpass.Nl80211.Socket.{
  next, stop, Event, valid, Batch, Socket, Progress, on_valid, on_event, deliver, recv_loop,
  finish_recv, received, recv_messages_with,
}
use libstreetpass.Nl80211.Socket.Loop.{Carries, Brings}

module _ (nl : Libnl) where
  open nl use {Nlattr}

  abbrev pub valids : List (List Nlattr) → List (Event nl)
  valids [] = []
  valids (m ∷ ms) = valid m ∷ valids ms

  -- Readings of messages, the last one when the time is up.
  abbrev pub readings :
      List (List (List Nlattr) × ℕ) → List (List Nlattr) → ℕ → List (Batch nl) → List (Batch nl)
  readings [] last ms rest = record { events = valids last; elapsed_ms = ms } ∷ rest
  readings ((b, t) ∷ more) last ms rest =
      record { events = valids b; elapsed_ms = t } ∷ readings more last ms rest

  -- All their messages in order.
  abbrev pub messages : List (List (List Nlattr) × ℕ) → List (List Nlattr) → List (List Nlattr)
  messages [] last = last
  messages ((b, t) ∷ more) last = b ++ messages more last

  abbrev pub InTime : ℕ → List (List (List Nlattr) × ℕ) → Type 0
  InTime timeout [] = Unit {0}
  InTime timeout ((b, t) ∷ more) = (t < timeout) × InTime timeout more

module _ (nl : Libnl) {S : Type 0} (step : List nl.Nlattr → S → S) where
  open nl use {Nlattr}

  abbrev pub fold : List (List Nlattr) → S → S
  fold [] x = x
  fold (m ∷ ms) x = fold ms (step m x)

  fold-append : (ms ms' : List (List Nlattr)) (x : S) → fold (ms ++ ms') x ≡ fold ms' (fold ms x)
  fold-append [] ms' x = refl
  fold-append (m ∷ ms) ms' x = fold-append ms ms' (step m x)

module _ (nl : Libnl) {S : Type 0} (callback : Attributes nl → S → Result (Bool × S))
    (step : List nl.Nlattr → S → S) (Seen : List nl.Nlattr → Type 0)
    (goes_on : (m : List nl.Nlattr) (x : S)
      → Seen m
      → callback (new_attributes nl m) x ≡ ok (true, step m x)) where
  open nl use {Nlattr}

  deliver-valids :
      (ms : List (List Nlattr)) (p : Progress nl S)
      → ((m : List Nlattr) → Carries nl (valids nl ms) m → Seen m)
      → deliver nl callback (valids nl ms) p ≡ ok (record p { arg = fold nl step ms p.arg })
  unfolding deliver on_event on_valid
  deliver-valids [] p seen = refl
  deliver-valids (m ∷ ms) p seen =
      ap
        (λ (r : Result (Bool × S)). on_valid nl r p >>= λ (a, p'). elim a [
          | stop ↦ ok p'
          | next ↦ deliver nl callback (valids nl ms) p'
        ])
        (goes_on m p.arg (seen m (inl refl)))
      ∙ deliver-valids ms (record p { arg = step m p.arg }) (λ m' c. seen m' (inr c))

  recv_loop-readings :
      (timeout : ℕ) (more : List (List (List Nlattr) × ℕ)) (last : List (List Nlattr)) (ms : ℕ)
      (rest : List (Batch nl)) (x : S)
      → 0 < timeout
      → InTime nl timeout more
      → timeout ≤ ms
      → ((m : List Nlattr) → Brings nl (readings nl more last ms []) m → Seen m)
      → recv_loop nl callback timeout
          (readings nl more last ms rest)
          (record { err = pos 1; ex = none; arg = x })
        ≡ ok (record { err = pos 1; ex = none; arg = fold nl step (messages nl more last) x }, rest)
  unfolding recv_loop
  recv_loop-readings timeout [] last ms rest x h in_time late seen =
      let zero_false : (timeout == 0) ≡ false = ground arith in
      rw
        (
          deliver-valids last (record { err = pos 1; ex = none; arg = x }) (λ m c. seen m (inl c)),
          ltb-false ms timeout late,
          zero_false,
        )
        refl
  recv_loop-readings timeout ((b, t) ∷ more) last ms rest x h in_time late seen =
      rw
        (
          deliver-valids b (record { err = pos 1; ex = none; arg = x }) (λ m c. seen m (inl c)),
          lt→ltb t timeout in_time.0,
          fold-append nl step b (messages nl more last) x,
        )
        (recv_loop-readings timeout more last ms rest (fold nl step b x) h in_time.1 late
          (λ m c. seen m (inr c)))

  -- With callbacks allocated, and a callback that goes on with every message, all messages up to
  -- the end of the time go through the callback once, in order.
  pub recv_messages_with-readings :
      (timeout : ℕ) (s : Socket nl) (more : List (List (List Nlattr) × ℕ))
      (last : List (List Nlattr)) (ms : ℕ) (rest : List (Batch nl)) (x : S)
      → nl.nl_cb_alloc ≡ some tt
      → s.incoming ≡ readings nl more last ms rest
      → 0 < timeout
      → InTime nl timeout more
      → timeout ≤ ms
      → ((m : List Nlattr) → Brings nl (readings nl more last ms []) m → Seen m)
      → recv_messages_with nl callback x timeout s
        ≡ (ok (fold nl step (messages nl more last) x), record s { incoming = rest })
  unfolding recv_messages_with received finish_recv
  recv_messages_with-readings timeout s more last ms rest x alloc inc h in_time late seen =
      of nl.nl_cb_alloc _ alloc (
        ap (λ (bs : List (Batch nl)). recv_loop nl callback timeout bs begin) inc
        ∙ recv_loop-readings timeout more last ms rest x h in_time late seen)
    where
      begin : Progress nl S
      begin = record { err = pos 1; ex = none; arg = x }

      of :
          (o : Option (Unit {0})) (r : Result (Progress nl S × List (Batch nl)))
          → o ≡ some tt
          → r ≡ ok (record begin { arg = fold nl step (messages nl more last) x }, rest)
          → received nl callback s o r
            ≡ (ok (fold nl step (messages nl more last) x), record s { incoming = rest })
      of o r e e' = rw (e, e') refl
