-- ===== src/Nl80211/Socket/Loop.antt =====
-- The loop of Socket::recv_messages for any callback: what it keeps true, and that it ends.
use libstreetpass.Prelude.{
  ℕ, ◌≤◌, ◌≡◌, refl, ap, subst, List, [], ◌∷◌, Bool, true, false, ◌&&◌, ◌||◌, ◌==◌, ltb, ◌⊎◌, inl,
  inr, Option, none, some,
}
use libstreetpass.Prelude.Result.{
  Result, Exception, nl_error, ℤ, pos, negsuc, ok, throws, undefined, stuck, >>=-eq-ok,
}
use libstreetpass.Libnl.{Libnl}
use libstreetpass.Nl80211.Attributes.{Attributes, new_attributes}
use libstreetpass.Nl80211.Socket.{
  Action, next, stop, is_pos, Event, valid, ack, finish, error, Batch, Socket, Progress, on_valid,
  on_event, deliver, recv_loop, finish_recv, received, recv_messages_with,
}

module _ (nl : Libnl) where
  open nl use {Nlattr}

  -- A valid message among some events, and among the readings that are to come.
  abbrev pub Carries : List (Event nl) → List Nlattr → Type 0
  Carries [] m = ⊥
  Carries (valid m' ∷ es) m = (m' ≡ m) ⊎ Carries es m
  Carries (ack ∷ es) m = Carries es m
  Carries (finish ∷ es) m = Carries es m
  Carries (error e ∷ es) m = Carries es m

  abbrev pub Brings : List (Batch nl) → List Nlattr → Type 0
  Brings [] m = ⊥
  Brings (b ∷ bs) m = Carries b.events m ⊎ Brings bs m

  -- Some reading ends when the time is up.
  abbrev pub RunsOut : ℕ → List (Batch nl) → Type 0
  RunsOut timeout [] = ⊥
  RunsOut timeout (b ∷ bs) = (timeout ≤ b.elapsed_ms) ⊎ RunsOut timeout bs

module _ (nl : Libnl) {S : Type 0} (callback : Attributes nl → S → Result (Bool × S)) where
  open nl use {Nlattr}

  finish_recv-eq-ok : (p : Progress nl S) (x : S) → finish_recv nl callback p ≡ ok x → p.arg ≡ x
  unfolding finish_recv
  finish_recv-eq-ok p x h = of p.ex p.err h
    where
      of :
          (ex : Option Exception) (err : ℤ)
          → elim ex [
            | some e ↦ throws e
            | none ↦ elim err [
              | pos n ↦ ok p.arg
              | negsuc n ↦ throws (nl_error (negsuc n) "An error occured while receiving messages")
            ]
          ]
            ≡ ok x
          → p.arg ≡ x
      of (some e) err q = cc
      of none (pos n) q = cc
      of none (negsuc n) q = cc

  -- A receive that returns has gone through the loop.
  recv_messages_with-eq-ok :
      (timeout : ℕ) (x x' : S) (s s' : Socket nl)
      → recv_messages_with nl callback x timeout s ≡ (ok x', s')
      → (p : Progress nl S) × (rest : List (Batch nl)) × (recv_loop nl callback timeout s.incoming
            (record { err = pos 1; ex = none; arg = x })
          ≡ ok (p, rest))
        × (p.arg ≡ x')
  unfolding recv_messages_with received
  recv_messages_with-eq-ok timeout x x' s s' h = of nl.nl_cb_alloc _ h
    where
      of :
          (o : Option (Unit {0})) (r : Result (Progress nl S × List (Batch nl)))
          → received nl callback s o r ≡ (ok x', s')
          → (p : Progress nl S) × (rest : List (Batch nl)) × (r ≡ ok (p, rest)) × (p.arg ≡ x')
      of none r q = cc
      of (some u) (ok (p, rest)) q =
          (p, rest, refl, finish_recv-eq-ok p x' (ap (λ (y : Result S × Socket nl). y.0) q))
      of (some u) (throws e) q = cc
      of (some u) undefined q = cc
      of (some u) stuck q = cc

  module _ (P : S → Type 0) (Seen : List Nlattr → Type 0)
      (keep : (m : List Nlattr) (x x' : S) (b : Bool)
        → Seen m
        → P x
        → callback (new_attributes nl m) x ≡ ok (b, x')
        → P x') where
    moved :
        (p p' : Progress nl S) (a a' : Action)
        → ◌≡◌ {A = Result (Action × Progress nl S)} (ok (a, p)) (ok (a', p'))
        → P p.arg
        → P p'.arg
    moved p p' a a' e h = let same : p ≡ p' = cc e in subst (λ (q : Progress nl S). P q.arg) same h

    on_valid-keeps :
        (m : List Nlattr) (r : Result (Bool × S)) (p p' : Progress nl S) (a : Action)
        → Seen m
        → P p.arg
        → callback (new_attributes nl m) p.arg ≡ r
        → on_valid nl r p ≡ ok (a, p')
        → P p'.arg
    unfolding on_valid
    on_valid-keeps m (ok (true, x)) p p' a seen h e e' =
        moved _ p' next a e' (keep m p.arg x true seen h e)
    on_valid-keeps m (ok (false, x)) p p' a seen h e e' =
        moved _ p' stop a e' (keep m p.arg x false seen h e)
    on_valid-keeps m (throws ex) p p' a seen h e e' = moved _ p' stop a e' h
    on_valid-keeps m undefined p p' a seen h e e' = cc
    on_valid-keeps m stuck p p' a seen h e e' = cc

    on_event-keeps :
        (e : Event nl) (p p' : Progress nl S) (a : Action)
        → ((m : List Nlattr) → Carries nl (e ∷ []) m → Seen m)
        → P p.arg
        → on_event nl callback e p ≡ ok (a, p')
        → P p'.arg
    unfolding on_event
    on_event-keeps (valid m) p p' a seen h q =
        on_valid-keeps m _ p p' a (seen m (inl refl)) h refl q
    on_event-keeps ack p p' a seen h q = moved _ p' stop a q h
    on_event-keeps finish p p' a seen h q = moved _ p' next a q h
    on_event-keeps (error n) p p' a seen h q = moved _ p' stop a q h

    Carries-head :
        (e : Event nl) (es : List (Event nl)) (m : List Nlattr)
        → Carries nl (e ∷ []) m
        → Carries nl (e ∷ es) m
    Carries-head (valid m') es m (inl q) = inl q
    Carries-head (valid m') es m (inr q) = absurd q
    Carries-head ack es m q = absurd q
    Carries-head finish es m q = absurd q
    Carries-head (error n) es m q = absurd q

    Carries-tail :
        (e : Event nl) (es : List (Event nl)) (m : List Nlattr)
        → Carries nl es m
        → Carries nl (e ∷ es) m
    Carries-tail (valid m') es m q = inr q
    Carries-tail ack es m q = q
    Carries-tail finish es m q = q
    Carries-tail (error n) es m q = q

    deliver-keeps :
        (es : List (Event nl)) (p p' : Progress nl S)
        → ((m : List Nlattr) → Carries nl es m → Seen m)
        → P p.arg
        → deliver nl callback es p ≡ ok p'
        → P p'.arg
    unfolding deliver
    deliver-keeps [] p p' seen h q =
        let same : p ≡ p' = cc q in subst (λ (x : Progress nl S). P x.arg) same h
    deliver-keeps (e ∷ es) p p' seen h q =
        let ((a, p₁), e₁, q₁) = >>=-eq-ok (on_event nl callback e p) _ q in
        let h₁ = on_event-keeps e p p₁ a (λ m c. seen m (Carries-head e es m c)) h e₁ in
        after a p₁ h₁ (deliver-keeps es p₁ p' (λ m c. seen m (Carries-tail e es m c)) h₁) q₁
      where
        after :
            (a : Action) (p₁ : Progress nl S)
            → P p₁.arg
            → (deliver nl callback es p₁ ≡ ok p' → P p'.arg)
            → elim a [ stop ↦ ok p₁ | next ↦ deliver nl callback es p₁ ] ≡ ok p'
            → P p'.arg
        after stop p₁ h₁ go q₁ =
            let same : p₁ ≡ p' = cc q₁ in subst (λ (x : Progress nl S). P x.arg) same h₁
        after next p₁ h₁ go q₁ = go q₁

    recv_loop-keeps :
        (timeout : ℕ) (bs rest : List (Batch nl)) (p p' : Progress nl S)
        → ((m : List Nlattr) → Brings nl bs m → Seen m)
        → P p.arg
        → recv_loop nl callback timeout bs p ≡ ok (p', rest)
        → P p'.arg
    unfolding recv_loop
    recv_loop-keeps timeout [] rest p p' seen h q = cc
    recv_loop-keeps timeout (b ∷ bs) rest p p' seen h q =
        let (p₁, e₁, q₁) = >>=-eq-ok (deliver nl callback b.events p) _ q in
        let h₁ = deliver-keeps b.events p p₁ (λ m c. seen m (inl c)) h e₁ in
        after (is_pos p₁.err && (ltb b.elapsed_ms timeout || timeout == 0)) p₁ h₁
          (recv_loop-keeps timeout bs rest p₁ p' (λ m c. seen m (inr c)) h₁) q₁
      where
        after :
            (again : Bool) (p₁ : Progress nl S)
            → P p₁.arg
            → (recv_loop nl callback timeout bs p₁ ≡ ok (p', rest) → P p'.arg)
            → ◌≡◌ {A = Result (Progress nl S × List (Batch nl))}
                (elim again [ true ↦ recv_loop nl callback timeout bs p₁ | false ↦ ok (p₁, bs) ])
                (ok (p', rest))
            → P p'.arg
        after true p₁ h₁ go q₁ = go q₁
        after false p₁ h₁ go q₁ =
            let same : p₁ ≡ p' = cc q₁ in subst (λ (x : Progress nl S). P x.arg) same h₁

    -- What holds of `*arg` at the start, and what the callback keeps at each message that comes in,
    -- holds of the `*arg` that is returned.
    pub recv_messages_with-keeps :
        (timeout : ℕ) (x x' : S) (s s' : Socket nl)
        → ((m : List Nlattr) → Brings nl s.incoming m → Seen m)
        → P x
        → recv_messages_with nl callback x timeout s ≡ (ok x', s')
        → P x'
    recv_messages_with-keeps timeout x x' s s' seen h q =
        let (p, rest, e, e') = recv_messages_with-eq-ok timeout x x' s s' q in
        subst P e' (recv_loop-keeps timeout s.incoming rest _ p seen h e)
