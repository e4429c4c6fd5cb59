-- ===== src/Nl80211/Socket/Incoming.antt =====
-- What Socket::recv_messages leaves of what comes in.
use libstreetpass.Prelude.{
  ℕ, ◌≡◌, refl, subst, List, [], ◌∷◌, Bool, true, false, ◌&&◌, ◌||◌, ◌==◌, ltb, inr, Option, none,
  some,
}
use libstreetpass.Prelude.Result.{Result, pos, ok, throws, undefined, stuck, >>=-eq-ok}
use libstreetpass.Libnl.{Libnl}
use libstreetpass.Nl80211.Attributes.{Attributes}
use libstreetpass.Nl80211.Socket.{
  is_pos, Batch, Socket, Progress, deliver, recv_loop, received, recv_messages_with,
}
use libstreetpass.Nl80211.Socket.Loop.{Brings}

module _ (nl : Libnl) {S : Type 0} (callback : Attributes nl → S → Result (Bool × S)) where
  open nl use {Nlattr}

  recv_loop-Brings :
      (timeout : ℕ) (bs rest : List (Batch nl)) (p p' : Progress nl S) (m : List Nlattr)
      → recv_loop nl callback timeout bs p ≡ ok (p', rest)
      → Brings nl rest m
      → Brings nl bs m
  unfolding recv_loop
  recv_loop-Brings timeout [] rest p p' m q h = cc
  recv_loop-Brings timeout (b ∷ bs) rest p p' m q h =
      let (p₁, e₁, q₁) = >>=-eq-ok (deliver nl callback b.events p) _ q in
      inr (
        after (is_pos p₁.err && (ltb b.elapsed_ms timeout || timeout == 0)) p₁
          (λ q₂. recv_loop-Brings timeout bs rest p₁ p' m q₂ h) q₁)
    where
      after :
          (again : Bool) (p₁ : Progress nl S)
          → (recv_loop nl callback timeout bs p₁ ≡ ok (p', rest) → Brings nl bs m)
          → ◌≡◌ {A = Result (Progress nl S × List (Batch nl))}
              (elim again [ true ↦ recv_loop nl callback timeout bs p₁ | false ↦ ok (p₁, bs) ])
              (ok (p', rest))
          → Brings nl bs m
      after true p₁ go q₁ = go q₁
      after false p₁ go q₁ =
          let same : rest ≡ bs = cc q₁ in subst (λ (x : List (Batch nl)). Brings nl x m) same h

  -- A message that comes in after a receive was to come in before it.
  pub recv_messages_with-Brings :
      (timeout : ℕ) (x : S) (s : Socket nl) (m : List Nlattr)
      → Brings nl (recv_messages_with nl callback x timeout s).1.incoming m
      → Brings nl s.incoming m
  unfolding recv_messages_with received
  recv_messages_with-Brings timeout x s m h = of nl.nl_cb_alloc _ refl h
    where
      begin : Progress nl S
      begin = record { err = pos 1; ex = none; arg = x }

      of :
          (o : Option (Unit {0})) (r : Result (Progress nl S × List (Batch nl)))
          → recv_loop nl callback timeout s.incoming begin ≡ r
          → Brings nl (received nl callback s o r).1.incoming m
          → Brings nl s.incoming m
      of none r e h = h
      of (some u) (ok (p, rest)) e h = recv_loop-Brings timeout s.incoming rest begin p m e h
      of (some u) (throws x) e h = h
      of (some u) undefined e h = h
      of (some u) stuck e h = h
