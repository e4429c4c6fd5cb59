-- ===== src/Nl80211/Socket/Receiving.antt =====
-- What Socket::recv_messages returns for the messages that come in.
use libstreetpass.Prelude.{
  ℕ, zero, suc, ◌<◌, ◌≡◌, refl, ap, ◌∙◌, List, [], ◌∷◌, Bool, true, false, ◌&&◌, ◌||◌, ◌==◌, ltb,
  Option, none, some, arith,
}
use libstreetpass.Prelude.Result.{Result, pos, neg, ok, throws, nl_error, ◌>>=◌}
use libstreetpass.Libnl.{Libnl}
use libstreetpass.Nl80211.Attributes.{Attributes, new_attributes}
use libstreetpass.Nl80211.Socket.{
  next, stop, is_pos, Event, valid, finish, error, Batch, Socket, Progress, on_valid, on_event,
  deliver, recv_loop, finish_recv, received, recv_messages_with,
}

module _ (nl : Libnl) {S : Type 0} (callback : Attributes nl → S → Result (Bool × S)) where
  open nl use {Nlattr, nl_cb_alloc, nl_syserr2nlerr, nl_syserr2nlerr-pos}

  neg-is_pos : (n : ℕ) → 0 < n → is_pos (neg n) ≡ false
  neg-is_pos zero h = refl
  neg-is_pos (suc n) h = refl

  thrown :
      (n : ℕ) (p : Progress nl S)
      → 0 < n
      → p.ex ≡ none
      → p.err ≡ neg n
      → finish_recv nl callback p
        ≡ throws (nl_error (neg n) "An error occured while receiving messages")
  unfolding finish_recv
  thrown zero p h ex err = absurd (omega arith)
  thrown (suc n) p h ex err = rw (ex, err) refl

  recv_loop-error :
      (timeout e ms : ℕ) (es : List (Event nl)) (rest : List (Batch nl)) (p : Progress nl S)
      → recv_loop nl callback timeout (record { events = error e ∷ es; elapsed_ms = ms } ∷ rest) p
        ≡ ok (record p { err = neg (nl_syserr2nlerr e) }, rest)
  unfolding recv_loop deliver on_event
  recv_loop-error timeout e ms es rest p =
      let p' : Progress nl S = record p { err = neg (nl_syserr2nlerr e) } in
      ap
        (λ (live : Bool). elim (live && (ltb ms timeout || timeout == 0)) [
          | true ↦ recv_loop nl callback timeout rest p'
          | false ↦ ok (p', rest)
        ])
        (neg-is_pos (nl_syserr2nlerr e) (nl_syserr2nlerr-pos e))

  -- With callbacks allocated, an error that the kernel reports first is thrown with libnl's code
  -- for it, whatever follows in the same reading, and nothing more is read.
  pub recv_error :
      (s : Socket nl) (arg : S) (timeout e ms : ℕ) (es : List (Event nl)) (rest : List (Batch nl))
      → nl_cb_alloc ≡ some tt
      → s.incoming ≡ record { events = error e ∷ es; elapsed_ms = ms } ∷ rest
      → recv_messages_with nl callback arg timeout s ≡ (
        throws (nl_error (neg (nl_syserr2nlerr e)) "An error occured while receiving messages"),
        record s { incoming = rest },
      )
  unfolding recv_messages_with received
  recv_error s arg timeout e ms es rest alloc inc =
      let begin : Progress nl S = record { err = pos 1; ex = none; arg = arg } in
      ap
        (λ (o : Option (Unit {0})).
          received nl callback s o (recv_loop nl callback timeout s.incoming begin))
        alloc
      ∙ ap
          (λ (bs : List (Batch nl)).
            received nl callback s (some tt) (recv_loop nl callback timeout bs begin))
          inc
      ∙ ap (received nl callback s (some tt)) (recv_loop-error timeout e ms es rest begin)
      ∙ ap (λ (r : Result S). (r, record s { incoming = rest }))
          (thrown (nl_syserr2nlerr e) _ (nl_syserr2nlerr-pos e) refl refl)

  -- Valid messages, and then other events.
  abbrev pub valids : List (List Nlattr) → List (Event nl) → List (Event nl)
  valids [] es = es
  valids (m ∷ ms) es = valid m ∷ valids ms es

  -- The answer to a dump: readings of valid messages, the last of which is finished.
  abbrev pub dump :
      List (List (List Nlattr) × ℕ) → List (List Nlattr) → ℕ → List (Batch nl) → List (Batch nl)
  dump [] last t rest = record { events = valids last (finish ∷ []); elapsed_ms = t } ∷ rest
  dump ((ms, t) ∷ more) last t' rest =
      record { events = valids ms []; elapsed_ms = t } ∷ dump more last t' rest

  -- What a callback that always goes on makes of messages and of readings.
  abbrev pub collect : (Attributes nl → S → S) → List (List Nlattr) → S → S
  collect f [] x = x
  collect f (m ∷ ms) x = collect f ms (f (new_attributes nl m) x)

  abbrev pub collect_all :
      (Attributes nl → S → S) → List (List (List Nlattr) × ℕ) → List (List Nlattr) → S → S
  collect_all f [] last x = collect f last x
  collect_all f ((ms, t) ∷ more) last x = collect_all f more last (collect f ms x)

  -- The callback goes on with every message, from one state to another.
  abbrev pub Run : List (List Nlattr) → S → S → Type 0
  Run [] x y = x ≡ y
  Run (m ∷ ms) x y = (z : S) × (callback (new_attributes nl m) x ≡ ok (true, z)) × Run ms z y

  abbrev pub RunAll : List (List (List Nlattr) × ℕ) → List (List Nlattr) → S → S → Type 0
  RunAll [] last x y = Run last x y
  RunAll ((ms, t) ∷ more) last x y = (z : S) × Run ms x z × RunAll more last z y

  deliver-valids :
      (ms : List (List Nlattr)) (es : List (Event nl)) (p : Progress nl S) (y : S)
      → Run ms p.arg y
      → deliver nl callback (valids ms es) p ≡ deliver nl callback es (record p { arg = y })
  unfolding deliver on_event on_valid
  deliver-valids [] es p y e = ap (λ (x : S). deliver nl callback es (record p { arg = x })) e
  deliver-valids (m ∷ ms) es p y (z, e, run) =
      ap
        (λ (r : Result (Bool × S)). on_valid nl r p >>= λ (a, p'). elim a [
          | stop ↦ ok p'
          | next ↦ deliver nl callback (valids ms es) p'
        ])
        e
      ∙ deliver-valids ms es (record p { arg = z }) y run

  -- A round of the loop, over what its reading leaves.
  abbrev round :
      ℕ → List (Batch nl) → Result (Progress nl S) → Result (Progress nl S × List (Batch nl))
  round t rest r = r >>= λ p. elim (is_pos p.err && (ltb t 0 || true)) [
    | true ↦ recv_loop nl callback 0 rest p
    | false ↦ ok (p, rest)
  ]

  recv_loop-dump :
      (more : List (List (List Nlattr) × ℕ)) (last : List (List Nlattr)) (ms : ℕ)
      (rest : List (Batch nl)) (x y : S)
      → RunAll more last x y
      → recv_loop nl callback 0
          (dump more last ms rest)
          (record { err = pos 1; ex = none; arg = x })
        ≡ ok (record { err = pos 0; ex = none; arg = y }, rest)
  unfolding recv_loop deliver on_event
  recv_loop-dump [] last ms rest x y run =
      ap (round ms rest)
        (deliver-valids last (finish ∷ []) (record { err = pos 1; ex = none; arg = x }) y run)
  recv_loop-dump ((m, t) ∷ more) last ms rest x y (z, first, run) =
      ap (round t (dump more last ms rest))
        (deliver-valids m [] (record { err = pos 1; ex = none; arg = x }) z first)
      ∙ again (ltb t 0)
      ∙ recv_loop-dump more last ms rest z y run
    where
      p : Progress nl S
      p = record { err = pos 1; ex = none; arg = z }

      again :
          (b : Bool)
          → elim (b || true) [
            | true ↦ recv_loop nl callback 0 (dump more last ms rest) p
            | false ↦ ok (p, dump more last ms rest)
          ]
            ≡ recv_loop nl callback 0 (dump more last ms rest) p
      again true = refl
      again false = refl

  -- A dump is received whole where the callback goes on with each of its messages, in order.
  pub recv_run :
      (s : Socket nl) (more : List (List (List Nlattr) × ℕ)) (last : List (List Nlattr)) (ms : ℕ)
      (rest : List (Batch nl)) (arg y : S)
      → nl_cb_alloc ≡ some tt
      → s.incoming ≡ dump more last ms rest
      → RunAll more last arg y
      → recv_messages_with nl callback arg 0 s ≡ (ok y, record s { incoming = rest })
  unfolding recv_messages_with received finish_recv
  recv_run s more last ms rest arg y alloc inc run =
      rw (alloc, inc, recv_loop-dump more last ms rest arg y run) refl

  module _ (f : Attributes nl → S → S)
      (goes_on : (a : Attributes nl) (x : S) → callback a x ≡ ok (true, f a x)) where
    collect-Run : (ms : List (List Nlattr)) (x : S) → Run ms x (collect f ms x)
    collect-Run [] x = refl
    collect-Run (m ∷ ms) x = (_, goes_on _ x, collect-Run ms (f (new_attributes nl m) x))

    collect_all-RunAll :
        (more : List (List (List Nlattr) × ℕ)) (last : List (List Nlattr)) (x : S)
        → RunAll more last x (collect_all f more last x)
    collect_all-RunAll [] last x = collect-Run last x
    collect_all-RunAll ((ms, t) ∷ more) last x =
        (_, collect-Run ms x, collect_all-RunAll more last (collect f ms x))

    -- Without a timeout, with callbacks allocated and a callback that goes on with every message, a
    -- dump is received whole: each valid message of every reading goes through the callback once,
    -- in order, and the loop ends with the reading that finishes.
    pub recv_dump :
        (s : Socket nl) (more : List (List (List Nlattr) × ℕ)) (last : List (List Nlattr)) (ms : ℕ)
        (rest : List (Batch nl)) (arg : S)
        → nl_cb_alloc ≡ some tt
        → s.incoming ≡ dump more last ms rest
        → recv_messages_with nl callback arg 0 s
          ≡ (ok (collect_all f more last arg), record s { incoming = rest })
    recv_dump s more last ms rest arg alloc inc =
        recv_run s more last ms rest arg _ alloc inc (collect_all-RunAll more last arg)
