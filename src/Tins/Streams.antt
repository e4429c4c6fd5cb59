-- ===== src/Tins/Streams.antt =====
-- Reading and writing through the streams of libtins: the reads that the parsers guard, and the
-- laws of the streams in the forms that the proofs use.
use libstreetpass.Prelude.{
  ℕ, ◌+◌, ◌≤◌, ◌<◌, ◌≡◌, refl, sym, ap, ◌∙◌, List, [], ◌∷◌, ◌++◌, append-nil, true, false, length,
  take, drop, replicate, le→leb, leb-false, leb→le, leb_false→lt, Bool-cases, arith, if◌then◌else◌,
  inl, inr, take-append-drop, length-take_of_le, length-drop, take-length_append,
  drop-length_append, length-append, length-replicate,
}
use libstreetpass.Prelude.Result.{Result, ok, throws, message, ◌>>=◌}
use libstreetpass.Tins.{Tins}
use Prim.Native.String.{String}

-- The code reports this outcome by a string literal, or succeeds.
abbrev pub IsReported {ℓ} : {A : Type ℓ} → Result A → Type 0
IsReported (ok a) = Unit {0}
IsReported (throws (message m)) = Unit {0}
IsReported _ = ⊥

module _ (t : Tins) where
  open t use {
    Input, pointer, can_read, read, skip, can_read-pointer, read_enough, skip_enough, Output,
    output, written, room, write, written-output, room-output, write_enough,
  }

  -- `if (!stream.can_read(n)) throw text; stream.read(&value, n);`
  unfoldable pub read_or_throw : String → ℕ → Input → Result (List ℕ × Input)
  read_or_throw text n s = if can_read s n then read s n else throws (message text)

  -- The vector under an output stream.
  abbrev pub buffer : Output → List ℕ
  buffer o = written o ++ room o

  pub can_read_true : (s : Input) (n : ℕ) → n ≤ length (pointer s) → can_read s n ≡ true
  can_read_true s n h = can_read-pointer s n ∙ le→leb _ _ h

  pub can_read_false : (s : Input) (n : ℕ) → length (pointer s) < n → can_read s n ≡ false
  can_read_false s n h = can_read-pointer s n ∙ leb-false _ _ h

  pub can_read→le : (s : Input) (n : ℕ) → can_read s n ≡ true → n ≤ length (pointer s)
  can_read→le s n h = leb→le _ _ (sym (can_read-pointer s n) ∙ h)

  pub can_read_false→lt : (s : Input) (n : ℕ) → can_read s n ≡ false → length (pointer s) < n
  can_read_false→lt s n h = leb_false→lt _ _ (sym (can_read-pointer s n) ∙ h)

  pub read_or_throw_short :
      (text : String) (n : ℕ) (s : Input)
      → length (pointer s) < n
      → read_or_throw text n s ≡ throws (message text)
  unfolding read_or_throw
  read_or_throw_short text n s h = rw (can_read_false s n h)

  pub read_or_throw_enough :
      (text : String) (n : ℕ) (s : Input)
      → n ≤ length (pointer s)
      → (s' : Input) × (read_or_throw text n s ≡ ok (take n (pointer s), s'))
        × (pointer s' ≡ drop n (pointer s))
  unfolding read_or_throw
  read_or_throw_enough text n s h = rw (can_read_true s n h) (read_enough s n h)

  -- What a guarded read returns is the front of the stream.
  pub read_or_throw_sound :
      (text : String) (n : ℕ) (s s' : Input) (bs : List ℕ)
      → read_or_throw text n s ≡ ok (bs, s')
      → (pointer s ≡ bs ++ pointer s') × (length bs ≡ n)
  unfolding read_or_throw
  read_or_throw_sound text n s s' bs h = elim (Bool-cases (can_read s n)) [
    | inr e ↦ cc (rw e at h)
    | inl e ↦
        let le = can_read→le s n e in
        let (r, er, ep) = read_enough s n le in
        let same : ok (take n (pointer s), r) ≡ ok (bs, s') = sym er ∙ (rw e at h) in
        let front : take n (pointer s) ≡ bs = cc same in
        let rest : r ≡ s' = cc same in
        (
          rw (← front, ← rest, ep) (sym (take-append-drop n (pointer s))),
          rw (← front) (length-take_of_le n (pointer s) le),
        )
  ]

  -- A stream that begins with `n` bytes `bs` gives them.
  pub read_or_throw_complete :
      (text : String) (n : ℕ) (s : Input) (bs rest : List ℕ)
      → pointer s ≡ bs ++ rest
      → n ≡ length bs
      → (s' : Input) × (read_or_throw text n s ≡ ok (bs, s')) × (pointer s' ≡ rest)
  read_or_throw_complete text n s bs rest e h =
      let (s', er, ep) =
        read_or_throw_enough text n s (rw e (omega (arith, length-append bs rest))) in
      (
        s',
        er ∙ rw e (ap (λ (x : List ℕ). ok (x, s')) (take-length_append n bs rest h)),
        ep ∙ rw e (drop-length_append n bs rest h),
      )

  pub read_or_throw-IsReported :
      (text : String) (n : ℕ) (s : Input) → IsReported (read_or_throw text n s)
  read_or_throw-IsReported text n s = elim (Bool-cases (can_read s n)) [
    | inr e ↦ rw (read_or_throw_short text n s (can_read_false→lt s n e)) tt
    | inl e ↦ rw ((read_or_throw_enough text n s (can_read→le s n e)).1) tt
  ]

  pub skip_append :
      (s : Input) (bs rest : List ℕ) (n : ℕ)
      → pointer s ≡ bs ++ rest
      → n ≡ length bs
      → (s' : Input) × (skip s n ≡ ok s') × (pointer s' ≡ rest)
  skip_append s bs rest n e h =
      let (s', er, ep) = skip_enough s n (rw e (omega (arith, length-append bs rest))) in
      (s', er, ep ∙ rw e (drop-length_append n bs rest h))

  -- A write that fits, with room for `k` bytes more behind it.
  pub write_fits :
      (o : Output) (bs : List ℕ) (k : ℕ)
      → length (room o) ≡ length bs + k
      → (o' : Output) × (write o bs ≡ ok o')
        × (written o' ≡ written o ++ bs)
        × (length (room o') ≡ k)
  write_fits o bs k h =
      let (o', e, w, r) = write_enough o bs (omega arith) in
      (o', e, w, rw r (omega (arith, length-drop (length bs) (room o))))

  pub buffer_full : (o : Output) → length (room o) ≡ 0 → buffer o ≡ written o
  buffer_full o h = rw (no_bytes (room o) h) (append-nil (written o))
    where
      no_bytes : (bs : List ℕ) → length bs ≡ 0 → bs ≡ []
      no_bytes [] e = refl
      no_bytes (b ∷ bs) e = absurd (omega arith)

  pub room_fresh : (n : ℕ) → length (room (output (replicate n 0))) ≡ n
  room_fresh n = rw room-output (length-replicate n 0)

  -- A struct of `n` bytes written over a buffer of `n` bytes is the whole buffer.
  pub write_struct :
      (n : ℕ) (bs : List ℕ)
      → length bs ≡ n
      → (write (output (replicate n 0)) bs >>= λ o. ok (buffer o)) ≡ ok bs
  write_struct n bs h =
      let (o, e, w, r) = write_fits (output (replicate n 0)) bs 0 (omega (arith, room_fresh n)) in
      rw e (ap ok (buffer_full o r ∙ w ∙ rw written-output))
