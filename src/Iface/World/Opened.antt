-- ===== src/Iface/World/Opened.antt =====
-- A call on a socket of its own, as the interfaces of src/iface make them.
use libstreetpass.Prelude.{◌≡◌, refl, sym, ap, subst, List, [], ◌∷◌, ◌++◌, not}
use libstreetpass.Prelude.Result.{
  Result, bad_alloc, throw_if, ok, throws, undefined, stuck, >>=-eq-ok,
}
use libstreetpass.Libnl.{Libnl}
use libstreetpass.Nl80211.Socket.{Socket, Opening, Batch, non_negative, new_socket}
use libstreetpass.Nl80211.Socket.Loop.{Brings}
use libstreetpass.Os.{Os}
use libstreetpass.Iface.World.{World, W, close_after, on_socket, open_socket, with_socket}

module _ (nl : Libnl) where
  open nl use {Nlattr}

  -- The message comes in on the first of these sockets.
  abbrev pub Hears : List (Opening nl) → List Nlattr → Type 0
  Hears [] m = ⊥
  Hears (o ∷ rest) m = Brings nl o.incoming m

  new_socket-eq-ok :
      (o : Opening nl) (s : Socket nl)
      → new_socket nl o ≡ ok s
      → (s.incoming ≡ o.incoming) × (s.sent ≡ [])
  unfolding new_socket
  new_socket-eq-ok o s h =
      let (u, e, h₁) = >>=-eq-ok (throw_if (not o.allocated) bad_alloc) _ h in
      let (res, e₁, h₂) =
        >>=-eq-ok (non_negative nl o.connected o.connected "Failed to connect socket") _ h₁ in
      let (id, e₂, h₃) =
        >>=-eq-ok (non_negative nl o.resolved o.connected "Failed to resolve nl80211 family") _
          h₂ in
      let same : record { driver_id = id; sent = []; incoming = o.incoming } ≡ s = cc h₃ in
      (ap (λ (x : Socket nl). x.incoming) (sym same), ap (λ (x : Socket nl). x.sent) (sym same))

  module _ (os : Os) {A : Type 0} where
    on_socket-eq-ok :
        (f : Socket nl → W nl os A) (r : Result (Socket nl)) (w w' : World nl os) (a : A)
        → on_socket nl os f r w ≡ (ok a, w')
        → (s : Socket nl) × (r ≡ ok s) × (f s w ≡ (ok a, w'))
    unfolding on_socket
    on_socket-eq-ok f (ok s) w w' a h = (s, refl, h)
    on_socket-eq-ok f (throws e) w w' a h = cc
    on_socket-eq-ok f undefined w w' a h = cc
    on_socket-eq-ok f stuck w w' a h = cc

    pub open_socket-eq-ok :
        (f : Socket nl → W nl os A) (os' : List (Opening nl)) (w w' : World nl os) (a : A)
        → open_socket nl os f os' w ≡ (ok a, w')
        → (s : Socket nl) × (rest : List (Opening nl)) × ((m : List Nlattr)
            → Brings nl s.incoming m
            → Hears os' m)
          × (s.sent ≡ [])
          × ((o : Opening nl) × (os' ≡ o ∷ rest) × (new_socket nl o ≡ ok s))
          × (f s (record w { openings = rest }) ≡ (ok a, w'))
    unfolding open_socket
    open_socket-eq-ok f [] w w' a h = cc
    open_socket-eq-ok f (o ∷ rest) w w' a h =
        let (s, e, h₁) =
          on_socket-eq-ok f (new_socket nl o) (record w { openings = rest }) w' a h in
        (
          s,
          rest,
          (λ m b. subst (λ (x : List (Batch nl)). Brings nl x m) (new_socket-eq-ok o s e).0 b),
          (new_socket-eq-ok o s e).1,
          (o, refl, e),
          h₁,
        )

    -- A call on a socket of its own that returns has returned on a socket on which the messages of
    -- the next opening come in.
    pub with_socket-eq-ok :
        (call : Socket nl → Result A × Socket nl) (w w' : World nl os) (a : A)
        → with_socket nl os call w ≡ (ok a, w')
        → (s : Socket nl) × (s' : Socket nl) × ((m : List Nlattr)
            → Brings nl s.incoming m
            → Hears w.openings m)
          × (call s ≡ (ok a, s'))
    unfolding with_socket close_after
    with_socket-eq-ok call w w' a h =
        let (s, rest, heard, fresh, opened, h₁) = open_socket-eq-ok _ w.openings w w' a h in
        (
          s,
          (call s).1,
          heard,
          ap (λ (r : Result A). (r, (call s).1)) (ap (λ (x : Result A × World nl os). x.0) h₁),
        )

    -- Where the next socket opens and the call on it returns, so does the whole.
    pub with_socket-ok :
        (call : Socket nl → Result A × Socket nl) (w : World nl os) (o : Opening nl)
        (others : List (Opening nl)) (s s' : Socket nl) (a : A)
        → w.openings ≡ o ∷ others
        → new_socket nl o ≡ ok s
        → call s ≡ (ok a, s')
        → with_socket nl os call w
          ≡ (ok a, record w { openings = others; closed = w.closed ++ s'.sent ∷ [] })
    unfolding with_socket open_socket on_socket close_after
    with_socket-ok call w o others s s' a first opened e = rw (first, opened, e) refl
