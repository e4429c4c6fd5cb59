-- ===== src/Iface/World.antt =====
-- What the interfaces of src/iface share: each of their calls opens sockets of its own. A socket of
-- nl80211 is opened by the next opening of a schedule; closed, it leaves what it sent. What the
-- kernel answers on it is part of the opening, so the schedule holds the effects of the messages.
pub mod Opened
use libstreetpass.Prelude.{List, [], ◌∷◌, ◌++◌}
use libstreetpass.Prelude.Result.{Result, ok, throws, undefined, stuck}
use libstreetpass.Libnl.{Libnl}
use libstreetpass.Nl80211.Socket.{Socket, Opening, M, new_socket}
use libstreetpass.Os.{Os}
use libstreetpass.Ioctl.{K}
use libstreetpass.Ioctl

module _ (nl : Libnl) (os : Os) where
  open nl use {Msg}
  open os use {Kernel}

  pub record World : Type 0 where
    pub kernel : Kernel
    pub openings : List (Opening nl)
    -- What each socket that is closed has sent.
    pub closed : List (List Msg)

  abbrev pub W : Type 0 → Type 0
  W A = World → Result A × World

  -- A call on a socket, after which the socket is closed.
  unfoldable pub close_after : {A : Type 0} → World → Result A × Socket nl → Result A × World
  close_after w (r, s) = (r, record w { closed = w.closed ++ s.sent ∷ [] })

  -- What a constructor of a socket returned: the socket, or why there is none.
  unfoldable pub on_socket : {A : Type 0} → (Socket nl → W A) → Result (Socket nl) → W A
  on_socket f (ok s) w = f s w
  on_socket f (throws e) w = (throws e, w)
  on_socket f undefined w = (undefined, w)
  on_socket f stuck w = (stuck, w)

  unfoldable pub open_socket : {A : Type 0} → (Socket nl → W A) → List (Opening nl) → W A
  unfolding on_socket
  open_socket f [] w = (stuck, w)
  open_socket f (o ∷ rest) w = on_socket f (new_socket nl o) (record w { openings = rest })

  -- `nl80211::Socket nlsock;` and a call on it.
  unfoldable pub with_socket : {A : Type 0} → M nl A → W A
  unfolding open_socket close_after
  with_socket call w = open_socket (λ s w'. close_after w' (call s)) w.openings w

  -- A call of ioctl.
  unfoldable pub on_kernel : {A : Type 0} → K os A → W A
  on_kernel call w = let (r, k) = call w.kernel in (r, record w { kernel = k })
