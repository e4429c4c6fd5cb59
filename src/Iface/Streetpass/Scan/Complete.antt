-- ===== src/Iface/Streetpass/Scan/Complete.antt =====
-- What StreetpassInterface::scan of src/iface/streetpass.cpp returns for the messages that come in
-- until its time is up.
use Prim.Native.Nat.{bit_or}
use mathlib.Core.Option.{or_else}
use libstreetpass.Prelude.{
  ℕ, ◌*◌, ◌^◌, ◌≤◌, ◌<◌, ◌≡◌, ap, ◌∙◌, List, [], ◌∷◌, ◌++◌, ◌==◌, Bool, false, Option, some, arith,
}
use libstreetpass.Prelude.Result.{ok}
use libstreetpass.Prelude.State
use libstreetpass.Libnl.{Libnl}
use libstreetpass.Nl80211.Commands.{register_frame}
use libstreetpass.Nl80211.Socket.{Socket, Opening, Batch, new_socket, recv_messages_with}
use libstreetpass.Nl80211.Socket.Loop.{Brings}
use libstreetpass.Nl80211.Socket.Timed.{readings, messages, InTime, recv_messages_with-readings}
use libstreetpass.Os.{Os}
use libstreetpass.Tins.{Tins}
use libstreetpass.Tins.Dot11.{Dot11}
use libstreetpass.Cec.ModuleFilter.{ModuleFilter}
use libstreetpass.Iface.Streetpass.Scan.{
  Results, get, Callback, handler, scan_with_cb, collect, scan,
}
use libstreetpass.Iface.Virtual.{VirtualInterface}
use libstreetpass.Iface.World.{World}
use libstreetpass.Iface.World.Opened.{with_socket-ok}
use libstreetpass.Iface.Streetpass.Scan.Announcements.{
  Says, announced, take_in, taken, collect-Says, get-fold, kept-fold,
}

module _ (nl : Libnl) (t : Tins) (d : Dot11)
    (said : List nl.Nlattr → Option (List ℕ × ModuleFilter))
    (accepts : List ℕ → ModuleFilter → Bool) (os : Os) {S : Type 0} (filter : Callback S)
    (answers : (addr : List ℕ) (f : ModuleFilter) (s : S)
      → filter addr f s ≡ ok (accepts addr f, s)) where
  open nl use {Nlattr}

  -- The filter answers from what is announced alone. With callbacks allocated and a timeout above
  -- zero, a scan whose socket opens and whose request is acknowledged, on which readings come in
  -- time and one when the time is up, returns if every frame that comes in can be parsed and has
  -- either an announcement or none, and what it finds at each address is the first accepted filter
  -- that was announced from there.
  pub scan_complete :
      (v : VirtualInterface) (timeout : ℕ) (x : S) (w : World nl os) (o : Opening nl)
      (others : List (Opening nl)) (s s₁ : Socket nl) (more : List (List (List Nlattr) × ℕ))
      (last : List (List Nlattr)) (ms : ℕ) (rest : List (Batch nl))
      → nl.nl_cb_alloc ≡ some tt
      → w.openings ≡ o ∷ others
      → new_socket nl o ≡ ok s
      → register_frame nl v.index (bit_or d.management (d.probe_req * 2 ^ 4)) [] s ≡ (ok tt, s₁)
      → s₁.incoming ≡ readings nl more last ms rest
      → 0 < timeout
      → InTime nl timeout more
      → timeout ≤ ms
      → ((m : List Nlattr) → Brings nl (readings nl more last ms []) m → Says nl t d m (said m))
      → (results : Results) × (w' : World nl os) × (scan nl os t d v timeout filter x w
          ≡ (ok (results, x), w'))
        × ((addr : List ℕ)
            → get addr results ≡ get addr (announced nl t d said accepts (messages nl more last)))
  unfolding get or_else scan scan_with_cb
  scan_complete v timeout x w o others s s₁ more last ms rest alloc first opened acked inc h in_time
        late says =
      let y : Results × S = taken nl t d said accepts (messages nl more last) ([], x) in
      let type = bit_or d.management (d.probe_req * 2 ^ 4) in
      let receive =
        recv_messages_with nl (handler nl os t d (collect nl os t d filter)) ([], x) timeout in
      let received =
        recv_messages_with-readings nl (handler nl os t d (collect nl os t d filter))
          (λ m. take_in nl t d said accepts (said m)) (λ m. Says nl t d m (said m))
          (λ m y q. collect-Says nl t d said accepts os filter answers m y q) timeout s₁ more last
          ms rest ([], x) alloc inc h in_time late says in
      let run =
        with_socket-ok nl os (State.◌>>◌ (register_frame nl v.index type []) receive) w o others s _
          y first opened
          (State.>>-ok (register_frame nl v.index type []) receive s s₁ tt acked ∙ received) in
      let kept = kept-fold nl t d said accepts (messages nl more last) ([], x) in
      let zero_false : (timeout == 0) ≡ false = ground arith in
      let w' : World nl os = record w { openings = others; closed = w.closed ++ s₁.sent ∷ [] } in
      let whole : scan nl os t d v timeout filter x w ≡ (ok (y.0, x), w') =
        rw zero_false (run ∙ ap (λ (x' : S). (ok (y.0, x'), w')) kept) in
      (y.0, w', whole, λ addr. get-fold nl t d said accepts (messages nl more last) [] x addr)
