-- ===== src/Iface/Streetpass/Scan/Sound.antt =====
-- What StreetpassInterface::scan of src/iface/streetpass.cpp find was announced.
use Prim.Native.Nat.{bit_or}
use mathlib.Mathlib.Data.Option.Basic.{or_else-eq-some}
use libstreetpass.Prelude.{
  ℕ, ◌^◌, ◌*◌, ◌≡◌, refl, sym, ap, ◌∙◌, subst, List, [], ◌==◌, Bool, true, false, inl, inr, none,
  some, same, same→eq, if◌then◌else◌,
}
use libstreetpass.Prelude.Result.{Result, ok, >>=-eq-ok}
use libstreetpass.Prelude.State.{>>-eq-ok}
use libstreetpass.Prelude.State
use libstreetpass.Libnl.{Libnl}
use libstreetpass.Nl80211.Attributes.{new_attributes}
use libstreetpass.Nl80211.Socket.{recv_messages_with}
use libstreetpass.Nl80211.Socket.Loop.{recv_messages_with-keeps}
use libstreetpass.Nl80211.Commands.{register_frame}
use libstreetpass.Nl80211.Commands.Incoming.{register_frame-Brings}
use libstreetpass.Os.{Os}
use libstreetpass.Tins.{Tins}
use libstreetpass.Tins.Dot11.{Dot11}
use libstreetpass.Cec.ModuleFilter.{ModuleFilter}
use libstreetpass.Cec.ModuleFilter
use libstreetpass.Iface.Streetpass.Scan.{
  Results, get, emplace, Callback, handler, scan_with_cb, collect, scan, filter_match,
  scan_matching,
}
use libstreetpass.Iface.Streetpass.Scan.Handler.{Announces, handler_sound}
use libstreetpass.Iface.Streetpass.Scan.Table.{only, get-emplace}
use libstreetpass.Iface.Virtual.{VirtualInterface}
use libstreetpass.Iface.World.{World}
use libstreetpass.Iface.World.Opened.{Hears, with_socket-eq-ok}

module _ (nl : Libnl) (os : Os) (t : Tins) (d : Dot11) where
  open nl use {Nlattr}

  -- What the callback of scan_with_cb keeps, at what the messages of the scan announce, holds after
  -- the scan if it holds before it.
  scan_with_cb-keeps :
      {S : Type 0} (P : S → Type 0) (v : VirtualInterface) (timeout : ℕ) (callback : Callback S)
      (x x' : S) (w w' : World nl os)
      → ((m : List Nlattr) (addr : List ℕ) (f : ModuleFilter) (y y' : S) (b : Bool)
          → Hears nl w.openings m
          → Announces nl t d (new_attributes nl m) addr f
          → P y
          → callback addr f y ≡ ok (b, y')
          → P y')
      → P x
      → scan_with_cb nl os t d v timeout callback x w ≡ (ok x', w')
      → P x'
  unfolding scan_with_cb
  scan_with_cb-keeps P v timeout callback x x' w w' keep h q =
      let type = bit_or d.management (d.probe_req * 2 ^ 4) in
      let receive = recv_messages_with nl (handler nl os t d callback) x timeout in
      let (s, s', heard, q₁) =
        with_socket-eq-ok nl os (State.◌>>◌ (register_frame nl v.index type []) receive) w w' x'
          q in
      let (u, s₁, q₂, q₃) = >>-eq-ok (register_frame nl v.index type []) receive s s' x' q₁ in
      recv_messages_with-keeps nl (handler nl os t d callback) P (Hears nl w.openings)
        (λ m y y' b heard_m py e. elim (handler_sound nl os t d callback _ y y' b e) [
          | inl (go, kept) ↦ subst P (sym kept) py
          | inr (addr, f, a, e') ↦ keep m addr f y y' b heard_m a py e'
        ])
        timeout x x' s₁ s' (λ m b. heard m (register_frame-Brings nl v.index type [] s s₁ m q₂ b)) h
        q₃

  module _ {S : Type 0} (filter : Callback S) where
    -- A message of the next socket announces the filter from this address, and it was accepted.
    abbrev pub Found : World nl os → List ℕ → ModuleFilter → Type 0
    Found w addr f =
        (m : List Nlattr) × Hears nl w.openings m
        × Announces nl t d (new_attributes nl m) addr f
        × (s : S) × (s' : S) × (filter addr f s ≡ ok (true, s'))

    abbrev AllFound : World nl os → Results × S → Type 0
    AllFound w y = (addr : List ℕ) (f : ModuleFilter) → get addr y.0 ≡ some f → Found w addr f

    emplace-AllFound :
        (w : World nl os) (results : Results) (s s' : S) (addr : List ℕ) (f : ModuleFilter)
        → AllFound w (results, s)
        → Found w addr f
        → AllFound w (emplace results addr f, s')
    unfolding emplace
    emplace-AllFound w results s s' addr f all found addr' f' h =
        let held = sym (get-emplace results addr f addr') ∙ h in
        elim ((or_else-eq-some (get addr' results) (only addr f addr') f').0 held) [
          | inl old ↦ all addr' f' old
          | inr (fresh, new) ↦ of (same addr addr') refl new
        ]
      where
        of :
            (here : Bool)
            → same addr addr' ≡ here
            → (if here then some f else none) ≡ some f'
            → Found w addr' f'
        of true e q =
            let filt : f ≡ f' = cc q in
            subst (λ (x : ModuleFilter). Found w addr' x) filt
              (subst (λ (x : List ℕ). Found w x f) (same→eq addr addr' e) found)
        of false e q = cc

    collect-AllFound :
        (w : World nl os) (m : List Nlattr) (addr : List ℕ) (f : ModuleFilter) (y y' : Results × S)
        (b : Bool)
        → Hears nl w.openings m
        → Announces nl t d (new_attributes nl m) addr f
        → AllFound w y
        → collect nl os t d filter addr f y ≡ ok (b, y')
        → AllFound w y'
    unfolding collect
    collect-AllFound w m addr f (results, s) y' b heard a all h =
        let ((accepted, s₁), e, h₁) = >>=-eq-ok (filter addr f s) _ h in
        let same_y : (if accepted then emplace results addr f else results, s₁) ≡ y' = cc h₁ in
        subst (λ (x : Results × S). AllFound w x) same_y (of accepted s₁ e)
      where
        of :
            (accepted : Bool) (s₁ : S)
            → filter addr f s ≡ ok (accepted, s₁)
            → AllFound w (if accepted then emplace results addr f else results, s₁)
        of true s₁ e = emplace-AllFound w results s s₁ addr f all (m, heard, a, s, s₁, e)
        of false s₁ e = all

    -- What the callback of scan keeps in the same way holds of what it returns.
    pub scan-keeps :
        (P : Results × S → Type 0) (v : VirtualInterface) (timeout : ℕ) (s : S) (y' : Results × S)
        (w w' : World nl os)
        → ((m : List Nlattr) (addr : List ℕ) (f : ModuleFilter) (y₁ y₂ : Results × S) (b : Bool)
            → Hears nl w.openings m
            → Announces nl t d (new_attributes nl m) addr f
            → P y₁
            → collect nl os t d filter addr f y₁ ≡ ok (b, y₂)
            → P y₂)
        → P ([], s)
        → scan nl os t d v timeout filter s w ≡ (ok y', w')
        → P y'
    unfolding scan
    scan-keeps P v timeout s y' w w' keep h q = of (timeout == 0) q
      where
        run : Result (Results × S) × World nl os
        run = scan_with_cb nl os t d v timeout (collect nl os t d filter) ([], s) w

        of : (now : Bool) → (if now then (ok ([], s), w) else run) ≡ (ok y', w') → P y'
        of true q₁ = let same_y : ([], s) ≡ y' = cc q₁ in subst P same_y h
        of false q₁ =
            scan_with_cb-keeps P v timeout (collect nl os t d filter) ([], s) y' w w' keep h q₁

    -- What a scan finds at an address was announced from there, by a message that came in on the
    -- socket of the scan, and the filter accepted it.
    pub scan_sound :
        (v : VirtualInterface) (timeout : ℕ) (s s' : S) (results : Results) (w w' : World nl os)
        (addr : List ℕ) (f : ModuleFilter)
        → scan nl os t d v timeout filter s w ≡ (ok (results, s'), w')
        → get addr results ≡ some f
        → Found w addr f
    unfolding get
    scan_sound v timeout s s' results w w' addr f h e =
        scan-keeps (AllFound w) v timeout s (results, s') w w'
          (λ m addr f y₁ y₂ b heard a all q. collect-AllFound w m addr f y₁ y₂ b heard a all q)
          (λ addr f q. cc q) h addr f e

  -- What a scan for matching filters finds at an address was announced from there, by a message
  -- that came in on the socket of the scan, and matches the filter of the caller.
  pub scan_matching_sound :
      (fuel : ℕ) (v : VirtualInterface) (timeout : ℕ) (own f : ModuleFilter) (results : Results)
      (w w' : World nl os) (addr : List ℕ)
      → scan_matching nl os t d fuel v timeout own w ≡ (ok (results, tt), w')
      → get addr results ≡ some f
      → (ModuleFilter.match t fuel own f ≡ ok true)
        × (m : List Nlattr) × Hears nl w.openings m
        × Announces nl t d (new_attributes nl m) addr f
  unfolding scan_matching filter_match
  scan_matching_sound fuel v timeout own f results w w' addr h e =
      let (m, heard, a, u, u', q) =
        scan_sound (filter_match nl os t d fuel own) v timeout tt tt results w w' addr f h e in
      let (matched, e₁, q₁) = >>=-eq-ok (ModuleFilter.match t fuel own f) _ q in
      let yes : matched ≡ true = cc q₁ in (e₁ ∙ ap (λ (b : Bool). ok b) yes, m, heard, a)
