-- ===== src/Nl80211/Commands/Dumped.antt =====
-- The lists that get_wiphy_list and get_interface_list make of a dump.
use libstreetpass.Prelude.{
  ℕ, ◌≡◌, ◌==◌, refl, sym, ap, subst, ◌∙◌, List, [], ◌∷◌, ◌++◌, append_assoc, map, All,
  All-append_left, All-append_right, Bool, true, Bool-cases, inl, inr, some, if◌then◌else◌,
}
use libstreetpass.Prelude.Result.{Result, ok, throws, undefined, stuck, >>=-eq-ok}
use libstreetpass.Prelude.State
use libstreetpass.Libnl.{Libnl, u32}
use libstreetpass.Nl80211.Attributes.{Attributes, new_attributes, get_u32, get_string, get_bytes}
use libstreetpass.Nl80211.Commands.{send_request, get_interface_list, get_wiphy_list}
use libstreetpass.Nl80211.Commands.Listing.{parse_wiphy-index}
use libstreetpass.Nl80211.Commands.Parse.{
  Wiphy, Wiface, last_is, no_wiphy, catch_all, copy_mac, unnamed, parse_wiphy_message,
  parse_interface_message, on_wiphy, on_interface,
}
use libstreetpass.Nl80211.Commands.Parse
use libstreetpass.Nl80211.Commands.Requests.{Sent, send_request-Sent}
use libstreetpass.Nl80211.Socket.{Socket, Batch, recv_messages_with}
use libstreetpass.Nl80211.Socket.Receiving.{Run, RunAll, dump, recv_run}

-- The first of each run of neighbours with one index.
abbrev after : {A : Type 0} → (A → ℕ) → ℕ → List A → List A
after index i [] = []
after index i (x ∷ xs) = if i == index x then after index i xs else x ∷ after index (index x) xs

abbrev pub firsts : {A : Type 0} → (A → ℕ) → List A → List A
firsts index [] = []
firsts index (x ∷ xs) = x ∷ after index (index x) xs

-- The messages of a dump, of all its readings.
abbrev pub messages : {M : Type 0} → List (List M × ℕ) → List M → List M
messages [] last = last
messages ((ms, t) ∷ more) last = ms ++ messages more last

-- What a handler does with an answer.
abbrev push : {A : Type 0} → (A → ℕ) → List A → A → List A
push index v w = if last_is index (index w) v then v else v ++ w ∷ []

module _ (nl : Libnl) {A : Type 0} (index : A → ℕ)
    (callback : Attributes nl → List A → Result (Bool × List A)) (answer : List nl.Nlattr → A) where
  abbrev pushes : List A → List (List nl.Nlattr) → List A
  pushes v [] = v
  pushes v (m ∷ ms) = pushes (push index v (answer m)) ms

  pushes-append :
      (v : List A) (ms ns : List (List nl.Nlattr)) → pushes v (ms ++ ns) ≡ pushes (pushes v ms) ns
  pushes-append v [] ns = refl
  pushes-append v (m ∷ ms) ns = pushes-append (push index v (answer m)) ms ns

  last_is-append : (i : ℕ) (v : List A) (x : A) → last_is index i (v ++ x ∷ []) ≡ (index x == i)
  last_is-append i [] x = refl
  last_is-append i (y ∷ []) x = refl
  last_is-append i (y ∷ z ∷ v) x = last_is-append i (z ∷ v) x

  pushes-after :
      (ms : List (List nl.Nlattr)) (v : List A) (x : A)
      → pushes (v ++ x ∷ []) ms ≡ v ++ x ∷ after index (index x) (map answer ms)
  pushes-after [] v x = refl
  pushes-after (m ∷ ms) v x =
      let there = last_is-append (index (answer m)) v x in
      elim (Bool-cases (index x == index (answer m))) [
        | inl old ↦ rw (there, old) (pushes-after ms v x)
        | inr new ↦
            rw (there, new) (pushes-after ms (v ++ x ∷ []) (answer m) ∙ append_assoc v (x ∷ []) _)
      ]

  pushes-firsts : (ms : List (List nl.Nlattr)) → pushes [] ms ≡ firsts index (map answer ms)
  pushes-firsts [] = refl
  pushes-firsts (m ∷ ms) = pushes-after ms [] (answer m)

  module _ (Parsed : List nl.Nlattr → Type 0)
      (step : (m : List nl.Nlattr) (v : List A)
        → Parsed m
        → callback (new_attributes nl m) v ≡ ok (true, push index v (answer m))) where
    pushes-Run :
        (ms : List (List nl.Nlattr)) (v : List A)
        → All Parsed ms
        → Run nl callback ms v (pushes v ms)
    pushes-Run [] v h = refl
    pushes-Run (m ∷ ms) v h = (_, step m v h.0, pushes-Run ms _ h.1)

    pushes-RunAll :
        (more : List (List (List nl.Nlattr) × ℕ)) (last : List (List nl.Nlattr)) (v : List A)
        → All Parsed (messages more last)
        → RunAll nl callback more last v (pushes v (messages more last))
    pushes-RunAll [] last v h = pushes-Run last v h
    pushes-RunAll ((ms, t) ∷ more) last v h = (
      pushes v ms,
      pushes-Run ms v (All-append_left Parsed ms (messages more last) h),
      subst (RunAll nl callback more last (pushes v ms))
          (sym (pushes-append v ms (messages more last)))
          (pushes-RunAll more last (pushes v ms)
            (All-append_right Parsed ms (messages more last) h)),
    )

module _ (nl : Libnl) where
  parse_interface-index :
      (attrs : Attributes nl) (w w' : Wiface) (more : Bool)
      → parse_interface_message nl attrs w ≡ ok (more, w')
      → get_u32 nl attrs nl.attr_ifindex ≡ ok w'.index
  unfolding parse_interface_message
  parse_interface-index attrs w w' more h =
      let (index, e₀, h₁) = >>=-eq-ok (get_u32 nl attrs nl.attr_ifindex) _ h in
      let (wiphy, e₁, h₂) = >>=-eq-ok (get_u32 nl attrs nl.attr_wiphy) _ h₁ in
      let (name, e₂, h₃) =
        >>=-eq-ok (catch_all (get_string nl attrs nl.attr_ifname) (ok unnamed)) _ h₂ in
      let (type, e₃, h₄) = >>=-eq-ok (get_u32 nl attrs nl.attr_iftype) _ h₃ in
      let (mac, e₄, h₅) = >>=-eq-ok (get_bytes nl attrs nl.attr_mac) _ h₄ in
      let (copied, e₅, h₆) = >>=-eq-ok (copy_mac nl mac) _ h₅ in e₀ ∙ ap (second index) h₆
    where
      second : ℕ → Result (Bool × Wiface) → Result ℕ
      second n (ok (x, y)) = ok y.index
      second n (throws e) = ok n
      second n undefined = ok n
      second n stuck = ok n

  on_interface-push :
      (memory w : Wiface) (attrs : Attributes nl) (v : List Wiface)
      → parse_interface_message nl attrs memory ≡ ok (true, w)
      → on_interface nl memory attrs v ≡ ok (true, push (λ (x : Wiface). x.index) v w)
  unfolding on_interface Parse.after_interface_index
  on_interface-push memory w attrs v h =
      let id = parse_interface-index attrs memory w true h in
      elim (Bool-cases (last_is (λ (x : Wiface). x.index) w.index v)) [
        | inl old ↦ rw (id, old) refl
        | inr new ↦ rw (id, new, h) refl
      ]

  on_wiphy-push :
      (w : Wiphy) (attrs : Attributes nl) (v : List Wiphy)
      → parse_wiphy_message nl attrs no_wiphy ≡ ok (true, w)
      → on_wiphy nl attrs v ≡ ok (true, push (λ (x : Wiphy). x.index) v w)
  unfolding on_wiphy Parse.after_wiphy_index
  on_wiphy-push w attrs v h =
      let id = (parse_wiphy-index nl attrs no_wiphy w true h).1 in
      elim (Bool-cases (last_is (λ (x : Wiphy). x.index) w.index v)) [
        | inl old ↦ rw (id, old) refl
        | inr new ↦ rw (id, new, h) refl
      ]

  module _ {A : Type 0} (index : A → ℕ) (handler : Attributes nl → List A → Result (Bool × List A))
      (answer : List nl.Nlattr → A) (Parsed : List nl.Nlattr → Type 0)
      (step : (m : List nl.Nlattr) (v : List A)
        → Parsed m
        → handler (new_attributes nl m) v ≡ ok (true, push index v (answer m))) where
    -- A command that sends a request and collects the answers by a handler.
    collected :
        (s s₁ : Socket nl) (more : List (List (List nl.Nlattr) × ℕ)) (last : List (List nl.Nlattr))
        (ms : ℕ) (rest : List (Batch nl))
        → nl.nl_cb_alloc ≡ some tt
        → s₁.incoming ≡ dump nl handler more last ms rest
        → All Parsed (messages more last)
        → State.continue_with (λ (u : Unit {0}). recv_messages_with nl handler [] 0) (ok tt) s₁
          ≡ (ok (firsts index (map answer (messages more last))), record s₁ { incoming = rest })
    unfolding State.continue_with
    collected s s₁ more last ms rest alloc inc parsed =
        recv_run nl handler s₁ more last ms rest [] _ alloc inc
          (pushes-RunAll nl index handler answer Parsed step more last [] parsed)
        ∙ ap (λ (v : List A). (ok v, record s₁ { incoming = rest }))
            (pushes-firsts nl index handler answer (messages more last))

  module _ (s s₁ : Socket nl) (more : List (List (List nl.Nlattr) × ℕ))
      (last : List (List nl.Nlattr)) (ms : ℕ) (rest : List (Batch nl)) where
    -- The list of interfaces: the request is a dump for the device, and where each message of the
    -- answer is read as an interface, the result is these interfaces in order, of neighbours with
    -- one index only the first.
    pub get_interface_list-firsts :
        (memory : Wiface) (wiphy : ℕ) (answer : List nl.Nlattr → Wiface)
        → nl.nl_cb_alloc ≡ some tt
        → send_request nl nl.cmd_get_interface nl.nlm_f_dump ((nl.attr_wiphy, u32 wiphy) ∷ []) s
          ≡ (ok tt, s₁)
        → s₁.incoming ≡ dump nl (on_interface nl memory) more last ms rest
        → All
            (λ m. parse_interface_message nl (new_attributes nl m) memory ≡ ok (true, answer m))
            (messages more last)
        → Sent nl nl.cmd_get_interface nl.nlm_f_dump ((nl.attr_wiphy, u32 wiphy) ∷ []) s s₁
          × (get_interface_list nl memory wiphy s ≡ (
            ok (firsts (λ (w : Wiface). w.index) (map answer (messages more last))),
            record s₁ { incoming = rest },
          ))
    unfolding get_interface_list State.◌>>◌
    get_interface_list-firsts memory wiphy answer alloc sent inc parsed = (
      send_request-Sent nl nl.cmd_get_interface nl.nlm_f_dump ((nl.attr_wiphy, u32 wiphy) ∷ []) s s₁
          sent,
      rw sent (
          collected (λ (w : Wiface). w.index) (on_interface nl memory) answer
            (λ m. parse_interface_message nl (new_attributes nl m) memory ≡ ok (true, answer m))
            (λ m v h. on_interface-push memory (answer m) (new_attributes nl m) v h) s s₁ more last
            ms rest alloc inc parsed),
    )

    -- The list of devices: the request is a dump, and where each message of the answer is read as a
    -- device, the result is these devices in order, of neighbours with one index only the first.
    pub get_wiphy_list-firsts :
        (answer : List nl.Nlattr → Wiphy)
        → nl.nl_cb_alloc ≡ some tt
        → send_request nl nl.cmd_get_wiphy nl.nlm_f_dump [] s ≡ (ok tt, s₁)
        → s₁.incoming ≡ dump nl (on_wiphy nl) more last ms rest
        → All
            (λ m. parse_wiphy_message nl (new_attributes nl m) no_wiphy ≡ ok (true, answer m))
            (messages more last)
        → Sent nl nl.cmd_get_wiphy nl.nlm_f_dump [] s s₁
          × (get_wiphy_list nl s ≡ (
            ok (firsts (λ (w : Wiphy). w.index) (map answer (messages more last))),
            record s₁ { incoming = rest },
          ))
    unfolding get_wiphy_list State.◌>>◌
    get_wiphy_list-firsts answer alloc sent inc parsed = (
      send_request-Sent nl nl.cmd_get_wiphy nl.nlm_f_dump [] s s₁ sent,
      rw sent (
          collected (λ (w : Wiphy). w.index) (on_wiphy nl) answer
            (λ m. parse_wiphy_message nl (new_attributes nl m) no_wiphy ≡ ok (true, answer m))
            (λ m v h. on_wiphy-push (answer m) (new_attributes nl m) v h) s s₁ more last ms rest
            alloc inc parsed),
    )
