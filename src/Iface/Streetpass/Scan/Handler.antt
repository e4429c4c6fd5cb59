-- ===== src/Iface/Streetpass/Scan/Handler.antt =====
-- What the handler of scan_with_cb in src/iface/streetpass.cpp makes of a message.
use libstreetpass.Prelude.{
  ℕ, ◌≡◌, refl, ap, ◌∙◌, List, Bool, true, false, ◌⊎◌, inl, inr, Option, none, some,
}
use libstreetpass.Prelude.Result.{Result, ok, throws, undefined, stuck, ◌>>=◌, >>=-eq-ok}
use libstreetpass.Libnl.{Libnl}
use libstreetpass.Nl80211.Attributes.{Attributes, get_bytes}
use libstreetpass.Nl80211.Commands.Parse.{catch_all}
use libstreetpass.Os.{Os}
use libstreetpass.Tins.{Tins}
use libstreetpass.Tins.Dot11.{Dot11, ProbeRequest}
use libstreetpass.Cec.ModuleFilter.{ModuleFilter, from_bytes}
use libstreetpass.Iface.Streetpass.{ssid, oui, is_streetpass_scan_probereq, module_filter_bytes}
use libstreetpass.Iface.Streetpass.Scan
use libstreetpass.Iface.Streetpass.Scan.{Callback, on_probereq, on_frame, handler}
use libstreetpass.Iface.Streetpass.Scan.Request.{
  IsScanRequest, is_scan-IsScanRequest, is_scan-eq-true, module_filter_bytes-eq-some,
  module_filter_bytes-cons,
}

-- The message holds the frame of such a request, sent from `addr`, whose bytes are read as `f`.
pub record Announces (nl : Libnl) (t : Tins) (d : Dot11) (attrs : Attributes nl) (addr : List ℕ)
    (f : ModuleFilter) : Type 0 where
  pub frame : List ℕ
  pub probereq : ProbeRequest
  pub contents : List ℕ
  pub frame_lem : get_bytes nl attrs nl.attr_frame ≡ ok frame
  pub probereq_lem : d.parse_probereq frame ≡ ok probereq
  pub request_lem : IsScanRequest d probereq contents
  pub addr_lem : probereq.addr2 ≡ addr
  pub filter_lem : from_bytes t contents ≡ ok f

module _ (nl : Libnl) (os : Os) (t : Tins) (d : Dot11) {S : Type 0} (callback : Callback S) where
  pub handler-IsScanRequest :
      (attrs : Attributes nl) (frame contents : List ℕ) (p : ProbeRequest) (s : S)
      → get_bytes nl attrs nl.attr_frame ≡ ok frame
      → d.parse_probereq frame ≡ ok p
      → IsScanRequest d p contents
      → handler nl os t d callback attrs s
        ≡ catch_all (from_bytes t contents >>= λ f. callback p.addr2 f s) (ok (true, s))
  unfolding handler on_frame on_probereq Scan.on_contents Scan.on_module_filter
  handler-IsScanRequest attrs frame contents p s e e' r =
      rw
        (
          e,
          e',
          is_scan-IsScanRequest d p contents r,
          r.vendor_specific_lem,
          module_filter_bytes-cons d contents,
        )
        refl

  -- A message that announces a filter gives it to the callback with the address of its sender, and
  -- what the callback throws is dropped.
  pub handler-Announces :
      (attrs : Attributes nl) (addr : List ℕ) (f : ModuleFilter) (s : S)
      → Announces nl t d attrs addr f
      → handler nl os t d callback attrs s ≡ catch_all (callback addr f s) (ok (true, s))
  handler-Announces attrs addr f s a =
      rw
        (
          handler-IsScanRequest attrs a.frame a.contents a.probereq s a.frame_lem a.probereq_lem
              a.request_lem,
          a.filter_lem,
          a.addr_lem,
        )
        refl

  -- The callback was given what the message announces, and answered this.
  abbrev pub Called : Attributes nl → S → Bool → S → Type 0
  Called attrs s b s' =
      (addr : List ℕ) × (f : ModuleFilter) × Announces nl t d attrs addr f
      × (callback addr f s ≡ ok (b, s'))

  -- It goes on with the state it was given.
  abbrev pub Skips : S → Bool → S → Type 0
  Skips s b s' = (b ≡ true) × (s' ≡ s)

  ok-Skips :
      (s s' : S) (b : Bool) → ◌≡◌ {A = Result (Bool × S)} (ok (true, s)) (ok (b, s')) → Skips s b s'
  ok-Skips s s' b h = (cc, cc)

  catch_all-eq-ok :
      (r : Result (Bool × S)) (s s' : S) (b : Bool)
      → catch_all r (ok (true, s)) ≡ ok (b, s')
      → Skips s b s' ⊎ (r ≡ ok (b, s'))
  unfolding catch_all
  catch_all-eq-ok (ok x) s s' b h = inr h
  catch_all-eq-ok (throws e) s s' b h = inl (ok-Skips s s' b h)
  catch_all-eq-ok undefined s s' b h = cc
  catch_all-eq-ok stuck s s' b h = cc

  module _ (attrs : Attributes nl) (frame : List ℕ) (p : ProbeRequest) (s s' : S) (b : Bool)
      (frame_lem : get_bytes nl attrs nl.attr_frame ≡ ok frame)
      (probereq_lem : d.parse_probereq frame ≡ ok p) where
    on_module_filter_sound :
        (contents : List ℕ)
        → IsScanRequest d p contents
        → Scan.on_module_filter nl os t d callback p.addr2 contents s ≡ ok (b, s')
        → Skips s b s' ⊎ Called attrs s b s'
    unfolding Scan.on_module_filter
    on_module_filter_sound contents r h = elim (catch_all-eq-ok _ s s' b h) [
      | inl skip ↦ inl skip
      | inr called ↦
          let (f, e, h₁) = >>=-eq-ok (from_bytes t contents) _ called in
          inr (
            p.addr2,
            f,
            record {
              frame = frame;
              probereq = p;
              contents = contents;
              frame_lem = frame_lem;
              probereq_lem = probereq_lem;
              request_lem = r;
              addr_lem = refl;
              filter_lem = e;
            },
            h₁,
          )
    ]

    on_contents_sound :
        (contents : List ℕ) (o : Option (List ℕ))
        → p.vendor_specific ≡ ok (oui, contents)
        → d.is_broadcast p.addr1 ≡ true
        → p.ssid ≡ ok ssid
        → module_filter_bytes contents ≡ o
        → Scan.on_contents nl os t d callback p.addr2 o s ≡ ok (b, s')
        → Skips s b s' ⊎ Called attrs s b s'
    unfolding Scan.on_contents
    on_contents_sound contents none v a q e h = inl (ok-Skips s s' b h)
    on_contents_sound contents (some bytes) v a q e h =
        let c = module_filter_bytes-eq-some d contents bytes e in
        on_module_filter_sound bytes
          (record {
            vendor_specific_lem = v ∙ ap (λ (x : List ℕ). ok (oui, x)) c;
            addr1_lem = a;
            ssid_lem = q;
          })
          h

    on_probereq_sound :
        on_probereq nl os t d callback p s ≡ ok (b, s') → Skips s b s' ⊎ Called attrs s b s'
    unfolding on_probereq
    on_probereq_sound h =
        let (is_scan, e, h₁) = >>=-eq-ok (is_streetpass_scan_probereq d p) _ h in of is_scan e h₁
      where
        of :
            (is_scan : Bool)
            → is_streetpass_scan_probereq d p ≡ ok is_scan
            → ◌≡◌ {A = Result (Bool × S)}
                (elim is_scan [
                  | false ↦ ok (true, s)
                  | true ↦ p.vendor_specific >>= λ (oui, contents).
                      Scan.on_contents nl os t d callback p.addr2 (module_filter_bytes contents) s
                ])
                (ok (b, s'))
            → Skips s b s' ⊎ Called attrs s b s'
        of false e h₁ = inl (ok-Skips s s' b h₁)
        of true e h₁ =
            let (contents, v, a, q) = is_scan-eq-true d p e in
            on_contents_sound contents (module_filter_bytes contents) v a q refl (rw v at h₁)

  -- A message with which the scan goes on has given what it announces to the callback, whose answer
  -- it is, or else it leaves the state as it is.
  pub handler_sound :
      (attrs : Attributes nl) (s s' : S) (b : Bool)
      → handler nl os t d callback attrs s ≡ ok (b, s')
      → Skips s b s' ⊎ Called attrs s b s'
  unfolding handler on_frame
  handler_sound attrs s s' b h = of (get_bytes nl attrs nl.attr_frame) refl h
    where
      of :
          (r : Result (List ℕ))
          → get_bytes nl attrs nl.attr_frame ≡ r
          → on_frame nl os t d callback s r ≡ ok (b, s')
          → Skips s b s' ⊎ Called attrs s b s'
      of (ok frame) e h₁ =
          let (p, e', h₂) = >>=-eq-ok (d.parse_probereq frame) _ h₁ in
          on_probereq_sound attrs frame p s s' b e e' h₂
      of (throws x) e h₁ = inl (ok-Skips s s' b h₁)
      of undefined e h₁ = cc
      of stuck e h₁ = cc
