-- ===== src/Iface/Streetpass/Scan/Announcements.antt =====
-- What messages announce to the scans of src/iface/streetpass.cpp, and what taking them in leaves.
use mathlib.Core.Option.{or_else}
use libstreetpass.Prelude.{
  ℕ, ◌≡◌, refl, sym, ap, ◌∙◌, List, [], ◌∷◌, Bool, true, false, Option, none, some, same,
  if◌then◌else◌,
}
use libstreetpass.Prelude.Result.{Result, Exception, ok, throws, ◌>>=◌}
use libstreetpass.Libnl.{Libnl}
use libstreetpass.Nl80211.Attributes.{new_attributes, get_bytes}
use libstreetpass.Nl80211.Commands.Parse.{catch_all}
use libstreetpass.Nl80211.Socket.Timed.{fold}
use libstreetpass.Os.{Os}
use libstreetpass.Tins.{Tins}
use libstreetpass.Tins.Dot11.{Dot11, ProbeRequest}
use libstreetpass.Cec.ModuleFilter.{ModuleFilter, from_bytes}
use libstreetpass.Iface.Streetpass.{is_streetpass_scan_probereq, module_filter_bytes}
use libstreetpass.Iface.Streetpass.Scan
use libstreetpass.Iface.Streetpass.Scan.{
  Results, get, emplace, Callback, handler, scan_with_cb, collect, scan,
}
use libstreetpass.Iface.Streetpass.Scan.Handler.{
  Announces, handler-IsScanRequest, handler-Announces,
}
use libstreetpass.Iface.Streetpass.Scan.Request.{IsScanRequest}
use libstreetpass.Iface.Streetpass.Scan.Table.{or_else-none, get-emplace}

module _ (nl : Libnl) (t : Tins) (d : Dot11) where
  open nl use {Nlattr}

  -- What a message announces, if the scan is to go on with it.
  pub data Says (m : List Nlattr) : Option (List ℕ × ModuleFilter) → Type 0 where
    announces :
        {addr : List ℕ} {f : ModuleFilter}
        → Announces nl t d (new_attributes nl m) addr f
        → Says m (some (addr, f))
    no_frame :
        {e : Exception} → get_bytes nl (new_attributes nl m) nl.attr_frame ≡ throws e → Says m none
    other_frame :
        {frame : List ℕ} {p : ProbeRequest}
        → get_bytes nl (new_attributes nl m) nl.attr_frame ≡ ok frame
        → d.parse_probereq frame ≡ ok p
        → is_streetpass_scan_probereq d p ≡ ok false
        → Says m none
    other_contents :
        {frame vendor_oui contents : List ℕ} {p : ProbeRequest}
        → get_bytes nl (new_attributes nl m) nl.attr_frame ≡ ok frame
        → d.parse_probereq frame ≡ ok p
        → is_streetpass_scan_probereq d p ≡ ok true
        → p.vendor_specific ≡ ok (vendor_oui, contents)
        → module_filter_bytes contents ≡ none
        → Says m none
    malformed_filter :
        {frame contents : List ℕ} {p : ProbeRequest} {e : Exception}
        → get_bytes nl (new_attributes nl m) nl.attr_frame ≡ ok frame
        → d.parse_probereq frame ≡ ok p
        → IsScanRequest d p contents
        → from_bytes t contents ≡ throws e
        → Says m none

  module _ (os : Os) {S : Type 0} (callback : Callback S) where
    abbrev pub answer : Option (List ℕ × ModuleFilter) → S → Result (Bool × S)
    answer none s = ok (true, s)
    answer (some (addr, f)) s = catch_all (callback addr f s) (ok (true, s))

    handler-Says :
        (m : List Nlattr) (o : Option (List ℕ × ModuleFilter)) (s : S)
        → Says m o
        → handler nl os t d callback (new_attributes nl m) s ≡ answer o s
    unfolding handler Scan.on_frame Scan.on_probereq Scan.on_contents catch_all
    handler-Says m (some (addr, f)) s (announces a) =
        handler-Announces nl os t d callback (new_attributes nl m) addr f s a
    handler-Says m none s (no_frame e) = rw e refl
    handler-Says m none s (other_frame e e' e'') = rw (e, e', e'') refl
    handler-Says m none s (other_contents e e' e'' v b) = rw (e, e', e'', v, b) refl
    handler-Says m none s (malformed_filter {frame} {contents} {p} e e' r e'') =
        handler-IsScanRequest nl os t d callback (new_attributes nl m) frame contents p s e e' r
        ∙ ap
            (λ (x : Result ModuleFilter).
              catch_all (x >>= λ f. callback p.addr2 f s) (ok (true, s)))
            e''

  -- What was announced and accepted, in the order in which it came in.
  module _ (said : List Nlattr → Option (List ℕ × ModuleFilter))
      (accepts : List ℕ → ModuleFilter → Bool) where
    abbrev pub heard : Option (List ℕ × ModuleFilter) → Results → Results
    heard none rest = rest
    heard (some (addr, f)) rest = if accepts addr f then (addr, f) ∷ rest else rest

    abbrev pub announced : List (List Nlattr) → Results
    announced [] = []
    announced (m ∷ ms) = heard (said m) (announced ms)

    abbrev pub take_in : {S : Type 0} → Option (List ℕ × ModuleFilter) → Results × S → Results × S
    take_in none y = y
    take_in (some (addr, f)) (results, s) =
        (if accepts addr f then emplace results addr f else results, s)

    module _ (os : Os) {S : Type 0} (filter : Callback S)
        (answers : (addr : List ℕ) (f : ModuleFilter) (s : S)
          → filter addr f s ≡ ok (accepts addr f, s)) where
      pub collect-Says :
          (m : List Nlattr) (y : Results × S)
          → Says m (said m)
          → handler nl os t d (collect nl os t d filter) (new_attributes nl m) y
            ≡ ok (true, take_in (said m) y)
      unfolding collect catch_all
      collect-Says m y q = handler-Says os (collect nl os t d filter) m (said m) y q ∙ of (said m) y
        where
          of :
              (o : Option (List ℕ × ModuleFilter)) (y : Results × S)
              → answer os (collect nl os t d filter) o y ≡ ok (true, take_in o y)
          of none y = refl
          of (some (addr, f)) (results, s) = rw (answers addr f s) refl

    module _ {S : Type 0} where
      abbrev pub taken : List (List Nlattr) → Results × S → Results × S
      taken ms y = fold nl (λ m. take_in (said m)) ms y

      -- Announcements that are taken in one by one are found as in their list.
      pub get-fold :
          (ms : List (List Nlattr)) (results : Results) (s : S) (addr : List ℕ)
          → get addr (taken ms (results, s)).0
            ≡ or_else (get addr results) (get addr (announced ms))
      unfolding get or_else
      get-fold [] results s addr = sym (or_else-none (get addr results))
      get-fold (m ∷ ms) results s addr = of (said m) (λ rs. get-fold ms rs s addr)
        where
          Folded : Results → Type 0
          Folded rs =
              get addr (taken ms (rs, s)).0 ≡ or_else (get addr rs) (get addr (announced ms))

          first :
              (o : Option ModuleFilter) (here : Bool) (f : ModuleFilter) (r : Option ModuleFilter)
              → or_else (or_else o (if here then some f else none)) r
                ≡ or_else o (if here then some f else r)
          first none true f r = refl
          first none false f r = refl
          first (some g) here f r = refl

          if_accepted :
              (a : List ℕ) (f : ModuleFilter) (yes : Bool)
              → ((rs : Results) → Folded rs)
              → get addr (taken ms (if yes then emplace results a f else results, s)).0
                ≡ or_else
                    (get addr results)
                    (get addr (if yes then (a, f) ∷ announced ms else announced ms))
          if_accepted a f true go =
              go (emplace results a f)
              ∙ ap (λ (o : Option ModuleFilter). or_else o (get addr (announced ms)))
                  (get-emplace results a f addr)
              ∙ first (get addr results) (same a addr) f (get addr (announced ms))
          if_accepted a f false go = go results

          of :
              (o : Option (List ℕ × ModuleFilter))
              → ((rs : Results) → Folded rs)
              → get addr (taken ms (take_in o (results, s))).0
                ≡ or_else (get addr results) (get addr (heard o (announced ms)))
          of none go = go results
          of (some (a, f)) go = if_accepted a f (accepts a f) go

      pub kept-fold : (ms : List (List Nlattr)) (y : Results × S) → (taken ms y).1 ≡ y.1
      kept-fold [] y = refl
      kept-fold (m ∷ ms) y = kept-fold ms (take_in (said m) y) ∙ of (said m) y
        where
          of : (o : Option (List ℕ × ModuleFilter)) (y : Results × S) → (take_in o y).1 ≡ y.1
          of none y = refl
          of (some (addr, f)) (results, s) = refl
