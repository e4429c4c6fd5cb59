-- ===== src/Iface/Streetpass/Scan/Own.antt =====
-- The vendor element that src/iface/streetpass.cpp sends, heard by its own scan.
use libstreetpass.Prelude.{ℕ, ◌≡◌, refl, sym, ap, ◌∙◌, List, ◌∷◌, true}
use libstreetpass.Prelude.Result.{Result, ok, ◌>>=◌, >>=-eq-ok}
use libstreetpass.Libnl.{Libnl}
use libstreetpass.Nl80211.Attributes.{Attributes, get_bytes}
use libstreetpass.Nl80211.Commands.Parse.{catch_all}
use libstreetpass.Os.{Os}
use libstreetpass.Tins.{Tins}
use libstreetpass.Tins.Dot11.{Dot11, ProbeRequest}
use libstreetpass.Cec.ModuleFilter.{ModuleFilter, from_bytes}
use libstreetpass.Cec.ModuleFilter
use libstreetpass.Cec.ModuleFilter.Encoding.{IsModuleFilter, normal}
use libstreetpass.Cec.ModuleFilter.RoundTrip.{from_bytes-to_bytes}
use libstreetpass.Iface.Streetpass.{ssid, oui, vendor_specific_data}
use libstreetpass.Iface.Streetpass.Scan.{Callback, handler}
use libstreetpass.Iface.Streetpass.Scan.Handler.{handler-Announces}

module _ (nl : Libnl) (os : Os) (t : Tins) (d : Dot11) {S : Type 0} (callback : Callback S) where
  -- The code writes a valid module filter into a vendor element. A broadcast request with this
  -- element and the SSID gives the callback the same filter, in its normal form, as coming from the
  -- sender of the request.
  pub handler-vendor_specific_data :
      (attrs : Attributes nl) (frame element : List ℕ) (p : ProbeRequest) (f : ModuleFilter) (s : S)
      → IsModuleFilter t f
      → vendor_specific_data t f ≡ ok element
      → get_bytes nl attrs nl.attr_frame ≡ ok frame
      → d.parse_probereq frame ≡ ok p
      → p.vendor_specific ≡ ok (oui, element)
      → d.is_broadcast p.addr1 ≡ true
      → p.ssid ≡ ok ssid
      → handler nl os t d callback attrs s
        ≡ catch_all (callback p.addr2 (normal t f) s) (ok (true, s))
  unfolding vendor_specific_data
  handler-vendor_specific_data attrs frame element p f s v e got parsed vendor broadcast probed =
      let (bs, written, e') = >>=-eq-ok (ModuleFilter.to_bytes t f) _ e in
      let front : 0x01 ∷ bs ≡ element = cc e' in
      let read : from_bytes t bs ≡ ok (normal t f) =
        sym (ap (λ (r : Result (List ℕ)). r >>= λ x. from_bytes t x) written)
        ∙ from_bytes-to_bytes t f v in
      handler-Announces nl os t d callback attrs p.addr2 (normal t f) s (record {
        frame = frame;
        probereq = p;
        contents = bs;
        frame_lem = got;
        probereq_lem = parsed;
        request_lem = record {
          vendor_specific_lem = vendor ∙ ap (λ (x : List ℕ). ok (oui, x)) (sym front);
          addr1_lem = broadcast;
          ssid_lem = probed;
        };
        addr_lem = refl;
        filter_lem = read;
      })
