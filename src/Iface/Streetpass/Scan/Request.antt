-- ===== src/Iface/Streetpass/Scan/Request.antt =====
-- Which probe requests is_streetpass_scan_probereq of src/iface/streetpass.cpp takes.
use libstreetpass.Prelude.{
  ℕ, ◌≡◌, refl, ap, ◌∙◌, List, [], ◌∷◌, ◌==◌, ==_iff, Bool, true, false, Bool-cases, inl, inr,
  Option, none, some, same, same_refl, same→eq, if◌then◌else◌,
}
use libstreetpass.Prelude.Result.{Result, ok, throws, undefined, stuck, option_not_found, >>=-eq-ok}
use libstreetpass.Tins.Dot11.{Dot11, ProbeRequest}
use libstreetpass.Iface.Streetpass.{
  ssid, oui, is_streetpass_scan_probereq, module_filter_bytes, catch_not_found,
}

-- The probe request of a peer that scans for StreetPass: broadcast, with the SSID and the vendor
-- element of the 3DS, in which the byte 0x01 and these bytes stand.
pub record IsScanRequest (d : Dot11) (p : ProbeRequest) (contents : List ℕ) : Type 0 where
  pub vendor_specific_lem : p.vendor_specific ≡ ok (oui, 0x01 ∷ contents)
  pub addr1_lem : d.is_broadcast p.addr1 ≡ true
  pub ssid_lem : p.ssid ≡ ok ssid

module _ (d : Dot11) where
  pub is_scan-IsScanRequest :
      (p : ProbeRequest) (contents : List ℕ)
      → IsScanRequest d p contents
      → is_streetpass_scan_probereq d p ≡ ok true
  unfolding is_streetpass_scan_probereq catch_not_found
  is_scan-IsScanRequest p contents r =
      rw (r.vendor_specific_lem, r.addr1_lem, r.ssid_lem, same_refl ssid) refl

  catch_not_found-eq-true : (r : Result Bool) → catch_not_found r ≡ ok true → r ≡ ok true
  unfolding catch_not_found
  catch_not_found-eq-true (ok b) h = h
  catch_not_found-eq-true (throws option_not_found) h = cc
  catch_not_found-eq-true (throws e) h = cc
  catch_not_found-eq-true undefined h = cc
  catch_not_found-eq-true stuck h = cc

  if-eq-ok_true :
      (b : Bool) (r : Result Bool)
      → (if b then r else ok false) ≡ ok true
      → (b ≡ true) × (r ≡ ok true)
  if-eq-ok_true true r h = (refl, h)
  if-eq-ok_true false r h = cc

  pub is_scan-eq-true :
      (p : ProbeRequest)
      → is_streetpass_scan_probereq d p ≡ ok true
      → (contents : List ℕ) × (p.vendor_specific ≡ ok (oui, contents))
        × (d.is_broadcast p.addr1 ≡ true)
        × (p.ssid ≡ ok ssid)
  unfolding is_streetpass_scan_probereq
  is_scan-eq-true p h =
      let ((vendor_oui, contents), e, h₁) =
        >>=-eq-ok p.vendor_specific _ (catch_not_found-eq-true _ h) in
      let (same_oui, h₂) = if-eq-ok_true (same vendor_oui oui) _ h₁ in
      let (broadcast, h₃) = if-eq-ok_true (d.is_broadcast p.addr1) _ h₂ in
      let (probed, e', h₄) = >>=-eq-ok p.ssid _ h₃ in
      let probed_same : same probed ssid ≡ true = cc h₄ in
      (
        contents,
        e ∙ ap (λ (o : List ℕ). ok (o, contents)) (same→eq vendor_oui oui same_oui),
        broadcast,
        e' ∙ ap (λ (o : List ℕ). ok o) (same→eq probed ssid probed_same),
      )

  pub module_filter_bytes-eq-some :
      (contents bytes : List ℕ)
      → module_filter_bytes contents ≡ some bytes
      → contents ≡ 0x01 ∷ bytes
  unfolding module_filter_bytes
  module_filter_bytes-eq-some [] bytes h = cc
  module_filter_bytes-eq-some (b ∷ bs) bytes h = elim (Bool-cases (b == 0x01)) [
    | inl q ↦
        let one = (==_iff b 0x01).0 q in
        let h' : some bs ≡ some bytes = rw q at h in
        let rest : bs ≡ bytes = cc h' in
        ap (λ (x : ℕ). x ∷ bs) one ∙ ap (λ (x : List ℕ). 0x01 ∷ x) rest
    | inr q ↦ let h' : ◌≡◌ {A = Option (List ℕ)} none (some bytes) = rw q at h in cc h'
  ]

  pub module_filter_bytes-cons : (bytes : List ℕ) → module_filter_bytes (0x01 ∷ bytes) ≡ some bytes
  unfolding module_filter_bytes
  module_filter_bytes-cons bytes = refl
