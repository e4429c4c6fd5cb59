-- ===== src/Nl80211/Attributes/Lookup.antt =====
-- What Attributes::get finds among the attributes that were visited.
use libstreetpass.Prelude.{
  ℕ, ◌≡◌, ◌≢◌, refl, ap, ◌∙◌, List, [], ◌∷◌, ◌++◌, ◌==◌, ==_iff, ==_refl, Bool-cases, inl, inr, All,
  some,
}
use libstreetpass.Prelude.Result.{ok}
use libstreetpass.Libnl.{Libnl}
use libstreetpass.Nl80211.Attributes
use libstreetpass.Nl80211.Attributes.{
  Attributes, add_attribute, add_attributes, new_attributes, lookup, find,
}

module _ (nl : Libnl) where
  open nl use {Nlattr, nla_type}

  -- Attributes of other types leave the answer as it was.
  lookup-add_attributes :
      (others : List Nlattr) (attrs : Attributes nl) (attr : ℕ)
      → All (λ (x : Nlattr). nla_type x ≢ attr) others
      → lookup nl attr (add_attributes nl attrs others).attrs ≡ lookup nl attr attrs.attrs
  unfolding add_attributes add_attribute lookup
  lookup-add_attributes [] attrs attr v = refl
  lookup-add_attributes (x ∷ others) attrs attr v =
      lookup-add_attributes others (add_attribute nl attrs x) attr v.1
      ∙ elim (Bool-cases (nla_type x == attr)) [
        | inl e ↦ absurd (v.0 ((==_iff (nla_type x) attr).0 e))
        | inr e ↦ rw e refl
      ]

  find_last :
      (before after : List Nlattr) (a : Nlattr) (attrs : Attributes nl)
      → All (λ (x : Nlattr). nla_type x ≢ nla_type a) after
      → lookup nl (nla_type a) (add_attributes nl attrs (before ++ a ∷ after)).attrs ≡ some a
  unfolding add_attributes add_attribute lookup
  find_last [] after a attrs v =
      lookup-add_attributes after (add_attribute nl attrs a) (nla_type a) v
      ∙ rw (==_refl (nla_type a)) refl
  find_last (x ∷ before) after a attrs v = find_last before after a (add_attribute nl attrs x) v

  -- Among attributes of one type, the last one that was visited is found, whatever came before it.
  pub find-new_attributes :
      (before after : List Nlattr) (a : Nlattr)
      → All (λ (x : Nlattr). nla_type x ≢ nla_type a) after
      → find nl (new_attributes nl (before ++ a ∷ after)) (nla_type a) ≡ ok a
  unfolding find new_attributes Attributes.or_not_found
  find-new_attributes before after a v =
      ap (Attributes.or_not_found nl)
        (find_last before after a (record { attrs = []; types = [] }) v)
