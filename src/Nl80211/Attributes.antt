-- ===== src/Nl80211/Attributes.antt =====
-- Attributes and Attribute<T> of include/nl80211/message.hpp and src/nl80211/message.cpp.
pub mod Lookup
pub mod Typed
use libstreetpass.Prelude.{
  ℕ, zero, suc, ◌+◌, ◌*◌, ◌/◌, List, [], ◌∷◌, ◌++◌, ◌==◌, Option, none, some, ltb, length, take,
  get_or, Bool, true, drop, if◌then◌else◌,
}
use libstreetpass.Prelude.Result.{Result, ok, throws, invalid_argument, throw_if, ◌>>=◌, ◌>>◌}
use libstreetpass.Libnl.{Libnl}
use libstreetpass.Tins.{Endianness, little, big}
use libstreetpass.Cec.Layout.{from_memory}

-- A uint16_t from the host's memory.
abbrev pub from_memory_16 : Endianness → List ℕ → ℕ
from_memory_16 little bs = get_or bs 0 0 + 256 * get_or bs 1 0
from_memory_16 big bs = 256 * get_or bs 0 0 + get_or bs 1 0

module _ (nl : Libnl) where
  open nl use {Nlattr, host, nla_type, nla_data, nla_nested}

  -- The map of the last attribute of each type, newest first, and the types in order of arrival.
  pub record Attributes : Type 0 where
    pub attrs : List (ℕ × Nlattr)
    pub types : List ℕ

  -- `m_attrs[attr_type] = current_attr; m_attr_types.push_back(attr_type);`
  unfoldable pub add_attribute : Attributes → Nlattr → Attributes
  add_attribute a attr = record {
    attrs = (nla_type attr, attr) ∷ a.attrs;
    types = a.types ++ nla_type attr ∷ [];
  }

  unfoldable pub add_attributes : Attributes → List Nlattr → Attributes
  add_attributes a [] = a
  add_attributes a (attr ∷ rest) = add_attributes (add_attribute a attr) rest

  -- Both constructors, over the attributes that the iteration visits.
  unfoldable pub new_attributes : List Nlattr → Attributes
  new_attributes visited = add_attributes (record { attrs = []; types = [] }) visited

  unfoldable pub lookup : ℕ → List (ℕ × Nlattr) → Option Nlattr
  lookup attr [] = none
  lookup attr ((type, a) ∷ rest) = if type == attr then some a else lookup attr rest

  unfoldable pub or_not_found : Option Nlattr → Result Nlattr
  or_not_found none = throws (invalid_argument "Attribute not found!")
  or_not_found (some a) = ok a

  -- `m_attrs.at(attr)`, with its exception renamed.
  unfoldable pub find : Attributes → ℕ → Result Nlattr
  unfolding or_not_found
  find a attr = or_not_found (lookup attr a.attrs)

  -- Attribute<uint8_t> and Attribute<uint16_t>.
  unfoldable pub get_u8 : Attributes → ℕ → Result ℕ
  get_u8 a attr = do
    p ← find a attr
    throw_if (ltb (length (nla_data p)) 1)
        (invalid_argument "Type length is greater than attribute length")
    ok (get_or (nla_data p) 0 0)

  unfoldable pub get_u16 : Attributes → ℕ → Result ℕ
  get_u16 a attr = do
    p ← find a attr
    throw_if (ltb (length (nla_data p)) 2)
        (invalid_argument "Type length is greater than attribute length")
    ok (from_memory_16 host (take 2 (nla_data p)))

  -- Attribute<uint32_t>.
  unfoldable pub get_u32 : Attributes → ℕ → Result ℕ
  get_u32 a attr = do
    p ← find a attr
    throw_if (ltb (length (nla_data p)) 4)
        (invalid_argument "Type length is greater than attribute length")
    ok (from_memory host (take 4 (nla_data p)))

  -- Attribute<std::string>: all the bytes, a closing zero among them.
  unfoldable pub get_string : Attributes → ℕ → Result (List ℕ)
  get_string a attr = do p ← find a attr; ok (nla_data p)

  -- Attribute<std::vector<uint8_t>>.
  unfoldable pub get_bytes : Attributes → ℕ → Result (List ℕ)
  get_bytes a attr = do p ← find a attr; ok (nla_data p)

  unfoldable pub words : ℕ → List ℕ → List ℕ
  words zero bs = []
  words (suc n) bs = from_memory host (take 4 bs) ∷ words n (drop 4 bs)

  -- Attribute<bool>: nla_get_flag answers whether there is an attribute.
  unfoldable pub get_flag : Attributes → ℕ → Result Bool
  get_flag a attr = do p ← find a attr; ok true

  unfoldable pub words_16 : ℕ → List ℕ → List ℕ
  words_16 zero bs = []
  words_16 (suc n) bs = from_memory_16 host (take 2 bs) ∷ words_16 n (drop 2 bs)

  -- Attribute<std::vector<uint16_t>>: the whole words.
  unfoldable pub get_u16s : Attributes → ℕ → Result (List ℕ)
  get_u16s a attr = do p ← find a attr; ok (words_16 (length (nla_data p) / 2) (nla_data p))

  -- Attribute<std::vector<uint32_t>>: the whole words.
  unfoldable pub get_u32s : Attributes → ℕ → Result (List ℕ)
  get_u32s a attr = do p ← find a attr; ok (words (length (nla_data p) / 4) (nla_data p))

  -- Attribute<Attributes>.
  unfoldable pub get_nested : Attributes → ℕ → Result Attributes
  get_nested a attr = do p ← find a attr; ok (new_attributes (nla_nested p))
