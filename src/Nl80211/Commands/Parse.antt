-- ===== src/Nl80211/Commands/Parse.antt =====
-- The callbacks of src/nl80211/commands.cpp that read the kernel's answers.
use libstreetpass.Prelude.{
  ℕ, List, [], ◌∷◌, ◌++◌, ◌==◌, ◌||◌, Bool, true, false, ltb, length, take, if◌then◌else◌,
}
use libstreetpass.Prelude.Result.{Result, ok, throws, undefined, stuck, ◌>>=◌}
use libstreetpass.Libnl.{Libnl}
use libstreetpass.Nl80211.Attributes.{
  Attributes, get_u32, get_string, get_bytes, get_u32s, get_nested,
}

pub record Wiface : Type 0 where
  pub wiphy : ℕ
  pub index : ℕ
  pub type : ℕ
  pub name : List ℕ
  pub mac : List ℕ

pub record Band : Type 0 where
  pub freqs : List ℕ
  pub bitrates : List ℕ

pub record Wiphy : Type 0 where
  pub index : ℕ
  pub name : List ℕ
  pub supported_cmds : List ℕ
  pub supported_iftypes : List ℕ
  pub supported_ciphers : List ℕ
  pub bands : List Band

-- The value-initialised structs.
abbrev pub no_wiface : Wiface
no_wiface = record { wiphy = 0; index = 0; type = 0; name = []; mac = 0 ∷ 0 ∷ 0 ∷ 0 ∷ 0 ∷ 0 ∷ [] }

abbrev pub no_wiphy : Wiphy
no_wiphy = record {
  index = 0;
  name = [];
  supported_cmds = [];
  supported_iftypes = [];
  supported_ciphers = [];
  bands = [];
}

-- "unnamed".
abbrev pub unnamed : List ℕ
unnamed = 117 ∷ 110 ∷ 110 ∷ 97 ∷ 109 ∷ 101 ∷ 100 ∷ []

-- std::set and std::unordered_set.
unfoldable pub contains : ℕ → List ℕ → Bool
contains x [] = false
contains x (y ∷ ys) = (x == y) || contains x ys

unfoldable pub insert : List ℕ → ℕ → List ℕ
insert set x = if contains x set then set else set ++ x ∷ []

unfoldable pub insert_all : List ℕ → List ℕ → List ℕ
insert_all set [] = set
insert_all set (x ∷ xs) = insert_all (insert set x) xs

-- `try { … } catch (...) { … }`.
unfoldable pub catch_all {ℓ} : {A : Type ℓ} → Result A → Result A → Result A
catch_all (ok a) handler = ok a
catch_all (throws e) handler = handler
catch_all undefined handler = undefined
catch_all stuck handler = stuck

-- `if (!v->empty() && v->back().index == index)`.
abbrev pub last_is : {A : Type 0} → (A → ℕ) → ℕ → List A → Bool
last_is index i [] = false
last_is index i (x ∷ []) = index x == i
last_is index i (x ∷ y ∷ ys) = last_is index i (y ∷ ys)

module _ (nl : Libnl) where
  -- `std::copy_n(mac.begin(), 6, w->mac.begin())` reads six elements.
  unfoldable pub copy_mac : List ℕ → Result (List ℕ)
  copy_mac mac = if ltb (length mac) 6 then undefined else ok (take 6 mac)

  unfoldable pub parse_interface_message : Attributes nl → Wiface → Result (Bool × Wiface)
  parse_interface_message attrs w = do
    index ← get_u32 nl attrs nl.attr_ifindex
    wiphy ← get_u32 nl attrs nl.attr_wiphy
    name ← catch_all (get_string nl attrs nl.attr_ifname) (ok unnamed)
    type ← get_u32 nl attrs nl.attr_iftype
    mac ← get_bytes nl attrs nl.attr_mac
    copied ← copy_mac mac
    ok (true, record { wiphy = wiphy; index = index; type = type; name = name; mac = copied })

  -- The loops over the types of a set of attributes.
  unfoldable pub insert_values : Attributes nl → List ℕ → List ℕ → Result (List ℕ)
  insert_values attrs [] set = ok set
  insert_values attrs (type ∷ types) set = do
    v ← get_u32 nl attrs type
    insert_values attrs types (insert set v)

  unfoldable pub insert_nested_values : ℕ → Attributes nl → List ℕ → List ℕ → Result (List ℕ)
  insert_nested_values attr attrs [] set = ok set
  insert_nested_values attr attrs (id ∷ ids) set = do
    inner ← get_nested nl attrs id
    v ← get_u32 nl inner attr
    insert_nested_values attr attrs ids (insert set v)

  unfoldable pub parse_bands : Attributes nl → List ℕ → List Band → Result (List Band)
  parse_bands attrs [] bands = ok bands
  parse_bands attrs (id ∷ ids) bands = do
    band_attrs ← get_nested nl attrs id
    freqs ← get_nested nl band_attrs nl.band_attr_freqs
    fs ← insert_nested_values nl.frequency_attr_freq freqs freqs.types []
    rates ← get_nested nl band_attrs nl.band_attr_rates
    rs ← insert_nested_values nl.bitrate_attr_rate rates rates.types []
    parse_bands attrs ids (bands ++ record { freqs = fs; bitrates = rs } ∷ [])

  unfoldable pub parse_wiphy_message : Attributes nl → Wiphy → Result (Bool × Wiphy)
  parse_wiphy_message attrs w = do
    index ← get_u32 nl attrs nl.attr_wiphy
    name ← get_string nl attrs nl.attr_wiphy_name
    cmd_attrs ← get_nested nl attrs nl.attr_supported_commands
    cmds ← insert_values cmd_attrs cmd_attrs.types w.supported_cmds
    iftype_attrs ← get_nested nl attrs nl.attr_supported_iftypes
    ciphers ← get_u32s nl attrs nl.attr_cipher_suites
    bands ← get_nested nl attrs nl.attr_wiphy_bands
    bs ← parse_bands bands bands.types w.bands
    ok (
      true,
      record {
        index = index;
        name = name;
        supported_cmds = cmds;
        supported_iftypes = insert_all w.supported_iftypes iftype_attrs.types;
        supported_ciphers = insert_all w.supported_ciphers ciphers;
        bands = bs;
      },
    )

  -- The handler of get_wiphy_list. An answer without an index is skipped, and so is one with the
  -- index of the answer before it.
  unfoldable pub after_wiphy_index :
      Attributes nl → List Wiphy → Result ℕ → Result (Bool × List Wiphy)
  after_wiphy_index attrs v (ok index) =
      if last_is (λ (w : Wiphy). w.index) index v
      then ok (true, v)
      else parse_wiphy_message attrs no_wiphy >>= λ (_, w). ok (true, v ++ w ∷ [])
  after_wiphy_index attrs v (throws e) = ok (true, v)
  after_wiphy_index attrs v undefined = undefined
  after_wiphy_index attrs v stuck = stuck

  unfoldable pub on_wiphy : Attributes nl → List Wiphy → Result (Bool × List Wiphy)
  unfolding after_wiphy_index
  on_wiphy attrs v = after_wiphy_index attrs v (get_u32 nl attrs nl.attr_wiphy)

  -- The handler of get_interface_list.
  unfoldable pub after_interface_index :
      Attributes nl → Wiface → List Wiface → Result ℕ → Result (Bool × List Wiface)
  after_interface_index attrs memory v (ok index) =
      if last_is (λ (w : Wiface). w.index) index v
      then ok (true, v)
      else parse_interface_message attrs memory >>= λ (_, w). ok (true, v ++ w ∷ [])
  after_interface_index attrs memory v (throws e) = ok (true, v)
  after_interface_index attrs memory v undefined = undefined
  after_interface_index attrs memory v stuck = stuck

  unfoldable pub on_interface : Wiface → Attributes nl → List Wiface → Result (Bool × List Wiface)
  unfolding after_interface_index
  on_interface memory attrs v =
      after_interface_index attrs memory v (get_u32 nl attrs nl.attr_ifindex)
