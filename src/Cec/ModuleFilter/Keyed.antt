-- ===== src/Cec/ModuleFilter/Keyed.antt =====
-- The key of a module filter: its setter, its getter and the constructor.
use libstreetpass.Prelude.{ℕ, ◌≡◌, refl, List}
use libstreetpass.Prelude.Result.{ok}
use libstreetpass.Tins.{Tins}
use libstreetpass.Cec.FilterList.{checked_size, set_filters}
use libstreetpass.Cec.Key.{byte_size, new_key_filter}
use libstreetpass.Cec.ModuleFilter.{
  ModuleFilter, empty_module_filter, key, new_module_filter, set_key, raw_bytes_filters,
  title_filters,
}
use libstreetpass.Cec.ModuleFilter.Reached.{Reached, constructed, IsKeyType}

module _ (t : Tins) where
  -- The setter of the key does not throw on any module filter, also one with no key or with many:
  -- the key is then the new one, and the other lists are those from before.
  pub key-set_key :
      (f : ModuleFilter) (k : List ℕ)
      → (f' : ModuleFilter) × (set_key t f k ≡ ok f')
        × (key f' ≡ ok k)
        × (raw_bytes_filters f' ≡ raw_bytes_filters f)
        × (title_filters f' ≡ title_filters f)
  unfolding set_key set_filters checked_size byte_size new_key_filter key raw_bytes_filters
      title_filters
  key-set_key f k = (_, refl, refl, refl, refl)

  -- The constructor returns a module filter that has the key and no other filters.
  pub key-new_module_filter :
      (k : List ℕ)
      → IsKeyType k
      → (f : ModuleFilter) × (new_module_filter t k ≡ ok f) × Reached t f × (key f ≡ ok k)
  unfolding new_module_filter
  key-new_module_filter k v =
      let (f, e, same, raw, titles) = key-set_key (empty_module_filter t) k in
      (f, e, constructed k v e, same)
