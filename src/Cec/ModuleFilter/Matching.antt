-- ===== src/Cec/ModuleFilter/Matching.antt =====
-- ModuleFilter::match, over what the lists answer.
use libstreetpass.Prelude.{ℕ, suc, ◌≡◌, ◌↔◌, refl, [], Bool, true, false}
use libstreetpass.Prelude.Result.{Result, ok, throws, undefined, stuck, ◌>>=◌}
use libstreetpass.Tins.{Tins}
use libstreetpass.Cec.FilterList
use libstreetpass.Cec.FilterList.Matching.{match-eq-false}
use libstreetpass.Cec.ModuleFilter.{ModuleFilter, match}
use libstreetpass.Cec.RawBytes.{raw_bytes_filter}
use libstreetpass.Cec.Title.{title_filter}

-- With fuel for a round, a module filter answers no exactly where it has neither titles nor raw
-- bytes, whatever the other filter holds.
pub module_match-eq-false :
    (t : Tins) (fuel : ℕ) (own other : ModuleFilter)
    → (match t (suc fuel) own other ≡ ok false)
      ↔ ((own.title_list.filters ≡ []) × (own.raw_bytes_list.filters ≡ []))
unfolding match
module_match-eq-false t fuel own other = (forward, backward)
  where
    titles :
        (FilterList.match (title_filter t) (suc fuel) own.title_list other.title_list ≡ ok false)
        ↔ (own.title_list.filters ≡ [])
    titles = match-eq-false (title_filter t) fuel own.title_list other.title_list

    raw : Result Bool
    raw = FilterList.match (raw_bytes_filter t) (suc fuel) own.raw_bytes_list other.raw_bytes_list

    raws : (raw ≡ ok false) ↔ (own.raw_bytes_list.filters ≡ [])
    raws = match-eq-false (raw_bytes_filter t) fuel own.raw_bytes_list other.raw_bytes_list

    both :
        (r : Result Bool)
        → (r >>= λ b. elim b [ true ↦ ok true | false ↦ raw ]) ≡ ok false
        → (r ≡ ok false) × (raw ≡ ok false)
    both (ok true) h = cc
    both (ok false) h = (refl, h)
    both (throws e) h = cc
    both undefined h = cc
    both stuck h = cc

    forward :
        match t (suc fuel) own other ≡ ok false
        → (own.title_list.filters ≡ []) × (own.raw_bytes_list.filters ≡ [])
    forward h =
        let (ht, hr) =
          both (FilterList.match (title_filter t) (suc fuel) own.title_list other.title_list) h in
        (titles.0 ht, raws.0 hr)

    backward :
        (own.title_list.filters ≡ []) × (own.raw_bytes_list.filters ≡ [])
        → match t (suc fuel) own other ≡ ok false
    backward (et, er) = rw (titles.1 et) (raws.1 er)
