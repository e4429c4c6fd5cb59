-- ===== src/Cec/Samples.antt =====
-- Filters, lists and a packet for runs, with their validity.
use libstreetpass.Prelude.{ℕ, refl, List, [], ◌∷◌, ◌++◌, zero, suc, length, replicate, All, arith}
use libstreetpass.Tins.{little}
use libstreetpass.Tins.Sample.{sample}
use libstreetpass.Cec.Filter.{IsByte, encode_all}
use libstreetpass.Cec.FilterList.{FilterList}
use libstreetpass.Cec.FilterList.Encoding.{IsFilterList}
use libstreetpass.Cec.Key.{KeyFilter}
use libstreetpass.Cec.Key.Wire.{IsKey}
use libstreetpass.Cec.ModuleFilter.{ModuleFilter}
use libstreetpass.Cec.ModuleFilter.Encoding.{IsModuleFilter}
use libstreetpass.Cec.Mve.{Mve}
use libstreetpass.Cec.RawBytes.{RawBytesFilter}
use libstreetpass.Cec.Tests.{packet, run}
use libstreetpass.Cec.Title.{TitleFilter, title_filter}
use libstreetpass.Cec.Title.Encoding.{title_filter-Codec}
use libstreetpass.Cec.Title.Wire.{IsTitle, title_bytes}

abbrev pub bytes_8 : List ℕ
bytes_8 = 0x68 ∷ 0xc7 ∷ 0x27 ∷ 0x39 ∷ 0x0e ∷ 0x2f ∷ 0xbb ∷ 0x04 ∷ []

abbrev pub bytes_16 : List ℕ
bytes_16 = bytes_8 ++ bytes_8

abbrev pub a_key : KeyFilter
a_key = record { key = bytes_8 }

-- The title of the packet, with an MVE.
abbrev pub a_mve : Mve
a_mve = record { mask = 0x0F; value = 0x03; expectation = 0x03 }

abbrev pub a_title : TitleFilter
a_title = record {
  header = record { title_id = 0x00053100; number_mve = 1; send_mode = 3 };
  mves = a_mve ∷ [];
}

abbrev pub a_raw : RawBytesFilter
a_raw = record { cmp_length = 2; raw_bytes = bytes_16 }

abbrev pub title_list : List TitleFilter → FilterList TitleFilter
title_list fs = record {
  header = record { flags = 1; marker = 1; length = length (encode_all (title_bytes little) fs) };
  filters = fs;
}

abbrev pub no_raw : FilterList RawBytesFilter
no_raw = record { header = record { flags = 0; marker = 0; length = 0 }; filters = [] }

abbrev pub key_list : FilterList KeyFilter
key_list = record { header = record { flags = 0; marker = 15; length = 8 }; filters = a_key ∷ [] }

abbrev pub a_module : ModuleFilter
a_module = record {
  raw_bytes_list = no_raw;
  title_list = title_list (a_title ∷ []);
  key_list = key_list;
}

abbrev pub a_title_bytes : List ℕ
a_title_bytes = 0x00 ∷ 0x31 ∷ 0x05 ∷ 0x00 ∷ 0x31 ∷ 0x0F ∷ 0x03 ∷ 0x03 ∷ []

abbrev pub a_title_list_bytes : List ℕ
a_title_list_bytes = 0x11 ∷ 8 ∷ a_title_bytes

pub bytes_8-IsByte : All IsByte bytes_8
bytes_8-IsByte = ground arith

pub bytes_16-IsByte : All IsByte bytes_16
bytes_16-IsByte = ground arith

pub packet-IsByte : All IsByte packet
packet-IsByte = ground arith

pub a_key-IsKey : IsKey a_key
a_key-IsKey = (refl, bytes_8-IsByte)

pub a_title-IsTitle : IsTitle a_title
a_title-IsTitle = (omega arith, omega arith, refl, (omega arith, tt))

pub a_title_list-IsFilterList :
    IsFilterList
      (title_filter sample)
      IsTitle
      (title_bytes little)
      (title_filter-Codec sample)
      (title_list (a_title ∷ []))
unfolding run
a_title_list-IsFilterList = (omega arith, refl, refl, (a_title-IsTitle, tt))

pub a_module-IsModuleFilter : IsModuleFilter sample a_module
unfolding run
a_module-IsModuleFilter = (
  (omega arith, refl, refl, tt),
  a_title_list-IsFilterList,
  (omega arith, refl, refl, (a_key-IsKey, tt)),
  refl,
)

-- What the packet is read as.
abbrev pub packet_module : ModuleFilter
packet_module = record {
  raw_bytes_list = no_raw;
  title_list = record {
    header = record { flags = 1; marker = 1; length = 13 };
    filters =
        record {
          header = record { title_id = 0x00160500; number_mve = 1; send_mode = 3 };
          mves = record { mask = 0xFF; value = 0xEE; expectation = 0xDD } ∷ [];
        }
        ∷ record {
          header = record { title_id = 0x00080200; number_mve = 0; send_mode = 0 };
          mves = [];
        }
        ∷ [];
  };
  key_list = key_list;
}

-- Thirty-two keys have 256 bytes.
abbrev pub many_keys : List KeyFilter
many_keys = replicate 32 a_key

pub many_keys-IsKey : (n : ℕ) → All IsKey (replicate n a_key)
many_keys-IsKey zero = tt
many_keys-IsKey (suc n) = (a_key-IsKey, many_keys-IsKey n)
