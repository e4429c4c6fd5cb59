-- ===== src/Cec/Layout.antt =====
-- The packed structs of include/cec/module_filter.hpp as bytes in memory. A compiler allocates the
-- bit-fields of a byte from its low end on a little-endian host and from its high end on a
-- big-endian one; the structs declare them in the order that makes up for this.
pub mod RoundTrip
use libstreetpass.Prelude.{ℕ, ◌+◌, ◌*◌, ◌/◌, ◌%◌, List, [], ◌∷◌, ◌++◌, get_or, take}
use libstreetpass.Tins.{Endianness, little, big, memory}

-- A byte of two bit-fields of four bits, by their order of declaration.
abbrev pub bit_fields : Endianness → ℕ → ℕ → ℕ
bit_fields little first second = first + 16 * second
bit_fields big first second = 16 * first + second

abbrev pub first_field : Endianness → ℕ → ℕ
first_field little b = b % 16
first_field big b = b / 16

abbrev pub second_field : Endianness → ℕ → ℕ
second_field little b = b / 16
second_field big b = b % 16

-- A uint32_t from the host's memory.
abbrev pub from_memory : Endianness → List ℕ → ℕ
from_memory little bs =
    get_or bs 0 0 + 256 * get_or bs 1 0 + 65536 * get_or bs 2 0 + 16777216 * get_or bs 3 0
from_memory big bs =
    16777216 * get_or bs 0 0 + 65536 * get_or bs 1 0 + 256 * get_or bs 2 0 + get_or bs 3 0

-- filter_list_header.
pub record ListHeader : Type 0 where
  pub flags : ℕ
  pub marker : ℕ
  pub length : ℕ

unfoldable pub list_header_bytes : Endianness → ListHeader → List ℕ
list_header_bytes little h = bit_fields little h.flags h.marker ∷ h.length ∷ []
list_header_bytes big h = bit_fields big h.marker h.flags ∷ h.length ∷ []

unfoldable pub to_list_header : Endianness → List ℕ → ListHeader
to_list_header little bs = record {
  flags = first_field little (get_or bs 0 0);
  marker = second_field little (get_or bs 0 0);
  length = get_or bs 1 0;
}
to_list_header big bs = record {
  flags = second_field big (get_or bs 0 0);
  marker = first_field big (get_or bs 0 0);
  length = get_or bs 1 0;
}

-- title_filter_header. `title_id` is the member of the u32be, a number of the host that stands in
-- memory as the big-endian title.
pub record TitleHeader : Type 0 where
  pub title_id : ℕ
  pub number_mve : ℕ
  pub send_mode : ℕ

unfoldable pub title_header_bytes : Endianness → TitleHeader → List ℕ
title_header_bytes little h =
    memory little h.title_id ++ bit_fields little h.number_mve h.send_mode ∷ []
title_header_bytes big h = memory big h.title_id ++ bit_fields big h.send_mode h.number_mve ∷ []

unfoldable pub to_title_header : Endianness → List ℕ → TitleHeader
to_title_header little bs = record {
  title_id = from_memory little (take 4 bs);
  number_mve = first_field little (get_or bs 4 0);
  send_mode = second_field little (get_or bs 4 0);
}
to_title_header big bs = record {
  title_id = from_memory big (take 4 bs);
  number_mve = second_field big (get_or bs 4 0);
  send_mode = first_field big (get_or bs 4 0);
}
