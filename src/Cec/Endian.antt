-- ===== src/Cec/Endian.antt =====
-- include/cec/endian_types.hpp, at the type uint32_t (the filters use u32be).
pub mod Injective
use libstreetpass.Prelude.{ℕ}
use libstreetpass.Tins.{Endianness, little, big, Tins}

-- EndianType<uint32_t, E> is its member `m_value`.
unfoldable pub endian_type : Tins → Endianness → ℕ → ℕ
endian_type t little v = t.host_to_le v
endian_type t big v = t.host_to_be v

-- Its conversion to uint32_t.
unfoldable pub endian_value : Tins → Endianness → ℕ → ℕ
endian_value t little m_value = t.le_to_host m_value
endian_value t big m_value = t.be_to_host m_value
