-- ===== src/Cec/Layout/RoundTrip.antt =====
-- The packed structs against their bytes, on either host.
use libstreetpass.Prelude.{
  ℕ, ◌+◌, ◌*◌, ◌^◌, ◌<◌, ◌≡◌, refl, ap, ◌∙◌, List, [], ◌∷◌, ◌++◌, length, All, arith,
}
use libstreetpass.Tins.{Tins, Endianness, little, big, memory, high_first}
use libstreetpass.Cec.Endian.{endian_type}
use libstreetpass.Cec.Filter.{IsByte}
use libstreetpass.Cec.Layout.{
  ListHeader, TitleHeader, list_header_bytes, to_list_header, title_header_bytes, to_title_header,
}

-- The values that the fields of the structs can hold.
abbrev pub IsListHeader : ListHeader → Type 0
IsListHeader h = (h.flags < 16) × (h.marker < 16) × (h.length < 256)

abbrev pub IsTitleHeader : TitleHeader → Type 0
IsTitleHeader h = (h.title_id < 2 ^ 32) × (h.number_mve < 16) × (h.send_mode < 16)

-- A filter list header has the same two bytes on either host.
pub list_header_bytes-host :
    (o : Endianness) (h : ListHeader)
    → list_header_bytes o h ≡ (h.flags + 16 * h.marker) ∷ h.length ∷ []
unfolding list_header_bytes
list_header_bytes-host little h = refl
list_header_bytes-host big h = ground arith

pub to_list_header-bytes :
    (o : Endianness) (h : ListHeader)
    → IsListHeader h
    → to_list_header o (list_header_bytes o h) ≡ h
unfolding list_header_bytes to_list_header
to_list_header-bytes little h v = ground arith
to_list_header-bytes big h v = ground arith

pub list_header_bytes-to :
    (o : Endianness) (bs : List ℕ)
    → length bs ≡ 2
    → All IsByte bs
    → IsListHeader (to_list_header o bs) × (list_header_bytes o (to_list_header o bs) ≡ bs)
unfolding list_header_bytes to_list_header
list_header_bytes-to o [] e v = absurd (omega arith)
list_header_bytes-to o (a ∷ []) e v = absurd (omega arith)
list_header_bytes-to o (a ∷ b ∷ c ∷ bs) e v = absurd (omega arith)
list_header_bytes-to little (a ∷ b ∷ []) e v = (omega arith, ground arith)
list_header_bytes-to big (a ∷ b ∷ []) e v = (omega arith, ground arith)

pub length-list_header_bytes :
    (o : Endianness) (h : ListHeader) → length (list_header_bytes o h) ≡ 2
unfolding list_header_bytes
length-list_header_bytes little h = refl
length-list_header_bytes big h = refl

pub to_title_header-bytes :
    (o : Endianness) (h : TitleHeader)
    → IsTitleHeader h
    → to_title_header o (title_header_bytes o h) ≡ h
unfolding title_header_bytes to_title_header
to_title_header-bytes little h v = ground arith
to_title_header-bytes big h v = ground arith

title_header_bytes-to_five :
    (o : Endianness) (a b c d e : ℕ)
    → All IsByte (a ∷ b ∷ c ∷ d ∷ e ∷ [])
    → IsTitleHeader (to_title_header o (a ∷ b ∷ c ∷ d ∷ e ∷ []))
      × (title_header_bytes o (to_title_header o (a ∷ b ∷ c ∷ d ∷ e ∷ [])) ≡ a ∷ b ∷ c ∷ d ∷ e ∷ [])
unfolding title_header_bytes to_title_header
title_header_bytes-to_five little a b c d e v = (omega arith, ground arith)
title_header_bytes-to_five big a b c d e v = (omega arith, ground arith)

pub title_header_bytes-to :
    (o : Endianness) (bs : List ℕ)
    → length bs ≡ 5
    → All IsByte bs
    → IsTitleHeader (to_title_header o bs) × (title_header_bytes o (to_title_header o bs) ≡ bs)
title_header_bytes-to o [] n v = absurd (omega arith)
title_header_bytes-to o (a ∷ []) n v = absurd (omega arith)
title_header_bytes-to o (a ∷ b ∷ []) n v = absurd (omega arith)
title_header_bytes-to o (a ∷ b ∷ c ∷ []) n v = absurd (omega arith)
title_header_bytes-to o (a ∷ b ∷ c ∷ d ∷ []) n v = absurd (omega arith)
title_header_bytes-to o (a ∷ b ∷ c ∷ d ∷ e ∷ []) n v = title_header_bytes-to_five o a b c d e v
title_header_bytes-to o (a ∷ b ∷ c ∷ d ∷ e ∷ f ∷ bs) n v = absurd (omega arith)

pub length-title_header_bytes :
    (o : Endianness) (h : TitleHeader) → length (title_header_bytes o h) ≡ 5
unfolding title_header_bytes
length-title_header_bytes little h = refl
length-title_header_bytes big h = refl

title_fields :
    (o : Endianness) (tid number mode : ℕ) (m : ℕ)
    → memory o m ≡ high_first tid
    → title_header_bytes o (record { title_id = m; number_mve = number; send_mode = mode })
      ≡ high_first tid ++ (number + 16 * mode) ∷ []
unfolding title_header_bytes
title_fields little tid number mode m e = ap (λ (x : List ℕ). x ++ (number + 16 * mode) ∷ []) e
title_fields big tid number mode m e =
    ap (λ (x : List ℕ). x ++ (16 * mode + number) ∷ []) e
    ∙ ap (λ (n : ℕ). high_first tid ++ n ∷ []) (omega arith)

-- The header of a title filter has the same five bytes on either host: the title, the highest byte
-- first, then the mode above the number of MVEs.
pub title_header_bytes-host :
    (t : Tins) (tid number mode : ℕ)
    → tid < 2 ^ 32
    → title_header_bytes t.host
        (record { title_id = endian_type t big tid; number_mve = number; send_mode = mode })
      ≡ high_first tid ++ (number + 16 * mode) ∷ []
unfolding endian_type
title_header_bytes-host t tid number mode h =
    title_fields t.host tid number mode (t.host_to_be tid) (t.memory-host_to_be tid h)
