-- ===== src/Cec/Endian/Injective.antt =====
-- A u32be has one value for each of its representations in memory.
use libstreetpass.Prelude.{
  ℕ, ◌+◌, ◌*◌, ◌/◌, ◌%◌, ◌^◌, ◌<◌, ◌≡◌, refl, sym, ap, ◌∙◌, List, get_or, arith,
}
use libstreetpass.Tins.{Tins, Endianness, little, big, memory, high_first}
use libstreetpass.Cec.Endian.{endian_value}

-- The number whose four bytes, the highest first, are the memory of `m`.
abbrev stored : Endianness → ℕ → ℕ
stored little m =
    m % 256 * 16777216 + m / 256 % 256 * 65536 + m / 65536 % 256 * 256 + m / 16777216 % 256
stored big m = m

high_first-stored :
    (o : Endianness) (m : ℕ)
    → m < 2 ^ 32
    → (stored o m < 2 ^ 32) × (high_first (stored o m) ≡ memory o m)
high_first-stored little m h = (omega arith, ground arith)
high_first-stored big m h = (h, refl)

memory_injective :
    (o : Endianness) (m n : ℕ) → m < 2 ^ 32 → n < 2 ^ 32 → memory o m ≡ memory o n → m ≡ n
memory_injective little m n hm hn e = omega (
  arith,
  ap (λ (x : List ℕ). get_or x 0 0) e,
  ap (λ (x : List ℕ). get_or x 1 0) e,
  ap (λ (x : List ℕ). get_or x 2 0) e,
  ap (λ (x : List ℕ). get_or x 3 0) e,
)
memory_injective big m n hm hn e = omega (
  arith,
  ap (λ (x : List ℕ). get_or x 0 0) e,
  ap (λ (x : List ℕ). get_or x 1 0) e,
  ap (λ (x : List ℕ). get_or x 2 0) e,
  ap (λ (x : List ℕ). get_or x 3 0) e,
)

module _ (t : Tins) where
  -- Every representation is one that `host_to_be` gives.
  host_to_be-stored : (m : ℕ) → m < 2 ^ 32 → t.host_to_be (stored t.host m) ≡ m
  host_to_be-stored m h =
      let (small, same) = high_first-stored t.host m h in
      memory_injective t.host _ m (t.host_to_be-lt (stored t.host m)) h
        (t.memory-host_to_be (stored t.host m) small ∙ same)

  be_to_host-stored : (m : ℕ) → m < 2 ^ 32 → t.be_to_host m ≡ stored t.host m
  be_to_host-stored m h =
      ap t.be_to_host (sym (host_to_be-stored m h))
      ∙ t.be_to_host-host_to_be (stored t.host m) (high_first-stored t.host m h).0

  pub endian_value-lt : (m : ℕ) → m < 2 ^ 32 → endian_value t big m < 2 ^ 32
  unfolding endian_value
  endian_value-lt m h = rw (be_to_host-stored m h) (high_first-stored t.host m h).0

  pub endian_value-injective :
      (m n : ℕ) → m < 2 ^ 32 → n < 2 ^ 32 → endian_value t big m ≡ endian_value t big n → m ≡ n
  unfolding endian_value
  endian_value-injective m n hm hn e =
      sym (host_to_be-stored m hm)
      ∙ ap t.host_to_be (sym (be_to_host-stored m hm) ∙ e ∙ be_to_host-stored n hn)
      ∙ host_to_be-stored n hn
