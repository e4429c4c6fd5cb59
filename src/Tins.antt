-- ===== src/Tins.antt =====
-- What the code calls of libtins (externals, not part of the repository): the memory streams of
-- tins/memory_helpers.h and the conversions of tins/endianness.h. They are parameters of the
-- models, with their documented behaviour as laws.
pub mod Streams
pub mod Sample
pub mod Dot11
use libstreetpass.Prelude.{
  ℕ, ◌/◌, ◌%◌, ◌^◌, ◌≤◌, ◌<◌, ◌≡◌, List, [], ◌∷◌, ◌++◌, Bool, length, take, drop, leb,
}
use libstreetpass.Prelude.Result.{Result, ok, throws, malformed_packet, serialization_error}

-- The byte order of the host, `__BYTE_ORDER__`.
pub data Endianness : Type 0 where
  little big : Endianness

-- The four bytes of a uint32_t, the lowest first, and the number that they stand for.
abbrev pub low_first : ℕ → List ℕ
low_first v = v % 256 ∷ v / 256 % 256 ∷ v / 65536 % 256 ∷ v / 16777216 % 256 ∷ []

abbrev pub high_first : ℕ → List ℕ
high_first v = v / 16777216 % 256 ∷ v / 65536 % 256 ∷ v / 256 % 256 ∷ v % 256 ∷ []

-- A uint32_t in the host's memory.
abbrev pub memory : Endianness → ℕ → List ℕ
memory little v = low_first v
memory big v = high_first v

pub record Tins : Type 1 where
  pub host : Endianness
  -- Conversions of a uint32_t.
  pub host_to_be : ℕ → ℕ
  pub be_to_host : ℕ → ℕ
  pub host_to_be-lt : (v : ℕ) → host_to_be v < 2 ^ 32
  pub memory-host_to_be : (v : ℕ) → v < 2 ^ 32 → memory host (host_to_be v) ≡ high_first v
  pub be_to_host-host_to_be : (v : ℕ) → v < 2 ^ 32 → be_to_host (host_to_be v) ≡ v
  pub host_to_le : ℕ → ℕ
  pub le_to_host : ℕ → ℕ
  pub host_to_le-lt : (v : ℕ) → host_to_le v < 2 ^ 32
  pub memory-host_to_le : (v : ℕ) → v < 2 ^ 32 → memory host (host_to_le v) ≡ low_first v
  pub le_to_host-host_to_le : (v : ℕ) → v < 2 ^ 32 → le_to_host (host_to_le v) ≡ v
  -- InputMemoryStream. `pointer` is the memory that the stream has still to read.
  pub Input : Type 0
  pub input : List ℕ → ℕ → Input
  pub pointer : Input → List ℕ
  pub size : Input → ℕ
  pub can_read : Input → ℕ → Bool
  pub read : Input → ℕ → Result (List ℕ × Input)
  pub skip : Input → ℕ → Result Input
  pub pointer-input : (bs : List ℕ) (n : ℕ) → n ≤ length bs → pointer (input bs n) ≡ take n bs
  pub size-pointer : (s : Input) → size s ≡ length (pointer s)
  pub can_read-pointer : (s : Input) (n : ℕ) → can_read s n ≡ leb n (length (pointer s))
  pub read_enough :
      (s : Input) (n : ℕ)
      → n ≤ length (pointer s)
      → (s' : Input) × (read s n ≡ ok (take n (pointer s), s')) × (pointer s' ≡ drop n (pointer s))
  pub read_short : (s : Input) (n : ℕ) → length (pointer s) < n → read s n ≡ throws malformed_packet
  pub skip_enough :
      (s : Input) (n : ℕ)
      → n ≤ length (pointer s)
      → (s' : Input) × (skip s n ≡ ok s') × (pointer s' ≡ drop n (pointer s))
  pub skip_short : (s : Input) (n : ℕ) → length (pointer s) < n → skip s n ≡ throws malformed_packet
  -- OutputMemoryStream over a buffer: what is written, and what is left of the buffer.
  pub Output : Type 0
  pub output : List ℕ → Output
  pub written : Output → List ℕ
  pub room : Output → List ℕ
  pub write : Output → List ℕ → Result Output
  pub written-output : (bs : List ℕ) → written (output bs) ≡ []
  pub room-output : (bs : List ℕ) → room (output bs) ≡ bs
  pub write_enough :
      (o : Output) (bs : List ℕ)
      → length bs ≤ length (room o)
      → (o' : Output) × (write o bs ≡ ok o')
        × (written o' ≡ written o ++ bs)
        × (room o' ≡ drop (length bs) (room o))
  pub write_short :
      (o : Output) (bs : List ℕ)
      → length (room o) < length bs
      → write o bs ≡ throws serialization_error
