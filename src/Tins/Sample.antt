-- ===== src/Tins/Sample.antt =====
-- A libtins for runs: streams that are lists of bytes, on a little-endian host.
use libstreetpass.Prelude.{
  ℕ, ◌+◌, ◌*◌, ◌/◌, ◌%◌, ◌^◌, ◌≤◌, ◌<◌, ◌≡◌, refl, List, [], ◌++◌, length, take, drop, leb, le→leb,
  leb-false, if◌then◌else◌, arith,
}
use libstreetpass.Prelude.Result.{Result, ok, throws, malformed_packet, serialization_error}
use libstreetpass.Tins.{Tins, little, low_first, high_first}

abbrev pub swap : ℕ → ℕ
swap v =
    v / 16777216 % 256 + 256 * (v / 65536 % 256) + 65536 * (v / 256 % 256) + 16777216 * (v % 256)

pub swap-lt : (v : ℕ) → swap v < 2 ^ 32
swap-lt v = omega arith

pub low_first-swap : (v : ℕ) → low_first (swap v) ≡ high_first v
low_first-swap v = ground arith

pub low_first-mod : (v : ℕ) → low_first (v % 2 ^ 32) ≡ low_first v
low_first-mod v = ground arith

pub swap-swap : (v : ℕ) → v < 2 ^ 32 → swap (swap v) ≡ v
swap-swap v h = omega arith

abbrev pub sample_read : List ℕ → ℕ → Result (List ℕ × List ℕ)
sample_read s n = if leb n (length s) then ok (take n s, drop n s) else throws malformed_packet

abbrev pub sample_skip : List ℕ → ℕ → Result (List ℕ)
sample_skip s n = if leb n (length s) then ok (drop n s) else throws malformed_packet

abbrev pub sample_write : List ℕ × List ℕ → List ℕ → Result (List ℕ × List ℕ)
sample_write (done, left) bs =
    if leb (length bs) (length left)
    then ok (done ++ bs, drop (length bs) left)
    else throws serialization_error

pub read_enough_lem :
    (s : List ℕ) (n : ℕ)
    → n ≤ length s
    → (s' : List ℕ) × (sample_read s n ≡ ok (take n s, s')) × (s' ≡ drop n s)
read_enough_lem s n h = (drop n s, rw (le→leb n (length s) h), refl)

pub read_short_lem : (s : List ℕ) (n : ℕ) → length s < n → sample_read s n ≡ throws malformed_packet
read_short_lem s n h = rw (leb-false n (length s) h)

pub skip_enough_lem :
    (s : List ℕ) (n : ℕ)
    → n ≤ length s
    → (s' : List ℕ) × (sample_skip s n ≡ ok s') × (s' ≡ drop n s)
skip_enough_lem s n h = (drop n s, rw (le→leb n (length s) h), refl)

pub skip_short_lem : (s : List ℕ) (n : ℕ) → length s < n → sample_skip s n ≡ throws malformed_packet
skip_short_lem s n h = rw (leb-false n (length s) h)

pub write_enough_lem :
    (o : List ℕ × List ℕ) (bs : List ℕ)
    → length bs ≤ length o.1
    → (o' : List ℕ × List ℕ) × (sample_write o bs ≡ ok o')
      × (o'.0 ≡ o.0 ++ bs)
      × (o'.1 ≡ drop (length bs) o.1)
write_enough_lem (done, left) bs h =
    ((done ++ bs, drop (length bs) left), rw (le→leb (length bs) (length left) h), refl, refl)

pub write_short_lem :
    (o : List ℕ × List ℕ) (bs : List ℕ)
    → length o.1 < length bs
    → sample_write o bs ≡ throws serialization_error
write_short_lem (done, left) bs h = rw (leb-false (length bs) (length left) h)

abbrev pub sample : Tins
sample = record {
  host = little;
  host_to_be = swap;
  be_to_host = swap;
  host_to_be-lt = swap-lt;
  memory-host_to_be = λ v h. low_first-swap v;
  be_to_host-host_to_be = swap-swap;
  host_to_le = λ v. v % 2 ^ 32;
  le_to_host = λ v. v;
  host_to_le-lt = λ v. omega arith;
  memory-host_to_le = λ v h. low_first-mod v;
  le_to_host-host_to_le = λ v h. omega arith;
  Input = List ℕ;
  input = λ bs n. take n bs;
  pointer = λ s. s;
  size = length;
  can_read = λ s n. leb n (length s);
  read = sample_read;
  skip = sample_skip;
  pointer-input = λ bs n h. refl;
  size-pointer = λ s. refl;
  can_read-pointer = λ s n. refl;
  read_enough = read_enough_lem;
  read_short = read_short_lem;
  skip_enough = skip_enough_lem;
  skip_short = skip_short_lem;
  Output = List ℕ × List ℕ;
  output = λ bs. ([], bs);
  written = λ o. o.0;
  room = λ o. o.1;
  write = sample_write;
  written-output = λ bs. refl;
  room-output = λ bs. refl;
  write_enough = write_enough_lem;
  write_short = write_short_lem;
}
