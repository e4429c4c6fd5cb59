-- ===== src/Os/Sample.antt =====
-- A system for runs: it has one device, and every name stands for it.
use libstreetpass.Prelude.{
  ℕ, ◌%◌, ◌^◌, ◌<◌, ◌≡◌, refl, List, ◌==◌, ==_iff, none, length, take, if◌then◌else◌, arith,
}
use libstreetpass.Os.{Os, Reply, done, failed}

pub record Device : Type 0 where
  pub flags : ℕ
  pub address : List ℕ

abbrev pub sample_get_hwaddr : Device → Reply (List ℕ)
sample_get_hwaddr d = if length d.address == 14 then done d.address else failed 19

pub length-sample_get_hwaddr :
    (d : Device) (address : List ℕ) → sample_get_hwaddr d ≡ done address → length address ≡ 14
length-sample_get_hwaddr d address h = ground (arith, ==_iff (length d.address) 14)

pub sample_get_hwaddr_lem :
    (d d' : Device) (address : List ℕ)
    → length address ≡ 14
    → ◌≡◌ {A = Reply Device} (done (record d { address = address })) (done d')
    → (address' : List ℕ) × (sample_get_hwaddr d' ≡ done address')
      × (take 6 address' ≡ take 6 address)
sample_get_hwaddr_lem d d' address h e = (address, ground arith, refl)

pub sample_get_flags_lem :
    (d d' : Device) (flags : ℕ)
    → ◌≡◌ {A = Reply Device} (done (record d { flags = flags })) (done d')
    → (flags' : ℕ) × (◌≡◌ {A = Reply ℕ} (done (d'.flags % 2 ^ 16)) (done flags'))
      × (flags' % 2 ≡ flags % 2)
sample_get_flags_lem d d' flags e = (d'.flags % 2 ^ 16, refl, ground arith)

pub sample_get_flags-lt :
    (d : Device) (flags : ℕ)
    → ◌≡◌ {A = Reply ℕ} (done (d.flags % 2 ^ 16)) (done flags)
    → flags < 2 ^ 16
sample_get_flags-lt d flags e = ground arith

abbrev pub sample_os : Os
sample_os = record {
  Kernel = Device;
  socket_failure = λ d. none;
  get_flags = λ d name. done (d.flags % 2 ^ 16);
  set_flags = λ d name flags. done (record d { flags = flags });
  get_hwaddr = λ d name. sample_get_hwaddr d;
  set_hwaddr = λ d name family address. done (record d { address = address });
  get_index = λ d name. done 3;
  iff_up = 1;
  iff_up-eq-one = refl;
  ifnamsiz = 16;
  arphrd_ether = 1;
  get_flags-lt = λ d name flags e. sample_get_flags-lt d flags e;
  get_flags-set_flags = λ d d' name flags e. sample_get_flags_lem d d' flags e;
  length-get_hwaddr = λ d name address e. length-sample_get_hwaddr d address e;
  get_hwaddr-set_hwaddr = λ d d' name address h e. sample_get_hwaddr_lem d d' address h e;
}
