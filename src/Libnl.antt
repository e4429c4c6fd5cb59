-- ===== src/Libnl.antt =====
-- What the code calls of libnl (netlink/*.h) and of the kernel's headers, as parameters with their
-- documented behaviour. `Msg` is an nl_msg under construction and `Nlattr` an attribute received.
pub mod Sample
use libstreetpass.Prelude.{ℕ, ◌<◌, ◌≡◌, List, [], ◌∷◌, ◌++◌, Option, some}
use libstreetpass.Tins.{Endianness}

-- The payload of nla_put_u32, nla_put_u16, nla_put_u8, nla_put_flag, nla_put and nla_put_string.
pub data Payload : Type 0 where
  u32 : ℕ → Payload
  u16 : ℕ → Payload
  u8 : ℕ → Payload
  flag : Payload
  bytes : List ℕ → Payload
  text : List ℕ → Payload

-- What a call that adds to a message returns: the message, or the size of its negative code.
pub data Put (A : Type 0) : Type 0 where
  put_ok : A → Put A
  put_failed : ℕ → Put A

-- What a message starts with: command, driver id and flags.
pub record Header : Type 0 where
  pub command : ℕ
  pub driver_id : ℕ
  pub flags : ℕ

-- The constants of linux/nl80211.h, linux/netlink.h and net/if.h that the code names.
pub record Uapi : Type 0 where
  pub cmd_new_key : ℕ
  pub cmd_del_key : ℕ
  pub cmd_set_interface : ℕ
  pub cmd_register_frame : ℕ
  pub cmd_frame : ℕ
  pub cmd_join_ibss : ℕ
  pub cmd_new_interface : ℕ
  pub cmd_del_interface : ℕ
  pub cmd_get_wiphy : ℕ
  pub cmd_get_interface : ℕ
  pub attr_ifindex : ℕ
  pub attr_key_data : ℕ
  pub attr_key_cipher : ℕ
  pub attr_mac : ℕ
  pub attr_key_type : ℕ
  pub attr_key_idx : ℕ
  pub attr_iftype : ℕ
  pub attr_frame_type : ℕ
  pub attr_frame_match : ℕ
  pub attr_wiphy_freq : ℕ
  pub attr_frame : ℕ
  pub attr_duration : ℕ
  pub attr_dont_wait_for_ack : ℕ
  pub attr_ssid : ℕ
  pub attr_freq_fixed : ℕ
  pub attr_wiphy : ℕ
  pub attr_ifname : ℕ
  pub attr_socket_owner : ℕ
  pub attr_wiphy_name : ℕ
  pub attr_supported_commands : ℕ
  pub attr_supported_iftypes : ℕ
  pub attr_cipher_suites : ℕ
  pub attr_wiphy_bands : ℕ
  pub band_attr_freqs : ℕ
  pub band_attr_rates : ℕ
  pub frequency_attr_freq : ℕ
  pub bitrate_attr_rate : ℕ
  pub keytype_pairwise : ℕ
  pub iftype_adhoc : ℕ
  pub nlm_f_dump : ℕ
  pub ifnamsiz : ℕ

pub record Libnl : Type 1 where
  pub uapi : Uapi
  pub open uapi use *
  pub host : Endianness
  pub Msg : Type 0
  pub header : Msg → Header
  pub attributes : Msg → List (ℕ × Payload)
  pub nlmsg_alloc : Option Msg
  pub genlmsg_put : Msg → Header → Option Msg
  pub nla_put : Msg → ℕ → Payload → Put Msg
  pub genlmsg_put_lem :
      (m m' : Msg) (h : Header) → genlmsg_put m h ≡ some m' → (header m' ≡ h) × (attributes m' ≡ [])
  pub nla_put_lem :
      (m m' : Msg) (attr : ℕ) (p : Payload)
      → nla_put m attr p ≡ put_ok m'
      → (header m' ≡ header m) × (attributes m' ≡ attributes m ++ (attr, p) ∷ [])
  -- The code of a send that failed.
  pub nl_send_auto : Msg → Option ℕ
  -- Whether a set of callbacks could be allocated.
  pub nl_cb_alloc : Option (Unit {0})
  -- The code of libnl for an error of the system.
  pub nl_syserr2nlerr : ℕ → ℕ
  pub nl_syserr2nlerr-pos : (e : ℕ) → 0 < nl_syserr2nlerr e
  pub Nlattr : Type 0
  pub nla_type : Nlattr → ℕ
  -- The payload, of nla_len bytes.
  pub nla_data : Nlattr → List ℕ
  -- The attributes that nla_for_each_nested visits.
  pub nla_nested : Nlattr → List Nlattr
