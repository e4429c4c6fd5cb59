-- ===== src/Libnl/Sample.antt =====
-- A libnl for runs: messages are a header and a list of attributes, and every send succeeds.
use libstreetpass.Prelude.{
  ℕ, suc, ◌≡◌, sym, ap, List, [], ◌∷◌, ◌++◌, map, Option, none, some, arith,
}
use libstreetpass.Tins.{little}
use libstreetpass.Libnl.{Libnl, Uapi, Header, Payload, Put, put_ok}

-- Numbers of linux/nl80211.h, linux/netlink.h and net/if.h.
abbrev pub sample_uapi : Uapi
sample_uapi = record {
  cmd_new_key = 11;
  cmd_del_key = 12;
  cmd_set_interface = 6;
  cmd_register_frame = 58;
  cmd_frame = 59;
  cmd_join_ibss = 43;
  cmd_new_interface = 7;
  cmd_del_interface = 8;
  cmd_get_wiphy = 1;
  cmd_get_interface = 5;
  attr_ifindex = 3;
  attr_key_data = 7;
  attr_key_cipher = 9;
  attr_mac = 6;
  attr_key_type = 55;
  attr_key_idx = 8;
  attr_iftype = 5;
  attr_frame_type = 101;
  attr_frame_match = 91;
  attr_wiphy_freq = 38;
  attr_frame = 51;
  attr_duration = 87;
  attr_dont_wait_for_ack = 142;
  attr_ssid = 52;
  attr_freq_fixed = 60;
  attr_wiphy = 1;
  attr_ifname = 4;
  attr_socket_owner = 204;
  attr_wiphy_name = 2;
  attr_supported_commands = 50;
  attr_supported_iftypes = 32;
  attr_cipher_suites = 57;
  attr_wiphy_bands = 22;
  band_attr_freqs = 1;
  band_attr_rates = 2;
  frequency_attr_freq = 1;
  bitrate_attr_rate = 1;
  keytype_pairwise = 1;
  iftype_adhoc = 1;
  nlm_f_dump = 0x300;
  ifnamsiz = 16;
}

abbrev pub SampleMsg : Type 0
SampleMsg = Header × List (ℕ × Payload)

-- An attribute received: its type and its payload.
abbrev pub SampleAttr : Type 0
SampleAttr = ℕ × List ℕ

abbrev pub sample_put : SampleMsg → ℕ → Payload → Put SampleMsg
sample_put (h, ps) attr p = put_ok (h, ps ++ (attr, p) ∷ [])

pub genlmsg_put_sample :
    (m m' : SampleMsg) (h : Header)
    → ◌≡◌ {A = Option SampleMsg} (some (h, [])) (some m')
    → (m'.0 ≡ h) × (m'.1 ≡ [])
genlmsg_put_sample m m' h e =
    let same : (h, []) ≡ m' = cc e in
    (ap (λ (x : SampleMsg). x.0) (sym same), ap (λ (x : SampleMsg). x.1) (sym same))

pub nla_put_sample :
    (m m' : SampleMsg) (attr : ℕ) (p : Payload)
    → sample_put m attr p ≡ put_ok m'
    → (m'.0 ≡ m.0) × (m'.1 ≡ m.1 ++ (attr, p) ∷ [])
nla_put_sample (h, ps) m' attr p e =
    let same : (h, ps ++ (attr, p) ∷ []) ≡ m' = cc e in
    (ap (λ (x : SampleMsg). x.0) (sym same), ap (λ (x : SampleMsg). x.1) (sym same))

abbrev pub sample_nl : Libnl
sample_nl = record {
  uapi = sample_uapi;
  host = little;
  Msg = SampleMsg;
  header = λ m. m.0;
  attributes = λ m. m.1;
  nlmsg_alloc = some (record { command = 0; driver_id = 0; flags = 0 }, []);
  genlmsg_put = λ m h. some (h, []);
  nla_put = sample_put;
  genlmsg_put_lem = genlmsg_put_sample;
  nla_put_lem = nla_put_sample;
  nl_send_auto = λ m. none;
  nl_cb_alloc = some tt;
  nl_syserr2nlerr = λ e. suc e;
  nl_syserr2nlerr-pos = λ e. omega arith;
  Nlattr = SampleAttr;
  nla_type = λ a. a.0;
  nla_data = λ a. a.1;
  nla_nested = λ a. [];
}

-- The sample with nested attributes: a byte of the payload is an attribute of this type and value.
abbrev pub nested_nl : Libnl
nested_nl = record sample_nl { nla_nested = λ a. map (λ (b : ℕ). (b, b ∷ 0 ∷ 0 ∷ 0 ∷ [])) a.1 }
