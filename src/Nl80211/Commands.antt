-- ===== src/Nl80211/Commands.antt =====
-- include/nl80211/commands.hpp and src/nl80211/commands.cpp: one request and its answer for each
-- command. A set is a list without repetition; a bitrate is kept in the kernel's units of 100 kb/s.
pub mod Parse
pub mod Requests
pub mod Incoming
pub mod Listing
pub mod Dumped
use libstreetpass.Prelude.{
  ℕ, ◌+◌, ◌-◌, List, [], ◌∷◌, ◌++◌, ◌==◌, Bool, true, false, not, ltb, length, if◌then◌else◌,
}
use libstreetpass.Prelude.Result.{
  Result, ok, throws, undefined, stuck, invalid_argument, throw_if, ◌>>=◌ as bind,
}
use libstreetpass.Prelude.State.{continue_with, ◌>>=◌, ◌>>◌}
use libstreetpass.Libnl.{Libnl, Payload, u32, u16, u8, flag, bytes, text}
use libstreetpass.Nl80211.Attributes.{Attributes}
use libstreetpass.Nl80211.Message.{new_message, put_all}
use libstreetpass.Nl80211.Socket.{Socket, M, send_message, recv_messages, recv_messages_with}
use Parse.{
  Wiface, Wiphy, no_wiface, no_wiphy, parse_interface_message, parse_wiphy_message, on_wiphy,
  on_interface,
}

module _ (nl : Libnl) where
  open nl use {Msg}

  -- A message with its attributes, put in order.
  unfoldable pub build : ℕ → ℕ → ℕ → List (ℕ × Payload) → Result Msg
  build cmd driver_id flags attrs =
      bind (new_message nl cmd driver_id flags) λ m. put_all nl m attrs

  -- `Message msg(cmd, nlsock.get_driver_id(), flags); msg.put(…); …; nlsock.send_message(msg);`
  unfoldable pub send_request : ℕ → ℕ → List (ℕ × Payload) → M nl (Unit {0})
  unfolding continue_with
  send_request cmd flags attrs s =
      continue_with (λ m. send_message nl m) (build cmd s.driver_id flags attrs) s

  -- A request whose answer is an acknowledgement.
  unfoldable pub request : ℕ → List (ℕ × Payload) → M nl (Unit {0})
  unfolding ◌>>◌
  request cmd attrs = do send_request cmd 0 attrs; recv_messages nl

  unfoldable pub new_key : ℕ → ℕ → ℕ → List ℕ → List ℕ → M nl (Unit {0})
  unfolding request
  new_key if_idx key_idx cipher mac key = request nl.cmd_new_key (
      (nl.attr_ifindex, u32 if_idx)
      ∷ (nl.attr_key_data, bytes key)
      ∷ (nl.attr_key_cipher, u32 cipher)
      ∷ (nl.attr_mac, bytes mac)
      ∷ (nl.attr_key_type, u32 nl.keytype_pairwise)
      ∷ (nl.attr_key_idx, u8 key_idx)
      ∷ [])

  unfoldable pub del_key : ℕ → ℕ → List ℕ → M nl (Unit {0})
  unfolding request
  del_key if_idx key_idx mac = request nl.cmd_del_key (
      (nl.attr_ifindex, u32 if_idx) ∷ (nl.attr_mac, bytes mac) ∷ (nl.attr_key_idx, u8 key_idx) ∷ [])

  unfoldable pub set_interface_mode : ℕ → ℕ → M nl (Unit {0})
  unfolding request
  set_interface_mode if_idx mode =
      request nl.cmd_set_interface ((nl.attr_ifindex, u32 if_idx) ∷ (nl.attr_iftype, u32 mode) ∷ [])

  unfoldable pub register_frame : ℕ → ℕ → List ℕ → M nl (Unit {0})
  unfolding request
  register_frame if_idx type match = request nl.cmd_register_frame (
      (nl.attr_ifindex, u32 if_idx)
      ∷ (nl.attr_frame_type, u16 type)
      ∷ (nl.attr_frame_match, bytes match)
      ∷ [])

  unfoldable pub send_frame : ℕ → ℕ → List ℕ → ℕ → Bool → M nl (Unit {0})
  unfolding request
  send_frame if_idx freq frame duration wait_ack = request nl.cmd_frame (
      (nl.attr_ifindex, u32 if_idx)
      ∷ (nl.attr_wiphy_freq, u32 freq)
      ∷ (nl.attr_frame, bytes frame)
      ∷ ((if duration == 0 then [] else (nl.attr_duration, u32 duration) ∷ [])
          ++ (if wait_ack then [] else (nl.attr_dont_wait_for_ack, flag) ∷ [])))

  unfoldable pub join_ibss : ℕ → List ℕ → ℕ → Bool → List ℕ → M nl (Unit {0})
  unfolding request
  join_ibss if_idx ssid freq fixed_freq bssid s =
      if ltb 0x20 (length ssid)
      then (throws (invalid_argument "SSID is too long"), s)
      else request nl.cmd_join_ibss
          ((nl.attr_ifindex, u32 if_idx)
            ∷ (nl.attr_ssid, bytes ssid)
            ∷ (nl.attr_wiphy_freq, u32 freq)
            ∷ (nl.attr_mac, bytes bssid)
            ∷ (if fixed_freq then (nl.attr_freq_fixed, flag) ∷ [] else []))
          s

  -- `wiface w` is not initialised; `memory` is what it held.
  unfoldable pub new_interface : Wiface → ℕ → ℕ → List ℕ → Bool → M nl Wiface
  unfolding ◌>>◌
  new_interface memory wiphy type name socket_owner s =
      if ltb (nl.ifnamsiz - 1) (length name)
      then (throws (invalid_argument "Interface name is too long"), s)
      else (send_request nl.cmd_new_interface 0 (
              (nl.attr_wiphy, u32 wiphy)
              ∷ (nl.attr_iftype, u32 type)
              ∷ (nl.attr_ifname, text name)
              ∷ (if socket_owner then (nl.attr_socket_owner, flag) ∷ [] else []))
            >> recv_messages_with nl (parse_interface_message nl) memory 0)
          s

  unfoldable pub del_interface : ℕ → M nl (Unit {0})
  unfolding request
  del_interface if_idx = request nl.cmd_del_interface ((nl.attr_ifindex, u32 if_idx) ∷ [])

  unfoldable pub get_wiphy : ℕ → M nl Wiphy
  unfolding ◌>>◌
  get_wiphy wiphy = do
    send_request nl.cmd_get_wiphy 0 ((nl.attr_wiphy, u32 wiphy) ∷ [])
    recv_messages_with nl (parse_wiphy_message nl) no_wiphy 0

  unfoldable pub get_wiphy_list : M nl (List Wiphy)
  unfolding ◌>>◌
  get_wiphy_list = do
    send_request nl.cmd_get_wiphy nl.nlm_f_dump []
    recv_messages_with nl (on_wiphy nl) [] 0

  unfoldable pub get_interface : ℕ → M nl Wiface
  unfolding ◌>>◌
  get_interface if_idx = do
    send_request nl.cmd_get_interface 0 ((nl.attr_ifindex, u32 if_idx) ∷ [])
    recv_messages_with nl (parse_interface_message nl) no_wiface 0

  -- `memory` is what the `wiface` of each answer held.
  unfoldable pub get_interface_list : Wiface → ℕ → M nl (List Wiface)
  unfolding ◌>>◌
  get_interface_list memory wiphy = do
    send_request nl.cmd_get_interface nl.nlm_f_dump ((nl.attr_wiphy, u32 wiphy) ∷ [])
    recv_messages_with nl (on_interface nl memory) [] 0
