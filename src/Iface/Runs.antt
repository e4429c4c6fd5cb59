-- ===== src/Iface/Runs.antt =====
-- Opens the definitions that runs of the interfaces compute with.
use libstreetpass.Prelude.State
use libstreetpass.Nl80211.Attributes
use libstreetpass.Nl80211.Commands
use libstreetpass.Nl80211.Commands.Parse
use libstreetpass.Nl80211.Message
use libstreetpass.Nl80211.Socket
use libstreetpass.Cec.Tests
use libstreetpass.Ioctl
use libstreetpass.Iface.Physical
use libstreetpass.Iface.Physical.Discovery
use libstreetpass.Iface.Streetpass
use libstreetpass.Iface.Streetpass.Create
use libstreetpass.Iface.Streetpass.Scan
use libstreetpass.Iface.Virtual
use libstreetpass.Iface.World

unfoldable pub run : Unit {0}
unfolding Tests.run State.continue_with State.◌>>=◌ State.◌>>◌ Message.or_bad_alloc
    Message.new_message Message.or_nl_error Message.put Message.put_all Attributes.add_attribute
    Attributes.add_attributes Attributes.new_attributes Attributes.lookup Attributes.or_not_found
    Attributes.find Attributes.get_bytes Socket.non_negative Socket.new_socket Socket.send_message
    Socket.on_valid Socket.on_event Socket.deliver Socket.recv_loop Socket.finish_recv
    Socket.received Socket.recv_messages_with Socket.recv_messages Commands.build
    Commands.send_request Commands.request Commands.register_frame Parse.catch_all World.close_after
    World.on_socket World.open_socket World.with_socket Streetpass.catch_not_found
    Streetpass.module_filter_bytes Streetpass.is_streetpass_scan_probereq
    Streetpass.vendor_specific_data Scan.get Scan.is_present Scan.emplace Scan.on_module_filter
    Scan.on_contents Scan.on_probereq Scan.on_frame Scan.handler Scan.scan_with_cb Scan.collect
    Scan.scan Scan.no_filter Scan.scan_all Scan.filter_match Scan.scan_matching Scan.is_peer
    Scan.associate Scan.print_found Attributes.get_u32 Attributes.get_string Commands.new_interface
    Commands.get_interface Commands.set_interface_mode Commands.join_ibss Parse.copy_mac
    Parse.parse_interface_message Parse.contains Ioctl.or_system_error Ioctl.changed
    Ioctl.new_socket Ioctl.ifr_name Ioctl.get_interface_flags Ioctl.set_interface_flags
    Ioctl.is_interface_up Ioctl.set_interface_up Ioctl.set_interface_down World.on_kernel
    Virtual.new_virtual_interface Virtual.get_all_info Virtual.get_name Virtual.is_up Virtual.up
    Virtual.down Create.on_nlsock Create.on_world Create.ensure_adhoc Create.ensure_up
    Create.configure Create.build Create.built Create.new_streetpass_interface Parse.insert
    Parse.insert_all Parse.insert_values Parse.insert_nested_values Parse.parse_bands
    Parse.parse_wiphy_message Parse.on_interface Attributes.words Attributes.get_u32s
    Attributes.get_nested Commands.get_wiphy Commands.get_interface_list
    Physical.new_physical_interface Physical.check_cmds Physical.required_cmds
    Physical.check_supported Discovery.get_all_info Discovery.physical_interface_at
    Discovery.find_all_virtual Create.down_all Create.setup_streetpass_interface
run = tt
