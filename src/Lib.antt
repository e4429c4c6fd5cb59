-- ===== src/Lib.antt =====
-- Models of libstreetpass, a library that finds Nintendo 3DS consoles in StreetPass mode from a
-- wireless card, and of the properties that make it correct.
--
-- The program has four parts. cec (include/cec, src/cec) is the format of the module filter, the
-- information element that a console broadcasts in its probe requests: up to three filter lists, of
-- raw bytes, of titles and of one key, with the tests of which filters match. nl80211
-- (include/nl80211, src/nl80211) talks to the wireless subsystem of the kernel: messages with typed
-- attributes, a socket that sends them and hands the answers to callbacks, and a function for each
-- command. iface (include/iface, src/iface) builds the interfaces on both and on ioctl, and crypto
-- (include/crypto, src/crypto) derives the key of a connection.
--
-- Files:
-- Prelude, its children: tests, lists, bits, calls with a state and the result type that the models
--   share. A Result is a value, an exception of the code, undefined behaviour such as a read out of
--   bounds, or stuck, which is no result of the code: a loop ran out of fuel or a receive waits for
--   ever.
-- Tins: the memory streams and byte swaps of libtins as a record of operations and laws, on a host
--   of either byte order; Tins.Streams the lemmas on them; Tins.Sample an instance with lists.
-- Cec.SendMode: SendMode of src/cec/send_mode.cpp. Cec.Endian: EndianType of
--   include/cec/endian_types.hpp. Cec.Layout: the packed headers of include/cec/module_filter.hpp.
-- Cec.Mve, Cec.RawBytes, Cec.Title, Cec.Key, Cec.FilterList, Cec.ModuleFilter: the classes of
--   src/cec/module_filter.cpp. from_stream, match, byte_size and to_bytes (operator bytes) are the
--   member functions of these names; set_x is the setter x; new_x is a constructor. A stream that
--   is passed by reference is an argument, and the stream after it a part of the result.
-- Cec.Filter: the abstract class Filter<T> as a record, which FilterList takes as a parameter, and
--   the specification Codec of a wire format, which each class fills in its child modules.
--   Cec.ModuleFilter.Reached holds the module filters that the public operations can build.
-- Text: std::ostream as a text with a base, a fill and a width. Cec.Print: the operators << of
--   src/cec; print_x is the one of x, and takes and returns the stream. The parameter as_character
--   says which overload the compiler takes for an enumeration over uint8_t.
-- Libnl: libnl and the kernel's constants as a record of operations and laws; Libnl.Sample an
--   instance. Nl80211.Message, Nl80211.Attributes, Nl80211.Socket, Nl80211.Commands: the files of
--   src/nl80211 of these names. What comes in on a socket is a schedule: for each call of
--   nl_recvmsgs its messages, in order, and the value of elapsed_ms after it.
-- Os: the calls of ioctl and their kernel as a record of operations and laws; Os.Sample an instance
--   with one device. Ioctl: src/iface/ioctl.cpp. Tins.Dot11: the 802.11 frames of libtins.
-- Iface.World: the state of the interfaces. A call opens sockets of its own, each the next of a
--   schedule of openings, and leaves what they sent when it closes them. What the kernel does for a
--   message of nl80211 is in the answers of the schedule; what ioctl does is in the kernel's state.
-- Iface.Virtual, Iface.Physical, Iface.Streetpass: the files of src/iface of these names.
--   Iface.Physical.Discovery has the operations that ask the kernel, Iface.Streetpass.Scan the
--   scans and associate, Iface.Streetpass.Create the constructor of StreetpassInterface and
--   setup_streetpass_interface, Iface.Streetpass.Response make_initial_proberesp. The variables
--   that a callback captures by reference are a state, which it takes and returns.
-- Demo: src/main.cpp, which sets up an interface, scans and prints. How libtins orders and prints
--   addresses is a parameter (record Addresses).
-- Crypto: src/crypto/crypto.cpp, with what it calls of Crypto++ as a record of operations and laws.
-- Samples, Examples, Cases and Tests modules: runs at concrete values.
--
-- Fuel: read_lists has 4 rounds. A round reads a kind of list that has not been read before, of
-- which there are three, or throws, so a fourth round is only entered to find the stream at its end
-- or to throw. FilterList.match takes its fuel as an argument, since its loops need not end.
-- read_filters has the length of the stream as fuel, of which each filter takes a byte or more.
--
-- A vector has less than 2^32 filters where the theorems say so: the loop counters are unsigned.
-- The code is read as on a platform where undefined behaviour is never relied on: a read past an
-- array is the result `undefined`, without a guess of what it returns. An address past the end of an
-- array or a vector at which nothing is read is no such result.
--
-- Not modelled: the pauses of the constructor of StreetpassInterface, the closing of the socket of
-- an interface that main leaves, the accessors of the exception classes, and the check of sequence
-- numbers in libnl with disable_seq_check, by which scans switch it off: a schedule has the messages
-- that reach the callbacks.
pub mod Prelude
pub mod Text
pub mod Tins
pub mod Cec
pub mod Libnl
pub mod Nl80211
pub mod Iface
pub mod Crypto
pub mod Os
pub mod Ioctl
pub mod Demo
