-- ===== src/Cec/SendMode.antt =====
-- include/cec/send_mode.hpp and src/cec/send_mode.cpp. A mode is the number under the enumeration,
-- which a bit-field of four bits can give a value that has no name.
pub mod Compatible
use libstreetpass.Prelude.{ℕ, Bool, false, not, ◌||◌, ◌==◌, if◌then◌else◌}
use Prim.Native.String.{String}

abbrev pub exchange : ℕ
exchange = 0

abbrev pub recv_only : ℕ
recv_only = 1

abbrev pub send_only : ℕ
send_only = 2

abbrev pub send_recv : ℕ
send_recv = 3

unfoldable pub match : ℕ → ℕ → Bool
match mode other =
    if mode == exchange
    then other == exchange
    else if mode == recv_only
    then other == send_only || other == send_recv
    else if mode == send_only
    then other == recv_only || other == send_recv
    else if mode == send_recv
    then not (other == exchange)
    else false

unfoldable pub to_string : ℕ → String
to_string mode =
    if mode == exchange
    then "EXCHANGE"
    else if mode == recv_only
    then "RECV_ONLY"
    else if mode == send_only
    then "SEND_ONLY"
    else if mode == send_recv
    then "SEND_RECV"
    else "invalid"
