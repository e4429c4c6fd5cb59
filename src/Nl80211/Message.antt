-- ===== src/Nl80211/Message.antt =====
-- Message of include/nl80211/message.hpp and src/nl80211/message.cpp.
use libstreetpass.Prelude.{ℕ, List, [], ◌∷◌, Option, none, some}
use libstreetpass.Prelude.Result.{Result, ok, throws, bad_alloc, nl_error, neg, ◌>>=◌}
use libstreetpass.Libnl.{Libnl, Payload, Put, put_ok, put_failed}

module _ (nl : Libnl) where
  open nl use {Msg, nlmsg_alloc, genlmsg_put, nla_put}

  unfoldable pub or_bad_alloc : Option Msg → Result Msg
  or_bad_alloc none = throws bad_alloc
  or_bad_alloc (some m) = ok m

  -- The constructor.
  unfoldable pub new_message : ℕ → ℕ → ℕ → Result Msg
  unfolding or_bad_alloc
  new_message cmd driver_id flags = do
    m ← or_bad_alloc nlmsg_alloc
    or_bad_alloc (genlmsg_put m (record { command = cmd; driver_id = driver_id; flags = flags }))

  unfoldable pub or_nl_error : Put Msg → Result Msg
  or_nl_error (put_ok m) = ok m
  or_nl_error (put_failed n) = throws (nl_error (neg n) "Failed to add attribute to message")

  -- The six overloads of `put`.
  unfoldable pub put : Msg → ℕ → Payload → Result Msg
  unfolding or_nl_error
  put m attr p = or_nl_error (nla_put m attr p)

  unfoldable pub put_all : Msg → List (ℕ × Payload) → Result Msg
  put_all m [] = ok m
  put_all m ((attr, p) ∷ rest) = do m' ← put m attr p; put_all m' rest
