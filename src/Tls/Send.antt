-- ===== src/Tls/Send.antt =====
-- src/win32/ssl_socket.c: sending, a chunk for each frame.
use xrossfire.Base.{
  ℕ, zero, suc, Bool, true, false, Option, none, some, List, [], ◌∷◌, ◌++◌, ◌==◌, if◌then◌else◌,
  ◌>>=◌,
}
use xrossfire.Base.Int.{ℤ, pos, ◌-ℤ◌, ltb_ℤ}
use xrossfire.Object.{xf_error}
use xrossfire.Tls.{Log, notify_parent, link_child, copy}

-- The buffer from `send_buffer` on.
pub record SendContext : Type 0 where
  pub send_buffer : List ℕ
  pub send_length : ℤ

abbrev pub get_chunk_length : ℕ → ℤ → ℤ
get_chunk_length maximum length = if ltb_ℤ (pos maximum) length then pos maximum else length

-- `free(c->iobuf); free(c); xf_async_notify(parent, error);`
abbrev pub end_send : ℕ → Log → Option Log
end_send error log =
    notify_parent error (record log {
      freed_contexts = suc log.freed_contexts;
      freed_buffers = suc log.freed_buffers;
    })

abbrev pub stopped_with : Option Log → Option (Log × Option SendContext)
stopped_with m = m >>= λ log. some (log, none)

-- `maximum` is cbMaximumMessage. `encrypt` is `EncryptMessage` after the frames that have been sent: its
-- status, which is not tested, and what it leaves of a message in the buffer, with the places of the
-- header and the trailer. `new_error` is the error of `xf_async_new`.
module _ (maximum : ℕ) (encrypt : List (List ℕ) → List ℕ → ℕ × List ℕ) where
  abbrev pub seal : List (List ℕ) → List ℕ → List (List ℕ)
  seal frames message = frames ++ (encrypt frames message).1 ∷ []

  unfoldable pub send_ph1 : ℕ → SendContext → Log → Option (Log × Option SendContext)
  send_ph1 new_error context log = do
    let chunk = get_chunk_length maximum context.send_length
    (message, rest) ← copy chunk context.send_buffer
    if new_error == 0
        then (link_child true log >>= λ log'. some (
          record log' { frames = seal log'.frames message },
          some (record { send_buffer = rest; send_length = context.send_length -ℤ chunk }),
        ))
        else stopped_with (end_send new_error log)

  unfoldable pub send_ph2 : ℕ → ℕ → SendContext → Log → Option (Log × Option SendContext)
  send_ph2 new_error error context log =
      if error == 0
      then (if ltb_ℤ (pos 0) context.send_length
          then send_ph1 new_error context log
          else stopped_with (end_send 0 log))
      else stopped_with (end_send error log)

  -- `queried` is 0 if the sizes are known; `iobuf` and `context` are allocated or not.
  unfoldable pub socket_send :
      ℕ → Bool → Bool → ℕ → List ℕ → ℤ → Log → Option (Log × Option SendContext)
  socket_send queried iobuf context new_error buffer length log =
      if queried == 0
      then (if iobuf
          then (if context
              then send_ph1 new_error (record { send_buffer = buffer; send_length = length }) log
              else stopped_with
                  (notify_parent xf_error (record log { freed_buffers = suc log.freed_buffers })))
          else stopped_with (notify_parent xf_error log))
      else stopped_with (notify_parent xf_error log)

  -- The child has completed and is released.
  abbrev pub leave_send : Log × Option SendContext → Option (Log × Option SendContext)
  leave_send (log, context) = link_child false log >>= λ log'. some (log', context)

  -- The sends of the base socket are completed one after the other, the i-th with the first of
  -- `answers i`; the second is the error of `xf_async_new` after it.
  unfoldable pub send_loop :
      ℕ → (ℕ → ℕ × ℕ) → Log × Option SendContext → Option (Log × Option SendContext)
  send_loop fuel answers (log, none) = some (log, none)
  send_loop zero answers (log, some context) = some (log, some context)
  send_loop (suc fuel) answers (log, some context) =
      send_ph2 (answers fuel).1 (answers fuel).0 context log
      >>= leave_send
      >>= send_loop fuel answers
