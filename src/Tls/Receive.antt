-- ===== src/Tls/Receive.antt =====
-- src/win32/ssl_socket.c: receiving, from what has been decrypted or from a new record.
use xrossfire.Base.{ℕ, suc, Bool, true, false, Option, none, some, List, ◌==◌, if◌then◌else◌, ◌>>=◌}
use xrossfire.Base.Int.{ℤ, pos, ◌+ℤ◌, ◌-ℤ◌, ltb_ℤ}
use xrossfire.Object.{xf_error}
use xrossfire.Tls.{Log, notify_parent, link_child, copy}

-- The part of xf_ssl_socket_data_t that buffers.
pub record SslData : Type 0 where
  pub received_buffer : Option (List ℕ)
  pub received_pos : ℤ
  pub received_length : ℤ

-- What a call gives: bytes for the caller's buffer, or nothing yet, or nothing at all.
pub data Receipt : Type 0 where
  delivered : List ℕ → Receipt
  waiting failed : Receipt

pub record Received : Type 0 where
  pub body : SslData
  pub receipt : Receipt
  pub log : Log

unfoldable pub get_copy_length : SslData → ℤ → ℤ
get_copy_length body length =
    let copy_len = body.received_length -ℤ body.received_pos in
    if ltb_ℤ length copy_len then length else copy_len

-- The number of bytes is what `*receive_length` is set to; the pointer is not NULL.
unfoldable pub copy_from_buffer : SslData → ℤ → Log → Option Received
copy_from_buffer body length log = do
  let copy_len = get_copy_length body length
  buffer ← body.received_buffer
  (before, unread) ← copy body.received_pos buffer
  (bytes, rest) ← copy copy_len unread
  log' ← notify_parent 0 log
  some (record {
    body = record body { received_pos = body.received_pos +ℤ copy_len };
    receipt = delivered bytes;
    log = log';
  })

abbrev pub free_context : Log → Log
free_context log = record log { freed_contexts = suc log.freed_contexts }

abbrev pub free_buffer : Log → Log
free_buffer log = record log { freed_buffers = suc log.freed_buffers }

-- The caller is notified of an error.
abbrev pub fail_with : ℕ → SslData → Log → Option Received
fail_with error body log =
    notify_parent error log >>= λ log'. some (record { body = body; receipt = failed; log = log' })

abbrev pub fail_ph1 : ℕ → SslData → Log → Option Received
fail_ph1 error body log = fail_with error body (free_context log)

-- The error of the first phase, with the context freed, or the I/O that is pending: `queried` is 0 if
-- the sizes are known, and `new_error` is the error of `xf_async_new`. A buffer that has been
-- allocated when `xf_async_new` fails is not freed.
unfoldable pub receive_ph1 : ℕ → Bool → ℕ → SslData → Log → Option Received
receive_ph1 queried iobuf new_error body log =
    if queried == 0
    then (if iobuf
        then (if new_error == 0
            then (link_child true log >>= λ log'.
                some (record { body = body; receipt = waiting; log = log' }))
            else fail_ph1 new_error body log)
        else fail_ph1 xf_error body log)
    else fail_ph1 xf_error body log

-- `free(NULL)` does nothing.
abbrev pub free_received : SslData → Log → Log
free_received body log = elim body.received_buffer [ none ↦ log | some _ ↦ free_buffer log ]

unfoldable pub socket_receive : ℕ → Bool → Bool → ℕ → SslData → ℤ → Log → Option Received
socket_receive queried context iobuf new_error body length log =
    if ltb_ℤ body.received_pos body.received_length
    then copy_from_buffer body length log
    else (let body' = record body { received_buffer = none } in
        let log' = free_received body log in
        if context
        then receive_ph1 queried iobuf new_error body' log'
        else fail_with xf_error body' log')

-- What `DecryptMessage` leaves: the sizes of the first and the second buffer, and the bytes.
pub record Decrypted : Type 0 where
  pub header_size : ℕ
  pub data_size : ℕ
  pub bytes : List ℕ

abbrev pub fail_ph2 : ℕ → SslData → Log → Option Received
fail_ph2 error body log = fail_with error body (free_context (free_buffer log))

unfoldable pub receive_ph2 : ℕ → Option Decrypted → SslData → ℤ → Log → Option Received
receive_ph2 error decrypted body length log =
    if error == 0
    then elim decrypted [
      | none ↦ fail_ph2 xf_error body log
      | some d ↦ (do
        out ←
            copy_from_buffer
              (record {
                received_buffer = some d.bytes;
                received_pos = pos d.header_size;
                received_length = pos d.data_size;
              })
              length log
        log' ← notify_parent 0 (free_context out.log)
        some (record out { log = log' }))
    ]
    else fail_ph2 error body log

-- The child, whose completion procedure is the second phase, is released after it.
unfoldable pub complete_receive : ℕ → Option Decrypted → SslData → ℤ → Log → Option Received
complete_receive error decrypted body length log = do
  out ← receive_ph2 error decrypted body length log
  log' ← link_child false out.log
  some (record out { log = log' })
