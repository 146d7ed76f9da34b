-- ===== src/Net/Cycle.antt =====
-- src/win32/tcp_socket.c: operations from their start to their end.
use xrossfire.Base.{
  ℕ, suc, ◌≡◌, ◌≢◌, refl, ap, ◌∙◌, Bool, true, false, Option, some, ◌>>=◌, if◌then◌else◌, Returns,
  Returns-bind,
}
use xrossfire.Async.{disconnect, receive, IoAsync, World}
use xrossfire.Async.Notify.{Platform, cancel}
use xrossfire.Async.Counts.{Operation, Holds}
use xrossfire.Async.Pending.{detached, cancel-detaches}
use xrossfire.Net.{tcp_socket, Net, io_disconnect, io_receive, io_send}
use xrossfire.Net.Started.{with_io, Started, start_io-Starts, set_io-Holds}
use xrossfire.Net.Socket.{
  get_handle, close, completed_disconnect, receive_, completed_receive, send, completed_send,
  drop_handle,
}
use xrossfire.Net.Finished.{
  reported, received, completed_send-Holds, completed_receive-Holds, completed_disconnect-Holds,
}

abbrev pub receiving : Option ℕ → Option ℕ → IoAsync → IoAsync
receiving handle out io = record { handle = handle; io_type = io_receive; context = receive out }

abbrev pub sending : Option ℕ → IoAsync → IoAsync
sending handle io = record io { handle = handle; io_type = io_send }

abbrev pub disconnecting : ℕ → IoAsync → IoAsync
disconnecting self io = record io { io_type = io_disconnect; context = disconnect self }

handle_of :
    (self : ℕ) (handle : Option ℕ) (net : Net)
    → net.bodies self ≡ some (tcp_socket handle)
    → get_handle self net ≡ some handle
unfolding get_handle
handle_of self handle net body = rw body refl

module _ (platform : Platform Net) (op : Operation) (act : ℕ → Net → Net)
    (calm : (error : ℕ) (w : World Net)
      → platform.completed op.completed error op.context w
        ≡ some (record w { rest = act error w.rest }))
    (self : ℕ) (handle : Option ℕ) (r : Net) (body : r.bodies self ≡ some (tcp_socket handle)) where
  handle_in :
      (n : ℕ) (armed canceled called : Bool) (w : World Net)
      → Holds platform op (suc n) armed canceled called r w
      → get_handle self w.rest ≡ some handle
  handle_in n armed canceled called w h =
      ap (get_handle self) h.rest_is ∙ handle_of self handle r body

  -- Let an operation with a completion procedure, without parent or child, that is not completed,
  -- have n + 1 holders, and one more while its timeout is pending, and let its completion
  -- procedure not touch the records and the table of timeouts. A receive on a TCP socket never
  -- faults, with any fuel but none, if an operation that is cancelled has another holder. Such an
  -- operation is notified with XF_ERROR_CANCEL, and one whose I/O fails at once with XF_ERROR, both once and with n holders
  -- left; otherwise its I/O is pending on the socket's handle, and its holders and its timeout
  -- are those of before.
  pub receive_-Starts :
      (fuel n answer : ℕ) (armed canceled : Bool) (out : Option ℕ) (w : World Net)
      → (canceled ≡ true → n ≢ 0)
      → Holds platform op (suc (if armed then suc n else n)) armed canceled false r w
      → Returns
          (receive_ platform (suc fuel) self out answer op.address w)
          (Started platform op act (receiving handle out) n armed canceled answer r)
  unfolding receive_
  receive_-Starts fuel n answer armed canceled out w stays h =
      rw (handle_in (if armed then suc n else n) armed canceled false w h) (
        start_io-Starts platform op act calm (receiving handle out) fuel n answer armed canceled r w
          stays h)

  pub send-Starts :
      (fuel n answer : ℕ) (armed canceled : Bool) (w : World Net)
      → (canceled ≡ true → n ≢ 0)
      → Holds platform op (suc (if armed then suc n else n)) armed canceled false r w
      → Returns
          (send platform (suc fuel) self answer op.address w)
          (Started platform (with_io (sending handle) op) act (λ io. io) n armed canceled answer r)
  unfolding send
  send-Starts fuel n answer armed canceled w stays h =
      let k = if armed then suc n else n in
      let (w', ran, h') = set_io-Holds platform op (sending handle) k armed canceled false r w h in
      rw (handle_in k armed canceled false w h) (
        rw ran (
          start_io-Starts platform (with_io (sending handle) op) act calm (λ io. io) fuel n answer
            armed canceled r w' stays h'))

  pub close-Starts :
      (fuel n answer : ℕ) (armed canceled : Bool) (w : World Net)
      → (canceled ≡ true → n ≢ 0)
      → Holds platform op (suc (if armed then suc n else n)) armed canceled false r w
      → Returns
          (close platform (suc fuel) self 0 answer op.address w)
          (Started platform op act (disconnecting self) n armed canceled answer r)
  unfolding close
  close-Starts fuel n answer armed canceled w stays h =
      rw (handle_in (if armed then suc n else n) armed canceled false w h) (
        start_io-Starts platform op act calm (disconnecting self) fuel n answer armed canceled r w
          stays h)

  pub receive-completes :
      (fuel fuel' n error transfered : ℕ) (armed : Bool) (out : Option ℕ) (w : World Net)
      → Holds platform op (suc (if armed then suc n else n)) armed false false r w
      → Returns
          (receive_ platform (suc fuel) self out 0 op.address w
            >>= completed_receive platform (suc fuel') error transfered op.address)
          (Holds platform
            (with_io (receiving handle out) op)
            n
            false
            false
            true
            (act (reported error) (received error out transfered r)))
  receive-completes fuel fuel' n error transfered armed out w h =
      Returns-bind _ (receive_ platform (suc fuel) self out 0 op.address w) _
        (receive_-Starts fuel n 0 armed false out w (λ e z. cc) h)
        λ w' h'.
          completed_receive-Holds platform (with_io (receiving handle out) op) act calm fuel' n
            error transfered armed false out r w' refl h'

  -- Let an operation with a completion procedure, without parent or child, that is not completed,
  -- have n + 1 holders, and one more while its timeout is pending, and let its completion
  -- procedure not touch the records and the table of timeouts. Let it not be cancelled, and let
  -- the socket have a handle on which the operating system cancels I/O. A receive whose I/O is
  -- pending, a cancellation and then the completion of the I/O, with any error, never fault, with
  -- any fuel but none: the completion procedure is called once, at the completion, with XF_ERROR,
  -- or 0 without an error, the operation is marked as cancelled, and n holders are left.
  pub receive-cancel :
      (fuel fuel' fuel'' n k error transfered : ℕ) (armed : Bool) (out : Option ℕ) (r' : Net)
      (w : World Net)
      → handle ≡ some k
      → platform.cancel_io k r ≡ (true, r')
      → Holds platform op (suc (if armed then suc n else n)) armed false false r w
      → Returns
          (receive_ platform (suc fuel) self out 0 op.address w
            >>= cancel platform (suc fuel') op.address
            >>= completed_receive platform (suc fuel'') error transfered op.address)
          (Holds platform
            (detached (with_io (receiving handle out) op))
            n
            false
            true
            true
            (act (reported error) (received error out transfered r')))
  receive-cancel fuel fuel' fuel'' n k error transfered armed out r' w opened answer h =
      let op' = with_io (receiving handle out) op in
      Returns-bind _
        (receive_ platform (suc fuel) self out 0 op.address w
          >>= cancel platform (suc fuel') op.address)
        _
        (Returns-bind (Holds platform (detached op') (suc n) false true false r')
          (receive_ platform (suc fuel) self out 0 op.address w) _
          (receive_-Starts fuel n 0 armed false out w (λ e z. cc) h)
          λ w' h'.
            cancel-detaches platform op' fuel' n k armed false false r r' w' opened answer h')
        λ w' h'.
          completed_receive-Holds platform (detached op') act calm fuel'' n error transfered false
            true out r' w' refl h'

  -- Let an operation with a completion procedure, without parent or child, that is not completed,
  -- have n + 1 holders, and one more while its timeout is pending, and let its completion
  -- procedure not touch the records and the table of timeouts. Let it not be cancelled. A close
  -- of a TCP socket whose disconnection is pending, and its completion with any error, never
  -- fault, with any fuel but none: the handle is closed, the socket has none any more, the
  -- completion procedure is called once, with XF_ERROR, or 0 without an error, and n holders are
  -- left.
  pub close-completes :
      (fuel fuel' n error : ℕ) (armed : Bool) (w : World Net)
      → Holds platform op (suc (if armed then suc n else n)) armed false false r w
      → Returns
          (close platform (suc fuel) self 0 0 op.address w
            >>= completed_disconnect platform (suc fuel') error op.address)
          (Holds platform
            (with_io (disconnecting self) op)
            n
            false
            false
            true
            (act (reported error) (drop_handle self handle r)))
  close-completes fuel fuel' n error armed w h =
      Returns-bind _ (close platform (suc fuel) self 0 0 op.address w) _
        (close-Starts fuel n 0 armed false w (λ e z. cc) h)
        λ w' h'.
          completed_disconnect-Holds platform (with_io (disconnecting self) op) act calm fuel' n
            error self armed false handle r w' refl body h'

  pub send-completes :
      (fuel fuel' n error transfered : ℕ) (armed : Bool) (w : World Net)
      → Holds platform op (suc (if armed then suc n else n)) armed false false r w
      → Returns
          (send platform (suc fuel) self 0 op.address w
            >>= completed_send platform (suc fuel') error transfered op.address)
          (Holds platform (with_io (sending handle) op) n false false true (act (reported error) r))
  send-completes fuel fuel' n error transfered armed w h =
      Returns-bind _ (send platform (suc fuel) self 0 op.address w) _
        (send-Starts fuel n 0 armed false w (λ e z. cc) h)
        λ w' h'.
          completed_send-Holds platform (with_io (sending handle) op) act calm fuel' n error
            transfered armed false r w' h'
