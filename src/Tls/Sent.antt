-- ===== src/Tls/Sent.antt =====
-- src/win32/ssl_socket.c: a send ends, its frames are the chunks of the buffer, and its caller is notified
-- once, if it is still there.
use xrossfire.Base.{
  ℕ, zero, suc, ◌-◌, ◌<◌, ◌≤◌, ◌≡◌, refl, Bool, true, false, some, List, [], ◌==◌, if◌then◌else◌,
  ◌>>=◌, length, take, Bool-cases, inl, inr, arith,
}
use xrossfire.Base.Int.{pos}
use xrossfire.Tls.{Log, live, link_child, copy, Reads, read-Reads}
use xrossfire.Tls.Send.{
  SendContext, end_send, stopped_with, seal, leave_send, send_ph1, send_ph2, send_loop, socket_send,
}
use xrossfire.Tls.Chunks.{
  sending, not_zero, Portion, get_chunk_length-Portion, shorter, above_zero, Sends, stopped,
  one_more-Sends,
}

module _ (maximum : ℕ) (encrypt : List (List ℕ) → List ℕ → ℕ × List ℕ) where
  send_ph1-more :
      (n k new_error : ℕ) (buffer message rest : List ℕ) (log : Log)
      → Portion maximum n k
      → Reads k n buffer message rest
      → send_ph1 maximum encrypt new_error (sending buffer n) log ≡ (
          if new_error == 0
          then (link_child true log >>= λ log'. some (
            record log' { frames = seal maximum encrypt log'.frames message },
            some (sending rest (n - k)),
          ))
          else stopped_with (end_send new_error log))
  unfolding send_ph1 copy
  send_ph1-more n k new_error buffer message rest log c i = rw c.is_next (rw (i.reads, c.left) refl)

  ph2_fails :
      (error new_error : ℕ) (context : SendContext) (log : Log)
      → (error == 0) ≡ false
      → send_ph2 maximum encrypt new_error error context log ≡ stopped_with (end_send error log)
  unfolding send_ph2
  ph2_fails error new_error context log e = rw e refl

  ph2_ends :
      (error new_error : ℕ) (buffer : List ℕ) (log : Log)
      → (error == 0) ≡ true
      → send_ph2 maximum encrypt new_error error (sending buffer 0) log
        ≡ stopped_with (end_send 0 log)
  unfolding send_ph2
  ph2_ends error new_error buffer log e = rw e refl

  ph2_sends :
      (error new_error m : ℕ) (buffer : List ℕ) (log : Log)
      → (error == 0) ≡ true
      → send_ph2 maximum encrypt new_error error (sending buffer (suc m)) log
        ≡ send_ph1 maximum encrypt new_error (sending buffer (suc m)) log
  unfolding send_ph2
  ph2_sends error new_error m buffer log e = rw (e, above_zero m) refl

  loop_step :
      (fuel : ℕ) (answers : ℕ → ℕ × ℕ) (context : SendContext) (log : Log)
      → send_loop maximum encrypt (suc fuel) answers (log, some context) ≡ (
          send_ph2 maximum encrypt (answers fuel).1 (answers fuel).0 context log
          >>= leave_send maximum encrypt
          >>= send_loop maximum encrypt fuel answers)
  unfolding send_loop
  loop_step fuel answers context log = refl

  stopped_loop :
      (others n error fuel : ℕ) (answers : ℕ → ℕ × ℕ) (linked : Bool) (buffer : List ℕ) (log : Log)
      → (error ≡ 0 → take n buffer ≡ [])
      → Sends maximum encrypt others true n buffer log (
          stopped_with (end_send error (live others linked log))
          >>= leave_send maximum encrypt
          >>= send_loop maximum encrypt fuel answers)
  unfolding send_loop
  stopped_loop zero n error fuel answers linked buffer log h = refl
  stopped_loop (suc others) n error fuel answers linked buffer log h =
      (_, refl, stopped maximum encrypt (suc others) n error buffer log h)

  not_started :
      (others n error fuel : ℕ) (answers : ℕ → ℕ × ℕ) (buffer : List ℕ) (log : Log)
      → (error ≡ 0 → take n buffer ≡ [])
      → Sends maximum encrypt others false n buffer log (
          stopped_with (end_send error (live others false log))
          >>= send_loop maximum encrypt fuel answers)
  unfolding send_loop
  not_started zero n error fuel answers buffer log h =
      (_, refl, stopped maximum encrypt 0 n error buffer log h)
  not_started (suc others) n error fuel answers buffer log h =
      (_, refl, stopped maximum encrypt (suc others) n error buffer log h)

  module _ (bounded : 0 < maximum) (others fuel : ℕ) (answers : ℕ → ℕ × ℕ)
      (next : (n : ℕ) (linked : Bool) (buffer : List ℕ) (log : Log)
        → n < fuel
        → n ≤ length buffer
        → Sends maximum encrypt others true n buffer log (
            send_loop maximum encrypt fuel answers
              (live others linked log, some (sending buffer n)))) where
    -- In the completion procedure of a child.
    after_ph1 :
        (n new_error : ℕ) (linked : Bool) (buffer : List ℕ) (log : Log)
        → n ≤ fuel
        → 0 < fuel
        → n ≤ length buffer
        → Sends maximum encrypt others true n buffer log (
            send_ph1 maximum encrypt new_error (sending buffer n) (live others linked log)
            >>= leave_send maximum encrypt
            >>= send_loop maximum encrypt fuel answers)
    after_ph1 n new_error linked buffer log h alive h' =
        let (k, c) = get_chunk_length-Portion maximum n in
        let (message, rest, i) = read-Reads k n buffer c.within h' in
        elim (Bool-cases (new_error == 0)) [
          | inl e ↦ rw (send_ph1-more n k new_error buffer message rest _ c i) (
              rw e (
                one_more-Sends maximum encrypt others n k buffer message rest log _ c.fits i (
                  next (n - k) false rest
                    (record log { frames = seal maximum encrypt log.frames message })
                    (shorter n k fuel h alive (c.some_bytes bounded)) (omega (arith, i.left)))))
          | inr e ↦ rw (send_ph1-more n k new_error buffer message rest _ c i) (
              rw e (
                stopped_loop others n new_error fuel answers linked buffer log
                  (λ z. absurd (not_zero new_error e z))))
        ]

    -- The first chunk, for which there is no child yet.
    first_ph1 :
        (n new_error : ℕ) (buffer : List ℕ) (log : Log)
        → n ≤ fuel
        → 0 < fuel
        → n ≤ length buffer
        → Sends maximum encrypt others (new_error == 0) n buffer log (
            send_ph1 maximum encrypt new_error (sending buffer n) (live others false log)
            >>= send_loop maximum encrypt fuel answers)
    first_ph1 n new_error buffer log h alive h' =
        let (k, c) = get_chunk_length-Portion maximum n in
        let (message, rest, i) = read-Reads k n buffer c.within h' in
        elim (Bool-cases (new_error == 0)) [
          | inl e ↦ rw (send_ph1-more n k new_error buffer message rest _ c i) (
              rw e (
                one_more-Sends maximum encrypt others n k buffer message rest log _ c.fits i (
                  next (n - k) true rest
                    (record log { frames = seal maximum encrypt log.frames message })
                    (shorter n k fuel h alive (c.some_bytes bounded)) (omega (arith, i.left)))))
          | inr e ↦ rw (send_ph1-more n k new_error buffer message rest _ c i) (
              rw e (
                not_started others n new_error fuel answers buffer log
                  (λ z. absurd (not_zero new_error e z))))
        ]

    turn :
        (n : ℕ) (linked : Bool) (buffer : List ℕ) (log : Log)
        → n < suc fuel
        → n ≤ length buffer
        → ((answers fuel).0 == 0) ≡ true
        → Sends maximum encrypt others true n buffer log (
            send_ph2 maximum encrypt
              (answers fuel).1
              (answers fuel).0
              (sending buffer n)
              (live others linked log)
            >>= leave_send maximum encrypt
            >>= send_loop maximum encrypt fuel answers)
    turn zero linked buffer log h h' e =
        rw (ph2_ends (answers fuel).0 (answers fuel).1 buffer (live others linked log) e)
          (stopped_loop others 0 0 fuel answers linked buffer log (λ z. refl))
    turn (suc m) linked buffer log h h' e =
        rw (ph2_sends (answers fuel).0 (answers fuel).1 m buffer (live others linked log) e)
          (after_ph1 (suc m) (answers fuel).1 linked buffer log (omega arith) (omega arith) h')

  send_loop-Sends :
      (others fuel n : ℕ) (answers : ℕ → ℕ × ℕ) (linked : Bool) (buffer : List ℕ) (log : Log)
      → 0 < maximum
      → n < fuel
      → n ≤ length buffer
      → Sends maximum encrypt others true n buffer log
          (send_loop maximum encrypt fuel answers (live others linked log, some (sending buffer n)))
  send_loop-Sends others zero n answers linked buffer log bounded h h' = absurd (omega arith)
  send_loop-Sends others (suc fuel) n answers linked buffer log bounded h h' =
      rw (loop_step fuel answers (sending buffer n) (live others linked log))
        (elim (Bool-cases ((answers fuel).0 == 0)) [
          | inl e ↦
              turn bounded others fuel answers
                (λ n' linked' buffer' log' l l'.
                  send_loop-Sends others fuel n' answers linked' buffer' log' bounded l l')
                n linked buffer log h h' e
          | inr e ↦
              rw
                (ph2_fails (answers fuel).0 (answers fuel).1 (sending buffer n)
                  (live others linked log) e)
                (stopped_loop others n (answers fuel).0 fuel answers linked buffer log
                  (λ z. absurd (not_zero (answers fuel).0 e z)))
        ])

  socket_send-ph1 :
      (new_error n : ℕ) (buffer : List ℕ) (log : Log)
      → socket_send maximum encrypt 0 true true new_error buffer (pos n) log
        ≡ send_ph1 maximum encrypt new_error (sending buffer n) log
  unfolding socket_send
  socket_send-ph1 new_error n buffer log = refl

  -- Let the sizes be known and the memory be there, let the maximum of a message be positive, and
  -- let the buffer have at least n bytes. Let the caller's operation have a completion procedure
  -- and no child, be not completed, and be held by its completion and by so many others. Let the
  -- base socket and `xf_async_new` answer anything, and `EncryptMessage` anything, errors
  -- included. A send of n bytes has ended after n completions, or one if n is 0. If the operation
  -- is held by others, or the first `xf_async_new` fails, it does not fault: the frames are what
  -- `EncryptMessage` leaves of chunks of at most the maximum, whether it succeeds or not, these
  -- chunks with the bytes that are left make up the n bytes, no byte being left if the send ends
  -- without an error; the caller is notified once, with 0 or that error, the context and the
  -- buffer are freed once, and the others still hold the operation. If nobody else holds it and
  -- the first `xf_async_new` succeeds, the send always faults: the notification frees the
  -- operation, and the release of the child then writes to it.
  pub socket_send-Sends :
      (others fuel n new_error : ℕ) (answers : ℕ → ℕ × ℕ) (buffer : List ℕ) (log : Log)
      → 0 < maximum
      → n ≤ fuel
      → 0 < fuel
      → n ≤ length buffer
      → Sends maximum encrypt others (new_error == 0) n buffer log (
          socket_send maximum encrypt 0 true true new_error buffer (pos n) (live others false log)
          >>= send_loop maximum encrypt fuel answers)
  socket_send-Sends others fuel n new_error answers buffer log bounded h alive h' =
      rw (socket_send-ph1 new_error n buffer (live others false log)) (
        first_ph1 bounded others fuel answers
          (λ n' linked' buffer' log' l l'.
            send_loop-Sends others fuel n' answers linked' buffer' log' bounded l l')
          n new_error buffer log h alive h')
