-- ===== src/Tls/Tests.antt =====
-- Runs of src/win32/ssl_socket.c.
use xrossfire.Base.{
  ℕ, ◌≡◌, refl, true, false, none, some, List, [], ◌∷◌, ◌++◌, ◌>>=◌, Returns, arith, ◌==◌,
  if◌then◌else◌,
}
use xrossfire.Base.Int.{pos}
use xrossfire.Timeout.{init}
use xrossfire.Async.{Async, World, multi_phase}
use xrossfire.Async.Notify.{run_next_phase}
use xrossfire.Async.Create.{cleared}
use xrossfire.Object.{xf_error}
use xrossfire.Tls.Handshake.{
  refused, continue_needed, ok, connect, Handshake, PhaseAnswers, Turn, handshake_context_free,
  phase1, phase2, handshake_procedure, connected, fresh,
}
use xrossfire.Tls.Fault.{shaking, error_phase_faults}
use xrossfire.Tls.{Log, live}
use xrossfire.Tls.Send.{socket_send, send_loop}
use xrossfire.Tls.Chunks.{Sends}
use xrossfire.Tls.Sent.{socket_send-Sends}
use xrossfire.Tls.Receive.{SslData, complete_receive}
use xrossfire.Tls.Copied.{IsBuffered}
use xrossfire.Tls.Received.{
  Call, copy_all, Reassembles, copy_all-Reassembles, decrypted_of, Completes,
  complete_receive-Completes,
}

abbrev log : Log
log = record {
  frames = [];
  notified = [];
  freed_contexts = 0;
  freed_buffers = 0;
  holders = 0;
  called = false;
  linked = false;
}

-- With the number of the frame as its header; the second is refused, and is not sealed.
abbrev encrypt : List (List ℕ) → List ℕ → ℕ × List ℕ
encrypt [] message = (0, 23 ∷ message ++ 0 ∷ [])
encrypt (x ∷ xs) message = (1, 0 ∷ message ++ 0 ∷ [])

abbrev answers : ℕ → ℕ × ℕ
answers i = (0, 0)

abbrev text : List ℕ
text = 1 ∷ 2 ∷ 3 ∷ 4 ∷ 5 ∷ []

socket_send-Sends_example : Sends 2 encrypt 1 true 5 text log (
    socket_send 2 encrypt 0 true true 0 text (pos 5) (live 1 false log)
    >>= send_loop 2 encrypt 5 answers)
socket_send-Sends_example =
    socket_send-Sends 2 encrypt 1 5 5 0 answers text log (omega arith) (omega arith) (omega arith)
      (omega arith)

abbrev body : SslData
body = record {
  received_buffer = some (7 ∷ 1 ∷ 2 ∷ 3 ∷ 9 ∷ []);
  received_pos = pos 1;
  received_length = pos 4;
}

body-IsBuffered : IsBuffered (7 ∷ []) (1 ∷ 2 ∷ 3 ∷ []) (9 ∷ []) body
body-IsBuffered = record { buffer = refl; at_unread = refl; up_to = refl }

-- For an operation with one holder, and for one with two.
abbrev calls : List Call
calls = (2, 0) ∷ (5, 1) ∷ []

copy_all-Reassembles_example :
    Returns (copy_all calls body log) (Reassembles calls (7 ∷ []) (1 ∷ 2 ∷ 3 ∷ []) (9 ∷ []) log)
copy_all-Reassembles_example =
    copy_all-Reassembles calls (7 ∷ []) (1 ∷ 2 ∷ 3 ∷ []) (9 ∷ []) body log body-IsBuffered

complete_receive-Completes_example : Completes 1 8 (7 ∷ []) (1 ∷ 2 ∷ []) (3 ∷ []) (9 ∷ []) log (
    complete_receive 0
      (some (decrypted_of (7 ∷ []) (1 ∷ 2 ∷ 3 ∷ []) (9 ∷ [])))
      body
      (pos 8)
      (live 1 true log))
complete_receive-Completes_example =
    complete_receive-Completes 1 8 true (7 ∷ []) (1 ∷ 2 ∷ []) (3 ∷ []) (9 ∷ []) body log refl

abbrev first : PhaseAnswers
first = record {
  acquired = true;
  status = continue_needed;
  token = some 90;
  malloc = true;
  object = some 24;
}

abbrev last : PhaseAnswers
last = record first { status = ok; token = none }

abbrev refusing : PhaseAnswers
refusing = record first { status = refused }

-- The second phase is refused.
abbrev failed : Turn
failed = (
  record {
    context = none;
    references = 1;
    started = connect ∷ [];
    freed_tokens = 1;
    object = none;
  },
  xf_error,
  none,
)

abbrev called : Async
called = cleared (multi_phase 70 (pos 1) 80)

abbrev calling : World Handshake
calling = record {
  asyncs = λ p. if p == 4 then some called else none;
  timeouts = init;
  rest = connected 20 (record fresh { started = connect ∷ [] });
}

refused_turn : handshake_procedure refusing (pos 1) 0 calling.rest ≡ some failed
unfolding handshake_procedure phase1 phase2 handshake_context_free
refused_turn = refl

error_phase_faults_example :
    run_next_phase
      (shaking refusing (λ procedure error context w. some w))
      (λ p error w. some w)
      4
      0
      calling
    ≡ none
error_phase_faults_example =
    error_phase_faults refusing (λ procedure error context w. some w) (λ p error w. some w) 4 70 1
      80 called calling failed refl refl refused_turn (refl, refl, refl, refl, refl)
