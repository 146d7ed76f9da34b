-- ===== src/Tls/Handshake.antt =====
-- src/win32/ssl_socket.c: the handshake, a procedure of several phases.
--
-- `context` is none once it has been freed: any use of it is then a fault. `references` counts those
-- of the base socket. What is done between two phases is the completion of the operation that the
-- first has started: it writes `base_socket`, or what was received, which only SSPI reads.
use xrossfire.Base.{
  ℕ, suc, ◌-◌, Bool, true, false, Option, none, some, List, [], ◌∷◌, ◌==◌, if◌then◌else◌, ◌>>=◌,
}
use xrossfire.Base.Int.{ℤ, pos, negsuc}
use xrossfire.Async.Notify.{phase_exit, phase_error}
use xrossfire.Object.{xf_error}

-- SECURITY_STATUS: any error, SEC_I_CONTINUE_NEEDED, SEC_E_OK, and any other success.
pub data Status : Type 0 where
  refused continue_needed ok other : Status

-- The size of the buffer that is sent, none if it is NULL, and whether there is one to receive into.
pub record Context : Type 0 where
  pub base_socket : Option ℕ
  pub status : Status
  pub out_buffer : Option ℕ
  pub in_buffer : Bool

-- The operations that are started on the base socket.
pub data Start : Type 0 where
  connect receive : Start
  send : ℕ → Start

-- `object` is the socket object that the caller is given, with its base socket.
pub record Handshake : Type 0 where
  pub context : Option Context
  pub references : ℕ
  pub started : List Start
  pub freed_tokens : ℕ
  pub object : Option (ℕ × Option ℕ)

-- `acquired` is SEC_E_OK of `AcquireCredentialsHandle`; `token` is the size of what
-- `InitializeSecurityContextW` wants to be sent, none without a buffer; `malloc` and `object` are for
-- the buffer and the object.
pub record PhaseAnswers : Type 0 where
  pub acquired : Bool
  pub status : Status
  pub token : Option ℕ
  pub malloc : Bool
  pub object : Option ℕ

-- The state, the error, and the next phase if it is written.
abbrev pub Turn : Type 0
Turn = Handshake × ℕ × Option ℤ

abbrev pub release_base : Option ℕ → ℕ → ℕ
release_base none references = references
release_base (some _) references = references - 1

abbrev pub free_token : Option ℕ → ℕ → ℕ
free_token none freed = freed
free_token (some _) freed = suc freed

-- xf_ssl_socket_handshake_context_free.
unfoldable pub handshake_context_free : Context → Handshake → Handshake
handshake_context_free context s = record s {
  context = none;
  references = release_base context.base_socket s.references;
  freed_tokens = free_token context.out_buffer s.freed_tokens;
}

abbrev pub fail : ℕ → Context → Handshake → Turn
fail error context s = (handshake_context_free context s, error, none)

-- An operation is started, and the phase after it.
abbrev pub start : Start → ℕ → Context → Handshake → Turn
start operation next context s =
    (record s { context = some context; started = operation ∷ s.started }, 0, some (pos next))

unfoldable pub finish_handshake : PhaseAnswers → Context → Handshake → Turn
finish_handshake answers context s = elim answers.object [
  | none ↦ fail xf_error context s
  | some object ↦
      (let given = record s { object = some (object, context.base_socket) } in
        (handshake_context_free (record context { base_socket = none }) given, 0, some phase_exit))
]

-- `case 3`; any other status aborts.
unfoldable pub phase3 : PhaseAnswers → Context → Handshake → Option Turn
phase3 answers context s =
    let sent = record context { out_buffer = none } in
    let s' = record s { freed_tokens = free_token context.out_buffer s.freed_tokens } in
    elim context.status [
      | continue_needed ↦ some (
          if context.in_buffer
          then start receive 4 sent s'
          else (if answers.malloc
              then start receive 4 (record sent { in_buffer = true }) s'
              else fail xf_error sent s'))
      | ok ↦ some (finish_handshake answers sent s')
      | refused ↦ none
      | other ↦ none
    ]

-- With a token, it is sent first.
unfoldable pub send_token : PhaseAnswers → Context → Handshake → Option Turn
send_token answers context s = elim answers.token [
  | none ↦ phase3 answers context s
  | some size ↦ if size == 0 then phase3 answers context s else some (start (send size) 3 context s)
]

-- `case 2`, which goes on into `case 3` if there is nothing to send.
unfoldable pub phase2 : PhaseAnswers → Context → Handshake → Option Turn
phase2 answers context s =
    let context' = record context { status = answers.status; out_buffer = answers.token } in
    elim answers.status [
      | refused ↦ some (fail xf_error context' s)
      | _ ↦ send_token answers context' s
    ]

-- `case 1`, which goes on into `case 2`.
unfoldable pub phase1 : PhaseAnswers → Context → Handshake → Option Turn
phase1 answers context s = context.base_socket >>= λ base.
    let s' = record s { references = suc s.references } in
    if answers.acquired
    then phase2 answers (record context { status = continue_needed }) s'
    else some (fail xf_error context s')

unfoldable pub handshake_procedure : PhaseAnswers → ℤ → ℕ → Handshake → Option Turn
handshake_procedure answers phase error s = s.context >>= λ context. elim phase [
  | pos n ↦
      (if n == 0
        then some (start connect 1 context s)
        else (if n == 1
            then phase1 answers context s
            else (if n == 2
                then phase2 answers context s
                else (if n == 3
                    then phase3 answers context s
                    else (if n == 4 then phase2 answers context s else none)))))
  | negsuc n ↦ if n == 0 then some (fail error context s) else none
]

-- The connection that the first phase starts has succeeded.
abbrev pub connected : ℕ → Handshake → Handshake
connected base s = record s {
  context = s.context >>= λ context. some (record context { base_socket = some base });
  references = 1;
}

-- The phase after a turn, none if the phase has failed or was the last.
abbrev pub get_next : Turn → Option ℕ
get_next (s, error, none) = none
get_next (s, error, some (negsuc n)) = none
get_next (s, error, some (pos n)) = if error == 0 then some n else none

-- The phases one after the other, with the answers of each, up to one that fails.
unfoldable pub shake : List PhaseAnswers → ℕ → Handshake → Option Turn
shake [] n s = some (s, 0, some (pos n))
shake (answers ∷ more) n s = do
  turn ← handshake_procedure answers (pos n) 0 s
  elim (get_next turn) [ none ↦ some turn | some m ↦ shake more m turn.0 ]

-- The record of `xf_ssl_socket_new`, with every byte 0.
abbrev pub fresh : Handshake
fresh = record {
  context = some (record { base_socket = none; status = ok; out_buffer = none; in_buffer = false });
  references = 0;
  started = [];
  freed_tokens = 0;
  object = none;
}

-- After a phase that has failed, `xf_async_run_next_phase` runs the error phase, which takes nothing
-- from the answers.
unfoldable pub end_phases : PhaseAnswers → Turn → Option Turn
end_phases answers (s, error, next) =
    if error == 0 then some (s, error, next) else handshake_procedure answers phase_error error s

-- The first phase, the connection that it starts, and the phases after it.
unfoldable pub run_phases : ℕ → PhaseAnswers → List PhaseAnswers → Option Turn
run_phases base first more =
    handshake_procedure first (pos 0) 0 fresh >>= λ turn. shake more 1 (connected base turn.0)

unfoldable pub shake_hands : ℕ → PhaseAnswers → List PhaseAnswers → Option Turn
shake_hands base first more = run_phases base first more >>= end_phases first
