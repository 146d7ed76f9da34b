-- ===== src/Tls/Fault.antt =====
-- src/win32/ssl_socket.c under src/async.c: a phase of the handshake that fails.
use xrossfire.Base.{ℕ, ◌≡◌, refl, false, Option, none, some, ==_self, ◌>>=◌}
use xrossfire.Base.Int.{pos}
use xrossfire.Async.{multi_phase, Async, World}
use xrossfire.Async.Notify.{Platform, phase_error, call_procedure, run_error_phase, run_next_phase}
use xrossfire.Object.{xf_error}
use xrossfire.Tls.Handshake.{Handshake, PhaseAnswers, Turn, handshake_procedure}
use xrossfire.Tls.Outcome.{Failed, freed_faults}

-- The platform whose only procedure of several phases is the handshake.
abbrev pub shaking :
    PhaseAnswers → (ℕ → ℕ → ℕ → World Handshake → Option (World Handshake)) → Platform Handshake
shaking answers completed = record {
  completed = completed;
  procedure = λ procedure self phase error context w.
      handshake_procedure answers phase error w.rest >>= λ turn.
      some (record w { rest = turn.0 }, turn.1, turn.2);
  cancel_io = λ handle s. (false, s);
  clear_io = λ io s. s;
}

module _ (answers : PhaseAnswers)
    (completed : ℕ → ℕ → ℕ → World Handshake → Option (World Handshake))
    (notify : ℕ → ℕ → World Handshake → Option (World Handshake)) where
  -- When the next phase of an operation of several phases is one of the handshake that fails with
  -- XF_ERROR and frees its context, running that phase faults: the error phase that is run after
  -- it uses the context again.
  pub error_phase_faults :
      (p procedure n context : ℕ) (self : Async) (w : World Handshake) (turn : Turn)
      → w.asyncs p ≡ some self
      → self.body ≡ multi_phase procedure (pos n) context
      → handshake_procedure answers (pos n) 0 w.rest ≡ some turn
      → Failed turn
      → run_next_phase (shaking answers completed) notify p 0 w ≡ none
  unfolding run_next_phase run_error_phase call_procedure
  error_phase_faults p procedure n context self w turn here body ran failed =
      simp (here, body, ran)
        (simp (==_self p, failed.0, failed.1)
          (simp (freed_faults answers phase_error xf_error turn.0 failed.2) refl))
