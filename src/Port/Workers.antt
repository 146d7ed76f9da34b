-- ===== src/Port/Workers.antt =====
-- src/win32/io_completion_port.c: the steps of the pool, and that its count of workers is right.
use xrossfire.Base.{ℕ, ◌<◌, ◌==◌, ◌≡◌, refl, false, Option, List, ◌∷◌, Bool-cases, inl, inr, arith}
use xrossfire.Base.Int.{ℤ, pos, ◌+ℤ◌, ◌-ℤ◌, ◌≤ℤ◌}
use xrossfire.Port.{
  Packet, exit, handle, System, initial, init, prepare_thread, register, set_max_workers,
  enter_loop, serve,
}

module _ {ℓ} {W : Type ℓ} (complete : ℕ → ℕ → ℕ → W → W) where
  -- What a thread of the program may do: the rest of the program may change the rest of the state.
  pub data Step : System W → System W → Type ℓ where
    initialised : (answer error : ℕ) (s : System W) → Step s ((init answer error s).0)
    registered :
        (answer error : ℕ) (start : ℕ → Option ℕ) (s : System W)
        → Step s ((register answer error start s).0)
    limited : (max_workers : ℤ) (s : System W) → Step s (set_max_workers max_workers s)
    entered : (s : System W) → 0 < s.starting → Step s (enter_loop s)
    served :
        (p : Packet) (queue : List Packet) (s : System W)
        → s.queue ≡ p ∷ queue
        → 0 < s.running
        → Step s (serve complete p (record s { queue = queue }))
    elsewhere : (rest : W) (s : System W) → Step s (record s { rest = rest })

  -- What the threads of the pool do themselves.
  pub data PoolStep : System W → System W → Type ℓ where
    enters : (s : System W) → 0 < s.starting → PoolStep s (enter_loop s)
    serves :
        (p : Packet) (queue : List Packet) (s : System W)
        → s.queue ≡ p ∷ queue
        → 0 < s.running
        → PoolStep s (serve complete p (record s { queue = queue }))

  pub data PoolSteps : System W → System W → Type ℓ where
    rests : (s : System W) → PoolSteps s s
    goes_on : (s s' s'' : System W) → PoolSteps s s' → PoolStep s' s'' → PoolSteps s s''

  pub data Steps : System W → System W → Type ℓ where
    done : (s : System W) → Steps s s
    more : (s s' s'' : System W) → Steps s s' → Step s' s'' → Steps s s''

-- The count is the number of workers in the loop.
abbrev pub IsCounted {ℓ} : {W : Type ℓ} → System W → Type 0
IsCounted s = (s.current_workers ≡ pos s.running) × (s.exited ≡ false)

module _ {ℓ} {W : Type ℓ} where
  init-IsCounted :
      (answer error : ℕ) (s : System W) → IsCounted s → IsCounted ((init answer error s).0)
  unfolding init
  init-IsCounted answer error s h = ground arith

  prepare_thread-IsCounted :
      (start : ℕ → Option ℕ) (s : System W) → IsCounted s → IsCounted ((prepare_thread start s).0)
  unfolding prepare_thread
  prepare_thread-IsCounted start s h = ground arith

  enter_loop-IsCounted : (s : System W) → IsCounted s → IsCounted (enter_loop s)
  unfolding enter_loop ◌+ℤ◌
  enter_loop-IsCounted s h = (rw h.0 (ground arith), h.1)

  serve-IsCounted :
      (complete : ℕ → ℕ → ℕ → W → W) (p : Packet) (s : System W)
      → 0 < s.running
      → IsCounted s
      → IsCounted (serve complete p s)
  unfolding serve ◌-ℤ◌
  serve-IsCounted complete exit s r h = ground arith
  serve-IsCounted complete (handle failed transfered command) s r h = h

  -- A worker leaves the loop only when there are more than the maximum.
  serve-running :
      (complete : ℕ → ℕ → ℕ → W → W) (p : Packet) (s : System W)
      → IsCounted s
      → (serve complete p s).running < s.running
      → s.max_workers ≤ℤ pos (serve complete p s).running
  unfolding serve ◌-ℤ◌
  serve-running complete exit s h less = ground arith
  serve-running complete (handle failed transfered command) s h less = absurd (omega arith)

module _ {ℓ} {W : Type ℓ} (complete : ℕ → ℕ → ℕ → W → W) where
  register-IsCounted :
      (answer error : ℕ) (start : ℕ → Option ℕ) (s : System W)
      → IsCounted s
      → IsCounted ((register answer error start s).0)
  unfolding register
  register-IsCounted answer error start s h = elim (Bool-cases (answer == 0)) [
    | inl e ↦ rw e h
    | inr e ↦ rw e (prepare_thread-IsCounted start (record s { port = answer }) h)
  ]

  Step-IsCounted : (s s' : System W) → Step complete s s' → IsCounted s → IsCounted s'
  unfolding set_max_workers
  Step-IsCounted s s' (initialised answer error _) h = init-IsCounted answer error s h
  Step-IsCounted s s' (registered answer error start _) h =
      register-IsCounted answer error start s h
  Step-IsCounted s s' (limited max_workers _) h = h
  Step-IsCounted s s' (entered _ _) h = enter_loop-IsCounted s h
  Step-IsCounted s s' (served p queue _ _ r) h =
      serve-IsCounted complete p (record s { queue = queue }) r h
  Step-IsCounted s s' (elsewhere rest _) h = h

  pub Steps-IsCounted : (s s' : System W) → Steps complete s s' → IsCounted s → IsCounted s'
  Steps-IsCounted s s' (done _) h = h
  Steps-IsCounted s s' (more _ t _ steps step) h =
      Step-IsCounted t s' step (Steps-IsCounted s t steps h)

  pub Step-running :
      (s s' : System W)
      → Step complete s s'
      → IsCounted s
      → s'.running < s.running
      → s.max_workers ≤ℤ pos s'.running
  unfolding set_max_workers init register prepare_thread enter_loop
  Step-running s s' (initialised answer error _) h less = absurd (ground arith)
  Step-running s s' (registered answer error start _) h less = absurd (ground arith)
  Step-running s s' (limited max_workers _) h less = absurd (omega arith)
  Step-running s s' (entered _ _) h less = absurd (omega arith)
  Step-running s s' (served p queue _ _ _) h less =
      serve-running complete p (record s { queue = queue }) h less
  Step-running s s' (elsewhere rest _) h less = absurd (omega arith)

  -- In every state that the steps of the threads lead to from the static variables,
  -- `g_current_workers` is the number of workers in the loop and `g_exited` is false, and no step
  -- from there that makes the workers fewer leaves fewer than the maximum.
  pub reachable-IsCounted :
      (rest : W) (s s' : System W)
      → Steps complete (initial rest) s
      → Step complete s s'
      → IsCounted s × (s'.running < s.running → s.max_workers ≤ℤ pos s'.running)
  unfolding initial
  reachable-IsCounted rest s s' steps step =
      let h = Steps-IsCounted (initial rest) s steps (refl, refl) in (h, Step-running s s' step h)
