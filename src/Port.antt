-- ===== src/Port.antt =====
-- src/win32/io_completion_port.c: the pool of workers that serve the completion port.
--
-- The state is the static variables, the threads, and the packets in the port: `starting` counts the
-- threads that have been started and have not entered the loop, `running` those in the loop. Whether
-- a thread starts, and what the operating system answers, are arguments. Each function that takes the
-- lock, and each turn of a worker's loop, is one step; `prepare_thread`, which reads the counters without
-- the lock, is one, too.
pub mod Workers
pub mod Drain
pub mod Settle
pub mod Tests
use xrossfire.Base.{
  ℕ, zero, suc, ◌-◌, Bool, true, false, ◌||◌, Option, none, some, List, [], ◌∷◌, ◌++◌, ◌==◌,
  if◌then◌else◌,
}
use xrossfire.Base.Int.{ℤ, pos, pos_part, ◌+ℤ◌, ◌-ℤ◌, ltb_ℤ}

-- XF_IO_TYPE_EXIT, and XF_IO_TYPE_HANDLE with the error if the call has failed, the bytes that were
-- transferred and the operation.
pub data Packet : Type 0 where
  exit : Packet
  handle : (failed : Option ℕ) (transfered command : ℕ) → Packet

-- `port` is g_hIOCP.
pub record System {ℓ} (W : Type ℓ) : Type ℓ where
  pub max_workers : ℤ
  pub current_workers : ℤ
  pub exited : Bool
  pub port : ℕ
  pub starting : ℕ
  pub running : ℕ
  pub queue : List Packet
  pub rest : W

-- INVALID_HANDLE_VALUE, -1 as a pointer of 64 bits.
abbrev pub invalid_handle : ℕ
invalid_handle = 18446744073709551615

-- The n-th start gives the error if it fails. The result: the threads started, and an error.
unfoldable pub start_threads : (ℕ → Option ℕ) → ℕ → ℕ → ℕ × ℕ
start_threads start zero starting = (starting, 0)
start_threads start (suc n) starting = elim (start n) [
  | none ↦ start_threads start n (suc starting)
  | some errno ↦ (starting, errno)
]

unfoldable pub post_exits : ℕ → List Packet → List Packet
post_exits zero queue = queue
post_exits (suc n) queue = post_exits n (queue ++ exit ∷ [])

abbrev pub derr : Option ℕ → ℕ
derr none = 0
derr (some error) = error

module _ {ℓ} {W : Type ℓ} where
  -- The static variables and nothing else.
  unfoldable pub initial : W → System W
  initial rest = record {
    max_workers = pos 8;
    current_workers = pos 0;
    exited = false;
    port = 0;
    starting = 0;
    running = 0;
    queue = [];
    rest = rest;
  }

  -- What `CreateIoCompletionPort` answers, the error if it fails, and the error that is returned.
  unfoldable pub init : ℕ → ℕ → System W → System W × ℕ
  init answer error s =
      if answer == invalid_handle then (s, error) else (record s { port = answer }, 0)

  unfoldable pub prepare_thread : (ℕ → Option ℕ) → System W → System W × ℕ
  prepare_thread start s =
      let missing = pos_part (s.max_workers -ℤ s.current_workers) in
      let surplus = pos_part (s.current_workers -ℤ s.max_workers) in
      if ltb_ℤ s.current_workers s.max_workers
      then (let (starting, err) = start_threads start missing s.starting in
          (record s { starting = starting }, err))
      else (if ltb_ℤ s.max_workers s.current_workers
          then (record s { queue = post_exits surplus s.queue }, 0)
          else (s, 0))

  unfoldable pub register : ℕ → ℕ → (ℕ → Option ℕ) → System W → System W × ℕ
  register answer error start s =
      if answer == 0 then (s, error) else prepare_thread start (record s { port = answer })

  unfoldable pub set_max_workers : ℤ → System W → System W
  set_max_workers max_workers s = record s { max_workers = max_workers }

  -- A thread that has been started enters the loop.
  unfoldable pub enter_loop : System W → System W
  enter_loop s = record s {
    starting = s.starting - 1;
    running = suc s.running;
    current_workers = s.current_workers +ℤ pos 1;
  }

  -- A worker's turn with a packet; `complete` calls the procedure for the type of the operation.
  unfoldable pub serve : (ℕ → ℕ → ℕ → W → W) → Packet → System W → System W
  serve complete exit s =
      if ltb_ℤ s.max_workers s.current_workers || s.exited
      then record s { current_workers = s.current_workers -ℤ pos 1; running = s.running - 1 }
      else s
  serve complete (handle failed transfered command) s = record s {
    rest = complete (derr failed) transfered command s.rest;
  }
