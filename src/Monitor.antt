-- ===== src/Monitor.antt =====
-- The threads round the monitor `lock` of src/poll.c: the polling thread, and the threads that call
-- src/timeout.c, a shared access at a time.
--
-- A monitor (include/xrossfire/base.h) is a critical section and a condition variable of the operating
-- system: one thread is inside; a wait leaves it, and ends when it is notified, when its time is over,
-- or for no reason; a notification that finds nobody waiting is lost. Only the polling thread waits.
-- What a callback calls while the polling thread runs it is done by one of the other threads.
pub mod Inside
pub mod Bound
pub mod Safe
pub mod Poller
pub mod Client
pub mod Reached
pub mod Moves
pub mod Due
pub mod Runs
pub mod Tests
use xrossfire.Base.{
  ℕ, zero, suc, ◌==◌, Bool, true, false, ◌||◌, Option, none, some, if◌then◌else◌, ◌≡◌,
}
use xrossfire.Base.Int.{ℤ, pos, ◌+ℤ◌, ltb_ℤ, leb_ℤ, ◌≤ℤ◌}
use xrossfire.Avl.Root
use xrossfire.Timeout.{Callback, Timeout, Timeouts, wait_timeout}
use xrossfire.Timeout
use xrossfire.Timeout.Order.{Handle, handle_order}
use xrossfire.Poll.{Pollings, get_wait_timeout}

pub data Owner : Type 0 where
  nobody : Owner
  polling : Owner
  client : ℕ → Owner

-- Where the polling thread stands. `asked` is the clock when the wait was computed; `left` counts the
-- procedures that are still to be run, and `ticks` is the clock when the present one began.
pub data PollPc : Type 0 where
  starting : PollPc
  asking : PollPc
  waiting : (asked timeout : ℤ) → PollPc
  sleeping : (asked timeout deadline : ℤ) (woken : Bool) → PollPc
  waking : PollPc
  running : (left : ℕ) → PollPc
  processing : (left : ℕ) (ticks : ℤ) → PollPc
  calling : (left : ℕ) (ticks : ℤ) (node : Timeout) → PollPc

-- Where another thread stands, in `xf_timeout_schedule` or in `xf_timeout_cancel`.
pub data ClientPc : Type 0 where
  outside : ClientPc
  scheduling : (self : ℕ) (timeout : ℤ) (callback : Callback) (ticks : ℤ) → ClientPc
  inserting : (self : ℕ) (timeout : ℤ) (callback : Callback) (ticks : ℤ) → ClientPc
  notifying : (woken : Bool) → ClientPc
  cancelling : (key : Handle) → ClientPc
  removing : (key : Handle) → ClientPc
  leaving : ClientPc

pub record System : Type 0 where
  pub owner : Owner
  pub clock : ℤ
  pub timeouts : Timeouts
  pub poller : PollPc
  pub clients : ℕ → ClientPc

-- `blocked` is a thread that has to wait.
pub data Outcome : Type 0 where
  moved : System → Outcome
  blocked : Outcome
  faulted : Outcome

abbrev pub set_client : ℕ → ClientPc → (ℕ → ClientPc) → ℕ → ClientPc
set_client k pc clients j = if j == k then pc else clients j

abbrev pub at_client : ℕ → ClientPc → System → System
at_client k pc s = record s { clients = set_client k pc s.clients }

abbrev pub at_poller : PollPc → System → System
at_poller pc s = record s { poller = pc }

abbrev pub monitor_enter : Owner → System → Outcome
monitor_enter who s = elim (s.owner) [
  | nobody ↦ moved (record s { owner = who })
  | polling ↦ blocked
  | client k ↦ blocked
]

abbrev pub monitor_leave : System → System
monitor_leave s = record s { owner = nobody }

-- What the notification makes of the thread that waits, if it does.
abbrev pub monitor_notify : PollPc → PollPc
monitor_notify (sleeping asked timeout deadline woken) = sleeping asked timeout deadline true
monitor_notify pc = pc

abbrev pub after_enter : (System → System) → Outcome → Outcome
after_enter go (moved s) = moved (go s)
after_enter go blocked = blocked
after_enter go faulted = faulted

-- `xf_monitor_wait` leaves the monitor and sleeps.
abbrev pub monitor_wait : ℤ → ℤ → System → System
monitor_wait asked timeout s = record s {
  owner = nobody;
  poller = sleeping asked timeout (s.clock +ℤ timeout) false;
}

-- XF_POLLING_PROCESS, at the test of its loop.
unfoldable pub process_next : ℕ → ℤ → System → Outcome
process_next left ticks s = elim (Root.get_min s.timeouts.tree) [
  | none ↦ moved (at_poller (running left) s)
  | some node ↦
      if leb_ℤ node.key.timestamp ticks
      then elim (Root.remove_min s.timeouts.tree) [
        | none ↦ faulted
        | some tree ↦ moved (
            monitor_leave (record s {
              timeouts = record s.timeouts { tree = tree };
              poller = calling left ticks node;
            }))
      ]
      else moved (at_poller (running left) s)
]

module _ (pollings : Pollings) where
  -- `xf_poll_get_wait_timeout`, and the test of its result.
  unfoldable pub ask : System → Outcome
  ask s = elim (get_wait_timeout pollings (λ procedure. wait_timeout s.timeouts s.clock)) [
    | none ↦ faulted
    | some timeout ↦ moved (
        at_poller
          (if ltb_ℤ (pos 0) timeout then waiting s.clock timeout else running pollings.n_pollings)
          s)
  ]

  -- The polling thread, in `xf_poll_loop` with the procedure of src/timeout.c alone in the table.
  unfoldable pub move_poller : PollPc → System → Outcome
  unfolding ask process_next
  move_poller starting s = after_enter (at_poller asking) (monitor_enter polling s)
  move_poller asking s = ask s
  move_poller (waiting asked timeout) s = moved (monitor_wait asked timeout s)
  move_poller (sleeping asked timeout deadline woken) s =
      if woken || leb_ℤ deadline s.clock then moved (at_poller waking s) else blocked
  move_poller waking s = after_enter (at_poller asking) (monitor_enter polling s)
  move_poller (running zero) s = moved (at_poller asking s)
  move_poller (running (suc left)) s = moved (at_poller (processing left s.clock) s)
  move_poller (processing left ticks) s = process_next left ticks s
  move_poller (calling left ticks node) s =
      after_enter (at_poller (processing left ticks)) (monitor_enter polling s)

-- Another thread.
unfoldable pub move_client : ℕ → ClientPc → System → Outcome
move_client k outside s = blocked
move_client k (scheduling self timeout callback ticks) s =
    after_enter (at_client k (inserting self timeout callback ticks)) (monitor_enter (client k) s)
move_client k (inserting self timeout callback ticks) s =
    elim (Timeout.schedule s.timeouts self timeout callback ticks) [
      | none ↦ faulted
      | some (timeouts, node, woken) ↦
          moved (at_client k (notifying woken) (record s { timeouts = timeouts }))
    ]
move_client k (notifying woken) s =
    moved (at_client k leaving (at_poller (if woken then monitor_notify s.poller else s.poller) s))
move_client k (cancelling key) s =
    after_enter (at_client k (removing key)) (monitor_enter (client k) s)
move_client k (removing key) s = elim (Timeout.cancel s.timeouts key) [
  | none ↦ faulted
  | some (timeouts, found) ↦ moved (at_client k leaving (record s { timeouts = timeouts }))
]
move_client k leaving s = moved (at_client k outside (monitor_leave s))

-- What may happen next. A client calls one of the two functions, and the clock does not go back.
pub data Step (pollings : Pollings) (s : System) : System → Type 0 where
  poller_moves : {t : System} → move_poller pollings s.poller s ≡ moved t → Step pollings s t
  client_moves : (k : ℕ) {t : System} → move_client k (s.clients k) s ≡ moved t → Step pollings s t
  schedules :
      (k self : ℕ) (timeout : ℤ) (callback : Callback)
      → s.clients k ≡ outside
      → Step pollings s (at_client k (scheduling self timeout callback s.clock) s)
  cancels :
      (k : ℕ) (key : Handle)
      → s.clients k ≡ outside
      → Step pollings s (at_client k (cancelling key) s)
  passes : (clock : ℤ) → s.clock ≤ℤ clock → Step pollings s (record s { clock = clock })
  wakes_early :
      {asked timeout deadline : ℤ} {woken : Bool}
      → s.poller ≡ sleeping asked timeout deadline woken
      → Step pollings s (at_poller waking s)

-- The table of timeouts is empty, and the polling thread has been started.
abbrev pub initial : ℤ → System
initial clock = record {
  owner = nobody;
  clock = clock;
  timeouts = Timeout.init;
  poller = starting;
  clients = λ k. outside;
}

pub data Reach (pollings : Pollings) (clock : ℤ) : System → Type 0 where
  start : Reach pollings clock (initial clock)
  later : {s t : System} → Reach pollings clock s → Step pollings s t → Reach pollings clock t
