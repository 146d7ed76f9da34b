-- ===== src/Async.antt =====
-- src/async.c: the records of asynchronous operations, in a store by address.
--
-- A read of an address where nothing is live is a fault. Each call is one step: the monitor of a
-- record is entered again by the thread that holds it, and what other threads do meanwhile is part of
-- what a callback may do. `rest` is the state of the rest of the program and of the operating system.
pub mod Notify
pub mod Create
pub mod Counts
pub mod Once
pub mod Again
pub mod Life
pub mod Held
pub mod Lives
pub mod Pending
pub mod Pair
pub mod Phases
pub mod Parent
pub mod Ends
pub mod Linked
pub mod Cancelled
pub mod Nested
pub mod Start
pub mod Tests
use xrossfire.Base.{ℕ, Bool, Option, none, some, ◌==◌, if◌then◌else◌, ◌>>=◌}
use xrossfire.Base.Int.{ℤ}
use xrossfire.Timeout.{Timeouts}
use xrossfire.Timeout.Order.{Handle}

-- The union `context`, with the members that the operations use; every byte is 0 in `no_context`.
pub data IoContext : Type 0 where
  no_context : IoContext
  connect : (addrs : Option ℕ) (out : ℕ) → IoContext
  disconnect : (socket : ℕ) → IoContext
  receive : (transfered : Option ℕ) → IoContext
  accept : (out server : ℕ) (accepted_socket buf : Option ℕ) → IoContext

-- `handle` is none if it is INVALID_HANDLE_VALUE.
pub record IoAsync : Type 0 where
  pub handle : Option ℕ
  pub io_type : ℕ
  pub context : IoContext

-- The union, with XF_ASYNC_ASYNC, XF_ASYNC_WAIT and XF_ASYNC_MULTIPHASE.
pub data Body : Type 0 where
  async : (called : Bool) (completed context : ℕ) → Body
  wait : (status error : ℕ) → Body
  multi_phase : (procedure : ℕ) (next_phase : ℤ) (context : ℕ) → Body

pub record Async : Type 0 where
  pub io_async : IoAsync
  pub ref : ℤ
  pub canceled : Bool
  pub timeout : Handle
  pub parent : Option ℕ
  pub child_async : Option ℕ
  pub body : Body

pub record World {ℓ} (W : Type ℓ) : Type ℓ where
  pub asyncs : ℕ → Option Async
  pub timeouts : Timeouts
  pub rest : W

abbrev pub update : ℕ → Option Async → (ℕ → Option Async) → ℕ → Option Async
update p v store k = if k == p then v else store k

module _ {ℓ} {W : Type ℓ} where
  abbrev pub write : ℕ → Async → World W → World W
  write p self w = record w { asyncs = update p (some self) w.asyncs }

  -- Sets `child_async` of the record that a pointer leads to, if it is not NULL.
  unfoldable pub set_child : Option ℕ → Option ℕ → World W → Option (World W)
  set_child none child w = some w
  set_child (some p) child w =
      w.asyncs p >>= λ self. some (write p (record self { child_async = child }) w)
