-- ===== src/Net/Dispatch.antt =====
-- src/win32/io_completion_port.c: a worker's turn with a packet of an operation calls the procedure for
-- the type of the operation.
use xrossfire.Base.{
  ℕ, suc, ◌≡◌, refl, Bool, true, false, Option, some, ◌==◌, if◌then◌else◌, ◌>>=◌, Returns,
}
use xrossfire.Async.{receive, World}
use xrossfire.Async.Notify.{Platform}
use xrossfire.Async.Counts.{Operation, record_at, Holds}
use xrossfire.Port.{handle, System, derr, serve}
use xrossfire.Net.{Net, io_connect_phase2, io_disconnect, io_receive, io_send, io_accept}
use xrossfire.Net.Socket.{completed_disconnect, completed_receive, completed_send}
use xrossfire.Net.Connect.{completed_connect_phase2}
use xrossfire.Net.Server.{completed_accept}
use xrossfire.Net.Finished.{reported, received, completed_receive-Holds}

-- `malloc` gives the address of a new socket object, and `registered` the error of its registration.
module _ (platform : Platform Net) (fuel : ℕ) (malloc : Option ℕ) (registered : ℕ) where
  unfoldable pub complete_type : ℕ → ℕ → ℕ → ℕ → World Net → Option (World Net)
  complete_type io_type error transfered p w =
      if io_type == io_connect_phase2
      then completed_connect_phase2 platform fuel error malloc p w
      else (if io_type == io_disconnect
          then completed_disconnect platform fuel error p w
          else (if io_type == io_receive
              then completed_receive platform fuel error transfered p w
              else (if io_type == io_send
                  then completed_send platform fuel error transfered p w
                  else (if io_type == io_accept
                      then completed_accept platform fuel error registered malloc p w
                      else some w))))

  unfoldable pub complete : ℕ → ℕ → ℕ → Option (World Net) → Option (World Net)
  complete error transfered p world = do
    w ← world
    self ← w.asyncs p
    complete_type self.io_async.io_type error transfered p w

module _ (platform : Platform Net) (op : Operation) (act : ℕ → Net → Net)
    (calm : (error : ℕ) (w : World Net)
      → platform.completed op.completed error op.context w
        ≡ some (record w { rest = act error w.rest })) where
  complete-receive :
      (fuel registered error transfered : ℕ) (malloc : Option ℕ) (n : ℕ) (canceled : Bool)
      (w : World Net)
      → w.asyncs op.address ≡ some (record_at op n canceled false)
      → op.io.io_type ≡ io_receive
      → complete platform fuel malloc registered error transfered op.address (some w)
        ≡ completed_receive platform fuel error transfered op.address w
  unfolding complete complete_type
  complete-receive fuel registered error transfered malloc n canceled w here kind =
      rw here (simp kind refl)

  -- Let an operation with a completion procedure, without parent or child, that is not completed,
  -- have n + 1 holders, and one more while its timeout is pending, and let its completion
  -- procedure not touch the records and the table of timeouts. Let it be receiving. A worker's
  -- turn with its packet never faults, with any fuel but none: the length is written to the
  -- caller's variable if there is one and no error, the completion procedure is called once, with
  -- XF_ERROR, or 0 without an error, and n holders are left.
  pub serve-receive :
      (fuel n registered transfered : ℕ) (malloc failed out : Option ℕ) (armed canceled : Bool)
      (r : Net) (w : World Net) (s : System (Option (World Net)))
      → s.rest ≡ some w
      → op.io.io_type ≡ io_receive
      → op.io.context ≡ receive out
      → Holds platform op (suc (if armed then suc n else n)) armed canceled false r w
      → Returns
          ((serve
            (complete platform (suc fuel) malloc registered)
            (handle failed transfered op.address)
            s).rest)
          (Holds platform op n false canceled true
            (act (reported (derr failed)) (received (derr failed) out transfered r)))
  unfolding serve
  serve-receive fuel n registered transfered malloc failed out armed canceled r w s rest_is kind
        at_receive h =
      rw rest_is (
        rw
          (complete-receive (suc fuel) registered (derr failed) transfered malloc
            (if armed then suc n else n) canceled w h.here kind)
          (completed_receive-Holds platform op act calm fuel n (derr failed) transfered armed
            canceled out r w at_receive h))
